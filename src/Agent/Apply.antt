-- ===== src/Agent/Apply.antt =====
-- cmd/cfvpn-agent/main.go: `currentSyncUsers`, `renderXrayForMode` and `applyUsers`.
use cf_vpn.Prelude.{
  ℕ, Bool, true, false, not, ◌&&◌, List, [], ◌∷◌, map, any, length, Option, none, some,
  if◌then◌else◌, Result, ok, err,
}
use cf_vpn.Text.{Bytes, codes, equal, is_empty}
use cf_vpn.Text.Trim.{trim_space}
use cf_vpn.Dict.{Dict, lookup, put_all}
use cf_vpn.Json.{Json}
use cf_vpn.State.{Env, get, load}
use cf_vpn.Hysteria.{User, parse_users, sort_users}
use cf_vpn.Xray.{Config, unmarshal_config}
use cf_vpn.Xray.Accounts.{validate_user_name, list_user_names, get_vless_client}
use cf_vpn.Node.{
  env_file, xray_config, hysteria_config, hysteria_service, regenerate_call, World, Node, ReadError,
  make, read_file, restart,
}
use cf_vpn.Node.Apply.{apply_xray_config}
use cf_vpn.Templates.{RenderError}
use cf_vpn.Templates.Xray.{
  XrayUser, XrayDirectRealityInputs, render_xray_cloudflare_opts, render_xray_direct_reality,
}
use cf_vpn.Links.{
  at, trimmed_at, hy2_enabled, xray_cloudflare_opts_from_env, xray_dns_servers_from_env,
  with_h3_from_env,
}
use cf_vpn.Users.{set_users, parsed}
use cf_vpn.Users.Secrets.{generate_password}
use cf_vpn.Agent.{SyncUser, missing_password, Outside}

abbrev pub or_empty : Option Bytes → Bytes
or_empty none = []
or_empty (some b) = b

-- The user of a name, with a fresh password where the hysteria config has none.
abbrev pub minted : Bytes → Bytes → Option Bytes → Option SyncUser
minted name uuid none = none
minted name uuid (some b) =
    some (record { name = name; vless_uuid = uuid; hy2_pw = generate_password b })

abbrev pub sync_user : Bytes → Bytes → Bytes → Option Bytes → Option SyncUser
sync_user name uuid pw fresh =
    if is_empty pw
    then minted name uuid fresh
    else some (record { name = name; vless_uuid = uuid; hy2_pw = pw })

abbrev pub prepend_user : Option SyncUser → Option (List SyncUser) → Option (List SyncUser)
prepend_user none rest = none
prepend_user (some u) none = none
prepend_user (some u) (some rest) = some (u ∷ rest)

abbrev pub with_client :
    Option Bytes
    → Bytes
    → Dict Bytes
    → Option Bytes
    → Option (List SyncUser)
    → Option (List SyncUser)
with_client none name by_name fresh rest = none
with_client (some uuid) name by_name fresh rest =
    prepend_user (sync_user name uuid (or_empty (lookup name by_name)) fresh) rest

-- The loop over the names; `seen` are those that it has passed.
unfoldable pub collect_sync_users :
    Config → Dict Bytes → (ℕ → Option Bytes) → List Bytes → List Bytes → Option (List SyncUser)
unfolding get_vless_client equal lookup generate_password
collect_sync_users cfg by_name fresh seen [] = some []
collect_sync_users cfg by_name fresh seen (name ∷ names) =
    let rest = collect_sync_users cfg by_name fresh (name ∷ seen) names in
    if any (equal name) seen
    then rest
    else with_client (get_vless_client cfg name) name by_name (fresh (length seen)) rest

abbrev pub passwords : List User → Dict Bytes
passwords us = put_all [] (map (λ (u : User). (u.name, u.password)) us)

abbrev pub ordered : Outside → Option (List SyncUser) → Option (List SyncUser)
ordered o none = none
ordered o (some us) = some (o.order us)

abbrev pub current_of :
    Outside → Node → Option Config → Result ReadError Bytes → Option (List SyncUser)
current_of o s none body = none
current_of o s (some cfg) (err e) = none
current_of o s (some cfg) (ok body) = ordered o (
    collect_sync_users cfg (passwords (sort_users (parse_users body)))
      (λ k. o.random s.calls (missing_password k)) [] (list_user_names cfg))

abbrev pub config_on_disk : Outside → Result ReadError Bytes → Option Config
config_on_disk o (err e) = none
config_on_disk o (ok body) = parsed (o.parse body)

-- `currentSyncUsers`
unfoldable pub current_sync_users : Outside → Node → Option (List SyncUser)
unfolding collect_sync_users parse_users put_all list_user_names unmarshal_config
current_sync_users o s =
    current_of o s (config_on_disk o (read_file o.world xray_config s))
      (read_file o.world hysteria_config s)

abbrev pub to_template_users : List SyncUser → List XrayUser
to_template_users us = map (λ (u : SyncUser). record { name = u.name; uuid = u.vless_uuid }) us

-- `IsRealityMode`
unfoldable pub is_reality_mode : Env → Bool
unfolding get equal
is_reality_mode env =
    equal (at env "MODE") (codes "direct")
    && (not (is_empty (at env "REALITY_PRIVATE_KEY")) && not (is_empty (at env "REALITY_SHORT_ID")))

abbrev pub reality_inputs : Env → List XrayUser → XrayDirectRealityInputs
reality_inputs env us = record {
  users = us;
  private_key = at env "REALITY_PRIVATE_KEY";
  short_ids = at env "REALITY_SHORT_ID" ∷ [];
  dest = at env "REALITY_DEST";
  server_names = at env "REALITY_SNI" ∷ [];
  dns_servers = xray_dns_servers_from_env env;
  h3_host = [];
  h3_path = [];
  h3_cert = [];
  h3_key = [];
}

abbrev pub document_of : Result RenderError Json → Option Json
document_of (ok j) = some j
document_of (err e) = none

-- `renderXrayForMode`: the document that is marshalled.
unfoldable pub render_xray_for_mode : Env → List XrayUser → Option Json
unfolding get equal trim_space is_reality_mode render_xray_cloudflare_opts
    render_xray_direct_reality with_h3_from_env xray_cloudflare_opts_from_env
    xray_dns_servers_from_env
render_xray_for_mode env us =
    if equal (trimmed_at env "MODE") (codes "cloudflare")
    then document_of (
        render_xray_cloudflare_opts us (at env "DOMAIN") (xray_dns_servers_from_env env)
          (xray_cloudflare_opts_from_env env))
    else if is_reality_mode env
    then document_of (render_xray_direct_reality (with_h3_from_env (reality_inputs env us) env))
    else none

abbrev pub is_name_ok : {E : Type 0} → Result E (Unit {0}) → Bool
is_name_ok (ok u) = true
is_name_ok (err e) = false

-- One user of the loop at the start of `applyUsers`.
unfoldable pub is_complete : SyncUser → Bool
unfolding validate_user_name trim_space
is_complete u =
    is_name_ok (validate_user_name u.name)
    && (not (is_empty (trim_space u.vless_uuid)) && not (is_empty (trim_space u.hy2_pw)))

abbrev pub all_complete : List SyncUser → Bool
all_complete [] = true
all_complete (u ∷ us) = is_complete u && all_complete us

abbrev pub env_on_disk : Result ReadError Bytes → Option Env
env_on_disk (err e) = none
env_on_disk (ok body) = elim (load body) [ ok m ↦ some m | err e ↦ none ]

abbrev pub hysteria_users : List SyncUser → List User
hysteria_users us = map (λ (u : SyncUser). record { name = u.name; password = u.hy2_pw }) us

abbrev pub regenerate_after : World → Env → Bool × Node → Bool × Node
regenerate_after w env (false, s) = (false, s)
regenerate_after w env (true, s) = make w (regenerate_call (at env "DOMAIN")) s

abbrev pub reload_after : World → Env → Bool × Node → Bool × Node
reload_after w env (false, s) = (false, s)
reload_after w env (true, s) = if hy2_enabled env then restart w hysteria_service s else (true, s)

-- The part behind the restart of xray.
abbrev pub mirrored : World → Env → List SyncUser → Bool × Node → Bool × Node
mirrored w env us (false, s) = (false, s)
mirrored w env us (true, s) =
    regenerate_after w env (reload_after w env (set_users w (hysteria_users us) s))

abbrev pub publish_users : Outside → Env → List SyncUser → Node → Option Json → Bool × Node
publish_users o env us s none = (false, s)
publish_users o env us s (some j) =
    mirrored o.world env us (apply_xray_config o.world (o.print j) s)

abbrev pub with_env : Outside → List SyncUser → Node → Option Env → Bool × Node
with_env o us s none = (false, s)
with_env o us s (some env) =
    publish_users o env us s (render_xray_for_mode env (to_template_users us))

-- `applyUsers`: did it return nil?
unfoldable pub apply_users : Outside → List SyncUser → Node → Bool × Node
unfolding is_complete load get hy2_enabled set_users apply_xray_config render_xray_for_mode
apply_users o us s =
    if all_complete us
    then with_env o us s (env_on_disk (read_file o.world env_file s))
    else (false, s)
