-- ===== src/Links/Inbounds.antt =====
-- internal/commands/subscription.go against internal/templates/render.go: the links that a node hands
-- out, and the inbounds that its xray config has.
use cf_vpn.Prelude.{
  ℕ, Bool, true, false, not, ◌&&◌, List, [], ◌∷◌, ◌++◌, drop, map, Option, none, some, String, ◌≡◌,
  refl, sym, subst, ◌⊎◌, inl, inr, arith, if◌then◌else◌, ok, err, ok-injective,
}
use cf_vpn.Text.{Bytes, codes, equal, is_empty}
use cf_vpn.Text.Order.{less}
use cf_vpn.Dict.{Dict, lookup, put, put_all, delete}
use cf_vpn.State.{Env}
use cf_vpn.Json.{Json, null, text, Read, as_dict, as_slice, read_all, elements}
use cf_vpn.Xray.{Inbound, Config, unmarshal_config}
use cf_vpn.Subscription.{
  vless_httpupgrade_uri, vless_xhttp_uri, vless_xhttp_direct_uri, vless_xhttp_h3_uri,
}
use cf_vpn.Templates.{RenderError}
use cf_vpn.Templates.Xray
use cf_vpn.Templates.Xray.{
  XrayUser, XrayDirectRealityInputs, render_xray_cloudflare_opts, render_xray_direct_reality,
  config_json, cloudflare_inbounds, direct_inbounds, vless_path, when,
}
use cf_vpn.Links.{
  GoText, at, trimmed_at, or_else_text, xhttp_enabled, xray_cloudflare_opts_from_env,
  with_h3_from_env, with_h3, cloudflare_lines, h3_lines, reality_lines, vless_lines,
}

abbrev or_null : Option Json → Json
or_null none = null
or_null (some j) = j

abbrev value_in : String → Read (Dict Json) → Json
value_in k (ok m) = or_null (lookup (codes k) m)
value_in k (err e) = null

abbrev in_object : String → Json → Json
in_object k j = value_in k (as_dict j)

abbrev as_bytes : Json → Bytes
as_bytes (text s) = s
as_bytes _ = []

abbrev text_in : String → Json → Bytes
text_in k j = as_bytes (in_object k j)

-- The link that reaches an inbound, read off its tag and its stream settings.
abbrev pub link_by : Bytes → Bytes → Bytes → Json → Json → Bytes
link_by tag uuid name upgrade xhttp =
    if equal name (codes "vless-httpupgrade")
    then vless_httpupgrade_uri tag uuid (text_in "host" upgrade) (text_in "path" upgrade)
    else if equal name (codes "vless-xhttp")
    then vless_xhttp_uri tag uuid (text_in "host" xhttp) (text_in "path" xhttp)
        (text_in "mode" xhttp)
    else if equal name (codes "vless-xhttp-direct")
    then vless_xhttp_direct_uri tag uuid (text_in "host" xhttp) (text_in "path" xhttp)
        (text_in "mode" xhttp)
    else vless_xhttp_h3_uri tag uuid (text_in "host" xhttp) (text_in "path" xhttp)
        (text_in "mode" xhttp)

unfoldable pub link : Bytes → Bytes → Inbound → Bytes
unfolding equal lookup
link tag uuid i =
    let stream = or_null (lookup (codes "streamSettings") i.extras) in
    link_by tag uuid (as_bytes (or_null (lookup (codes "tag") i.extras)))
      (in_object "httpupgradeSettings" stream) (in_object "xhttpSettings" stream)

-- The config that a document holds, and the links of its inbounds.
pub record Links (tag uuid : Bytes) (j : Json) (skipped : ℕ) (lines : List Bytes) : Type 0 where
  pub config : Config
  pub reads : unmarshal_config j ≡ ok config
  pub links : map (link tag uuid) (drop skipped (elements config.inbounds)) ≡ lines

abbrev cloudflare_uris : Bytes → Bytes → Bytes → Bool → Bytes → Bytes → Bool → List Bytes
cloudflare_uris tag uuid domain xhttp host path direct =
    vless_httpupgrade_uri tag uuid domain vless_path
    ∷ (when xhttp (vless_xhttp_uri tag uuid domain Xray.xhttp_path Xray.xhttp_mode)
        ++ when direct (vless_xhttp_direct_uri tag uuid host path Xray.xhttp_direct_mode))

cloudflare-Links :
    (tag uuid domain : Bytes) (us : List XrayUser) (dns : List Bytes) (xhttp : Bool)
    (host path : Bytes)
    → Links tag uuid
        (config_json dns (
          cloudflare_inbounds us domain
            (record { xhttp = xhttp; direct_host = host; direct_path = path })))
        0
        (cloudflare_uris tag uuid domain xhttp host path (not (is_empty host)))
unfolding config_json unmarshal_config as_slice read_all put_all put lookup delete less equal link
cloudflare-Links tag uuid domain us dns true [] path = record {
  config = _;
  reads = refl;
  links = refl;
}
cloudflare-Links tag uuid domain us dns true (c ∷ h) path = record {
  config = _;
  reads = refl;
  links = refl;
}
cloudflare-Links tag uuid domain us dns false [] path = record {
  config = _;
  reads = refl;
  links = refl;
}
cloudflare-Links tag uuid domain us dns false (c ∷ h) path = record {
  config = _;
  reads = refl;
  links = refl;
}

path_lem : (p : Bytes) → (p ≡ []) ⊎ (p ≡ vless_path) → or_else_text p vless_path ≡ vless_path
path_lem [] h = refl
path_lem (c ∷ p) (inl h) = absurd (cc h)
path_lem (c ∷ p) (inr h) = h

-- Where the host and the path are given together or not at all, the two tests are one.
rendered_pair :
    (us : List XrayUser) (domain : Bytes) (dns : List Bytes) (xhttp : Bool) (h p : Bytes) (j : Json)
    → render_xray_cloudflare_opts us domain dns
        (record { xhttp = xhttp; direct_host = h; direct_path = p })
      ≡ ok j
    → ((not (is_empty h) && not (is_empty p)) ≡ not (is_empty h))
      × (config_json dns (
            cloudflare_inbounds us domain
              (record { xhttp = xhttp; direct_host = h; direct_path = p }))
          ≡ j)
unfolding render_xray_cloudflare_opts
rendered_pair us domain dns xhttp [] [] j e = (refl, ok-injective {E = RenderError} e)
rendered_pair us domain dns xhttp [] (d ∷ p) j e = absurd (cc e)
rendered_pair us domain dns xhttp (c ∷ h) [] j e = absurd (cc e)
rendered_pair us domain dns xhttp (c ∷ h) (d ∷ p) j e =
    (refl, ok-injective {E = RenderError} (ground arith))

-- On a cloudflare node whose XHTTP_PATH is empty or the path of the renderer, whenever the xray
-- config is rendered from the env file, the vless links that the node hands out are those of the
-- inbounds of that config, one for each and in their order, with the host, the path and the mode
-- that the inbound has.
pub vless_lines-Links :
    (texts : GoText) (tag uuid domain : Bytes) (us : List XrayUser) (dns : List Bytes) (env : Env)
    (j : Json)
    → trimmed_at env "MODE" ≡ codes "cloudflare"
    → (at env "XHTTP_PATH" ≡ []) ⊎ (at env "XHTTP_PATH" ≡ vless_path)
    → render_xray_cloudflare_opts us domain dns (xray_cloudflare_opts_from_env env) ≡ ok j
    → Links tag uuid j 0 (vless_lines texts tag uuid domain env)
unfolding vless_lines cloudflare_lines xray_cloudflare_opts_from_env equal
vless_lines-Links texts tag uuid domain us dns env j m p h =
    let host = trimmed_at env "XHTTP_DIRECT_HOST" in
    let path = trimmed_at env "XHTTP_DIRECT_PATH" in
    let (both, e) = rendered_pair us domain dns (xhttp_enabled env) host path j h in
    subst (Links tag uuid j 0) (sym (rw m (rw (path_lem (at env "XHTTP_PATH") p) (rw both refl)))) (
      subst
        (λ k.
          Links tag uuid k 0
            (cloudflare_uris tag uuid domain (xhttp_enabled env) host path (not (is_empty host))))
        e (cloudflare-Links tag uuid domain us dns (xhttp_enabled env) host path))

direct_rendered :
    (inputs : XrayDirectRealityInputs) (j : Json)
    → render_xray_direct_reality inputs ≡ ok j
    → config_json inputs.dns_servers (direct_inbounds inputs) ≡ j
unfolding render_xray_direct_reality
direct_rendered inputs j h = ok-injective {E = RenderError} (ground arith)

abbrev h3_uris : Bytes → Bytes → Bytes → Bytes → List Bytes
h3_uris tag uuid host path =
    when (not (is_empty host) && not (is_empty path))
      (vless_xhttp_h3_uri tag uuid host path Xray.xhttp_h3_mode)

direct-Links :
    (tag uuid : Bytes) (inputs : XrayDirectRealityInputs) (host path : Bytes)
    → inputs.h3_host ≡ []
    → Links tag uuid
        (config_json
          (with_h3 inputs host path).dns_servers
          (direct_inbounds (with_h3 inputs host path)))
        1
        (h3_uris tag uuid host path)
unfolding config_json unmarshal_config as_slice read_all put_all put lookup delete less equal link
direct-Links tag uuid inputs [] path e = rw e (record { config = _; reads = refl; links = refl })
direct-Links tag uuid inputs (c ∷ h) [] e = rw e (record { config = _; reads = refl; links = refl })
direct-Links tag uuid inputs (c ∷ h) (d ∷ p) e = record { config = _; reads = refl; links = refl }

-- On a direct node, whenever the xray config is rendered from inputs without an H3 route after
-- `WithH3FromEnv`, the vless links are those of REALITY followed by the links of the other inbounds
-- of that config: one XHTTP link exactly where there is an H3 inbound, with its host, path and mode.
pub direct_lines-Links :
    (texts : GoText) (tag uuid domain : Bytes) (inputs : XrayDirectRealityInputs) (env : Env)
    (j : Json)
    → trimmed_at env "MODE" ≡ codes "direct"
    → inputs.h3_host ≡ []
    → render_xray_direct_reality (with_h3_from_env inputs env) ≡ ok j
    → (rest : List Bytes) × Links tag uuid j 1 rest
      × (vless_lines texts tag uuid domain env ≡ reality_lines texts tag uuid domain env ++ rest)
unfolding vless_lines h3_lines with_h3_from_env equal
direct_lines-Links texts tag uuid domain inputs env j m e h =
    let host = trimmed_at env "XHTTP_H3_HOST" in
    let path = trimmed_at env "XHTTP_H3_PATH" in
    (
      h3_lines tag uuid env,
      subst (λ k. Links tag uuid k 1 (h3_uris tag uuid host path))
          (direct_rendered (with_h3 inputs host path) j h)
          (direct-Links tag uuid inputs host path e),
      rw m refl,
    )
