-- ===== src/Users.antt =====
-- internal/commands/users.go: the commands that add and remove a user and that print links, on the
-- node and its directory of subscriptions. Output and warnings on stderr are left out.
pub mod Secrets
pub mod Added
pub mod Revoke
pub mod Removed
mod Tests
use cf_vpn.Prelude.{
  ℕ, zero, suc, Bool, true, false, not, ◌&&◌, List, [], ◌∷◌, ◌++◌, map, filter, any, length, leb,
  Option, none, some, if◌then◌else◌, Result, ok, err,
}
use cf_vpn.Text.{Bytes, codes, equal, is_empty}
use cf_vpn.Atomic.{WriteError, plain, durability}
use cf_vpn.Dict.{Dict, lookup, put, delete, put_all}
use cf_vpn.Json.{Json}
use cf_vpn.State.{Env, get, load}
use cf_vpn.Hysteria.{User, parse_users, sort_users, replace_userpass}
use cf_vpn.Xray.{Config, marshal_config, unmarshal_config}
use cf_vpn.Xray.Accounts.{
  UserError, validate_user_name, list_user_names, count_users, get_vless_client, add_user,
  remove_user,
}
use cf_vpn.Node.{
  env_file, xray_config, hysteria_config, hysteria_service, Log, World, Node, ReadError, missing,
  failed, read_file, write_atomic, write_strictly, restart,
}
use cf_vpn.Node.Apply.{apply_xray_config}
use cf_vpn.Links.{GoText, build_user_uris}
use cf_vpn.Users.Secrets.{generate_uuid_v4, generate_password}

abbrev pub max_users : ℕ
max_users = 5

-- encoding/json, `BuildSubscriptionB64` on the links, and two functions of strings and netip.
pub record Library : Type 0 where
  pub parse : Bytes → Option Json
  pub print : Json → Bytes
  pub subscription : List Bytes → Bytes
  pub texts : GoText

-- What the environment answers: the node's, whether `AcquireConfigLock` gets the lock, what `n` bytes
-- of crypto/rand are, and what becomes of the writes and the removals of subscription files.
pub record Answers : Type 0 where
  pub world : World
  pub locks : Log → Bool
  pub random : Log → ℕ → Option Bytes
  pub write_error : Log → Bytes → Bytes → Option WriteError
  pub removes : Log → Bytes → Bool

pub record Host : Type 0 where
  pub node : Node
  pub subscriptions : Dict Bytes

pub data CommandError : Type 0 where
  refused : UserError → CommandError
  no_domain lock_busy load_failed user_limit user_exists no_random hysteria_failed : CommandError
  apply_failed subscription_failed user_not_found : CommandError

abbrev pub Outcome : Type 0 → Type 0
Outcome A = Result CommandError A × Host

abbrev pub at_node : Host → Node → Host
at_node h s = record { node = s; subscriptions = h.subscriptions }

abbrev pub parsed : Option Json → Option Config
parsed none = none
parsed (some j) = elim (unmarshal_config j) [ ok cfg ↦ some cfg | err e ↦ none ]

abbrev pub config_of : Library → Result ReadError Bytes → Option Config
config_of lib (ok body) = parsed (lib.parse body)
config_of lib (err e) = none

-- `xray.Load`
abbrev pub load_xray : Library → World → Node → Option Config
load_xray lib w s = config_of lib (read_file w xray_config s)

abbrev pub env_of : Result ReadError Bytes → Env
env_of (err e) = []
env_of (ok body) = elim (load body) [ ok m ↦ m | err e ↦ [] ]

-- `state.Load`, with no entries where it fails.
abbrev pub load_env : World → Node → Env
load_env w s = env_of (read_file w env_file s)

-- `hysteria.SetUsers`: did it return nil?
abbrev pub replaced : World → Bytes × Bool → Node → Bool × Node
replaced w (out, false) s = (false, s)
replaced w (out, true) s = write_strictly w hysteria_config out s

abbrev pub with_body : World → List User → Node → Result ReadError Bytes → Bool × Node
with_body w users s (err e) = (false, s)
with_body w users s (ok body) = replaced w (replace_userpass body users) s

unfoldable pub set_users : World → List User → Node → Bool × Node
unfolding replace_userpass write_atomic
set_users w users s = with_body w users s (read_file w hysteria_config s)

abbrev pub reloaded : World → Bool × Node → Bool × Node
reloaded w (false, s) = (false, s)
reloaded w (true, s) = restart w hysteria_service s

-- `SetUsers` and `ReloadService`
abbrev pub set_and_reload : World → List User → Node → Bool × Node
set_and_reload w users s = reloaded w (set_users w users s)

abbrev pub password_of : Bytes → List User → Option Bytes
password_of name [] = none
password_of name (u ∷ us) =
    let rest = password_of name us in if equal u.name name then some u.password else rest

abbrev pub joined : Bytes → Bool × Node → Result CommandError Bytes × Node
joined pw (true, s) = (ok pw, s)
joined pw (false, s) = (err hysteria_failed, s)

abbrev pub fresh_password :
    World → Bytes → List User → Node → Option Bytes → Result CommandError Bytes × Node
fresh_password w name users s none = (err no_random, s)
fresh_password w name users s (some b) =
    let pw = generate_password b in
    joined pw (set_and_reload w (users ++ (record { name = name; password = pw }) ∷ []) s)

abbrev pub known_password :
    World
    → Bytes
    → List User
    → Node
    → Option Bytes
    → Option Bytes
    → Result CommandError Bytes × Node
known_password w name users s b (some pw) = (ok pw, s)
known_password w name users s b none = fresh_password w name users s b

abbrev pub listed_users :
    World → Bytes → Node → Option Bytes → Result ReadError Bytes → Result CommandError Bytes × Node
listed_users w name s b (err missing) = (ok [], s)
listed_users w name s b (err failed) = (err hysteria_failed, s)
listed_users w name s b (ok body) =
    let users = sort_users (parse_users body) in
    known_password w name users s b (password_of name users)

-- `addHysteriaUser`
unfoldable pub add_hysteria_user : Answers → Bytes → Node → Result CommandError Bytes × Node
unfolding generate_password parse_users set_users
add_hysteria_user a name s =
    listed_users a.world name s (a.random s.calls 24) (read_file a.world hysteria_config s)

-- `writeSubscriptionFile`, a directory that cannot be made counted as a write that fails.
abbrev pub after_sub : Bytes → Bytes → Option WriteError → Dict Bytes → Dict Bytes
after_sub name content (some plain) subs = subs
after_sub name content (some durability) subs = put name content subs
after_sub name content none subs = put name content subs

abbrev pub sub_result : Bytes → Option WriteError → Result CommandError Bytes
sub_result sub none = ok sub
sub_result sub (some e) = err subscription_failed

abbrev pub write_subscription_file : Answers → Bytes → Bytes → Host → Outcome Bytes
write_subscription_file a name sub h =
    let content = sub ++ codes "\n" in
    let e = a.write_error h.node.calls name content in
    (
      sub_result sub e,
      record { node = h.node; subscriptions = after_sub name content e h.subscriptions },
    )

abbrev pub flow_of : Env → Bytes
flow_of env =
    if equal (get env (codes "MODE")) (codes "direct")
      && not (is_empty (get env (codes "REALITY_PRIVATE_KEY")))
    then codes "xtls-rprx-vision"
    else []

abbrev pub applied : Answers → Bytes → Bytes → Bool × Node → Host → Outcome Bytes
applied a name sub (false, s) h = (err apply_failed, at_node h s)
applied a name sub (true, s) h = write_subscription_file a name sub (at_node h s)

module _ (a : Answers) (lib : Library) (name domain : Bytes) where
  abbrev pub publish_user : Host → Bytes → Env → Bytes → Result UserError Config → Outcome Bytes
  publish_user h uuid env pw (err e) = (err (refused e), h)
  publish_user h uuid env pw (ok cfg) =
      applied a name (lib.subscription (build_user_uris lib.texts name uuid domain pw env))
        (apply_xray_config a.world (lib.print (marshal_config cfg)) h.node) h

  abbrev pub with_hysteria :
      Host → Config → Bytes → Env → Result CommandError Bytes × Node → Outcome Bytes
  with_hysteria h cfg uuid env (err e, s) = (err e, at_node h s)
  with_hysteria h cfg uuid env (ok pw, s) =
      publish_user (at_node h s) uuid env pw (add_user cfg name uuid (flow_of env))

  abbrev pub with_uuid : Host → Config → Option Bytes → Outcome Bytes
  with_uuid h cfg none = (err no_random, h)
  with_uuid h cfg (some b) =
      with_hysteria h cfg (generate_uuid_v4 b) (load_env a.world h.node)
        (add_hysteria_user a name h.node)

  abbrev pub with_config : Host → Option Config → Outcome Bytes
  with_config h none = (err load_failed, h)
  with_config h (some cfg) =
      if leb max_users (count_users cfg)
      then (err user_limit, h)
      else if any (λ n. equal n name) (list_user_names cfg)
      then (err user_exists, h)
      else with_uuid h cfg (a.random h.node.calls 16)

  abbrev pub checked_name : Host → Result UserError (Unit {0}) → Outcome Bytes
  checked_name h (err e) = (err (refused e), h)
  checked_name h (ok u) =
      if is_empty domain
      then (err no_domain, h)
      else if not (a.locks h.node.calls)
      then (err lock_busy, h)
      else with_config h (load_xray lib a.world h.node)

  -- `RunAddUser`: the subscription that it prints, or its error.
  unfoldable pub run_add_user : Host → Outcome Bytes
  unfolding validate_user_name list_user_names get load equal generate_uuid_v4 add_hysteria_user
      add_user build_user_uris apply_xray_config marshal_config unmarshal_config
  run_add_user h = checked_name h (validate_user_name name)
