-- ===== src/Rotate/Steps.antt =====
-- internal/commands/rotate.go: the parts that both rotations share, `rotateDirectUsers`,
-- `rotateHy2Config`, `rotateResult`. Parsers and renderers are parameters.
use cf_vpn.Prelude.{
  Bool, true, false, ◌&&◌, ◌||◌, List, [], ◌∷◌, reverse, Option, none, some, ◌==◌, if◌then◌else◌,
  Result, ok, err,
}
use cf_vpn.Text.{Bytes, codes, is_empty}
use cf_vpn.Text.Decimal.{ℤ, pos, atoi}
use cf_vpn.State.{Env, get}
use cf_vpn.Hysteria.{User, parse_users, sort_users}
use cf_vpn.Json.{Json, Slice}
use cf_vpn.Xray.{Config, unmarshal_config}
use cf_vpn.Xray.Accounts.{list_user_names, get_vless_client}
use cf_vpn.Node.{
  xray_config, hysteria_config, hysteria_service, World, Node, ReadError, missing, failed,
  read_file, write_strictly, restart, restore_file,
}

-- The name and the uuid of a user.
abbrev pub Account : Type 0
Account = Bytes × Bytes

pub record HysteriaInputs : Type 0 where
  pub listen : Bytes
  pub obfs_password : Bytes
  pub users : List User

pub record RotateResult : Type 0 where
  pub vpn_host : Bytes
  pub public_ip : Bytes
  pub hy2_host : Bytes
  pub hy2_port : ℤ
  pub hy2_obfs_password : Bytes

-- encoding/json, strconv and internal/templates.
pub record Library : Type 0 where
  pub parse : Bytes → Option Json
  pub render_xray : List Account → Bytes → Env → Option Bytes
  pub render_cloudflared : Bytes → Bytes → Bytes → Env → Option Bytes
  pub render_hysteria : HysteriaInputs → Option Bytes

-- `strings.TrimSuffix(name, "@vpn")`, on a reversed name.
abbrev pub trim_token : Bytes → Bytes
trim_token (n ∷ p ∷ v ∷ a ∷ s) =
    if n == b'n' && p == b'p' && v == b'v' && a == b'@' then s else n ∷ p ∷ v ∷ a ∷ s
trim_token s = s

abbrev pub with_account : Bytes → Option Bytes → Option (List Account) → Option (List Account)
with_account name (some uuid) (some rest) =
    some ((reverse (trim_token (reverse name)), uuid) ∷ rest)
with_account name _ _ = none

pub accounts : Config → List Bytes → Option (List Account)
accounts cfg [] = some []
accounts cfg (name ∷ names) = with_account name (get_vless_client cfg name) (accounts cfg names)

abbrev pub config_accounts : Option Json → Option (List Account)
config_accounts none = none
config_accounts (some j) = elim (unmarshal_config j) [
  | ok cfg ↦ accounts cfg (list_user_names cfg)
  | err e ↦ none
]

abbrev pub file_accounts : Library → Result ReadError Bytes → Option (List Account)
file_accounts lib (ok body) = config_accounts (lib.parse body)
file_accounts lib (err e) = none

-- `rotateDirectUsers`: the given users, and those of the xray config for nil.
unfoldable pub rotate_users : World → Library → Slice Account → Node → Option (List Account)
unfolding accounts
rotate_users w lib (some existing) s = some existing
rotate_users w lib none s = file_accounts lib (read_file w xray_config s)

-- The part of `rotateHy2Config` behind the write.
abbrev pub hysteria_restarted : World → Option Bytes → Bool × Node → Bool × Node
hysteria_restarted w old (true, s) = (true, s)
hysteria_restarted w (some old) (false, s) =
    (false, (restart w hysteria_service (restore_file w hysteria_config (some old) s)).1)
hysteria_restarted w none (false, s) = (false, restore_file w hysteria_config none s)

abbrev pub hysteria_written : World → Option Bytes → Bool × Node → Bool × Node
hysteria_written w old (false, s) = (false, s)
hysteria_written w old (true, s) = hysteria_restarted w old (restart w hysteria_service s)

abbrev pub hysteria_replaced : World → Option Bytes → Option Bytes → Node → Bool × Node
hysteria_replaced w none old s = (false, s)
hysteria_replaced w (some body) old s =
    hysteria_written w old (write_strictly w hysteria_config body s)

abbrev pub hysteria_body : Library → Env → List User → Option Bytes
hysteria_body lib env users = lib.render_hysteria (record {
  listen = b':' ∷ get env (codes "HY2_PORT");
  obfs_password = get env (codes "HY2_OBFS_PW");
  users = users;
})

-- The second read of the config, for the way back.
abbrev pub hysteria_rendered : World → Option Bytes → Result ReadError Bytes → Node → Bool × Node
hysteria_rendered w none r s = (false, s)
hysteria_rendered w body (ok old) s = hysteria_replaced w body (some old) s
hysteria_rendered w body (err missing) s = hysteria_replaced w body none s
hysteria_rendered w body (err failed) s = (false, s)

abbrev pub hysteria_listed : World → Library → Env → Result ReadError Bytes → Node → Bool × Node
hysteria_listed w lib env (err e) s = (false, s)
hysteria_listed w lib env (ok body) s =
    if is_empty (get env (codes "HY2_PORT")) || is_empty (get env (codes "HY2_OBFS_PW"))
    then (false, s)
    else hysteria_rendered w (hysteria_body lib env (sort_users (parse_users body)))
        (read_file w hysteria_config s) s

-- `rotateHy2Config`: did it return nil?
unfoldable pub rotate_hy2_config : World → Library → Env → Node → Bool × Node
rotate_hy2_config w lib env s = hysteria_listed w lib env (read_file w hysteria_config s) s

abbrev pub or_zero : Option ℤ → ℤ
or_zero none = pos 0
or_zero (some n) = n

-- `rotateResult`
abbrev pub rotate_result : Library → Bytes → Bytes → Bytes → Env → RotateResult
rotate_result lib host ip hy2_host env = record {
  vpn_host = host;
  public_ip = ip;
  hy2_host = if is_empty hy2_host then get env (codes "HY2_HOST") else hy2_host;
  hy2_port = or_zero (atoi (get env (codes "HY2_PORT")));
  hy2_obfs_password = get env (codes "HY2_OBFS_PW");
}
