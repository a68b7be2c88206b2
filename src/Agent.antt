-- ===== src/Agent.antt =====
-- cmd/cfvpn-agent/main.go: the agent's user requests on the node. A reply is its status with the error
-- code; the bodies of replies, log lines and the text of errors are left out.
pub mod Apply
pub mod Handlers
pub mod Guard
pub mod Synced
pub mod Counts
pub mod Limit
pub mod Checked
pub mod Wire
mod Tests
use cf_vpn.Prelude.{
  ℕ, zero, suc, Bool, true, false, not, ◌&&◌, ◌||◌, List, [], ◌∷◌, ◌++◌, map, length, drop, leb,
  ltb, ◌==◌, Option, none, some, if◌then◌else◌, Result, ok, err, ◌>>=◌,
}
use cf_vpn.Text.{Bytes, codes, equal, is_empty, has_prefix}
use cf_vpn.Text.Trim.{trim_space}
use cf_vpn.Text.Split.{split_on, join_with}
use cf_vpn.Text.Decimal.{ℤ, pos, negsuc, atoi}
use cf_vpn.Dict.{Dict}
use cf_vpn.Json.{Json}
use cf_vpn.State.{Env, get}
use cf_vpn.Validate.{Refusal, Check, hostname, hex_id32}
use cf_vpn.Node.{World, Log, Node}
use cf_vpn.Users.{max_users}

pub record SyncUser : Type 0 where
  pub name : Bytes
  pub vless_uuid : Bytes
  pub hy2_pw : Bytes

pub record SyncRequest : Type 0 where
  pub users : List SyncUser
  pub confirm_empty : Bool

pub data DecodeError : Type 0 where
  body_too_large invalid_json : DecodeError

-- A request: its method, its path, the values of two headers, and its body.
pub record Request : Type 0 where
  pub method : Bytes
  pub path : Bytes
  pub authorization : Bytes
  pub body : Bytes

-- The status and the error code of a reply; no code where it reports success.
pub record Reply : Type 0 where
  pub status : ℕ
  pub code : Bytes

abbrev pub error_reply : ℕ → Bytes → Reply
error_reply status code = record { status = status; code = code }

abbrev pub success_reply : ℕ → Reply
success_reply status = record { status = status; code = [] }

-- A draw of random bytes: the password of the `k`-th name that lacks one, or the two of a new user.
pub data Draw : Type 0 where
  missing_password : ℕ → Draw
  new_uuid new_password : Draw

-- encoding/json with its limit on the body, the order in which a Go map is walked, and what the
-- environment answers.
pub record Outside : Type 0 where
  pub world : World
  pub locks : Log → Result Bool (Unit {0})
  pub random : Log → Draw → Option Bytes
  pub order : List SyncUser → List SyncUser
  pub decode_sync : Bytes → Result DecodeError SyncRequest
  pub decode_add_user : Bytes → Result DecodeError Bytes
  pub parse : Bytes → Option Json
  pub print : Json → Bytes

-- `decodeJSONBody`: the reply that it writes on a failure.
abbrev pub decode_failure : DecodeError → Reply
decode_failure body_too_large = error_reply 413 (codes "body_too_large")
decode_failure invalid_json = error_reply 400 (codes "invalid_json")

-- `acquireLockOrFail`: `err true` is ErrLockBusy.
abbrev pub lock_failure : Bool → Reply
lock_failure true = error_reply 503 (codes "lock_busy")
lock_failure false = error_reply 500 (codes "lock_failed")

-- Does it refuse?
unfoldable pub empty_sync_refusal : SyncRequest → ℕ → Bool
empty_sync_refusal req existing =
    not (ltb 0 (length req.users) || (req.confirm_empty || existing == 0))

unfoldable pub user_limit_refusal : ℕ → Bool
user_limit_refusal n = not (leb n max_users)

abbrev pub port_in_range : Option ℤ → ℕ
port_in_range (some (pos n)) = if ltb 65535 n then 0 else n
port_in_range _ = 0

unfoldable pub parse_port_or_warn : Bytes → ℕ
unfolding trim_space atoi
parse_port_or_warn s = if is_empty (trim_space s) then 0 else port_in_range (atoi (trim_space s))

abbrev pub bearer : Bytes
bearer = codes "Bearer "

-- `strings.TrimPrefix`
abbrev pub trim_prefix : Bytes → Bytes → Bytes
trim_prefix prefix s = if has_prefix s prefix then drop (length prefix) s else s

-- `withAuth` with the secret of the environment.
unfoldable pub is_authorized : Bytes → Request → Bool
unfolding trim_space equal has_prefix
is_authorized agent_shared_secret r =
    has_prefix r.authorization bearer
    && equal (trim_prefix bearer r.authorization) (trim_space agent_shared_secret)

abbrev pub with_auth : Bytes → (Request → Node → Reply × Node) → Request → Node → Reply × Node
with_auth agent_shared_secret next r s =
    if is_authorized agent_shared_secret r
    then next r s
    else (error_reply 401 (codes "unauthorized"), s)

pub record RotateRequest : Type 0 where
  pub new_host : Bytes
  pub new_zone_id : Bytes
  pub old_host : Bytes
  pub old_zone_id : Bytes
  pub new_hy2_host : Bytes
  pub new_hy2_zone : Bytes
  pub new_hy2_zone_id : Bytes
  pub old_hy2_host : Bytes
  pub old_hy2_zone_id : Bytes

abbrev pub check_present : (Bytes → Check) → Bytes → Check
check_present check v = if is_empty v then ok tt else check v

-- The loops over the maps of hosts and of ids; which error comes first is not told.
abbrev pub check_all_present : (Bytes → Check) → List Bytes → Check
check_all_present check [] = ok tt
check_all_present check (v ∷ vs) = check_present check v >>= λ _. check_all_present check vs

abbrev pub trimmed_request : RotateRequest → RotateRequest
trimmed_request req = record {
  new_host = trim_space req.new_host;
  new_zone_id = req.new_zone_id;
  old_host = trim_space req.old_host;
  old_zone_id = req.old_zone_id;
  new_hy2_host = trim_space req.new_hy2_host;
  new_hy2_zone = req.new_hy2_zone;
  new_hy2_zone_id = req.new_hy2_zone_id;
  old_hy2_host = trim_space req.old_hy2_host;
  old_hy2_zone_id = req.old_hy2_zone_id;
}

-- `validateRotateRequest`: the request as it leaves it.
unfoldable pub validate_rotate_request : RotateRequest → Result Refusal RotateRequest
unfolding hostname hex_id32 trim_space
validate_rotate_request req =
    let r = trimmed_request req in
    (hostname r.new_host >>= λ _.
    check_all_present hostname (r.old_host ∷ r.new_hy2_host ∷ r.old_hy2_host ∷ []) >>= λ _.
    check_all_present hex_id32
      (map trim_space (r.new_zone_id ∷ r.old_zone_id ∷ r.new_hy2_zone_id ∷ r.old_hy2_zone_id ∷ [])))
    >>= λ _. ok r
