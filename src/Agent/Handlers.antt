-- ===== src/Agent/Handlers.antt =====
-- cmd/cfvpn-agent/main.go: `handleSync`, `handleUsers`, `handleUser` and the routes to them.
use cf_vpn.Prelude.{
  ℕ, ◌+◌, Bool, true, false, not, List, [], ◌∷◌, ◌++◌, length, filter, Option, none, some,
  if◌then◌else◌, Result, ok, err,
}
use cf_vpn.Text.{Bytes, codes, equal, has_prefix}
use cf_vpn.Text.Trim.{trim_space}
use cf_vpn.Hysteria.{parse_users, sort_users}
use cf_vpn.Xray.Accounts.{UserError, validate_user_name}
use cf_vpn.Node.{hysteria_config, Node, ReadError, read_file}
use cf_vpn.Users.Secrets.{generate_uuid_v4, generate_password}
use cf_vpn.Agent.{
  SyncUser, SyncRequest, DecodeError, Request, Reply, new_uuid, new_password, Outside, error_reply,
  success_reply, decode_failure, lock_failure, empty_sync_refusal, user_limit_refusal, trim_prefix,
  with_auth, is_authorized,
}
use cf_vpn.Agent.Apply.{apply_users, current_sync_users}

abbrev pub Answer : Type 0
Answer = Reply × Node

abbrev pub after_apply : Bytes → ℕ → Bool × Node → Answer
after_apply code status (true, s) = (success_reply status, s)
after_apply code status (false, s) = (error_reply 500 code, s)

abbrev pub locked : Result Bool (Unit {0}) → Node → Answer → Answer
locked (err is_busy) s next = (lock_failure is_busy, s)
locked (ok u) s next = next

abbrev pub existing_count : Result ReadError Bytes → Option ℕ
existing_count (err e) = none
existing_count (ok body) = some (length (sort_users (parse_users body)))

abbrev pub refuses_empty : SyncRequest → Option ℕ → Bool
refuses_empty req none = false
refuses_empty req (some n) = empty_sync_refusal req n

abbrev pub sync_locked : Outside → SyncRequest → Node → Answer
sync_locked o req s =
    if refuses_empty req (existing_count (read_file o.world hysteria_config s))
    then (error_reply 400 (codes "empty_user_list"), s)
    else after_apply (codes "sync_failed") 200 (apply_users o req.users s)

abbrev pub sync_decoded : Outside → Node → Result DecodeError SyncRequest → Answer
sync_decoded o s (err e) = (decode_failure e, s)
sync_decoded o s (ok req) =
    if user_limit_refusal (length req.users)
    then (error_reply 400 (codes "user_limit_exceeded"), s)
    else locked (o.locks s.calls) s (sync_locked o req s)

abbrev pub not_allowed : Node → Answer
not_allowed s = (error_reply 405 (codes "method_not_allowed"), s)

unfoldable pub handle_sync : Outside → Request → Node → Answer
unfolding equal user_limit_refusal empty_sync_refusal apply_users parse_users
handle_sync o r s =
    if not (equal r.method (codes "POST"))
    then not_allowed s
    else sync_decoded o s (o.decode_sync r.body)

abbrev pub user_named : Bytes → List SyncUser → Bool
user_named name [] = false
user_named name (u ∷ us) = if equal u.name name then true else user_named name us

-- The credentials of a new user.
abbrev pub new_user : Bytes → Option Bytes → Option Bytes → Result Bytes SyncUser
new_user name none pw = err (codes "generate_uuid_failed")
new_user name (some b) none = err (codes "generate_password_failed")
new_user name (some b) (some c) =
    ok (record { name = name; vless_uuid = generate_uuid_v4 b; hy2_pw = generate_password c })

abbrev pub with_new_user : Outside → List SyncUser → Node → Result Bytes SyncUser → Answer
with_new_user o records s (err code) = (error_reply 500 code, s)
with_new_user o records s (ok u) =
    after_apply (codes "apply_users_failed") 201 (apply_users o (records ++ u ∷ []) s)

abbrev pub add_to : Outside → Bytes → Node → Option (List SyncUser) → Answer
add_to o name s none = (error_reply 500 (codes "load_users_failed"), s)
add_to o name s (some records) =
    if user_named name records
    then after_apply (codes "apply_users_failed") 200 (apply_users o records s)
    else if user_limit_refusal (length records + 1)
    then (error_reply 400 (codes "user_limit_exceeded"), s)
    else with_new_user o records s
        (new_user name (o.random s.calls new_uuid) (o.random s.calls new_password))

abbrev pub users_named : Outside → Bytes → Node → Result UserError (Unit {0}) → Answer
users_named o name s (err e) = (error_reply 400 (codes "invalid_user"), s)
users_named o name s (ok u) = locked (o.locks s.calls) s (add_to o name s (current_sync_users o s))

abbrev pub users_decoded : Outside → Node → Result DecodeError Bytes → Answer
users_decoded o s (err e) = (decode_failure e, s)
users_decoded o s (ok name) =
    users_named o (trim_space name) s (validate_user_name (trim_space name))

unfoldable pub handle_users : Outside → Request → Node → Answer
unfolding equal trim_space validate_user_name user_limit_refusal apply_users current_sync_users
    generate_uuid_v4 generate_password
handle_users o r s =
    if not (equal r.method (codes "POST"))
    then not_allowed s
    else users_decoded o s (o.decode_add_user r.body)

abbrev pub other_users : Bytes → List SyncUser → List SyncUser
other_users name us = filter (λ (u : SyncUser). not (equal u.name name)) us

abbrev pub delete_from : Outside → Bytes → Node → Option (List SyncUser) → Answer
delete_from o name s none = (error_reply 500 (codes "load_users_failed"), s)
delete_from o name s (some records) =
    if user_named name records
    then after_apply (codes "apply_users_failed") 200 (apply_users o (other_users name records) s)
    else (error_reply 404 (codes "user_not_found"), s)

abbrev pub user_checked : Outside → Bytes → Node → Result UserError (Unit {0}) → Answer
user_checked o name s (err e) = (error_reply 400 (codes "invalid_user"), s)
user_checked o name s (ok u) =
    locked (o.locks s.calls) s (delete_from o name s (current_sync_users o s))

abbrev pub path_name : Request → Bytes
path_name r = trim_space (trim_prefix (codes "/admin/v1/users/") r.path)

unfoldable pub handle_user : Outside → Request → Node → Answer
unfolding equal trim_space has_prefix validate_user_name apply_users current_sync_users
handle_user o r s =
    if not (equal r.method (codes "DELETE"))
    then not_allowed s
    else user_checked o (path_name r) s (validate_user_name (path_name r))

-- The user routes of the mux, on a path that it does not redirect; the other handlers are a parameter.
unfoldable pub serve_mux : Outside → (Request → Node → Answer) → Request → Node → Answer
unfolding equal has_prefix handle_sync handle_users handle_user
serve_mux o other r s =
    if equal r.path (codes "/admin/v1/sync")
    then handle_sync o r s
    else if equal r.path (codes "/admin/v1/users")
    then handle_users o r s
    else if has_prefix r.path (codes "/admin/v1/users/")
    then handle_user o r s
    else other r s

-- The handler that the server is given.
unfoldable pub serve : Outside → Bytes → (Request → Node → Answer) → Request → Node → Answer
unfolding is_authorized serve_mux
serve o agent_shared_secret other r s = with_auth agent_shared_secret (serve_mux o other) r s
