-- ===== src/Agent/Limit.antt =====
-- cmd/cfvpn-agent/main.go: the number of users on disk over the requests that the agent serves.
use cf_vpn.Prelude.{
  ◌≤◌, ◌+◌, Bool, List, [], ◌∷◌, ◌++◌, length, Option, none, some, ◌≡◌, refl, inl, inr, arith,
  Bool-cases, Result, ok, err, length-append,
}
use cf_vpn.Text.{Bytes, codes, equal}
use cf_vpn.Text.Trim.{trim_space}
use cf_vpn.Xray.Accounts.{UserError, validate_user_name}
use cf_vpn.Node.{hysteria_config, Node, read_file}
use cf_vpn.Users.{max_users}
use cf_vpn.Agent.{SyncUser, SyncRequest, DecodeError, Request, Outside, user_limit_refusal}
use cf_vpn.Agent.Apply.{current_sync_users}
use cf_vpn.Agent.Handlers.{
  Answer, locked, existing_count, refuses_empty, sync_locked, sync_decoded, handle_sync, user_named,
  with_new_user, add_to, users_named, users_decoded, handle_users, other_users, delete_from,
  user_checked, path_name, handle_user,
}
use cf_vpn.Agent.Counts.{
  Limited, IsFaithful, refusal_false, length-other_users, current-length, apply-Limited,
}

module _ (o : Outside) (faithful : IsFaithful o) where
  locked-Limited :
      (l : Result Bool (Unit {0})) (s : Node) (a : Answer)
      → Limited o s
      → Limited o a.1
      → Limited o (locked l s a).1
  locked-Limited (err b) s a h k = h
  locked-Limited (ok u) s a h k = k

  handle_sync-Limited : (r : Request) (s : Node) → Limited o s → Limited o (handle_sync o r s).1
  unfolding handle_sync
  handle_sync-Limited r s h = elim (Bool-cases (equal r.method (codes "POST"))) [
    | inl post ↦ rw post (decoded (o.decode_sync r.body))
    | inr other ↦ rw other h
  ]
    where
      inside :
          (req : SyncRequest) → length req.users ≤ max_users → Limited o (sync_locked o req s).1
      inside req few =
          elim (Bool-cases
            (refuses_empty req (existing_count (read_file o.world hysteria_config s)))) [
              | inl refused ↦ rw refused h
              | inr taken_on ↦
                  rw taken_on (apply-Limited o faithful req.users s (codes "sync_failed") 200 few h)
            ]

      decoded : (d : Result DecodeError SyncRequest) → Limited o (sync_decoded o s d).1
      decoded (err e) = h
      decoded (ok req) = elim (Bool-cases (user_limit_refusal (length req.users))) [
        | inl refused ↦ rw refused h
        | inr few ↦ rw few (
            locked-Limited (o.locks s.calls) s (sync_locked o req s) h
              (inside req (refusal_false (length req.users) few)))
      ]

  handle_users-Limited : (r : Request) (s : Node) → Limited o s → Limited o (handle_users o r s).1
  unfolding handle_users
  handle_users-Limited r s h = elim (Bool-cases (equal r.method (codes "POST"))) [
    | inl post ↦ rw post (decoded (o.decode_add_user r.body))
    | inr other ↦ rw other h
  ]
    where
      grown :
          (us : List SyncUser) (u : Result Bytes SyncUser)
          → length us + 1 ≤ max_users
          → Limited o (with_new_user o us s u).1
      grown us (err code) few = h
      grown us (ok u) few =
          let size = length-append us (u ∷ []) in
          apply-Limited o faithful (us ++ u ∷ []) s (codes "apply_users_failed") 201
            (omega (arith, size, few)) h

      add :
          (name : Bytes) (m : Option (List SyncUser))
          → current_sync_users o s ≡ m
          → Limited o (add_to o name s m).1
      add name none e = h
      add name (some us) e = elim (Bool-cases (user_named name us)) [
        | inl there ↦ rw there (
            apply-Limited o faithful us s (codes "apply_users_failed") 200
              (current-length o faithful s us h e) h)
        | inr fresh ↦ rw fresh (elim (Bool-cases (user_limit_refusal (length us + 1))) [
          | inl refused ↦ rw refused h
          | inr few ↦ rw few (grown us _ (refusal_false (length us + 1) few))
        ])
      ]

      checked :
          (name : Bytes) (v : Result UserError (Unit {0})) → Limited o (users_named o name s v).1
      checked name (err e) = h
      checked name (ok u) =
          locked-Limited (o.locks s.calls) s (add_to o name s (current_sync_users o s)) h
            (add name (current_sync_users o s) refl)

      decoded : (d : Result DecodeError Bytes) → Limited o (users_decoded o s d).1
      decoded (err e) = h
      decoded (ok name) = checked (trim_space name) (validate_user_name (trim_space name))

  handle_user-Limited : (r : Request) (s : Node) → Limited o s → Limited o (handle_user o r s).1
  unfolding handle_user
  handle_user-Limited r s h = elim (Bool-cases (equal r.method (codes "DELETE"))) [
    | inl post ↦ rw post (checked (validate_user_name (path_name r)))
    | inr other ↦ rw other h
  ]
    where
      remove :
          (m : Option (List SyncUser))
          → current_sync_users o s ≡ m
          → Limited o (delete_from o (path_name r) s m).1
      remove none e = h
      remove (some us) e = elim (Bool-cases (user_named (path_name r) us)) [
        | inl there ↦
            let few = current-length o faithful s us h e in
            let fewer = length-other_users (path_name r) us in
            rw there (
              apply-Limited o faithful (other_users (path_name r) us) s (codes "apply_users_failed")
                200 (omega (arith, few, fewer)) h)
        | inr missing_ ↦ rw missing_ h
      ]

      checked : (v : Result UserError (Unit {0})) → Limited o (user_checked o (path_name r) s v).1
      checked (err e) = h
      checked (ok u) =
          locked-Limited (o.locks s.calls) s
            (delete_from o (path_name r) s (current_sync_users o s)) h
            (remove (current_sync_users o s) refl)

-- The nodes that requests to the user routes lead to.
pub data Reaches (o : Outside) (start : Node) : Node → Type 0 where
  at_start : Reaches o start start
  synced : (s : Node) (r : Request) → Reaches o start s → Reaches o start (handle_sync o r s).1
  added : (s : Node) (r : Request) → Reaches o start s → Reaches o start (handle_users o r s).1
  deleted : (s : Node) (r : Request) → Reaches o start s → Reaches o start (handle_user o r s).1

-- Where the config on disk has at most five users, it has at most five after any sequence of sync,
-- add and delete requests, whatever these hold and however the environment answers, provided that
-- encoding/json, where it reads back what it has written, reads the same value but for what is not
-- valid UTF-8 in it, and that walking a map visits each entry once.
pub Reaches-Limited :
    (o : Outside) (start s : Node)
    → IsFaithful o
    → Limited o start
    → Reaches o start s
    → Limited o s
Reaches-Limited o start s faithful h at_start = h
Reaches-Limited o start s faithful h (synced t r path) =
    handle_sync-Limited o faithful r t (Reaches-Limited o start t faithful h path)
Reaches-Limited o start s faithful h (added t r path) =
    handle_users-Limited o faithful r t (Reaches-Limited o start t faithful h path)
Reaches-Limited o start s faithful h (deleted t r path) =
    handle_user-Limited o faithful r t (Reaches-Limited o start t faithful h path)
