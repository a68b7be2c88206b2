-- ===== src/Users/Revoke.antt =====
-- internal/commands/users.go: `RunRemoveUser` and `RunGenSub`.
use cf_vpn.Prelude.{
  Bool, true, false, not, List, [], ◌∷◌, ◌++◌, map, filter, length, ltb, Option, none, some,
  if◌then◌else◌, Result, ok, err,
}
use cf_vpn.Text.{Bytes, codes, equal, is_empty}
use cf_vpn.Dict.{Dict, lookup, delete, put_all}
use cf_vpn.State.{Env, load}
use cf_vpn.Hysteria.{User, parse_users, sort_users}
use cf_vpn.Xray.{Config, marshal_config, unmarshal_config}
use cf_vpn.Xray.Accounts.{
  UserError, validate_user_name, list_user_names, get_vless_client, remove_user,
}
use cf_vpn.Node.{hysteria_config, World, Node, ReadError, missing, failed, read_file}
use cf_vpn.Node.Apply.{apply_xray_config}
use cf_vpn.Links.{build_user_uris}
use cf_vpn.Users.{
  Library, Answers, Host, CommandError, refused, no_domain, lock_busy, load_failed, hysteria_failed,
  apply_failed, subscription_failed, user_not_found, Outcome, at_node, load_xray, load_env,
  set_and_reload, set_users,
}

abbrev pub Done : Type 0
Done = Outcome (Unit {0})

abbrev pub from_reload : Host → Bool × Node → Done
from_reload h (true, s) = (ok tt, at_node h s)
from_reload h (false, s) = (err hysteria_failed, at_node h s)

abbrev pub without : Bytes → List User → List User
without name us = filter (λ (u : User). not (equal u.name name)) us

-- The mirror of the removal in the hysteria config.
abbrev pub drop_hysteria : Answers → Bytes → Host → Result ReadError Bytes → Done
drop_hysteria a name h (err missing) = (ok tt, h)
drop_hysteria a name h (err failed) = (err hysteria_failed, h)
drop_hysteria a name h (ok body) =
    let users = sort_users (parse_users body) in
    let left = without name users in
    if ltb (length left) (length users)
    then from_reload h (set_and_reload a.world left h.node)
    else (ok tt, h)

-- The directory after `os.Remove`.
abbrev pub removed_file : Bytes → Host → Host
removed_file name h = record { node = h.node; subscriptions = delete name h.subscriptions }

abbrev pub revoked : Answers → Bytes → Bool × Node → Host → Done
revoked a name (false, s) h = (err apply_failed, at_node h s)
revoked a name (true, s) h =
    if a.removes s.calls name
    then drop_hysteria a name (removed_file name (at_node h s))
        (read_file a.world hysteria_config s)
    else (err subscription_failed, at_node h s)

abbrev pub publish_removal : Answers → Library → Bytes → Host → Result UserError Config → Done
publish_removal a lib name h (err e) = (err (refused e), h)
publish_removal a lib name h (ok cfg) =
    revoked a name (apply_xray_config a.world (lib.print (marshal_config cfg)) h.node) h

abbrev pub remove_from : Answers → Library → Bytes → Host → Option Config → Done
remove_from a lib name h none = (err load_failed, h)
remove_from a lib name h (some cfg) = publish_removal a lib name h (remove_user cfg name)

abbrev pub remove_named : Answers → Library → Bytes → Host → Result UserError (Unit {0}) → Done
remove_named a lib name h (err e) = (err (refused e), h)
remove_named a lib name h (ok u) =
    if not (a.locks h.node.calls)
    then (err lock_busy, h)
    else remove_from a lib name h (load_xray lib a.world h.node)

-- `RunRemoveUser`
unfoldable pub run_remove_user : Answers → Library → Bytes → Host → Done
unfolding validate_user_name remove_user unmarshal_config marshal_config apply_xray_config
    parse_users set_users delete equal
run_remove_user a lib name h = remove_named a lib name h (validate_user_name name)

-- `hy2PasswordsByName`: no entries where the config cannot be read.
abbrev pub passwords_in : Result ReadError Bytes → Dict Bytes
passwords_in (err e) = []
passwords_in (ok body) =
    put_all [] (map (λ (u : User). (u.name, u.password)) (sort_users (parse_users body)))

unfoldable pub hy2_passwords_by_name : World → Node → Dict Bytes
unfolding parse_users put_all
hy2_passwords_by_name w s = passwords_in (read_file w hysteria_config s)

abbrev pub or_empty : Option Bytes → Bytes
or_empty none = []
or_empty (some b) = b

module _ (lib : Library) (domain : Bytes) (env : Env) (passwords : Dict Bytes) where
  -- The lines of `printURIs`.
  abbrev pub user_lines : Bytes → Bytes → List Bytes
  user_lines name uuid =
      build_user_uris lib.texts name uuid domain (or_empty (lookup name passwords)) env

  abbrev pub user_block : Bool → Bytes → Option Bytes → List Bytes
  user_block later name none = []
  user_block later name (some uuid) =
      (if later then [] ∷ [] else []) ++ ((codes "# " ++ name) ∷ user_lines name uuid)

  -- The loop over the names; `later` tells whether the index is above zero.
  abbrev pub all_lines : Config → Bool → List Bytes → List Bytes
  all_lines cfg later [] = []
  all_lines cfg later (name ∷ names) =
      user_block later name (get_vless_client cfg name) ++ all_lines cfg true names

  abbrev pub one_line : Bytes → Option Bytes → Result CommandError (List Bytes)
  one_line name none = err user_not_found
  one_line name (some uuid) = ok (user_lines name uuid)

  abbrev pub gen_lines : Bytes → Config → Result CommandError (List Bytes)
  gen_lines name cfg =
      if is_empty name
      then ok (all_lines cfg false (list_user_names cfg))
      else one_line name (get_vless_client cfg name)

abbrev pub gen_from :
    World → Library → Bytes → Bytes → Node → Option Config → Result CommandError (List Bytes)
gen_from w lib name domain s none = err load_failed
gen_from w lib name domain s (some cfg) =
    gen_lines lib domain (load_env w s) (hy2_passwords_by_name w s) name cfg

-- `RunGenSub`: the lines that it prints.
unfoldable pub run_gen_sub :
    World → Library → Bytes → Bytes → Node → Result CommandError (List Bytes)
unfolding unmarshal_config get_vless_client list_user_names hy2_passwords_by_name lookup load
    build_user_uris
run_gen_sub w lib name domain s =
    if is_empty domain then err no_domain else gen_from w lib name domain s (load_xray lib w s)
