-- ===== src/Users/Removed.antt =====
-- internal/commands/users.go: how `RunRemoveUser` ends.
use cf_vpn.Prelude.{
  Bool, true, false, List, [], length, ltb, Option, none, some, ◌≡◌, refl, ◌∙◌, ◌⊎◌, inl, inr,
  Bool-cases, if◌then◌else◌, Result, ok, err,
}
use cf_vpn.Text.{Bytes}
use cf_vpn.Dict.{delete}
use cf_vpn.Hysteria.{User, parse_users, sort_users}
use cf_vpn.Xray.{Config, marshal_config}
use cf_vpn.Xray.Accounts.{UserError, validate_user_name, remove_user}
use cf_vpn.Xray.Mutations.{Removes, remove_user-Removes}
use cf_vpn.Node.{xray_config, hysteria_config, Node, ReadError, missing, failed, read_file}
use cf_vpn.Node.Apply
use cf_vpn.Users.{
  Library, Answers, Host, CommandError, refused, lock_busy, load_failed, hysteria_failed,
  subscription_failed, at_node, load_xray, set_users, set_and_reload,
}
use cf_vpn.Users.Added.{IsStable, Keeps, loaded-file, set_users-Keeps, reloaded-Keeps}
use cf_vpn.Users.Revoke.{
  Done, from_reload, without, drop_hysteria, removed_file, revoked, publish_removal, remove_from,
  remove_named, run_remove_user,
}

-- The user has gone from the first vless inbound, and the file holds the config without it.
pub record Removed (a : Answers) (lib : Library) (name : Bytes) (h : Host) (s : Node) : Type 0 where
  pub before : Config
  pub after : Config
  pub loaded : load_xray lib a.world h.node ≡ some before
  pub removes : Removes before name after
  pub written : s.files xray_config ≡ some (lib.print (marshal_config after))

module _ (a : Answers) (lib : Library) (name : Bytes) (h : Host) where
  -- An error leaves the xray config and the subscriptions, unless it comes behind the removal.
  unfoldable pub Ended : Done → Type 0
  Ended (ok u, t) = Removed a lib name h t.node × (t.subscriptions ≡ delete name h.subscriptions)
  Ended (err e, t) =
      ((t.node.files xray_config ≡ h.node.files xray_config) × (t.subscriptions ≡ h.subscriptions))
      ⊎ (((e ≡ subscription_failed) ⊎ (e ≡ hysteria_failed)) × Removed a lib name h t.node)

  kept : (e : CommandError) → Ended (err e, h)
  unfolding Ended
  kept e = inl (refl, refl)

  Removed-Keeps :
      (s t : Node)
      → t.files xray_config ≡ s.files xray_config
      → Removed a lib name h s
      → Removed a lib name h t
  Removed-Keeps s t e r = record {
    before = r.before;
    after = r.after;
    loaded = r.loaded;
    removes = r.removes;
    written = e ∙ r.written;
  }

  reload-Ended :
      (s : Node) (r : Bool × Node)
      → Keeps s r
      → Removed a lib name h s
      → Ended (from_reload (removed_file name (at_node h s)) r)
  unfolding Ended
  reload-Ended s (true, t) e x = (Removed-Keeps s t e x, refl)
  reload-Ended s (false, t) e x = inr (inr refl, Removed-Keeps s t e x)

  hysteria-Ended :
      (s : Node) (r : Result ReadError Bytes)
      → Removed a lib name h s
      → Ended (drop_hysteria a name (removed_file name (at_node h s)) r)
  unfolding Ended
  hysteria-Ended s (err missing) x = (x, refl)
  hysteria-Ended s (err failed) x = inr (inr refl, x)
  hysteria-Ended s (ok body) x = go (ltb (length left) (length (sort_users (parse_users body))))
    where
      left : List User
      left = without name (sort_users (parse_users body))

      go :
          (b : Bool)
          → Ended (
              if b
              then from_reload (removed_file name (at_node h s)) (set_and_reload a.world left s)
              else (ok tt, removed_file name (at_node h s)))
      go true =
          reload-Ended s (set_and_reload a.world left s)
            (reloaded-Keeps a.world s (set_users a.world left s) (set_users-Keeps a.world s left)) x
      go false = (x, refl)

  revoked-Ended :
      (config : Bytes) (r : Bool × Node)
      → ((t : Node) → t.files xray_config ≡ some config → Removed a lib name h t)
      → Apply.Outcome h.node config (Apply.Leaves h.node) r
      → Ended (revoked a name r h)
  unfolding Ended Apply.Outcome
  revoked-Ended config (false, t) made o = inl (o.config, refl)
  revoked-Ended config (true, t) made o = go (a.removes t.calls name)
    where
      go :
          (b : Bool)
          → Ended (
              if b
              then drop_hysteria a name
                  (removed_file name (at_node h t))
                  (read_file a.world hysteria_config t)
              else (err subscription_failed, at_node h t))
      go true = hysteria-Ended t (read_file a.world hysteria_config t) (made t o.0.config)
      go false = inr (inl refl, made t o.0.config)

  module _ (stable : IsStable a.world h.node) where
    publish-Ended :
        (cfg : Config) (b : Bytes) (r : Result UserError Config)
        → load_xray lib a.world h.node ≡ some cfg
        → h.node.files xray_config ≡ some b
        → remove_user cfg name ≡ r
        → Ended (publish_removal a lib name h r)
    publish-Ended cfg b (err e) loaded there k = kept (refused e)
    publish-Ended cfg b (ok out) loaded there k =
        let config = lib.print (marshal_config out) in
        revoked-Ended config (Apply.apply_xray_config a.world config h.node)
          (λ t w. record {
            before = cfg;
            after = out;
            loaded = loaded;
            removes = remove_user-Removes cfg name out k;
            written = w;
          })
          (Apply.apply_xray_config-Restores a.world config h.node b (record {
            there = there;
            readable = stable.readable h.node.calls;
            restores = λ log. stable.restores log b there;
          }))

    config-Ended :
        (o : Option Config) → load_xray lib a.world h.node ≡ o → Ended (remove_from a lib name h o)
    config-Ended none e = kept load_failed
    config-Ended (some cfg) e =
        let (b, there) = loaded-file a lib [] [] h stable cfg e in
        publish-Ended cfg b (remove_user cfg name) e there refl

    named-Ended : (r : Result UserError (Unit {0})) → Ended (remove_named a lib name h r)
    named-Ended (err e) = kept (refused e)
    named-Ended (ok u) = elim (Bool-cases (a.locks h.node.calls)) [
      | inl free ↦ rw free (config-Ended (load_xray lib a.world h.node) refl)
      | inr busy ↦ rw busy (kept lock_busy)
    ]

    -- Where the xray config can be read and its old bytes written again, `RunRemoveUser` either
    -- returns with every client of that name gone from the first vless inbound of the config that is
    -- now on disk, with nothing but the settings of one inbound changed, and with the subscription
    -- deleted; or it returns an error and leaves the xray config and the subscriptions as they were,
    -- unless only the subscription or the hysteria part failed: then the config is as on success.
    pub run_remove_user-Ended : Ended (run_remove_user a lib name h)
    unfolding run_remove_user
    run_remove_user-Ended = named-Ended (validate_user_name name)
