-- ===== src/Users/Added.antt =====
-- internal/commands/users.go: how `RunAddUser` ends.
use cf_vpn.Prelude.{
  ℕ, ◌≤◌, ◌<◌, Bool, true, false, List, [], ◌∷◌, ◌++◌, any, length, leb, Option, none, some, ◌≡◌,
  refl, ap, subst, ◌∙◌, ◌⊎◌, inl, inr, arith, Bool-cases, if◌then◌else◌, Result, ok, err,
  length-append,
}
use cf_vpn.Text.{Bytes, codes, equal, is_empty}
use cf_vpn.Atomic.{WriteError, plain, durability}
use cf_vpn.Dict.{put}
use cf_vpn.State.{Env}
use cf_vpn.Hysteria.{User}
use cf_vpn.Xray.{Config, marshal_config}
use cf_vpn.Xray.Accounts.{UserError, validate_user_name, list_user_names, count_users, add_user}
use cf_vpn.Xray.Users.{Adds}
use cf_vpn.Xray.Mutations.{add_user-Adds}
use cf_vpn.Node.{
  xray_config, hysteria_config, Log, World, Node, ReadError, missing, failed, read_file, present,
  after_write, write_atomic,
}
use cf_vpn.Node.Apply
use cf_vpn.Links.{build_user_uris}
use cf_vpn.Users.Secrets.{generate_uuid_v4, generate_password}
use cf_vpn.Users.{
  max_users, Library, Answers, Host, CommandError, no_domain, lock_busy, load_failed, user_limit,
  user_exists, no_random, subscription_failed, refused, Outcome, load_xray, config_of, load_env,
  replaced, with_body, set_users, reloaded, joined, set_and_reload, fresh_password, known_password,
  listed_users, password_of, add_hysteria_user, after_sub, sub_result, write_subscription_file,
  flow_of, applied, publish_user, with_hysteria, with_uuid, with_config, checked_name, run_add_user,
  at_node,
}

-- The xray config is as it was.
abbrev pub Keeps : {A : Type 0} → Node → A × Node → Type 0
Keeps s r = r.1.files xray_config ≡ s.files xray_config

module _ (w : World) (s : Node) where
  write-Keeps : (b : Bytes) → Keeps s (write_atomic w hysteria_config b s)
  unfolding write_atomic
  write-Keeps b = go (w.write_error s.calls hysteria_config b)
    where
      go :
          (e : Option WriteError)
          → after_write hysteria_config b e s.files xray_config ≡ s.files xray_config
      go none = refl
      go (some plain) = refl
      go (some durability) = refl

  replaced-Keeps : (r : Bytes × Bool) → Keeps s (replaced w r s)
  replaced-Keeps (out, false) = refl
  replaced-Keeps (out, true) = write-Keeps out

  pub set_users-Keeps : (us : List User) → Keeps s (set_users w us s)
  unfolding set_users
  set_users-Keeps us = go (read_file w hysteria_config s)
    where
      go : (r : Result ReadError Bytes) → Keeps s (with_body w us s r)
      go (err e) = refl
      go (ok body) = replaced-Keeps _

  pub reloaded-Keeps : (r : Bool × Node) → Keeps s r → Keeps s (reloaded w r)
  reloaded-Keeps (false, t) h = h
  reloaded-Keeps (true, t) h = h

  joined-Keeps : (pw : Bytes) (r : Bool × Node) → Keeps s r → Keeps s (joined pw r)
  joined-Keeps pw (false, t) h = h
  joined-Keeps pw (true, t) h = h

  fresh_password-Keeps :
      (name : Bytes) (us : List User) (o : Option Bytes) → Keeps s (fresh_password w name us s o)
  fresh_password-Keeps name us none = refl
  fresh_password-Keeps name us (some b) =
      let all = us ++ (record { name = name; password = generate_password b }) ∷ [] in
      joined-Keeps (generate_password b) (set_and_reload w all s)
        (reloaded-Keeps (set_users w all s) (set_users-Keeps all))

-- `addHysteriaUser` does not touch the xray config.
add_hysteria_user-Keeps :
    (a : Answers) (name : Bytes) (s : Node) → Keeps s (add_hysteria_user a name s)
unfolding add_hysteria_user
add_hysteria_user-Keeps a name s = go (read_file a.world hysteria_config s)
  where
    known :
        (us : List User) (o : Option Bytes)
        → Keeps s (known_password a.world name us s (a.random s.calls 24) o)
    known us none = fresh_password-Keeps a.world s name us (a.random s.calls 24)
    known us (some pw) = refl

    go :
        (r : Result ReadError Bytes) → Keeps s (listed_users a.world name s (a.random s.calls 24) r)
    go (err missing) = refl
    go (err failed) = refl
    go (ok body) = known _ (password_of name _)

below_limit : (m n : ℕ) → leb m n ≡ false → n < m
below_limit m n h = ground arith

-- The config that is there can be read, and written again.
pub record IsStable (w : World) (start : Node) : Type 0 where
  pub readable : (log : Log) → w.unreadable log xray_config ≡ false
  pub restores :
      (log : Log) (b : Bytes)
      → start.files xray_config ≡ some b
      → w.write_error log xray_config b ≡ none

-- The user has come in behind the others, and the file holds the config that has it.
pub record Added (a : Answers) (lib : Library) (name domain : Bytes) (h : Host) (sub : Bytes)
    (s : Node) : Type 0 where
  pub before : Config
  pub after : Config
  pub random : Bytes
  pub password : Bytes
  pub loaded : load_xray lib a.world h.node ≡ some before
  pub delivered : a.random h.node.calls 16 ≡ some random
  pub adds : Adds before name (generate_uuid_v4 random) (flow_of (load_env a.world h.node)) after
  pub bound : count_users after ≤ max_users
  pub written : s.files xray_config ≡ some (lib.print (marshal_config after))
  pub links :
      sub
      ≡ lib.subscription (
          build_user_uris lib.texts name
            (generate_uuid_v4 random)
            domain
            password
            (load_env a.world h.node))

module _ (a : Answers) (lib : Library) (name domain : Bytes) (h : Host) where
  -- An error leaves the xray config and the subscriptions, unless the subscription could not be
  -- written: then the user has been added.
  unfoldable pub Ended : Outcome Bytes → Type 0
  Ended (ok sub, t) =
      Added a lib name domain h sub t.node
      × (t.subscriptions ≡ put name (sub ++ codes "\n") h.subscriptions)
  Ended (err e, t) =
      ((t.node.files xray_config ≡ h.node.files xray_config) × (t.subscriptions ≡ h.subscriptions))
      ⊎ ((e ≡ subscription_failed) × (sub : Bytes) × Added a lib name domain h sub t.node)

  written-Ended :
      (sub : Bytes) (s : Node)
      → Added a lib name domain h sub s
      → Ended (write_subscription_file a name sub (at_node h s))
  unfolding Ended
  written-Ended sub s added = go (a.write_error s.calls name (sub ++ codes "\n"))
    where
      go :
          (e : Option WriteError)
          → Ended (
            sub_result sub e,
            record {
              node = s;
              subscriptions = after_sub name (sub ++ codes "\n") e h.subscriptions;
            },
          )
      go none = (added, refl)
      go (some e) = inr (refl, sub, added)

  applied-Ended :
      (config : Bytes) (s : Node) (sub : Bytes) (r : Bool × Node)
      → s.files xray_config ≡ h.node.files xray_config
      → ((t : Node) → t.files xray_config ≡ some config → Added a lib name domain h sub t)
      → Apply.Outcome s config (Apply.Leaves s) r
      → Ended (applied a name sub r (at_node h s))
  unfolding Ended Apply.Outcome
  applied-Ended config s sub (true, t) same made o = written-Ended sub t (made t o.0.config)
  applied-Ended config s sub (false, t) same made o = inl (o.config ∙ same, refl)

  unchanged :
      (e : CommandError) (s : Node)
      → s.files xray_config ≡ h.node.files xray_config
      → Ended (err e, at_node h s)
  unfolding Ended
  unchanged e s same = inl (same, refl)

  module _ (stable : IsStable a.world h.node) where
    pub restorable :
        (s : Node) (config b : Bytes)
        → s.files xray_config ≡ h.node.files xray_config
        → h.node.files xray_config ≡ some b
        → Apply.IsRestorable a.world config s b
    restorable s config b same there = record {
      there = same ∙ there;
      readable = stable.readable s.calls;
      restores = λ log. stable.restores log b there;
    }

    module _ (cfg : Config) (random b : Bytes) (loaded : load_xray lib a.world h.node ≡ some cfg)
        (delivered : a.random h.node.calls 16 ≡ some random)
        (there : h.node.files xray_config ≡ some b)
        (room : leb max_users (count_users cfg) ≡ false) where
      abbrev uuid : Bytes
      uuid = generate_uuid_v4 random

      abbrev env : Env
      env = load_env a.world h.node

      bounded : (out : Config) → Adds cfg name uuid (flow_of env) out → count_users out ≤ max_users
      bounded out adds =
          let size = length-append (list_user_names cfg) (name ∷ []) in
          let n = ap length adds.names in
          let few = below_limit max_users (count_users cfg) room in omega (arith, size, n, few)

      published-Ended :
          (pw : Bytes) (s : Node) (r : Result UserError Config)
          → s.files xray_config ≡ h.node.files xray_config
          → add_user cfg name uuid (flow_of env) ≡ r
          → Ended (publish_user a lib name domain (at_node h s) uuid env pw r)
      published-Ended pw s (err e) same k = unchanged (refused e) s same
      published-Ended pw s (ok out) same k =
          let adds = add_user-Adds cfg name uuid (flow_of env) out k in
          let config = lib.print (marshal_config out) in
          applied-Ended config s
            (lib.subscription (build_user_uris lib.texts name uuid domain pw env))
            (Apply.apply_xray_config a.world config s) same
            (λ t w. record {
              before = cfg;
              after = out;
              random = random;
              password = pw;
              loaded = loaded;
              delivered = delivered;
              adds = adds;
              bound = bounded out adds;
              written = w;
              links = refl;
            })
            (Apply.apply_xray_config-Restores a.world config s b (restorable s config b same there))

      hysteria-Ended :
          (r : Result CommandError Bytes × Node)
          → Keeps h.node r
          → Ended (with_hysteria a lib name domain h cfg uuid env r)
      hysteria-Ended (err e, s) same = unchanged e s same
      hysteria-Ended (ok pw, s) same =
          published-Ended pw s (add_user cfg name uuid (flow_of env)) same refl

      uuid-Ended : Ended (with_uuid a lib name domain h cfg (some random))
      uuid-Ended =
          hysteria-Ended (add_hysteria_user a name h.node) (add_hysteria_user-Keeps a name h.node)

    pub loaded-file :
        (cfg : Config)
        → load_xray lib a.world h.node ≡ some cfg
        → (b : Bytes) × (h.node.files xray_config ≡ some b)
    loaded-file cfg e = go (h.node.files xray_config) (
        subst
          (λ u.
            config_of lib (if u then err failed else present (h.node.files xray_config)) ≡ some cfg)
          (stable.readable h.node.calls) e)
      where
        go : (o : Option Bytes) → config_of lib (present o) ≡ some cfg → (b : Bytes) × (o ≡ some b)
        go none k = absurd (cc k)
        go (some b) k = (b, refl)

    config-Ended :
        (o : Option Config)
        → load_xray lib a.world h.node ≡ o
        → Ended (with_config a lib name domain h o)
    config-Ended none e = unchanged load_failed h.node refl
    config-Ended (some cfg) e = elim (Bool-cases (leb max_users (count_users cfg))) [
      | inl full ↦ rw full (unchanged user_limit h.node refl)
      | inr room ↦ rw room (elim (Bool-cases (any (λ n. equal n name) (list_user_names cfg))) [
        | inl taken ↦ rw taken (unchanged user_exists h.node refl)
        | inr free ↦ rw free (random (a.random h.node.calls 16) refl room)
      ])
    ]
      where
        random :
            (o : Option Bytes)
            → a.random h.node.calls 16 ≡ o
            → leb max_users (count_users cfg) ≡ false
            → Ended (with_uuid a lib name domain h cfg o)
        random none k room = unchanged no_random h.node refl
        random (some bs) k room =
            let (b, there) = loaded-file cfg e in uuid-Ended cfg bs b e k there room

    checked_name-Ended :
        (r : Result UserError (Unit {0})) → Ended (checked_name a lib name domain h r)
    checked_name-Ended (err e) = unchanged (refused e) h.node refl
    checked_name-Ended (ok u) = elim (Bool-cases (is_empty domain)) [
      | inl blank ↦ rw blank (unchanged no_domain h.node refl)
      | inr given ↦ rw given (elim (Bool-cases (a.locks h.node.calls)) [
        | inl free ↦ rw free (config-Ended (load_xray lib a.world h.node) refl)
        | inr busy ↦ rw busy (unchanged lock_busy h.node refl)
      ])
    ]

    -- Where the xray config can be read and its old bytes written again, `RunAddUser` either returns
    -- the subscription of the new user, who has come in behind at most four others, with a uuid made
    -- of the random bytes, in the config that is now on disk; or it returns an error and leaves the
    -- xray config and the subscriptions as they were, unless only the subscription could not be
    -- written.
    pub run_add_user-Ended : Ended (run_add_user a lib name domain h)
    unfolding run_add_user
    run_add_user-Ended = checked_name-Ended (validate_user_name name)
