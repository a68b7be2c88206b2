-- ===== src/Agent/Counts.antt =====
-- cmd/cfvpn-agent/main.go: the numbers of users in documents, in records and on disk.
use cf_vpn.Prelude.{
  ℕ, suc, ◌≤◌, Bool, true, false, List, [], ◌∷◌, map, any, length, Option, none, some, ◌≡◌, refl,
  ap, sym, subst, ◌∙◌, inl, inr, arith, Bool-cases, if◌then◌else◌, Result, ok, err,
}
use mathlib.Core.Option.{some-injective}
use cf_vpn.Text.{Bytes, equal}
use cf_vpn.Dict.{Dict, lookup}
use cf_vpn.Json.{Json, JsonError}
use cf_vpn.Hysteria.{parse_users, sort_users}
use cf_vpn.Json.Encoded.{encoded}
use cf_vpn.Xray.Reread.{count_users-encoded}
use cf_vpn.Xray.{Inbound, Config, unmarshal_config}
use cf_vpn.Xray.Accounts.{list_user_names, count_users, get_vless_client}
use cf_vpn.Node.{xray_config, hysteria_config, Node, ReadError, failed, present, read_file}
use cf_vpn.Templates.Xray.{XrayUser}
use cf_vpn.Templates.Served.{client_with, expected, ServesAll}
use cf_vpn.Users.{max_users, parsed}
use cf_vpn.Agent.{SyncUser, missing_password, Outside, user_limit_refusal}
use cf_vpn.Agent.Apply.{
  collect_sync_users, current_of, current_sync_users, config_on_disk, ordered, passwords,
  prepend_user, sync_user, or_empty, with_client, apply_users, to_template_users,
}
use cf_vpn.Agent.Handlers.{after_apply, other_users}
use cf_vpn.Agent.Synced.{ServesUsers, Written, Applied, apply_users-Applied}

length-map : {A B : Type 0} (f : A → B) (xs : List A) → length (map f xs) ≡ length xs
length-map f [] = refl
length-map f (x ∷ xs) = ap suc (length-map f xs)

-- A config read again from such a document, as it was written, has as many users as it was rendered
-- for.
reread-count :
    (us : List XrayUser) (j : Json) (cfg : Config)
    → ServesUsers us j
    → unmarshal_config (encoded j) ≡ ok cfg
    → count_users cfg ≡ length us
reread-count us j cfg h e = go h.serving.inbounds h.serving.holds h.serving.serves
  where
    go :
        (is : List Inbound)
        → h.serving.config.inbounds ≡ some is
        → ServesAll (map (client_with h.flow) us ∷ h.rest) is
        → count_users cfg ≡ length us
    go [] whole s = absurd s
    go (i ∷ is) whole (s, rest) =
        count_users-encoded j h.serving.config cfg i is (expected (map (client_with h.flow) us))
          h.serving.reads whole s.protocol s.settings e
        ∙ length-map (client_with h.flow) us

abbrev pub WithinLimit : Option Config → Type 0
WithinLimit none = Unit {0}
WithinLimit (some cfg) = count_users cfg ≤ max_users

-- The xray config on disk, where one can be read from it, has at most as many users as are allowed.
abbrev pub Limited : Outside → Node → Type 0
Limited o s = WithinLimit (config_on_disk o (present (s.files xray_config)))

-- Where encoding/json reads back what it has written for a value, it reads that value with U+FFFD for
-- what is not valid UTF-8 in its strings and keys. Walking a map visits each entry once.
pub record IsFaithful (o : Outside) : Type 0 where
  pub encodes : (j k : Json) → o.parse (o.print j) ≡ some k → k ≡ encoded j
  pub keeps : (us : List SyncUser) → length (o.order us) ≡ length us

pub refusal_false : (n : ℕ) → user_limit_refusal n ≡ false → n ≤ max_users
unfolding user_limit_refusal
refusal_false n h = ground arith

pub length-other_users :
    (name : Bytes) (us : List SyncUser) → length (other_users name us) ≤ length us
length-other_users name [] = omega arith
length-other_users name (u ∷ us) = elim (Bool-cases (equal u.name name)) [
  | inl hit ↦ rw hit (omega (arith, length-other_users name us))
  | inr miss ↦ rw miss (omega (arith, length-other_users name us))
]

prepend_user-length :
    (u : Option SyncUser) (rest : Option (List SyncUser)) (us : List SyncUser) (n : ℕ)
    → ((vs : List SyncUser) → rest ≡ some vs → length vs ≤ n)
    → prepend_user u rest ≡ some us
    → length us ≤ suc n
prepend_user-length none rest us n h e = absurd (cc e)
prepend_user-length (some u) none us n h e = absurd (cc e)
prepend_user-length (some u) (some vs) us n h e =
    let few = h vs refl in
    subst (λ (l : List SyncUser). length l ≤ suc n) (some-injective (u ∷ vs) us e)
      (omega (arith, few))

-- No more records than names.
collect-length :
    (cfg : Config) (d : Dict Bytes) (f : ℕ → Option Bytes) (seen names : List Bytes)
    (us : List SyncUser)
    → collect_sync_users cfg d f seen names ≡ some us
    → length us ≤ length names
unfolding collect_sync_users
collect-length cfg d f seen [] us h =
    subst (λ (l : List SyncUser). length l ≤ 0) (some-injective [] us h) (omega arith)
collect-length cfg d f seen (name ∷ names) us h = elim (Bool-cases (any (equal name) seen)) [
  | inl again ↦
      let few = collect-length cfg d f (name ∷ seen) names us (rw again at h) in omega (arith, few)
  | inr fresh ↦
      go (λ vs k. collect-length cfg d f (name ∷ seen) names vs k) (get_vless_client cfg name)
        (rw fresh at h)
]
  where
    go :
        ((vs : List SyncUser)
          → collect_sync_users cfg d f (name ∷ seen) names ≡ some vs
          → length vs ≤ length names)
        → (c : Option Bytes)
        → with_client c name d (f (length seen)) (collect_sync_users cfg d f (name ∷ seen) names)
          ≡ some us
        → length us ≤ suc (length names)
    go few none e = absurd (cc e)
    go few (some uuid) e =
        prepend_user-length (sync_user name uuid (or_empty (lookup name d)) (f (length seen)))
          (collect_sync_users cfg d f (name ∷ seen) names) us (length names) few e

module _ (o : Outside) (faithful : IsFaithful o) where
  pub current-length :
      (s : Node) (us : List SyncUser)
      → Limited o s
      → current_sync_users o s ≡ some us
      → length us ≤ max_users
  unfolding current_sync_users
  current-length s us limited h = reading (o.world.unreadable s.calls xray_config) h
    where
      body : Result ReadError Bytes
      body = read_file o.world hysteria_config s

      collected :
          (m : Option (List SyncUser)) (n : ℕ)
          → ((vs : List SyncUser) → m ≡ some vs → length vs ≤ n)
          → ordered o m ≡ some us
          → length us ≤ n
      collected none n few e = absurd (cc e)
      collected (some vs) n few e =
          let fewer = few vs refl in
          let same = faithful.keeps vs in
          subst (λ (l : List SyncUser). length l ≤ n) (some-injective (o.order vs) us e)
            (omega (arith, fewer, same))

      config :
          (m : Option Config) (b : Result ReadError Bytes)
          → WithinLimit m
          → current_of o s m b ≡ some us
          → length us ≤ max_users
      config none b l e = absurd (cc e)
      config (some cfg) (err x) l e = absurd (cc e)
      config (some cfg) (ok text) l e =
          collected
            (collect_sync_users cfg (passwords (sort_users (parse_users text)))
              (λ k. o.random s.calls (missing_password k)) [] (list_user_names cfg))
            max_users
            (λ vs k.
              let few =
                collect-length cfg (passwords (sort_users (parse_users text)))
                  (λ n. o.random s.calls (missing_password n)) [] (list_user_names cfg) vs k in
              omega (arith, few, l))
            e

      reading :
          (u : Bool)
          → current_of o s
              (config_on_disk o (if u then err failed else present (s.files xray_config)))
              body
            ≡ some us
          → length us ≤ max_users
      reading true e = absurd (cc e)
      reading false e = config (config_on_disk o (present (s.files xray_config))) body limited e

  same-Limited :
      (s t : Node) → t.files xray_config ≡ s.files xray_config → Limited o s → Limited o t
  same-Limited s t e h = subst (λ f. WithinLimit (config_on_disk o (present f))) (sym e) h

  Written-Limited :
      (us : List SyncUser) (s t : Node) → length us ≤ max_users → Written o us s t → Limited o t
  Written-Limited us s t few w =
      subst (λ f. WithinLimit (config_on_disk o (present f))) (sym w.written)
        (reread (o.parse (o.print w.document)) refl)
    where
      go :
          (k : Json) (r : Result JsonError Config)
          → o.parse (o.print w.document) ≡ some k
          → unmarshal_config k ≡ r
          → WithinLimit (elim r [ ok cfg ↦ some cfg | err e ↦ none ])
      go k (ok cfg) p e =
          let written = ap unmarshal_config (sym (faithful.encodes w.document k p)) ∙ e in
          let n = reread-count (to_template_users us) w.document cfg w.serves written in
          let m =
            length-map {B = XrayUser}
              (λ (u : SyncUser). record { name = u.name; uuid = u.vless_uuid }) us in
          omega (arith, n, m, few)
      go k (err x) p e = tt

      reread : (d : Option Json) → o.parse (o.print w.document) ≡ d → WithinLimit (parsed d)
      reread none p = tt
      reread (some k) p = go k (unmarshal_config k) p refl

  pub apply-Limited :
      (us : List SyncUser) (s : Node) (code : Bytes) (status : ℕ)
      → length us ≤ max_users
      → Limited o s
      → Limited o (after_apply code status (apply_users o us s)).1
  unfolding Applied
  apply-Limited us s code status few h = go (apply_users o us s) (apply_users-Applied o us s)
    where
      go : (r : Bool × Node) → Applied o us s r → Limited o (after_apply code status r).1
      go (true, t) w = Written-Limited us s t few w
      go (false, t) (inl e) = same-Limited s t e h
      go (false, t) (inr w) = Written-Limited us s t few w
