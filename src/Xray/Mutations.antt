-- ===== src/Xray/Mutations.antt =====
-- internal/xray/config.go: `AddUser` and `RemoveUser` as a whole.
use cf_vpn.Prelude.{
  Bool, true, false, not, List, [], ◌∷◌, ◌++◌, map, Option, none, some, ◌≡◌, refl, ap, ◌∙◌, sym,
  subst, inl, inr, arith, Bool-cases, any, filter, ok, err, >>=-eq-ok, ok-injective, All,
  All-append,
}
use cf_vpn.Text.{Bytes, codes, equal}
use cf_vpn.Json.{Json, elements, Read}
use cf_vpn.Xray.{Client, Settings, Inbound, Config}
use cf_vpn.Xray.Codec.{IsClient, IsSettings}
use cf_vpn.Xray.Loaded.{unmarshal_settings-IsSettings}
use cf_vpn.Xray.Accounts.{
  Place, find_inbound, read_settings, load_vless, save_vless, settings_clients, place_clients,
  clients_of, user_of, list_user_names, find_client, get_vless_client, add_user, add_at,
  append_client, is_user, remove_user, remove_at, drop_clients, normalize_email, validate_user_name,
  UserError,
}
use cf_vpn.Xray.Names.{IsName, validate_user_name-IsName}
use cf_vpn.Xray.Users.{
  Rewrites, Adds, Adds-clients, any-map, new_client, new_client-IsClient, save_vless-Rewrites,
  clients_of-save_vless,
}

-- The place and the settings that an operation read.
clients_of-eq :
    (cfg : Config) (p : Place) (s : Settings)
    → find_inbound cfg (codes "vless") ≡ some p
    → load_vless p.found ≡ ok s
    → clients_of cfg ≡ elements s.clients
clients_of-eq cfg p s h k = ap place_clients h ∙ ap settings_clients k

load_vless-IsSettings : (i : Inbound) (s : Settings) → load_vless i ≡ ok s → IsSettings s
load_vless-IsSettings i s h = go i.settings h
  where
    go : (o : Option Json) → read_settings o ≡ ok s → IsSettings s
    go none e = absurd (cc e)
    go (some j) e = unmarshal_settings-IsSettings j s e

add_at-Adds :
    (cfg : Config) (name uuid flow : Bytes) (out : Config)
    → IsName name
    → any (is_user name) (clients_of cfg) ≡ false
    → add_at cfg (new_client name uuid flow) (find_inbound cfg (codes "vless")) ≡ ok out
    → Adds cfg name uuid flow out
add_at-Adds cfg name uuid flow out valid fresh h = go (find_inbound cfg (codes "vless")) refl h
  where
    loaded :
        (p : Place) (r : Read Settings)
        → find_inbound cfg (codes "vless") ≡ some p
        → load_vless p.found ≡ r
        → append_client cfg p (new_client name uuid flow) r ≡ ok out
        → Adds cfg name uuid flow out
    loaded p (err e) f l k = absurd (cc k)
    loaded p (ok s) f l k =
        let v = load_vless-IsSettings p.found s l in
        let c = new_client name uuid flow in
        let s2 : Settings = record {
          clients = some (elements s.clients ++ new_client name uuid flow ∷ []);
          decryption = s.decryption;
          extras = s.extras;
        } in
        let v2 : IsSettings s2 = record {
          clients =
              All-append IsClient (elements s.clients) (c ∷ []) v.clients
                (new_client-IsClient name uuid flow, tt);
          extras = v.extras;
        } in
        subst (Adds cfg name uuid flow) (ok-injective k) (
          Adds-clients cfg name uuid flow (save_vless cfg p s2) valid fresh
            (clients_of-save_vless cfg p s2 f v2
              ∙ ap (λ l. l ++ c ∷ []) (sym (clients_of-eq cfg p s f l)))
            (save_vless-Rewrites cfg p s2 f))

    go :
        (o : Option Place)
        → find_inbound cfg (codes "vless") ≡ o
        → add_at cfg (new_client name uuid flow) o ≡ ok out
        → Adds cfg name uuid flow out
    go none e k = absurd (cc k)
    go (some p) e k = loaded p (load_vless p.found) e refl k

-- When `AddUser` returns no error, the new client stands behind those that were there, is listed
-- under the given name and found with the given uuid, and nothing but the settings of one
-- inbound has changed.
pub add_user-Adds :
    (cfg : Config) (name uuid flow : Bytes) (out : Config)
    → add_user cfg name uuid flow ≡ ok out
    → Adds cfg name uuid flow out
unfolding add_user list_user_names
add_user-Adds cfg name uuid flow out h =
    let (u, valid, k) = >>=-eq-ok (validate_user_name name) _ h in
    let named = validate_user_name-IsName name valid in
    elim (Bool-cases (any (λ n. equal n name) (map user_of (clients_of cfg)))) [
      | inl taken ↦ absurd (ground arith)
      | inr fresh ↦
          add_at-Adds cfg name uuid flow out named (sym (any-map name (clients_of cfg)) ∙ fresh)
            (ground arith)
    ]

find_client-filter :
    (t : Bytes) (cs : List Client) → find_client t (filter (λ c. not (is_user t c)) cs) ≡ none
unfolding find_client
find_client-filter t [] = refl
find_client-filter t (c ∷ cs) = elim (Bool-cases (is_user t c)) [
  | inl hit ↦ rw hit (find_client-filter t cs)
  | inr miss ↦ rw miss (rw miss (find_client-filter t cs))
]

All-filter :
    (P : Client → Type 0) (p : Client → Bool) (cs : List Client) → All P cs → All P (filter p cs)
All-filter P p [] h = tt
All-filter P p (c ∷ cs) h = elim (Bool-cases (p c)) [
  | inl keep ↦ rw keep (h.0, All-filter P p cs h.1)
  | inr drop ↦ rw drop (All-filter P p cs h.1)
]

-- The user was in the first vless inbound and is gone from it, and its others are as they were.
pub record Removes (cfg : Config) (name : Bytes) (out : Config) : Type 0 where
  pub there : any (is_user (normalize_email name)) (clients_of cfg) ≡ true
  pub clients :
      clients_of out ≡ filter (λ c. not (is_user (normalize_email name) c)) (clients_of cfg)
  pub gone : get_vless_client out name ≡ none
  pub rest : Rewrites cfg out

-- When `RemoveUser` returns no error, the first vless inbound had a client with that name; every
-- such client of this inbound is gone, its others are there in their order, and nothing but the
-- settings of one inbound has changed: a second vless inbound keeps its clients.
pub remove_user-Removes :
    (cfg : Config) (name : Bytes) (out : Config)
    → remove_user cfg name ≡ ok out
    → Removes cfg name out
unfolding remove_user get_vless_client
remove_user-Removes cfg name out h = go (find_inbound cfg (codes "vless")) refl h
  where
    dropped :
        (p : Place) (s : Settings)
        → find_inbound cfg (codes "vless") ≡ some p
        → load_vless p.found ≡ ok s
        → any (is_user (normalize_email name)) (elements s.clients) ≡ true
        → Removes cfg name (
            save_vless cfg p (record {
              clients =
                  some (filter (λ c. not (is_user (normalize_email name) c)) (elements s.clients));
              decryption = s.decryption;
              extras = s.extras;
            }))
    dropped p s f l there =
        let t = normalize_email name in
        let v = load_vless-IsSettings p.found s l in
        let s2 : Settings = record {
          clients =
              some (filter (λ c. not (is_user (normalize_email name) c)) (elements s.clients));
          decryption = s.decryption;
          extras = s.extras;
        } in
        let v2 : IsSettings s2 = record {
          clients = All-filter IsClient (λ c. not (is_user t c)) (elements s.clients) v.clients;
          extras = v.extras;
        } in
        let now = clients_of-save_vless cfg p s2 f v2 in
        let was = clients_of-eq cfg p s f l in
        record {
          there = rw was there;
          clients = now ∙ ap (filter (λ c. not (is_user t c))) (sym was);
          gone = rw now (find_client-filter t (elements s.clients));
          rest = save_vless-Rewrites cfg p s2 f;
        }

    loaded :
        (p : Place) (r : Read Settings)
        → find_inbound cfg (codes "vless") ≡ some p
        → load_vless p.found ≡ r
        → drop_clients cfg p (normalize_email name) r ≡ ok out
        → Removes cfg name out
    loaded p (err e) f l k = absurd (cc k)
    loaded p (ok s) f l k =
        elim (Bool-cases (any (is_user (normalize_email name)) (elements s.clients))) [
          | inl there ↦
              subst (Removes cfg name) (ok-injective {E = UserError} (ground arith))
                (dropped p s f l there)
          | inr missing ↦ absurd (ground arith)
        ]

    go :
        (o : Option Place)
        → find_inbound cfg (codes "vless") ≡ o
        → remove_at cfg (normalize_email name) o ≡ ok out
        → Removes cfg name out
    go none e k = absurd (cc k)
    go (some p) e k = loaded p (load_vless p.found) e refl k
