-- ===== src/Templates/Removal.antt =====
-- internal/xray/config.go on a config of internal/templates/render.go: `RemoveUser` where several
-- inbounds serve the same users.
use cf_vpn.Prelude.{
  true, not, List, [], ◌∷◌, ◌++◌, none, some, ◌≡◌, refl, ap, sym, ◌∙◌, subst, inl, inr, Bool-cases,
  any, ok, err, ok-injective,
}
use cf_vpn.Text.{Bytes, codes, equal, equal_iff, is_empty}
use cf_vpn.Json.{Json, elements, Read}
use cf_vpn.Xray.{Client, Settings, Inbound, Config, unmarshal_config}
use cf_vpn.Xray.Accounts.{
  find_in, find_inbound, load_vless, remove_user, remove_at, drop_clients, is_user,
  get_vless_client, normalize_email, email_of, UserError,
}
use cf_vpn.Xray.Mutations.{remove_user-Removes}
use cf_vpn.Templates.Xray
use cf_vpn.Templates.Served.{
  served_clients, Serves, ServesAll, plain_clients, render_xray_cloudflare_opts-Serving,
}

dropped_first :
    (cfg : Config) (i : Inbound) (l : List Inbound) (target : Bytes) (r : Read Settings)
    (out : Config)
    → drop_clients cfg (record { before = []; found = i; behind = l }) target r ≡ ok out
    → (new : Inbound) × (out.inbounds ≡ some (new ∷ l))
dropped_first cfg i l target (err e) out h = absurd (cc h)
dropped_first cfg i l target (ok s) out h =
    elim (Bool-cases (any (is_user target) (elements s.clients))) [
      | inl there ↦
          (_, sym (ap (λ (c : Config). c.inbounds) (ok-injective {E = UserError} (rw there at h))))
      | inr missing ↦ absurd (cc (rw missing at h))
    ]

-- Only the first inbound changes where that is a vless one.
pub remove_user-first :
    (cfg : Config) (i : Inbound) (l : List Inbound) (name : Bytes) (out : Config)
    → cfg.inbounds ≡ some (i ∷ l)
    → i.protocol ≡ codes "vless"
    → remove_user cfg name ≡ ok out
    → (new : Inbound) × (out.inbounds ≡ some (new ∷ l))
unfolding remove_user find_in equal
remove_user-first cfg i l name out e p h =
    let found : find_inbound cfg (codes "vless")
        ≡ some (record { before = []; found = i; behind = l }) =
      rw e (rw p refl) in
    dropped_first cfg i l (normalize_email name) (load_vless i) out
      (subst (λ o. remove_at cfg (normalize_email name) o ≡ ok out) found h)

-- The user stands in the list.
abbrev pub Member : Xray.XrayUser → List Xray.XrayUser → Type 0
Member u us = (front : List Xray.XrayUser) × (back : List Xray.XrayUser) × (us ≡ front ++ u ∷ back)

any-Member :
    (target : Bytes) (us : List Xray.XrayUser)
    → any (is_user target) (plain_clients us) ≡ true
    → (u : Xray.XrayUser) × Member u us × (normalize_email (email_of u.name) ≡ target)
any-Member target [] h = absurd (cc h)
any-Member target (u ∷ us) h =
    elim (Bool-cases (equal (normalize_email (email_of u.name)) target)) [
      | inl hit ↦ (u, ([], us, refl), (equal_iff (normalize_email (email_of u.name)) target).0 hit)
      | inr miss ↦
          let (v, (front, back, e), same) = any-Member target us (rw miss at h) in
          (v, (u ∷ front, back, ap (◌∷◌ u) e), same)
    ]

-- What is left of a user that was removed, one of those that the config was rendered for: the
-- first inbound has lost it, the second has not.
pub record Kept (us : List Xray.XrayUser) (name : Bytes) (out : Config) : Type 0 where
  pub user : Xray.XrayUser
  pub among : Member user us
  pub called : normalize_email (email_of user.name) ≡ normalize_email name
  pub gone : get_vless_client out name ≡ none
  pub first : Inbound
  pub second : Inbound
  pub rest : List Inbound
  pub inbounds : out.inbounds ≡ some (first ∷ second ∷ rest)
  pub serves : Serves (plain_clients us) second

kept :
    (us : List Xray.XrayUser) (css : List (List Client)) (cfg : Config) (is : List Inbound)
    (name : Bytes) (out : Config)
    → cfg.inbounds ≡ some is
    → ServesAll (plain_clients us ∷ plain_clients us ∷ css) is
    → remove_user cfg name ≡ ok out
    → Kept us name out
kept us css cfg [] name out e s h = absurd s
kept us css cfg (i ∷ []) name out e s h = absurd (s.1)
kept us css cfg (i ∷ k ∷ l) name out e s h =
    let (new, written) = remove_user-first cfg i (k ∷ l) name out e (s.0.protocol) h in
    let removes = remove_user-Removes cfg name out h in
    let had = served_clients cfg (plain_clients us) (plain_clients us ∷ css) (i ∷ k ∷ l) e s in
    let (user, among, called) =
      any-Member (normalize_email name) us
        (subst (λ cs. any (is_user (normalize_email name)) cs ≡ true) had removes.there) in
    record {
      user = user;
      among = among;
      called = called;
      gone = removes.gone;
      first = new;
      second = k;
      rest = l;
      inbounds = written;
      serves = s.1.0;
    }

-- On a config rendered with the XHTTP inbound, whenever `RemoveUser` returns no error the user is
-- no longer found; one of the users that the config was rendered for has that name, up to the
-- normalisation of emails, and the second inbound still serves all of these users.
pub remove_user-Kept :
    (us : List Xray.XrayUser) (host : Bytes) (dns : List Bytes) (opts : Xray.XrayCloudflareOptions)
    (j : Json) (cfg : Config) (name : Bytes) (out : Config)
    → Xray.render_xray_cloudflare_opts us host dns opts ≡ ok j
    → opts.xhttp ≡ true
    → unmarshal_config j ≡ ok cfg
    → remove_user cfg name ≡ ok out
    → Kept us name out
remove_user-Kept us host dns opts j cfg name out h x u r =
    let s = render_xray_cloudflare_opts-Serving us host dns opts j h in
    let same : s.config ≡ cfg = ok-injective (sym s.reads ∙ u) in
    let direct = Xray.when (not (is_empty opts.direct_host)) (plain_clients us) in
    kept us direct cfg s.inbounds name out
      (subst (λ (c : Config). c.inbounds ≡ some s.inbounds) same s.holds)
      (subst
        (λ b. ServesAll (plain_clients us ∷ (Xray.when b (plain_clients us) ++ direct)) s.inbounds)
        x s.serves)
      r
