-- ===== src/Xray/Reread.antt =====
-- internal/xray/config.go: a config that is read again from what encoding/json has written.
use cf_vpn.Prelude.{
  ℕ, suc, true, List, [], ◌∷◌, map, length, ◌>>=◌, Option, none, some, ◌≡◌, refl, ap, sym, subst,
  ◌∙◌, ok, >>=-eq-ok, ok-injective,
}
use mathlib.Core.Option.{some-injective}
use cf_vpn.Text.{Bytes, codes, equal_self}
use cf_vpn.Text.Utf8.{to_utf8, to_utf8-ascii, is_ascii}
use cf_vpn.Dict.{Dict, lookup, delete}
use cf_vpn.Json.{
  Json, null, flag, number, text, array, object, no_items, item, items, Slice, elements, Read,
  as_dict, as_text, as_slice, read_all,
}
use cf_vpn.Json.Encoded.{encoded, encoded_items}
use cf_vpn.Json.Reread.{mapped, Encodes, as_dict-encoded, as_text-encoded, as_slice-encoded}
use cf_vpn.Xray.{
  Client, Settings, Inbound, Config, read_present, text_at, client_fields, unmarshal_client,
  settings_fields, unmarshal_settings, inbound_fields, unmarshal_inbound, config_fields,
  unmarshal_config,
}
use cf_vpn.Xray.Accounts.{
  find_in, read_settings, load_vless, settings_clients, place_clients, clients_of, count_users,
  user_of, list_user_names,
}

text_at-encoded :
    (k s : Bytes) (raw raw' : Dict Json)
    → Encodes raw raw'
    → is_ascii k ≡ true
    → text_at k raw ≡ ok s
    → text_at k raw' ≡ ok (to_utf8 s)
text_at-encoded k s raw raw' same a h =
    subst (λ o. read_present [] as_text o ≡ ok (to_utf8 s)) (sym (same k a)) (go (lookup k raw) h)
  where
    go :
        (o : Option Json)
        → read_present [] as_text o ≡ ok s
        → read_present [] as_text (mapped o) ≡ ok (to_utf8 s)
    go none e = unfold encoded in as_text-encoded null s e
    go (some j) e = as_text-encoded j s e

client-encoded :
    (j : Json) (c : Client)
    → unmarshal_client j ≡ ok c
    → (c' : Client) × (unmarshal_client (encoded j) ≡ ok c')
client-encoded j c h =
    let (raw, e, f) = >>=-eq-ok (as_dict j) client_fields h in
    let (raw', e', same) = as_dict-encoded j raw e in
    let (i, ei, f1) = >>=-eq-ok (text_at (codes "id") raw) _ f in
    let (m, em, f2) = >>=-eq-ok (text_at (codes "email") raw) _ f1 in
    let (l, el, f3) = >>=-eq-ok (text_at (codes "flow") raw) _ f2 in
    (
      record {
        id = to_utf8 i;
        email = to_utf8 m;
        flow = to_utf8 l;
        extras = delete (codes "flow") (delete (codes "email") (delete (codes "id") raw'));
      },
      rw e' (
          rw
            (
              text_at-encoded (codes "id") i raw raw' same refl ei,
              text_at-encoded (codes "email") m raw raw' same refl em,
              text_at-encoded (codes "flow") l raw raw' same refl el,
            )
            refl),
    )

-- A slice at a key, or none.
module _ {A : Type 0} (read : Json → Read A)
    (rereads : (j : Json) (a : A) → read j ≡ ok a → (a' : A) × (read (encoded j) ≡ ok a')) where
  slice_at-encoded :
      (o : Option Json) (xs : Slice A)
      → read_present none (as_slice read) o ≡ ok xs
      → (xs' : Slice A) × (read_present none (as_slice read) (mapped o) ≡ ok xs')
        × (length (elements xs') ≡ length (elements xs))
  slice_at-encoded none xs h =
      (none, refl, ap (λ (s : Slice A). length (elements s)) (ok-injective h))
  slice_at-encoded (some j) xs h = as_slice-encoded read rereads j xs h

settings-encoded :
    (j : Json) (s : Settings)
    → unmarshal_settings j ≡ ok s
    → (s' : Settings) × (unmarshal_settings (encoded j) ≡ ok s')
      × (length (elements s'.clients) ≡ length (elements s.clients))
unfolding unmarshal_settings
settings-encoded j s h =
    let (raw, e, f) = >>=-eq-ok (as_dict j) settings_fields h in
    let (raw', e', same) = as_dict-encoded j raw e in
    let (cs, ec, f1) =
      >>=-eq-ok (read_present none (as_slice unmarshal_client) (lookup (codes "clients") raw)) _
        f in
    let (d, ed, f2) = >>=-eq-ok (text_at (codes "decryption") raw) _ f1 in
    let (cs', ec', size) =
      slice_at-encoded unmarshal_client client-encoded (lookup (codes "clients") raw) cs ec in
    (
      record {
        clients = cs';
        decryption = to_utf8 d;
        extras = delete (codes "decryption") (delete (codes "clients") raw');
      },
      rw e' (
          rw
            (
              same (codes "clients") refl,
              ec',
              text_at-encoded (codes "decryption") d raw raw' same refl ed,
            )
            refl),
      size ∙ ap (λ (x : Settings). length (elements x.clients)) (ok-injective f2),
    )

read_settings-encoded :
    (o : Option Json) (s : Settings)
    → read_settings o ≡ ok s
    → (s' : Settings) × (read_settings (mapped o) ≡ ok s')
      × (length (elements s'.clients) ≡ length (elements s.clients))
read_settings-encoded none s h = absurd (cc h)
read_settings-encoded (some j) s h = settings-encoded j s h

-- A vless inbound with this number of clients.
pub record Holds (i : Inbound) (n : ℕ) : Type 0 where
  pub protocol : i.protocol ≡ codes "vless"
  pub settings : Settings
  pub loads : load_vless i ≡ ok settings
  pub size : length (elements settings.clients) ≡ n

inbound-encoded :
    (j : Json) (i : Inbound) (s : Settings)
    → unmarshal_inbound j ≡ ok i
    → i.protocol ≡ codes "vless"
    → load_vless i ≡ ok s
    → (i' : Inbound) × (unmarshal_inbound (encoded j) ≡ ok i')
      × Holds i' (length (elements s.clients))
inbound-encoded j i s h vless loads =
    let (raw, e, f) = >>=-eq-ok (as_dict j) inbound_fields h in
    let (raw', e', same) = as_dict-encoded j raw e in
    let (p, ep, f1) = >>=-eq-ok (text_at (codes "protocol") raw) _ f in
    let there : lookup (codes "settings") raw ≡ i.settings =
      ap (λ (x : Inbound). x.settings) (ok-injective f1) in
    let named : p ≡ codes "vless" = ap (λ (x : Inbound). x.protocol) (ok-injective f1) ∙ vless in
    let (s', loaded, size) =
      read_settings-encoded (lookup (codes "settings") raw) s (ap read_settings there ∙ loads) in
    (
      record {
        protocol = to_utf8 p;
        settings = lookup (codes "settings") raw';
        extras = delete (codes "settings") (delete (codes "protocol") raw');
      },
      rw e' (rw (text_at-encoded (codes "protocol") p raw raw' same refl ep) refl),
      record {
        protocol = ap to_utf8 named ∙ to_utf8-ascii (codes "vless") refl;
        settings = s';
        loads = ap read_settings (same (codes "settings") refl) ∙ loaded;
        size = size;
      },
    )

first-clients :
    (cfg : Config) (i : Inbound) (is : List Inbound) (s : Settings)
    → cfg.inbounds ≡ some (i ∷ is)
    → i.protocol ≡ codes "vless"
    → load_vless i ≡ ok s
    → clients_of cfg ≡ elements s.clients
unfolding find_in
first-clients cfg i is s e vless loads =
    let found : find_in (codes "vless") (i ∷ is)
        ≡ some (record { before = []; found = i; behind = is }) =
      rw vless (rw (equal_self (codes "vless")) refl) in
    ap (λ l. place_clients (find_in (codes "vless") (elements l))) e
    ∙ ap place_clients found
    ∙ ap settings_clients loads

length-users : (cs : List Client) → length (map user_of cs) ≡ length cs
length-users [] = refl
length-users (c ∷ cs) = ap suc (length-users cs)

-- The first inbound of the slice that is read again.
slice-encoded :
    (o : Option Json) (i : Inbound) (is : List Inbound) (s : Settings) (ys : Slice Inbound)
    → read_present none (as_slice unmarshal_inbound) o ≡ ok (some (i ∷ is))
    → i.protocol ≡ codes "vless"
    → load_vless i ≡ ok s
    → read_present none (as_slice unmarshal_inbound) (mapped o) ≡ ok ys
    → (i' : Inbound) × (is' : List Inbound) × (ys ≡ some (i' ∷ is'))
      × Holds i' (length (elements s.clients))
unfolding as_slice read_all encoded encoded_items
slice-encoded none i is s ys h vless loads k = absurd (cc h)
slice-encoded (some null) i is s ys h vless loads k = absurd (cc h)
slice-encoded (some (flag b)) i is s ys h vless loads k = absurd (cc h)
slice-encoded (some (number t)) i is s ys h vless loads k = absurd (cc h)
slice-encoded (some (text t)) i is s ys h vless loads k = absurd (cc h)
slice-encoded (some (object ms)) i is s ys h vless loads k = absurd (cc h)
slice-encoded (some (array no_items)) i is s ys h vless loads k = absurd (cc h)
slice-encoded (some (array (item j js))) i is s ys h vless loads k =
    let (xs, ex, h0) = >>=-eq-ok (read_all unmarshal_inbound (j ∷ items js)) _ h in
    let (a, ea, h1) = >>=-eq-ok (unmarshal_inbound j) _ ex in
    let (rest, er, h2) = >>=-eq-ok (read_all unmarshal_inbound (items js)) _ h1 in
    let same : a ≡ i =
      ap (head_or a) (ok-injective h2 ∙ some-injective xs (i ∷ is) (ok-injective h0)) in
    let (i', e', holds) = inbound-encoded j i s (ea ∙ ap ok same) vless loads in
    let (zs, ez, k0) =
      >>=-eq-ok (read_all unmarshal_inbound (encoded j ∷ items (encoded_items js))) _ k in
    let (b, eb, k1) = >>=-eq-ok (unmarshal_inbound (encoded j)) _ ez in
    let (rest', er', k2) = >>=-eq-ok (read_all unmarshal_inbound (items (encoded_items js))) _ k1 in
    let again : b ≡ i' = ok-injective (sym eb ∙ e') in
    (
      i',
      rest',
      sym (ok-injective k0) ∙ ap some (sym (ok-injective k2) ∙ ap (λ x. x ∷ rest') again),
      holds,
    )
  where
    head_or : Inbound → List Inbound → Inbound
    head_or a [] = a
    head_or a (x ∷ xs) = x

-- A config whose first inbound is a vless one has as many users when it is read again from what was
-- written.
pub count_users-encoded :
    (j : Json) (cfg read : Config) (i : Inbound) (is : List Inbound) (s : Settings)
    → unmarshal_config j ≡ ok cfg
    → cfg.inbounds ≡ some (i ∷ is)
    → i.protocol ≡ codes "vless"
    → load_vless i ≡ ok s
    → unmarshal_config (encoded j) ≡ ok read
    → count_users read ≡ length (elements s.clients)
unfolding unmarshal_config list_user_names
count_users-encoded j cfg read i is s h whole vless loads k =
    let (raw, e, f) = >>=-eq-ok (as_dict j) config_fields h in
    let (raw', e', same) = as_dict-encoded j raw e in
    let (ins, ei, f1) =
      >>=-eq-ok (read_present none (as_slice unmarshal_inbound) (lookup (codes "inbounds") raw)) _
        f in
    let there : ins ≡ some (i ∷ is) = ap (λ (c : Config). c.inbounds) (ok-injective f1) ∙ whole in
    let again : config_fields raw' ≡ ok read = sym (ap (λ d. d >>= config_fields) e') ∙ k in
    let (ys, ey, g) =
      >>=-eq-ok (read_present none (as_slice unmarshal_inbound) (lookup (codes "inbounds") raw')) _
        again in
    let (i', is', ew, holds) =
      slice-encoded (lookup (codes "inbounds") raw) i is s ys (ei ∙ ap ok there) vless loads (
        sym (ap (read_present none (as_slice unmarshal_inbound)) (same (codes "inbounds") refl))
        ∙ ey) in
    length-users (clients_of read)
    ∙ ap length (
        first-clients read i' is' holds.settings
          (sym (ap (λ (c : Config). c.inbounds) (ok-injective g)) ∙ ew) holds.protocol holds.loads)
    ∙ holds.size
