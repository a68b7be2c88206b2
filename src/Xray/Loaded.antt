-- ===== src/Xray/Loaded.antt =====
-- internal/xray/config.go: what `UnmarshalJSON` returns for vless settings.
use cf_vpn.Prelude.{List, [], ◌∷◌, Option, none, some, ◌≡◌, subst, All, ok, >>=-eq-ok, ok-injective}
use cf_vpn.Text.{codes, equal}
use cf_vpn.Text.Order.{IsAscending}
use cf_vpn.Dict.{Dict, key_of, lookup}
use cf_vpn.Dict.Equality.{lookup-delete_all, delete_all-IsAscending, put_all-IsAscending}
use cf_vpn.Json.{
  Json, null, flag, number, text, array, object, items, members, Slice, elements, as_dict, as_slice,
  read_all,
}
use cf_vpn.Xray.{
  Client, client_order, client_fields, unmarshal_client, Settings, settings_order, settings_fields,
  unmarshal_settings, read_present, text_at,
}
use cf_vpn.Xray.Codec.{IsClient, IsSettings}

as_dict-IsAscending : (j : Json) (m : Dict Json) → as_dict j ≡ ok m → IsAscending key_of m
as_dict-IsAscending null m h = subst (IsAscending key_of) (ok-injective h) tt
as_dict-IsAscending (object ms) m h =
    subst (IsAscending key_of) (ok-injective h) (put_all-IsAscending [] (members ms) tt)
as_dict-IsAscending (flag b) m h = absurd (cc h)
as_dict-IsAscending (number s) m h = absurd (cc h)
as_dict-IsAscending (text s) m h = absurd (cc h)
as_dict-IsAscending (array js) m h = absurd (cc h)

client_fields-IsClient :
    (m : Dict Json) (c : Client) → IsAscending key_of m → client_fields m ≡ ok c → IsClient c
unfolding equal
client_fields-IsClient m c up h =
    let (i, hi, h1) = >>=-eq-ok (text_at (codes "id") m) _ h in
    let (e, he, h2) = >>=-eq-ok (text_at (codes "email") m) _ h1 in
    let (f, hf, h3) = >>=-eq-ok (text_at (codes "flow") m) _ h2 in
    subst IsClient (ok-injective h3) (record {
      ascending = delete_all-IsAscending client_order m up;
      absent = (
        lookup-delete_all (codes "id") client_order m up,
        (
          lookup-delete_all (codes "email") client_order m up,
          (lookup-delete_all (codes "flow") client_order m up, tt),
        ),
      );
    })

unmarshal_client-IsClient : (j : Json) (c : Client) → unmarshal_client j ≡ ok c → IsClient c
unmarshal_client-IsClient j c h =
    let (m, hm, h1) = >>=-eq-ok (as_dict j) client_fields h in
    client_fields-IsClient m c (as_dict-IsAscending j m hm) h1

read_all-IsClient :
    (js : List Json) (cs : List Client) → read_all unmarshal_client js ≡ ok cs → All IsClient cs
unfolding read_all
read_all-IsClient [] cs h = subst (All IsClient) (ok-injective h) tt
read_all-IsClient (j ∷ js) cs h =
    let (c, hc, h1) = >>=-eq-ok (unmarshal_client j) _ h in
    let (rest, hr, h2) = >>=-eq-ok (read_all unmarshal_client js) _ h1 in
    subst (All IsClient) (ok-injective h2)
      (unmarshal_client-IsClient j c hc, read_all-IsClient js rest hr)

as_slice-IsClient :
    (j : Json) (cs : Slice Client)
    → as_slice unmarshal_client j ≡ ok cs
    → All IsClient (elements cs)
unfolding as_slice
as_slice-IsClient null cs h = subst (λ x. All IsClient (elements x)) (ok-injective h) tt
as_slice-IsClient (array js) cs h =
    let (xs, hx, h1) = >>=-eq-ok (read_all unmarshal_client (items js)) _ h in
    subst (λ x. All IsClient (elements x)) (ok-injective h1) (read_all-IsClient (items js) xs hx)
as_slice-IsClient (flag b) cs h = absurd (cc h)
as_slice-IsClient (number s) cs h = absurd (cc h)
as_slice-IsClient (text s) cs h = absurd (cc h)
as_slice-IsClient (object ms) cs h = absurd (cc h)

read_present-IsClient :
    (o : Option Json) (cs : Slice Client)
    → read_present none (as_slice unmarshal_client) o ≡ ok cs
    → All IsClient (elements cs)
read_present-IsClient none cs h = subst (λ x. All IsClient (elements x)) (ok-injective h) tt
read_present-IsClient (some j) cs h = as_slice-IsClient j cs h

-- Loaded settings keep the known fields out of the bags of the others.
pub unmarshal_settings-IsSettings :
    (j : Json) (s : Settings) → unmarshal_settings j ≡ ok s → IsSettings s
unfolding unmarshal_settings equal
unmarshal_settings-IsSettings j s h =
    let (m, hm, h1) = >>=-eq-ok (as_dict j) settings_fields h in
    let up = as_dict-IsAscending j m hm in
    let (cs, hc, h2) =
      >>=-eq-ok (read_present none (as_slice unmarshal_client) (lookup (codes "clients") m)) _ h1 in
    let (d, hd, h3) = >>=-eq-ok (text_at (codes "decryption") m) _ h2 in
    subst IsSettings (ok-injective h3) (record {
      clients = read_present-IsClient (lookup (codes "clients") m) cs hc;
      extras = record {
        ascending = delete_all-IsAscending settings_order m up;
        absent = (
          lookup-delete_all (codes "clients") settings_order m up,
          (lookup-delete_all (codes "decryption") settings_order m up, tt),
        );
      };
    })
