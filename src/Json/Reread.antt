-- ===== src/Json/Reread.antt =====
-- encoding/json: what `Unmarshal` reads of a value that `Marshal` has written, without a condition on
-- its strings.
use cf_vpn.Prelude.{
  Bool, true, false, List, [], ◌∷◌, length, suc, Option, none, some, ◌≡◌, refl, ap, sym, subst, ◌∙◌,
  ok, >>=-eq-ok, ok-injective, if◌then◌else◌,
}
use cf_vpn.Text.{Bytes, equal}
use cf_vpn.Text.Utf8.{to_utf8, to_utf8_from, is_ascii, equal-to_utf8}
use cf_vpn.Dict.{Dict, lookup, put_all}
use cf_vpn.Dict.Equality.{or_else, last, lookup-put_all}
use cf_vpn.Json.{
  Json, null, flag, number, text, array, object, Items, no_items, item, items, Members, no_members,
  member, members, Slice, elements, Read, as_text, as_dict, as_slice, read_all,
}
use cf_vpn.Json.Encoded.{encoded, encoded_items, encoded_members}

abbrev pub mapped : Option Json → Option Json
mapped none = none
mapped (some j) = some (encoded j)

last-encoded :
    (k : Bytes) (ms : Members)
    → is_ascii k ≡ true
    → last k (members (encoded_members ms)) ≡ mapped (last k (members ms))
unfolding last encoded_members
last-encoded k no_members a = refl
last-encoded k (member j v ms) a =
    rw (last-encoded k ms a, equal-to_utf8 j k a) (step (last k (members ms)) (equal j k))
  where
    step :
        (o : Option Json) (b : Bool)
        → or_else (mapped o) (if b then some (encoded v) else none)
          ≡ mapped (or_else o (if b then some v else none))
    step none true = refl
    step none false = refl
    step (some w) b = refl

-- Maps that hold the same values, encoded in the second, at the keys that the program knows.
abbrev pub Encodes : Dict Json → Dict Json → Type 0
Encodes raw raw' = (k : Bytes) → is_ascii k ≡ true → lookup k raw' ≡ mapped (lookup k raw)

or_none : (o : Option Json) → or_else o none ≡ o
or_none none = refl
or_none (some v) = refl

members-Encodes :
    (ms : Members) → Encodes (put_all [] (members ms)) (put_all [] (members (encoded_members ms)))
unfolding lookup
members-Encodes ms k a =
    lookup-put_all k [] (members (encoded_members ms)) tt
    ∙ (or_none (last k (members (encoded_members ms))) ∙ last-encoded k ms a)
    ∙ ap mapped (sym (lookup-put_all k [] (members ms) tt ∙ or_none (last k (members ms))))

pub as_dict-encoded :
    (j : Json) (raw : Dict Json)
    → as_dict j ≡ ok raw
    → (raw' : Dict Json) × (as_dict (encoded j) ≡ ok raw') × Encodes raw raw'
unfolding encoded
as_dict-encoded null raw h = (
  [],
  refl,
  λ k a.
      subst (λ (r : Dict Json). lookup k [] ≡ mapped (lookup k r)) (ok-injective h)
        (unfold lookup in refl),
)
as_dict-encoded (flag b) raw h = absurd (cc h)
as_dict-encoded (number s) raw h = absurd (cc h)
as_dict-encoded (text s) raw h = absurd (cc h)
as_dict-encoded (array is) raw h = absurd (cc h)
as_dict-encoded (object ms) raw h = (
  put_all [] (members (encoded_members ms)),
  refl,
  subst (λ r. Encodes r (put_all [] (members (encoded_members ms)))) (ok-injective h)
      (members-Encodes ms),
)

pub as_text-encoded :
    (j : Json) (s : Bytes) → as_text j ≡ ok s → as_text (encoded j) ≡ ok (to_utf8 s)
unfolding encoded to_utf8_from
as_text-encoded null s h = ap (λ t. ok (to_utf8 t)) (ok-injective h)
as_text-encoded (flag b) s h = absurd (cc h)
as_text-encoded (number t) s h = absurd (cc h)
as_text-encoded (text t) s h = ap (λ t. ok (to_utf8 t)) (ok-injective h)
as_text-encoded (array is) s h = absurd (cc h)
as_text-encoded (object ms) s h = absurd (cc h)

module _ {A : Type 0} (read : Json → Read A)
    (rereads : (j : Json) (a : A) → read j ≡ ok a → (a' : A) × (read (encoded j) ≡ ok a')) where
  read_all-encoded :
      (is : Items) (xs : List A)
      → read_all read (items is) ≡ ok xs
      → (xs' : List A) × (read_all read (items (encoded_items is)) ≡ ok xs')
        × (length xs' ≡ length xs)
  unfolding read_all encoded_items
  read_all-encoded no_items xs h = ([], refl, ap length (ok-injective h))
  read_all-encoded (item j is) xs h =
      let (a, ea, h1) = >>=-eq-ok (read j) _ h in
      let (rest, er, h2) = >>=-eq-ok (read_all read (items is)) _ h1 in
      let (a', e1) = rereads j a ea in
      let (rest', e2, size) = read_all-encoded is rest er in
      (a' ∷ rest', rw e1 (rw e2 refl), ap suc size ∙ ap length (ok-injective h2))

  -- A slice that is read again has as many elements.
  pub as_slice-encoded :
      (j : Json) (xs : Slice A)
      → as_slice read j ≡ ok xs
      → (xs' : Slice A) × (as_slice read (encoded j) ≡ ok xs')
        × (length (elements xs') ≡ length (elements xs))
  unfolding as_slice encoded
  as_slice-encoded null xs h =
      (none, refl, ap (λ (s : Slice A). length (elements s)) (ok-injective h))
  as_slice-encoded (flag b) xs h = absurd (cc h)
  as_slice-encoded (number t) xs h = absurd (cc h)
  as_slice-encoded (text t) xs h = absurd (cc h)
  as_slice-encoded (object ms) xs h = absurd (cc h)
  as_slice-encoded (array is) xs h =
      let (ys, e, last) = >>=-eq-ok (read_all read (items is)) _ h in
      let (ys', e', size) = read_all-encoded is ys e in
      (some ys', rw e' refl, size ∙ ap (λ (s : Slice A). length (elements s)) (ok-injective last))
