-- ===== src/Xray/Stable.antt =====
-- internal/xray/config.go: `marshalStableObject` against a reader of its output.
use cf_vpn.Prelude.{
  Bool, true, false, List, [], ◌∷◌, ◌++◌, Option, none, some, ◌≡◌, refl, ap, subst, sym, ◌∙◌, inl,
  inr, arith, if◌then◌else◌, Bool-cases, any, ok, ◌>>=◌,
}
use cf_vpn.Text.{Bytes, equal, equal_iff}
use cf_vpn.Text.Order.{IsAscending}
use cf_vpn.Dict.{Dict, key_of, lookup}
use cf_vpn.Dict.Laws.{lookup-Above}
use cf_vpn.Dict.Equality.{last, or_else, put_all-eq}
use cf_vpn.Json.{Json, Read, as_dict, members-object_of}
use cf_vpn.Xray.{emit, preferred_entries, leftovers, stable_object}

or_none : (o : Option Json) → or_else o none ≡ o
or_none none = refl
or_none (some v) = refl

last-append :
    (j : Bytes) (a b : List (Bytes × Json)) → last j (a ++ b) ≡ or_else (last j b) (last j a)
unfolding last
last-append j [] b = sym (or_none (last j b))
last-append j ((k, v) ∷ a) b =
    rw (last-append j a b) (assoc (last j b) (last j a) (if equal k j then some v else none))
  where
    assoc : (x y z : Option Json) → or_else (or_else x y) z ≡ or_else x (or_else y z)
    assoc none y z = refl
    assoc (some v) y z = refl

last-emit : (j k : Bytes) (o : Option Json) → last j (emit k o) ≡ (if equal k j then o else none)
unfolding last
last-emit j k none = elim (Bool-cases (equal k j)) [ inl h ↦ rw h refl | inr h ↦ rw h refl ]
last-emit j k (some v) = refl

-- The preferred keys come with their values.
last-preferred_entries :
    (j : Bytes) (m : Dict Json) (p : List Bytes)
    → last j (preferred_entries m p) ≡ (if any (equal j) p then lookup j m else none)
unfolding preferred_entries
last-preferred_entries j m [] = unfold last in refl
last-preferred_entries j m (k ∷ p) =
    last-append j (emit k (lookup k m)) (preferred_entries m p)
    ∙ rw (last-preferred_entries j m p, last-emit j k (lookup k m))
        (elim (Bool-cases (equal k j)) [
          | inl same ↦
              let e = (equal_iff k j).0 same in
              rw (same, (equal_iff j k).1 (sym e))
                (subst
                  (λ u.
                    or_else (if any (equal j) p then lookup j m else none) (lookup u m)
                    ≡ lookup j m)
                  (sym e) (twice (any (equal j) p) (lookup j m)))
          | inr other ↦
              rw (other, unequal other) (or_none (if any (equal j) p then lookup j m else none))
        ])
  where
    twice : (b : Bool) (o : Option Json) → or_else (if b then o else none) o ≡ o
    twice true none = refl
    twice true (some v) = refl
    twice false o = refl

    unequal : equal k j ≡ false → equal j k ≡ false
    unequal h = ground (arith, equal_iff k j, equal_iff j k)

-- The other keys come with theirs.
last-leftovers :
    (j : Bytes) (p : List Bytes) (m : Dict Json)
    → IsAscending key_of m
    → last j (leftovers m p) ≡ (if any (equal j) p then none else lookup j m)
unfolding leftovers last lookup
last-leftovers j p [] h = elim (Bool-cases (any (equal j) p)) [
  | inl h ↦ rw h refl
  | inr h ↦ rw h refl
]
last-leftovers j p ((k, v) ∷ m) h = elim (Bool-cases (any (equal k) p)) [
  | inl skip ↦ elim (Bool-cases (equal k j)) [
    | inl same ↦ rw (skip, same) (rw (last-leftovers j p m h.1, moved same skip) refl)
    | inr other ↦ rw (skip, other) (last-leftovers j p m h.1)
  ]
  | inr keep ↦ elim (Bool-cases (equal k j)) [
    | inl same ↦ rw (keep, same) (rw (last-leftovers j p m h.1, moved same keep, gone same) refl)
    | inr other ↦ rw (keep, other) (rw (last-leftovers j p m h.1) (or_none _))
  ]
]
  where
    moved : {b : Bool} → equal k j ≡ true → any (equal k) p ≡ b → any (equal j) p ≡ b
    moved {b} same e = subst (λ u. any (equal u) p ≡ b) ((equal_iff k j).0 same) e

    gone : equal k j ≡ true → lookup j m ≡ none
    gone same = subst (λ u. lookup u m ≡ none) ((equal_iff k j).0 same) (lookup-Above k m h.0 h.1)

-- Reading an object back gives the map that was written, whatever keys were preferred.
pub as_dict-stable_object :
    (m : Dict Json) (p : List Bytes) → IsAscending key_of m → as_dict (stable_object m p) ≡ ok m
as_dict-stable_object m p up = rw (members-object_of (preferred_entries m p ++ leftovers m p)) (
    ap ok (
      put_all-eq (preferred_entries m p ++ leftovers m p) m up (λ j.
        last-append j (preferred_entries m p) (leftovers m p)
        ∙ rw (last-preferred_entries j m p, last-leftovers j p m up)
            (step (any (equal j) p) (lookup j m)))))
  where
    step :
        (b : Bool) (o : Option Json) → or_else (if b then none else o) (if b then o else none) ≡ o
    step true o = refl
    step false none = refl
    step false (some v) = refl

-- The same in front of what a reader does with the map.
pub stable_object->>= :
    {B : Type 0} (m : Dict Json) (p : List Bytes) (f : Dict Json → Read B)
    → IsAscending key_of m
    → (as_dict (stable_object m p) >>= f) ≡ f m
stable_object->>= m p f up = ap (λ r. r >>= f) (as_dict-stable_object m p up)
