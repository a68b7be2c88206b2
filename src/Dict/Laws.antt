-- ===== src/Dict/Laws.antt =====
-- The laws of the map and of its order.
use cf_vpn.Prelude.{
  true, false, [], ◌∷◌, ◌++◌, none, some, ◌≡◌, refl, ap, subst, inl, inr, arith, if◌then◌else◌,
  Bool-cases,
}
use cf_vpn.Text.{Bytes, equal, equal_iff, equal_self}
use cf_vpn.Text.Order.{
  less, less_trans, less_asymm, less_total, less→ne, Above, IsAscending, IsAscending-lt,
}
use cf_vpn.Dict.{Dict, key_of, lookup, put, delete}

different : (k j : Bytes) → less k j ≡ true → equal j k ≡ false
different k j h = elim (Bool-cases (equal j k)) [
  | inl same ↦ absurd (cc (less→ne k j h, (equal_iff j k).0 same, equal_self k))
  | inr other ↦ other
]

module _ {A : Type 0} where
  -- In a map with ascending keys, `m[j]` after `m[k] = v` is `v` if `j` is `k`, and what it was
  -- otherwise.
  pub lookup-put :
      (k j : Bytes) (v : A) (m : Dict A)
      → IsAscending key_of m
      → lookup j (put k v m) ≡ (if equal k j then some v else lookup j m)
  unfolding lookup put
  lookup-put k j v [] h = refl
  lookup-put k j v ((i, w) ∷ m) h =
      ground (arith, equal_iff k j, equal_iff i k, equal_iff i j, lookup-put k j v m h.1)

  Above-put :
      (j k : Bytes) (v : A) (m : Dict A)
      → Above key_of j m
      → less j k ≡ true
      → Above key_of j (put k v m)
  unfolding put
  Above-put j k v [] h l = l
  Above-put j k v ((i, w) ∷ m) h l = elim (Bool-cases (equal i k)) [
    | inl same ↦ rw same l
    | inr other ↦ elim (Bool-cases (less k i)) [
      | inl lower ↦ rw (other, lower) l
      | inr higher ↦ rw (other, higher) h
    ]
  ]

  -- A write keeps the order.
  pub put-IsAscending :
      (k : Bytes) (v : A) (m : Dict A) → IsAscending key_of m → IsAscending key_of (put k v m)
  unfolding put
  put-IsAscending k v [] h = (tt, tt)
  put-IsAscending k v ((j, w) ∷ m) h = elim (Bool-cases (equal j k)) [
    | inl same ↦ rw same (subst (λ u. Above key_of u m) ((equal_iff j k).0 same) h.0, h.1)
    | inr other ↦ elim (Bool-cases (less k j)) [
      | inl lower ↦ rw (other, lower) (lower, h)
      | inr higher ↦
          rw (other, higher) (Above-put j k v m h.0 (below higher other), put-IsAscending k v m h.1)
    ]
  ]
    where
      below : less k j ≡ false → equal j k ≡ false → less j k ≡ true
      below a b = elim (Bool-cases (less j k)) [
        | inl c ↦ c
        | inr c ↦ absurd (cc (b, (equal_iff j k).1 (less_total j k c a)))
      ]

  -- A greater key goes to the end.
  pub put-snoc :
      (acc : Dict A) (k : Bytes) (v : A) (m : Dict A)
      → IsAscending key_of (acc ++ (k, v) ∷ m)
      → put k v acc ≡ acc ++ (k, v) ∷ []
  unfolding put
  put-snoc [] k v m h = refl
  put-snoc ((j, w) ∷ acc) k v m h =
      let lt = IsAscending-lt key_of (j, w) acc (k, v) m h in
      rw (less→ne j k lt) (rw (less_asymm j k lt) (ap (◌∷◌ (j, w)) (put-snoc acc k v m h.1)))

  -- A key is found behind smaller ones.
  pub lookup-append :
      (acc : Dict A) (k : Bytes) (v : A) (m : Dict A)
      → IsAscending key_of (acc ++ (k, v) ∷ m)
      → lookup k (acc ++ (k, v) ∷ m) ≡ some v
  unfolding lookup
  lookup-append [] k v m h = rw (equal_self k)
  lookup-append ((j, w) ∷ acc) k v m h =
      rw (less→ne j k (IsAscending-lt key_of (j, w) acc (k, v) m h)) (lookup-append acc k v m h.1)

  -- A key below every key of the map is missing.
  pub lookup-Above :
      (k : Bytes) (m : Dict A) → Above key_of k m → IsAscending key_of m → lookup k m ≡ none
  unfolding lookup
  lookup-Above k [] a h = refl
  lookup-Above k ((j, v) ∷ []) a h = rw (different k j a) refl
  lookup-Above k ((j, v) ∷ (i, w) ∷ m) a h =
      rw (different k j a) (lookup-Above k ((i, w) ∷ m) (less_trans k j i a h.0) h.1)

  Above-below : (j k : Bytes) (m : Dict A) → less j k ≡ true → Above key_of k m → Above key_of j m
  Above-below j k [] l h = tt
  Above-below j k ((i, w) ∷ m) l h = less_trans j k i l h

  Above-delete :
      (j k : Bytes) (m : Dict A)
      → Above key_of j m
      → IsAscending key_of m
      → Above key_of j (delete k m)
  unfolding delete
  Above-delete j k [] a h = tt
  Above-delete j k ((i, w) ∷ m) a h = elim (Bool-cases (equal i k)) [
    | inl same ↦ rw same (Above-below j i m a h.0)
    | inr other ↦ rw other a
  ]

  pub delete-IsAscending :
      (k : Bytes) (m : Dict A) → IsAscending key_of m → IsAscending key_of (delete k m)
  unfolding delete
  delete-IsAscending k [] h = tt
  delete-IsAscending k ((i, w) ∷ m) h = elim (Bool-cases (equal i k)) [
    | inl same ↦ rw same h.1
    | inr other ↦ rw other (Above-delete i k m h.0 h.1, delete-IsAscending k m h.1)
  ]

  -- After `delete(m, k)` only `k` is missing.
  pub lookup-delete :
      (k j : Bytes) (m : Dict A)
      → IsAscending key_of m
      → lookup j (delete k m) ≡ (if equal k j then none else lookup j m)
  unfolding lookup delete
  lookup-delete k j [] h = ground arith
  lookup-delete k j ((i, w) ∷ m) h = elim (Bool-cases (equal i k)) [
    | inl same ↦
        rw same
          (ground (arith, equal_iff k j, equal_iff i k, equal_iff i j, lookup-Above i m h.0 h.1))
    | inr other ↦
        rw other
          (ground (arith, equal_iff k j, equal_iff i k, equal_iff i j, lookup-delete k j m h.1))
  ]
