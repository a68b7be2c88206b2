-- ===== src/Dict/Equality.antt =====
-- Equality of maps, and maps built from entries.
use cf_vpn.Prelude.{
  Bool, true, false, List, [], ◌∷◌, Option, none, some, ◌≡◌, refl, subst, sym, ◌∙◌, inl, inr, arith,
  if◌then◌else◌, Bool-cases, any, All, ◌||◌,
}
use cf_vpn.Text.{Bytes, equal, equal_iff, equal_self}
use cf_vpn.Text.Order.{less, less_total, IsAscending}
use cf_vpn.Dict.{Dict, key_of, lookup, put, delete, put_all, delete_all}
use cf_vpn.Dict.Laws.{lookup-put, put-IsAscending, lookup-Above, lookup-delete, delete-IsAscending}
use mathlib.Core.Option.{some-injective}

module _ {A : Type 0} where
  abbrev pub or_else : Option A → Option A → Option A
  or_else none d = d
  or_else (some w) d = some w

  lookup_hit : (k : Bytes) (v : A) (m : Dict A) → lookup k ((k, v) ∷ m) ≡ some v
  unfolding lookup
  lookup_hit k v m = rw (equal_self k) refl

  lookup_miss :
      (k j : Bytes) (v : A) (m : Dict A) → equal j k ≡ false → lookup k ((j, v) ∷ m) ≡ lookup k m
  unfolding lookup
  lookup_miss k j v m h = rw h refl

  lookup_empty : (k : Bytes) → lookup {A = A} k [] ≡ none
  unfolding lookup
  lookup_empty k = refl

  -- Under one head, the tails answer alike.
  tails :
      (j k : Bytes) (v w : A) (m n : Dict A)
      → j ≡ k
      → ((i : Bytes) → lookup i ((j, v) ∷ m) ≡ lookup i ((k, w) ∷ n))
      → IsAscending key_of ((j, v) ∷ m)
      → IsAscending key_of ((k, w) ∷ n)
      → (i : Bytes) → lookup i m ≡ lookup i n
  tails j k v w m n e h hm hn i = elim (Bool-cases (equal j i)) [
    | inl same ↦
        let q = (equal_iff j i).0 same in
        cc (q, e, lookup-Above j m hm.0 hm.1, lookup-Above k n hn.0 hn.1)
    | inr other ↦ cc (
      h i,
      lookup_miss i j v m other,
      lookup_miss i k w n (subst (λ u. equal u i ≡ false) e other),
    )
  ]

  -- Two maps that answer alike are equal.
  pub Dict-ext :
      (m n : Dict A)
      → IsAscending key_of m
      → IsAscending key_of n
      → ((k : Bytes) → lookup k m ≡ lookup k n)
      → m ≡ n
  Dict-ext [] [] hm hn h = refl
  Dict-ext [] ((k, w) ∷ n) hm hn h = absurd (cc (h k, lookup_hit k w n, lookup_empty k))
  Dict-ext ((j, v) ∷ m) [] hm hn h = absurd (cc (h j, lookup_hit j v m, lookup_empty j))
  Dict-ext ((j, v) ∷ m) ((k, w) ∷ n) hm hn h = elim (Bool-cases (less j k)) [
    | inl lt ↦ absurd (cc (h j, lookup_hit j v m, lookup-Above j ((k, w) ∷ n) lt hn))
    | inr ge ↦ elim (Bool-cases (less k j)) [
      | inl gt ↦ absurd (cc (h k, lookup_hit k w n, lookup-Above k ((j, v) ∷ m) gt hm))
      | inr le ↦
          (let e = less_total j k ge le in
            let first : v ≡ w =
              some-injective _ _ (cc (h k, e, lookup_hit j v m, lookup_hit k w n)) in
            cc (e, first, Dict-ext m n hm.1 hn.1 (tails j k v w m n e h hm hn)))
    ]
  ]

  -- The value of the last entry with a key.
  unfoldable pub last : Bytes → List (Bytes × A) → Option A
  last j [] = none
  last j ((k, v) ∷ l) = or_else (last j l) (if equal k j then some v else none)

  pub lookup-put_all :
      (j : Bytes) (m : Dict A) (l : List (Bytes × A))
      → IsAscending key_of m
      → lookup j (put_all m l) ≡ or_else (last j l) (lookup j m)
  unfolding put_all last
  lookup-put_all j m [] h = refl
  lookup-put_all j m ((k, v) ∷ l) h =
      lookup-put_all j (put k v m) l (put-IsAscending k v m h) ∙ step (last j l)
    where
      step :
          (o : Option A)
          → or_else o (lookup j (put k v m))
            ≡ or_else (or_else o (if equal k j then some v else none)) (lookup j m)
      step none = elim (Bool-cases (equal k j)) [
        | inl same ↦ rw (lookup-put k j v m h, same) refl
        | inr other ↦ rw (lookup-put k j v m h, other) refl
      ]
      step (some w) = refl

  pub put_all-IsAscending :
      (m : Dict A) (l : List (Bytes × A)) → IsAscending key_of m → IsAscending key_of (put_all m l)
  unfolding put_all
  put_all-IsAscending m [] h = h
  put_all-IsAscending m ((k, v) ∷ l) h = put_all-IsAscending (put k v m) l (put-IsAscending k v m h)

  -- A map is built again from entries that name each of its keys with its value.
  pub put_all-eq :
      (l : List (Bytes × A)) (m : Dict A)
      → IsAscending key_of m
      → ((j : Bytes) → last j l ≡ lookup j m)
      → put_all [] l ≡ m
  put_all-eq l m up h =
      Dict-ext (put_all [] l) m (put_all-IsAscending [] l tt) up
        (λ j. lookup-put_all j [] l tt ∙ step j (last j l) (h j))
    where
      step : (j : Bytes) (o : Option A) → o ≡ lookup j m → or_else o (lookup j []) ≡ lookup j m
      step j none e = cc (e, lookup_empty j)
      step j (some w) e = e

  pub lookup-delete_all :
      (j : Bytes) (ks : List Bytes) (m : Dict A)
      → IsAscending key_of m
      → lookup j (delete_all m ks) ≡ (if any (λ k. equal k j) ks then none else lookup j m)
  lookup-delete_all j [] m h = refl
  lookup-delete_all j (k ∷ ks) m h =
      lookup-delete_all j ks (delete k m) (delete-IsAscending k m h)
      ∙ rw (lookup-delete k j m h) (step (equal k j) (any (λ k. equal k j) ks))
    where
      step :
          (a b : Bool)
          → (if b then none else if a then none else lookup j m)
            ≡ (if a || b then none else lookup j m)
      step true true = refl
      step true false = refl
      step false b = refl

  pub delete_all-IsAscending :
      (ks : List Bytes) (m : Dict A) → IsAscending key_of m → IsAscending key_of (delete_all m ks)
  delete_all-IsAscending [] m h = h
  delete_all-IsAscending (k ∷ ks) m h =
      delete_all-IsAscending ks (delete k m) (delete-IsAscending k m h)

  any-absent :
      (j : Bytes) (ks : List Bytes) (x : Dict A)
      → All (λ k. lookup k x ≡ none) ks
      → any (λ k. equal k j) ks ≡ true
      → lookup j x ≡ none
  any-absent j [] x h e = absurd (cc e)
  any-absent j (k ∷ ks) x h e = elim (Bool-cases (equal k j)) [
    | inl same ↦ subst (λ u. lookup u x ≡ none) ((equal_iff k j).0 same) h.0
    | inr other ↦ any-absent j ks x h.1 (ground arith)
  ]

  -- Deleting the keys that were put leaves the map as it was.
  pub delete_all-put_all :
      (ks : List Bytes) (l : List (Bytes × A)) (x : Dict A)
      → IsAscending key_of x
      → All (λ k. lookup k x ≡ none) ks
      → ((j : Bytes) → any (λ k. equal k j) ks ≡ false → last j l ≡ none)
      → delete_all (put_all x l) ks ≡ x
  delete_all-put_all ks l x up absent only =
      Dict-ext (delete_all (put_all x l) ks) x
        (delete_all-IsAscending ks (put_all x l) (put_all-IsAscending x l up)) up
        (λ j.
          lookup-delete_all j ks (put_all x l) (put_all-IsAscending x l up)
          ∙ elim (Bool-cases (any (λ k. equal k j) ks)) [
            | inl hit ↦ rw hit (sym (any-absent j ks x absent hit))
            | inr miss ↦ rw miss (rw (lookup-put_all j x l up, only j miss) refl)
          ])
