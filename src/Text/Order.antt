-- ===== src/Text/Order.antt =====
-- The byte order of `sort.Strings`, and insertion by a key into an ascending list.
use cf_vpn.Prelude.{
  Bool, true, false, ◌&&◌, ◌||◌, List, [], ◌∷◌, ◌++◌, ◌≡◌, refl, arith, ltb, ◌==◌, if◌then◌else◌,
  map, subst, inl, inr, Bool-cases, All,
}
use cf_vpn.Text.{Bytes, equal, equal_iff}

-- `a < b` on Go strings.
unfoldable pub less : Bytes → Bytes → Bool
less [] [] = false
less [] (y ∷ ys) = true
less (x ∷ xs) [] = false
less (x ∷ xs) (y ∷ ys) = ltb x y || (x == y && less xs ys)

pub less_irrefl : (a : Bytes) → less a a ≡ false
unfolding less
less_irrefl [] = refl
less_irrefl (x ∷ a) = ground (arith, less_irrefl a)

pub less_asymm : (a b : Bytes) → less a b ≡ true → less b a ≡ false
unfolding less
less_asymm [] [] h = refl
less_asymm [] (y ∷ b) h = refl
less_asymm (x ∷ a) [] h = ground arith
less_asymm (x ∷ a) (y ∷ b) h = ground (arith, less_asymm a b)

pub less_trans : (a b c : Bytes) → less a b ≡ true → less b c ≡ true → less a c ≡ true
unfolding less
less_trans [] [] c h k = k
less_trans [] (y ∷ b) [] h k = k
less_trans [] (y ∷ b) (z ∷ c) h k = refl
less_trans (x ∷ a) [] c h k = ground arith
less_trans (x ∷ a) (y ∷ b) [] h k = k
less_trans (x ∷ a) (y ∷ b) (z ∷ c) h k = ground (arith, less_trans a b c)

-- Neither is below the other only if they are one.
pub less_total : (a b : Bytes) → less a b ≡ false → less b a ≡ false → a ≡ b
unfolding less
less_total [] [] h k = refl
less_total [] (y ∷ b) h k = ground arith
less_total (x ∷ a) [] h k = ground arith
less_total (x ∷ a) (y ∷ b) h k = ground (arith, less_total a b)

module _ {A : Type 0} (key : A → Bytes) where
  -- `x` goes in front of the first element with a greater key.
  pub insert_by : A → List A → List A
  insert_by x [] = x ∷ []
  insert_by x (y ∷ ys) = if less (key x) (key y) then x ∷ y ∷ ys else y ∷ insert_by x ys

  -- The order that `sort.Slice` and `sort.Strings` establish; elements with one key keep theirs.
  unfoldable pub sort_by : List A → List A
  unfolding insert_by
  sort_by [] = []
  sort_by (x ∷ xs) = insert_by x (sort_by xs)

  -- Strictly ascending keys: the canonical form of a Go map, whose keys are distinct.
  abbrev pub Above : Bytes → List A → Type 0
  Above k [] = Unit
  Above k (x ∷ xs) = less k (key x) ≡ true

  abbrev pub IsAscending : List A → Type 0
  IsAscending [] = Unit
  IsAscending (x ∷ xs) = Above (key x) xs × IsAscending xs

module _ {A : Type 0} (key : A → Bytes) where
  pub sort_by-IsAscending : (xs : List A) → IsAscending key xs → sort_by key xs ≡ xs
  unfolding sort_by insert_by
  sort_by-IsAscending [] h = refl
  sort_by-IsAscending (x ∷ []) h = refl
  sort_by-IsAscending (x ∷ y ∷ ys) h = ground (arith, sort_by-IsAscending (y ∷ ys) h.1)

  pub IsAscending-lt :
      (x : A) (pre : List A) (y : A) (m : List A)
      → IsAscending key (x ∷ pre ++ y ∷ m)
      → less (key x) (key y) ≡ true
  IsAscending-lt x [] y m h = h.0
  IsAscending-lt x (z ∷ pre) y m h =
      less_trans (key x) (key z) (key y) h.0 (IsAscending-lt z pre y m h.1)

  pub IsAscending-map : (m : List A) → IsAscending key m → IsAscending (λ k. k) (map key m)
  IsAscending-map [] h = tt
  IsAscending-map (x ∷ []) h = h
  IsAscending-map (x ∷ y ∷ m) h = (h.0, IsAscending-map (y ∷ m) h.1)

pub less→ne : (a b : Bytes) → less a b ≡ true → equal a b ≡ false
less→ne a b h = elim (Bool-cases (equal a b)) [
  | inl same ↦ absurd (cc (less_irrefl b, subst (λ u. less u b ≡ true) ((equal_iff a b).0 same) h))
  | inr other ↦ other
]

-- No two elements share a key.
module _ {A : Type 0} (key : A → Bytes) where
  abbrev pub IsDistinct : List A → Type 0
  IsDistinct [] = Unit {0}
  IsDistinct (x ∷ xs) = All (λ y. equal (key x) (key y) ≡ false) xs × IsDistinct xs

module _ {A : Type 0} (key : A → Bytes) where
  Above-insert_by :
      (k : Bytes) (x : A) (ys : List A)
      → less k (key x) ≡ true
      → Above key k ys
      → Above key k (insert_by key x ys)
  unfolding insert_by
  Above-insert_by k x [] h a = h
  Above-insert_by k x (y ∷ ys) h a = elim (Bool-cases (less (key x) (key y))) [
    | inl lower ↦ rw lower h
    | inr higher ↦ rw higher a
  ]

  insert_by-IsAscending :
      (x : A) (ys : List A)
      → All (λ y. equal (key x) (key y) ≡ false) ys
      → IsAscending key ys
      → IsAscending key (insert_by key x ys)
  unfolding insert_by
  insert_by-IsAscending x [] d h = (tt, tt)
  insert_by-IsAscending x (y ∷ ys) d h = elim (Bool-cases (less (key x) (key y))) [
    | inl lower ↦ rw lower (lower, h)
    | inr higher ↦
        rw higher
          (Above-insert_by (key y) x ys (above d.0 higher) h.0, insert_by-IsAscending x ys d.1 h.1)
  ]
    where
      above :
          equal (key x) (key y) ≡ false → less (key x) (key y) ≡ false → less (key y) (key x) ≡ true
      above ne ge = elim (Bool-cases (less (key y) (key x))) [
        | inl lt ↦ lt
        | inr not_lt ↦
            absurd (cc (ne, (equal_iff (key x) (key y)).1 (less_total (key x) (key y) ge not_lt)))
      ]

  pub All-insert_by :
      (P : A → Type 0) (x : A) (ys : List A) → P x → All P ys → All P (insert_by key x ys)
  unfolding insert_by
  All-insert_by P x [] h hs = (h, tt)
  All-insert_by P x (y ∷ ys) h hs = elim (Bool-cases (less (key x) (key y))) [
    | inl lower ↦ rw lower (h, hs)
    | inr higher ↦ rw higher (hs.0, All-insert_by P x ys h hs.1)
  ]

  pub All-sort_by : (P : A → Type 0) (xs : List A) → All P xs → All P (sort_by key xs)
  unfolding sort_by
  All-sort_by P [] h = tt
  All-sort_by P (x ∷ xs) h = All-insert_by P x (sort_by key xs) h.0 (All-sort_by P xs h.1)

  -- Sorting puts distinct keys into ascending order.
  pub IsAscending-sort_by : (xs : List A) → IsDistinct key xs → IsAscending key (sort_by key xs)
  unfolding sort_by
  IsAscending-sort_by [] h = tt
  IsAscending-sort_by (x ∷ xs) h =
      insert_by-IsAscending x (sort_by key xs)
        (All-sort_by (λ y. equal (key x) (key y) ≡ false) xs h.0) (IsAscending-sort_by xs h.1)
