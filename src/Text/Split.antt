-- ===== src/Text/Split.antt =====
-- `strings.Split` and `strings.Join` by one byte, and what they do to a predicate of every byte.
use mathlib.Core.Option.{some-injective}
use cf_vpn.Prelude.{
  ℕ, Option, none, some, not, not-true, Option-cases, Bool, true, false, List, [], ◌∷◌, ◌++◌, ◌≡◌,
  refl, ap, sym, subst, ◌∙◌, inl, inr, ◌==◌, if◌then◌else◌, all, All, Bool-cases, &&_parts, ==_iff,
}
use cf_vpn.Text.{Bytes}

abbrev push : ℕ → List Bytes → List Bytes
push x [] = (x ∷ []) ∷ []
push x (w ∷ ws) = (x ∷ w) ∷ ws

-- Never empty: `Split("", sep)` is one empty piece.
unfoldable pub split_on : ℕ → Bytes → List Bytes
split_on c [] = [] ∷ []
split_on c (x ∷ s) = let rest = split_on c s in if x == c then [] ∷ rest else push x rest

unfoldable pub join_with : Bytes → List Bytes → Bytes
join_with sep [] = []
join_with sep (w ∷ []) = w
join_with sep (w ∷ v ∷ ws) = w ++ (sep ++ join_with sep (v ∷ ws))

-- The text before and behind the first `c`: `strings.Cut`, and `strings.SplitN(s, c, 2)` where the
-- separator is there.
unfoldable pub cut : ℕ → Bytes → Option (Bytes × Bytes)
cut c [] = none
cut c (x ∷ s) =
    let rest = cut c s in
    if x == c then some ([], s) else elim rest [ none ↦ none | some (a, b) ↦ some (x ∷ a, b) ]

-- No byte of `w` is `c`.
abbrev pub free_of : ℕ → Bytes → Bool
free_of c w = all (λ b. not (b == c)) w

pub cut-append : (c : ℕ) (k v : Bytes) → free_of c k ≡ true → cut c (k ++ (c ∷ v)) ≡ some (k, v)
unfolding cut
cut-append c [] v h = rw ((==_iff c c).1 refl)
cut-append c (x ∷ k) v h =
    let (hx, hk) = &&_parts (not (x == c)) (free_of c k) h in
    rw (not-true (x == c) hx) (rw (cut-append c k v hk))

-- The two parts around the first `c`.
pub cut-eq : (c : ℕ) (s k v : Bytes) → cut c s ≡ some (k, v) → s ≡ k ++ (c ∷ v)
unfolding cut
cut-eq c [] k v h = cc
cut-eq c (x ∷ s) k v h = elim (Bool-cases (x == c)) [
  | inl hit ↦
      subst (λ (t : Bytes × Bytes). x ∷ s ≡ t.0 ++ (c ∷ t.1)) (some-injective _ _ (rw hit at h))
        (ap (λ n. n ∷ s) ((==_iff x c).0 hit))
  | inr miss ↦ elim (Option-cases (cut c s)) [
    | inl none_ ↦ absurd (cc (rw (miss, none_) at h))
    | inr (t, found) ↦
        subst (λ (u : Bytes × Bytes). x ∷ s ≡ u.0 ++ (c ∷ u.1))
          (some-injective _ _ (rw (miss, found) at h)) (ap (◌∷◌ x) (cut-eq c s t.0 t.1 found))
  ]
]

-- The first piece and the others.
pub split_on-cons : (c : ℕ) (s : Bytes) → (w : Bytes) × (ws : List Bytes) × (split_on c s ≡ w ∷ ws)
unfolding split_on
split_on-cons c [] = ([], [], refl)
split_on-cons c (x ∷ s) =
    let (w, ws, e) = split_on-cons c s in
    elim (Bool-cases (x == c)) [
      | inl hit ↦ ([], split_on c s, rw hit)
      | inr miss ↦ (x ∷ w, ws, rw (miss, e))
    ]

abbrev pub head_is : (ℕ → Bool) → Bytes → Bool
head_is p [] = false
head_is p (c ∷ s) = p c

abbrev pub last_is : (ℕ → Bool) → Bytes → Bool
last_is p [] = false
last_is p (x ∷ []) = p x
last_is p (x ∷ y ∷ s) = last_is p (y ∷ s)

module _ (c x : ℕ) (s : Bytes) where
  pub split_on_hit : (x == c) ≡ true → split_on c (x ∷ s) ≡ [] ∷ split_on c s
  unfolding split_on
  split_on_hit hit = rw hit

  pub split_on_miss :
      (w : Bytes) (ws : List Bytes)
      → (x == c) ≡ false
      → split_on c s ≡ w ∷ ws
      → split_on c (x ∷ s) ≡ (x ∷ w) ∷ ws
  unfolding split_on
  split_on_miss w ws miss e = rw (miss, e)

pub join-split_on : (c : ℕ) (s : Bytes) → join_with (c ∷ []) (split_on c s) ≡ s
unfolding join_with
join-split_on c [] = unfold split_on in refl
join-split_on c (x ∷ s) =
    let (w, ws, e) = split_on-cons c s in
    let ih : join_with (c ∷ []) (w ∷ ws) ≡ s =
      subst (λ l. join_with (c ∷ []) l ≡ s) e (join-split_on c s) in
    elim (Bool-cases (x == c)) [
      | inl hit ↦ rw (split_on_hit c x s hit) (rw e (rw ((==_iff x c).0 hit) (ap (◌∷◌ c) ih)))
      | inr miss ↦ rw (split_on_miss c x s w ws miss e) (push_front ws w ih)
    ]
  where
    push_front :
        (ws : List Bytes) (w : Bytes)
        → join_with (c ∷ []) (w ∷ ws) ≡ s
        → join_with (c ∷ []) ((x ∷ w) ∷ ws) ≡ x ∷ s
    push_front [] w ih = ap (◌∷◌ x) ih
    push_front (v ∷ ws) w ih = ap (◌∷◌ x) ih

pub last_is-cons :
    (p : ℕ → Bool) (x : ℕ) (s : Bytes) → last_is p s ≡ true → last_is p (x ∷ s) ≡ true
last_is-cons p x [] h = cc
last_is-cons p x (y ∷ s) h = h

pub last_is-snoc : (p : ℕ → Bool) (m : Bytes) (l : ℕ) → p l ≡ true → last_is p (m ++ l ∷ []) ≡ true
last_is-snoc p [] l h = h
last_is-snoc p (x ∷ m) l h = last_is-cons p x (m ++ l ∷ []) (last_is-snoc p m l h)

-- What ends with a byte of `p` is a front and that byte.
pub last_is-front :
    (p : ℕ → Bool) (s : Bytes)
    → last_is p s ≡ true
    → (q : Bytes) × (c : ℕ) × (s ≡ q ++ c ∷ []) × (p c ≡ true)
last_is-front p [] h = absurd (cc)
last_is-front p (x ∷ []) h = ([], x, refl, h)
last_is-front p (x ∷ y ∷ s) h =
    let (q, c, e, pc) = last_is-front p (y ∷ s) h in (x ∷ q, c, ap (◌∷◌ x) e, pc)

module _ (c : ℕ) (p : ℕ → Bool) where
  -- A predicate of the separator and of every piece is one of the whole.
  pub all-split_on :
      (s : Bytes) → p c ≡ true → All (λ w. all p w ≡ true) (split_on c s) → all p s ≡ true
  all-split_on [] pc h = refl
  all-split_on (x ∷ s) pc h =
      let (w, ws, e) = split_on-cons c s in
      elim (Bool-cases (x == c)) [
        | inl hit ↦
            let h' = subst (All (λ w. all p w ≡ true)) (split_on_hit c x s hit) h in
            rw ((==_iff x c).0 hit) (rw pc (all-split_on s pc h'.1))
        | inr miss ↦
            let h' = subst (All (λ w. all p w ≡ true)) (split_on_miss c x s w ws miss e) h in
            let (px, pw) = &&_parts (p x) (all p w) h'.0 in
            rw px (all-split_on s pc (subst (All (λ w. all p w ≡ true)) (sym e) (pw, h'.1)))
      ]

  pub head_is-split_on :
      (s : Bytes) → All (λ w. head_is p w ≡ true) (split_on c s) → head_is p s ≡ true
  head_is-split_on [] h = unfold split_on in h.0
  head_is-split_on (x ∷ s) h =
      let (w, ws, e) = split_on-cons c s in
      elim (Bool-cases (x == c)) [
        | inl hit ↦
            let h' = subst (All (λ w. head_is p w ≡ true)) (split_on_hit c x s hit) h in cc (h'.0)
        | inr miss ↦
            let h' = subst (All (λ w. head_is p w ≡ true)) (split_on_miss c x s w ws miss e) h in
            h'.0
      ]

  abbrev Tails : Bytes → List Bytes → Type 0
  Tails w [] = last_is p w ≡ true
  Tails w (v ∷ ws) = All (λ u. last_is p u ≡ true) (v ∷ ws)

  Tails-All : (w : Bytes) (ws : List Bytes) → All (λ u. last_is p u ≡ true) (w ∷ ws) → Tails w ws
  Tails-All w [] h = h.0
  Tails-All w (v ∷ ws) h = h.1

  abbrev Ends : List Bytes → Type 0
  Ends [] = Unit {0}
  Ends (w ∷ ws) = Tails w ws

  last_is_miss :
      (x : ℕ) (s w : Bytes) (ws : List Bytes)
      → split_on c s ≡ w ∷ ws
      → (Ends (split_on c s) → last_is p s ≡ true)
      → Tails (x ∷ w) ws
      → last_is p (x ∷ s) ≡ true
  unfolding join_with
  last_is_miss x s w [] e ih h =
      let whole : w ≡ s = subst (λ l. join_with (c ∷ []) l ≡ s) e (join-split_on c s) in
      subst (λ u. last_is p (x ∷ u) ≡ true) whole h
  last_is_miss x s w (v ∷ ws) e ih h = last_is-cons p x s (ih (subst Ends (sym e) h))

  last_is-Ends : (s : Bytes) → Ends (split_on c s) → last_is p s ≡ true
  last_is-Ends [] h = unfold split_on in h
  last_is-Ends (x ∷ s) h =
      let (w, ws, e) = split_on-cons c s in
      elim (Bool-cases (x == c)) [
        | inl hit ↦
            let h' = subst Ends (split_on_hit c x s hit ∙ ap (◌∷◌ []) e) h in
            last_is-cons p x s (last_is-Ends s (subst Ends (sym e) (Tails-All w ws h')))
        | inr miss ↦
            last_is_miss x s w ws e (last_is-Ends s)
              (subst Ends (split_on_miss c x s w ws miss e) h)
      ]

  pub last_is-split_on :
      (s : Bytes) → All (λ w. last_is p w ≡ true) (split_on c s) → last_is p s ≡ true
  last_is-split_on s h =
      let (w, ws, e) = split_on-cons c s in
      last_is-Ends s
        (subst Ends (sym e) (Tails-All w ws (subst (All (λ u. last_is p u ≡ true)) e h)))

-- A piece with no separator, and what follows the separator.
pub split_on-append :
    (c : ℕ) (w s : Bytes) → free_of c w ≡ true → split_on c (w ++ (c ∷ s)) ≡ w ∷ split_on c s
split_on-append c [] s h = split_on_hit c c s ((==_iff c c).1 refl)
split_on-append c (x ∷ w) s h =
    let (hx, hw) = &&_parts (not (x == c)) (free_of c w) h in
    split_on_miss c x (w ++ (c ∷ s)) w (split_on c s) (not-true (x == c) hx)
      (split_on-append c w s hw)

pub split_on-free : (c : ℕ) (w : Bytes) → free_of c w ≡ true → split_on c w ≡ w ∷ []
split_on-free c [] h = unfold split_on in refl
split_on-free c (x ∷ w) h =
    let (hx, hw) = &&_parts (not (x == c)) (free_of c w) h in
    split_on_miss c x w w [] (not-true (x == c) hx) (split_on-free c w hw)

pub join_with-cons :
    (sep w v : Bytes) (ws : List Bytes)
    → join_with sep (w ∷ v ∷ ws) ≡ w ++ (sep ++ join_with sep (v ∷ ws))
unfolding join_with
join_with-cons sep w v ws = refl

pub split_on-join_with :
    (c : ℕ) (w : Bytes) (ws : List Bytes)
    → All (λ v. free_of c v ≡ true) (w ∷ ws)
    → split_on c (join_with (c ∷ []) (w ∷ ws)) ≡ w ∷ ws
split_on-join_with c w [] h = unfold join_with in split_on-free c w h.0
split_on-join_with c w (v ∷ ws) h =
    ap (split_on c) (join_with-cons (c ∷ []) w v ws)
    ∙ split_on-append c w (join_with (c ∷ []) (v ∷ ws)) h.0
    ∙ ap (◌∷◌ w) (split_on-join_with c v ws h.1)
