-- ===== src/Regex/Language.antt =====
-- The language of a pattern, for the matcher.
use cf_vpn.Prelude.{
  ℕ, zero, suc, ◌+◌, ◌≤◌, Bool, true, false, ◌&&◌, ◌||◌, [], ◌∷◌, ◌++◌, ◌≡◌, refl, ap, subst, sym,
  ◌∙◌, ◌⊎◌, inl, inr, arith, length, all, append_assoc, append-nil,
}
use cf_vpn.Text.{Bytes, is_empty}
use cf_vpn.Regex.{
  Bound, up_to, unbounded, Regex, one, repeat, optional, seq, run_repeat, run_one, run, matches,
}

-- `n` is at least `lo`, and not above it by more than the bound.
abbrev pub Fits : ℕ → Bound → ℕ → Type 0
Fits lo (up_to m) n = (lo ≤ n) × (n ≤ lo + m)
Fits lo unbounded n = (lo ≤ n) × Unit {0}

abbrev pub Lang : Regex → Bytes → Type 0
Lang (one p) s = (c : ℕ) × (p c ≡ true) × (s ≡ c ∷ [])
Lang (repeat p lo more) s = (all p s ≡ true) × Fits lo more (length s)
Lang (optional r) s = (s ≡ []) ⊎ Lang r s
Lang (seq r t) s = (a : Bytes) × (b : Bytes) × (s ≡ a ++ b) × Lang r a × Lang t b

-- A front part of `s` is in `P`, and the rest satisfies `k`.
abbrev Front : (Bytes → Type 0) → Bytes → (Bytes → Bool) → Type 0
Front P s k = (a : Bytes) × (b : Bytes) × (s ≡ a ++ b) × P a × (k b ≡ true)

abbrev Repeats : (ℕ → Bool) → ℕ → Bound → Bytes → Type 0
Repeats p lo more a = (all p a ≡ true) × Fits lo more (length a)

||_cases : (a b : Bool) → (a || b) ≡ true → (a ≡ true) ⊎ (b ≡ true)
||_cases true b h = inl refl
||_cases false b h = inr h

&&_cases : (a b : Bool) → (a && b) ≡ true → (a ≡ true) × (b ≡ true)
&&_cases a b h = ground arith

module _ (p : ℕ → Bool) (k : Bytes → Bool) where
  Front-stop : (more : Bound) (s : Bytes) → k s ≡ true → Front (Repeats p zero more) s k
  Front-stop (up_to m) s h = ([], s, refl, (refl, (omega arith, omega arith)), h)
  Front-stop unbounded s h = ([], s, refl, (refl, (omega arith, tt)), h)

  Front-more :
      (lo m : ℕ) (c : ℕ) (s : Bytes)
      → p c ≡ true
      → Front (Repeats p lo (up_to m)) s k
      → Front (Repeats p (suc lo) (up_to m)) (c ∷ s) k
  Front-more lo m c s h (a, b, e, (al, (l, u)), kb) =
      (c ∷ a, b, ap (◌∷◌ c) e, (rw h al, (omega arith, omega arith)), kb)

  Front-wider :
      (m : ℕ) (s : Bytes)
      → Front (Repeats p 1 (up_to m)) s k
      → Front (Repeats p zero (up_to (suc m))) s k
  Front-wider m s (a, b, e, (al, (l, u)), kb) = (a, b, e, (al, (omega arith, omega arith)), kb)

  Front-any :
      (lo : ℕ) (c : ℕ) (s : Bytes)
      → p c ≡ true
      → Front (Repeats p lo unbounded) s k
      → Front (Repeats p (suc lo) unbounded) (c ∷ s) k
  Front-any lo c s h (a, b, e, (al, (l, u)), kb) =
      (c ∷ a, b, ap (◌∷◌ c) e, (rw h al, (omega arith, tt)), kb)

  Front-any_wider :
      (s : Bytes) → Front (Repeats p 1 unbounded) s k → Front (Repeats p zero unbounded) s k
  Front-any_wider s (a, b, e, (al, (l, u)), kb) = (a, b, e, (al, (omega arith, tt)), kb)

  run_repeat_sound :
      (lo : ℕ) (more : Bound) (s : Bytes)
      → run_repeat p lo more s k ≡ true
      → Front (Repeats p lo more) s k
  unfolding run_repeat
  run_repeat_sound zero (up_to m) [] h = Front-stop (up_to m) [] h
  run_repeat_sound zero unbounded [] h = Front-stop unbounded [] h
  run_repeat_sound zero (up_to zero) (c ∷ s) h = Front-stop (up_to zero) (c ∷ s) h
  run_repeat_sound zero (up_to (suc m)) (c ∷ s) h = elim (||_cases (k (c ∷ s)) _ h) [
    | inl stop ↦ Front-stop (up_to (suc m)) (c ∷ s) stop
    | inr go ↦
        let (pc, rest) = &&_cases (p c) (run_repeat p zero (up_to m) s k) go in
        Front-wider m (c ∷ s) (Front-more zero m c s pc (run_repeat_sound zero (up_to m) s rest))
  ]
  run_repeat_sound zero unbounded (c ∷ s) h = elim (||_cases (k (c ∷ s)) _ h) [
    | inl stop ↦ Front-stop unbounded (c ∷ s) stop
    | inr go ↦
        let (pc, rest) = &&_cases (p c) (run_repeat p zero unbounded s k) go in
        Front-any_wider (c ∷ s) (Front-any zero c s pc (run_repeat_sound zero unbounded s rest))
  ]
  run_repeat_sound (suc lo) more [] h = cc
  run_repeat_sound (suc lo) (up_to m) (c ∷ s) h =
      let (pc, rest) = &&_cases (p c) (run_repeat p lo (up_to m) s k) h in
      Front-more lo m c s pc (run_repeat_sound lo (up_to m) s rest)
  run_repeat_sound (suc lo) unbounded (c ∷ s) h =
      let (pc, rest) = &&_cases (p c) (run_repeat p lo unbounded s k) h in
      Front-any lo c s pc (run_repeat_sound lo unbounded s rest)

run_sound : (r : Regex) (s : Bytes) (k : Bytes → Bool) → run r s k ≡ true → Front (Lang r) s k
unfolding run run_one
run_sound (one p) [] k h = cc
run_sound (one p) (c ∷ s) k h =
    let (pc, ks) = &&_cases (p c) (k s) h in (c ∷ [], s, refl, (c, pc, refl), ks)
run_sound (repeat p lo more) s k h = run_repeat_sound p k lo more s h
run_sound (optional r) s k h = elim (||_cases (k s) (run r s k) h) [
  | inl stop ↦ ([], s, refl, inl refl, stop)
  | inr go ↦ let (a, b, e, l, kb) = run_sound r s k go in (a, b, e, inr l, kb)
]
run_sound (seq r t) s k h =
    let (a, b, e, l, kb) = run_sound r s (λ u. run t u k) h in
    let (a', b', e', l', kb') = run_sound t b k kb in
    (a ++ a', b', e ∙ ap (◌++◌ a) e' ∙ sym (append_assoc a a' b'), (a, a', refl, l, l'), kb')

is_empty→nil : (s : Bytes) → is_empty s ≡ true → s ≡ []
is_empty→nil [] h = refl
is_empty→nil (c ∷ s) h = cc

-- Whatever the matcher accepts is in the language of the pattern.
pub matches→Lang : (r : Regex) (s : Bytes) → matches r s ≡ true → Lang r s
unfolding matches
matches→Lang r s h =
    let (a, b, e, l, kb) = run_sound r s is_empty h in
    subst (Lang r) (sym (e ∙ ap (◌++◌ a) (is_empty→nil b kb) ∙ append-nil a)) l

||_right : (a b : Bool) → b ≡ true → (a || b) ≡ true
||_right a b h = ground arith

&&_both : (a b : Bool) → a ≡ true → b ≡ true → (a && b) ≡ true
&&_both a b h k = ground arith

module _ (p : ℕ → Bool) (k : Bytes → Bool) where
  run_repeat_stop : (more : Bound) (s : Bytes) → k s ≡ true → run_repeat p zero more s k ≡ true
  unfolding run_repeat
  run_repeat_stop more [] h = h
  run_repeat_stop (up_to zero) (c ∷ s) h = h
  run_repeat_stop (up_to (suc m)) (c ∷ s) h = ground arith
  run_repeat_stop unbounded (c ∷ s) h = ground arith

  run_repeat_complete :
      (lo : ℕ) (more : Bound) (a b : Bytes)
      → Repeats p lo more a
      → k b ≡ true
      → run_repeat p lo more (a ++ b) k ≡ true
  unfolding run_repeat
  run_repeat_complete zero more [] b h kb = run_repeat_stop more b kb
  run_repeat_complete zero (up_to zero) (c ∷ a) b (al, (l, u)) kb = absurd (omega arith)
  run_repeat_complete zero (up_to (suc m)) (c ∷ a) b (al, (l, u)) kb =
      let (pc, rest) = &&_cases (p c) (all p a) al in
      ||_right (k (c ∷ a ++ b)) _ (
        &&_both (p c) _ pc
          (run_repeat_complete zero (up_to m) a b (rest, (omega arith, omega arith)) kb))
  run_repeat_complete zero unbounded (c ∷ a) b (al, (l, u)) kb =
      let (pc, rest) = &&_cases (p c) (all p a) al in
      ||_right (k (c ∷ a ++ b)) _
        (&&_both (p c) _ pc (run_repeat_complete zero unbounded a b (rest, (omega arith, tt)) kb))
  run_repeat_complete (suc lo) (up_to m) [] b (al, (l, u)) kb = absurd (omega arith)
  run_repeat_complete (suc lo) unbounded [] b (al, (l, u)) kb = absurd (omega arith)
  run_repeat_complete (suc lo) (up_to m) (c ∷ a) b (al, (l, u)) kb =
      let (pc, rest) = &&_cases (p c) (all p a) al in
      &&_both (p c) _ pc
        (run_repeat_complete lo (up_to m) a b (rest, (omega arith, omega arith)) kb)
  run_repeat_complete (suc lo) unbounded (c ∷ a) b (al, (l, u)) kb =
      let (pc, rest) = &&_cases (p c) (all p a) al in
      &&_both (p c) _ pc (run_repeat_complete lo unbounded a b (rest, (omega arith, tt)) kb)

run_complete :
    (r : Regex) (a b : Bytes) (k : Bytes → Bool) → Lang r a → k b ≡ true → run r (a ++ b) k ≡ true
unfolding run run_one
run_complete (one p) a b k (c, pc, e) kb = rw e (&&_both (p c) (k b) pc kb)
run_complete (repeat p lo more) a b k h kb = run_repeat_complete p k lo more a b h kb
run_complete (optional r) a b k (inl e) kb = rw e (ground arith)
run_complete (optional r) a b k (inr l) kb = ||_right (k (a ++ b)) _ (run_complete r a b k l kb)
run_complete (seq r t) a b k (x, y, e, lx, ly) kb = rw e (
    rw (append_assoc x y b)
      (run_complete r x (y ++ b) (λ u. run t u k) lx (run_complete t y b k ly kb)))

-- Every text in the language of the pattern is accepted.
pub Lang→matches : (r : Regex) (s : Bytes) → Lang r s → matches r s ≡ true
unfolding matches
Lang→matches r s l =
    subst (λ u. run r u is_empty ≡ true) (append-nil s) (run_complete r s [] is_empty l refl)
