-- ===== src/Regex.antt =====
-- The part of Go's regular expressions that the program's anchored patterns (`^...$`) use: byte
-- classes, counted repetition of a class, an optional group and concatenation.
pub mod Language
use cf_vpn.Prelude.{
  ℕ, zero, suc, ◌-◌, Bool, true, false, ◌&&◌, ◌||◌, [], ◌∷◌, ltb, leb, ◌==◌, if◌then◌else◌,
}
use cf_vpn.Text.{Bytes, is_empty, within}

-- How many more repetitions are allowed: `{m,n}` or `{m,}`.
pub data Bound : Type 0 where
  up_to : ℕ → Bound
  unbounded : Bound

pub data Regex : Type 0 where
  one : (ℕ → Bool) → Regex
  repeat : (ℕ → Bool) → ℕ → Bound → Regex
  optional : Regex → Regex
  seq : Regex → Regex → Regex

-- `p{lo,lo+more}` and then `k`, with backtracking.
unfoldable pub run_repeat : (ℕ → Bool) → ℕ → Bound → Bytes → (Bytes → Bool) → Bool
run_repeat p zero more [] k = k []
run_repeat p zero (up_to zero) (c ∷ s) k = k (c ∷ s)
run_repeat p zero (up_to (suc n)) (c ∷ s) k = k (c ∷ s) || (p c && run_repeat p zero (up_to n) s k)
run_repeat p zero unbounded (c ∷ s) k = k (c ∷ s) || (p c && run_repeat p zero unbounded s k)
run_repeat p (suc lo) more [] k = false
run_repeat p (suc lo) more (c ∷ s) k = p c && run_repeat p lo more s k

unfoldable pub run_one : (ℕ → Bool) → Bytes → (Bytes → Bool) → Bool
run_one p [] k = false
run_one p (c ∷ s) k = p c && k s

unfoldable pub run : Regex → Bytes → (Bytes → Bool) → Bool
unfolding run_repeat run_one
run (one p) s k = run_one p s k
run (repeat p lo more) s k = run_repeat p lo more s k
run (optional r) s k = k s || run r s k
run (seq r t) s k = run r s (λ u. run t u k)

-- `MatchString` of `^r$`.
unfoldable pub matches : Regex → Bytes → Bool
unfolding run
matches r s = run r s is_empty

abbrev pub is_digit : ℕ → Bool
is_digit c = within b'0' b'9' c

abbrev pub is_letter : ℕ → Bool
is_letter c = within b'A' b'Z' c || within b'a' b'z' c

abbrev pub is_alnum : ℕ → Bool
is_alnum c = is_letter c || is_digit c

abbrev pub is_hex : ℕ → Bool
is_hex c = is_digit c || within b'a' b'f' c || within b'A' b'F' c
