-- ===== src/Text/Decimal.antt =====
-- `strconv.Atoi`, and `strconv.Itoa` of a number that is not negative. Fuel `n + 1` is enough for `n`: each round
-- divides by ten.
use cf_vpn.Prelude.{
  ℕ, zero, suc, ◌+◌, ◌-◌, ◌*◌, ◌/◌, ◌%◌, Option, none, some, [], ◌∷◌, ltb, ◌==◌, if◌then◌else◌,
}
use cf_vpn.Text.{Bytes, within}

-- The digits of `n` in front of those written so far.
unfoldable pub digits : ℕ → ℕ → Bytes → Bytes
digits zero n acc = acc
digits (suc fuel) n acc =
    let rest = digits fuel (n / 10) ((b'0' + n % 10) ∷ acc) in
    if ltb n 10 then (b'0' + n) ∷ acc else rest

unfoldable pub itoa : ℕ → Bytes
unfolding digits
itoa n = digits (n + 1) n []

pub data ℤ : Type 0 where
  pos : ℕ → ℤ
  negsuc : ℕ → ℤ

-- The value of a text of digits, behind those read so far.
unfoldable pub digits_value : ℕ → Bytes → Option ℕ
digits_value acc [] = some acc
digits_value acc (c ∷ s) =
    let rest = digits_value (acc * 10 + (c - b'0')) s in if within b'0' b'9' c then rest else none

abbrev pub unsigned : Bytes → Option ℕ
unsigned [] = none
unsigned (c ∷ s) = digits_value 0 (c ∷ s)

abbrev pub in_range : Option ℕ → Option ℤ
in_range none = none
in_range (some n) = if ltb n 9223372036854775808 then some (pos n) else none

abbrev pub negated : Option ℕ → Option ℤ
negated none = none
negated (some zero) = some (pos 0)
negated (some (suc n)) = if ltb n 9223372036854775808 then some (negsuc n) else none

-- `strconv.Atoi`, with the range of a 64-bit int.
unfoldable pub atoi : Bytes → Option ℤ
unfolding digits_value
atoi [] = none
atoi (c ∷ s) =
    if c == b'-'
    then negated (unsigned s)
    else in_range (if c == b'+' then unsigned s else unsigned (c ∷ s))
