-- ===== src/Agent/Wire.antt =====
-- A byte form of JSON values, with a reader: a stand-in for encoding/json in the tests of the agent.
use cf_vpn.Prelude.{
  ℕ, zero, suc, ◌+◌, ◌≤◌, true, false, [], ◌∷◌, ◌++◌, length, take, drop, Option, none, some, ◌==◌,
  if◌then◌else◌, ◌≡◌, refl, ap, arith, take-length_append, drop-length_append,
}
use cf_vpn.Text.{Bytes}
use cf_vpn.Json.{
  Json, null, flag, number, text, array, object, Items, no_items, item, Members, no_members, member,
}

unfoldable mutual
  pub enc : Json → Bytes → Bytes
  enc null r = 0 ∷ r
  enc (flag true) r = 1 ∷ r
  enc (flag false) r = 2 ∷ r
  enc (number s) r = 3 ∷ length s ∷ (s ++ r)
  enc (text s) r = 4 ∷ length s ∷ (s ++ r)
  enc (array is) r = 5 ∷ enc_items is r
  enc (object ms) r = 6 ∷ enc_members ms r

  pub enc_items : Items → Bytes → Bytes
  enc_items no_items r = 0 ∷ r
  enc_items (item j is) r = 1 ∷ enc j (enc_items is r)

  pub enc_members : Members → Bytes → Bytes
  enc_members no_members r = 0 ∷ r
  enc_members (member k j ms) r = 1 ∷ length k ∷ (k ++ enc j (enc_members ms r))

abbrev Step : Type 0 → Type 0
Step A = Option (A × Bytes)

module _ {A B : Type 0} where
  abbrev after : Step A → (A → Bytes → Step B) → Step B
  after none next = none
  after (some (a, r)) next = next a r

-- A text behind its length.
abbrev sized : Bytes → Step Bytes
sized [] = none
sized (n ∷ r) = some (take n r, drop n r)

abbrev by_tag : ℕ → Step Json → Step Json → Bytes → Step Json
by_tag t items members r =
    if t == 0
    then some (null, r)
    else if t == 1
    then some (flag true, r)
    else if t == 2
    then some (flag false, r)
    else if t == 3
    then after (sized r) (λ s r. some (number s, r))
    else if t == 4
    then after (sized r) (λ s r. some (text s, r))
    else if t == 5
    then items
    else members

unfoldable mutual
  pub dec : ℕ → Bytes → Step Json
  dec zero b = none
  dec (suc f) [] = none
  dec (suc f) (t ∷ r) =
      by_tag t (after (dec_items f r) (λ is r. some (array is, r)))
        (after (dec_members f r) (λ ms r. some (object ms, r))) r

  pub dec_items : ℕ → Bytes → Step Items
  dec_items zero b = none
  dec_items (suc f) [] = none
  dec_items (suc f) (t ∷ r) =
      let rest = after (dec f r) (λ j r. after (dec_items f r) (λ is r. some (item j is, r))) in
      if t == 0 then some (no_items, r) else rest

  pub dec_members : ℕ → Bytes → Step Members
  dec_members zero b = none
  dec_members (suc f) [] = none
  dec_members (suc f) (t ∷ r) =
      let rest = after (sized r) (λ k r.
        after (dec f r) (λ j r. after (dec_members f r) (λ ms r. some (member k j ms, r)))) in
      if t == 0 then some (no_members, r) else rest

abbrev mutual
  size : Json → ℕ
  size null = 1
  size (flag b) = 1
  size (number s) = 1
  size (text s) = 1
  size (array is) = suc (size_items is)
  size (object ms) = suc (size_members ms)

  size_items : Items → ℕ
  size_items no_items = 1
  size_items (item j is) = suc (size j + size_items is)

  size_members : Members → ℕ
  size_members no_members = 1
  size_members (member k j ms) = suc (size j + size_members ms)

sized-append : (s r : Bytes) → sized (length s ∷ (s ++ r)) ≡ some (s, r)
sized-append s r = rw (take-length_append s r) (rw (drop-length_append s r) refl)

mutual
  unfolding enc enc_items enc_members dec dec_items dec_members

  dec-enc : (f : ℕ) (j : Json) (r : Bytes) → size j ≤ f → dec f (enc j r) ≡ some (j, r)
  dec-enc zero null r h = absurd (omega (arith, h))
  dec-enc zero (flag b) r h = absurd (omega (arith, h))
  dec-enc zero (number s) r h = absurd (omega (arith, h))
  dec-enc zero (text s) r h = absurd (omega (arith, h))
  dec-enc zero (array is) r h = absurd (omega (arith, h))
  dec-enc zero (object ms) r h = absurd (omega (arith, h))
  dec-enc (suc f) null r h = refl
  dec-enc (suc f) (flag true) r h = refl
  dec-enc (suc f) (flag false) r h = refl
  dec-enc (suc f) (number s) r h = ap (λ o. after o (λ s r. some (number s, r))) (sized-append s r)
  dec-enc (suc f) (text s) r h = ap (λ o. after o (λ s r. some (text s, r))) (sized-append s r)
  dec-enc (suc f) (array is) r h =
      ap (λ o. after o (λ is r. some (array is, r))) (dec_items-enc f is r (omega (arith, h)))
  dec-enc (suc f) (object ms) r h =
      ap (λ o. after o (λ ms r. some (object ms, r))) (dec_members-enc f ms r (omega (arith, h)))

  dec_items-enc :
      (f : ℕ) (is : Items) (r : Bytes)
      → size_items is ≤ f
      → dec_items f (enc_items is r) ≡ some (is, r)
  dec_items-enc zero no_items r h = absurd (omega (arith, h))
  dec_items-enc zero (item j is) r h = absurd (omega (arith, h))
  dec_items-enc (suc f) no_items r h = refl
  dec_items-enc (suc f) (item j is) r h =
      rw (dec-enc f j (enc_items is r) (omega (arith, h)))
        (rw (dec_items-enc f is r (omega (arith, h))) refl)

  dec_members-enc :
      (f : ℕ) (ms : Members) (r : Bytes)
      → size_members ms ≤ f
      → dec_members f (enc_members ms r) ≡ some (ms, r)
  dec_members-enc zero no_members r h = absurd (omega (arith, h))
  dec_members-enc zero (member k j ms) r h = absurd (omega (arith, h))
  dec_members-enc (suc f) no_members r h = refl
  dec_members-enc (suc f) (member k j ms) r h =
      let rest = enc j (enc_members ms r) in
      rw (take-length_append k rest) (
        rw (drop-length_append k rest) (
          rw (dec-enc f j (enc_members ms r) (omega (arith, h)))
            (rw (dec_members-enc f ms r (omega (arith, h))) refl)))

-- The fuel stands in front.
pub print : Json → Bytes
print j = size j ∷ enc j []

abbrev value : Step Json → Option Json
value none = none
value (some (j, r)) = some j

pub parse : Bytes → Option Json
parse [] = none
parse (f ∷ b) = value (dec f b)

pub parse-print : (j : Json) → parse (print j) ≡ some j
unfolding parse print
parse-print j = ap value (dec-enc (size j) j [] (omega arith))
