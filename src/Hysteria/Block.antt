-- ===== src/Hysteria/Block.antt =====
-- internal/hysteria/hysteria.go: where `userpassRange` finds the block.
use mathlib.Core.Option.{some-injective}
use cf_vpn.Prelude.{
  ℕ, ◌+◌, Bool, true, false, not, ◌&&◌, ◌||◌, List, [], ◌∷◌, ◌++◌, some, ◌≡◌, refl, ap, sym, subst,
  ◌∙◌, inl, inr, arith, leb, ◌==◌, All, Bool-cases, length,
}
use cf_vpn.Text.{Bytes, codes, equal, is_empty}
use cf_vpn.Text.Trim.{trim_space}
use cf_vpn.Hysteria.{has_colon, indent_width, block_length, range_from}

-- A line that belongs to the block.
abbrev pub is_inner : Bytes → Bool
is_inner line = is_empty (trim_space line) || not (leb (indent_width line) 2)

-- The lines behind the block begin with none of its own.
abbrev pub Stops : List Bytes → Type 0
Stops [] = Unit {0}
Stops (line ∷ lines) = is_inner line ≡ false

-- The block, and what stands behind it.
pub record Split (lines : List Bytes) : Type 0 where
  pub block : List Bytes
  pub rest : List Bytes
  pub whole : lines ≡ block ++ rest
  pub size : block_length lines ≡ length block
  pub stops : Stops rest

block_length-inner :
    (line : Bytes) (lines : List Bytes)
    → is_inner line ≡ true
    → block_length (line ∷ lines) ≡ block_length lines + 1
unfolding block_length
block_length-inner line lines h = ground arith

block_length-outer :
    (line : Bytes) (lines : List Bytes) → is_inner line ≡ false → block_length (line ∷ lines) ≡ 0
unfolding block_length
block_length-outer line lines h = ground arith

Split-block : (lines : List Bytes) → Split lines
Split-block [] = record {
  block = [];
  rest = [];
  whole = refl;
  size = unfold block_length in refl;
  stops = tt;
}
Split-block (line ∷ lines) = elim (Bool-cases (is_inner line)) [
  | inl inner ↦
      let s = Split-block lines in
      record {
        block = line ∷ s.block;
        rest = s.rest;
        whole = ap (◌∷◌ line) s.whole;
        size = block_length-inner line lines inner ∙ omega (arith, s.size);
        stops = s.stops;
      }
  | inr outer ↦ record {
    block = [];
    rest = line ∷ lines;
    whole = refl;
    size = block_length-outer line lines outer;
    stops = outer;
  }
]

block_length-append :
    (block rest : List Bytes)
    → All (λ l. is_inner l ≡ true) block
    → Stops rest
    → block_length (block ++ rest) ≡ length block
block_length-append [] [] h s = unfold block_length in refl
block_length-append [] (line ∷ rest) h s = block_length-outer line rest s
block_length-append (line ∷ block) rest h s =
    block_length-inner line (block ++ rest) h.0
    ∙ omega (arith, block_length-append block rest h.1 s)

-- Where the block stands, and that any other block of inner lines is found in its place.
pub record Found (i : ℕ) (in_auth : Bool) (lines : List Bytes) (start end : ℕ) : Type 0 where
  pub before : List Bytes
  pub block : List Bytes
  pub rest : List Bytes
  pub whole : lines ≡ before ++ (block ++ rest)
  pub starts : start ≡ i + length before
  pub ends : end ≡ start + length block
  pub again :
      (other : List Bytes)
      → All (λ l. is_inner l ≡ true) other
      → range_from i in_auth (before ++ (other ++ rest)) ≡ some (start, start + length other)

abbrev is_key : Bytes → Bool
is_key line = indent_width line == 0 && has_colon (trim_space line)

abbrev is_userpass : Bool → Bytes → Bool
is_userpass in_auth line =
    in_auth && indent_width line == 2 && equal (trim_space line) (codes "userpass:")

module _ (i : ℕ) (in_auth : Bool) (line : Bytes) (lines : List Bytes) where
  range_key :
      is_key line ≡ true
      → range_from i in_auth (line ∷ lines)
        ≡ range_from (i + 1) (equal (trim_space line) (codes "auth:")) lines
  unfolding range_from
  range_key h = rw h

  range_hit :
      is_key line ≡ false
      → is_userpass in_auth line ≡ true
      → range_from i in_auth (line ∷ lines) ≡ some (i + 1, i + 1 + block_length lines)
  unfolding range_from
  range_hit h k = rw (h, k)

  range_other :
      is_key line ≡ false
      → is_userpass in_auth line ≡ false
      → range_from i in_auth (line ∷ lines) ≡ range_from (i + 1) in_auth lines
  unfolding range_from
  range_other h k = rw (h, k)

-- One more line in front.
Found-cons :
    (i : ℕ) (a b : Bool) (line : Bytes) (lines : List Bytes) (start end : ℕ)
    → ((ls : List Bytes) → range_from i a (line ∷ ls) ≡ range_from (i + 1) b ls)
    → Found (i + 1) b lines start end
    → Found i a (line ∷ lines) start end
Found-cons i a b line lines start end step f = record {
  before = line ∷ f.before;
  block = f.block;
  rest = f.rest;
  whole = ap (◌∷◌ line) f.whole;
  starts = omega (arith, f.starts);
  ends = f.ends;
  again = λ other inner. step (f.before ++ (other ++ f.rest)) ∙ f.again other inner;
}

Found-hit :
    (i : ℕ) (in_auth : Bool) (line : Bytes) (lines : List Bytes)
    → is_key line ≡ false
    → is_userpass in_auth line ≡ true
    → Found i in_auth (line ∷ lines) (i + 1) (i + 1 + block_length lines)
Found-hit i in_auth line lines h k =
    let s = Split-block lines in
    record {
      before = line ∷ [];
      block = s.block;
      rest = s.rest;
      whole = ap (◌∷◌ line) s.whole;
      starts = omega arith;
      ends = omega (arith, s.size);
      again = λ other inner.
          range_hit i in_auth line (other ++ s.rest) h k
          ∙ ap (λ (n : ℕ). some (i + 1, i + 1 + n))
              (block_length-append other s.rest inner s.stops);
    }

no_block : (i : ℕ) (in_auth : Bool) (r : ℕ × ℕ) → range_from i in_auth [] ≡ some r → ⊥
unfolding range_from
no_block i in_auth r h = cc

pub find_block :
    (i : ℕ) (in_auth : Bool) (lines : List Bytes) (start end : ℕ)
    → range_from i in_auth lines ≡ some (start, end)
    → Found i in_auth lines start end
find_block i in_auth [] start end h = absurd (no_block i in_auth (start, end) h)
find_block i in_auth (line ∷ lines) start end h = elim (Bool-cases (is_key line)) [
  | inl key ↦
      let auth = equal (trim_space line) (codes "auth:") in
      Found-cons i in_auth auth line lines start end (λ ls. range_key i in_auth line ls key)
        (find_block (i + 1) auth lines start end (sym (range_key i in_auth line lines key) ∙ h))
  | inr other ↦ elim (Bool-cases (is_userpass in_auth line)) [
    | inl hit ↦
        let e = some-injective _ _ (sym (range_hit i in_auth line lines other hit) ∙ h) in
        subst (λ (r : ℕ × ℕ). Found i in_auth (line ∷ lines) r.0 r.1) e
          (Found-hit i in_auth line lines other hit)
    | inr miss ↦
        Found-cons i in_auth in_auth line lines start end
          (λ ls. range_other i in_auth line ls other miss)
          (find_block (i + 1) in_auth lines start end
            (sym (range_other i in_auth line lines other miss) ∙ h))
  ]
]
