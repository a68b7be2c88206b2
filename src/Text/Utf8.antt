-- ===== src/Text/Utf8.antt =====
-- Go strings as UTF-8: the sequences that `range` over a string finds, and the text that
-- encoding/json writes for a string.
use cf_vpn.Prelude.{
  ℕ, zero, suc, ◌-◌, Bool, true, false, not, ◌&&◌, [], ◌∷◌, ◌≡◌, refl, ap, sym, subst, ◌∙◌, inl,
  inr, ltb, leb, ◌==◌, if◌then◌else◌, Bool-cases, &&_parts, not-true,
}
use mathlib.Core.Path.{ap₂}
use cf_vpn.Text.{Bytes, within, equal, equal_iff}

-- The length of the valid UTF-8 sequence in front, and 0 where there is none: the byte is then read
-- as U+FFFD.
abbrev is_cont : ℕ → Bool
is_cont c = within 0x80 0xbf c

abbrev second_of_three : ℕ → ℕ → Bool
second_of_three a b =
    if a == 0xe0 then within 0xa0 0xbf b else if a == 0xed then within 0x80 0x9f b else is_cont b

abbrev second_of_four : ℕ → ℕ → Bool
second_of_four a b =
    if a == 0xf0 then within 0x90 0xbf b else if a == 0xf4 then within 0x80 0x8f b else is_cont b

unfoldable pub rune_width : Bytes → ℕ
rune_width (a ∷ b ∷ c ∷ d ∷ s) =
    if ltb a 0x80
    then 1
    else if within 0xc2 0xdf a && is_cont b
    then 2
    else if within 0xe0 0xef a && second_of_three a b && is_cont c
    then 3
    else if within 0xf0 0xf4 a && second_of_four a b && is_cont c && is_cont d
    then 4
    else 0
rune_width (a ∷ b ∷ c ∷ []) =
    if ltb a 0x80
    then 1
    else if within 0xc2 0xdf a && is_cont b
    then 2
    else if within 0xe0 0xef a && second_of_three a b && is_cont c
    then 3
    else 0
rune_width (a ∷ b ∷ []) = if ltb a 0x80 then 1 else if within 0xc2 0xdf a && is_cont b then 2 else 0
rune_width (a ∷ []) = if ltb a 0x80 then 1 else 0
rune_width [] = 0

-- Valid UTF-8, with `skip` bytes of the current rune to come.
unfoldable pub utf8_from : ℕ → Bytes → Bool
utf8_from zero [] = true
utf8_from (suc skip) [] = false
utf8_from (suc skip) (c ∷ s) = leb 0x80 c && utf8_from skip s
utf8_from zero (c ∷ s) =
    let width = rune_width (c ∷ s) in
    let after = utf8_from zero s in
    let inside = utf8_from (width - 1) s in
    if ltb c 0x80 then after else (not (width == 0) && inside)

abbrev pub is_utf8 : Bytes → Bool
is_utf8 = utf8_from 0

-- The loop over the runes: `skip` bytes of the current rune are still to be copied, and a byte that
-- starts no sequence becomes U+FFFD.
unfoldable pub to_utf8_from : ℕ → Bytes → Bytes
unfolding rune_width
to_utf8_from skip [] = []
to_utf8_from (suc skip) (c ∷ s) = c ∷ to_utf8_from skip s
to_utf8_from zero (c ∷ s) =
    let width = rune_width (c ∷ s) in
    let after = to_utf8_from zero s in
    let inside = to_utf8_from (width - 1) s in
    if ltb c 0x80 then c ∷ after else if width == 0 then 0xef ∷ 0xbf ∷ 0xbd ∷ after else c ∷ inside

abbrev pub to_utf8 : Bytes → Bytes
to_utf8 = to_utf8_from 0

-- Valid UTF-8 stays.
pub to_utf8_from-eq : (skip : ℕ) (s : Bytes) → utf8_from skip s ≡ true → to_utf8_from skip s ≡ s
unfolding to_utf8_from utf8_from
to_utf8_from-eq zero [] h = refl
to_utf8_from-eq (suc skip) [] h = refl
to_utf8_from-eq (suc skip) (c ∷ s) h =
    let (hc, hs) = &&_parts (leb 0x80 c) (utf8_from skip s) h in
    ap (◌∷◌ c) (to_utf8_from-eq skip s hs)
to_utf8_from-eq zero (c ∷ s) h = elim (Bool-cases (ltb c 0x80)) [
  | inl low ↦ rw low (ap (◌∷◌ c) (to_utf8_from-eq zero s (rw low at h)))
  | inr high ↦
      let (hw, hs) =
        &&_parts (not (rune_width (c ∷ s) == 0)) (utf8_from (rune_width (c ∷ s) - 1) s)
          (rw high at h) in
      rw (high, not-true (rune_width (c ∷ s) == 0) hw)
        (ap (◌∷◌ c) (to_utf8_from-eq (rune_width (c ∷ s) - 1) s hs))
]

abbrev pub is_ascii : Bytes → Bool
is_ascii [] = true
is_ascii (c ∷ s) = ltb c 0x80 && is_ascii s

pub to_utf8-ascii : (s : Bytes) → is_ascii s ≡ true → to_utf8 s ≡ s
unfolding to_utf8_from
to_utf8-ascii [] h = refl
to_utf8-ascii (c ∷ s) h =
    let (hc, hs) = &&_parts (ltb c 0x80) (is_ascii s) h in rw hc (ap (◌∷◌ c) (to_utf8-ascii s hs))

not_ascii : (c : ℕ) (s k : Bytes) → ltb c 0x80 ≡ false → c ∷ s ≡ k → is_ascii k ≡ false
not_ascii c s k high e = subst (λ u. is_ascii u ≡ false) e (rw high refl)

-- An ASCII text comes from itself only.
to_utf8-reflects : (s k : Bytes) → is_ascii k ≡ true → to_utf8 s ≡ k → s ≡ k
unfolding to_utf8_from
to_utf8-reflects [] k a h = h
to_utf8-reflects (c ∷ s) k a h = elim (Bool-cases (ltb c 0x80)) [
  | inl low ↦ go k (λ l hl e. to_utf8-reflects s l hl e) a (rw low at h)
  | inr high ↦ elim (Bool-cases (rune_width (c ∷ s) == 0)) [
    | inl bad ↦ absurd (cc (a, not_ascii 0xef _ k refl (rw (high, bad) at h)))
    | inr good ↦ absurd (cc (a, not_ascii c _ k high (rw (high, good) at h)))
  ]
]
  where
    go :
        (k : Bytes)
        → ((l : Bytes) → is_ascii l ≡ true → to_utf8 s ≡ l → s ≡ l)
        → is_ascii k ≡ true
        → c ∷ to_utf8 s ≡ k
        → c ∷ s ≡ k
    go [] later a e = absurd (cc e)
    go (d ∷ k) later a e =
        let (hd, hk) = &&_parts (ltb d 0x80) (is_ascii k) a in
        let same : to_utf8 s ≡ k = ap rest_of e in
        let first : c ≡ d = ap first_of e in ap₂ ◌∷◌ first (later k hk same)
      where
        rest_of : Bytes → Bytes
        rest_of [] = []
        rest_of (x ∷ xs) = xs

        first_of : Bytes → ℕ
        first_of [] = 0
        first_of (x ∷ xs) = x

pub equal-to_utf8 : (s k : Bytes) → is_ascii k ≡ true → equal (to_utf8 s) k ≡ equal s k
equal-to_utf8 s k a = elim (Bool-cases (equal s k)) [
  | inl same ↦
      let e = (equal_iff s k).0 same in
      (equal_iff (to_utf8 s) k).1 (ap to_utf8 e ∙ to_utf8-ascii k a) ∙ sym same
  | inr other ↦ elim (Bool-cases (equal (to_utf8 s) k)) [
    | inl hit ↦
        let e = to_utf8-reflects s k a ((equal_iff (to_utf8 s) k).0 hit) in
        absurd (cc (other, (equal_iff s k).1 e))
    | inr miss ↦ miss ∙ sym other
  ]
]
