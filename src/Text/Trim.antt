-- ===== src/Text/Trim.antt =====
-- `strings.TrimSpace`, over the UTF-8 encodings of Unicode's white space.
use cf_vpn.Prelude.{
  ℕ, Bool, true, false, ◌&&◌, ◌||◌, [], ◌∷◌, ◌++◌, ◌≡◌, refl, arith, leb, ◌==◌, if◌then◌else◌,
  reverse, reverse-append, reverse-reverse, append_assoc, not, subst,
}
use mathlib.Core.List.{reverse-cons}
use cf_vpn.Text.{Bytes, within}

abbrev pub is_space : ℕ → Bool
is_space c = c == 0x20 || within 0x09 0x0d c

-- U+0085 and U+00A0
abbrev pub is_space2 : ℕ → ℕ → Bool
is_space2 a b = a == 0xc2 && (b == 0x85 || b == 0xa0)

-- U+1680, U+2000..U+200A, U+2028, U+2029, U+202F, U+205F and U+3000
abbrev pub is_space3 : ℕ → ℕ → ℕ → Bool
is_space3 a b c =
    (a == 0xe1 && b == 0x9a && c == 0x80)
    || (a == 0xe2 && b == 0x80 && (within 0x80 0x8a c || within 0xa8 0xa9 c || c == 0xaf))
    || (a == 0xe2 && b == 0x81 && c == 0x9f)
    || (a == 0xe3 && b == 0x80 && c == 0x80)

-- Does a space of two or three bytes stand in front? For the other end the list is reversed.
abbrev space2 : Bool → ℕ → ℕ → Bool
space2 true a b = is_space2 a b
space2 false a b = is_space2 b a

abbrev space3 : Bool → ℕ → ℕ → ℕ → Bool
space3 true a b c = is_space3 a b c
space3 false a b c = is_space3 c b a

unfoldable pub trim_front : Bool → Bytes → Bytes
trim_front fwd [] = []
trim_front fwd (a ∷ []) = if is_space a then [] else a ∷ []
trim_front fwd (a ∷ b ∷ []) =
    let rest = trim_front fwd (b ∷ []) in
    if is_space a then rest else if space2 fwd a b then [] else a ∷ b ∷ []
trim_front fwd (a ∷ b ∷ c ∷ s) =
    let rest1 = trim_front fwd (b ∷ c ∷ s) in
    let rest2 = trim_front fwd (c ∷ s) in
    let rest3 = trim_front fwd s in
    if is_space a
    then rest1
    else if space2 fwd a b
    then rest2
    else if space3 fwd a b c
    then rest3
    else a ∷ b ∷ c ∷ s

unfoldable pub trim_left : Bytes → Bytes
unfolding trim_front
trim_left = trim_front true

unfoldable pub trim_right : Bytes → Bytes
unfolding trim_front
trim_right s = reverse (trim_front false (reverse s))

unfoldable pub trim_space : Bytes → Bytes
unfolding trim_left trim_right
trim_space s = trim_right (trim_left s)

-- Does a space stand in front?
abbrev pub starts_space : Bool → Bytes → Bool
starts_space fwd [] = false
starts_space fwd (a ∷ []) = is_space a
starts_space fwd (a ∷ b ∷ []) = is_space a || space2 fwd a b
starts_space fwd (a ∷ b ∷ c ∷ s) = is_space a || space2 fwd a b || space3 fwd a b c

abbrev pub ends_space : Bytes → Bool
ends_space s = starts_space false (reverse s)

first_of_three :
    {A : Type 0} (p q r : Bool) (w x y z : A)
    → (p || q || r) ≡ false
    → (if p then w else if q then x else if r then y else z) ≡ z
first_of_three p q r w x y z h = ground arith

pub trim_front_none : (fwd : Bool) (s : Bytes) → starts_space fwd s ≡ false → trim_front fwd s ≡ s
unfolding trim_front
trim_front_none fwd [] h = refl
trim_front_none fwd (a ∷ []) h = ground arith
trim_front_none true (a ∷ b ∷ []) h = ground arith
trim_front_none false (a ∷ b ∷ []) h = ground arith
trim_front_none fwd (a ∷ b ∷ c ∷ s) h =
    first_of_three (is_space a) (space2 fwd a b) (space3 fwd a b c) _ _ _ _ h

-- A text that begins and ends with no space is left as it is.
pub trim_space_none :
    (s : Bytes) → starts_space true s ≡ false → ends_space s ≡ false → trim_space s ≡ s
unfolding trim_space
trim_space_none s h k =
    rw (trim_front_none true s h) (rw (trim_front_none false (reverse s) k) (reverse-reverse s))

-- A byte of ASCII that is no space.
abbrev pub is_solid : ℕ → Bool
is_solid c = leb c 127 && not (is_space c)

starts_space_pair : (fwd : Bool) (c b : ℕ) → is_solid c ≡ true → space2 fwd c b ≡ false
starts_space_pair true c b h = ground arith
starts_space_pair false c b h = ground arith

starts_space_triple : (fwd : Bool) (c b a : ℕ) → is_solid c ≡ true → space3 fwd c b a ≡ false
starts_space_triple true c b a h = ground arith
starts_space_triple false c b a h = ground arith

pub starts_space_solid :
    (fwd : Bool) (c : ℕ) (s : Bytes) → is_solid c ≡ true → starts_space fwd (c ∷ s) ≡ false
starts_space_solid fwd c [] h = ground arith
starts_space_solid fwd c (b ∷ []) h = ground (arith, starts_space_pair fwd c b h)
starts_space_solid fwd c (b ∷ a ∷ s) h =
    ground (arith, starts_space_pair fwd c b h, starts_space_triple fwd c b a h)

pub starts_space_head :
    (fwd : Bool) (c : ℕ) (s : Bytes) → starts_space fwd (c ∷ s) ≡ false → is_space c ≡ false
starts_space_head fwd c [] h = h
starts_space_head fwd c (b ∷ []) h = ground arith
starts_space_head fwd c (b ∷ a ∷ s) h = ground arith

-- Behind a solid byte nothing new can begin a space.
starts_space_stop2 : (fwd : Bool) (a c : ℕ) → is_solid c ≡ true → space2 fwd a c ≡ false
starts_space_stop2 true a c h = ground arith
starts_space_stop2 false a c h = ground arith

starts_space_stop3 :
    (fwd : Bool) (a c b : ℕ)
    → is_solid c ≡ true
    → (space3 fwd a c b ≡ false) × (space3 fwd a b c ≡ false)
starts_space_stop3 true a c b h = (ground arith, ground arith)
starts_space_stop3 false a c b h = (ground arith, ground arith)

starts_space_append_solid :
    (fwd : Bool) (r : Bytes) (c : ℕ) (s : Bytes)
    → starts_space fwd r ≡ false
    → is_solid c ≡ true
    → starts_space fwd (r ++ c ∷ s) ≡ false
starts_space_append_solid fwd [] c s h k = starts_space_solid fwd c s k
starts_space_append_solid fwd (a ∷ []) c [] h k = ground (arith, starts_space_stop2 fwd a c k)
starts_space_append_solid fwd (a ∷ []) c (b ∷ s) h k =
    ground (arith, starts_space_stop2 fwd a c k, starts_space_stop3 fwd a c b k)
starts_space_append_solid fwd (a ∷ b ∷ []) c s h k = ground (arith, starts_space_stop3 fwd a c b k)
starts_space_append_solid fwd (a ∷ b ∷ d ∷ r) c s h k = h

-- What ends with no space still does so behind a prefix that ends with a solid byte.
pub ends_space_append :
    (p : Bytes) (c : ℕ) (v : Bytes)
    → is_solid c ≡ true
    → ends_space v ≡ false
    → ends_space (p ++ c ∷ v) ≡ false
ends_space_append p c v k h = rw (reverse-append p (c ∷ v)) (
    rw (reverse-cons c v) (
      rw (append_assoc (reverse v) (c ∷ []) (reverse p))
        (starts_space_append_solid false (reverse v) c (reverse p) h k)))

pub ends_space_solid : (p : Bytes) (c : ℕ) → is_solid c ≡ true → ends_space (p ++ c ∷ []) ≡ false
ends_space_solid p c k = ends_space_append p c [] k refl

pub ends_space-snoc : (q : Bytes) (c : ℕ) → ends_space (q ++ c ∷ []) ≡ false → is_space c ≡ false
ends_space-snoc q c h =
    starts_space_head false c (reverse q)
      (subst (λ u. starts_space false u ≡ false) (reverse-append q (c ∷ [])) h)

starts_space_prefix :
    (fwd : Bool) (r s : Bytes) → starts_space fwd (r ++ s) ≡ false → starts_space fwd r ≡ false
starts_space_prefix fwd [] s h = refl
starts_space_prefix fwd (a ∷ []) s h = starts_space_head fwd a s h
starts_space_prefix fwd (a ∷ b ∷ []) [] h = h
starts_space_prefix fwd (a ∷ b ∷ []) (c ∷ s) h = ground arith
starts_space_prefix fwd (a ∷ b ∷ c ∷ r) s h = h

-- A back part of what ends with no space does so too.
pub ends_space_suffix : (p v : Bytes) → ends_space (p ++ v) ≡ false → ends_space v ≡ false
ends_space_suffix p v h =
    starts_space_prefix false (reverse v) (reverse p)
      (subst (λ u. starts_space false u ≡ false) (reverse-append p v) h)

last_of_three :
    {A : Type 0} (P : A → Type 0) (p q r : Bool) (w x y z : A)
    → P w
    → P x
    → P y
    → ((p || q || r) ≡ false → P z)
    → P (if p then w else if q then x else if r then y else z)
last_of_three P true q r w x y z hw hx hy hz = hw
last_of_three P false true r w x y z hw hx hy hz = hx
last_of_three P false false true w x y z hw hx hy hz = hy
last_of_three P false false false w x y z hw hx hy hz = hz refl

-- Nothing is left to trim.
trim_front_done : (fwd : Bool) (s : Bytes) → starts_space fwd (trim_front fwd s) ≡ false
unfolding trim_front
trim_front_done fwd [] = refl
trim_front_done fwd (a ∷ []) = last_of_two (is_space a) refl (λ h. h)
  where
    last_of_two :
        (b : Bool)
        → starts_space fwd [] ≡ false
        → (b ≡ false → starts_space fwd (a ∷ []) ≡ false)
        → starts_space fwd (if b then [] else a ∷ []) ≡ false
    last_of_two true h k = h
    last_of_two false h k = k refl
trim_front_done fwd (a ∷ b ∷ []) =
    last_of_three (λ u. starts_space fwd u ≡ false) (is_space a) (space2 fwd a b) false
      (trim_front fwd (b ∷ [])) [] [] (a ∷ b ∷ []) (trim_front_done fwd (b ∷ [])) refl refl
      (λ h. two (is_space a) (space2 fwd a b) h)
  where
    two : (p q : Bool) → (p || q || false) ≡ false → (p || q) ≡ false
    two p q h = ground arith
trim_front_done fwd (a ∷ b ∷ c ∷ s) =
    last_of_three (λ u. starts_space fwd u ≡ false) (is_space a) (space2 fwd a b) (space3 fwd a b c)
      (trim_front fwd (b ∷ c ∷ s)) (trim_front fwd (c ∷ s)) (trim_front fwd s) (a ∷ b ∷ c ∷ s)
      (trim_front_done fwd (b ∷ c ∷ s)) (trim_front_done fwd (c ∷ s)) (trim_front_done fwd s)
      (λ h. h)

-- A trimmed text ends with no space.
pub ends_space-trim_space : (s : Bytes) → ends_space (trim_space s) ≡ false
unfolding trim_space
ends_space-trim_space s =
    rw (reverse-reverse (trim_front false (reverse (trim_left s))))
      (trim_front_done false (reverse (trim_left s)))

trim_front_space :
    (fwd : Bool) (c : ℕ) (s : Bytes) → is_space c ≡ true → trim_front fwd (c ∷ s) ≡ trim_front fwd s
unfolding trim_front
trim_front_space fwd c [] h = rw h
trim_front_space fwd c (a ∷ []) h = rw h
trim_front_space fwd c (a ∷ b ∷ s) h = rw h

-- A space in front does not matter.
pub trim_space_space : (c : ℕ) (s : Bytes) → is_space c ≡ true → trim_space (c ∷ s) ≡ trim_space s
unfolding trim_space
trim_space_space c s h = rw (trim_front_space true c s h)
