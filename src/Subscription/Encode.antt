-- ===== src/Subscription/Encode.antt =====
-- internal/subscription/subscription.go: `EncodeURIComponent` against percent-decoding.
use cf_vpn.Prelude.{
  ℕ, ◌+◌, ◌-◌, ◌*◌, ◌/◌, ◌%◌, ◌<◌, Bool, true, false, not, ◌||◌, List, [], ◌∷◌, ◌++◌, map, ◌≡◌,
  refl, ap, sym, subst, ◌∙◌, inl, inr, arith, leb, ◌==◌, if◌then◌else◌, all, all-append, All,
  Bool-cases, append_assoc, &&_parts, not-true, ==_iff,
}
use cf_vpn.Text.{Bytes, codes}
use cf_vpn.Text.Split.{split_on, join_with, split_on-cons, split_on_hit, split_on_miss, free_of}
use cf_vpn.Subscription.{is_unreserved, upper_hex, encode_byte, encode, encode_vless_path}

-- A Go byte.
abbrev pub IsBytes : Bytes → Type 0
IsBytes s = All (λ c. c < 256) s

hex_value : ℕ → ℕ
hex_value c = if leb c b'9' then c - b'0' else c - b'A' + 10

-- `decodeURIComponent` on what `encode` puts out: `%XY` is the byte with these hexadecimal digits.
unfoldable pub decode : Bytes → Bytes
unfolding hex_value
decode [] = []
decode (c ∷ []) = c ∷ []
decode (c ∷ x ∷ []) = c ∷ x ∷ []
decode (c ∷ x ∷ y ∷ s) =
    let plain = decode (x ∷ y ∷ s) in
    let coded = decode s in
    if c == b'%' then (16 * hex_value x + hex_value y) ∷ coded else c ∷ plain

decode-plain : (c : ℕ) (s : Bytes) → (c == b'%') ≡ false → decode (c ∷ s) ≡ c ∷ decode s
unfolding decode
decode-plain c [] h = refl
decode-plain c (x ∷ []) h = refl
decode-plain c (x ∷ y ∷ s) h = rw h

unreserved→ne : (c : ℕ) → is_unreserved c ≡ true → (c == b'%') ≡ false
unfolding is_unreserved
unreserved→ne c h = ground arith

hex_value-upper_hex : (d : ℕ) → d < 16 → hex_value (upper_hex d) ≡ d
unfolding hex_value upper_hex
hex_value-upper_hex d h = ground arith

decode-coded :
    (x y : ℕ) (s : Bytes) → decode (b'%' ∷ x ∷ y ∷ s) ≡ (16 * hex_value x + hex_value y) ∷ decode s
unfolding decode
decode-coded x y s = refl

encode_byte-plain : (c : ℕ) → is_unreserved c ≡ true → encode_byte c ≡ c ∷ []
encode_byte-plain c h = unfold encode_byte in rw h

encode_byte-coded :
    (c : ℕ)
    → is_unreserved c ≡ false
    → encode_byte c ≡ b'%' ∷ upper_hex (c / 16) ∷ upper_hex (c % 16) ∷ []
encode_byte-coded c h = unfold encode_byte in rw h

decode-encode_byte : (c : ℕ) (s : Bytes) → c < 256 → decode (encode_byte c ++ s) ≡ c ∷ decode s
decode-encode_byte c s h = elim (Bool-cases (is_unreserved c)) [
  | inl plain ↦ rw (encode_byte-plain c plain) (decode-plain c s (unreserved→ne c plain))
  | inr coded ↦ rw (encode_byte-coded c coded) (
      decode-coded (upper_hex (c / 16)) (upper_hex (c % 16)) s
      ∙ ap (λ n. n ∷ decode s)
          (rw (hex_value-upper_hex (c / 16) (omega arith))
            (rw (hex_value-upper_hex (c % 16) (omega arith)) (omega arith))))
]

encode-cons : (c : ℕ) (s : Bytes) → encode (c ∷ s) ≡ encode_byte c ++ encode s
unfolding encode
encode-cons c s = refl

-- Percent-decoding gives back every text of bytes that `EncodeURIComponent` encoded.
pub decode-encode : (s : Bytes) → IsBytes s → decode (encode s) ≡ s
decode-encode [] h = unfold decode encode in refl
decode-encode (c ∷ s) h =
    ap decode (encode-cons c s)
    ∙ decode-encode_byte c (encode s) h.0
    ∙ ap (◌∷◌ c) (decode-encode s h.1)

pub decode-encode_append : (s t : Bytes) → IsBytes s → decode (encode s ++ t) ≡ s ++ decode t
decode-encode_append [] t h = unfold encode in refl
decode-encode_append (c ∷ s) t h =
    ap decode (ap (λ u. u ++ t) (encode-cons c s) ∙ append_assoc (encode_byte c) (encode s) t)
    ∙ decode-encode_byte c (encode s ++ t) h.0
    ∙ ap (◌∷◌ c) (decode-encode_append s t h.1)

pub decode-free : (w : Bytes) → free_of b'%' w ≡ true → decode w ≡ w
decode-free [] h = unfold decode in refl
decode-free (c ∷ w) h =
    let (hc, hw) = &&_parts (not (c == b'%')) (free_of b'%' w) h in
    decode-plain c w (not-true (c == b'%') hc) ∙ ap (◌∷◌ c) (decode-free w hw)

-- What may stand in the output.
abbrev pub is_encoded : ℕ → Bool
is_encoded c = is_unreserved c || c == b'%'

upper_hex-unreserved : (d : ℕ) → d < 16 → is_unreserved (upper_hex d) ≡ true
unfolding upper_hex is_unreserved
upper_hex-unreserved d h = ground arith

all-encode_byte : (c : ℕ) → c < 256 → all is_encoded (encode_byte c) ≡ true
all-encode_byte c h = elim (Bool-cases (is_unreserved c)) [
  | inl plain ↦ rw (encode_byte-plain c plain) (rw plain)
  | inr coded ↦ rw (encode_byte-coded c coded) (
      rw (upper_hex-unreserved (c / 16) (omega arith))
        (rw (upper_hex-unreserved (c % 16) (omega arith)) (unfold is_unreserved in refl)))
]

pub all-encode : (s : Bytes) → IsBytes s → all is_encoded (encode s) ≡ true
all-encode [] h = unfold encode in refl
all-encode (c ∷ s) h = rw (encode-cons c s) (
    rw (all-append is_encoded (encode_byte c) (encode s))
      (rw (all-encode_byte c h.0) (all-encode s h.1)))

-- A byte that may not stand there does not.
free_of-all :
    (c : ℕ) (w : Bytes) → is_encoded c ≡ false → all is_encoded w ≡ true → free_of c w ≡ true
free_of-all c [] n h = refl
free_of-all c (x ∷ w) n h =
    let (hx, hw) = &&_parts (is_encoded x) (all is_encoded w) h in
    elim (Bool-cases (x == c)) [
      | inl same ↦ absurd (cc (n, hx, ap is_encoded ((==_iff x c).0 same)))
      | inr other ↦ rw other (free_of-all c w n hw)
    ]

-- No separator of a URI stands in the output, so no argument can add a parameter.
pub free_of-encode :
    (c : ℕ) (s : Bytes) → is_encoded c ≡ false → IsBytes s → free_of c (encode s) ≡ true
free_of-encode c s n h = free_of-all c (encode s) n (all-encode s h)

-- A slash is encoded as the separator.
join_slash :
    (w : Bytes) (ws : List Bytes)
    → join_with (codes "%2F") (encode [] ∷ encode w ∷ ws)
      ≡ encode_byte b'/' ++ join_with (codes "%2F") (encode w ∷ ws)
unfolding join_with encode encode_byte
join_slash w ws = refl

join_push :
    (x : ℕ) (w : Bytes) (ws : List Bytes)
    → join_with (codes "%2F") (encode (x ∷ w) ∷ ws)
      ≡ encode_byte x ++ join_with (codes "%2F") (encode w ∷ ws)
unfolding join_with encode
join_push x w [] = refl
join_push x w (v ∷ ws) = append_assoc (encode_byte x) (encode w) _

-- Encoding a path segment by segment and joining with `%2F` equals encoding it as a whole.
pub encode_vless_path-eq : (s : Bytes) → encode_vless_path s ≡ encode s
unfolding encode_vless_path
encode_vless_path-eq [] = unfold split_on join_with encode in refl
encode_vless_path-eq (x ∷ s) =
    let (w, ws, e) = split_on-cons b'/' s in
    let ih : join_with (codes "%2F") (map encode (w ∷ ws)) ≡ encode s =
      subst (λ l. join_with (codes "%2F") (map encode l) ≡ encode s) e (encode_vless_path-eq s) in
    elim (Bool-cases (x == b'/')) [
      | inl hit ↦ rw (split_on_hit b'/' x s hit) (
          rw e (
            rw ((==_iff x b'/').0 hit) (
              join_slash w (map encode ws)
              ∙ ap (◌++◌ (encode_byte b'/')) ih
              ∙ sym (encode-cons b'/' s))))
      | inr miss ↦
          rw (split_on_miss b'/' x s w ws miss e)
            (join_push x w (map encode ws) ∙ ap (◌++◌ (encode_byte x)) ih ∙ sym (encode-cons x s))
    ]
