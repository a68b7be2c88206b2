-- ===== src/Hysteria/Quote.antt =====
-- internal/hysteria/hysteria.go: `yamlQuote` against `yamlUnquote` and `cutUserpassEntry`.
use cf_vpn.Prelude.{
  ℕ, zero, suc, ◌-◌, true, false, not, [], ◌∷◌, ◌++◌, Option, none, some, ◌≡◌, refl, ap, subst, ◌∙◌,
  inl, inr, arith, ltb, leb, ◌==◌, if◌then◌else◌, all-append, Bool-cases, &&_parts, not-true,
  append_assoc,
}
use cf_vpn.Text.{Bytes}
use cf_vpn.Text.Split.{last_is, last_is-snoc, free_of}
use cf_vpn.Text.Utf8.{rune_width, utf8_from, is_utf8}
use cf_vpn.Hysteria.{
  quote_byte, quote_runes, yaml_quote, unquote_bytes, yaml_unquote, prepend, unescape, extend,
  cut_entry_from, cut_userpass_entry,
}

-- The escapes, byte by byte.
abbrev pub quoted : Bytes → Bytes
quoted [] = []
quoted (c ∷ s) = quote_byte c ++ quoted s

quote_byte-high : (c : ℕ) → leb 0x80 c ≡ true → quote_byte c ≡ c ∷ []
unfolding quote_byte
quote_byte-high c h = ground arith

-- On valid UTF-8 the loop over runes is a loop over bytes.
quote_runes-quoted :
    (skip : ℕ) (s : Bytes) → utf8_from skip s ≡ true → quote_runes skip s ≡ quoted s
unfolding quote_runes utf8_from
quote_runes-quoted zero [] h = refl
quote_runes-quoted (suc skip) [] h = refl
quote_runes-quoted (suc skip) (c ∷ s) h =
    let (hc, hs) = &&_parts (leb 0x80 c) (utf8_from skip s) h in
    rw (quote_byte-high c hc) (ap (◌∷◌ c) (quote_runes-quoted skip s hs))
quote_runes-quoted zero (c ∷ s) h = elim (Bool-cases (ltb c 0x80)) [
  | inl low ↦ rw low (ap (◌++◌ (quote_byte c)) (quote_runes-quoted zero s (rw low at h)))
  | inr high ↦
      let (hw, hs) =
        &&_parts (not (rune_width (c ∷ s) == 0)) (utf8_from (rune_width (c ∷ s) - 1) s)
          (rw high at h) in
      rw (high, not-true (rune_width (c ∷ s) == 0) hw)
        (rw (quote_byte-high c (not_below c high))
          (ap (◌∷◌ c) (quote_runes-quoted (rune_width (c ∷ s) - 1) s hs)))
]
  where
    not_below : (c : ℕ) → ltb c 0x80 ≡ false → leb 0x80 c ≡ true
    not_below c h = ground arith

pub yaml_quote-quoted :
    (s : Bytes) → is_utf8 s ≡ true → yaml_quote s ≡ b'"' ∷ quoted s ++ (b'"' ∷ [])
unfolding yaml_quote
yaml_quote-quoted s h = rw (quote_runes-quoted 0 s h)

-- The letter of the escape of a byte that has one.
escape_of : ℕ → Option ℕ
escape_of c =
    if c == b'\\'
    then some b'\\'
    else if c == b'"'
    then some b'"'
    else if c == b'\n'
    then some b'n'
    else if c == b'\r'
    then some b'r'
    else if c == b'\t'
    then some b't'
    else none

abbrev Escaped : ℕ → Option ℕ → Type 0
Escaped c none =
    (quote_byte c ≡ c ∷ [])
    × ((c == b'\\') ≡ false)
    × ((c == b'"') ≡ false)
    × ((c == b'\n') ≡ false)
Escaped c (some e) =
    (quote_byte c ≡ b'\\' ∷ e ∷ []) × (unescape e ≡ some c) × ((e == b'\n') ≡ false)

escapes : (c : ℕ) → Escaped c (escape_of c)
unfolding quote_byte escape_of
escapes c = elim (Bool-cases (c == b'\\')) [
  | inl h ↦ rw h (ground arith, ground arith, refl)
  | inr h1 ↦ elim (Bool-cases (c == b'"')) [
    | inl h ↦ rw (h1, h) (ground arith, ground arith, refl)
    | inr h2 ↦ elim (Bool-cases (c == b'\n')) [
      | inl h ↦ rw (h1, h2, h) (ground arith, ground arith, refl)
      | inr h3 ↦ elim (Bool-cases (c == b'\r')) [
        | inl h ↦ rw (h1, h2, h3, h) (ground arith, ground arith, refl)
        | inr h4 ↦ elim (Bool-cases (c == b'\t')) [
          | inl h ↦ rw (h1, h2, h3, h4, h) (ground arith, ground arith, refl)
          | inr h5 ↦ rw (h1, h2, h3, h4, h5) (ground arith, h1, h2, h3)
        ]
      ]
    ]
  ]
]

-- The text of a quote is never empty.
front : (s t : Bytes) (c : ℕ) → (d : ℕ) × (r : Bytes) × (s ++ (c ∷ t) ≡ d ∷ r)
front [] t c = (c, t, refl)
front (x ∷ s) t c = (x, s ++ (c ∷ t), refl)

unquote_bytes-plain :
    (c d : ℕ) (r : Bytes)
    → (c == b'\\') ≡ false
    → unquote_bytes (c ∷ d ∷ r) ≡ prepend (some c) (unquote_bytes (d ∷ r))
unfolding unquote_bytes
unquote_bytes-plain c d [] h = rw h
unquote_bytes-plain c d (e ∷ s) h = rw h

unquote_bytes-escaped :
    (e d : ℕ) (r : Bytes)
    → unquote_bytes (b'\\' ∷ e ∷ d ∷ r) ≡ prepend (unescape e) (unquote_bytes (d ∷ r))
unfolding unquote_bytes
unquote_bytes-escaped e d r = refl

unquote_bytes-quoted : (s : Bytes) → unquote_bytes (quoted s ++ (b'"' ∷ [])) ≡ some s
unquote_bytes-quoted [] = unfold unquote_bytes in refl
unquote_bytes-quoted (c ∷ s) =
    let (d, r, e) = front (quoted s) [] b'"' in
    let ih : unquote_bytes (d ∷ r) ≡ some s =
      subst (λ u. unquote_bytes u ≡ some s) e (unquote_bytes-quoted s) in
    step (escape_of c) d r e ih (escapes c)
  where
    step :
        (o : Option ℕ) (d : ℕ) (r : Bytes)
        → quoted s ++ (b'"' ∷ []) ≡ d ∷ r
        → unquote_bytes (d ∷ r) ≡ some s
        → Escaped c o
        → unquote_bytes ((quote_byte c ++ quoted s) ++ (b'"' ∷ [])) ≡ some (c ∷ s)
    step none d r e ih (q, slash, _, _) =
        rw q (rw e (unquote_bytes-plain c d r slash ∙ ap (prepend (some c)) ih))
    step (some x) d r e ih (q, back, _) =
        rw q (rw e (unquote_bytes-escaped x d r ∙ rw back (ap (prepend (some c)) ih)))

-- `yamlUnquote` gives back every valid UTF-8 text that `yamlQuote` wrote.
pub yaml_unquote-yaml_quote : (s : Bytes) → is_utf8 s ≡ true → yaml_unquote (yaml_quote s) ≡ some s
unfolding yaml_unquote
yaml_unquote-yaml_quote s h =
    let (d, r, e) = front (quoted s) [] b'"' in
    let closed : last_is (λ x. x == b'"') (d ∷ r) ≡ true =
      subst (λ u. last_is (λ x. x == b'"') u ≡ true) e
        (last_is-snoc (λ x. x == b'"') (quoted s) b'"' refl) in
    let read = subst (λ u. unquote_bytes u ≡ some s) e (unquote_bytes-quoted s) in
    rw (yaml_quote-quoted s h) (rw e (rw closed read))

cut_entry-quoted :
    (s r a b : Bytes)
    → cut_entry_from false false r ≡ some (a, b)
    → cut_entry_from true false (quoted s ++ (b'"' ∷ r)) ≡ some (quoted s ++ (b'"' ∷ a), b)
unfolding cut_entry_from
cut_entry-quoted [] r a b h = rw h
cut_entry-quoted (c ∷ s) r a b h = step (escape_of c) (cut_entry-quoted s r a b h) (escapes c)
  where
    step :
        (o : Option ℕ)
        → cut_entry_from true false (quoted s ++ (b'"' ∷ r)) ≡ some (quoted s ++ (b'"' ∷ a), b)
        → Escaped c o
        → cut_entry_from true false ((quote_byte c ++ quoted s) ++ (b'"' ∷ r))
          ≡ some ((quote_byte c ++ quoted s) ++ (b'"' ∷ a), b)
    step none ih (q, slash, quote, _) = rw q (rw (slash, quote) (rw ih))
    step (some x) ih (q, _, _) = rw q (rw ih)

-- The scan for the colon passes over a quoted name, colons in it included.
pub cut_userpass_entry-yaml_quote :
    (s b : Bytes)
    → is_utf8 s ≡ true
    → cut_userpass_entry (yaml_quote s ++ (b':' ∷ b)) ≡ some (yaml_quote s, b)
cut_userpass_entry-yaml_quote s b h = rw (yaml_quote-quoted s h) (
    rw (append_assoc (quoted s) (b'"' ∷ []) (b':' ∷ b)) (
      unfold cut_entry_from in
      ap (extend b'"') (cut_entry-quoted s (b':' ∷ b) [] b (unfold cut_entry_from in refl))))

-- No line break stands in a quote.
free_of-quoted : (s : Bytes) → free_of b'\n' (quoted s) ≡ true
free_of-quoted [] = refl
free_of-quoted (c ∷ s) = step (escape_of c) (free_of-quoted s) (escapes c)
  where
    step :
        (o : Option ℕ)
        → free_of b'\n' (quoted s) ≡ true
        → Escaped c o
        → free_of b'\n' (quote_byte c ++ quoted s) ≡ true
    step none ih (q, _, _, line) = rw q (rw line ih)
    step (some x) ih (q, _, line) = rw q (rw line ih)

pub free_of-yaml_quote : (s : Bytes) → is_utf8 s ≡ true → free_of b'\n' (yaml_quote s) ≡ true
free_of-yaml_quote s h =
    rw (yaml_quote-quoted s h)
      (all-append (λ b. not (b == b'\n')) (quoted s) (b'"' ∷ []) ∙ rw (free_of-quoted s))
