-- ===== src/Validate/Host.antt =====
-- internal/validate/validate.go: the language of `Hostname`.
use cf_vpn.Prelude.{
  ℕ, ◌≤◌, Bool, true, false, ◌||◌, List, [], ◌∷◌, ◌++◌, ◌≡◌, refl, sym, subst, ap, ◌∙◌, inl, inr,
  ◌↔◌, arith, ◌==◌, length, all, All, All-map, ok, Bool-cases, &&_parts, length-append, all-append,
}
use mathlib.Core.Path.{ap₂}
use mathlib.Core.Bool.{false≢true}
use cf_vpn.Text.{Bytes, equal, equal_self}
use cf_vpn.Text.Trim.{
  trim_space, is_solid, starts_space, ends_space, trim_space_none, starts_space_solid,
  ends_space_solid,
}
use cf_vpn.Text.Split.{
  split_on, head_is, last_is, head_is-split_on, last_is-split_on, last_is-front, last_is-cons,
  last_is-snoc, all-split_on,
}
use cf_vpn.Regex.{is_alnum, matches}
use cf_vpn.Regex.Language.{Lang, matches→Lang, Lang→matches}
use cf_vpn.Validate.{is_label_byte, host_label_re, check_labels, hostname}

-- One DNS label: 1 to 63 letters, digits and hyphens, with no hyphen at either end.
pub record IsLabel (w : Bytes) : Type 0 where
  pub starts : head_is is_alnum w ≡ true
  pub ends : last_is is_alnum w ≡ true
  pub holds : all is_label_byte w ≡ true
  pub short : length w ≤ 63

pub record IsHostname (s : Bytes) : Type 0 where
  pub labels : All IsLabel (split_on b'.' s)
  pub short : length s ≤ 253

all-snoc :
    (p : ℕ → Bool) (m : Bytes) (l : ℕ)
    → all p (m ++ l ∷ []) ≡ true
    → (all p m ≡ true) × (p l ≡ true)
all-snoc p m l h =
    let (hm, hl) = &&_parts (all p m) (all p (l ∷ [])) (sym (all-append p m (l ∷ [])) ∙ h) in
    (hm, (&&_parts (p l) true hl).0)

IsLabel-one : (c : ℕ) → is_alnum c ≡ true → IsLabel (c ∷ [])
IsLabel-one c h = record { starts = h; ends = h; holds = ground arith; short = omega arith }

alnum→label : (c : ℕ) → is_alnum c ≡ true → is_label_byte c ≡ true
alnum→label c h = ground arith

IsLabel-long :
    (c : ℕ) (m : Bytes) (l : ℕ)
    → is_alnum c ≡ true
    → all is_label_byte m ≡ true
    → length m ≤ 61
    → is_alnum l ≡ true
    → IsLabel (c ∷ m ++ l ∷ [])
IsLabel-long c m l hc hm short hl = record {
  starts = hc;
  ends = last_is-cons is_alnum c (m ++ l ∷ []) (last_is-snoc is_alnum m l hl);
  holds =
      rw (alnum→label c hc)
        (rw (all-append is_label_byte m (l ∷ [])) (rw hm (rw (alnum→label l hl))));
  short = omega (arith, length-append m (l ∷ []));
}

Lang→IsLabel : (w : Bytes) → Lang host_label_re w → IsLabel w
Lang→IsLabel w (x, x', e, (c, hc, ex), inl nil) =
    subst IsLabel (sym (e ∙ ap₂ (◌++◌) ex nil)) (IsLabel-one c hc)
Lang→IsLabel w (x, x', e, (c, hc, ex), inr (m, y, ey, (hm, (_, short)), (l, hl, el))) =
    subst IsLabel (sym (e ∙ ap₂ (◌++◌) ex (ey ∙ ap (◌++◌ m) el)))
      (IsLabel-long c m l hc hm short hl)

IsLabel→Lang : (w : Bytes) → IsLabel w → Lang host_label_re w
IsLabel→Lang [] h = absurd (false≢true h.starts)
IsLabel→Lang (c ∷ []) h = (c ∷ [], [], refl, (c, h.starts, refl), inl refl)
IsLabel→Lang (c ∷ d ∷ r) h =
    let (q, l, e, hl) = last_is-front is_alnum (d ∷ r) h.ends in
    let (_, rest) = &&_parts (is_label_byte c) (all is_label_byte (d ∷ r)) h.holds in
    let (hq, _) = all-snoc is_label_byte q l (subst (λ u. all is_label_byte u ≡ true) e rest) in
    let size : length q ≤ 61 = omega (arith, h.short, ap length e, length-append q (l ∷ [])) in
    (
      c ∷ [],
      d ∷ r,
      refl,
      (c, h.starts, refl),
      inr (q, l ∷ [], e, (hq, (omega arith, size)), (l, hl, refl)),
    )

check_labels→All : (ws : List Bytes) → check_labels ws ≡ ok tt → All IsLabel ws
unfolding check_labels
check_labels→All [] h = tt
check_labels→All (w ∷ ws) h = elim (Bool-cases (matches host_label_re w)) [
  | inl yes_ ↦
      (Lang→IsLabel w (matches→Lang host_label_re w yes_), check_labels→All ws (rw yes_ at h))
  | inr no_ ↦ absurd (cc (rw no_ at h))
]

All→check_labels : (ws : List Bytes) → All IsLabel ws → check_labels ws ≡ ok tt
unfolding check_labels
All→check_labels [] h = refl
All→check_labels (w ∷ ws) h =
    rw (Lang→matches host_label_re w (IsLabel→Lang w h.0)) (All→check_labels ws h.1)

is_alnum→solid : (c : ℕ) → is_alnum c ≡ true → is_solid c ≡ true
is_alnum→solid c h = ground arith

-- Such a name has no space at either end.
IsHostname-trim : (s : Bytes) → All IsLabel (split_on b'.' s) → trim_space s ≡ s
IsHostname-trim s h =
    let first = head_is-split_on b'.' is_alnum s (All-map (λ w l. l.starts) (split_on b'.' s) h) in
    let final = last_is-split_on b'.' is_alnum s (All-map (λ w l. l.ends) (split_on b'.' s) h) in
    let (q, c, e, hc) = last_is-front is_alnum s final in
    trim_space_none s (starts s first)
      (subst (λ u. ends_space u ≡ false) (sym e) (ends_space_solid q c (is_alnum→solid c hc)))
  where
    starts : (s : Bytes) → head_is is_alnum s ≡ true → starts_space true s ≡ false
    starts [] h = refl
    starts (c ∷ s) h = starts_space_solid true c s (is_alnum→solid c h)

-- `Hostname` returns no error exactly for names of at most 253 bytes whose parts between dots are
-- labels: 1 to 63 letters, digits and inner hyphens each.
pub hostname-ok_iff : (s : Bytes) → (hostname s ≡ ok tt) ↔ IsHostname s
unfolding hostname
hostname-ok_iff [] =
    (λ h. absurd (cc h), λ h. absurd (false≢true (unfold split_on in h.labels.0.starts)))
hostname-ok_iff (c ∷ s) = (
  λ h. record {
    labels = check_labels→All (split_on b'.' (c ∷ s)) (ground arith);
    short = ground arith;
  },
  λ h.
      let same : equal (c ∷ s) (trim_space (c ∷ s)) ≡ true =
        rw (IsHostname-trim (c ∷ s) h.labels) (equal_self (c ∷ s)) in
      rw same (ground (arith, All→check_labels (split_on b'.' (c ∷ s)) h.labels, h.short)),
)

-- Every byte of a name that `Hostname` accepts is a letter, a digit, a hyphen or a dot.
pub hostname_bytes :
    (s : Bytes) → hostname s ≡ ok tt → all (λ c. is_label_byte c || c == b'.') s ≡ true
hostname_bytes s h =
    let host = (hostname-ok_iff s).0 h in
    all-split_on b'.' (λ c. is_label_byte c || c == b'.') s refl
      (All-map (λ w l. all_weaken w l.holds) (split_on b'.' s) host.labels)
  where
    all_weaken :
        (w : Bytes) → all is_label_byte w ≡ true → all (λ c. is_label_byte c || c == b'.') w ≡ true
    all_weaken [] h = refl
    all_weaken (c ∷ w) h =
        let (hc, hw) = &&_parts (is_label_byte c) (all is_label_byte w) h in rw hc (all_weaken w hw)
