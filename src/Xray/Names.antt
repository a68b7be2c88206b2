-- ===== src/Xray/Names.antt =====
-- `normalizeEmail` on the names that `ValidateUserName` accepts.
use cf_vpn.Prelude.{
  ℕ, Bool, true, false, [], ◌∷◌, ◌≡◌, refl, ◌∙◌, arith, reverse, reverse-append, reverse-reverse,
  all, all-append, &&_parts, ok,
}
use cf_vpn.Text.{Bytes, codes}
use cf_vpn.Text.Trim.{is_solid, trim_space, trim_space_none, starts_space, starts_space_solid}
use cf_vpn.Regex.Language.{matches→Lang}
use cf_vpn.Xray.Accounts.{
  strip_suffixes, normalize_email, is_name_byte, user_name_re, validate_user_name, email_of,
}

abbrev pub IsName : Bytes → Type 0
IsName name = all is_name_byte name ≡ true

pub validate_user_name-IsName : (s : Bytes) → validate_user_name s ≡ ok tt → IsName s
unfolding validate_user_name
validate_user_name-IsName s h = (matches→Lang user_name_re s (ground arith)).0

module _ (p : ℕ → Bool) where
  all-reverse : (s : Bytes) → all p s ≡ true → all p (reverse s) ≡ true
  all-reverse [] h = refl
  all-reverse (c ∷ s) h =
      let (hc, hs) = &&_parts (p c) (all p s) h in
      rw (reverse-append (c ∷ []) s)
        (all-append p (reverse s) (c ∷ []) ∙ rw (all-reverse s hs) (rw hc refl))

  all_weaken :
      (q : ℕ → Bool) (s : Bytes)
      → ((c : ℕ) → q c ≡ true → p c ≡ true)
      → all q s ≡ true
      → all p s ≡ true
  all_weaken q [] f h = refl
  all_weaken q (c ∷ s) f h =
      let (hc, hs) = &&_parts (q c) (all q s) h in rw (f c hc) (all_weaken q s f hs)

trim_space-solid : (s : Bytes) → all is_solid s ≡ true → trim_space s ≡ s
trim_space-solid s h =
    trim_space_none s (front true s h) (front false (reverse s) (all-reverse is_solid s h))
  where
    front : (fwd : Bool) (s : Bytes) → all is_solid s ≡ true → starts_space fwd s ≡ false
    front fwd [] h = refl
    front fwd (c ∷ s) h = starts_space_solid fwd c s (&&_parts (is_solid c) (all is_solid s) h).0

name→solid : (c : ℕ) → is_name_byte c ≡ true → is_solid c ≡ true
name→solid c h = ground arith

strip_suffixes-IsName : (s : Bytes) → IsName s → strip_suffixes s ≡ s
unfolding strip_suffixes
strip_suffixes-IsName [] h = refl
strip_suffixes-IsName (a ∷ []) h = refl
strip_suffixes-IsName (a ∷ b ∷ []) h = refl
strip_suffixes-IsName (a ∷ b ∷ c ∷ []) h = refl
strip_suffixes-IsName (a ∷ b ∷ c ∷ d ∷ s) h = ground arith

-- A valid name is its own normal form,
pub normalize_email-IsName : (s : Bytes) → IsName s → normalize_email s ≡ s
unfolding normalize_email
normalize_email-IsName s h =
    rw (trim_space-solid s (all_weaken is_solid is_name_byte s name→solid h))
      (rw (strip_suffixes-IsName (reverse s) (all-reverse is_name_byte s h)) (reverse-reverse s))

strip_suffixes_hit : (s : Bytes) → strip_suffixes (b'n' ∷ b'p' ∷ b'v' ∷ b'@' ∷ s) ≡ strip_suffixes s
unfolding strip_suffixes
strip_suffixes_hit s = refl

-- and that of the email stored for it.
pub normalize_email-email_of : (s : Bytes) → IsName s → normalize_email (email_of s) ≡ s
unfolding normalize_email
normalize_email-email_of s h =
    let solid : all is_solid (email_of s) ≡ true =
      all-append is_solid s (codes "@vpn")
      ∙ rw (all_weaken is_solid is_name_byte s name→solid h) refl in
    rw (trim_space-solid (email_of s) solid) (
      rw (reverse-append s (codes "@vpn")) (
        rw (strip_suffixes_hit (reverse s)) (
          rw (strip_suffixes-IsName (reverse s) (all-reverse is_name_byte s h))
            (reverse-reverse s))))
