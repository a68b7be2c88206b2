-- ===== src/Checksum/Sound.antt =====
-- internal/binary/checksum.go: where an accepted digest comes from.
use cf_vpn.Prelude.{
  true, ◌==◌, ==_iff, List, [], ◌∷◌, ◌++◌, length, all, All, All-map, Option, none, some, ◌≡◌, refl,
  ap, sym, subst, ◌∙◌, inl, inr, Bool-cases, Option-cases, ok, >>=-eq-ok, ok-injective,
}
use mathlib.Core.Option.{some-injective}
use cf_vpn.Text.{Bytes, codes, equal, equal_iff}
use cf_vpn.Text.Trim.{trim_space}
use cf_vpn.Text.Split.{split_on, join_with}
use cf_vpn.Links.{to_lower}
use cf_vpn.Regex.{is_hex}
use cf_vpn.Checksum.{
  ChecksumError, check_digest, trim_star, name_of, entry_of, line_entry, first_digest,
  expected_sha256, compared, verify_file_sha256,
}
use cf_vpn.Checksum.Fields.{fields, base}

check_digest-ok :
    (d e : Bytes) → check_digest d ≡ ok e → (d ≡ e) × (length d ≡ 64) × (all is_hex d ≡ true)
unfolding check_digest
check_digest-ok d e h = elim (Bool-cases (length d == 64)) [
  | inl size ↦ elim (Bool-cases (all is_hex d)) [
    | inl digits ↦ (
      ok-injective {E = ChecksumError} (rw (size, digits) at h),
      (==_iff (length d) 64).0 size,
      digits,
    )
    | inr other ↦ absurd (cc (rw (size, other) at h))
  ]
  | inr other ↦ absurd (cc (rw other at h))
]

-- The first line with an entry gives the digest: 64 hexadecimal digits.
pub record IsFirst (entry : Bytes → Option Bytes) (lines : List Bytes) (d : Bytes) : Type 0 where
  pub before : List Bytes
  pub line : Bytes
  pub behind : List Bytes
  pub whole : lines ≡ before ++ line ∷ behind
  pub skipped : All (λ l. entry l ≡ none) before
  pub found : entry line ≡ some d
  pub size : length d ≡ 64
  pub digits : all is_hex d ≡ true

-- What a line that names the file is, in the words of the comment of `ExpectedSHA256`: behind a
-- first word, the digest, stands the name, perhaps with a star in front of it.
pub record Names (want line digest : Bytes) : Type 0 where
  pub first : Bytes
  pub second : Bytes
  pub rest : List Bytes
  pub words : fields [] (trim_space line) ≡ first ∷ second ∷ rest
  pub named : base (trim_star (join_with (codes " ") (second ∷ rest))) ≡ want
  pub lower : digest ≡ to_lower first

module _ (want line : Bytes) where
  entry_of-Names :
      (ws : List Bytes) (d : Bytes)
      → fields [] (trim_space line) ≡ ws
      → entry_of want ws ≡ some d
      → Names want line d
  entry_of-Names [] d e h = absurd (cc h)
  entry_of-Names (x ∷ []) d e h = absurd (cc h)
  entry_of-Names (x ∷ n ∷ rest) d e h = elim (Bool-cases (equal (name_of (n ∷ rest)) want)) [
    | inl same ↦ record {
      first = x;
      second = n;
      rest = rest;
      words = e;
      named = (equal_iff (name_of (n ∷ rest)) want).0 same;
      lower = sym (some-injective (to_lower x) d (rw same at h));
    }
    | inr other ↦ absurd (cc (rw other at h))
  ]

  entry_of-named :
      (x n : Bytes) (rest : List Bytes)
      → name_of (n ∷ rest) ≡ want
      → entry_of want (x ∷ n ∷ rest) ≡ some (to_lower x)
  entry_of-named x n rest h = rw ((equal_iff (name_of (n ∷ rest)) want).1 h) refl

  unnamed : line_entry want line ≡ none → (d : Bytes) → ¬ Names want line d
  unnamed h d r =
      let found : line_entry want line ≡ some (to_lower r.first) =
        ap (entry_of want) r.words ∙ entry_of-named r.first r.second r.rest r.named in
      cc (h, found)

-- The first line that names the file gives the digest: 64 hexadecimal digits.
pub record IsDigestOf (want : Bytes) (lines : List Bytes) (d : Bytes) : Type 0 where
  pub before : List Bytes
  pub line : Bytes
  pub behind : List Bytes
  pub whole : lines ≡ before ++ line ∷ behind
  pub skipped : All (λ l. (e : Bytes) → ¬ Names want l e) before
  pub found : Names want line d
  pub size : length d ≡ 64
  pub digits : all is_hex d ≡ true

named :
    (want : Bytes) (lines : List Bytes) (d : Bytes)
    → IsFirst (line_entry want) lines d
    → IsDigestOf want lines d
named want lines d r = record {
  before = r.before;
  line = r.line;
  behind = r.behind;
  whole = r.whole;
  skipped = All-map (λ l h. unnamed want l h) r.before r.skipped;
  found = entry_of-Names want r.line (fields [] (trim_space r.line)) d refl r.found;
  size = r.size;
  digits = r.digits;
}

first_digest-IsFirst :
    (entry : Bytes → Option Bytes) (lines : List Bytes) (d : Bytes)
    → first_digest entry lines ≡ ok d
    → IsFirst entry lines d
unfolding first_digest
first_digest-IsFirst entry [] d h = absurd (cc h)
first_digest-IsFirst entry (l ∷ ls) d h = elim (Option-cases (entry l)) [
  | inl nothing ↦
      let r = first_digest-IsFirst entry ls d (rw nothing at h) in
      record {
        before = l ∷ r.before;
        line = r.line;
        behind = r.behind;
        whole = ap (◌∷◌ l) r.whole;
        skipped = (nothing, r.skipped);
        found = r.found;
        size = r.size;
        digits = r.digits;
      }
  | inr (e, there) ↦
      let (same, size, digits) = check_digest-ok e d (rw there at h) in
      record {
        before = [];
        line = l;
        behind = ls;
        whole = refl;
        skipped = tt;
        found = there ∙ ap some same;
        size = subst (λ x. length x ≡ 64) same size;
        digits = subst (λ (x : Bytes). all is_hex x ≡ true) same digits;
      }
]

-- When `VerifyFileSHA256` returns no error, the SHA-256 of the file's content, 64 hexadecimal digits,
-- is the digest, in lower case, of the first line of the checksums that names the file: whose
-- words behind the first, with blanks between them and without a star in front, have the base name
-- of the path as their base name.
pub verify_file_sha256-IsDigestOf :
    (sha256_hex : Bytes → Bytes) (path : Bytes) (file : Option Bytes) (checksums : Bytes)
    → verify_file_sha256 sha256_hex expected_sha256 path file checksums ≡ ok tt
    → (content : Bytes) × (file ≡ some content)
      × IsDigestOf (base path) (split_on b'\n' checksums) (sha256_hex content)
unfolding verify_file_sha256 expected_sha256
verify_file_sha256-IsDigestOf sha256_hex path file checksums h =
    let (want, found, same) = >>=-eq-ok (expected_sha256 checksums path) _ h in
    go file want
      (named (base path) (split_on b'\n' checksums) want
        (first_digest-IsFirst (line_entry (base path)) (split_on b'\n' checksums) want found))
      same
  where
    go :
        (f : Option Bytes) (want : Bytes)
        → IsDigestOf (base path) (split_on b'\n' checksums) want
        → compared sha256_hex f want ≡ ok tt
        → (content : Bytes) × (f ≡ some content)
          × IsDigestOf (base path) (split_on b'\n' checksums) (sha256_hex content)
    go none want r k = absurd (cc k)
    go (some content) want r k = elim (Bool-cases (equal (sha256_hex content) want)) [
      | inl same ↦ (
        content,
        refl,
        subst (IsDigestOf (base path) (split_on b'\n' checksums))
            (sym ((equal_iff (sha256_hex content) want).0 same)) r,
      )
      | inr other ↦ absurd (cc (rw other at k))
    ]
