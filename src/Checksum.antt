-- ===== src/Checksum.antt =====
-- internal/binary/checksum.go: the digests of checksum files, and the check of a download.
pub mod Fields
pub mod Sound
mod Tests
use cf_vpn.Prelude.{
  Bool, true, false, not, ◌&&◌, ◌==◌, List, [], ◌∷◌, ◌++◌, map, reverse, length, all, Option, none,
  some, if◌then◌else◌, Result, ok, err, ◌>>=◌,
}
use cf_vpn.Text.{Bytes, codes, equal, is_empty}
use cf_vpn.Text.Trim.{trim_space}
use cf_vpn.Text.Split.{split_on, join_with, cut}
use cf_vpn.Regex.{is_hex}
use cf_vpn.Links.{to_lower}
use cf_vpn.Checksum.Fields.{fields, base}

pub data ChecksumError : Type 0 where
  not_a_digest not_hex no_entry unreadable mismatch : ChecksumError

-- `hex.DecodeString` reads a text of 64 bytes exactly when all are hexadecimal digits.
unfoldable pub check_digest : Bytes → Result ChecksumError Bytes
check_digest digest =
    if not (length digest == 64)
    then err not_a_digest
    else if all is_hex digest
    then ok digest
    else err not_hex

-- `strings.TrimPrefix(s, "*")`
abbrev pub trim_star : Bytes → Bytes
trim_star [] = []
trim_star (c ∷ s) = if c == b'*' then s else c ∷ s

abbrev pub name_of : List Bytes → Bytes
name_of rest = base (trim_star (join_with (codes " ") rest))

-- What a line says of the wanted name: nothing, or its digest.
abbrev pub entry_of : Bytes → List Bytes → Option Bytes
entry_of want [] = none
entry_of want (d ∷ []) = none
entry_of want (d ∷ n ∷ rest) = if equal (name_of (n ∷ rest)) want then some (to_lower d) else none

abbrev pub or_next : Option Bytes → Result ChecksumError Bytes → Result ChecksumError Bytes
or_next none next = next
or_next (some digest) next = check_digest digest

abbrev pub line_entry : Bytes → Bytes → Option Bytes
line_entry want line = entry_of want (fields [] (trim_space line))

-- The loop over the lines.
unfoldable pub first_digest : (Bytes → Option Bytes) → List Bytes → Result ChecksumError Bytes
unfolding check_digest
first_digest entry [] = err no_entry
first_digest entry (line ∷ lines) = let next = first_digest entry lines in or_next (entry line) next

-- `ExpectedSHA256`
unfoldable pub expected_sha256 : Bytes → Bytes → Result ChecksumError Bytes
unfolding first_digest fields trim_space base equal split_on join_with
expected_sha256 checksums filename =
    first_digest (line_entry (base filename)) (split_on b'\n' checksums)

abbrev pub bare_or_named : Bytes → Bytes → List Bytes → Result ChecksumError Bytes
bare_or_named checksums filename (d ∷ []) =
    if length d == 64 then check_digest (to_lower d) else expected_sha256 checksums filename
bare_or_named checksums filename fs = expected_sha256 checksums filename

-- `ExpectedSHA256BareDigest`
unfoldable pub expected_sha256_bare_digest : Bytes → Bytes → Result ChecksumError Bytes
unfolding fields expected_sha256 check_digest
expected_sha256_bare_digest checksums filename =
    bare_or_named checksums filename (fields [] checksums)

abbrev pub keyed : Option (Bytes × Bytes) → Option Bytes
keyed none = none
keyed (some (key, value)) =
    if equal (trim_space key) (codes "SHA2-256") then some (to_lower (trim_space value)) else none

abbrev pub dgst_entry : Bytes → Option Bytes
dgst_entry line = keyed (cut b'=' (trim_space line))

-- `ExpectedSHA256Dgst`
unfoldable pub expected_sha256_dgst : Bytes → Bytes → Result ChecksumError Bytes
unfolding first_digest trim_space cut equal split_on
expected_sha256_dgst dgst filename = first_digest dgst_entry (split_on b'\n' dgst)

-- The digest of what the file holds, where it can be read.
abbrev pub compared : (Bytes → Bytes) → Option Bytes → Bytes → Result ChecksumError (Unit {0})
compared sha256_hex none want = err unreadable
compared sha256_hex (some content) want =
    if equal (sha256_hex content) want then ok tt else err mismatch

-- `verifyFileSHA256`, with the hexadecimal form of SHA-256 as a parameter.
unfoldable pub verify_file_sha256 :
    (Bytes → Bytes)
    → (Bytes → Bytes → Result ChecksumError Bytes)
    → Bytes
    → Option Bytes
    → Bytes
    → Result ChecksumError (Unit {0})
unfolding equal
verify_file_sha256 sha256_hex expected path file checksums =
    expected checksums path >>= λ want. compared sha256_hex file want
