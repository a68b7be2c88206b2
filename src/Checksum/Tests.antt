-- ===== src/Checksum/Tests.antt =====
-- A checksums file with one entry, and each theorem at it.
use cf_vpn.Prelude.{[], ◌∷◌, ◌++◌, some, ◌≡◌, refl, err}
use cf_vpn.Text.{Bytes, codes, equal}
use cf_vpn.Text.Trim.{trim_space}
use cf_vpn.Text.Split.{split_on, join_with}
use cf_vpn.Checksum.{no_entry, check_digest, first_digest, expected_sha256, verify_file_sha256}
use cf_vpn.Checksum.Fields.{fields, base}
use cf_vpn.Checksum.Sound.{IsDigestOf, verify_file_sha256-IsDigestOf}

abbrev digest : Bytes
digest = codes "0123456789abcdef0123456789abcdef0123456789abcdef0123456789abcdef"

abbrev upper : Bytes
upper = codes "0123456789ABCDEF0123456789abcdef0123456789abcdef0123456789abcdef"

abbrev checksums : Bytes
checksums = codes "x  y" ++ b'\n' ∷ (upper ++ codes " *dir/lego.tar.gz")

abbrev hashed : Bytes → Bytes
hashed content = digest

golden_fields : fields [] (codes " a  bc d ") ≡ codes "a" ∷ codes "bc" ∷ codes "d" ∷ []
unfolding fields
golden_fields = refl

golden_base : base (codes "/tmp/lego.tar.gz/") ≡ codes "lego.tar.gz"
unfolding base
golden_base = refl

missing_name :
    verify_file_sha256 hashed expected_sha256 (codes "/tmp/other") (some (codes "c")) checksums
    ≡ err no_entry
unfolding verify_file_sha256 expected_sha256 first_digest check_digest fields base trim_space
    split_on join_with equal
missing_name = refl

verify_file_sha256-IsDigestOf_example :
    (content : Bytes) × (some (codes "c") ≡ some content)
    × IsDigestOf (base (codes "/tmp/lego.tar.gz")) (split_on b'\n' checksums) (hashed content)
unfolding verify_file_sha256 expected_sha256 first_digest check_digest fields base trim_space
    split_on join_with equal
verify_file_sha256-IsDigestOf_example =
    verify_file_sha256-IsDigestOf hashed (codes "/tmp/lego.tar.gz") (some (codes "c")) checksums
      refl
