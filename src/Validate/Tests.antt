-- ===== src/Validate/Tests.antt =====
-- Tests of the checks, and each theorem at a concrete input.
use cf_vpn.Prelude.{◌≡◌, refl, ◌↔◌, length, ok, err, all, ◌||◌, ◌==◌, true}
use cf_vpn.Text.{codes, equal}
use cf_vpn.Text.Split.{split_on}
use cf_vpn.Text.Trim.{trim_space}
use cf_vpn.Regex.{matches}
use cf_vpn.Validate.{
  hostname, uuid, hex_id32, invalid_label, surrounding_space, is_label_byte, is_lower_hex, not_uuid,
}
use cf_vpn.Validate.Host.{hostname-ok_iff, IsHostname, hostname_bytes}
use cf_vpn.Validate.Id.{ids-ok_iff, IsUuid}

hostname_ok : hostname (codes "cdn-0a1b.example.com") ≡ ok tt
unfolding hostname trim_space split_on equal
hostname_ok = refl

hostname_newline : hostname (codes "a.com\nK=v") ≡ err invalid_label
unfolding hostname trim_space split_on equal
hostname_newline = refl

hostname_space : hostname (codes "a.com ") ≡ err surrounding_space
unfolding hostname trim_space split_on equal
hostname_space = refl

uuid_short : uuid (codes "0a1b2c3d-0000-0000-0000-00000000000") ≡ err not_uuid
unfolding uuid matches
uuid_short = refl

hostname-ok_iff_example :
    (hostname (codes "a.dev") ≡ ok tt → IsHostname (codes "a.dev"))
    × (IsHostname (codes "a.dev") → hostname (codes "a.dev") ≡ ok tt)
hostname-ok_iff_example = hostname-ok_iff (codes "a.dev")

hostname_bytes_example :
    all (λ c. is_label_byte c || c == b'.') (codes "cdn-0a1b.example.com") ≡ true
hostname_bytes_example = hostname_bytes (codes "cdn-0a1b.example.com") hostname_ok

ids-ok_iff_example :
    ((uuid (codes "0a1b2c3d-0000-0000-0000-0000000000fF") ≡ ok tt)
      ↔ IsUuid (codes "0a1b2c3d-0000-0000-0000-0000000000fF"))
    × ((hex_id32 (codes "0a1b2c3d-0000-0000-0000-0000000000fF") ≡ ok tt) ↔ (
        (all is_lower_hex (codes "0a1b2c3d-0000-0000-0000-0000000000fF") ≡ true)
        × (length (codes "0a1b2c3d-0000-0000-0000-0000000000fF") ≡ 32)))
ids-ok_iff_example = ids-ok_iff (codes "0a1b2c3d-0000-0000-0000-0000000000fF")
