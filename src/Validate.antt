-- ===== src/Validate.antt =====
-- internal/validate/validate.go: the identifier checks at every trust boundary. An error carries
-- no text here, only which check refused the value.
pub mod Host
pub mod Id
mod Tests
use cf_vpn.Prelude.{
  ℕ, Bool, true, false, ◌&&◌, ◌||◌, not, List, [], ◌∷◌, ltb, ◌==◌, if◌then◌else◌, length, Result,
  ok, err, ◌>>=◌,
}
use cf_vpn.Text.{Bytes, equal, is_empty, within}
use cf_vpn.Text.Trim.{trim_space}
use cf_vpn.Text.Split.{split_on}
use cf_vpn.Regex.{
  Regex, one, repeat, optional, seq, up_to, unbounded, matches, is_alnum, is_hex, is_digit,
}

pub data Refusal : Type 0 where
  empty too_long surrounding_space invalid_label not_uuid not_hex_id : Refusal

abbrev pub Check : Type 0
Check = Result Refusal (Unit {0})

abbrev pub is_label_byte : ℕ → Bool
is_label_byte c = is_alnum c || c == b'-'

-- `^[A-Za-z0-9]([A-Za-z0-9-]{0,61}[A-Za-z0-9])?$`
abbrev pub host_label_re : Regex
host_label_re =
    seq (one is_alnum) (optional (seq (repeat is_label_byte 0 (up_to 61)) (one is_alnum)))

abbrev pub hex_run : ℕ → Regex
hex_run n = repeat is_hex n (up_to 0)

abbrev pub dash : Regex
dash = one (λ c. c == b'-')

-- `^[0-9a-fA-F]{8}-[0-9a-fA-F]{4}-[0-9a-fA-F]{4}-[0-9a-fA-F]{4}-[0-9a-fA-F]{12}$`
abbrev pub uuid_re : Regex
uuid_re = seq (hex_run 8) (
    seq dash (
      seq (hex_run 4)
        (seq dash (seq (hex_run 4) (seq dash (seq (hex_run 4) (seq dash (hex_run 12))))))))

abbrev pub is_lower_hex : ℕ → Bool
is_lower_hex c = is_digit c || within b'a' b'f' c

-- `^[0-9a-f]{32}$`
abbrev pub hex_id32_re : Regex
hex_id32_re = repeat is_lower_hex 32 (up_to 0)

-- The loop over the labels: the first one that the pattern refuses ends it.
unfoldable pub check_labels : List Bytes → Check
check_labels [] = ok tt
check_labels (label ∷ rest) =
    if not (matches host_label_re label) then err invalid_label else check_labels rest

unfoldable pub hostname : Bytes → Check
unfolding check_labels equal matches
hostname s =
    if is_empty s
    then err empty
    else if ltb 253 (length s)
    then err too_long
    else if not (equal s (trim_space s))
    then err surrounding_space
    else check_labels (split_on b'.' s)

unfoldable pub uuid : Bytes → Check
uuid s = if not (matches uuid_re s) then err not_uuid else ok tt

unfoldable pub hex_id32 : Bytes → Check
hex_id32 s = if not (matches hex_id32_re s) then err not_hex_id else ok tt
