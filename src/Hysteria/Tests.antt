-- ===== src/Hysteria/Tests.antt =====
-- A config on disk, and each theorem at an input.
use cf_vpn.Prelude.{true, List, [], ◌∷◌, some, ◌≡◌, refl}
use cf_vpn.Text.{Bytes, codes, equal, has_prefix}
use cf_vpn.Text.Order.{less, sort_by}
use cf_vpn.Text.Trim.{trim_space}
use cf_vpn.Text.Split.{split_on, join_with}
use cf_vpn.Text.Scan.{scan_lines}
use cf_vpn.Hysteria.{
  User, sort_users, range_from, block_length, collect_users, line_users, cut_entry_from, yaml_quote,
  yaml_unquote, parse_lines, replace_lines, parse_users, replace_userpass, user_line, indent_width,
  split_lines,
}
use cf_vpn.Text.Utf8.{rune_width, utf8_from}
use cf_vpn.Hysteria.Quote.{yaml_unquote-yaml_quote}
use cf_vpn.Hysteria.Rewrite.{parse-replace_lines}

abbrev user : Bytes → Bytes → User
user n p = record { name = n; password = p }

abbrev config : Bytes
config =
    codes "listen: :443\nauth:\n  type: userpass\n  userpass:\n    \"bob\": \"x\"\nmasquerade: a\n"

abbrev two : List User
two = user (codes "li:n") (codes "p\"w") ∷ user (codes "ann") (codes "q") ∷ []

abbrev rewritten : Bytes
rewritten =
    codes
      "listen: :443\nauth:\n  type: userpass\n  userpass:\n    \"ann\": \"q\"\n    \"li:n\": \"p\\\"w\"\nmasquerade: a\n"

parse_config : parse_users config ≡ user (codes "bob") (codes "x") ∷ []
unfolding parse_users parse_lines split_lines scan_lines split_on trim_space equal has_prefix
    indent_width range_from block_length collect_users line_users cut_entry_from yaml_unquote
    sort_by
parse_config = refl

replace_config : replace_userpass config two ≡ (rewritten, true)
unfolding replace_userpass replace_lines split_lines scan_lines split_on trim_space equal
    indent_width range_from block_length user_line yaml_quote sort_by less join_with
replace_config = refl

yaml_unquote-yaml_quote_example :
    yaml_unquote (yaml_quote (codes "a\"\\\n")) ≡ some (codes "a\"\\\n")
unfolding utf8_from rune_width
yaml_unquote-yaml_quote_example = yaml_unquote-yaml_quote (codes "a\"\\\n") refl

abbrev lines : List Bytes
lines =
    codes "auth:"
    ∷ codes "  type: userpass"
    ∷ codes "  userpass:"
    ∷ codes "    \"bob\": \"x\""
    ∷ codes "tls:"
    ∷ []

abbrev two_lines : List Bytes
two_lines =
    codes "auth:"
    ∷ codes "  type: userpass"
    ∷ codes "  userpass:"
    ∷ codes "    \"ann\": \"q\""
    ∷ codes "    \"li:n\": \"p\\\"w\""
    ∷ codes "tls:"
    ∷ []

replace_two : replace_lines lines two ≡ some two_lines
unfolding replace_lines trim_space equal indent_width range_from block_length user_line yaml_quote
    sort_by less
replace_two = refl

parse-replace_lines_example : parse_lines two_lines ≡ sort_users two
unfolding utf8_from rune_width equal
parse-replace_lines_example =
    parse-replace_lines lines two two_lines
      (
        record { name_utf8 = refl; password_utf8 = refl; named = refl },
        (record { name_utf8 = refl; password_utf8 = refl; named = refl }, tt),
      )
      ((refl, tt), (tt, tt)) replace_two
