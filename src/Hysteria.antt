-- ===== src/Hysteria.antt =====
-- internal/hysteria/hysteria.go: the users in the `auth.userpass` block of a hysteria config, which
-- is read and rewritten line by line.
pub mod Quote
pub mod Entries
pub mod Block
pub mod Rewrite
mod Tests
use cf_vpn.Prelude.{
  ℕ, zero, suc, ◌+◌, ◌-◌, Bool, true, false, not, ◌&&◌, ◌||◌, List, [], ◌∷◌, ◌++◌, Option, none,
  some, map, ltb, leb, ◌==◌, if◌then◌else◌, length, take, drop, Result, ok, err,
}
use cf_vpn.Text.{Bytes, codes, equal, is_empty, has_prefix}
use cf_vpn.Text.Order.{sort_by}
use cf_vpn.Text.Utf8.{rune_width}
use cf_vpn.Text.Trim.{trim_space}
use cf_vpn.Text.Split.{last_is, join_with}
use cf_vpn.Text.Scan.{scan_lines}

pub record User : Type 0 where
  pub name : Bytes
  pub password : Bytes

abbrev pub name_of : User → Bytes
name_of u = u.name

-- `sort.Slice` by name. The order of users that share a name is not specified in Go.
abbrev pub sort_users : List User → List User
sort_users = sort_by name_of

-- The cases of the `switch` on a rune of one byte.
unfoldable pub quote_byte : ℕ → Bytes
quote_byte c =
    if c == b'\\'
    then codes "\\\\"
    else if c == b'"'
    then codes "\\\""
    else if c == b'\n'
    then codes "\\n"
    else if c == b'\r'
    then codes "\\r"
    else if c == b'\t'
    then codes "\\t"
    else c ∷ []

-- The loop over the runes: `skip` bytes of the current rune are still to be copied.
pub quote_runes : ℕ → Bytes → Bytes
unfolding quote_byte rune_width
quote_runes skip [] = []
quote_runes (suc skip) (c ∷ s) = c ∷ quote_runes skip s
quote_runes zero (c ∷ s) =
    let width = rune_width (c ∷ s) in
    let after = quote_runes zero s in
    let inside = quote_runes (width - 1) s in
    if ltb c 0x80
    then quote_byte c ++ after
    else if width == 0
    then 0xef ∷ 0xbf ∷ 0xbd ∷ after
    else c ∷ inside

unfoldable pub yaml_quote : Bytes → Bytes
unfolding quote_runes
yaml_quote s = b'"' ∷ quote_runes 0 s ++ (b'"' ∷ [])

-- The byte that an escape stands for.
abbrev pub unescape : ℕ → Option ℕ
unescape c =
    if c == b'\\'
    then some b'\\'
    else if c == b'"'
    then some b'"'
    else if c == b'n'
    then some b'\n'
    else if c == b'r'
    then some b'\r'
    else if c == b't'
    then some b'\t'
    else none

abbrev pub prepend : Option ℕ → Option Bytes → Option Bytes
prepend (some c) (some s) = some (c ∷ s)
prepend _ _ = none

-- The loop from `s[1]` up to the byte before the last.
pub unquote_bytes : Bytes → Option Bytes
unquote_bytes [] = none
unquote_bytes (c ∷ []) = some []
unquote_bytes (c ∷ d ∷ []) = if c == b'\\' then none else some (c ∷ [])
unquote_bytes (c ∷ d ∷ e ∷ s) =
    let plain = unquote_bytes (d ∷ e ∷ s) in
    let escaped = unquote_bytes (e ∷ s) in
    if c == b'\\' then prepend (unescape d) escaped else prepend (some c) plain

pub yaml_unquote : Bytes → Option Bytes
unfolding unquote_bytes
yaml_unquote [] = none
yaml_unquote (c ∷ []) = none
yaml_unquote (c ∷ d ∷ s) =
    if not (c == b'"') || not (last_is (λ x. x == b'"') (d ∷ s))
    then none
    else unquote_bytes (d ∷ s)

abbrev pub extend : ℕ → Option (Bytes × Bytes) → Option (Bytes × Bytes)
extend c none = none
extend c (some (a, b)) = some (c ∷ a, b)

-- The loop over `s`, with its two flags.
pub cut_entry_from : Bool → Bool → Bytes → Option (Bytes × Bytes)
cut_entry_from in_quote escaped [] = none
cut_entry_from in_quote true (c ∷ s) = extend c (cut_entry_from in_quote false s)
cut_entry_from true false (c ∷ s) =
    if c == b'\\'
    then extend c (cut_entry_from true true s)
    else extend c (cut_entry_from (not (c == b'"')) false s)
cut_entry_from false false (c ∷ s) =
    let rest = extend c (cut_entry_from (c == b'"') false s) in
    if c == b':' then some ([], s) else rest

abbrev pub cut_userpass_entry : Bytes → Option (Bytes × Bytes)
cut_userpass_entry = cut_entry_from false false

-- `len(s) - len(strings.TrimLeft(s, " "))`
unfoldable pub indent_width : Bytes → ℕ
indent_width [] = 0
indent_width (c ∷ s) = let rest = indent_width s in if c == b' ' then rest + 1 else 0

abbrev has_colon : Bytes → Bool
has_colon = last_is (λ c. c == b':')

-- How far `end` runs from the line behind `userpass:`.
unfoldable pub block_length : List Bytes → ℕ
block_length [] = 0
block_length (line ∷ lines) =
    let rest = block_length lines + 1 in
    if is_empty (trim_space line) then rest else if leb (indent_width line) 2 then 0 else rest

unfoldable pub range_from : ℕ → Bool → List Bytes → Option (ℕ × ℕ)
range_from i in_auth [] = none
range_from i in_auth (line ∷ lines) =
    let trimmed = trim_space line in
    let indent = indent_width line in
    let at_key = range_from (i + 1) (equal trimmed (codes "auth:")) lines in
    let other = range_from (i + 1) in_auth lines in
    if indent == 0 && has_colon trimmed
    then at_key
    else if in_auth && indent == 2 && equal trimmed (codes "userpass:")
    then some (i + 1, i + 1 + block_length lines)
    else other

-- The lines of the block, from `start` up to `end`; `none` stands for -1, -1.
abbrev pub userpass_range : List Bytes → Option (ℕ × ℕ)
userpass_range = range_from 0 false

abbrev unquoted_or : Bytes → Option Bytes → Bytes
unquoted_or s none = s
unquoted_or s (some t) = t

abbrev entry_users : Option (Bytes × Bytes) → List User
entry_users none = []
entry_users (some (raw_name, raw_password)) =
    let name = unquoted_or (trim_space raw_name) (yaml_unquote (trim_space raw_name)) in
    let password = unquoted_or (trim_space raw_password) (yaml_unquote (trim_space raw_password)) in
    if is_empty name then [] else (record { name = name; password = password }) ∷ []

-- One round of the loop: the user of the line, if it holds one.
pub line_users : Bytes → List User
line_users line =
    if not (indent_width line == 4)
    then []
    else let trimmed = trim_space line in
      if is_empty trimmed || has_prefix trimmed (codes "#")
      then []
      else entry_users (cut_userpass_entry trimmed)

pub collect_users : List Bytes → List User
collect_users [] = []
collect_users (line ∷ lines) = line_users line ++ collect_users lines

-- `parseUsers` on the lines of the config.
abbrev users_in : List Bytes → Option (ℕ × ℕ) → List User
users_in lines none = []
users_in lines (some (start, end)) =
    sort_users (collect_users (take (end - start) (drop start lines)))

unfoldable pub parse_lines : List Bytes → List User
parse_lines lines = users_in lines (userpass_range lines)

unfoldable pub user_line : User → Bytes
user_line u = codes "    " ++ (yaml_quote u.name ++ (codes ": " ++ yaml_quote u.password))

-- `replaceUserpass` on the lines of the config.
abbrev replaced : List Bytes → List User → Option (ℕ × ℕ) → Option (List Bytes)
replaced lines users none = none
replaced lines users (some (start, end)) =
    some (take start lines ++ (map user_line (sort_users users) ++ drop end lines))

unfoldable pub replace_lines : List Bytes → List User → Option (List Bytes)
replace_lines lines users = replaced lines users (userpass_range lines)

-- `bytes.TrimSuffix(body, "\n")`
abbrev is_newline : ℕ → Bool
is_newline c = c == b'\n'

unfoldable pub trim_newline : Bytes → Bytes
trim_newline body = if last_is is_newline body then take (length body - 1) body else body

-- The scanner's error is not looked at: the lines behind one that is too long are lost.
unfoldable pub split_lines : Bytes → List Bytes
unfolding trim_newline
split_lines body = if is_empty (trim_newline body) then [] else (scan_lines (trim_newline body)).0

abbrev trailing_newline : Bytes → Bytes
trailing_newline body = if last_is is_newline body then b'\n' ∷ [] else []

unfoldable pub parse_users : Bytes → List User
parse_users body = parse_lines (split_lines body)

abbrev joined : Bytes → Option (List Bytes) → Bytes × Bool
joined body none = (body, false)
joined body (some lines) = (join_with (codes "\n") lines ++ trailing_newline body, true)

unfoldable pub replace_userpass : Bytes → List User → Bytes × Bool
replace_userpass body users = joined body (replace_lines (split_lines body) users)
