-- ===== src/Hysteria/Rewrite.antt =====
-- internal/hysteria/hysteria.go: `replaceUserpass`, and `parseUsers` after it.
use mathlib.Core.Option.{some-injective}
use mathlib.Core.Path.{ap₂}
use cf_vpn.Prelude.{
  ℕ, ◌+◌, ◌-◌, Bool, true, false, ◌||◌, List, [], ◌∷◌, ◌++◌, Option, none, some, map, ◌≡◌, refl, ap,
  sym, ◌∙◌, arith, All, length, take, drop, take-length_append, drop-length_append, append_assoc,
  length-append,
}
use cf_vpn.Text.{Bytes, is_empty}
use cf_vpn.Text.Order.{IsDistinct, IsAscending-sort_by, sort_by-IsAscending, All-sort_by}
use cf_vpn.Text.Trim.{trim_space}
use cf_vpn.Hysteria.{
  User, name_of, sort_users, user_line, userpass_range, parse_lines, replaced, replace_lines,
}
use cf_vpn.Hysteria.Entries.{IsUser, indent_width-user_line, collect_users-user_line}
use cf_vpn.Hysteria.Block.{is_inner, find_block}

user_line-is_inner : (us : List User) → All (λ l. is_inner l ≡ true) (map user_line us)
user_line-is_inner [] = tt
user_line-is_inner (u ∷ us) = (inner u, user_line-is_inner us)
  where
    or_right : (b : Bool) → (b || true) ≡ true
    or_right true = refl
    or_right false = refl

    inner : (u : User) → is_inner (user_line u) ≡ true
    inner u = rw (indent_width-user_line u) (or_right (is_empty (trim_space (user_line u))))

-- What `replaceUserpass` does to the lines, in terms of the block that it finds.
pub record Rewrites (lines : List Bytes) (users : List User) (out : List Bytes) : Type 0 where
  pub before : List Bytes
  pub block : List Bytes
  pub rest : List Bytes
  pub whole : lines ≡ before ++ (block ++ rest)
  pub written : out ≡ before ++ (map user_line (sort_users users) ++ rest)
  pub range :
      userpass_range out
      ≡ some (length before, length before + length (map user_line (sort_users users)))

middle :
    (before block rest : List Bytes)
    → take (length block) (drop (length before) (before ++ (block ++ rest))) ≡ block
middle before block rest =
    ap (take (length block)) (drop-length_append before (block ++ rest))
    ∙ take-length_append block rest

drop_both :
    (before block rest : List Bytes)
    → drop (length before + length block) (before ++ (block ++ rest)) ≡ rest
drop_both before block rest =
    ap (λ n. drop n (before ++ (block ++ rest))) (sym (length-append before block))
    ∙ ap (drop (length (before ++ block))) (sym (append_assoc before block rest))
    ∙ drop-length_append (before ++ block) rest

pieces :
    (lines before block rest : List Bytes) (start end : ℕ)
    → lines ≡ before ++ (block ++ rest)
    → start ≡ length before
    → end ≡ length before + length block
    → (take start lines ≡ before) × (drop end lines ≡ rest)
pieces lines before block rest start end whole s e = (
  rw (whole, s) (take-length_append before (block ++ rest)),
  rw (whole, e) (drop_both before block rest),
)

pub replace_lines-Rewrites :
    (lines : List Bytes) (users : List User) (out : List Bytes)
    → replace_lines lines users ≡ some out
    → Rewrites lines users out
unfolding replace_lines
replace_lines-Rewrites lines users out h = go (userpass_range lines) refl h
  where
    go :
        (r : Option (ℕ × ℕ))
        → userpass_range lines ≡ r
        → replaced lines users r ≡ some out
        → Rewrites lines users out
    go none e k = absurd (cc)
    go (some (start, end)) e k =
        let f = find_block 0 false lines start end e in
        let at : start ≡ length f.before = omega (arith, f.starts) in
        let repl = map user_line (sort_users users) in
        let (front, back) =
          pieces lines f.before f.block f.rest start end f.whole at (omega (arith, f.ends)) in
        let out_eq : out ≡ f.before ++ (repl ++ f.rest) =
          sym (some-injective _ _ k) ∙ ap₂ (λ a b. a ++ (repl ++ b)) front back in
        record {
          before = f.before;
          block = f.block;
          rest = f.rest;
          whole = f.whole;
          written = out_eq;
          range =
              ap userpass_range out_eq
              ∙ f.again repl (user_line-is_inner (sort_users users))
              ∙ ap (λ (n : ℕ). some (n, n + length repl)) at;
        }

-- On lines, as `splitLines` gives them and before they are joined: where `replaceUserpass` finds
-- the block, the lines that it makes list the users that were set, in the order of their names,
-- whatever the other lines are, provided that the names are distinct and not empty and that names
-- and passwords are valid UTF-8. The statement is not about the bytes that are joined: a line of
-- 64 KiB or more is lost when these are split again.
pub parse-replace_lines :
    (lines : List Bytes) (users : List User) (out : List Bytes)
    → All IsUser users
    → IsDistinct name_of users
    → replace_lines lines users ≡ some out
    → parse_lines out ≡ sort_users users
unfolding parse_lines
parse-replace_lines lines users out valid distinct h =
    let r = replace_lines-Rewrites lines users out h in
    let us = sort_users users in
    let ls = map user_line us in
    let size : length r.before + length ls - length r.before ≡ length ls = omega arith in
    let block : take (length ls) (drop (length r.before) out) ≡ ls =
      ap (λ o. take (length ls) (drop (length r.before) o)) r.written ∙ middle r.before ls r.rest in
    rw (r.range) (
      rw size (
        rw block (
          rw (collect_users-user_line us (All-sort_by name_of IsUser users valid))
            (sort_by-IsAscending name_of us (IsAscending-sort_by name_of users distinct)))))
