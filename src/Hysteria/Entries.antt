-- ===== src/Hysteria/Entries.antt =====
-- internal/hysteria/hysteria.go: the line that `replaceUserpass` writes for a user, in
-- `parseUsers`.
use cf_vpn.Prelude.{
  true, false, not, ◌||◌, List, [], ◌∷◌, ◌++◌, map, ◌≡◌, refl, ap, subst, ◌∙◌, ◌==◌, All,
  all-append, append_assoc,
}
use cf_vpn.Text.{Bytes, codes, is_empty, has_prefix}
use cf_vpn.Text.Trim.{
  trim_space, trim_space_none, trim_space_space, ends_space, starts_space_solid, ends_space_solid,
}
use cf_vpn.Text.Split.{free_of}
use cf_vpn.Text.Utf8.{is_utf8}
use cf_vpn.Hysteria.{
  User, quote_runes, yaml_quote, cut_userpass_entry, indent_width, entry_users, line_users,
  collect_users, user_line,
}
use cf_vpn.Hysteria.Quote.{
  yaml_unquote-yaml_quote, cut_userpass_entry-yaml_quote, free_of-yaml_quote,
}

-- A user that the config can hold: valid UTF-8 throughout, and a name.
pub record IsUser (u : User) : Type 0 where
  pub name_utf8 : is_utf8 u.name ≡ true
  pub password_utf8 : is_utf8 u.password ≡ true
  pub named : is_empty u.name ≡ false

-- The part of a quote in front of its last quotation mark.
abbrev open_quote : Bytes → Bytes
open_quote s = b'"' ∷ quote_runes 0 s

abbrev rest_of : User → Bytes
rest_of u = yaml_quote u.name ++ (codes ": " ++ yaml_quote u.password)

trim_space-yaml_quote : (s : Bytes) → trim_space (yaml_quote s) ≡ yaml_quote s
trim_space-yaml_quote s =
    trim_space_none (yaml_quote s) (unfold yaml_quote in starts_space_solid true b'"' _ refl)
      (unfold yaml_quote in ends_space_solid (open_quote s) b'"' refl)

rest_of-trim : (u : User) → trim_space (rest_of u) ≡ rest_of u
rest_of-trim u =
    trim_space_none (rest_of u) (unfold yaml_quote in starts_space_solid true b'"' _ refl) (
      subst (λ v. ends_space v ≡ false) shape
        (ends_space_solid (yaml_quote u.name ++ (codes ": " ++ open_quote u.password)) b'"' refl))
  where
    shape : (yaml_quote u.name ++ (codes ": " ++ open_quote u.password)) ++ (b'"' ∷ []) ≡ rest_of u
    shape =
        append_assoc (yaml_quote u.name) (codes ": " ++ open_quote u.password) (b'"' ∷ [])
        ∙ ap (◌++◌ (yaml_quote u.name)) (unfold yaml_quote in refl)

pub trim_space-user_line : (u : User) → trim_space (user_line u) ≡ rest_of u
unfolding user_line
trim_space-user_line u =
    trim_space_space b' ' _ refl
    ∙ trim_space_space b' ' _ refl
    ∙ trim_space_space b' ' _ refl
    ∙ trim_space_space b' ' _ refl
    ∙ rest_of-trim u

pub indent_width-user_line : (u : User) → indent_width (user_line u) ≡ 4
unfolding user_line indent_width yaml_quote
indent_width-user_line u = refl

entry_users-user : (u : User) → IsUser u → entry_users (cut_userpass_entry (rest_of u)) ≡ u ∷ []
entry_users-user u h =
    rw (cut_userpass_entry-yaml_quote u.name (b' ' ∷ yaml_quote u.password) h.name_utf8) (
      rw (trim_space-yaml_quote u.name) (
        rw (trim_space_space b' ' (yaml_quote u.password) refl) (
          rw (trim_space-yaml_quote u.password) (
            rw (yaml_unquote-yaml_quote u.name h.name_utf8)
              (rw (yaml_unquote-yaml_quote u.password h.password_utf8) (rw (h.named)))))))

pub line_users-user_line : (u : User) → IsUser u → line_users (user_line u) ≡ u ∷ []
unfolding line_users
line_users-user_line u h =
    rw (indent_width-user_line u)
      (rw (trim_space-user_line u) (rw (quote_front u) (entry_users-user u h)))
  where
    quote_front : (u : User) → (is_empty (rest_of u) || has_prefix (rest_of u) (codes "#")) ≡ false
    quote_front u = unfold yaml_quote has_prefix in refl

pub collect_users-user_line :
    (us : List User) → All IsUser us → collect_users (map user_line us) ≡ us
unfolding collect_users
collect_users-user_line [] h = refl
collect_users-user_line (u ∷ us) h =
    rw (line_users-user_line u h.0) (ap (◌∷◌ u) (collect_users-user_line us h.1))

pub free_of-user_line : (u : User) → IsUser u → free_of b'\n' (user_line u) ≡ true
unfolding user_line
free_of-user_line u h =
    all-append (λ b. not (b == b'\n')) (yaml_quote u.name) (codes ": " ++ yaml_quote u.password)
    ∙ rw (free_of-yaml_quote u.name h.name_utf8) (free_of-yaml_quote u.password h.password_utf8)
