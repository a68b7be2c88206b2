-- ===== src/Checksum/Fields.antt =====
-- `strings.Fields` and `filepath.Base`, for internal/binary/checksum.go.
use cf_vpn.Prelude.{[], ◌∷◌, List, reverse, ◌==◌, if◌then◌else◌}
use cf_vpn.Text.{Bytes, codes}
use cf_vpn.Text.Trim.{is_space, is_space2, is_space3}

-- The word read so far, reversed, in front of the others.
abbrev flush : Bytes → List Bytes → List Bytes
flush [] words = words
flush (c ∷ w) words = reverse (c ∷ w) ∷ words

unfoldable pub fields : Bytes → Bytes → List Bytes
fields w [] = flush w []
fields w (a ∷ []) = if is_space a then flush w [] else flush (a ∷ w) []
fields w (a ∷ b ∷ []) =
    let next = fields [] (b ∷ []) in
    let more = fields (a ∷ w) (b ∷ []) in
    if is_space a then flush w next else if is_space2 a b then flush w [] else more
fields w (a ∷ b ∷ c ∷ s) =
    let next = fields [] (b ∷ c ∷ s) in
    let next2 = fields [] (c ∷ s) in
    let next3 = fields [] s in
    let more = fields (a ∷ w) (b ∷ c ∷ s) in
    if is_space a
    then flush w next
    else if is_space2 a b
    then flush w next2
    else if is_space3 a b c
    then flush w next3
    else more

-- A reversed path without the slashes at its end.
abbrev drop_slashes : Bytes → Bytes
drop_slashes [] = []
drop_slashes (c ∷ s) = let rest = drop_slashes s in if c == b'/' then rest else c ∷ s

abbrev until_slash : Bytes → Bytes
until_slash [] = []
until_slash (c ∷ s) = let rest = until_slash s in if c == b'/' then [] else c ∷ rest

abbrev or_root : Bytes → Bytes
or_root [] = codes "/"
or_root (c ∷ s) = c ∷ s

-- `filepath.Base`
unfoldable pub base : Bytes → Bytes
base [] = codes "."
base (c ∷ s) = or_root (reverse (until_slash (drop_slashes (reverse (c ∷ s)))))
