-- ===== src/Text/Scan.antt =====
-- `bufio.Scanner` over lines: a line of 65536 bytes or more stops it with an error.
use cf_vpn.Prelude.{
  ℕ, ◌-◌, ◌<◌, Bool, true, false, List, [], ◌∷◌, ◌++◌, ◌≡◌, refl, ap, ◌∙◌, inl, inr, subst, arith,
  leb, ◌==◌, if◌then◌else◌, length, take, All, Bool-cases,
}
use cf_vpn.Text.{Bytes, is_empty}
use cf_vpn.Text.Trim.{ends_space, ends_space-snoc}
use cf_vpn.Text.Split.{split_on, split_on-cons, split_on-append, free_of, last_is, last_is-front}

abbrev pub max_token : ℕ
max_token = 65536

-- The line without a `\r` at its end.
pub drop_cr : Bytes → Bytes
drop_cr w = if last_is (λ c. c == b'\r') w then take (length w - 1) w else w

-- The lines, and whether the scanner gave up before the end. No line follows the last `\n`.
pub scan_pieces : List Bytes → List Bytes × Bool
scan_pieces [] = ([], false)
scan_pieces (w ∷ []) =
    if is_empty w
    then ([], false)
    else if leb max_token (length w)
    then ([], true)
    else (drop_cr w ∷ [], false)
scan_pieces (w ∷ v ∷ ws) =
    let rest = scan_pieces (v ∷ ws) in
    if leb max_token (length w) then ([], true) else (drop_cr w ∷ rest.0, rest.1)

unfoldable pub scan_lines : Bytes → List Bytes × Bool
unfolding scan_pieces drop_cr
scan_lines s = scan_pieces (split_on b'\n' s)

-- A line that a writer may put out: short, with no line break and no space at its end.
pub record IsLine (w : Bytes) : Type 0 where
  pub whole : free_of b'\n' w ≡ true
  pub clean : ends_space w ≡ false
  pub short : length w < max_token

-- Every line with `\n` behind it.
abbrev pub unlines : List Bytes → Bytes
unlines [] = []
unlines (w ∷ ws) = w ++ (b'\n' ∷ unlines ws)

drop_cr_none : (w : Bytes) → ends_space w ≡ false → drop_cr w ≡ w
unfolding drop_cr
drop_cr_none w h = elim (Bool-cases (last_is (λ c. c == b'\r') w)) [
  | inl hit ↦
      let (q, c, e, hc) = last_is-front (λ c. c == b'\r') w hit in
      let space = ends_space-snoc q c (subst (λ u. ends_space u ≡ false) e h) in
      absurd (ground arith)
  | inr miss ↦ rw miss
]

scan_pieces-line :
    (w v : Bytes) (vs pieces : List Bytes)
    → pieces ≡ v ∷ vs
    → IsLine w
    → scan_pieces (w ∷ pieces) ≡ (w ∷ (scan_pieces pieces).0, (scan_pieces pieces).1)
unfolding scan_pieces
scan_pieces-line w v vs pieces e h = rw e (rw (drop_cr_none w h.clean) (ground (arith, h.short)))

-- What a writer puts out line by line is scanned as those lines.
pub scan_lines-unlines : (ws : List Bytes) → All IsLine ws → scan_lines (unlines ws) ≡ (ws, false)
unfolding scan_lines
scan_lines-unlines [] h = unfold split_on in refl
scan_lines-unlines (w ∷ ws) h =
    let (v, vs, e) = split_on-cons b'\n' (unlines ws) in
    rw (split_on-append b'\n' w (unlines ws) h.0.whole) (
      scan_pieces-line w v vs (split_on b'\n' (unlines ws)) e h.0
      ∙ ap (λ (r : List Bytes × Bool). (w ∷ r.0, r.1)) (scan_lines-unlines ws h.1))
