-- ===== src/State/Loaded.antt =====
-- internal/state/store.go: what `Load` returns.
use cf_vpn.Prelude.{
  ℕ, ◌+◌, Bool, true, false, ◌||◌, List, [], ◌∷◌, ◌++◌, Option, none, some, ◌≡◌, ◌≢◌, refl, ap, sym,
  subst, ◌∙◌, inl, inr, All, Bool-cases, append_assoc, ok, ok-injective, >>=-eq-ok,
}
use cf_vpn.Text.{Bytes, equal, has_prefix, is_empty}
use cf_vpn.Text.Order.{less, sort_by, IsAscending}
use cf_vpn.Text.Trim.{trim_space, ends_space, ends_space_suffix, ends_space-trim_space}
use cf_vpn.Text.Split.{cut, cut-eq}
use cf_vpn.Text.Scan.{scan_lines}
use cf_vpn.Regex.{matches}
use cf_vpn.State.{
  Entry, Env, env_key_re, load_parts, load_line, load_lines, after_scan, load, save, validate_env,
  index_break, render_keys,
}
use cf_vpn.Dict.{key_of, put}
use cf_vpn.Dict.Laws.{put-IsAscending}

-- What a loaded map holds: checked keys, values with no space at their end, ascending order.
pub record IsLoaded (m : Env) : Type 0 where
  pub ascending : IsAscending key_of m
  pub keys : All (λ (e : Entry). matches env_key_re e.0 ≡ true) m
  pub clean : All (λ (e : Entry). ends_space e.1 ≡ false) m

All-put : (P : Entry → Type 0) (k v : Bytes) (m : Env) → P (k, v) → All P m → All P (put k v m)
unfolding put
All-put P k v [] h hm = (h, tt)
All-put P k v ((j, w) ∷ m) h hm = elim (Bool-cases (equal j k)) [
  | inl same ↦ rw same (h, hm.1)
  | inr other ↦ elim (Bool-cases (less k j)) [
    | inl lower ↦ rw (other, lower) (h, hm)
    | inr higher ↦ rw (other, higher) (hm.0, All-put P k v m h hm.1)
  ]
]

-- The value of a line that ends with no space ends with none.
abbrev CleanCut : Option (Bytes × Bytes) → Type 0
CleanCut none = Unit {0}
CleanCut (some (k, v)) = ends_space v ≡ false

CleanCut-cut : (c : ℕ) (line : Bytes) → ends_space line ≡ false → CleanCut (cut c line)
CleanCut-cut c line h = go (cut c line) refl
  where
    go : (o : Option (Bytes × Bytes)) → cut c line ≡ o → CleanCut o
    go none e = tt
    go (some (k, v)) e =
        let whole = cut-eq c line k v e in
        ends_space_suffix (k ++ c ∷ []) v
          (subst (λ u. ends_space u ≡ false) (whole ∙ sym (append_assoc k (c ∷ []) v)) h)

load_parts-IsLoaded :
    (n : ℕ) (line : Bytes) (o : Option (Bytes × Bytes)) (m m' : Env)
    → CleanCut o
    → IsLoaded m
    → load_parts n line o m ≡ ok m'
    → IsLoaded m'
unfolding load_parts
load_parts-IsLoaded n line none m m' clean l h = absurd (cc)
load_parts-IsLoaded n line (some (k, v)) m m' clean l h = elim (Bool-cases (matches env_key_re k)) [
  | inl good ↦ subst IsLoaded (ok-injective (rw good at h)) (record {
    ascending = put-IsAscending k v m l.ascending;
    keys = All-put (λ e. matches env_key_re e.0 ≡ true) k v m good l.keys;
    clean = All-put (λ e. ends_space e.1 ≡ false) k v m clean l.clean;
  })
  | inr bad ↦ absurd (cc (rw bad at h))
]

load_line-IsLoaded :
    (n : ℕ) (text : Bytes) (m m' : Env) → IsLoaded m → load_line n text m ≡ ok m' → IsLoaded m'
unfolding load_line
load_line-IsLoaded n text m m' l h =
    elim (Bool-cases (is_empty (trim_space text) || has_prefix (trim_space text) (b'#' ∷ []))) [
      | inl skip ↦ subst IsLoaded (ok-injective (rw skip at h)) l
      | inr line ↦
          load_parts-IsLoaded n (trim_space text) (cut b'=' (trim_space text)) m m'
            (CleanCut-cut b'=' (trim_space text) (ends_space-trim_space text)) l (rw line at h)
    ]

load_lines-IsLoaded :
    (n : ℕ) (lines : List Bytes) (m m' : Env)
    → IsLoaded m
    → load_lines n lines m ≡ ok m'
    → IsLoaded m'
unfolding load_lines
load_lines-IsLoaded n [] m m' l h = subst IsLoaded (ok-injective h) l
load_lines-IsLoaded n (text ∷ rest) m m' l h =
    let (q, first, later) =
      >>=-eq-ok (load_line (n + 1) text m) (λ q. load_lines (n + 1) rest q) h in
    load_lines-IsLoaded (n + 1) rest q m' (load_line-IsLoaded (n + 1) text m q l first) later

-- Whatever `Load` returns has keys of the checked shape in ascending order, and no value that
-- ends with a space.
pub load-IsLoaded : (b : Bytes) (m : Env) → load b ≡ ok m → IsLoaded m
unfolding load
load-IsLoaded b m h =
    let (q, read, last) =
      >>=-eq-ok (load_lines 0 (scan_lines b).0 []) (λ q. after_scan (scan_lines b).1 q) h in
    let same : q ≡ m = scanned (scan_lines b).1 q last in
    load_lines-IsLoaded 0 (scan_lines b).0 [] m (record { ascending = tt; keys = tt; clean = tt })
      (read ∙ ap ok same)
  where
    scanned : (failed : Bool) (q : Env) → after_scan failed q ≡ ok m → q ≡ m
    scanned true q e = absurd (cc)
    scanned false q e = cc

not_loaded : (k v b : Bytes) → ends_space v ≡ true → load b ≢ ok ((k, v) ∷ [])
not_loaded k v b space back = cc (space, (load-IsLoaded b ((k, v) ∷ []) back).clean.0)

-- For a key of the checked shape and a value without a line break that ends with a space:
-- `SaveAtomic` accepts and writes the single entry of these, and `Load` of what was written does not
-- return that entry.
pub trailing_space_lost :
    (k v : Bytes)
    → matches env_key_re k ≡ true
    → index_break 0 v ≡ none
    → ends_space v ≡ true
    → (b : Bytes) × (save ((k, v) ∷ []) ≡ ok b) × (load b ≢ ok ((k, v) ∷ []))
unfolding save validate_env
trailing_space_lost k v key unbroken space = (
  render_keys ((k, v) ∷ []) (sort_by (λ j. j) (k ∷ [])),
  rw (key, unbroken) refl,
  not_loaded k v (render_keys ((k, v) ∷ []) (sort_by (λ j. j) (k ∷ []))) space,
)
