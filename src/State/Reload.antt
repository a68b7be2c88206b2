-- ===== src/State/Reload.antt =====
-- internal/state/store.go: `Load` after `SaveAtomic`.
use cf_vpn.Prelude.{
  ℕ, ◌+◌, ◌<◌, Bool, true, false, not, ◌||◌, [], ◌∷◌, ◌++◌, none, map, ◌≡◌, refl, ap, sym, subst,
  ◌∙◌, inl, inr, arith, ◌==◌, length, all, All, ==_iff, Bool-cases, &&_parts, append_assoc,
  append-nil, all-append, Result, ok, >>=-eq-ok,
}
use cf_vpn.Text.{Bytes, has_prefix, is_empty}
use cf_vpn.Text.Order.{sort_by, sort_by-IsAscending, IsAscending, IsAscending-map}
use cf_vpn.Text.Trim.{
  trim_space, is_solid, ends_space, trim_space_none, starts_space_solid, ends_space_append,
}
use cf_vpn.Text.Split.{cut-append}
use cf_vpn.Text.Scan.{IsLine, max_token, unlines, scan_lines-unlines}
use cf_vpn.Regex.{matches, is_letter, is_alnum}
use cf_vpn.Regex.Language.{matches→Lang}
use cf_vpn.State.{
  Entry, Env, EnvError, get, env_key_re, load_parts, load_line, load_lines, load, index_break,
  validate_env, render_keys, save,
}
use cf_vpn.Dict.{key_of, put}
use cf_vpn.Dict.Laws.{put-snoc, lookup-append}

abbrev is_key_byte : ℕ → Bool
is_key_byte c = is_alnum c || c == b'_'

-- The line of one entry.
abbrev pub line_of : Entry → Bytes
line_of e = e.0 ++ (b'=' ∷ e.1)

-- What `ValidateEnv` checks of one entry.
pub record IsEntry (e : Entry) : Type 0 where
  pub key : matches env_key_re e.0 ≡ true
  pub value : index_break 0 e.1 ≡ none

-- What it does not check: the value ends with no space, and the line fits the scanner.
pub record IsStorable (e : Entry) : Type 0 where
  pub clean : ends_space e.1 ≡ false
  pub short : length (line_of e) < max_token

pub validate_env→All : (m : Env) → validate_env m ≡ ok tt → All IsEntry m
unfolding validate_env
validate_env→All [] h = tt
validate_env→All ((k, v) ∷ m) h =
    (record { key = ground arith; value = ground arith }, validate_env→All m (ground arith))

-- A key is a first byte that is a letter or an underscore, and key bytes.
key_parts :
    (k : Bytes)
    → matches env_key_re k ≡ true
    → (c : ℕ) × (r : Bytes) × (k ≡ c ∷ r)
      × (is_solid c ≡ true)
      × ((c == b'#') ≡ false)
      × (all is_key_byte k ≡ true)
key_parts k h =
    let (a, r, e, (c, hc, ea), (hr, _)) = matches→Lang env_key_re k h in
    let e' = e ∙ ap (λ u. u ++ r) ea in
    (
      c,
      r,
      e',
      ground arith,
      ground arith,
      subst (λ u. all is_key_byte u ≡ true) (sym e') (rw (key_byte c hc) hr),
    )
  where
    key_byte : (c : ℕ) → (is_letter c || c == b'_') ≡ true → is_key_byte c ≡ true
    key_byte c h = ground arith

all_key_other :
    (b : ℕ) (k : Bytes)
    → is_key_byte b ≡ false
    → all is_key_byte k ≡ true
    → all (λ c. not (c == b)) k ≡ true
all_key_other b [] n h = refl
all_key_other b (c ∷ k) n h =
    let (hc, hk) = &&_parts (is_key_byte c) (all is_key_byte k) h in
    rw (differs hc) (all_key_other b k n hk)
  where
    differs : is_key_byte c ≡ true → not (c == b) ≡ true
    differs hc = elim (Bool-cases (c == b)) [
      | inl same ↦ absurd (cc (n, hc, ap is_key_byte ((==_iff c b).0 same)))
      | inr other ↦ rw other
    ]

all_value : (i : ℕ) (v : Bytes) → index_break i v ≡ none → all (λ c. not (c == b'\n')) v ≡ true
unfolding index_break
all_value i [] h = refl
all_value i (c ∷ v) h = ground (arith, all_value (i + 1) v)

module _ (k v : Bytes) (h : IsEntry (k, v)) (clean : ends_space v ≡ false) where
  line_of-trim : trim_space (line_of (k, v)) ≡ line_of (k, v)
  line_of-trim =
      let (c, r, e, solid, _, _) = key_parts k h.key in
      trim_space_none (line_of (k, v)) (rw e (starts_space_solid true c (r ++ (b'=' ∷ v)) solid))
        (ends_space_append k b'=' v refl clean)

  line_of-IsLine : length (line_of (k, v)) < max_token → IsLine (line_of (k, v))
  line_of-IsLine short =
      let (c, r, e, _, _, bytes) = key_parts k h.key in
      record {
        whole =
            all-append (λ b. not (b == b'\n')) k (b'=' ∷ v)
            ∙ (rw (all_key_other b'\n' k refl bytes) (all_value 0 v h.value));
        clean = ends_space_append k b'=' v refl clean;
        short = short;
      }

  -- The line of a checked entry is read as that entry.
  load_line-line_of : (n : ℕ) (m : Env) → load_line n (line_of (k, v)) m ≡ ok (put k v m)
  unfolding load_line load_parts
  load_line-line_of n m =
      let (c, r, e, _, other, bytes) = key_parts k h.key in
      let first : has_prefix (line_of (k, v)) (b'#' ∷ []) ≡ false =
        rw e (unfold has_prefix in rw other) in
      let some_text : is_empty (line_of (k, v)) ≡ false = rw e in
      rw line_of-trim (
        rw (some_text, first)
          (rw (cut-append b'=' k v (all_key_other b'=' k refl bytes)) (rw (h.key))))

load_lines-line_of :
    (n : ℕ) (m acc : Env)
    → IsAscending key_of (acc ++ m)
    → All IsEntry m
    → All IsStorable m
    → load_lines n (map line_of m) acc ≡ ok (acc ++ m)
unfolding load_lines
load_lines-line_of n [] acc up h s = rw append-nil
load_lines-line_of n ((k, v) ∷ m) acc up h s =
    rw (load_line-line_of k v h.0 s.0.clean (n + 1) acc) (
      rw (put-snoc acc k v m up) (
        load_lines-line_of (n + 1) m (acc ++ (k, v) ∷ [])
          (subst (IsAscending key_of) (sym (append_assoc acc ((k, v) ∷ []) m)) up) h.1 s.1
        ∙ ap ok (append_assoc acc ((k, v) ∷ []) m)))

get-append :
    (acc : Env) (k v : Bytes) (m : Env)
    → IsAscending key_of (acc ++ (k, v) ∷ m)
    → get (acc ++ (k, v) ∷ m) k ≡ v
unfolding get
get-append acc k v m up = rw (lookup-append acc k v m up, get)

render_keys-unlines :
    (acc m : Env)
    → IsAscending key_of (acc ++ m)
    → render_keys (acc ++ m) (map key_of m) ≡ unlines (map line_of m)
unfolding render_keys
render_keys-unlines acc [] up = refl
render_keys-unlines acc ((k, v) ∷ m) up =
    let shift = append_assoc acc ((k, v) ∷ []) m in
    let rest : render_keys (acc ++ (k, v) ∷ m) (map key_of m) ≡ unlines (map line_of m) =
      subst (λ e. render_keys e (map key_of m) ≡ unlines (map line_of m)) shift
        (render_keys-unlines (acc ++ (k, v) ∷ []) m (subst (IsAscending key_of) (sym shift) up)) in
    rw (get-append acc k v m up) (rw rest (sym (append_assoc k (b'=' ∷ v) _)))

-- `SaveAtomic` writes only what `ValidateEnv` accepts, one line for each entry, by ascending key.
pub save-ok :
    (m : Env) (b : Bytes)
    → IsAscending key_of m
    → save m ≡ ok b
    → All IsEntry m × (b ≡ unlines (map line_of m))
unfolding save
save-ok m b up h =
    let (_, valid, written) =
      >>=-eq-ok (validate_env m) (λ _. ok (render_keys m (sort_by (λ k. k) (map key_of m)))) h in
    let sorted = sort_by-IsAscending (λ k. k) (map key_of m) (IsAscending-map key_of m up) in
    (
      validate_env→All m valid,
      ground_ok written ∙ ap (render_keys m) sorted ∙ render_keys-unlines [] m up,
    )
  where
    ground_ok : {x : Bytes} → ◌≡◌ {A = Result EnvError Bytes} (ok x) (ok b) → b ≡ x
    ground_ok e = cc

lines-IsLine : (m : Env) → All IsEntry m → All IsStorable m → All IsLine (map line_of m)
lines-IsLine [] h s = tt
lines-IsLine ((k, v) ∷ m) h s = (line_of-IsLine k v h.0 s.0.clean s.0.short, lines-IsLine m h.1 s.1)

-- For a map in ascending order of its keys: what `SaveAtomic` writes is loaded as that map,
-- provided that no value ends with a space and that no line has 65536 bytes or more.
pub load-save :
    (m : Env) (b : Bytes) → IsAscending key_of m → All IsStorable m → save m ≡ ok b → load b ≡ ok m
unfolding load
load-save m b up storable saved =
    let (valid, written) = save-ok m b up saved in
    rw written (
      rw (scan_lines-unlines (map line_of m) (lines-IsLine m valid storable))
        (rw (load_lines-line_of 0 m [] up valid storable)))
