-- ===== src/State.antt =====
-- internal/state/store.go: `Load`, `ValidateEnv` and `SaveAtomic`, on the contents of the env file
-- of a node. A Go map is the list of its entries in ascending order of their keys.
pub mod Reload
pub mod Loaded
mod Tests
use cf_vpn.Prelude.{
  ℕ, ◌+◌, Bool, true, false, ◌&&◌, ◌||◌, not, List, [], ◌∷◌, ◌++◌, Option, none, some, map, ◌==◌,
  if◌then◌else◌, Result, ok, err, ◌>>=◌,
}
use cf_vpn.Text.{Bytes, codes, equal, is_empty, has_prefix}
use cf_vpn.Text.Order.{less, sort_by, IsAscending}
use cf_vpn.Text.Trim.{trim_space}
use cf_vpn.Text.Split.{cut}
use cf_vpn.Text.Scan.{scan_lines}
use cf_vpn.Dict.{Dict, key_of, lookup, put}
use cf_vpn.Regex.{Regex, one, repeat, seq, unbounded, matches, is_letter, is_alnum}

abbrev pub Entry : Type 0
Entry = Bytes × Bytes

abbrev pub Env : Type 0
Env = Dict Bytes

pub data EnvError : Type 0 where
  bad_line : ℕ → Bytes → EnvError
  line_too_long : EnvError
  bad_key : Bytes → EnvError
  bad_value : Bytes → ℕ → EnvError

-- `m[k]`: the empty string for a missing key.
unfoldable pub get : Env → Bytes → Bytes
unfolding lookup
get m k = elim (lookup k m) [ none ↦ [] | some v ↦ v ]

-- `^[A-Za-z_][A-Za-z0-9_]*$`
abbrev pub env_key_re : Regex
env_key_re =
    seq (one (λ c. is_letter c || c == b'_')) (repeat (λ c. is_alnum c || c == b'_') 0 unbounded)

-- One line of the loop of `Load`.
pub load_parts : ℕ → Bytes → Option (Bytes × Bytes) → Env → Result EnvError Env
load_parts n line none m = err (bad_line n line)
load_parts n line (some (k, v)) m =
    if not (matches env_key_re k) then err (bad_line n line) else ok (put k v m)

pub load_line : ℕ → Bytes → Env → Result EnvError Env
unfolding load_parts
load_line n text m =
    let line = trim_space text in
    if is_empty line || has_prefix line (b'#' ∷ [])
    then ok m
    else load_parts n line (cut b'=' line) m

-- `n` lines have been read.
pub load_lines : ℕ → List Bytes → Env → Result EnvError Env
load_lines n [] m = ok m
load_lines n (text ∷ rest) m = load_line (n + 1) text m >>= λ m'. load_lines (n + 1) rest m'

abbrev after_scan : Bool → Env → Result EnvError Env
after_scan true m = err line_too_long
after_scan false m = ok m

unfoldable pub load : Bytes → Result EnvError Env
unfolding load_lines load_line
load body =
    let (lines, failed) = scan_lines body in load_lines 0 lines [] >>= λ m. after_scan failed m

-- `strings.IndexAny(v, "\n\r\x00")`
unfoldable pub index_break : ℕ → Bytes → Option ℕ
index_break i [] = none
index_break i (c ∷ v) = if c == b'\n' || c == b'\r' || c == 0 then some i else index_break (i + 1) v

abbrev value_check : Bytes → Option ℕ → Result EnvError (Unit {0})
value_check k none = ok tt
value_check k (some i) = err (bad_value k i)

-- Go ranges over the map in any order; the first refused entry in this order is reported.
unfoldable pub validate_env : Env → Result EnvError (Unit {0})
unfolding index_break
validate_env [] = ok tt
validate_env ((k, v) ∷ m) =
    let rest = validate_env m in
    if not (matches env_key_re k)
    then err (bad_key k)
    else (value_check k (index_break 0 v) >>= λ _. rest)

-- The lines that the builder gets, for the keys in order.
pub render_keys : Env → List Bytes → Bytes
render_keys m [] = []
render_keys m (k ∷ ks) = k ++ (b'=' ∷ get m k ++ (b'\n' ∷ render_keys m ks))

-- The bytes that `SaveAtomic` hands to `fsutil.WriteFile`.
unfoldable pub save : Env → Result EnvError Bytes
unfolding render_keys
save m = validate_env m >>= λ _. ok (render_keys m (sort_by (λ k. k) (map key_of m)))
