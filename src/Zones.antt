-- ===== src/Zones.antt =====
-- internal/zones/random.go: picking a zone and generating a host name, from random bytes.
pub mod Pick
mod Tests
use cf_vpn.Prelude.{
  ℕ, zero, suc, ◌+◌, ◌/◌, ◌%◌, Bool, true, false, not, List, [], ◌∷◌, ◌++◌, Option, none, some,
  if◌then◌else◌, length, drop, filter, Result, ok, err, ltb, ◌>>=◌,
}
use cf_vpn.Text.{Bytes, codes, equal}

pub record Zone : Type 0 where
  pub name : Bytes
  pub cf_zone_id : Bytes

pub data ZoneError : Type 0 where
  no_eligible_zones empty_prefix_pool short_read : ZoneError
  -- Go's panic on an index out of range.
  index_out_of_range : ZoneError

abbrev pub prefixes : List Bytes
prefixes = codes "cdn" ∷ codes "static" ∷ codes "assets" ∷ codes "edge" ∷ codes "media" ∷ []

abbrev pub hy2_prefixes : List Bytes
hy2_prefixes = codes "quic" ∷ codes "udp" ∷ codes "hy" ∷ []

module _ {A : Type 0} where
  -- `xs[i]`
  abbrev pub element : List A → ℕ → Result ZoneError A
  element [] i = err index_out_of_range
  element (x ∷ xs) zero = ok x
  element (x ∷ xs) (suc i) = element xs i

-- `hex.EncodeToString`
abbrev pub hex_digit : ℕ → ℕ
hex_digit d = if ltb d 10 then b'0' + d else 87 + d

abbrev pub hex : Bytes → Bytes
hex [] = []
hex (b ∷ bs) = hex_digit (b / 16) ∷ hex_digit (b % 16) ∷ hex bs

-- `GenerateHostWith`, on what the reader delivers.
unfoldable pub generate_host_with : Bytes → Bytes → List Bytes → Result ZoneError Bytes
generate_host_with rng zone [] = err empty_prefix_pool
generate_host_with (p ∷ a ∷ b ∷ c ∷ d ∷ rest) zone (first ∷ pool) =
    element (first ∷ pool) (p % length (first ∷ pool)) >>= λ prefix.
    ok (prefix ++ (b'-' ∷ hex (a ∷ b ∷ c ∷ d ∷ []) ++ (b'.' ∷ zone)))
generate_host_with rng zone (first ∷ pool) = err short_read

abbrev pub generate_host : Bytes → Bytes → Result ZoneError Bytes
generate_host rng zone = generate_host_with rng zone prefixes

abbrev pub generate_hy2_host : Bytes → Bytes → Result ZoneError Bytes
generate_hy2_host rng zone = generate_host_with rng zone hy2_prefixes

abbrev pub eligible : Bytes → List Zone → List Zone
eligible excluded candidates = filter (λ z. not (equal z.name excluded)) candidates

abbrev pub pick_from : Bytes → List Zone → Result ZoneError Zone
pick_from rng [] = err no_eligible_zones
pick_from [] (z ∷ zs) = err short_read
pick_from (b ∷ rest) (z ∷ zs) = element (z ∷ zs) (b % length (z ∷ zs))

-- `PickZone`
unfoldable pub pick_zone : Bytes → List Zone → Bytes → Result ZoneError Zone
pick_zone rng candidates excluded = pick_from rng (eligible excluded candidates)
