-- ===== src/Users/Secrets.antt =====
-- internal/commands/users.go: `GenerateUUIDv4` and `GeneratePassword`, on the bytes that crypto/rand
-- delivers.
use cf_vpn.Prelude.{
  ℕ, zero, suc, ◌+◌, ◌-◌, ◌*◌, ◌/◌, ◌%◌, ◌<◌, true, [], ◌∷◌, ◌++◌, ◌≡◌, refl, arith, if◌then◌else◌,
  ltb, ◌==◌, length, all, All, ok, ◌⊎◌,
}
use cf_vpn.Text.{Bytes}
use cf_vpn.Regex.{is_hex}
use cf_vpn.Validate.{uuid}
use cf_vpn.Validate.Id.{IsHexRun, ids-ok_iff}
use cf_vpn.Xray.Accounts.{is_name_byte}

abbrev pub lower_hex : ℕ → ℕ
lower_hex d = if ltb d 10 then b'0' + d else b'a' + (d - 10)

-- `b[i]`
unfoldable pub byte_at : ℕ → Bytes → ℕ
byte_at i [] = 0
byte_at zero (c ∷ b) = c
byte_at (suc i) (c ∷ b) = byte_at i b

-- The bytes with the version and the variant set.
abbrev pub stamped : Bytes → ℕ → ℕ
stamped b i =
    if i == 6 then 64 + byte_at 6 b % 16 else if i == 8 then 128 + byte_at 8 b % 64 else byte_at i b

-- `n` bytes from the index `i`, two digits each.
abbrev pub hex_of : (ℕ → ℕ) → ℕ → ℕ → Bytes
hex_of f i zero = []
hex_of f i (suc n) = lower_hex (f i / 16) ∷ lower_hex (f i % 16) ∷ hex_of f (i + 1) n

unfoldable pub generate_uuid_v4 : Bytes → Bytes
unfolding byte_at
generate_uuid_v4 b =
    let part = hex_of (stamped b) in
    part 0 4 ++ (b'-' ∷ part 4 2 ++ (b'-' ∷ part 6 2 ++ (b'-' ∷ part 8 2 ++ (b'-' ∷ part 10 6))))

abbrev pub base64_char : ℕ → ℕ
base64_char i =
    if ltb i 26
    then b'A' + i
    else if ltb i 52
    then b'a' + (i - 26)
    else if ltb i 62
    then b'0' + (i - 52)
    else if i == 62
    then b'-'
    else b'_'

-- `base64.RawURLEncoding.EncodeToString`
unfoldable pub generate_password : Bytes → Bytes
generate_password [] = []
generate_password (a ∷ []) = base64_char (a / 4) ∷ base64_char (a % 4 * 16) ∷ []
generate_password (a ∷ b ∷ []) =
    base64_char (a / 4) ∷ base64_char (a % 4 * 16 + b / 16) ∷ base64_char (b % 16 * 4) ∷ []
generate_password (a ∷ b ∷ c ∷ s) =
    base64_char (a / 4)
    ∷ base64_char (a % 4 * 16 + b / 16)
    ∷ base64_char (b % 16 * 4 + c / 64)
    ∷ base64_char (c % 64)
    ∷ generate_password s

abbrev pub IsOctet : ℕ → Type 0
IsOctet c = c < 256

byte_at-IsOctet : (i : ℕ) (b : Bytes) → All IsOctet b → byte_at i b < 256
unfolding byte_at
byte_at-IsOctet i [] h = omega arith
byte_at-IsOctet zero (c ∷ b) h = h.0
byte_at-IsOctet (suc i) (c ∷ b) h = byte_at-IsOctet i b h.1

stamped-IsOctet : (b : Bytes) (i : ℕ) → All IsOctet b → stamped b i < 256
stamped-IsOctet b i h = ground (arith, byte_at-IsOctet i b h)

lower_hex-is_hex : (d : ℕ) → d < 16 → is_hex (lower_hex d) ≡ true
lower_hex-is_hex d h = ground arith

module _ (f : ℕ → ℕ) (octet : (i : ℕ) → f i < 256) where
  hex_of-IsHexRun : (i n : ℕ) → IsHexRun (n + n) (hex_of f i n)
  hex_of-IsHexRun i zero = record { digits = refl; size = refl }
  hex_of-IsHexRun i (suc n) =
      let rest = hex_of-IsHexRun (i + 1) n in
      let small = octet i in
      record {
        digits =
            rw (lower_hex-is_hex (f i / 16) (omega arith))
              (rw (lower_hex-is_hex (f i % 16) (omega arith)) rest.digits);
        size = omega (arith, rest.size);
      }

-- The text that `GenerateUUIDv4` makes of any random bytes.
pub record IsUuid4 (s : Bytes) : Type 0 where
  pub checked : uuid s ≡ ok tt
  pub version : byte_at 14 s ≡ b'4'
  pub variant :
      (byte_at 19 s ≡ b'8')
      ⊎ ((byte_at 19 s ≡ b'9') ⊎ ((byte_at 19 s ≡ b'a') ⊎ (byte_at 19 s ≡ b'b')))

-- Of any random bytes `GenerateUUIDv4` makes a text that `validate.UUID` accepts, with the digit 4 for
-- the version and one of 8, 9, a and b for the variant.
pub generate_uuid_v4-IsUuid4 : (b : Bytes) → All IsOctet b → IsUuid4 (generate_uuid_v4 b)
unfolding generate_uuid_v4 byte_at
generate_uuid_v4-IsUuid4 b h =
    let run = hex_of-IsHexRun (stamped b) (λ i. stamped-IsOctet b i h) in
    record {
      checked = ((ids-ok_iff (generate_uuid_v4 b)).0).1 (record {
        a = hex_of (stamped b) 0 4;
        b = hex_of (stamped b) 4 2;
        c = hex_of (stamped b) 6 2;
        d = hex_of (stamped b) 8 2;
        e = hex_of (stamped b) 10 6;
        whole = refl;
        a_run = run 0 4;
        b_run = run 4 2;
        c_run = run 6 2;
        d_run = run 8 2;
        e_run = run 10 6;
      });
      version = ground arith;
      variant = ground arith;
    }

base64_char-is_name_byte : (i : ℕ) → is_name_byte (base64_char i) ≡ true
base64_char-is_name_byte i = ground arith

-- A password of `n` random bytes has `(8 n + 5) / 6` bytes, each a letter, a digit, a hyphen or an
-- underscore.
pub generate_password_safe :
    (b : Bytes)
    → (all is_name_byte (generate_password b) ≡ true)
      × (length (generate_password b) ≡ (8 * length b + 5) / 6)
unfolding generate_password
generate_password_safe [] = (refl, refl)
generate_password_safe (a ∷ []) =
    (rw (base64_char-is_name_byte (a / 4)) (rw (base64_char-is_name_byte (a % 4 * 16)) refl), refl)
generate_password_safe (a ∷ b ∷ []) = (
  rw (base64_char-is_name_byte (a / 4)) (
      rw (base64_char-is_name_byte (a % 4 * 16 + b / 16))
        (rw (base64_char-is_name_byte (b % 16 * 4)) refl)),
  refl,
)
generate_password_safe (a ∷ b ∷ c ∷ s) =
    let (safe, size) = generate_password_safe s in
    (
      rw (base64_char-is_name_byte (a / 4)) (
          rw (base64_char-is_name_byte (a % 4 * 16 + b / 16)) (
            rw (base64_char-is_name_byte (b % 16 * 4 + c / 64))
              (rw (base64_char-is_name_byte (c % 64)) safe))),
      omega (arith, size),
    )
