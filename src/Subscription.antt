-- ===== src/Subscription.antt =====
-- internal/subscription/subscription.go: the client URIs that a node hands out.
pub mod Encode
pub mod Query
pub mod Routes
mod Tests
use cf_vpn.Prelude.{
  ℕ, ◌+◌, ◌-◌, ◌/◌, ◌%◌, String, Bool, true, false, not, ◌&&◌, ◌||◌, List, [], ◌∷◌, ◌++◌, map, ltb,
  ◌==◌, if◌then◌else◌,
}
use cf_vpn.Text.{Bytes, codes, has_prefix, within}
use cf_vpn.Text.Split.{split_on, join_with}
use cf_vpn.Text.Decimal.{itoa}

unfoldable pub is_unreserved : ℕ → Bool
is_unreserved c =
    within b'A' b'Z' c
    || within b'a' b'z' c
    || within b'0' b'9' c
    || c == b'-'
    || c == b'_'
    || c == b'.'
    || c == b'!'
    || c == b'~'
    || c == b'*'
    || c == b'\''
    || c == b'('
    || c == b')'

-- `upperhex[d]`
unfoldable pub upper_hex : ℕ → ℕ
upper_hex d = if ltb d 10 then b'0' + d else b'A' + (d - 10)

-- What the loop writes for one byte: `c>>4` and `c&0x0f` are its two digits.
unfoldable pub encode_byte : ℕ → Bytes
unfolding is_unreserved upper_hex
encode_byte c =
    if is_unreserved c then c ∷ [] else b'%' ∷ upper_hex (c / 16) ∷ upper_hex (c % 16) ∷ []

unfoldable pub encode : Bytes → Bytes
encode [] = []
encode (c ∷ s) = encode_byte c ++ encode s

-- `encodeVLESSPath`: the segments between slashes, encoded and joined by `%2F`.
unfoldable pub encode_vless_path : Bytes → Bytes
encode_vless_path path = join_with (codes "%2F") (map encode (split_on b'/' path))

pub contains : ℕ → Bytes → Bool
contains c [] = false
contains c (x ∷ s) = x == c || contains c s

-- An IPv6 literal gets brackets.
unfoldable pub uri_host : Bytes → Bytes
unfolding contains
uri_host host =
    if contains b':' host && not (has_prefix host (b'[' ∷ []))
    then b'[' ∷ host ++ (b']' ∷ [])
    else host

-- The texts of a format string and of its arguments, one behind the other.
abbrev pub concat : List Bytes → Bytes
concat [] = []
concat (w ∷ ws) = w ++ concat ws

unfoldable pub vless_reality_uri_suffix :
    Bytes → Bytes → Bytes → Bytes → Bytes → Bytes → Bytes → Bytes
vless_reality_uri_suffix name uuid host sni pbk sid suffix = concat (
    codes "vless://"
    ∷ uuid
    ∷ codes "@"
    ∷ uri_host host
    ∷ codes ":443?encryption=none&security=reality&flow=xtls-rprx-vision&type=tcp&sni="
    ∷ encode sni
    ∷ codes "&pbk="
    ∷ encode pbk
    ∷ codes "&sid="
    ∷ encode sid
    ∷ codes "&fp=chrome#"
    ∷ encode name
    ∷ codes "-Reality"
    ∷ suffix
    ∷ [])

pub vless_reality_uri : Bytes → Bytes → Bytes → Bytes → Bytes → Bytes → Bytes
vless_reality_uri name uuid host sni pbk sid =
    vless_reality_uri_suffix name uuid host sni pbk sid []

unfoldable pub vless_httpupgrade_uri : Bytes → Bytes → Bytes → Bytes → Bytes
vless_httpupgrade_uri name uuid domain path = concat (
    codes "vless://"
    ∷ uuid
    ∷ codes "@"
    ∷ domain
    ∷ codes ":443?encryption=none&security=tls&type=httpupgrade&host="
    ∷ encode domain
    ∷ codes "&path="
    ∷ encode_vless_path path
    ∷ codes "&alpn=http%2F1.1&sni="
    ∷ encode domain
    ∷ codes "#"
    ∷ encode name
    ∷ codes "-HTTPUpgrade"
    ∷ [])

-- The three XHTTP routes differ in `alpn` and in the name of the route.
abbrev xhttp_uri : String → String → Bytes → Bytes → Bytes → Bytes → Bytes → Bytes
xhttp_uri alpn route name uuid host path mode = concat (
    codes "vless://"
    ∷ uuid
    ∷ codes "@"
    ∷ host
    ∷ codes ":443?encryption=none&security=tls&type=xhttp&host="
    ∷ encode host
    ∷ codes "&path="
    ∷ encode_vless_path path
    ∷ codes "&mode="
    ∷ encode mode
    ∷ codes "&alpn="
    ∷ codes alpn
    ∷ codes "&sni="
    ∷ encode host
    ∷ codes "#"
    ∷ encode name
    ∷ codes route
    ∷ [])

unfoldable pub vless_xhttp_uri : Bytes → Bytes → Bytes → Bytes → Bytes → Bytes
vless_xhttp_uri = xhttp_uri "h2%2Chttp%2F1.1" "-XHTTP"

unfoldable pub vless_xhttp_direct_uri : Bytes → Bytes → Bytes → Bytes → Bytes → Bytes
vless_xhttp_direct_uri = xhttp_uri "h2%2Chttp%2F1.1" "-XHTTP-Direct"

unfoldable pub vless_xhttp_h3_uri : Bytes → Bytes → Bytes → Bytes → Bytes → Bytes
vless_xhttp_h3_uri = xhttp_uri "h3" "-XHTTP-H3"

unfoldable pub hy2_uri_suffix : Bytes → Bytes → Bytes → Bytes → Bytes → ℕ → Bytes → Bytes → Bytes
hy2_uri_suffix tag username password address sni_host port obfs_pw suffix = concat (
    codes "hysteria2://"
    ∷ encode username
    ∷ codes ":"
    ∷ encode password
    ∷ codes "@"
    ∷ uri_host address
    ∷ codes ":"
    ∷ itoa port
    ∷ codes "/?obfs=salamander&obfs-password="
    ∷ encode obfs_pw
    ∷ codes "&sni="
    ∷ encode sni_host
    ∷ codes "&insecure=0#"
    ∷ encode tag
    ∷ codes "-HY2"
    ∷ suffix
    ∷ [])
