-- ===== src/Subscription/Tests.antt =====
-- Golden URIs, and each theorem at an input.
use cf_vpn.Prelude.{[], ◌∷◌, ◌++◌, some, ◌≡◌, refl, arith}
use cf_vpn.Text.{codes, has_prefix}
use cf_vpn.Text.Split.{split_on, join_with}
use cf_vpn.Text.Decimal.{itoa}
use cf_vpn.Subscription.{
  encode_byte, encode, uri_host, hy2_uri_suffix, vless_reality_uri_suffix, vless_httpupgrade_uri,
  encode_vless_path,
}
use cf_vpn.Subscription.Encode.{decode, decode-encode, encode_vless_path-eq}
use cf_vpn.Subscription.Query.{read_uri}
use cf_vpn.Subscription.Routes.{
  h3, after_scheme, at_443, field, reality_fields, httpupgrade_fields, xhttp_fields, alpn_of,
  name_of, xhttp_uri_of, read-vless_reality_uri, read-vless_httpupgrade_uri, read-xhttp_uri_of,
}

hy2_golden :
    hy2_uri_suffix
      (codes "n 1")
      (codes "u")
      (codes "p@w")
      (codes "2001:db8::1")
      (codes "h.dev")
      20443
      (codes "ob")
      (codes "-v6")
    ≡ codes
        "hysteria2://u:p%40w@[2001:db8::1]:20443/?obfs=salamander&obfs-password=ob&sni=h.dev&insecure=0#n%201-HY2-v6"
unfolding hy2_uri_suffix encode encode_byte uri_host has_prefix itoa
hy2_golden = refl

path_golden :
    vless_httpupgrade_uri (codes "n") (codes "id") (codes "a.com") (codes "/api/v1/sync")
    ≡ codes
        "vless://id@a.com:443?encryption=none&security=tls&type=httpupgrade&host=a.com&path=%2Fapi%2Fv1%2Fsync&alpn=http%2F1.1&sni=a.com#n-HTTPUpgrade"
unfolding vless_httpupgrade_uri encode_vless_path encode encode_byte split_on join_with
path_golden = refl

decode-encode_example : decode (encode (codes "a&b=#/ x")) ≡ codes "a&b=#/ x"
decode-encode_example = decode-encode (codes "a&b=#/ x") (omega arith)

read-vless_reality_uri_example :
    read_uri (
      after_scheme (
        vless_reality_uri_suffix
          (codes "n#1")
          (codes "id")
          (codes "10.0.0.1")
          (codes "a&b=c")
          (codes "k")
          (codes "0f")
          []))
    ≡ some (record {
      user = codes "id";
      authority = at_443 (uri_host (codes "10.0.0.1"));
      query =
          field "encryption" (codes "none")
          ∷ reality_fields (codes "a&b=c") (codes "k") (codes "0f");
      fragment = codes "n#1" ++ (codes "-Reality" ++ []);
    })
unfolding uri_host
read-vless_reality_uri_example =
    read-vless_reality_uri (codes "n#1") (codes "id") (codes "10.0.0.1") (codes "a&b=c") (codes "k")
      (codes "0f") [] refl refl refl (omega arith, omega arith, omega arith, omega arith)

read-vless_httpupgrade_uri_example :
    read_uri (
      after_scheme
        (vless_httpupgrade_uri (codes "n") (codes "id") (codes "a.com") (codes "/a?b&c")))
    ≡ some (record {
      user = codes "id";
      authority = at_443 (codes "a.com");
      query =
          field "encryption" (codes "none") ∷ httpupgrade_fields (codes "a.com") (codes "/a?b&c");
      fragment = codes "n" ++ codes "-HTTPUpgrade";
    })
read-vless_httpupgrade_uri_example =
    read-vless_httpupgrade_uri (codes "n") (codes "id") (codes "a.com") (codes "/a?b&c") refl refl
      (omega arith, omega arith, omega arith)

read-xhttp_uri_of_example :
    read_uri (
      after_scheme
        (xhttp_uri_of h3 (codes "n") (codes "id") (codes "a.com") (codes "/p") (codes "auto")))
    ≡ some (record {
      user = codes "id";
      authority = at_443 (codes "a.com");
      query =
          field "encryption" (codes "none")
          ∷ xhttp_fields (alpn_of h3) (codes "a.com") (codes "/p") (codes "auto");
      fragment = codes "n" ++ name_of h3;
    })
read-xhttp_uri_of_example =
    read-xhttp_uri_of h3 (codes "n") (codes "id") (codes "a.com") (codes "/p") (codes "auto") refl
      refl (omega arith, omega arith, omega arith, omega arith)

encode_vless_path-eq_example : encode_vless_path (codes "/a b/") ≡ encode (codes "/a b/")
encode_vless_path-eq_example = encode_vless_path-eq (codes "/a b/")
