-- ===== src/Subscription/Routes.antt =====
-- Each URI builder: what a client reads back.
use cf_vpn.Prelude.{
  true, ◌&&◌, String, List, [], ◌∷◌, ◌++◌, some, ◌≡◌, refl, ap, ◌∙◌, arith, All, append_assoc,
  append-nil, drop,
}
use cf_vpn.Text.{Bytes, codes}
use cf_vpn.Text.Split.{join_with, free_of}
use cf_vpn.Subscription.{
  encode_byte, encode, uri_host, vless_reality_uri_suffix, vless_httpupgrade_uri, vless_xhttp_uri,
  vless_xhttp_direct_uri, vless_xhttp_h3_uri,
}
use cf_vpn.Subscription.Encode.{IsBytes, encode_vless_path-eq}
use cf_vpn.Subscription.Query.{Field, IsField, read_uri, write_uri, read-write_uri}

-- The text behind `vless://`.
abbrev pub after_scheme : Bytes → Bytes
after_scheme = drop 8

-- A host in front of the port that every route uses.
abbrev pub at_443 : Bytes → Bytes
at_443 host = host ++ codes ":443"

abbrev pub field : String → Bytes → Field
field k v = (codes k, v)

abbrev pub reality_fields : Bytes → Bytes → Bytes → List Field
reality_fields sni pbk sid =
    field "security" (codes "reality")
    ∷ field "flow" (codes "xtls-rprx-vision")
    ∷ field "type" (codes "tcp")
    ∷ field "sni" sni
    ∷ field "pbk" pbk
    ∷ field "sid" sid
    ∷ field "fp" (codes "chrome")
    ∷ []

abbrev no_encryption : Field
no_encryption = field "encryption" (codes "none")

IsField-of :
    (k v : Bytes)
    → (free_of b'=' k && free_of b'&' k && free_of b'#' k) ≡ true
    → IsBytes v
    → IsField (k, v)
IsField-of k v h b = record { plain = h; bytes = b }

IsField-no_encryption : IsField no_encryption
IsField-no_encryption = IsField-of _ _ refl (omega arith)

reality_fields-IsField :
    (sni pbk sid : Bytes)
    → IsBytes sni × IsBytes pbk × IsBytes sid
    → All IsField (reality_fields sni pbk sid)
reality_fields-IsField sni pbk sid (hs, hp, hi) = (
  IsField-of _ _ refl (omega arith),
  (
    IsField-of _ _ refl (omega arith),
    (
      IsField-of _ _ refl (omega arith),
      (
        IsField-of _ _ refl hs,
        (IsField-of _ _ refl hp, (IsField-of _ _ refl hi, (IsField-of _ _ refl (omega arith), tt))),
      ),
    ),
  ),
)

vless_reality_uri-text :
    (name uuid host sni pbk sid suffix : Bytes)
    → after_scheme (vless_reality_uri_suffix name uuid host sni pbk sid suffix)
      ≡ write_uri uuid
          (at_443 (uri_host host))
          (no_encryption ∷ reality_fields sni pbk sid)
          (encode name ++ (codes "-Reality" ++ suffix))
unfolding vless_reality_uri_suffix join_with encode encode_byte
vless_reality_uri-text name uuid host sni pbk sid suffix = simp (append_assoc, append-nil)

-- A client reads back the arguments of a Reality URI, each parameter at its own name, whatever
-- bytes name, sni, key and short id hold, provided that the uuid is free of `@`, the host of `?`
-- and the suffix of `%`.
pub read-vless_reality_uri :
    (name uuid host sni pbk sid suffix : Bytes)
    → free_of b'@' uuid ≡ true
    → free_of b'?' (at_443 (uri_host host)) ≡ true
    → free_of b'%' suffix ≡ true
    → IsBytes name × IsBytes sni × IsBytes pbk × IsBytes sid
    → read_uri (after_scheme (vless_reality_uri_suffix name uuid host sni pbk sid suffix))
      ≡ some (record {
        user = uuid;
        authority = at_443 (uri_host host);
        query = field "encryption" (codes "none") ∷ reality_fields sni pbk sid;
        fragment = name ++ (codes "-Reality" ++ suffix);
      })
read-vless_reality_uri name uuid host sni pbk sid suffix hu hh hr (hn, hs, hp, hi) =
    ap read_uri (vless_reality_uri-text name uuid host sni pbk sid suffix)
    ∙ read-write_uri uuid (at_443 (uri_host host)) no_encryption (reality_fields sni pbk sid) name
        (codes "-Reality" ++ suffix) hu hh
        (IsField-no_encryption, reality_fields-IsField sni pbk sid (hs, hp, hi)) hn hr

abbrev pub httpupgrade_fields : Bytes → Bytes → List Field
httpupgrade_fields domain path =
    field "security" (codes "tls")
    ∷ field "type" (codes "httpupgrade")
    ∷ field "host" domain
    ∷ field "path" path
    ∷ field "alpn" (codes "http/1.1")
    ∷ field "sni" domain
    ∷ []

vless_httpupgrade_uri-text :
    (name uuid domain path : Bytes)
    → after_scheme (vless_httpupgrade_uri name uuid domain path)
      ≡ write_uri uuid
          (at_443 domain)
          (no_encryption ∷ httpupgrade_fields domain path)
          (encode name ++ codes "-HTTPUpgrade")
unfolding vless_httpupgrade_uri join_with encode encode_byte
vless_httpupgrade_uri-text name uuid domain path = simp (encode_vless_path-eq, append_assoc)

-- A client reads back the arguments of an HTTPUpgrade URI, the path with its slashes included,
-- whatever bytes name, domain and path hold, provided that the uuid is free of `@` and the
-- domain of `?`.
pub read-vless_httpupgrade_uri :
    (name uuid domain path : Bytes)
    → free_of b'@' uuid ≡ true
    → free_of b'?' (at_443 domain) ≡ true
    → IsBytes name × IsBytes domain × IsBytes path
    → read_uri (after_scheme (vless_httpupgrade_uri name uuid domain path))
      ≡ some (record {
        user = uuid;
        authority = at_443 domain;
        query = field "encryption" (codes "none") ∷ httpupgrade_fields domain path;
        fragment = name ++ codes "-HTTPUpgrade";
      })
read-vless_httpupgrade_uri name uuid domain path hu hh (hn, hd, hp) =
    ap read_uri (vless_httpupgrade_uri-text name uuid domain path)
    ∙ read-write_uri uuid (at_443 domain) no_encryption (httpupgrade_fields domain path) name
        (codes "-HTTPUpgrade") hu hh
        (
          IsField-no_encryption,
          (
            IsField-of _ _ refl (omega arith),
            (
              IsField-of _ _ refl (omega arith),
              (
                IsField-of _ _ refl hd,
                (
                  IsField-of _ _ refl hp,
                  (IsField-of _ _ refl (omega arith), (IsField-of _ _ refl hd, tt)),
                ),
              ),
            ),
          ),
        )
        hn refl

abbrev pub xhttp_fields : Bytes → Bytes → Bytes → Bytes → List Field
xhttp_fields alpn host path mode =
    field "security" (codes "tls")
    ∷ field "type" (codes "xhttp")
    ∷ field "host" host
    ∷ field "path" path
    ∷ field "mode" mode
    ∷ field "alpn" alpn
    ∷ field "sni" host
    ∷ []

-- The three XHTTP routes: which protocols a client is told to offer, and how the route is named.
pub data XhttpRoute : Type 0 where
  edge direct h3 : XhttpRoute

abbrev pub xhttp_uri_of : XhttpRoute → Bytes → Bytes → Bytes → Bytes → Bytes → Bytes
xhttp_uri_of edge = vless_xhttp_uri
xhttp_uri_of direct = vless_xhttp_direct_uri
xhttp_uri_of h3 = vless_xhttp_h3_uri

abbrev pub alpn_of : XhttpRoute → Bytes
alpn_of h3 = codes "h3"
alpn_of _ = codes "h2,http/1.1"

abbrev pub name_of : XhttpRoute → Bytes
name_of edge = codes "-XHTTP"
name_of direct = codes "-XHTTP-Direct"
name_of h3 = codes "-XHTTP-H3"

xhttp_uri_of-text :
    (route : XhttpRoute) (name uuid host path mode : Bytes)
    → after_scheme (xhttp_uri_of route name uuid host path mode)
      ≡ write_uri uuid
          (at_443 host)
          (no_encryption ∷ xhttp_fields (alpn_of route) host path mode)
          (encode name ++ name_of route)
unfolding vless_xhttp_uri vless_xhttp_direct_uri vless_xhttp_h3_uri join_with encode encode_byte
xhttp_uri_of-text edge name uuid host path mode = simp (encode_vless_path-eq, append_assoc)
xhttp_uri_of-text direct name uuid host path mode = simp (encode_vless_path-eq, append_assoc)
xhttp_uri_of-text h3 name uuid host path mode = simp (encode_vless_path-eq, append_assoc)

alpn-IsBytes : (route : XhttpRoute) → IsBytes (alpn_of route)
alpn-IsBytes edge = omega arith
alpn-IsBytes direct = omega arith
alpn-IsBytes h3 = omega arith

name_of-free : (route : XhttpRoute) → free_of b'%' (name_of route) ≡ true
name_of-free edge = refl
name_of-free direct = refl
name_of-free h3 = refl

-- A client reads back the arguments of each of the three XHTTP URIs, the `alpn` of the route
-- included, whatever bytes name, host, path and mode hold, provided that the uuid is free of `@`
-- and the host of `?`.
pub read-xhttp_uri_of :
    (route : XhttpRoute) (name uuid host path mode : Bytes)
    → free_of b'@' uuid ≡ true
    → free_of b'?' (at_443 host) ≡ true
    → IsBytes name × IsBytes host × IsBytes path × IsBytes mode
    → read_uri (after_scheme (xhttp_uri_of route name uuid host path mode))
      ≡ some (record {
        user = uuid;
        authority = at_443 host;
        query = field "encryption" (codes "none") ∷ xhttp_fields (alpn_of route) host path mode;
        fragment = name ++ name_of route;
      })
read-xhttp_uri_of route name uuid host path mode hu hh (hn, hd, hp, hm) =
    ap read_uri (xhttp_uri_of-text route name uuid host path mode)
    ∙ read-write_uri uuid (at_443 host) no_encryption (xhttp_fields (alpn_of route) host path mode)
        name (name_of route) hu hh
        (
          IsField-no_encryption,
          (
            IsField-of _ _ refl (omega arith),
            (
              IsField-of _ _ refl (omega arith),
              (
                IsField-of _ _ refl hd,
                (
                  IsField-of _ _ refl hp,
                  (
                    IsField-of _ _ refl hm,
                    (IsField-of _ _ refl (alpn-IsBytes route), (IsField-of _ _ refl hd, tt)),
                  ),
                ),
              ),
            ),
          ),
        )
        hn (name_of-free route)
