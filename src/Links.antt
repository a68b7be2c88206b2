-- ===== src/Links.antt =====
-- internal/commands/subscription.go: the client links of a user on this node, and the switches of the
-- env file that they and the renderers read (internal/commands/hy2.go, xhttp.go, xhttp_direct.go,
-- xhttp_h3.go and rotate.go). Warnings carry no text here and are left out.
pub mod Inbounds
mod Tests
use cf_vpn.Prelude.{
  ℕ, zero, suc, ◌+◌, Bool, true, false, not, ◌&&◌, ◌||◌, List, [], ◌∷◌, ◌++◌, Option, none, some,
  any, String, map, filter, if◌then◌else◌,
}
use cf_vpn.Text.{Bytes, codes, equal, is_empty, within}
use cf_vpn.Text.Trim.{trim_space}
use cf_vpn.Text.Split.{split_on}
use cf_vpn.Text.Decimal.{ℤ, pos, negsuc, atoi}
use cf_vpn.State.{Env, get}
use cf_vpn.Subscription.{
  vless_reality_uri_suffix, vless_reality_uri, vless_httpupgrade_uri, vless_xhttp_uri,
  vless_xhttp_direct_uri, vless_xhttp_h3_uri, hy2_uri_suffix,
}
use cf_vpn.Templates.Xray.{
  vless_path, xhttp_path, xhttp_mode, xhttp_direct_mode, xhttp_h3_mode, when, XrayCloudflareOptions,
  XrayDirectRealityInputs,
}

-- `strings.ToUpper`, and whether `netip.ParseAddr` reads a plain IPv6 address: `Is6`, not `Is4In6`,
-- with no zone.
pub record GoText : Type 0 where
  pub to_upper : Bytes → Bytes
  pub is_plain_ipv6 : Bytes → Bool

-- `strings.ToLower` on ASCII letters. No letter outside ASCII has a lower case that one of the words
-- below holds.
abbrev pub to_lower : Bytes → Bytes
to_lower s = map (λ c. if within b'A' b'Z' c then c + 32 else c) s

abbrev pub at : Env → String → Bytes
at env key = get env (codes key)

abbrev pub trimmed_at : Env → String → Bytes
trimmed_at env key = trim_space (get env (codes key))

abbrev pub is_word : List Bytes → Bytes → Bool
is_word words s = any (equal (to_lower (trim_space s))) words

unfoldable pub hy2_enabled : Env → Bool
unfolding get equal trim_space
hy2_enabled env =
    not (is_word (codes "0" ∷ codes "false" ∷ codes "no" ∷ codes "off" ∷ []) (at env "HY2_ENABLED"))

unfoldable pub xhttp_enabled : Env → Bool
unfolding get equal trim_space
xhttp_enabled env =
    is_word (codes "1" ∷ codes "true" ∷ codes "yes" ∷ codes "on" ∷ []) (at env "XHTTP_ENABLED")

unfoldable pub xray_cloudflare_opts_from_env : Env → XrayCloudflareOptions
unfolding get trim_space xhttp_enabled
xray_cloudflare_opts_from_env env = record {
  xhttp = xhttp_enabled env;
  direct_host = trimmed_at env "XHTTP_DIRECT_HOST";
  direct_path = trimmed_at env "XHTTP_DIRECT_PATH";
}

unfoldable pub xray_dns_servers_csv : Bytes → List Bytes
unfolding trim_space split_on
xray_dns_servers_csv raw =
    if is_empty (trim_space raw)
    then []
    else filter (λ s. not (is_empty s)) (map trim_space (split_on b',' (trim_space raw)))

unfoldable pub xray_dns_servers_from_env : Env → List Bytes
unfolding get xray_dns_servers_csv
xray_dns_servers_from_env env = xray_dns_servers_csv (at env "XRAY_DNS_SERVERS")

abbrev pub cert_path : Bytes
cert_path = codes "/etc/cfvpn/hysteria/cert.pem"

abbrev pub key_path : Bytes
key_path = codes "/etc/cfvpn/hysteria/key.pem"

-- `WithH3FromEnv` with the host and the path that it read.
abbrev pub with_h3 : XrayDirectRealityInputs → Bytes → Bytes → XrayDirectRealityInputs
with_h3 inputs host path = if is_empty host || is_empty path then inputs else record {
  users = inputs.users;
  private_key = inputs.private_key;
  short_ids = inputs.short_ids;
  dest = inputs.dest;
  server_names = inputs.server_names;
  dns_servers = inputs.dns_servers;
  h3_host = host;
  h3_path = path;
  h3_cert = cert_path;
  h3_key = key_path;
}

unfoldable pub with_h3_from_env : XrayDirectRealityInputs → Env → XrayDirectRealityInputs
unfolding get trim_space
with_h3_from_env inputs env =
    with_h3 inputs (trimmed_at env "XHTTP_H3_HOST") (trimmed_at env "XHTTP_H3_PATH")

abbrev pub or_else_text : Bytes → Bytes → Bytes
or_else_text [] fallback = fallback
or_else_text (c ∷ s) fallback = c ∷ s

abbrev pub v6_suffix : Bytes
v6_suffix = codes "-v6"

-- The branch of cloudflare nodes.
unfoldable pub cloudflare_lines : Bytes → Bytes → Bytes → Env → List Bytes
unfolding get trim_space xhttp_enabled
cloudflare_lines tag uuid domain env =
    let host = trimmed_at env "XHTTP_DIRECT_HOST" in
    let path = trimmed_at env "XHTTP_DIRECT_PATH" in
    vless_httpupgrade_uri tag uuid domain (or_else_text (at env "XHTTP_PATH") vless_path)
    ∷ (when (xhttp_enabled env) (vless_xhttp_uri tag uuid domain xhttp_path xhttp_mode)
        ++ when (not (is_empty host) && not (is_empty path))
            (vless_xhttp_direct_uri tag uuid host path xhttp_direct_mode))

unfoldable pub h3_lines : Bytes → Bytes → Env → List Bytes
unfolding get trim_space
h3_lines tag uuid env =
    let host = trimmed_at env "XHTTP_H3_HOST" in
    let path = trimmed_at env "XHTTP_H3_PATH" in
    when (not (is_empty host) && not (is_empty path))
      (vless_xhttp_h3_uri tag uuid host path xhttp_h3_mode)

-- A port that `strconv.Atoi` reads and that is above zero.
abbrev pub positive : Option ℤ → Option ℕ
positive (some (pos (suc n))) = some (suc n)
positive _ = none

module _ (texts : GoText) where
  unfoldable pub public_ipv6 : Env → Bytes
  unfolding get trim_space
  public_ipv6 env =
      let v6 = trimmed_at env "PUBLIC_IPV6" in if texts.is_plain_ipv6 v6 then v6 else []

  unfoldable pub reality_lines : Bytes → Bytes → Bytes → Env → List Bytes
  unfolding get trim_space public_ipv6
  reality_lines tag uuid domain env =
      let pub_key = at env "REALITY_PUBLIC_KEY" in
      let sid = at env "REALITY_SHORT_ID" in
      let sni = at env "REALITY_SNI" in
      let host = or_else_text (trimmed_at env "PUBLIC_IP") domain in
      let v6 = public_ipv6 env in
      if is_empty pub_key || (is_empty sid || is_empty sni)
      then []
      else vless_reality_uri tag uuid host sni pub_key sid
        ∷ when (not (is_empty v6)) (vless_reality_uri_suffix tag uuid v6 sni pub_key sid v6_suffix)

  -- The switch over the mode.
  unfoldable pub vless_lines : Bytes → Bytes → Bytes → Env → List Bytes
  unfolding get trim_space equal reality_lines h3_lines cloudflare_lines
  vless_lines tag uuid domain env =
      let mode = trimmed_at env "MODE" in
      if equal mode (codes "direct")
      then reality_lines tag uuid domain env ++ h3_lines tag uuid env
      else if equal mode (codes "cloudflare")
      then cloudflare_lines tag uuid domain env
      else []

  abbrev pub port_of : Env → Option ℕ
  port_of env = positive (atoi (at env "HY2_PORT"))

  -- `buildHy2Line` with the port that it read, and the other address in place of the public one.
  abbrev pub hy2_line_at : Bytes → Bytes → Bytes → Env → Bytes → Option ℕ → Option Bytes
  hy2_line_at tag name password env host none = none
  hy2_line_at tag name password env host (some port) =
      let obfs = at env "HY2_OBFS_PW" in
      if is_empty obfs || is_empty password
      then none
      else some (
          hy2_uri_suffix tag name password (or_else_text (trimmed_at env "PUBLIC_IP") host) host
            port obfs [])

  unfoldable pub build_hy2_line : Bytes → Bytes → Bytes → Env → Option Bytes
  unfolding get trim_space hy2_enabled atoi
  build_hy2_line tag name password env =
      let host = at env "HY2_HOST" in
      if not (hy2_enabled env)
      then none
      else if is_empty host
      then none
      else hy2_line_at tag name password env host (port_of env)

  -- The value that `strconv.Atoi` returns beside its error is dropped with it: the caller has seen a
  -- port.
  abbrev pub or_zero : Option ℕ → ℕ
  or_zero none = 0
  or_zero (some n) = n

  unfoldable pub hy2_v6_line : Bytes → Bytes → Bytes → Bytes → Env → Bytes
  unfolding get atoi
  hy2_v6_line tag name password v6 env =
      hy2_uri_suffix tag name password v6 (at env "HY2_HOST") (or_zero (port_of env))
        (at env "HY2_OBFS_PW") v6_suffix

  abbrev pub hy2_lines : Bytes → Bytes → Bytes → Env → Option Bytes → List Bytes
  hy2_lines tag name password env none = []
  hy2_lines tag name password env (some uri) =
      let v6 = public_ipv6 env in
      uri ∷ when (not (is_empty v6)) (hy2_v6_line tag name password v6 env)

  abbrev pub tag_of : Bytes → Env → Bytes
  tag_of name env = or_else_text (texts.to_upper (trimmed_at env "NODE_ID")) name

  unfoldable pub build_user_uris : Bytes → Bytes → Bytes → Bytes → Env → List Bytes
  unfolding get trim_space vless_lines build_hy2_line public_ipv6 hy2_v6_line
  build_user_uris name uuid domain password env =
      let tag = tag_of name env in
      vless_lines tag uuid domain env
      ++ hy2_lines tag name password env (build_hy2_line tag name password env)
