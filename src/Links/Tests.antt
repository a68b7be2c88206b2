-- ===== src/Links/Tests.antt =====
-- The links of small nodes, and each theorem at one of them.
use cf_vpn.Prelude.{true, false, List, [], ◌∷◌, ◌++◌, inl, ◌≡◌, refl, some, none}
use cf_vpn.Text.{Bytes, codes, equal, has_prefix}
use cf_vpn.Text.Trim.{trim_space}
use cf_vpn.Text.Split.{split_on}
use cf_vpn.Text.Decimal.{atoi, pos, negsuc, digits_value}
use cf_vpn.Dict.{lookup}
use cf_vpn.State.{Env, get}
use cf_vpn.Templates.Xray.{
  XrayUser, XrayDirectRealityInputs, render_xray_cloudflare_opts, render_xray_direct_reality,
  config_json, cloudflare_inbounds, direct_inbounds,
}
use cf_vpn.Links.{
  GoText, xray_cloudflare_opts_from_env, xhttp_enabled, with_h3_from_env, vless_lines,
  reality_lines, xray_dns_servers_csv,
}
use cf_vpn.Links.Inbounds.{Links, vless_lines-Links, direct_lines-Links}

abbrev ascii : GoText
ascii = record { to_upper = λ s. s; is_plain_ipv6 = λ s. false }

golden_atoi : (atoi (codes "-12") ≡ some (negsuc 11)) × (atoi (codes "+443") ≡ some (pos 443))
unfolding atoi digits_value
golden_atoi = (refl, refl)

too_large : atoi (codes "9223372036854775808") ≡ none
unfolding atoi digits_value
too_large = refl

resolvers :
    xray_dns_servers_csv (codes " https://a.b/q, ,c.d ") ≡ codes "https://a.b/q" ∷ codes "c.d" ∷ []
unfolding xray_dns_servers_csv trim_space split_on
resolvers = refl

abbrev cloudflare_env : Env
cloudflare_env =
    (codes "MODE", codes " cloudflare")
    ∷ (codes "XHTTP_DIRECT_HOST", codes "d.b")
    ∷ (codes "XHTTP_DIRECT_PATH", codes "/secret")
    ∷ (codes "XHTTP_ENABLED", codes "Yes")
    ∷ []

abbrev alice : List XrayUser
alice = (record { name = codes "alice"; uuid = codes "u1" }) ∷ []

vless_lines-Links_example :
    Links
      (codes "JPY-03")
      (codes "u1")
      (config_json [] (
        cloudflare_inbounds alice
          (codes "a.b")
          (record { xhttp = true; direct_host = codes "d.b"; direct_path = codes "/secret" })))
      0
      (vless_lines ascii (codes "JPY-03") (codes "u1") (codes "a.b") cloudflare_env)
unfolding get lookup equal trim_space render_xray_cloudflare_opts xray_cloudflare_opts_from_env
    xhttp_enabled has_prefix
vless_lines-Links_example =
    vless_lines-Links ascii (codes "JPY-03") (codes "u1") (codes "a.b") alice [] cloudflare_env
      (config_json [] (
        cloudflare_inbounds alice (codes "a.b")
          (record { xhttp = true; direct_host = codes "d.b"; direct_path = codes "/secret" })))
      refl (inl refl) refl

abbrev direct_env : Env
direct_env =
    (codes "MODE", codes "direct")
    ∷ (codes "XHTTP_H3_HOST", codes "h.b")
    ∷ (codes "XHTTP_H3_PATH", codes "/p")
    ∷ []

abbrev plain_node : XrayDirectRealityInputs
plain_node = record {
  users = alice;
  private_key = codes "k";
  short_ids = codes "ab" ∷ [];
  dest = codes "a.b:443";
  server_names = codes "a.b" ∷ [];
  dns_servers = [];
  h3_host = [];
  h3_path = [];
  h3_cert = [];
  h3_key = [];
}

direct_lines-Links_example :
    (rest : List Bytes) × Links
      (codes "JPY-03")
      (codes "u1")
      (config_json [] (direct_inbounds (with_h3_from_env plain_node direct_env)))
      1
      rest
    × (vless_lines ascii (codes "JPY-03") (codes "u1") (codes "a.b") direct_env
        ≡ reality_lines ascii (codes "JPY-03") (codes "u1") (codes "a.b") direct_env ++ rest)
unfolding get lookup equal trim_space render_xray_direct_reality with_h3_from_env has_prefix
direct_lines-Links_example =
    direct_lines-Links ascii (codes "JPY-03") (codes "u1") (codes "a.b") plain_node direct_env
      (config_json [] (direct_inbounds (with_h3_from_env plain_node direct_env))) refl refl refl
