-- ===== src/Templates/Tests.antt =====
-- Configs of small nodes, and each theorem at one of them.
use cf_vpn.Prelude.{true, List, [], ◌∷◌, ◌++◌, none, ◌≡◌, refl, Result, ok, err}
use cf_vpn.Text.{Bytes, codes, equal, has_prefix}
use cf_vpn.Text.Order.{less}
use cf_vpn.Text.Trim.{trim_space}
use cf_vpn.Text.Split.{split_on}
use cf_vpn.Regex.{matches}
use cf_vpn.Dict.{lookup, put, delete, put_all}
use cf_vpn.Json.{Json, as_slice, read_all}
use cf_vpn.Validate.{hostname, check_labels, uuid, invalid_label}
use cf_vpn.Xray.{
  Config, unmarshal_settings, marshal_settings, unmarshal_config, preferred_entries, leftovers,
}
use cf_vpn.Xray.Accounts.{normalize_email, strip_suffixes, find_in, remove_user}
use cf_vpn.Templates.{
  CloudflaredOptions, bad_host, cloudflared_with_admin_template, validate_cloudflared_inputs,
  validate_cloudflared_protocol, render_cloudflared_with_admin_opts,
}
use cf_vpn.Templates.Xray.{
  XrayUser, XrayCloudflareOptions, XrayDirectRealityInputs, config_json, cloudflare_inbounds,
  direct_inbounds, render_xray_cloudflare_opts, render_xray_direct_reality,
}
use cf_vpn.Templates.Lines.{Renders, vpn_lines, render_cloudflared_with_admin_opts-Renders}
use cf_vpn.Templates.Served.{
  Serving, cloudflare_clients, flow_clients, plain_clients, render_xray_cloudflare_opts-Serving,
  render_xray_direct_reality-Serving,
}
use cf_vpn.Templates.Removal.{Kept, remove_user-Kept}

abbrev tunnel : Bytes
tunnel = codes "0a1b2c3d-0000-0000-0000-0000000000ff"

abbrev quick : CloudflaredOptions
quick = record { protocol = codes "quic"; xhttp = true }

newline_in_domain :
    render_cloudflared_with_admin_opts tunnel (codes "a.b" ++ b'\n' ∷ codes "x") (codes "c.d") quick
    ≡ err (bad_host (codes "domain") invalid_label)
unfolding render_cloudflared_with_admin_opts validate_cloudflared_inputs put less equal hostname
    uuid matches split_on check_labels trim_space
newline_in_domain = refl

render_cloudflared_with_admin_opts-Renders_example :
    Renders tunnel
      (codes "quic")
      (codes "c.d" ∷ codes "a.b" ∷ [])
      (vpn_lines (codes "a.b") (codes "c.d") true)
      (cloudflared_with_admin_template tunnel (codes "a.b") (codes "c.d") (codes "quic") true)
unfolding render_cloudflared_with_admin_opts validate_cloudflared_inputs put less equal hostname
    uuid matches split_on check_labels trim_space validate_cloudflared_protocol
render_cloudflared_with_admin_opts-Renders_example =
    render_cloudflared_with_admin_opts-Renders tunnel (codes "a.b") (codes "c.d") quick
      (cloudflared_with_admin_template tunnel (codes "a.b") (codes "c.d") (codes "quic") true) refl

abbrev two_users : List XrayUser
two_users =
    (record { name = codes "alice"; uuid = codes "u1" })
    ∷ (record { name = codes "bob"; uuid = codes "u2" })
    ∷ []

abbrev both_routes : XrayCloudflareOptions
both_routes = record { xhttp = true; direct_host = []; direct_path = [] }

abbrev rendered : Json
rendered = config_json [] (cloudflare_inbounds two_users (codes "a.b") both_routes)

render_xray_cloudflare_opts-Serving_example :
    Serving (cloudflare_clients two_users both_routes) rendered
unfolding render_xray_cloudflare_opts
render_xray_cloudflare_opts-Serving_example =
    render_xray_cloudflare_opts-Serving two_users (codes "a.b") [] both_routes rendered refl

abbrev direct_node : XrayDirectRealityInputs
direct_node = record {
  users = two_users;
  private_key = codes "k";
  short_ids = codes "ab" ∷ [];
  dest = codes "a.b:443";
  server_names = codes "a.b" ∷ [];
  dns_servers = [];
  h3_host = codes "h.b";
  h3_path = codes "/p";
  h3_cert = codes "/c";
  h3_key = codes "/k";
}

render_xray_direct_reality-Serving_example :
    Serving
      (flow_clients two_users ∷ plain_clients two_users ∷ [])
      (config_json [] (direct_inbounds direct_node))
unfolding render_xray_direct_reality has_prefix
render_xray_direct_reality-Serving_example =
    render_xray_direct_reality-Serving direct_node (config_json [] (direct_inbounds direct_node))
      refl

abbrev got : {E : Type 0} → Result E Config → Config
got (ok c) = c
got (err e) = record { inbounds = none; extras = [] }

abbrev before : Config
before = got (unmarshal_config rendered)

abbrev after : Config
after = got (remove_user before (codes "bob"))

remove_user-Kept_example : Kept two_users (codes "bob") after
unfolding render_xray_cloudflare_opts config_json unmarshal_config remove_user find_in
    unmarshal_settings marshal_settings preferred_entries leftovers normalize_email strip_suffixes
    trim_space as_slice read_all put_all put lookup delete less equal
remove_user-Kept_example =
    remove_user-Kept two_users (codes "a.b") [] both_routes rendered before (codes "bob") after refl
      refl refl refl
