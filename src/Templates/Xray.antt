-- ===== src/Templates/Xray.antt =====
-- internal/templates/render.go: the xray configs, as the JSON documents that json.MarshalIndent writes.
-- A Go map is written with its keys in ascending order. internal/templates/paths.go has the constants.
use cf_vpn.Prelude.{
  Bool, true, false, not, ◌&&◌, ◌||◌, List, [], ◌∷◌, ◌++◌, map, String, if◌then◌else◌, Result, ok,
  err,
}
use cf_vpn.Text.{Bytes, codes, is_empty, has_prefix}
use cf_vpn.Json.{Json, flag, number, text, array, object, array_of, object_of}
use cf_vpn.Templates.{
  RenderError, half_direct_route, direct_path_no_slash, no_private_key, no_dest, no_server_name,
  no_short_id, half_h3_route, h3_path_no_slash,
}

pub record XrayUser : Type 0 where
  pub name : Bytes
  pub uuid : Bytes

abbrev pub texts : List Bytes → Json
texts ts = array (array_of (map text ts))

abbrev pub str : String → Json
str s = text (codes s)

abbrev pub num : String → Json
num s = number (codes s)

abbrev pub entry : String → Json → Bytes × Json
entry k v = (codes k, v)

abbrev pub list_json : List Json → Json
list_json js = array (array_of js)

-- A map literal whose keys are listed in ascending order.
abbrev pub map_json : List (Bytes × Json) → Json
map_json es = object (object_of es)

abbrev pub doh_servers : List Bytes
doh_servers = codes "https://1.1.1.1/dns-query" ∷ codes "https://9.9.9.9/dns-query" ∷ []

abbrev pub dns_servers : List Bytes → List Bytes
dns_servers [] = doh_servers
dns_servers (s ∷ ss) = s ∷ ss

abbrev pub dns_block : List Bytes → Json
dns_block servers = map_json (entry "servers" (texts (dns_servers servers)) ∷ [])

abbrev pub sniffing_block : Json
sniffing_block = map_json (
    entry "destOverride" (texts (codes "http" ∷ codes "tls" ∷ codes "quic" ∷ []))
    ∷ entry "enabled" (flag true)
    ∷ [])

abbrev pub standard_outbounds : Json
standard_outbounds = list_json (
    map_json (
      entry "protocol" (str "freedom")
      ∷ entry "settings" (map_json (entry "domainStrategy" (str "UseIP") ∷ []))
      ∷ entry "tag" (str "direct")
      ∷ [])
    ∷ map_json (entry "protocol" (str "dns") ∷ entry "tag" (str "dns-out") ∷ [])
    ∷ map_json (entry "protocol" (str "blackhole") ∷ entry "tag" (str "block") ∷ [])
    ∷ [])

abbrev pub standard_routing : Json
standard_routing = map_json (
    entry "rules" (
      list_json (
        map_json (
          entry "outboundTag" (str "dns-out")
          ∷ entry "port" (num "53")
          ∷ entry "type" (str "field")
          ∷ [])
        ∷ map_json (
            entry "ip" (texts (codes "geoip:private" ∷ []))
            ∷ entry "outboundTag" (str "block")
            ∷ entry "type" (str "field")
            ∷ [])
        ∷ []))
    ∷ [])

abbrev pub vless_path : Bytes
vless_path = codes "/api/v1/sync"

abbrev pub xhttp_path : Bytes
xhttp_path = codes "/api/v2/stream"

abbrev pub xhttp_mode : Bytes
xhttp_mode = codes "packet-up"

abbrev pub xhttp_port : String
xhttp_port = "10002"

abbrev pub xhttp_direct_port : String
xhttp_direct_port = "10003"

abbrev pub xhttp_direct_mode : Bytes
xhttp_direct_mode = codes "stream-one"

abbrev pub xhttp_h3_port : String
xhttp_h3_port = "443"

abbrev pub xhttp_h3_mode : Bytes
xhttp_h3_mode = codes "stream-one"

abbrev pub xhttp_h3_alpn : List Bytes
xhttp_h3_alpn = codes "h3" ∷ []

abbrev pub vpn_email : XrayUser → Bytes
vpn_email u = u.name ++ codes "@vpn"

-- An entry of `clients` without a flow, and one with the flow of REALITY.
abbrev pub client_json : XrayUser → Json
client_json u = map_json (entry "email" (text (vpn_email u)) ∷ entry "id" (text u.uuid) ∷ [])

abbrev pub flow_json : XrayUser → Json
flow_json u = map_json (
    entry "email" (text (vpn_email u))
    ∷ entry "flow" (str "xtls-rprx-vision")
    ∷ entry "id" (text u.uuid)
    ∷ [])

abbrev pub settings_json : List Json → Json
settings_json clients =
    map_json (entry "clients" (list_json clients) ∷ entry "decryption" (str "none") ∷ [])

-- An inbound with sniffing.
abbrev pub sniffed_inbound : String → String → String → List Json → Json → Json
sniffed_inbound tag listen port clients stream = map_json (
    entry "listen" (str listen)
    ∷ entry "port" (num port)
    ∷ entry "protocol" (str "vless")
    ∷ entry "settings" (settings_json clients)
    ∷ entry "sniffing" sniffing_block
    ∷ entry "streamSettings" stream
    ∷ entry "tag" (str tag)
    ∷ [])

abbrev pub httpupgrade_stream : Bytes → Json
httpupgrade_stream vpn_host = map_json (
    entry "httpupgradeSettings"
      (map_json (entry "host" (text vpn_host) ∷ entry "path" (text vless_path) ∷ []))
    ∷ entry "network" (str "httpupgrade")
    ∷ [])

abbrev pub httpupgrade_inbound : List Json → Bytes → Json
httpupgrade_inbound clients vpn_host =
    sniffed_inbound "vless-httpupgrade" "127.0.0.1" "10001" clients (httpupgrade_stream vpn_host)

abbrev pub xhttp_settings : Bytes → Bytes → Bytes → Json
xhttp_settings host mode path =
    map_json (entry "host" (text host) ∷ entry "mode" (text mode) ∷ entry "path" (text path) ∷ [])

abbrev pub xhttp_stream : Bytes → Bytes → Bytes → Json
xhttp_stream host mode path =
    map_json
      (entry "network" (str "xhttp") ∷ entry "xhttpSettings" (xhttp_settings host mode path) ∷ [])

abbrev pub xhttp_inbound : List Json → Bytes → Json
xhttp_inbound clients vpn_host =
    sniffed_inbound "vless-xhttp" "127.0.0.1" xhttp_port clients
      (xhttp_stream vpn_host xhttp_mode xhttp_path)

abbrev pub direct_inbound : List Json → Bytes → Bytes → Json
direct_inbound clients host path =
    sniffed_inbound "vless-xhttp-direct" "127.0.0.1" xhttp_direct_port clients
      (xhttp_stream host xhttp_direct_mode path)

-- The whole config around its inbounds.
unfoldable pub config_json : List Bytes → List Json → Json
config_json dns inbounds = map_json (
    entry "dns" (dns_block dns)
    ∷ entry "inbounds" (list_json inbounds)
    ∷ entry "log" (map_json (entry "loglevel" (str "warning") ∷ []))
    ∷ entry "outbounds" standard_outbounds
    ∷ entry "routing" standard_routing
    ∷ [])

pub record XrayCloudflareOptions : Type 0 where
  pub xhttp : Bool
  pub direct_host : Bytes
  pub direct_path : Bytes

-- `append` under a condition.
abbrev pub when : {A : Type 0} → Bool → A → List A
when b a = if b then a ∷ [] else []

abbrev pub cloudflare_inbounds : List XrayUser → Bytes → XrayCloudflareOptions → List Json
cloudflare_inbounds users vpn_host opts =
    let clients = map client_json users in
    httpupgrade_inbound clients vpn_host
    ∷ (when opts.xhttp (xhttp_inbound clients vpn_host)
        ++ when (not (is_empty opts.direct_host))
            (direct_inbound clients opts.direct_host opts.direct_path))

abbrev differ : Bool → Bool → Bool
differ true b = not b
differ false b = b

unfoldable pub render_xray_cloudflare_opts :
    List XrayUser → Bytes → List Bytes → XrayCloudflareOptions → Result RenderError Json
unfolding has_prefix config_json
render_xray_cloudflare_opts users vpn_host dns opts =
    if differ (is_empty opts.direct_host) (is_empty opts.direct_path)
    then err half_direct_route
    else if not (is_empty opts.direct_path) && not (has_prefix opts.direct_path (codes "/"))
    then err direct_path_no_slash
    else ok (config_json dns (cloudflare_inbounds users vpn_host opts))

unfoldable pub render_xray_cloudflare :
    List XrayUser → Bytes → List Bytes → Bool → Result RenderError Json
unfolding render_xray_cloudflare_opts
render_xray_cloudflare users vpn_host dns xhttp =
    render_xray_cloudflare_opts users vpn_host dns
      (record { xhttp = xhttp; direct_host = []; direct_path = [] })

unfoldable pub render_xray_cloudflare_http_upgrade :
    List XrayUser → Bytes → List Bytes → Result RenderError Json
unfolding render_xray_cloudflare
render_xray_cloudflare_http_upgrade users vpn_host dns =
    render_xray_cloudflare users vpn_host dns false

pub record XrayDirectRealityInputs : Type 0 where
  pub users : List XrayUser
  pub private_key : Bytes
  pub short_ids : List Bytes
  pub dest : Bytes
  pub server_names : List Bytes
  pub dns_servers : List Bytes
  pub h3_host : Bytes
  pub h3_path : Bytes
  pub h3_cert : Bytes
  pub h3_key : Bytes

abbrev pub reality_settings : XrayDirectRealityInputs → Json
reality_settings inputs = map_json (
    entry "dest" (text inputs.dest)
    ∷ entry "privateKey" (text inputs.private_key)
    ∷ entry "serverNames" (texts inputs.server_names)
    ∷ entry "shortIds" (texts inputs.short_ids)
    ∷ entry "show" (flag false)
    ∷ entry "xver" (num "0")
    ∷ [])

abbrev pub reality_inbound : XrayDirectRealityInputs → Json
reality_inbound inputs = map_json (
    entry "listen" (str "0.0.0.0")
    ∷ entry "port" (num "443")
    ∷ entry "protocol" (str "vless")
    ∷ entry "settings" (settings_json (map flow_json inputs.users))
    ∷ entry "streamSettings" (
        map_json (
          entry "network" (str "tcp")
          ∷ entry "realitySettings" (reality_settings inputs)
          ∷ entry "security" (str "reality")
          ∷ []))
    ∷ entry "tag" (str "vless-reality")
    ∷ [])

abbrev pub h3_stream : XrayDirectRealityInputs → Json
h3_stream inputs = map_json (
    entry "network" (str "xhttp")
    ∷ entry "security" (str "tls")
    ∷ entry "tlsSettings" (
        map_json (
          entry "alpn" (texts xhttp_h3_alpn)
          ∷ entry "certificates" (
              list_json (
                map_json (
                  entry "certificateFile" (text inputs.h3_cert)
                  ∷ entry "keyFile" (text inputs.h3_key)
                  ∷ [])
                ∷ []))
          ∷ entry "serverName" (text inputs.h3_host)
          ∷ []))
    ∷ entry "xhttpSettings" (xhttp_settings inputs.h3_host xhttp_h3_mode inputs.h3_path)
    ∷ [])

abbrev pub h3_inbound : XrayDirectRealityInputs → Json
h3_inbound inputs =
    sniffed_inbound "vless-xhttp-h3" "0.0.0.0" xhttp_h3_port (map client_json inputs.users)
      (h3_stream inputs)

abbrev pub any_h3 : XrayDirectRealityInputs → Bool
any_h3 i =
    not (is_empty i.h3_host)
    || (not (is_empty i.h3_path) || (not (is_empty i.h3_cert) || not (is_empty i.h3_key)))

abbrev pub half_h3 : XrayDirectRealityInputs → Bool
half_h3 i = is_empty i.h3_host || (is_empty i.h3_path || (is_empty i.h3_cert || is_empty i.h3_key))

abbrev pub none_given : List Bytes → Bool
none_given [] = true
none_given (x ∷ xs) = false

abbrev pub direct_inbounds : XrayDirectRealityInputs → List Json
direct_inbounds inputs =
    reality_inbound inputs ∷ when (not (is_empty inputs.h3_host)) (h3_inbound inputs)

unfoldable pub render_xray_direct_reality : XrayDirectRealityInputs → Result RenderError Json
unfolding has_prefix config_json
render_xray_direct_reality inputs =
    if is_empty inputs.private_key
    then err no_private_key
    else if is_empty inputs.dest
    then err no_dest
    else if none_given inputs.server_names
    then err no_server_name
    else if none_given inputs.short_ids
    then err no_short_id
    else if any_h3 inputs && half_h3 inputs
    then err half_h3_route
    else if any_h3 inputs && not (has_prefix inputs.h3_path (codes "/"))
    then err h3_path_no_slash
    else ok (config_json inputs.dns_servers (direct_inbounds inputs))
