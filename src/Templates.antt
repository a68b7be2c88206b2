-- ===== src/Templates.antt =====
-- internal/templates/render.go: the cloudflared configs, rendered as text from a template, and what
-- the renderers share.
pub mod Lines
pub mod Xray
pub mod Served
pub mod Removal
mod Tests
use cf_vpn.Prelude.{
  Bool, true, false, not, ◌||◌, List, [], ◌∷◌, ◌++◌, if◌then◌else◌, Result, ok, err, ◌>>=◌,
}
use cf_vpn.Text.{Bytes, codes, equal, is_empty}
use cf_vpn.Dict.{Dict, put}
use cf_vpn.Validate.{Refusal, Check, uuid, hostname}

pub data RenderError : Type 0 where
  bad_tunnel_uuid : Refusal → RenderError
  bad_host : Bytes → Refusal → RenderError
  bad_protocol half_direct_route direct_path_no_slash : RenderError
  no_private_key no_dest no_server_name no_short_id half_h3_route h3_path_no_slash : RenderError

-- The error with its label, as `fmt.Errorf` wraps it.
abbrev pub labelled : (Refusal → RenderError) → Check → Result RenderError (Unit {0})
labelled f (ok u) = ok u
labelled f (err r) = err (f r)

-- The loop over the sorted names of the hosts.
abbrev pub check_hosts : Dict Bytes → Result RenderError (Unit {0})
check_hosts [] = ok tt
check_hosts ((name, host) ∷ rest) =
    labelled (bad_host name) (hostname host) >>= λ _. check_hosts rest

unfoldable pub validate_cloudflared_inputs : Bytes → Dict Bytes → Result RenderError (Unit {0})
validate_cloudflared_inputs tunnel_uuid hosts =
    labelled bad_tunnel_uuid (uuid tunnel_uuid) >>= λ _. check_hosts hosts

unfoldable pub validate_cloudflared_protocol : Bytes → Result RenderError (Unit {0})
validate_cloudflared_protocol p =
    if is_empty p || equal p (codes "quic") || equal p (codes "http2")
    then ok tt
    else err bad_protocol

-- A line of a template in front of what follows it.
abbrev pub line : Bytes → Bytes → Bytes
line l rest = l ++ (b'\n' ∷ rest)

-- `{{if .Protocol}}protocol: {{.Protocol}}`
abbrev pub protocol_part : Bytes → Bytes → Bytes
protocol_part p rest = if is_empty p then rest else line (codes "protocol: " ++ p) rest

abbrev pub tunnel_part : Bytes → Bytes → Bytes
tunnel_part u rest =
    line (codes "tunnel: " ++ u)
      (line (codes "credentials-file: /etc/cfvpn/cloudflared/" ++ (u ++ codes ".json")) rest)

abbrev pub admin_part : Bytes → Bytes
admin_part admin_host = line (codes "  - hostname: " ++ admin_host) (
    line (codes "    service: http://127.0.0.1:6788")
      (line (codes "  - service: http_status:404") []))

-- `cloudflaredAdminTemplate`
unfoldable pub cloudflared_admin_template : Bytes → Bytes → Bytes → Bytes
cloudflared_admin_template tunnel_uuid admin_host protocol =
    tunnel_part tunnel_uuid
      (protocol_part protocol (line (codes "ingress:") (admin_part admin_host)))

abbrev pub route_part : Bytes → Bytes → Bytes → Bytes → Bytes
route_part domain path service rest = line (codes "  - hostname: " ++ domain) (
    line (codes "    path: ^" ++ path)
      (line (codes "    service: http://127.0.0.1:" ++ service) rest))

abbrev pub xhttp_part : Bool → Bytes → Bytes → Bytes
xhttp_part xhttp domain rest =
    if xhttp then route_part domain (codes "/api/v2/stream") (codes "10002") rest else rest

-- `cloudflaredWithAdminTemplate`
unfoldable pub cloudflared_with_admin_template : Bytes → Bytes → Bytes → Bytes → Bool → Bytes
cloudflared_with_admin_template tunnel_uuid domain admin_host protocol xhttp =
    tunnel_part tunnel_uuid (
      protocol_part protocol (
        line (codes "ingress:") (
          xhttp_part xhttp domain
            (route_part domain (codes "/api/v1/sync") (codes "10001") (admin_part admin_host)))))

unfoldable pub render_cloudflared_admin : Bytes → Bytes → Bytes → Result RenderError Bytes
unfolding put validate_cloudflared_inputs validate_cloudflared_protocol cloudflared_admin_template
render_cloudflared_admin tunnel_uuid admin_host protocol =
    validate_cloudflared_inputs tunnel_uuid (put (codes "admin host") admin_host []) >>= λ _.
    validate_cloudflared_protocol protocol >>= λ _.
    ok (cloudflared_admin_template tunnel_uuid admin_host protocol)

pub record CloudflaredOptions : Type 0 where
  pub protocol : Bytes
  pub xhttp : Bool

unfoldable pub render_cloudflared_with_admin_opts :
    Bytes → Bytes → Bytes → CloudflaredOptions → Result RenderError Bytes
unfolding put validate_cloudflared_inputs validate_cloudflared_protocol
    cloudflared_with_admin_template
render_cloudflared_with_admin_opts tunnel_uuid domain admin_host opts =
    validate_cloudflared_inputs tunnel_uuid
      (put (codes "domain") domain (put (codes "admin host") admin_host []))
    >>= λ _. validate_cloudflared_protocol opts.protocol >>= λ _.
        ok (cloudflared_with_admin_template tunnel_uuid domain admin_host opts.protocol opts.xhttp)

unfoldable pub render_cloudflared_with_admin :
    Bytes → Bytes → Bytes → Bytes → Result RenderError Bytes
unfolding render_cloudflared_with_admin_opts
render_cloudflared_with_admin tunnel_uuid domain admin_host protocol =
    render_cloudflared_with_admin_opts tunnel_uuid domain admin_host
      (record { protocol = protocol; xhttp = false })
