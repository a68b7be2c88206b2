-- ===== src/Units/Texts.antt =====
-- internal/systemd/units.go: the texts of the unit files, as lists of their lines.
use cf_vpn.Prelude.{List, [], ◌∷◌, ◌++◌}
use cf_vpn.Text.{Bytes, codes}

-- Lines with a newline behind each.
abbrev pub text_of : List Bytes → Bytes
text_of [] = []
text_of (l ∷ ls) = l ++ (b'\n' ∷ text_of ls)

unfoldable pub xray_service : Bytes → Bytes
xray_service config_path = text_of (
    codes "[Unit]"
    ∷ codes "Description=cfvpn xray"
    ∷ codes "After=network-online.target"
    ∷ []
    ∷ codes "[Service]"
    ∷ codes "Type=simple"
    ∷ codes "Environment=XRAY_LOCATION_ASSET=/usr/local/share/xray"
    ∷ (codes "ExecStart=/usr/local/bin/xray run -c " ++ config_path)
    ∷ codes "Restart=on-failure"
    ∷ codes "RestartSec=3"
    ∷ codes "User=root"
    ∷ codes "AmbientCapabilities=CAP_NET_BIND_SERVICE"
    ∷ []
    ∷ codes "[Install]"
    ∷ codes "WantedBy=multi-user.target"
    ∷ [])

unfoldable pub cloudflared_service : Bytes → Bytes
cloudflared_service config_path = text_of (
    codes "[Unit]"
    ∷ codes "Description=cfvpn cloudflared"
    ∷ codes "After=network-online.target"
    ∷ []
    ∷ codes "[Service]"
    ∷ codes "Type=simple"
    ∷ (codes "ExecStart=/usr/local/bin/cloudflared tunnel --config "
        ++ (config_path ++ codes " run"))
    ∷ codes "Restart=on-failure"
    ∷ codes "RestartSec=3"
    ∷ []
    ∷ codes "[Install]"
    ∷ codes "WantedBy=multi-user.target"
    ∷ [])

unfoldable pub healthcheck_service : Bytes
healthcheck_service = text_of (
    codes "[Unit]"
    ∷ codes "Description=cfvpn periodic healthcheck"
    ∷ []
    ∷ codes "[Service]"
    ∷ codes "Type=oneshot"
    ∷ codes "ExecStart=/usr/local/bin/cfvpnctl healthcheck run"
    ∷ [])

unfoldable pub healthcheck_timer : Bytes
healthcheck_timer = text_of (
    codes "[Unit]"
    ∷ codes "Description=cfvpn healthcheck timer"
    ∷ []
    ∷ codes "[Timer]"
    ∷ codes "OnBootSec=2m"
    ∷ codes "OnUnitActiveSec=5m"
    ∷ codes "Unit=cfvpn-healthcheck.service"
    ∷ []
    ∷ codes "[Install]"
    ∷ codes "WantedBy=timers.target"
    ∷ [])

unfoldable pub agent_service : Bytes
agent_service = text_of (
    codes "[Unit]"
    ∷ codes "Description=cfvpn agent"
    ∷ codes "After=network-online.target"
    ∷ []
    ∷ codes "[Service]"
    ∷ codes "Type=simple"
    ∷ codes "EnvironmentFile=/etc/cfvpn/cfvpn.env"
    ∷ codes "ExecStart=/usr/local/bin/cfvpn-agent"
    ∷ codes "Restart=on-failure"
    ∷ codes "RestartSec=3"
    ∷ []
    ∷ codes "[Install]"
    ∷ codes "WantedBy=multi-user.target"
    ∷ [])

unfoldable pub hysteria_service : Bytes → Bytes
hysteria_service config_path = text_of (
    codes "[Unit]"
    ∷ codes "Description=cf-vpn Hysteria 2 server"
    ∷ codes "After=network-online.target"
    ∷ codes "Wants=network-online.target"
    ∷ []
    ∷ codes "[Service]"
    ∷ codes "Type=simple"
    ∷ (codes "ExecStart=/usr/local/bin/hysteria server -c " ++ config_path)
    ∷ codes "Restart=on-failure"
    ∷ codes "RestartSec=2s"
    ∷ codes "LimitNOFILE=1048576"
    ∷ []
    ∷ codes "[Install]"
    ∷ codes "WantedBy=multi-user.target"
    ∷ [])

unfoldable pub cert_renew_service : Bytes
cert_renew_service = text_of (
    codes "[Unit]"
    ∷ codes "Description=cf-vpn cert renew"
    ∷ codes "After=network-online.target"
    ∷ []
    ∷ codes "[Service]"
    ∷ codes "Type=oneshot"
    ∷ codes "ExecStart=/usr/local/bin/cfvpnctl cert-renew"
    ∷ [])

unfoldable pub cert_renew_timer : Bytes
cert_renew_timer = text_of (
    codes "[Unit]"
    ∷ codes "Description=cf-vpn daily cert renew"
    ∷ []
    ∷ codes "[Timer]"
    ∷ codes "OnCalendar=daily"
    ∷ codes "RandomizedDelaySec=1h"
    ∷ codes "Persistent=true"
    ∷ []
    ∷ codes "[Install]"
    ∷ codes "WantedBy=timers.target"
    ∷ [])
