-- ===== src/Templates/Served.antt =====
-- internal/templates/render.go with internal/xray/config.go: the inbounds of a rendered config as the
-- control plane reads them back.
use cf_vpn.Prelude.{
  Bool, true, false, not, List, [], ◌∷◌, ◌++◌, map, some, ◌≡◌, refl, ap, ◌∙◌, subst, arith, String,
  ok, ok-injective,
}
use cf_vpn.Text.{Bytes, codes, equal, equal_self, is_empty}
use cf_vpn.Text.Order.{less}
use cf_vpn.Dict.{put, put_all, lookup, delete}
use cf_vpn.Json.{Json, items-array_of, elements, read_all, as_slice}
use cf_vpn.Xray.{
  Client, Settings, Inbound, Config, unmarshal_client, unmarshal_settings, unmarshal_inbound,
  unmarshal_config,
}
use cf_vpn.Xray.Accounts.{find_in, load_vless, settings_clients, place_clients, clients_of}
use cf_vpn.Xray.Users.{new_client}
use cf_vpn.Templates.{RenderError}
use cf_vpn.Templates.Xray

-- The client that a user is to have.
abbrev pub client_with : Bytes → Xray.XrayUser → Client
client_with flow u = new_client u.name u.uuid flow

abbrev pub expected : List Client → Settings
expected cs = record { clients = some cs; decryption = codes "none"; extras = [] }

-- A vless inbound for exactly these clients.
pub record Serves (cs : List Client) (i : Inbound) : Type 0 where
  pub protocol : i.protocol ≡ codes "vless"
  pub settings : load_vless i ≡ ok (expected cs)

read-client_json :
    (u : Xray.XrayUser) → unmarshal_client (Xray.client_json u) ≡ ok (client_with [] u)
unfolding put_all put equal less lookup delete
read-client_json u = refl

read-flow_json :
    (u : Xray.XrayUser)
    → unmarshal_client (Xray.flow_json u) ≡ ok (client_with (codes "xtls-rprx-vision") u)
unfolding put_all put equal less lookup delete
read-flow_json u = refl

module _ (flow : Bytes) (write : Xray.XrayUser → Json)
    (good : (u : Xray.XrayUser) → unmarshal_client (write u) ≡ ok (client_with flow u)) where
  read_all-map :
      (us : List Xray.XrayUser)
      → read_all unmarshal_client (map write us) ≡ ok (map (client_with flow) us)
  unfolding read_all
  read_all-map [] = refl
  read_all-map (u ∷ us) = rw (good u) (rw (read_all-map us) refl)

  read-settings_json :
      (us : List Xray.XrayUser)
      → unmarshal_settings (Xray.settings_json (map write us))
        ≡ ok (expected (map (client_with flow) us))
  unfolding unmarshal_settings as_slice put_all put equal less lookup delete
  read-settings_json us = rw (items-array_of (map write us)) (rw (read_all-map us) refl)

-- Inbounds that serve these lists of clients, one each, in their order.
abbrev pub ServesAll : List (List Client) → List Inbound → Type 0
ServesAll [] [] = Unit {0}
ServesAll [] (i ∷ is) = ⊥
ServesAll (cs ∷ css) [] = ⊥
ServesAll (cs ∷ css) (i ∷ is) = Serves cs i × ServesAll css is

-- The clients of the first of these inbounds are those of the config.
pub served_clients :
    (cfg : Config) (cs : List Client) (css : List (List Client)) (is : List Inbound)
    → cfg.inbounds ≡ some is
    → ServesAll (cs ∷ css) is
    → clients_of cfg ≡ cs
unfolding find_in
served_clients cfg cs css [] e h = absurd h
served_clients cfg cs css (i ∷ is) e (h, k) =
    let found : find_in (codes "vless") (i ∷ is)
        ≡ some (record { before = []; found = i; behind = is }) =
      rw h.protocol (rw (equal_self (codes "vless")) refl) in
    ap (λ l. place_clients (find_in (codes "vless") (elements l))) e
    ∙ ap place_clients found
    ∙ ap settings_clients h.settings

-- What reading a document as a config must give.
pub record Serving (css : List (List Client)) (j : Json) : Type 0 where
  pub config : Config
  pub inbounds : List Inbound
  pub reads : unmarshal_config j ≡ ok config
  pub holds : config.inbounds ≡ some inbounds
  pub serves : ServesAll css inbounds

-- A document that reads as an inbound for these clients.
record Reads (cs : List Client) (j : Json) : Type 0 where
  pub inbound : Inbound
  pub reads : unmarshal_inbound j ≡ ok inbound
  pub serves : Serves cs inbound

abbrev ReadsAll : List (List Client) → List Json → Type 0
ReadsAll [] [] = Unit {0}
ReadsAll [] (j ∷ js) = ⊥
ReadsAll (cs ∷ css) [] = ⊥
ReadsAll (cs ∷ css) (j ∷ js) = Reads cs j × ReadsAll css js

read_inbounds :
    (css : List (List Client)) (js : List Json)
    → ReadsAll css js
    → (is : List Inbound) × (read_all unmarshal_inbound js ≡ ok is) × ServesAll css is
unfolding read_all
read_inbounds [] [] h = ([], refl, tt)
read_inbounds [] (j ∷ js) h = absurd h
read_inbounds (cs ∷ css) [] h = absurd h
read_inbounds (cs ∷ css) (j ∷ js) (r, h) =
    let (is, e, s) = read_inbounds css js h in
    (r.inbound ∷ is, rw (r.reads) (rw e refl), (r.serves, s))

config_json-Serving :
    (css : List (List Client)) (dns : List Bytes) (js : List Json)
    → ReadsAll css js
    → Serving css (Xray.config_json dns js)
unfolding Xray.config_json unmarshal_config as_slice put_all put equal less lookup delete
config_json-Serving css dns js h =
    let (is, e, s) = read_inbounds css js h in
    record {
      config = record {
        inbounds = some is;
        extras =
            (codes "dns", Xray.dns_block dns)
            ∷ (codes "log", Xray.map_json (Xray.entry "loglevel" (Xray.str "warning") ∷ []))
            ∷ (codes "outbounds", Xray.standard_outbounds)
            ∷ (codes "routing", Xray.standard_routing)
            ∷ [];
      };
      inbounds = is;
      reads = rw (items-array_of js) (rw e refl);
      holds = refl;
      serves = s;
    }

module _ (cs : List Client) (write : List Json)
    (good : unmarshal_settings (Xray.settings_json write) ≡ ok (expected cs)) where
  sniffed_inbound-Reads :
      (tag listen port : String) (stream : Json)
      → Reads cs (Xray.sniffed_inbound tag listen port write stream)
  unfolding put_all put equal less lookup delete
  sniffed_inbound-Reads tag listen port stream = record {
    inbound = record {
      protocol = codes "vless";
      settings = some (Xray.settings_json write);
      extras =
          (codes "listen", Xray.str listen)
          ∷ (codes "port", Xray.num port)
          ∷ (codes "sniffing", Xray.sniffing_block)
          ∷ (codes "streamSettings", stream)
          ∷ (codes "tag", Xray.str tag)
          ∷ [];
    };
    reads = refl;
    serves = record { protocol = refl; settings = good };
  }

abbrev pub plain_clients : List Xray.XrayUser → List Client
plain_clients us = map (client_with []) us

abbrev pub flow_clients : List Xray.XrayUser → List Client
flow_clients us = map (client_with (codes "xtls-rprx-vision")) us

ReadsAll-append :
    (css : List (List Client)) (js : List Json) (b : Bool) (cs : List Client) (j : Json)
    → ReadsAll css js
    → Reads cs j
    → ReadsAll (css ++ Xray.when b cs) (js ++ Xray.when b j)
ReadsAll-append [] [] true cs j h r = (r, tt)
ReadsAll-append [] [] false cs j h r = tt
ReadsAll-append [] (x ∷ js) b cs j h r = absurd h
ReadsAll-append (c ∷ css) [] b cs j h r = absurd h
ReadsAll-append (c ∷ css) (x ∷ js) b cs j (hx, h) r = (hx, ReadsAll-append css js b cs j h r)

-- The clients of the inbounds of a cloudflare node.
abbrev pub cloudflare_clients : List Xray.XrayUser → Xray.XrayCloudflareOptions → List (List Client)
cloudflare_clients us opts =
    plain_clients us
    ∷ (Xray.when opts.xhttp (plain_clients us)
        ++ Xray.when (not (is_empty opts.direct_host)) (plain_clients us))

-- When `RenderXrayCloudflareOpts` returns no error, the control plane reads back a config whose
-- inbounds, one and one more for each option that is set, all serve exactly the given users, in
-- their order, with their uuids and no flow.
pub render_xray_cloudflare_opts-Serving :
    (us : List Xray.XrayUser) (host : Bytes) (dns : List Bytes) (opts : Xray.XrayCloudflareOptions)
    (j : Json)
    → Xray.render_xray_cloudflare_opts us host dns opts ≡ ok j
    → Serving (cloudflare_clients us opts) j
unfolding Xray.render_xray_cloudflare_opts
render_xray_cloudflare_opts-Serving us host dns opts j h =
    let good = read-settings_json [] Xray.client_json read-client_json us in
    let inbound = sniffed_inbound-Reads (plain_clients us) (map Xray.client_json us) good in
    let css = cloudflare_clients us opts in
    subst (Serving css) (ok-injective {E = RenderError} (ground arith)) (
      config_json-Serving css dns (Xray.cloudflare_inbounds us host opts) (
        inbound "vless-httpupgrade" "127.0.0.1" "10001" (Xray.httpupgrade_stream host),
        ReadsAll-append (Xray.when opts.xhttp (plain_clients us)) _
            (not (is_empty opts.direct_host)) (plain_clients us) _
            (ReadsAll-append [] [] opts.xhttp (plain_clients us) _ tt (
              inbound "vless-xhttp" "127.0.0.1" Xray.xhttp_port
                (Xray.xhttp_stream host Xray.xhttp_mode Xray.xhttp_path)))
            (inbound "vless-xhttp-direct" "127.0.0.1" Xray.xhttp_direct_port
              (Xray.xhttp_stream opts.direct_host Xray.xhttp_direct_mode opts.direct_path)),
      ))

reality_inbound-Reads :
    (inputs : Xray.XrayDirectRealityInputs)
    → Reads (flow_clients inputs.users) (Xray.reality_inbound inputs)
unfolding put_all put equal less lookup delete
reality_inbound-Reads inputs = record {
  inbound = record {
    protocol = codes "vless";
    settings = some (Xray.settings_json (map Xray.flow_json inputs.users));
    extras = _;
  };
  reads = refl;
  serves = record {
    protocol = refl;
    settings =
        read-settings_json (codes "xtls-rprx-vision") Xray.flow_json read-flow_json inputs.users;
  };
}

-- When `RenderXrayDirectReality` returns no error, the control plane reads back a config whose first
-- inbound serves exactly the given users with the flow of REALITY, and whose second one, there
-- exactly when a host of the H3 route is given, serves them without a flow.
pub render_xray_direct_reality-Serving :
    (inputs : Xray.XrayDirectRealityInputs) (j : Json)
    → Xray.render_xray_direct_reality inputs ≡ ok j
    → Serving
        (flow_clients inputs.users
          ∷ Xray.when (not (is_empty inputs.h3_host)) (plain_clients inputs.users))
        j
unfolding Xray.render_xray_direct_reality
render_xray_direct_reality-Serving inputs j h =
    let css =
      flow_clients inputs.users
      ∷ Xray.when (not (is_empty inputs.h3_host)) (plain_clients inputs.users) in
    let good = read-settings_json [] Xray.client_json read-client_json inputs.users in
    subst (Serving css) (ok-injective {E = RenderError} (ground arith)) (
      config_json-Serving css inputs.dns_servers (Xray.direct_inbounds inputs) (
        reality_inbound-Reads inputs,
        ReadsAll-append [] [] (not (is_empty inputs.h3_host)) (plain_clients inputs.users) _ tt (
            sniffed_inbound-Reads (plain_clients inputs.users) (map Xray.client_json inputs.users)
              good "vless-xhttp-h3" "0.0.0.0" Xray.xhttp_h3_port (Xray.h3_stream inputs)),
      ))
