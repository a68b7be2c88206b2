-- ===== src/Templates/Lines.antt =====
-- internal/templates/render.go: the lines of the cloudflared configs.
use cf_vpn.Prelude.{
  ℕ, Bool, true, false, not, ◌||◌, List, [], ◌∷◌, ◌++◌, ◌≡◌, refl, ap, sym, ◌∙◌, subst, inl, inr,
  arith, Bool-cases, if◌then◌else◌, all, All, All-map, all-append, map, &&_parts, ◌==◌, ok, err,
  >>=-eq-ok, ok-injective, ◌⊎◌,
}
use cf_vpn.Text.{Bytes, codes, equal, equal_iff, is_empty}
use cf_vpn.Text.Split.{split_on, split_on-append, free_of}
use cf_vpn.Text.Order.{less}
use cf_vpn.Dict.{Dict, put}
use cf_vpn.Regex.{is_hex}
use cf_vpn.Validate.{Refusal, Check, uuid, hostname, is_label_byte}
use cf_vpn.Validate.Host.{IsHostname, hostname-ok_iff, hostname_bytes}
use cf_vpn.Validate.Id.{ids-ok_iff, IsUuid}
use cf_vpn.Templates.{
  RenderError, bad_tunnel_uuid, bad_host, labelled, validate_cloudflared_inputs,
  validate_cloudflared_protocol, check_hosts, protocol_part, tunnel_part, line,
  cloudflared_admin_template, cloudflared_with_admin_template, render_cloudflared_admin,
  CloudflaredOptions, render_cloudflared_with_admin_opts,
}

-- A text in which no byte is a newline.
abbrev Flat : Bytes → Type 0
Flat w = free_of b'\n' w ≡ true

all_imp :
    (p q : ℕ → Bool)
    → ((c : ℕ) → p c ≡ true → q c ≡ true)
    → (w : Bytes) → all p w ≡ true
    → all q w ≡ true
all_imp p q f [] h = refl
all_imp p q f (c ∷ w) h =
    let (hc, hw) = &&_parts (p c) (all p w) h in rw (f c hc) (all_imp p q f w hw)

Flat-append : (u v : Bytes) → Flat u → Flat v → Flat (u ++ v)
Flat-append u v h k = all-append (λ c. not (c == b'\n')) u v ∙ rw h k

hostname-Flat : (s : Bytes) → hostname s ≡ ok tt → Flat s
hostname-Flat s h =
    all_imp (λ c. is_label_byte c || c == b'.') (λ c. not (c == b'\n')) (λ c k. ground arith) s
      (hostname_bytes s h)

run-Flat : (s : Bytes) → all is_hex s ≡ true → Flat s
run-Flat s h = all_imp is_hex (λ c. not (c == b'\n')) (λ c k. ground arith) s h

uuid-Flat : (s : Bytes) → uuid s ≡ ok tt → Flat s
uuid-Flat s h =
    let v : IsUuid s = ((ids-ok_iff s).0).0 h in
    let join = λ (u w : Bytes) (hu : Flat u) (hw : Flat w). Flat-append u (b'-' ∷ w) hu hw in
    subst Flat (sym v.whole) (
      join v.a _ (run-Flat v.a v.a_run.digits) (
        join v.b _ (run-Flat v.b v.b_run.digits) (
          join v.c _ (run-Flat v.c v.c_run.digits)
            (join v.d _ (run-Flat v.d v.d_run.digits) (run-Flat v.e v.e_run.digits)))))

protocol-Flat : (p : Bytes) → validate_cloudflared_protocol p ≡ ok tt → Flat p
unfolding validate_cloudflared_protocol
protocol-Flat [] h = refl
protocol-Flat (c ∷ p) h = elim (Bool-cases (equal (c ∷ p) (codes "quic"))) [
  | inl q ↦ subst Flat (sym ((equal_iff (c ∷ p) (codes "quic")).0 q)) refl
  | inr other ↦ elim (Bool-cases (equal (c ∷ p) (codes "http2"))) [
    | inl t ↦ subst Flat (sym ((equal_iff (c ∷ p) (codes "http2")).0 t)) refl
    | inr neither ↦ absurd (cc (rw (other, neither) at h))
  ]
]

-- The texts that lines make.
abbrev pub unlines : List Bytes → Bytes
unlines [] = []
unlines (w ∷ ws) = line w (unlines ws)

split_on-unlines : (ws : List Bytes) → All Flat ws → split_on b'\n' (unlines ws) ≡ ws ++ [] ∷ []
split_on-unlines [] h = unfold split_on in refl
split_on-unlines (w ∷ ws) h =
    split_on-append b'\n' w (unlines ws) h.0 ∙ ap (◌∷◌ w) (split_on-unlines ws h.1)

-- The lines that the config is meant to have.
module _ (tunnel_uuid : Bytes) where
  abbrev pub head_lines : Bytes → List Bytes → List Bytes
  head_lines protocol rest =
      (codes "tunnel: " ++ tunnel_uuid)
      ∷ (codes "credentials-file: /etc/cfvpn/cloudflared/" ++ (tunnel_uuid ++ codes ".json"))
      ∷ (if is_empty protocol then rest else (codes "protocol: " ++ protocol) ∷ rest)

abbrev pub admin_lines : Bytes → List Bytes
admin_lines admin_host =
    (codes "  - hostname: " ++ admin_host)
    ∷ codes "    service: http://127.0.0.1:6788"
    ∷ codes "  - service: http_status:404"
    ∷ []

abbrev pub route_lines : Bytes → Bytes → Bytes → List Bytes → List Bytes
route_lines domain path port rest =
    (codes "  - hostname: " ++ domain)
    ∷ (codes "    path: ^" ++ path)
    ∷ (codes "    service: http://127.0.0.1:" ++ port)
    ∷ rest

abbrev pub vpn_lines : Bytes → Bytes → Bool → List Bytes
vpn_lines domain admin_host xhttp =
    let sync = route_lines domain (codes "/api/v1/sync") (codes "10001") (admin_lines admin_host) in
    if xhttp then route_lines domain (codes "/api/v2/stream") (codes "10002") sync else sync

head-All :
    (tunnel_uuid protocol : Bytes) (rest : List Bytes)
    → Flat tunnel_uuid
    → Flat protocol
    → All Flat rest
    → All Flat (head_lines tunnel_uuid protocol rest)
head-All u [] rest hu hp hr = (hu, (Flat-append u (codes ".json") hu refl, hr))
head-All u (c ∷ p) rest hu hp hr = (hu, (Flat-append u (codes ".json") hu refl, (hp, hr)))

protocol-unlines :
    (p : Bytes) (ws : List Bytes)
    → protocol_part p (unlines ws)
      ≡ unlines (if is_empty p then ws else (codes "protocol: " ++ p) ∷ ws)
protocol-unlines [] ws = refl
protocol-unlines (c ∷ p) ws = refl

-- The conditions under which a config is rendered, and the lines that it then has.
pub record Renders (tunnel_uuid protocol : Bytes) (hosts body : List Bytes) (text : Bytes)
    : Type 0 where
  pub tunnel : IsUuid tunnel_uuid
  pub names : All IsHostname hosts
  pub transport : (protocol ≡ []) ⊎ ((protocol ≡ codes "quic") ⊎ (protocol ≡ codes "http2"))
  pub lines :
      split_on b'\n' text ≡ head_lines tunnel_uuid protocol (codes "ingress:" ∷ body) ++ [] ∷ []

protocol_cases :
    (p : Bytes)
    → validate_cloudflared_protocol p ≡ ok tt
    → (p ≡ []) ⊎ ((p ≡ codes "quic") ⊎ (p ≡ codes "http2"))
unfolding validate_cloudflared_protocol
protocol_cases [] h = inl refl
protocol_cases (c ∷ p) h = elim (Bool-cases (equal (c ∷ p) (codes "quic"))) [
  | inl q ↦ inr (inl ((equal_iff (c ∷ p) (codes "quic")).0 q))
  | inr other ↦ elim (Bool-cases (equal (c ∷ p) (codes "http2"))) [
    | inl t ↦ inr (inr ((equal_iff (c ∷ p) (codes "http2")).0 t))
    | inr neither ↦ absurd (cc (rw (other, neither) at h))
  ]
]

labelled-ok : (f : Refusal → RenderError) (r : Check) → labelled f r ≡ ok tt → r ≡ ok tt
labelled-ok f (ok u) h = refl
labelled-ok f (err e) h = absurd (cc h)

check_hosts-All :
    (hosts : Dict Bytes)
    → check_hosts hosts ≡ ok tt
    → All (λ h. hostname h ≡ ok tt) (map (λ e. e.1) hosts)
check_hosts-All [] h = tt
check_hosts-All ((name, host) ∷ rest) h =
    let (u, k, l) = >>=-eq-ok (labelled (bad_host name) (hostname host)) _ h in
    (labelled-ok (bad_host name) (hostname host) k, check_hosts-All rest l)

inputs-ok :
    (tunnel_uuid : Bytes) (hosts : Dict Bytes)
    → validate_cloudflared_inputs tunnel_uuid hosts ≡ ok tt
    → (uuid tunnel_uuid ≡ ok tt) × All (λ h. hostname h ≡ ok tt) (map (λ e. e.1) hosts)
unfolding validate_cloudflared_inputs
inputs-ok u hosts h =
    let (t, k, l) = >>=-eq-ok (labelled bad_tunnel_uuid (uuid u)) _ h in
    (labelled-ok bad_tunnel_uuid (uuid u) k, check_hosts-All hosts l)

module _ (tunnel_uuid protocol : Bytes) (hosts body : List Bytes) where
  renders :
      uuid tunnel_uuid ≡ ok tt
      → All (λ h. hostname h ≡ ok tt) hosts
      → validate_cloudflared_protocol protocol ≡ ok tt
      → All Flat body
      → Renders tunnel_uuid protocol hosts body
          (tunnel_part tunnel_uuid (protocol_part protocol (unlines (codes "ingress:" ∷ body))))
  renders hu hh hp hb = record {
    tunnel = ((ids-ok_iff tunnel_uuid).0).0 hu;
    names = All-map (λ h k. (hostname-ok_iff h).0 k) hosts hh;
    transport = protocol_cases protocol hp;
    lines =
        ap (λ r. split_on b'\n' (tunnel_part tunnel_uuid r))
          (protocol-unlines protocol (codes "ingress:" ∷ body))
        ∙ split_on-unlines (head_lines tunnel_uuid protocol (codes "ingress:" ∷ body)) (
            head-All tunnel_uuid protocol (codes "ingress:" ∷ body) (uuid-Flat tunnel_uuid hu)
              (protocol-Flat protocol hp) (refl, hb));
  }

-- When `RenderCloudflaredAdmin` returns no error, the tunnel is a UUID, the host is a hostname,
-- the protocol is empty, quic or http2, and the lines of the text are those of the template: no
-- value breaks a line in two.
pub render_cloudflared_admin-Renders :
    (tunnel_uuid admin_host protocol text : Bytes)
    → render_cloudflared_admin tunnel_uuid admin_host protocol ≡ ok text
    → Renders tunnel_uuid protocol (admin_host ∷ []) (admin_lines admin_host) text
unfolding render_cloudflared_admin cloudflared_admin_template put
render_cloudflared_admin-Renders u a p text h =
    let (t, hi, h1) =
      >>=-eq-ok (validate_cloudflared_inputs u ((codes "admin host", a) ∷ [])) _ h in
    let (t2, hp, h2) = >>=-eq-ok (validate_cloudflared_protocol p) _ h1 in
    let (hu, ha) = inputs-ok u ((codes "admin host", a) ∷ []) hi in
    subst (Renders u p (a ∷ []) (admin_lines a)) (ok-injective h2)
      (renders u p (a ∷ []) (admin_lines a) hu ha hp (hostname-Flat a ha.0, (refl, (refl, tt))))

vpn_lines-Flat :
    (domain admin_host : Bytes) (xhttp : Bool)
    → Flat domain
    → Flat admin_host
    → All Flat (vpn_lines domain admin_host xhttp)
vpn_lines-Flat d a true hd ha = (hd, (refl, (refl, (hd, (refl, (refl, (ha, (refl, (refl, tt)))))))))
vpn_lines-Flat d a false hd ha = (hd, (refl, (refl, (ha, (refl, (refl, tt))))))

-- When `RenderCloudflaredWithAdminOpts` returns no error, the tunnel is a UUID, the admin host and the
-- domain are hostnames, the protocol is empty, quic or http2, and the lines of the text are exactly
-- the tunnel, its credentials file, the protocol where one is given, and the ingress rules: for the
-- domain the rule of the XHTTP path, exactly when the option is set, and that of the sync path, then
-- the admin host's, then the 404. So no value breaks a line in two.
pub render_cloudflared_with_admin_opts-Renders :
    (tunnel_uuid domain admin_host : Bytes) (opts : CloudflaredOptions) (text : Bytes)
    → render_cloudflared_with_admin_opts tunnel_uuid domain admin_host opts ≡ ok text
    → Renders tunnel_uuid opts.protocol
        (admin_host ∷ domain ∷ [])
        (vpn_lines domain admin_host opts.xhttp)
        text
unfolding render_cloudflared_with_admin_opts cloudflared_with_admin_template put equal less
render_cloudflared_with_admin_opts-Renders u d a opts text h =
    let hosts = (codes "admin host", a) ∷ (codes "domain", d) ∷ [] in
    let (t, hi, h1) = >>=-eq-ok (validate_cloudflared_inputs u hosts) _ h in
    let (t2, hp, h2) = >>=-eq-ok (validate_cloudflared_protocol opts.protocol) _ h1 in
    let (hu, ha) = inputs-ok u hosts hi in
    let body = vpn_lines d a opts.xhttp in
    subst (Renders u opts.protocol (a ∷ d ∷ []) body) (same opts.xhttp ∙ ok-injective h2) (
      renders u opts.protocol (a ∷ d ∷ []) body hu ha hp
        (vpn_lines-Flat d a opts.xhttp (hostname-Flat d ha.1.0) (hostname-Flat a ha.0)))
  where
    same :
        (b : Bool)
        → tunnel_part u (protocol_part opts.protocol (unlines (codes "ingress:" ∷ vpn_lines d a b)))
          ≡ cloudflared_with_admin_template u d a opts.protocol b
    same true = refl
    same false = refl
