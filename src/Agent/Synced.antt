-- ===== src/Agent/Synced.antt =====
-- cmd/cfvpn-agent/main.go: what `applyUsers` leaves on disk, as the control plane reads it back.
use cf_vpn.Prelude.{
  Bool, true, false, List, [], ◌∷◌, map, Option, none, some, ◌≡◌, refl, ap, ◌∙◌, ◌⊎◌, inl, inr,
  Bool-cases, Result, ok, err,
}
use mathlib.Core.Option.{some-injective}
use cf_vpn.Text.{Bytes, codes, equal}
use cf_vpn.Json.{Json}
use cf_vpn.State.{Env}
use cf_vpn.Xray.{Client}
use cf_vpn.Node.{
  env_file, xray_config, hysteria_service, regenerate_call, Node, make, restart, read_file,
}
use cf_vpn.Node.Apply
use cf_vpn.Templates.{RenderError}
use cf_vpn.Templates.Xray.{XrayUser, render_xray_direct_reality}
use cf_vpn.Templates.Served.{
  client_with, Serving, render_xray_cloudflare_opts-Serving, render_xray_direct_reality-Serving,
}
use cf_vpn.Links.{
  at, trimmed_at, hy2_enabled, xray_cloudflare_opts_from_env, xray_dns_servers_from_env,
  with_h3_from_env, with_h3,
}
use cf_vpn.Users.{set_users}
use cf_vpn.Users.Added.{Keeps, set_users-Keeps}
use cf_vpn.Agent.{SyncUser, Outside}
use cf_vpn.Agent.Apply.{
  to_template_users, is_reality_mode, reality_inputs, document_of, render_xray_for_mode,
  all_complete, env_on_disk, hysteria_users, regenerate_after, reload_after, mirrored,
  publish_users, with_env, apply_users,
}

-- A document whose first inbound serves these users, and whose others serve lists of clients.
pub record ServesUsers (us : List XrayUser) (j : Json) : Type 0 where
  pub flow : Bytes
  pub rest : List (List Client)
  pub serving : Serving (map (client_with flow) us ∷ rest) j

document_of-ok : (r : Result RenderError Json) (j : Json) → document_of r ≡ some j → r ≡ ok j
document_of-ok (ok k) j h = ap ok (some-injective k j h)
document_of-ok (err e) j h = absurd (cc h)

module _ (env : Env) (us : List XrayUser) (j : Json) where
  reality-ServesUsers :
      render_xray_direct_reality (with_h3_from_env (reality_inputs env us) env) ≡ ok j
      → ServesUsers us j
  unfolding with_h3_from_env
  reality-ServesUsers h =
      let host = trimmed_at env "XHTTP_H3_HOST" in
      let path = trimmed_at env "XHTTP_H3_PATH" in go host path h
    where
      go :
          (host path : Bytes)
          → render_xray_direct_reality (with_h3 (reality_inputs env us) host path) ≡ ok j
          → ServesUsers us j
      go [] path k = record {
        flow = _;
        rest = _;
        serving = render_xray_direct_reality-Serving _ j k;
      }
      go (c ∷ h) [] k = record {
        flow = _;
        rest = _;
        serving = render_xray_direct_reality-Serving _ j k;
      }
      go (c ∷ h) (d ∷ p) k = record {
        flow = _;
        rest = _;
        serving = render_xray_direct_reality-Serving _ j k;
      }

  -- In either mode the first inbound serves exactly the given users.
  pub render_xray_for_mode-ServesUsers : render_xray_for_mode env us ≡ some j → ServesUsers us j
  unfolding render_xray_for_mode
  render_xray_for_mode-ServesUsers h =
      elim (Bool-cases (equal (trimmed_at env "MODE") (codes "cloudflare"))) [
        | inl cloudflare ↦ record {
          flow = [];
          rest = _;
          serving =
              render_xray_cloudflare_opts-Serving us (at env "DOMAIN")
                (xray_dns_servers_from_env env) (xray_cloudflare_opts_from_env env) j
                (document_of-ok _ j (rw cloudflare at h));
        }
        | inr other ↦ elim (Bool-cases (is_reality_mode env)) [
          | inl reality ↦ reality-ServesUsers (document_of-ok _ j (rw (other, reality) at h))
          | inr legacy ↦ absurd (cc (rw (other, legacy) at h))
        ]
      ]

-- The config on disk is the one rendered for these users, all of them with valid names and with
-- credentials.
pub record Written (o : Outside) (us : List SyncUser) (s t : Node) : Type 0 where
  pub env : Env
  pub document : Json
  pub complete : all_complete us ≡ true
  pub loaded : env_on_disk (read_file o.world env_file s) ≡ some env
  pub serves : ServesUsers (to_template_users us) document
  pub written : t.files xray_config ≡ some (o.print document)

module _ (o : Outside) (us : List SyncUser) (s : Node) where
  -- The outcome of `applyUsers`.
  unfoldable pub Applied : Bool × Node → Type 0
  Applied (true, t) = Written o us s t
  Applied (false, t) = (t.files xray_config ≡ s.files xray_config) ⊎ Written o us s t

  move :
      (t u : Node) → u.files xray_config ≡ t.files xray_config → Written o us s t → Written o us s u
  move t u e w = record {
    env = w.env;
    document = w.document;
    complete = w.complete;
    loaded = w.loaded;
    serves = w.serves;
    written = e ∙ w.written;
  }

  mirrored-Applied :
      (env : Env) (t : Node) → Written o us s t → Applied (mirrored o.world env us (true, t))
  unfolding Applied
  mirrored-Applied env t w =
      go (set_users o.world (hysteria_users us) t) (set_users-Keeps o.world t (hysteria_users us))
    where
      ended : (r : Bool × Node) → Keeps t r → Applied r
      ended (true, v) e = move t v e w
      ended (false, v) e = inr (move t v e w)

      last : (r : Bool × Node) → Keeps t r → Applied (regenerate_after o.world env r)
      last (true, u) e = ended (make o.world (regenerate_call (at env "DOMAIN")) u) e
      last (false, u) e = inr (move t u e w)

      go :
          (r : Bool × Node)
          → Keeps t r
          → Applied (regenerate_after o.world env (reload_after o.world env r))
      go (false, u) e = inr (move t u e w)
      go (true, u) e = elim (Bool-cases (hy2_enabled env)) [
        | inl on_ ↦ rw on_ (last (restart o.world hysteria_service u) e)
        | inr off ↦ rw off (last (true, u) e)
      ]

  -- When `applyUsers` returns no error, the users are complete and the xray config on disk is one
  -- rendered for exactly them: read back, its first inbound serves each with its uuid. When it
  -- returns an error, the xray config is as it was or such a one.
  pub apply_users-Applied : Applied (apply_users o us s)
  unfolding apply_users Applied Apply.Outcome
  apply_users-Applied = elim (Bool-cases (all_complete us)) [
    | inl complete ↦ rw complete (with (env_on_disk (read_file o.world env_file s)) refl complete)
    | inr missing ↦ rw missing (inl refl)
  ]
    where
      kept :
          (env : Env) (j : Json) (r : Bool × Node)
          → ((t : Node) → t.files xray_config ≡ some (o.print j) → Written o us s t)
          → Apply.Outcome s (o.print j) (Apply.Either s (o.print j)) r
          → Applied (mirrored o.world env us r)
      kept env j (true, t) made h = mirrored-Applied env t (made t h.0.config)
      kept env j (false, t) made (inl h) = inl h.config
      kept env j (false, t) made (inr h) = inr (made t h.config)

      rendered :
          (env : Env) (d : Option Json)
          → env_on_disk (read_file o.world env_file s) ≡ some env
          → render_xray_for_mode env (to_template_users us) ≡ d
          → all_complete us ≡ true
          → Applied (publish_users o env us s d)
      rendered env none loaded e complete = inl refl
      rendered env (some j) loaded e complete =
          kept env j (Apply.apply_xray_config o.world (o.print j) s)
            (λ t w. record {
              env = env;
              document = j;
              complete = complete;
              loaded = loaded;
              serves = render_xray_for_mode-ServesUsers env (to_template_users us) j e;
              written = w;
            })
            (Apply.apply_xray_config-Outcome o.world (o.print j) s)

      with :
          (m : Option Env)
          → env_on_disk (read_file o.world env_file s) ≡ m
          → all_complete us ≡ true
          → Applied (with_env o us s m)
      with none e complete = inl refl
      with (some env) e complete =
          rendered env (render_xray_for_mode env (to_template_users us)) e refl complete
