-- ===== src/Rotate/Restores.antt =====
-- internal/commands/rotate.go: `RunRotateCloudflare` from its first record on.
use cf_vpn.Prelude.{Bool, true, false, ◌||◌, ◌++◌, ◌≡◌, inl, inr, if◌then◌else◌, ok, err}
use cf_vpn.Text.{codes, is_empty}
use cf_vpn.Text.Trim.{trim_space}
use cf_vpn.Dict.{put}
use cf_vpn.State.{Env, get}
use cf_vpn.Node.{
  xray_config, cloudflared_config, restart_call, upsert_call, regenerate_call, World, Node,
  xray_service, cloudflared_service, Record, make, restore_file, restart, write_config_checked,
  write_strictly,
}
use cf_vpn.Rotate.{
  RotateError, hysteria_failed, save_failed, regenerate_failed, Rollback, created_dns, fail,
}
use cf_vpn.Rotate.Steps.{Library, RotateResult}
use cf_vpn.Rotate.Undo.{
  IsReliable, IsReady, IsIntact, fail-IsIntact, restore_xray-IsReady, restore_cloudflared-IsReady,
}
use cf_vpn.Rotate.Publish.{Written, make-IsReady, write_xray-Written, write_cloudflared-Written}
use cf_vpn.Rotate.Cloudflare.{
  Inputs, Outcome, Plan, save_env, regenerated, saved, hysteria_done, commit, back_to_xray,
  cloudflared_restarted, cloudflared_written, xray_restarted, xray_written, write_xray, hy2_record,
  hy2_upserted, upsert_hy2, vpn_record, vpn_upserted, upsert_vpn,
}

-- Past these points the new configs are live, and the rotation is not taken back.
abbrev pub is_before_commit : RotateError → Bool
is_before_commit hysteria_failed = false
is_before_commit save_failed = false
is_before_commit regenerate_failed = false
is_before_commit _ = true

abbrev pub IsTakenBack : Node → Outcome → Type 0
IsTakenBack s0 (ok r, s) = Unit {0}
IsTakenBack s0 (err e, s) = is_before_commit e ≡ true → IsIntact s0 s

module _ (w : World) (lib : Library) (inp : Inputs) (s0 : Node) where
  regenerated-IsTakenBack :
      (env : Env) (r : Bool × Node) → IsTakenBack s0 (regenerated w lib inp env r)
  regenerated-IsTakenBack env (true, s) = tt
  regenerated-IsTakenBack env (false, s) = λ h. absurd (cc h)

  saved-IsTakenBack : (env : Env) (r : Bool × Node) → IsTakenBack s0 (saved w lib inp env r)
  saved-IsTakenBack env (true, s) =
      regenerated-IsTakenBack env (make w (regenerate_call inp.new_host) s)
  saved-IsTakenBack env (false, s) = λ h. absurd (cc h)

  hysteria_done-IsTakenBack :
      (env : Env) (r : Bool × Node) → IsTakenBack s0 (hysteria_done w lib inp env r)
  hysteria_done-IsTakenBack env (true, s) =
      saved-IsTakenBack (put (codes "HY2_HOST") inp.new_hy2_host env)
        (save_env w (put (codes "HY2_HOST") inp.new_hy2_host env) s)
  hysteria_done-IsTakenBack env (false, s) = λ h. absurd (cc h)

  pub choose :
      (b : Bool) (x y : Outcome)
      → IsTakenBack s0 x
      → IsTakenBack s0 y
      → IsTakenBack s0 (if b then x else y)
  choose true x y h k = h
  choose false x y h k = k

  commit-IsTakenBack : (env : Env) (s : Node) → IsTakenBack s0 (commit w lib inp env s)
  unfolding commit
  commit-IsTakenBack env s =
      choose (is_empty inp.new_hy2_host) _ _ (saved-IsTakenBack _ _) (hysteria_done-IsTakenBack _ _)

module _ (w : World) (lib : Library) (inp : Inputs) (s0 : Node) (reliable : IsReliable w s0) where
  pub fail-IsTakenBack :
      (rb : Rollback) (e : RotateError) (s : Node)
      → IsReady s0 0 rb s
      → IsTakenBack s0 (fail w rb e s)
  unfolding fail
  fail-IsTakenBack rb e s ready = λ h. fail-IsIntact w s0 reliable RotateResult rb e s ready

module _ (w : World) (lib : Library) (inp : Inputs) (s0 : Node) (reliable : IsReliable w s0)
    (plan : Plan) (same_xray : plan.old_xray ≡ s0.files xray_config)
    (same_cloudflared : plan.old_cloudflared ≡ s0.files cloudflared_config) where
  back_to_xray-IsReady :
      (rb : Rollback) (s : Node)
      → IsReady s0 1 rb s
      → IsReady s0 0 rb (back_to_xray w lib inp plan s)
  back_to_xray-IsReady rb s ready = rw same_xray (
      make-IsReady w s0 0 rb (restart_call xray_service)
        (restore_file w xray_config (s0.files xray_config) s)
        (restore_xray-IsReady w s0 reliable rb s ready))

  cloudflared_restarted-IsTakenBack :
      (rb : Rollback) (r : Bool × Node)
      → IsReady s0 2 rb r.1
      → IsTakenBack s0 (cloudflared_restarted w lib inp plan rb r)
  cloudflared_restarted-IsTakenBack rb (true, s) ready = commit-IsTakenBack w lib inp s0 plan.env s
  cloudflared_restarted-IsTakenBack rb (false, s) ready =
      fail-IsTakenBack w lib inp s0 reliable rb _ _ (
        make-IsReady w s0 0 rb (restart_call cloudflared_service) _ (
          back_to_xray-IsReady rb _
            (rw same_cloudflared (restore_cloudflared-IsReady w s0 reliable rb s ready))))

  cloudflared_written-IsTakenBack :
      (rb : Rollback) (r : Bool × Node)
      → Written s0 1 2 rb r
      → IsTakenBack s0 (cloudflared_written w lib inp plan rb r)
  cloudflared_written-IsTakenBack rb (true, s) ready =
      cloudflared_restarted-IsTakenBack rb (restart w cloudflared_service s)
        (make-IsReady w s0 2 rb (restart_call cloudflared_service) s ready)
  cloudflared_written-IsTakenBack rb (false, s) ready =
      fail-IsTakenBack w lib inp s0 reliable rb _ _ (back_to_xray-IsReady rb s ready)

  xray_restarted-IsTakenBack :
      (rb : Rollback) (r : Bool × Node)
      → IsReady s0 1 rb r.1
      → IsTakenBack s0 (xray_restarted w lib inp plan rb r)
  xray_restarted-IsTakenBack rb (true, s) ready =
      cloudflared_written-IsTakenBack rb (write_strictly w cloudflared_config plan.cloudflared s)
        (write_cloudflared-Written w s0 rb plan.cloudflared s reliable ready)
  xray_restarted-IsTakenBack rb (false, s) ready =
      fail-IsTakenBack w lib inp s0 reliable rb _ _ (back_to_xray-IsReady rb s ready)

  xray_written-IsTakenBack :
      (rb : Rollback) (r : Bool × Node)
      → Written s0 0 1 rb r
      → IsTakenBack s0 (xray_written w lib inp plan rb r)
  xray_written-IsTakenBack rb (true, s) ready =
      xray_restarted-IsTakenBack rb (restart w xray_service s)
        (make-IsReady w s0 1 rb (restart_call xray_service) s ready)
  xray_written-IsTakenBack rb (false, s) ready = fail-IsTakenBack w lib inp s0 reliable rb _ _ ready

  write_xray-IsTakenBack :
      (rb : Rollback) (s : Node)
      → IsReady s0 0 rb s
      → IsTakenBack s0 (write_xray w lib inp plan rb s)
  write_xray-IsTakenBack rb s ready =
      xray_written-IsTakenBack rb (write_config_checked w xray_config plan.xray s)
        (write_xray-Written w s0 rb plan.xray s ready)

  created_dns-IsReady :
      (r : Record) (rb : Rollback) (s : Node)
      → IsReady s0 0 rb s
      → IsReady s0 0 (created_dns r rb) s
  created_dns-IsReady r rb s ready = record {
    clean = ready.clean;
    pair = elim ready.pair [
      | inl k ↦ inl (record {
        touched = k.touched;
        cert = k.cert;
        key = k.key;
        prev_cert = k.prev_cert;
        prev_key = k.prev_key;
        old_cert = k.old_cert;
        old_key = k.old_key;
      })
      | inr same ↦ inr same
    ];
  }

  hy2_upserted-IsTakenBack :
      (rb : Rollback) (r : Bool × Node)
      → IsReady s0 0 rb r.1
      → IsTakenBack s0 (hy2_upserted w lib inp plan rb r)
  hy2_upserted-IsTakenBack rb (true, s) ready =
      write_xray-IsTakenBack _ s (created_dns-IsReady (hy2_record w lib inp plan) rb s ready)
  hy2_upserted-IsTakenBack rb (false, s) ready = fail-IsTakenBack w lib inp s0 reliable rb _ _ ready

  upsert_hy2-IsTakenBack :
      (rb : Rollback) (s : Node)
      → IsReady s0 0 rb s
      → IsTakenBack s0 (upsert_hy2 w lib inp plan rb s)
  upsert_hy2-IsTakenBack rb s ready =
      choose w lib inp s0 (is_empty inp.new_hy2_host || is_empty inp.new_hy2_zone) _ _
        (write_xray-IsTakenBack rb s ready)
        (choose w lib inp s0 (is_empty (trim_space (get plan.env (codes "PUBLIC_IP")))) _ _
          (fail-IsTakenBack w lib inp s0 reliable rb _ _ ready)
          (hy2_upserted-IsTakenBack rb _ (
            make-IsReady w s0 0 rb
              (upsert_call (hy2_record w lib inp plan)
                (trim_space (get plan.env (codes "PUBLIC_IP"))))
              s ready)))

  vpn_upserted-IsTakenBack :
      (rb : Rollback) (r : Bool × Node)
      → IsReady s0 0 rb r.1
      → IsTakenBack s0 (vpn_upserted w lib inp plan rb r)
  vpn_upserted-IsTakenBack rb (true, s) ready =
      upsert_hy2-IsTakenBack _ s (created_dns-IsReady (vpn_record w lib inp plan) rb s ready)
  vpn_upserted-IsTakenBack rb (false, s) ready = fail-IsTakenBack w lib inp s0 reliable rb _ _ ready

  pub upsert_vpn-IsTakenBack :
      (rb : Rollback) (s : Node)
      → IsReady s0 0 rb s
      → IsTakenBack s0 (upsert_vpn w lib inp plan rb s)
  upsert_vpn-IsTakenBack rb s ready = vpn_upserted-IsTakenBack rb _ (
      make-IsReady w s0 0 rb
        (upsert_call (vpn_record w lib inp plan) (plan.tunnel ++ codes ".cfargotunnel.com")) s
        ready)
