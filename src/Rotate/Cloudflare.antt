-- ===== src/Rotate/Cloudflare.antt =====
-- internal/commands/rotate.go: `RunRotateCloudflare`, one function for each stretch between two calls
-- whose outcome matters.
use cf_vpn.Prelude.{
  Bool, true, false, ◌||◌, List, ◌++◌, Option, none, some, if◌then◌else◌, Result, ok, err,
}
use cf_vpn.Text.{Bytes, codes, is_empty}
use cf_vpn.Text.Trim.{trim_space}
use cf_vpn.Dict.{put}
use cf_vpn.State.{Env, EnvError, get, load, save}
use cf_vpn.Json.{Slice}
use cf_vpn.Node.{
  env_file, xray_config, cloudflared_config, hy2_cert, hy2_key, xray_service, cloudflared_service,
  a_record, cname, Record, World, Node, ReadError, failed, read_file, upsert_call, regenerate_call,
  make, write_strictly, contents, write_config_checked, restart, restore_file,
}
use cf_vpn.Rotate.{
  RotateError, host_required, zone_required, env_unreadable, tunnel_required, admin_required,
  users_failed, render_failed, read_failed, record_failed, ip_required, xray_write_failed,
  xray_restart_failed, cloudflared_write_failed, cloudflared_restart_failed, hysteria_failed,
  save_failed, regenerate_failed, Rollback, new_rollback, created_dns, fail, issue_hy2_cert,
  delete_old_record,
}
use cf_vpn.Rotate.Steps.{
  Account, Library, RotateResult, rotate_users, rotate_hy2_config, rotate_result,
}

-- `RotateCloudflareInputs`
pub record Inputs : Type 0 where
  pub new_host : Bytes
  pub new_zone : Bytes
  pub old_host : Bytes
  pub old_zone : Bytes
  pub token : Bytes
  pub existing_users : Slice Account
  pub new_hy2_host : Bytes
  pub new_hy2_zone : Bytes
  pub old_hy2_host : Bytes
  pub old_hy2_zone : Bytes

abbrev pub Outcome : Type 0
Outcome = Result RotateError RotateResult × Node

-- `state.SaveAtomic`: did it return nil?
abbrev save_bytes : World → Result EnvError Bytes → Node → Bool × Node
save_bytes w (err e) s = (false, s)
save_bytes w (ok body) s = write_strictly w env_file body s

abbrev pub save_env : World → Env → Node → Bool × Node
save_env w env s = save_bytes w (save env) s

module _ (w : World) (lib : Library) (inp : Inputs) where
  abbrev pub regenerated : Env → Bool × Node → Outcome
  regenerated env (false, s) = (err regenerate_failed, s)
  regenerated env (true, s) = (
    ok (rotate_result lib inp.new_host (get env (codes "PUBLIC_IP")) inp.new_hy2_host env),
    delete_old_record w
        (record { kind = a_record; zone = inp.old_hy2_zone; name = inp.old_hy2_host })
        (delete_old_record w (record { kind = cname; zone = inp.old_zone; name = inp.old_host }) s),
  )

  abbrev pub saved : Env → Bool × Node → Outcome
  saved env (false, s) = (err save_failed, s)
  saved env (true, s) = regenerated env (make w (regenerate_call inp.new_host) s)

  abbrev pub hysteria_done : Env → Bool × Node → Outcome
  hysteria_done env (false, s) = (err hysteria_failed, (save_env w env s).1)
  hysteria_done env (true, s) =
      let env2 = put (codes "HY2_HOST") inp.new_hy2_host env in saved env2 (save_env w env2 s)

  -- From `env["DOMAIN"] = in.NewHost` to the end.
  unfoldable pub commit : Env → Node → Outcome
  commit env s =
      let env1 = put (codes "MODE") (codes "cloudflare") (put (codes "DOMAIN") inp.new_host env) in
      if is_empty inp.new_hy2_host
      then saved env1 (save_env w env1 s)
      else hysteria_done env1 (rotate_hy2_config w lib env1 s)

-- What is known before the first record is made.
pub record Plan : Type 0 where
  pub env : Env
  pub tunnel : Bytes
  pub xray : Bytes
  pub cloudflared : Bytes
  pub old_xray : Option Bytes
  pub old_cloudflared : Option Bytes

module _ (w : World) (lib : Library) (inp : Inputs) (plan : Plan) where
  -- The old xray config again, and xray started on it.
  abbrev pub back_to_xray : Node → Node
  back_to_xray s = (restart w xray_service (restore_file w xray_config plan.old_xray s)).1

  abbrev pub cloudflared_restarted : Rollback → Bool × Node → Outcome
  cloudflared_restarted rb (true, s) = commit w lib inp plan.env s
  cloudflared_restarted rb (false, s) =
      fail w rb cloudflared_restart_failed
        (restart w cloudflared_service
          (back_to_xray (restore_file w cloudflared_config plan.old_cloudflared s))).1

  abbrev pub cloudflared_written : Rollback → Bool × Node → Outcome
  cloudflared_written rb (true, s) = cloudflared_restarted rb (restart w cloudflared_service s)
  cloudflared_written rb (false, s) = fail w rb cloudflared_write_failed (back_to_xray s)

  abbrev pub xray_restarted : Rollback → Bool × Node → Outcome
  xray_restarted rb (true, s) =
      cloudflared_written rb (write_strictly w cloudflared_config plan.cloudflared s)
  xray_restarted rb (false, s) = fail w rb xray_restart_failed (back_to_xray s)

  abbrev pub xray_written : Rollback → Bool × Node → Outcome
  xray_written rb (true, s) = xray_restarted rb (restart w xray_service s)
  xray_written rb (false, s) = fail w rb xray_write_failed s

  abbrev pub write_xray : Rollback → Node → Outcome
  write_xray rb s = xray_written rb (write_config_checked w xray_config plan.xray s)

  abbrev pub hy2_record : Record
  hy2_record = record { kind = a_record; zone = inp.new_hy2_zone; name = inp.new_hy2_host }

  abbrev pub hy2_upserted : Rollback → Bool × Node → Outcome
  hy2_upserted rb (true, s) = write_xray (created_dns hy2_record rb) s
  hy2_upserted rb (false, s) = fail w rb record_failed s

  abbrev pub upsert_hy2 : Rollback → Node → Outcome
  upsert_hy2 rb s =
      if is_empty inp.new_hy2_host || is_empty inp.new_hy2_zone
      then write_xray rb s
      else let ip = trim_space (get plan.env (codes "PUBLIC_IP")) in
        if is_empty ip
        then fail w rb ip_required s
        else hy2_upserted rb (make w (upsert_call hy2_record ip) s)

  abbrev pub vpn_record : Record
  vpn_record = record { kind = cname; zone = inp.new_zone; name = inp.new_host }

  abbrev pub vpn_upserted : Rollback → Bool × Node → Outcome
  vpn_upserted rb (true, s) = upsert_hy2 (created_dns vpn_record rb) s
  vpn_upserted rb (false, s) = fail w rb record_failed s

  abbrev pub upsert_vpn : Rollback → Node → Outcome
  upsert_vpn rb s =
      vpn_upserted rb (make w (upsert_call vpn_record (plan.tunnel ++ codes ".cfargotunnel.com")) s)

module _ (w : World) (lib : Library) (inp : Inputs) where
  abbrev pub planned :
      Rollback
      → Env
      → Bytes
      → Bytes
      → Bytes
      → Result ReadError Bytes
      → Result ReadError Bytes
      → Node
      → Outcome
  planned rb env tunnel xray cloudflared (err failed) r s = fail w rb read_failed s
  planned rb env tunnel xray cloudflared r (err failed) s = fail w rb read_failed s
  planned rb env tunnel xray cloudflared old_xray old_cloudflared s =
      upsert_vpn w lib inp
        (record {
          env = env;
          tunnel = tunnel;
          xray = xray;
          cloudflared = cloudflared;
          old_xray = contents old_xray;
          old_cloudflared = contents old_cloudflared;
        })
        rb s

  abbrev pub rendered : Rollback → Env → Bytes → Option Bytes → Option Bytes → Node → Outcome
  rendered rb env tunnel (some xray) (some cloudflared) s =
      planned rb env tunnel xray cloudflared (read_file w xray_config s)
        (read_file w cloudflared_config s) s
  rendered rb env tunnel _ _ s = fail w rb render_failed s

  abbrev pub listed : Rollback → Env → Bytes → Bytes → Option (List Account) → Node → Outcome
  listed rb env tunnel admin none s = fail w rb users_failed s
  listed rb env tunnel admin (some users) s =
      rendered rb env tunnel (lib.render_xray users inp.new_host env)
        (lib.render_cloudflared tunnel inp.new_host admin env) s

  abbrev pub issued : Env → Bytes → Bytes → Result RotateError Rollback × Node → Outcome
  issued env tunnel admin (err e, s) = (err e, s)
  issued env tunnel admin (ok rb, s) =
      listed rb env tunnel admin (rotate_users w lib inp.existing_users s) s

  abbrev pub start : Env → Bytes → Bytes → Node → Outcome
  start env tunnel admin s =
      if is_empty tunnel
      then (err tunnel_required, s)
      else if is_empty admin
      then (err admin_required, s)
      else issued env tunnel admin (
          issue_hy2_cert w
            (new_rollback (contents (read_file w hy2_cert s)) (contents (read_file w hy2_key s)))
            inp.new_hy2_host inp.token s)

  -- `ADMIN_TUNNEL_UUID`, and `TUNNEL_UUID` when that is blank.
  abbrev pub tunnel_of : Env → Bytes
  tunnel_of env =
      let admin = trim_space (get env (codes "ADMIN_TUNNEL_UUID")) in
      if is_empty admin then trim_space (get env (codes "TUNNEL_UUID")) else admin

  abbrev pub loaded : Result EnvError Env → Node → Outcome
  loaded (err e) s = (err env_unreadable, s)
  loaded (ok env) s = start env (tunnel_of env) (trim_space (get env (codes "ADMIN_HOST"))) s

  abbrev pub env_read : Result ReadError Bytes → Node → Outcome
  env_read (err e) s = (err env_unreadable, s)
  env_read (ok body) s = loaded (load body) s

-- The trimmed inputs.
abbrev pub trimmed : Inputs → Inputs
trimmed inp = record {
  new_host = trim_space inp.new_host;
  new_zone = trim_space inp.new_zone;
  old_host = inp.old_host;
  old_zone = inp.old_zone;
  token = inp.token;
  existing_users = inp.existing_users;
  new_hy2_host = trim_space inp.new_hy2_host;
  new_hy2_zone = trim_space inp.new_hy2_zone;
  old_hy2_host = inp.old_hy2_host;
  old_hy2_zone = inp.old_hy2_zone;
}

unfoldable pub run_rotate_cloudflare : World → Library → Inputs → Node → Outcome
run_rotate_cloudflare w lib inp s =
    let t = trimmed inp in
    if is_empty t.new_host
    then (err host_required, s)
    else if is_empty t.new_zone
    then (err zone_required, s)
    else env_read w lib t (read_file w env_file s) s
