-- ===== src/Rotate.antt =====
-- internal/commands/rotate.go: what a rotation does before it commits, and how it takes that back.
pub mod Steps
pub mod Undo
pub mod Publish
pub mod Restores
pub mod Start
mod Tests
pub mod Cloudflare
use cf_vpn.Prelude.{
  ℕ, Bool, true, false, not, ◌||◌, List, [], ◌∷◌, Option, none, some, if◌then◌else◌, Result, ok,
  err,
}
use cf_vpn.Text.{Bytes, is_empty}
use cf_vpn.Text.Trim.{trim_space}
use cf_vpn.Node.{
  Slot, hy2_cert, hy2_key, Kind, Record, World, Node, delete_call, make, write_atomic, issue_cert,
}

pub data RotateError : Type 0 where
  host_required zone_required env_unreadable tunnel_required admin_required : RotateError
  cert_failed users_failed render_failed read_failed record_failed ip_required : RotateError
  xray_write_failed xray_restart_failed cloudflared_write_failed : RotateError
  cloudflared_restart_failed : RotateError
  hysteria_failed save_failed regenerate_failed : RotateError

-- `rotateRollback`; the created records stand newest first.
pub record Rollback : Type 0 where
  pub prev_cert : Option Bytes
  pub prev_key : Option Bytes
  pub touched : Bool
  pub created : List Record

-- `newRotateRollback`
abbrev pub new_rollback : Option Bytes → Option Bytes → Rollback
new_rollback cert key = record { prev_cert = cert; prev_key = key; touched = false; created = [] }

abbrev pub restore_pair : World → Bool → Option Bytes → Option Bytes → Node → Node
restore_pair w true (some cert) (some key) s =
    (write_atomic w hy2_key key (write_atomic w hy2_cert cert s).1).1
restore_pair w _ _ _ s = s

-- `restoreHy2Cert`
abbrev pub restore_hy2_cert : World → Rollback → Node → Node
restore_hy2_cert w rb s = restore_pair w rb.touched rb.prev_cert rb.prev_key s

abbrev pub created_dns : Record → Rollback → Rollback
created_dns r rb = record {
  prev_cert = rb.prev_cert;
  prev_key = rb.prev_key;
  touched = rb.touched;
  created = r ∷ rb.created;
}

-- The loop of `fail`; a deletion that fails only warns.
unfoldable pub delete_created : World → List Record → Node → Node
delete_created w [] s = s
delete_created w (r ∷ rs) s = delete_created w rs (make w (delete_call r) s).1

unfoldable pub fail :
    {A : Type 0} → World → Rollback → RotateError → Node → Result RotateError A × Node
unfolding delete_created
fail w rb e s = (err e, delete_created w rb.created (restore_hy2_cert w rb s))

abbrev pub after_issue : World → Rollback → Bool × Node → Result RotateError Rollback × Node
after_issue w rb (true, s) = (ok rb, s)
after_issue w rb (false, s) = (err cert_failed, restore_hy2_cert w rb s)

-- `issueHy2Cert`
unfoldable pub issue_hy2_cert :
    World → Rollback → Bytes → Bytes → Node → Result RotateError Rollback × Node
unfolding issue_cert
issue_hy2_cert w rb host token s =
    if is_empty host
    then (ok rb, s)
    else after_issue w
        (record {
          prev_cert = rb.prev_cert;
          prev_key = rb.prev_key;
          touched = true;
          created = rb.created;
        })
        (issue_cert w host token s)

-- `deleteOldRecord`
unfoldable pub delete_old_record : World → Record → Node → Node
delete_old_record w r s =
    if is_empty (trim_space r.name) || is_empty (trim_space r.zone)
    then s
    else (make w (delete_call r) s).1
