-- ===== src/Node.antt =====
-- The node that the commands change: the files they read and write, and the environment that answers
-- each call. Every answer may depend on all the calls made before.
pub mod Apply
use cf_vpn.Prelude.{
  ℕ, Bool, true, false, List, ◌∷◌, Option, none, some, if◌then◌else◌, ◌==◌, Result, ok, err,
}
use cf_vpn.Text.{Bytes}
use cf_vpn.Atomic.{WriteError, plain, durability, is_durability}

-- The files by the variables that hold their paths.
pub data Slot : Type 0 where
  env_file xray_config cloudflared_config hysteria_config hy2_cert hy2_key : Slot

abbrev pub slot_id : Slot → ℕ
slot_id env_file = 0
slot_id xray_config = 1
slot_id cloudflared_config = 2
slot_id hysteria_config = 3
slot_id hy2_cert = 4
slot_id hy2_key = 5

pub data Kind : Type 0 where
  a_record cname : Kind

pub record Record : Type 0 where
  pub kind : Kind
  pub zone : Bytes
  pub name : Bytes

pub data Service : Type 0 where
  xray_service cloudflared_service hysteria_service : Service

pub data Call : Type 0 where
  write_call : Slot → Bytes → Call
  remove_call : Slot → Call
  check_call : Bytes → Call
  restart_call : Service → Call
  issue_call : Bytes → Bytes → Call
  upsert_call : Record → Bytes → Call
  delete_call : Record → Call
  regenerate_call : Bytes → Call

abbrev pub Log : Type 0
Log = List Call

-- `issued` is what an issuance, failed or not, leaves in the two certificate files.
pub record World : Type 0 where
  pub unreadable : Log → Slot → Bool
  pub write_error : Log → Slot → Bytes → Option WriteError
  pub works : Log → Call → Bool
  pub issued : Log → Bytes → Option Bytes × Option Bytes

-- The calls stand newest first.
pub record Node : Type 0 where
  pub files : Slot → Option Bytes
  pub calls : Log

abbrev pub put_file : Slot → Option Bytes → (Slot → Option Bytes) → Slot → Option Bytes
put_file slot content files other = if slot_id other == slot_id slot then content else files other

pub data ReadError : Type 0 where
  missing failed : ReadError

abbrev pub present : Option Bytes → Result ReadError Bytes
present none = err missing
present (some b) = ok b

-- `os.ReadFile`
abbrev pub read_file : World → Slot → Node → Result ReadError Bytes
read_file w slot s = if w.unreadable s.calls slot then err failed else present (s.files slot)

-- A write that fails before its rename leaves the file.
abbrev pub after_write :
    Slot → Bytes → Option WriteError → (Slot → Option Bytes) → Slot → Option Bytes
after_write slot content (some plain) files = files
after_write slot content (some durability) files = put_file slot (some content) files
after_write slot content none files = put_file slot (some content) files

-- `writeAtomicFile`
unfoldable pub write_atomic : World → Slot → Bytes → Node → Option WriteError × Node
write_atomic w slot content s =
    let e = w.write_error s.calls slot content in
    (
      e,
      record {
        files = after_write slot content e s.files;
        calls = write_call slot content ∷ s.calls;
      },
    )

abbrev pub make : World → Call → Node → Bool × Node
make w call s = (w.works s.calls call, record { files = s.files; calls = call ∷ s.calls })

-- `os.Remove`: false for an error other than that there is no file.
unfoldable pub remove_file : World → Slot → Node → Bool × Node
remove_file w slot s =
    let done = w.works s.calls (remove_call slot) in
    (
      done,
      record {
        files = if done then put_file slot none s.files else s.files;
        calls = remove_call slot ∷ s.calls;
      },
    )

-- `cert.Manager.Issue`
unfoldable pub issue_cert : World → Bytes → Bytes → Node → Bool × Node
issue_cert w host token s =
    let (cert, key) = w.issued s.calls host in
    (
      w.works s.calls (issue_call host token),
      record {
        files = put_file hy2_key key (put_file hy2_cert cert s.files);
        calls = issue_call host token ∷ s.calls;
      },
    )

-- `systemd.Restart`
abbrev pub restart : World → Service → Node → Bool × Node
restart w service s = make w (restart_call service) s

-- `validateXrayConfig`, with the xray binary as the judge.
abbrev pub check_config : World → Bytes → Node → Bool × Node
check_config w config s = make w (check_call config) s

-- A write whose content is published counts as done.
abbrev pub published : Option WriteError × Node → Bool × Node
published (none, s) = (true, s)
published (some e, s) = (is_durability e, s)

abbrev pub write_accepted : World → Slot → Bytes → Bool × Node → Bool × Node
write_accepted w slot config (false, s) = (false, s)
write_accepted w slot config (true, s) = published (write_atomic w slot config s)

-- `writeXrayConfigChecked`: did it return nil?
unfoldable pub write_config_checked : World → Slot → Bytes → Node → Bool × Node
unfolding write_atomic
write_config_checked w slot config s = write_accepted w slot config (check_config w config s)

-- Put back what was read, or remove what was not there.
abbrev pub restore_file : World → Slot → Option Bytes → Node → Node
restore_file w slot (some old) s = (write_atomic w slot old s).1
restore_file w slot none s = (remove_file w slot s).1

abbrev pub is_nil : Option WriteError → Bool
is_nil none = true
is_nil (some e) = false

-- A write that has to return nil.
abbrev pub write_strictly : World → Slot → Bytes → Node → Bool × Node
write_strictly w slot content s = let (e, s1) = write_atomic w slot content s in (is_nil e, s1)

-- `readFileOrNil`
abbrev pub contents : Result ReadError Bytes → Option Bytes
contents (ok b) = some b
contents (err e) = none
