-- ===== src/Units.antt =====
-- internal/commands/reconcile.go: the unit files of a node and the commands that bring them in line.
-- Output is left out.
pub mod Texts
pub mod Loop
pub mod InSync
mod Tests
use cf_vpn.Prelude.{
  ℕ, Bool, true, false, not, ◌&&◌, ◌||◌, List, [], ◌∷◌, ◌++◌, any, Option, none, some,
  if◌then◌else◌, Result, ok, err,
}
use cf_vpn.Text.{Bytes, codes, equal}
use cf_vpn.Text.Order.{less, sort_by}
use cf_vpn.Atomic.{WriteError, plain, durability}
use cf_vpn.Dict.{Dict, put, put_all, lookup}
use cf_vpn.State.{Env}
use cf_vpn.Links.{hy2_enabled}
use cf_vpn.Units.Texts.{
  xray_service, cloudflared_service, healthcheck_service, healthcheck_timer, agent_service,
  hysteria_service, cert_renew_service, cert_renew_timer,
}

-- The calls of internal/systemd/manager.go.
pub data UnitCall : Type 0 where
  daemon_reload : UnitCall
  enable_now disable_now restart_unit : Bytes → UnitCall

abbrev pub UnitLog : Type 0
UnitLog = List UnitCall

-- The files of the unit directory, and the calls made, newest first.
pub record UnitDir : Type 0 where
  pub units : Bytes → Option Bytes
  pub calls : UnitLog

-- What the environment answers, and the order in which the map of units is walked.
pub record Systemd : Type 0 where
  pub unreadable : UnitLog → Bytes → Bool
  pub write_error : UnitLog → Bytes → Option WriteError
  pub removes : UnitLog → Bytes → Bool
  pub runs : UnitLog → UnitCall → Bool
  pub walk : List (Bytes × Bytes) → List (Bytes × Bytes)

abbrev pub hysteria_unit : Bytes
hysteria_unit = codes "cfvpn-hysteria.service"

abbrev pub base_units : List (Bytes × Bytes)
base_units =
    (codes "cfvpn-xray.service", xray_service (codes "/etc/cfvpn/xray/config.json"))
    ∷ (
      codes "cfvpn-cloudflared.service",
      cloudflared_service (codes "/etc/cfvpn/cloudflared/config.yml"),
    )
    ∷ (codes "cfvpn-agent.service", agent_service)
    ∷ (codes "cfvpn-cert-renew.service", cert_renew_service)
    ∷ (codes "cfvpn-cert-renew.timer", cert_renew_timer)
    ∷ (codes "cfvpn-healthcheck.service", healthcheck_service)
    ∷ (codes "cfvpn-healthcheck.timer", healthcheck_timer)
    ∷ []

unfoldable pub canonical_units_for : Bool → List (Bytes × Bytes)
canonical_units_for hy2 =
    if hy2
    then (hysteria_unit, hysteria_service (codes "/etc/cfvpn/hysteria/config.yaml")) ∷ base_units
    else base_units

unfoldable pub canonical_units : Env → List (Bytes × Bytes)
unfolding hy2_enabled canonical_units_for
canonical_units env = canonical_units_for (hy2_enabled env)

abbrev pub long_running_units : List Bytes
long_running_units =
    codes "cfvpn-xray.service"
    ∷ codes "cfvpn-cloudflared.service"
    ∷ codes "cfvpn-agent.service"
    ∷ codes "cfvpn-hysteria.service"
    ∷ []

abbrev pub put_unit : Bytes → Option Bytes → (Bytes → Option Bytes) → Bytes → Option Bytes
put_unit name content units other = if equal other name then content else units other

abbrev pub is_there : Option Bytes → Bool
is_there none = false
is_there (some b) = true

abbrev pub is_content : Bytes → Option Bytes → Bool
is_content content none = false
is_content content (some b) = equal b content

-- Did it succeed, what has changed, and what of it is new.
pub record Progress : Type 0 where
  pub done : Bool
  pub changed : List Bytes
  pub created : List Bytes
  pub dir : UnitDir

abbrev pub stopped : List Bytes → List Bytes → UnitDir → Progress
stopped changed created d = record { done = false; changed = changed; created = created; dir = d }

abbrev pub kept_if : Bool → Bytes → List Bytes → List Bytes
kept_if there name created = if there then created else name ∷ created

-- The directory after `writeAtomicFile`.
abbrev pub after_unit : Bytes → Bytes → Option WriteError → UnitDir → UnitDir
after_unit name content (some plain) d = d
after_unit name content (some durability) d = record {
  units = put_unit name (some content) d.units;
  calls = d.calls;
}
after_unit name content none d = record {
  units = put_unit name (some content) d.units;
  calls = d.calls;
}

abbrev pub is_written : Option WriteError → Bool
is_written none = true
is_written (some e) = false

-- `reconcileUnitsTracked` on the entries that are left; `writeIfChanged` is its test and its write.
unfoldable pub reconcile_each :
    Systemd → List (Bytes × Bytes) → List Bytes → List Bytes → UnitDir → Progress
unfolding equal
reconcile_each w [] changed created d = record {
  done = true;
  changed = changed;
  created = created;
  dir = d;
}
reconcile_each w ((name, content) ∷ rest) changed created d =
    let e = w.write_error d.calls name in
    let written = after_unit name content e d in
    let same = reconcile_each w rest changed created d in
    let next =
      reconcile_each w rest (name ∷ changed) (kept_if (is_there (d.units name)) name created)
        written in
    if w.unreadable d.calls name
    then stopped changed created d
    else if is_content content (d.units name)
    then same
    else if is_written e
    then next
    else stopped changed created written

abbrev pub by_itself : Bytes → Bytes
by_itself name = name

unfoldable pub reconcile_units_tracked : Systemd → Env → UnitDir → Progress
unfolding reconcile_each canonical_units less
reconcile_units_tracked w env d =
    let p = reconcile_each w (w.walk (canonical_units env)) [] [] d in
    record {
      done = p.done;
      changed = if p.done then sort_by by_itself p.changed else p.changed;
      created = p.created;
      dir = p.dir;
    }

-- `reconcileUnits`
unfoldable pub reconcile_units : Systemd → Env → UnitDir → Bool × List Bytes × UnitDir
unfolding reconcile_units_tracked
reconcile_units w env d = let p = reconcile_units_tracked w env d in (p.done, p.changed, p.dir)

abbrev pub run : Systemd → UnitCall → UnitDir → Bool × UnitDir
run w call d = (w.runs d.calls call, record { units = d.units; calls = call ∷ d.calls })

pub data Retired : Type 0 where
  untouched retired failed : Retired

abbrev pub has_suffix : Bytes → Bytes → Bool
has_suffix suffix [] = equal [] suffix
has_suffix suffix (c ∷ s) = equal (c ∷ s) suffix || has_suffix suffix s

abbrev pub removed_unit : Systemd → Bool × UnitDir → Retired × UnitDir
removed_unit w (false, d) = (failed, d)
removed_unit w (true, d) =
    if w.removes d.calls hysteria_unit
    then (retired, record { units = put_unit hysteria_unit none d.units; calls = d.calls })
    else (failed, d)

unfoldable pub retire_hysteria_unit : Systemd → Env → UnitDir → Retired × UnitDir
unfolding hy2_enabled equal
retire_hysteria_unit w env d =
    if hy2_enabled env
    then (untouched, d)
    else if is_there (d.units hysteria_unit)
    then removed_unit w (run w (disable_now hysteria_unit) d)
    else (untouched, d)

-- The call for a changed unit.
abbrev pub call_for : List Bytes → Bytes → Option UnitCall
call_for created name =
    if has_suffix (codes ".timer") name
    then some (enable_now name)
    else if any (equal name) long_running_units
    then some (if any (equal name) created then enable_now name else restart_unit name)
    else none

abbrev pub called : Systemd → Option UnitCall → UnitDir → Bool × UnitDir
called w none d = (true, d)
called w (some c) d = run w c d

-- The loop over the changed units.
abbrev pub act : Systemd → List Bytes → List Bytes → Bool × UnitDir → Bool × UnitDir
act w created names (false, d) = (false, d)
act w created [] (true, d) = (true, d)
act w created (name ∷ names) (true, d) = act w created names (called w (call_for created name) d)

abbrev pub none_changed : List Bytes → Bool
none_changed [] = true
none_changed (c ∷ cs) = false

abbrev pub settle : Systemd → Progress → Retired × UnitDir → Bool × UnitDir
settle w p (failed, d) = (false, d)
settle w p (retired, d) = act w p.created p.changed (run w daemon_reload d)
settle w p (untouched, d) =
    if none_changed p.changed then (true, d) else act w p.created p.changed (run w daemon_reload d)

unfoldable pub from_progress : Systemd → Env → Progress → Bool × UnitDir
unfolding retire_hysteria_unit
from_progress w env p =
    if p.done then settle w p (retire_hysteria_unit w env p.dir) else (false, p.dir)

-- `runReconcileUnitsLocked`: did it return nil?
unfoldable pub run_reconcile_units_locked : Systemd → Env → UnitDir → Bool × UnitDir
unfolding reconcile_units_tracked from_progress
run_reconcile_units_locked w env d = from_progress w env (reconcile_units_tracked w env d)

-- `RunReconcileUnits`, where `locked` tells whether it gets the lock.
unfoldable pub run_reconcile_units : Systemd → Bool → Env → UnitDir → Bool × UnitDir
unfolding run_reconcile_units_locked
run_reconcile_units w locked env d =
    if locked then run_reconcile_units_locked w env d else (false, d)
