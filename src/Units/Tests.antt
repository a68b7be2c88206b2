-- ===== src/Units/Tests.antt =====
-- An empty unit directory, and each theorem at it.
use cf_vpn.Prelude.{true, false, [], ◌∷◌, none, some, ◌≡◌, refl}
use cf_vpn.Text.{codes, equal}
use cf_vpn.Text.Order.{less, sort_by}
use cf_vpn.Text.Trim.{trim_space}
use cf_vpn.Dict.{lookup}
use cf_vpn.State.{Env, get}
use cf_vpn.Links.{hy2_enabled}
use cf_vpn.Units.{
  UnitDir, Systemd, enable_now, call_for, canonical_units, canonical_units_for, reconcile_each,
  reconcile_units_tracked, retire_hysteria_unit, from_progress, run_reconcile_units_locked,
}
use cf_vpn.Units.Loop.{IsOrderly}
use cf_vpn.Units.InSync.{IsInSync, run_reconcile_units_locked-twice}

abbrev systemd : Systemd
systemd = record {
  unreadable = λ log name. false;
  write_error = λ log name. none;
  removes = λ log name. true;
  runs = λ log call. true;
  walk = λ l. l;
}

orderly : IsOrderly systemd
orderly = record { readable = λ log name. refl; forth = λ P l h. h; back = λ P l h. h }

abbrev empty : UnitDir
empty = record { units = λ name. none; calls = [] }

abbrev without_hy2 : Env
without_hy2 = (codes "HY2_ENABLED", codes "off") ∷ []

abbrev after : UnitDir
after = (run_reconcile_units_locked systemd without_hy2 empty).1

timers_are_enabled :
    call_for [] (codes "cfvpn-cert-renew.timer")
    ≡ some (enable_now (codes "cfvpn-cert-renew.timer"))
unfolding equal
timers_are_enabled = refl

oneshots_are_left : call_for [] (codes "cfvpn-healthcheck.service") ≡ none
unfolding equal
oneshots_are_left = refl

run_reconcile_units_locked-twice_example :
    IsInSync without_hy2 after
    × (run_reconcile_units_locked systemd without_hy2 after ≡ (true, after))
unfolding run_reconcile_units_locked from_progress reconcile_units_tracked reconcile_each
    canonical_units canonical_units_for hy2_enabled retire_hysteria_unit get lookup equal trim_space
    less sort_by
run_reconcile_units_locked-twice_example =
    run_reconcile_units_locked-twice systemd orderly without_hy2 empty after refl
