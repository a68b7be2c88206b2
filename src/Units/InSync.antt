-- ===== src/Units/InSync.antt =====
-- internal/commands/reconcile.go: the unit directory after a run, and a run after it.
use cf_vpn.Prelude.{
  Bool, true, false, List, [], ◌∷◌, Option, none, some, ◌≡◌, refl, ap, sym, subst, ◌∙◌, ◌⊎◌, inl,
  inr, Bool-cases, if◌then◌else◌, All,
}
use cf_vpn.Text.{Bytes, equal, equal_self}
use cf_vpn.Text.Order.{sort_by}
use cf_vpn.State.{Env}
use cf_vpn.Links.{hy2_enabled}
use cf_vpn.Units.{
  UnitCall, UnitDir, Systemd, hysteria_unit, canonical_units_for, canonical_units, put_unit,
  is_there, Progress, reconcile_each, reconcile_units_tracked, run, Retired, untouched, retired,
  failed, removed_unit, retire_hysteria_unit, daemon_reload, disable_now, call_for, called, act,
  none_changed, settle, from_progress, run_reconcile_units_locked,
}
use cf_vpn.Units.Loop.{Entry, IsOrderly, Holds, text_in, reconcile_each-Loop, reconcile_each-still}

-- Each unit of the node is there with its text, and that of hysteria only where it is enabled.
pub record IsInSync (env : Env) (d : UnitDir) : Type 0 where
  pub units : All (λ e. d.units e.0 ≡ some e.1) (canonical_units env)
  pub hysteria : (hy2_enabled env ≡ true) ⊎ (d.units hysteria_unit ≡ none)

-- Every name of the map has its own text there.
canonical-text_in :
    (hy2 : Bool)
    → All (λ e. text_in (canonical_units_for hy2) e.0 ≡ some e.1) (canonical_units_for hy2)
unfolding canonical_units_for equal
canonical-text_in true = (refl, (refl, (refl, (refl, (refl, (refl, (refl, (refl, tt))))))))
canonical-text_in false = (refl, (refl, (refl, (refl, (refl, (refl, (refl, tt)))))))

-- Without Hysteria2 no entry is that of its unit.
others-hysteria : All (λ (e : Entry). equal e.0 hysteria_unit ≡ false) (canonical_units_for false)
unfolding canonical_units_for equal
others-hysteria = (refl, (refl, (refl, (refl, (refl, (refl, (refl, tt)))))))

-- Calls leave the files.
act-units :
    (w : Systemd) (created names : List Bytes) (r : Bool × UnitDir)
    → (act w created names r).1.units ≡ r.1.units
act-units w created names (false, d) = refl
act-units w created [] (true, d) = refl
act-units w created (name ∷ names) (true, d) =
    act-units w created names (called w (call_for created name) d)
    ∙ called-units (call_for created name)
  where
    called-units : (c : Option UnitCall) → (called w c d).1.units ≡ d.units
    called-units none = refl
    called-units (some c) = refl

module _ (w : Systemd) (orderly : IsOrderly w) (env : Env) where
  tracked-All :
      (d : UnitDir)
      → (reconcile_units_tracked w env d).done ≡ true
      → All (Holds (reconcile_units_tracked w env d).dir) (canonical_units env)
  unfolding reconcile_units_tracked canonical_units
  tracked-All d h =
      let c = canonical_units_for (hy2_enabled env) in
      orderly.back (Holds (reconcile_each w (w.walk c) [] [] d).dir) c (
        (reconcile_each-Loop w orderly c (w.walk c) [] [] d (
            orderly.forth (λ e. text_in c e.0 ≡ some e.1) c
              (canonical-text_in (hy2_enabled env)))).1
          h)

  -- What retiring does to the files.
  Retires : UnitDir → Retired × UnitDir → Type 0
  Retires s (failed, u) = Unit {0}
  Retires s (untouched, u) =
      (u.units ≡ s.units) × ((hy2_enabled env ≡ true) ⊎ (s.units hysteria_unit ≡ none))
  Retires s (retired, u) =
      (u.units ≡ put_unit hysteria_unit none s.units) × (hy2_enabled env ≡ false)

  retire-Retires : (s : UnitDir) → Retires s (retire_hysteria_unit w env s)
  unfolding Retires retire_hysteria_unit
  retire-Retires s = elim (Bool-cases (hy2_enabled env)) [
    | inl on_ ↦ rw on_ (refl, inl on_)
    | inr off ↦ rw off (go (s.units hysteria_unit) refl off)
  ]
    where
      removing :
          (b : Bool) (u : UnitDir)
          → u.units ≡ s.units
          → hy2_enabled env ≡ false
          → Retires s (
              if b
              then (
                retired,
                record { units = put_unit hysteria_unit none u.units; calls = u.calls },
              )
              else (failed, u))
      removing true u e off = (ap (put_unit hysteria_unit none) e, off)
      removing false u e off = tt

      disabled :
          (r : Bool × UnitDir)
          → r.1.units ≡ s.units
          → hy2_enabled env ≡ false
          → Retires s (removed_unit w r)
      disabled (false, u) e off = tt
      disabled (true, u) e off = removing (w.removes u.calls hysteria_unit) u e off

      go :
          (o : Option Bytes)
          → s.units hysteria_unit ≡ o
          → hy2_enabled env ≡ false
          → Retires s (
              if is_there o
              then removed_unit w (run w (disable_now hysteria_unit) s)
              else (untouched, s))
      go none e off = (refl, inr e)
      go (some b) e off = disabled (run w (disable_now hysteria_unit) s) refl off

  InSync-units : (s t : UnitDir) → t.units ≡ s.units → IsInSync env s → IsInSync env t
  InSync-units s t e h =
      subst (λ (u : Bytes → Option Bytes). IsInSync env (record { units = u; calls = t.calls }))
        (sym e) (record { units = h.units; hysteria = h.hysteria })

  dropped-All :
      (s : UnitDir)
      → hy2_enabled env ≡ false
      → All (Holds s) (canonical_units env)
      → All
          (λ (e : Entry). put_unit hysteria_unit none s.units e.0 ≡ some e.1)
          (canonical_units env)
  unfolding canonical_units
  dropped-All s off h =
      subst
        (λ b.
          All (λ (e : Entry). put_unit hysteria_unit none s.units e.0 ≡ some e.1)
            (canonical_units_for b))
        (sym off)
        (both (canonical_units_for false) others-hysteria
          (subst (λ b. All (Holds s) (canonical_units_for b)) off h))
    where
      both :
          (l : List Entry)
          → All (λ (e : Entry). equal e.0 hysteria_unit ≡ false) l
          → All (Holds s) l
          → All (λ (e : Entry). put_unit hysteria_unit none s.units e.0 ≡ some e.1) l
      both [] x y = tt
      both (e ∷ l) (x, xs) (y, ys) = (rw x y, both l xs ys)

  settle-IsInSync :
      (p : Progress) (r : Retired × UnitDir)
      → All (Holds p.dir) (canonical_units env)
      → Retires p.dir r
      → (settle w p r).0 ≡ true
      → IsInSync env (settle w p r).1
  unfolding Retires
  settle-IsInSync p (failed, u) h x e = absurd (cc e)
  settle-IsInSync p (untouched, u) h (same, hy) e =
      let now = InSync-units p.dir u same (record { units = h; hysteria = hy }) in
      elim (Bool-cases (none_changed p.changed)) [
        | inl quiet ↦ rw quiet now
        | inr busy ↦
            rw busy (InSync-units u _ (act-units w p.created p.changed (run w daemon_reload u)) now)
      ]
  settle-IsInSync p (retired, u) h (less, off) e =
      InSync-units u _ (act-units w p.created p.changed (run w daemon_reload u)) (
        InSync-units (record { units = put_unit hysteria_unit none p.dir.units; calls = [] }) u less
          (record {
            units = dropped-All p.dir off h;
            hysteria = inr (rw (equal_self hysteria_unit) refl);
          }))

  from_progress-IsInSync :
      (p : Progress) (t : UnitDir)
      → ((p.done ≡ true) → All (Holds p.dir) (canonical_units env))
      → from_progress w env p ≡ (true, t)
      → IsInSync env t
  unfolding from_progress
  from_progress-IsInSync p t every h = elim (Bool-cases p.done) [
    | inl done ↦
        let r = retire_hysteria_unit w env p.dir in
        let e : settle w p r ≡ (true, t) = rw done at h in
        subst (IsInSync env) (ap (λ (x : Bool × UnitDir). x.1) e) (
          settle-IsInSync p r (every done) (retire-Retires p.dir)
            (ap (λ (x : Bool × UnitDir). x.0) e))
    | inr stopped_ ↦ absurd (cc (ap (λ (x : Bool × UnitDir). x.0) (rw stopped_ at h)))
  ]

  -- A run that succeeds leaves the directory in line.
  run-IsInSync : (d t : UnitDir) → run_reconcile_units_locked w env d ≡ (true, t) → IsInSync env t
  unfolding run_reconcile_units_locked
  run-IsInSync d t h = from_progress-IsInSync (reconcile_units_tracked w env d) t (tracked-All d) h

  -- Nothing happens where the directory is in line.
  run-still : (t : UnitDir) → IsInSync env t → run_reconcile_units_locked w env t ≡ (true, t)
  unfolding run_reconcile_units_locked from_progress reconcile_units_tracked canonical_units
      retire_hysteria_unit sort_by
  run-still t h =
      let c = canonical_units_for (hy2_enabled env) in
      rw (reconcile_each-still w orderly c (w.walk c) [] [] t (orderly.forth (Holds t) c (h.units)))
        (elim h.hysteria [
          | inl on_ ↦ rw on_ refl
          | inr gone ↦ elim (Bool-cases (hy2_enabled env)) [
            | inl on_ ↦ rw on_ refl
            | inr off ↦ rw off (rw gone refl)
          ]
        ])

  -- Where the unit directory can be read and the map is walked entry by entry: when
  -- `runReconcileUnitsLocked` returns no error, every unit of the node has its text on disk, the unit
  -- of hysteria is gone where Hysteria2 is disabled, and a second run returns no error, makes no call
  -- and changes no file.
  pub run_reconcile_units_locked-twice :
      (d t : UnitDir)
      → run_reconcile_units_locked w env d ≡ (true, t)
      → IsInSync env t × (run_reconcile_units_locked w env t ≡ (true, t))
  run_reconcile_units_locked-twice d t h =
      let there = run-IsInSync d t h in (there, run-still t there)
