-- ===== src/Units/Loop.antt =====
-- internal/commands/reconcile.go: the loop over the units.
use cf_vpn.Prelude.{
  true, false, List, [], ◌∷◌, Option, none, some, ◌≡◌, refl, ap, sym, subst, ◌∙◌, ◌⊎◌, inl, inr,
  Bool-cases, if◌then◌else◌, All,
}
use cf_vpn.Text.{Bytes, equal, equal_iff, equal_self}
use cf_vpn.Atomic.{WriteError, plain, durability}
use cf_vpn.Units.{
  UnitLog, UnitDir, Systemd, is_there, is_content, Progress, stopped, kept_if, after_unit,
  is_written, reconcile_each,
}

abbrev pub Entry : Type 0
Entry = Bytes × Bytes

-- The directory can be read, and the walk of the map visits every entry and no other.
pub record IsOrderly (w : Systemd) : Type 1 where
  pub readable : (log : UnitLog) (name : Bytes) → w.unreadable log name ≡ false
  pub forth : (P : Bytes × Bytes → Type 0) (l : List (Bytes × Bytes)) → All P l → All P (w.walk l)
  pub back : (P : Bytes × Bytes → Type 0) (l : List (Bytes × Bytes)) → All P (w.walk l) → All P l

abbrev pub Holds : UnitDir → Entry → Type 0
Holds d e = d.units e.0 ≡ some e.1

-- The text that a name has among some entries.
abbrev pub text_in : List Entry → Bytes → Option Bytes
text_in [] j = none
text_in ((k, v) ∷ l) j = let rest = text_in l j in if equal j k then some v else rest

-- A file that is not as it was has the text of its name.
abbrev pub Moves : List Entry → UnitDir → UnitDir → Type 0
Moves c d t =
    (j : Bytes)
    → (t.units j ≡ d.units j) ⊎ ((v : Bytes) × (text_in c j ≡ some v) × (t.units j ≡ some v))

Moves-trans : (c : List Entry) (d s t : UnitDir) → Moves c d s → Moves c s t → Moves c d t
Moves-trans c d s t h k j = elim (k j) [
  | inl same ↦ elim (h j) [ inl e ↦ inl (same ∙ e) | inr (v, x, e) ↦ inr (v, x, same ∙ e) ]
  | inr found ↦ inr found
]

-- What has its text keeps it.
Moves-Holds :
    (c : List Entry) (d t : UnitDir) (e : Entry)
    → Moves c d t
    → text_in c e.0 ≡ some e.1
    → Holds d e
    → Holds t e
Moves-Holds c d t e m h k = elim (m e.0) [
  | inl same ↦ same ∙ k
  | inr (v, x, there) ↦ there ∙ sym x ∙ h
]

after_unit-Moves :
    (c : List Entry) (name content : Bytes) (e : Option WriteError) (d : UnitDir)
    → text_in c name ≡ some content
    → Moves c d (after_unit name content e d)
after_unit-Moves c name content (some plain) d h j = inl refl
after_unit-Moves c name content (some durability) d h j = elim (Bool-cases (equal j name)) [
  | inl same ↦ inr (content, rw ((equal_iff j name).0 same) h, rw same refl)
  | inr other ↦ inl (rw other refl)
]
after_unit-Moves c name content none d h j = elim (Bool-cases (equal j name)) [
  | inl same ↦ inr (content, rw ((equal_iff j name).0 same) h, rw same refl)
  | inr other ↦ inl (rw other refl)
]

after_unit-Holds :
    (name content : Bytes) (e : Option WriteError) (d : UnitDir)
    → is_written e ≡ true
    → (after_unit name content e d).units name ≡ some content
after_unit-Holds name content none d h = rw (equal_self name) refl
after_unit-Holds name content (some x) d h = absurd (cc h)

is_content-eq :
    (content : Bytes) (o : Option Bytes) → is_content content o ≡ true → o ≡ some content
is_content-eq content none h = absurd (cc h)
is_content-eq content (some b) h = ap some ((equal_iff b content).0 h)

module _ (w : Systemd) (orderly : IsOrderly w) (c : List Entry) where
  -- The loop moves files to their texts only, and a loop to its end moves all.
  abbrev pub Loop : List Entry → UnitDir → Progress → Type 0
  Loop l d p = Moves c d p.dir × ((p.done ≡ true) → All (Holds p.dir) l)

  module _ (name content : Bytes) (rest : List Entry) (changed created : List Bytes)
      (d : UnitDir) where
    abbrev tried : UnitDir
    tried = after_unit name content (w.write_error d.calls name) d

    abbrev whole : Progress
    whole = reconcile_each w ((name, content) ∷ rest) changed created d

    same-eq :
        is_content content (d.units name) ≡ true → whole ≡ reconcile_each w rest changed created d
    unfolding reconcile_each
    same-eq same = rw (orderly.readable d.calls name) (rw same refl)

    next-eq :
        is_content content (d.units name) ≡ false
        → is_written (w.write_error d.calls name) ≡ true
        → whole
          ≡ reconcile_each w rest
              (name ∷ changed)
              (kept_if (is_there (d.units name)) name created)
              tried
    unfolding reconcile_each
    next-eq differs good = rw (orderly.readable d.calls name) (rw (differs, good) refl)

    stop-eq :
        is_content content (d.units name) ≡ false
        → is_written (w.write_error d.calls name) ≡ false
        → whole ≡ stopped changed created tried
    unfolding reconcile_each
    stop-eq differs bad = rw (orderly.readable d.calls name) (rw (differs, bad) refl)

  pub reconcile_each-Loop :
      (l : List Entry) (changed created : List Bytes) (d : UnitDir)
      → All (λ e. text_in c e.0 ≡ some e.1) l
      → Loop l d (reconcile_each w l changed created d)
  reconcile_each-Loop [] changed created d h = unfold reconcile_each in (λ j. inl refl, λ e. tt)
  reconcile_each-Loop ((name, content) ∷ rest) changed created d (h, hs) =
      let l = (name, content) ∷ rest in
      let first = after_unit-Moves c name content (w.write_error d.calls name) d h in
      let s = after_unit name content (w.write_error d.calls name) d in
      elim (Bool-cases (is_content content (d.units name))) [
        | inl same ↦
            let p = reconcile_each w rest changed created d in
            let (moves, every) = reconcile_each-Loop rest changed created d hs in
            subst (Loop l d) (sym (same-eq name content rest changed created d same)) (
              moves,
              λ e. (
                Moves-Holds c d p.dir (name, content) moves h
                    (is_content-eq content (d.units name) same),
                every e,
              ),
            )
        | inr differs ↦ elim (Bool-cases (is_written (w.write_error d.calls name))) [
          | inl good ↦
              let p =
                reconcile_each w rest (name ∷ changed)
                  (kept_if (is_there (d.units name)) name created) s in
              let (moves, every) =
                reconcile_each-Loop rest (name ∷ changed)
                  (kept_if (is_there (d.units name)) name created) s hs in
              subst (Loop l d) (sym (next-eq name content rest changed created d differs good)) (
                Moves-trans c d s p.dir first moves,
                λ e. (
                  Moves-Holds c s p.dir (name, content) moves h
                      (after_unit-Holds name content (w.write_error d.calls name) d good),
                  every e,
                ),
              )
          | inr bad ↦
              subst (Loop l d) (sym (stop-eq name content rest changed created d differs bad))
                (first, λ e. absurd (cc e))
        ]
      ]

  -- Nothing is left to do where each file has its text.
  pub reconcile_each-still :
      (l : List Entry) (changed created : List Bytes) (d : UnitDir)
      → All (Holds d) l
      → reconcile_each w l changed created d
        ≡ record { done = true; changed = changed; created = created; dir = d }
  unfolding reconcile_each
  reconcile_each-still [] changed created d h = refl
  reconcile_each-still ((name, content) ∷ rest) changed created d (h, hs) =
      rw (orderly.readable d.calls name)
        (rw h (rw (equal_self content) (reconcile_each-still rest changed created d hs)))
