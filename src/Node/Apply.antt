-- ===== src/Node/Apply.antt =====
-- internal/commands/validate_config.go: `applyXrayConfig` and `writeXrayConfigIfChanged`.
use cf_vpn.Prelude.{
  Bool, true, false, ◌∷◌, Option, none, some, ◌≡◌, refl, ap, sym, subst, ◌∙◌, ◌⊎◌, inl, inr,
  if◌then◌else◌, Result, ok, err,
}
use cf_vpn.Text.{Bytes, equal}
use cf_vpn.Atomic.{WriteError, plain, durability}
use cf_vpn.Node.{
  Slot, env_file, xray_config, cloudflared_config, hysteria_config, hy2_cert, hy2_key, slot_id,
  xray_service, World, Node, ReadError, missing, failed, put_file, Log, write_call, check_call,
  restart_call, present, read_file, after_write, write_atomic, restart, published, write_accepted,
  write_config_checked,
}

-- The restart on the previous bytes, when these could be written.
abbrev pub restart_restored : World → Option WriteError × Node → Node
restart_restored w (none, s) = (restart w xray_service s).1
restart_restored w (some e, s) = s

abbrev pub back : World → Result ReadError Bytes → Node → Node
back w (err e) s = s
back w (ok previous) s = restart_restored w (write_atomic w xray_config previous s)

abbrev pub after_restart : World → Result ReadError Bytes → Bool × Node → Bool × Node
after_restart w previous (true, s) = (true, s)
after_restart w previous (false, s) = (false, back w previous s)

abbrev pub after_checked : World → Result ReadError Bytes → Bool × Node → Bool × Node
after_checked w previous (false, s) = (false, s)
after_checked w previous (true, s) = after_restart w previous (restart w xray_service s)

-- `applyXrayConfig`: did it return nil?
unfoldable pub apply_xray_config : World → Bytes → Node → Bool × Node
unfolding write_config_checked write_atomic
apply_xray_config w config s =
    after_checked w (read_file w xray_config s) (write_config_checked w xray_config config s)

-- `writeXrayConfigIfChanged`: did it write, and does it return nil?
abbrev pub if_changed : World → Slot → Bytes → Node → Result ReadError Bytes → (Bool × Bool) × Node
if_changed w slot config s (err failed) = ((false, false), s)
if_changed w slot config s (err missing) =
    let (done, t) = write_config_checked w slot config s in ((true, done), t)
if_changed w slot config s (ok existing) =
    let (done, t) = write_config_checked w slot config s in
    if equal existing config then ((false, true), s) else ((true, done), t)

unfoldable pub write_xray_config_if_changed : World → Slot → Bytes → Node → (Bool × Bool) × Node
unfolding write_config_checked equal
write_xray_config_if_changed w slot config s = if_changed w slot config s (read_file w slot s)

-- The xray config after a step, with every other file as it was.
pub record Leaves (s : Node) (content : Option Bytes) (t : Node) : Type 0 where
  pub config : t.files xray_config ≡ content
  pub others : (f : Slot) → (slot_id f ≡ 1 → ⊥) → t.files f ≡ s.files f

Leaves-put :
    (b : Bytes) (s : Node)
    → Leaves s (some b) (record { files = put_file xray_config (some b) s.files; calls = s.calls })
Leaves-put b s = record { config = refl; others = others }
  where
    others : (f : Slot) → (slot_id f ≡ 1 → ⊥) → put_file xray_config (some b) s.files f ≡ s.files f
    others env_file n = refl
    others xray_config n = absurd (n refl)
    others cloudflared_config n = refl
    others hysteria_config n = refl
    others hy2_cert n = refl
    others hy2_key n = refl

-- What a write of the xray config leaves, by its outcome.
abbrev written_content : Node → Bytes → Option WriteError → Option Bytes
written_content s b none = some b
written_content s b (some durability) = some b
written_content s b (some plain) = s.files xray_config

-- The way back leaves what its write leaves.
back-Leaves :
    (w : World) (b : Bytes) (t : Node)
    → Leaves t (written_content t b (w.write_error t.calls xray_config b)) (back w (ok b) t)
unfolding write_atomic
back-Leaves w b t = go (w.write_error t.calls xray_config b)
  where
    after : Option WriteError → Node
    after e = record {
      files = after_write xray_config b e t.files;
      calls = write_call xray_config b ∷ t.calls;
    }

    go :
        (e : Option WriteError) → Leaves t (written_content t b e) (restart_restored w (e, after e))
    go none = record { config = refl; others = (Leaves-put b t).others }
    go (some durability) = record { config = refl; others = (Leaves-put b t).others }
    go (some plain) = record { config = refl; others = λ f n. refl }

Leaves-of :
    (s t u : Node) (o : Option Bytes)
    → Leaves t o u
    → ((f : Slot) → t.files f ≡ s.files f)
    → Leaves s o u
Leaves-of s t u o h e = record { config = h.config; others = λ f n. h.others f n ∙ e f }

-- The same file, exchanged twice.
Leaves-trans : (s t u : Node) (o p : Option Bytes) → Leaves s o t → Leaves t p u → Leaves s p u
Leaves-trans s t u o p h k = record {
  config = k.config;
  others = λ f n. k.others f n ∙ h.others f n;
}

-- With every answer of the environment: the new content, after check, write and restart in this
-- order, or a failure that leaves the old content or the new one.
unfoldable pub Outcome : Node → Bytes → (Option Bytes → Node → Type 0) → Bool × Node → Type 0
Outcome s config after (true, t) =
    Leaves s (some config) t
    × (t.calls
        ≡ restart_call xray_service ∷ write_call xray_config config ∷ check_call config ∷ s.calls)
Outcome s config after (false, t) = after (s.files xray_config) t

-- A failure leaves one of the two contents.
abbrev pub Either : Node → Bytes → Option Bytes → Node → Type 0
Either s config old t = Leaves s old t ⊎ Leaves s (some config) t

module _ (w : World) (config : Bytes) (s : Node) where
  -- The environment lets the old config be read and written again.
  pub record IsRestorable (b : Bytes) : Type 0 where
    pub there : s.files xray_config ≡ some b
    pub readable : w.unreadable s.calls xray_config ≡ false
    pub restores : (log : Log) → w.write_error log xray_config b ≡ none

  module _ (P : Option Bytes → Node → Type 0) (previous : Result ReadError Bytes)
      (kept : (t : Node) → ((f : Slot) → t.files f ≡ s.files f) → P (s.files xray_config) t)
      (undone : (t : Node)
        → Leaves s (some config) t
        → P (s.files xray_config) (back w previous t)) where
    restarted-Outcome :
        (t : Node)
        → Leaves s (some config) t
        → (t.calls ≡ write_call xray_config config ∷ check_call config ∷ s.calls)
        → Outcome s config P (after_restart w previous (restart w xray_service t))
    unfolding Outcome
    restarted-Outcome t h c = go (w.works t.calls (restart_call xray_service))
      where
        go :
            (b : Bool)
            → Outcome s config P (
                after_restart w previous
                  (b, record { files = t.files; calls = restart_call xray_service ∷ t.calls }))
        go true = (
          record { config = h.config; others = h.others },
          ap (◌∷◌ (restart_call xray_service)) c,
        )
        go false =
            undone (record { files = t.files; calls = restart_call xray_service ∷ t.calls })
              (record { config = h.config; others = h.others })

    apply-Outcome :
        Outcome s config P (after_checked w previous (write_config_checked w xray_config config s))
    unfolding write_config_checked write_atomic Outcome
    apply-Outcome = go (w.works s.calls (check_call config)) refl
      where
        checked : Node
        checked = record { files = s.files; calls = check_call config ∷ s.calls }

        after : Option WriteError → Node
        after e = record {
          files = after_write xray_config config e s.files;
          calls = write_call xray_config config ∷ check_call config ∷ s.calls;
        }

        put : Leaves s (some config) (after none)
        put = record { config = refl; others = (Leaves-put config s).others }

        made :
            (e : Option WriteError)
            → Outcome s config P (after_checked w previous (published (e, after e)))
        made none = restarted-Outcome (after none) put refl
        made (some durability) = restarted-Outcome (after (some durability)) put refl
        made (some plain) = kept (after (some plain)) (λ f. refl)

        go :
            (b : Bool)
            → w.works s.calls (check_call config) ≡ b
            → Outcome s config P
                (after_checked w previous (write_accepted w xray_config config (b, checked)))
        go true e = made (w.write_error (check_call config ∷ s.calls) xray_config config)
        go false e = kept checked (λ f. refl)

  -- Whatever the environment answers, `applyXrayConfig` ends with the new config on disk after a
  -- check, a write and a restart in this order, or with an error and the xray config either as it was
  -- or the new one; no other file changes.
  pub apply_xray_config-Outcome : Outcome s config (Either s config) (apply_xray_config w config s)
  unfolding apply_xray_config
  apply_xray_config-Outcome = go (w.unreadable s.calls xray_config) (s.files xray_config) refl
    where
      undone :
          (b : Bytes)
          → s.files xray_config ≡ some b
          → (t : Node) → Leaves s (some config) t
          → Either s config (s.files xray_config) (back w (ok b) t)
      undone b there t h = cases (w.write_error t.calls xray_config b) (back-Leaves w b t)
        where
          old :
              Leaves t (some b) (back w (ok b) t)
              → Either s config (s.files xray_config) (back w (ok b) t)
          old k = inl (
              subst (λ o. Leaves s o (back w (ok b) t)) (sym there)
                (Leaves-trans s t (back w (ok b) t) (some config) (some b) h k))

          cases :
              (e : Option WriteError)
              → Leaves t (written_content t b e) (back w (ok b) t)
              → Either s config (s.files xray_config) (back w (ok b) t)
          cases none k = old k
          cases (some durability) k = old k
          cases (some plain) k = inr (
              subst (λ o. Leaves s o (back w (ok b) t)) h.config
                (Leaves-trans s t (back w (ok b) t) (some config) (t.files xray_config) h k))

      go :
          (u : Bool) (o : Option Bytes)
          → s.files xray_config ≡ o
          → Outcome s config (Either s config) (
              after_checked w
                (if u then err failed else present o)
                (write_config_checked w xray_config config s))
      go true o e =
          apply-Outcome (Either s config) (err failed)
            (λ t h. inl (record { config = h xray_config; others = λ f n. h f })) (λ t h. inr h)
      go false none e =
          apply-Outcome (Either s config) (err missing)
            (λ t h. inl (record { config = h xray_config; others = λ f n. h f })) (λ t h. inr h)
      go false (some b) e =
          apply-Outcome (Either s config) (ok b)
            (λ t h. inl (record { config = h xray_config; others = λ f n. h f })) (undone b e)

  -- Where the old config can be read and written again, `applyXrayConfig` either ends with the new
  -- config on disk, after a check, a write and a restart in this order, or with an error and every
  -- file as it was.
  pub apply_xray_config-Restores :
      (b : Bytes) → IsRestorable b → Outcome s config (Leaves s) (apply_xray_config w config s)
  unfolding apply_xray_config
  apply_xray_config-Restores b h =
      subst
        (λ r.
          Outcome s config (Leaves s)
            (after_checked w r (write_config_checked w xray_config config s)))
        (sym read) go
    where
      read : read_file w xray_config s ≡ ok b
      read = rw h.readable (rw h.there refl)

      undone :
          (t : Node) → Leaves s (some config) t → Leaves s (s.files xray_config) (back w (ok b) t)
      undone t k =
          subst (λ o. Leaves s o (back w (ok b) t)) (sym h.there)
            (Leaves-trans s t (back w (ok b) t) (some config) (some b) k (
              subst (λ e. Leaves t (written_content t b e) (back w (ok b) t)) (h.restores t.calls)
                (back-Leaves w b t)))

      go :
          Outcome s config
            (Leaves s)
            (after_checked w (ok b) (write_config_checked w xray_config config s))
      go =
          apply-Outcome (Leaves s) (ok b)
            (λ t e. record { config = e xray_config; others = λ f n. e f }) undone
