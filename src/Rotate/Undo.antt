-- ===== src/Rotate/Undo.antt =====
-- internal/commands/rotate.go: `fail` and the restores of files, on a node where some files have
-- changed.
use cf_vpn.Prelude.{
  ℕ, Bool, true, false, ◌&&◌, List, [], ◌∷◌, Option, none, some, ◌≡◌, ◌≢◌, refl, ap, ◌∙◌, sym, ◌⊎◌,
  inl, inr, leb,
}
use cf_vpn.Text.{Bytes}
use cf_vpn.Atomic.{durability}
use cf_vpn.Node.{
  Slot, env_file, xray_config, cloudflared_config, hysteria_config, hy2_cert, hy2_key, slot_id,
  Record, Log, remove_call, delete_call, World, Node, put_file, make, write_atomic, remove_file,
  restore_file,
}
use cf_vpn.Rotate.{RotateError, Rollback, restore_hy2_cert, delete_created, fail}

-- What the way back needs of the environment: files can be read, contents that were there at the
-- start can be written again, files can be removed, and a write of the cloudflared config is either
-- published and flushed or not made at all.
pub record IsReliable (w : World) (start : Node) : Type 0 where
  pub readable : (log : Log) (f : Slot) → w.unreadable log f ≡ false
  pub restores :
      (log : Log) (f : Slot) (b : Bytes) → start.files f ≡ some b → w.write_error log f b ≡ none
  pub removes : (log : Log) (f : Slot) → w.works log (remove_call f) ≡ true
  pub strict : (log : Log) (b : Bytes) → w.write_error log cloudflared_config b ≢ some durability

abbrev pub is_pair : Slot → Bool
is_pair f = leb 4 (slot_id f)

-- The xray config, for two the cloudflared config too.
abbrev pub is_dirty : ℕ → Slot → Bool
is_dirty n f = leb 1 (slot_id f) && leb (slot_id f) n

-- The old pair, kept for the way back.
pub record IsKept (start : Node) (rb : Rollback) : Type 0 where
  pub touched : rb.touched ≡ true
  pub cert : Bytes
  pub key : Bytes
  pub prev_cert : rb.prev_cert ≡ some cert
  pub prev_key : rb.prev_key ≡ some key
  pub old_cert : start.files hy2_cert ≡ some cert
  pub old_key : start.files hy2_key ≡ some key

-- Files have changed only where `n` says, and in the certificate if that is kept.
pub record IsReady (start : Node) (n : ℕ) (rb : Rollback) (s : Node) : Type 0 where
  pub clean : (f : Slot) → is_pair f ≡ false → is_dirty n f ≡ false → s.files f ≡ start.files f
  pub pair :
      IsKept start rb
      ⊎ ((rb.touched ≡ false) × ((f : Slot) → is_pair f ≡ true → s.files f ≡ start.files f))

abbrev pub IsIntact : Node → Node → Type 0
IsIntact start s = (f : Slot) → s.files f ≡ start.files f

write_atomic-none :
    (w : World) (slot : Slot) (b : Bytes) (s : Node)
    → w.write_error s.calls slot b ≡ none
    → (write_atomic w slot b s).1.files ≡ put_file slot (some b) s.files
unfolding write_atomic
write_atomic-none w slot b s h = rw h refl

delete_created-files :
    (w : World) (rs : List Record) (s : Node) → (delete_created w rs s).files ≡ s.files
unfolding delete_created
delete_created-files w [] s = refl
delete_created-files w (r ∷ rs) s = delete_created-files w rs (make w (delete_call r) s).1

module _ (w : World) (start : Node) (reliable : IsReliable w start) where
  pub restore_hy2_cert-IsIntact :
      (rb : Rollback) (s : Node) → IsReady start 0 rb s → IsIntact start (restore_hy2_cert w rb s)
  restore_hy2_cert-IsIntact rb s ready f = elim ready.pair [
    | inl kept ↦
        rw (kept.touched, kept.prev_cert, kept.prev_key)
          (rw
            (write_atomic-none w hy2_key kept.key (write_atomic w hy2_cert kept.cert s).1
              (reliable.restores _ hy2_key kept.key kept.old_key))
            (rw
              (write_atomic-none w hy2_cert kept.cert s
                (reliable.restores s.calls hy2_cert kept.cert kept.old_cert))
              (by_slot kept f)))
    | inr (untouched, same) ↦ rw untouched (whole same f)
  ]
    where
      by_slot :
          (kept : IsKept start rb) (f : Slot)
          → put_file hy2_key (some kept.key) (put_file hy2_cert (some kept.cert) s.files) f
            ≡ start.files f
      by_slot kept hy2_cert = sym kept.old_cert
      by_slot kept hy2_key = sym kept.old_key
      by_slot kept env_file = ready.clean env_file refl refl
      by_slot kept xray_config = ready.clean xray_config refl refl
      by_slot kept cloudflared_config = ready.clean cloudflared_config refl refl
      by_slot kept hysteria_config = ready.clean hysteria_config refl refl

      whole :
          ((f : Slot) → is_pair f ≡ true → s.files f ≡ start.files f)
          → (f : Slot) → s.files f ≡ start.files f
      whole same hy2_cert = same hy2_cert refl
      whole same hy2_key = same hy2_key refl
      whole same env_file = ready.clean env_file refl refl
      whole same xray_config = ready.clean xray_config refl refl
      whole same cloudflared_config = ready.clean cloudflared_config refl refl
      whole same hysteria_config = ready.clean hysteria_config refl refl

  pub fail-IsIntact :
      (A : Type 0) (rb : Rollback) (e : RotateError) (s : Node)
      → IsReady start 0 rb s
      → IsIntact start (fail {A = A} w rb e s).1
  unfolding fail
  fail-IsIntact A rb e s ready f =
      ap (λ files. files f) (delete_created-files w rb.created (restore_hy2_cert w rb s))
      ∙ restore_hy2_cert-IsIntact rb s ready f

  -- Putting a file back.
  pub restore_file-files :
      (slot : Slot) (s : Node)
      → (restore_file w slot (start.files slot) s).files ≡ put_file slot (start.files slot) s.files
  unfolding remove_file
  restore_file-files slot s = go (start.files slot) refl
    where
      go :
          (o : Option Bytes)
          → start.files slot ≡ o
          → (restore_file w slot o s).files ≡ put_file slot o s.files
      go none e = rw (reliable.removes s.calls slot) refl
      go (some b) e = write_atomic-none w slot b s (reliable.restores s.calls slot b e)

  -- Exchanging the files one by one.
  IsReady-files :
      (m n : ℕ) (rb : Rollback) (s t : Node)
      → IsReady start m rb s
      → ((f : Slot) → is_pair f ≡ true → t.files f ≡ s.files f)
      → ((f : Slot) → is_pair f ≡ false → is_dirty n f ≡ false → t.files f ≡ start.files f)
      → IsReady start n rb t
  IsReady-files m n rb s t ready same clean = record {
    clean = clean;
    pair = elim ready.pair [
      | inl kept ↦ inl kept
      | inr (untouched, old) ↦ inr (untouched, λ f p. same f p ∙ old f p)
    ];
  }

  -- After the xray config is put back, nothing is dirty.
  pub restore_xray-IsReady :
      (rb : Rollback) (s : Node)
      → IsReady start 1 rb s
      → IsReady start 0 rb (restore_file w xray_config (start.files xray_config) s)
  restore_xray-IsReady rb s ready =
      IsReady-files 1 0 rb s (restore_file w xray_config (start.files xray_config) s) ready
        (λ f p. ap (λ files. files f) (restore_file-files xray_config s) ∙ same f p)
        (λ f p d. ap (λ files. files f) (restore_file-files xray_config s) ∙ clean f p)
    where
      same :
          (f : Slot)
          → is_pair f ≡ true
          → put_file xray_config (start.files xray_config) s.files f ≡ s.files f
      same hy2_cert p = refl
      same hy2_key p = refl
      same env_file p = absurd (cc p)
      same xray_config p = absurd (cc p)
      same cloudflared_config p = absurd (cc p)
      same hysteria_config p = absurd (cc p)

      clean :
          (f : Slot)
          → is_pair f ≡ false
          → put_file xray_config (start.files xray_config) s.files f ≡ start.files f
      clean hy2_cert p = absurd (cc p)
      clean hy2_key p = absurd (cc p)
      clean env_file p = ready.clean env_file refl refl
      clean xray_config p = refl
      clean cloudflared_config p = ready.clean cloudflared_config refl refl
      clean hysteria_config p = ready.clean hysteria_config refl refl

  -- After the cloudflared config is put back, the xray config may still be dirty.
  pub restore_cloudflared-IsReady :
      (rb : Rollback) (s : Node)
      → IsReady start 2 rb s
      → IsReady start 1 rb (restore_file w cloudflared_config (start.files cloudflared_config) s)
  restore_cloudflared-IsReady rb s ready =
      IsReady-files 2 1 rb s (restore_file w cloudflared_config (start.files cloudflared_config) s)
        ready (λ f p. ap (λ files. files f) (restore_file-files cloudflared_config s) ∙ same f p)
        (λ f p d. ap (λ files. files f) (restore_file-files cloudflared_config s) ∙ clean f p d)
    where
      same :
          (f : Slot)
          → is_pair f ≡ true
          → put_file cloudflared_config (start.files cloudflared_config) s.files f ≡ s.files f
      same hy2_cert p = refl
      same hy2_key p = refl
      same env_file p = absurd (cc p)
      same xray_config p = absurd (cc p)
      same cloudflared_config p = absurd (cc p)
      same hysteria_config p = absurd (cc p)

      clean :
          (f : Slot)
          → is_pair f ≡ false
          → is_dirty 1 f ≡ false
          → put_file cloudflared_config (start.files cloudflared_config) s.files f ≡ start.files f
      clean hy2_cert p d = absurd (cc p)
      clean hy2_key p d = absurd (cc p)
      clean env_file p d = ready.clean env_file refl refl
      clean xray_config p d = absurd (cc d)
      clean cloudflared_config p d = refl
      clean hysteria_config p d = ready.clean hysteria_config refl refl
