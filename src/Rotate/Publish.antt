-- ===== src/Rotate/Publish.antt =====
-- The writes of a rotation in front of its commit: what a failed one, and a made one, may have
-- changed.
use cf_vpn.Prelude.{ℕ, Bool, true, false, List, ◌∷◌, Option, none, some, ◌≡◌, ◌≢◌, refl, inl, inr}
use cf_vpn.Text.{Bytes}
use cf_vpn.Atomic.{WriteError, plain, durability}
use cf_vpn.Node.{
  Slot, env_file, xray_config, cloudflared_config, hysteria_config, hy2_cert, hy2_key, Call, World,
  Node, check_call, write_call, put_file, is_nil, after_write, make, write_atomic, write_strictly,
  write_config_checked, published, write_accepted,
}
use cf_vpn.Rotate.{Rollback}
use cf_vpn.Rotate.Undo.{IsReliable, IsReady, is_pair, is_dirty}

-- A call that changes no file.
pub make-IsReady :
    (w : World) (start : Node) (n : ℕ) (rb : Rollback) (c : Call) (s : Node)
    → IsReady start n rb s
    → IsReady start n rb (make w c s).1
make-IsReady w start n rb c s ready = record { clean = ready.clean; pair = ready.pair }

-- A failed write leaves `m` dirty, a made one `n`.
abbrev pub Written : Node → ℕ → ℕ → Rollback → Bool × Node → Type 0
Written start m n rb (false, s) = IsReady start m rb s
Written start m n rb (true, s) = IsReady start n rb s

module _ (w : World) (start : Node) (rb : Rollback) (b : Bytes) (s : Node) where
  put_xray-IsReady :
      (calls : List Call)
      → IsReady start 0 rb s
      → IsReady start 1 rb (record { files = put_file xray_config (some b) s.files; calls = calls })
  put_xray-IsReady calls ready = record {
    clean = clean;
    pair = elim ready.pair [
      | inl kept ↦ inl kept
      | inr (untouched, old) ↦ inr (untouched, same old)
    ];
  }
    where
      clean :
          (f : Slot)
          → is_pair f ≡ false
          → is_dirty 1 f ≡ false
          → put_file xray_config (some b) s.files f ≡ start.files f
      clean hy2_cert p d = absurd (cc p)
      clean hy2_key p d = absurd (cc p)
      clean env_file p d = ready.clean env_file refl refl
      clean xray_config p d = absurd (cc d)
      clean cloudflared_config p d = ready.clean cloudflared_config refl refl
      clean hysteria_config p d = ready.clean hysteria_config refl refl

      same :
          ((f : Slot) → is_pair f ≡ true → s.files f ≡ start.files f)
          → (f : Slot) → is_pair f ≡ true
          → put_file xray_config (some b) s.files f ≡ start.files f
      same old hy2_cert p = old hy2_cert refl
      same old hy2_key p = old hy2_key refl
      same old env_file p = absurd (cc p)
      same old xray_config p = absurd (cc p)
      same old cloudflared_config p = absurd (cc p)
      same old hysteria_config p = absurd (cc p)

  put_cloudflared-IsReady :
      (calls : List Call)
      → IsReady start 1 rb s
      → IsReady start 2 rb
          (record { files = put_file cloudflared_config (some b) s.files; calls = calls })
  put_cloudflared-IsReady calls ready = record {
    clean = clean;
    pair = elim ready.pair [
      | inl kept ↦ inl kept
      | inr (untouched, old) ↦ inr (untouched, same old)
    ];
  }
    where
      clean :
          (f : Slot)
          → is_pair f ≡ false
          → is_dirty 2 f ≡ false
          → put_file cloudflared_config (some b) s.files f ≡ start.files f
      clean hy2_cert p d = absurd (cc p)
      clean hy2_key p d = absurd (cc p)
      clean env_file p d = ready.clean env_file refl refl
      clean xray_config p d = absurd (cc d)
      clean cloudflared_config p d = absurd (cc d)
      clean hysteria_config p d = ready.clean hysteria_config refl refl

      same :
          ((f : Slot) → is_pair f ≡ true → s.files f ≡ start.files f)
          → (f : Slot) → is_pair f ≡ true
          → put_file cloudflared_config (some b) s.files f ≡ start.files f
      same old hy2_cert p = old hy2_cert refl
      same old hy2_key p = old hy2_key refl
      same old env_file p = absurd (cc p)
      same old xray_config p = absurd (cc p)
      same old cloudflared_config p = absurd (cc p)
      same old hysteria_config p = absurd (cc p)

  publish_xray-Written :
      IsReady start 0 rb s → Written start 0 1 rb (published (write_atomic w xray_config b s))
  unfolding write_atomic
  publish_xray-Written ready =
      go (w.write_error s.calls xray_config b) (write_call xray_config b ∷ s.calls)
    where
      go :
          (e : Option WriteError) (calls : List Call)
          → Written start 0 1 rb
              (published (e, record { files = after_write xray_config b e s.files; calls = calls }))
      go none calls = put_xray-IsReady calls ready
      go (some plain) calls = record { clean = ready.clean; pair = ready.pair }
      go (some durability) calls = put_xray-IsReady calls ready

  -- The strict write of the cloudflared config.
  pub write_cloudflared-Written :
      IsReliable w start
      → IsReady start 1 rb s
      → Written start 1 2 rb (write_strictly w cloudflared_config b s)
  unfolding write_atomic
  write_cloudflared-Written reliable ready =
      go (w.write_error s.calls cloudflared_config b) (write_call cloudflared_config b ∷ s.calls)
        (reliable.strict s.calls b)
    where
      go :
          (e : Option WriteError) (calls : List Call)
          → e ≢ some durability
          → Written start 1 2 rb (
              let (e2, s1) : Option WriteError × Node =
                (e, record { files = after_write cloudflared_config b e s.files; calls = calls }) in
              (is_nil e2, s1))
      go none calls h = put_cloudflared-IsReady calls ready
      go (some plain) calls h = record { clean = ready.clean; pair = ready.pair }
      go (some durability) calls h = absurd (h refl)

-- The checked write of the xray config.
pub write_xray-Written :
    (w : World) (start : Node) (rb : Rollback) (b : Bytes) (s : Node)
    → IsReady start 0 rb s
    → Written start 0 1 rb (write_config_checked w xray_config b s)
unfolding write_config_checked
write_xray-Written w start rb b s ready = go (w.works s.calls (check_call b))
  where
    go :
        (accepted : Bool)
        → Written start 0 1 rb (
            write_accepted w xray_config b
              (accepted, record { files = s.files; calls = check_call b ∷ s.calls }))
    go false = record { clean = ready.clean; pair = ready.pair }
    go true =
        publish_xray-Written w start rb b
          (record { files = s.files; calls = check_call b ∷ s.calls })
          (record { clean = ready.clean; pair = ready.pair })
