-- ===== src/Rotate/Start.antt =====
-- The beginning of `RunRotateCloudflare`, up to the first record, and the run as a whole.
use cf_vpn.Prelude.{
  Bool, true, false, List, [], Option, none, some, ◌≡◌, refl, sym, inl, inr, Result, ok, err,
  Bool-cases, subst,
}
use cf_vpn.Text.{Bytes, is_empty}
use cf_vpn.Text.Trim.{trim_space}
use cf_vpn.State.{Env, EnvError, load}
use cf_vpn.Node.{
  Slot, env_file, xray_config, cloudflared_config, hysteria_config, hy2_cert, hy2_key, put_file,
  World, Node, ReadError, present, contents, read_file, Call, issue_cert,
}
use cf_vpn.Rotate.{RotateError, Rollback, new_rollback, after_issue, issue_hy2_cert}
use cf_vpn.Rotate.Steps.{Library, RotateResult, Account}
use cf_vpn.Rotate.Undo.{IsReliable, IsReady, IsIntact, is_pair, is_dirty, restore_hy2_cert-IsIntact}
use cf_vpn.Rotate.Cloudflare.{
  Inputs, Outcome, planned, rendered, listed, issued, start, loaded, env_read, trimmed,
  run_rotate_cloudflare,
}
use cf_vpn.Rotate.Restores.{
  is_before_commit, IsTakenBack, choose, fail-IsTakenBack, upsert_vpn-IsTakenBack,
}

module _ (w : World) (lib : Library) (inp : Inputs) (s0 : Node) (reliable : IsReliable w s0) where
  planned-IsTakenBack :
      (rb : Rollback) (env : Env) (tunnel xray cloudflared : Bytes)
      (old_xray old_cloudflared : Option Bytes) (s : Node)
      → old_xray ≡ s0.files xray_config
      → old_cloudflared ≡ s0.files cloudflared_config
      → IsReady s0 0 rb s
      → IsTakenBack s0 (
          planned w lib inp rb env tunnel xray cloudflared
            (present old_xray)
            (present old_cloudflared)
            s)
  planned-IsTakenBack rb env tunnel xray cloudflared none none s hx hc ready =
      upsert_vpn-IsTakenBack w lib inp s0 reliable _ hx hc rb s ready
  planned-IsTakenBack rb env tunnel xray cloudflared none (some c) s hx hc ready =
      upsert_vpn-IsTakenBack w lib inp s0 reliable _ hx hc rb s ready
  planned-IsTakenBack rb env tunnel xray cloudflared (some x) none s hx hc ready =
      upsert_vpn-IsTakenBack w lib inp s0 reliable _ hx hc rb s ready
  planned-IsTakenBack rb env tunnel xray cloudflared (some x) (some c) s hx hc ready =
      upsert_vpn-IsTakenBack w lib inp s0 reliable _ hx hc rb s ready

  rendered-IsTakenBack :
      (rb : Rollback) (env : Env) (tunnel : Bytes) (xray cloudflared : Option Bytes) (s : Node)
      → IsReady s0 0 rb s
      → IsTakenBack s0 (rendered w lib inp rb env tunnel xray cloudflared s)
  rendered-IsTakenBack rb env tunnel (some xray) (some cloudflared) s ready =
      rw (reliable.readable s.calls xray_config, reliable.readable s.calls cloudflared_config)
        (planned-IsTakenBack rb env tunnel xray cloudflared (s.files xray_config)
          (s.files cloudflared_config) s (ready.clean xray_config refl refl)
          (ready.clean cloudflared_config refl refl) ready)
  rendered-IsTakenBack rb env tunnel (some xray) none s ready =
      fail-IsTakenBack w lib inp s0 reliable rb _ s ready
  rendered-IsTakenBack rb env tunnel none c s ready =
      fail-IsTakenBack w lib inp s0 reliable rb _ s ready

  listed-IsTakenBack :
      (rb : Rollback) (env : Env) (tunnel admin : Bytes) (users : Option (List Account)) (s : Node)
      → IsReady s0 0 rb s
      → IsTakenBack s0 (listed w lib inp rb env tunnel admin users s)
  listed-IsTakenBack rb env tunnel admin none s ready =
      fail-IsTakenBack w lib inp s0 reliable rb _ s ready
  listed-IsTakenBack rb env tunnel admin (some users) s ready =
      rendered-IsTakenBack rb env tunnel _ _ s ready

  -- After the certificate: everything is ready, or everything is back.
  IsIssued : Result RotateError Rollback × Node → Type 0
  IsIssued (ok rb, s) = IsReady s0 0 rb s
  IsIssued (err e, s) = IsIntact s0 s

  issued-IsTakenBack :
      (env : Env) (tunnel admin : Bytes) (r : Result RotateError Rollback × Node)
      → IsIssued r
      → IsTakenBack s0 (issued w lib inp env tunnel admin r)
  unfolding IsIssued
  issued-IsTakenBack env tunnel admin (ok rb, s) ready =
      listed-IsTakenBack rb env tunnel admin _ s ready
  issued-IsTakenBack env tunnel admin (err e, s) intact = λ h. intact

  module _ (cert key : Bytes) (has_cert : s0.files hy2_cert ≡ some cert)
      (has_key : s0.files hy2_key ≡ some key) where
    after_issue-IsIssued :
        (works : Bool) (new_cert new_key : Option Bytes) (calls : List Call)
        → IsIssued (
            after_issue w
              (record { prev_cert = some cert; prev_key = some key; touched = true; created = [] })
              (
                works,
                record {
                  files = put_file hy2_key new_key (put_file hy2_cert new_cert s0.files);
                  calls = calls;
                },
              ))
    unfolding IsIssued
    after_issue-IsIssued works new_cert new_key calls = go works
      where
        clean :
            (f : Slot)
            → is_pair f ≡ false
            → is_dirty 0 f ≡ false
            → put_file hy2_key new_key (put_file hy2_cert new_cert s0.files) f ≡ s0.files f
        clean hy2_cert p d = absurd (cc p)
        clean hy2_key p d = absurd (cc p)
        clean env_file p d = refl
        clean xray_config p d = refl
        clean cloudflared_config p d = refl
        clean hysteria_config p d = refl

        ready :
            IsReady s0 0
              (record { prev_cert = some cert; prev_key = some key; touched = true; created = [] })
              (record {
                files = put_file hy2_key new_key (put_file hy2_cert new_cert s0.files);
                calls = calls;
              })
        ready = record {
          clean = clean;
          pair = inl (record {
            touched = refl;
            cert = cert;
            key = key;
            prev_cert = refl;
            prev_key = refl;
            old_cert = has_cert;
            old_key = has_key;
          });
        }

        go :
            (works : Bool)
            → IsIssued (
                after_issue w
                  (record {
                    prev_cert = some cert;
                    prev_key = some key;
                    touched = true;
                    created = [];
                  })
                  (
                    works,
                    record {
                      files = put_file hy2_key new_key (put_file hy2_cert new_cert s0.files);
                      calls = calls;
                    },
                  ))
        go true = ready
        go false = restore_hy2_cert-IsIntact w s0 reliable _ _ ready

    issue_hy2_cert-IsIssued :
        IsIssued
          (issue_hy2_cert w (new_rollback (some cert) (some key)) inp.new_hy2_host inp.token s0)
    unfolding issue_hy2_cert issue_cert
    issue_hy2_cert-IsIssued = elim (Bool-cases (is_empty inp.new_hy2_host)) [
      | inl blank ↦
          rw blank
            (unfold IsIssued in record { clean = λ f p d. refl; pair = inr (refl, λ f p. refl) })
      | inr given ↦ rw given (after_issue-IsIssued _ _ _ _)
    ]

    contents-read_file :
        (f : Slot) (b : Bytes) → s0.files f ≡ some b → contents (read_file w f s0) ≡ some b
    contents-read_file f b h = rw (reliable.readable s0.calls f) (rw h refl)

    start-IsTakenBack :
        (env : Env) (tunnel admin : Bytes) → IsTakenBack s0 (start w lib inp env tunnel admin s0)
    start-IsTakenBack env tunnel admin =
        choose w lib inp s0 (is_empty tunnel) _ _ (λ h f. refl)
          (choose w lib inp s0 (is_empty admin) _ _ (λ h f. refl)
            (issued-IsTakenBack env tunnel admin _ (
              subst
                (λ c. IsIssued (
                  issue_hy2_cert w (new_rollback c (contents (read_file w hy2_key s0)))
                    inp.new_hy2_host inp.token s0))
                (sym (contents-read_file hy2_cert cert has_cert))
                (subst
                  (λ k.
                    IsIssued
                      (issue_hy2_cert w (new_rollback (some cert) k) inp.new_hy2_host inp.token s0))
                  (sym (contents-read_file hy2_key key has_key)) issue_hy2_cert-IsIssued))))

    loaded-IsTakenBack : (r : Result EnvError Env) → IsTakenBack s0 (loaded w lib inp r s0)
    loaded-IsTakenBack (ok env) = start-IsTakenBack env _ _
    loaded-IsTakenBack (err e) = λ h f. refl

    pub env_read-IsTakenBack :
        (r : Result ReadError Bytes) → IsTakenBack s0 (env_read w lib inp r s0)
    env_read-IsTakenBack (ok body) = loaded-IsTakenBack (load body)
    env_read-IsTakenBack (err e) = λ h f. refl

run_rotate_cloudflare-IsTakenBack :
    (w : World) (lib : Library) (inp : Inputs) (s0 : Node)
    → IsReliable w s0
    → (cert key : Bytes) → s0.files hy2_cert ≡ some cert
    → s0.files hy2_key ≡ some key
    → IsTakenBack s0 (run_rotate_cloudflare w lib inp s0)
unfolding run_rotate_cloudflare
run_rotate_cloudflare-IsTakenBack w lib inp s0 reliable cert key has_cert has_key =
    choose w lib inp s0 (is_empty (trim_space inp.new_host)) _ _ (λ h f. refl)
      (choose w lib inp s0 (is_empty (trim_space inp.new_zone)) _ _ (λ h f. refl)
        (env_read-IsTakenBack w lib (trimmed inp) s0 reliable cert key has_cert has_key
          (read_file w env_file s0)))

IsTakenBack-error :
    (s0 : Node) (o : Outcome) (e : RotateError)
    → IsTakenBack s0 o
    → o.0 ≡ err e
    → is_before_commit e ≡ true
    → IsIntact s0 o.1
IsTakenBack-error s0 (ok r, s) e back h early = absurd (cc h)
IsTakenBack-error s0 (err d, s) e back h early = back (same d e h early)
  where
    same :
        (d e : RotateError)
        → ◌≡◌ {A = Result RotateError RotateResult} (err d) (err e)
        → is_before_commit e ≡ true
        → is_before_commit d ≡ true
    same d e h early = cc

-- When the node has a certificate pair, every file can be read, contents that were there at the
-- start can be written again, files can be removed, and no write of the cloudflared config is
-- published without being flushed: a rotation that ends with an error before its commit, that is
-- with any but those of the hysteria config, the env file and the subscriptions, has left every
-- file as it was.
pub run_rotate_cloudflare-IsIntact :
    (w : World) (lib : Library) (inp : Inputs) (s0 : Node)
    → IsReliable w s0
    → (cert key : Bytes) → s0.files hy2_cert ≡ some cert
    → s0.files hy2_key ≡ some key
    → (e : RotateError) → (run_rotate_cloudflare w lib inp s0).0 ≡ err e
    → is_before_commit e ≡ true
    → (f : Slot) → (run_rotate_cloudflare w lib inp s0).1.files f ≡ s0.files f
run_rotate_cloudflare-IsIntact w lib inp s0 reliable cert key has_cert has_key e h early =
    IsTakenBack-error s0 (run_rotate_cloudflare w lib inp s0) e
      (run_rotate_cloudflare-IsTakenBack w lib inp s0 reliable cert key has_cert has_key) h early
