-- ===== src/Lock/Waiting.antt =====
-- internal/commands/lock.go: how long the loop runs, and what it returns.
use cf_vpn.Prelude.{
  ℕ, zero, suc, ◌+◌, ◌*◌, ◌≤◌, ◌<◌, true, false, Option, none, some, ltb, ◌≡◌, refl, subst, ◌∙◌,
  inl, inr, arith, Bool-cases,
}
use cf_vpn.Lock.{
  Flock, taken, would_block, broken, LockResult, acquired, busy, failed, Surroundings,
  deadline_from, deadline, round, poll, acquire_config_lock,
}

-- 20 seconds hold 200 rounds of 100 milliseconds; one round more starts on the deadline, and the
-- next is past it.
abbrev pub enough : ℕ
enough = 202

-- The clock of the loop: a round starts no earlier than the loop, and no earlier than 100
-- milliseconds behind the round before it.
pub record IsClock (s : Surroundings) : Type 0 where
  pub begins : s.started ≤ s.now 0
  pub advances : (n : ℕ) → s.now n + 100 ≤ s.now (suc n)

deadline_from-bound : (t : ℕ) (o : Option ℕ) → deadline_from t o ≤ t + 20000
deadline_from-bound t none = omega arith
deadline_from-bound t (some d) = ground arith

module _ (s : Surroundings) (clock : IsClock s) where
  now-bound : (n : ℕ) → s.started + 100 * n ≤ s.now n
  now-bound zero = omega (arith, clock.begins)
  now-bound (suc n) = omega (arith, clock.advances n, now-bound n)

  round-ends :
      (n : ℕ) (f : Flock) (rest : Option LockResult)
      → deadline s < s.now n
      → (r : LockResult) × (round s n f rest ≡ some r)
  round-ends n taken rest late = (acquired, refl)
  round-ends n broken rest late = (failed, refl)
  round-ends n would_block rest late = (busy, rw (ltb-true (deadline s) (s.now n) late) refl)
    where
      ltb-true : (a b : ℕ) → a < b → ltb a b ≡ true
      ltb-true a b h = ground arith

  round-passes :
      (n : ℕ) (f : Flock) (rest : Option LockResult)
      → (r : LockResult) × (rest ≡ some r)
      → (r : LockResult) × (round s n f rest ≡ some r)
  round-passes n taken rest h = (acquired, refl)
  round-passes n broken rest h = (failed, refl)
  round-passes n would_block rest (r, e) = elim (Bool-cases (ltb (deadline s) (s.now n))) [
    | inl late ↦ (busy, rw late refl)
    | inr early ↦ elim (Bool-cases (s.cancelled n)) [
      | inl over ↦ (busy, rw (early, over) refl)
      | inr going ↦ (r, rw (early, going) e)
    ]
  ]

  poll-ends : (fuel n : ℕ) → 201 ≤ fuel + n → (r : LockResult) × (poll s (suc fuel) n ≡ some r)
  unfolding poll
  poll-ends zero n h =
      round-ends n (s.flock n) none
        (omega (arith, h, now-bound n, deadline_from-bound s.started s.ctx_deadline))
  poll-ends (suc fuel) n h =
      round-passes n (s.flock n) (poll s (suc fuel) (suc n))
        (poll-ends fuel (suc n) (omega (arith, h)))

  -- On a clock on which each round takes at least 100 milliseconds, `AcquireConfigLock` returns within
  -- 202 rounds, whatever `flock` and the context do.
  pub acquire_config_lock-ends : (r : LockResult) × (acquire_config_lock s enough ≡ some r)
  unfolding acquire_config_lock
  acquire_config_lock-ends = elim (Bool-cases s.makes_dir) [
    | inl made ↦ elim (Bool-cases s.opens) [
      | inl open_ ↦ rw (made, open_) (poll-ends 201 0 (omega arith))
      | inr shut ↦ (failed, rw (made, shut) refl)
    ]
    | inr unmade ↦ (failed, rw unmade refl)
  ]

  -- A round that others make wait.
  pub record Waits (n : ℕ) : Type 0 where
    pub blocked : s.flock n ≡ would_block
    pub early : s.now n ≤ deadline s
    pub going : s.cancelled n ≡ false

  round-Waits : (n : ℕ) (rest : Option LockResult) → Waits n → round s n (s.flock n) rest ≡ rest
  round-Waits n rest w = rw w.blocked (rw (ltb-false (deadline s) (s.now n) w.early, w.going) refl)
    where
      ltb-false : (a b : ℕ) → b ≤ a → ltb a b ≡ false
      ltb-false a b l = ground arith

  poll-acquires :
      (fuel k n : ℕ)
      → ((i : ℕ) → i < k → Waits (i + n))
      → s.flock (k + n) ≡ taken
      → k < fuel
      → poll s fuel n ≡ some acquired
  unfolding poll
  poll-acquires zero k n waits free h = absurd (omega (arith, h))
  poll-acquires (suc fuel) zero n waits free h =
      let free_now : s.flock n ≡ taken = subst (λ m. s.flock m ≡ taken) (omega arith) free in
      rw free_now refl
  poll-acquires (suc fuel) (suc k) n waits free h =
      round-Waits n (poll s fuel (suc n)) (subst Waits (omega arith) (waits 0 (omega arith)))
      ∙ poll-acquires fuel k (suc n)
          (λ i l. subst Waits (omega arith) (waits (suc i) (omega (arith, l))))
          (subst (λ m. s.flock m ≡ taken) (omega arith) free) (omega (arith, h))

  -- When the directory and the file are there, other writers hold the lock through the first `k`
  -- rounds, none of which starts behind the deadline or sees its context end, and the lock is free in
  -- the next one, `AcquireConfigLock` takes it.
  pub acquire_config_lock-acquires :
      (k : ℕ)
      → s.makes_dir ≡ true
      → s.opens ≡ true
      → ((i : ℕ) → i < k → Waits i)
      → s.flock k ≡ taken
      → acquire_config_lock s enough ≡ some acquired
  unfolding acquire_config_lock
  acquire_config_lock-acquires k made open_ waits free =
      rw (made, open_)
        (poll-acquires enough k 0 (λ i l. subst Waits (omega arith) (waits i l))
          (subst (λ m. s.flock m ≡ taken) (omega arith) free) (few k waits))
    where
      few : (k : ℕ) → ((i : ℕ) → i < k → Waits i) → k < enough
      few zero waits = omega arith
      few (suc j) waits =
          let w = waits j (omega arith) in
          let late = now-bound j in
          let bound = deadline_from-bound s.started s.ctx_deadline in
          omega (arith, w.early, late, bound)
