-- ===== src/Lock.antt =====
-- internal/commands/lock.go: `AcquireConfigLock`. Times are milliseconds of one clock.
pub mod Waiting
mod Tests
use cf_vpn.Prelude.{
  ℕ, zero, suc, ◌+◌, Bool, true, false, not, Option, none, some, ltb, if◌then◌else◌,
}

-- `flock` with LOCK_EX and LOCK_NB: nil, EWOULDBLOCK, or another error.
pub data Flock : Type 0 where
  taken would_block broken : Flock

pub data LockResult : Type 0 where
  acquired busy failed : LockResult

-- `flock`, `now` and `cancelled` answer for each round of the loop: `cancelled` tells whether the
-- context ends before the timer of that round.
pub record Surroundings : Type 0 where
  pub makes_dir : Bool
  pub opens : Bool
  pub started : ℕ
  pub ctx_deadline : Option ℕ
  pub flock : ℕ → Flock
  pub now : ℕ → ℕ
  pub cancelled : ℕ → Bool

abbrev pub lock_poll_interval : ℕ
lock_poll_interval = 100

abbrev pub default_lock_wait : ℕ
default_lock_wait = 20000

abbrev pub deadline_from : ℕ → Option ℕ → ℕ
deadline_from started none = started + default_lock_wait
deadline_from started (some d) =
    if ltb (started + default_lock_wait) d then started + default_lock_wait else d

module _ (s : Surroundings) where
  abbrev pub deadline : ℕ
  deadline = deadline_from s.started s.ctx_deadline

  -- What a round of the loop does when the ones before it have not ended it.
  abbrev pub round : ℕ → Flock → Option LockResult → Option LockResult
  round n taken rest = some acquired
  round n broken rest = some failed
  round n would_block rest =
      if ltb deadline (s.now n) then some busy else if s.cancelled n then some busy else rest

  -- The loop from its round `n`; `none` when the fuel is out.
  unfoldable pub poll : ℕ → ℕ → Option LockResult
  poll zero n = none
  poll (suc fuel) n = let rest = poll fuel (suc n) in round n (s.flock n) rest

  unfoldable pub acquire_config_lock : ℕ → Option LockResult
  unfolding poll
  acquire_config_lock fuel =
      if not s.makes_dir then some failed else if not s.opens then some failed else poll fuel 0
