-- ===== src/Lock/Tests.antt =====
-- A lock that is free in its third round, and each theorem at it.
use cf_vpn.Prelude.{arith, ℕ, ◌+◌, ◌*◌, ◌<◌, true, false, some, ◌≡◌, refl, ◌==◌, if◌then◌else◌}
use cf_vpn.Lock.{taken, would_block, LockResult, acquired, Surroundings, acquire_config_lock}
use cf_vpn.Lock.Waiting

abbrev third_round : Surroundings
third_round = record {
  makes_dir = true;
  opens = true;
  started = 7;
  ctx_deadline = some 500;
  flock = λ n. if n == 2 then taken else would_block;
  now = λ n. 10 + 100 * n;
  cancelled = λ n. false;
}

clock : Waiting.IsClock third_round
clock = record { begins = omega arith; advances = λ n. omega arith }

acquire_config_lock-ends_example :
    (r : LockResult) × (acquire_config_lock third_round Waiting.enough ≡ some r)
acquire_config_lock-ends_example = Waiting.acquire_config_lock-ends third_round clock

waits : (i : ℕ) → i < 2 → Waiting.Waits third_round clock i
waits i h = record { blocked = ground (arith, h); early = omega (arith, h); going = refl }

acquire_config_lock-acquires_example :
    acquire_config_lock third_round Waiting.enough ≡ some acquired
acquire_config_lock-acquires_example =
    Waiting.acquire_config_lock-acquires third_round clock 2 refl refl waits refl
