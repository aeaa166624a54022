-- ===== src/Scheduler/Loop/Limits.antt =====
-- The options of internal/scheduler/scheduler.go after their defaults, and the claim limit.
use cronflux.Common.{ℕ, ◌≤◌, ◌<◌, ◌^◌, ℤ, pos, negsuc, pos_part, arith}
use cronflux.Scheduler.Loop.{Options, with_defaults, claim_limit}

-- A pass of a scheduler: a positive tick, at least one worker, a positive lease, and a limit for the
-- claim that is neither absent nor above 256.
pub record IsSane (o : Options) : Type 0 where
  pub ticks : 0 < pos_part o.tick_interval
  pub workers : 0 < pos_part o.workers
  pub lease : 0 < pos_part o.lease
  pub at_least : 4 ≤ pos_part (claim_limit o.workers)
  pub at_most : pos_part (claim_limit o.workers) ≤ 256

limit_bounds :
    (n : ℕ)
    → 0 < n
    → n < 2 ^ 61
    → (4 ≤ pos_part (claim_limit (pos n))) × (pos_part (claim_limit (pos n)) ≤ 256)
unfolding claim_limit
limit_bounds n h k = ground arith

limit_bounds_ℤ :
    (z : ℤ)
    → 0 < pos_part z
    → pos_part z < 2 ^ 61
    → (4 ≤ pos_part (claim_limit z)) × (pos_part (claim_limit z) ≤ 256)
limit_bounds_ℤ (pos n) h k = limit_bounds n h k
limit_bounds_ℤ (negsuc n) h k = absurd (omega arith)

default_workers :
    (o : Options)
    → pos_part o.workers < 2 ^ 61
    → (0 < pos_part (with_defaults o).workers) × (pos_part (with_defaults o).workers < 2 ^ 61)
unfolding with_defaults
default_workers o h = ground arith

-- For any options, those included that are zero or negative, the scheduler gets sane ones, as long
-- as four times the number of workers fits an `int`.
with_defaults-IsSane : (o : Options) → pos_part o.workers < 2 ^ 61 → IsSane (with_defaults o)
unfolding with_defaults
with_defaults-IsSane o h =
    let w = default_workers o h in
    let limits = limit_bounds_ℤ (with_defaults o).workers w.0 w.1 in
    record {
      ticks = ground arith;
      workers = w.0;
      lease = ground arith;
      at_least = limits.0;
      at_most = limits.1;
    }
