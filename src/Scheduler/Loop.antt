-- ===== src/Scheduler/Loop.antt =====
-- internal/scheduler/scheduler.go: the options, one scheduling pass, the manual trigger and the
-- backlog gauges. `drain` runs its workers one after another, in the order in which the runs were
-- claimed: this is one of the orders that its goroutines may take. A tick of the loop of `Run` is a
-- call of `step`; what the logger is told is left out.
pub mod Limits
pub mod Ticks
pub mod Trigger
pub mod Backlog
use mathlib.Core.Option
use cronflux.Common.{
  ℕ, suc, ◌+◌, ◌-◌, ◌*◌, ◌%◌, ◌^◌, List, [], ◌∷◌, Bool, true, false, ◌||◌, Option, none, some, Str,
  ℤ, pos, negsuc, pos_part, ltb_ℤ, Time, Duration, second, sub_time, Result, ok, err, ltb, ◌==◌,
  if◌then◌else◌, length,
}
use cronflux.Job.{Job, Run, RunState, new_run, succeeded, pending, state_eq, state_name}
use cronflux.Store.{Store, StoreError, RunFilter}
use cronflux.Scheduler.{
  Env, World, Action, tick, set_pending, set_lag, pure, and_then, ◌>>=◌, ◌>>◌, call, new_id,
  read_clock, emit,
}
use cronflux.Scheduler.Worker.{process}
use cronflux.Scheduler.Dispatcher.{dispatch, enqueue_dependents}

-- The options that `New` gives defaults to and that the passes read.
pub record Options : Type 0 where
  pub tick_interval : Duration
  pub workers : ℤ
  pub lease : Duration

unfoldable pub with_defaults : Options → Options
with_defaults o = record {
  tick_interval = if ltb_ℤ (pos 0) o.tick_interval then o.tick_interval else pos second;
  workers = if ltb_ℤ o.workers (pos 1) then pos 4 else o.workers;
  lease = if ltb_ℤ (pos 0) o.lease then o.lease else pos (30 * second);
}

-- A 64-bit word as a signed number.
abbrev pub of_word : ℕ → ℤ
of_word m = if ltb m (2 ^ 63) then pos m else negsuc (2 ^ 64 - 1 - m)

-- `4 * n` in an `int`.
abbrev pub four_times : ℤ → ℤ
four_times (pos n) = of_word (n * 4 % 2 ^ 64)
four_times (negsuc n) = of_word ((2 ^ 64 - suc n * 4 % 2 ^ 64) % 2 ^ 64)

-- `min(s.workers*4, 256)`
unfoldable pub claim_limit : ℤ → ℤ
claim_limit workers =
    let product = four_times workers in if ltb_ℤ product (pos 256) then product else pos 256

-- The body of the loop of `publishBacklog`.
unfoldable pub next_oldest : Time → Time → Time → Time
next_oldest now oldest at =
    if ltb now at then oldest else (if oldest == 0 || ltb at oldest then at else oldest)

-- The loop of `publishBacklog` over the pending runs.
unfoldable pub oldest_due : Time → Time → List Run → Time
unfolding next_oldest
oldest_due now oldest [] = oldest
oldest_due now oldest (r ∷ rs) = oldest_due now (next_oldest now oldest r.scheduled_for) rs

abbrev pub pending_filter : RunFilter
pending_filter = record {
  job_id = [];
  batch_id = [];
  state = state_name pending;
  limit = pos 0;
  offset = pos 0;
}

module _ {S : Type 0} (api : Store S) (env : Env) (opts : Options) where
  -- The body of the goroutine of `drain`: an error ends it and leaves what was done.
  unfoldable pub handle : Run → World S → World S
  handle r w =
      let (w', result) = process api env r w in
      elim result [
        | err e ↦ w'
        | ok r' ↦
            if state_eq r'.state succeeded
            then (let (w'', now) = read_clock env w' in
                elim now [ err e ↦ w'' | ok t ↦ (enqueue_dependents api env r' t w'').0 ])
            else w'
      ]

  unfoldable pub handle_all : List Run → World S → World S
  unfolding handle
  handle_all [] w = w
  handle_all (r ∷ rs) w = handle_all rs (handle r w)

  -- `drain`
  unfoldable pub drain : Time → World S → World S
  unfolding handle_all
  drain now w =
      let (w', claimed) =
        (do
          worker ← new_id env
          call (api.claim_due now worker opts.lease (claim_limit opts.workers)))
          w in
      elim claimed [ err e ↦ w' | ok rs ↦ handle_all rs w' ]

  -- `publishBacklog`
  unfoldable pub publish_backlog : Time → World S → World S
  unfolding oldest_due
  publish_backlog now w =
      let (w', found) = call (api.list_runs pending_filter) w in
      elim found [
        | err e ↦ w'
        | ok rs ↦
            let w'' = record w' { metrics = set_pending (length rs) ∷ w'.metrics } in
            let oldest = oldest_due now 0 rs in
            record w'' {
              metrics = set_lag (if oldest == 0 then pos 0 else sub_time now oldest) ∷ w''.metrics;
            }
      ]

  -- `step`; `none` means that the dispatcher's fuel ran out. A failed dispatch is only logged.
  unfoldable pub step : ℕ → Time → World S → Option (World S)
  unfolding drain publish_backlog
  step fuel now w =
      Option.map (λ (p : World S × Result StoreError ℕ). publish_backlog now (drain now p.0))
        (dispatch api env fuel now (record w { metrics = tick ∷ w.metrics }))

module _ {S : Type 0} (api : Store S) (env : Env) where
  -- `Trigger`
  unfoldable pub trigger : Str → Action S Run
  trigger job_id = do
    j ← call (api.get_job job_id)
    now ← read_clock env
    id ← new_id env
    batch ← new_id env
    let r = new_run id j.id batch 0 now now
    call (api.create_run r)
    pure r
