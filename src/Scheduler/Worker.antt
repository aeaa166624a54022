-- ===== src/Scheduler/Worker.antt =====
-- internal/scheduler/worker.go: the worker that executes one claimed run and records its outcome.
pub mod Recording
pub mod Retries
pub mod Handover
pub mod Exhausted
use cronflux.Common.{
  ℕ, ◌+◌, [], Option, none, some, Str, ℤ, pos, ltb_ℤ, Time, Duration, add_time, sub_time,
  if◌then◌else◌, Bool,
}
use cronflux.Job.{Float64, Job, Run, RunState, new_run, succeeded, failed, dead}
use cronflux.Backoff.{delay}
use cronflux.Store.{Store}
use cronflux.Scheduler.{
  Env, Outcome, World, Action, observe_run, inc_retry, pure, ◌>>=◌, ◌>>◌, call, new_id, read_clock,
  execute, random, emit,
}

module _ {S : Type 0} (api : Store S) (env : Env) where
  -- `rand.Float64` is called only where the policy has jitter.
  abbrev pub jitter_number : Job → Action S Float64
  jitter_number j =
      if env.floats.lt (env.floats.of_int (pos 0)) j.backoff.jitter then random env else pure 0

  -- `scheduleRetry`.
  unfoldable pub schedule_retry : Job → Run → Time → Action S (Unit {0})
  schedule_retry j failed_run at = do
    u ← jitter_number j
    let wait = delay env.floats j.backoff u (pos failed_run.attempt)
    id ← new_id env
    call (
        api.create_run (
          new_run id failed_run.job_id failed_run.batch_id (failed_run.attempt + 1)
            (add_time at wait) at))

  -- The end of `process` for an execution that failed.
  unfoldable pub record_failure : Job → Run → Str → Time → Duration → Action S Run
  unfolding schedule_retry
  record_failure j r error finish dur =
      if ltb_ℤ (pos r.attempt) j.max_retries
      then (do
        let r' = record r { error = error; state = failed }
        call (api.update_run r')
        schedule_retry j r' finish
        emit (observe_run j.id failed dur)
        emit (inc_retry j.id)
        pure r')
      else (do
        let r' = record r { error = error; state = dead }
        emit (observe_run j.id dead dur)
        call (api.update_run r')
        pure r')

  -- The end of `process` for an execution that succeeded.
  unfoldable pub record_success : Job → Run → Duration → Action S Run
  record_success j r dur = do
    let r' = record r { state = succeeded; error = [] }
    emit (observe_run j.id succeeded dur)
    call (api.update_run r')
    pure r'

  unfoldable pub record_outcome : Job → Run → Option Str → Time → Action S Run
  unfolding record_failure record_success
  record_outcome j r error start = do
    finish ← read_clock env
    let dur = sub_time finish start
    let r' = record r { finished_at = some finish; updated_at = finish }
    elim error [ none ↦ record_success j r' dur | some e ↦ record_failure j r' e finish dur ]

  -- `process`. The deadline that `Timeout` puts on the execution is read off the job by the
  -- executor. Beside an error the source returns the run too, which its one caller ignores.
  unfoldable pub process : Run → Action S Run
  unfolding record_outcome
  process r = do
    j ← call (api.get_job r.job_id)
    start ← read_clock env
    outcome ← execute env j r
    if outcome.parent_done then pure r else record_outcome j r outcome.error start
