-- ===== src/Scheduler/Pool/Remembers.antt =====
-- `drain` of internal/scheduler/scheduler.go on the in-memory backend, from the claim until its last
-- goroutine has ended: every dependent that became ready has its run.
use mathlib.Core.Option
use cronflux.Common.{
  ℕ, ◌≡◌, ◌≢◌, sym, ap, ◌∙◌, List, [], Bool, true, Option, none, some, Str, ℤ, Time, Duration,
  arith, Bool-cases, inl, inr, All, All-map, any,
}
use cronflux.Common.Dict.{Dict, lookup}
use cronflux.Job.{Job, Run, RunState, pending, succeeded}
use cronflux.Backoff.{Floats}
use cronflux.Store.Memory.{MemStore, memory, claim_due, ready_runs, stamp}
use cronflux.Store.Memory.Invariant.{IsWellFormed}
use cronflux.Store.Memory.Claim.{has_id, lookup-claim_due}
use cronflux.Scheduler.Pool.{Choice, run_schedule}
use cronflux.Scheduler.Pool.Slots.{OneFirst}
use cronflux.Scheduler.Pool.Once.{IdsAreNew}
use cronflux.Scheduler.Pool.Progress.{is_done}
use cronflux.Scheduler.Pool.FanIn.{Has, Done}
use cronflux.Scheduler.Pool.Drain.{opened, opened-IsConsistent}
use cronflux.Scheduler.Pool.Complete.{IsOwed, run_schedule-IsOwed, is_done-Has}

state_of : Option Run → RunState
state_of none = pending
state_of (some r) = r.state

module _ (s : MemStore) (w : IsWellFormed s) (now : Time) (worker : Str) (lease : Duration)
    (limit : ℤ) where
  abbrev after : Dict Run
  after = (claim_due now worker lease limit s).0.runs

  abbrev is_taken : Str → Bool
  is_taken i = any (has_id i) (ready_runs now limit s.runs)

  stamped :
      (o : Option Run) (r : Run)
      → Option.map (stamp now worker lease) o ≡ some r
      → ¬ (r.state ≡ succeeded)
  stamped none r e done = ground (arith, e)
  stamped (some q) r e done = ground (arith, ap state_of e, done)

  -- A claim makes no run succeed.
  claimed-Done : (batch job : Str) → Done after batch job → Done s.runs batch job
  claimed-Done batch job (i, r, e, at_job, at_batch, done) =
      let found = sym (lookup-claim_due s now worker lease limit i w) ∙ e in
      elim (Bool-cases (is_taken i)) [
        | inr free ↦ (i, r, rw free at found, at_job, at_batch, done)
        | inl taken ↦ absurd (stamped (lookup i s.runs) r (rw taken at found) done)
      ]

  -- A claim takes no run away.
  claimed-Has : (job batch : Str) → Has s.runs job batch → Has after job batch
  claimed-Has job batch (i, r, e, at_job, at_batch) =
      let found = lookup-claim_due s now worker lease limit i w in
      elim (Bool-cases (is_taken i)) [
        | inr free ↦ (i, r, (rw free at found) ∙ e, at_job, at_batch)
        | inl taken ↦ (
          i,
          stamp now worker lease r,
          (rw taken at found) ∙ ap (Option.map (stamp now worker lease)) e,
          at_job,
          at_batch,
        )
      ]

  -- On a well-formed in-memory store that holds at most one first attempt of every job in every
  -- batch: take a stored job with an ID and a batch with an ID such that, if all the job's
  -- dependencies have a succeeded run in the batch, the job has a run there. `drain` claims runs and
  -- launches goroutines for them. Once every claimed run is launched and every goroutine has ended,
  -- in whatever order they took their turns, the same holds of the job and the batch: a dependent
  -- that became ready has its run, provided that no ID that newID answers was in use.
  pub drain-Has :
      (floats : Floats) (workers : ℕ) (cs : List Choice) (j : Job) (batch : Str)
      → OneFirst s.runs
      → lookup j.id s.jobs ≡ some j
      → j.id ≢ []
      → batch ≢ []
      → (All (Done s.runs batch) j.depends_on → Has s.runs j.id batch)
      → IdsAreNew floats workers cs (opened s now worker lease limit)
      → is_done (run_schedule memory floats workers cs (opened s now worker lease limit)) ≡ true
      → All
          (Done
            (run_schedule memory floats workers cs (opened s now worker lease limit)).store.runs
            batch)
          j.depends_on
      → Has
          (run_schedule memory floats workers cs (opened s now worker lease limit)).store.runs
          j.id
          batch
  unfolding claim_due
  drain-Has floats workers cs j batch one stored some_job some_batch before new ended =
      let start : IsOwed j batch (opened s now worker lease limit) = record {
        consistent = opened-IsConsistent s w now worker lease limit one;
        stored = stored;
        plain = tt;
        settled = λ d. inl (
            claimed-Has j.id batch (
              before (
                All-map (Done after batch) (Done s.runs batch) j.depends_on
                  (λ dep i. claimed-Done batch dep i) d)));
      } in
      is_done-Has j batch (run_schedule memory floats workers cs (opened s now worker lease limit))
        ended
        (run_schedule-IsOwed j batch floats workers cs (opened s now worker lease limit) some_job
          some_batch new start)
