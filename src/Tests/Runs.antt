-- ===== src/Tests/Runs.antt =====
-- The theorems on the worker and on a completed run's dependents, on a store with two jobs.
use cronflux.Common.{List, In, pos, arith, refl, [], ◌∷◌, codes, inl, ◌⊎◌, str_eq}
use cronflux.Common.Dict.{lookup, insert}
use cronflux.Job.{Run, succeeded, new_run, clone}
use cronflux.Store.Memory.{MemStore, memory, create_run, put_job, new, stamp, claim_due}
use cronflux.Store.Memory.Invariant.{Call, step}
use cronflux.Backoff.{delay, capped, jittered, saturate}
use cronflux.Scheduler.{World}
use cronflux.Scheduler.Worker.{process}
use cronflux.Scheduler.Worker.Handover.{process-NeverClaims, process-retries_on_time}
use cronflux.Scheduler.Worker.Exhausted.{Retries}
use cronflux.Store.Memory.Claim.Lease.{Attempt, NeverClaims}
use cronflux.Store.Memory.Claim.Taken.{claimed_runs}
use cronflux.Store.Memory.Claim.Serves.{IsCrowdedOut}
use cronflux.Scheduler.Worker.Retries.{
  IsWithinRetries, insert-IsWithinRetries, process-IsWithinRetries,
}
use cronflux.Tests.Fixtures.{stored, stored-IsWellFormed, run_1, job_a, env, fails, world_of}

abbrev start : World MemStore
start = world_of stored

-- The second attempt, 5 after the end of the first.
abbrev second_run : Run
second_run = new_run (0 ∷ []) (codes "a") (codes "x") 1 106 101

-- Two workers that look for runs again and again.
abbrev again : List Attempt
again =
    record { now = 102; worker = codes "v"; lease = pos 30; limit = pos 0 }
    ∷ record { now = 105; worker = codes "w"; lease = pos 30; limit = pos 8 }
    ∷ []

process-NeverClaims_example :
    NeverClaims (codes "r1") again (process memory (env fails) run_1 start).0.store
unfolding lookup str_eq put_job create_run insert clone
process-NeverClaims_example =
    process-NeverClaims (env fails) run_1 start job_a run_1 stored-IsWellFormed refl refl refl refl
      again

process-retries_on_time_example :
    let after = (process memory (env fails) run_1 start).0.store in
    let claimed = claimed_runs (claim_due 106 (codes "v") (pos 30) (pos 8) after) in
    (In (stamp 106 (codes "v") (pos 30) second_run) claimed
      ⊎ IsCrowdedOut (pos 8) second_run claimed)
    × NeverClaims (0 ∷ []) again after
unfolding lookup str_eq put_job create_run insert clone delay capped jittered saturate
process-retries_on_time_example =
    process-retries_on_time (env fails) run_1 start job_a run_1 stored-IsWellFormed refl refl refl
      refl (codes "exit 1") refl refl 106 (codes "v") (pos 30) (pos 8) again (omega arith)
      (omega arith, (omega arith, tt))

nothing-IsWithinRetries : IsWithinRetries (record new { jobs = stored.jobs })
unfolding lookup
nothing-IsWithinRetries id r j e f = cc

stored-IsWithinRetries : IsWithinRetries stored
unfolding lookup str_eq put_job create_run insert clone
stored-IsWithinRetries =
    insert-IsWithinRetries (record new { jobs = stored.jobs }) (codes "r1") run_1
      nothing-IsWithinRetries (λ j e. inl refl)

process-IsWithinRetries_example : IsWithinRetries (process memory (env fails) run_1 start).0.store
unfolding lookup str_eq put_job create_run insert clone
process-IsWithinRetries_example =
    process-IsWithinRetries (env fails) run_1 start run_1 refl refl refl stored-IsWithinRetries

-- The first run was completed by another worker.
abbrev done_run : Run
done_run = record run_1 { state = succeeded }

abbrev completed : World MemStore
completed = world_of (step stored (Call.create done_run))
