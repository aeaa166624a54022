-- ===== src/Tests/Ticks.antt =====
-- The theorems on the dispatcher, the loop's options and the trigger, on the shared store.
use cronflux.Common.{◌+◌, ◌≡◌, refl, [], ◌∷◌, codes, pos, arith, ◌⊎◌, In, ok, str_eq}
use cronflux.Common.Dict.{lookup, insert}
use cronflux.Job.{Run, clone, new_run}
use cronflux.Store.Memory.{MemStore, memory, claim_due, put_job, create_run, stamp}
use cronflux.Store.Memory.Claim.Taken.{claimed_runs}
use cronflux.Store.Memory.Claim.Serves.{IsCrowdedOut}
use cronflux.Scheduler.{World, Schedule}
use cronflux.Scheduler.Dispatcher.{enqueue_root}
use cronflux.Scheduler.Dispatcher.Roots.{enqueue_root_idem}
use cronflux.Scheduler.Loop.{trigger}
use cronflux.Scheduler.Loop.Trigger.{trigger-claim_due}
use cronflux.Tests.Fixtures.{stored, stored-IsWellFormed, job_a, env, passes, world_of}

abbrev start : World MemStore
start = world_of stored

enqueue_root_idem_example :
    enqueue_root memory (env passes) job_a 7 (enqueue_root memory (env passes) job_a 7 start).0
    ≡ enqueue_root memory (env passes) job_a 7 start
enqueue_root_idem_example = enqueue_root_idem (env passes) job_a 7 start stored-IsWellFormed

abbrev by_ten : Schedule
by_ten t = t + 10

abbrev triggered_run : Run
triggered_run = new_run (0 ∷ []) (codes "a") (1 ∷ []) 0 100 100

trigger-claim_due_example :
    let (u, answer) = trigger memory (env passes) (codes "a") start in
    let claimed = claimed_runs (claim_due 120 (codes "w") (pos 30) (pos 1) u.store) in
    (answer ≡ ok triggered_run)
    × (triggered_run.job_id ≡ codes "a")
    × (In (stamp 120 (codes "w") (pos 30) triggered_run) claimed
        ⊎ IsCrowdedOut (pos 1) triggered_run claimed)
unfolding put_job create_run insert lookup str_eq clone
trigger-claim_due_example =
    trigger-claim_due (env passes) (codes "a") start job_a stored-IsWellFormed refl 120 (codes "w")
      (pos 30) (pos 1) (omega arith)
