-- ===== src/Tests/Pools.antt =====
-- The theorems on the goroutines of a pass, on two runs of one job in one batch.
use cronflux.Common.{
  ◌++◌, Bool-cases, inl, inr, ◌≡◌, ◌≤◌, ◌*◌, ◌+◌, refl, List, [], ◌∷◌, false, true, none, codes,
  pos, str_eq, str_lt, arith, Str, length,
}
use cronflux.Common.Dict.{lookup, insert}
use cronflux.Common.Sort.{sort_by}
use cronflux.Job.{Run, new_run, clone}
use cronflux.Store.Memory.{
  MemStore, memory, create_run, claim_due, put_job, get_job, update_run, list_jobs, list_runs, page,
}
use cronflux.Store.Memory.Invariant.{IsWellFormed, create_run-IsWellFormed}
use cronflux.Store.Memory.Claim.Taken.{claimed_runs}
use cronflux.Scheduler.Pool.{
  Input, Choice, launch, go_on, is_active, is_critical, total, run_schedule, open_pool,
}
use cronflux.Scheduler.Pool.Slots.{OneFirst, add-Preserves}
use cronflux.Scheduler.Pool.Once.{IdsAreNew}
use cronflux.Scheduler.Pool.Drain.{drain-OneFirst}
use cronflux.Scheduler.Pool.FanIn.{Has, Done}
use cronflux.Scheduler.Pool.Remembers.{drain-Has}
use cronflux.Scheduler.Pool.Semaphore.{run_schedule-bounds_active}
use cronflux.Scheduler.Pool.Mutex.{run_schedule-excludes}
use cronflux.Scheduler.Pool.Progress.{acts, run_schedule-progresses}
use cronflux.Scheduler.Pool.Ends.{cost_in}
use cronflux.Scheduler.Pool.Ends.Turns.{count_acts, run_schedule-ends}
use cronflux.Tests.Fixtures.{stored, stored-IsWellFormed, run_1, job_b, whole_floats}

-- A retry of the first run.
abbrev run_2 : Run
run_2 = new_run (codes "r2") (codes "a") (codes "x") 1 10 5

abbrev two_stored : MemStore
two_stored = (create_run run_2 stored).0

two_stored-IsWellFormed : IsWellFormed two_stored
two_stored-IsWellFormed = create_run-IsWellFormed stored stored-IsWellFormed run_2

abbrev after_claim : MemStore
after_claim = (claim_due 20 (codes "w") (pos 30) (pos 8) two_stored).0

abbrev two_claimed : List Run
two_claimed = claimed_runs (claim_due 20 (codes "w") (pos 30) (pos 8) two_stored)

abbrev answers : Str → Input
answers id = record {
  id = id;
  time = 21;
  outcome = record { error = none; parent_done = false };
  random = 0;
}

abbrev first : Choice
first = go_on 0 (answers (codes "n1"))

abbrev second : Choice
second = go_on 1 (answers (codes "n2"))

-- The second goroutine waits for the mutex until the first has stored the dependent's run.
abbrev together : List Choice
together =
    launch
    ∷ launch
    ∷ first
    ∷ second
    ∷ first
    ∷ second
    ∷ first
    ∷ second
    ∷ first
    ∷ second
    ∷ first
    ∷ first
    ∷ first
    ∷ first
    ∷ go_on 0 (answers (codes "n3"))
    ∷ second
    ∷ second
    ∷ second
    ∷ second
    ∷ second
    ∷ []

run_schedule-bounds_active_example :
    let p = run_schedule memory whole_floats 2 together (open_pool after_claim two_claimed) in
    (p.slots ≡ total is_active p.threads) × (total is_active p.threads ≤ 2)
run_schedule-bounds_active_example =
    run_schedule-bounds_active memory whole_floats 2 together after_claim two_claimed

run_schedule-excludes_example :
    total is_critical
      (run_schedule memory whole_floats 2 together (open_pool after_claim two_claimed)).threads
    ≤ 1
run_schedule-excludes_example =
    run_schedule-excludes memory whole_floats 2 together after_claim two_claimed

run_schedule-ends_example :
    count_acts whole_floats 2 together (open_pool after_claim two_claimed)
    ≤ length two_claimed * (9 + cost_in after_claim)
run_schedule-ends_example = run_schedule-ends whole_floats 2 together after_claim two_claimed

run_schedule-progresses_example :
    (c : Choice) × (acts 2 c
        (run_schedule memory whole_floats 2 together (open_pool after_claim two_claimed))
      ≡ true)
unfolding run_schedule claim_due sort_by create_run insert put_job str_eq str_lt get_job lookup
    update_run list_jobs clone list_runs page
run_schedule-progresses_example =
    run_schedule-progresses memory whole_floats 2 together after_claim two_claimed
      (answers (codes "n3")) (omega arith) refl

stored-OneFirst : OneFirst two_stored.runs
unfolding lookup insert str_eq create_run put_job
stored-OneFirst =
    let first_kept = add-Preserves run_1 [] refl (λ e i q l. cc) in
    (add-Preserves run_2 (insert (codes "r1") run_1 []) refl (λ e. absurd (omega (arith, e)))).one
      (first_kept.one (λ i k q r e. cc))

-- No ID of the schedule is in use when it is taken.
new_ids : IdsAreNew whole_floats 2 together (open_pool after_claim two_claimed)
unfolding run_schedule claim_due sort_by create_run insert put_job str_eq str_lt get_job lookup
    update_run list_jobs clone list_runs page
new_ids = (
  tt,
  (
    tt,
    (
      refl,
      (
        refl,
        (
          refl,
          (
            refl,
            (
              refl,
              (
                refl,
                (
                  refl,
                  (
                    refl,
                    (
                      refl,
                      (refl, (refl, (refl, (refl, (refl, (refl, (refl, (refl, (refl, tt))))))))),
                    ),
                  ),
                ),
              ),
            ),
          ),
        ),
      ),
    ),
  ),
)

drain-OneFirst_example :
    OneFirst
      (run_schedule memory whole_floats 2 together (open_pool after_claim two_claimed)).store.runs
drain-OneFirst_example =
    drain-OneFirst two_stored two_stored-IsWellFormed 20 (codes "w") (pos 30) (pos 8) whole_floats 2
      together stored-OneFirst new_ids

-- The schedule up to the end of both goroutines.
abbrev ended : List Choice
ended =
    together
    ++ (go_on 0 (answers (codes "n3"))
        ∷ go_on 0 (answers (codes "n3"))
        ∷ second
        ∷ second
        ∷ second
        ∷ second
        ∷ [])

ended-new : IdsAreNew whole_floats 2 ended (open_pool after_claim two_claimed)
unfolding run_schedule claim_due sort_by create_run insert put_job str_eq str_lt get_job lookup
    update_run list_jobs clone list_runs page
ended-new = (
  tt,
  (
    tt,
    (
      refl,
      (
        refl,
        (
          refl,
          (
            refl,
            (
              refl,
              (
                refl,
                (
                  refl,
                  (
                    refl,
                    (
                      refl,
                      (
                        refl,
                        (
                          refl,
                          (
                            refl,
                            (
                              refl,
                              (
                                refl,
                                (
                                  refl,
                                  (
                                    refl,
                                    (
                                      refl,
                                      (refl, (refl, (refl, (refl, (refl, (refl, (refl, tt))))))),
                                    ),
                                  ),
                                ),
                              ),
                            ),
                          ),
                        ),
                      ),
                    ),
                  ),
                ),
              ),
            ),
          ),
        ),
      ),
    ),
  ),
)

pending-Done : Done two_stored.runs (codes "x") (codes "a") → ⊥
unfolding lookup insert str_eq create_run put_job
pending-Done (i, r, e, job, batch, done) = elim (Bool-cases (str_eq run_1.id i)) [
  | inl one ↦ absurd (ground (arith, e, one, done))
  | inr other ↦ elim (Bool-cases (str_eq run_2.id i)) [
    | inl two ↦ absurd (ground (arith, e, other, two, done))
    | inr none_left ↦ absurd (ground (arith, e, other, none_left))
  ]
]

drain-Has_example :
    Has
      (run_schedule memory whole_floats 2 ended (open_pool after_claim two_claimed)).store.runs
      (codes "b")
      (codes "x")
unfolding run_schedule claim_due sort_by create_run insert put_job str_eq str_lt get_job lookup
    update_run list_jobs clone list_runs page
drain-Has_example =
    drain-Has two_stored two_stored-IsWellFormed 20 (codes "w") (pos 30) (pos 8) whole_floats 2
      ended job_b (codes "x") stored-OneFirst refl (λ e. cc) (λ e. cc)
      (λ d. absurd (pending-Done d.0)) ended-new refl ((codes "r1", _, refl, refl, refl, refl), tt)
