-- ===== src/Scheduler/Loop/Trigger.antt =====
-- The manual trigger of internal/scheduler/scheduler.go and the claim that follows it.
use cronflux.Common.{
  ◌+◌, ◌≤◌, ◌≡◌, refl, none, some, Str, ℤ, Time, Duration, ok, err, inl, ◌⊎◌, In, ◌∙◌, ap,
}
use cronflux.Common.Dict.{lookup, lookup-insert_self}
use cronflux.Job.{Job, Run, new_run, clone}
use cronflux.Store.{not_found}
use cronflux.Store.Memory.{MemStore, memory, get_job, create_run, claim_due, stamp}
use cronflux.Store.Memory.Invariant.{IsWellFormed}
use cronflux.Store.Memory.Claim.Taken.{claimed_runs}
use cronflux.Store.Memory.Claim.Serves.{IsCrowdedOut, claim_due-serves}
use cronflux.Scheduler.{Env, World}
use cronflux.Scheduler.Loop.{trigger}

-- A trigger of an unknown job is refused and changes nothing.
pub trigger_missing :
    (env : Env) (id : Str) (w : World MemStore)
    → lookup id w.store.jobs ≡ none
    → trigger memory env id w ≡ (w, err not_found)
unfolding trigger get_job
trigger_missing env id w e = rw (e, trigger, get_job) refl

module _ (env : Env) (id : Str) (w : World MemStore) (j : Job) where
  -- The run that the trigger answers with.
  abbrev pub triggered : Run
  triggered =
      new_run (env.new_id w.ids) j.id (env.new_id (w.ids + 1)) 0 (env.clock w.readings)
        (env.clock w.readings)

  pub trigger-store :
      lookup id w.store.jobs ≡ some j
      → ((trigger memory env id w).0.store ≡ (create_run triggered w.store).0)
        × ((trigger memory env id w).1 ≡ ok triggered)
  unfolding trigger get_job create_run clone
  trigger-store known = rw (known, trigger, get_job) (refl, refl)

module _ (env : Env) (id : Str) (w : World MemStore) (j : Job) (v : IsWellFormed w.store)
    (known : lookup id w.store.jobs ≡ some j) where
  -- On a well-formed store, a trigger of a known job answers with a new run of that job, and the
  -- next claim by any worker, at the time of the trigger or later, returns that run, unless its
  -- limit is used up by runs that come no later than it.
  pub trigger-claim_due :
      (now : Time) (worker : Str) (lease : Duration) (limit : ℤ)
      → env.clock w.readings ≤ now
      → let (u, answer) = trigger memory env id w in
        let claimed = claimed_runs (claim_due now worker lease limit u.store) in
        (answer ≡ ok (triggered env id w j))
        × ((triggered env id w j).job_id ≡ id)
        × (In (stamp now worker lease (triggered env id w j)) claimed
            ⊎ IsCrowdedOut limit (triggered env id w j) claimed)
  unfolding create_run
  trigger-claim_due now worker lease limit le = (
    (trigger-store env id w j known).1,
    v.jobs_keyed id j known,
    claim_due-serves now worker lease limit (trigger memory env id w).0.store (triggered env id w j)
        (ap (λ (s : MemStore). lookup (triggered env id w j).id s.runs)
            (trigger-store env id w j known).0
          ∙ lookup-insert_self (triggered env id w j).id (triggered env id w j) w.store.runs)
        (inl (refl, le)),
  )
