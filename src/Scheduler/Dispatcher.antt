-- ===== src/Scheduler/Dispatcher.antt =====
-- internal/scheduler/dispatcher.go: cron fires and completed upstream jobs become pending runs. The
-- loops over a list recur on it; the catch-up loop of `dispatch` takes fuel, and `none` means that
-- the fuel ran out.
pub mod Roots
pub mod CatchUp
pub mod Results
pub mod Ends
pub mod Dependents
use cronflux.Common.{
  ℕ, zero, suc, ◌+◌, List, [], ◌∷◌, Bool, true, false, not, ◌||◌, Option, none, some, Str, str_eq,
  Time, pos, Result, ok, err, leb, ◌==◌, if◌then◌else◌, any,
}
use cronflux.Common.Dict.{Dict, lookup, insert}
use cronflux.Job.{Job, Run, new_run, succeeded, state_eq}
use cronflux.Store.{Store, StoreError, RunFilter}
use cronflux.Scheduler.{Env, Schedule, World, Action, pure, ◌>>=◌, ◌>>◌, call, new_id}

-- A filter with the named fields; the others hold Go's zero values.
abbrev pub by_job : Str → Str → RunFilter
by_job job_id batch_id = record {
  job_id = job_id;
  batch_id = batch_id;
  state = [];
  limit = pos 0;
  offset = pos 0;
}

-- `hasSucceeded`
unfoldable pub has_succeeded : List Run → Bool
has_succeeded [] = false
has_succeeded (r ∷ rs) = if state_eq r.state succeeded then true else has_succeeded rs

-- `contains`
unfoldable pub contains : List Str → Str → Bool
contains [] want = false
contains (x ∷ xs) want = if str_eq x want then true else contains xs want

-- The test of the loop in `enqueueRoot`.
abbrev pub has_slot : Time → List Run → Bool
has_slot fire_at rs = any (λ r. r.scheduled_for == fire_at) rs

-- `len(rs) == 0`
abbrev pub is_empty : List Run → Bool
is_empty [] = true
is_empty (r ∷ rs) = false

module _ {S : Type 0} (api : Store S) (env : Env) where
  -- `schedule`: the cached schedule, or the parsed one, which is then cached. `none` is the parser's
  -- error.
  unfoldable pub schedule : Job → World S → World S × Option Schedule
  schedule j w = elim (lookup j.id w.parsed) [
    | some s ↦ (w, some s)
    | none ↦ elim (env.parse j.spec) [
      | none ↦ (w, none)
      | some s ↦ (record w { parsed = insert j.id s w.parsed }, some s)
    ]
  ]

  -- `enqueueRoot`
  unfoldable pub enqueue_root : Job → Time → Action S (Unit {0})
  enqueue_root j fire_at = do
    existing ← call (api.list_runs (by_job j.id []))
    if has_slot fire_at existing then pure tt else (do
      id ← new_id env
      batch ← new_id env
      call (api.create_run (new_run id j.id batch 0 fire_at fire_at)))

  -- `for !next.After(now)`: the count of runs and the first fire after `now`.
  unfoldable pub catch_up :
      ℕ
      → Schedule
      → Job
      → Time
      → Time
      → ℕ
      → World S
      → Option (World S × Result StoreError (ℕ × Time))
  unfolding enqueue_root
  catch_up zero sched j now next created w = none
  catch_up (suc fuel) sched j now next created w = elim (leb next now) [
    | false ↦ some (w, ok (created, next))
    | true ↦
        let (w', done) = enqueue_root j next w in
        elim done [
          | err e ↦ some (w', err e)
          | ok _ ↦ catch_up fuel sched j now (sched next) (created + 1) w'
        ]
  ]

  abbrev set_next_fire : Str → Time → World S → World S
  set_next_fire id t w = record w { next_fire = insert id t w.next_fire }

  -- The body of the loop of `dispatch` for a job whose schedule is known.
  unfoldable pub fire :
      ℕ → Schedule → Job → Time → ℕ → World S → Option (World S × Result StoreError ℕ)
  unfolding catch_up
  fire fuel sched j now created w = elim (lookup j.id w.next_fire) [
    | none ↦ some (set_next_fire j.id (sched now) w, ok created)
    | some next ↦ elim (catch_up fuel sched j now next created w) [
      | none ↦ none
      | some (w', err e) ↦ some (w', err e)
      | some (w', ok (count, after)) ↦ some (set_next_fire j.id after w', ok count)
    ]
  ]

  -- The end of the body of that loop, by what `schedule` answered.
  unfoldable pub visit_scheduled :
      ℕ → Time → Job → ℕ → World S × Option Schedule → Option (World S × Result StoreError ℕ)
  unfolding fire
  visit_scheduled fuel now j created (w, none) = some (w, ok created)
  visit_scheduled fuel now j created (w, some sched) = fire fuel sched j now created w

  -- The whole body of the loop of `dispatch`.
  unfoldable pub visit : ℕ → Time → Job → ℕ → World S → Option (World S × Result StoreError ℕ)
  unfolding schedule visit_scheduled
  visit fuel now j created w =
      if not j.enabled || str_eq j.spec []
      then some (w, ok created)
      else visit_scheduled fuel now j created (schedule j w)

  unfoldable pub visit_all :
      ℕ → Time → List Job → ℕ → World S → Option (World S × Result StoreError ℕ)
  unfolding visit
  visit_all fuel now [] created w = some (w, ok created)
  visit_all fuel now (j ∷ js) created w = elim (visit fuel now j created w) [
    | none ↦ none
    | some (w', err e) ↦ some (w', err e)
    | some (w', ok count) ↦ visit_all fuel now js count w'
  ]

  -- `dispatch`. The count that the source returns beside an error is not kept.
  unfoldable pub dispatch : ℕ → Time → World S → Option (World S × Result StoreError ℕ)
  unfolding visit_all
  dispatch fuel now w =
      let (w', found) = call api.list_jobs w in
      elim found [ err e ↦ some (w', err e) | ok jobs ↦ visit_all fuel now jobs 0 w' ]

  -- `depsSatisfied`, on the dependencies of the job.
  unfoldable pub deps_satisfied : List Str → Str → Action S Bool
  unfolding has_succeeded
  deps_satisfied [] batch = pure true
  deps_satisfied (dep ∷ deps) batch = do
    runs ← call (api.list_runs (by_job dep batch))
    if has_succeeded runs then deps_satisfied deps batch else pure false

  -- The end of that body: the run is created unless the job has one in the batch.
  unfoldable pub enqueue_once : Str → Str → Time → Action S (Unit {0})
  enqueue_once job_id batch now = do
    existing ← call (api.list_runs (by_job job_id batch))
    if not (is_empty existing)
        then pure tt
        else (do id ← new_id env; call (api.create_run (new_run id job_id batch 0 now now)))

  -- The body of the loop of `enqueueDependents`.
  unfoldable pub enqueue_dependent : Run → Time → Job → Action S (Unit {0})
  unfolding deps_satisfied contains enqueue_once
  enqueue_dependent completed now j =
      if not (contains j.depends_on completed.job_id) then pure tt else (do
        ready ← deps_satisfied j.depends_on completed.batch_id
        if not ready then pure tt else enqueue_once j.id completed.batch_id now)

  unfoldable pub enqueue_all : Run → Time → List Job → Action S (Unit {0})
  unfolding enqueue_dependent
  enqueue_all completed now [] = pure tt
  enqueue_all completed now (j ∷ js) = do
    enqueue_dependent completed now j
    enqueue_all completed now js

  -- `enqueueDependents`
  unfoldable pub enqueue_dependents : Run → Time → Action S (Unit {0})
  unfolding enqueue_all
  enqueue_dependents completed now = do jobs ← call api.list_jobs; enqueue_all completed now jobs
