-- ===== src/Scheduler/Dispatcher/Dependents/Reason.antt =====
-- `enqueueDependents` of internal/scheduler/dispatcher.go over the in-memory backend: a run that it
-- creates has its reason in the batch.
use cronflux.Common.{◌+◌, ◌≡◌, List, some, Str, Time, Result, ok, ◌⊎◌, In, All}
use cronflux.Common.Dict.{lookup}
use cronflux.Job.{Job, Run, new_run, pending}
use cronflux.Store.{StoreError}
use cronflux.Store.Memory.{MemStore, list_jobs, create_run}
use cronflux.Store.Memory.Invariant.{IsWellFormed}
use cronflux.Store.Memory.Listing.{listed}
use cronflux.Scheduler.{Env, World}
use cronflux.Scheduler.Dispatcher.Dependents.{HasSucceeded}

-- Why a dependent run may exist: a job that depends on the completed one, all of whose dependencies
-- have a succeeded run in the batch. The run is its first attempt, and waits to be claimed.
pub record IsJustified (s : MemStore) (completed : Run) (now : Time) (jobs : List Job) (r : Run)
    : Type 0 where
  pub job : Job
  pub known : In job jobs
  pub same_job : r.job_id ≡ job.id
  pub same_batch : r.batch_id ≡ completed.batch_id
  pub waits : r.state ≡ pending
  pub first : r.attempt ≡ 0
  pub due : r.scheduled_for ≡ now
  pub depends : In completed.job_id job.depends_on
  pub upstream : All (HasSucceeded s completed.batch_id) job.depends_on

module _ (env : Env) (completed : Run) (now : Time) where
  abbrev batch : Str
  batch = completed.batch_id

  abbrev created : Str → World MemStore → World MemStore
  created job_id w = record w {
    store = (create_run (new_run (env.new_id w.ids) job_id batch 0 now now) w.store).0;
    ids = w.ids + 1;
  }

  module _ (before : MemStore) (jobs : List Job) where
    -- Every run of the later store was there before, or is justified.
    abbrev Grows : MemStore → Type 0
    Grows s =
        (id : Str) (r : Run)
        → lookup id s.runs ≡ some r
        → (lookup id before.runs ≡ some r) ⊎ IsJustified before completed now jobs r

    -- What one job's turn may leave.
    abbrev Turn : World MemStore → World MemStore × Result StoreError (Unit {0}) → Type 0
    Turn w p = (u : World MemStore) × (p ≡ (u, ok tt)) × IsWellFormed u.store × Grows u.store

abbrev pub stored_jobs : MemStore → List Job
stored_jobs s = listed (list_jobs s)
