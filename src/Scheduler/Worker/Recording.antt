-- ===== src/Scheduler/Worker/Recording.antt =====
-- What `process` of internal/scheduler/worker.go leaves in the in-memory backend, on every branch.
use cronflux.Common.{
  ℕ, ◌+◌, ◌≡◌, refl, [], true, false, none, some, Str, pos, ltb_ℤ, Time, add_time, ok, err,
  if◌then◌else◌, Bool-cases, inl, inr,
}
use cronflux.Common.Dict.{lookup, insert}
use cronflux.Job.{Job, Run, new_run, succeeded, failed, dead, clone}
use cronflux.Backoff.{delay}
use cronflux.Store.{not_found}
use cronflux.Store.Memory.{MemStore, memory, get_job, create_run, update_run}
use cronflux.Scheduler.{Env, Outcome, World}
use cronflux.Scheduler.Worker.{process}

-- A run whose job is gone is left as it is, under its lease, and the worker reports the error.
pub process-job_missing :
    (env : Env) (r : Run) (w : World MemStore)
    → lookup r.job_id w.store.jobs ≡ none
    → process memory env r w ≡ (w, err not_found)
unfolding process get_job
process-job_missing env r w e = rw (e, process, get_job) refl

module _ (env : Env) (r : Run) (w : World MemStore) (j : Job)
    (has_job : lookup r.job_id w.store.jobs ≡ some j) where
  abbrev outcome : Outcome
  outcome = env.execute w.executions j r

  abbrev finish : Time
  finish = env.clock (w.readings + 1)

  abbrev finished : Run
  finished = record r { finished_at = some finish; updated_at = finish }

  -- An execution of a stored job that ends while the scheduler shuts down is not recorded: the store
  -- is left as it was, so that the run keeps its lease.
  pub process_shutdown :
      outcome.parent_done ≡ true
      → ((process memory env r w).0.store ≡ w.store) × ((process memory env r w).1 ≡ ok r)
  unfolding process get_job clone
  process_shutdown h = rw (has_job, h, process, get_job) (refl, refl)

  -- A stored run of a stored job that succeeded is stored as such, with its error cleared; nothing
  -- else changes in the store.
  pub process-success :
      (old : Run)
      → outcome.parent_done ≡ false
      → outcome.error ≡ none
      → lookup r.id w.store.runs ≡ some old
      → let r' = record finished { state = succeeded; error = [] } in
        ((process memory env r w).0.store ≡ record w.store { runs = insert r.id r' w.store.runs })
        × ((process memory env r w).1 ≡ ok r')
  unfolding process get_job clone update_run
  process-success old h e o = rw (has_job, h, e, o, process, get_job, update_run) (refl, refl)

  -- The random number of the retry's delay.
  abbrev retry_number : ℕ
  retry_number =
      if env.floats.lt (env.floats.of_int (pos 0)) j.backoff.jitter then env.random w.randoms else 0

  abbrev retry_id : Str
  retry_id = env.new_id w.ids

  -- The next attempt, in the same batch, delayed by the job's backoff from the end of this one.
  abbrev pub retry_run : Run
  retry_run =
      new_run retry_id r.job_id r.batch_id (r.attempt + 1)
        (add_time finish (delay env.floats j.backoff retry_number (pos r.attempt))) finish

  module _ (old : Run) (error : Str) (alive : outcome.parent_done ≡ false)
      (fails : outcome.error ≡ some error) (stored : lookup r.id w.store.runs ≡ some old) where
    abbrev failed_run : Run
    failed_run = record finished { error = error; state = failed }

    abbrev dead_run : Run
    dead_run = record finished { error = error; state = dead }

    -- A stored run of a stored job that failed while the job still grants retries is stored as failed, with the error, and
    -- the next attempt is stored beside it under a new ID; nothing else changes.
    pub process-retry :
        ltb_ℤ (pos r.attempt) j.max_retries ≡ true
        → ((process memory env r w).0.store ≡ record w.store {
          runs = insert retry_id retry_run (insert r.id failed_run w.store.runs);
        })
          × ((process memory env r w).1 ≡ ok failed_run)
    unfolding process get_job clone update_run create_run
    process-retry h =
        elim (Bool-cases (env.floats.lt (env.floats.of_int (pos 0)) j.backoff.jitter)) [
          | inl q ↦
              rw (has_job, alive, fails, h, stored, q, process, get_job, update_run, create_run)
                (refl, refl)
          | inr q ↦
              rw (has_job, alive, fails, h, stored, q, process, get_job, update_run, create_run)
                (refl, refl)
        ]

    -- A stored run of a stored job that failed with no retry left is stored as dead, with the error,
    -- and nothing else changes in the store.
    pub process-dead :
        ltb_ℤ (pos r.attempt) j.max_retries ≡ false
        → ((process memory env r w).0.store
            ≡ record w.store { runs = insert r.id dead_run w.store.runs })
          × ((process memory env r w).1 ≡ ok dead_run)
    unfolding process get_job clone update_run
    process-dead h =
        rw (has_job, alive, fails, h, stored, process, get_job, update_run) (refl, refl)
