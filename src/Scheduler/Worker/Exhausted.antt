-- ===== src/Scheduler/Worker/Exhausted.antt =====
-- The attempts of a run that keeps failing, by `process` and `scheduleRetry` of
-- internal/scheduler/worker.go.
use cronflux.Common.{ℕ, suc, ◌≡◌, false, some, Str, str_eq}
use cronflux.Common.Dict.{lookup}
use cronflux.Job.{Job, Run, dead}
use cronflux.Store.Memory.{MemStore, memory}
use cronflux.Scheduler.{Env, World}
use cronflux.Scheduler.Worker.{process}

-- The executor fails every run, and no execution meets a shutdown.
abbrev pub AlwaysFails : Env → Type 0
AlwaysFails env =
    (k : ℕ) (j : Job) (r : Run)
    → ((env.execute k j r).parent_done ≡ false) × ((e : Str) × ((env.execute k j r).error ≡ some e))

-- From the run `r` in the world `w`, `n` retries in a row lead to the run `q` in the world `u`: each
-- is the run that stands under the ID which was drawn when the one before was processed.
pub data Retries (env : Env) : Run → World MemStore → ℕ → Run → World MemStore → Type 0 where
  none_left : {r : Run} {w : World MemStore} → Retries env r w 0 r w
  one_more :
      {r q p : Run} {w u : World MemStore} {n : ℕ}
      → lookup (env.new_id w.ids) (process memory env r w).0.store.runs ≡ some q
      → Retries env q (process memory env r w).0 n p u
      → Retries env r w (suc n) p u

-- The run is dead after it was processed, and no other run was added or changed.
abbrev pub EndsDead : Env → Run → World MemStore → Type 0
EndsDead env r w =
    ((q : Run) × (lookup r.id (process memory env r w).0.store.runs ≡ some q) × (q.state ≡ dead))
    × ((id : Str)
        → str_eq r.id id ≡ false
        → lookup id (process memory env r w).0.store.runs ≡ lookup id w.store.runs)
