-- ===== src/Examples.antt =====
-- examples/inmemory-dag/main.go: three jobs, each of which depends on the one before it, on the
-- in-memory backend. The executor notes the jobs in the order in which they run; the loop of `Run` is
-- the row of its ticks.
use cronflux.Common.{
  ℕ, ◌*◌, List, [], ◌∷◌, ◌++◌, true, Option, none, some, Str, codes, pos, Time, ok,
}
use cronflux.Job.{Job}
use cronflux.Store.Memory.{MemStore, memory}
use cronflux.Scheduler.{
  Env, World, Action, Metric, observe_run, inc_retry, tick, set_pending, set_lag, ◌>>◌,
}
use cronflux.Scheduler.Loop.{Options, with_defaults, step, trigger}
use cronflux.System.{put_jobs}

-- A job of the example; the fields that are not named hold Go's zero values.
abbrev pub dag_job : Str → Str → List Str → Job
dag_job id name depends_on = record {
  id = id;
  name = name;
  spec = [];
  command = [];
  max_retries = pos 0;
  backoff = record { base = pos 0; max = pos 0; factor = 0; jitter = 0 };
  depends_on = depends_on;
  timeout = pos 0;
  enabled = true;
  created_at = 0;
  updated_at = 0;
}

abbrev pub dag_jobs : List Job
dag_jobs =
    dag_job (codes "extract") (codes "Extract") []
    ∷ dag_job (codes "transform") (codes "Transform") (codes "extract" ∷ [])
    ∷ dag_job (codes "load") (codes "Load") (codes "transform" ∷ [])
    ∷ []

-- 25 milliseconds; `Lease` is not given.
abbrev pub dag_options : Options
dag_options =
    with_defaults (record { tick_interval = pos (25 * 1000000); workers = pos 1; lease = pos 0 })

-- The jobs are stored and the first is triggered.
unfoldable pub prepare_dag : Env → Action MemStore (Unit {0})
unfolding put_jobs trigger
prepare_dag env = do put_jobs memory dag_jobs; trigger memory env (codes "extract"); λ w. (w, ok tt)

-- The ticks of `Run`; `none` means that the fuel ran out.
unfoldable pub run_ticks : Env → ℕ → List Time → World MemStore → Option (World MemStore)
unfolding step
run_ticks env fuel [] w = some w
run_ticks env fuel (now ∷ times) w = elim (step memory env dag_options fuel now w) [
  | none ↦ none
  | some w' ↦ run_ticks env fuel times w'
]

-- The order in which the jobs were executed, of the calls of the metrics, newest first: each execution
-- is observed at its end, and one worker executes one run at a time.
unfoldable pub order : List Metric → List Str
order [] = []
order (observe_run id state dur ∷ cs) = order cs ++ id ∷ []
order (inc_retry id ∷ cs) = order cs
order (tick ∷ cs) = order cs
order (set_pending n ∷ cs) = order cs
order (set_lag d ∷ cs) = order cs
