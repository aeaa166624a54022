-- ===== src/Tests/Fixtures.antt =====
-- The jobs, runs, stores and surroundings that the tests share.
use cronflux.Common.{
  ◌+◌, ◌-◌, ◌*◌, ◌^◌, List, [], ◌∷◌, true, false, Option, none, some, Str, codes, pos, pos_part,
  ltb, leb,
}
use cronflux.Job.{Job, Run, new_run, RetryPolicy}
use cronflux.Backoff.{Floats}
use cronflux.Store.Memory.{MemStore, new}
use cronflux.Store.Memory.Invariant.{
  IsWellFormed, Call, run_calls, run_calls-keep_IsWellFormed, new-IsWellFormed,
}
use cronflux.Scheduler.{Env, Outcome, World, Schedule}

abbrev pub policy : RetryPolicy
policy = record { base = pos 5; max = pos 40; factor = 2; jitter = 0 }

abbrev pub job_a : Job
job_a = record {
  id = codes "a";
  name = codes "first";
  spec = [];
  command = [];
  max_retries = pos 2;
  backoff = policy;
  depends_on = [];
  timeout = pos 0;
  enabled = true;
  created_at = 1;
  updated_at = 1;
}

abbrev pub job_b : Job
job_b = record job_a { id = codes "b"; depends_on = codes "a" ∷ [] }

-- A run of the first job, due at 10.
abbrev pub run_1 : Run
run_1 = new_run (codes "r1") (codes "a") (codes "x") 0 10 5

abbrev pub history : List Call
history = Call.put job_a ∷ Call.put job_b ∷ Call.create run_1 ∷ []

abbrev pub stored : MemStore
stored = run_calls new history

pub stored-IsWellFormed : IsWellFormed stored
stored-IsWellFormed = run_calls-keep_IsWellFormed new history new-IsWellFormed

-- Whole numbers in place of float64.
abbrev pub whole_floats : Floats
whole_floats = record {
  of_int = pos_part;
  one = 1;
  two = 2;
  add = λ a b. a + b;
  sub = λ a b. a - b;
  mul = λ a b. a * b;
  pow = λ a b. a ^ b;
  lt = ltb;
  le = leb;
  trunc = pos;
}

-- The IDs are [0], [1], ... and the clock advances by one from 100.
abbrev pub env_of : Outcome → (Str → Option Schedule) → Env
env_of outcome parse = record {
  new_id = λ n. n ∷ [];
  clock = λ n. 100 + n;
  execute = λ n j r. outcome;
  random = λ n. 0;
  floats = whole_floats;
  parse = parse;
}

abbrev pub env : Outcome → Env
env outcome = env_of outcome (λ s. none)

abbrev pub passes : Outcome
passes = record { error = none; parent_done = false }

abbrev pub fails : Outcome
fails = record { error = some (codes "exit 1"); parent_done = false }

abbrev pub stops : Outcome
stops = record { error = some (codes "killed"); parent_done = true }

abbrev pub world_of : MemStore → World MemStore
world_of s = record {
  store = s;
  ids = 0;
  readings = 0;
  executions = 0;
  randoms = 0;
  metrics = [];
  next_fire = [];
  parsed = [];
}
