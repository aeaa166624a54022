-- ===== src/Job.antt =====
-- internal/job/job.go, internal/job/run.go and internal/job/state.go: jobs, runs and run states.
-- A float64 field is its bit pattern, which only the retry delay reads. `Attempt` is never set
-- below zero, so it is a natural number.
pub mod Graph
use cronflux.Common.{
  ℕ, ◌++◌, List, [], Bool, true, false, Option, none, some, Str, codes, str_eq, Time, Duration, ℤ,
  if◌then◌else◌,
}

abbrev pub Float64 : Type 0
Float64 = ℕ

pub record RetryPolicy : Type 0 where
  pub base : Duration
  pub max : Duration
  pub factor : Float64
  pub jitter : Float64

pub record Job : Type 0 where
  pub id : Str
  pub name : Str
  pub spec : Str
  pub command : List Str
  pub max_retries : ℤ
  pub backoff : RetryPolicy
  pub depends_on : List Str
  pub timeout : Duration
  pub enabled : Bool
  pub created_at : Time
  pub updated_at : Time

-- `Job.Clone`: the slices are appended to nil, so that the copy shares none with the original.
unfoldable pub clone : Job → Job
clone j = record j { command = [] ++ j.command; depends_on = [] ++ j.depends_on }

-- The six states that a run is ever given.
pub data RunState : Type 0 where
  pending running succeeded failed dead skipped : RunState

abbrev pub state_name : RunState → Str
state_name pending = codes "pending"
state_name running = codes "running"
state_name succeeded = codes "succeeded"
state_name failed = codes "failed"
state_name dead = codes "dead"
state_name skipped = codes "skipped"

-- `==` on two states.
abbrev pub state_eq : RunState → RunState → Bool
state_eq pending pending = true
state_eq running running = true
state_eq succeeded succeeded = true
state_eq failed failed = true
state_eq dead dead = true
state_eq skipped skipped = true
state_eq _ _ = false

-- `RunState.Valid`, of any string: the `switch` over the constants.
unfoldable pub is_valid : Str → Bool
unfolding str_eq
is_valid s =
    if str_eq s (state_name pending)
    then true
    else if str_eq s (state_name running)
    then true
    else if str_eq s (state_name succeeded)
    then true
    else if str_eq s (state_name failed)
    then true
    else if str_eq s (state_name dead)
    then true
    else if str_eq s (state_name skipped)
    then true
    else false

-- The entries of `terminalStates`; an absent key reads as false.
abbrev pub is_terminal : RunState → Bool
is_terminal succeeded = true
is_terminal dead = true
is_terminal skipped = true
is_terminal _ = false

pub record Run : Type 0 where
  pub id : Str
  pub job_id : Str
  pub batch_id : Str
  pub state : RunState
  pub attempt : ℕ
  pub scheduled_for : Time
  pub started_at : Option Time
  pub finished_at : Option Time
  pub lease_expiry : Time
  pub worker : Str
  pub error : Str
  pub created_at : Time
  pub updated_at : Time

-- A run with only the fields that the source's literals name; the others hold Go's zero values.
abbrev pub new_run : Str → Str → Str → ℕ → Time → Time → Run
new_run id job_id batch_id attempt scheduled_for created = record {
  id = id;
  job_id = job_id;
  batch_id = batch_id;
  state = pending;
  attempt = attempt;
  scheduled_for = scheduled_for;
  started_at = none;
  finished_at = none;
  lease_expiry = 0;
  worker = [];
  error = [];
  created_at = created;
  updated_at = created;
}
