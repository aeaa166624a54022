-- ===== src/Store/Postgres/Columns.antt =====
-- The rows of internal/store/postgres/postgres.go: the arguments that are written to the columns of
-- a job or a run, in their order, and the reading of a row. A column of a run's state holds one of
-- the six states. The JSON codec is a parameter.
use cronflux.Common.{
  ℕ, List, [], ◌∷◌, Bool, Option, none, some, Str, str_eq, ℤ, pos, Time, ◌==◌, if◌then◌else◌,
}
use cronflux.Job.{
  Job, Run, RunState, RetryPolicy, pending, running, succeeded, failed, dead, skipped, state_name,
}

-- A value of a column or an argument.
pub data Value : Type 0 where
  null : Value
  text : Str → Value
  number : ℤ → Value
  flag : Bool → Value
  time : Time → Value

-- encoding/json, on the values that are stored as JSON.
pub record Json : Type 0 where
  pub encode_texts : List Str → Str
  pub decode_texts : Str → Option (List Str)
  pub encode_policy : RetryPolicy → Str
  pub decode_policy : Str → Option RetryPolicy

-- `orNow`, with the reading of `time.Now`.
unfoldable pub or_now : Time → Time → Time
or_now now t = if t == 0 then now else t

-- `nullTime`
unfoldable pub null_time : Time → Value
null_time t = if t == 0 then null else time t

-- A `*time.Time` as an argument.
abbrev pub opt_time : Option Time → Value
opt_time none = null
opt_time (some t) = time t

-- The arguments of `CreateRun`.
unfoldable pub run_args : Time → Run → List Value
unfolding null_time or_now
run_args now r =
    text r.id
    ∷ text r.job_id
    ∷ text r.batch_id
    ∷ text (state_name r.state)
    ∷ number (pos r.attempt)
    ∷ time r.scheduled_for
    ∷ opt_time r.started_at
    ∷ opt_time r.finished_at
    ∷ null_time r.lease_expiry
    ∷ text r.worker
    ∷ text r.error
    ∷ time (or_now now r.created_at)
    ∷ time (or_now now r.updated_at)
    ∷ []

-- The arguments of `UpdateRun`.
unfoldable pub update_args : Time → Run → List Value
unfolding null_time or_now
update_args now r =
    text r.id
    ∷ text r.job_id
    ∷ text r.batch_id
    ∷ text (state_name r.state)
    ∷ number (pos r.attempt)
    ∷ time r.scheduled_for
    ∷ opt_time r.started_at
    ∷ opt_time r.finished_at
    ∷ null_time r.lease_expiry
    ∷ text r.worker
    ∷ text r.error
    ∷ time (or_now now r.updated_at)
    ∷ []

abbrev pub scan_state : Str → Option RunState
scan_state s =
    if str_eq s (state_name pending)
    then some pending
    else if str_eq s (state_name running)
    then some running
    else if str_eq s (state_name succeeded)
    then some succeeded
    else if str_eq s (state_name failed)
    then some failed
    else if str_eq s (state_name dead)
    then some dead
    else if str_eq s (state_name skipped)
    then some skipped
    else none

-- A column that is read into a `sql.NullTime`.
abbrev pub scan_time : Value → Option (Option Time)
scan_time null = some none
scan_time (time t) = some (some t)
scan_time _ = none

abbrev pub or_zero : Option Time → Time
or_zero none = 0
or_zero (some t) = t

abbrev pub natural : ℤ → Option ℕ
natural (pos n) = some n
natural _ = none

-- `scanRun`
unfoldable pub scan_run : List Value → Option Run
scan_run
      (text id
        ∷ text job
        ∷ text batch
        ∷ text st
        ∷ number n
        ∷ time at
        ∷ a
        ∷ b
        ∷ c
        ∷ text worker
        ∷ text error
        ∷ time created
        ∷ time updated
        ∷ []) =
    elim (scan_state st) [
      | none ↦ none
      | some found ↦ elim (natural n) [
        | none ↦ none
        | some attempt ↦ elim (scan_time a) [
          | none ↦ none
          | some started ↦ elim (scan_time b) [
            | none ↦ none
            | some finished ↦ elim (scan_time c) [
              | none ↦ none
              | some lease ↦ some (record {
                id = id;
                job_id = job;
                batch_id = batch;
                state = found;
                attempt = attempt;
                scheduled_for = at;
                started_at = started;
                finished_at = finished;
                lease_expiry = or_zero lease;
                worker = worker;
                error = error;
                created_at = created;
                updated_at = updated;
              })
            ]
          ]
        ]
      ]
    ]
scan_run _ = none

module _ (json : Json) where
  -- The arguments of `PutJob`.
  unfoldable pub job_args : Time → Job → List Value
  unfolding or_now
  job_args now j =
      text j.id
      ∷ text j.name
      ∷ text j.spec
      ∷ text (json.encode_texts j.command)
      ∷ number j.max_retries
      ∷ text (json.encode_policy j.backoff)
      ∷ text (json.encode_texts j.depends_on)
      ∷ number j.timeout
      ∷ flag j.enabled
      ∷ time (or_now now j.created_at)
      ∷ time (or_now now j.updated_at)
      ∷ []

  -- What a failed `json.Unmarshal` leaves.
  abbrev pub texts_or_none : Option (List Str) → List Str
  texts_or_none none = []
  texts_or_none (some xs) = xs

  abbrev pub policy_or_zero : Option RetryPolicy → RetryPolicy
  policy_or_zero none = record { base = pos 0; max = pos 0; factor = 0; jitter = 0 }
  policy_or_zero (some p) = p

  -- `scanJob`
  unfoldable pub scan_job : List Value → Option Job
  scan_job
        (text id
          ∷ text name
          ∷ text spec
          ∷ text command
          ∷ number retries
          ∷ text backoff
          ∷ text deps
          ∷ number timeout
          ∷ flag enabled
          ∷ time created
          ∷ time updated
          ∷ []) =
      some (record {
        id = id;
        name = name;
        spec = spec;
        command = texts_or_none (json.decode_texts command);
        max_retries = retries;
        backoff = policy_or_zero (json.decode_policy backoff);
        depends_on = texts_or_none (json.decode_texts deps);
        timeout = timeout;
        enabled = enabled;
        created_at = created;
        updated_at = updated;
      })
  scan_job _ = none
