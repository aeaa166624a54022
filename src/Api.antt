-- ===== src/Api.antt =====
-- internal/api: the REST handlers of jobs.go and runs.go, the probes of health.go and what server.go
-- answers with. A handler takes what net/http and encoding/json made of the request, and answers
-- with a status and the value that is encoded. The server shares the store with the scheduler.
pub mod Effects
pub mod Stored
pub mod Exchange
use cronflux.Common.{
  ℕ, List, [], ◌∷◌, Bool, true, false, Option, none, some, Str, codes, str_eq, ℤ, pos, Time,
  Duration, Result, ok, err, ltb_ℤ, ◌==◌, if◌then◌else◌,
}
use cronflux.Common.Dict.{Dict}
use cronflux.Job.{Job, Run}
use cronflux.Store.{Store, StoreError, RunFilter, not_found, failure}
use cronflux.Scheduler.{Env, World, call}
use cronflux.Scheduler.Loop.{trigger}
use cronflux.Cron.Field.{CronError}
use cronflux.Cron.Spec.{parse}

-- The text of an error's answer: a constant, or an error's text, alone or after a prefix.
pub data Problem : Type 0 where
  text : Str → Problem
  invalid_json : Str → Problem
  of_cron : CronError → Problem
  of_store : StoreError → Problem
  store_unavailable : StoreError → Problem

-- The value that `writeJSON` encodes; a deletion answers without one.
pub data Body : Type 0 where
  jobs : List Job → Body
  job : Job → Body
  runs : List Run → Body
  run : Run → Body
  entries : Dict Str → Body
  problem : Problem → Body
  no_body : Body

pub record Response : Type 0 where
  pub status : ℕ
  pub body : Body

abbrev pub write_json : ℕ → Body → Response
write_json status body = record { status = status; body = body }

abbrev pub write_error : ℕ → Problem → Response
write_error status p = write_json status (problem p)

-- `writeStoreError`
unfoldable pub write_store_error : StoreError → Response
write_store_error not_found = write_error 404 (text (codes "not found"))
write_store_error (failure e) = write_error 500 (of_store (failure e))

-- `atoiDefault`, over `strconv.Atoi`.
unfoldable pub atoi_default : (Str → Option ℤ) → Str → ℤ → ℤ
atoi_default atoi s def =
    if str_eq s []
    then def
    else elim (atoi s) [ none ↦ def | some n ↦ if ltb_ℤ n (pos 0) then def else n ]

-- The requests that have a route, with their path value, their query or their decoded body; any
-- other is `unmatched`.
pub data Request : Type 0 where
  list_jobs : Request
  create_job : Result Str Job → Request
  get_job : Str → Request
  delete_job : Str → Request
  trigger_job : Str → Request
  list_runs : (Str → Str) → Request
  get_run : Str → Request
  health : Request
  ready : Request
  service_info : Request
  unmatched : Request

-- What the server is given: whether it has a scheduler, the build's version, and the functions of
-- the standard library that the handlers call.
pub record Server : Type 0 where
  pub has_scheduler : Bool
  pub version : Str
  pub atoi : Str → Option ℤ
  pub parse_duration : Str → Option Duration

-- `RunFilter` of a query.
unfoldable pub query_filter : Server → (Str → Str) → RunFilter
unfolding atoi_default
query_filter server q = record {
  job_id = q (codes "job");
  batch_id = q (codes "batch");
  state = q (codes "state");
  limit = atoi_default server.atoi (q (codes "limit")) (pos 100);
  offset = atoi_default server.atoi (q (codes "offset")) (pos 0);
}

-- The checks of `handleCreateJob`, up to the first that fails.
unfoldable pub check_job : Server → Result Str Job → Result Problem Job
check_job server (err e) = err (invalid_json e)
check_job server (ok j) =
    if str_eq j.id []
    then err (text (codes "job id is required"))
    else if str_eq j.spec []
    then ok j
    else elim (parse server.parse_duration j.spec) [ err e ↦ err (of_cron e) | ok s ↦ ok j ]

-- The times that `handleCreateJob` sets.
abbrev pub stamp_job : Time → Job → Job
stamp_job now j = record j {
  created_at = if j.created_at == 0 then now else j.created_at;
  updated_at = now;
}

-- The end of a handler: the answer to the error of a call, or to its result.
abbrev pub respond :
    {S A : Type 0}
    → (StoreError → Response)
    → (A → Response)
    → World S × Result StoreError A
    → World S × Response
respond on_error on_result (w, err e) = (w, on_error e)
respond on_error on_result (w, ok a) = (w, on_result a)

-- `http.StatusInternalServerError` with the error's text.
abbrev pub internal_error : StoreError → Response
internal_error e = write_error 500 (of_store e)

module _ {S : Type 0} (api : Store S) (env : Env) (server : Server) where
  abbrev pub Handler : Type 0
  Handler = World S → World S × Response

  unfoldable pub handle_list_jobs : Handler
  handle_list_jobs w =
      respond internal_error (λ js. write_json 200 (jobs js)) (call api.list_jobs w)

  -- `now` is what `time.Now` answers, which is not the scheduler's clock.
  unfoldable pub handle_create_job : Time → Result Str Job → Handler
  unfolding check_job
  handle_create_job now decoded w = elim (check_job server decoded) [
    | err p ↦ (w, write_error 400 p)
    | ok j ↦
        let stamped = stamp_job now j in
        respond internal_error (λ _. write_json 201 (job stamped)) (call (api.put_job stamped) w)
  ]

  unfoldable pub handle_get_job : Str → Handler
  unfolding write_store_error
  handle_get_job id w =
      respond write_store_error (λ j. write_json 200 (job j)) (call (api.get_job id) w)

  unfoldable pub handle_delete_job : Str → Handler
  unfolding write_store_error
  handle_delete_job id w =
      respond write_store_error (λ _. write_json 204 no_body) (call (api.delete_job id) w)

  unfoldable pub handle_trigger_job : Str → Handler
  unfolding write_store_error trigger
  handle_trigger_job id w =
      if server.has_scheduler
      then respond write_store_error (λ r. write_json 202 (run r)) (trigger api env id w)
      else (w, write_error 503 (text (codes "scheduler not available")))

  unfoldable pub handle_list_runs : (Str → Str) → Handler
  unfolding query_filter
  handle_list_runs q w =
      respond internal_error (λ rs. write_json 200 (runs rs))
        (call (api.list_runs (query_filter server q)) w)

  unfoldable pub handle_get_run : Str → Handler
  unfolding write_store_error
  handle_get_run id w =
      respond write_store_error (λ r. write_json 200 (run r)) (call (api.get_run id) w)

  abbrev pub version_entries : List (Str × Str)
  version_entries = (codes "status", codes "ok") ∷ (codes "version", server.version) ∷ []

  unfoldable pub handle_ready : Handler
  handle_ready w =
      respond (λ e. write_error 503 (store_unavailable e))
        (λ _. write_json 200 (entries ((codes "status", codes "ready") ∷ [])))
        (call api.list_jobs w)

  abbrev pub info : List (Str × Str)
  info =
      (codes "service", codes "cronflux")
      ∷ (codes "api", codes "/api")
      ∷ (codes "metrics", codes "/metrics")
      ∷ []

  -- The handler that the routes give a request, with the reading of `time.Now`.
  unfoldable pub serve : Time → Request → Handler
  unfolding handle_list_jobs handle_create_job handle_get_job handle_delete_job handle_trigger_job
      handle_list_runs handle_get_run handle_ready
  serve now list_jobs = handle_list_jobs
  serve now (create_job decoded) = handle_create_job now decoded
  serve now (get_job id) = handle_get_job id
  serve now (delete_job id) = handle_delete_job id
  serve now (trigger_job id) = handle_trigger_job id
  serve now (list_runs q) = handle_list_runs q
  serve now (get_run id) = handle_get_run id
  serve now health = λ w. (w, write_json 200 (entries version_entries))
  serve now ready = handle_ready
  serve now service_info = λ w. (w, write_json 200 (entries info))
  serve now unmatched = λ w. (w, write_error 404 (text (codes "not found")))
