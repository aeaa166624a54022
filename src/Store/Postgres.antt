-- ===== src/Store/Postgres.antt =====
-- internal/store/postgres/postgres.go: the methods of the durable backend, over the database as a
-- parameter. A statement stands for its SQL text, which the database runs; what the code does is the
-- arguments, their order, and the reading of rows and errors.
pub mod Columns
pub mod Query
use cronflux.Common.{
  ℕ, suc, length, List, [], ◌∷◌, ◌++◌, Bool, true, false, Option, none, some, Str, str_eq, ℤ, pos,
  ltb_ℤ, Time, Duration, add_time, Result, ok, err, ◌==◌, if◌then◌else◌,
}
use cronflux.Job.{
  Job, Run, RunState, RetryPolicy, pending, running, succeeded, failed, dead, skipped, state_name,
}
use cronflux.Store.{Store, StoreError, RunFilter, Method, not_found, failure}
use cronflux.Store.Postgres.Columns.{
  Value, null, text, number, flag, time, Json, or_now, null_time, opt_time, run_args, update_args,
  scan_state, scan_time, or_zero, scan_run, job_args, scan_job,
}

-- The conditions of the query of `ListRuns`, each with the number of its argument, and the numbers
-- of the arguments of its LIMIT and OFFSET.
pub data Column : Type 0 where
  job_id batch_id state : Column

pub record RunQuery : Type 0 where
  pub conds : List (Column × ℕ)
  pub limit : Option ℕ
  pub offset : Option ℕ

pub data Statement : Type 0 where
  upsert_job select_job select_jobs delete_job insert_run select_run update_run claim_runs :
      Statement
  select_runs : RunQuery → Statement

-- `exec` answers with the number of affected rows, `query` with the rows.
pub record Database (D : Type 0) : Type 0 where
  pub exec : Statement → List Value → D → D × Result Str ℕ
  pub query : Statement → List Value → D → D × Result Str (List (List Value))

-- The conditions that `ListRuns` adds: a column where the filter names a value.
abbrev pub filter_terms : RunFilter → List (Column × Str)
filter_terms f =
    let states = if str_eq f.state [] then [] else (state, f.state) ∷ [] in
    let batches = if str_eq f.batch_id [] then states else (batch_id, f.batch_id) ∷ states in
    if str_eq f.job_id [] then batches else (job_id, f.job_id) ∷ batches

-- `add`, condition by condition: each takes the number of arguments so far, plus one.
unfoldable pub number_terms : ℕ → List (Column × Str) → List (Column × ℕ) × List Value
number_terms n [] = ([], [])
number_terms n ((c, v) ∷ more) =
    let (conds, args) = number_terms (suc n) more in ((c, suc n) ∷ conds, text v ∷ args)

-- A positive limit or offset becomes one more argument.
abbrev pub add_number : ℤ → List Value → Option ℕ × List Value
add_number k args =
    if ltb_ℤ (pos 0) k then (some (suc (length args)), args ++ number k ∷ []) else (none, args)

-- The query and the arguments of `ListRuns`.
unfoldable pub list_query : RunFilter → RunQuery × List Value
unfolding number_terms
list_query f =
    let (conds, args) = number_terms 0 (filter_terms f) in
    let (limit, args') = add_number f.limit args in
    let (offset, args'') = add_number f.offset args' in
    (record { conds = conds; limit = limit; offset = offset }, args'')

-- The loop over the rows: the first row that cannot be read ends it, with an error of which the text
-- is left out.
unfoldable pub scan_rows :
    {A : Type 0} → (List Value → Option A) → List (List Value) → Result StoreError (List A)
scan_rows scan [] = ok []
scan_rows scan (row ∷ rows) = elim (scan row) [
  | none ↦ err (failure [])
  | some a ↦ elim (scan_rows scan rows) [ err e ↦ err e | ok as_ ↦ ok (a ∷ as_) ]
]

-- The first row, or `sql.ErrNoRows`.
abbrev pub scan_one :
    {A : Type 0} → (List Value → Option A) → List (List Value) → Result StoreError A
scan_one scan [] = err not_found
scan_one scan (row ∷ rows) = elim (scan row) [ none ↦ err (failure []) | some a ↦ ok a ]

abbrev pub rows_of :
    {D A : Type 0}
    → (List (List Value) → Result StoreError A)
    → D × Result Str (List (List Value))
    → D × Result StoreError A
rows_of scan (d, err e) = (d, err (failure e))
rows_of scan (d, ok rows) = (d, scan rows)

-- The end of a statement of which the number of rows is not looked at, and of one that reports that
-- it met none.
abbrev pub done_of : {D : Type 0} → D × Result Str ℕ → D × Result StoreError (Unit {0})
done_of (d, err e) = (d, err (failure e))
done_of (d, ok n) = (d, ok tt)

abbrev pub affected_of : {D : Type 0} → D × Result Str ℕ → D × Result StoreError (Unit {0})
affected_of (d, err e) = (d, err (failure e))
affected_of (d, ok n) = (d, if n == 0 then err not_found else ok tt)

module _ (json : Json) where
  -- The backend; `now` is the reading of `time.Now` that `orNow` takes, one for the two columns of a
  -- row.
  abbrev pub postgres : {D : Type 0} → Database D → Time → Store D
  postgres db now = record {
    put_job = λ j d. done_of (db.exec upsert_job (job_args json now j) d);
    get_job = λ id d. rows_of (scan_one (scan_job json)) (db.query select_job (text id ∷ []) d);
    list_jobs = λ d. rows_of (scan_rows (scan_job json)) (db.query select_jobs [] d);
    delete_job = λ id d. affected_of (db.exec delete_job (text id ∷ []) d);
    create_run = λ r d. done_of (db.exec insert_run (run_args now r) d);
    get_run = λ id d. rows_of (scan_one scan_run) (db.query select_run (text id ∷ []) d);
    update_run = λ r d. affected_of (db.exec update_run (update_args now r) d);
    list_runs = λ f d.
        let (q, args) = list_query f in
        rows_of (scan_rows scan_run) (db.query (select_runs q) args d);
    claim_due = λ t worker lease limit d. rows_of (scan_rows scan_run) (
        db.query claim_runs (time t ∷ text worker ∷ time (add_time t lease) ∷ number limit ∷ []) d);
  }
