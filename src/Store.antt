-- ===== src/Store.antt =====
-- internal/store/store.go: the contract that every backend implements, its error and its filter.
-- A method of the interface takes the store's state and returns the new state with its result.
pub mod Memory
pub mod Postgres
pub mod Suite
use cronflux.Common.{ℕ, List, Str, ℤ, Time, Duration, Result}
use cronflux.Job.{Job, Run}

-- `ErrNotFound`, or an error of the backend.
pub data StoreError : Type 0 where
  not_found : StoreError
  failure : Str → StoreError

pub record RunFilter : Type 0 where
  pub job_id : Str
  pub batch_id : Str
  pub state : Str
  pub limit : ℤ
  pub offset : ℤ

-- A method that may fail and that changes the store.
abbrev pub Method : Type 0 → Type 0 → Type 0
Method S A = S → S × Result StoreError A

pub record Store (S : Type 0) : Type 0 where
  pub put_job : Job → Method S (Unit {0})
  pub get_job : Str → Method S Job
  pub list_jobs : Method S (List Job)
  pub delete_job : Str → Method S (Unit {0})
  pub create_run : Run → Method S (Unit {0})
  pub get_run : Str → Method S Run
  pub update_run : Run → Method S (Unit {0})
  pub list_runs : RunFilter → Method S (List Run)
  pub claim_due : Time → Str → Duration → ℤ → Method S (List Run)
