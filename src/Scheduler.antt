-- ===== src/Scheduler.antt =====
-- internal/scheduler: the state that one scheduler works on, what it asks of its surroundings, and
-- the sequencing of its calls. The parts are in the children.
--
-- A scheduler runs over any backend of the contract `Store`. Each call of `newID`, of the clock and
-- of the executor takes the next answer of the surroundings, which `Env` gives by the call's number.
pub mod Worker
pub mod Dispatcher
pub mod Loop
pub mod Safety
pub mod Pool
use cronflux.Common.{
  ℕ, ◌+◌, List, ◌∷◌, Option, none, some, Str, Time, Duration, Result, ok, err, Bool,
}
use cronflux.Common.Dict.{Dict}
use cronflux.Job.{Job, Run, RunState, RetryPolicy, Float64}
use cronflux.Backoff.{Floats}
use cronflux.Store.{Store, StoreError, Method}

-- `cron.Schedule`, by its one method `Next`.
abbrev pub Schedule : Type 0
Schedule = Time → Time

-- What `Execute` returned, and whether the scheduler's own context was done by then.
pub record Outcome : Type 0 where
  pub error : Option Str
  pub parent_done : Bool

pub record Env : Type 0 where
  pub new_id : ℕ → Str
  pub clock : ℕ → Time
  pub execute : ℕ → Job → Run → Outcome
  pub random : ℕ → Float64
  pub floats : Floats
  -- `cron.Parse`
  pub parse : Str → Option Schedule

-- The calls of internal/metrics, newest first.
pub data Metric : Type 0 where
  observe_run : Str → RunState → Duration → Metric
  inc_retry : Str → Metric
  tick : Metric
  set_pending : ℕ → Metric
  set_lag : Duration → Metric

pub record World (S : Type 0) : Type 0 where
  pub store : S
  -- how many IDs, clock readings, executions and random numbers were asked for
  pub ids : ℕ
  pub readings : ℕ
  pub executions : ℕ
  pub randoms : ℕ
  pub metrics : List Metric
  -- the dispatcher's caches
  pub next_fire : Dict Time
  pub parsed : Dict Schedule

-- A stretch of code that may return early with an error; what it did to the world stays.
abbrev pub Action : Type 0 → Type 0 → Type 0
Action S A = World S → World S × Result StoreError A

module _ {S : Type 0} where
  abbrev pub pure : {A : Type 0} → A → Action S A
  pure a w = (w, ok a)

  abbrev pub and_then :
      {A B : Type 0}
      → World S × Result StoreError A
      → (A → Action S B)
      → World S × Result StoreError B
  and_then (w, ok a) f = f a w
  and_then (w, err e) f = (w, err e)

  infixl 5 ◌>>=◌ ◌>>◌
  abbrev pub ◌>>=◌ : {A B : Type 0} → Action S A → (A → Action S B) → Action S B
  m >>= f = λ w. and_then (m w) f

  abbrev pub ◌>>◌ : {A B : Type 0} → Action S A → Action S B → Action S B
  m >> n = m >>= λ _. n

  abbrev pub with_store :
      {A : Type 0} → World S → S × Result StoreError A → World S × Result StoreError A
  with_store w (s, r) = (record w { store = s }, r)

  -- A call of the store.
  abbrev pub call : {A : Type 0} → Method S A → Action S A
  call m w = with_store w (m w.store)

  abbrev pub new_id : Env → Action S Str
  new_id env w = (record w { ids = w.ids + 1 }, ok (env.new_id w.ids))

  abbrev pub read_clock : Env → Action S Time
  read_clock env w = (record w { readings = w.readings + 1 }, ok (env.clock w.readings))

  abbrev pub execute : Env → Job → Run → Action S Outcome
  execute env j r w =
      (record w { executions = w.executions + 1 }, ok (env.execute w.executions j r))

  abbrev pub random : Env → Action S Float64
  random env w = (record w { randoms = w.randoms + 1 }, ok (env.random w.randoms))

  abbrev pub emit : Metric → Action S (Unit {0})
  emit m w = (record w { metrics = m ∷ w.metrics }, ok tt)
