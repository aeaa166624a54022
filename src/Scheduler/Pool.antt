-- ===== src/Scheduler/Pool.antt =====
-- The goroutines of `drain` in internal/scheduler/scheduler.go, a call of the store at a time: the
-- body of each with `process` of worker.go and `enqueueDependents` of dispatcher.go, the semaphore
-- that bounds how many run, and the mutex around `enqueueDependents`. A schedule chooses, turn by
-- turn, the goroutine that goes on, and what newID, the clock, the executor and the random number
-- generator answer. The metrics' calls are left out.
pub mod Threads
pub mod Semaphore
pub mod Mutex
pub mod Slots
pub mod Fits
pub mod Moves
pub mod Once
pub mod Drain
pub mod Progress
pub mod Ends
pub mod FanIn
pub mod Owed
pub mod Carries
pub mod Complete
pub mod Remembers
use cronflux.Common.{
  ℕ, zero, suc, ◌+◌, ◌-◌, List, [], ◌∷◌, ◌++◌, Bool, true, false, not, Option, none, some, Str, ℤ,
  pos, ltb_ℤ, Time, Duration, add_time, Result, ok, err, if◌then◌else◌, length, ltb,
}
use cronflux.Job.{Job, Run, Float64, new_run, state_eq, succeeded, failed, dead}
use cronflux.Backoff.{Floats, delay}
use cronflux.Store.{Store, StoreError}
use cronflux.Scheduler.{Outcome}
use cronflux.Scheduler.Dispatcher.{by_job, contains, has_succeeded, is_empty}

-- Where a goroutine stands: before which call, with the local variables that it still needs.
pub data Pc : Type 0 where
  fetching : (r : Run) → Pc  -- GetJob
  executing : (j : Job) (r : Run) → Pc  -- Execute, with the readings of the clock around it
  recording : (retry : Option Job) (r : Run) → Pc  -- UpdateRun
  retrying : (j : Job) (r : Run) → Pc  -- CreateRun of scheduleRetry
  locking : (r : Run) → Pc  -- Lock
  listing : (r : Run) (now : Time) → Pc  -- ListJobs
  -- ListRuns of the dependency `dep`; `deps` are those after it, `js` the jobs after `j`
  checking : (r : Run) (now : Time) (j : Job) (dep : Str) (deps : List Str) (js : List Job) → Pc
  probing : (r : Run) (now : Time) (j : Job) (js : List Job) → Pc  -- ListRuns of the batch
  creating : (r : Run) (now : Time) (j : Job) (js : List Job) → Pc  -- CreateRun of a dependent
  unlocking : Pc  -- Unlock
  leaving : Pc  -- the receive from the semaphore
  finished : Pc

-- What a turn's calls of newID, the clock, the executor and rand answer.
pub record Input : Type 0 where
  pub id : Str
  pub time : Time
  pub outcome : Outcome
  pub random : Float64

-- After `process` returned `r` without an error.
abbrev pub processed : Run → Pc
processed r = if state_eq r.state succeeded then locking r else leaving

-- The run with its outcome, and the call that stores it.
unfoldable pub record_result : Job → Run → Option Str → Time → Pc
record_result j r none finish =
    recording none
      (record r { finished_at = some finish; updated_at = finish; state = succeeded; error = [] })
record_result j r (some e) finish =
    let r' = record r { finished_at = some finish; updated_at = finish; error = e } in
    if ltb_ℤ (pos r.attempt) j.max_retries
    then recording (some j) (record r' { state = failed })
    else recording none (record r' { state = dead })

-- The next call of `depsSatisfied`, and of the body of the loop after it.
abbrev pub check_deps : Run → Time → Job → List Str → List Job → Pc
check_deps r now j [] js = probing r now j js
check_deps r now j (dep ∷ deps) js = checking r now j dep deps js

-- The next call of the loop of `enqueueDependents`, over the jobs that are left.
unfoldable pub visit_next : Run → Time → List Job → Pc
unfolding contains
visit_next r now [] = unlocking
visit_next r now (j ∷ js) =
    let rest = visit_next r now js in
    if contains j.depends_on r.job_id then check_deps r now j j.depends_on js else rest

-- The run that `scheduleRetry` stores.
unfoldable pub retry_run : Floats → Input → Job → Run → Run
unfolding delay
retry_run floats a j r =
    let u = if floats.lt (floats.of_int (pos 0)) j.backoff.jitter then a.random else 0 in
    let wait = delay floats j.backoff u (pos r.attempt) in
    new_run a.id r.job_id r.batch_id (r.attempt + 1) (add_time r.updated_at wait) r.updated_at

module _ {S : Type 0} (api : Store S) (floats : Floats) where
  -- The call before which a goroutine stands, up to the next one.
  unfoldable pub advance : Input → Pc → S → S × Pc
  unfolding record_result visit_next has_succeeded retry_run
  advance a (fetching r) s =
      let (s', found) = api.get_job r.job_id s in
      (s', elim found [ err e ↦ leaving | ok j ↦ executing j r ])
  advance a (executing j r) s =
      (s, if a.outcome.parent_done then processed r else record_result j r a.outcome.error a.time)
  advance a (recording retry r) s =
      let (s', done) = api.update_run r s in
      (
        s',
        elim done [
          | err e ↦ leaving
          | ok u ↦ elim retry [ none ↦ processed r | some j ↦ retrying j r ]
        ],
      )
  advance a (retrying j r) s =
      let (s', done) = api.create_run (retry_run floats a j r) s in
      (s', elim done [ err e ↦ leaving | ok u ↦ processed r ])
  advance a (locking r) s = (s, listing r a.time)
  advance a (listing r now) s =
      let (s', found) = api.list_jobs s in
      (s', elim found [ err e ↦ unlocking | ok js ↦ visit_next r now js ])
  advance a (checking r now j dep deps js) s =
      let (s', found) = api.list_runs (by_job dep r.batch_id) s in
      (
        s',
        elim found [
          | err e ↦ unlocking
          | ok rs ↦ if has_succeeded rs then check_deps r now j deps js else visit_next r now js
        ],
      )
  advance a (probing r now j js) s =
      let (s', found) = api.list_runs (by_job j.id r.batch_id) s in
      (
        s',
        elim found [
          | err e ↦ unlocking
          | ok rs ↦ if not (is_empty rs) then visit_next r now js else creating r now j js
        ],
      )
  advance a (creating r now j js) s =
      let (s', done) = api.create_run (new_run a.id j.id r.batch_id 0 now now) s in
      (s', elim done [ err e ↦ unlocking | ok u ↦ visit_next r now js ])
  advance a unlocking s = (s, leaving)
  advance a leaving s = (s, finished)
  advance a finished s = (s, finished)

-- Between the acquisition and the release of the semaphore, and between Lock and Unlock.
abbrev pub is_active : Pc → ℕ
is_active finished = 0
is_active _ = 1

abbrev pub is_critical : Pc → ℕ
is_critical (listing _ _) = 1
is_critical (checking _ _ _ _ _ _) = 1
is_critical (probing _ _ _ _) = 1
is_critical (creating _ _ _ _) = 1
is_critical unlocking = 1
is_critical _ = 0

-- The claimed runs that are not launched yet, the goroutines in the order of their launch, the mutex,
-- and how many values the semaphore's channel holds.
pub record Pool (S : Type 0) : Type 0 where
  pub store : S
  pub waiting : List Run
  pub threads : List Pc
  pub locked : Bool
  pub slots : ℕ

abbrev pub total : (Pc → ℕ) → List Pc → ℕ
total w [] = 0
total w (p ∷ ps) = w p + total w ps

unfoldable pub thread_at : ℕ → List Pc → Option Pc
thread_at n [] = none
thread_at zero (p ∷ ps) = some p
thread_at (suc n) (p ∷ ps) = thread_at n ps

unfoldable pub set_thread : ℕ → Pc → List Pc → List Pc
set_thread n q [] = []
set_thread zero q (p ∷ ps) = q ∷ ps
set_thread (suc n) q (p ∷ ps) = p ∷ set_thread n q ps

-- Whether Lock waits.
abbrev pub is_blocked : Bool → Pc → Bool
is_blocked locked (locking r) = locked
is_blocked locked _ = false

-- The mutex after the call.
abbrev pub lock_after : Bool → Pc → Bool
lock_after locked (locking r) = true
lock_after locked unlocking = false
lock_after locked _ = locked

-- The semaphore's channel after the call: the deferred receive takes a value out.
abbrev pub slots_after : ℕ → Pc → ℕ
slots_after slots leaving = slots - 1
slots_after slots _ = slots

pub data Choice : Type 0 where
  launch : Choice
  go_on : ℕ → Input → Choice

module _ {S : Type 0} (api : Store S) (floats : Floats) (workers : ℕ) where
  abbrev pub go_on_at : ℕ → Input → Option Pc → Pool S → Pool S
  go_on_at n a none p = p
  go_on_at n a (some pc) p =
      if is_blocked p.locked pc
      then p
      else (let (s, pc') = advance api floats a pc p.store in
          record p {
            store = s;
            threads = set_thread n pc' p.threads;
            locked = lock_after p.locked pc;
            slots = slots_after p.slots pc;
          })

  abbrev pub launch_from : List Run → Pool S → Pool S
  launch_from [] p = p
  launch_from (r ∷ rs) p = record p {
    waiting = rs;
    threads = p.threads ++ fetching r ∷ [];
    slots = p.slots + 1;
  }

  -- One turn; a choice that is not possible leaves the pool as it is. A launch sends to the channel of
  -- the semaphore, which has room for `workers` values.
  unfoldable pub turn : Choice → Pool S → Pool S
  unfolding advance thread_at set_thread
  turn launch p = if ltb p.slots workers then launch_from p.waiting p else p
  turn (go_on n a) p = go_on_at n a (thread_at n p.threads) p

  unfoldable pub run_schedule : List Choice → Pool S → Pool S
  unfolding turn
  run_schedule [] p = p
  run_schedule (c ∷ cs) p = run_schedule cs (turn c p)

-- The pool when `drain` has claimed the runs.
abbrev pub open_pool : {S : Type 0} → S → List Run → Pool S
open_pool s claimed = record {
  store = s;
  waiting = claimed;
  threads = [];
  locked = false;
  slots = 0;
}
