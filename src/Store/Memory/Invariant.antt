-- ===== src/Store/Memory/Invariant.antt =====
-- What holds of the in-memory backend between two calls: each map has a key once, and every job
-- and run stands under its own ID.
use cronflux.Common.{
  ◌≡◌, List, [], ◌∷◌, map, some, Str, str_eq, str_eq_iff, ℤ, Time, Duration, arith, Bool-cases,
  Option-cases, inl, inr,
}
use cronflux.Common.Dict.{
  Dict, lookup, insert, erase, IsMap, insert-IsMap, erase-IsMap, lookup-insert, lookup-erase,
}
use cronflux.Job.{Job, Run, clone}
use cronflux.Store.Memory.{
  MemStore, new, put_job, delete_job, create_run, update_run, claim_due, ready_runs, write_runs,
  stamp,
}

-- Every entry stands under the key that it carries.
abbrev pub IsKeyed : {V : Type 0} → (V → Str) → Dict V → Type 0
IsKeyed {V} key m = (k : Str) (v : V) → lookup k m ≡ some v → key v ≡ k

pub record IsWellFormed (s : MemStore) : Type 0 where
  pub jobs_once : IsMap s.jobs
  pub jobs_keyed : IsKeyed (λ (j : Job). j.id) s.jobs
  pub runs_once : IsMap s.runs
  pub runs_keyed : IsKeyed (λ (r : Run). r.id) s.runs

module _ {V : Type 0} (key : V → Str) where
  pub insert-IsKeyed : (v : V) (m : Dict V) → IsKeyed key m → IsKeyed key (insert (key v) v m)
  insert-IsKeyed v m h k w e = elim (Bool-cases (str_eq (key v) k)) [
    | inl same ↦ ground (arith, lookup-insert (key v) k v m, str_eq_iff (key v) k)
    | inr other ↦ h k w (ground (arith, lookup-insert (key v) k v m))
  ]

  pub erase-IsKeyed : (i : Str) (m : Dict V) → IsMap m → IsKeyed key m → IsKeyed key (erase i m)
  erase-IsKeyed i m o h k w e = h k w (ground (arith, lookup-erase i k m o))

pub write_runs-IsMap : (rs : List Run) (m : Dict Run) → IsMap m → IsMap (write_runs rs m)
unfolding write_runs
write_runs-IsMap [] m h = h
write_runs-IsMap (r ∷ rs) m h = write_runs-IsMap rs (insert r.id r m) (insert-IsMap r.id r m h)

pub write_runs-IsKeyed :
    (rs : List Run) (m : Dict Run)
    → IsKeyed (λ (r : Run). r.id) m
    → IsKeyed (λ (r : Run). r.id) (write_runs rs m)
unfolding write_runs
write_runs-IsKeyed [] m h = h
write_runs-IsKeyed (r ∷ rs) m h =
    write_runs-IsKeyed rs (insert r.id r m) (insert-IsKeyed (λ (q : Run). q.id) r m h)

-- The calls that change the store.
pub data Call : Type 0 where
  put : Job → Call
  delete : Str → Call
  create : Run → Call
  update : Run → Call
  claim : (now : Time) (worker : Str) (lease : Duration) (limit : ℤ) → Call

abbrev pub step : MemStore → Call → MemStore
step s (put j) = (put_job j s).0
step s (delete id) = (delete_job id s).0
step s (create r) = (create_run r s).0
step s (update r) = (update_run r s).0
step s (claim now worker lease limit) = (claim_due now worker lease limit s).0

-- The store after a history of calls.
abbrev pub run_calls : MemStore → List Call → MemStore
run_calls s [] = s
run_calls s (c ∷ cs) = run_calls (step s c) cs

pub new-IsWellFormed : IsWellFormed new
unfolding lookup
new-IsWellFormed = record {
  jobs_once = tt;
  jobs_keyed = λ k v e. cc;
  runs_once = tt;
  runs_keyed = λ k v e. cc;
}

-- Storing a job or a run, or dropping a job, keeps the store well formed.
module _ (s : MemStore) (w : IsWellFormed s) where
  put_job-IsWellFormed : (j : Job) → IsWellFormed (put_job j s).0
  unfolding put_job clone
  put_job-IsWellFormed j = record {
    jobs_once = insert-IsMap j.id (clone j) s.jobs w.jobs_once;
    jobs_keyed = insert-IsKeyed (λ (i : Job). i.id) (clone j) s.jobs w.jobs_keyed;
    runs_once = w.runs_once;
    runs_keyed = w.runs_keyed;
  }

  delete_job-IsWellFormed : (id : Str) → IsWellFormed (delete_job id s).0
  unfolding delete_job
  delete_job-IsWellFormed id = elim (Option-cases (lookup id s.jobs)) [
    | inl e ↦ rw (e, delete_job) w
    | inr (j, e) ↦
        rw (e, delete_job)
          (record {
            jobs_once = erase-IsMap id s.jobs w.jobs_once;
            jobs_keyed = erase-IsKeyed (λ (i : Job). i.id) id s.jobs w.jobs_once w.jobs_keyed;
            runs_once = w.runs_once;
            runs_keyed = w.runs_keyed;
          })
  ]

  pub create_run-IsWellFormed : (r : Run) → IsWellFormed (create_run r s).0
  unfolding create_run
  create_run-IsWellFormed r = record {
    jobs_once = w.jobs_once;
    jobs_keyed = w.jobs_keyed;
    runs_once = insert-IsMap r.id r s.runs w.runs_once;
    runs_keyed = insert-IsKeyed (λ (q : Run). q.id) r s.runs w.runs_keyed;
  }

  update_run-IsWellFormed : (r : Run) → IsWellFormed (update_run r s).0
  unfolding update_run create_run
  update_run-IsWellFormed r = elim (Option-cases (lookup r.id s.runs)) [
    | inl e ↦ rw (e, update_run) w
    | inr (old, e) ↦ rw (e, update_run) (create_run-IsWellFormed r)
  ]

  claim_due-IsWellFormed :
      (now : Time) (worker : Str) (lease : Duration) (limit : ℤ)
      → IsWellFormed (claim_due now worker lease limit s).0
  unfolding claim_due
  claim_due-IsWellFormed now worker lease limit =
      let claimed = map (stamp now worker lease) (ready_runs now limit s.runs) in
      record {
        jobs_once = w.jobs_once;
        jobs_keyed = w.jobs_keyed;
        runs_once = write_runs-IsMap claimed s.runs w.runs_once;
        runs_keyed = write_runs-IsKeyed claimed s.runs w.runs_keyed;
      }

pub step-IsWellFormed : (s : MemStore) (c : Call) → IsWellFormed s → IsWellFormed (step s c)
step-IsWellFormed s (put j) w = put_job-IsWellFormed s w j
step-IsWellFormed s (delete id) w = delete_job-IsWellFormed s w id
step-IsWellFormed s (create r) w = create_run-IsWellFormed s w r
step-IsWellFormed s (update r) w = update_run-IsWellFormed s w r
step-IsWellFormed s (claim now worker lease limit) w =
    claim_due-IsWellFormed s w now worker lease limit

pub run_calls-keep_IsWellFormed :
    (s : MemStore) (cs : List Call) → IsWellFormed s → IsWellFormed (run_calls s cs)
run_calls-keep_IsWellFormed s [] w = w
run_calls-keep_IsWellFormed s (c ∷ cs) w =
    run_calls-keep_IsWellFormed (step s c) cs (step-IsWellFormed s c w)

-- After any history of calls on a new store, every key stands once in each of the two maps, and
-- every job and every run stands under its own ID.
pub run_calls-IsWellFormed : (cs : List Call) → IsWellFormed (run_calls new cs)
run_calls-IsWellFormed cs = run_calls-keep_IsWellFormed new cs new-IsWellFormed
