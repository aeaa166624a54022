-- ===== src/Scheduler/Dispatcher/Dependents.antt =====
-- `depsSatisfied` of internal/scheduler/dispatcher.go over the in-memory backend.
pub mod Reason
use cronflux.Common.{
  ℕ, ◌+◌, ◌≡◌, refl, sym, ap, ◌∙◌, subst, [], ◌∷◌, List, Bool, true, false, not, ◌&&◌, Option, none,
  some, Str, str_eq, str_eq_iff, Time, Result, ok, err, arith, if◌then◌else◌, Bool-cases, inl, inr,
  ◌⊎◌, In, All, All→, All-map,
}
use cronflux.Common.Dict.{lookup, insert, lookup-insert}
use cronflux.Job.{Job, Run, RunState, new_run, pending, succeeded, state_eq}
use cronflux.Store.Memory.{MemStore, memory, list_runs, list_jobs, create_run}
use cronflux.Store.Memory.Invariant.{IsWellFormed, create_run-IsWellFormed}
use cronflux.Store.Memory.Listing.{listed, list_runs-IsListing, Meets}
use cronflux.Scheduler.{Env, World}
use cronflux.Scheduler.Dispatcher.{
  by_job, has_succeeded, contains, is_empty, deps_satisfied, enqueue_once, enqueue_dependent,
  enqueue_all, enqueue_dependents,
}

-- A stored run of the job in the batch has succeeded. (An empty ID in the filter asks for nothing.)
abbrev pub HasSucceeded : MemStore → Str → Str → Type 0
HasSucceeded s batch dep =
    (q : Run) × (lookup q.id s.runs ≡ some q) × Meets (by_job dep batch) q × (q.state ≡ succeeded)

succeeded_of : (r : Run) → state_eq r.state succeeded ≡ true → r.state ≡ succeeded
succeeded_of r h = ground arith

find_succeeded :
    (P : Run → Type 0) (rs : List Run)
    → All P rs
    → has_succeeded rs ≡ true
    → (q : Run) × P q × (q.state ≡ succeeded)
unfolding has_succeeded
find_succeeded P [] h e = cc
find_succeeded P (r ∷ rs) h e = elim (Bool-cases (state_eq r.state succeeded)) [
  | inl yes_r ↦ (r, h.0, succeeded_of r yes_r)
  | inr no_r ↦ find_succeeded P rs h.1 (rw no_r at e)
]

pub contains-In : (xs : List Str) (want : Str) → contains xs want ≡ true → In want xs
unfolding contains
contains-In [] want h = cc
contains-In (x ∷ xs) want h = elim (Bool-cases (str_eq x want)) [
  | inl e ↦ inl ((str_eq_iff x want).0 e)
  | inr e ↦ inr (contains-In xs want (rw e at h))
]

-- The runs that a query finds.
abbrev pub query : MemStore → Str → Str → List Run
query s job_id batch = listed (list_runs (by_job job_id batch) s)

pub all_succeeded : MemStore → List Str → Str → Bool
all_succeeded s [] batch = true
all_succeeded s (dep ∷ deps) batch =
    if has_succeeded (query s dep batch) then all_succeeded s deps batch else false

pub deps_satisfied-all_succeeded :
    (env : Env) (deps : List Str) (batch : Str) (w : World MemStore)
    → deps_satisfied memory env deps batch w ≡ (w, ok (all_succeeded w.store deps batch))
unfolding deps_satisfied all_succeeded list_runs
deps_satisfied-all_succeeded env [] batch w = refl
deps_satisfied-all_succeeded env (dep ∷ deps) batch w =
    elim (Bool-cases (has_succeeded (query w.store dep batch))) [
      | inl e ↦ rw e (deps_satisfied-all_succeeded env deps batch w)
      | inr e ↦ rw e refl
    ]

pub All-succeeded→ :
    (s : MemStore) (deps : List Str) (batch : Str)
    → IsWellFormed s
    → all_succeeded s deps batch ≡ true
    → All (HasSucceeded s batch) deps
unfolding all_succeeded
All-succeeded→ s [] batch w h = tt
All-succeeded→ s (dep ∷ deps) batch w h = elim (Bool-cases (has_succeeded (query s dep batch))) [
  | inl e ↦
      let (q, (stored, meets), done) =
        find_succeeded _ (query s dep batch)
          (list_runs-IsListing s (by_job dep batch) w refl refl).0.sound e in
      ((q, stored, meets, done), All-succeeded→ s deps batch w (rw e at h))
  | inr e ↦ absurd (false-ne-true (rw e at h))
]
  where
    false-ne-true : ◌≡◌ {A = Bool} false true → ⊥
    false-ne-true p = cc
