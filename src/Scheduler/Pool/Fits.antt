-- ===== src/Scheduler/Pool/Fits.antt =====
-- What a goroutine of `drain` relies on, on the in-memory backend, and what a call of one keeps of
-- the runs that the others hold.
use cronflux.Common.{
  ◌≡◌, refl, sym, ap, ◌∙◌, subst, List, [], ◌∷◌, true, Option, none, some, Str, pos, ltb_ℤ, Time,
  Bool-cases, inl, inr, In,
}
use cronflux.Common.Dict.{Dict, lookup, insert}
use cronflux.Job.{Job, Run, state_eq, succeeded}
use cronflux.Store.Memory.{MemStore, list_runs, create_run}
use cronflux.Store.Memory.Invariant.{IsWellFormed, create_run-IsWellFormed}
use cronflux.Store.Memory.Listing.{listed, list_runs-IsListing}
use cronflux.Scheduler.Dispatcher.{by_job, contains, is_empty}
use cronflux.Scheduler.Pool.{
  Pc, fetching, executing, recording, creating, processed, record_result, check_deps, visit_next,
  is_critical,
}
use cronflux.Scheduler.Pool.Slots.{Known, Clear, Preserves, PreservesClear, Preserves-refl}

-- What a goroutine relies on before its call: its run is stored until its outcome is written, and
-- a dependent's first attempt is not.
abbrev pub Fits : Dict Run → Pc → Type 0
Fits m (fetching r) = Known m r
Fits m (executing j r) = Known m r
Fits m (recording retry r) = Known m r
Fits m (creating r now j js) = Clear m j.id r.batch_id
Fits m _ = Unit

-- What a call does, from the store `s` and the goroutine `pc` to the next ones.
pub record Moved (s : MemStore) (pc : Pc) (next : MemStore × Pc) : Type 0 where
  pub well_formed : IsWellFormed next.0
  pub preserves : Preserves s.runs next.0.runs
  pub clear : is_critical pc ≡ 0 → PreservesClear s.runs next.0.runs
  pub fits : Fits next.0.runs next.1

module _ (s : MemStore) (w : IsWellFormed s) (pc : Pc) where
  -- A call that leaves the store alone.
  pub still :
      (pc' : Pc) (next : MemStore × Pc) → next ≡ (s, pc') → Fits s.runs pc' → Moved s pc next
  still pc' next e f = subst (Moved s pc) (sym e) (record {
    well_formed = w;
    preserves = Preserves-refl s.runs;
    clear = λ z job batch h. h;
    fits = f;
  })

  -- A call that stores a run.
  pub stores :
      (q : Run) (pc' : Pc) (next : MemStore × Pc)
      → next ≡ ((create_run q s).0, pc')
      → Preserves s.runs (insert q.id q s.runs)
      → (is_critical pc ≡ 0 → PreservesClear s.runs (insert q.id q s.runs))
      → Fits (insert q.id q s.runs) pc'
      → Moved s pc next
  unfolding create_run
  stores q pc' next e p c f =
      subst (Moved s pc) (sym e)
        (record { well_formed = create_run-IsWellFormed s w q; preserves = p; clear = c; fits = f })

module _ (m : Dict Run) where
  pub processed-Fits : (r : Run) → Fits m (processed r)
  processed-Fits r = elim (Bool-cases (state_eq r.state succeeded)) [
    | inl e ↦ rw e tt
    | inr e ↦ rw e tt
  ]

  pub record_result-Fits :
      (j : Job) (r : Run) (e : Option Str) (t : Time) → Known m r → Fits m (record_result j r e t)
  unfolding record_result
  record_result-Fits j r none t (q, e, k) =
      (q, e, record { job = k.job; batch = k.batch; attempt = k.attempt })
  record_result-Fits j r (some x) t (q, e, k) =
      elim (Bool-cases (ltb_ℤ (pos r.attempt) j.max_retries)) [
        | inl b ↦ rw b (q, e, record { job = k.job; batch = k.batch; attempt = k.attempt })
        | inr b ↦ rw b (q, e, record { job = k.job; batch = k.batch; attempt = k.attempt })
      ]

  pub check_deps-Fits :
      (r : Run) (now : Time) (j : Job) (deps : List Str) (js : List Job)
      → Fits m (check_deps r now j deps js)
  check_deps-Fits r now j [] js = tt
  check_deps-Fits r now j (dep ∷ deps) js = tt

  pub visit_next-Fits : (r : Run) (now : Time) (js : List Job) → Fits m (visit_next r now js)
  unfolding visit_next
  visit_next-Fits r now [] = tt
  visit_next-Fits r now (j ∷ js) = elim (Bool-cases (contains j.depends_on r.job_id)) [
    | inl e ↦ rw e (check_deps-Fits r now j j.depends_on js)
    | inr e ↦ rw e (visit_next-Fits r now js)
  ]

not-In : (rs : List Run) (q : Run) → is_empty rs ≡ true → In q rs → ⊥
not-In [] q e i = i
not-In (r ∷ rs) q e i = cc

-- When ListRuns returns no run of a batch, no attempt of the job is stored in it.
pub is_empty→Clear :
    (s : MemStore) (job batch : Str)
    → IsWellFormed s
    → is_empty (listed (list_runs (by_job job batch) s)) ≡ true
    → Clear s.runs job batch
is_empty→Clear s job batch w e i q l ej eb f =
    let listing = (list_runs-IsListing s (by_job job batch) w refl refl).0 in
    let same = w.runs_keyed i q l in
    let found =
      listing.complete q (ap (λ (k : Str). lookup k s.runs) same ∙ l) (inr ej, inr eb, inl refl) in
    absurd (not-In (listed (list_runs (by_job job batch) s)) q e found)
