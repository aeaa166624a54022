-- ===== src/Scheduler/Pool/FanIn.antt =====
-- A job with several dependencies, as the goroutines of `drain` see it: what of the job and a batch
-- the store says, and which goroutines have the job still before them.
use cronflux.Common.{
  ◌≡◌, refl, sym, ap, ◌∙◌, subst, List, [], ◌∷◌, true, some, Str, str_eq_refl, Time, arith,
  Bool-cases, inl, inr, ◌⊎◌, In, All, →All,
}
use cronflux.Common.Dict.{Dict, lookup, insert}
use cronflux.Job.{Job, Run, succeeded}
use cronflux.Scheduler.Dispatcher.{contains}
use cronflux.Scheduler.Pool.{
  Pc, locking, listing, checking, probing, creating, check_deps, visit_next,
}
use cronflux.Scheduler.Pool.Slots.{entry-cases}

-- A run of the job in the batch.
abbrev pub Has : Dict Run → Str → Str → Type 0
Has m job batch =
    (i : Str) × (r : Run) × (lookup i m ≡ some r) × (r.job_id ≡ job) × (r.batch_id ≡ batch)

-- A run of the job that succeeded in the batch.
abbrev pub Done : Dict Run → Str → Str → Type 0
Done m batch job =
    (i : Str) × (r : Run) × (lookup i m ≡ some r)
    × (r.job_id ≡ job)
    × (r.batch_id ≡ batch)
    × (r.state ≡ succeeded)

-- The run succeeded in the batch, as one of the dependencies.
abbrev pub Counts : Str → List Str → Run → Type 0
Counts batch deps q = In q.job_id deps × (q.batch_id ≡ batch) × (q.state ≡ succeeded)

-- A dependency that has succeeded after a write had before it, or is the written run's.
pub All-Done :
    (q : Run) (m : Dict Run) (batch : Str) (deps : List Str)
    → All (Done (insert q.id q m) batch) deps
    → All (Done m batch) deps ⊎ Counts batch deps q
All-Done q m batch [] h = inl tt
All-Done q m batch (dep ∷ deps) ((i, r, e, job, same, done), rest) = elim (entry-cases q r i m e) [
  | inl (at, eq) ↦ inr (
    inl (sym job ∙ sym (ap (λ (x : Run). x.job_id) eq)),
    ap (λ (x : Run). x.batch_id) eq ∙ same,
    ap (λ (x : Run). x.state) eq ∙ done,
  )
  | inr old ↦ elim (All-Done q m batch deps rest) [
    | inl before ↦ inl ((i, r, old, job, same, done), before)
    | inr (there, at_batch, ended) ↦ inr (inr there, at_batch, ended)
  ]
]

In-contains : (xs : List Str) (want : Str) → In want xs → contains xs want ≡ true
unfolding contains
In-contains [] want i = elim i [ ]
In-contains (x ∷ xs) want (inl e) = rw (e, str_eq_refl want) refl
In-contains (x ∷ xs) want (inr i) = ground (arith, In-contains xs want i)

-- The goroutine has still to visit the job `j`, for a run of the batch on which the job depends.
module _ (j : Job) (batch : Str) where
  abbrev pub IsMine : Run → Type 0
  IsMine r = (r.batch_id ≡ batch) × In r.job_id j.depends_on

  abbrev pub Visits : Job → List Str → List Job → Type 0
  Visits i deps js = In j js ⊎ ((i ≡ j) × All (λ d. In d j.depends_on) deps)

  abbrev pub Owes : Pc → Type 0
  Owes (locking r) = IsMine r
  Owes (listing r now) = IsMine r
  Owes (checking r now i dep deps js) = IsMine r × Visits i (dep ∷ deps) js
  Owes (probing r now i js) = IsMine r × Visits i [] js
  Owes (creating r now i js) = IsMine r × Visits i [] js
  Owes _ = ⊥

  pub check_deps-Owes :
      (r : Run) (now : Time) (i : Job) (deps : List Str) (js : List Job)
      → IsMine r
      → Visits i deps js
      → Owes (check_deps r now i deps js)
  check_deps-Owes r now i [] js mine v = (mine, v)
  check_deps-Owes r now i (dep ∷ deps) js mine v = (mine, v)

  In-self : (xs : List Str) → All (λ d. In d xs) xs
  In-self xs = →All (λ d. In d xs) xs (λ d i. i)

  -- The loop over the jobs does not pass a job that depends on the run's.
  pub visit_next-Owes :
      (r : Run) (now : Time) (js : List Job) → IsMine r → In j js → Owes (visit_next r now js)
  unfolding visit_next
  visit_next-Owes r now [] mine k = elim k [ ]
  visit_next-Owes r now (i ∷ js) mine (inl same) =
      let there : contains i.depends_on r.job_id ≡ true =
        In-contains i.depends_on r.job_id
          (subst (λ (x : Job). In r.job_id x.depends_on) (sym same) mine.1) in
      rw there (
        check_deps-Owes r now i i.depends_on js mine (
          inr (
            same,
            subst (λ (x : Job). All (λ d. In d j.depends_on) x.depends_on) (sym same)
                (In-self j.depends_on),
          )))
  visit_next-Owes r now (i ∷ js) mine (inr k) = elim (Bool-cases (contains i.depends_on r.job_id)) [
    | inl e ↦ rw e (check_deps-Owes r now i i.depends_on js mine (inl k))
    | inr e ↦ rw e (visit_next-Owes r now js mine k)
  ]
