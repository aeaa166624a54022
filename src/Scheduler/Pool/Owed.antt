-- ===== src/Scheduler/Pool/Owed.antt =====
-- A call of a goroutine of `drain` on the in-memory backend loses no dependent: what a call makes
-- ready some goroutine has still to visit, and a visit ends with a run of the dependent.
use cronflux.Common.{
  ◌≡◌, ◌≢◌, refl, sym, ap, ◌∙◌, subst, List, [], ◌∷◌, true, false, Option, none, some, Str, str_eq,
  str_eq_iff, Time, Bool-cases, inl, inr, ◌⊎◌, In, All, All→, pos, ltb_ℤ,
}
use cronflux.Common.Dict.{Dict, lookup, insert, lookup-insert}
use cronflux.Job.{Job, Run, succeeded, state_eq}
use cronflux.Store.Memory.{MemStore, list_runs, create_run}
use cronflux.Store.Memory.Invariant.{IsWellFormed}
use cronflux.Store.Memory.Listing.{Wants, listed, list_runs-IsListing}
use cronflux.Scheduler.Dispatcher.{by_job, contains, has_succeeded, is_empty}
use cronflux.Scheduler.Pool.{Pc, recording, processed, record_result, check_deps, visit_next}
use cronflux.Scheduler.Pool.Slots.{SameSlot}
use cronflux.Scheduler.Pool.FanIn.{Has, Done, Counts, All-Done, Owes}

-- A run that failed is the only one that is tried again.
abbrev pub IsPlain : Pc → Type 0
IsPlain (recording (some j) r) = r.state ≢ succeeded
IsPlain _ = Unit

Has-insert :
    (q : Run) (m : Dict Run) (job batch : Str)
    → ((p : Run) → lookup q.id m ≡ some p → SameSlot p q)
    → Has m job batch
    → Has (insert q.id q m) job batch
Has-insert q m job batch same (i, r, e, at_job, at_batch) = elim (Bool-cases (str_eq q.id i)) [
  | inr other ↦ (i, r, rw (lookup-insert q.id i q m, other) e, at_job, at_batch)
  | inl equal ↦
      let slot = same r (ap (λ (k : Str). lookup k m) ((str_eq_iff q.id i).0 equal) ∙ e) in
      (
        i,
        q,
        rw (lookup-insert q.id i q m, equal) refl,
        sym slot.job ∙ at_job,
        sym slot.batch ∙ at_batch,
      )
]

-- When the listing of a dependency holds no succeeded run, none is stored.
succeeded-listed :
    (rs : List Run) (r : Run) → In r rs → r.state ≡ succeeded → has_succeeded rs ≡ true
unfolding has_succeeded
succeeded-listed [] r i e = elim i [ ]
succeeded-listed (q ∷ rs) r (inl same) e = rw (same, e) refl
succeeded-listed (q ∷ rs) r (inr i) e = elim (Bool-cases (state_eq q.state succeeded)) [
  | inl h ↦ rw h refl
  | inr h ↦ rw h (succeeded-listed rs r i e)
]

wanted : (want got : Str) → want ≢ [] → Wants want got → got ≡ want
wanted want got given (inl none_wanted) = absurd (given none_wanted)
wanted want got given (inr same) = same

first-of : (rs : List Run) → is_empty rs ≡ false → (r : Run) × In r rs
first-of [] e = cc
first-of (r ∷ rs) e = (r, inl refl)

module _ (s : MemStore) (w : IsWellFormed s) (batch : Str) where
  pub Done-listed :
      (dep : Str)
      → Done s.runs batch dep
      → has_succeeded (listed (list_runs (by_job dep batch) s)) ≡ true
  Done-listed dep (i, r, e, job, same, done) =
      let listing = (list_runs-IsListing s (by_job dep batch) w refl refl).0 in
      succeeded-listed (listed (list_runs (by_job dep batch) s)) r
        (listing.complete r (ap (λ (k : Str). lookup k s.runs) (w.runs_keyed i r e) ∙ e)
          (inr job, inr same, inl refl))
        done

  pub listed-Has :
      (job : Str)
      → job ≢ []
      → batch ≢ []
      → is_empty (listed (list_runs (by_job job batch) s)) ≡ false
      → Has s.runs job batch
  listed-Has job some_job some_batch e =
      let listing = (list_runs-IsListing s (by_job job batch) w refl refl).0 in
      let (r, i) = first-of (listed (list_runs (by_job job batch) s)) e in
      let (stored, (at_job, at_batch, any_state)) =
        All→ _ r (listed (list_runs (by_job job batch) s)) listing.sound i in
      (
        r.id,
        r,
        stored,
        wanted job r.job_id some_job at_job,
        wanted batch r.batch_id some_batch at_batch,
      )

module _ (j : Job) (batch : Str) (s : MemStore) where
  -- What a call does for the job in the batch.
  pub record Carries (pc : Pc) (next : MemStore × Pc) : Type 0 where
    pub ready :
        All (Done next.0.runs batch) j.depends_on
        → All (Done s.runs batch) j.depends_on ⊎ Owes j batch next.1
    pub has : Has s.runs j.id batch → Has next.0.runs j.id batch
    pub owes :
        All (Done s.runs batch) j.depends_on
        → Owes j batch pc
        → Owes j batch next.1 ⊎ Has next.0.runs j.id batch
    pub plain : IsPlain next.1

  -- A call that leaves the store alone.
  pub still :
      (pc pc' : Pc) (next : MemStore × Pc)
      → next ≡ (s, pc')
      → (All (Done s.runs batch) j.depends_on
          → Owes j batch pc
          → Owes j batch pc' ⊎ Has s.runs j.id batch)
      → IsPlain pc'
      → Carries pc next
  still pc pc' next e owes plain =
      subst (Carries pc) (sym e)
        (record { ready = λ h. inl h; has = λ h. h; owes = owes; plain = plain })

  -- A call that stores a run.
  pub stores :
      (q : Run) (pc pc' : Pc) (next : MemStore × Pc)
      → next ≡ ((create_run q s).0, pc')
      → ((p : Run) → lookup q.id s.runs ≡ some p → SameSlot p q)
      → (Counts batch j.depends_on q → Owes j batch pc')
      → (Owes j batch pc → Owes j batch pc' ⊎ Has (insert q.id q s.runs) j.id batch)
      → IsPlain pc'
      → Carries pc next
  unfolding create_run
  stores q pc pc' next e same counts owes plain = subst (Carries pc) (sym e) (record {
    ready = λ h. elim (All-Done q s.runs batch j.depends_on h) [
      | inl before ↦ inl before
      | inr now ↦ inr (counts now)
    ];
    has = Has-insert q s.runs j.id batch same;
    owes = λ h. owes;
    plain = plain;
  })

  -- A run that succeeded goes on to its dependents.
  pub processed-Owes : (r : Run) → Counts batch j.depends_on r → Owes j batch (processed r)
  processed-Owes r (there, at_batch, done) = rw done (at_batch, there)

  pub processed-IsPlain : (r : Run) → IsPlain (processed r)
  processed-IsPlain r = elim (Bool-cases (state_eq r.state succeeded)) [
    | inl e ↦ rw e tt
    | inr e ↦ rw e tt
  ]

  pub record_result-IsPlain :
      (i : Job) (r : Run) (e : Option Str) (t : Time) → IsPlain (record_result i r e t)
  unfolding record_result
  record_result-IsPlain i r none t = tt
  record_result-IsPlain i r (some x) t = elim (Bool-cases (ltb_ℤ (pos r.attempt) i.max_retries)) [
    | inl b ↦ rw b (λ h. cc)
    | inr b ↦ rw b tt
  ]

  pub check_deps-IsPlain :
      (r : Run) (now : Time) (i : Job) (deps : List Str) (js : List Job)
      → IsPlain (check_deps r now i deps js)
  check_deps-IsPlain r now i [] js = tt
  check_deps-IsPlain r now i (dep ∷ deps) js = tt

  pub visit_next-IsPlain : (r : Run) (now : Time) (js : List Job) → IsPlain (visit_next r now js)
  unfolding visit_next
  visit_next-IsPlain r now [] = tt
  visit_next-IsPlain r now (i ∷ js) = elim (Bool-cases (contains i.depends_on r.job_id)) [
    | inl e ↦ rw e (check_deps-IsPlain r now i i.depends_on js)
    | inr e ↦ rw e (visit_next-IsPlain r now js)
  ]
