-- ===== src/Scheduler/Worker/Retries.antt =====
-- How often `process` of internal/scheduler/worker.go tries a run again.
use cronflux.Common.{
  ℕ, ◌+◌, ◌≤◌, ◌≡◌, sym, ap, ◌∙◌, true, some, Str, str_eq, subst, ℤ, pos, pos_part, neg_part, ltb_ℤ,
  arith, Bool-cases, Option-cases, inl, inr, ◌⊎◌,
}
use cronflux.Common.Dict.{lookup, insert, lookup-insert}
use cronflux.Job.{Job, Run}
use cronflux.Store.Memory.{MemStore, memory}
use cronflux.Scheduler.{Env, World}
use cronflux.Scheduler.Worker.{process}
use cronflux.Scheduler.Worker.Recording.{
  process-job_missing, process_shutdown, process-success, process-retry, process-dead,
}

-- The first attempt, or a retry that the job still grants.
abbrev pub IsGranted : ℤ → ℕ → Type 0
IsGranted max_retries attempt =
    (attempt ≡ 0) ⊎ (attempt + neg_part max_retries ≤ pos_part max_retries)

-- Every stored run of a stored job is within the job's retries.
abbrev pub IsWithinRetries : MemStore → Type 0
IsWithinRetries s =
    (id : Str) (r : Run) (j : Job)
    → lookup id s.runs ≡ some r
    → lookup r.job_id s.jobs ≡ some j
    → IsGranted j.max_retries r.attempt

-- Storing a run that is granted keeps the others so.
pub insert-IsWithinRetries :
    (s : MemStore) (k : Str) (q : Run)
    → IsWithinRetries s
    → ((j : Job) → lookup q.job_id s.jobs ≡ some j → IsGranted j.max_retries q.attempt)
    → IsWithinRetries (record s { runs = insert k q s.runs })
insert-IsWithinRetries s k q h g id r j e f = elim (Bool-cases (str_eq k id)) [
  | inl same ↦
      let is_q : q ≡ r = ground (arith, lookup-insert k id q s.runs) in
      subst (λ (p : Run). IsGranted j.max_retries p.attempt) is_q
        (g j (ap (λ (p : Run). lookup p.job_id s.jobs) is_q ∙ f))
  | inr other ↦ h id r j (ground (arith, lookup-insert k id q s.runs)) f
]

module _ (env : Env) (r : Run) (w : World MemStore) (old : Run)
    (stored : lookup r.id w.store.runs ≡ some old) (same_job : old.job_id ≡ r.job_id)
    (same_attempt : old.attempt ≡ r.attempt) (h : IsWithinRetries w.store) where
  granted : (j : Job) → lookup r.job_id w.store.jobs ≡ some j → IsGranted j.max_retries r.attempt
  granted j e =
      subst (λ (n : ℕ). IsGranted j.max_retries n) same_attempt
        (h r.id old j stored (ap (λ (k : Str). lookup k w.store.jobs) same_job ∙ e))

  next-IsGranted :
      (j : Job)
      → lookup r.job_id w.store.jobs ≡ some j
      → ltb_ℤ (pos r.attempt) j.max_retries ≡ true
      → (i : Job) → lookup r.job_id w.store.jobs ≡ some i
      → IsGranted i.max_retries (r.attempt + 1)
  next-IsGranted j e more i f = ground arith

  with_job :
      (j : Job)
      → lookup r.job_id w.store.jobs ≡ some j
      → IsWithinRetries (process memory env r w).0.store
  with_job j e = elim (Bool-cases (env.execute w.executions j r).parent_done) [
    | inl down ↦ subst IsWithinRetries (sym (process_shutdown env r w j e down).0) h
    | inr alive ↦ elim (Option-cases (env.execute w.executions j r).error) [
      | inl fine ↦
          subst IsWithinRetries (sym (process-success env r w j e old alive fine stored).0)
            (insert-IsWithinRetries w.store r.id _ h granted)
      | inr (x, fails) ↦ elim (Bool-cases (ltb_ℤ (pos r.attempt) j.max_retries)) [
        | inl more ↦
            subst IsWithinRetries (sym (process-retry env r w j e old x alive fails stored more).0)
              (insert-IsWithinRetries (record w.store { runs = insert r.id _ w.store.runs }) _ _
                (insert-IsWithinRetries w.store r.id _ h granted) (next-IsGranted j e more))
        | inr last ↦
            subst IsWithinRetries (sym (process-dead env r w j e old x alive fails stored last).0)
              (insert-IsWithinRetries w.store r.id _ h granted)
      ]
    ]
  ]

  -- Whatever the execution does, no run is stored for a job beyond the retries that the job grants,
  -- if there was none before and the worker holds a run that the store knows under the same job and
  -- attempt.
  pub process-IsWithinRetries : IsWithinRetries (process memory env r w).0.store
  process-IsWithinRetries = elim (Option-cases (lookup r.job_id w.store.jobs)) [
    | inl e ↦ rw (process-job_missing env r w e) h
    | inr (j, e) ↦ with_job j e
  ]
