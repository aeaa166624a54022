-- ===== src/Scheduler/Worker/Handover.antt =====
-- What later claims do with a run that `process` of internal/scheduler/worker.go has recorded, and
-- with the retry that it has scheduled.
use cronflux.Common.{
  ◌≤◌, ◌<◌, ◌≡◌, refl, All, ◌∙◌, sym, subst, ap, List, true, false, none, some, Str, str_eq,
  str_eq_iff, ℤ, pos, ltb_ℤ, Time, Duration, arith, Bool-cases, Option-cases, inl, inr, ◌⊎◌, In,
}
use cronflux.Common.Dict.{lookup, insert, lookup-insert, lookup-insert_self}
use cronflux.Job.{Job, Run}
use cronflux.Store.Memory.{MemStore, memory, stamp, create_run, claim_due, is_ready}
use cronflux.Store.Memory.Invariant.{IsWellFormed, create_run-IsWellFormed}
use cronflux.Store.Memory.Claim.Lease.{Attempt, NeverClaims}
use cronflux.Store.Memory.Claim.Settled.{settled-NeverClaims, waiting-NeverClaims}
use cronflux.Store.Memory.Claim.Taken.{claimed_runs}
use cronflux.Store.Memory.Claim.Serves.{IsCrowdedOut, claim_due-serves}
use cronflux.Scheduler.{Env, World}
use cronflux.Scheduler.Worker.{process}
use cronflux.Scheduler.Worker.Recording.{retry_run, process-success, process-retry, process-dead}

store_run : Run → MemStore → MemStore
store_run q s = record s { runs = insert q.id q s.runs }

store_run-IsWellFormed : (q : Run) (s : MemStore) → IsWellFormed s → IsWellFormed (store_run q s)
unfolding store_run create_run
store_run-IsWellFormed q s w = create_run-IsWellFormed s w q

-- A run that was stored and is ready at no time is not returned by later claims.
stored-NeverClaims :
    (q : Run) (s : MemStore) (later : List Attempt)
    → IsWellFormed s
    → ((now : Time) → is_ready now q ≡ false)
    → NeverClaims q.id later (store_run q s)
unfolding store_run
stored-NeverClaims q s later w idle =
    settled-NeverClaims q later (store_run q s) (store_run-IsWellFormed q s w) idle
      (lookup-insert_self q.id q s.runs)

-- The same with another run stored after it.
followed-NeverClaims :
    (q p : Run) (s : MemStore) (later : List Attempt)
    → IsWellFormed s
    → ((now : Time) → is_ready now q ≡ false)
    → str_eq p.id q.id ≡ false
    → NeverClaims q.id later (store_run p (store_run q s))
unfolding store_run
followed-NeverClaims q p s later w idle other =
    settled-NeverClaims q later (store_run p (store_run q s))
      (store_run-IsWellFormed p (store_run q s) (store_run-IsWellFormed q s w)) idle
      (lookup-insert p.id q.id p (insert q.id q s.runs)
        ∙ rw other (lookup-insert_self q.id q s.runs))

module _ (env : Env) (r : Run) (w : World MemStore) (j : Job) (old : Run) (v : IsWellFormed w.store)
    (has_job : lookup r.job_id w.store.jobs ≡ some j) (stored : lookup r.id w.store.runs ≡ some old)
    (fresh : lookup (env.new_id w.ids) w.store.runs ≡ none)
    (alive : (env.execute w.executions j r).parent_done ≡ false) where
  other_id : str_eq (env.new_id w.ids) r.id ≡ false
  other_id = elim (Bool-cases (str_eq (env.new_id w.ids) r.id)) [
    | inr other ↦ other
    | inl same ↦ absurd (ground (arith, stored, fresh, (str_eq_iff (env.new_id w.ids) r.id).0 same))
  ]

  -- On a well-formed store, when the worker has recorded the outcome of a stored run of a stored job,
  -- whatever it was and with a new ID for the retry, no row of later claims at any times returns that
  -- run again.
  pub process-NeverClaims :
      (later : List Attempt) → NeverClaims r.id later (process memory env r w).0.store
  unfolding store_run
  process-NeverClaims later = elim (Option-cases (env.execute w.executions j r).error) [
    | inl fine ↦
        subst (NeverClaims r.id later)
          (sym (process-success env r w j has_job old alive fine stored).0)
          (stored-NeverClaims _ w.store later v (λ now. ground arith))
    | inr (x, fails) ↦ elim (Bool-cases (ltb_ℤ (pos r.attempt) j.max_retries)) [
      | inl more ↦
          subst (NeverClaims r.id later)
            (sym (process-retry env r w j has_job old x alive fails stored more).0)
            (followed-NeverClaims _ _ w.store later v (λ now. ground arith) other_id)
      | inr last ↦
          subst (NeverClaims r.id later)
            (sym (process-dead env r w j has_job old x alive fails stored last).0)
            (stored-NeverClaims _ w.store later v (λ now. ground arith))
    ]
  ]

  -- On a well-formed store, when a stored run of a stored job failed with retries left, and the
  -- retry's ID is new: the retry is the next attempt in the same batch, due when the backoff after the
  -- end of the execution is over. A claim that is made then or later returns it, unless its limit is
  -- used up by runs that come no later than it; and no row of claims that are all made before returns
  -- it.
  pub process-retries_on_time :
      (error : Str)
      → (env.execute w.executions j r).error ≡ some error
      → ltb_ℤ (pos r.attempt) j.max_retries ≡ true
      → (now : Time) (worker : Str) (lease : Duration) (limit : ℤ) (early : List Attempt)
      → (retry_run env r w j has_job).scheduled_for ≤ now
      → All (λ (a : Attempt). a.now < (retry_run env r w j has_job).scheduled_for) early
      → let after = (process memory env r w).0.store in
        let claimed = claimed_runs (claim_due now worker lease limit after) in
        (In (stamp now worker lease (retry_run env r w j has_job)) claimed
          ⊎ IsCrowdedOut limit (retry_run env r w j has_job) claimed)
        × NeverClaims (retry_run env r w j has_job).id early after
  unfolding store_run
  process-retries_on_time error fails more now worker lease limit early due before =
      let retry = retry_run env r w j has_job in
      let recorded = (process-retry env r w j has_job old error alive fails stored more).0 in
      let found : lookup retry.id (process memory env r w).0.store.runs ≡ some retry =
        ap (λ (s : MemStore). lookup retry.id s.runs) recorded
        ∙ lookup-insert_self retry.id retry _ in
      (
        claim_due-serves now worker lease limit (process memory env r w).0.store retry found
            (inl (refl, due)),
        waiting-NeverClaims retry early (process memory env r w).0.store
            (subst IsWellFormed (sym recorded) (
              store_run-IsWellFormed retry (store_run _ w.store)
                (store_run-IsWellFormed _ w.store v)))
            refl found before,
      )
