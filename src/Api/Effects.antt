-- ===== src/Api/Effects.antt =====
-- What a request to internal/api does to the in-memory store: nothing where it is refused, and one
-- call of the store where it is accepted.
use cronflux.Common.{
  ◌≡◌, ◌≤◌, ◌<◌, refl, [], true, false, ap, Str, str_eq, Time, Result, ok, err, arith, ◌⊎◌, inl,
  inr, Bool-cases, Option-cases, Result-cases, ok_inj, sym, ◌∙◌, subst,
}
use cronflux.Common.Dict.{lookup}
use cronflux.Job.{Job, Run}
use cronflux.Store.{StoreError, not_found}
use cronflux.Store.Memory.{
  MemStore, memory, put_job, get_job, list_jobs, delete_job, get_run, list_runs,
}
use cronflux.Store.Memory.Invariant.{Call, step}
use cronflux.Scheduler.{Env, World, with_store}
use cronflux.Scheduler.Loop.{trigger}
use cronflux.Scheduler.Loop.Trigger.{triggered, trigger_missing, trigger-store}
use cronflux.Cron.Spec.{Schedule, parse}
use cronflux.Api.{
  Server, Response, Request, check_job, stamp_job, write_store_error, handle_list_jobs,
  handle_create_job, handle_get_job, handle_delete_job, handle_trigger_job, handle_list_runs,
  handle_get_run, handle_ready, respond, write_json, no_body, run, serve,
}

-- The call stores no job but those of the predicate, and makes no claim.
abbrev pub Puts : (Job → Type 0) → Call → Type 0
Puts P (Call.put j) = P j
Puts P (Call.delete id) = Unit
Puts P (Call.create r) = Unit
Puts P (Call.update r) = ⊥
Puts P (Call.claim now worker lease limit) = ⊥

-- The job is what the request posts, with the times that were set.
abbrev pub IsPosted : Request → Job → Type 0
IsPosted (Request.create_job decoded) j =
    (now : Time) × (i : Job) × (decoded ≡ ok i) × (j ≡ stamp_job now i)
IsPosted _ j = ⊥

module _ (env : Env) (server : Server) where
  -- A job with an ID and an expression that is empty or parses.
  abbrev pub IsVetted : Job → Type 0
  IsVetted j =
      (str_eq j.id [] ≡ false)
      × ((str_eq j.spec [] ≡ true) ⊎ ((s : Schedule) × (parse server.parse_duration j.spec ≡ ok s)))

  -- The calls that a request makes.
  abbrev pub IsRequested : Request → Call → Type 0
  IsRequested r = Puts (λ j. IsVetted j × IsPosted r j)

  abbrev pub HasEffect : Request → World MemStore → World MemStore × Response → Type 0
  HasEffect r w (w', answer) =
      (w'.store ≡ w.store)
      ⊎ ((answer.status < 400) × ((c : Call) × (w'.store ≡ step w.store c) × IsRequested r c))

  -- A job that passes the checks is the one that was sent, and is vetted.
  check_job-IsVetted : (i j : Job) → check_job server (ok i) ≡ ok j → (i ≡ j) × IsVetted i
  unfolding check_job
  check_job-IsVetted i j h = elim (Bool-cases (str_eq i.id [])) [
    | inl empty ↦ absurd (ground (arith, h, empty))
    | inr given ↦ elim (Bool-cases (str_eq i.spec [])) [
      | inl blank ↦ (ground (arith, h, given, blank), (given, inl blank))
      | inr written ↦ elim (Result-cases (parse server.parse_duration i.spec)) [
        | inl (s, e) ↦
            (ok_inj (sym (rw (given, written, e, check_job) refl) ∙ h), (given, inr (s, e)))
        | inr (x, e) ↦ absurd (ground (arith, h, given, written, e))
      ]
    ]
  ]

  check-IsVetted :
      (decoded : Result Str Job) (j : Job)
      → check_job server decoded ≡ ok j
      → IsVetted j × (decoded ≡ ok j)
  unfolding check_job
  check-IsVetted (err e) j h = absurd (ground (arith, h))
  check-IsVetted (ok i) j h =
      let (same, vetted) = check_job-IsVetted i j h in (subst IsVetted same vetted, ap ok same)

  create-HasEffect :
      (now : Time) (decoded : Result Str Job) (w : World MemStore)
      → HasEffect (Request.create_job decoded) w (handle_create_job memory env server now decoded w)
  unfolding handle_create_job put_job
  create-HasEffect now decoded w = elim (Result-cases (check_job server decoded)) [
    | inl (j, e) ↦
        let (vetted, posted) = check-IsVetted decoded j e in
        rw (e, handle_create_job)
          (inr (omega arith, (Call.put (stamp_job now j), refl, (vetted, (now, j, posted, refl)))))
    | inr (p, e) ↦ rw (e, handle_create_job) (inl refl)
  ]

  -- An answer that does not look at the world.
  respond-keeps :
      {A : Type 0} (r : Request) (f : StoreError → Response) (g : A → Response) (w : World MemStore)
      (p : World MemStore × Result StoreError A)
      → p.0.store ≡ w.store
      → HasEffect r w (respond f g p)
  respond-keeps r f g w (w', err e) kept = inl kept
  respond-keeps r f g w (w', ok a) kept = inl kept

  pub get_job-keeps : (id : Str) (s : MemStore) → (get_job id s).0 ≡ s
  unfolding get_job
  get_job-keeps id s = elim (Option-cases (lookup id s.jobs)) [
    | inl e ↦ rw (e, get_job) refl
    | inr (j, e) ↦ rw (e, get_job) refl
  ]

  get_run-keeps : (id : Str) (s : MemStore) → (get_run id s).0 ≡ s
  unfolding get_run
  get_run-keeps id s = elim (Option-cases (lookup id s.runs)) [
    | inl e ↦ rw (e, get_run) refl
    | inr (r, e) ↦ rw (e, get_run) refl
  ]

  delete_job-cases :
      (id : Str) (s : MemStore)
      → (delete_job id s ≡ (s, err not_found)) ⊎ (delete_job id s ≡ ((delete_job id s).0, ok tt))
  unfolding delete_job
  delete_job-cases id s = elim (Option-cases (lookup id s.jobs)) [
    | inl e ↦ inl (rw (e, delete_job) refl)
    | inr (j, e) ↦ inr (rw (e, delete_job) refl)
  ]

  delete-HasEffect :
      (id : Str) (w : World MemStore)
      → HasEffect (Request.delete_job id) w (handle_delete_job memory env server id w)
  unfolding handle_delete_job
  delete-HasEffect id w = elim (delete_job-cases id w.store) [
    | inl e ↦
        subst
          (λ p.
            HasEffect (Request.delete_job id) w
              (respond write_store_error (λ _. write_json 204 no_body) (with_store w p)))
          (sym e) (inl refl)
    | inr e ↦
        subst
          (λ p.
            HasEffect (Request.delete_job id) w
              (respond write_store_error (λ _. write_json 204 no_body) (with_store w p)))
          (sym e) (inr (omega arith, (Call.delete id, refl, tt)))
  ]

  trigger-HasEffect :
      (id : Str) (w : World MemStore)
      → HasEffect (Request.trigger_job id) w (handle_trigger_job memory env server id w)
  unfolding handle_trigger_job
  trigger-HasEffect id w = elim (Bool-cases server.has_scheduler) [
    | inr e ↦ rw (e, handle_trigger_job) (inl refl)
    | inl on ↦ elim (Option-cases (lookup id w.store.jobs)) [
      | inl e ↦
          rw (on, handle_trigger_job)
            (respond-keeps (Request.trigger_job id) _ _ w (trigger memory env id w) (
              ap (λ (p : World MemStore × Result StoreError Run). p.0.store)
                (trigger_missing env id w e)))
      | inr (j, e) ↦
          let (stored, answered) = trigger-store env id w j e in
          rw (on, handle_trigger_job)
            (subst
              (λ (x : Result StoreError Run). HasEffect (Request.trigger_job id) w (
                respond write_store_error (λ r. write_json 202 (run r))
                  ((trigger memory env id w).0, x)))
              (sym answered) (inr (omega arith, (Call.create (triggered env id w j), stored, tt))))
    ]
  ]

  pub serve-HasEffect :
      (now : Time) (r : Request) (w : World MemStore)
      → HasEffect r w (serve memory env server now r w)
  unfolding serve list_jobs list_runs handle_list_jobs handle_list_runs handle_ready handle_get_job
      handle_get_run
  serve-HasEffect now Request.list_jobs w = inl refl
  serve-HasEffect now (Request.create_job decoded) w = create-HasEffect now decoded w
  serve-HasEffect now (Request.get_job id) w =
      respond-keeps (Request.get_job id) _ _ w _ (get_job-keeps id w.store)
  serve-HasEffect now (Request.delete_job id) w = delete-HasEffect id w
  serve-HasEffect now (Request.trigger_job id) w = trigger-HasEffect id w
  serve-HasEffect now (Request.list_runs q) w = inl refl
  serve-HasEffect now (Request.get_run id) w =
      respond-keeps (Request.get_run id) _ _ w _ (get_run-keeps id w.store)
  serve-HasEffect now Request.health w = inl refl
  serve-HasEffect now Request.ready w = inl refl
  serve-HasEffect now Request.service_info w = inl refl
  serve-HasEffect now Request.unmatched w = inl refl

  -- A request that is answered with a status of 400 or more leaves the in-memory store as it was.
  pub serve-refused :
      (now : Time) (r : Request) (w : World MemStore)
      → 400 ≤ (serve memory env server now r w).1.status
      → (serve memory env server now r w).0.store ≡ w.store
  serve-refused now r w refused = elim (serve-HasEffect now r w) [
    | inl kept ↦ kept
    | inr (accepted, rest) ↦ absurd (omega (arith, refused, accepted))
  ]
