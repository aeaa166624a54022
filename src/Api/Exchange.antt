-- ===== src/Api/Exchange.antt =====
-- What a client of internal/api reads back of the jobs that it sent, over the in-memory store.
use cronflux.Common.{
  ◌≡◌, refl, ap, sym, ◌∙◌, false, Option, none, some, Str, codes, str_eq, Time, Result, ok, err,
  inl, inr, Option-cases,
}
use cronflux.Common.Dict.{lookup, insert, lookup-insert, lookup-insert_self}
use cronflux.Job.{Job, clone}
use cronflux.Store.{StoreError, not_found}
use cronflux.Store.Memory.{MemStore, memory, put_job, get_job}
use cronflux.Scheduler.{Env, World, with_store}
use cronflux.Api.{
  Server, Response, Request, job, stamp_job, write_json, write_store_error, write_error, text,
  check_job, respond, handle_create_job, handle_get_job, serve,
}

module _ (env : Env) (server : Server) where
  -- What `GET /api/jobs/{id}` answers.
  abbrev pub shown : Str → World MemStore → Response
  shown id w = (handle_get_job memory env server id w).1

  abbrev found_or_not : Option Job → Response
  found_or_not none = write_error 404 (text (codes "not found"))
  found_or_not (some j) = write_json 200 (job j)

  abbrev got : Option Job → MemStore → MemStore × Result StoreError Job
  got none s = (s, err not_found)
  got (some j) s = (s, ok j)

  get_job-lookup : (id : Str) (s : MemStore) → get_job id s ≡ got (lookup id s.jobs) s
  unfolding get_job clone
  get_job-lookup id s = elim (Option-cases (lookup id s.jobs)) [
    | inl e ↦ rw (e, get_job) refl
    | inr (j, e) ↦ rw (e, get_job) refl
  ]

  shown-got :
      (found : Option Job) (w : World MemStore)
      → (respond write_store_error
          (λ j. write_json 200 (job j))
          (with_store w (got found w.store))).1
        ≡ found_or_not found
  unfolding write_store_error
  shown-got none w = refl
  shown-got (some j) w = refl

  shown-lookup :
      (id : Str) (w : World MemStore) → shown id w ≡ found_or_not (lookup id w.store.jobs)
  unfolding handle_get_job
  shown-lookup id w =
      ap
        (λ (p : MemStore × Result StoreError Job).
          (respond write_store_error (λ j. write_json 200 (job j)) (with_store w p)).1)
        (get_job-lookup id w.store)
      ∙ shown-got (lookup id w.store.jobs) w

  -- A job that POST /api/jobs accepts is answered with 201 and the times that were set, and GET
  -- then answers with that same job; any other ID is answered as before.
  pub create_job-get_job :
      (now : Time) (decoded : Result Str Job) (j : Job) (k : Str) (w : World MemStore)
      → check_job server decoded ≡ ok j
      → str_eq j.id k ≡ false
      → let (w', answer) = serve memory env server now (Request.create_job decoded) w in
        (answer ≡ write_json 201 (job (stamp_job now j)))
        × (shown j.id w' ≡ write_json 200 (job (stamp_job now j)))
        × (shown k w' ≡ shown k w)
  unfolding serve handle_create_job put_job clone
  create_job-get_job now decoded j k w accepted other =
      let w' = (handle_create_job memory env server now decoded w).0 in
      let stored : w'.store.jobs ≡ insert j.id (stamp_job now j) w.store.jobs =
        rw (accepted, handle_create_job) refl in
      (
        rw (accepted, handle_create_job) refl,
        shown-lookup j.id w'
            ∙ ap found_or_not
                (ap (lookup j.id) stored ∙ lookup-insert_self j.id (stamp_job now j) w.store.jobs),
        shown-lookup k w'
            ∙ ap found_or_not (
                ap (lookup k) stored
                ∙ (rw (lookup-insert j.id k (stamp_job now j) w.store.jobs, other) refl))
            ∙ sym (shown-lookup k w),
      )
