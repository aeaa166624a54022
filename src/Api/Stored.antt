-- ===== src/Api/Stored.antt =====
-- What holds of every job that internal/api lets into the in-memory store.
use cronflux.Common.{
  ◌≡◌, Option, none, some, ap, Str, str_eq, Time, arith, inl, inr, Bool-cases, Option-cases, subst,
}
use cronflux.Common.Dict.{lookup, erase, IsMap, lookup-insert, lookup-erase}
use cronflux.Job.{Job, clone}
use cronflux.Store.Memory.{MemStore, memory, put_job, delete_job, create_run}
use cronflux.Store.Memory.Invariant.{Call, step, IsWellFormed, step-IsWellFormed}
use cronflux.Scheduler.{Env, World}
use cronflux.Api.{Server, Request, serve}
use cronflux.Api.Effects.{Puts, IsVetted, IsPosted, serve-HasEffect}

Puts-map : (P Q : Job → Type 0) (c : Call) → ((j : Job) → P j → Q j) → Puts P c → Puts Q c
Puts-map P Q (Call.put j) f h = f j h
Puts-map P Q (Call.delete id) f h = tt
Puts-map P Q (Call.create r) f h = tt
Puts-map P Q (Call.update r) f h = h
Puts-map P Q (Call.claim now worker lease limit) f h = h

-- Every stored job has the property.
abbrev pub AllJobs : (Job → Type 0) → MemStore → Type 0
AllJobs P s = (k : Str) (j : Job) → lookup k s.jobs ≡ some j → P j

module _ (env : Env) (server : Server) where
  -- The store holds vetted jobs only.
  abbrev pub AllVetted : MemStore → Type 0
  AllVetted = AllJobs (IsVetted env server)

  ok_some : {a b : Job} → Path (Option Job) (some a) (some b) → a ≡ b
  ok_some {a} e = ap (λ (x : Option Job). elim x [ some y ↦ y | none ↦ a ]) e

  -- A job that is left after a deletion was there before.
  delete_job-lookup :
      (id : Str) (s : MemStore) (k : Str) (j : Job)
      → IsMap s.jobs
      → lookup k (delete_job id s).0.jobs ≡ some j
      → lookup k s.jobs ≡ some j
  unfolding delete_job
  delete_job-lookup id s k j once e = elim (Option-cases (lookup id s.jobs)) [
    | inl missing ↦ rw (missing, delete_job) at e
    | inr (i, found) ↦
        let left : lookup k (erase id s.jobs) ≡ some j = rw (found, delete_job) at e in
        ground (arith, left, lookup-erase id k s.jobs once)
  ]

  pub step-AllJobs :
      (P : Job → Type 0) (s : MemStore) (c : Call)
      → Puts P c
      → IsWellFormed s
      → AllJobs P s
      → AllJobs P (step s c)
  unfolding put_job delete_job create_run clone
  step-AllJobs P s (Call.put i) p v h k j e = elim (Bool-cases (str_eq i.id k)) [
    | inl same ↦
        subst P {x = i} {y = j} (ok_some (ground (arith, lookup-insert i.id k (clone i) s.jobs))) p
    | inr other ↦ h k j (ground (arith, lookup-insert i.id k (clone i) s.jobs))
  ]
  step-AllJobs P s (Call.delete id) p v h k j e = h k j (delete_job-lookup id s k j v.jobs_once e)
  step-AllJobs P s (Call.create r) p v h k j e = h k j e
  step-AllJobs P s (Call.update r) p v h k j e = elim p [ ]
  step-AllJobs P s (Call.claim now worker lease limit) p v h k j e = elim p [ ]

  -- A request keeps what holds of every stored job and of the job that it posts.
  pub serve-AllJobs :
      (P : Job → Type 0) (now : Time) (r : Request) (w : World MemStore)
      → ((j : Job) → IsVetted env server j → IsPosted r j → P j)
      → IsWellFormed w.store
      → AllJobs P w.store
      → IsWellFormed (serve memory env server now r w).0.store
        × AllJobs P (serve memory env server now r w).0.store
  serve-AllJobs P now r w posted v h = elim (serve-HasEffect env server now r w) [
    | inl kept ↦ rw kept (v, h)
    | inr (accepted, (c, made, requested)) ↦
        let p =
          Puts-map (λ j. IsVetted env server j × IsPosted r j) P c (λ j q. posted j q.0 q.1)
            requested in
        rw made (step-IsWellFormed w.store c v, step-AllJobs P w.store c p v h)
  ]

  pub serve-AllVetted :
      (now : Time) (r : Request) (w : World MemStore)
      → IsWellFormed w.store
      → AllVetted w.store
      → IsWellFormed (serve memory env server now r w).0.store
        × AllVetted (serve memory env server now r w).0.store
  serve-AllVetted now r w v h =
      serve-AllJobs (IsVetted env server) now r w (λ j vetted posted. vetted) v h
