-- ===== src/Scheduler/Pool/Complete.antt =====
-- `drain` of internal/scheduler/scheduler.go forgets no dependent on the in-memory backend, in
-- whatever order its goroutines end.
use cronflux.Common.{
  ℕ, ◌<◌, ◌≡◌, ◌≢◌, ap, ◌∙◌, subst, List, [], ◌∷◌, true, false, none, some, Str, arith, Bool-cases,
  Option-cases, inl, inr, ◌⊎◌, All, ltb,
}
use cronflux.Common.Dict.{lookup}
use cronflux.Job.{Job, Run}
use cronflux.Backoff.{Floats}
use cronflux.Store.Memory.{MemStore, memory}
use cronflux.Scheduler.Pool.{
  Pc, fetching, executing, recording, retrying, locking, listing, checking, probing, creating,
  unlocking, leaving, finished, Input, advance, is_active, Pool, thread_at, set_thread, is_blocked,
  Choice, launch, go_on, launch_from, turn, run_schedule, go_on_at,
}
use cronflux.Scheduler.Pool.Threads.{
  total-at, All-at, All-snoc, set_thread-at, set_thread-others, snoc-at, All-set_thread,
}
use cronflux.Scheduler.Pool.Fits.{Fits}
use cronflux.Scheduler.Pool.Once.{IdsAreNew, IsNew, IsConsistent, turn-IsConsistent}
use cronflux.Scheduler.Pool.Progress.{is_done}
use cronflux.Scheduler.Pool.Ends.{advance-Shrinks}
use cronflux.Scheduler.Pool.FanIn.{Has, Done, Owes}
use cronflux.Scheduler.Pool.Owed.{IsPlain, Carries}
use cronflux.Scheduler.Pool.Carries.{advance-Carries}

module _ (j : Job) (batch : Str) where
  Owes-active : (pc : Pc) → Owes j batch pc → 0 < is_active pc
  Owes-active finished o = absurd o
  Owes-active (fetching r) o = omega arith
  Owes-active (executing i r) o = omega arith
  Owes-active (recording retry r) o = omega arith
  Owes-active (retrying i r) o = omega arith
  Owes-active (locking r) o = omega arith
  Owes-active (listing r now) o = omega arith
  Owes-active (checking r now i dep deps js) o = omega arith
  Owes-active (probing r now i js) o = omega arith
  Owes-active (creating r now i js) o = omega arith
  Owes-active unlocking o = omega arith
  Owes-active leaving o = omega arith

  -- Some goroutine has still to visit the job.
  abbrev pub Owing : List Pc → Type 0
  Owing ps = (n : ℕ) × (q : Pc) × (thread_at n ps ≡ some q) × Owes j batch q

  -- Once the dependencies have succeeded, the job has a run in the batch, or a goroutine will visit it.
  abbrev pub IsSettled : Pool MemStore → Type 0
  IsSettled p =
      All (Done p.store.runs batch) j.depends_on → Has p.store.runs j.id batch ⊎ Owing p.threads

  pub record IsOwed (p : Pool MemStore) : Type 0 where
    pub consistent : IsConsistent p
    pub stored : lookup j.id p.store.jobs ≡ some j
    pub plain : All IsPlain p.threads
    pub settled : IsSettled p

  module _ (floats : Floats) (workers : ℕ) where
    moved-settled :
        (n : ℕ) (a : Input) (pc : Pc) (p : Pool MemStore)
        → thread_at n p.threads ≡ some pc
        → Carries j batch p.store pc (advance memory floats a pc p.store)
        → IsSettled p
        → All (Done (advance memory floats a pc p.store).0.runs batch) j.depends_on
        → Has (advance memory floats a pc p.store).0.runs j.id batch
          ⊎ Owing (set_thread n (advance memory floats a pc p.store).1 p.threads)
    moved-settled n a pc p e c settled h =
        let pc' = (advance memory floats a pc p.store).1 in
        let mine = set_thread-at n pc pc' p.threads e in
        elim (c.ready h) [
          | inr owes ↦ inr (n, pc', mine, owes)
          | inl before ↦ elim (settled before) [
            | inl has ↦ inl (c.has has)
            | inr (k, q, at, owes) ↦ elim (set_thread-others k n q pc pc' p.threads at e) [
              | inr there ↦ inr (k, q, there, owes)
              | inl same ↦ elim (c.owes before (subst (Owes j batch) same owes)) [
                | inl still ↦ inr (n, pc', mine, still)
                | inr has ↦ inl has
              ]
            ]
          ]
        ]

    moved-IsOwed :
        (n : ℕ) (a : Input) (pc : Pc) (p : Pool MemStore)
        → j.id ≢ []
        → batch ≢ []
        → lookup a.id p.store.runs ≡ none
        → thread_at n p.threads ≡ some pc
        → IsOwed p
        → IsConsistent (go_on_at memory floats workers n a (some pc) p)
        → is_blocked p.locked pc ≡ false
        → IsOwed (go_on_at memory floats workers n a (some pc) p)
    moved-IsOwed n a pc p some_job some_batch fresh e h consistent free =
        let fits = All-at (Fits p.store.runs) pc n p.threads h.consistent.fits e in
        let plain = All-at IsPlain pc n p.threads h.plain e in
        let c =
          advance-Carries floats a p.store h.consistent.well_formed j batch h.stored some_job
            some_batch pc fresh fits plain in
        let next = advance memory floats a pc p.store in
        rw free (record {
          consistent = rw free at consistent;
          stored = ap (λ m. lookup j.id m) (advance-Shrinks floats a p.store pc).jobs ∙ h.stored;
          plain = All-set_thread IsPlain n next.1 p.threads h.plain c.plain;
          settled = moved-settled n a pc p e c h.settled;
        })

    launch-IsOwed :
        (rs : List Run) (p : Pool MemStore)
        → IsOwed p
        → IsConsistent (launch_from memory floats workers rs p)
        → IsOwed (launch_from memory floats workers rs p)
    launch-IsOwed [] p h c = h
    launch-IsOwed (r ∷ rs) p h c = record {
      consistent = c;
      stored = h.stored;
      plain = All-snoc IsPlain (fetching r) p.threads h.plain tt;
      settled = λ d. elim (h.settled d) [
        | inl has ↦ inl has
        | inr (k, q, at, owes) ↦ inr (k, q, snoc-at k q (fetching r) p.threads at, owes)
      ];
    }

    turn-IsOwed :
        (t : Choice) (p : Pool MemStore)
        → j.id ≢ []
        → batch ≢ []
        → IsNew p.store t
        → IsOwed p
        → IsOwed (turn memory floats workers t p)
    unfolding turn
    turn-IsOwed launch p some_job some_batch new h =
        let c = turn-IsConsistent floats workers launch p new h.consistent in
        elim (Bool-cases (ltb p.slots workers)) [
          | inr full ↦ rw (full, turn) h
          | inl free ↦ rw (free, turn) (launch-IsOwed p.waiting p h (rw (free, turn) at c))
        ]
    turn-IsOwed (go_on n a) p some_job some_batch new h =
        let c = turn-IsConsistent floats workers (go_on n a) p new h.consistent in
        elim (Option-cases (thread_at n p.threads)) [
          | inl e ↦ rw (e, turn) h
          | inr (pc, e) ↦ elim (Bool-cases (is_blocked p.locked pc)) [
            | inl b ↦ rw (e, b, turn) h
            | inr b ↦
                rw (e, turn)
                  (moved-IsOwed n a pc p some_job some_batch new e h (rw (e, turn) at c) b)
          ]
        ]

    pub run_schedule-IsOwed :
        (cs : List Choice) (p : Pool MemStore)
        → j.id ≢ []
        → batch ≢ []
        → IdsAreNew floats workers cs p
        → IsOwed p
        → IsOwed (run_schedule memory floats workers cs p)
    unfolding run_schedule
    run_schedule-IsOwed [] p some_job some_batch new h = h
    run_schedule-IsOwed (t ∷ cs) p some_job some_batch new h =
        run_schedule-IsOwed cs (turn memory floats workers t p) some_job some_batch new.1
          (turn-IsOwed t p some_job some_batch new.0 h)

  -- When every goroutine has ended, none has a job to visit.
  pub is_done-Has :
      (p : Pool MemStore)
      → is_done p ≡ true
      → IsOwed p
      → All (Done p.store.runs batch) j.depends_on
      → Has p.store.runs j.id batch
  is_done-Has p ended h d = elim (h.settled d) [
    | inl has ↦ has
    | inr (k, q, at, owes) ↦
        absurd (ground (arith, ended, Owes-active q owes, total-at is_active q k p.threads at))
  ]
