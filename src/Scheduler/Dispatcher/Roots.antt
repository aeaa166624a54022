-- ===== src/Scheduler/Dispatcher/Roots.antt =====
-- `enqueueRoot` of internal/scheduler/dispatcher.go over the in-memory backend.
use cronflux.Common.{
  ◌+◌, ◌≡◌, refl, ap, ◌∙◌, [], ◌∷◌, List, true, false, some, str_eq_refl, Time, ok, arith,
  Bool-cases, inl, inr, ◌==◌, In,
}
use cronflux.Common.Dict.{lookup, insert, lookup-insert}
use cronflux.Job.{Job, Run, new_run}
use cronflux.Store.Memory.{MemStore, memory, list_runs, create_run}
use cronflux.Store.Memory.Invariant.{IsWellFormed, create_run-IsWellFormed}
use cronflux.Store.Memory.Listing.{listed, list_runs-IsListing}
use cronflux.Scheduler.{Env, World}
use cronflux.Scheduler.Dispatcher.{by_job, has_slot, enqueue_root}

has_slot-In :
    (t : Time) (r : Run) (rs : List Run) → In r rs → r.scheduled_for ≡ t → has_slot t rs ≡ true
has_slot-In t r [] i e = elim i [ ]
has_slot-In t r (q ∷ rs) (inl h) e = rw (ap (λ (p : Run). p.scheduled_for == t) h) (ground arith)
has_slot-In t r (q ∷ rs) (inr i) e = ground (arith, has_slot-In t r rs i e)

-- The runs that `enqueueRoot` looks at.
abbrev slot_runs : Job → World MemStore → List Run
slot_runs j w = listed (list_runs (by_job j.id []) w.store)

-- A stored run of the job for this slot is found.
pub slot_taken :
    (j : Job) (t : Time) (w : World MemStore) (r : Run)
    → IsWellFormed w.store
    → lookup r.id w.store.runs ≡ some r
    → r.job_id ≡ j.id
    → r.scheduled_for ≡ t
    → has_slot t (slot_runs j w) ≡ true
slot_taken j t w r v stored same slot =
    has_slot-In t r (slot_runs j w)
      ((list_runs-IsListing w.store (by_job j.id []) v refl refl).0.complete r stored
        (inr same, inl refl, inl refl))
      slot

module _ (env : Env) (j : Job) (t : Time) (w : World MemStore) where
  pub enqueue_root-taken :
      has_slot t (slot_runs j w) ≡ true → enqueue_root memory env j t w ≡ (w, ok tt)
  unfolding enqueue_root list_runs
  enqueue_root-taken h = rw (h, enqueue_root) refl

  abbrev root_run : Run
  root_run = new_run (env.new_id w.ids) j.id (env.new_id (w.ids + 1)) 0 t t

  pub enqueue_root-free :
      has_slot t (slot_runs j w) ≡ false
      → enqueue_root memory env j t w ≡ (
        record w {
          store = record w.store { runs = insert (env.new_id w.ids) root_run w.store.runs };
          ids = w.ids + 1 + 1;
        },
        ok tt,
      )
  unfolding enqueue_root list_runs create_run
  enqueue_root-free h = rw (h, enqueue_root) refl

module _ (env : Env) (j : Job) (t : Time) (w : World MemStore) (v : IsWellFormed w.store) where
  -- A run for the job and the slot is stored.
  abbrev pub HasSlot : World MemStore → Type 0
  HasSlot u =
      (r : Run) × (lookup r.id u.store.runs ≡ some r) × (r.job_id ≡ j.id) × (r.scheduled_for ≡ t)

  abbrev freed : World MemStore
  freed = record w { store = (create_run (root_run env j t w) w.store).0; ids = w.ids + 1 + 1 }

  freed-IsWellFormed : IsWellFormed freed.store
  freed-IsWellFormed = create_run-IsWellFormed w.store v (root_run env j t w)

  freed-stored : lookup (env.new_id w.ids) freed.store.runs ≡ some (root_run env j t w)
  unfolding create_run
  freed-stored =
      lookup-insert (env.new_id w.ids) (env.new_id w.ids) (root_run env j t w) w.store.runs
      ∙ rw (str_eq_refl (env.new_id w.ids)) refl

  -- The call on a free slot.
  enqueue_root-freed :
      has_slot t (slot_runs j w) ≡ false → enqueue_root memory env j t w ≡ (freed, ok tt)
  unfolding create_run
  enqueue_root-freed h = enqueue_root-free env j t w h

  -- It never fails, and it keeps the backend well formed.
  pub enqueue_root-ok :
      (u : World MemStore) × (enqueue_root memory env j t w ≡ (u, ok tt)) × IsWellFormed u.store
  enqueue_root-ok = elim (Bool-cases (has_slot t (slot_runs j w))) [
    | inl h ↦ (w, enqueue_root-taken env j t w h, v)
    | inr h ↦ (freed, enqueue_root-freed h, freed-IsWellFormed)
  ]

  -- On a well-formed store, materializing a fire twice is materializing it once: the second call finds the run of the first
  -- and changes nothing.
  pub enqueue_root_idem :
      enqueue_root memory env j t (enqueue_root memory env j t w).0 ≡ enqueue_root memory env j t w
  enqueue_root_idem = elim (Bool-cases (has_slot t (slot_runs j w))) [
    | inl h ↦ rw (enqueue_root-taken env j t w h) (enqueue_root-taken env j t w h)
    | inr h ↦ rw (enqueue_root-freed h) (
        enqueue_root-taken env j t freed
          (slot_taken j t freed (root_run env j t w) freed-IsWellFormed freed-stored refl refl))
  ]
