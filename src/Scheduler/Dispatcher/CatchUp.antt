-- ===== src/Scheduler/Dispatcher/CatchUp.antt =====
-- The catch-up loop of `dispatch` in internal/scheduler/dispatcher.go over the in-memory backend:
-- where it ends, and where it does not.
use cronflux.Common.{
  ℕ, zero, suc, ◌+◌, ◌≤◌, ◌<◌, ◌≡◌, refl, ap, [], true, false, ◌⊎◌, Option, none, some, str_eq,
  Time, Result, ok, arith, leb, le→leb, inl, inr, ◌∙◌,
}
use cronflux.Common.Dict.{lookup, insert, lookup-insert_self}
use cronflux.Job.{Job}
use cronflux.Store.{StoreError}
use cronflux.Store.Memory.{MemStore, memory}
use cronflux.Store.Memory.Invariant.{IsWellFormed}
use cronflux.Scheduler.{Env, Schedule, World}
use cronflux.Scheduler.Dispatcher.{catch_up, enqueue_root, fire, schedule, visit, visit_scheduled}
use cronflux.Scheduler.Dispatcher.Roots.{enqueue_root-ok}

lt→leb-false : (a b : ℕ) → a < b → leb b a ≡ false
lt→leb-false a b h = ground arith

le-or-lt : (a b : ℕ) → (a ≤ b) ⊎ (b < a)
le-or-lt a b = grind arith

module _ (env : Env) (sched : Schedule) (j : Job) (now : Time) where
  catch_up_step :
      (fuel : ℕ) (next : Time) (created : ℕ) (w u : World MemStore)
      → next ≤ now
      → enqueue_root memory env j next w ≡ (u, ok tt)
      → catch_up memory env (suc fuel) sched j now next created w
        ≡ catch_up memory env fuel sched j now (sched next) (created + 1) u
  unfolding catch_up
  catch_up_step fuel next created w u le e =
      rw (le→leb next now le, catch_up, e)
        (ap
          (λ (p : World MemStore × Result StoreError (Unit {0})).
            catch_up memory env fuel sched j now (sched next) (created + 1) p.0)
          e)

  -- If each fire comes after the one before it, the loop ends on a well-formed store, within as many
  -- rounds as the time to make up for, and stops at a fire in the future. The store stays well formed.
  pub catch_up_total :
      (fuel : ℕ) (next : Time) (created : ℕ) (w : World MemStore)
      → IsWellFormed w.store
      → ((t : Time) → t < sched t)
      → now < next + fuel
      → (u : World MemStore) × (count : ℕ) × (after : Time) × (catch_up memory env
            (suc fuel)
            sched
            j
            now
            next
            created
            w
          ≡ some (u, ok (count, after)))
        × (now < after)
        × IsWellFormed u.store
  unfolding catch_up
  catch_up_total zero next created w v grows enough =
      (w, created, next, rw (lt→leb-false now next (omega arith), catch_up) refl, omega arith, v)
  catch_up_total (suc fuel) next created w v grows enough = elim (le-or-lt next now) [
    | inr future ↦ (w, created, next, rw (lt→leb-false now next future, catch_up) refl, future, v)
    | inl le ↦
        let (u, e, v') = enqueue_root-ok env j next w v in
        let (last, count, after, f, gt, v'') =
          catch_up_total fuel (sched next) (created + 1) u v' grows (omega (arith, grows next)) in
        (last, count, after, catch_up_step (suc fuel) next created w u le e ∙ f, gt, v'')
  ]

  -- If the schedule answers a fire that is not after `now` with the same fire, the loop never ends on a
  -- well-formed store, whatever the fuel.
  pub catch_up_diverges :
      (fuel : ℕ) (next : Time) (created : ℕ) (w : World MemStore)
      → IsWellFormed w.store
      → sched next ≡ next
      → next ≤ now
      → catch_up memory env fuel sched j now next created w ≡ none
  unfolding catch_up
  catch_up_diverges zero next created w v same le = refl
  catch_up_diverges (suc fuel) next created w v same le =
      let (u, e, v') = enqueue_root-ok env j next w v in
      catch_up_step fuel next created w u le e
      ∙ rw same (catch_up_diverges fuel next (created + 1) u v' same le)

module _ (env : Env) (j : Job) where
  schedule_parses :
      (sched : Schedule) (w : World MemStore)
      → lookup j.id w.parsed ≡ none
      → env.parse j.spec ≡ some sched
      → schedule memory env j w ≡ (record w { parsed = insert j.id sched w.parsed }, some sched)
  unfolding schedule
  schedule_parses sched w e p = rw (e, p, schedule) refl

  schedule_cached :
      (sched : Schedule) (w : World MemStore)
      → lookup j.id w.parsed ≡ some sched
      → schedule memory env j w ≡ (w, some sched)
  unfolding schedule
  schedule_cached sched w e = rw (e, schedule) refl

  visit-scheduled :
      (fuel : ℕ) (now : Time) (created : ℕ) (w : World MemStore)
      → j.enabled ≡ true
      → str_eq j.spec [] ≡ false
      → visit memory env fuel now j created w
        ≡ visit_scheduled memory env fuel now j created (schedule memory env j w)
  unfolding visit
  visit-scheduled fuel now created w on spec = rw (on, spec) refl

  scheduled-fire :
      (fuel : ℕ) (sched : Schedule) (now : Time) (created : ℕ) (u : World MemStore)
      → visit_scheduled memory env fuel now j created (u, some sched)
        ≡ fire memory env fuel sched j now created u
  unfolding visit_scheduled
  scheduled-fire fuel sched now created u = refl

  visit-fire :
      (fuel : ℕ) (sched : Schedule) (now : Time) (created : ℕ) (w u : World MemStore)
      → j.enabled ≡ true
      → str_eq j.spec [] ≡ false
      → schedule memory env j w ≡ (u, some sched)
      → visit memory env fuel now j created w ≡ fire memory env fuel sched j now created u
  visit-fire fuel sched now created w u on spec e =
      visit-scheduled fuel now created w on spec
      ∙ ap (visit_scheduled memory env fuel now j created) e
      ∙ scheduled-fire fuel sched now created u

  fire-first :
      (fuel : ℕ) (sched : Schedule) (now : Time) (created : ℕ) (w : World MemStore)
      → lookup j.id w.next_fire ≡ none
      → fire memory env fuel sched j now created w
        ≡ some (record w { next_fire = insert j.id (sched now) w.next_fire }, ok created)
  unfolding fire
  fire-first fuel sched now created w e = rw (e, fire) refl

  fire_stuck :
      (fuel : ℕ) (sched : Schedule) (now next : Time) (created : ℕ) (w : World MemStore)
      → lookup j.id w.next_fire ≡ some next
      → catch_up memory env fuel sched j now next created w ≡ none
      → fire memory env fuel sched j now created w ≡ none
  unfolding fire
  fire_stuck fuel sched now next created w e c = rw (e, fire, c) refl

module _ (env : Env) (sched : Schedule) (j : Job) (first later : Time) (w : World MemStore) where
  abbrev pub cached : World MemStore
  cached = record w { parsed = insert j.id sched w.parsed; next_fire = insert j.id 0 w.next_fire }

  -- An enabled job whose schedule never fires again (its `Next` answers the zero time, and answers the
  -- zero time with itself) is visited once, which caches the schedule and the zero time as its next
  -- fire. The next visit of the job, at any time, never ends, whatever the fuel.
  pub visit_hangs :
      (fuel fuel' created : ℕ)
      → IsWellFormed w.store
      → j.enabled ≡ true
      → str_eq j.spec [] ≡ false
      → lookup j.id w.parsed ≡ none
      → lookup j.id w.next_fire ≡ none
      → env.parse j.spec ≡ some sched
      → sched first ≡ 0
      → sched 0 ≡ 0
      → (visit memory env fuel' first j created w ≡ some (cached, ok created))
        × (visit memory env fuel later j created cached ≡ none)
  visit_hangs fuel fuel' created v on spec unparsed unseen parses never zero_next =
      let parsed : World MemStore = record w { parsed = insert j.id sched w.parsed } in
      let seen : Time → Option (World MemStore × Result StoreError ℕ) =
        λ t. some (record parsed { next_fire = insert j.id t w.next_fire }, ok created) in
      (
        visit-fire env j fuel' sched first created w parsed on spec
              (schedule_parses env j sched w unparsed parses)
            ∙ fire-first env j fuel' sched first created parsed unseen
            ∙ ap seen never,
        visit-fire env j fuel sched later created cached cached on spec
              (schedule_cached env j sched cached (lookup-insert_self j.id sched w.parsed))
            ∙ fire_stuck env j fuel sched later 0 created cached
                (lookup-insert_self j.id 0 w.next_fire)
                (catch_up_diverges env sched j later fuel 0 created cached v zero_next
                  (omega arith)),
      )
