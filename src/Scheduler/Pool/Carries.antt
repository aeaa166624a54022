-- ===== src/Scheduler/Pool/Carries.antt =====
-- The calls of a goroutine of `drain` on the in-memory backend, case by case: none loses a dependent.
use cronflux.Common.{
  ◌≡◌, ◌≢◌, refl, ap, subst, List, [], false, Option, none, some, Str, Time, arith, Bool-cases,
  Option-cases, inl, inr, All→,
}
use cronflux.Common.Dict.{lookup, lookup-insert_self}
use cronflux.Job.{Job, Run, new_run, clone, pending}
use cronflux.Backoff.{Floats}
use cronflux.Store.Memory.{MemStore, memory, get_job, list_jobs, list_runs, create_run, update_run}
use cronflux.Store.Memory.Invariant.{IsWellFormed}
use cronflux.Store.Memory.Listing.{listed}
use cronflux.Store.Memory.Inventory.{list_jobs-IsInventory}
use cronflux.Scheduler.Dispatcher.{by_job, has_succeeded, is_empty}
use cronflux.Scheduler.Pool.{
  Pc, fetching, executing, recording, retrying, locking, listing, checking, probing, creating,
  unlocking, leaving, finished, Input, processed, record_result, retry_run, check_deps, visit_next,
  advance,
}
use cronflux.Scheduler.Pool.Slots.{SameSlot, Known}
use cronflux.Scheduler.Pool.Fits.{Fits}
use cronflux.Scheduler.Pool.FanIn.{Done, Counts, check_deps-Owes, visit_next-Owes}
use cronflux.Scheduler.Pool.Owed.{
  IsPlain, Carries, still, stores, processed-Owes, processed-IsPlain, record_result-IsPlain,
  check_deps-IsPlain, visit_next-IsPlain, Done-listed, listed-Has,
}

is_pending : (q : Run) (batch : Str) (deps : List Str) → q.state ≡ pending → ¬ Counts batch deps q
is_pending q batch deps e (there, same, done) = ground (arith, e, done)

module _ (floats : Floats) (a : Input) (s : MemStore) (w : IsWellFormed s) (j : Job) (batch : Str)
    (stored : lookup j.id s.jobs ≡ some j) (some_job : j.id ≢ []) (some_batch : batch ≢ []) where
  abbrev go : Pc → MemStore × Pc
  go pc = advance memory floats a pc s

  abbrev Carried : Pc → Type 0
  Carried pc = Carries j batch s pc (go pc)

  fetching-Carries : (r : Run) → Carried (fetching r)
  unfolding advance get_job
  fetching-Carries r = elim (Option-cases (lookup r.job_id s.jobs)) [
    | inl e ↦
        still j batch s (fetching r) leaving _ (rw (e, advance, get_job) refl) (λ h o. absurd o) tt
    | inr (i, e) ↦
        still j batch s (fetching r) (executing (clone i) r) _ (rw (e, advance, get_job) refl)
          (λ h o. absurd o) tt
  ]

  executing-Carries : (i : Job) (r : Run) → Carried (executing i r)
  unfolding advance
  executing-Carries i r = elim (Bool-cases a.outcome.parent_done) [
    | inl e ↦
        still j batch s (executing i r) (processed r) _ (rw (e, advance) refl) (λ h o. absurd o)
          (processed-IsPlain j batch s r)
    | inr e ↦
        still j batch s (executing i r) (record_result i r a.outcome.error a.time) _
          (rw (e, advance) refl) (λ h o. absurd o)
          (record_result-IsPlain j batch s i r a.outcome.error a.time)
  ]

  recording-Carries :
      (retry : Option Job) (r : Run)
      → Known s.runs r
      → IsPlain (recording retry r)
      → Carried (recording retry r)
  unfolding advance update_run create_run
  recording-Carries none r (p, e, slot) plain =
      stores j batch s r (recording none r) (processed r) _
        (rw (e, advance, update_run, create_run) refl)
        (λ q f. subst (λ (x : Run). SameSlot x r) (ground (arith, e, f)) slot)
        (processed-Owes j batch s r) (λ o. absurd o) (processed-IsPlain j batch s r)
  recording-Carries (some i) r (p, e, slot) plain =
      stores j batch s r (recording (some i) r) (retrying i r) _
        (rw (e, advance, update_run, create_run) refl)
        (λ q f. subst (λ (x : Run). SameSlot x r) (ground (arith, e, f)) slot)
        (λ c. absurd (plain c.2)) (λ o. absurd o) tt

  retrying-Carries : (i : Job) (r : Run) → lookup a.id s.runs ≡ none → Carried (retrying i r)
  unfolding advance create_run retry_run
  retrying-Carries i r fresh =
      let q = retry_run floats a i r in
      stores j batch s q (retrying i r) (processed r) _ refl
        (λ p f. absurd (ground (arith, f, fresh)))
        (λ c. absurd (is_pending q batch j.depends_on refl c)) (λ o. absurd o)
        (processed-IsPlain j batch s r)

  listing-Carries : (r : Run) (now : Time) → Carried (listing r now)
  unfolding advance list_jobs
  listing-Carries r now =
      let js = listed (list_jobs s) in
      still j batch s (listing r now) (visit_next r now js) _ refl
        (λ h mine.
          inl (
            visit_next-Owes j batch r now js mine
              ((list_jobs-IsInventory s w).0.complete j stored)))
        (visit_next-IsPlain j batch s r now js)

  checking-Carries :
      (r : Run) (now : Time) (i : Job) (dep : Str) (deps : List Str) (js : List Job)
      → Carried (checking r now i dep deps js)
  unfolding advance list_runs
  checking-Carries r now i dep deps js =
      let pc = checking r now i dep deps js in
      elim (Bool-cases (has_succeeded (listed (list_runs (by_job dep r.batch_id) s)))) [
        | inl e ↦
            still j batch s pc (check_deps r now i deps js) _ (rw (e, advance) refl)
              (λ h o. inl (elim o.1 [
                | inl later ↦ check_deps-Owes j batch r now i deps js o.0 (inl later)
                | inr (same, all) ↦ check_deps-Owes j batch r now i deps js o.0 (inr (same, all.1))
              ]))
              (check_deps-IsPlain j batch s r now i deps js)
        | inr e ↦
            still j batch s pc (visit_next r now js) _ (rw (e, advance) refl)
              (λ h o. elim o.1 [
                | inl later ↦ inl (visit_next-Owes j batch r now js o.0 later)
                | inr (same, all) ↦
                    let done = All→ (Done s.runs batch) dep j.depends_on h all.0 in
                    let found = Done-listed s w batch dep done in
                    let missing =
                      subst
                        (λ (b : Str). has_succeeded (listed (list_runs (by_job dep b) s)) ≡ false)
                        o.0.0 e in
                    absurd (ground (arith, found, missing))
              ])
              (visit_next-IsPlain j batch s r now js)
      ]

  probing-Carries : (r : Run) (now : Time) (i : Job) (js : List Job) → Carried (probing r now i js)
  unfolding advance list_runs
  probing-Carries r now i js =
      let pc = probing r now i js in
      elim (Bool-cases (is_empty (listed (list_runs (by_job i.id r.batch_id) s)))) [
        | inl e ↦
            still j batch s pc (creating r now i js) _ (rw (e, advance) refl) (λ h o. inl o) tt
        | inr e ↦
            still j batch s pc (visit_next r now js) _ (rw (e, advance) refl)
              (λ h o. elim o.1 [
                | inl later ↦ inl (visit_next-Owes j batch r now js o.0 later)
                | inr (same, all) ↦
                    let there =
                      subst (λ (b : Str). is_empty (listed (list_runs (by_job i.id b) s)) ≡ false)
                        o.0.0 e in
                    let there' =
                      subst
                        (λ (x : Job). is_empty (listed (list_runs (by_job x.id batch) s)) ≡ false)
                        same there in
                    inr (listed-Has s w batch j.id some_job some_batch there')
              ])
              (visit_next-IsPlain j batch s r now js)
      ]

  creating-Carries :
      (r : Run) (now : Time) (i : Job) (js : List Job)
      → lookup a.id s.runs ≡ none
      → Carried (creating r now i js)
  unfolding advance create_run
  creating-Carries r now i js fresh =
      let q = new_run a.id i.id r.batch_id 0 now now in
      stores j batch s q (creating r now i js) (visit_next r now js) _ refl
        (λ p f. absurd (ground (arith, f, fresh)))
        (λ c. absurd (is_pending q batch j.depends_on refl c))
        (λ o. elim o.1 [
          | inl later ↦ inl (visit_next-Owes j batch r now js o.0 later)
          | inr (same, all) ↦
              inr (q.id, q, lookup-insert_self q.id q s.runs, ap (λ (x : Job). x.id) same, o.0.0)
        ])
        (visit_next-IsPlain j batch s r now js)

  pub advance-Carries :
      (pc : Pc) → lookup a.id s.runs ≡ none → Fits s.runs pc → IsPlain pc → Carried pc
  unfolding advance
  advance-Carries (fetching r) fresh f plain = fetching-Carries r
  advance-Carries (executing i r) fresh f plain = executing-Carries i r
  advance-Carries (recording retry r) fresh f plain = recording-Carries retry r f plain
  advance-Carries (retrying i r) fresh f plain = retrying-Carries i r fresh
  advance-Carries (locking r) fresh f plain =
      still j batch s (locking r) (listing r a.time) _ refl (λ h o. inl o) tt
  advance-Carries (listing r now) fresh f plain = listing-Carries r now
  advance-Carries (checking r now i dep deps js) fresh f plain =
      checking-Carries r now i dep deps js
  advance-Carries (probing r now i js) fresh f plain = probing-Carries r now i js
  advance-Carries (creating r now i js) fresh f plain = creating-Carries r now i js fresh
  advance-Carries unlocking fresh f plain =
      still j batch s unlocking leaving _ refl (λ h o. absurd o) tt
  advance-Carries leaving fresh f plain =
      still j batch s leaving finished _ refl (λ h o. absurd o) tt
  advance-Carries finished fresh f plain =
      still j batch s finished finished _ refl (λ h o. absurd o) tt
