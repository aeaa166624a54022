-- ===== src/Cron/Next/Alive.antt =====
-- cron.Parse with the `Next` of what it returns, as internal/scheduler/dispatcher.go uses the two.
use cronflux.Common.{
  ℕ, suc, ◌+◌, ◌*◌, ◌≤◌, ◌<◌, ◌≡◌, refl, ap, ◌∙◌, [], Option, none, some, Str, str_eq, ok, err,
  Duration, Time, second, true, false, inl, inr, Result-cases, All, List, subst, All-map,
}
use cronflux.Common.Dict.{lookup}
use cronflux.Job.{Job}
use cronflux.Store.Memory.{MemStore, memory}
use cronflux.Store.Memory.Invariant.{IsWellFormed}
use cronflux.Scheduler.{Env, World}
use cronflux.Scheduler.Dispatcher.Ends.{IsLater, IsLaterJob, AllLater}
use cronflux.Scheduler.Loop.{Options, step}
use cronflux.Scheduler.Loop.Ticks.{step_ends}
use cronflux.Store.{Store}
use cronflux.Scheduler
use cronflux.Scheduler.Dispatcher.{catch_up, visit}
use cronflux.Scheduler.Dispatcher.CatchUp.{catch_up_total, visit_hangs, cached}
use cronflux.Cron.Calendar.{year}
use cronflux.Cron.Spec.Constant.{parse-every}
use cronflux.Common.{sym, arith}
use cronflux.Cron.Every.{ConstantDelaySchedule, next, next-IsNextFire}
use cronflux.Cron.Spec.{SpecSchedule, Schedule, spec, constant, parse}
use cronflux.Cron.Next.{next_fire, year_limit}
use cronflux.Cron.Next.Closest.{Fires, next_fire-IsClosest}

-- The method `Next` of a parsed expression.
abbrev pub fire_times : Schedule → Scheduler.Schedule
fire_times (spec s) = next_fire s
fire_times (constant c) = next c

-- `cron.Parse`, as the dispatcher sees it.
abbrev pub parse_schedule : (Str → Option Duration) → Str → Option Scheduler.Schedule
parse_schedule parse_duration text = elim (parse parse_duration text) [
  | err e ↦ none
  | ok s ↦ some (fire_times s)
]

-- An expression that fires at no instant at all.
abbrev pub NeverFires : SpecSchedule → Type 0
NeverFires s = (u : ℕ) → ¬ Fires s u

next_fire-never : (s : SpecSchedule) (t : Time) → NeverFires s → next_fire s t ≡ 0
next_fire-never s t never = elim (next_fire-IsClosest s t) [
  | inl (u, e, later, fires, in_time, rest) ↦ absurd (never u fires)
  | inr (e, silent) ↦ e
]

-- An expression that fires again within five years of any instant.
abbrev pub FiresAgain : SpecSchedule → Type 0
FiresAgain s = (t : Time) → (u : ℕ) × (t < u * second) × (year u ≤ year_limit t) × Fires s u

next_fire-later : (s : SpecSchedule) (t : Time) → FiresAgain s → t < next_fire s t
next_fire-later s t again = elim (next_fire-IsClosest s t) [
  | inl (u, e, later, fires, in_time, rest) ↦ later
  | inr (e, silent) ↦
      let (u, later, in_time, fires) = again t in absurd (silent u later in_time fires)
]

module _ (parse_duration : Str → Option Duration) (env : Env)
    (parses : env.parse ≡ parse_schedule parse_duration) (s : SpecSchedule) (j : Job)
    (accepted : parse parse_duration j.spec ≡ ok (spec s)) where
  env-parse : env.parse j.spec ≡ some (next_fire s)
  env-parse =
      ap (λ (f : Str → Option Scheduler.Schedule). f j.spec) parses
      ∙ rw (accepted, parse_schedule) refl

  -- An enabled job whose expression is accepted but never fires is visited once, which caches the
  -- zero time as its next fire. The next visit of the job, at any time, never ends, whatever the fuel.
  pub visit-NeverFires :
      (first later : Time) (w : World MemStore) (fuel fuel' created : ℕ)
      → NeverFires s
      → IsWellFormed w.store
      → j.enabled ≡ true
      → str_eq j.spec [] ≡ false
      → lookup j.id w.parsed ≡ none
      → lookup j.id w.next_fire ≡ none
      → (visit memory env fuel' first j created w
          ≡ some (cached env (next_fire s) j first later w, ok created))
        × (visit memory env fuel later j created (cached env (next_fire s) j first later w) ≡ none)
  visit-NeverFires first later w fuel fuel' created never v on given unparsed unseen =
      visit_hangs env (next_fire s) j first later w fuel fuel' created v on given unparsed unseen
        env-parse (next_fire-never s first never) (next_fire-never s 0 never)

module _ (env : Env) (s : SpecSchedule) (j : Job) where
  -- The catch-up of the dispatcher over an expression that fires again within five years of any
  -- instant ends on a well-formed store, with the next fire in the future.
  pub catch_up-FiresAgain :
      (now next_at : Time) (created fuel : ℕ) (w : World MemStore)
      → FiresAgain s
      → IsWellFormed w.store
      → now < next_at + fuel
      → (u : World MemStore) × (count : ℕ) × (end : Time) × (catch_up memory env
            (suc fuel)
            (next_fire s)
            j
            now
            next_at
            created
            w
          ≡ some (u, ok (count, end)))
        × (now < end)
        × IsWellFormed u.store
  catch_up-FiresAgain now next_at created fuel w again v enough =
      catch_up_total env (next_fire s) j now fuel next_at created w v
        (λ t. next_fire-later s t again) enough

-- An expression of which the schedule answers every time with a later one.
abbrev pub IsAlive : (Str → Option Duration) → Job → Type 0
IsAlive parse_duration j =
    (s : SpecSchedule) → parse parse_duration j.spec ≡ ok (spec s) → FiresAgain s

pub parse_schedule-IsLater :
    (parse_duration : Str → Option Duration) (j : Job) (sched : Scheduler.Schedule)
    → IsAlive parse_duration j
    → parse_schedule parse_duration j.spec ≡ some sched
    → IsLater sched
parse_schedule-IsLater parse_duration j sched alive e =
    elim (Result-cases (parse parse_duration j.spec)) [
      | inr (x, refused) ↦
          let nothing : Path (Option Scheduler.Schedule) none (some sched) =
            rw (refused, parse_schedule) at e in
          absurd (ground (arith, nothing))
      | inl (s, parsed) ↦
          let given : Path (Option Scheduler.Schedule) (some (fire_times s)) (some sched) =
            rw (parsed, parse_schedule) at e in
          let same : Path Scheduler.Schedule (fire_times s) sched =
            ap (λ (o : Option Scheduler.Schedule). elim o [ none ↦ sched | some x ↦ x ]) given in
          subst IsLater same (fire_times-IsLater s parsed)
    ]
  where
    fire_times-IsLater :
        (s : Schedule) → parse parse_duration j.spec ≡ ok s → IsLater (fire_times s)
    fire_times-IsLater (spec s) parsed t = next_fire-later s t (alive s parsed)
    fire_times-IsLater (constant c) parsed t =
        let (d, made) = parse-every parse_duration j.spec c parsed in
        subst (λ (x : ConstantDelaySchedule). t < next x t) (sym made) (next-IsNextFire d t).later

-- With the schedules of cron.Parse, and over any backend, a tick at `now` ends with more than
-- `now + 1` rounds of fuel, if the cached schedules answer every time with a later one and each
-- listed job whose expression Parse accepts is an @every job or fires again within five years of any
-- instant.
pub step-FiresAgain :
    {S : Type 0} (api : Store S) (env : Env) (parse_duration : Str → Option Duration)
    (opts : Options) (fuel : ℕ) (now : Time) (w : World S)
    → env.parse ≡ parse_schedule parse_duration
    → AllLater w.parsed
    → ((js : List Job) → (api.list_jobs w.store).1 ≡ ok js → All (IsAlive parse_duration) js)
    → now < fuel
    → (u : World S) × (step api env opts (suc fuel) now w ≡ some u)
step-FiresAgain api env parse_duration opts fuel now w parses later alive enough =
    step_ends api env opts fuel now w
      (λ js listed.
        All-map (IsAlive parse_duration) (IsLaterJob api env) js
          (λ j h sched e.
            parse_schedule-IsLater parse_duration j sched h
              (ap (λ (f : Str → Option Scheduler.Schedule). f j.spec) (sym parses) ∙ e))
          (alive js listed))
      later enough
