-- ===== src/Cron/Every.antt =====
-- cron/constant.go: schedules of a constant delay. `time.ParseDuration` is a parameter of the parser.
use Prim.Native.Nat.{max}
use cronflux.Common.{
  subst, sym, Bool-cases, inl, inr, ℕ, suc, ◌+◌, ◌-◌, ◌%◌, ◌≤◌, ◌<◌, ◌≡◌, refl, Option, none, some,
  Str, Result, ok, err, pos, negsuc, pos_part, ltb_ℤ, Time, Duration, second, add_time, sub_ℕ,
  arith, if◌then◌else◌,
}
use cronflux.Cron.Field.{CronError, invalid_duration, nonpositive_duration}
use cronflux.Job.{Job}
use cronflux.Store.Memory.{MemStore, memory}
use cronflux.Store.Memory.Invariant.{IsWellFormed}
use cronflux.Scheduler.{Env, World}
use cronflux.Scheduler.Dispatcher.{catch_up}
use cronflux.Scheduler.Dispatcher.CatchUp.{catch_up_total}

pub record ConstantDelaySchedule : Type 0 where
  pub delay : Duration

-- `d - d%time.Second` for a duration that is not negative.
abbrev pub whole_seconds : Duration → Duration
whole_seconds d = pos (pos_part d - pos_part d % second)

unfoldable pub every : Duration → ConstantDelaySchedule
every d = record { delay = whole_seconds (if ltb_ℤ d (pos second) then pos second else d) }

-- `s.Delay - time.Duration(n)`
abbrev pub less : Duration → ℕ → Duration
less (pos m) n = sub_ℕ m n
less (negsuc m) n = negsuc (m + n)

unfoldable pub next : ConstantDelaySchedule → Time → Time
next s t = add_time t (less s.delay (t % second))

-- `parseEvery`, on the text after "@every ".
unfoldable pub parse_every : (Str → Option Duration) → Str → Result CronError ConstantDelaySchedule
parse_every parse_duration raw = elim (parse_duration raw) [
  | none ↦ err (invalid_duration raw)
  | some d ↦ if ltb_ℤ (pos 0) d then ok (every d) else err nonpositive_duration
]

-- What a fire of an `@every` schedule is: a whole second, later than the instant asked about, later
-- by the requested duration or one second at most, and by less than two seconds short of the
-- requested duration.
pub record IsNextFire (d : Duration) (t fire : Time) : Type 0 where
  pub whole : fire % second ≡ 0
  pub later : t < fire
  pub soon : fire ≤ t + max (pos_part d) second
  pub spaced : t + pos_part d < fire + second + second

abbrev IsDelay : Duration → ℕ → Type 0
IsDelay d n =
    (n % second ≡ 0) × (second ≤ n) × (n ≤ max (pos_part d) second) × (pos_part d < n + second)

every-delay : (d : Duration) → (n : ℕ) × (every d ≡ record { delay = pos n }) × IsDelay d n
unfolding every
every-delay d = elim (Bool-cases (ltb_ℤ d (pos second))) [
  | inl e ↦ (second, rw e refl, (omega arith, omega arith, omega arith, ground arith))
  | inr e ↦ (
    pos_part d - pos_part d % second,
    rw e refl,
    (omega arith, ground arith, omega arith, omega arith),
  )
]

next-delay :
    (n : ℕ) (t : Time) → second ≤ n → next (record { delay = pos n }) t + t % second ≡ t + n
unfolding next
next-delay n t h = ground arith

-- Each fire of an `@every` schedule falls on a whole second, after the instant `t` it is asked for,
-- no more than the duration or a second after it, whichever is more, and less than two seconds
-- short of the duration after it. This holds of any duration, those below a second included.
pub next-IsNextFire : (d : Duration) (t : Time) → IsNextFire d t (next (every d) t)
next-IsNextFire d t =
    let (n, e, (whole, least, most, near)) = every-delay d in
    let f = next-delay n t least in
    subst (λ (s : ConstantDelaySchedule). IsNextFire d t (next s t)) (sym e)
      (record {
        whole = omega arith;
        later = omega arith;
        soon = omega arith;
        spaced = omega arith;
      })

-- The catch-up of the dispatcher over an `@every` schedule ends, with the next fire in the future,
-- within as many rounds as there are nanoseconds to make up for, on a well-formed store.
pub every-catch_up :
    (env : Env) (d : Duration) (j : Job) (now next_fire : Time) (created fuel : ℕ)
    (w : World MemStore)
    → IsWellFormed w.store
    → now < next_fire + fuel
    → (u : World MemStore) × (count : ℕ) × (after : Time) × (catch_up memory env
          (suc fuel)
          (next (every d))
          j
          now
          next_fire
          created
          w
        ≡ some (u, ok (count, after)))
      × (now < after)
      × IsWellFormed u.store
every-catch_up env d j now next_fire created fuel w v enough =
    catch_up_total env (next (every d)) j now fuel next_fire created w v
      (λ t. (next-IsNextFire d t).later) enough
