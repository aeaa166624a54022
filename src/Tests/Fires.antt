-- ===== src/Tests/Fires.antt =====
-- `Next` on the expressions of two days that are rare and one that is missing.
use cronflux.Common.{
  ℕ, zero, suc, ◌+◌, ◌-◌, ◌*◌, ◌/◌, ◌%◌, ◌^◌, ◌≤◌, ◌<◌, ◌≡◌, refl, Bool, true, false, codes, none,
  some, ok, arith, second, Time, str_eq, [], ◌∷◌, if◌then◌else◌,
}
use native.Mathlib.Decide.{ℕ_discrete}
use cronflux.Common.Bits.{bit_and-pow, bit-pow_ne}
use cronflux.Common.Dict.{lookup, insert}
use cronflux.Job.{Job}
use cronflux.Store.Memory.{MemStore, memory}
use cronflux.Scheduler.{Env, World}
use cronflux.Scheduler.Dispatcher.{visit}
use cronflux.Cron.Calendar.{
  month, day, days_in_month, first_day, month_index, day_length, weekday, hour, minute, second_of,
}
use cronflux.Cron.Calendar.Months.{first_day-suc, first_day-lt-suc, month_index-IsIn}
use cronflux.Cron.Field.{
  parse_term, parse_terms, term_mask, split_on, parse_field, fill, cut, parse_uint, digits_value,
  parse_value, term_step, term_range,
}
use cronflux.Cron.Spec.{
  SpecSchedule, has_bit, day_matches, spec, parse, trim_left, trim_right, after_prefix, fields,
  words_from, parse_trimmed, parse_fields, parse_six, normalize_dow,
}
use cronflux.Cron.Next.{next_fire, start_second}
use cronflux.Cron.Next.Stages.{month_at, day_at}
use cronflux.Cron.Next.Closest.{IsClosest, next_fire-IsClosest}
use cronflux.Cron.Next.Alive.{parse_schedule, NeverFires, FiresAgain, visit-NeverFires}
use cronflux.Tests.Fixtures.{stored, stored-IsWellFormed, job_a, env_of, passes, world_of}

abbrev star : ℕ
star = 2 ^ 63

-- "0 0 29 2 *"
abbrev leap_day : SpecSchedule
leap_day = record {
  second = 1;
  minute = 1;
  hour = 1;
  dom = 2 ^ 29;
  month = 2 ^ 2;
  dow = star + 127;
}

-- The 5th of March 2026, 10:11:12 UTC.
abbrev in_2026 : Time
in_2026 = 63908302272 * second

next_fire-IsClosest_example : IsClosest leap_day in_2026 (next_fire leap_day in_2026)
next_fire-IsClosest_example = next_fire-IsClosest leap_day in_2026

-- "0 0 30 2 *"
abbrev february_30 : SpecSchedule
february_30 = record leap_day { dom = 2 ^ 30 }

-- A mask of one bit has no other.
only_bit : (i j : ℕ) → has_bit (2 ^ i) j ≡ true → i ≡ j
only_bit i j h = elim (ℕ_discrete i j) [
  | yes e ↦ e
  | no n ↦ absurd (ground (arith, h, bit_and-pow (2 ^ i) j, bit-pow_ne i j n))
]

february_30-NeverFires : NeverFires february_30
unfolding day_matches days_in_month
february_30-NeverFires u fires =
    let n = u / day_length in
    let k = month_index n in
    let february : 2 ≡ month u = only_bit 2 (month u) fires.0 in
    let on_30 : has_bit (2 ^ 30) (day u) ≡ true = ground (arith, fires.1) in
    let thirtieth : 30 ≡ day u = only_bit 30 (day u) on_30 in
    let second_month : k % 12 ≡ 1 = omega (arith, month_at u n refl) in
    let short : days_in_month (k / 12 + 1) (k % 12) ≤ 29 = rw second_month (ground arith) in
    omega (arith, day_at u n refl, month_index-IsIn n, first_day-suc k)

abbrev february_job : Job
february_job = record job_a { id = codes "f"; spec = codes "0 0 30 2 *" }

abbrev february_env : Env
february_env = env_of passes (parse_schedule (λ s. none))

abbrev stuck_world : World MemStore
stuck_world = record (world_of stored) {
  parsed = (codes "f", next_fire february_30) ∷ [];
  next_fire = (codes "f", 0) ∷ [];
}

february_30-parse : parse (λ s. none) february_job.spec ≡ ok (spec february_30)
unfolding parse trim_left trim_right after_prefix fields words_from parse_fields parse_six
    normalize_dow parse_field parse_terms parse_term term_step split_on term_range lookup term_mask
    fill cut str_eq parse_uint digits_value parse_value parse_trimmed
february_30-parse = refl

visit-NeverFires_example :
    (visit memory february_env 9 20 february_job 0 (world_of stored) ≡ some (stuck_world, ok 0))
    × (visit memory february_env 9 21 february_job 0 stuck_world ≡ none)
unfolding lookup insert str_eq
visit-NeverFires_example =
    visit-NeverFires (λ s. none) (env_of passes (parse_schedule (λ s. none))) refl february_30
      february_job february_30-parse 20 21 (world_of stored) 9 9 0 february_30-NeverFires
      stored-IsWellFormed refl refl refl refl

-- "* * * * * *", as masks with every bit.
abbrev always : SpecSchedule
always = record {
  second = 2 ^ 64 - 1;
  minute = 2 ^ 64 - 1;
  hour = 2 ^ 64 - 1;
  dom = 2 ^ 64 - 1;
  month = 2 ^ 64 - 1;
  dow = 2 ^ 64 - 1;
}

abbrev all_below : ℕ → (ℕ → Bool) → Bool
all_below zero p = true
all_below (suc n) p = if p n then all_below n p else false

all_below→ : (n i : ℕ) (p : ℕ → Bool) → all_below n p ≡ true → i < n → p i ≡ true
all_below→ zero i p h lt = absurd (omega arith)
all_below→ (suc n) i p h lt = elim (ℕ_discrete i n) [
  | yes e ↦ rw e (ground (arith, h))
  | no other ↦ all_below→ n i p (ground (arith, h)) (omega arith)
]

every_bit : (i : ℕ) → i < 64 → has_bit (2 ^ 64 - 1) i ≡ true
every_bit i h = all_below→ 64 i (has_bit (2 ^ 64 - 1)) refl h

-- It fires in every second.
always-FiresAgain : FiresAgain always
unfolding day_matches
always-FiresAgain t =
    let u = start_second t in
    let n = u / day_length in
    let k = month_index n in
    let in_month : (first_day k ≤ n) × (n < first_day k + 31) =
      omega (arith, month_index-IsIn n, first_day-lt-suc k) in
    let on_day : has_bit (2 ^ 64 - 1) (day u) ≡ true =
      every_bit (day u) (omega (arith, day_at u n refl)) in
    let on_weekday : has_bit (2 ^ 64 - 1) (weekday u) ≡ true =
      every_bit (weekday u) (omega arith) in
    (
      u,
      omega arith,
      omega arith,
      (
        every_bit (month u) (omega (arith, month_at u n refl)),
        rw (on_day, on_weekday) refl,
        every_bit (hour u) (omega arith),
        every_bit (minute u) (omega arith),
        every_bit (second_of u) (omega arith),
      ),
    )
