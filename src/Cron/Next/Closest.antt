-- ===== src/Cron/Next/Closest.antt =====
-- What `SpecSchedule.Next` returns.
use cronflux.Common.{
  ℕ, suc, ◌*◌, ◌/◌, ◌≤◌, ◌<◌, ◌≡◌, refl, true, false, arith, ◌⊎◌, inl, inr, [], ◌∷◌, Option, none,
  some, Time, second,
}
use native.Mathlib.Nat.{le_refl}
use native.Mathlib.Decide.{dec_lt}
use cronflux.Cron.Calendar.{
  day_length, first_day, month, year, day, weekday, hour, minute, second_of,
}
use cronflux.Cron.Calendar.Months.{month_index-IsIn, first_day_mono}
use cronflux.Cron.Spec.{SpecSchedule, has_bit, day_matches}
use cronflux.Cron.Next.{
  hours, minutes, seconds, stages, next_second, next_fire, to_time, year_limit, start_second,
  search_fuel,
}
use cronflux.Cron.Next.Answer.{Lawful, Answers, search_from-Answers}
use cronflux.Cron.Next.Stages.{
  months-IsStage, days-IsStage, hours-IsStage, minutes-IsStage, seconds-IsStage, month_number,
}
use cronflux.Cron.Next.Stages.Clock.{
  years, year_at, months-IsAbove, days-IsAbove, years-IsAbove, months-IsAbove-days,
  years-IsAbove-days, years-IsAbove-months, hours-Clock, minutes-Clock, seconds-Clock,
  hours-IsAbove-minutes, hours-IsAbove-seconds, minutes-IsAbove-seconds,
}

-- The expression fires at the second `u`: each of its five fields allows what `u` reads there.
abbrev pub Fires : SpecSchedule → ℕ → Type 0
Fires s u =
    (has_bit s.month (month u) ≡ true)
    × (day_matches s (day u) (weekday u) ≡ true)
    × (has_bit s.hour (hour u) ≡ true)
    × (has_bit s.minute (minute u) ≡ true)
    × (has_bit s.second (second_of u) ≡ true)

stages-Lawful : (s : SpecSchedule) (limit : ℕ) → Lawful (Fires s) (years limit ∷ []) (stages s)
stages-Lawful s limit =
    let (hc, hm) = hours-Clock s in
    let (mc, mm) = minutes-Clock s in
    let (sc, sm) = seconds-Clock s in
    (
      months-IsStage s,
      (years-IsAbove-months s limit, tt),
      (
        months-IsAbove-days s,
        (
          months-IsAbove s (hours s) hc hm,
          (months-IsAbove s (minutes s) mc mm, (months-IsAbove s (seconds s) sc sm, tt)),
        ),
      ),
      (λ u f. f.0),
      (
        days-IsStage s,
        (months-IsAbove-days s, (years-IsAbove-days s limit, tt)),
        (
          days-IsAbove s (hours s) hc hm,
          (days-IsAbove s (minutes s) mc mm, (days-IsAbove s (seconds s) sc sm, tt)),
        ),
        (λ u f. f.1),
        (
          hours-IsStage s,
          (
            days-IsAbove s (hours s) hc hm,
            (months-IsAbove s (hours s) hc hm, (years-IsAbove s limit (hours s) hc hm, tt)),
          ),
          (hours-IsAbove-minutes s, (hours-IsAbove-seconds s, tt)),
          (λ u f. f.2),
          (
            minutes-IsStage s,
            (
              hours-IsAbove-minutes s,
              (
                days-IsAbove s (minutes s) mc mm,
                (months-IsAbove s (minutes s) mc mm, (years-IsAbove s limit (minutes s) mc mm, tt)),
              ),
            ),
            (minutes-IsAbove-seconds s, tt),
            (λ u f. f.3),
            (
              seconds-IsStage s,
              (
                minutes-IsAbove-seconds s,
                (
                  hours-IsAbove-seconds s,
                  (
                    days-IsAbove s (seconds s) sc sm,
                    (
                      months-IsAbove s (seconds s) sc sm,
                      (years-IsAbove s limit (seconds s) sc sm, tt),
                    ),
                  ),
                ),
              ),
              tt,
              (λ u f. f.4),
              tt,
            ),
          ),
        ),
      ),
    )

month_number_mono : (t u : ℕ) → t ≤ u → month_number t ≤ month_number u
month_number_mono t u le = elim (dec_lt (month_number u) (month_number t)) [
  | yes back ↦ absurd (
      omega (
        arith,
        month_index-IsIn (t / day_length),
        month_index-IsIn (u / day_length),
        first_day_mono (suc (month_number u)) (month_number t) (omega arith),
      ))
  | no on ↦ omega arith
]

year_mono : (t u : ℕ) → t ≤ u → year t ≤ year u
year_mono t u le = omega (arith, year_at t, year_at u, month_number_mono t u le)

years-end : (limit t : ℕ) → first_day (limit * 12) * day_length ≤ t → limit < year t
years-end limit t h = elim (dec_lt (month_number t) (limit * 12)) [
  | yes before ↦ absurd (
      omega (
        arith,
        month_index-IsIn (t / day_length),
        first_day_mono (suc (month_number t)) (limit * 12) (omega arith),
      ))
  | no past ↦ omega (arith, year_at t)
]

-- The instant `f` is the first after `t` at which the expression fires, in one of the years that are
-- searched; or no instant in them is one, and `f` is the zero time.
abbrev pub IsClosest : SpecSchedule → Time → Time → Type 0
IsClosest s t f =
    ((u : ℕ) × (f ≡ u * second)
      × (t < f)
      × Fires s u
      × (year u ≤ year_limit t)
      × ((v : ℕ) → t < v * second → v < u → ¬ Fires s v))
    ⊎ ((f ≡ 0) × ((v : ℕ) → t < v * second → year v ≤ year_limit t → ¬ Fires s v))

answer-IsClosest :
    (s : SpecSchedule) (t : Time) (r : Option (Option ℕ))
    → Answers (Fires s) (years (year_limit t) ∷ []) (stages s) (year_limit t) (start_second t) r
    → IsClosest s t (to_time r)
answer-IsClosest s t none h = absurd h
answer-IsClosest s t (some none) (end, late, n) = inr (
  refl,
  λ v lt in_time fires. elim (dec_lt v end) [
    | yes before ↦ n v (omega arith) before fires
    | no past ↦ absurd (omega (arith, year_mono end v (omega arith)))
  ],
)
answer-IsClosest s t (some (some u)) (le, in_time, holds, n) = inl (
  u,
  refl,
  omega arith,
  (holds.0, holds.1.0, holds.1.1.0, holds.1.1.1.0, holds.1.1.1.1.0),
  ground (arith, in_time.0),
  λ v lt before. n v (omega arith) before,
)

-- `Next` answers any expression and any instant with the first later instant at which the expression
-- fires, if there is one before the end of the fifth year from then on, and else with the zero time.
pub next_fire-IsClosest : (s : SpecSchedule) (t : Time) → IsClosest s t (next_fire s t)
unfolding next_fire next_second search_fuel
next_fire-IsClosest s t = answer-IsClosest s t (next_second s t) (
    search_from-Answers (Fires s) (years (year_limit t)) (stages s) (year_limit t) (start_second t)
      (first_day (year_limit t * 12) * day_length) (stages-Lawful s (year_limit t))
      (λ u e. ground (arith, e)) (years-end (year_limit t)) (search_fuel (year_limit t)) false
      (start_second t) (omega arith) (omega arith) (le_refl (start_second t)) (λ e. cc)
      (λ u le lt fires. absurd (omega arith)))
