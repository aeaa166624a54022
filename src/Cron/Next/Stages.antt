-- ===== src/Cron/Next/Stages.antt =====
-- The five loops of `SpecSchedule.Next` obey the laws of their stages.
pub mod Clock
use cronflux.Common.{
  ℕ, zero, suc, ◌+◌, ◌-◌, ◌*◌, ◌/◌, ◌%◌, ◌≤◌, ◌<◌, ◌≡◌, refl, ap, sym, ◌∙◌, Bool, true, false,
  arith, Bool-cases, ◌⊎◌, inl, inr, ◌==◌,
}
use cronflux.Cron.Calendar.{
  day_length, first_day, month_index, month_of, year_of, month, year, day, month_floor, add_month,
  weekday,
}
use cronflux.Cron.Calendar.Months.{
  month_index-IsIn, month_index-first_day, month_index-suc, month_index_steady, first_day-lt-suc,
}
use cronflux.Cron.Spec.{SpecSchedule, has_bit, day_matches}
use cronflux.Cron.Next.{Stage, months, days, hours, minutes, seconds}
use cronflux.Cron.Next.Search.{after, IsStage, IsAbove}

-- What the readings of a time are, by the number of its day.
pub month_at : (t n : ℕ) → t / day_length ≡ n → month t ≡ month_of (month_index n)
unfolding month
month_at t n e = ap (λ (d : ℕ). month_of (month_index d)) e

pub day_at : (t n : ℕ) → t / day_length ≡ n → day t ≡ n - first_day (month_index n) + 1
unfolding day
day_at t n e = ap (λ (d : ℕ). d - first_day (month_index d) + 1) e

month_floor-first_day : (k : ℕ) → month_floor (first_day k * day_length) ≡ first_day k * day_length
unfolding month_floor
month_floor-first_day k =
    let whole : first_day k * day_length / day_length ≡ first_day k = omega arith in
    rw (whole, month_index-first_day k) refl

-- The number of the month of `t`.
abbrev pub month_number : ℕ → ℕ
month_number t = month_index (t / day_length)

-- A month ends where the next one begins.
pub add_month-floor :
    (t : ℕ) → add_month (month_floor t) ≡ first_day (suc (month_number t)) * day_length
unfolding add_month month_floor
add_month-floor t =
    let k = month_number t in
    let whole : first_day k * day_length / day_length ≡ first_day k = omega arith in
    let midnight : first_day k * day_length % day_length ≡ 0 = omega arith in
    rw (whole, midnight, month_index-first_day k) (omega arith)

pub next_month-whole :
    (t : ℕ) → add_month (month_floor t) / day_length ≡ first_day (suc (month_number t))
next_month-whole t = omega (arith, add_month-floor t)

pub month_number-next : (t : ℕ) → month_number (add_month (month_floor t)) ≡ suc (month_number t)
month_number-next t =
    ap month_index (next_month-whole t) ∙ month_index-first_day (suc (month_number t))

pub month-next : (t : ℕ) → month (add_month (month_floor t)) ≡ month_of (suc (month_number t))
month-next t =
    month_at (add_month (month_floor t)) (add_month (month_floor t) / day_length) refl
    ∙ ap month_of (month_number-next t)

pub month-cong : (t u : ℕ) → month_number u ≡ month_number t → month u ≡ month t
month-cong t u e =
    month_at u (u / day_length) refl ∙ ap month_of e ∙ sym (month_at t (t / day_length) refl)

module _ (s : SpecSchedule) where
  month_falls :
      (t : ℕ)
      → (months s).wraps (after (months s) t) ≡ false
      → 11 - month_number (after (months s) t) % 12 < 11 - month_number t % 12
  month_falls t w =
      let later : (month_of (suc (month_number t)) == 1) ≡ false =
        ap (λ (m : ℕ). m == 1) (sym (month-next t)) ∙ w in
      rw (month_number-next t) (ground arith)

  pub months-IsStage : IsStage (months s)
  months-IsStage = record {
    later = λ t. omega (arith, add_month-floor t, month_index-IsIn (t / day_length));
    steady = λ t u le lt. ap (has_bit s.month) (
        month-cong t u (
          month_index_steady (t / day_length) (u / day_length) (omega arith)
            (omega (arith, add_month-floor t))));
    aligned = λ t. rw (add_month-floor t) (month_floor-first_day (suc (month_number t)));
    left = λ t. 11 - month_number t % 12;
    left_bound = λ t. omega arith;
    left_falls = month_falls;
  }

  pub days_steady :
      (t u : ℕ) → u / day_length ≡ t / day_length → (days s).matches u ≡ (days s).matches t
  days_steady t u e = rw (day_at u (t / day_length) e, day_at t (t / day_length) refl, e) refl

  -- The days that are left of the month.
  abbrev days_left : ℕ → ℕ
  days_left t = first_day (suc (month_number t)) - 1 - t / day_length

  days_fall :
      (t : ℕ)
      → (days s).wraps (after (days s) t) ≡ false
      → days_left (after (days s) t) < days_left t
  days_fall t w =
      let n = t / day_length in
      let whole : after (days s) t / day_length ≡ suc n = omega arith in
      elim (month_index-suc n) [
        | inl (same, within) ↦ rw (whole, same) (omega arith)
        | inr (next, first) ↦
            absurd (ground (arith, w, day_at (after (days s) t) (suc n) whole, ap first_day next))
      ]

  pub days-IsStage : IsStage (days s)
  days-IsStage = record {
    later = λ t. omega arith;
    steady = λ t u le lt. days_steady t u (omega arith);
    aligned = λ t. omega arith;
    left = days_left;
    left_bound =
        λ t. omega (arith, first_day-lt-suc (month_number t), month_index-IsIn (t / day_length));
    left_falls = days_fall;
  }

  pub hours-IsStage : IsStage (hours s)
  hours-IsStage = record {
    later = λ t. omega arith;
    steady = λ t u le lt. ap (has_bit s.hour) (omega arith);
    aligned = λ t. omega arith;
    left = λ t. 23 - t / 3600 % 24;
    left_bound = λ t. omega arith;
    left_falls = λ t w. ground arith;
  }

  pub minutes-IsStage : IsStage (minutes s)
  minutes-IsStage = record {
    later = λ t. omega arith;
    steady = λ t u le lt. ap (has_bit s.minute) (omega arith);
    aligned = λ t. omega arith;
    left = λ t. 59 - t / 60 % 60;
    left_bound = λ t. omega arith;
    left_falls = λ t w. ground arith;
  }

  pub seconds-IsStage : IsStage (seconds s)
  seconds-IsStage = record {
    later = λ t. omega arith;
    steady = λ t u le lt. ap (has_bit s.second) (omega arith);
    aligned = λ t. refl;
    left = λ t. 59 - t % 60;
    left_bound = λ t. omega arith;
    left_falls = λ t w. ground arith;
  }
