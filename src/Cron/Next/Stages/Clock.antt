-- ===== src/Cron/Next/Stages/Clock.antt =====
-- How the loops of `SpecSchedule.Next` lie within one another: a smaller unit ends within a larger
-- one or together with it.
use cronflux.Common.{
  ℕ, suc, ◌*◌, ◌/◌, ◌%◌, ◌≡◌, refl, ap, sym, ◌∙◌, false, not, arith, ◌⊎◌, inl, inr, ◌==◌, ltb,
}
use native.Mathlib.Decide.{dec_lt}
use cronflux.Cron.Calendar.{
  day_length, first_day, days_before_year, days_before_month, month_index, month_of, year_of, year,
  month_floor,
}
use cronflux.Cron.Calendar.Months.{month_index-suc}
use cronflux.Cron.Spec.{SpecSchedule, has_bit}
use cronflux.Cron.Next.{Stage, months, days, hours, minutes, seconds}
use cronflux.Cron.Next.Search.{after, IsAbove}
use cronflux.Cron.Next.Stages.{
  month_number, add_month-floor, month_number-next, month-cong, day_at, days_steady,
  month_floor-first_day, month-next,
}

-- The number of the day of `t` stays as it is, or its successor begins.
abbrev Crosses : Stage → Type 0
Crosses f =
    (t : ℕ)
    → (f.wraps (after f t) ≡ false → after f t / day_length ≡ t / day_length)
      × ((after f t / day_length ≡ t / day_length)
          ⊎ (after f t ≡ suc (t / day_length) * day_length))

-- The stage begins its units at midnight, as far as it takes notice of a whole number of days.
abbrev Midnights : Stage → Type 0
Midnights f = (n : ℕ) → f.floor (n * day_length) ≡ n * day_length

pub year_at : (t : ℕ) → year t ≡ year_of (month_number t)
unfolding year
year_at t = refl

-- Above all the loops stands the limit of the years.
abbrev pub years : ℕ → Stage
years limit = record {
  matches = λ t. not (ltb limit (year t));
  floor = λ t. t;
  advance = λ t. 0;
  wraps = λ t. false;
  rounds = 0;
}

year-cong :
    (limit t u : ℕ)
    → month_number u ≡ month_number t
    → (years limit).matches u ≡ (years limit).matches t
year-cong limit t u e =
    ap (λ (y : ℕ). not (ltb limit y)) (year_at u ∙ ap year_of e ∙ sym (year_at t))

module _ (s : SpecSchedule) where
  hours-Crosses : Crosses (hours s)
  hours-Crosses t = ground arith

  minutes-Crosses : Crosses (minutes s)
  minutes-Crosses t = ground arith

  seconds-Crosses : Crosses (seconds s)
  seconds-Crosses t = ground arith

  days-Crosses : (t : ℕ) → after (days s) t ≡ suc (t / day_length) * day_length
  days-Crosses t = omega arith

  -- At the midnight after `t` its month goes on, or the next one begins.
  month_edge :
      (t u : ℕ)
      → u ≡ suc (t / day_length) * day_length
      → (month_number u ≡ month_number t) ⊎ (month_floor u ≡ u)
  month_edge t u e =
      let whole : u / day_length ≡ suc (t / day_length) = omega arith in
      elim (month_index-suc (t / day_length)) [
        | inl (same, within) ↦ inl (ap month_index whole ∙ same)
        | inr (next, first) ↦
            let edge : u ≡ first_day (suc (month_number t)) * day_length = omega arith in
            inr (rw edge (month_floor-first_day (suc (month_number t))))
      ]

  month-matches :
      (t u : ℕ) → month_number u ≡ month_number t → (months s).matches u ≡ (months s).matches t
  month-matches t u e = ap (has_bit s.month) (month-cong t u e)

  pub months-IsAbove : (f : Stage) → Crosses f → Midnights f → IsAbove (months s) f
  months-IsAbove f crosses midnights = record {
    within = λ t w. month-matches t (after f t) (ap month_index ((crosses t).0 w));
    borders = λ t. elim (crosses t).1 [
      | inl same ↦ inl (month-matches t (after f t) (ap month_index same))
      | inr edge ↦ elim (month_edge t (after f t) edge) [
        | inl same ↦ inl (month-matches t (after f t) same)
        | inr floor ↦ inr floor
      ]
    ];
    aligns = λ t. rw (add_month-floor t) (midnights (first_day (suc (month_number t))));
  }

  pub days-IsAbove : (f : Stage) → Crosses f → Midnights f → IsAbove (days s) f
  days-IsAbove f crosses midnights = record {
    within = λ t w. days_steady s t (after f t) ((crosses t).0 w);
    borders = λ t. elim (crosses t).1 [
      | inl same ↦ inl (days_steady s t (after f t) same)
      | inr edge ↦ inr (omega (arith, edge))
    ];
    aligns = λ t. rw (days-Crosses t) (midnights (suc (t / day_length)));
  }

  pub years-IsAbove : (limit : ℕ) (f : Stage) → Crosses f → Midnights f → IsAbove (years limit) f
  years-IsAbove limit f crosses midnights = record {
    within = λ t w. year-cong limit t (after f t) (ap month_index ((crosses t).0 w));
    borders = λ t. inr refl;
    aligns = λ t. midnights 0;
  }

  day_goes_on :
      (t : ℕ)
      → (days s).wraps (after (days s) t) ≡ false
      → month_number (after (days s) t) ≡ month_number t
  day_goes_on t w =
      let whole : after (days s) t / day_length ≡ suc (t / day_length) = omega arith in
      elim (month_index-suc (t / day_length)) [
        | inl (same, within) ↦ ap month_index whole ∙ same
        | inr (next, first) ↦ absurd (
            ground
              (arith, w, day_at (after (days s) t) (suc (t / day_length)) whole, ap first_day next))
      ]

  pub months-IsAbove-days : IsAbove (months s) (days s)
  months-IsAbove-days = record {
    within = λ t w. month-matches t (after (days s) t) (day_goes_on t w);
    borders = λ t. elim (month_edge t (after (days s) t) (days-Crosses t)) [
      | inl same ↦ inl (month-matches t (after (days s) t) same)
      | inr floor ↦ inr floor
    ];
    aligns = λ t. omega (arith, add_month-floor t);
  }

  pub years-IsAbove-days : (limit : ℕ) → IsAbove (years limit) (days s)
  years-IsAbove-days limit = record {
    within = λ t w. year-cong limit t (after (days s) t) (day_goes_on t w);
    borders = λ t. inr refl;
    aligns = λ t. omega arith;
  }

  month_goes_on :
      (t : ℕ)
      → (months s).wraps (after (months s) t) ≡ false
      → year_of (suc (month_number t)) ≡ year_of (month_number t)
  month_goes_on t w =
      let later : (month_of (suc (month_number t)) == 1) ≡ false =
        ap (λ (m : ℕ). m == 1) (sym (month-next t)) ∙ w in
      ground arith

  pub years-IsAbove-months : (limit : ℕ) → IsAbove (years limit) (months s)
  unfolding first_day days_before_year days_before_month
  years-IsAbove-months limit = record {
    within = λ t w.
        ap (λ (y : ℕ). not (ltb limit y))
          (year_at (after (months s) t)
            ∙ ap year_of (month_number-next t)
            ∙ month_goes_on t w
            ∙ sym (year_at t));
    borders = λ t. inr refl;
    aligns = λ t. month_floor-first_day 0;
  }

  -- The stages below the days cross midnights, and their units begin with the days.
  pub hours-Clock : Crosses (hours s) × Midnights (hours s)
  hours-Clock = (hours-Crosses, λ n. omega arith)

  pub minutes-Clock : Crosses (minutes s) × Midnights (minutes s)
  minutes-Clock = (minutes-Crosses, λ n. omega arith)

  pub seconds-Clock : Crosses (seconds s) × Midnights (seconds s)
  seconds-Clock = (seconds-Crosses, λ n. refl)

  pub hours-IsAbove-minutes : IsAbove (hours s) (minutes s)
  hours-IsAbove-minutes = record {
    within = λ t w. ap (has_bit s.hour) (ground arith);
    borders = λ t. elim (dec_lt (t % 3600) 3540) [
      | yes inside ↦ inl (ap (has_bit s.hour) (omega arith))
      | no edge ↦ inr (omega arith)
    ];
    aligns = λ t. omega arith;
  }

  pub hours-IsAbove-seconds : IsAbove (hours s) (seconds s)
  hours-IsAbove-seconds = record {
    within = λ t w. ap (has_bit s.hour) (ground arith);
    borders = λ t. elim (dec_lt (t % 3600) 3599) [
      | yes inside ↦ inl (ap (has_bit s.hour) (omega arith))
      | no edge ↦ inr (omega arith)
    ];
    aligns = λ t. refl;
  }

  pub minutes-IsAbove-seconds : IsAbove (minutes s) (seconds s)
  minutes-IsAbove-seconds = record {
    within = λ t w. ap (has_bit s.minute) (ground arith);
    borders = λ t. elim (dec_lt (t % 60) 59) [
      | yes inside ↦ inl (ap (has_bit s.minute) (omega arith))
      | no edge ↦ inr (omega arith)
    ];
    aligns = λ t. refl;
  }
