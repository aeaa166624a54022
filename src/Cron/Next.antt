-- ===== src/Cron/Next.antt =====
-- cron/spec.go: `SpecSchedule.Next`, in UTC. After its first line the code works on whole seconds.
-- Its five loops have one shape, which `seek` is; a `Stage` is what sets one of them apart.
pub mod Search
pub mod Answer
pub mod Stages
pub mod Closest
pub mod Alive
use cronflux.Common.{
  ℕ, zero, suc, ◌+◌, ◌*◌, ◌/◌, List, [], ◌∷◌, Bool, true, false, Option, none, some, ltb, ◌==◌,
  if◌then◌else◌, Time, second,
}
use cronflux.Cron.Spec.{SpecSchedule, has_bit, day_matches}
use cronflux.Cron.Calendar.{
  day_length, year, month, day, weekday, hour, minute, second_of, month_floor, day_floor, add_month,
  first_day,
}

-- A loop of `Next`: the test that ends it, what the first round takes `t` back to, what each round
-- adds, the test for `goto WRAP`, and a bound on its rounds.
pub record Stage : Type 0 where
  pub matches : ℕ → Bool
  pub floor : ℕ → ℕ
  pub advance : ℕ → ℕ
  pub wraps : ℕ → Bool
  pub rounds : ℕ

-- How a loop ends: at a time that matches, by the `goto` with the time then, or out of fuel.
pub data Ending : Type 0 where
  passed : Bool → ℕ → Ending
  wrapped : ℕ → Ending
  stuck : Ending

-- The loop, with the variables `added` and `t`.
unfoldable pub seek : Stage → ℕ → Bool → ℕ → Ending
seek g zero added t = stuck
seek g (suc fuel) added t =
    let t' = g.advance (if added then t else g.floor t) in
    let more = seek g fuel true t' in
    if g.matches t then passed added t else if g.wraps t' then wrapped t' else more

-- The loops one after another.
unfoldable pub pass : List Stage → Bool → ℕ → Ending
unfolding seek
pass [] added t = passed added t
pass (g ∷ gs) added t = elim (seek g (suc g.rounds) added t) [
  | passed added' t' ↦ pass gs added' t'
  | wrapped t' ↦ wrapped t'
  | stuck ↦ stuck
]

module _ (s : SpecSchedule) where
  abbrev pub months : Stage
  months = record {
    matches = λ t. has_bit s.month (month t);
    floor = month_floor;
    advance = add_month;
    wraps = λ t. month t == 1;
    rounds = 12;
  }

  abbrev pub days : Stage
  days = record {
    matches = λ t. day_matches s (day t) (weekday t);
    floor = day_floor;
    advance = λ t. t + day_length;
    wraps = λ t. day t == 1;
    rounds = 31;
  }

  abbrev pub hours : Stage
  hours = record {
    matches = λ t. has_bit s.hour (hour t);
    floor = λ t. t / 3600 * 3600;
    advance = λ t. t + 3600;
    wraps = λ t. hour t == 0;
    rounds = 24;
  }

  abbrev pub minutes : Stage
  minutes = record {
    matches = λ t. has_bit s.minute (minute t);
    floor = λ t. t / 60 * 60;
    advance = λ t. t + 60;
    wraps = λ t. minute t == 0;
    rounds = 60;
  }

  -- `Truncate(time.Second)` changes nothing any more.
  abbrev pub seconds : Stage
  seconds = record {
    matches = λ t. has_bit s.second (second_of t);
    floor = λ t. t;
    advance = λ t. t + 1;
    wraps = λ t. second_of t == 0;
    rounds = 60;
  }

  abbrev pub stages : List Stage
  stages = months ∷ days ∷ hours ∷ minutes ∷ seconds ∷ []

-- From the label `WRAP` on; `some none` is the zero time.
unfoldable pub search_from : List Stage → ℕ → ℕ → Bool → ℕ → Option (Option ℕ)
unfolding pass
search_from gs limit zero added t = none
search_from gs limit (suc fuel) added t = elim (ltb limit (year t)) [
  | true ↦ some none
  | false ↦ elim (pass gs added t) [
    | passed added' t' ↦ some (some t')
    | wrapped t' ↦ search_from gs limit fuel true t'
    | stuck ↦ none
  ]
]

-- Each wrap moves the time by a second at least, and the search ends after the year `limit`, which
-- is that of month number `12 * limit - 1` at last.
abbrev pub max_search_years : ℕ
max_search_years = 5

-- The second with which the search begins.
abbrev pub start_second : Time → ℕ
start_second t = t / second + 1

abbrev pub year_limit : Time → ℕ
year_limit t = year (start_second t) + max_search_years

-- More rounds than there are seconds before the end of year `limit`.
unfoldable pub search_fuel : ℕ → ℕ
search_fuel limit = suc (first_day (limit * 12) * day_length)

-- The second of the answer.
unfoldable pub next_second : SpecSchedule → Time → Option (Option ℕ)
unfolding search_from search_fuel
next_second s t =
    search_from (stages s) (year_limit t) (search_fuel (year_limit t)) false (start_second t)

abbrev pub to_time : Option (Option ℕ) → Time
to_time none = 0
to_time (some none) = 0
to_time (some (some u)) = u * second

-- `Next`. `Search` and `Closest` show that the fuel suffices, so that 0 is the source's zero time.
unfoldable pub next_fire : SpecSchedule → Time → Time
unfolding next_second
next_fire s t = to_time (next_second s t)
