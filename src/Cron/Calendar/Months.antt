-- ===== src/Cron/Calendar/Months.antt =====
-- The months follow one another without a gap, and each day lies in the month that is found for it.
use cronflux.Common.{
  ℕ, zero, suc, ◌+◌, ◌*◌, ◌/◌, ◌%◌, ◌≤◌, ◌<◌, ◌≡◌, refl, arith, ltb, if◌then◌else◌, Bool-cases,
  ltb→lt, inl, inr, ◌⊎◌,
}
use native.Mathlib.Decide.{dec_lt}
use native.Mathlib.Nat.{le_refl}
use cronflux.Cron.Calendar.{
  is_leap, days_in_month, days_before_month, days_before_year, first_day, month_from, month_index,
  year_of,
}

days_in_month_range : (y m : ℕ) → (28 ≤ days_in_month y m) × (days_in_month y m ≤ 31)
unfolding days_in_month
days_in_month_range y m = ground arith

twelve_months : (y : ℕ) → days_before_month y 12 ≡ (if is_leap y then 366 else 365)
unfolding days_in_month days_before_month
twelve_months y = ground arith

days_before_year-suc :
    (p : ℕ) → days_before_year (suc p) ≡ days_before_year p + (if is_leap (p + 1) then 366 else 365)
unfolding days_before_year is_leap
days_before_year-suc p = ground arith

-- A month begins where the month before it ends.
days_before_month-suc :
    (y m : ℕ) → days_before_month y (suc m) ≡ days_before_month y m + days_in_month y m
unfolding days_before_month
days_before_month-suc y m = refl

no_days : (y : ℕ) → days_before_month y 0 ≡ 0
unfolding days_before_month
no_days y = refl

pub first_day-suc : (k : ℕ) → first_day (suc k) ≡ first_day k + days_in_month (year_of k) (k % 12)
unfolding first_day days_before_year days_before_month
first_day-suc k = elim (dec_lt (k % 12) 11) [
  | yes within ↦
      let same : suc k / 12 ≡ k / 12 = omega arith in
      let later : suc k % 12 ≡ suc (k % 12) = omega arith in rw (same, later) (omega arith)
  | no last ↦
      let next_year : suc k / 12 ≡ suc (k / 12) = omega arith in
      let january : suc k % 12 ≡ 0 = omega arith in
      let december : k % 12 ≡ 11 = omega arith in
      rw (next_year, january, december)
        (omega (
          arith,
          days_before_year-suc (k / 12),
          no_days (suc (k / 12) + 1),
          days_before_month-suc (year_of k) 11,
          twelve_months (year_of k),
        ))
]

pub first_day-lt-suc :
    (k : ℕ) → (first_day k + 28 ≤ first_day (suc k)) × (first_day (suc k) ≤ first_day k + 31)
first_day-lt-suc k = omega (arith, first_day-suc k, days_in_month_range (year_of k) (k % 12))

pub first_day_mono : (j k : ℕ) → j ≤ k → first_day j ≤ first_day k
first_day_mono zero zero h = le_refl (first_day 0)
first_day_mono (suc j) zero h = absurd (omega arith)
first_day_mono j (suc k) h = elim (dec_lt k j) [
  | yes last ↦ let same : j ≡ suc k = omega arith in rw same (le_refl (first_day (suc k)))
  | no before ↦ omega (arith, first_day_mono j k (omega arith), first_day-lt-suc k)
]

-- Day `n` lies in month `k`.
abbrev pub IsIn : ℕ → ℕ → Type 0
IsIn n k = (first_day k ≤ n) × (n < first_day (suc k))

pub month_from-IsIn :
    (fuel k n : ℕ) → first_day k ≤ n → n < fuel + first_day k → IsIn n (month_from fuel k n)
unfolding month_from
month_from-IsIn zero k n h enough = absurd (omega arith)
month_from-IsIn (suc fuel) k n h enough = elim (Bool-cases (ltb n (first_day (suc k)))) [
  | inl here ↦ rw (here, month_from) (h, ltb→lt n (first_day (suc k)) here)
  | inr later ↦
      rw (later, month_from)
        (month_from-IsIn fuel (suc k) n (ground arith) (omega (arith, first_day-lt-suc k)))
]

first_day_guess : (n : ℕ) → first_day (n / 366 * 12) ≤ n
unfolding first_day days_before_year days_before_month
first_day_guess n =
    let whole : n / 366 * 12 / 12 ≡ n / 366 = omega arith in
    let january : n / 366 * 12 % 12 ≡ 0 = omega arith in rw (whole, january) (omega arith)

pub month_index-IsIn : (n : ℕ) → IsIn n (month_index n)
unfolding month_index
month_index-IsIn n = month_from-IsIn (suc n) (n / 366 * 12) n (first_day_guess n) (omega arith)

-- No day lies in two months.
pub IsIn-eq : (n j k : ℕ) → IsIn n j → IsIn n k → j ≡ k
IsIn-eq n j k h i = omega (arith, later j k, later k j)
  where
    later : (a b : ℕ) → (first_day (suc a) ≤ first_day b) ⊎ (b ≤ a)
    later a b = elim (dec_lt a b) [
      | yes lt ↦ inl (first_day_mono (suc a) b (omega arith))
      | no le ↦ inr (omega arith)
    ]

pub month_index-eq : (n k : ℕ) → IsIn n k → month_index n ≡ k
month_index-eq n k h = IsIn-eq n (month_index n) k (month_index-IsIn n) h

pub month_index-first_day : (k : ℕ) → month_index (first_day k) ≡ k
month_index-first_day k = month_index-eq (first_day k) k (omega (arith, first_day-lt-suc k))

-- The next day is in the same month, or begins the next one.
pub month_index-suc :
    (n : ℕ)
    → ((month_index (suc n) ≡ month_index n) × (suc n < first_day (suc (month_index n))))
      ⊎ ((month_index (suc n) ≡ suc (month_index n)) × (suc n ≡ first_day (suc (month_index n))))
month_index-suc n = elim (dec_lt (suc n) (first_day (suc (month_index n)))) [
  | yes within ↦
      inl (month_index-eq (suc n) (month_index n) (omega (arith, month_index-IsIn n)), within)
  | no edge ↦
      let first : suc n ≡ first_day (suc (month_index n)) = omega (arith, month_index-IsIn n) in
      inr (rw first (month_index-first_day (suc (month_index n))), first)
]

-- The days up to the end of the month are in it.
pub month_index_steady :
    (n m : ℕ) → n ≤ m → m < first_day (suc (month_index n)) → month_index m ≡ month_index n
month_index_steady n m le lt = month_index-eq m (month_index n) (omega (arith, month_index-IsIn n))
