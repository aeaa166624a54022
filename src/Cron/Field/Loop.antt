-- ===== src/Cron/Field/Loop.antt =====
-- The loop of `parseTerm` in cron/field.go that sets the bits of a range.
use Prim.Native.Nat.{bit_or, max}
use native.Mathlib.Nat.{mod-eq_of_lt, pow-suc, pow-le-pow_right}
use native.Mathlib.Decide.{ℕ_discrete}
use cronflux.Common.{
  ℕ, zero, suc, ◌+◌, ◌*◌, ◌%◌, ◌^◌, ◌≤◌, ◌<◌, ◌≡◌, ◌≢◌, ◌⊎◌, refl, sym, ap, ◌∙◌, inl, inr, arith,
  le→leb,
}
use cronflux.Common.Bits.{bit, bit_le, bit-bit_or, bit-pow_self, bit-pow_ne}
use cronflux.Cron.Field.{fill, word}

le-or-lt : (a b : ℕ) → (a ≤ b) ⊎ (b < a)
le-or-lt a b = grind arith

fill_stop : (fuel i hi step mask : ℕ) → hi < i → fill fuel i hi step mask ≡ mask
unfolding fill
fill_stop zero i hi step mask h = refl
fill_stop (suc fuel) i hi step mask h = ground arith

abbrev pub set_bit : ℕ → ℕ → ℕ
set_bit mask i = bit_or mask (2 ^ i % word)

pub fill_round :
    (fuel i hi step mask : ℕ)
    → i ≤ hi
    → fill (suc fuel) i hi step mask ≡ fill fuel ((i + step) % word) hi step (set_bit mask i)
unfolding fill
fill_round fuel i hi step mask h = rw (le→leb i hi h) refl

-- Below 64, `1 << i` fits the word.
pow_fits : (i : ℕ) → i < 64 → 2 ^ i % word ≡ 2 ^ i
pow_fits i h = mod-eq_of_lt (pow_lt i h)
  where
    pow_lt : (n : ℕ) → n < 64 → 2 ^ n < word
    pow_lt n k =
        omega (arith, pow-suc 2 n, pow-le-pow_right {n = 2} (omega arith) {i = suc n} {j = 64} k)

pub bit-set_bit_self : (mask i : ℕ) → i < 64 → bit (set_bit mask i) i ≡ max (bit mask i) 1
bit-set_bit_self mask i h = rw (pow_fits i h, bit-bit_or mask (2 ^ i) i, bit-pow_self i) refl

bit-set_bit_ne : (mask i k : ℕ) → i < 64 → i ≢ k → bit (set_bit mask i) k ≡ bit mask k
bit-set_bit_ne mask i k h ne =
    rw (pow_fits i h, bit-bit_or mask (2 ^ i) k, bit-pow_ne i k ne) (omega arith)

-- A set bit stays set.
pub fill_keeps :
    (fuel i hi step mask k : ℕ) → hi < 64 → bit mask k ≡ 1 → bit (fill fuel i hi step mask) k ≡ 1
fill_keeps zero i hi step mask k small h = unfold fill in h
fill_keeps (suc fuel) i hi step mask k small h = elim (le-or-lt i hi) [
  | inr past ↦ rw (fill_stop (suc fuel) i hi step mask past) h
  | inl le ↦ rw (fill_round fuel i hi step mask le) (
      fill_keeps fuel ((i + step) % word) hi step (set_bit mask i) k small (elim (ℕ_discrete i k) [
        | yes same ↦ omega (
          arith,
          ap (λ (n : ℕ). bit (set_bit mask i) n) same,
          bit-set_bit_self mask i (omega arith),
          ap (bit mask) same,
        )
        | no other ↦ bit-set_bit_ne mask i k (omega arith) other ∙ h
      ]))
]

-- The words that the loop visits, if the step does not make it wrap.
abbrev pub IsVisited : ℕ → ℕ → ℕ → ℕ → Type 0
IsVisited lo hi step k = (n : ℕ) × (k ≡ lo + n * step) × (k ≤ hi)

module _ (hi step : ℕ) (small : hi < 64) (pos_step : 0 < step) (fits : hi + step < word) where
  next_word : (i : ℕ) → i ≤ hi → (i + step) % word ≡ i + step
  next_word i h = mod-eq_of_lt (omega arith)

  pub fill_sets :
      (n fuel i mask : ℕ)
      → hi < i + fuel
      → i + n * step ≤ hi
      → bit (fill fuel i hi step mask) (i + n * step) ≡ 1
  fill_sets n zero i mask enough le = absurd (omega arith)
  fill_sets zero (suc fuel) i mask enough le =
      let here : i ≤ hi = omega arith in
      let same : i + 0 * step ≡ i = omega arith in
      rw (same, fill_round fuel i hi step mask here)
        (fill_keeps fuel ((i + step) % word) hi step (set_bit mask i) i small
          (omega (arith, bit-set_bit_self mask i (omega arith), bit_le mask i)))
  fill_sets (suc n) (suc fuel) i mask enough le =
      let here : i ≤ hi = omega arith in
      let same : i + suc n * step ≡ (i + step) + n * step = omega arith in
      rw (same, fill_round fuel i hi step mask here, next_word i here)
        (fill_sets n fuel (i + step) (set_bit mask i) (omega arith) (omega arith))

  pub fill_only :
      (fuel i mask k : ℕ)
      → bit (fill fuel i hi step mask) k ≡ 1
      → (bit mask k ≡ 1) ⊎ IsVisited i hi step k
  fill_only zero i mask k h = inl (unfold fill in h)
  fill_only (suc fuel) i mask k h = elim (le-or-lt i hi) [
    | inr past ↦ inl (rw (fill_stop (suc fuel) i hi step mask past) at h)
    | inl le ↦ elim (ℕ_discrete i k) [
      | yes same ↦ inr (0, omega arith, omega arith)
      | no other ↦
          elim (fill_only fuel (i + step) (set_bit mask i) k
            (rw (fill_round fuel i hi step mask le, next_word i le) at h)) [
              | inl old ↦ inl (sym (bit-set_bit_ne mask i k (omega arith) other) ∙ old)
              | inr (n, e, b) ↦ inr (suc n, omega arith, b)
            ]
    ]
  ]
