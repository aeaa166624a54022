-- ===== src/Cron/Field/Mask.antt =====
-- The mask that `parseTerm` of cron/field.go makes of a term.
use Prim.Native.Nat.{bit_or}
use cronflux.Common.{
  ℕ, ◌+◌, ◌≤◌, ◌<◌, ◌≡◌, ◌↔◌, refl, sym, ap, subst, ◌∙◌, inl, inr, Bool, true, false, not, ◌&&◌,
  Str, ok, arith, if◌then◌else◌,
}
use cronflux.Common.Bits.{bit, bit-bit_or, bit-pow_ne, bit-zero}
use cronflux.Cron.Field.{Bounds, fill, word, star_bit, term_step, term_range, term_mask, parse_term}
use cronflux.Cron.Field.Loop.{IsVisited, fill_sets, fill_only}

-- A mask below its star bit: exactly the numbers from `lo` to `hi` in steps of `step`.
abbrev pub Allows : ℕ → ℕ → ℕ → ℕ → Type 0
Allows mask lo hi step = (k : ℕ) → k < 63 → (bit mask k ≡ 1) ↔ IsVisited lo hi step k

fill-Allows :
    (lo hi step : ℕ)
    → hi < 63
    → 0 < step
    → hi + step < word
    → Allows (fill 64 lo hi step 0) lo hi step
fill-Allows lo hi step small p fits k h = (
  λ set. elim (fill_only hi step (omega arith) p fits 64 lo 0 k set) [
    | inl old ↦ absurd (omega (arith, bit-zero k))
    | inr v ↦ v
  ],
  λ (n, e, le).
      ap (bit (fill 64 lo hi step 0)) e
      ∙ fill_sets hi step (omega arith) p fits n 64 lo 0 (omega arith) (omega arith),
)

-- The star bit is out of the way of the others.
star-Allows :
    (mask lo hi step : ℕ) → Allows mask lo hi step → Allows (bit_or mask star_bit) lo hi step
star-Allows mask lo hi step a k h =
    let same : bit (bit_or mask star_bit) k ≡ bit mask k =
      omega (arith, bit-bit_or mask star_bit k, bit-pow_ne 63 k (omega arith)) in
    (λ e. (a k h).0 (sym same ∙ e), λ v. same ∙ (a k h).1 v)

abbrev mask_of : ℕ → ℕ → ℕ → Bool → ℕ
mask_of lo hi step is_star =
    let mask = fill 64 lo hi step 0 in if is_star then bit_or mask star_bit else mask

mask_of-Allows :
    (lo hi step : ℕ) (is_star : Bool)
    → Allows (fill 64 lo hi step 0) lo hi step
    → Allows (mask_of lo hi step is_star) lo hi step
mask_of-Allows lo hi step true a = star-Allows (fill 64 lo hi step 0) lo hi step a
mask_of-Allows lo hi step false a = a

term_mask-eq-ok :
    (term : Str) (lo hi step : ℕ) (is_star : Bool) (b : Bounds) {m : ℕ}
    → term_mask term lo hi step is_star b ≡ ok m
    → (b.min ≤ lo) × (lo ≤ hi) × (hi ≤ b.max) × (mask_of lo hi step is_star ≡ m)
unfolding term_mask
term_mask-eq-ok term lo hi step is_star b e =
    (ground arith, ground arith, ground arith, ground arith)

-- A step is never zero.
term_step-pos :
    (term range : Str) (step : ℕ) (has_step : Bool)
    → term_step term ≡ ok (range, step, has_step)
    → 0 < step
unfolding term_step
term_step-pos term range step has_step e = ground arith

parse_term-parts :
    (term range : Str) (lo hi step : ℕ) (has_step star : Bool) (b : Bounds)
    → term_step term ≡ ok (range, step, has_step)
    → term_range term range has_step b ≡ ok (lo, hi, star)
    → parse_term term b ≡ term_mask term lo hi step (star && not has_step) b
unfolding parse_term
parse_term-parts term range lo hi step has_step star b s r = rw (s, r) refl

-- A term that is accepted stands for a range within the bounds, and its mask allows exactly the
-- numbers from the range's start to its end that the step reaches, if the step is not so large that
-- the loop's counter wraps.
pub parse_term-Allows :
    (term range : Str) (lo hi step : ℕ) (has_step star : Bool) (b : Bounds) (m : ℕ)
    → b.max < 63
    → term_step term ≡ ok (range, step, has_step)
    → term_range term range has_step b ≡ ok (lo, hi, star)
    → hi + step < word
    → parse_term term b ≡ ok m
    → (b.min ≤ lo) × (lo ≤ hi) × (hi ≤ b.max) × Allows m lo hi step
parse_term-Allows term range lo hi step has_step star b m small s r fits e =
    let p = term_step-pos term range step has_step s in
    let (low, ordered, high, same) =
      term_mask-eq-ok term lo hi step (star && not has_step) b
        (sym (parse_term-parts term range lo hi step has_step star b s r) ∙ e) in
    (
      low,
      ordered,
      high,
      subst (λ (n : ℕ). Allows n lo hi step) same
          (mask_of-Allows lo hi step (star && not has_step)
            (fill-Allows lo hi step (omega arith) p fits)),
    )
