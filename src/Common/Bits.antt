-- ===== src/Common/Bits.antt =====
-- The bits of a 64-bit mask: what `|` sets, at any mask.
use Prim.Native.Nat.{
  ℕ, zero, suc, ◌+◌, ◌-◌, ◌*◌, ◌/◌, ◌%◌, ◌^◌, ◌≤◌, max, min, bit_or, bit_and, digits,
  bit_or-bitwise, bit_and-bitwise,
}
use mathlib.Core.Path.{◌≡◌, refl, ◌∙◌, ap}
use mathlib.Core.Logic.{◌≢◌}
use native.Mathlib.Nat.{pow-suc}
use native.Mathlib.Omega.{arith}

-- Bit `i` of `m`, as 0 or 1.
unfoldable pub bit : ℕ → ℕ → ℕ
bit m zero = m % 2
bit m (suc i) = bit (m / 2) i

pub bit_le : (m i : ℕ) → bit m i ≤ 1
unfolding bit
bit_le m zero = omega arith
bit_le m (suc i) = bit_le (m / 2) i

-- The digits of an operation on masks: the number of rounds matters only while digits are left.
module _ (rest : ℕ → ℕ) (op : ℕ → ℕ → ℕ) where
  extra_round :
      (rounds a b : ℕ) → a ≤ rounds → digits rest op (suc rounds) a b ≡ digits rest op rounds a b
  extra_round zero zero b h = refl
  extra_round (suc rounds) zero b h = refl
  extra_round zero (suc a) b h = absurd (omega arith)
  extra_round (suc rounds) (suc a) b h =
      omega (arith, extra_round rounds (suc a / 2) (b / 2) (omega arith))

  spare_rounds :
      (spare rounds a b : ℕ) → rounds ≡ spare + a → digits rest op rounds a b ≡ digits rest op a a b
  spare_rounds zero rounds a b e =
      ap (λ (n : ℕ). digits rest op n a b) {x = rounds} {y = a} (omega arith)
  spare_rounds (suc spare) zero a b e = absurd (omega arith)
  spare_rounds (suc spare) (suc rounds) a b e =
      extra_round rounds a b (omega arith) ∙ spare_rounds spare rounds a b (omega arith)

  -- The lowest digit, where it is also that of a first number that has run out.
  lowest_digit :
      (a b : ℕ)
      → rest b ≡ rest (b / 2) * 2 + op 0 (b % 2)
      → digits rest op a a b ≡ digits rest op (a / 2) (a / 2) (b / 2) * 2 + op (a % 2) (b % 2)
  lowest_digit zero b h = h
  lowest_digit (suc a) b h =
      omega (arith, spare_rounds (a - suc a / 2) a (suc a / 2) (b / 2) (omega arith))

or_lowest : (a b : ℕ) → bit_or a b ≡ bit_or (a / 2) (b / 2) * 2 + max (a % 2) (b % 2)
or_lowest a b = omega (
  arith,
  bit_or-bitwise a b,
  bit_or-bitwise (a / 2) (b / 2),
  lowest_digit (λ n. n) max a b (omega arith),
)

pub bit-bit_or : (a b i : ℕ) → bit (bit_or a b) i ≡ max (bit a i) (bit b i)
unfolding bit
bit-bit_or a b zero = omega (arith, or_lowest a b)
bit-bit_or a b (suc i) = ap (λ (n : ℕ). bit n i) half ∙ bit-bit_or (a / 2) (b / 2) i
  where
    half : bit_or a b / 2 ≡ bit_or (a / 2) (b / 2)
    half = omega (arith, or_lowest a b)

pub bit-zero : (i : ℕ) → bit 0 i ≡ 0
unfolding bit
bit-zero zero = refl
bit-zero (suc i) = bit-zero i

pub bit-pow_self : (i : ℕ) → bit (2 ^ i) i ≡ 1
unfolding bit
bit-pow_self zero = refl
bit-pow_self (suc i) =
    ap (λ (n : ℕ). bit n i) {x = 2 ^ suc i / 2} (omega (arith, pow-suc 2 i)) ∙ bit-pow_self i

pub bit-pow_ne : (i j : ℕ) → i ≢ j → bit (2 ^ i) j ≡ 0
unfolding bit
bit-pow_ne zero zero h = absurd (h refl)
bit-pow_ne zero (suc j) h = bit-zero j
bit-pow_ne (suc i) zero h = omega (arith, pow-suc 2 i)
bit-pow_ne (suc i) (suc j) h =
    ap (λ (n : ℕ). bit n j) {x = 2 ^ suc i / 2} (omega (arith, pow-suc 2 i))
    ∙ bit-pow_ne i j (λ e. h (ap suc e))

and_lowest : (a b : ℕ) → bit_and a b ≡ bit_and (a / 2) (b / 2) * 2 + min (a % 2) (b % 2)
and_lowest a b = omega (
  arith,
  bit_and-bitwise a b,
  bit_and-bitwise (a / 2) (b / 2),
  lowest_digit (λ n. zero) min a b (omega arith),
)

no_digits : (rounds a : ℕ) → digits (λ n. zero) min rounds a 0 ≡ 0
no_digits zero a = refl
no_digits (suc rounds) zero = refl
no_digits (suc rounds) (suc a) = omega (arith, no_digits rounds (suc a / 2))

bit_and_nothing : (a : ℕ) → bit_and a 0 ≡ 0
bit_and_nothing a = bit_and-bitwise a 0 ∙ no_digits a a

-- A mask of one bit takes that bit.
pub bit_and-pow : (m i : ℕ) → bit_and m (2 ^ i) ≡ bit m i * 2 ^ i
unfolding bit
bit_and-pow m zero = omega (arith, and_lowest m 1, bit_and_nothing (m / 2))
bit_and-pow m (suc i) =
    let half : 2 ^ suc i / 2 ≡ 2 ^ i = omega (arith, pow-suc 2 i) in
    omega (
      arith,
      and_lowest m (2 ^ suc i),
      ap (bit_and (m / 2)) half,
      bit_and-pow (m / 2) i,
      pow-suc 2 i,
      ap (λ (p : ℕ). bit (m / 2) i * p) (pow-suc 2 i),
    )
