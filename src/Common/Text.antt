-- ===== src/Common/Text.antt =====
-- Go strings: byte sequences with equality, the byte-wise order of `<` and `sort.Strings`, and the
-- constants of the source (`codes "..."`).
use Prim.Native.Nat.{ℕ}
use Prim.Native.Char.{code}
use Prim.Native.String.{String}
use mathlib.Core.Path.{◌≡◌, refl}
use mathlib.Core.Logic.{◌↔◌, ◌⊎◌, inl, inr}
use mathlib.Core.Bool.{Bool, true, false, ◌&&◌, ◌||◌}
use mathlib.Core.List.{List, [], ◌∷◌}
use native.Mathlib.Omega.{arith}
use cronflux.Common.Tests.{ltb, ◌==◌}

abbrev pub Str : Type 0
Str = List ℕ

abbrev pub codes : String → Str
codes String.[] = []
codes (String.◌∷◌ c s) = code c ∷ codes s

unfoldable pub str_eq : Str → Str → Bool
str_eq [] [] = true
str_eq [] (y ∷ ys) = false
str_eq (x ∷ xs) [] = false
str_eq (x ∷ xs) (y ∷ ys) = x == y && str_eq xs ys

unfoldable pub str_lt : Str → Str → Bool
str_lt [] [] = false
str_lt [] (y ∷ ys) = true
str_lt (x ∷ xs) [] = false
str_lt (x ∷ xs) (y ∷ ys) = ltb x y || (x == y && str_lt xs ys)

str_eq→ : (s t : Str) → str_eq s t ≡ true → s ≡ t
unfolding str_eq
str_eq→ [] [] h = refl
str_eq→ [] (y ∷ ys) h = cc
str_eq→ (x ∷ xs) [] h = cc
str_eq→ (x ∷ xs) (y ∷ ys) h = ground (arith, str_eq→ xs ys)

pub str_eq_refl : (s : Str) → str_eq s s ≡ true
unfolding str_eq
str_eq_refl [] = refl
str_eq_refl (x ∷ xs) = ground (arith, str_eq_refl xs)

pub str_eq_iff : (s t : Str) → (str_eq s t ≡ true) ↔ (s ≡ t)
str_eq_iff s t = (str_eq→ s t, λ e. rw e (str_eq_refl t))

pub str_lt_irrefl : (s : Str) → str_lt s s ≡ false
unfolding str_lt
str_lt_irrefl [] = refl
str_lt_irrefl (x ∷ xs) = ground (arith, str_lt_irrefl xs)

pub str_lt_trans : (s t u : Str) → str_lt s t ≡ true → str_lt t u ≡ true → str_lt s u ≡ true
unfolding str_lt
str_lt_trans [] [] u h k = cc
str_lt_trans [] (y ∷ ys) [] h k = cc
str_lt_trans [] (y ∷ ys) (z ∷ zs) h k = refl
str_lt_trans (x ∷ xs) [] u h k = cc
str_lt_trans (x ∷ xs) (y ∷ ys) [] h k = cc
str_lt_trans (x ∷ xs) (y ∷ ys) (z ∷ zs) h k = ground (arith, str_lt_trans xs ys zs)

-- Two strings are equal, or one comes first.
pub str_lt_total : (s t : Str) → (str_lt s t ≡ true) ⊎ (s ≡ t) ⊎ (str_lt t s ≡ true)
unfolding str_lt
str_lt_total [] [] = inr (inl refl)
str_lt_total [] (y ∷ ys) = inl refl
str_lt_total (x ∷ xs) [] = inr (inr refl)
str_lt_total (x ∷ xs) (y ∷ ys) = ground (arith, str_lt_total xs ys)

pub str_lt_asymm : (s t : Str) → str_lt s t ≡ true → str_lt t s ≡ false
str_lt_asymm s t h = ground (arith, str_lt_trans s t s h, str_lt_irrefl s)

-- The negation of the order is transitive.
pub str_lt_neg_trans : (s t u : Str) → str_lt t s ≡ false → str_lt u t ≡ false → str_lt u s ≡ false
str_lt_neg_trans s t u h k = ground (
  arith,
  str_lt_total s t,
  str_lt_total t u,
  str_lt_trans s t u,
  str_lt_asymm s u,
  str_lt_asymm s t,
  str_lt_asymm t u,
)
