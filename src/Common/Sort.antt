-- ===== src/Common/Sort.antt =====
-- `sort.Slice` and `sort.Strings`, by the less function that the caller gives.
use mathlib.Core.Path.{◌≡◌}
use mathlib.Core.Logic.{◌⊎◌, inl, inr}
use mathlib.Core.Bool.{Bool, true, false}
use mathlib.Core.List.{List, [], ◌∷◌, Perm}
use mathlib.Core.List.Perm
use native.Mathlib.Omega.{arith}
use cronflux.Common.Tests.{if◌then◌else◌, Bool-cases}
use cronflux.Common.Lists.{All, In, All-map}

-- A strict order in which ties are possible: its negation is transitive.
pub record IsWeakOrder {A : Type 0} (lt : A → A → Bool) : Type 0 where
  pub asymm : (a b : A) → lt a b ≡ true → lt b a ≡ false
  pub trans : (a b c : A) → lt b a ≡ false → lt c b ≡ false → lt c a ≡ false

-- A relation of every element to every later one.
abbrev pub IsPairwise : {A : Type 0} → (A → A → Type 0) → List A → Type 0
IsPairwise R [] = Unit
IsPairwise R (x ∷ xs) = All (R x) xs × IsPairwise R xs

module _ {A : Type 0} (lt : A → A → Bool) where
  unfoldable pub insert_by : A → List A → List A
  insert_by x [] = x ∷ []
  insert_by x (y ∷ ys) = if lt x y then x ∷ y ∷ ys else y ∷ insert_by x ys

  unfoldable pub sort_by : List A → List A
  unfolding insert_by
  sort_by [] = []
  sort_by (x ∷ xs) = insert_by x (sort_by xs)

  -- Nothing stands before an element that is less than it.
  abbrev pub IsSorted : List A → Type 0
  IsSorted [] = Unit
  IsSorted (x ∷ xs) = All (λ y. lt y x ≡ false) xs × IsSorted xs

  -- A sorted list is ordered by every relation that follows where the later one is not less.
  pub IsSorted-IsPairwise :
      (R : A → A → Type 0) (xs : List A)
      → ((x y : A) → lt y x ≡ false → R x y)
      → IsSorted xs
      → IsPairwise R xs
  IsSorted-IsPairwise R [] f h = tt
  IsSorted-IsPairwise R (x ∷ xs) f h =
      (All-map (λ y. lt y x ≡ false) (R x) xs (f x) h.0, IsSorted-IsPairwise R xs f h.1)

  All-insert_by {κ} :
      (P : A → Type κ) (x : A) (xs : List A) → P x → All P xs → All P (insert_by x xs)
  unfolding insert_by
  All-insert_by P x [] p h = (p, tt)
  All-insert_by P x (y ∷ ys) p h = elim (Bool-cases (lt x y)) [
    | inl e ↦ rw e (p, h)
    | inr e ↦ rw e (h.0, All-insert_by P x ys p h.1)
  ]

  pub All-sort_by {κ} : (P : A → Type κ) (xs : List A) → All P xs → All P (sort_by xs)
  unfolding sort_by
  All-sort_by P [] h = tt
  All-sort_by P (x ∷ xs) h = All-insert_by P x (sort_by xs) h.0 (All-sort_by P xs h.1)

  In-insert_by : (a x : A) (xs : List A) → (x ≡ a) ⊎ In a xs → In a (insert_by x xs)
  unfolding insert_by
  In-insert_by a x [] (inl e) = inl e
  In-insert_by a x [] (inr i) = elim i [ ]
  In-insert_by a x (y ∷ ys) i = elim (Bool-cases (lt x y)) [
    | inl e ↦ rw e i
    | inr e ↦ rw e (ground (arith, In-insert_by a x ys))
  ]

  pub In-sort_by : (a : A) (xs : List A) → In a xs → In a (sort_by xs)
  unfolding sort_by
  In-sort_by a [] i = i
  In-sort_by a (x ∷ xs) (inl e) = In-insert_by a x (sort_by xs) (inl e)
  In-sort_by a (x ∷ xs) (inr i) = In-insert_by a x (sort_by xs) (inr (In-sort_by a xs i))

  insert_by-perm : (x : A) (xs : List A) → Perm (insert_by x xs) (x ∷ xs)
  unfolding insert_by
  insert_by-perm x [] = Perm.rfl
  insert_by-perm x (y ∷ ys) = elim (Bool-cases (lt x y)) [
    | inl e ↦ rw e Perm.rfl
    | inr e ↦ rw e (Perm.trans (Perm.cons y (insert_by-perm x ys)) (Perm.swap x y ys))
  ]

  pub sort_by-perm : (xs : List A) → Perm (sort_by xs) xs
  unfolding sort_by
  sort_by-perm [] = Perm.rfl
  sort_by-perm (x ∷ xs) = Perm.trans (insert_by-perm x (sort_by xs)) (Perm.cons x (sort_by-perm xs))

module _ {A : Type 0} {lt : A → A → Bool} (o : IsWeakOrder lt) where
  insert_by-IsSorted : (x : A) (xs : List A) → IsSorted lt xs → IsSorted lt (insert_by lt x xs)
  unfolding insert_by
  insert_by-IsSorted x [] s = (tt, tt)
  insert_by-IsSorted x (y ∷ ys) s = elim (Bool-cases (lt x y)) [
    | inl e ↦
        let below = o.asymm x y e in
        rw e (
          (
            below,
            All-map (λ z. lt z y ≡ false) (λ z. lt z x ≡ false) ys (λ z. o.trans x y z below) s.0,
          ),
          s,
        )
    | inr e ↦ rw e (All-insert_by lt (λ z. lt z y ≡ false) x ys e s.0, insert_by-IsSorted x ys s.1)
  ]

  pub sort_by-IsSorted : (xs : List A) → IsSorted lt (sort_by lt xs)
  unfolding sort_by
  sort_by-IsSorted [] = tt
  sort_by-IsSorted (x ∷ xs) = insert_by-IsSorted x (sort_by lt xs) (sort_by-IsSorted xs)
