-- ===== src/Common/Dict.antt =====
-- A Go map with string keys: an association list in which a key stands once.
use mathlib.Core.List.{List, [], ◌∷◌, map}
use mathlib.Core.Path.{◌≡◌, refl}
use mathlib.Core.Option.{Option, none, some}
use native.Mathlib.Omega.{arith}
use mathlib.Core.Path.{ap, ap₂}
use mathlib.Core.Logic.{inl, inr}
use cronflux.Common.Tests.{if◌then◌else◌, Bool-cases}
use cronflux.Common.Lists.{In, All}
use cronflux.Common.Text.{Str, str_eq, str_eq_iff, str_eq_refl}

abbrev pub Dict {ℓ} : Type ℓ → Type ℓ
Dict V = List (Str × V)

module _ {ℓ} {V : Type ℓ} where
  -- `v, ok := m[k]`
  unfoldable pub lookup : Str → Dict V → Option V
  lookup k [] = none
  lookup k ((j, v) ∷ m) = if str_eq j k then some v else lookup k m

  -- `m[k] = v`
  unfoldable pub insert : Str → V → Dict V → Dict V
  insert k v [] = (k, v) ∷ []
  insert k v ((j, w) ∷ m) = if str_eq j k then (k, v) ∷ m else (j, w) ∷ insert k v m

  -- `delete(m, k)`
  unfoldable pub erase : Str → Dict V → Dict V
  erase k [] = []
  erase k ((j, w) ∷ m) = if str_eq j k then m else (j, w) ∷ erase k m

  pub lookup-insert :
      (k j : Str) (v : V) (m : Dict V)
      → lookup j (insert k v m) ≡ (if str_eq k j then some v else lookup j m)
  unfolding lookup insert
  lookup-insert k j v [] = refl
  lookup-insert k j v ((i, w) ∷ m) =
      ground (arith, str_eq_iff k j, str_eq_iff i k, str_eq_iff i j, lookup-insert k j v m)

  pub lookup-insert_self : (k : Str) (v : V) (m : Dict V) → lookup k (insert k v m) ≡ some v
  lookup-insert_self k v m = rw (lookup-insert k k v m, str_eq_refl k) refl

  -- No key stands twice.
  abbrev pub IsMap : Dict V → Type ℓ
  IsMap [] = Unit
  IsMap ((k, v) ∷ m) = (lookup k m ≡ none) × IsMap m

  abbrev pub values : Dict V → List V
  values = map (λ e. e.1)

  pub insert-IsMap : (k : Str) (v : V) (m : Dict V) → IsMap m → IsMap (insert k v m)
  unfolding insert lookup
  insert-IsMap k v [] h = (refl, tt)
  insert-IsMap k v ((j, w) ∷ m) h =
      ground (arith, str_eq_iff j k, str_eq_iff k j, lookup-insert k j v m, insert-IsMap k v m h.1)

  pub lookup-erase :
      (k j : Str) (m : Dict V)
      → IsMap m
      → lookup j (erase k m) ≡ (if str_eq k j then none else lookup j m)
  unfolding lookup erase
  lookup-erase k j [] h = ground arith
  lookup-erase k j ((i, w) ∷ m) h =
      ground (arith, str_eq_iff k j, str_eq_iff i k, str_eq_iff i j, lookup-erase k j m h.1)

  pub erase-IsMap : (k : Str) (m : Dict V) → IsMap m → IsMap (erase k m)
  unfolding erase lookup
  erase-IsMap k [] h = tt
  erase-IsMap k ((j, w) ∷ m) h =
      ground (arith, lookup-erase k j m h.1, erase-IsMap k m h.1, str_eq_iff k j)

module _ {V : Type 0} where
  -- What a walk of a map meets is what a lookup finds.
  pub lookup_of_entry :
      (P : Str → V → Type 0) (m : Dict V)
      → IsMap m
      → ((k : Str) (v : V) → lookup k m ≡ some v → P k v)
      → All (λ e. P e.0 e.1) m
  unfolding lookup
  lookup_of_entry P [] h f = tt
  lookup_of_entry P ((k, v) ∷ m) h f = (
    f k v (rw (str_eq_refl k)),
    lookup_of_entry P m h.1 λ j w e. f j w (ground (arith, str_eq_iff k j)),
  )

  pub entry_of_lookup : (k : Str) (v : V) (m : Dict V) → lookup k m ≡ some v → In (k, v) m
  unfolding lookup
  entry_of_lookup k v [] e = cc
  entry_of_lookup k v ((j, w) ∷ m) e = elim (Bool-cases (str_eq j k)) [
    | inl same ↦ inl (ap₂ (λ (a : Str) (b : V). (a, b)) ((str_eq_iff j k).0 same) (ground arith))
    | inr other ↦ inr (entry_of_lookup k v m (rw other at e))
  ]

  pub In-values : (k : Str) (v : V) (m : Dict V) → In (k, v) m → In v (values m)
  In-values k v [] i = i
  In-values k v (e ∷ m) (inl h) = inl (ap (λ (p : Str × V). p.1) h)
  In-values k v (e ∷ m) (inr i) = inr (In-values k v m i)

  pub All-values : (P : V → Type 0) (m : Dict V) → All (λ (e : Str × V). P e.1) m → All P (values m)
  All-values P [] h = tt
  All-values P (e ∷ m) h = (h.0, All-values P m h.1)
