-- ===== src/Job/Graph/Keys.antt =====
-- Lists of keys, as which internal/job/dag.go's sets are modelled: membership, keys that stand once,
-- and how many keys of one list another one lacks.
use cronflux.Common.{
  ℕ, suc, ◌≤◌, ◌<◌, ◌≡◌, refl, ap, ◌∙◌, List, [], ◌∷◌, ◌++◌, true, false, ◌||◌, Str, str_eq, str_lt,
  str_eq_iff, str_eq_refl, arith, if◌then◌else◌, Bool-cases, inl, inr, length,
}
use cronflux.Common.Sort.{sort_by, insert_by}
use cronflux.Job.Graph.{has, add_key}

pub has-append : (xs ys : List Str) (x : Str) → has (xs ++ ys) x ≡ (has xs x || has ys x)
has-append [] ys x = refl
has-append (y ∷ xs) ys x = ground (arith, has-append xs ys x)

pub has-add_key : (x y : Str) (xs : List Str) → has (add_key x xs) y ≡ (str_eq x y || has xs y)
unfolding add_key
has-add_key x y xs = ground (arith, has-append xs (x ∷ []) y, str_eq_iff x y, str_eq_refl x)

-- A key at the end.
pub has-append_one : (xs : List Str) (x y : Str) → has (xs ++ x ∷ []) y ≡ (has xs y || str_eq x y)
has-append_one xs x y = ground (arith, has-append xs (x ∷ []) y)

-- No key stands twice.
abbrev pub IsOnce : List Str → Type 0
IsOnce [] = Unit
IsOnce (x ∷ xs) = (has xs x ≡ false) × IsOnce xs

str_eq_comm : (x y : Str) → str_eq x y ≡ str_eq y x
str_eq_comm x y = ground (arith, str_eq_iff x y, str_eq_iff y x)

pub append_one-IsOnce :
    (xs : List Str) (x : Str) → IsOnce xs → has xs x ≡ false → IsOnce (xs ++ x ∷ [])
append_one-IsOnce [] x o n = (refl, tt)
append_one-IsOnce (y ∷ xs) x o n = (
  ground (arith, has-append_one xs x y, o.0, n, str_eq_comm x y),
  append_one-IsOnce xs x o.1 (ground (arith, n)),
)

pub add_key-IsOnce : (x : Str) (xs : List Str) → IsOnce xs → IsOnce (add_key x xs)
unfolding add_key
add_key-IsOnce x xs o = elim (Bool-cases (has xs x)) [
  | inl e ↦ rw (e, add_key) o
  | inr e ↦ rw (e, add_key) (append_one-IsOnce xs x o e)
]

has-insert_by :
    (x : Str) (xs : List Str) (y : Str) → has (insert_by str_lt x xs) y ≡ (str_eq x y || has xs y)
unfolding insert_by
has-insert_by x [] y = refl
has-insert_by x (z ∷ xs) y = ground (arith, has-insert_by x xs y)

pub has-sort_by : (xs : List Str) (y : Str) → has (sort_by str_lt xs) y ≡ has xs y
unfolding sort_by
has-sort_by [] y = refl
has-sort_by (x ∷ xs) y = ground (arith, has-sort_by xs y, has-insert_by x (sort_by str_lt xs) y)

insert_by-IsOnce :
    (x : Str) (xs : List Str) → has xs x ≡ false → IsOnce xs → IsOnce (insert_by str_lt x xs)
unfolding insert_by
insert_by-IsOnce x [] n o = (refl, tt)
insert_by-IsOnce x (z ∷ xs) n o = elim (Bool-cases (str_lt x z)) [
  | inl e ↦ rw (e, insert_by) (n, o)
  | inr e ↦
      rw (e, insert_by)
        (
          ground (arith, has-insert_by x xs z, o.0, n, str_eq_comm x z),
          insert_by-IsOnce x xs (ground (arith, n)) o.1,
        )
]

pub sort_by-IsOnce : (xs : List Str) → IsOnce xs → IsOnce (sort_by str_lt xs)
unfolding sort_by
sort_by-IsOnce [] o = tt
sort_by-IsOnce (x ∷ xs) o =
    insert_by-IsOnce x (sort_by str_lt xs) (has-sort_by xs x ∙ o.0) (sort_by-IsOnce xs o.1)

-- The keys of a list other than one.
without : Str → List Str → List Str
without x [] = []
without x (y ∷ ys) = let rest = without x ys in if str_eq y x then rest else y ∷ rest

has-without :
    (x : Str) (ys : List Str) (y : Str)
    → has ys y ≡ true
    → str_eq x y ≡ false
    → has (without x ys) y ≡ true
unfolding without
has-without x [] y h n = h
has-without x (z ∷ ys) y h n =
    ground (arith, has-without x ys y, str_eq_iff z x, str_eq_iff z y, str_eq_iff x y, h, n)

length-without : (x : Str) (ys : List Str) → length (without x ys) ≤ length ys
unfolding without
length-without x [] = omega arith
length-without x (y ∷ ys) = ground (arith, length-without x ys)

length-without_lt : (x : Str) (ys : List Str) → has ys x ≡ true → length (without x ys) < length ys
unfolding without
length-without_lt x [] h = absurd (ground (arith, h))
length-without_lt x (y ∷ ys) h = elim (Bool-cases (str_eq y x)) [
  | inl same ↦ ground (arith, same, length-without x ys)
  | inr other ↦ ground (arith, other, length-without_lt x ys (ground (arith, h, other)))
]

-- A list without repetition is no longer than one that has all its keys.
pub IsOnce-length :
    (xs ys : List Str)
    → IsOnce xs
    → ((x : Str) → has xs x ≡ true → has ys x ≡ true)
    → length xs ≤ length ys
IsOnce-length [] ys o sub = omega arith
IsOnce-length (x ∷ xs) ys o sub =
    let rest : length xs ≤ length (without x ys) = IsOnce-length xs (without x ys) o.1 λ y h.
      has-without x ys y (sub y (ground (arith, h))) (ground (arith, h, o.0, str_eq_iff x y)) in
    omega (arith, rest, length-without_lt x ys (sub x (ground (arith, str_eq_refl x))))

-- How many keys of a list `known` lacks.
abbrev pub missing : List Str → List Str → ℕ
missing known [] = 0
missing known (x ∷ xs) = let rest = missing known xs in if has known x then rest else suc rest

pub missing-nil : (xs : List Str) → missing [] xs ≡ length xs
missing-nil [] = refl
missing-nil (x ∷ xs) = ap suc (missing-nil xs)

-- One more known key.
pub missing-append_one :
    (known : List Str) (n : Str) (xs : List Str)
    → has known n ≡ false
    → IsOnce xs
    → missing known xs
      ≡ (if has xs n then suc (missing (known ++ n ∷ []) xs) else missing (known ++ n ∷ []) xs)
missing-append_one known n [] u o = refl
missing-append_one known n (x ∷ xs) u o = ground (
  arith,
  missing-append_one known n xs u o.1,
  has-append_one known n x,
  str_eq_iff x n,
  str_eq_iff n x,
  u,
  o.0,
)

pub missing-zero :
    (known xs : List Str) → missing known xs ≡ 0 → (x : Str) → has xs x ≡ true → has known x ≡ true
missing-zero known [] z x h = absurd (ground (arith, h))
missing-zero known (y ∷ xs) z x h = elim (Bool-cases (has known y)) [
  | inr unknown ↦ absurd (ground (arith, z, unknown))
  | inl is_known ↦ elim (Bool-cases (str_eq y x)) [
    | inl same ↦ rw (← (str_eq_iff y x).0 same) is_known
    | inr other ↦ missing-zero known xs (ground (arith, z, is_known)) x (ground (arith, h, other))
  ]
]

pub missing-none :
    (known xs : List Str)
    → ((x : Str) → has xs x ≡ true → has known x ≡ true)
    → missing known xs ≡ 0
missing-none known [] f = refl
missing-none known (y ∷ xs) f = ground (
  arith,
  missing-none known xs (λ x h. f x (ground (arith, h))),
  f y (ground (arith, str_eq_refl y)),
)
