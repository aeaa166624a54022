-- ===== src/Store/Postgres/Query.antt =====
-- The query that `ListRuns` of internal/store/postgres/postgres.go writes, read against the filter of
-- the in-memory backend.
use cronflux.Common.{
  ℕ, zero, suc, ◌+◌, ◌≡◌, refl, sym, subst, ap, ◌∙◌, List, [], ◌∷◌, ◌++◌, Bool, true, false, ◌&&◌,
  Option, none, some, Str, str_eq, str_eq_iff, ℤ, pos, ltb_ℤ, arith, Bool-cases, inl, inr, length,
}
use cronflux.Job.{Run, state_name}
use cronflux.Store.{RunFilter}
use cronflux.Store.Memory.{matches}
use cronflux.Store.Postgres.Columns.{Value, text, number}
use cronflux.Store.Postgres.{
  Column, job_id, batch_id, state, filter_terms, number_terms, add_number, list_query,
}

-- The argument that a placeholder stands for; `$1` is the first one.
abbrev pub argument : List Value → ℕ → Option Value
argument args zero = none
argument [] (suc n) = none
argument (v ∷ args) (suc zero) = some v
argument (v ∷ args) (suc (suc n)) = argument args (suc n)

-- What a run's row holds in a column.
abbrev pub cell : Column → Run → Str
cell job_id r = r.job_id
cell batch_id r = r.batch_id
cell state r = state_name r.state

abbrev is_text : Option Value → Str → Bool
is_text (some (text a)) s = str_eq a s
is_text _ s = false

-- Whether the row of the run meets all the conditions `column = $n`.
abbrev pub selects : List Value → Run → List (Column × ℕ) → Bool
selects args r [] = true
selects args r ((c, n) ∷ conds) = is_text (argument args n) (cell c r) && selects args r conds

-- A limit or an offset is written exactly if it is positive, and its placeholder stands for it.
abbrev pub IsWritten : List Value → ℤ → Option ℕ → Type 0
IsWritten args k none = ltb_ℤ (pos 0) k ≡ false
IsWritten args k (some n) = (ltb_ℤ (pos 0) k ≡ true) × (argument args n ≡ some (number k))

abbrev meets : Run → List (Column × Str) → Bool
meets r [] = true
meets r ((c, v) ∷ more) = str_eq v (cell c r) && meets r more

-- The arguments `args` begin with `n` others, and go on as `rest`.
abbrev GoOn : ℕ → List Value → List Value → Type 0
GoOn n args rest = (i : ℕ) → argument args (n + suc i) ≡ argument rest (suc i)

GoOn-next :
    (n : ℕ) (args rest : List Value) (v : Value) → GoOn n args (v ∷ rest) → GoOn (suc n) args rest
GoOn-next n args rest v h i = ap (argument args) {x = suc n + suc i} (omega arith) ∙ h (suc i)

selects-number_terms :
    (r : Run) (terms : List (Column × Str)) (n : ℕ) (args more : List Value)
    → GoOn n args ((number_terms n terms).1 ++ more)
    → selects args r (number_terms n terms).0 ≡ meets r terms
unfolding number_terms
selects-number_terms r [] n args more h = refl
selects-number_terms r ((c, v) ∷ terms) n args more h =
    let rest = (number_terms (suc n) terms).1 ++ more in
    let first : argument args (suc n) ≡ some (text v) =
      ap (argument args) {x = suc n} {y = n + 1} (omega arith) ∙ h 0 in
    let others =
      selects-number_terms r terms (suc n) args more (GoOn-next n args rest (text v) h) in
    rw (first, others) refl

argument-append :
    (xs : List Value) (v : Value) (ys : List Value)
    → argument (xs ++ v ∷ ys) (suc (length xs)) ≡ some v
argument-append [] v ys = refl
argument-append (x ∷ xs) v ys = argument-append xs v ys

meets-filter_terms : (f : RunFilter) (r : Run) → meets r (filter_terms f) ≡ matches f r
meets-filter_terms f r = ground (
  arith,
  str_eq_iff f.job_id r.job_id,
  str_eq_iff r.job_id f.job_id,
  str_eq_iff f.batch_id r.batch_id,
  str_eq_iff r.batch_id f.batch_id,
  str_eq_iff f.state (state_name r.state),
  str_eq_iff (state_name r.state) f.state,
)

append_nil : (xs : List Value) → xs ++ [] ≡ xs
append_nil [] = refl
append_nil (x ∷ xs) = ap (◌∷◌ x) (append_nil xs)

append_assoc : (xs ys zs : List Value) → (xs ++ ys) ++ zs ≡ xs ++ (ys ++ zs)
append_assoc [] ys zs = refl
append_assoc (x ∷ xs) ys zs = ap (◌∷◌ x) (append_assoc xs ys zs)

-- Arguments at the end do not change what a placeholder stands for.
argument-left :
    (xs ys : List Value) (n : ℕ) (v : Value)
    → argument xs n ≡ some v
    → argument (xs ++ ys) n ≡ some v
argument-left [] ys zero v e = cc
argument-left (x ∷ xs) ys zero v e = e
argument-left [] ys (suc n) v e = cc
argument-left (x ∷ xs) ys (suc zero) v e = e
argument-left (x ∷ xs) ys (suc (suc n)) v e = argument-left xs ys (suc n) v e

IsWritten-append :
    (xs ys : List Value) (k : ℤ) (o : Option ℕ) → IsWritten xs k o → IsWritten (xs ++ ys) k o
IsWritten-append xs ys k none w = w
IsWritten-append xs ys k (some n) w = (w.0, argument-left xs ys n (number k) w.1)

add_number-IsWritten :
    (k : ℤ) (args : List Value)
    → (more : List Value) × ((add_number k args).1 ≡ args ++ more)
      × IsWritten (add_number k args).1 k (add_number k args).0
add_number-IsWritten k args = elim (Bool-cases (ltb_ℤ (pos 0) k)) [
  | inl e ↦ (number k ∷ [], rw e refl, rw e (e, argument-append args (number k) []))
  | inr e ↦ ([], rw (e, append_nil args) refl, rw e e)
]

-- The query that ListRuns writes for a filter, with the arguments that it passes. A row of a run meets
-- all its conditions, each placeholder read as the argument of its number, exactly if the run matches
-- the filter of the in-memory backend. A LIMIT and an OFFSET are written exactly if the filter's are
-- positive, and their placeholders stand for the filter's limit and offset.
pub list_query-matches :
    (f : RunFilter) (r : Run)
    → let (q, args) = list_query f in
      (selects args r q.conds ≡ matches f r)
      × IsWritten args f.limit q.limit
      × IsWritten args f.offset q.offset
unfolding list_query
list_query-matches f r =
    let (conds, args) = number_terms 0 (filter_terms f) in
    let (limits, first, limited) = add_number-IsWritten f.limit args in
    let (offsets, last, shifted) = add_number-IsWritten f.offset (add_number f.limit args).1 in
    let all_args = (add_number f.offset (add_number f.limit args).1).1 in
    let whole : all_args ≡ args ++ (limits ++ offsets) =
      last ∙ ap (λ (xs : List Value). xs ++ offsets) first ∙ append_assoc args limits offsets in
    (
      selects-number_terms r (filter_terms f) 0 all_args (limits ++ offsets) (λ i.
            ap (argument all_args) {x = 0 + suc i} {y = suc i} (omega arith)
            ∙ ap (λ (xs : List Value). argument xs (suc i)) whole)
          ∙ meets-filter_terms f r,
      subst (λ (xs : List Value). IsWritten xs f.limit (add_number f.limit args).0) (sym last)
          (IsWritten-append (add_number f.limit args).1 offsets f.limit (add_number f.limit args).0
            limited),
      shifted,
    )
