-- ===== src/Scheduler/Pool/Threads.antt =====
-- The goroutines of the pool as a list: how a change of one of them changes a count.
use cronflux.Common.{
  ℕ, zero, suc, ◌+◌, ◌≤◌, ◌≡◌, refl, List, [], ◌∷◌, ◌++◌, some, arith, All, ◌⊎◌, inl, inr,
}
use cronflux.Scheduler.Pool.{Pc, total, thread_at, set_thread}

pub total-append : (w : Pc → ℕ) (q : Pc) (ps : List Pc) → total w (ps ++ q ∷ []) ≡ total w ps + w q
total-append w q [] = omega arith
total-append w q (p ∷ ps) = ground (arith, total-append w q ps)

pub total-set_thread :
    (w : Pc → ℕ) (q p : Pc) (n : ℕ) (ps : List Pc)
    → thread_at n ps ≡ some p
    → total w (set_thread n q ps) + w p ≡ total w ps + w q
unfolding thread_at set_thread
total-set_thread w q p n [] e = cc
total-set_thread w q p zero (o ∷ ps) e = ground arith
total-set_thread w q p (suc n) (o ∷ ps) e = ground (arith, total-set_thread w q p n ps e)

pub total-at :
    (w : Pc → ℕ) (p : Pc) (n : ℕ) (ps : List Pc) → thread_at n ps ≡ some p → w p ≤ total w ps
unfolding thread_at
total-at w p n [] e = cc
total-at w p zero (o ∷ ps) e = ground arith
total-at w p (suc n) (o ∷ ps) e = ground (arith, total-at w p n ps e)

module _ (P : Pc → Type 0) where
  pub All-at : (p : Pc) (n : ℕ) (ps : List Pc) → All P ps → thread_at n ps ≡ some p → P p
  unfolding thread_at
  All-at p n [] h e = cc
  All-at p zero (o ∷ ps) h e = ground (arith, h.0)
  All-at p (suc n) (o ∷ ps) h e = All-at p n ps h.1 e

  pub All-snoc : (q : Pc) (ps : List Pc) → All P ps → P q → All P (ps ++ q ∷ [])
  All-snoc q [] h k = (k, tt)
  All-snoc q (p ∷ ps) h k = (h.0, All-snoc q ps h.1 k)

pub set_thread-at :
    (n : ℕ) (pc pc' : Pc) (ps : List Pc)
    → thread_at n ps ≡ some pc
    → thread_at n (set_thread n pc' ps) ≡ some pc'
unfolding thread_at set_thread
set_thread-at n pc pc' [] e = cc
set_thread-at zero pc pc' (p ∷ ps) e = refl
set_thread-at (suc n) pc pc' (p ∷ ps) e = set_thread-at n pc pc' ps e

-- A thread that is not the one that is set stays.
pub set_thread-others :
    (k n : ℕ) (q pc pc' : Pc) (ps : List Pc)
    → thread_at k ps ≡ some q
    → thread_at n ps ≡ some pc
    → (q ≡ pc) ⊎ (thread_at k (set_thread n pc' ps) ≡ some q)
unfolding thread_at set_thread
set_thread-others k n q pc pc' [] h e = cc
set_thread-others zero zero q pc pc' (p ∷ ps) h e = inl (ground (arith, h, e))
set_thread-others zero (suc n) q pc pc' (p ∷ ps) h e = inr h
set_thread-others (suc k) zero q pc pc' (p ∷ ps) h e = inr h
set_thread-others (suc k) (suc n) q pc pc' (p ∷ ps) h e = set_thread-others k n q pc pc' ps h e

pub snoc-at :
    (k : ℕ) (q p : Pc) (ps : List Pc)
    → thread_at k ps ≡ some q
    → thread_at k (ps ++ p ∷ []) ≡ some q
unfolding thread_at
snoc-at k q p [] e = cc
snoc-at zero q p (o ∷ ps) e = e
snoc-at (suc k) q p (o ∷ ps) e = snoc-at k q p ps e

pub All-set_thread :
    (P : Pc → Type 0) (n : ℕ) (q : Pc) (ps : List Pc) → All P ps → P q → All P (set_thread n q ps)
unfolding set_thread
All-set_thread P n q [] h k = tt
All-set_thread P zero q (p ∷ ps) h k = (k, h.1)
All-set_thread P (suc n) q (p ∷ ps) h k = (h.0, All-set_thread P n q ps h.1 k)
