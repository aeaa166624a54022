-- ===== src/Cron/Next/Answer.antt =====
-- The search of `SpecSchedule.Next` ends, with the first time that fires or past the last year, by
-- the laws of its stages.
use cronflux.Common.{
  ℕ, zero, suc, ◌+◌, ◌≤◌, ◌<◌, ◌≡◌, refl, subst, List, [], ◌∷◌, Bool, true, false, Option, none,
  some, arith, Bool-cases, ltb, ltb→lt, ◌⊎◌, inl, inr, All,
}
use native.Mathlib.Nat.{le_refl, le_trans}
use native.Mathlib.Decide.{dec_lt}
use cronflux.Cron.Calendar.{year}
use cronflux.Cron.Next.{Stage, Ending, passed, wrapped, stuck, seek, pass, search_from}
use cronflux.Cron.Next.Search.{IsStage, IsAbove, IsReady, Holds, NoFire, Sought, seek-Sought}

Ending-cases :
    (r : Ending)
    → ((added : Bool) × (t : ℕ) × (r ≡ passed added t)) ⊎ ((t : ℕ) × (r ≡ wrapped t)) ⊎ (r ≡ stuck)
Ending-cases (passed added t) = inl (added, t, refl)
Ending-cases (wrapped t) = inr (inl (t, refl))
Ending-cases stuck = inr (inr refl)

module _ (Fires : ℕ → Type 0) where
  -- The laws of the stages of a pass below those that the pass has gone through.
  abbrev pub Lawful : List Stage → List Stage → Type 0
  Lawful above [] = Unit
  Lawful above (f ∷ below) =
      IsStage f
      × All (λ a. IsAbove a f) above
      × All (λ b. IsAbove f b) below
      × ((u : ℕ) → Fires u → Holds u f)
      × Lawful (f ∷ above) below

  module _ (lo : ℕ) where
    -- What a pass leaves.
    abbrev Passes : List Stage → List Stage → ℕ → Ending → Type 0
    Passes above gs t (passed added t') =
        (t ≤ t') × All (Holds t') above × All (Holds t') gs × NoFire Fires lo t'
    Passes above gs t (wrapped t') =
        (t < t') × All (IsReady t') above × All (IsReady t') gs × NoFire Fires lo t'
    Passes above gs t stuck = ⊥

    Passes-cons :
        (above : List Stage) (f : Stage) (below : List Stage) (t t' : ℕ) (r : Ending)
        → t ≤ t'
        → Passes (f ∷ above) below t' r
        → Passes above (f ∷ below) t r
    Passes-cons above f below t t' (passed added u) le (a, (b, c), d, e) =
        (le_trans le a, c, (b, d), e)
    Passes-cons above f below t t' (wrapped u) le (a, (b, c), d, e) = (omega arith, c, (b, d), e)
    Passes-cons above f below t t' stuck le h = h

    pass-Passes :
        (above gs : List Stage) (added : Bool) (t : ℕ)
        → Lawful above gs
        → All (Holds t) above
        → (added ≡ true → All (IsReady t) gs)
        → NoFire Fires lo t
        → Passes above gs t (pass gs added t)
    unfolding pass
    pass-Passes above [] added t laws holds ready n = (le_refl t, holds, tt, n)
    pass-Passes above (f ∷ below) added t laws holds ready n =
        let sought =
          seek-Sought Fires lo above f below laws.0 laws.1 laws.2 laws.3 (suc f.rounds) added t
            (omega (arith, laws.0.left_bound t)) holds ready n in
        elim (Ending-cases (seek f (suc f.rounds) added t)) [
          | inl (added', t', e) ↦
              let p = subst (Sought Fires lo above f below t) e sought in
              rw (e, pass)
                (Passes-cons above f below t t' (pass below added' t') p.0
                  (pass-Passes (f ∷ above) below added' t' laws.4 (p.2, p.1) p.3 p.4))
          | inr (inl (t', e)) ↦ rw (e, pass) (subst (Sought Fires lo above f below t) e sought)
          | inr (inr e) ↦ absurd (subst (Sought Fires lo above f below t) e sought)
        ]

-- What the search answers: the first time from `lo` on that fires, or that none does which comes
-- before a time past the last year.
abbrev pub Answers : (ℕ → Type 0) → List Stage → List Stage → ℕ → ℕ → Option (Option ℕ) → Type 0
Answers Fires above gs limit lo none = ⊥
Answers Fires above gs limit lo (some none) = (t : ℕ) × (limit < year t) × NoFire Fires lo t
Answers Fires above gs limit lo (some (some u)) =
    (lo ≤ u) × All (Holds u) above × All (Holds u) gs × NoFire Fires lo u

module _ (Fires : ℕ → Type 0) (top : Stage) (gs : List Stage) (limit lo end : ℕ)
    (laws : Lawful Fires (top ∷ []) gs)
    (in_time : (t : ℕ) → ltb limit (year t) ≡ false → Holds t top)
    (ends : (t : ℕ) → end ≤ t → limit < year t) where
  not-ended : (t : ℕ) → ltb limit (year t) ≡ false → t < end
  not-ended t early = elim (dec_lt t end) [
    | yes before ↦ before
    | no past ↦ absurd (ground (arith, early, ends t (omega arith)))
  ]

  pub search_from-Answers :
      (fuel : ℕ) (added : Bool) (t : ℕ)
      → 0 < fuel
      → end < fuel + t
      → lo ≤ t
      → (added ≡ true → All (IsReady t) gs)
      → NoFire Fires lo t
      → Answers Fires (top ∷ []) gs limit lo (search_from gs limit fuel added t)
  unfolding search_from
  search_from-Answers zero added t some_fuel enough le ready n = absurd (omega arith)
  search_from-Answers (suc fuel) added t some_fuel enough le ready n =
      elim (Bool-cases (ltb limit (year t))) [
        | inl late ↦ rw (late, search_from) (t, ltb→lt limit (year t) late, n)
        | inr early ↦
            let passes =
              pass-Passes Fires lo (top ∷ []) gs added t laws (in_time t early, tt) ready n in
            elim (Ending-cases (pass gs added t)) [
              | inl (added', t', e) ↦
                  let p = subst (Passes Fires lo (top ∷ []) gs t) e passes in
                  rw (early, e, search_from) (le_trans le p.0, p.1, p.2, p.3)
              | inr (inl (t', e)) ↦
                  let p = subst (Passes Fires lo (top ∷ []) gs t) e passes in
                  rw (early, e, search_from)
                    (search_from-Answers fuel true t' (omega (arith, not-ended t early))
                      (omega arith) (omega arith) (λ same. p.2) p.3)
              | inr (inr e) ↦ absurd (subst (Passes Fires lo (top ∷ []) gs t) e passes)
            ]
      ]
