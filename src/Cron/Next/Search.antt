-- ===== src/Cron/Next/Search.antt =====
-- What the five nested loops of `SpecSchedule.Next` find, by the laws of their stages alone.
use cronflux.Common.{
  ℕ, zero, suc, ◌≤◌, ◌<◌, ◌≡◌, refl, ap, sym, ◌∙◌, List, [], ◌∷◌, Bool, true, false, arith,
  if◌then◌else◌, Bool-cases, ◌⊎◌, inl, inr, All, All-map,
}
use native.Mathlib.Nat.{le_refl, le_trans}
use native.Mathlib.Decide.{dec_lt}
use cronflux.Cron.Next.{Stage, Ending, passed, wrapped, stuck, seek}

-- The end of the unit of `t`: where a round goes, from the unit's beginning.
abbrev pub after : Stage → ℕ → ℕ
after g t = g.advance (g.floor t)

-- The laws of one stage. A unit is of one kind throughout, and there are only so many units before
-- the loop wraps.
pub record IsStage (g : Stage) : Type 0 where
  pub later : (t : ℕ) → t < after g t
  pub steady : (t u : ℕ) → t ≤ u → u < after g t → g.matches u ≡ g.matches t
  pub aligned : (t : ℕ) → g.floor (after g t) ≡ after g t
  pub left : ℕ → ℕ
  pub left_bound : (t : ℕ) → left t ≤ g.rounds
  pub left_falls : (t : ℕ) → g.wraps (after g t) ≡ false → left (after g t) < left t

-- The laws of two stages, of which `g` has the larger units.
pub record IsAbove (g f : Stage) : Type 0 where
  pub within : (t : ℕ) → f.wraps (after f t) ≡ false → g.matches (after f t) ≡ g.matches t
  pub borders : (t : ℕ) → (g.matches (after f t) ≡ g.matches t) ⊎ (g.floor (after f t) ≡ after f t)
  pub aligns : (t : ℕ) → f.floor (after g t) ≡ after g t

-- A loop may start at `t` with `added` set: the loop is over at once, or its unit begins at `t`.
abbrev pub IsReady : ℕ → Stage → Type 0
IsReady t g = (g.floor t ≡ t) ⊎ (g.matches t ≡ true)

abbrev pub Holds : ℕ → Stage → Type 0
Holds t g = g.matches t ≡ true

module _ (Fires : ℕ → Type 0) (lo : ℕ) where
  -- No time from `lo` on fires before `t`.
  abbrev pub NoFire : ℕ → Type 0
  NoFire t = (u : ℕ) → lo ≤ u → u < t → ¬ Fires u

  -- What a loop leaves, with the stages above and below it.
  abbrev pub Sought : List Stage → Stage → List Stage → ℕ → Ending → Type 0
  Sought above f below t (passed added t') =
      (t ≤ t')
      × All (Holds t') above
      × Holds t' f
      × (added ≡ true → All (IsReady t') below)
      × NoFire t'
  Sought above f below t (wrapped t') =
      (t < t') × All (IsReady t') above × All (IsReady t') (f ∷ below) × NoFire t'
  Sought above f below t stuck = ⊥

  module _ (above : List Stage) (f : Stage) (below : List Stage) (laws : IsStage f)
      (over : All (λ a. IsAbove a f) above) (under : All (λ b. IsAbove f b) below)
      (needs : (u : ℕ) → Fires u → Holds u f) where
    Holds-within :
        (t : ℕ) (upper : List Stage)
        → All (λ a. IsAbove a f) upper
        → f.wraps (after f t) ≡ false
        → All (Holds t) upper
        → All (Holds (after f t)) upper
    Holds-within t [] o w h = tt
    Holds-within t (a ∷ upper) o w h = (o.0.within t w ∙ h.0, Holds-within t upper o.1 w h.1)

    Holds-IsReady :
        (t : ℕ) (upper : List Stage)
        → All (λ a. IsAbove a f) upper
        → All (Holds t) upper
        → All (IsReady (after f t)) upper
    Holds-IsReady t [] o h = tt
    Holds-IsReady t (a ∷ upper) o h = (
      elim (o.0.borders t) [ inl same ↦ inr (same ∙ h.0) | inr edge ↦ inl edge ],
      Holds-IsReady t upper o.1 h.1,
    )

    IsReady-below : (t : ℕ) → All (IsReady (after f t)) (f ∷ below)
    IsReady-below t = (
      inl (laws.aligned t),
      All-map (λ b. IsAbove f b) (IsReady (after f t)) below (λ b o. inl (o.aligns t)) under,
    )

    NoFire-after : (t : ℕ) → f.matches t ≡ false → NoFire t → NoFire (after f t)
    NoFire-after t m n u le lt fires = elim (dec_lt u t) [
      | yes before ↦ n u le before fires
      | no from ↦ absurd (ground (arith, laws.steady t u (omega arith) lt, needs u fires, m))
    ]

    -- A round that does not match goes to the end of the unit, whether `added` was set or not.
    next_unit :
        (added : Bool) (t : ℕ)
        → f.matches t ≡ false
        → (added ≡ true → IsReady t f)
        → f.advance (if added then t else f.floor t) ≡ after f t
    next_unit false t m ready = refl
    next_unit true t m ready = elim (ready refl) [
      | inl edge ↦ ap f.advance (sym edge)
      | inr holds ↦ absurd (ground (arith, m, holds))
    ]

    Sought-le :
        (t t' : ℕ) (r : Ending) → t ≤ t' → Sought above f below t' r → Sought above f below t r
    Sought-le t t' (passed added u) le (a, b, c, d, e) = (le_trans le a, b, c, d, e)
    Sought-le t t' (wrapped u) le (a, b, c, d) = (omega arith, b, c, d)
    Sought-le t t' stuck le h = h

    pub seek-Sought :
        (fuel : ℕ) (added : Bool) (t : ℕ)
        → laws.left t < fuel
        → All (Holds t) above
        → (added ≡ true → All (IsReady t) (f ∷ below))
        → NoFire t
        → Sought above f below t (seek f fuel added t)
    unfolding seek
    seek-Sought zero added t enough holds ready n = absurd (omega arith)
    seek-Sought (suc fuel) added t enough holds ready n = elim (Bool-cases (f.matches t)) [
      | inl m ↦ rw (m, seek) (le_refl t, holds, m, (λ e. (ready e).1), n)
      | inr m ↦
          rw (next_unit added t m (λ e. (ready e).0), m, seek)
            (elim (Bool-cases (f.wraps (after f t))) [
              | inl w ↦ rw w (
                laws.later t,
                Holds-IsReady t above over holds,
                IsReady-below t,
                NoFire-after t m n,
              )
              | inr w ↦ rw w (
                  Sought-le t (after f t) (seek f fuel true (after f t))
                    (omega (arith, laws.later t))
                    (seek-Sought fuel true (after f t) (omega (arith, laws.left_falls t w))
                      (Holds-within t above over w holds) (λ e. IsReady-below t)
                      (NoFire-after t m n)))
            ])
    ]
