-- ===== src/Clock.antt =====
-- internal/clock/clock.go: a clock is what its `Now` answers; the mock is a time that its owner sets.
-- Each of the mock's methods holds its mutex from its first line to its return.
use cronflux.Common.{
  ℕ, ◌≤◌, ◌≡◌, List, [], ◌∷◌, pos, Time, Duration, add_time, arith, All, subst, sym,
}

-- `Mock`
pub record Mock : Type 0 where
  pub t : Time

-- `NewMock`
abbrev pub new_mock : Time → Mock
new_mock t = record { t = t }

-- `Mock.Now`
unfoldable pub mock_now : Mock → Time
mock_now m = m.t

pub data MockCall : Type 0 where
  set_to : Time → MockCall
  advance_by : Duration → MockCall

-- `Mock.Set` and `Mock.Advance`
unfoldable pub on_call : MockCall → Mock → Mock
on_call (set_to t) m = record m { t = t }
on_call (advance_by d) m = record m { t = add_time m.t d }

unfoldable pub on_calls : List MockCall → Mock → Mock
unfolding on_call
on_calls [] m = m
on_calls (c ∷ cs) m = on_calls cs (on_call c m)

-- The call moves the clock forward, by a duration that is not negative.
abbrev pub IsForward : MockCall → Type 0
IsForward (set_to t) = ⊥
IsForward (advance_by d) = (n : ℕ) × (d ≡ pos n)

-- A mock that is only advanced, by durations that are not negative, never goes back.
mock_now-on_calls :
    (cs : List MockCall) (m : Mock) → All IsForward cs → mock_now m ≤ mock_now (on_calls cs m)
unfolding mock_now on_calls on_call
mock_now-on_calls [] m h = omega arith
mock_now-on_calls (set_to t ∷ cs) m h = absurd h.0
mock_now-on_calls (advance_by d ∷ cs) m ((n, e), h) =
    let rest = mock_now-on_calls cs (record m { t = add_time m.t d }) h in
    let step : m.t ≤ add_time m.t d =
      subst (λ (x : Duration). m.t ≤ add_time m.t x) (sym e) (omega arith) in
    omega (arith, rest, step)
