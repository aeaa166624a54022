-- ===== src/Backoff.antt =====
-- backoff/backoff.go: the delay before a retry. The float64 arithmetic, `math.Pow` and the random
-- numbers are the platform's: `Floats` holds the operations that the code uses, over bit patterns.
use cronflux.Common.{◌-◌, ◌^◌, Bool, ◌&&◌, ℤ, pos, ltb_ℤ, Duration, if◌then◌else◌}
use cronflux.Job.{Float64, RetryPolicy}

pub record Floats : Type 0 where
  pub of_int : ℤ → Float64
  pub one : Float64
  pub two : Float64
  pub add : Float64 → Float64 → Float64
  pub sub : Float64 → Float64 → Float64
  pub mul : Float64 → Float64 → Float64
  pub pow : Float64 → Float64 → Float64
  pub lt : Float64 → Float64 → Bool
  pub le : Float64 → Float64 → Bool
  -- `int64(x)` of a value that fits
  pub trunc : Float64 → ℤ

-- `math.MaxInt64`
abbrev pub max_int64 : ℤ
max_int64 = pos (2 ^ 63 - 1)

-- 100 * time.Millisecond
abbrev pub default_base : Duration
default_base = pos 100000000

module _ (fl : Floats) where
  -- `base`, after its default
  abbrev pub base_of : RetryPolicy → Duration
  base_of e = if ltb_ℤ (pos 0) e.base then e.base else default_base

  abbrev pub factor_of : RetryPolicy → Float64
  factor_of e = if fl.le e.factor fl.one then fl.two else e.factor

  -- `base * factor^attempt`, at most `Max` where `Max` is positive.
  unfoldable pub capped : RetryPolicy → ℤ → Float64
  capped e attempt =
      let d = fl.mul (fl.of_int (base_of e)) (fl.pow (factor_of e) (fl.of_int attempt)) in
      if ltb_ℤ (pos 0) e.max && fl.lt (fl.of_int e.max) d then fl.of_int e.max else d

  -- The random part, for the number `u` that `rand.Float64` gives.
  unfoldable pub jittered : RetryPolicy → Float64 → Float64 → Float64
  jittered e u d =
      if fl.lt (fl.of_int (pos 0)) e.jitter
      then (let j = if fl.lt fl.one e.jitter then fl.one else e.jitter in
          fl.add (fl.mul d (fl.sub fl.one j)) (fl.mul (fl.mul u d) j))
      else d

  unfoldable pub saturate : Float64 → Duration
  saturate d = if fl.le (fl.of_int max_int64) d then max_int64 else fl.trunc d

  -- `Exponential.Delay`. The scheduler's `backoffFor` copies the policy's fields one by one, so
  -- that the policy stands for the strategy here.
  unfoldable pub delay : RetryPolicy → Float64 → ℤ → Duration
  unfolding capped jittered saturate
  delay e u attempt =
      let n = if ltb_ℤ attempt (pos 0) then pos 0 else attempt in
      saturate (jittered e u (capped e n))
