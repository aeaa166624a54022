-- ===== src/Common/Int.antt =====
-- Signed integers over the native numbers, for `int` and `time.Duration`, and the operations of
-- `time` on instants. An instant is a number of nanoseconds since Go's zero time; an addition that
-- would go before it stops there.
use Prim.Native.Nat.{ℕ, suc, ◌+◌, ◌-◌}
use mathlib.Core.Bool.{Bool}
use cronflux.Common.Tests.{ltb, leb, if◌then◌else◌}

-- `negsuc n` is -(n + 1).
pub data ℤ : Type 0 where
  pos : ℕ → ℤ
  negsuc : ℕ → ℤ

abbrev pub pos_part : ℤ → ℕ
pos_part (pos n) = n
pos_part (negsuc n) = 0

abbrev pub neg_part : ℤ → ℕ
neg_part (pos n) = 0
neg_part (negsuc n) = suc n

abbrev pub sub_ℕ : ℕ → ℕ → ℤ
sub_ℕ a b = if leb b a then pos (a - b) else negsuc (b - a - 1)

abbrev pub ltb_ℤ : ℤ → ℤ → Bool
ltb_ℤ a b = ltb (pos_part a + neg_part b) (pos_part b + neg_part a)

abbrev pub Duration : Type 0
Duration = ℤ

abbrev pub Time : Type 0
Time = ℕ

-- `t.Add(d)`.
abbrev pub add_time : Time → Duration → Time
add_time t d = t + pos_part d - neg_part d

-- `t.Sub(u)`.
abbrev pub sub_time : Time → Time → Duration
sub_time t u = sub_ℕ t u

-- `time.Second`, in nanoseconds.
abbrev pub second : ℕ
second = 1000000000
