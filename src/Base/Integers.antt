-- ===== src/Base/Integers.antt =====
-- Integers, and durations: a duration is a number of nanoseconds and may be negative.
use Prim.Native.Nat.{ℕ, suc, zero, ◌+◌, ◌-◌, ◌*◌, ◌/◌}
use mathlib.Core.List.{◌++◌}
use capi_shell_mcp.Base.Text.{GoString, lit}
use capi_shell_mcp.Base.Numbers.{itoa}

-- An integer: `negsuc n` is -(n + 1).
pub data ℤ : Type 0 where
  pos : ℕ → ℤ
  negsuc : ℕ → ℤ

-- %d of an integer.
abbrev pub print_int : ℤ → GoString
print_int (pos n) = itoa n
print_int (negsuc n) = lit "-" ++ itoa (1 + n)

-- time.Duration(n) * time.Second
unfoldable pub seconds : ℤ → ℤ
seconds (pos n) = pos (n * 1_000_000_000)
seconds (negsuc n) = negsuc (suc n * 1_000_000_000 - 1)

minus : ℕ → ℤ
minus zero = pos 0
minus (suc n) = negsuc n

-- int(d.Seconds())
unfoldable pub whole_seconds : ℤ → ℤ
unfolding minus
whole_seconds (pos n) = pos (n / 1_000_000_000)
whole_seconds (negsuc n) = minus (suc n / 1_000_000_000)

-- time.Add. The times of the clock are long after 0, so that no sum is before it.
unfoldable pub add_duration : ℕ → ℤ → ℕ
add_duration t (pos n) = t + n
add_duration t (negsuc n) = t - suc n

-- How long time.AfterFunc waits.
unfoldable pub delay : ℤ → ℕ
delay (pos n) = n
delay (negsuc n) = 0
