-- ===== src/Common/Ints.antt =====
-- Signed integers, as `int64_t` values, and what the plugin makes of them as `int` and `unsigned int`.
use Prim.Native.Nat.{ℕ, zero, suc, ◌+◌, ◌-◌, ◌/◌, ◌%◌, ◌^◌}
use mathlib.Core.Bool.{Bool}
use ats_fastcgi.Common.Tests.{ltb, if◌then◌else◌}

-- `negsuc n` is -(n + 1).
pub data ℤ : Type 0 where
  pos : ℕ → ℤ
  negsuc : ℕ → ℤ

-- A value given to an `unsigned int`.
unfoldable pub to_uint : ℤ → ℕ
to_uint (pos n) = n % 2 ^ 32
to_uint (negsuc n) = 2 ^ 32 - 1 - n % 2 ^ 32

-- Division by a positive number, towards zero.
unfoldable pub div_by : ℤ → ℕ → ℤ
div_by (pos n) d = pos (n / d)
div_by (negsuc n) d = let q = (n + 1) / d in elim q [ zero ↦ pos 0 | suc m ↦ negsuc m ]

-- A magnitude under a sign, held to the range of a signed type with `bits` bits for the magnitude.
unfoldable pub clamped : ℕ → Bool → ℕ → ℤ
clamped bits negative n =
    if negative
    then (elim n [
      | zero ↦ pos 0
      | suc m ↦ if ltb m (2 ^ bits) then negsuc m else negsuc (2 ^ bits - 1)
    ])
    else if ltb n (2 ^ bits)
    then pos n
    else pos (2 ^ bits - 1)
