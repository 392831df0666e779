-- ===== src/Common/Decimal.antt =====
-- Decimal digits, and that `strtoll` and `stringstream` read them back.
use Prim.Native.Nat.{ℕ, zero, suc, ◌+◌, ◌/◌, ◌%◌, ◌≤◌}
use mathlib.Core.Path.{◌≡◌, refl}
use mathlib.Core.Bool.{Bool, true, false, ◌&&◌}
use mathlib.Core.List.{[], ◌∷◌}
use native.Mathlib.Omega.{arith}
use ats_fastcgi.Common.Tests.{leb, ◌==◌, if◌then◌else◌}
use ats_fastcgi.Common.Lists.{Bytes}
use ats_fastcgi.Common.CStrings.{digits}

abbrev pub is_digit : ℕ → Bool
is_digit c = leb 48 c && leb c 57

-- The digits of a positive number in front of a text; the fuel is at least the number.
unfoldable pub digits_before : ℕ → ℕ → Bytes → Bytes
digits_before zero n text = text
digits_before (suc fuel) n text =
    let more = digits_before fuel (n / 10) ((48 + n % 10) ∷ text) in if n == 0 then text else more

-- A number in decimal digits, in front of a text
unfoldable pub decimal_before : ℕ → Bytes → Bytes
unfolding digits_before
decimal_before n text = if n == 0 then 48 ∷ text else digits_before n n text

abbrev pub starts_digit : Bytes → Bool
starts_digit [] = false
starts_digit (c ∷ cs) = is_digit c

-- The digits at the front are passed over.
unfoldable pub after_digits : Bytes → Bytes
after_digits [] = []
after_digits (c ∷ cs) = let rest = after_digits cs in if is_digit c then rest else c ∷ cs

pub digits-digits_before :
    (fuel n : ℕ) (text : Bytes) → n ≤ fuel → digits 0 (digits_before fuel n text) ≡ digits n text
unfolding digits_before digits
digits-digits_before zero n text h = ground arith
digits-digits_before (suc fuel) n text h =
    ground (arith, digits-digits_before fuel (n / 10) ((48 + n % 10) ∷ text))

after_digits-digits_before :
    (fuel n : ℕ) (text : Bytes) → after_digits (digits_before fuel n text) ≡ after_digits text
unfolding digits_before after_digits
after_digits-digits_before zero n text = refl
after_digits-digits_before (suc fuel) n text =
    ground (arith, after_digits-digits_before fuel (n / 10) ((48 + n % 10) ∷ text))

digits_before-starts_digit :
    (fuel n : ℕ) (text : Bytes)
    → starts_digit text ≡ true
    → starts_digit (digits_before fuel n text) ≡ true
unfolding digits_before
digits_before-starts_digit zero n text h = h
digits_before-starts_digit (suc fuel) n text h =
    ground (arith, digits_before-starts_digit fuel (n / 10) ((48 + n % 10) ∷ text))

pub digits-decimal_before :
    (n : ℕ) (text : Bytes) → digits 0 (decimal_before n text) ≡ digits n text
unfolding decimal_before digits
digits-decimal_before n text = ground (arith, digits-digits_before n n text)

pub after_digits-decimal_before :
    (n : ℕ) (text : Bytes) → after_digits (decimal_before n text) ≡ after_digits text
unfolding decimal_before after_digits
after_digits-decimal_before n text = ground (arith, after_digits-digits_before n n text)

pub decimal_before-starts_digit :
    (n : ℕ) (text : Bytes) → starts_digit (decimal_before n text) ≡ true
unfolding decimal_before digits_before
decimal_before-starts_digit zero text = refl
decimal_before-starts_digit (suc n) text =
    ground (arith, digits_before-starts_digit n (suc n / 10) ((48 + suc n % 10) ∷ text))
