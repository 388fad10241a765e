-- ===== src/Arithmetic/Long.antt =====
-- Arithmetic on a 64-bit `long` as src/arithmetic.c uses it. A result outside the range is
-- undefined behaviour in C, and `undefined` here.
use Prim.Native.Nat.{bit_and, bit_or, bit_xor, ◌/◌, ◌%◌, ◌*◌, ◌^◌}
use migash.Prelude.{ℕ, suc, Bool, true, false, if◌then◌else◌, ltb, leb, not}
use migash.Prelude.Int.{ℤ, pos, negsuc, sub_ℕ, ◌==ℤ◌}
use migash.Arithmetic.Outcome.{Outcome, ok, failed, undefined, Message}

-- LONG_MAX is 2^63 - 1, and LONG_MIN is `negsuc` of it.
abbrev pub long_max : ℕ
long_max = 9223372036854775807

abbrev pub in_long : ℤ → Bool
in_long (pos n) = leb n long_max
in_long (negsuc n) = leb n long_max

unfoldable pub to_long : ℤ → Outcome ℤ
to_long z = if in_long z then ok z else undefined

abbrev pub is_true : ℤ → Bool
is_true z = not (z ==ℤ pos 0)

abbrev pub from_bool : Bool → ℤ
from_bool true = pos 1
from_bool false = pos 0

-- Truncation towards zero, and a remainder with the sign of the dividend.
abbrev pub quotient : ℤ → ℤ → ℤ
quotient (pos a) (pos b) = pos (a / b)
quotient (pos a) (negsuc b) = sub_ℕ 0 (a / suc b)
quotient (negsuc a) (pos b) = sub_ℕ 0 (suc a / b)
quotient (negsuc a) (negsuc b) = pos (suc a / suc b)

abbrev pub remainder : ℤ → ℤ → ℤ
remainder (pos a) (pos b) = pos (a % b)
remainder (pos a) (negsuc b) = pos (a % suc b)
remainder (negsuc a) (pos b) = sub_ℕ 0 (suc a % b)
remainder (negsuc a) (negsuc b) = sub_ℕ 0 (suc a % suc b)

-- The message is that of the caller: an operator or a compound assignment.
unfoldable pub divide : Message → ℤ → ℤ → Outcome ℤ
unfolding to_long
divide zero_message a b = if b ==ℤ pos 0 then failed zero_message else to_long (quotient a b)

-- LONG_MIN % -1 is undefined too, since the quotient is not representable.
unfoldable pub modulo : Message → ℤ → ℤ → Outcome ℤ
modulo zero_message a b =
    if b ==ℤ pos 0
    then failed zero_message
    else if in_long (quotient a b)
    then ok (remainder a b)
    else undefined

unfoldable pub shift_left : ℤ → ℤ → Outcome ℤ
unfolding to_long
shift_left (pos a) (pos k) = if ltb k 64 then to_long (pos (a * 2 ^ k)) else undefined
shift_left _ _ = undefined

-- A negative number shifts arithmetically, as the supported compilers do.
unfoldable pub shift_right : ℤ → ℤ → Outcome ℤ
shift_right (pos a) (pos k) = if ltb k 64 then ok (pos (a / 2 ^ k)) else undefined
shift_right (negsuc a) (pos k) = if ltb k 64 then ok (negsuc (a / 2 ^ k)) else undefined
shift_right _ (negsuc k) = undefined

-- `negsuc n` has the complemented bits of `n`.
unfoldable pub bits_not : ℤ → ℤ
bits_not (pos n) = negsuc n
bits_not (negsuc n) = pos n

-- The bits of `a` that `b` does not have.
abbrev bits_without : ℕ → ℕ → ℕ
bits_without a b = bit_xor a (bit_and a b)

unfoldable pub bits_and : ℤ → ℤ → ℤ
bits_and (pos a) (pos b) = pos (bit_and a b)
bits_and (pos a) (negsuc b) = pos (bits_without a b)
bits_and (negsuc a) (pos b) = pos (bits_without b a)
bits_and (negsuc a) (negsuc b) = negsuc (bit_or a b)

unfoldable pub bits_or : ℤ → ℤ → ℤ
bits_or (pos a) (pos b) = pos (bit_or a b)
bits_or (pos a) (negsuc b) = negsuc (bits_without b a)
bits_or (negsuc a) (pos b) = negsuc (bits_without a b)
bits_or (negsuc a) (negsuc b) = negsuc (bit_and a b)

unfoldable pub bits_xor : ℤ → ℤ → ℤ
bits_xor (pos a) (pos b) = pos (bit_xor a b)
bits_xor (pos a) (negsuc b) = negsuc (bit_xor a b)
bits_xor (negsuc a) (pos b) = negsuc (bit_xor a b)
bits_xor (negsuc a) (negsuc b) = pos (bit_xor a b)
