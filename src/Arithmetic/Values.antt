-- ===== src/Arithmetic/Values.antt =====
-- The values of the binary operators on two numbers from 0 up to LONG_MAX, written on the natural
-- numbers and apart from the `switch` of src/arithmetic.c.
use Prim.Native.Nat.{bit_and as and_bits, bit_or as or_bits, bit_xor as xor_bits}
use migash.Arithmetic.Token
use migash.Prelude.{
  ℕ, ◌+◌, ◌-◌, ◌*◌, ◌/◌, ◌%◌, ◌^◌, ◌≤◌, ◌≡◌, refl, Bool, false, not, ◌&&◌, ◌||◌, arith,
  if◌then◌else◌, ltb, leb, ◌==◌,
}
use migash.Prelude.Int.{ℤ, pos, negsuc, ◌+ℤ◌, ◌-ℤ◌, ◌*ℤ◌, ◌==ℤ◌}
use migash.Arithmetic.Outcome.{Outcome, ok, failed, undefined, division_by_zero, modulo_by_zero}
use migash.Arithmetic.Long.{
  long_max, to_long, divide, modulo, shift_left, shift_right, bits_and, bits_or, bits_xor,
}
use migash.Arithmetic.Token.{
  BinaryOp, multiply, plus, minus, left_shift, right_shift, less, greater, less_equal,
  greater_equal, equal, not_equal, bit_and, bit_xor, bit_or, logical_and, logical_or,
}
use migash.Arithmetic.Eval.{apply_binary, short_circuits}

-- A number, where it is in the range of a `long`.
abbrev pub ranged : ℕ → Outcome ℤ
ranged n = if leb n long_max then ok (pos n) else undefined

-- 1 for true, and 0 for false.
abbrev pub truth : Bool → Outcome ℤ
truth b = ok (pos (if b then 1 else 0))

abbrev pub value : BinaryOp → ℕ → ℕ → Outcome ℤ
value multiply m n = ranged (m * n)
value Token.divide m n = if n == 0 then failed division_by_zero else ok (pos (m / n))
value Token.modulo m n = if n == 0 then failed modulo_by_zero else ok (pos (m % n))
value plus m n = ranged (m + n)
value minus m n = ok (if leb n m then pos (m - n) else negsuc (n - m - 1))
value left_shift m n = if ltb n 64 then ranged (m * 2 ^ n) else undefined
value right_shift m n = if ltb n 64 then ok (pos (m / 2 ^ n)) else undefined
value less m n = truth (ltb m n)
value greater m n = truth (ltb n m)
value less_equal m n = truth (leb m n)
value greater_equal m n = truth (leb n m)
value equal m n = truth (m == n)
value not_equal m n = truth (not (m == n))
value bit_and m n = ok (pos (and_bits m n))
value bit_xor m n = ok (pos (xor_bits m n))
value bit_or m n = ok (pos (or_bits m n))
value logical_and m n = truth (ltb 0 m && ltb 0 n)
value logical_or m n = truth (ltb 0 m || ltb 0 n)

-- Whether the left number alone gives the value of `||` or `&&`.
abbrev pub decides : BinaryOp → ℕ → Bool
decides logical_or m = ltb 0 m
decides logical_and m = m == 0
decides _ m = false

pub short_circuits-decides : (op : BinaryOp) (m : ℕ) → short_circuits op (pos m) ≡ decides op m
unfolding short_circuits ◌==ℤ◌
short_circuits-decides multiply m = refl
short_circuits-decides Token.divide m = refl
short_circuits-decides Token.modulo m = refl
short_circuits-decides plus m = refl
short_circuits-decides minus m = refl
short_circuits-decides left_shift m = refl
short_circuits-decides right_shift m = refl
short_circuits-decides less m = refl
short_circuits-decides greater m = refl
short_circuits-decides less_equal m = refl
short_circuits-decides greater_equal m = refl
short_circuits-decides equal m = refl
short_circuits-decides not_equal m = refl
short_circuits-decides bit_and m = refl
short_circuits-decides bit_xor m = refl
short_circuits-decides bit_or m = refl
short_circuits-decides logical_and m = ground arith
short_circuits-decides logical_or m = ground arith

pub apply_binary-value :
    (op : BinaryOp) (m n : ℕ)
    → m ≤ long_max
    → n ≤ long_max
    → apply_binary op (pos m) (pos n) ≡ value op m n
unfolding apply_binary to_long divide modulo shift_left shift_right bits_and bits_or bits_xor ◌+ℤ◌
    ◌-ℤ◌ ◌*ℤ◌ ◌==ℤ◌
apply_binary-value multiply m n h k = ground arith
apply_binary-value Token.divide m n h k = ground arith
apply_binary-value Token.modulo m n h k = ground arith
apply_binary-value plus m n h k = ground arith
apply_binary-value minus m n h k = ground arith
apply_binary-value left_shift m n h k = refl
apply_binary-value right_shift m n h k = refl
apply_binary-value less m n h k = ground arith
apply_binary-value greater m n h k = ground arith
apply_binary-value less_equal m n h k = ground arith
apply_binary-value greater_equal m n h k = ground arith
apply_binary-value equal m n h k = ground arith
apply_binary-value not_equal m n h k = ground arith
apply_binary-value bit_and m n h k = refl
apply_binary-value bit_xor m n h k = refl
apply_binary-value bit_or m n h k = refl
apply_binary-value logical_and m n h k = ground arith
apply_binary-value logical_or m n h k = ground arith
