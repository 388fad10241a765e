-- ===== src/Arithmetic/Decimal.antt =====
-- A `long` written by string_from_long and read by string_atol, as an assignment and a later
-- reference do.
use migash.Prelude.{
  ℕ, zero, suc, ◌+◌, ◌-◌, ◌*◌, ◌/◌, ◌%◌, ◌<◌, ◌≡◌, refl, ap, ◌∙◌, Bool, true, false, ◌&&◌, [], ◌∷◌,
  ◌++◌, Option, none, some, arith, if◌then◌else◌, ltb, ltb→lt, leb→le, Text, is_digit,
}
use migash.Prelude.Int.{ℤ, pos, negsuc}
use migash.Arithmetic.Long.{long_max, in_long}
use migash.Arithmetic.Variables.{
  Variables, leading_value, clamp_pos, clamp_neg, string_atol, decimal, string_from_long,
}
use migash.Arithmetic.Eval.{read_variable, store_variable}

abbrev pub all_digits : Text → Bool
all_digits [] = true
all_digits (c ∷ rest) = is_digit c && all_digits rest

abbrev pub ten_to : ℕ → ℕ
ten_to zero = 1
ten_to (suc k) = 10 * ten_to k

digit_IsDigit : (n : ℕ) → n < 10 → is_digit (48 + n) ≡ true
digit_IsDigit n h = ground arith

all_digits-append :
    (t : Text) (c : ℕ) → all_digits t ≡ true → is_digit c ≡ true → all_digits (t ++ c ∷ []) ≡ true
all_digits-append [] c h e = rw e refl
all_digits-append (d ∷ t) c h e = ground (arith, all_digits-append t c)

pub decimal-all_digits : (fuel n : ℕ) → all_digits (decimal fuel n) ≡ true
unfolding decimal
decimal-all_digits zero n = refl
decimal-all_digits (suc fuel) n = go (ltb n 10) refl (decimal-all_digits fuel (n / 10))
  where
    go :
        (b : Bool)
        → ltb n 10 ≡ b
        → all_digits (decimal fuel (n / 10)) ≡ true
        → all_digits (if b then (48 + n) ∷ [] else decimal fuel (n / 10) ++ (48 + n % 10) ∷ [])
          ≡ true
    go true e h = rw (digit_IsDigit n (ltb→lt n 10 e)) refl
    go false e h =
        all_digits-append (decimal fuel (n / 10)) (48 + n % 10) h
          (digit_IsDigit (n % 10) (omega arith))

leading_value-append :
    (acc : ℕ) (t : Text) (c : ℕ)
    → all_digits t ≡ true
    → is_digit c ≡ true
    → leading_value acc (t ++ c ∷ []) ≡ leading_value acc t * 10 + (c - 48)
unfolding leading_value
leading_value-append acc [] c h e = rw e refl
leading_value-append acc (d ∷ t) c h e =
    ground (arith, leading_value-append (acc * 10 + (d - 48)) t c)

one_digit : (n : ℕ) → n < 10 → leading_value 0 ((48 + n) ∷ []) ≡ n
unfolding leading_value
one_digit n h = ground (arith, digit_IsDigit n h)

pub leading_value-decimal : (fuel n : ℕ) → n < ten_to fuel → leading_value 0 (decimal fuel n) ≡ n
unfolding decimal leading_value
leading_value-decimal zero n h = omega (arith, h)
leading_value-decimal (suc fuel) n h =
    go (ltb n 10) refl (leading_value-decimal fuel (n / 10) (omega (arith, h)))
  where
    go :
        (b : Bool)
        → ltb n 10 ≡ b
        → leading_value 0 (decimal fuel (n / 10)) ≡ n / 10
        → leading_value 0 (if b then (48 + n) ∷ [] else decimal fuel (n / 10) ++ (48 + n % 10) ∷ [])
          ≡ n
    go true e r = one_digit n (ltb→lt n 10 e)
    go false e r =
        leading_value-append 0 (decimal fuel (n / 10)) (48 + n % 10)
          (decimal-all_digits fuel (n / 10)) (digit_IsDigit (n % 10) (omega arith))
        ∙ omega (arith, r)

atol_digits : (t : Text) → all_digits t ≡ true → string_atol t ≡ clamp_pos (leading_value 0 t)
unfolding string_atol
atol_digits [] h = refl
atol_digits (c ∷ rest) h = ground arith

atol_minus : (t : Text) → string_atol (45 ∷ t) ≡ clamp_neg (leading_value 0 t)
unfolding string_atol
atol_minus t = refl

pub from_long_pos : (n : ℕ) → string_from_long (pos n) ≡ decimal 20 n
unfolding string_from_long
from_long_pos n = refl

from_long_negsuc : (n : ℕ) → string_from_long (negsuc n) ≡ 45 ∷ decimal 20 (suc n)
unfolding string_from_long
from_long_negsuc n = refl

clamp_pos_in : (n : ℕ) → in_long (pos n) ≡ true → clamp_pos n ≡ pos n
unfolding clamp_pos
clamp_pos_in n h = rw h refl

clamp_neg_in : (n : ℕ) → in_long (negsuc n) ≡ true → clamp_neg (suc n) ≡ negsuc n
unfolding clamp_neg
clamp_neg_in n h = ground arith

-- Reading the text of a `long` gives it back, LONG_MIN included.
pub string_atol-from_long : (v : ℤ) → in_long v ≡ true → string_atol (string_from_long v) ≡ v
string_atol-from_long (pos n) h =
    ap string_atol (from_long_pos n)
    ∙ atol_digits (decimal 20 n) (decimal-all_digits 20 n)
    ∙ ap clamp_pos (leading_value-decimal 20 n (omega (arith, leb→le n long_max h)))
    ∙ clamp_pos_in n h
string_atol-from_long (negsuc n) h =
    ap string_atol (from_long_negsuc n)
    ∙ atol_minus (decimal 20 (suc n))
    ∙ ap clamp_neg (leading_value-decimal 20 (suc n) (omega (arith, leb→le n long_max h)))
    ∙ clamp_neg_in n h

-- Where the frame returns the value's text once it is stored under the name, a reference to the variable after an
-- assignment has the value that was assigned.
pub read-store_variable :
    {F : Type 0} (vars : Variables F) (input : Text) (name : Text) (v : ℤ) (frame : F)
    → vars.get (vars.set frame name (string_from_long v)) name ≡ some (string_from_long v)
    → in_long v ≡ true
    → read_variable vars input name (store_variable vars input name v frame).1 ≡ v
unfolding read_variable store_variable
read-store_variable vars input name v frame law h = ap read law ∙ string_atol-from_long v h
  where
    read : Option Text → ℤ
    read none = pos 0
    read (some value) = string_atol value
