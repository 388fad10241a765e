-- ===== src/Arithmetic/Variables.antt =====
-- The variables of the frame as src/arithmetic.c uses them, and the two conversions of
-- src/string_t.c between a variable's text and a `long`.
use migash.Prelude.{
  ℕ, zero, suc, ◌+◌, ◌-◌, ◌*◌, ◌/◌, ◌%◌, [], ◌∷◌, ◌++◌, Option, if◌then◌else◌, leb, ltb, ◌==◌, Text,
  is_digit, is_space,
}
use migash.Prelude.Int.{ℤ, pos, negsuc, sub_ℕ}
use migash.Arithmetic.Long.{long_max}

-- `get` is the lookup behind `frame_has_variable` and `frame_get_variable_value`, `none` where it
-- returns NULL. `set` is `frame_set_variable`, whose status the evaluator ignores.
pub record Variables (F : Type 0) : Type 0 where
  pub get : F → Text → Option Text
  pub set : F → Text → Text → F

-- The digits at the front of a text, read in base ten.
unfoldable pub leading_value : ℕ → Text → ℕ
leading_value acc [] = acc
leading_value acc (c ∷ rest) =
    let more = leading_value (acc * 10 + (c - b'0')) rest in if is_digit c then more else acc

-- A value out of range is replaced by the end of the range.
unfoldable pub clamp_pos : ℕ → ℤ
clamp_pos n = if leb n long_max then pos n else pos long_max

unfoldable pub clamp_neg : ℕ → ℤ
clamp_neg n = if leb n (suc long_max) then sub_ℕ 0 n else negsuc long_max

unfoldable pub signed_value : Text → ℤ
unfolding leading_value clamp_pos clamp_neg
signed_value [] = pos 0
signed_value (c ∷ rest) =
    if c == b'-'
    then clamp_neg (leading_value 0 rest)
    else if c == b'+'
    then clamp_pos (leading_value 0 rest)
    else clamp_pos (leading_value 0 (c ∷ rest))

-- `string_atol`: the C library's `strtol` in base ten.
unfoldable pub string_atol : Text → ℤ
unfolding signed_value
string_atol [] = pos 0
string_atol (c ∷ rest) = if is_space c then string_atol rest else signed_value (c ∷ rest)

-- The decimal digits of a number of at most `fuel` digits.
unfoldable pub decimal : ℕ → ℕ → Text
decimal zero n = []
decimal (suc fuel) n =
    let more = decimal fuel (n / 10) ++ (b'0' + n % 10) ∷ [] in
    if ltb n 10 then (b'0' + n) ∷ [] else more

-- `string_from_long`: "%ld". A `long` has at most 19 digits.
unfoldable pub string_from_long : ℤ → Text
unfolding decimal
string_from_long (pos n) = decimal 20 n
string_from_long (negsuc n) = b'-' ∷ decimal 20 (suc n)
