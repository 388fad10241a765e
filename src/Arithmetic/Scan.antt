-- ===== src/Arithmetic/Scan.antt =====
-- What the scanner reads at the decimal digits of a number, and at an operator before a digit.
use migash.Prelude.{
  ℕ, zero, suc, ◌+◌, ◌-◌, ◌*◌, ◌/◌, ◌%◌, ◌≤◌, ◌<◌, ◌≡◌, refl, ap, ◌∙◌, Bool, true, false, ◌||◌, not,
  [], ◌∷◌, ◌++◌, arith, if◌then◌else◌, ltb, ◌==◌, Text, is_digit, is_space,
}
use migash.Arithmetic.Variables.{leading_value, decimal}
use migash.Arithmetic.Decimal.{all_digits, ten_to, decimal-all_digits, leading_value-decimal}
use migash.Arithmetic.Token.{
  BinaryOp, multiply, divide, modulo, plus, minus, left_shift, right_shift, less, greater,
  less_equal, greater_equal, equal, not_equal, bit_and, bit_xor, bit_or, logical_and, logical_or,
  Token, number, binary, eof, Cursor, here, read_digits, decimal_digit, read_number,
  skip_whitespace, first_token, token_at, get_token, operator, is_alpha_or_underscore,
}

-- What may follow a number: its end, or a character that no literal goes on with.
abbrev pub stops : Text → Bool
stops [] = true
stops (c ∷ rest) = not (is_digit c || c == b'x' || c == b'X')

read_digits-stops :
    (value : ℕ) (rest : Text)
    → stops rest ≡ true
    → read_digits decimal_digit 10 value rest ≡ (value, rest)
unfolding read_digits decimal_digit
read_digits-stops value [] h = refl
read_digits-stops value (c ∷ rest) h = ground arith

read_digits-append :
    (value : ℕ) (t rest : Text)
    → all_digits t ≡ true
    → stops rest ≡ true
    → read_digits decimal_digit 10 value (t ++ rest) ≡ (leading_value value t, rest)
unfolding read_digits decimal_digit leading_value
read_digits-append value [] rest h s = read_digits-stops value rest s
read_digits-append value (c ∷ t) rest h s =
    ground (arith, read_digits-append (value * 10 + (c - 48)) t rest)

abbrev leads : Text → Bool
leads [] = false
leads (c ∷ rest) = not (c == 48)

leads-append : (t u : Text) → leads t ≡ true → leads (t ++ u) ≡ true
leads-append [] u h = cc
leads-append (c ∷ t) u h = h

-- A number that is not zero is written without a leading zero.
decimal-leads : (fuel n : ℕ) → 1 ≤ n → n < ten_to fuel → leads (decimal fuel n) ≡ true
unfolding decimal
decimal-leads zero n g h = absurd (omega arith)
decimal-leads (suc fuel) n g h =
    go (ltb n 10) refl (λ big. decimal-leads fuel (n / 10) (omega (arith, big)) (omega (arith, h)))
  where
    go :
        (b : Bool)
        → ltb n 10 ≡ b
        → (10 ≤ n → leads (decimal fuel (n / 10)) ≡ true)
        → leads (if b then (48 + n) ∷ [] else decimal fuel (n / 10) ++ (48 + n % 10) ∷ []) ≡ true
    go true e k = ground arith
    go false e k = leads-append (decimal fuel (n / 10)) ((48 + n % 10) ∷ []) (k (ground arith))

read_number-leads :
    (c : ℕ) (u : Text)
    → (c == 48) ≡ false
    → read_number c u ≡ read_digits decimal_digit 10 0 (c ∷ u)
unfolding read_number
read_number-leads c [] h = refl
read_number-leads c (next ∷ rest) h = rw h refl

-- A decimal literal from its first digit on.
first_token-digits :
    (t rest : Text)
    → all_digits t ≡ true
    → leads t ≡ true
    → stops rest ≡ true
    → first_token (skip_whitespace (t ++ rest)) ≡ (number (leading_value 0 t), here rest)
unfolding first_token token_at skip_whitespace
first_token-digits [] rest h l s = cc
first_token-digits (c ∷ t) rest h l s =
    let space : is_space c ≡ false = ground arith in
    let digit : is_digit c ≡ true = ground arith in
    let start : (c == 48) ≡ false = ground arith in
    rw (space, digit)
      (ap as_token (read_number-leads c (t ++ rest) start ∙ read_digits-append 0 (c ∷ t) rest h s))
  where
    as_token : ℕ × Text → Token × Cursor
    as_token (value, after) = (number value, here after)

first_token-zero :
    (rest : Text)
    → stops rest ≡ true
    → first_token (skip_whitespace (48 ∷ rest)) ≡ (number 0, here rest)
unfolding first_token token_at read_number skip_whitespace read_digits decimal_digit
first_token-zero [] s = refl
first_token-zero (c ∷ rest) s = ground arith

decimal_zero : decimal 20 0 ≡ 48 ∷ []
unfolding decimal
decimal_zero = refl

-- The scanner reads the decimal text of a number as that number.
pub get_token-decimal :
    (input : Text) (n : ℕ) (rest : Text)
    → n < ten_to 20
    → stops rest ≡ true
    → get_token input (here (decimal 20 n ++ rest)) ≡ (number n, here rest)
unfolding get_token
get_token-decimal input zero rest h s =
    ap (λ t. first_token (skip_whitespace (t ++ rest))) decimal_zero ∙ first_token-zero rest s
get_token-decimal input (suc n) rest h s =
    first_token-digits (decimal 20 (suc n)) rest (decimal-all_digits 20 (suc n))
      (decimal-leads 20 (suc n) (omega arith) h) s
    ∙ ap (λ v. (number v, here rest)) (leading_value-decimal 20 (suc n) h)

-- An operator as it is written.
pub op_text : BinaryOp → Text
op_text multiply = b'*' ∷ []
op_text divide = b'/' ∷ []
op_text modulo = b'%' ∷ []
op_text plus = b'+' ∷ []
op_text minus = b'-' ∷ []
op_text left_shift = b'<' ∷ b'<' ∷ []
op_text right_shift = b'>' ∷ b'>' ∷ []
op_text less = b'<' ∷ []
op_text greater = b'>' ∷ []
op_text less_equal = b'<' ∷ b'=' ∷ []
op_text greater_equal = b'>' ∷ b'=' ∷ []
op_text equal = b'=' ∷ b'=' ∷ []
op_text not_equal = b'!' ∷ b'=' ∷ []
op_text bit_and = b'&' ∷ []
op_text bit_xor = b'^' ∷ []
op_text bit_or = b'|' ∷ []
op_text logical_and = b'&' ∷ b'&' ∷ []
op_text logical_or = b'|' ∷ b'|' ∷ []

abbrev pub starts_with_digit : Text → Bool
starts_with_digit [] = false
starts_with_digit (c ∷ rest) = is_digit c

-- The scanner reads an operator before a digit as that operator.
pub get_token-op_text :
    (input : Text) (op : BinaryOp) (rest : Text)
    → starts_with_digit rest ≡ true
    → get_token input (here (op_text op ++ rest)) ≡ (binary op, here rest)
unfolding get_token first_token token_at skip_whitespace operator op_text is_alpha_or_underscore
get_token-op_text input op [] h = cc
get_token-op_text input op (c ∷ rest) h = go op
  where
    eq : (c == b'=') ≡ false
    eq = ground arith

    lt : (c == b'<') ≡ false
    lt = ground arith

    gt : (c == b'>') ≡ false
    gt = ground arith

    amp : (c == b'&') ≡ false
    amp = ground arith

    bar : (c == b'|') ≡ false
    bar = ground arith

    go :
        (o : BinaryOp)
        → first_token (skip_whitespace (op_text o ++ c ∷ rest)) ≡ (binary o, here (c ∷ rest))
    go multiply = rw eq refl
    go divide = rw eq refl
    go modulo = rw eq refl
    go plus = rw eq refl
    go minus = rw eq refl
    go left_shift = rw eq refl
    go right_shift = rw eq refl
    go less = rw (lt, eq) refl
    go greater = rw (gt, eq) refl
    go less_equal = refl
    go greater_equal = refl
    go equal = refl
    go not_equal = refl
    go bit_and = rw (amp, eq) refl
    go bit_xor = rw eq refl
    go bit_or = rw (bar, eq) refl
    go logical_and = refl
    go logical_or = refl

pub stops-op_text : (op : BinaryOp) (rest : Text) → stops (op_text op ++ rest) ≡ true
unfolding op_text
stops-op_text multiply rest = refl
stops-op_text divide rest = refl
stops-op_text modulo rest = refl
stops-op_text plus rest = refl
stops-op_text minus rest = refl
stops-op_text left_shift rest = refl
stops-op_text right_shift rest = refl
stops-op_text less rest = refl
stops-op_text greater rest = refl
stops-op_text less_equal rest = refl
stops-op_text greater_equal rest = refl
stops-op_text equal rest = refl
stops-op_text not_equal rest = refl
stops-op_text bit_and rest = refl
stops-op_text bit_xor rest = refl
stops-op_text bit_or rest = refl
stops-op_text logical_and rest = refl
stops-op_text logical_or rest = refl

starts-leads : (t : Text) → all_digits t ≡ true → leads t ≡ true → starts_with_digit t ≡ true
starts-leads [] h l = l
starts-leads (c ∷ rest) h l = ground arith

pub starts-decimal : (n : ℕ) → n < ten_to 20 → starts_with_digit (decimal 20 n) ≡ true
starts-decimal zero h = ap starts_with_digit decimal_zero
starts-decimal (suc n) h =
    starts-leads (decimal 20 (suc n)) (decimal-all_digits 20 (suc n))
      (decimal-leads 20 (suc n) (omega arith) h)

pub get_token-end : (input : Text) → get_token input (here []) ≡ (eof, here [])
unfolding get_token first_token skip_whitespace
get_token-end input = refl
