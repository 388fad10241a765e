-- ===== src/Arithmetic/Token.antt =====
-- The scanner of src/arithmetic.c. A cursor is `parser->pos`: `here rest` is the position whose
-- remaining text is `rest`, and `before_start` is the position -1, which the scan of a name that
-- ends the input leaves (`string_find_first_not_of_predicate_at` returns -1 there).
-- A number's token holds its exact value; where that passes LONG_MAX the C loop has overflowed, and
-- the evaluator turns it into `undefined`.
use migash.Prelude.{
  ℕ, ◌+◌, ◌-◌, ◌*◌, Bool, false, ◌&&◌, ◌||◌, [], ◌∷◌, Option, none, some, if◌then◌else◌, leb, ◌==◌,
  Text, is_digit, is_alpha, is_space,
}

-- The operators that take two operands, also those of the compound assignments.
pub data BinaryOp : Type 0 where
  multiply divide modulo plus minus left_shift right_shift : BinaryOp
  less greater less_equal greater_equal equal not_equal : BinaryOp
  bit_and bit_xor bit_or logical_and logical_or : BinaryOp

-- `math_token_type_t` with the payload of `math_token_t`. `assign_with op` is `op=`.
pub data Token : Type 0 where
  number : ℕ → Token
  variable : Text → Token
  lparen rparen bit_not logical_not question colon comma assign eof : Token
  binary : BinaryOp → Token
  assign_with : BinaryOp → Token

pub data Cursor : Type 0 where
  here : Text → Cursor
  before_start : Cursor

unfoldable pub is_alpha_or_underscore : ℕ → Bool
is_alpha_or_underscore c = is_alpha c || c == b'_'

unfoldable pub is_alnum_or_underscore : ℕ → Bool
is_alnum_or_underscore c = is_alpha c || is_digit c || c == b'_'

unfoldable pub skip_whitespace : Text → Text
skip_whitespace [] = []
skip_whitespace (c ∷ rest) = if is_space c then skip_whitespace rest else c ∷ rest

-- The value of a digit in the three loops.
unfoldable pub decimal_digit : ℕ → Option ℕ
decimal_digit c = if is_digit c then some (c - b'0') else none

unfoldable pub octal_digit : ℕ → Option ℕ
octal_digit c = if leb b'0' c && leb c b'7' then some (c - b'0') else none

unfoldable pub hex_digit : ℕ → Option ℕ
hex_digit c =
    if is_digit c
    then some (c - b'0')
    else if leb b'a' c && leb c b'f'
    then some (c - b'a' + 10)
    else if leb b'A' c && leb c b'F'
    then some (c - b'A' + 10)
    else none

-- A digit loop: `value = value * base + digit` up to the first character that is no digit.
unfoldable pub read_digits : (ℕ → Option ℕ) → ℕ → ℕ → Text → ℕ × Text
read_digits digit base value [] = (value, [])
read_digits digit base value (c ∷ rest) = elim (digit c) [
  | none ↦ (value, c ∷ rest)
  | some d ↦ read_digits digit base (value * base + d) rest
]

-- The text stands at a digit, `c`.
unfoldable pub read_number : ℕ → Text → ℕ × Text
read_number c [] = read_digits decimal_digit 10 0 (c ∷ [])
read_number c (next ∷ rest) =
    if c == b'0'
    then (if next == b'x' || next == b'X'
        then read_digits hex_digit 16 0 rest
        else if leb b'0' next && leb next b'7'
        then read_digits octal_digit 8 0 (next ∷ rest)
        else (0, next ∷ rest))
    else read_digits decimal_digit 10 0 (c ∷ next ∷ rest)

-- The name at the front, and what follows it.
unfoldable pub read_name : Text → Text × Text
unfolding is_alnum_or_underscore
read_name [] = ([], [])
read_name (c ∷ rest) =
    let (name, after) = read_name rest in
    if is_alnum_or_underscore c then (c ∷ name, after) else ([], c ∷ rest)

-- `parser->pos = endpos`, which is -1 where the name ends the input.
unfoldable pub end_of_name : Text → Cursor
end_of_name [] = before_start
end_of_name (c ∷ rest) = here (c ∷ rest)

-- `string_at(parser->input, parser->pos) == c`: false at the end, where it reads NUL.
unfoldable pub next_is : ℕ → Text → Bool
next_is c [] = false
next_is c (d ∷ rest) = d == c

unfoldable pub skip : Text → Text
skip [] = []
skip (c ∷ rest) = rest

unfoldable pub or_assign : BinaryOp → Text → Token × Text
unfolding next_is skip
or_assign op rest = if next_is b'=' rest then (assign_with op, skip rest) else (binary op, rest)

unfoldable pub less_token : Text → Token × Text
unfolding or_assign
less_token rest =
    if next_is b'<' rest
    then or_assign left_shift (skip rest)
    else if next_is b'=' rest
    then (binary less_equal, skip rest)
    else (binary less, rest)

unfoldable pub greater_token : Text → Token × Text
unfolding or_assign
greater_token rest =
    if next_is b'>' rest
    then or_assign right_shift (skip rest)
    else if next_is b'=' rest
    then (binary greater_equal, skip rest)
    else (binary greater, rest)

-- `&` and `|`: doubled, with `=`, or alone.
unfoldable pub doubled : ℕ → BinaryOp → BinaryOp → Text → Token × Text
unfolding or_assign
doubled c logical bitwise rest =
    if next_is c rest then (binary logical, skip rest) else or_assign bitwise rest

-- The `switch` on an operator's first character; an invalid character is the end of the input.
unfoldable pub operator : ℕ → Text → Token × Text
unfolding or_assign less_token greater_token doubled
operator c rest =
    if c == b'('
    then (lparen, rest)
    else if c == b')'
    then (rparen, rest)
    else if c == b'+'
    then or_assign plus rest
    else if c == b'-'
    then or_assign minus rest
    else if c == b'*'
    then or_assign multiply rest
    else if c == b'/'
    then or_assign divide rest
    else if c == b'%'
    then or_assign modulo rest
    else if c == b'~'
    then (bit_not, rest)
    else if c == b'!'
    then (if next_is b'=' rest then (binary not_equal, skip rest) else (logical_not, rest))
    else if c == b'<'
    then less_token rest
    else if c == b'>'
    then greater_token rest
    else if c == b'='
    then (if next_is b'=' rest then (binary equal, skip rest) else (assign, rest))
    else if c == b'&'
    then doubled b'&' logical_and bit_and rest
    else if c == b'^'
    then or_assign bit_xor rest
    else if c == b'|'
    then doubled b'|' logical_or bit_or rest
    else if c == b'?'
    then (question, rest)
    else if c == b':'
    then (colon, rest)
    else if c == b','
    then (comma, rest)
    else (eof, rest)

-- The scan at a character that is no space.
unfoldable pub token_at : ℕ → Text → Token × Cursor
token_at c rest =
    if is_digit c
    then (let (value, after) = read_number c rest in (number value, here after))
    else if is_alpha_or_underscore c
    then (let (name, after) = read_name (c ∷ rest) in (variable name, end_of_name after))
    else (let (token, after) = operator c rest in (token, here after))

unfoldable pub first_token : Text → Token × Cursor
first_token [] = (eof, here [])
first_token (c ∷ rest) = token_at c rest

-- `get_token`. From the position -1 it reads NUL, an invalid character, and moves to position 0.
unfoldable pub get_token : Text → Cursor → Token × Cursor
get_token input (here rest) = first_token (skip_whitespace rest)
get_token input before_start = (eof, here input)

-- -1, which is below every minimum, is `none`.
unfoldable pub binary_precedence : BinaryOp → ℕ
binary_precedence logical_or = 4
binary_precedence logical_and = 5
binary_precedence bit_or = 6
binary_precedence bit_xor = 7
binary_precedence bit_and = 8
binary_precedence equal = 9
binary_precedence not_equal = 9
binary_precedence less = 10
binary_precedence greater = 10
binary_precedence less_equal = 10
binary_precedence greater_equal = 10
binary_precedence left_shift = 11
binary_precedence right_shift = 11
binary_precedence plus = 12
binary_precedence minus = 12
binary_precedence multiply = 13
binary_precedence divide = 13
binary_precedence modulo = 13

unfoldable pub get_precedence : Token → Option ℕ
unfolding binary_precedence
get_precedence comma = some 1
get_precedence question = some 3
get_precedence (binary op) = some (binary_precedence op)
get_precedence _ = none
