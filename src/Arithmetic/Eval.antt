-- ===== src/Arithmetic/Eval.antt =====
-- The evaluator of src/arithmetic.c: `parse_expression`, its loop, `parse_primary` and
-- `arithmetic_evaluate` on an expression that is already expanded.
use migash.Prelude.{
  ℕ, zero, suc, ◌+◌, Bool, true, false, not, [], ◌∷◌, Option, none, some, if◌then◌else◌, ltb,
  length, ◌*◌, Text, leb, ◌&&◌,
}
use migash.Prelude.Int.{ℤ, pos, ◌+ℤ◌, ◌-ℤ◌, ◌*ℤ◌, ◌==ℤ◌, ltb_ℤ}
use migash.Arithmetic.Outcome.{
  Outcome, ok, failed, undefined, out_of_fuel, M, pure, lift, ◌>>=◌, unexpected_tokens,
  expansion_failed, expected_colon, expected_rparen, expected_operand, unknown_operator,
  division_by_zero, modulo_by_zero, division_by_zero_in_assignment, modulo_by_zero_in_assignment,
}
use migash.Arithmetic.Long.{
  long_max, to_long, is_true, from_bool, divide, modulo, shift_left, shift_right, bits_not,
  bits_and, bits_or, bits_xor,
}
use migash.Arithmetic.Token
use migash.Arithmetic.Token.{
  BinaryOp, Token, Cursor, here, first_token, token_at, read_number, read_digits, decimal_digit,
  octal_digit, hex_digit, read_name, end_of_name, operator, is_alpha_or_underscore, skip_whitespace,
  before_start, get_token, get_precedence, binary_precedence, number, variable, lparen, rparen,
  bit_not, logical_not, question, colon, comma, assign, eof, binary, assign_with, multiply, plus,
  minus, left_shift, right_shift, less, greater, less_equal, greater_equal, equal, not_equal,
  bit_and, bit_xor, bit_or, logical_and, logical_or,
}
use migash.Arithmetic.Variables.{Variables, string_atol, string_from_long}

-- The prefix operators that `parse_expression` looks for.
pub data UnaryOp : Type 0 where
  keep_sign negate complement negation : UnaryOp

unfoldable pub unary_operator : Token → Option UnaryOp
unary_operator (binary plus) = some keep_sign
unary_operator (binary minus) = some negate
unary_operator bit_not = some complement
unary_operator logical_not = some negation
unary_operator _ = none

unfoldable pub apply_unary : UnaryOp → ℤ → Outcome ℤ
unfolding to_long bits_not
apply_unary keep_sign v = ok v
apply_unary negate v = to_long (pos 0 -ℤ v)
apply_unary complement v = ok (bits_not v)
apply_unary negation v = ok (from_bool (not (is_true v)))

-- The `switch` that applies an operator to `left` and `right`.
unfoldable pub apply_binary : BinaryOp → ℤ → ℤ → Outcome ℤ
unfolding to_long divide modulo shift_left shift_right bits_and bits_or bits_xor
apply_binary multiply a b = to_long (a *ℤ b)
apply_binary Token.divide a b = divide division_by_zero a b
apply_binary Token.modulo a b = modulo modulo_by_zero a b
apply_binary plus a b = to_long (a +ℤ b)
apply_binary minus a b = to_long (a -ℤ b)
apply_binary left_shift a b = shift_left a b
apply_binary right_shift a b = shift_right a b
apply_binary less a b = ok (from_bool (ltb_ℤ a b))
apply_binary greater a b = ok (from_bool (ltb_ℤ b a))
apply_binary less_equal a b = ok (from_bool (not (ltb_ℤ b a)))
apply_binary greater_equal a b = ok (from_bool (not (ltb_ℤ a b)))
apply_binary equal a b = ok (from_bool (a ==ℤ b))
apply_binary not_equal a b = ok (from_bool (not (a ==ℤ b)))
apply_binary bit_and a b = ok (bits_and a b)
apply_binary bit_xor a b = ok (bits_xor a b)
apply_binary bit_or a b = ok (bits_or a b)
apply_binary logical_and a b = ok (from_bool (is_true a && is_true b))
apply_binary logical_or a b = ok (from_bool (if is_true a then true else is_true b))

-- `return left` before the right operand is read: true || ..., false && ...
unfoldable pub short_circuits : BinaryOp → ℤ → Bool
short_circuits logical_or left = is_true left
short_circuits logical_and left = not (is_true left)
short_circuits _ left = false

-- The `switch` of an assignment: the variable's old value and the right side.
unfoldable pub apply_assign : BinaryOp → ℤ → ℤ → Outcome ℤ
unfolding apply_binary
apply_assign Token.divide old v = divide division_by_zero_in_assignment old v
apply_assign Token.modulo old v = modulo modulo_by_zero_in_assignment old v
apply_assign op old v = apply_binary op old v

-- Whether an assignment operator follows the name, and which: `some none` is `=`.
unfoldable pub assignment : Token → Option (Option BinaryOp)
assignment assign = some none
assignment (assign_with op) = some (some op)
assignment _ = none

-- `prec < min_precedence`
unfoldable pub binds_less : Option ℕ → ℕ → Bool
binds_less none min_precedence = true
binds_less (some prec) min_precedence = ltb prec min_precedence

unfoldable pub expect_colon : Token → Outcome (Unit {0})
expect_colon colon = ok tt
expect_colon _ = failed expected_colon

unfoldable pub expect_rparen : Token → Outcome (Unit {0})
expect_rparen rparen = ok tt
expect_rparen _ = failed expected_rparen

unfoldable pub literal : ℕ → Outcome ℤ
literal n = if leb n long_max then ok (pos n) else undefined

module _ {F : Type 0} (vars : Variables F) (input : Text) where
  unfoldable pub read_variable : Text → F → ℤ
  unfolding string_atol
  read_variable name frame = elim (vars.get frame name) [
    | none ↦ pos 0
    | some value ↦ string_atol value
  ]

  unfoldable pub store_variable : Text → ℤ → M F ℤ
  unfolding string_from_long
  store_variable name v frame = (ok v, vars.set frame name (string_from_long v))

  -- The value that an assignment stores, from the old value in the frame.
  unfoldable pub assigned_value : Option BinaryOp → Text → ℤ → M F ℤ
  unfolding read_variable apply_assign
  assigned_value none name v frame = (ok v, frame)
  assigned_value (some op) name v frame = (apply_assign op (read_variable name frame) v, frame)

  -- Each call costs a unit of fuel.
  unfoldable mutual
    pub parse_expression : ℕ → Cursor → ℕ → M F (ℤ × Cursor)
    parse_expression zero cursor min_precedence = lift out_of_fuel
    parse_expression (suc f) cursor min_precedence =
        let (token, after) = get_token input cursor in
        elim (unary_operator token) [
          | some op ↦ do
            (v, next) ← parse_expression f after 14
            left ← lift (apply_unary op v)
            climb f next min_precedence left
          | none ↦ do (left, next) ← parse_primary f cursor; climb f next min_precedence left
        ]

    pub climb : ℕ → Cursor → ℕ → ℤ → M F (ℤ × Cursor)
    climb zero cursor min_precedence left = lift out_of_fuel
    climb (suc f) cursor min_precedence left =
        let (token, after) = get_token input cursor in
        elim (binds_less (get_precedence token) min_precedence) [
          | true ↦ pure (left, cursor)
          | false ↦ climb_on f token after min_precedence left
        ]

    -- The body of the loop behind the test on the precedence.
    pub climb_on : ℕ → Token → Cursor → ℕ → ℤ → M F (ℤ × Cursor)
    climb_on zero token after min_precedence left = lift out_of_fuel
    climb_on (suc f) comma after min_precedence left = do
      (right, next) ← parse_expression f after 2
      climb f next min_precedence left
    climb_on (suc f) question after min_precedence left = do
      (true_value, at_colon) ← parse_expression f after 0
      let (token, after_colon) = get_token input at_colon
      _ ← lift (expect_colon token)
      (false_value, next) ← parse_expression f after_colon 3
      climb f next min_precedence (if is_true left then true_value else false_value)
    climb_on (suc f) (binary op) after min_precedence left = elim (short_circuits op left) [
      | true ↦ pure (left, after)
      | false ↦ do
        (right, next) ← parse_expression f after (binary_precedence op + 1)
        left' ← lift (apply_binary op left right)
        climb f next min_precedence left'
    ]
    climb_on (suc f) _ after min_precedence left = lift (failed unknown_operator)

    pub parse_primary : ℕ → Cursor → M F (ℤ × Cursor)
    parse_primary zero cursor = lift out_of_fuel
    parse_primary (suc f) cursor =
        let (token, after) = get_token input cursor in primary f token after

    pub primary : ℕ → Token → Cursor → M F (ℤ × Cursor)
    primary zero token after = lift out_of_fuel
    primary (suc f) (number n) after = do v ← lift (literal n); pure (v, after)
    primary (suc f) (variable name) after =
        let (token, after_op) = get_token input after in
        elim (assignment token) [
          | none ↦ λ frame. (ok (read_variable name frame, after), frame)
          | some op ↦ do
            (v, next) ← parse_expression f after_op 0
            value ← assigned_value op name v
            stored ← store_variable name value
            pure (stored, next)
        ]
    primary (suc f) lparen after = do
      (v, at_rparen) ← parse_expression f after 0
      let (token, next) = get_token input at_rparen
      _ ← lift (expect_rparen token)
      pure (v, next)
    primary (suc f) _ after = lift (failed expected_operand)

unfoldable pub expect_end : Token → ℤ → Outcome ℤ
expect_end eof v = ok v
expect_end _ v = failed unexpected_tokens

-- `arithmetic_evaluate` on the text that `arithmetic_expand_expression` returned.
unfoldable pub evaluate_expanded : {F : Type 0} → Variables F → ℕ → Text → M F ℤ
unfolding ◌==ℤ◌ parse_expression expect_end get_token first_token token_at read_number read_digits
    decimal_digit octal_digit hex_digit read_name end_of_name operator is_alpha_or_underscore
    skip_whitespace get_precedence unary_operator apply_unary apply_binary short_circuits binds_less
    expect_colon expect_rparen literal read_variable store_variable assigned_value assignment
evaluate_expanded vars fuel [] = pure (pos 0)
evaluate_expanded vars fuel (c ∷ rest) = do
  (v, cursor) ← parse_expression vars (c ∷ rest) fuel (here (c ∷ rest)) 0
  let (token, after) = get_token (c ∷ rest) cursor
  lift (expect_end token v)

-- `arithmetic_evaluate`: `expanded` is what `arithmetic_expand_expression` returned, `none` for
-- NULL. The fuel is enough for every text.
unfoldable pub arithmetic_evaluate : {F : Type 0} → Variables F → Option Text → M F ℤ
unfolding evaluate_expanded
arithmetic_evaluate vars none = lift (failed expansion_failed)
arithmetic_evaluate vars (some text) = evaluate_expanded vars (8 * length text + 6) text
