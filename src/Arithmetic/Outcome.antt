-- ===== src/Arithmetic/Outcome.antt =====
-- `ArithmeticResult` of src/arithmetic.h: a value, or an error message.
-- Two outcomes have no counterpart in it. `undefined`: the C program has overflowed a `long`,
-- shifted by a bad amount or divided LONG_MIN by -1, and the language gives that no meaning.
-- `out_of_fuel`: the model's recursion was cut short.

pub data Message : Type 0 where
  frame_is_null expression_is_null expansion_failed unexpected_tokens : Message
  expected_colon expected_rparen expected_operand unknown_operator : Message
  division_by_zero modulo_by_zero : Message
  division_by_zero_in_assignment modulo_by_zero_in_assignment : Message

pub data Outcome {ℓ} (A : Type ℓ) : Type ℓ where
  ok : A → Outcome A
  failed : Message → Outcome A
  undefined : Outcome A
  out_of_fuel : Outcome A

-- A computation that reads and writes the frame. What was assigned before an error stays assigned.
abbrev pub M {ℓ} : Type ℓ → Type ℓ → Type ℓ
M F A = F → Outcome A × F

abbrev pub continue {ℓ} : {F A B : Type ℓ} → Outcome A × F → (A → M F B) → Outcome B × F
continue (ok a, s) f = f a s
continue (failed m, s) f = (failed m, s)
continue (undefined, s) f = (undefined, s)
continue (out_of_fuel, s) f = (out_of_fuel, s)

abbrev pub pure {ℓ} : {F A : Type ℓ} → A → M F A
pure a s = (ok a, s)

-- A computation that leaves the frame alone.
abbrev pub lift {ℓ} : {F A : Type ℓ} → Outcome A → M F A
lift r s = (r, s)

infixl 5 ◌>>=◌
abbrev pub ◌>>=◌ {ℓ} : {F A B : Type ℓ} → M F A → (A → M F B) → M F B
◌>>=◌ m f s = continue (m s) f
