-- ===== src/Arithmetic/Operators.antt =====
-- arithmetic_evaluate on a decimal literal, and on an operator between two.
use migash.Prelude.{
  ℕ, suc, ◌+◌, ◌*◌, ◌<◌, ◌≡◌, leb→le, refl, sym, ap, ◌∙◌, Bool, true, false, [], ◌∷◌, ◌++◌, some,
  arith, if◌then◌else◌, leb, length, Text, append-nil,
}
use mathlib.Core.Path.{subst}
use migash.Prelude.Int.{ℤ, pos}
use migash.Arithmetic.Outcome.{
  Outcome, ok, failed, undefined, out_of_fuel, M, continue, lift, pure, unexpected_tokens,
}
use migash.Arithmetic.Long.{long_max}
use migash.Arithmetic.Variables.{Variables, decimal, string_from_long}
use migash.Arithmetic.Decimal.{ten_to, from_long_pos}
use migash.Arithmetic.Token.{BinaryOp, Token, number, eof, Cursor, here, get_token}
use migash.Arithmetic.Scan.{
  op_text, get_token-decimal, get_token-op_text, stops-op_text, starts-decimal, get_token-end,
}
use migash.Arithmetic.Literals.{
  binary_result, parse_expression-number, parse_expression-binary, climb-eof,
}
use migash.Arithmetic.Values.{value, decides, short_circuits-decides, apply_binary-value}
use migash.Arithmetic.Eval.{
  apply_binary, short_circuits, parse_expression, expect_end, evaluate_expanded,
  arithmetic_evaluate,
}

-- The text of the operator between two numbers.
abbrev pub expression : BinaryOp → ℕ → ℕ → Text
expression op m n = string_from_long (pos m) ++ (op_text op ++ string_from_long (pos n))

get_token-decimal_last :
    (input : Text) (n : ℕ)
    → n < ten_to 20
    → get_token input (here (decimal 20 n)) ≡ (number n, here [])
get_token-decimal_last input n h =
    subst (λ t. get_token input (here t) ≡ (number n, here [])) (append-nil (decimal 20 n))
      (get_token-decimal input n [] h refl)

module _ {F : Type 0} (vars : Variables F) where
  -- The check behind the expression.
  finish : Text → ℤ × Cursor → M F ℤ
  finish text x = lift (expect_end (get_token text x.1).0 x.0)

  evaluate_run :
      (fuel m : ℕ) (text : Text) (after : Cursor) (s : F)
      → get_token text (here text) ≡ (number m, after)
      → evaluate_expanded vars fuel text s
        ≡ continue (parse_expression vars text fuel (here text) 0 s) (finish text)
  unfolding evaluate_expanded finish
  evaluate_run fuel m [] after s e =
      let bad : eof ≡ number m =
        sym (ap (λ (r : Token × Cursor). r.0) (get_token-end []))
        ∙ ap (λ (r : Token × Cursor). r.0) e in
      absurd cc
  evaluate_run fuel m (c ∷ rest) after s e = refl

  finish-end :
      (text : Text) (o : Outcome ℤ) (s : F)
      → continue (continue (o, s) (λ v. pure (v, here []))) (finish text) ≡ (o, s)
  unfolding finish expect_end
  finish-end text (ok v) s = ap (λ (r : Token × Cursor). (expect_end r.0 v, s)) (get_token-end text)
  finish-end text (failed m) s = refl
  finish-end text undefined s = refl
  finish-end text out_of_fuel s = refl

  finish-number :
      (text t : Text) (n : ℕ) (v : ℤ) (after : Cursor) (s : F)
      → get_token text (here t) ≡ (number n, after)
      → finish text (v, here t) s ≡ (failed unexpected_tokens, s)
  unfolding finish expect_end
  finish-number text t n v after s e = ap (λ (r : Token × Cursor). (expect_end r.0 v, s)) e

  finish-binary :
      (text : Text) (op : BinaryOp) (m n : ℕ) (t : Text) (s : F)
      → get_token text (here t) ≡ (number n, here [])
      → continue (binary_result vars text op m n t s) (finish text) ≡ (
        if short_circuits op (pos m)
            then failed unexpected_tokens
            else apply_binary op (pos m) (pos n),
        s,
      )
  finish-binary text op m n t s e = go (short_circuits op (pos m))
    where
      go :
          (b : Bool)
          → continue
              (if b
                then (ok (pos m, here t), s)
                else continue (apply_binary op (pos m) (pos n), s) (λ v. pure (v, here [])))
              (finish text)
            ≡ (if b then failed unexpected_tokens else apply_binary op (pos m) (pos n), s)
      go true = finish-number text t n (pos m) (here []) s e
      go false = finish-end text (apply_binary op (pos m) (pos n)) s

  evaluate_some :
      (text : Text) (s : F)
      → arithmetic_evaluate vars (some text) s
        ≡ evaluate_expanded vars (suc (suc (suc (suc (suc (suc (8 * length text))))))) text s
  unfolding arithmetic_evaluate
  evaluate_some text s =
      let fuel : 8 * length text + 6 ≡ suc (suc (suc (suc (suc (suc (8 * length text)))))) =
        omega arith in
      ap (λ f. evaluate_expanded vars f text s) fuel

  evaluate_binary :
      (op : BinaryOp) (m n : ℕ) (s : F)
      → leb m long_max ≡ true
      → leb n long_max ≡ true
      → arithmetic_evaluate vars (some (decimal 20 m ++ (op_text op ++ decimal 20 n))) s ≡ (
        if short_circuits op (pos m)
            then failed unexpected_tokens
            else apply_binary op (pos m) (pos n),
        s,
      )
  evaluate_binary op m n s h k =
      let tail = op_text op ++ decimal 20 n in
      let text = decimal 20 m ++ tail in
      let small_m : m < ten_to 20 = omega (arith, leb→le m long_max h) in
      let small_n : n < ten_to 20 = omega (arith, leb→le n long_max k) in
      let e₁ = get_token-decimal text m tail small_m (stops-op_text op (decimal 20 n)) in
      let e₂ = get_token-op_text text op (decimal 20 n) (starts-decimal n small_n) in
      let e₃ = get_token-decimal_last text n small_n in
      evaluate_some text s
      ∙ evaluate_run _ m text (here tail) s e₁
      ∙ ap (λ (r : Outcome (ℤ × Cursor) × F). continue r (finish text))
          (parse_expression-binary vars text (8 * length text) op m n text tail (decimal 20 n)
            (here []) s e₁ e₂ e₃ (get_token-end text) h k)
      ∙ finish-binary text op m n (decimal 20 n) s e₃

  evaluate_literal :
      (n : ℕ) (s : F)
      → leb n long_max ≡ true
      → arithmetic_evaluate vars (some (decimal 20 n)) s ≡ (ok (pos n), s)
  evaluate_literal n s h =
      let text = decimal 20 n in
      let e = get_token-decimal_last text n (omega (arith, leb→le n long_max h)) in
      evaluate_some text s
      ∙ evaluate_run _ n text (here []) s e
      ∙ ap (λ (r : Outcome (ℤ × Cursor) × F). continue r (finish text))
          (parse_expression-number vars text (suc (suc (suc (8 * length text)))) 0 n text [] s e h
            ∙ climb-eof vars text _ 0 (pos n) (here []) s (get_token-end text))
      ∙ finish-end text (ok (pos n)) s

  -- The decimal text of a number up to LONG_MAX evaluates to that number, and the frame is unchanged.
  pub arithmetic_evaluate-literal :
      (n : ℕ) (s : F)
      → leb n long_max ≡ true
      → arithmetic_evaluate vars (some (string_from_long (pos n))) s ≡ (ok (pos n), s)
  arithmetic_evaluate-literal n s h =
      ap (λ t. arithmetic_evaluate vars (some t) s) (from_long_pos n) ∙ evaluate_literal n s h

  evaluate_expression :
      (op : BinaryOp) (m n : ℕ) (s : F)
      → leb m long_max ≡ true
      → leb n long_max ≡ true
      → arithmetic_evaluate vars (some (expression op m n)) s ≡ (
        if short_circuits op (pos m)
            then failed unexpected_tokens
            else apply_binary op (pos m) (pos n),
        s,
      )
  evaluate_expression op m n s h k =
      ap (λ t. arithmetic_evaluate vars (some (t ++ (op_text op ++ string_from_long (pos n)))) s)
        (from_long_pos m)
      ∙ ap (λ t. arithmetic_evaluate vars (some (decimal 20 m ++ (op_text op ++ t))) s)
          (from_long_pos n)
      ∙ evaluate_binary op m n s h k

  -- An operator between the decimal texts of two numbers up to LONG_MAX, where the left number does
  -- not decide `||` or `&&`: the evaluation gives the value of the operator on the two natural
  -- numbers, or the error of a division by zero, is undefined where the value is no `long` or a shift
  -- is by 64 or more, and leaves the frame unchanged.
  pub arithmetic_evaluate-binary :
      (op : BinaryOp) (m n : ℕ) (s : F)
      → leb m long_max ≡ true
      → leb n long_max ≡ true
      → decides op m ≡ false
      → arithmetic_evaluate vars (some (expression op m n)) s ≡ (value op m n, s)
  arithmetic_evaluate-binary op m n s h k d =
      evaluate_expression op m n s h k
      ∙ ap (λ b. (if b then failed unexpected_tokens else apply_binary op (pos m) (pos n), s))
          (short_circuits-decides op m ∙ d)
      ∙ ap (λ o. (o, s)) (apply_binary-value op m n (leb→le m long_max h) (leb→le n long_max k))
