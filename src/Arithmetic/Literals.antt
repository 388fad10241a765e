-- ===== src/Arithmetic/Literals.antt =====
-- The evaluator on decimal literals and on one operator between two of them.
use migash.Prelude.{
  ℕ, suc, ◌+◌, ◌≡◌, refl, ap, ◌∙◌, Bool, true, false, [], none, some, arith, if◌then◌else◌, leb,
  ltb, Text,
}
use migash.Prelude.Int.{ℤ, pos}
use migash.Arithmetic.Outcome.{
  Outcome, ok, failed, undefined, out_of_fuel, M, continue, pure, lift, ◌>>=◌,
}
use migash.Arithmetic.Long.{long_max}
use migash.Arithmetic.Variables.{Variables}
use migash.Arithmetic.Token.{
  BinaryOp, Token, number, binary, eof, Cursor, here, get_token, binary_precedence, get_precedence,
}
use migash.Arithmetic.Eval.{
  apply_unary, apply_binary, short_circuits, binds_less, literal, unary_operator, parse_expression,
  climb, climb_on, parse_primary, primary,
}

module _ {F : Type 0} (vars : Variables F) (input : Text) where
  primary-number :
      (f n : ℕ) (after : Cursor) (s : F)
      → leb n long_max ≡ true
      → primary vars input (suc f) (number n) after s ≡ (ok (pos n, after), s)
  unfolding parse_expression literal
  primary-number f n after s h = rw h refl

  parse_primary-number :
      (f n : ℕ) (t rest : Text) (s : F)
      → get_token input (here t) ≡ (number n, here rest)
      → leb n long_max ≡ true
      → parse_primary vars input (suc (suc f)) (here t) s ≡ (ok (pos n, here rest), s)
  unfolding parse_expression
  parse_primary-number f n t rest s e h =
      ap (λ (r : Token × Cursor). primary vars input (suc f) r.0 r.1 s) e
      ∙ primary-number f n (here rest) s h

  -- A literal as the operand of whatever follows.
  pub parse_expression-number :
      (f min n : ℕ) (t rest : Text) (s : F)
      → get_token input (here t) ≡ (number n, here rest)
      → leb n long_max ≡ true
      → parse_expression vars input (suc (suc (suc f))) (here t) min s
        ≡ climb vars input (suc (suc f)) (here rest) min (pos n) s
  unfolding parse_expression unary_operator
  parse_expression-number f min n t rest s e h =
      ap
        (λ (r : Token × Cursor).
          (elim (unary_operator r.0) as (λ _. M F (ℤ × Cursor)) [
            | some op ↦ do
              (v, next) ← parse_expression vars input (suc (suc f)) r.1 14
              left ← lift (apply_unary op v)
              climb vars input (suc (suc f)) next min left
            | none ↦ do
              (left, next) ← parse_primary vars input (suc (suc f)) (here t)
              climb vars input (suc (suc f)) next min left
          ])
            s)
        e
      ∙ ap
          (λ (r : Outcome (ℤ × Cursor) × F).
            continue r (λ x. climb vars input (suc (suc f)) x.1 min x.0))
          (parse_primary-number f n t rest s e h)

  pub climb-eof :
      (f min : ℕ) (left : ℤ) (after : Cursor) (s : F)
      → get_token input (here []) ≡ (eof, after)
      → climb vars input (suc f) (here []) min left s ≡ (ok (left, here []), s)
  unfolding parse_expression get_precedence binds_less
  climb-eof f min left after s e =
      ap
        (λ (r : Token × Cursor).
          (elim (binds_less (get_precedence r.0) min) as (λ _. M F (ℤ × Cursor)) [
            | true ↦ pure (left, here [])
            | false ↦ climb_on vars input f r.0 r.1 min left
          ])
            s)
        e

  climb-binary :
      (f : ℕ) (op : BinaryOp) (left : ℤ) (t rest : Text) (s : F)
      → get_token input (here t) ≡ (binary op, here rest)
      → climb vars input (suc f) (here t) 0 left s
        ≡ climb_on vars input f (binary op) (here rest) 0 left s
  unfolding parse_expression get_precedence binds_less
  climb-binary f op left t rest s e =
      let tight : ltb (binary_precedence op) 0 ≡ false = ground arith in
      ap
        (λ (r : Token × Cursor).
          (elim (binds_less (get_precedence r.0) 0) as (λ _. M F (ℤ × Cursor)) [
            | true ↦ pure (left, here t)
            | false ↦ climb_on vars input f r.0 r.1 0 left
          ])
            s)
        e
      ∙ rw tight refl

  climb_on-stops :
      (f : ℕ) (op : BinaryOp) (left : ℤ) (after : Cursor) (s : F)
      → short_circuits op left ≡ true
      → climb_on vars input (suc f) (binary op) after 0 left s ≡ (ok (left, after), s)
  unfolding parse_expression
  climb_on-stops f op left after s e =
      ap
        (λ (b : Bool).
          (elim b as (λ _. M F (ℤ × Cursor)) [
            | true ↦ pure (left, after)
            | false ↦ do
              (right, next) ← parse_expression vars input f after (binary_precedence op + 1)
              left' ← lift (apply_binary op left right)
              climb vars input f next 0 left'
          ])
            s)
        e

  climb_on-goes :
      (f : ℕ) (op : BinaryOp) (left : ℤ) (after : Cursor) (s : F)
      → short_circuits op left ≡ false
      → climb_on vars input (suc f) (binary op) after 0 left s
        ≡ continue
            (parse_expression vars input f after (binary_precedence op + 1) s)
            (λ x. do left' ← lift (apply_binary op left x.0); climb vars input f x.1 0 left')
  unfolding parse_expression
  climb_on-goes f op left after s e =
      ap
        (λ (b : Bool).
          (elim b as (λ _. M F (ℤ × Cursor)) [
            | true ↦ pure (left, after)
            | false ↦ do
              (right, next) ← parse_expression vars input f after (binary_precedence op + 1)
              left' ← lift (apply_binary op left right)
              climb vars input f next 0 left'
          ])
            s)
        e

  -- What an operator between two literals comes to.
  abbrev pub binary_result : BinaryOp → ℕ → ℕ → Text → F → Outcome (ℤ × Cursor) × F
  binary_result op m n rest s =
      if short_circuits op (pos m)
      then (ok (pos m, here rest), s)
      else continue (apply_binary op (pos m) (pos n), s) (λ v. pure (v, here []))

  ends-climb :
      (f : ℕ) (o : Outcome ℤ) (after : Cursor) (s : F)
      → get_token input (here []) ≡ (eof, after)
      → continue (o, s) (λ v. climb vars input (suc f) (here []) 0 v)
        ≡ continue (o, s) (λ v. pure (v, here []))
  ends-climb f (ok v) after s e = climb-eof f 0 v after s e
  ends-climb f (failed m) after s e = refl
  ends-climb f undefined after s e = refl
  ends-climb f out_of_fuel after s e = refl

  climb_on-number :
      (f : ℕ) (op : BinaryOp) (m n : ℕ) (t : Text) (after : Cursor) (s : F)
      → get_token input (here t) ≡ (number n, here [])
      → get_token input (here []) ≡ (eof, after)
      → leb n long_max ≡ true
      → climb_on vars input (suc (suc (suc (suc f)))) (binary op) (here t) 0 (pos m) s
        ≡ binary_result op m n t s
  climb_on-number f op m n t after s e₁ e₂ k = go (short_circuits op (pos m)) refl
    where
      right :
          parse_expression vars input (suc (suc (suc f))) (here t) (binary_precedence op + 1) s
          ≡ (ok (pos n, here []), s)
      right =
          parse_expression-number f (binary_precedence op + 1) n t [] s e₁ k
          ∙ climb-eof (suc f) (binary_precedence op + 1) (pos n) after s e₂

      go :
          (b : Bool)
          → short_circuits op (pos m) ≡ b
          → climb_on vars input (suc (suc (suc (suc f)))) (binary op) (here t) 0 (pos m) s ≡ (
              if b
              then (ok (pos m, here t), s)
              else continue (apply_binary op (pos m) (pos n), s) (λ v. pure (v, here [])))
      go true e = climb_on-stops (suc (suc (suc f))) op (pos m) (here t) s e
      go false e =
          climb_on-goes (suc (suc (suc f))) op (pos m) (here t) s e
          ∙ ap
              (λ (r : Outcome (ℤ × Cursor) × F). continue r (λ x. do
                left' ← lift (apply_binary op (pos m) x.0)
                climb vars input (suc (suc (suc f))) x.1 0 left'))
              right
          ∙ ends-climb (suc (suc f)) (apply_binary op (pos m) (pos n)) after s e₂

  pub parse_expression-binary :
      (f : ℕ) (op : BinaryOp) (m n : ℕ) (t after_m after_op : Text) (after : Cursor) (s : F)
      → get_token input (here t) ≡ (number m, here after_m)
      → get_token input (here after_m) ≡ (binary op, here after_op)
      → get_token input (here after_op) ≡ (number n, here [])
      → get_token input (here []) ≡ (eof, after)
      → leb m long_max ≡ true
      → leb n long_max ≡ true
      → parse_expression vars input (suc (suc (suc (suc (suc (suc f)))))) (here t) 0 s
        ≡ binary_result op m n after_op s
  parse_expression-binary f op m n t after_m after_op after s e₁ e₂ e₃ e₄ h k =
      parse_expression-number (suc (suc (suc f))) 0 m t after_m s e₁ h
      ∙ climb-binary (suc (suc (suc (suc f)))) op (pos m) after_m after_op s e₂
      ∙ climb_on-number f op m n after_op after s e₃ e₄ k
