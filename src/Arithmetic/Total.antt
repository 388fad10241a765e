-- ===== src/Arithmetic/Total.antt =====
-- The evaluator ends: fuel in proportion to the length of the input is enough.
use migash.Prelude.{
  ℕ, zero, suc, ◌+◌, ◌*◌, ◌^◌, ltb, ◌≤◌, ◌<◌, ◌≡◌, ◌≢◌, refl, ◌⊎◌, inl, inr, Bool, true, false, [],
  ◌∷◌, Option, none, some, arith, if◌then◌else◌, length, Text,
}
use migash.Prelude.Int.{ℤ, pos, ◌==ℤ◌, ◌+ℤ◌, ◌-ℤ◌, ◌*ℤ◌}
use migash.Arithmetic.Outcome.{
  Message, Outcome, ok, failed, undefined, out_of_fuel, division_by_zero, modulo_by_zero,
  division_by_zero_in_assignment, modulo_by_zero_in_assignment, M, continue, pure, lift,
}
use migash.Arithmetic.Long.{quotient, to_long, divide, modulo, shift_left, shift_right}
use migash.Arithmetic.Token
use migash.Arithmetic.Token.{
  multiply, plus, minus, left_shift, right_shift, BinaryOp, Token, Cursor, here, before_start,
  get_token, get_precedence, binary_precedence, number, variable, lparen, rparen, bit_not,
  logical_not, question, colon, comma, assign, eof, binary, assign_with,
}
use migash.Arithmetic.Shrinks.{size, get_token-shrinks}
use migash.Arithmetic.Variables.{Variables}
use migash.Arithmetic.Eval.{
  UnaryOp, negate, unary_operator, apply_unary, apply_binary, short_circuits, apply_assign,
  assignment, binds_less, expect_colon, expect_rparen, literal, read_variable, store_variable,
  assigned_value, parse_expression, climb, climb_on, parse_primary, primary, expect_end,
  evaluate_expanded, arithmetic_evaluate,
}

-- The run kept within its fuel, and what it leaves to read is below `n`.
abbrev Ends : {F : Type 0} → ℕ → Outcome (ℤ × Cursor) × F → Type 0
Ends n (ok (v, cursor), s) = size cursor < n
Ends n (failed m, s) = Unit
Ends n (undefined, s) = Unit
Ends n (out_of_fuel, s) = ⊥

-- What a token leaves is smaller, unless it is the end of the input.
abbrev Shrunk : ℕ → Token → Cursor → Type 0
Shrunk n token after = (token ≡ eof) ⊎ (size after < n)

colon≢eof : colon ≢ eof
colon≢eof e = cc

comma≢eof : comma ≢ eof
comma≢eof e = cc

question≢eof : question ≢ eof
question≢eof e = cc

lparen≢eof : lparen ≢ eof
lparen≢eof e = cc

binary≢eof : (op : BinaryOp) → binary op ≢ eof
binary≢eof op e = cc

number≢eof : (n : ℕ) → number n ≢ eof
number≢eof n e = cc

variable≢eof : (name : Text) → variable name ≢ eof
variable≢eof name e = cc

rparen≢eof : rparen ≢ eof
rparen≢eof e = cc

unary-Shrunk :
    (n : ℕ) (t : Token) (after : Cursor) (op : UnaryOp)
    → unary_operator t ≡ some op
    → Shrunk n t after
    → size after < n
unfolding unary_operator
unary-Shrunk n t after op e (inr h) = h
unary-Shrunk n t after op e (inl p) = absurd (ground arith)

assignment-Shrunk :
    (n : ℕ) (t : Token) (after : Cursor) (op : Option BinaryOp)
    → assignment t ≡ some op
    → Shrunk n t after
    → size after < n
unfolding assignment
assignment-Shrunk n t after op e (inr h) = h
assignment-Shrunk n t after op e (inl p) = absurd (ground arith)

module _ {F : Type 0} where
  Ends-weaken : (n m : ℕ) (r : Outcome (ℤ × Cursor) × F) → n ≤ m → Ends n r → Ends m r
  Ends-weaken n m (ok (v, c), s) le h = omega arith
  Ends-weaken n m (failed e, s) le h = tt
  Ends-weaken n m (undefined, s) le h = tt
  Ends-weaken n m (out_of_fuel, s) le h = absurd h

  Ends-bind :
      (n m : ℕ) (r : Outcome (ℤ × Cursor) × F) (g : ℤ × Cursor → M F (ℤ × Cursor))
      → Ends n r
      → ((v : ℤ) (c : Cursor) (s : F) → size c < n → Ends m (g (v, c) s))
      → Ends m (continue r g)
  Ends-bind n m (ok (v, c), s) g h k = k v c s h
  Ends-bind n m (failed e, s) g h k = tt
  Ends-bind n m (undefined, s) g h k = tt
  Ends-bind n m (out_of_fuel, s) g h k = absurd h

  Ends-lift :
      (A : Type 0) (m : ℕ) (r : Outcome A) (s : F) (g : A → M F (ℤ × Cursor))
      → r ≢ out_of_fuel
      → ((a : A) → Ends m (g a s))
      → Ends m (continue (r, s) g)
  Ends-lift A m (ok a) s g h k = k a
  Ends-lift A m (failed e) s g h k = tt
  Ends-lift A m undefined s g h k = tt
  Ends-lift A m out_of_fuel s g h k = absurd (h refl)

  Ends-option :
      (A : Type 0) (m : ℕ) (o : Option A) (p : A → M F (ℤ × Cursor)) (q : M F (ℤ × Cursor)) (s : F)
      → ((a : A) → o ≡ some a → Ends m (p a s))
      → Ends m (q s)
      → Ends m ((elim o as (λ _. M F (ℤ × Cursor)) [ some a ↦ p a | none ↦ q ]) s)
  Ends-option A m (some a) p q s hp hq = hp a refl
  Ends-option A m none p q s hp hq = hq

  Ends-bool :
      (m : ℕ) (b : Bool) (p q : M F (ℤ × Cursor)) (s : F)
      → Ends m (p s)
      → Ends m (q s)
      → Ends m ((elim b as (λ _. M F (ℤ × Cursor)) [ true ↦ p | false ↦ q ]) s)
  Ends-bool m true p q s hp hq = hp
  Ends-bool m false p q s hp hq = hq

  -- Behind a token that is checked to be there, the rest is smaller.
  Ends-colon :
      (n m : ℕ) (t : Token) (after : Cursor) (s : F) (g : Unit {0} → M F (ℤ × Cursor))
      → Shrunk n t after
      → (size after < n → Ends m (g tt s))
      → Ends m (continue (expect_colon t, s) g)
  unfolding expect_colon
  Ends-colon n m colon after s g (inl e) k = absurd (colon≢eof e)
  Ends-colon n m colon after s g (inr h) k = k h
  Ends-colon n m _ after s g h k = tt

  Ends-rparen :
      (n m : ℕ) (t : Token) (after : Cursor) (s : F) (g : Unit {0} → M F (ℤ × Cursor))
      → Shrunk n t after
      → (size after < n → Ends m (g tt s))
      → Ends m (continue (expect_rparen t, s) g)
  unfolding expect_rparen
  Ends-rparen n m rparen after s g (inl e) k = absurd (rparen≢eof e)
  Ends-rparen n m rparen after s g (inr h) k = k h
  Ends-rparen n m _ after s g h k = tt

to_long-ne : (z : ℤ) → to_long z ≢ out_of_fuel
unfolding to_long
to_long-ne z = ground arith

if-ne :
    (b : Bool) (x y : Outcome ℤ)
    → x ≢ out_of_fuel
    → y ≢ out_of_fuel
    → (if b then x else y) ≢ out_of_fuel
if-ne true x y hx hy = hx
if-ne false x y hx hy = hy

divide-ne : (m : Message) (a b : ℤ) → divide m a b ≢ out_of_fuel
unfolding divide
divide-ne m a b =
    if-ne (b ==ℤ pos 0) (failed m) (to_long (quotient a b)) (λ e. cc) (to_long-ne (quotient a b))

modulo-ne : (m : Message) (a b : ℤ) → modulo m a b ≢ out_of_fuel
unfolding modulo
modulo-ne m a b = ground arith

shift_left-ne : (a b : ℤ) → shift_left a b ≢ out_of_fuel
unfolding shift_left
shift_left-ne (pos a) (pos k) =
    if-ne (ltb k 64) (to_long (pos (a * 2 ^ k))) undefined (to_long-ne (pos (a * 2 ^ k))) (λ e. cc)
shift_left-ne _ _ = λ e. cc

shift_right-ne : (a b : ℤ) → shift_right a b ≢ out_of_fuel
unfolding shift_right
shift_right-ne (pos a) (pos k) = ground arith
shift_right-ne _ _ = ground arith

apply_unary-ne : (op : UnaryOp) (v : ℤ) → apply_unary op v ≢ out_of_fuel
unfolding apply_unary
apply_unary-ne negate v = to_long-ne (pos 0 -ℤ v)
apply_unary-ne _ v = λ e. cc

apply_binary-ne : (op : BinaryOp) (a b : ℤ) → apply_binary op a b ≢ out_of_fuel
unfolding apply_binary
apply_binary-ne multiply a b = to_long-ne (a *ℤ b)
apply_binary-ne plus a b = to_long-ne (a +ℤ b)
apply_binary-ne minus a b = to_long-ne (a -ℤ b)
apply_binary-ne Token.divide a b = divide-ne division_by_zero a b
apply_binary-ne Token.modulo a b = modulo-ne modulo_by_zero a b
apply_binary-ne left_shift a b = shift_left-ne a b
apply_binary-ne right_shift a b = shift_right-ne a b
apply_binary-ne _ a b = λ e. cc

apply_assign-ne : (op : BinaryOp) (a b : ℤ) → apply_assign op a b ≢ out_of_fuel
unfolding apply_assign
apply_assign-ne Token.divide a b = divide-ne division_by_zero_in_assignment a b
apply_assign-ne Token.modulo a b = modulo-ne modulo_by_zero_in_assignment a b
apply_assign-ne op a b = apply_binary-ne op a b

literal-ne : (n : ℕ) → literal n ≢ out_of_fuel
unfolding literal
literal-ne n = ground arith

module _ {F : Type 0} (vars : Variables F) (input : Text) where
  -- An assignment's value, at whatever cursor.
  Ends-assigned :
      (m : ℕ) (op : Option BinaryOp) (name : Text) (v : ℤ) (s : F) (g : ℤ → M F (ℤ × Cursor))
      → ((value : ℤ) → Ends m (g value s))
      → Ends m (continue (assigned_value vars input op name v s) g)
  unfolding assigned_value
  Ends-assigned m none name v s g k = k v
  Ends-assigned m (some op) name v s g k =
      Ends-lift ℤ m (apply_assign op (read_variable vars input name s) v) s g
        (apply_assign-ne op _ v) k

  stored :
      (name : Text) (value : ℤ) (s : F) (n : ℕ) (c : Cursor)
      → size c < n
      → Ends n (continue (store_variable vars input name value s) (λ v. pure (v, c)))
  unfolding store_variable
  stored name value s n c h = h

  mutual
    unfolding parse_expression

    parse_expression-Ends :
        (f : ℕ) (cursor : Cursor) (m : ℕ) (s : F)
        → 8 * size cursor + 6 ≤ f
        → Ends (size cursor) (parse_expression vars input f cursor m s)
    parse_expression-Ends zero cursor m s h = absurd (omega arith)
    parse_expression-Ends (suc f) cursor m s h =
        let (token, after) = get_token input cursor in
        let n = size cursor in
        Ends-option UnaryOp n (unary_operator token) _ _ s
          (λ op e.
            let less = unary-Shrunk n token after op e (get_token-shrinks input cursor) in
            Ends-bind (size after) n _ _ (parse_expression-Ends f after 14 s (omega arith))
              (λ v c t lt. Ends-lift ℤ n (apply_unary op v) t _ (apply_unary-ne op v) (λ left.
                Ends-weaken (suc (size c)) n _ (omega arith)
                  (climb-Ends f c m left t (omega arith)))))
          (Ends-bind n n _ _ (parse_primary-Ends f cursor s (omega arith)) (λ v c t lt.
            Ends-weaken (suc (size c)) n _ (omega arith) (climb-Ends f c m v t (omega arith))))

    climb-Ends :
        (f : ℕ) (cursor : Cursor) (m : ℕ) (left : ℤ) (s : F)
        → 8 * size cursor + 4 ≤ f
        → Ends (suc (size cursor)) (climb vars input f cursor m left s)
    climb-Ends zero cursor m left s h = absurd (omega arith)
    climb-Ends (suc f) cursor m left s h =
        let (token, after) = get_token input cursor in
        let n = size cursor in
        Ends-bool (suc n) (binds_less (get_precedence token) m) _ _ s (omega arith) (
          Ends-weaken n (suc n) _ (omega arith)
            (climb_on-Ends f n token after m left s (get_token-shrinks input cursor) (omega arith)))

    climb_on-Ends :
        (f n : ℕ) (token : Token) (after : Cursor) (m : ℕ) (left : ℤ) (s : F)
        → Shrunk n token after
        → 8 * n + 3 ≤ f
        → Ends n (climb_on vars input f token after m left s)
    climb_on-Ends zero n token after m left s k h = absurd (omega arith)
    climb_on-Ends (suc f) n comma after m left s (inl e) h = absurd (comma≢eof e)
    climb_on-Ends (suc f) n comma after m left s (inr less) h =
        Ends-bind (size after) n _ _ (parse_expression-Ends f after 2 s (omega arith)) (λ v c t lt.
          Ends-weaken (suc (size c)) n _ (omega arith) (climb-Ends f c m left t (omega arith)))
    climb_on-Ends (suc f) n question after m left s (inl e) h = absurd (question≢eof e)
    climb_on-Ends (suc f) n question after m left s (inr less) h =
        Ends-bind (size after) n _ _ (parse_expression-Ends f after 0 s (omega arith)) (λ v c t lt.
          let (token, after') = get_token input c in
          Ends-colon (size c) n token after' t _ (get_token-shrinks input c) (λ less'.
            Ends-bind (size after') n _ _ (parse_expression-Ends f after' 3 t (omega arith))
              (λ w c' t' lt'.
                Ends-weaken (suc (size c')) n _ (omega arith)
                  (climb-Ends f c' m _ t' (omega arith)))))
    climb_on-Ends (suc f) n (binary op) after m left s (inl e) h = absurd (binary≢eof op e)
    climb_on-Ends (suc f) n (binary op) after m left s (inr less) h =
        Ends-bool n (short_circuits op left) _ _ s less (
          Ends-bind (size after) n _ _ (parse_expression-Ends f after _ s (omega arith))
            (λ v c t lt.
              Ends-lift ℤ n (apply_binary op left v) t _ (apply_binary-ne op left v) (λ left'.
                Ends-weaken (suc (size c)) n _ (omega arith)
                  (climb-Ends f c m left' t (omega arith)))))
    climb_on-Ends (suc f) n _ after m left s k h = tt

    parse_primary-Ends :
        (f : ℕ) (cursor : Cursor) (s : F)
        → 8 * size cursor + 5 ≤ f
        → Ends (size cursor) (parse_primary vars input f cursor s)
    parse_primary-Ends zero cursor s h = absurd (omega arith)
    parse_primary-Ends (suc f) cursor s h =
        let (token, after) = get_token input cursor in
        primary-Ends f (size cursor) token after s (get_token-shrinks input cursor) (omega arith)

    primary-Ends :
        (f n : ℕ) (token : Token) (after : Cursor) (s : F)
        → Shrunk n token after
        → 8 * n + 4 ≤ f
        → Ends n (primary vars input f token after s)
    primary-Ends zero n token after s k h = absurd (omega arith)
    primary-Ends (suc f) n (number v) after s (inl e) h = absurd (number≢eof v e)
    primary-Ends (suc f) n (number v) after s (inr less) h =
        Ends-lift ℤ n (literal v) s _ (literal-ne v) (λ _. less)
    primary-Ends (suc f) n (variable name) after s (inl e) h = absurd (variable≢eof name e)
    primary-Ends (suc f) n (variable name) after s (inr less) h =
        let (token, after_op) = get_token input after in
        Ends-option (Option BinaryOp) n (assignment token) _ _ s
          (λ op e.
            let less' =
              assignment-Shrunk (size after) token after_op op e (get_token-shrinks input after) in
            Ends-bind (size after_op) n _ _ (parse_expression-Ends f after_op 0 s (omega arith))
              (λ v c t lt.
                Ends-assigned n op name v t _ (λ value. stored name value t n c (omega arith))))
          less
    primary-Ends (suc f) n lparen after s (inl e) h = absurd (lparen≢eof e)
    primary-Ends (suc f) n lparen after s (inr less) h =
        Ends-bind (size after) n _ _ (parse_expression-Ends f after 0 s (omega arith)) (λ v c t lt.
          let (token, next) = get_token input c in
          Ends-rparen (size c) n token next t _ (get_token-shrinks input c) (λ less'. omega arith))
    primary-Ends (suc f) n _ after s k h = tt

expect_end-ne : (t : Token) (v : ℤ) → expect_end t v ≢ out_of_fuel
unfolding expect_end
expect_end-ne eof v = λ e. cc
expect_end-ne _ v = λ e. cc

evaluate_expanded-ne :
    {F : Type 0} (vars : Variables F) (text : Text) (fuel : ℕ) (s : F)
    → 8 * length text + 6 ≤ fuel
    → (evaluate_expanded vars fuel text s).0 ≢ out_of_fuel
unfolding evaluate_expanded
evaluate_expanded-ne vars [] fuel s h = λ e. cc
evaluate_expanded-ne {F} vars (c ∷ rest) fuel s h =
    go (parse_expression vars (c ∷ rest) fuel (here (c ∷ rest)) 0 s)
      (parse_expression-Ends vars (c ∷ rest) fuel (here (c ∷ rest)) 0 s h)
  where
    go :
        (r : Outcome (ℤ × Cursor) × F)
        → Ends (suc (length rest)) r
        → (continue r (λ p. lift (expect_end (get_token (c ∷ rest) p.1).0 p.0))).0 ≢ out_of_fuel
    go (ok (v, cursor), t) k = expect_end-ne (get_token (c ∷ rest) cursor).0 v
    go (failed m, t) k = λ e. cc
    go (undefined, t) k = λ e. cc
    go (out_of_fuel, t) k = absurd k

-- `arithmetic_evaluate` ends on every text and every frame: it returns a value or an error, or the
-- C program's behaviour is undefined, and it never recurs deeper than the length of the text allows.
pub arithmetic_evaluate_total :
    {F : Type 0} (vars : Variables F) (expanded : Option Text) (frame : F)
    → (arithmetic_evaluate vars expanded frame).0 ≢ out_of_fuel
unfolding arithmetic_evaluate
arithmetic_evaluate_total vars none frame = λ e. cc
arithmetic_evaluate_total vars (some text) frame =
    evaluate_expanded-ne vars text (8 * length text + 6) frame (omega arith)
