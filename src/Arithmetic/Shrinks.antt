-- ===== src/Arithmetic/Shrinks.antt =====
-- The scanner makes progress: every token but the end of the input takes at least one character.
use migash.Prelude.{
  ℕ, suc, ◌+◌, ◌-◌, ◌*◌, ◌≤◌, ◌<◌, ◌≡◌, refl, ◌⊎◌, inl, inr, true, [], ◌∷◌, Option, none, some,
  arith, length, Text, is_digit, Bool-cases,
}
use migash.Arithmetic.Token.{
  BinaryOp, Cursor, here, before_start, eof, skip_whitespace, decimal_digit, read_digits,
  read_number, read_name, end_of_name, or_assign, operator, token_at, first_token, get_token,
  is_alpha_or_underscore, octal_digit, hex_digit,
}

-- The characters that a cursor has still to read.
abbrev pub size : Cursor → ℕ
size (here rest) = length rest
size before_start = 0

length-skip_whitespace : (t : Text) → length (skip_whitespace t) ≤ length t
unfolding skip_whitespace
length-skip_whitespace [] = omega arith
length-skip_whitespace (c ∷ rest) = ground (arith, length-skip_whitespace rest)

length-read_digits :
    (digit : ℕ → Option ℕ) (base value : ℕ) (t : Text)
    → length (read_digits digit base value t).1 ≤ length t
unfolding read_digits
length-read_digits digit base value [] = omega arith
length-read_digits digit base value (c ∷ rest) =
    go (digit c) (λ d. length-read_digits digit base (value * base + d) rest)
  where
    go :
        (o : Option ℕ)
        → ((d : ℕ) → length (read_digits digit base (value * base + d) rest).1 ≤ length rest)
        → let r : ℕ × Text = elim o [
          | none ↦ (value, c ∷ rest)
          | some d ↦ read_digits digit base (value * base + d) rest
        ] in
          length r.1 ≤ suc (length rest)
    go none ih = omega arith
    go (some d) ih = omega (arith, ih d)

-- A decimal number takes its first digit.
length-read_decimal :
    (c : ℕ) (rest : Text)
    → is_digit c ≡ true
    → length (read_digits decimal_digit 10 0 (c ∷ rest)).1 ≤ length rest
unfolding read_digits decimal_digit
length-read_decimal c rest d =
    ground (arith, length-read_digits decimal_digit 10 (0 * 10 + (c - 48)) rest)

length-read_number :
    (c : ℕ) (rest : Text) → is_digit c ≡ true → length (read_number c rest).1 ≤ length rest
unfolding read_number
length-read_number c [] d = length-read_decimal c [] d
length-read_number c (next ∷ rest) d = ground (
  arith,
  length-read_digits hex_digit 16 0 rest,
  length-read_digits octal_digit 8 0 (next ∷ rest),
  length-read_decimal c (next ∷ rest) d,
)

length-read_name : (t : Text) → length (read_name t).1 ≤ length t
unfolding read_name
length-read_name [] = omega arith
length-read_name (c ∷ rest) = ground (arith, length-read_name rest)

-- A name takes its first character.
length-read_name_cons :
    (c : ℕ) (rest : Text)
    → is_alpha_or_underscore c ≡ true
    → length (read_name (c ∷ rest)).1 ≤ length rest
unfolding read_name is_alpha_or_underscore
length-read_name_cons c rest h = ground (arith, length-read_name rest)

length-or_assign : (op : BinaryOp) (t : Text) → length (or_assign op t).1 ≤ length t
unfolding or_assign
length-or_assign op [] = omega arith
length-or_assign op (c ∷ rest) = ground arith

length-operator : (c : ℕ) (t : Text) → length (operator c t).1 ≤ length t
unfolding operator
length-operator c [] = ground arith
length-operator c (d ∷ []) = ground arith
length-operator c (d ∷ e ∷ rest) = ground arith

size-end_of_name : (t : Text) → size (end_of_name t) ≤ length t
unfolding end_of_name
size-end_of_name [] = omega arith
size-end_of_name (c ∷ rest) = omega arith

size-token_at : (c : ℕ) (rest : Text) → size (token_at c rest).1 ≤ length rest
unfolding token_at
size-token_at c rest = elim (Bool-cases (is_digit c)) [
  | inl d ↦ rw d (length-read_number c rest d)
  | inr d ↦ rw d (elim (Bool-cases (is_alpha_or_underscore c)) [
    | inl a ↦
        rw a
          (omega (arith, size-end_of_name (read_name (c ∷ rest)).1, length-read_name_cons c rest a))
    | inr a ↦ rw a (length-operator c rest)
  ])
]

-- Every token but the end of the input leaves fewer characters than there were.
pub get_token-shrinks :
    (input : Text) (cursor : Cursor)
    → ((get_token input cursor).0 ≡ eof) ⊎ (size (get_token input cursor).1 < size cursor)
unfolding get_token first_token
get_token-shrinks input before_start = inl refl
get_token-shrinks input (here rest) = go (skip_whitespace rest) (length-skip_whitespace rest)
  where
    go :
        (t : Text)
        → length t ≤ length rest
        → ((first_token t).0 ≡ eof) ⊎ (size (first_token t).1 < length rest)
    go [] h = inl refl
    go (c ∷ after) h = inr (omega (arith, size-token_at c after))
