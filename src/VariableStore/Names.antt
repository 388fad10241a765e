-- ===== src/VariableStore/Names.antt =====
-- The names that a variable can have, and the environment strings made of them.
use migash.Prelude.{
  ℕ, zero, suc, ◌≤◌, ◌≡◌, ◌≢◌, refl, sym, ap, ◌∙◌, ◌↔◌, ◌⊎◌, inl, inr, Bool, true, false, ◌&&◌,
  ◌||◌, [], ◌∷◌, some, arith, ltb, ◌==◌, length, get_elem?, Text, is_digit, is_alpha, Bool-cases,
}
use migash.VariableStore.{
  error_none, error_name_too_long, error_name_invalid_character, max_var_name_length, is_special,
  validate_rest, validate_variable_name,
}

-- A letter, a digit or an underscore.
abbrev pub is_word : ℕ → Bool
is_word c = is_alpha c || is_digit c || c == b'_'

abbrev pub IsSpelled : Text → Type 0
IsSpelled text = (i : ℕ) (c : ℕ) → get_elem? text i ≡ some c → is_word c ≡ true

abbrev pub IsSpecialName : Text → Type 0
IsSpecialName name = (c : ℕ) × (name ≡ c ∷ []) × (is_special c ≡ true)

-- Words that do not start with a digit.
abbrev pub IsWordName : Text → Type 0
IsWordName name = IsSpelled name × ((c : ℕ) → get_elem? name 0 ≡ some c → is_digit c ≡ false)

-- What POSIX and the special parameters allow.
pub record IsName (name : Text) : Type 0 where
  pub nonempty : 1 ≤ length name
  pub short : length name ≤ max_var_name_length
  pub form : IsSpecialName name ⊎ IsWordName name

validate_rest-word :
    (c : ℕ) (rest : Text) → is_word c ≡ true → validate_rest (c ∷ rest) ≡ validate_rest rest
unfolding validate_rest
validate_rest-word c rest w = ground arith

validate_rest-other :
    (c : ℕ) (rest : Text)
    → is_word c ≡ false
    → validate_rest (c ∷ rest) ≡ error_name_invalid_character
unfolding validate_rest
validate_rest-other c rest w = ground arith

IsSpelled-tail : (c : ℕ) (rest : Text) → IsSpelled (c ∷ rest) → IsSpelled rest
IsSpelled-tail c rest s i = s (suc i)

IsSpelled-cons : (c : ℕ) (rest : Text) → is_word c ≡ true → IsSpelled rest → IsSpelled (c ∷ rest)
IsSpelled-cons c rest w s zero d h = cc
IsSpelled-cons c rest w s (suc i) d h = s i d h

validate_rest_iff : (text : Text) → (validate_rest text ≡ error_none) ↔ IsSpelled text
unfolding validate_rest
validate_rest_iff [] = (λ h i c. cc, λ h. refl)
validate_rest_iff (c ∷ rest) = elim (Bool-cases (is_word c)) [
  | inl w ↦ (
    λ h.
        IsSpelled-cons c rest w
          ((validate_rest_iff rest).0 (sym (validate_rest-word c rest w) ∙ h)),
    λ s. validate_rest-word c rest w ∙ (validate_rest_iff rest).1 (IsSpelled-tail c rest s),
  )
  | inr w ↦ (λ h. absurd (cc (h, validate_rest-other c rest w)), λ s. absurd (cc (s 0 c refl, w)))
]

-- A first character that may start a word.
abbrev is_start : ℕ → Bool
is_start c = is_alpha c || c == b'_'

long-name :
    (c : ℕ) (rest : Text)
    → ltb max_var_name_length (length (c ∷ rest)) ≡ true
    → validate_variable_name (c ∷ rest) ≡ error_name_too_long
unfolding validate_variable_name
long-name c rest h = ground (arith, h)

special-name : (c : ℕ) → is_special c ≡ true → validate_variable_name (c ∷ []) ≡ error_none
unfolding validate_variable_name is_special
special-name c h = ground (arith, h)

start-name :
    (c : ℕ) (rest : Text)
    → ltb max_var_name_length (length (c ∷ rest)) ≡ false
    → is_start c ≡ true
    → validate_variable_name (c ∷ rest) ≡ validate_rest rest
unfolding validate_variable_name is_special
start-name c rest l h = ground (arith, l, h)

other-name :
    (c : ℕ) (rest : Text)
    → (length (c ∷ rest) == 1 && is_special c) ≡ false
    → is_start c ≡ false
    → validate_variable_name (c ∷ rest) ≢ error_none
unfolding validate_variable_name is_special
other-name c rest l h = ground arith

pub validate_variable_name_iff :
    (name : Text) → (validate_variable_name name ≡ error_none) ↔ IsName name
unfolding validate_variable_name
validate_variable_name_iff [] = (λ h. cc, λ h. absurd (omega (arith, h.nonempty)))
validate_variable_name_iff (c ∷ rest) = (to, from)
  where
    to : validate_variable_name (c ∷ rest) ≡ error_none → IsName (c ∷ rest)
    to h = elim (Bool-cases (ltb max_var_name_length (length (c ∷ rest)))) [
      | inl l ↦ absurd (cc (h, long-name c rest l))
      | inr l ↦ record {
        nonempty = omega arith;
        short = ground (arith, l);
        form = elim (Bool-cases (is_start c)) [
          | inl s ↦ inr (
            IsSpelled-cons c rest (ground (arith, s))
                ((validate_rest_iff rest).0 (sym (start-name c rest l s) ∙ h)),
            λ d e. ground (arith, s, e),
          )
          | inr s ↦ elim (Bool-cases (length (c ∷ rest) == 1 && is_special c)) [
            | inl k ↦ inl (c, ground (arith, k), ground (arith, k))
            | inr k ↦ absurd (other-name c rest k s h)
          ]
        ];
      }
    ]

    from : IsName (c ∷ rest) → validate_variable_name (c ∷ rest) ≡ error_none
    from n = elim n.form [
      | inl (d, e, k) ↦ ap validate_variable_name e ∙ special-name d k
      | inr (s, f) ↦
          start-name c rest (ground (arith, n.short)) (ground (arith, s 0 c refl, f c refl))
          ∙ (validate_rest_iff rest).1 (IsSpelled-tail c rest s)
    ]
