-- ===== src/VariableStore/EnvText.antt =====
-- Environment strings against the names and values they are made of.
use migash.Prelude.{◌≤◌, ◌≡◌, ◌↔◌, true, ◌∷◌, ◌++◌, Option, none, some, arith, length, Text}
use migash.VariableStore.{
  VarStoreError, error_none, max_var_value_length, is_error_none, validate_variable_value,
}
use migash.VariableStore.Names.{IsName}

pub is_error_none_iff : (e : VarStoreError) → (is_error_none e ≡ true) ↔ (e ≡ error_none)
is_error_none_iff e = grind arith

abbrev pub Fits : Text → Type 0
Fits value = length value ≤ max_var_value_length

pub validate_variable_value_iff :
    (value : Text) → (validate_variable_value (some value) ≡ error_none) ↔ Fits value
unfolding validate_variable_value
validate_variable_value_iff value = ground arith

-- The parts that `split_equals` gives of a text are joined to it again.
Splits : Text → Option (Text × Text) → Type 0
Splits text none = Unit
Splits text (some parts) = text ≡ parts.0 ++ (b'=' ∷ parts.1)

abbrev Sound : Text × Text → Type 0
Sound parts = IsName parts.0 × Fits parts.1
