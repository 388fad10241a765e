-- ===== src/Frame.antt =====
-- The variables of a frame, src/frame.c and src/exec_frame.c, on the stores of
-- src/variable_store.c, for the build with MIGA_POSIX_API. A frame has its own table of variables,
-- for some frames a table of locals, and where an assignment prefix has replaced the table, the
-- saved one. It also has the line of the command that is executed.
pub mod Assign
pub mod Evaluator
pub mod Lineno
pub mod Process
use migash.Prelude.{
  ℕ, Bool, true, false, not, ◌&&◌, ◌||◌, [], ◌∷◌, Option, none, some, if◌then◌else◌, ◌==◌, Text,
  is_digit, is_alpha, string_eq,
}
use migash.Prelude.Int.{ℤ}
use migash.VariableMap.{Mapped, Entry}
use migash.VariableStore.{
  VarStoreError, error_none, error_not_found, error_read_only, VariableStore, text_or_empty,
  is_error_none, variable_store_add, variable_store_remove, variable_store_has_name,
  variable_store_get_variable, variable_store_get_value, variable_store_is_read_only,
  variable_store_set_read_only, variable_store_set_exported,
}

pub record Frame : Type 0 where
  pub variables : VariableStore
  pub local_variables : Option VariableStore
  pub saved_variables : Option VariableStore
  pub source_line : ℤ

-- `miga_var_status_t`, less the two that no function returns.
pub data VarStatus : Type 0 where
  status_ok status_not_found status_read_only : VarStatus

unfoldable pub exec_frame_get_variable : Frame → Text → Option Text
unfolding variable_store_get_value
exec_frame_get_variable frame name =
    let global = variable_store_get_value frame.variables name in
    elim frame.local_variables [
      | none ↦ global
      | some locals ↦ elim (variable_store_get_value locals name) [
        | none ↦ global
        | some value ↦ some value
      ]
    ]

unfoldable pub frame_has_variable : Frame → Text → Bool
unfolding exec_frame_get_variable
frame_has_variable frame name = elim (exec_frame_get_variable frame name) [
  | none ↦ false
  | some _ ↦ true
]

unfoldable pub frame_get_variable_value : Frame → Text → Text
unfolding exec_frame_get_variable
frame_get_variable_value frame name = text_or_empty (exec_frame_get_variable frame name)

-- `frame_get_ps1` and `frame_get_ps2`: the prompt, or its default where it is unset or empty.
unfoldable pub prompt_or : Text → Text → Text
prompt_or [] default = default
prompt_or (c ∷ rest) default = c ∷ rest

unfoldable pub frame_get_ps1 : Frame → Text
unfolding prompt_or frame_get_variable_value
frame_get_ps1 frame =
    prompt_or (frame_get_variable_value frame (b'P' ∷ b'S' ∷ b'1' ∷ [])) (b'$' ∷ 32 ∷ [])

unfoldable pub frame_get_ps2 : Frame → Text
unfolding prompt_or frame_get_variable_value
frame_get_ps2 frame =
    prompt_or (frame_get_variable_value frame (b'P' ∷ b'S' ∷ b'2' ∷ [])) (b'>' ∷ 32 ∷ [])

unfoldable pub frame_variable_is_exported : Frame → Text → Bool
unfolding variable_store_get_variable
frame_variable_is_exported frame name = elim (variable_store_get_variable frame.variables name) [
  | none ↦ false
  | some view ↦ view.mapped.exported
]

unfoldable pub frame_variable_is_readonly : Frame → Text → Bool
unfolding variable_store_get_variable
frame_variable_is_readonly frame name = elim (variable_store_get_variable frame.variables name) [
  | none ↦ false
  | some view ↦ view.mapped.read_only
]

-- The switch after `variable_store_add`.
abbrev pub status_of_add : VarStoreError → VarStatus
status_of_add error_read_only = status_read_only
status_of_add error_not_found = status_not_found
status_of_add _ = status_ok

-- The flags that a new value keeps.
abbrev pub flags_of : Option Entry → Bool × Bool
flags_of none = (false, false)
flags_of (some view) = (view.mapped.exported, view.mapped.read_only)

-- The body that `frame_set_variable` and `frame_set_persistent_variable` share, on the store that
-- each has chosen. `string_compare` reads NULL as the empty text.
unfoldable pub set_in_store : VariableStore → Text → Text → Option (VariableStore × VarStatus)
unfolding variable_store_get_variable variable_store_add
set_in_store vars name value =
    let view = variable_store_get_variable vars name in
    let add =
      elim (variable_store_add vars name (some value) (flags_of view).0 (flags_of view).1)
        as (λ _. Option (VariableStore × VarStatus)) [
          | none ↦ none
          | some r ↦ some (r.0, status_of_add r.1)
        ] in
    elim view [
      | none ↦ add
      | some entry ↦
          if entry.mapped.read_only
          then some (
            vars,
            if string_eq (text_or_empty entry.mapped.value) value
                then status_ok
                else status_read_only,
          )
          else add
    ]

unfoldable pub frame_set_variable : Frame → Text → Text → Option (Frame × VarStatus)
unfolding set_in_store
frame_set_variable frame name value = elim frame.local_variables [
  | none ↦ elim (set_in_store frame.variables name value) [
    | none ↦ none
    | some r ↦ some (record frame { variables = r.0 }, r.1)
  ]
  | some locals ↦ elim (set_in_store locals name value) [
    | none ↦ none
    | some r ↦ some (record frame { local_variables = some r.0 }, r.1)
  ]
]

unfoldable pub frame_set_persistent_variable : Frame → Text → Text → Option (Frame × VarStatus)
unfolding set_in_store
frame_set_persistent_variable frame name value = elim frame.saved_variables [
  | none ↦ elim (set_in_store frame.variables name value) [
    | none ↦ none
    | some r ↦ some (record frame { variables = r.0 }, r.1)
  ]
  | some saved ↦ elim (set_in_store saved name value) [
    | none ↦ none
    | some r ↦ some (record frame { saved_variables = some r.0 }, r.1)
  ]
]

-- The switch after a change of a flag.
abbrev pub status_of_flag : VarStoreError → VarStatus
status_of_flag error_not_found = status_not_found
status_of_flag _ = status_ok

unfoldable pub frame_set_variable_exported : Frame → Text → Bool → Frame × VarStatus
unfolding variable_store_set_exported
frame_set_variable_exported frame name exported =
    let r = variable_store_set_exported frame.variables name exported in
    (record frame { variables = r.0 }, status_of_flag r.1)

unfoldable pub frame_set_variable_readonly : Frame → Text → Bool → Frame × VarStatus
unfolding variable_store_set_read_only
frame_set_variable_readonly frame name readonly =
    let r = variable_store_set_read_only frame.variables name readonly in
    (record frame { variables = r.0 }, status_of_flag r.1)

unfoldable pub exec_frame_set_variable : Frame → Text → Text → Option Frame
unfolding variable_store_add
exec_frame_set_variable frame name value = elim frame.local_variables [
  | none ↦ elim (variable_store_add frame.variables name (some value) false false) [
    | none ↦ none
    | some r ↦ some (record frame { variables = r.0 })
  ]
  | some locals ↦ elim (variable_store_add locals name (some value) false false) [
    | none ↦ none
    | some r ↦ some (record frame { local_variables = some r.0 })
  ]
]

-- `true` for 0, and `false` for -1.
unfoldable pub exec_frame_declare_local : Frame → Text → Text → Option (Frame × Bool)
unfolding variable_store_add
exec_frame_declare_local frame name value = elim frame.local_variables [
  | none ↦ some (frame, false)
  | some locals ↦ elim (variable_store_add locals name (some value) false false) [
    | none ↦ none
    | some r ↦ some (record frame { local_variables = some r.0 }, is_error_none r.1)
  ]
]
