-- ===== src/Frame/Process.antt =====
-- The functions of src/frame.c that also change the environment of the process: the removal of a
-- variable and its export. That environment and the C library's `setenv` and `unsetenv` are
-- parameters; `none` as the result of `setenv` is a result that is not 0.
pub mod Unset
pub mod Export
use migash.Prelude.{
  ◌≡◌, refl, sym, ap, ◌∙◌, Bool, true, false, not, ◌&&◌, ◌||◌, List, [], ◌∷◌, Option, none, some,
  if◌then◌else◌, ◌==◌, Text, is_digit, is_alpha, string_eq,
}
use migash.VariableMap.{Mapped, Entry, variable_map_at}
use migash.VariableStore.{
  VariableStore, text_or_empty, is_error_none, find_entry, variable_store_get_variable,
  variable_store_remove, variable_store_set_exported,
}
use migash.Frame.{
  Frame, VarStatus, status_ok, status_not_found, status_read_only, frame_set_variable,
}

-- `miga_export_status_t`
pub data ExportStatus : Type 0 where
  export_success export_invalid_name export_invalid_value export_readonly : ExportStatus
  export_not_supported export_system_error : ExportStatus

-- `frame->local_variables ? frame->local_variables : frame->variables`
abbrev pub chosen : Frame → VariableStore
chosen frame = elim frame.local_variables [ none ↦ frame.variables | some locals ↦ locals ]

-- The frame after a change of that store.
abbrev pub with_chosen : Frame → VariableStore → Frame
with_chosen frame vars = elim frame.local_variables [
  | none ↦ record frame { variables = vars }
  | some _ ↦ record frame { local_variables = some vars }
]

-- The loop on the characters after the first.
unfoldable pub export_name_rest : Text → Bool
export_name_rest [] = true
export_name_rest (c ∷ rest) = (c == b'_' || is_alpha c || is_digit c) && export_name_rest rest

unfoldable pub export_name : Text → Bool
unfolding export_name_rest
export_name [] = false
export_name (c ∷ rest) = (c == b'_' || is_alpha c) && export_name_rest rest

-- The check for a variable that is read-only.
abbrev pub refuses : Option Entry → Option Text → Bool
refuses none value = false
refuses (some view) none = false
refuses (some view) (some value) =
    view.mapped.read_only && not (string_eq (text_or_empty view.mapped.value) value)

module _ {ℓ} {E : Type ℓ} (setenv : E → Text → Text → Option E) (unsetenv : E → Text → E) where
  abbrev pub Unset : Type ℓ
  Unset = Frame × E × VarStatus

  unfoldable pub frame_unset_variable : Frame → E → Text → Option Unset
  unfolding variable_store_get_variable variable_store_remove
  frame_unset_variable frame env name = elim (variable_store_get_variable (chosen frame) name) [
    | none ↦ some (frame, env, status_not_found)
    | some view ↦
        if view.mapped.read_only
        then some (frame, env, status_read_only)
        else elim (variable_store_remove (chosen frame) name) [
          | none ↦ none
          | some vars ↦ some (
            with_chosen frame vars,
            if view.mapped.exported then unsetenv env name else env,
            status_ok,
          )
        ]
  ]

  abbrev pub Exported : Type ℓ
  Exported = Frame × E × ExportStatus

  -- The part of `frame_export_variable` after the value is set.
  unfoldable pub mark_exported : Frame → E → Text → Exported
  unfolding variable_store_set_exported variable_store_get_variable
  mark_exported frame env name =
      let r = variable_store_set_exported frame.variables name true in
      let frame' : Frame = record frame { variables = r.0 } in
      if not (is_error_none r.1)
      then (frame', env, export_system_error)
      else elim (variable_store_get_variable r.0 name) [
        | none ↦ (frame', env, export_system_error)
        | some view ↦ elim (setenv env name (text_or_empty view.mapped.value)) [
          | none ↦ (frame', env, export_system_error)
          | some env' ↦ (frame', env', export_success)
        ]
      ]

  -- The assignment, and the rest where its status is OK; the third status is that for a variable
  -- that is read-only.
  unfoldable pub set_and_mark : Frame → E → Text → Text → ExportStatus → Option Exported
  unfolding frame_set_variable mark_exported
  set_and_mark frame env name value locked = elim (frame_set_variable frame name value) [
    | none ↦ none
    | some r ↦ elim r.1 [
      | status_ok ↦ some (mark_exported r.0 env name)
      | status_read_only ↦ some (r.0, env, locked)
      | status_not_found ↦ some (r.0, env, export_system_error)
    ]
  ]

  unfoldable pub frame_export_variable : Frame → E → Text → Option Text → Option Exported
  unfolding export_name variable_store_get_variable set_and_mark mark_exported
  frame_export_variable frame env name value =
      let view = variable_store_get_variable frame.variables name in
      if not (export_name name)
      then some (frame, env, export_invalid_name)
      else if refuses view value
      then some (frame, env, export_readonly)
      else elim value [
        | some v ↦ set_and_mark frame env name v export_readonly
        | none ↦ elim view [
          | none ↦ set_and_mark frame env name [] export_system_error
          | some _ ↦ some (mark_exported frame env name)
        ]
      ]
