-- ===== src/Frame/Lineno.antt =====
-- The variable LINENO, which src/exec_frame.c sets before each command.
use migash.Prelude.{◌≡◌, Bool, true, false, ◌&&◌, [], ◌∷◌, Option, none, some, if◌then◌else◌, Text}
use migash.Prelude.Int.{ℤ, pos, ltb_ℤ}
use migash.VariableMap.Writes.{Writes}
use migash.VariableStore.{
  VariableStore, variable_store_add, variable_store_has_name, variable_store_is_read_only,
  variable_store_set_read_only,
}
use migash.Frame.{Frame}
use migash.Arithmetic.Variables.{string_atol, string_from_long}

abbrev pub lineno : Text
lineno = b'L' ∷ b'I' ∷ b'N' ∷ b'E' ∷ b'N' ∷ b'O' ∷ []

-- `exec_frame_update_lineno` for a node with the given `first_line`, an int, whose text by "%d" is
-- that of `string_from_long`. The frame's table is never NULL.
unfoldable pub exec_frame_update_lineno : Frame → ℤ → Option Frame
unfolding string_from_long variable_store_has_name variable_store_is_read_only
    variable_store_set_read_only variable_store_add
exec_frame_update_lineno frame first_line =
    let vars =
      if variable_store_has_name frame.variables lineno
        && variable_store_is_read_only frame.variables lineno
      then (variable_store_set_read_only frame.variables lineno false).0
      else frame.variables in
    let updated =
      elim (variable_store_add vars lineno (some (string_from_long first_line)) false false)
        as (λ _. Option Frame) [
          | none ↦ none
          | some r ↦ some (record frame { variables = r.0; source_line = first_line })
        ] in
    if ltb_ℤ (pos 0) first_line then updated else some frame

-- The frame knows the line; LINENO has a text that reads as the line, and no flag; no other variable
-- is changed, nor are the other tables.
pub record Tracks (frame : Frame) (line : ℤ) (frame' : Frame) : Type 0 where
  pub text : Text
  pub reads : string_atol text ≡ line
  pub tracked : frame'.source_line ≡ line
  pub written :
      Writes frame.variables.map lineno
        (some (record { value = some text; exported = false; read_only = false }))
        frame'.variables.map
  pub locals : frame'.local_variables ≡ frame.local_variables
  pub saved : frame'.saved_variables ≡ frame.saved_variables

-- For a line that is positive, or not.
abbrev pub Follows : Bool → Frame → ℤ → Frame → Type 0
Follows true frame line frame' = Tracks frame line frame'
Follows false frame line frame' = frame' ≡ frame
