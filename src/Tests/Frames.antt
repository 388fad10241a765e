-- ===== src/Tests/Frames.antt =====
-- The removal and the export of variables of a frame.
use migash.Prelude.{refl, [], ◌∷◌, Option, none, some, if◌then◌else◌, Text, string_eq}
use migash.Prelude.Int.{pos}
use migash.VariableMap.{variable_map_create, variable_map_at}
use migash.VariableMap.Valid.{variable_map_create-IsValid}
use migash.VariableMap.Assign.{Ends}
use migash.VariableStore.{variable_store_create, validate_variable_name}
use migash.VariableStore.Names.{validate_variable_name_iff}
use migash.VariableStore.EnvText.{validate_variable_value_iff}
use migash.VariableStore.{validate_variable_value}
use migash.VariableStore.Add.{IsAllowed}
use migash.Frame.{Frame}
use migash.Frame.Assign.{assigned}
use migash.Frame.Evaluator.{frame_of}
use migash.Frame.Process.{export_name, frame_unset_variable, frame_export_variable}
use migash.Frame.Process.Unset.{Unsets, frame_unset_variable-Unsets}
use migash.Frame.Process.Export.{with_export, Exports, frame_export_variable-Exports}
use migash.Tests.Samples.{bytes, Bindings}
use migash.Tests.Variables.{locked_frame, locked_map, locked_map-Writes}

-- The environment of a process as the list of what was set.
abbrev setenv : Bindings → Text → Text → Option Bindings
setenv env name value = some ((name, value) ∷ env)

abbrev unsetenv : Bindings → Text → Bindings
unsetenv [] name = []
unsetenv ((n, v) ∷ rest) name =
    if string_eq n name then unsetenv rest name else (n, v) ∷ unsetenv rest name

abbrev new_frame : Frame
new_frame = frame_of variable_store_create none none (pos 0)

created-IsAllowed : IsAllowed variable_store_create (bytes "PATH") (some (bytes "/bin"))
unfolding variable_store_create variable_map_create variable_map_at validate_variable_name
    validate_variable_value
created-IsAllowed = record {
  named = (validate_variable_name_iff (bytes "PATH")).0 refl;
  fits = (validate_variable_value_iff (bytes "/bin")).0 refl;
  writable = refl;
}

frame_export_variable-Exports_example :
    Ends (frame_export_variable setenv unsetenv new_frame [] (bytes "PATH") (some (bytes "/bin"))) (
      Exports setenv unsetenv variable_store_create.map
        (bytes "PATH")
        (with_export
          (assigned (variable_map_at variable_store_create.map (bytes "PATH")) (bytes "/bin")))
        ((bytes "PATH", bytes "/bin") ∷ []))
unfolding variable_store_create export_name
frame_export_variable-Exports_example =
    frame_export_variable-Exports setenv unsetenv variable_store_create none (pos 0) []
      ((bytes "PATH", bytes "/bin") ∷ []) (bytes "PATH") (bytes "/bin") variable_map_create-IsValid
      refl created-IsAllowed refl

frame_unset_variable-Unsets_example :
    Ends (frame_unset_variable setenv unsetenv (locked_frame (bytes "x")) [] (bytes "x")) (
      Unsets setenv unsetenv
        (locked_frame (bytes "x"))
        []
        (bytes "x")
        (variable_map_at (locked_map (bytes "x")) (bytes "x")))
frame_unset_variable-Unsets_example =
    frame_unset_variable-Unsets setenv unsetenv (locked_frame (bytes "x")) [] (bytes "x")
      (locked_map-Writes (bytes "x")).valid
