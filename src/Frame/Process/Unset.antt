-- ===== src/Frame/Process/Unset.antt =====
-- The removal of a variable of a frame, on every branch.
use mathlib.Core.Path.{subst}
use migash.Prelude.{◌≡◌, refl, sym, ap, Bool, true, false, Option, none, some, if◌then◌else◌, Text}
use migash.VariableMap.{Mapped, Entry, variable_map_at}
use migash.VariableMap.Valid.{IsValid}
use migash.VariableMap.Writes.{Writes}
use migash.VariableMap.Assign.{Ends}
use migash.VariableMap.Delete.{variable_map_erase-Writes}
use migash.VariableStore.{
  VariableStore, changed, find_entry, variable_store_get_variable, variable_store_remove,
}
use migash.VariableStore.Lookup.{mapped_of, find_entry-at}
use migash.Frame.{Frame, VarStatus, status_ok, status_not_found, status_read_only}
use migash.Frame.Process.{chosen, with_chosen, frame_unset_variable}

chosen-with : (frame : Frame) (vars : VariableStore) → chosen (with_chosen frame vars) ≡ vars
chosen-with frame vars = go frame.local_variables
  where
    go :
        (o : Option VariableStore)
        → chosen (elim o as (λ _. Frame) [
          | none ↦ record {
            variables = vars;
            local_variables = o;
            saved_variables = frame.saved_variables;
            source_line = frame.source_line;
          }
          | some _ ↦ record frame { local_variables = some vars }
        ])
          ≡ vars
    go none = refl
    go (some x) = refl

module _ {E : Type 0} (setenv : E → Text → Text → Option E) (unsetenv : E → Text → E) where
  -- What the removal gives of a variable, read-only or not.
  abbrev pub UnsetsLocked : Frame → E → Text → Mapped → Bool → Frame × E × VarStatus → Type 0
  UnsetsLocked frame env name m true r = r ≡ (frame, env, status_read_only)
  UnsetsLocked frame env name m false r =
      Writes (chosen frame).map name none (chosen r.0).map
      × (r.1 ≡ (if m.exported then unsetenv env name else env))
      × (r.2 ≡ status_ok)

  -- What the removal gives, from what the table of the frame has under the name.
  abbrev pub Unsets : Frame → E → Text → Option Mapped → Frame × E × VarStatus → Type 0
  Unsets frame env name none r = r ≡ (frame, env, status_not_found)
  Unsets frame env name (some m) r = UnsetsLocked frame env name m m.read_only r

  -- On a frame whose store for assignments is well formed the removal ends. A name without a variable
  -- and a read-only variable are told by the status, and nothing is changed; any other variable is
  -- taken out of that store, and out of the environment of the process where it was exported.
  pub frame_unset_variable-Unsets :
      (frame : Frame) (env : E) (name : Text)
      → IsValid (chosen frame).map
      → Ends
          (frame_unset_variable setenv unsetenv frame env name)
          (Unsets frame env name (variable_map_at (chosen frame).map name))
  unfolding frame_unset_variable variable_store_get_variable variable_store_remove
  frame_unset_variable-Unsets frame env name v =
      subst
        (λ o. Ends (frame_unset_variable setenv unsetenv frame env name) (Unsets frame env name o))
        (find_entry-at (chosen frame) name v) (go (find_entry (chosen frame) name))
    where
      removing : Entry → Option (Frame × E × VarStatus)
      removing view =
          elim (variable_store_remove (chosen frame) name)
            as (λ _. Option (Frame × E × VarStatus)) [
              | none ↦ none
              | some vars ↦ some (
                with_chosen frame vars,
                if view.mapped.exported then unsetenv env name else env,
                status_ok,
              )
            ]

      entry :
          (view : Entry) (b : Bool)
          → Ends
              (if b then some (frame, env, status_read_only) else removing view)
              (UnsetsLocked frame env name view.mapped b)
      entry view true = (_, refl, refl)
      entry view false =
          let (map, run, w) = variable_map_erase-Writes (chosen frame).map name v in
          (
            (
              with_chosen frame (changed (chosen frame) map),
              if view.mapped.exported then unsetenv env name else env,
              status_ok,
            ),
            ap
                (λ o.
                  elim (elim o as (λ _. Option VariableStore) [
                    | none ↦ none
                    | some x ↦ some (changed (chosen frame) x)
                  ])
                    as (λ _. Option (Frame × E × VarStatus)) [
                      | none ↦ none
                      | some vars ↦ some (
                        with_chosen frame vars,
                        if view.mapped.exported then unsetenv env name else env,
                        status_ok,
                      )
                    ])
                run,
            (
              subst (λ vars. Writes (chosen frame).map name none vars.map)
                  (sym (chosen-with frame (changed (chosen frame) map))) w,
              refl,
              refl,
            ),
          )

      go :
          (o : Option Entry)
          → Ends
              (elim o as (λ _. Option (Frame × E × VarStatus)) [
                | none ↦ some (frame, env, status_not_found)
                | some view ↦
                    if view.mapped.read_only
                    then some (frame, env, status_read_only)
                    else removing view
              ])
              (Unsets frame env name (mapped_of o))
      go none = (_, refl, refl)
      go (some view) = entry view view.mapped.read_only
