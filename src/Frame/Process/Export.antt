-- ===== src/Frame/Process/Export.antt =====
-- The export of a variable with a value, where nothing forbids it.
use mathlib.Core.Path.{subst}
use migash.Prelude.{
  ◌≡◌, refl, sym, ap, ◌∙◌, Bool, true, false, not, ◌&&◌, [], Option, none, some, arith,
  if◌then◌else◌, Text, string_eq, string_eq_iff,
}
use migash.Prelude.Int.{ℤ}
use migash.VariableMap.{Mapped, Entry, VariableMap, variable_map_at}
use migash.VariableMap.Valid.{IsValid}
use migash.VariableMap.Writes.{Writes, present}
use migash.VariableMap.Assign.{Ends}
use migash.VariableStore.{
  VariableStore, VarStoreError, error_none, error_not_found, error_read_only, changed,
  update_mapped, text_or_empty, is_error_none, is_locked, find_entry, variable_store_get_variable,
  variable_store_set_exported,
}
use migash.VariableStore.Lookup.{mapped_of, read_only_of, find_entry-at, update_mapped-Writes}
use migash.VariableStore.Add.{IsAllowed, is_locked-at}
use migash.Frame.{
  Frame, VarStatus, status_ok, status_read_only, status_not_found, frame_set_variable,
}
use migash.Frame.Assign.{assigned, set_in_store-IsAssigned}
use migash.Frame.Evaluator.{frame_of, assigned-value}
use migash.Frame.Process.{
  ExportStatus, export_success, export_readonly, export_system_error, export_invalid_name, refuses,
  export_name, mark_exported, set_and_mark, frame_export_variable,
}

abbrev pub with_export : Mapped → Mapped
with_export m = record m { exported = true }

found_after :
    (map map' : VariableMap) (name : Text) (o : Option Mapped)
    → Writes map name o map'
    → variable_map_at map' name ≡ o
found_after map map' name o w =
    w.at name
    ∙ ap (λ b. if b then o else variable_map_at map name) ((string_eq_iff name name).1 refl)

-- A second write under the same name.
Writes-again :
    (map map' map'' : VariableMap) (name : Text) (o o' : Option Mapped)
    → Writes map name o map'
    → Writes map' name o' map''
    → Writes map name o' map''
Writes-again map map' map'' name o o' w w' = record {
  valid = w'.valid;
  at = λ j.
      w'.at j ∙ ap (λ x. if string_eq name j then o' else x) (w.at j) ∙ go j (string_eq name j);
  sized = omega (arith, w.sized, w'.sized, ap present (found_after map map' name o w));
}
  where
    go :
        (j : Text) (b : Bool)
        → (if b then o' else (if b then o else variable_map_at map j))
          ≡ (if b then o' else variable_map_at map j)
    go j true = refl
    go j false = refl

set_exported-free :
    (vars : VariableStore) (name : Text) (m : Mapped)
    → variable_map_at vars.map name ≡ some m
    → m.read_only ≡ false
    → variable_store_set_exported vars name true
      ≡ (changed vars (update_mapped vars.map name (with_export m)), error_none)
unfolding variable_store_set_exported
set_exported-free vars name m e l =
    ap
      (λ o. elim o as (λ _. VariableStore × VarStoreError) [
        | none ↦ (vars, error_not_found)
        | some x ↦
            if x.read_only
            then (vars, error_read_only)
            else (changed vars (update_mapped vars.map name (with_export x)), error_none)
      ])
      e
    ∙ ap
        (λ b.
          if b
          then (vars, error_read_only)
          else (changed vars (update_mapped vars.map name (with_export m)), error_none))
        l

not_refused :
    (vars : VariableStore) (name value : Text)
    → IsValid vars.map
    → IsAllowed vars name (some value)
    → refuses (find_entry vars name) (some value) ≡ false
not_refused vars name value v a = go (find_entry vars name) (is_locked-at vars name v ∙ a.writable)
  where
    go : (o : Option Entry) → is_locked o ≡ false → refuses o (some value) ≡ false
    go none h = refl
    go (some e) h = ap (λ b. b && not (string_eq (text_or_empty e.mapped.value) value)) h

module _ {E : Type 0} (setenv : E → Text → Text → Option E) (unsetenv : E → Text → E) where
  -- The status is that of success, the environment has been set, and the variable has been written.
  abbrev pub Exports : VariableMap → Text → Mapped → E → Frame × E × ExportStatus → Type 0
  Exports map name m env r =
      (r.2 ≡ export_success) × (r.1 ≡ env) × Writes map name (some m) r.0.variables.map

  mark-Exports :
      (frame : Frame) (env env' : E) (name : Text) (m : Mapped)
      → IsValid frame.variables.map
      → variable_map_at frame.variables.map name ≡ some m
      → m.read_only ≡ false
      → setenv env name (text_or_empty m.value) ≡ some env'
      → Exports frame.variables.map name
          (with_export m)
          env'
          (mark_exported setenv unsetenv frame env name)
  unfolding mark_exported variable_store_get_variable
  mark-Exports frame env env' name m v e l h =
      subst (λ r. Exports frame.variables.map name (with_export m) env' (marked r))
        (sym (set_exported-free frame.variables name m e l))
        (go (find_entry store' name) (find_entry-at store' name w.valid ∙ found_after _ _ name _ w))
    where
      Result : Type 0
      Result = Frame × E × ExportStatus

      looked : VariableStore → Option Entry → Result
      looked vars o = elim o [
        | none ↦ (record frame { variables = vars }, env, export_system_error)
        | some view ↦ elim (setenv env name (text_or_empty view.mapped.value)) [
          | none ↦ (record frame { variables = vars }, env, export_system_error)
          | some x ↦ (record frame { variables = vars }, x, export_success)
        ]
      ]

      marked : VariableStore × VarStoreError → Result
      marked r =
          if not (is_error_none r.1)
          then (record frame { variables = r.0 }, env, export_system_error)
          else looked r.0 (find_entry r.0 name)

      store' : VariableStore
      store' = changed frame.variables (update_mapped frame.variables.map name (with_export m))

      w : Writes frame.variables.map name (some (with_export m)) store'.map
      w = update_mapped-Writes frame.variables.map name m (with_export m) v e

      value_in : Option Mapped → Text
      value_in none = []
      value_in (some x) = text_or_empty x.value

      go :
          (o : Option Entry)
          → mapped_of o ≡ some (with_export m)
          → Exports frame.variables.map name (with_export m) env' (looked store' o)
      go none k = cc
      go (some view) k =
          subst
            (λ x. Exports frame.variables.map name (with_export m) env' (elim x as (λ _. Result) [
              | none ↦ (record frame { variables = store' }, env, export_system_error)
              | some y ↦ (record frame { variables = store' }, y, export_success)
            ]))
            (sym (ap (λ t. setenv env name (value_in t)) k ∙ h)) (refl, refl, w)

  set_and_mark-Exports :
      (vars : VariableStore) (saved : Option VariableStore) (line : ℤ) (env env' : E)
      (name value : Text) (locked : ExportStatus)
      → IsValid vars.map
      → IsAllowed vars name (some value)
      → setenv env name value ≡ some env'
      → Ends (set_and_mark setenv unsetenv (frame_of vars saved none line) env name value locked) (
          Exports vars.map name (with_export (assigned (variable_map_at vars.map name) value)) env')
  unfolding set_and_mark frame_set_variable
  set_and_mark-Exports vars saved line env env' name value locked v a h =
      let (r, run, s) = set_in_store-IsAssigned vars name value v in
      let w = s.written a in
      let (x, y, z) =
        mark-Exports (frame_of r.0 saved none line) env env' name new w.valid
          (found_after vars.map r.0.map name (some new) w)
          (kept_flag (variable_map_at vars.map name) a.writable)
          (ap (λ t. setenv env name (text_or_empty t))
              (assigned-value (variable_map_at vars.map name) value)
            ∙ h) in
      (
        mark_exported setenv unsetenv (frame_of r.0 saved none line) env name,
        ap
              (λ o. after (elim o as (λ _. Option (Frame × VarStatus)) [
                | none ↦ none
                | some q ↦ some (frame_of q.0 saved none line, q.1)
              ]))
              run
            ∙ ap (λ q. after (some (frame_of r.0 saved none line, q))) (s.accepted a),
        (x, y, Writes-again vars.map r.0.map _ name (some new) (some (with_export new)) w z),
      )
    where
      new : Mapped
      new = assigned (variable_map_at vars.map name) value

      kept_flag :
          (o : Option Mapped) → read_only_of o ≡ false → (assigned o value).read_only ≡ false
      kept_flag none k = refl
      kept_flag (some m) k = k

      after : Option (Frame × VarStatus) → Option (Frame × E × ExportStatus)
      after o = elim o [
        | none ↦ none
        | some q ↦ elim q.1 [
          | status_ok ↦ some (mark_exported setenv unsetenv q.0 env name)
          | status_read_only ↦ some (q.0, env, locked)
          | status_not_found ↦ some (q.0, env, export_system_error)
        ]
      ]

  -- On a frame with no locals and a well-formed table, the export of a name that passes the check of
  -- the function, with a value, where the store allows the assignment and `setenv` accepts it: the
  -- export ends with success, the process's environment is the one that `setenv` gives for the name
  -- and the value, and the table is changed under the name alone, to the value, the flag for export
  -- and the flag for read-only variables that it had.
  pub frame_export_variable-Exports :
      (vars : VariableStore) (saved : Option VariableStore) (line : ℤ) (env env' : E)
      (name value : Text)
      → IsValid vars.map
      → export_name name ≡ true
      → IsAllowed vars name (some value)
      → setenv env name value ≡ some env'
      → Ends
          (frame_export_variable setenv unsetenv
            (frame_of vars saved none line)
            env
            name
            (some value))
          (Exports vars.map name
            (with_export (assigned (variable_map_at vars.map name) value))
            env')
  unfolding frame_export_variable variable_store_get_variable
  frame_export_variable-Exports vars saved line env env' name value v n a h =
      let (r, run, x) =
        set_and_mark-Exports vars saved line env env' name value export_readonly v a h in
      (
        r,
        ap
              (λ b.
                if not b
                then some (frame_of vars saved none line, env, export_invalid_name)
                else (if refuses (find_entry vars name) (some value)
                    then some (frame_of vars saved none line, env, export_readonly)
                    else set_and_mark setenv unsetenv (frame_of vars saved none line) env name value
                        export_readonly))
              n
            ∙ ap
                (λ b.
                  if b
                  then some (frame_of vars saved none line, env, export_readonly)
                  else set_and_mark setenv unsetenv (frame_of vars saved none line) env name value
                      export_readonly)
                (not_refused vars name value v a)
            ∙ run,
        x,
      )
