-- ===== src/Frame/Evaluator.antt =====
-- The variables of a frame as src/arithmetic.c uses them.
use migash.Prelude.{
  ℕ, zero, suc, ◌+◌, ◌/◌, ◌%◌, ◌≤◌, ◌≡◌, refl, ap, ◌∙◌, true, false, [], ◌∷◌, Option, none, some,
  arith, if◌then◌else◌, length, length-append, Text, string_eq_iff,
}
use migash.Prelude.Int.{ℤ, pos, negsuc}
use migash.VariableMap.{Mapped, variable_map_at}
use migash.VariableMap.Valid.{IsValid}
use migash.VariableMap.Assign.{Ends}
use migash.VariableStore.{VariableStore, variable_store_get_value}
use migash.VariableStore.Names.{IsName}
use migash.VariableStore.EnvText.{Fits}
use migash.VariableStore.Lookup.{read_only_of, value_of, get_value-at}
use migash.VariableStore.Add.{IsAllowed}
use migash.Frame.{Frame, VarStatus, exec_frame_get_variable, set_in_store, frame_set_variable}
use migash.Frame.Assign.{assigned, set_in_store-IsAssigned}
use migash.Arithmetic.Long.{in_long}
use migash.Arithmetic.Variables.{Variables, decimal, string_from_long}
use migash.Arithmetic.Eval.{read_variable, store_variable}
use migash.Arithmetic.Decimal.{read-store_variable}

-- The store that an assignment changes.
abbrev pub target : Frame → VariableStore
target frame = elim frame.local_variables [ none ↦ frame.variables | some locals ↦ locals ]

pub assigned-value : (o : Option Mapped) (value : Text) → (assigned o value).value ≡ some value
assigned-value none value = refl
assigned-value (some m) value = refl

-- The value that was written is found again.
set_in_store-get :
    (vars : VariableStore) (name value : Text)
    → IsValid vars.map
    → IsAllowed vars name (some value)
    → Ends (set_in_store vars name value) (λ r. variable_store_get_value r.0 name ≡ some value)
set_in_store-get vars name value v a =
    let (r, run, s) = set_in_store-IsAssigned vars name value v in
    let w = s.written a in
    (
      r,
      run,
      get_value-at r.0 name w.valid
          ∙ ap value_of (w.at name)
          ∙ ap
              (λ b. value_of (
                if b
                then some (assigned (variable_map_at vars.map name) value)
                else variable_map_at vars.map name))
              ((string_eq_iff name name).1 refl)
          ∙ assigned-value (variable_map_at vars.map name) value,
    )

abbrev pub frame_of : VariableStore → Option VariableStore → Option VariableStore → ℤ → Frame
frame_of vars saved locals line = record {
  variables = vars;
  local_variables = locals;
  saved_variables = saved;
  source_line = line;
}

assign_in :
    (vars : VariableStore) (saved locals : Option VariableStore) (line : ℤ) (name value : Text)
    → IsValid (target (frame_of vars saved locals line)).map
    → IsAllowed (target (frame_of vars saved locals line)) name (some value)
    → Ends
        (frame_set_variable (frame_of vars saved locals line) name value)
        (λ r. exec_frame_get_variable r.0 name ≡ some value)
unfolding frame_set_variable exec_frame_get_variable
assign_in vars saved none line name value v a =
    let (r, run, e) = set_in_store-get vars name value v a in
    (
      (frame_of r.0 saved none line, r.1),
      ap
          (λ o. elim o as (λ _. Option (Frame × VarStatus)) [
            | none ↦ none
            | some x ↦ some (frame_of x.0 saved none line, x.1)
          ])
          run,
      e,
    )
assign_in vars saved (some locals) line name value v a =
    let (r, run, e) = set_in_store-get locals name value v a in
    (
      (frame_of vars saved (some r.0) line, r.1),
      ap
          (λ o. elim o as (λ _. Option (Frame × VarStatus)) [
            | none ↦ none
            | some x ↦ some (frame_of vars saved (some x.0) line, x.1)
          ])
          run,
      ap
          (λ o. elim o as (λ _. Option Text) [
            | none ↦ variable_store_get_value vars name
            | some x ↦ some x
          ])
          e,
    )

-- On a frame whose store for assignments is well formed, an assignment that the store allows ends, and
-- the name then has the value.
pub frame_set_variable-get :
    (frame : Frame) (name value : Text)
    → IsValid (target frame).map
    → IsAllowed (target frame) name (some value)
    → Ends
        (frame_set_variable frame name value)
        (λ r. exec_frame_get_variable r.0 name ≡ some value)
frame_set_variable-get frame name value v a =
    assign_in frame.variables frame.saved_variables frame.local_variables frame.source_line name
      value v a

-- The evaluator's access to a frame. The second case of `set` is one that does not arise on a
-- well-formed store.
abbrev pub frame_variables : Variables Frame
frame_variables = record {
  get = exec_frame_get_variable;
  set = λ frame name value. elim (frame_set_variable frame name value) as (λ _. Frame) [
    | some r ↦ r.0
    | none ↦ frame
  ];
}

length-decimal : (fuel n : ℕ) → length (decimal fuel n) ≤ fuel
unfolding decimal
length-decimal zero n = omega arith
length-decimal (suc fuel) n = ground (
  arith,
  length-decimal fuel (n / 10),
  length-append (decimal fuel (n / 10)) ((b'0' + n % 10) ∷ []),
)

pub from_long-Fits : (v : ℤ) → Fits (string_from_long v)
unfolding string_from_long
from_long-Fits (pos n) = omega (arith, length-decimal 20 n)
from_long-Fits (negsuc n) = omega (arith, length-decimal 20 (suc n))

-- An assignment in an arithmetic expression to a variable whose name POSIX allows and that is not
-- read-only, on a frame whose store for assignments is well formed: the variable then has the value
-- that was assigned, for every `long`, with the value going through its decimal text and the hash
-- table of the locals or of the frame.
pub read-frame_variables :
    (frame : Frame) (input : Text) (name : Text) (v : ℤ)
    → IsValid (target frame).map
    → IsName name
    → read_only_of (variable_map_at (target frame).map name) ≡ false
    → in_long v ≡ true
    → read_variable frame_variables input name (store_variable frame_variables input name v frame).1
      ≡ v
read-frame_variables frame input name v valid n free h =
    let (r, run, e) =
      frame_set_variable-get frame name (string_from_long v) valid
        (record { named = n; fits = from_long-Fits v; writable = free }) in
    read-store_variable frame_variables input name v frame
      (ap
          (λ o.
            exec_frame_get_variable (elim o as (λ _. Frame) [ some x ↦ x.0 | none ↦ frame ]) name)
          run
        ∙ e)
      h
