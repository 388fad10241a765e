-- ===== src/Tests/Variables.antt =====
-- The tables, the stores and the frames of variables.
use mathlib.Core.Path.{subst}
use migash.Prelude.{
  ℕ, ◌≡◌, if◌then◌else◌, string_eq_iff, refl, sym, ap, ◌∙◌, true, false, List, [], ◌∷◌, Option,
  none, some, arith, Text,
}
use migash.Prelude.Int.{pos, negsuc}
use migash.VariableMap.{
  Mapped, VariableMap, variable_map_create, variable_map_at, variable_map_insert_or_assign,
  variable_map_insert, variable_map_erase, variable_map_contains, variable_map_extract,
}
use migash.VariableMap.Valid.{variable_map_create-IsValid}
use migash.VariableMap.Writes.{Writes}
use migash.VariableMap.Assign.{Ends}
use migash.VariableMap.Grow.{variable_map_insert_or_assign-Writes}
use migash.VariableMap.Ops.{
  Op, assign, insert, erase, extract, contains, Answer, nothing, flag, found, run, abstract_run,
}
use migash.VariableMap.Runs.{Agrees, variable_map-Agrees}
use migash.VariableMap.Batch.{Spares, variable_map_erase_multiple-Spares}
use migash.VariableMap.Multiple.{variable_map_erase_multiple}
use migash.VariableStore.{
  VariableStore, variable_store_create, variable_store_add, validate_variable_name,
}
use migash.VariableStore.Names.{IsName, validate_variable_name_iff}
use migash.VariableStore.Lookup.{read_only_of, value_of}
use migash.VariableStore.Add.{Added, new_mapped, variable_store_add-Added}
use migash.VariableStore.Steps.{
  StoreOp, add, add_env, remove, set_exported, set_read_only, get_envp, store_run,
}
use migash.VariableStore.ReadOnly.{Protects, store_run-Protects}
use migash.VariableStore.Environment.{Current, get_envp-Current}
use migash.Frame.{Frame, set_in_store}
use migash.Frame.Assign.{IsAssigned, set_in_store-IsAssigned}
use migash.Frame.Evaluator.{frame_variables, read-frame_variables}
use migash.Arithmetic.Eval.{read_variable, store_variable}
use migash.Tests.Samples.{bytes}

abbrev one : Mapped
one = record { value = some (bytes "1"); exported = true; read_only = false }

abbrev two : Mapped
two = record { value = some (bytes "2"); exported = false; read_only = true }

abbrev calls : List Op
calls =
    assign (bytes "HOME") one
    ∷ insert (bytes "HOME") two
    ∷ insert (bytes "PS1") two
    ∷ erase (bytes "HOME")
    ∷ contains (bytes "HOME")
    ∷ extract (bytes "PS1")
    ∷ []

abbrev answers : Option (VariableMap × List Answer) → List Answer
answers none = []
answers (some r) = r.1

calls-run :
    answers (run calls variable_map_create)
    ≡ nothing ∷ flag false ∷ flag true ∷ nothing ∷ flag false ∷ found (some two) ∷ []
unfolding variable_map_create variable_map_insert_or_assign variable_map_insert variable_map_erase
    variable_map_contains variable_map_extract
calls-run = refl

variable_map-Agrees_example :
    Ends (run calls variable_map_create) (Agrees (List Answer) (abstract_run calls (λ j. none)))
variable_map-Agrees_example = variable_map-Agrees calls

-- Two names in the same slot: the second is not found once the first is marked, and it stays.
abbrev colliding : Option VariableMap → Option VariableMap
colliding none = none
colliding (some map) = variable_map_erase_multiple map (bytes "a" ∷ bytes "q" ∷ [])

abbrev both : Option VariableMap
both = elim (run (assign (bytes "a") one ∷ assign (bytes "q") two ∷ []) variable_map_create) [
  | none ↦ none
  | some r ↦ some r.0
]

abbrev left_of : Option VariableMap → Option Mapped
left_of none = none
left_of (some map) = variable_map_at map (bytes "q")

colliding-run : left_of (colliding both) ≡ some two
unfolding variable_map_create variable_map_insert_or_assign variable_map_at
    variable_map_erase_multiple
colliding-run = refl

-- A table with one read-only variable.
abbrev map_of : Option (VariableMap × ℕ) → VariableMap
map_of none = variable_map_create
map_of (some r) = r.0

abbrev pub locked_map : Text → VariableMap
locked_map name = map_of (variable_map_insert_or_assign variable_map_create name two)

pub locked_map-Writes : (name : Text) → Writes variable_map_create name (some two) (locked_map name)
locked_map-Writes name =
    let (r, ends, w) =
      variable_map_insert_or_assign-Writes variable_map_create name two
        variable_map_create-IsValid in
    subst (Writes variable_map_create name (some two)) (sym (ap map_of ends)) w

abbrev locked_store : Text → VariableStore
locked_store name = record {
  map = locked_map name;
  generation = 1;
  cached_generation = 0;
  cached_envp = none;
}

locked_map-read_only : (name : Text) → read_only_of (variable_map_at (locked_map name) name) ≡ true
locked_map-read_only name = ap read_only_of (
    (locked_map-Writes name).at name
    ∙ ap (λ b. if b then some two else variable_map_at variable_map_create name)
        ((string_eq_iff name name).1 refl))

abbrev assignments : List StoreOp
assignments =
    add (bytes "x") (some (bytes "3")) true false
    ∷ set_exported (bytes "x") true
    ∷ set_read_only (bytes "x") false
    ∷ add_env (bytes "x=4")
    ∷ get_envp
    ∷ remove (bytes "y")
    ∷ []

store_run-Protects_example :
    Ends
      (store_run assignments (locked_store (bytes "x")))
      (Protects (bytes "x") (value_of (variable_map_at (locked_map (bytes "x")) (bytes "x"))))
store_run-Protects_example =
    store_run-Protects assignments (locked_store (bytes "x")) (bytes "x")
      (locked_map-Writes (bytes "x")).valid (locked_map-read_only (bytes "x")) refl

get_envp-Current_example : Ends (store_run assignments variable_store_create) Current
get_envp-Current_example = get_envp-Current assignments (omega arith)

variable_store_add-Added_example :
    Ends
      (variable_store_add (locked_store (bytes "x")) (bytes "2x") (some (bytes "v")) true false)
      (Added
        (locked_store (bytes "x"))
        (bytes "2x")
        (some (bytes "v"))
        (new_mapped (some (bytes "v")) true false))
variable_store_add-Added_example =
    variable_store_add-Added (locked_store (bytes "x")) (bytes "2x") (some (bytes "v")) true false
      (locked_map-Writes (bytes "x")).valid

set_in_store-IsSet_example :
    Ends
      (set_in_store (locked_store (bytes "x")) (bytes "x") (bytes "3"))
      (IsAssigned (locked_store (bytes "x")) (bytes "x") (bytes "3"))
set_in_store-IsSet_example =
    set_in_store-IsAssigned (locked_store (bytes "x")) (bytes "x") (bytes "3")
      (locked_map-Writes (bytes "x")).valid

abbrev pub locked_frame : Text → Frame
locked_frame name = record {
  variables = locked_store name;
  local_variables = none;
  saved_variables = none;
  source_line = pos 0;
}

n-IsName : IsName (bytes "n")
unfolding validate_variable_name
n-IsName = (validate_variable_name_iff (bytes "n")).0 refl

n-writable : read_only_of (variable_map_at (locked_map (bytes "x")) (bytes "n")) ≡ false
unfolding variable_map_at variable_map_create variable_map_insert_or_assign
n-writable = refl

read-frame_variables_example :
    read_variable frame_variables []
      (bytes "n")
      (store_variable frame_variables [] (bytes "n") (negsuc 6) (locked_frame (bytes "x"))).1
    ≡ negsuc 6
read-frame_variables_example =
    read-frame_variables (locked_frame (bytes "x")) [] (bytes "n") (negsuc 6)
      (locked_map-Writes (bytes "x")).valid n-IsName n-writable refl

variable_map_erase_multiple-Spares_example :
    Ends
      (variable_map_erase_multiple (locked_map (bytes "x")) (bytes "x" ∷ bytes "y" ∷ []))
      (Spares (locked_map (bytes "x")) (bytes "x" ∷ bytes "y" ∷ []))
variable_map_erase_multiple-Spares_example =
    variable_map_erase_multiple-Spares (locked_map (bytes "x")) (bytes "x" ∷ bytes "y" ∷ [])
      (locked_map-Writes (bytes "x")).valid
