-- ===== src/VariableMap/Ops.antt =====
-- The calls of a hash table's client, on the table and on a finite map.
use migash.Prelude.{
  Bool, true, false, List, [], ◌∷◌, Option, none, some, if◌then◌else◌, Text, string_eq,
}
use migash.VariableMap.{
  Mapped, VariableMap, variable_map_at, variable_map_contains, variable_map_clear,
  variable_map_insert_or_assign, variable_map_insert, variable_map_erase, variable_map_extract,
}
use migash.VariableMap.Grow.{kept, is_absent}

-- The calls of a client.
pub data Op : Type 0 where
  look contains erase extract : Text → Op
  assign insert : Text → Mapped → Op
  clear : Op

-- What a call gives back.
pub data Answer : Type 0 where
  nothing : Answer
  flag : Bool → Answer
  found : Option Mapped → Answer

-- A call on the hash table; `none` where a loop has no end.
abbrev pub step : Op → VariableMap → Option (VariableMap × Answer)
step (look key) map = some (map, found (variable_map_at map key))
step (contains key) map = some (map, flag (variable_map_contains map key))
step (assign key m) map = elim (variable_map_insert_or_assign map key m) [
  | none ↦ none
  | some r ↦ some (r.0, nothing)
]
step (insert key m) map = elim (variable_map_insert map key m) [
  | none ↦ none
  | some r ↦ some (r.0, flag r.2)
]
step (erase key) map = elim (variable_map_erase map key) [
  | none ↦ none
  | some map' ↦ some (map', nothing)
]
step (extract key) map = elim (variable_map_extract map key) [
  | none ↦ none
  | some r ↦ some (r.0, found r.1)
]
step clear map = some (variable_map_clear map, nothing)

-- The abstract view: a function from names.
abbrev pub FiniteMap : Type 0
FiniteMap = Text → Option Mapped

abbrev pub put : FiniteMap → Text → Option Mapped → FiniteMap
put f key o j = if string_eq key j then o else f j

abbrev pub abstract_step : Op → FiniteMap → FiniteMap × Answer
abstract_step (look key) f = (f, found (f key))
abstract_step (contains key) f = (f, flag (elim (f key) [ none ↦ false | some _ ↦ true ]))
abstract_step (assign key m) f = (put f key (some m), nothing)
abstract_step (insert key m) f = (put f key (kept m (f key)), flag (is_absent (f key)))
abstract_step (erase key) f = (put f key none, nothing)
abstract_step (extract key) f = (put f key none, found (f key))
abstract_step clear f = (λ j. none, nothing)

abbrev pub run : List Op → VariableMap → Option (VariableMap × List Answer)
run [] map = some (map, [])
run (op ∷ ops) map = elim (step op map) [
  | none ↦ none
  | some r ↦ elim (run ops r.0) [ none ↦ none | some s ↦ some (s.0, r.1 ∷ s.1) ]
]

abbrev pub abstract_run : List Op → FiniteMap → FiniteMap × List Answer
abstract_run [] f = (f, [])
abstract_run (op ∷ ops) f =
    let r = abstract_step op f in let s = abstract_run ops r.0 in (s.0, r.1 ∷ s.1)
