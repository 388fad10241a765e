-- ===== src/VariableMap/Multiple.antt =====
-- variable_map_erase_multiple: the deletion of several names, one by one or by building the table
-- again.
use migash.Prelude.{
  ℕ, ◌+◌, ◌-◌, ◌/◌, Bool, ◌&&◌, ◌||◌, List, [], ◌∷◌, Option, none, some, if◌then◌else◌, ltb, ◌==◌,
  length, Text,
}
use migash.VariableMap.{VariableMap, write, vacant, variable_map_find, variable_map_erase, rehash}

unfoldable pub should_rebuild : ℕ → VariableMap → Bool
should_rebuild count map =
    ltb (map.size / 8) count || (ltb 16 count && ltb (map.capacity / 16) count)

-- The deletions one by one.
unfoldable pub erase_each : VariableMap → List Text → Option VariableMap
unfolding variable_map_erase
erase_each map [] = some map
erase_each map (key ∷ keys) = elim (variable_map_erase map key) [
  | none ↦ none
  | some map' ↦ erase_each map' keys
]

-- The loop that marks the entries, with the number of those found; the search for the next key
-- already sees the marks.
unfoldable pub mark_deleted : VariableMap → ℕ → List Text → VariableMap × ℕ
unfolding variable_map_find write
mark_deleted map deleted [] = (map, deleted)
mark_deleted map deleted (key ∷ keys) = elim (variable_map_find map key) [
  | none ↦ mark_deleted map deleted keys
  | some pos ↦ mark_deleted (record map { entries = write map.entries pos none }) (deleted + 1) keys
]

-- The entries that are left, moved to a new array of the same capacity.
unfoldable pub rebuilt : VariableMap → ℕ → Option VariableMap
unfolding rehash
rebuilt map deleted = elim (rehash map.capacity map.entries 0 map.capacity vacant) [
  | none ↦ none
  | some entries' ↦ some (record map { entries = entries'; size = map.size - deleted })
]

unfoldable pub erase_marked : VariableMap × ℕ → Option VariableMap
unfolding rebuilt
erase_marked (map, deleted) = if deleted == 0 then some map else rebuilt map deleted

unfoldable pub variable_map_erase_multiple : VariableMap → List Text → Option VariableMap
unfolding variable_map_erase should_rebuild erase_each mark_deleted erase_marked
variable_map_erase_multiple map [] = some map
variable_map_erase_multiple map (key ∷ []) = variable_map_erase map key
variable_map_erase_multiple map (key ∷ other ∷ keys) =
    if should_rebuild (length (key ∷ other ∷ keys)) map
    then erase_marked (mark_deleted map 0 (key ∷ other ∷ keys))
    else erase_each map (key ∷ other ∷ keys)
