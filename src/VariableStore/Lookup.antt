-- ===== src/VariableStore/Lookup.antt =====
-- The entries of a store's table, as the table's own search finds them.
use migash.Prelude.{ℕ, ◌≡◌, refl, sym, ap, ◌∙◌, Bool, false, Option, none, some, Text}
use migash.VariableMap.{
  Mapped, Entry, VariableMap, variable_map_find, variable_map_at, assign_entry,
}
use migash.VariableMap.Valid.{IsValid, Located, variable_map_find-Located, variable_map_at-Lacks}
use migash.VariableMap.Writes.{Writes, taken-at}
use migash.VariableMap.Assign.{assign_entry-Writes}
use migash.VariableStore.{VariableStore, find_entry, update_mapped, variable_store_get_value}

abbrev pub mapped_of : Option Entry → Option Mapped
mapped_of none = none
mapped_of (some e) = some e.mapped

pub find_entry-at :
    (store : VariableStore) (name : Text)
    → IsValid store.map
    → mapped_of (find_entry store name) ≡ variable_map_at store.map name
unfolding find_entry
find_entry-at store name v =
    go (variable_map_find store.map name) (variable_map_find-Located store.map name v)
  where
    go :
        (o : Option ℕ)
        → Located store.map name o
        → mapped_of (elim o [ none ↦ none | some pos ↦ store.map.entries pos ])
          ≡ variable_map_at store.map name
    go none l = sym (variable_map_at-Lacks store.map name v l)
    go (some p) h = ap mapped_of h.at ∙ sym (taken-at store.map name p v h)

-- What a lookup of the value gives, from what the table has.
abbrev pub value_of : Option Mapped → Option Text
value_of none = none
value_of (some m) = m.value

abbrev pub read_only_of : Option Mapped → Bool
read_only_of none = false
read_only_of (some m) = m.read_only

pub get_value-at :
    (store : VariableStore) (name : Text)
    → IsValid store.map
    → variable_store_get_value store name ≡ value_of (variable_map_at store.map name)
unfolding variable_store_get_value
get_value-at store name v = go (find_entry store name) ∙ ap value_of (find_entry-at store name v)
  where
    go :
        (o : Option Entry)
        → elim o as (λ _. Option Text) [ none ↦ none | some e ↦ e.mapped.value ]
          ≡ value_of (mapped_of o)
    go none = refl
    go (some e) = refl

pub update_mapped-Writes :
    (map : VariableMap) (name : Text) (m m' : Mapped)
    → IsValid map
    → variable_map_at map name ≡ some m
    → Writes map name (some m') (update_mapped map name m')
unfolding update_mapped
update_mapped-Writes map name m m' v e =
    go (variable_map_find map name) (variable_map_find-Located map name v)
  where
    go :
        (o : Option ℕ)
        → Located map name o
        → Writes map name (some m') (elim o [ none ↦ map | some pos ↦ assign_entry map pos m' ])
    go none l = absurd (cc (e, variable_map_at-Lacks map name v l))
    go (some p) h = assign_entry-Writes map name m' p v h
