-- ===== src/VariableStore/ReadOnly.antt =====
-- Read-only variables over sequences of operations.
use migash.Prelude.{
  ◌≡◌, refl, ap, ◌∙◌, Bool, true, ◌&&◌, not, List, [], ◌∷◌, Option, none, some, arith, Text,
}
use migash.VariableMap.{variable_map_at}
use migash.VariableMap.Valid.{IsValid}
use migash.VariableMap.Assign.{Ends}
use migash.VariableStore.{VariableStore}
use migash.VariableStore.Lookup.{read_only_of, value_of}
use migash.VariableStore.Preserves.{store_step-Leaves}
use migash.VariableStore.Steps.{StoreOp, store_run, takes_away}

-- No operation of the sequence removes the name or clears the store.
abbrev pub spares : List StoreOp → Text → Bool
spares [] j = true
spares (op ∷ ops) j = not (takes_away op j) && spares ops j

-- A well-formed table with a read-only variable under the name, of the given value.
pub record Protects (j : Text) (value : Option Text) (store : VariableStore) : Type 0 where
  pub valid : IsValid store.map
  pub kept : value_of (variable_map_at store.map j) ≡ value
  pub locked : read_only_of (variable_map_at store.map j) ≡ true

-- A variable that is read-only in a store with a well-formed table keeps its value and stays
-- read-only through every sequence of operations none of which removes it or clears the store,
-- whatever the operations try to assign to it and whatever flags they try to set; and the sequence
-- ends.
pub store_run-Protects :
    (ops : List StoreOp) (store : VariableStore) (j : Text)
    → IsValid store.map
    → read_only_of (variable_map_at store.map j) ≡ true
    → spares ops j ≡ true
    → Ends (store_run ops store) (Protects j (value_of (variable_map_at store.map j)))
store_run-Protects [] store j v l s = (store, refl, record { valid = v; kept = refl; locked = l })
store_run-Protects (op ∷ ops) store j v l s =
    let (store', run, a) = store_step-Leaves op store v in
    let same = a.kept j (ground (arith, s)) l in
    let (store'', run', p) =
      store_run-Protects ops store' j a.valid (ap read_only_of same ∙ l) (ground (arith, s)) in
    (
      store'',
      ap (λ o. elim o as (λ _. Option VariableStore) [ none ↦ none | some x ↦ store_run ops x ]) run
          ∙ run',
      record { valid = p.valid; kept = p.kept ∙ ap value_of same; locked = p.locked },
    )
