-- ===== src/VariableStore/Preserves.antt =====
-- Each operation of a store ends, and what it leaves.
use mathlib.Core.Path.{subst}
use migash.Prelude.{
  ◌≡◌, refl, sym, ap, ◌∙◌, inl, inr, Bool, true, false, not, ◌&&◌, List, [], Option, none, some,
  arith, if◌then◌else◌, Text, string_eq_iff,
}
use migash.VariableMap.{Mapped, VariableMap, variable_map_at}
use migash.VariableMap.Valid.{IsValid}
use migash.VariableMap.Assign.{Ends}
use migash.VariableMap.Delete.{variable_map_erase-Writes}
use migash.VariableMap.Runs.{variable_map_clear-IsValid}
use migash.VariableStore.{
  VarStoreError, error_none, error_not_found, error_read_only, VariableStore, changed,
  parse_env_cstr, variable_store_add, variable_store_add_env, variable_store_remove,
  variable_store_clear, variable_store_set_read_only, variable_store_set_exported,
  variable_store_get_envp, envp_cache_valid, built_envp, update_mapped,
}
use migash.VariableStore.Lookup.{read_only_of, update_mapped-Writes}
use migash.VariableStore.Add.{variable_store_add-Added}
use migash.VariableStore.Steps.{
  StoreOp, add, add_env, remove, set_read_only, set_exported, get_envp, clear, store_step, Leaves,
  same-Leaves, Writes-Leaves, Added-Leaves,
}

add_env-Ends :
    (env : Text) (store : VariableStore)
    → IsValid store.map
    → Ends (variable_store_add_env store env) (Leaves (add_env env) store)
unfolding variable_store_add_env
add_env-Ends env store v = go (parse_env_cstr env)
  where
    go :
        (o : Option (Text × Text))
        → Ends
            (elim o as (λ _. Option VariableStore) [
              | none ↦ some store
              | some parts ↦ elim (variable_store_add store parts.0 (some parts.1) true false) [
                | none ↦ none
                | some r ↦ some r.0
              ]
            ])
            (Leaves (add_env env) store)
    go none = (store, refl, same-Leaves (add_env env) store v)
    go (some (name, value)) =
        let (r, run, a) = variable_store_add-Added store name (some value) true false v in
        (
          r.0,
          ap (λ o. elim o as (λ _. Option VariableStore) [ none ↦ none | some x ↦ some x.0 ]) run,
          Added-Leaves (add_env env) store name (some value) _ r v a,
        )

remove-Ends :
    (name : Text) (store : VariableStore)
    → IsValid store.map
    → Ends (variable_store_remove store name) (Leaves (remove name) store)
unfolding variable_store_remove
remove-Ends name store v =
    let (map, run, w) = variable_map_erase-Writes store.map name v in
    (
      changed store map,
      ap
          (λ o. elim o as (λ _. Option VariableStore) [
            | none ↦ none
            | some x ↦ some (changed store x)
          ])
          run,
      Writes-Leaves (remove name) store map name none w
          (λ a. absurd (cc (a, (string_eq_iff name name).1 refl))),
    )

-- An operation that also gives an error code.
abbrev Coded : StoreOp → VariableStore → VariableStore × VarStoreError → Type 0
Coded op store r = Leaves op store r.0

set_read_only-Leaves :
    (name : Text) (b : Bool) (store : VariableStore)
    → IsValid store.map
    → Leaves (set_read_only name b) store (variable_store_set_read_only store name b).0
unfolding variable_store_set_read_only
set_read_only-Leaves name b store v = go (variable_map_at store.map name) refl
  where
    write :
        (m : Mapped) (c : Bool)
        → variable_map_at store.map name ≡ some m
        → (m.read_only && not b) ≡ c
        → Coded (set_read_only name b) store (
            if c then (store, error_read_only) else (
              changed store (update_mapped store.map name (record m { read_only = b })),
              error_none,
            ))
    write m true e h = same-Leaves (set_read_only name b) store v
    write m false e h =
        Writes-Leaves (set_read_only name b) store _ name (some (record m { read_only = b }))
          (update_mapped-Writes store.map name m (record m { read_only = b }) v e)
          (λ a l.
            let locked : m.read_only ≡ true = sym (ap read_only_of e) ∙ l in
            let on : b ≡ true = ground (arith, locked, h) in
            ap (λ x. some (record m { read_only = x })) (on ∙ sym locked) ∙ sym e)

    go :
        (o : Option Mapped)
        → variable_map_at store.map name ≡ o
        → Coded (set_read_only name b) store (elim o as (λ _. VariableStore × VarStoreError) [
          | none ↦ (store, error_not_found)
          | some m ↦ if m.read_only && not b then (store, error_read_only) else (
            changed store (update_mapped store.map name (record m { read_only = b })),
            error_none,
          )
        ])
    go none e = same-Leaves (set_read_only name b) store v
    go (some m) e = write m (m.read_only && not b) e refl

set_exported-Leaves :
    (name : Text) (b : Bool) (store : VariableStore)
    → IsValid store.map
    → Leaves (set_exported name b) store (variable_store_set_exported store name b).0
unfolding variable_store_set_exported
set_exported-Leaves name b store v = go (variable_map_at store.map name) refl
  where
    write :
        (m : Mapped) (c : Bool)
        → variable_map_at store.map name ≡ some m
        → m.read_only ≡ c
        → Coded (set_exported name b) store (
            if c then (store, error_read_only) else (
              changed store (update_mapped store.map name (record m { exported = b })),
              error_none,
            ))
    write m true e h = same-Leaves (set_exported name b) store v
    write m false e h =
        Writes-Leaves (set_exported name b) store _ name (some (record m { exported = b }))
          (update_mapped-Writes store.map name m (record m { exported = b }) v e)
          (λ a l. absurd (cc (l, ap read_only_of e, h)))

    go :
        (o : Option Mapped)
        → variable_map_at store.map name ≡ o
        → Coded (set_exported name b) store (elim o as (λ _. VariableStore × VarStoreError) [
          | none ↦ (store, error_not_found)
          | some m ↦ if m.read_only then (store, error_read_only) else (
            changed store (update_mapped store.map name (record m { exported = b })),
            error_none,
          )
        ])
    go none e = same-Leaves (set_exported name b) store v
    go (some m) e = write m m.read_only e refl

get_envp-map : (store : VariableStore) → (variable_store_get_envp store).0.map ≡ store.map
unfolding variable_store_get_envp
get_envp-map store = go (envp_cache_valid store)
  where
    of_first : VariableStore × List Text → VariableMap
    of_first r = r.0.map

    go :
        (b : Bool)
        → of_first (
            if b then (store, elim store.cached_envp [ none ↦ [] | some envp ↦ envp ]) else (
              record store {
                cached_generation = store.generation;
                cached_envp = some (built_envp store.map);
              },
              built_envp store.map,
            ))
          ≡ store.map
    go true = refl
    go false = refl

clear-Leaves :
    (store : VariableStore) → IsValid store.map → Leaves clear store (variable_store_clear store)
unfolding variable_store_clear
clear-Leaves store v = record {
  valid = variable_map_clear-IsValid store.map v;
  cached = inr (inl (record { counted = refl; array = refl; older = omega arith }));
  kept = λ j a l. cc;
}

pub store_step-Leaves :
    (op : StoreOp) (store : VariableStore)
    → IsValid store.map
    → Ends (store_step op store) (Leaves op store)
store_step-Leaves (add name value exported read_only) store v =
    let (r, run, a) = variable_store_add-Added store name value exported read_only v in
    (
      r.0,
      ap (λ o. elim o as (λ _. Option VariableStore) [ none ↦ none | some x ↦ some x.0 ]) run,
      Added-Leaves (add name value exported read_only) store name value _ r v a,
    )
store_step-Leaves (add_env env) store v = add_env-Ends env store v
store_step-Leaves (remove name) store v = remove-Ends name store v
store_step-Leaves (set_read_only name b) store v = (_, refl, set_read_only-Leaves name b store v)
store_step-Leaves (set_exported name b) store v = (_, refl, set_exported-Leaves name b store v)
store_step-Leaves get_envp store v = (
  _,
  refl,
  record {
    valid = subst IsValid (sym (get_envp-map store)) v;
    cached = inr (inr refl);
    kept = λ j a l. ap (λ x. variable_map_at x j) (get_envp-map store);
  },
)
store_step-Leaves clear store v = (_, refl, clear-Leaves store v)
