-- ===== src/VariableStore/Steps.antt =====
-- The operations of a store as steps, and what each step leaves of the store.
use mathlib.Core.Path.{subst}
use migash.Prelude.{
  ℕ, ◌+◌, ◌%◌, ◌^◌, ◌≤◌, ◌≡◌, refl, sym, ap, ◌∙◌, ◌⊎◌, inl, inr, Bool, true, false, List, [], ◌∷◌,
  Option, none, some, arith, if◌then◌else◌, Text, string_eq, string_eq_iff, Bool-cases,
}
use migash.VariableMap.{Mapped, VariableMap, variable_map_at}
use migash.VariableMap.Valid.{IsValid}
use migash.VariableMap.Writes.{Writes}
use migash.VariableStore.{
  VarStoreError, VariableStore, changed, variable_store_add, variable_store_add_env,
  variable_store_remove, variable_store_clear, variable_store_set_read_only,
  variable_store_set_exported, variable_store_get_envp, is_error_none,
}
use migash.VariableStore.EnvText.{is_error_none_iff}
use migash.VariableStore.Lookup.{read_only_of}
use migash.VariableStore.Add.{Added}

pub data StoreOp : Type 0 where
  add : Text → Option Text → Bool → Bool → StoreOp
  add_env remove : Text → StoreOp
  set_read_only set_exported : Text → Bool → StoreOp
  get_envp clear : StoreOp

abbrev pub store_step : StoreOp → VariableStore → Option VariableStore
store_step (add name value exported read_only) store =
    elim (variable_store_add store name value exported read_only) [
      | none ↦ none
      | some r ↦ some r.0
    ]
store_step (add_env env) store = variable_store_add_env store env
store_step (remove name) store = variable_store_remove store name
store_step (set_read_only name b) store = some (variable_store_set_read_only store name b).0
store_step (set_exported name b) store = some (variable_store_set_exported store name b).0
store_step get_envp store = some (variable_store_get_envp store).0
store_step clear store = some (variable_store_clear store)

abbrev pub store_run : List StoreOp → VariableStore → Option VariableStore
store_run [] store = some store
store_run (op ∷ ops) store = elim (store_step op store) [
  | none ↦ none
  | some store' ↦ store_run ops store'
]

-- The operations that can take a read-only variable away: its removal and `variable_store_clear`.
abbrev pub takes_away : StoreOp → Text → Bool
takes_away (remove name) j = string_eq name j
takes_away clear j = true
takes_away _ j = false

abbrev pub next_generation : VariableStore → ℕ
next_generation store = (store.generation + 1) % 2 ^ 32

-- A change that is counted, and that leaves the array as it is.
pub record IsCounted (store store' : VariableStore) : Type 0 where
  pub counted : store'.generation ≡ next_generation store
  pub array : store'.cached_envp ≡ store.cached_envp
  pub older : store'.cached_generation ≤ store.cached_generation

abbrev pub Cached : VariableStore → VariableStore → Type 0
Cached store store' =
    (store' ≡ store) ⊎ (IsCounted store store' ⊎ (store' ≡ (variable_store_get_envp store).0))

pub record Leaves (op : StoreOp) (store store' : VariableStore) : Type 0 where
  pub valid : IsValid store'.map
  pub cached : Cached store store'
  pub kept :
      (j : Text)
      → takes_away op j ≡ false
      → read_only_of (variable_map_at store.map j) ≡ true
      → variable_map_at store'.map j ≡ variable_map_at store.map j

pub same-Leaves : (op : StoreOp) (store : VariableStore) → IsValid store.map → Leaves op store store
same-Leaves op store v = record { valid = v; cached = inl refl; kept = λ j a l. refl }

-- A write under a name that is not read-only, or that writes what is there.
pub Writes-Leaves :
    (op : StoreOp) (store : VariableStore) (map : VariableMap) (name : Text) (o : Option Mapped)
    → Writes store.map name o map
    → (takes_away op name ≡ false
        → read_only_of (variable_map_at store.map name) ≡ true
        → o ≡ variable_map_at store.map name)
    → Leaves op store (changed store map)
Writes-Leaves op store map name o w h = record {
  valid = w.valid;
  cached = inr (inl (record { counted = refl; array = refl; older = omega arith }));
  kept = λ j a l. w.at j ∙ go j (string_eq name j) refl a l;
}
  where
    go :
        (j : Text) (b : Bool)
        → string_eq name j ≡ b
        → takes_away op j ≡ false
        → read_only_of (variable_map_at store.map j) ≡ true
        → (if b then o else variable_map_at store.map j) ≡ variable_map_at store.map j
    go j false e a l = refl
    go j true e a l =
        let same = (string_eq_iff name j).0 e in
        h (ap (takes_away op) same ∙ a)
          (ap (λ x. read_only_of (variable_map_at store.map x)) same ∙ l)
        ∙ ap (variable_map_at store.map) same

pub Added-Leaves :
    (op : StoreOp) (store : VariableStore) (name : Text) (value : Option Text) (m : Mapped)
    (r : VariableStore × VarStoreError)
    → IsValid store.map
    → Added store name value m r
    → Leaves op store r.0
Added-Leaves op store name value m (s, e) v a = elim (Bool-cases (is_error_none e)) [
  | inl k ↦
      let done = (is_error_none_iff e).0 k in
      subst (Leaves op store) (sym (a.counted done)) (
        Writes-Leaves op store s.map name (some m) (a.written done)
          (λ x l. absurd (cc (l, (a.allowed.0 done).writable))))
  | inr k ↦
      subst (Leaves op store) (sym (a.refused (λ same. cc (k, (is_error_none_iff e).1 same))))
        (same-Leaves op store v)
]
