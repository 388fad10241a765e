-- ===== src/VariableStore.antt =====
-- The store of the shell variables, src/variable_store.c: the hash table of src/variable_map.c, a
-- count of the changes and the environment array for execve, which is kept until the next change.
-- The store that `cached_parent` points to is left out: no code sets that field to anything but
-- NULL. `none` as the result of an operation stands for a probe of the table that has no end.
pub mod Names
pub mod EnvText
pub mod Lookup
pub mod Add
pub mod Steps
pub mod Preserves
pub mod ReadOnly
pub mod Environment
use migash.Prelude.{
  ℕ, zero, suc, ◌+◌, ◌*◌, ◌%◌, ◌^◌, Bool, true, false, not, ◌&&◌, ◌||◌, List, [], ◌∷◌, ◌++◌, map,
  Option, none, some, if◌then◌else◌, ltb, ◌==◌, length, Text, is_digit, is_alpha,
}
use migash.VariableMap.{
  Mapped, Entry, Entries, VariableMap, variable_map_find, variable_map_at, variable_map_contains,
  variable_map_create, variable_map_clear, variable_map_insert_or_assign, variable_map_erase,
  assign_entry,
}

-- `var_store_error_t`
pub data VarStoreError : Type 0 where
  error_none error_not_found error_read_only error_empty_name : VarStoreError
  error_name_too_long error_name_starts_with_digit : VarStoreError
  error_name_invalid_character error_value_too_long : VarStoreError

abbrev pub max_var_name_length : ℕ
max_var_name_length = 1024

abbrev pub max_var_value_length : ℕ
max_var_value_length = 128 * 1024

abbrev pub int_max : ℕ
int_max = 2147483647

-- The four special parameters that are variables.
unfoldable pub is_special : ℕ → Bool
is_special c = c == b'?' || c == b'-' || c == b'$' || c == b'!'

-- The loop on the characters after the first.
unfoldable pub validate_rest : Text → VarStoreError
validate_rest [] = error_none
validate_rest (c ∷ rest) =
    let later = validate_rest rest in
    if not (is_alpha c || is_digit c) && not (c == b'_')
    then error_name_invalid_character
    else later

unfoldable pub validate_variable_name : Text → VarStoreError
unfolding is_special validate_rest
validate_variable_name [] = error_empty_name
validate_variable_name (c ∷ rest) =
    if ltb max_var_name_length (length (c ∷ rest))
    then error_name_too_long
    else if length (c ∷ rest) == 1 && is_special c
    then error_none
    else if not (is_alpha c) && not (c == b'_')
    then if is_digit c then error_name_starts_with_digit else error_name_invalid_character
    else validate_rest rest

-- NULL is `none`.
unfoldable pub validate_variable_value : Option Text → VarStoreError
validate_variable_value none = error_none
validate_variable_value (some value) =
    if ltb max_var_value_length (length value) then error_value_too_long else error_none

abbrev pub text_or_empty : Option Text → Text
text_or_empty none = []
text_or_empty (some value) = value

-- NULL is written as the empty text.
unfoldable pub make_env_cstr : Text → Option Text → Text
make_env_cstr name value = name ++ (b'=' ∷ text_or_empty value)

-- `strchr(env_str, '=')`: the text before the first `=`, and the text after it.
unfoldable pub split_equals : Text → Option (Text × Text)
split_equals [] = none
split_equals (c ∷ rest) =
    let later = split_equals rest in
    if c == b'='
    then some ([], rest)
    else elim later [ none ↦ none | some parts ↦ some (c ∷ parts.0, parts.1) ]

abbrev pub is_error_none : VarStoreError → Bool
is_error_none error_none = true
is_error_none _ = false

-- The name and the value that the checks let through.
unfoldable pub checked_env : Text → Text → Option (Text × Text)
unfolding validate_variable_name validate_variable_value
checked_env name value =
    if ltb int_max (length name)
    then none
    else if not (is_error_none (validate_variable_name name))
    then none
    else if not (is_error_none (validate_variable_value (some value)))
    then none
    else some (name, value)

unfoldable pub parse_env_cstr : Text → Option (Text × Text)
unfolding split_equals checked_env
parse_env_cstr [] = none
parse_env_cstr (c ∷ rest) =
    if c == b'='
    then none
    else elim (split_equals (c ∷ rest)) [ none ↦ none | some parts ↦ checked_env parts.0 parts.1 ]

pub record VariableStore : Type 0 where
  pub map : VariableMap
  pub generation : ℕ
  pub cached_generation : ℕ
  pub cached_envp : Option (List Text)

unfoldable pub variable_store_create : VariableStore
unfolding variable_map_create
variable_store_create = record {
  map = variable_map_create;
  generation = 0;
  cached_generation = 0;
  cached_envp = none;
}

-- `store->generation++` on 32 bits, after a change of the table.
abbrev pub changed : VariableStore → VariableMap → VariableStore
changed store map = record store { map = map; generation = (store.generation + 1) % 2 ^ 32 }

unfoldable pub find_entry : VariableStore → Text → Option Entry
unfolding variable_map_find
find_entry store name = elim (variable_map_find store.map name) [
  | none ↦ none
  | some pos ↦ store.map.entries pos
]

unfoldable pub variable_store_clear : VariableStore → VariableStore
unfolding variable_map_clear
variable_store_clear store = record (changed store (variable_map_clear store.map)) {
  cached_generation = 0;
}

-- `existing && existing->mapped.read_only`
abbrev pub is_locked : Option Entry → Bool
is_locked none = false
is_locked (some entry) = entry.mapped.read_only

-- The part of `variable_store_add` after the checks.
unfoldable pub add_checked :
    VariableStore → Text → Option Text → Bool → Bool → Option (VariableStore × VarStoreError)
unfolding variable_map_insert_or_assign
add_checked store name value exported read_only =
    elim (variable_map_insert_or_assign store.map name
      (record { value = some (text_or_empty value); exported = exported; read_only = read_only })) [
        | none ↦ none
        | some r ↦ some (changed store r.0, error_none)
      ]

unfoldable pub variable_store_add :
    VariableStore → Text → Option Text → Bool → Bool → Option (VariableStore × VarStoreError)
unfolding validate_variable_name validate_variable_value find_entry add_checked
variable_store_add store name value exported read_only =
    let done = add_checked store name value exported read_only in
    if not (is_error_none (validate_variable_name name))
    then some (store, validate_variable_name name)
    else if not (is_error_none (validate_variable_value value))
    then some (store, validate_variable_value value)
    else if is_locked (find_entry store name)
    then some (store, error_read_only)
    else done

unfoldable pub variable_store_add_env : VariableStore → Text → Option VariableStore
unfolding parse_env_cstr variable_store_add
variable_store_add_env store env = elim (parse_env_cstr env) [
  | none ↦ some store
  | some parts ↦ elim (variable_store_add store parts.0 (some parts.1) true false) [
    | none ↦ none
    | some r ↦ some r.0
  ]
]

-- The loop of `variable_store_create_from_envp`, whose body is that of `variable_store_add_env`.
unfoldable pub add_envp : VariableStore → List Text → Option VariableStore
unfolding variable_store_add_env
add_envp store [] = some store
add_envp store (env ∷ envp) = elim (variable_store_add_env store env) [
  | none ↦ none
  | some store' ↦ add_envp store' envp
]

unfoldable pub variable_store_create_from_envp : List Text → Option VariableStore
unfolding add_envp variable_store_create
variable_store_create_from_envp envp = add_envp variable_store_create envp

unfoldable pub variable_store_remove : VariableStore → Text → Option VariableStore
unfolding variable_map_erase
variable_store_remove store name = elim (variable_map_erase store.map name) [
  | none ↦ none
  | some map ↦ some (changed store map)
]

unfoldable pub variable_store_has_name : VariableStore → Text → Bool
unfolding variable_map_contains
variable_store_has_name store name = variable_map_contains store.map name

-- The view is the entry: its name, value and flags.
unfoldable pub variable_store_get_variable : VariableStore → Text → Option Entry
unfolding find_entry
variable_store_get_variable store name = find_entry store name

unfoldable pub variable_store_get_value : VariableStore → Text → Option Text
unfolding find_entry
variable_store_get_value store name = elim (find_entry store name) [
  | none ↦ none
  | some entry ↦ entry.mapped.value
]

unfoldable pub variable_store_is_read_only : VariableStore → Text → Bool
unfolding find_entry
variable_store_is_read_only store name = elim (find_entry store name) [
  | none ↦ false
  | some entry ↦ entry.mapped.read_only
]

unfoldable pub variable_store_is_exported : VariableStore → Text → Bool
unfolding find_entry
variable_store_is_exported store name = elim (find_entry store name) [
  | none ↦ false
  | some entry ↦ entry.mapped.exported
]

-- `variable_map_data_at`, and the assignment of what is mapped there through the pointer.
unfoldable pub update_mapped : VariableMap → Text → Mapped → VariableMap
unfolding variable_map_find assign_entry
update_mapped map name mapped = elim (variable_map_find map name) [
  | none ↦ map
  | some pos ↦ assign_entry map pos mapped
]

-- src/variable_store.h speaks of clearing the flag too; a flag that is set is not cleared.
unfoldable pub variable_store_set_read_only :
    VariableStore → Text → Bool → VariableStore × VarStoreError
unfolding variable_map_at update_mapped
variable_store_set_read_only store name read_only = elim (variable_map_at store.map name) [
  | none ↦ (store, error_not_found)
  | some mapped ↦ if mapped.read_only && not read_only then (store, error_read_only) else (
    changed store (update_mapped store.map name (record mapped { read_only = read_only })),
    error_none,
  )
]

unfoldable pub variable_store_set_exported :
    VariableStore → Text → Bool → VariableStore × VarStoreError
unfolding variable_map_at update_mapped
variable_store_set_exported store name exported = elim (variable_map_at store.map name) [
  | none ↦ (store, error_not_found)
  | some mapped ↦ if mapped.read_only then (store, error_read_only) else (
    changed store (update_mapped store.map name (record mapped { exported = exported })),
    error_none,
  )
]

-- The loop on the indices `i`, `i + 1`, ... of `variable_store_for_each` and of
-- `variable_store_get_envp`: the occupied entries in the order of the array.
unfoldable pub entries_from : Entries → ℕ → ℕ → List Entry
entries_from entries i zero = []
entries_from entries i (suc left) =
    let later = entries_from entries (suc i) left in
    elim (entries i) [ none ↦ later | some entry ↦ entry ∷ later ]

unfoldable pub exported_env : List Entry → List Text
unfolding make_env_cstr
exported_env [] = []
exported_env (e ∷ es) =
    let later = exported_env es in
    if e.mapped.exported then make_env_cstr e.key e.mapped.value ∷ later else later

-- The array as it is built from the table.
unfoldable pub built_envp : VariableMap → List Text
unfolding entries_from exported_env
built_envp map = exported_env (entries_from map.entries 0 map.capacity)

unfoldable pub envp_cache_valid : VariableStore → Bool
envp_cache_valid store = elim store.cached_envp [
  | none ↦ false
  | some _ ↦ store.cached_generation == store.generation
]

unfoldable pub variable_store_get_envp : VariableStore → VariableStore × List Text
unfolding envp_cache_valid built_envp
variable_store_get_envp store =
    if envp_cache_valid store
    then (store, elim store.cached_envp [ none ↦ [] | some envp ↦ envp ])
    else (
      record store {
        cached_generation = store.generation;
        cached_envp = some (built_envp store.map);
      },
      built_envp store.map,
    )
