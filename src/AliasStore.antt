-- ===== src/AliasStore.antt =====
-- The aliases: the growing array of src/alias_array.c and the store of src/alias_store.c on it. The
-- array is the list of its entries in use; the slots behind them are NULL and are not read. A callback
-- that compares names is the comparison of the names.
pub mod Lookup
pub mod Shift
pub mod Distinct
pub mod Keeps
pub mod Runs
use migash.Prelude.{
  ℕ, zero, suc, ◌+◌, ◌-◌, ◌*◌, Bool, true, false, ◌&&◌, ◌||◌, List, [], ◌∷◌, ◌++◌, Option, none,
  some, if◌then◌else◌, ltb, leb, ◌==◌, get_elem?, set, Text, is_digit, is_alpha, string_eq,
}

-- `alias_t`
pub record Alias : Type 0 where
  pub name : Text
  pub value : Text

pub record AliasArray : Type 0 where
  pub elements : List Alias
  pub size : ℕ
  pub capacity : ℕ

-- `while (new_capacity < needed) new_capacity *= GROW_FACTOR`, for so many steps.
unfoldable pub doubled_to : ℕ → ℕ → ℕ → ℕ
doubled_to zero needed capacity = capacity
doubled_to (suc left) needed capacity =
    let more = doubled_to left needed (capacity * 2) in
    if ltb capacity needed then more else capacity

-- `alias_array_ensure_capacity`: the new capacity.
unfoldable pub alias_array_ensure_capacity : ℕ → ℕ → ℕ
unfolding doubled_to
alias_array_ensure_capacity capacity needed =
    if leb needed capacity
    then capacity
    else doubled_to needed needed (if capacity == 0 then 16 else capacity)

unfoldable pub alias_array_create : AliasArray
alias_array_create = record { elements = []; size = 0; capacity = 16 }

unfoldable pub alias_array_append : AliasArray → Alias → AliasArray
unfolding alias_array_ensure_capacity
alias_array_append array element = record {
  elements = array.elements ++ element ∷ [];
  size = array.size + 1;
  capacity = alias_array_ensure_capacity array.capacity (array.size + 1);
}

unfoldable pub alias_array_set : AliasArray → ℕ → Alias → AliasArray
alias_array_set array index element = record array { elements = set array.elements index element }

-- The loop that shifts the entries to fill the gap: `data[i] = data[i + 1]`, so many times.
unfoldable pub shift_down : ℕ → ℕ → List Alias → List Alias
shift_down i zero elements = elements
shift_down i (suc left) elements = elim (get_elem? elements (suc i)) [
  | none ↦ elements
  | some next ↦ shift_down (suc i) left (set elements i next)
]

-- The last entry is no longer in use.
unfoldable pub without_last : List Alias → List Alias
without_last [] = []
without_last (a ∷ []) = []
without_last (a ∷ b ∷ rest) = a ∷ without_last (b ∷ rest)

unfoldable pub alias_array_remove : AliasArray → ℕ → AliasArray
unfolding shift_down without_last
alias_array_remove array index = record array {
  elements = without_last (shift_down index (array.size - 1 - index) array.elements);
  size = array.size - 1;
}

unfoldable pub alias_array_clear : AliasArray → AliasArray
alias_array_clear array = record array { elements = []; size = 0 }

-- `alias_array_find_with_compare` with the comparison of names: the indices `i`, `i + 1`, ...
unfoldable pub find_from : ℕ → Text → List Alias → Option ℕ
find_from i name [] = none
find_from i name (a ∷ rest) =
    let later = find_from (suc i) name rest in if string_eq a.name name then some i else later

unfoldable pub alias_array_find_with_compare : AliasArray → Text → Option ℕ
unfolding find_from
alias_array_find_with_compare array name = find_from 0 name array.elements

unfoldable pub is_valid_alias_char : ℕ → Bool
is_valid_alias_char c =
    (is_alpha c || is_digit c)
    || (c == b'!' || c == b'%' || c == b',' || c == b'-' || c == b'@' || c == b'_')

-- The loop of `alias_name_is_valid`.
unfoldable pub valid_alias_chars : Text → Bool
unfolding is_valid_alias_char
valid_alias_chars [] = true
valid_alias_chars (c ∷ rest) = is_valid_alias_char c && valid_alias_chars rest

unfoldable pub alias_name_is_valid : Text → Bool
unfolding valid_alias_chars
alias_name_is_valid [] = false
alias_name_is_valid (c ∷ rest) = valid_alias_chars (c ∷ rest)

pub record AliasStore : Type 0 where
  pub aliases : AliasArray

unfoldable pub alias_store_create : AliasStore
unfolding alias_array_create
alias_store_create = record { aliases = alias_array_create }

unfoldable pub alias_store_add : AliasStore → Text → Text → AliasStore
unfolding alias_array_find_with_compare alias_array_set alias_array_append
alias_store_add store name value =
    let alias : Alias = record { name = name; value = value } in
    elim (alias_array_find_with_compare store.aliases name) [
      | some index ↦ record { aliases = alias_array_set store.aliases index alias }
      | none ↦ record { aliases = alias_array_append store.aliases alias }
    ]

unfoldable pub alias_store_remove : AliasStore → Text → AliasStore × Bool
unfolding alias_array_find_with_compare alias_array_remove
alias_store_remove store name = elim (alias_array_find_with_compare store.aliases name) [
  | none ↦ (store, false)
  | some index ↦ (record { aliases = alias_array_remove store.aliases index }, true)
]

unfoldable pub alias_store_clear : AliasStore → AliasStore
unfolding alias_array_clear
alias_store_clear store = record { aliases = alias_array_clear store.aliases }

unfoldable pub alias_store_has_name : AliasStore → Text → Bool
unfolding alias_array_find_with_compare
alias_store_has_name store name = elim (alias_array_find_with_compare store.aliases name) [
  | none ↦ false
  | some _ ↦ true
]

unfoldable pub alias_store_get_value : AliasStore → Text → Option Text
unfolding alias_array_find_with_compare
alias_store_get_value store name = elim (alias_array_find_with_compare store.aliases name) [
  | none ↦ none
  | some index ↦ elim (get_elem? store.aliases.elements index) [
    | none ↦ none
    | some alias ↦ some alias.value
  ]
]

-- The loop of `alias_store_clone` over the aliases of the other store.
unfoldable pub add_aliases : AliasStore → List Alias → AliasStore
unfolding alias_store_add
add_aliases store [] = store
add_aliases store (a ∷ rest) = add_aliases (alias_store_add store a.name a.value) rest

unfoldable pub alias_store_clone : AliasStore → AliasStore
unfolding add_aliases alias_store_create
alias_store_clone other = add_aliases alias_store_create other.aliases.elements
