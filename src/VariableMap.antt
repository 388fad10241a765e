-- ===== src/VariableMap.antt =====
-- The variables' hash table, src/variable_map.c: linear probing, and deletion that shifts entries
-- back. An array of entries is a function from the index to the entry, `none` where `occupied` is
-- false; the fields of an entry that is not occupied are never read. Logging is left out, and so is
-- destruction, which only frees.
pub mod Ring
pub mod Probe
pub mod Count
pub mod Insert
pub mod Hole
pub mod Move
pub mod Erase
pub mod Valid
pub mod Writes
pub mod Assign
pub mod Grow
pub mod Delete
pub mod Ops
pub mod Runs
pub mod Multiple
pub mod Marks
pub mod Batch
use Prim.Native.Nat.{bit_xor}
use migash.Prelude.{
  ℕ, zero, suc, ◌+◌, ◌-◌, ◌*◌, ◌/◌, ◌%◌, ◌^◌, Bool, true, false, not, ◌&&◌, ◌||◌, List, [], ◌∷◌,
  Option, none, some, if◌then◌else◌, ltb, leb, ◌==◌, length, Text, string_eq,
}

pub record Mapped : Type 0 where
  pub value : Option Text
  pub exported : Bool
  pub read_only : Bool

pub record Entry : Type 0 where
  pub key : Text
  pub mapped : Mapped

abbrev pub Entries : Type 0
Entries = ℕ → Option Entry

pub record VariableMap : Type 0 where
  pub entries : Entries
  pub size : ℕ
  pub capacity : ℕ

-- xcalloc
abbrev pub vacant : Entries
vacant i = none

-- `entries[pos] = e`
unfoldable pub write : Entries → ℕ → Option Entry → Entries
write entries pos e i = if i == pos then e else entries i

abbrev pub occupied : Option Entry → Bool
occupied none = false
occupied (some e) = true

-- The loop of `string_hash` on 32-bit numbers.
unfoldable pub hash_from : ℕ → Text → ℕ
hash_from h [] = h
hash_from h (c ∷ rest) = hash_from (bit_xor h c * 0x01000193 % 2 ^ 32) rest

unfoldable pub string_hash : Text → ℕ
unfolding hash_from
string_hash [] = 0x811c9dc5
string_hash (c ∷ rest) = let h = hash_from 0x811c9dc5 (c ∷ rest) in if h == 0 then 1 else h

unfoldable pub find_slot : Text → ℕ → ℕ
unfolding string_hash
find_slot key capacity = string_hash key % capacity

-- `pos = (pos + 1) % capacity`
unfoldable pub next : ℕ → ℕ → ℕ
next capacity pos = (pos + 1) % capacity

-- The probe loop of the searches and the insertions, for so many steps: the position of the key
-- (`true`) or of the first entry that is not occupied (`false`), and `none` where the steps run out.
unfoldable pub probe : Entries → ℕ → Text → ℕ → ℕ → Option (ℕ × Bool)
unfolding next
probe entries capacity key zero pos = none
probe entries capacity key (suc left) pos =
    let later = probe entries capacity key left (next capacity pos) in
    elim (entries pos) [
      | none ↦ some (pos, false)
      | some entry ↦ if string_eq entry.key key then some (pos, true) else later
    ]

unfoldable pub probe_map : VariableMap → Text → Option (ℕ × Bool)
unfolding probe find_slot
probe_map map key = probe map.entries map.capacity key map.capacity (find_slot key map.capacity)

-- `variable_map_find`: -1 is `none`.
unfoldable pub variable_map_find : VariableMap → Text → Option ℕ
unfolding probe_map
variable_map_find map key = elim (probe_map map key) [
  | none ↦ none
  | some found ↦ if found.1 then some found.0 else none
]

unfoldable pub variable_map_at : VariableMap → Text → Option Mapped
unfolding probe_map
variable_map_at map key = elim (probe_map map key) [
  | none ↦ none
  | some found ↦
      if found.1 then elim (map.entries found.0) [ none ↦ none | some e ↦ some e.mapped ] else none
]

unfoldable pub variable_map_contains : VariableMap → Text → Bool
unfolding variable_map_find
variable_map_contains map key = elim (variable_map_find map key) [ none ↦ false | some _ ↦ true ]

unfoldable pub variable_map_count : VariableMap → Text → ℕ
unfolding variable_map_find
variable_map_count map key = elim (variable_map_find map key) [ none ↦ 0 | some _ ↦ 1 ]

unfoldable pub variable_map_create : VariableMap
variable_map_create = record { entries = vacant; size = 0; capacity = 16 }

unfoldable pub variable_map_clear : VariableMap → VariableMap
variable_map_clear map = record { entries = vacant; size = 0; capacity = map.capacity }

-- The loop to the first entry that is not occupied, for so many steps.
unfoldable pub free_from : Entries → ℕ → ℕ → ℕ → Option ℕ
unfolding next
free_from entries capacity zero pos = none
free_from entries capacity (suc left) pos =
    let later = free_from entries capacity left (next capacity pos) in
    elim (entries pos) [ none ↦ some pos | some _ ↦ later ]

-- The body of the loop that moves the occupied entries to a new array.
unfoldable pub place : ℕ → Entries → Entry → Option Entries
unfolding free_from find_slot write
place capacity new_entries e =
    elim (free_from new_entries capacity capacity (find_slot e.key capacity)) [
      | none ↦ none
      | some pos ↦ some (write new_entries pos (some e))
    ]

-- That loop: the indices `i`, `i + 1`, ... of the old array. `none` where a probe has no end.
unfoldable pub rehash : ℕ → Entries → ℕ → ℕ → Entries → Option Entries
unfolding place
rehash capacity old i zero new_entries = some new_entries
rehash capacity old i (suc left) new_entries = elim (old i) [
  | none ↦ rehash capacity old (suc i) left new_entries
  | some e ↦ elim (place capacity new_entries e) [
    | none ↦ none
    | some placed ↦ rehash capacity old (suc i) left placed
  ]
]

unfoldable pub variable_map_resize : VariableMap → ℕ → Option VariableMap
unfolding rehash
variable_map_resize map new_capacity =
    elim (rehash new_capacity map.entries 0 map.capacity vacant) [
      | none ↦ none
      | some new_entries ↦
          some (record { entries = new_entries; size = map.size; capacity = new_capacity })
    ]

-- Before an insertion the map grows where three quarters are in use.
unfoldable pub grown : VariableMap → Option VariableMap
unfolding variable_map_resize
grown map =
    if leb (map.capacity * 3 / 4) map.size
    then variable_map_resize map (map.capacity * 2)
    else some map

-- `set_entry`, and the new size.
unfoldable pub set_entry : VariableMap → ℕ → Text → Mapped → VariableMap
unfolding write
set_entry map pos key mapped = record {
  entries = write map.entries pos (some (record { key = key; mapped = mapped }));
  size = map.size + 1;
  capacity = map.capacity;
}

-- The key of the entry stays, and what is mapped is replaced.
unfoldable pub assign_entry : VariableMap → ℕ → Mapped → VariableMap
unfolding write
assign_entry map pos mapped = record map {
  entries = elim (map.entries pos) [
    | none ↦ map.entries
    | some e ↦ write map.entries pos (some (record e { mapped = mapped }))
  ];
}

-- The new map and the position; `none` where a probe has no end.
unfoldable pub insert_or_assign_in : VariableMap → Text → Mapped → Option (VariableMap × ℕ)
unfolding probe_map set_entry assign_entry
insert_or_assign_in map key mapped = elim (probe_map map key) [
  | none ↦ none
  | some (pos, found) ↦
      if found
      then some (assign_entry map pos mapped, pos)
      else some (set_entry map pos key mapped, pos)
]

unfoldable pub variable_map_insert_or_assign :
    VariableMap → Text → Mapped → Option (VariableMap × ℕ)
unfolding grown insert_or_assign_in
variable_map_insert_or_assign map key mapped = elim (grown map) [
  | none ↦ none
  | some map' ↦ insert_or_assign_in map' key mapped
]

-- The insertion that leaves an existing key alone: the map, the position and `success`.
unfoldable pub insert_in : VariableMap → Text → Mapped → Option (VariableMap × ℕ × Bool)
unfolding probe_map set_entry
insert_in map key mapped = elim (probe_map map key) [
  | none ↦ none
  | some (pos, found) ↦
      if found then some (map, pos, false) else some (set_entry map pos key mapped, pos, true)
]

unfoldable pub variable_map_insert : VariableMap → Text → Mapped → Option (VariableMap × ℕ × Bool)
unfolding grown insert_in
variable_map_insert map key mapped = elim (grown map) [
  | none ↦ none
  | some map' ↦ insert_in map' key mapped
]

unfoldable pub should_move : ℕ → ℕ → ℕ → Bool
should_move empty curr ideal =
    if leb empty curr then leb ideal empty || ltb curr ideal else ltb curr ideal && leb ideal empty

-- The loop of `backward_shift_deletion`, for so many steps.
unfoldable pub shift_back : ℕ → ℕ → ℕ → ℕ → Entries → Option Entries
unfolding should_move find_slot next write
shift_back capacity zero empty curr entries = none
shift_back capacity (suc left) empty curr entries = elim (entries curr) [
  | none ↦ some entries
  | some e ↦ elim (should_move empty curr (find_slot e.key capacity)) [
    | true ↦
        shift_back capacity left curr (next capacity curr)
          (write (write entries empty (some e)) curr none)
    | false ↦ shift_back capacity left empty (next capacity curr) entries
  ]
]

unfoldable pub backward_shift_deletion : VariableMap → ℕ → Option VariableMap
unfolding shift_back
backward_shift_deletion map empty =
    elim (shift_back map.capacity map.capacity empty (next map.capacity empty) map.entries) [
      | none ↦ none
      | some entries' ↦ some (record map { entries = entries' })
    ]

unfoldable pub variable_map_erase_at_pos : VariableMap → ℕ → Option VariableMap
unfolding backward_shift_deletion
variable_map_erase_at_pos map pos = elim (map.entries pos) [
  | none ↦ some map
  | some e ↦
      backward_shift_deletion
        (record {
          entries = write map.entries pos none;
          size = map.size - 1;
          capacity = map.capacity;
        })
        pos
]

unfoldable pub variable_map_erase : VariableMap → Text → Option VariableMap
unfolding variable_map_find variable_map_erase_at_pos
variable_map_erase map key = elim (variable_map_find map key) [
  | none ↦ some map
  | some pos ↦ variable_map_erase_at_pos map pos
]

-- The removed value and flags, which now belong to the caller, and the map.
unfoldable pub variable_map_extract : VariableMap → Text → Option (VariableMap × Option Mapped)
unfolding variable_map_find variable_map_erase_at_pos
variable_map_extract map key = elim (variable_map_find map key) [
  | none ↦ some (map, none)
  | some pos ↦ elim (map.entries pos) [
    | none ↦ some (map, none)
    | some e ↦ elim (variable_map_erase_at_pos map pos) [
      | none ↦ none
      | some map' ↦ some (map', some e.mapped)
    ]
  ]
]
