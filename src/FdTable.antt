-- ===== src/FdTable.antt =====
-- The descriptor table, src/fd_table.c. `entries` is the part `entries[0 .. count)` of the array;
-- what lies behind it is never read. Logging is left out.
pub mod Slots
pub mod Gap
pub mod Valid
pub mod Keeps
pub mod Lookup
pub mod Flags
use migash.Prelude.{
  ℕ, zero, suc, ◌+◌, ◌-◌, ◌*◌, Bool, true, false, ◌&&◌, ◌||◌, not, List, [], ◌∷◌, ◌++◌, Option,
  none, some, if◌then◌else◌, ltb, length, get_elem?, set, Text,
}
use migash.Prelude.Int.{ℤ, pos, negsuc, ◌==ℤ◌, ltb_ℤ}

-- `fd_flags_t`, a set of three bits. FD_IS_DEFAULT is the empty set.
pub record FdFlags : Type 0 where
  pub close_on_exec : Bool
  pub redirected : Bool
  pub saved : Bool

abbrev pub default_flags : FdFlags
default_flags = record { close_on_exec = false; redirected = false; saved = false }

abbrev pub saved_flag : FdFlags
saved_flag = record { close_on_exec = false; redirected = false; saved = true }

-- a | b
abbrev pub union : FdFlags → FdFlags → FdFlags
union a b = record {
  close_on_exec = a.close_on_exec || b.close_on_exec;
  redirected = a.redirected || b.redirected;
  saved = a.saved || b.saved;
}

-- a & ~b
abbrev pub minus : FdFlags → FdFlags → FdFlags
minus a b = record {
  close_on_exec = a.close_on_exec && not b.close_on_exec;
  redirected = a.redirected && not b.redirected;
  saved = a.saved && not b.saved;
}

-- (a & b) != 0
abbrev pub meets : FdFlags → FdFlags → Bool
meets a b =
    (a.close_on_exec && b.close_on_exec) || (a.redirected && b.redirected) || (a.saved && b.saved)

pub record FdEntry : Type 0 where
  pub fd : ℤ
  pub original_fd : ℤ
  pub flags : FdFlags
  pub is_open : Bool
  pub path : Option Text

pub record FdTable : Type 0 where
  pub entries : List FdEntry
  pub capacity : ℕ
  pub count : ℕ
  pub highest_fd : ℤ

unfoldable pub fd_table_create : FdTable
fd_table_create = record { entries = []; capacity = 16; count = 0; highest_fd = negsuc 0 }

unfoldable pub fd_table_clone : FdTable → FdTable
fd_table_clone src = record {
  entries = src.entries;
  capacity = src.capacity;
  count = src.count;
  highest_fd = src.highest_fd;
}

-- The scan of `find_entry_index`; -1 is `none`.
unfoldable pub index_from : ℕ → ℤ → List FdEntry → Option ℕ
index_from i fd [] = none
index_from i fd (entry ∷ rest) = if entry.fd ==ℤ fd then some i else index_from (suc i) fd rest

unfoldable pub find_entry_index : FdTable → ℤ → Option ℕ
unfolding index_from
find_entry_index table fd = index_from 0 fd table.entries

-- `table->entries[idx]` written through a pointer.
unfoldable pub update_at : ℕ → (FdEntry → FdEntry) → List FdEntry → List FdEntry
update_at idx f [] = []
update_at zero f (entry ∷ rest) = f entry ∷ rest
update_at (suc idx) f (entry ∷ rest) = entry ∷ update_at idx f rest

-- The update of `highest_fd` by a descriptor.
unfoldable pub higher : ℤ → ℤ → ℤ
higher highest fd = if ltb_ℤ highest fd then fd else highest

-- The capacity after `ensure_capacity`, which keeps a margin of four free slots.
unfoldable pub ensured_capacity : FdTable → ℕ
ensured_capacity table =
    if ltb (table.count + 4) table.capacity then table.capacity else table.capacity * 2

-- The new entry goes to `entries[count]`.
unfoldable pub append_entry : FdTable → FdEntry → FdTable
unfolding ensured_capacity
append_entry table entry = record {
  entries = table.entries ++ entry ∷ [];
  capacity = ensured_capacity table;
  count = table.count + 1;
  highest_fd = higher table.highest_fd entry.fd;
}

-- `fd_table_add` leaves `original_fd` of an existing entry alone.
unfoldable pub updated_entry : FdFlags → Text → FdEntry → FdEntry
updated_entry flags path entry = record entry { flags = flags; is_open = true; path = some path }

unfoldable pub new_entry : ℤ → ℤ → FdFlags → Text → FdEntry
new_entry fd original_fd flags path = record {
  fd = fd;
  original_fd = original_fd;
  flags = flags;
  is_open = true;
  path = some path;
}

unfoldable pub fd_table_add : FdTable → ℤ → FdFlags → Text → FdTable × Bool
unfolding find_entry_index update_at append_entry updated_entry new_entry
fd_table_add table fd flags path = elim (find_entry_index table fd) [
  | some idx ↦
      (record table { entries = update_at idx (updated_entry flags path) table.entries }, true)
  | none ↦ (append_entry table (new_entry fd (negsuc 0) flags path), true)
]

unfoldable pub saved_entry : ℤ → FdEntry → FdEntry
saved_entry original_fd entry = record entry {
  original_fd = original_fd;
  flags = union entry.flags saved_flag;
}

-- "(unknown)"
abbrev pub unknown_path : Text
unknown_path = b'(' ∷ b'u' ∷ b'n' ∷ b'k' ∷ b'n' ∷ b'o' ∷ b'w' ∷ b'n' ∷ b')' ∷ []

unfoldable pub fd_table_mark_saved : FdTable → ℤ → ℤ → FdTable × Bool
unfolding find_entry_index update_at append_entry saved_entry new_entry
fd_table_mark_saved table saved_fd original_fd = elim (find_entry_index table saved_fd) [
  | some idx ↦
      (record table { entries = update_at idx (saved_entry original_fd) table.entries }, true)
  | none ↦ (append_entry table (new_entry saved_fd original_fd saved_flag unknown_path), true)
]

-- The functions that write one entry and return false where there is none.
unfoldable pub change_entry : FdTable → ℤ → (FdEntry → FdEntry) → FdTable × Bool
unfolding find_entry_index update_at
change_entry table fd f = elim (find_entry_index table fd) [
  | none ↦ (table, false)
  | some idx ↦ (record table { entries = update_at idx f table.entries }, true)
]

unfoldable pub fd_table_mark_closed : FdTable → ℤ → FdTable × Bool
unfolding change_entry
fd_table_mark_closed table fd = change_entry table fd (λ entry. record entry { is_open = false })

unfoldable pub fd_table_mark_open : FdTable → ℤ → FdTable × Bool
unfolding change_entry
fd_table_mark_open table fd = change_entry table fd (λ entry. record entry { is_open = true })

unfoldable pub fd_table_set_flag : FdTable → ℤ → FdFlags → FdTable × Bool
unfolding change_entry
fd_table_set_flag table fd flag =
    change_entry table fd (λ entry. record entry { flags = union entry.flags flag })

unfoldable pub fd_table_clear_flag : FdTable → ℤ → FdFlags → FdTable × Bool
unfolding change_entry
fd_table_clear_flag table fd flag =
    change_entry table fd (λ entry. record entry { flags = minus entry.flags flag })

-- `count--`: the last entry is no longer used.
unfoldable pub drop_last : List FdEntry → List FdEntry
drop_last [] = []
drop_last (entry ∷ []) = []
drop_last (entry ∷ next ∷ rest) = entry ∷ drop_last (next ∷ rest)

-- `entries[idx] = entries[count - 1]`, where the entry is not the last one.
unfoldable pub fill_gap : ℕ → ℕ → List FdEntry → List FdEntry
fill_gap idx count entries =
    if ltb idx (count - 1)
    then elim (get_elem? entries (count - 1)) [ none ↦ entries | some last ↦ set entries idx last ]
    else entries

-- The loop that finds the highest descriptor again.
unfoldable pub highest_from : ℤ → List FdEntry → ℤ
highest_from highest [] = highest
highest_from highest (entry ∷ rest) = highest_from (higher highest entry.fd) rest

unfoldable pub fd_table_remove : FdTable → ℤ → FdTable × Bool
unfolding find_entry_index drop_last fill_gap highest_from
fd_table_remove table fd = elim (find_entry_index table fd) [
  | none ↦ (table, false)
  | some idx ↦
      let entries' = drop_last (fill_gap idx table.count table.entries) in
      (
        record {
          entries = entries';
          capacity = table.capacity;
          count = table.count - 1;
          highest_fd =
              if fd ==ℤ table.highest_fd
              then highest_from (negsuc 0) entries'
              else table.highest_fd;
        },
        true,
      )
]

unfoldable pub fd_table_find : FdTable → ℤ → Option FdEntry
unfolding find_entry_index
fd_table_find table fd = elim (find_entry_index table fd) [
  | none ↦ none
  | some idx ↦ get_elem? table.entries idx
]

unfoldable pub fd_table_is_open : FdTable → ℤ → Bool
unfolding fd_table_find
fd_table_is_open table fd = elim (fd_table_find table fd) [
  | none ↦ false
  | some entry ↦ entry.is_open
]

unfoldable pub fd_table_get_flags : FdTable → ℤ → FdFlags
unfolding fd_table_find
fd_table_get_flags table fd = elim (fd_table_find table fd) [
  | none ↦ default_flags
  | some entry ↦ entry.flags
]

unfoldable pub fd_table_has_flag : FdTable → ℤ → FdFlags → Bool
unfolding fd_table_find
fd_table_has_flag table fd flag = elim (fd_table_find table fd) [
  | none ↦ false
  | some entry ↦ meets entry.flags flag
]

unfoldable pub fd_table_get_original : FdTable → ℤ → ℤ
unfolding fd_table_find
fd_table_get_original table fd = elim (fd_table_find table fd) [
  | none ↦ negsuc 0
  | some entry ↦ entry.original_fd
]

unfoldable pub fd_table_get_path : FdTable → ℤ → Option Text
unfolding fd_table_find
fd_table_get_path table fd = elim (fd_table_find table fd) [ none ↦ none | some entry ↦ entry.path ]

-- The two passes of `fd_table_get_fds_with_flag`: the first counts, the second fills.
unfoldable pub count_flag : FdFlags → List FdEntry → ℕ
count_flag flag [] = 0
count_flag flag (entry ∷ rest) =
    if meets entry.flags flag then suc (count_flag flag rest) else count_flag flag rest

unfoldable pub fds_with_flag : FdFlags → List FdEntry → List ℤ
fds_with_flag flag [] = []
fds_with_flag flag (entry ∷ rest) =
    if meets entry.flags flag then entry.fd ∷ fds_with_flag flag rest else fds_with_flag flag rest

-- `*out_count`, and the array, NULL where it would be empty.
unfoldable pub fd_table_get_fds_with_flag : FdTable → FdFlags → ℕ × Option (List ℤ)
unfolding count_flag fds_with_flag
fd_table_get_fds_with_flag table flag =
    let count = count_flag flag table.entries in
    (count, elim count [ zero ↦ none | suc _ ↦ some (fds_with_flag flag table.entries) ])

unfoldable pub fd_table_get_saved_fds : FdTable → ℕ × Option (List ℤ)
unfolding fd_table_get_fds_with_flag
fd_table_get_saved_fds table = fd_table_get_fds_with_flag table saved_flag
