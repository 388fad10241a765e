-- ===== src/FdTable/Lookup.antt =====
-- The descriptor table as a map from descriptors to entries.
use migash.Prelude.{
  zero, suc, List, length, arith, ℕ, ◌≡◌, refl, sym, ap, ◌∙◌, Bool, true, false, [], ◌∷◌, ◌++◌,
  Option, none, some, arith, if◌then◌else◌, Text, get_elem?,
}
use mathlib.Core.Path.{subst}
use migash.Prelude.Int.{ℤ, negsuc, ◌==ℤ◌, ==ℤ_iff}
use migash.FdTable.{
  count_flag, fds_with_flag, fd_table_get_fds_with_flag, FdFlags, FdEntry, FdTable, index_from,
  update_at, append_entry, updated_entry, new_entry, fd_table_add, drop_last, fill_gap,
  fd_table_remove, fd_table_find, saved_flag, fd_table_mark_saved, saved_entry, unknown_path,
}
use migash.FdTable.Slots.{
  first, has_fd, distinct, Found, index_from-Found, first-update_fd, first-append,
}
use migash.FdTable.Gap.{has_fd-first, first-removed, ends_in, remaining}
use migash.FdTable.Valid.{IsWellFormed}
use migash.FdTable.Keeps.{KeepsFd, left_over}

pub find-first : (table : FdTable) (fd : ℤ) → fd_table_find table fd ≡ first fd table.entries
unfolding fd_table_find
find-first table fd = go (index_from 0 fd table.entries) (index_from-Found fd table.entries)
  where
    go :
        (o : Option ℕ)
        → Found fd table.entries o
        → elim o as (λ _. Option FdEntry) [ none ↦ none | some idx ↦ get_elem? table.entries idx ]
          ≡ first fd table.entries
    go none h = sym h.0
    go (some idx) s = s.at

-- The entry after a call that updates an existing entry and appends a missing one.
abbrev pub upserted : (FdEntry → FdEntry) → FdEntry → Option FdEntry → Option FdEntry
upserted f new none = some new
upserted f new (some e) = some (f e)

first-upsert :
    (table : FdTable) (fd j : ℤ) (f : FdEntry → FdEntry) (new : FdEntry) (o : Option ℕ)
    → KeepsFd f
    → new.fd ≡ fd
    → Found fd table.entries o
    → let r : FdTable × Bool = elim o [
      | some idx ↦ (record table { entries = update_at idx f table.entries }, true)
      | none ↦ (append_entry table new, true)
    ] in
      first j r.0.entries
      ≡ (if fd ==ℤ j then upserted f new (first fd table.entries) else first j table.entries)
unfolding append_entry
first-upsert table fd j f new none k e h = ground (
  arith,
  h.0,
  first-append j table.entries new (ap (λ d. has_fd d table.entries) e ∙ h.1),
  ap (λ d. d ==ℤ j) e,
)
first-upsert table fd j f new (some idx) k e s =
    rw (s.update f, first-update_fd fd j f table.entries k)
      (ground (arith, s.present, has_fd-first fd table.entries))

find-upserted_add :
    (table : FdTable) (fd j : ℤ) (flags : FdFlags) (path : Text)
    → fd_table_find (fd_table_add table fd flags path).0 j ≡ (
        if fd ==ℤ j
        then upserted
            (updated_entry flags path)
            (new_entry fd (negsuc 0) flags path)
            (fd_table_find table fd)
        else fd_table_find table j)
unfolding fd_table_add
find-upserted_add table fd j flags path =
    rw (find-first _ j, find-first table fd, find-first table j)
      (first-upsert table fd j (updated_entry flags path) (new_entry fd (negsuc 0) flags path)
        (index_from 0 fd table.entries) (λ e. refl) refl (index_from-Found fd table.entries))

find-upserted_mark_saved :
    (table : FdTable) (saved_fd original_fd j : ℤ)
    → fd_table_find (fd_table_mark_saved table saved_fd original_fd).0 j ≡ (
        if saved_fd ==ℤ j
        then upserted
            (saved_entry original_fd)
            (new_entry saved_fd original_fd saved_flag unknown_path)
            (fd_table_find table saved_fd)
        else fd_table_find table j)
unfolding fd_table_mark_saved
find-upserted_mark_saved table saved_fd original_fd j =
    rw (find-first _ j, find-first table saved_fd, find-first table j)
      (first-upsert table saved_fd j (saved_entry original_fd)
        (new_entry saved_fd original_fd saved_flag unknown_path)
        (index_from 0 saved_fd table.entries) (λ e. refl) refl
        (index_from-Found saved_fd table.entries))

-- What a search for the descriptor shows of its entry, but for `original_fd`.
abbrev pub shown : Option FdEntry → Option (ℤ × FdFlags × Bool × Option Text)
shown none = none
shown (some e) = some (e.fd, e.flags, e.is_open, e.path)

first-fd : (fd : ℤ) (es : List FdEntry) (e : FdEntry) → first fd es ≡ some e → e.fd ≡ fd
first-fd fd [] e h = cc
first-fd fd (x ∷ es) e h = ground (arith, first-fd fd es e, (==ℤ_iff x.fd fd).0)

same_fd : (fd : ℤ) → fd ==ℤ fd ≡ true
same_fd fd = (==ℤ_iff fd fd).1 refl

shown-upserted :
    (fd : ℤ) (flags : FdFlags) (path : Text) (o : Option FdEntry)
    → ((e : FdEntry) → o ≡ some e → e.fd ≡ fd)
    → shown (upserted (updated_entry flags path) (new_entry fd (negsuc 0) flags path) o)
      ≡ some (fd, flags, true, some path)
unfolding updated_entry new_entry
shown-upserted fd flags path none h = refl
shown-upserted fd flags path (some e) h = ap (λ d. some (d, flags, true, some path)) (h e refl)

fd_of_found : (table : FdTable) (fd : ℤ) (e : FdEntry) → fd_table_find table fd ≡ some e → e.fd ≡ fd
fd_of_found table fd e h = first-fd fd table.entries e (sym (find-first table fd) ∙ h)

-- The `original_fd` of a descriptor that was not there before.
abbrev pub original_of_new : Option FdEntry → Option FdEntry → ℤ
original_of_new none (some e) = e.original_fd
original_of_new _ _ = negsuc 0

original_of_new-upserted :
    (fd : ℤ) (flags : FdFlags) (path : Text) (o : Option FdEntry)
    → original_of_new o (upserted (updated_entry flags path) (new_entry fd (negsuc 0) flags path) o)
      ≡ negsuc 0
unfolding new_entry
original_of_new-upserted fd flags path none = refl
original_of_new-upserted fd flags path (some e) = refl

-- After `fd_table_add` the descriptor finds an open entry with its number, the new flags and the
-- new path, whose `original_fd` is -1 where the descriptor was not in the table before; and every
-- other descriptor finds what it found before.
pub fd_table_find-add :
    (table : FdTable) (fd j : ℤ) (flags : FdFlags) (path : Text)
    → fd ==ℤ j ≡ false
    → let table' = (fd_table_add table fd flags path).0 in
      (shown (fd_table_find table' fd) ≡ some (fd, flags, true, some path))
      × (original_of_new (fd_table_find table fd) (fd_table_find table' fd) ≡ negsuc 0)
      × (fd_table_find table' j ≡ fd_table_find table j)
fd_table_find-add table fd j flags path other =
    let hit = rw (same_fd fd) at (find-upserted_add table fd fd flags path) in
    (
      ap shown hit ∙ shown-upserted fd flags path (fd_table_find table fd) (fd_of_found table fd),
      ap (original_of_new (fd_table_find table fd)) hit
          ∙ original_of_new-upserted fd flags path (fd_table_find table fd),
      rw other at (find-upserted_add table fd j flags path),
    )

-- The entry of a saved copy, from the entry that was there before.
abbrev pub saved_from : ℤ → ℤ → Option FdEntry → FdEntry
saved_from saved_fd original_fd none = record {
  fd = saved_fd;
  original_fd = original_fd;
  flags = record { close_on_exec = false; redirected = false; saved = true };
  is_open = true;
  path = some unknown_path;
}
saved_from saved_fd original_fd (some e) = record {
  fd = saved_fd;
  original_fd = original_fd;
  flags = record {
    close_on_exec = e.flags.close_on_exec;
    redirected = e.flags.redirected;
    saved = true;
  };
  is_open = e.is_open;
  path = e.path;
}

upserted-saved_from :
    (saved_fd original_fd : ℤ) (o : Option FdEntry)
    → ((e : FdEntry) → o ≡ some e → e.fd ≡ saved_fd)
    → upserted (saved_entry original_fd) (new_entry saved_fd original_fd saved_flag unknown_path) o
      ≡ some (saved_from saved_fd original_fd o)
unfolding saved_entry new_entry
upserted-saved_from saved_fd original_fd none h = refl
upserted-saved_from saved_fd original_fd (some e) h = ground (arith, h e refl)

-- After `fd_table_mark_saved` the descriptor finds an entry with its number, the given
-- `original_fd` and the flag FD_IS_SAVED; the other flags, the open state and the path are those
-- that it had, and where it was not in the table, no other flag, open, and "(unknown)". Every other
-- descriptor finds what it found before.
pub fd_table_find-mark_saved :
    (table : FdTable) (saved_fd original_fd j : ℤ)
    → fd_table_find (fd_table_mark_saved table saved_fd original_fd).0 j ≡ (
        if saved_fd ==ℤ j
        then some (saved_from saved_fd original_fd (fd_table_find table saved_fd))
        else fd_table_find table j)
fd_table_find-mark_saved table saved_fd original_fd j =
    find-upserted_mark_saved table saved_fd original_fd j
    ∙ ap (λ o. if saved_fd ==ℤ j then o else fd_table_find table j)
        (upserted-saved_from saved_fd original_fd (fd_table_find table saved_fd)
          (fd_of_found table saved_fd))

-- In a well-formed table `fd_table_remove` removes the descriptor, returns whether it was there, and
-- every other descriptor finds what it found before.
pub fd_table_find-remove :
    (table : FdTable) (fd j : ℤ)
    → IsWellFormed table
    → (fd_table_find (fd_table_remove table fd).0 j
        ≡ (if fd ==ℤ j then none else fd_table_find table j))
      × ((fd_table_remove table fd).1
          ≡ elim (fd_table_find table fd) [ none ↦ false | some _ ↦ true ])
unfolding fd_table_remove
fd_table_find-remove table fd j v =
    rw (find-first _ j, find-first table j, find-first table fd)
      (go (index_from 0 fd table.entries) refl (index_from-Found fd table.entries))
  where
    go :
        (o : Option ℕ)
        → index_from 0 fd table.entries ≡ o
        → Found fd table.entries o
        → let r : FdTable × Bool = elim o [
          | none ↦ (table, false)
          | some idx ↦
              (left_over table fd (drop_last (fill_gap idx table.count table.entries)), true)
        ] in
          (first j r.0.entries ≡ (if fd ==ℤ j then none else first j table.entries))
          × (r.1 ≡ elim (first fd table.entries) [ none ↦ false | some _ ↦ true ])
    go none e h = (gone (fd ==ℤ j) refl, rw h.0 refl)
      where
        gone :
            (b : Bool)
            → fd ==ℤ j ≡ b
            → first j table.entries ≡ (if b then none else first j table.entries)
        gone true same = ap (λ d. first d table.entries) (sym ((==ℤ_iff fd j).0 same)) ∙ h.0
        gone false other = refl
    go (some idx) e s =
        let (es, l, split) = ends_in table.entries (omega (arith, s.within)) in
        let r = remaining table.entries table.count fd idx es l split v.counted e in
        let d : distinct (es ++ l ∷ []) ≡ true = subst (λ t. distinct t ≡ true) split v.separate in
        let h : has_fd fd (es ++ l ∷ []) ≡ true = subst (λ t. has_fd fd t ≡ true) split s.present in
        (
          ap (first j) r
              ∙ first-removed fd j es l d h
              ∙ ap (λ t. if fd ==ℤ j then none else first j t) (sym split),
          sym s.present ∙ has_fd-first fd table.entries,
        )

length-fds_with_flag :
    (flag : FdFlags) (es : List FdEntry) → length (fds_with_flag flag es) ≡ count_flag flag es
unfolding fds_with_flag count_flag
length-fds_with_flag flag [] = refl
length-fds_with_flag flag (e ∷ es) = ground (arith, length-fds_with_flag flag es)

-- The array that `fd_table_get_fds_with_flag` returns has as many descriptors as `*out_count` says,
-- so that the second pass writes the whole allocation and no more; it is NULL where there are none.
pub fds_with_flag_filled :
    (table : FdTable) (flag : FdFlags)
    → elim (fd_table_get_fds_with_flag table flag).1 [ none ↦ 0 | some fds ↦ length fds ]
      ≡ (fd_table_get_fds_with_flag table flag).0
unfolding fd_table_get_fds_with_flag
fds_with_flag_filled table flag =
    go (count_flag flag table.entries) (length-fds_with_flag flag table.entries)
  where
    go :
        (count : ℕ)
        → length (fds_with_flag flag table.entries) ≡ count
        → elim (elim count as (λ _. Option (List ℤ)) [
          | zero ↦ none
          | suc _ ↦ some (fds_with_flag flag table.entries)
        ]) [ none ↦ 0 | some fds ↦ length fds ]
          ≡ count
    go zero e = refl
    go (suc count) e = e
