-- ===== src/FdTable/Keeps.antt =====
-- Every operation of the descriptor table keeps it well formed.
use migash.Prelude.{
  ℕ, ◌-◌, ◌≡◌, refl, sym, ap, ◌∙◌, Bool, true, false, List, [], ◌∷◌, ◌++◌, Option, none, some,
  arith, if◌then◌else◌, length, length-append, Text, Bool-cases, inl, inr,
}
use mathlib.Core.Path.{subst}
use migash.Prelude.Int.{ℤ, negsuc, ◌==ℤ◌}
use migash.FdTable.{
  FdFlags, FdEntry, FdTable, fd_table_create, index_from, update_at, append_entry, updated_entry,
  new_entry, fd_table_add, saved_entry, saved_flag, unknown_path, fd_table_mark_saved, change_entry,
  drop_last, fill_gap, highest_from, fd_table_remove, fd_table_mark_closed, fd_table_mark_open,
  fd_table_set_flag, fd_table_clear_flag, fd_table_clone,
}
use migash.FdTable.Slots.{
  has_fd, distinct, update_fd, Stands, Found, index_from-Found, has_fd-update_fd,
}
use migash.FdTable.Gap.{
  removed, has_fd-first, first-removed, distinct-removed, length-update_fd, length-removed, ends_in,
  remaining,
}
use migash.FdTable.Valid.{
  IsHighest, IsHighest-highest_from, IsWellFormed, append_entry-IsWellFormed,
  fd_table_create-IsWellFormed,
}

-- A write that leaves the descriptor of an entry alone.
abbrev pub KeepsFd : (FdEntry → FdEntry) → Type 0
KeepsFd f = (entry : FdEntry) → (f entry).fd ≡ entry.fd

distinct-update_fd :
    (fd : ℤ) (f : FdEntry → FdEntry) (es : List FdEntry)
    → KeepsFd f
    → distinct (update_fd fd f es) ≡ distinct es
distinct-update_fd fd f [] k = refl
distinct-update_fd fd f (e ∷ es) k =
    ground (arith, k e, has_fd-update_fd fd e.fd f es k, distinct-update_fd fd f es k)

-- The entries may be replaced by entries with the same descriptors.
update-IsWellFormed :
    (table : FdTable) (fd : ℤ) (f : FdEntry → FdEntry)
    → KeepsFd f
    → IsWellFormed table
    → IsWellFormed (record table { entries = update_fd fd f table.entries })
update-IsWellFormed table fd f k v = record {
  counted = length-update_fd fd f table.entries ∙ v.counted;
  fits = v.fits;
  room = v.room;
  separate = distinct-update_fd fd f table.entries k ∙ v.separate;
  highest = record {
    floor = v.highest.floor;
    bound = λ j h. v.highest.bound j (sym (has_fd-update_fd fd j f table.entries k) ∙ h);
    attained = elim v.highest.attained [
      | inl low ↦ inl low
      | inr h ↦ inr (has_fd-update_fd fd table.highest_fd f table.entries k ∙ h)
    ];
  };
}

update_at-IsWellFormed :
    (table : FdTable) (fd : ℤ) (idx : ℕ) (f : FdEntry → FdEntry)
    → KeepsFd f
    → Stands fd table.entries idx
    → IsWellFormed table
    → IsWellFormed (record table { entries = update_at idx f table.entries })
update_at-IsWellFormed table fd idx f k s v = rw (s.update f) (update-IsWellFormed table fd f k v)

pub change_entry-IsWellFormed :
    (table : FdTable) (fd : ℤ) (f : FdEntry → FdEntry)
    → KeepsFd f
    → IsWellFormed table
    → IsWellFormed (change_entry table fd f).0
unfolding change_entry
change_entry-IsWellFormed table fd f k v =
    go (index_from 0 fd table.entries) (index_from-Found fd table.entries)
  where
    go :
        (o : Option ℕ)
        → Found fd table.entries o
        → let r : FdTable × Bool = elim o [
          | none ↦ (table, false)
          | some idx ↦ (record table { entries = update_at idx f table.entries }, true)
        ] in
          IsWellFormed r.0
    go none h = v
    go (some idx) s = update_at-IsWellFormed table fd idx f k s v

-- An existing entry is updated, and a missing one appended.
upsert-IsWellFormed :
    (table : FdTable) (fd : ℤ) (f : FdEntry → FdEntry) (new : FdEntry) (o : Option ℕ)
    → KeepsFd f
    → new.fd ≡ fd
    → Found fd table.entries o
    → IsWellFormed table
    → let r : FdTable × Bool = elim o [
      | some idx ↦ (record table { entries = update_at idx f table.entries }, true)
      | none ↦ (append_entry table new, true)
    ] in
      IsWellFormed r.0
upsert-IsWellFormed table fd f new none k e h v =
    append_entry-IsWellFormed table new v (ap (λ d. has_fd d table.entries) e ∙ h.1)
upsert-IsWellFormed table fd f new (some idx) k e s v = update_at-IsWellFormed table fd idx f k s v

pub fd_table_add-IsWellFormed :
    (table : FdTable) (fd : ℤ) (flags : FdFlags) (path : Text)
    → IsWellFormed table
    → IsWellFormed (fd_table_add table fd flags path).0
unfolding fd_table_add
fd_table_add-IsWellFormed table fd flags path v =
    upsert-IsWellFormed table fd (updated_entry flags path) (new_entry fd (negsuc 0) flags path)
      (index_from 0 fd table.entries) (λ e. refl) refl (index_from-Found fd table.entries) v

pub fd_table_mark_saved-IsWellFormed :
    (table : FdTable) (saved_fd original_fd : ℤ)
    → IsWellFormed table
    → IsWellFormed (fd_table_mark_saved table saved_fd original_fd).0
unfolding fd_table_mark_saved
fd_table_mark_saved-IsWellFormed table saved_fd original_fd v =
    upsert-IsWellFormed table saved_fd (saved_entry original_fd)
      (new_entry saved_fd original_fd saved_flag unknown_path) (index_from 0 saved_fd table.entries)
      (λ e. refl) refl (index_from-Found saved_fd table.entries) v

-- The table after a removal, from the entries that are left.
abbrev pub left_over : FdTable → ℤ → List FdEntry → FdTable
left_over table fd entries' = record {
  entries = entries';
  capacity = table.capacity;
  count = table.count - 1;
  highest_fd =
      if fd ==ℤ table.highest_fd then highest_from (negsuc 0) entries' else table.highest_fd;
}

-- A descriptor stays in the table exactly where it is not the removed one.
has_fd-removed :
    (fd j : ℤ) (es : List FdEntry) (l : FdEntry)
    → distinct (es ++ l ∷ []) ≡ true
    → has_fd fd (es ++ l ∷ []) ≡ true
    → has_fd j (removed fd es l) ≡ (if fd ==ℤ j then false else has_fd j (es ++ l ∷ []))
has_fd-removed fd j es l d h = ground (
  arith,
  has_fd-first j (removed fd es l),
  has_fd-first j (es ++ l ∷ []),
  first-removed fd j es l d h,
)

IsHighest-removed :
    (highest fd : ℤ) (es : List FdEntry) (l : FdEntry)
    → distinct (es ++ l ∷ []) ≡ true
    → has_fd fd (es ++ l ∷ []) ≡ true
    → IsHighest highest (es ++ l ∷ [])
    → IsHighest
        (if fd ==ℤ highest then highest_from (negsuc 0) (removed fd es l) else highest)
        (removed fd es l)
IsHighest-removed highest fd es l d h v = elim (Bool-cases (fd ==ℤ highest)) [
  | inl same ↦ rw same (IsHighest-highest_from (removed fd es l))
  | inr other ↦ rw other (record {
    floor = v.floor;
    bound = λ j k. v.bound j (ground (arith, has_fd-removed fd j es l d h));
    attained = elim v.attained [
      | inl low ↦ inl low
      | inr inside ↦ inr (has_fd-removed fd highest es l d h ∙ rw other inside)
    ];
  })
]

left_over-IsWellFormed :
    (table : FdTable) (fd : ℤ) (idx : ℕ) (es : List FdEntry) (l : FdEntry)
    → table.entries ≡ es ++ l ∷ []
    → index_from 0 fd table.entries ≡ some idx
    → Stands fd table.entries idx
    → IsWellFormed table
    → IsWellFormed (left_over table fd (drop_last (fill_gap idx table.count table.entries)))
left_over-IsWellFormed table fd idx es l e found s v =
    let r = remaining table.entries table.count fd idx es l e v.counted found in
    let d : distinct (es ++ l ∷ []) ≡ true = subst (λ t. distinct t ≡ true) e v.separate in
    let h : has_fd fd (es ++ l ∷ []) ≡ true = subst (λ t. has_fd fd t ≡ true) e s.present in
    subst (λ t. IsWellFormed (left_over table fd t)) (sym r)
      (record {
        counted =
            omega (
              arith,
              v.counted,
              ap length e,
              length-append {0} es (l ∷ []),
              length-removed fd es l,
            );
        fits = omega (arith, v.fits);
        room = v.room;
        separate = distinct-removed fd es l d;
        highest =
            IsHighest-removed table.highest_fd fd es l d h
              (subst (λ t. IsHighest table.highest_fd t) e v.highest);
      })

pub fd_table_remove-IsWellFormed :
    (table : FdTable) (fd : ℤ) → IsWellFormed table → IsWellFormed (fd_table_remove table fd).0
unfolding fd_table_remove
fd_table_remove-IsWellFormed table fd v =
    go (index_from 0 fd table.entries) refl (index_from-Found fd table.entries)
  where
    go :
        (o : Option ℕ)
        → index_from 0 fd table.entries ≡ o
        → Found fd table.entries o
        → let r : FdTable × Bool = elim o [
          | none ↦ (table, false)
          | some idx ↦
              (left_over table fd (drop_last (fill_gap idx table.count table.entries)), true)
        ] in
          IsWellFormed r.0
    go none e h = v
    go (some idx) e s =
        let (es, l, split) = ends_in table.entries (omega (arith, s.within)) in
        left_over-IsWellFormed table fd idx es l split e s v

-- One call of an operation that changes the table.
pub data Step (t : FdTable) : FdTable → Type 0 where
  add : (fd : ℤ) (flags : FdFlags) (path : Text) → Step t (fd_table_add t fd flags path).0
  mark_saved : (fd original_fd : ℤ) → Step t (fd_table_mark_saved t fd original_fd).0
  mark_closed : (fd : ℤ) → Step t (fd_table_mark_closed t fd).0
  mark_open : (fd : ℤ) → Step t (fd_table_mark_open t fd).0
  set_flag : (fd : ℤ) (flag : FdFlags) → Step t (fd_table_set_flag t fd flag).0
  clear_flag : (fd : ℤ) (flag : FdFlags) → Step t (fd_table_clear_flag t fd flag).0
  remove : (fd : ℤ) → Step t (fd_table_remove t fd).0
  clone : Step t (fd_table_clone t)

pub data Reach : FdTable → Type 0 where
  start : Reach fd_table_create
  next : {s t : FdTable} → Reach s → Step s t → Reach t

Step-IsWellFormed : {s t : FdTable} → IsWellFormed s → Step s t → IsWellFormed t
unfolding fd_table_mark_closed fd_table_mark_open fd_table_set_flag fd_table_clear_flag
    fd_table_clone
Step-IsWellFormed {s} v (add fd flags path) = fd_table_add-IsWellFormed s fd flags path v
Step-IsWellFormed {s} v (mark_saved fd o) = fd_table_mark_saved-IsWellFormed s fd o v
Step-IsWellFormed {s} v (mark_closed fd) = change_entry-IsWellFormed s fd _ (λ e. refl) v
Step-IsWellFormed {s} v (mark_open fd) = change_entry-IsWellFormed s fd _ (λ e. refl) v
Step-IsWellFormed {s} v (set_flag fd flag) = change_entry-IsWellFormed s fd _ (λ e. refl) v
Step-IsWellFormed {s} v (clear_flag fd flag) = change_entry-IsWellFormed s fd _ (λ e. refl) v
Step-IsWellFormed {s} v (remove fd) = fd_table_remove-IsWellFormed s fd v
Step-IsWellFormed {s} v clone = v

-- In every reachable descriptor table the entries in use are `count` many and fit the capacity, no
-- two of them have the same descriptor, and `highest_fd` is the highest descriptor, or -1 where
-- all lie below.
pub Reach-IsWellFormed : {t : FdTable} → Reach t → IsWellFormed t
Reach-IsWellFormed start = fd_table_create-IsWellFormed
Reach-IsWellFormed (next r st) = Step-IsWellFormed (Reach-IsWellFormed r) st
