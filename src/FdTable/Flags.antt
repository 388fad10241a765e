-- ===== src/FdTable/Flags.antt =====
-- What the operations that write one entry do to the tests of it.
use migash.Prelude.{
  ℕ, ◌≡◌, refl, sym, ap, ◌∙◌, Bool, true, false, ◌&&◌, not, Option, none, some, arith,
  if◌then◌else◌,
}
use migash.Prelude.Int.{ℤ, ◌==ℤ◌, ==ℤ_iff}
use migash.FdTable.{
  FdFlags, FdEntry, FdTable, index_from, update_at, change_entry, fd_table_find, fd_table_is_open,
  fd_table_has_flag, fd_table_mark_closed, fd_table_clear_flag, meets, minus,
}
use migash.FdTable.Slots.{first, Found, index_from-Found, first-update_fd}
use migash.FdTable.Gap.{has_fd-first}
use migash.FdTable.Keeps.{KeepsFd}
use migash.FdTable.Lookup.{find-first}

abbrev pub updated : (FdEntry → FdEntry) → Option FdEntry → Option FdEntry
updated f none = none
updated f (some e) = some (f e)

first-change :
    (table : FdTable) (fd j : ℤ) (f : FdEntry → FdEntry) (o : Option ℕ)
    → KeepsFd f
    → Found fd table.entries o
    → let r : FdTable × Bool = elim o [
      | none ↦ (table, false)
      | some idx ↦ (record table { entries = update_at idx f table.entries }, true)
    ] in
      first j r.0.entries
      ≡ (if fd ==ℤ j then updated f (first fd table.entries) else first j table.entries)
first-change table fd j f none k h = rw h.0 (gone (fd ==ℤ j) refl)
  where
    gone :
        (b : Bool)
        → fd ==ℤ j ≡ b
        → first j table.entries ≡ (if b then none else first j table.entries)
    gone true same = ap (λ d. first d table.entries) (sym ((==ℤ_iff fd j).0 same)) ∙ h.0
    gone false other = refl
first-change table fd j f (some idx) k s =
    rw (s.update f, first-update_fd fd j f table.entries k)
      (ground (arith, s.present, has_fd-first fd table.entries))

find-change :
    (table : FdTable) (fd j : ℤ) (f : FdEntry → FdEntry)
    → KeepsFd f
    → fd_table_find (change_entry table fd f).0 j
      ≡ (if fd ==ℤ j then updated f (fd_table_find table fd) else fd_table_find table j)
unfolding change_entry
find-change table fd j f k =
    rw (find-first _ j, find-first table fd, find-first table j)
      (first-change table fd j f (index_from 0 fd table.entries) k
        (index_from-Found fd table.entries))

-- A test of the entry that a descriptor finds, `b` where there is none.
tested : {A : Type 0} → A → (FdEntry → A) → Option FdEntry → A
tested b test none = b
tested b test (some e) = test e

-- A test that the write changes by `new`, which leaves the outcome for no entry alone.
tested-change :
    {A : Type 0} (table : FdTable) (fd j : ℤ) (f : FdEntry → FdEntry) (b : A) (test : FdEntry → A)
    (new : A → A)
    → KeepsFd f
    → new b ≡ b
    → ((e : FdEntry) → test (f e) ≡ new (test e))
    → tested b test (fd_table_find (change_entry table fd f).0 j) ≡ (
        if fd ==ℤ j
        then new (tested b test (fd_table_find table j))
        else tested b test (fd_table_find table j))
unfolding tested
tested-change {A} table fd j f b test new k same step =
    ap (tested b test) (find-change table fd j f k) ∙ go (fd ==ℤ j) refl
  where
    one : (o : Option FdEntry) → tested b test (updated f o) ≡ new (tested b test o)
    one none = sym same
    one (some e) = step e

    go :
        (c : Bool)
        → fd ==ℤ j ≡ c
        → tested b test (if c then updated f (fd_table_find table fd) else fd_table_find table j)
          ≡ (if c
              then new (tested b test (fd_table_find table j))
              else tested b test (fd_table_find table j))
    go true e =
        one (fd_table_find table fd)
        ∙ ap (λ d. new (tested b test (fd_table_find table d))) ((==ℤ_iff fd j).0 e)
    go false e = refl

-- After `fd_table_mark_closed` the descriptor is not open, and every other one is open where it was.
pub is_open-mark_closed :
    (table : FdTable) (fd j : ℤ)
    → fd_table_is_open (fd_table_mark_closed table fd).0 j
      ≡ (if fd ==ℤ j then false else fd_table_is_open table j)
unfolding fd_table_is_open fd_table_mark_closed tested
is_open-mark_closed table fd j =
    tested-change table fd j _ false (λ e. e.is_open) (λ b. false) (λ e. refl) refl (λ e. refl)

bit-cleared : (a b : Bool) → (a && not b) && b ≡ false
bit-cleared true true = refl
bit-cleared true false = refl
bit-cleared false b = refl

meets-minus : (a b : FdFlags) → meets (minus a b) b ≡ false
meets-minus a b =
    rw
      (
        bit-cleared a.close_on_exec b.close_on_exec,
        bit-cleared a.redirected b.redirected,
        bit-cleared a.saved b.saved,
      )
      refl

-- After `fd_table_clear_flag` the descriptor has none of the flags cleared, and of these flags every
-- other descriptor has some exactly where it had some.
pub has_flag-clear_flag :
    (table : FdTable) (fd j : ℤ) (flag : FdFlags)
    → fd_table_has_flag (fd_table_clear_flag table fd flag).0 j flag
      ≡ (if fd ==ℤ j then false else fd_table_has_flag table j flag)
unfolding fd_table_has_flag fd_table_clear_flag tested
has_flag-clear_flag table fd j flag =
    tested-change table fd j _ false (λ e. meets e.flags flag) (λ b. false) (λ e. refl) refl
      (λ e. meets-minus e.flags flag)
