-- ===== src/Tests/Fds.antt =====
-- Runs of the descriptor table.
use migash.Prelude.{length, ◌≡◌, ◌<◌, refl, true, false, [], ◌∷◌, some, none, if◌then◌else◌}
use migash.Prelude.Int.{◌==ℤ◌, pos, negsuc}
use migash.FdTable.{
  fd_table_has_flag, fd_table_clear_flag, fd_table_get_fds_with_flag, FdTable, default_flags,
  fd_table_create, fd_table_add, fd_table_mark_saved, fd_table_remove, fd_table_find, saved_flag,
  fd_table_get_saved_fds, higher, ensured_capacity,
}
use migash.FdTable.Valid.{IsWellFormed, count-lt-ensured_capacity}
use migash.FdTable.Keeps
use migash.FdTable.Keeps.{Reach, Reach-IsWellFormed}
use migash.FdTable.Lookup.{
  shown, original_of_new, saved_from, fd_table_find-add, fd_table_find-mark_saved,
  fd_table_find-remove, fds_with_flag_filled,
}
use migash.FdTable.Flags.{has_flag-clear_flag}
use migash.Tests.Samples.{bytes}

-- Standard output, its saved copy in descriptor 10, and a file.
abbrev with_stdout : FdTable
with_stdout = (fd_table_add fd_table_create (pos 1) default_flags (bytes "stdout")).0

abbrev with_saved : FdTable
with_saved = (fd_table_mark_saved with_stdout (pos 10) (pos 1)).0

abbrev three_fds : FdTable
three_fds = (fd_table_add with_saved (pos 3) default_flags (bytes "log.txt")).0

Reach-three_fds : Reach three_fds
Reach-three_fds =
    Reach.next
      (Reach.next (Reach.next Reach.start (Keeps.Step.add (pos 1) default_flags (bytes "stdout")))
        (Keeps.Step.mark_saved (pos 10) (pos 1)))
      (Keeps.Step.add (pos 3) default_flags (bytes "log.txt"))

Reach-IsWellFormed_example : IsWellFormed three_fds
Reach-IsWellFormed_example = Reach-IsWellFormed Reach-three_fds

saved_after_remove :
    (fd_table_get_saved_fds three_fds ≡ (1, some (pos 10 ∷ [])))
    × ((fd_table_remove three_fds (pos 10)).0.highest_fd ≡ pos 3)
unfolding ◌==ℤ◌ fd_table_create fd_table_add fd_table_mark_saved fd_table_remove
    fd_table_get_saved_fds higher
saved_after_remove = (refl, refl)

fd_table_find-add_example :
    let table = (fd_table_add three_fds (pos 10) default_flags (bytes "x")).0 in
    (shown (fd_table_find table (pos 10)) ≡ some (pos 10, default_flags, true, some (bytes "x")))
    × (original_of_new (fd_table_find three_fds (pos 10)) (fd_table_find table (pos 10)) ≡ negsuc 0)
    × (fd_table_find table (pos 3) ≡ fd_table_find three_fds (pos 3))
unfolding ◌==ℤ◌
fd_table_find-add_example =
    fd_table_find-add three_fds (pos 10) (pos 3) default_flags (bytes "x") refl

fd_table_find-mark_saved_example :
    fd_table_find (fd_table_mark_saved three_fds (pos 3) (pos 2)).0 (pos 10) ≡ (
      if pos 3 ==ℤ pos 10
      then some (saved_from (pos 3) (pos 2) (fd_table_find three_fds (pos 3)))
      else fd_table_find three_fds (pos 10))
fd_table_find-mark_saved_example = fd_table_find-mark_saved three_fds (pos 3) (pos 2) (pos 10)

fd_table_find-remove_example :
    (fd_table_find (fd_table_remove three_fds (pos 10)).0 (pos 3)
      ≡ (if pos 10 ==ℤ pos 3 then none else fd_table_find three_fds (pos 3)))
    × ((fd_table_remove three_fds (pos 10)).1
        ≡ elim (fd_table_find three_fds (pos 10)) [ none ↦ false | some _ ↦ true ])
fd_table_find-remove_example =
    fd_table_find-remove three_fds (pos 10) (pos 3) (Reach-IsWellFormed Reach-three_fds)

count-lt-ensured_capacity_example : three_fds.count < ensured_capacity three_fds
count-lt-ensured_capacity_example =
    let v = Reach-IsWellFormed Reach-three_fds in count-lt-ensured_capacity three_fds v.fits v.room

fds_with_flag_filled_example :
    elim (fd_table_get_fds_with_flag three_fds saved_flag).1 [ none ↦ 0 | some fds ↦ length fds ]
    ≡ (fd_table_get_fds_with_flag three_fds saved_flag).0
fds_with_flag_filled_example = fds_with_flag_filled three_fds saved_flag

has_flag-clear_flag_example :
    fd_table_has_flag (fd_table_clear_flag three_fds (pos 10) saved_flag).0 (pos 10) saved_flag
    ≡ (if pos 10 ==ℤ pos 10 then false else fd_table_has_flag three_fds (pos 10) saved_flag)
has_flag-clear_flag_example = has_flag-clear_flag three_fds (pos 10) (pos 10) saved_flag
