-- ===== src/FdTable/Valid.antt =====
-- The well-formedness of the descriptor table, and that every operation keeps it.
use migash.Prelude.{
  ◌≤◌, ◌<◌, ◌≡◌, refl, ◌∙◌, ◌⊎◌, true, false, List, [], ◌∷◌, ◌++◌, arith, length, length-append,
  Bool-cases, inl, inr,
}
use migash.Prelude.Int.{ℤ, negsuc, ◌==ℤ◌, ==ℤ_iff, ◌≤ℤ◌, ltb_ℤ}
use migash.FdTable.{
  FdEntry, FdTable, fd_table_create, ensured_capacity, append_entry, higher, highest_from,
}
use migash.FdTable.Slots.{has_fd, distinct}
use migash.FdTable.Gap.{has_fd-append}

-- `highest` is the highest descriptor of the entries, and -1 where all lie below.
pub record IsHighest (highest : ℤ) (entries : List FdEntry) : Type 0 where
  pub floor : negsuc 0 ≤ℤ highest
  pub bound : (j : ℤ) → has_fd j entries ≡ true → j ≤ℤ highest
  pub attained : (highest ≡ negsuc 0) ⊎ (has_fd highest entries ≡ true)

pub record IsWellFormed (table : FdTable) : Type 0 where
  pub counted : length table.entries ≡ table.count
  pub fits : table.count ≤ table.capacity
  pub room : 16 ≤ table.capacity
  pub separate : distinct table.entries ≡ true
  pub highest : IsHighest table.highest_fd table.entries

pub fd_table_create-IsWellFormed : IsWellFormed fd_table_create
unfolding fd_table_create
fd_table_create-IsWellFormed = record {
  counted = refl;
  fits = omega arith;
  room = omega arith;
  separate = refl;
  highest = record { floor = omega arith; bound = λ j h. cc; attained = inl refl };
}

higher_left : (h x : ℤ) → h ≤ℤ higher h x
unfolding higher
higher_left h x = ground arith

higher_right : (h x : ℤ) → x ≤ℤ higher h x
unfolding higher
higher_right h x = ground arith

higher_or : (h x : ℤ) → (higher h x ≡ h) ⊎ (higher h x ≡ x)
unfolding higher
higher_or h x = elim (Bool-cases (ltb_ℤ h x)) [ inl e ↦ inr (rw e) | inr e ↦ inl (rw e) ]

≤ℤ-trans : (a b c : ℤ) → a ≤ℤ b → b ≤ℤ c → a ≤ℤ c
≤ℤ-trans a b c h k = omega arith

==ℤ-refl : (a : ℤ) → a ==ℤ a ≡ true
==ℤ-refl a = (==ℤ_iff a a).1 refl

-- Where the count fits a capacity of at least 16, the capacity after `ensure_capacity` is above the
-- count, so that `entries[count]` lies in the array.
pub count-lt-ensured_capacity :
    (table : FdTable)
    → table.count ≤ table.capacity
    → 16 ≤ table.capacity
    → table.count < ensured_capacity table
unfolding ensured_capacity
count-lt-ensured_capacity table h k = ground arith

ensured_capacity-ge : (table : FdTable) → 16 ≤ table.capacity → 16 ≤ ensured_capacity table
unfolding ensured_capacity
ensured_capacity-ge table h = ground arith

has_fd-append_old :
    (j : ℤ) (es : List FdEntry) (e : FdEntry) → has_fd j es ≡ true → has_fd j (es ++ e ∷ []) ≡ true
has_fd-append_old j es e h = has_fd-append j es e ∙ rw h

has_fd-append_new : (es : List FdEntry) (e : FdEntry) → has_fd e.fd (es ++ e ∷ []) ≡ true
has_fd-append_new es e = ground (arith, has_fd-append e.fd es e, ==ℤ-refl e.fd)

IsHighest-append :
    (h : ℤ) (e : FdEntry) (es : List FdEntry)
    → IsHighest h es
    → IsHighest (higher h e.fd) (es ++ e ∷ [])
IsHighest-append h e es v = record {
  floor = ≤ℤ-trans (negsuc 0) h (higher h e.fd) v.floor (higher_left h e.fd);
  bound = λ j k. elim (Bool-cases (has_fd j es)) [
    | inl old ↦ ≤ℤ-trans j h (higher h e.fd) (v.bound j old) (higher_left h e.fd)
    | inr new ↦
        let same : e.fd ≡ j = (==ℤ_iff e.fd j).0 (ground (arith, has_fd-append j es e)) in
        rw (← same) (higher_right h e.fd)
  ];
  attained = elim (higher_or h e.fd) [
    | inl same ↦
        rw same
          (elim v.attained [ inl low ↦ inl low | inr old ↦ inr (has_fd-append_old h es e old) ])
    | inr same ↦ rw same (inr (has_fd-append_new es e))
  ];
}

-- The loop over all entries finds the highest descriptor again.
highest_from_bounds :
    (h : ℤ) (es : List FdEntry)
    → (h ≤ℤ highest_from h es)
      × ((j : ℤ) → has_fd j es ≡ true → j ≤ℤ highest_from h es)
      × ((highest_from h es ≡ h) ⊎ (has_fd (highest_from h es) es ≡ true))
unfolding highest_from
highest_from_bounds h [] = (omega arith, λ j k. cc, inl refl)
highest_from_bounds h (e ∷ es) =
    let r = highest_from (higher h e.fd) es in
    let (above, bound, attained) = highest_from_bounds (higher h e.fd) es in
    (
      ≤ℤ-trans h (higher h e.fd) r (higher_left h e.fd) above,
      λ j k. elim (Bool-cases (e.fd ==ℤ j)) [
        | inl same ↦
            rw (← (==ℤ_iff e.fd j).0 same)
              (≤ℤ-trans e.fd (higher h e.fd) r (higher_right h e.fd) above)
        | inr other ↦ bound j (ground (arith, other))
      ],
      elim attained [
        | inl start ↦ elim (higher_or h e.fd) [
          | inl same ↦ inl (start ∙ same)
          | inr same ↦ inr (rw (start ∙ same, ==ℤ-refl e.fd))
        ]
        | inr inside ↦ inr (ground (arith, inside))
      ],
    )

pub IsHighest-highest_from : (es : List FdEntry) → IsHighest (highest_from (negsuc 0) es) es
IsHighest-highest_from es =
    let (above, bound, attained) = highest_from_bounds (negsuc 0) es in
    record { floor = above; bound = bound; attained = attained }

distinct-append :
    (es : List FdEntry) (e : FdEntry)
    → distinct es ≡ true
    → has_fd e.fd es ≡ false
    → distinct (es ++ e ∷ []) ≡ true
distinct-append [] e d h = refl
distinct-append (x ∷ es) e d h =
    ground
      (arith, has_fd-append x.fd es e, ==ℤ_iff x.fd e.fd, ==ℤ_iff e.fd x.fd, distinct-append es e)

pub append_entry-IsWellFormed :
    (table : FdTable) (e : FdEntry)
    → IsWellFormed table
    → has_fd e.fd table.entries ≡ false
    → IsWellFormed (append_entry table e)
unfolding append_entry
append_entry-IsWellFormed table e v h = record {
  counted = omega (arith, v.counted, length-append {0} table.entries (e ∷ []));
  fits = omega (arith, count-lt-ensured_capacity table v.fits v.room);
  room = ensured_capacity-ge table v.room;
  separate = distinct-append table.entries e v.separate h;
  highest = IsHighest-append table.highest_fd e table.entries v.highest;
}
