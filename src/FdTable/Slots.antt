-- ===== src/FdTable/Slots.antt =====
-- The array of descriptor entries as a list: what an index found by `find_entry_index` stands for.
use migash.Prelude.{
  ℕ, suc, ◌<◌, ◌≡◌, refl, ap, Bool, true, false, ◌||◌, ◌&&◌, not, List, [], ◌∷◌, ◌++◌, Option, none,
  some, arith, if◌then◌else◌, length, get_elem?, set, Bool-cases, inl, inr,
}
use migash.Prelude.Int.{ℤ, ◌==ℤ◌, ==ℤ_iff}
use migash.FdTable.{FdEntry, index_from, update_at}

-- The entry that a search for a descriptor finds.
abbrev pub first : ℤ → List FdEntry → Option FdEntry
first fd [] = none
first fd (entry ∷ rest) = if entry.fd ==ℤ fd then some entry else first fd rest

abbrev pub has_fd : ℤ → List FdEntry → Bool
has_fd fd [] = false
has_fd fd (entry ∷ rest) = entry.fd ==ℤ fd || has_fd fd rest

-- No two entries have the same descriptor.
abbrev pub distinct : List FdEntry → Bool
distinct [] = true
distinct (entry ∷ rest) = not (has_fd entry.fd rest) && distinct rest

-- The write to the entry that a search finds.
abbrev pub update_fd : ℤ → (FdEntry → FdEntry) → List FdEntry → List FdEntry
update_fd fd f [] = []
update_fd fd f (entry ∷ rest) =
    if entry.fd ==ℤ fd then f entry ∷ rest else entry ∷ update_fd fd f rest

abbrev pub shift : Option ℕ → Option ℕ
shift none = none
shift (some k) = some (suc k)

pub index_from-suc :
    (i : ℕ) (fd : ℤ) (es : List FdEntry) → index_from (suc i) fd es ≡ shift (index_from i fd es)
unfolding index_from
index_from-suc i fd [] = refl
index_from-suc i fd (e ∷ rest) = elim (Bool-cases (e.fd ==ℤ fd)) [
  | inl h ↦ rw h
  | inr h ↦ rw h (index_from-suc (suc i) fd rest)
]

-- What an index stands for.
pub record Stands (fd : ℤ) (es : List FdEntry) (k : ℕ) : Type 0 where
  pub within : k < length es
  pub at : get_elem? es k ≡ first fd es
  pub present : has_fd fd es ≡ true
  pub update : (f : FdEntry → FdEntry) → update_at k f es ≡ update_fd fd f es
  pub replace : (e : FdEntry) → set es k e ≡ update_fd fd (λ _. e) es

abbrev pub Found : ℤ → List FdEntry → Option ℕ → Type 0
Found fd es none = (first fd es ≡ none) × (has_fd fd es ≡ false)
Found fd es (some k) = Stands fd es k

Found-cons :
    (fd : ℤ) (e : FdEntry) (es : List FdEntry) (o : Option ℕ)
    → e.fd ==ℤ fd ≡ false
    → Found fd es o
    → Found fd (e ∷ es) (shift o)
unfolding update_at
Found-cons fd e es none h r = (rw h r.0, rw h r.1)
Found-cons fd e es (some k) h r = record {
  within = omega (arith, r.within);
  at = rw h r.at;
  present = rw h r.present;
  update = λ f. rw h (ap (λ t. e ∷ t) (r.update f));
  replace = λ x. rw h (ap (λ t. e ∷ t) (r.replace x));
}

-- `find_entry_index` finds the first entry with the descriptor, or there is none.
pub index_from-Found : (fd : ℤ) (es : List FdEntry) → Found fd es (index_from 0 fd es)
unfolding index_from update_at
index_from-Found fd [] = (refl, refl)
index_from-Found fd (e ∷ rest) = go (e.fd ==ℤ fd) refl (index_from-Found fd rest)
  where
    go :
        (b : Bool)
        → e.fd ==ℤ fd ≡ b
        → Found fd rest (index_from 0 fd rest)
        → Found fd (e ∷ rest) (if b then some 0 else index_from 1 fd rest)
    go true h r = record {
      within = omega arith;
      at = rw h;
      present = rw h;
      update = λ f. rw h;
      replace = λ x. rw h;
    }
    go false h r = rw (index_from-suc 0 fd rest) (Found-cons fd e rest _ h r)

-- Searches after a write that keeps descriptors.
pub first-update_fd :
    (fd j : ℤ) (f : FdEntry → FdEntry) (es : List FdEntry)
    → ((e : FdEntry) → (f e).fd ≡ e.fd)
    → first j (update_fd fd f es)
      ≡ (if fd ==ℤ j then elim (first fd es) [ none ↦ none | some e ↦ some (f e) ] else first j es)
first-update_fd fd j f [] k = ground arith
first-update_fd fd j f (e ∷ es) k =
    ground (arith, k e, ==ℤ_iff e.fd fd, ==ℤ_iff e.fd j, ==ℤ_iff fd j, first-update_fd fd j f es k)

pub has_fd-update_fd :
    (fd j : ℤ) (f : FdEntry → FdEntry) (es : List FdEntry)
    → ((e : FdEntry) → (f e).fd ≡ e.fd)
    → has_fd j (update_fd fd f es) ≡ has_fd j es
has_fd-update_fd fd j f [] k = refl
has_fd-update_fd fd j f (e ∷ es) k = ground (arith, k e, has_fd-update_fd fd j f es k)

pub first-append :
    (j : ℤ) (es : List FdEntry) (e : FdEntry)
    → has_fd e.fd es ≡ false
    → first j (es ++ e ∷ []) ≡ (if e.fd ==ℤ j then some e else first j es)
first-append j [] e h = refl
first-append j (x ∷ es) e h =
    ground (arith, ==ℤ_iff x.fd j, ==ℤ_iff e.fd j, ==ℤ_iff x.fd e.fd, first-append j es e)
