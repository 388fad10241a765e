-- ===== src/FdTable/Gap.antt =====
-- The removal of an entry by moving the last one into its place.
use migash.Prelude.{
  ℕ, suc, ◌-◌, ◌<◌, ◌≡◌, refl, ap, ◌∙◌, Bool, true, false, ◌||◌, List, [], ◌∷◌, ◌++◌, Option, none,
  some, arith, if◌then◌else◌, length, length-append, get_elem?, set, ltb, Bool-cases, inl, inr,
}
use migash.Prelude.Int.{ℤ, ◌==ℤ◌, ==ℤ_iff}
use migash.FdTable.{FdEntry, index_from, drop_last, fill_gap}
use migash.FdTable.Slots.{
  first, has_fd, distinct, update_fd, Stands, index_from-Found, index_from-suc, first-append, shift,
}

drop_last-snoc : (es : List FdEntry) (l : FdEntry) → drop_last (es ++ l ∷ []) ≡ es
unfolding drop_last
drop_last-snoc [] l = refl
drop_last-snoc (e ∷ []) l = refl
drop_last-snoc (e ∷ x ∷ es) l = ap (λ t. e ∷ t) (drop_last-snoc (x ∷ es) l)

get_elem?-last : (es : List FdEntry) (l : FdEntry) → get_elem? (es ++ l ∷ []) (length es) ≡ some l
get_elem?-last [] l = refl
get_elem?-last (e ∷ es) l = get_elem?-last es l

-- The index lies before the last slot exactly when an earlier entry has the descriptor.
abbrev Early : ℤ → List FdEntry → Option ℕ → Type 0
Early fd es none = Unit
Early fd es (some k) = ltb k (length es) ≡ has_fd fd es

ltb-suc : (k n : ℕ) → ltb (suc k) (suc n) ≡ ltb k n
ltb-suc k n = ground arith

suc-sub_one : (n : ℕ) → suc n - 1 ≡ n
suc-sub_one n = omega arith

Early-cons :
    (fd : ℤ) (e : FdEntry) (es : List FdEntry) (o : Option ℕ)
    → e.fd ==ℤ fd ≡ false
    → Early fd es o
    → Early fd (e ∷ es) (shift o)
Early-cons fd e es none h r = tt
Early-cons fd e es (some k) h r = rw h (ltb-suc k (length es) ∙ r)

index_from-Early :
    (fd : ℤ) (es : List FdEntry) (l : FdEntry) → Early fd es (index_from 0 fd (es ++ l ∷ []))
unfolding index_from
index_from-Early fd [] l = elim (Bool-cases (l.fd ==ℤ fd)) [ inl h ↦ rw h | inr h ↦ rw h tt ]
index_from-Early fd (e ∷ es) l = go (e.fd ==ℤ fd) refl (index_from-Early fd es l)
  where
    go :
        (b : Bool)
        → e.fd ==ℤ fd ≡ b
        → Early fd es (index_from 0 fd (es ++ l ∷ []))
        → Early fd (e ∷ es) (if b then some 0 else index_from 1 fd (es ++ l ∷ []))
    go true h r = rw h (ground arith)
    go false h r = rw (index_from-suc 0 fd (es ++ l ∷ [])) (Early-cons fd e es _ h r)

update_fd-snoc :
    (fd : ℤ) (f : FdEntry → FdEntry) (es : List FdEntry) (l : FdEntry)
    → has_fd fd es ≡ true
    → update_fd fd f (es ++ l ∷ []) ≡ update_fd fd f es ++ l ∷ []
update_fd-snoc fd f [] l h = cc
update_fd-snoc fd f (e ∷ es) l h = ground (arith, update_fd-snoc fd f es l)

-- What `fd_table_remove` leaves of the entries `es ++ l ∷ []`.
abbrev pub removed : ℤ → List FdEntry → FdEntry → List FdEntry
removed fd es l = if has_fd fd es then update_fd fd (λ _. l) es else es

-- `fill_gap` in an array of one more than `n` entries whose last one is `l`.
fill_gap-last :
    (k n : ℕ) (entries : List FdEntry) (l : FdEntry)
    → get_elem? entries n ≡ some l
    → fill_gap k (suc n) entries ≡ (if ltb k n then set entries k l else entries)
unfolding fill_gap
fill_gap-last k n entries l h = rw (suc-sub_one n, h)

pub drop_last-fill_gap :
    (fd : ℤ) (k : ℕ) (es : List FdEntry) (l : FdEntry)
    → index_from 0 fd (es ++ l ∷ []) ≡ some k
    → drop_last (fill_gap k (suc (length es)) (es ++ l ∷ [])) ≡ removed fd es l
drop_last-fill_gap fd k es l e =
    let s : Stands fd (es ++ l ∷ []) k = rw e at (index_from-Found fd (es ++ l ∷ [])) in
    let early : ltb k (length es) ≡ has_fd fd es = rw e at (index_from-Early fd es l) in
    ap drop_last (fill_gap-last k (length es) (es ++ l ∷ []) l (get_elem?-last es l))
    ∙ rw early (elim (Bool-cases (has_fd fd es)) [
      | inl h ↦ rw (h, s.replace l, update_fd-snoc fd (λ _. l) es l h) (drop_last-snoc _ l)
      | inr h ↦ rw h (drop_last-snoc es l)
    ])

first-none : (j : ℤ) (es : List FdEntry) → has_fd j es ≡ false → first j es ≡ none
first-none j [] h = refl
first-none j (e ∷ es) h = ground (arith, first-none j es)

-- Searches after the last entry has taken the place of the one with descriptor `fd`.
first-moved :
    (fd j : ℤ) (es : List FdEntry) (l : FdEntry)
    → distinct es ≡ true
    → has_fd fd es ≡ true
    → has_fd l.fd es ≡ false
    → first j (update_fd fd (λ _. l) es)
      ≡ (if fd ==ℤ j then none else if l.fd ==ℤ j then some l else first j es)
first-moved fd j [] l d h n = cc
first-moved fd j (e ∷ es) l d h n = ground (
  arith,
  ==ℤ_iff e.fd fd,
  ==ℤ_iff e.fd j,
  ==ℤ_iff fd j,
  ==ℤ_iff l.fd j,
  ==ℤ_iff e.fd l.fd,
  first-none j es,
  first-moved fd j es l,
)

pub has_fd-append :
    (j : ℤ) (es : List FdEntry) (l : FdEntry)
    → has_fd j (es ++ l ∷ []) ≡ (has_fd j es || l.fd ==ℤ j)
has_fd-append j [] l = ground arith
has_fd-append j (e ∷ es) l = ground (arith, has_fd-append j es l)

pub distinct-snoc :
    (es : List FdEntry) (l : FdEntry)
    → distinct (es ++ l ∷ []) ≡ true
    → (distinct es ≡ true) × (has_fd l.fd es ≡ false)
distinct-snoc [] l h = (refl, refl)
distinct-snoc (e ∷ es) l h =
    ground
      (arith, has_fd-append e.fd es l, ==ℤ_iff e.fd l.fd, ==ℤ_iff l.fd e.fd, distinct-snoc es l)

pub has_fd-first :
    (j : ℤ) (es : List FdEntry) → has_fd j es ≡ elim (first j es) [ none ↦ false | some _ ↦ true ]
has_fd-first j [] = refl
has_fd-first j (e ∷ es) = ground (arith, has_fd-first j es)

-- After the removal the descriptor is gone, and every other one finds what it found before.
pub first-removed :
    (fd j : ℤ) (es : List FdEntry) (l : FdEntry)
    → distinct (es ++ l ∷ []) ≡ true
    → has_fd fd (es ++ l ∷ []) ≡ true
    → first j (removed fd es l) ≡ (if fd ==ℤ j then none else first j (es ++ l ∷ []))
first-removed fd j es l d h =
    let (apart, new) = distinct-snoc es l d in
    ground (
      arith,
      apart,
      new,
      has_fd-append fd es l,
      ==ℤ_iff fd j,
      ==ℤ_iff l.fd fd,
      ==ℤ_iff l.fd j,
      first-none j es,
      first-append j es l new,
      first-moved fd j es l apart,
    )

has_fd-moved :
    (fd j : ℤ) (es : List FdEntry) (l : FdEntry)
    → has_fd j es ≡ false
    → l.fd ==ℤ j ≡ false
    → has_fd j (update_fd fd (λ _. l) es) ≡ false
has_fd-moved fd j [] l h n = refl
has_fd-moved fd j (e ∷ es) l h n = ground (arith, has_fd-moved fd j es l)

distinct-moved :
    (fd : ℤ) (es : List FdEntry) (l : FdEntry)
    → distinct es ≡ true
    → has_fd l.fd es ≡ false
    → distinct (update_fd fd (λ _. l) es) ≡ true
distinct-moved fd [] l d n = refl
distinct-moved fd (e ∷ es) l d n =
    ground (
      arith,
      ==ℤ_iff e.fd l.fd,
      ==ℤ_iff l.fd e.fd,
      has_fd-moved fd e.fd es l,
      distinct-moved fd es l,
    )

pub distinct-removed :
    (fd : ℤ) (es : List FdEntry) (l : FdEntry)
    → distinct (es ++ l ∷ []) ≡ true
    → distinct (removed fd es l) ≡ true
distinct-removed fd es l d =
    let (apart, new) = distinct-snoc es l d in ground (arith, apart, new, distinct-moved fd es l)

pub length-update_fd :
    (fd : ℤ) (f : FdEntry → FdEntry) (es : List FdEntry) → length (update_fd fd f es) ≡ length es
length-update_fd fd f [] = refl
length-update_fd fd f (e ∷ es) = ground (arith, length-update_fd fd f es)

pub length-removed :
    (fd : ℤ) (es : List FdEntry) (l : FdEntry) → length (removed fd es l) ≡ length es
length-removed fd es l = ground (arith, length-update_fd fd (λ _. l) es)

-- A list that is not empty ends in an entry.
pub ends_in :
    (es : List FdEntry)
    → 0 < length es
    → (init : List FdEntry) × (l : FdEntry) × (es ≡ init ++ l ∷ [])
ends_in [] h = absurd (omega arith)
ends_in (e ∷ []) h = ([], e, refl)
ends_in (e ∷ x ∷ es) h =
    let (init, l, same) = ends_in (x ∷ es) (omega arith) in (e ∷ init, l, ap (λ t. e ∷ t) same)

-- The entries that `fd_table_remove` leaves.
pub remaining :
    (entries : List FdEntry) (count : ℕ) (fd : ℤ) (idx : ℕ) (es : List FdEntry) (l : FdEntry)
    → entries ≡ es ++ l ∷ []
    → length entries ≡ count
    → index_from 0 fd entries ≡ some idx
    → drop_last (fill_gap idx count entries) ≡ removed fd es l
remaining entries count fd idx es l e c found =
    let c' : count ≡ suc (length es) =
      omega (arith, c, ap length e, length-append {0} es (l ∷ [])) in
    rw (c', e) (drop_last-fill_gap fd idx es l (rw e at found))
