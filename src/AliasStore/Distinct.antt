-- ===== src/AliasStore/Distinct.antt =====
-- Changes of the array keep the names distinct, and the capacity is enough.
use migash.Prelude.{
  ℕ, zero, suc, ◌+◌, ◌-◌, ◌*◌, ◌≤◌, ◌<◌, ◌≡◌, refl, sym, ap, true, false, not, ◌&&◌, ◌||◌, List, [],
  ◌∷◌, ◌++◌, none, arith, length, set, Text, string_eq, string_eq_iff,
}
use migash.AliasStore.{Alias, doubled_to, alias_array_ensure_capacity}
use migash.AliasStore.Lookup.{lookup, IsFirst, here, later, has, distinct}
use migash.AliasStore.Shift.{remove_at}

doubled_to-enough :
    (left needed capacity : ℕ)
    → 1 ≤ capacity
    → needed ≤ left + capacity
    → needed ≤ doubled_to left needed capacity
unfolding doubled_to
doubled_to-enough zero needed capacity p h = omega (arith, h)
doubled_to-enough (suc left) needed capacity p h =
    ground (arith, doubled_to-enough left needed (capacity * 2) (omega arith) (omega (arith, h, p)))

pub ensured-enough : (capacity needed : ℕ) → needed ≤ alias_array_ensure_capacity capacity needed
unfolding alias_array_ensure_capacity
ensured-enough capacity needed = ground (
  arith,
  doubled_to-enough needed needed 16 (omega arith) (omega arith),
  doubled_to-enough needed needed capacity,
)

pub has-set :
    (name value j : Text) (elements : List Alias) (k : ℕ)
    → IsFirst name elements k
    → has j (set elements k (record { name = name; value = value })) ≡ has j elements
has-set name value j _ _ (here a rest e) = ground (arith, e, string_eq_iff a.name name)
has-set name value j _ _ (later a rest k e f) = ground (arith, has-set name value j rest k f)

pub distinct-set :
    (name value : Text) (elements : List Alias) (k : ℕ)
    → IsFirst name elements k
    → distinct (set elements k (record { name = name; value = value })) ≡ distinct elements
distinct-set name value _ _ (here a rest e) =
    ap (λ n. not (has n rest) && distinct rest) (sym ((string_eq_iff a.name name).0 e))
distinct-set name value _ _ (later a rest k e f) =
    ground (arith, has-set name value a.name rest k f, distinct-set name value rest k f)

has-append :
    (j : Text) (elements : List Alias) (a : Alias)
    → has j (elements ++ a ∷ []) ≡ (has j elements || string_eq a.name j)
has-append j [] a = ground arith
has-append j (b ∷ rest) a = ground (arith, has-append j rest a)

pub distinct-append :
    (name value : Text) (elements : List Alias)
    → distinct elements ≡ true
    → lookup name elements ≡ none
    → distinct (elements ++ record { name = name; value = value } ∷ []) ≡ true
distinct-append name value [] d h = refl
distinct-append name value (b ∷ rest) d h = ground (
  arith,
  d,
  h,
  has-append b.name rest (record { name = name; value = value }),
  string_eq_iff name b.name,
  string_eq_iff b.name name,
  distinct-append name value rest,
)

pub has-remove_at :
    (j : Text) (k : ℕ) (elements : List Alias)
    → has j elements ≡ false
    → has j (remove_at k elements) ≡ false
has-remove_at j k [] h = refl
has-remove_at j zero (a ∷ rest) h = ground (arith, h)
has-remove_at j (suc k) (a ∷ rest) h = ground (arith, h, has-remove_at j k rest)

pub distinct-remove_at :
    (k : ℕ) (elements : List Alias)
    → distinct elements ≡ true
    → distinct (remove_at k elements) ≡ true
distinct-remove_at k [] d = refl
distinct-remove_at zero (a ∷ rest) d = ground (arith, d)
distinct-remove_at (suc k) (a ∷ rest) d =
    ground (arith, d, has-remove_at a.name k rest, distinct-remove_at k rest)

pub length-remove_at :
    (k : ℕ) (elements : List Alias)
    → k < length elements
    → length (remove_at k elements) ≡ length elements - 1
length-remove_at k [] h = refl
length-remove_at zero (a ∷ rest) h = omega arith
length-remove_at (suc k) (a ∷ rest) h = omega (arith, h, length-remove_at k rest (omega (arith, h)))
