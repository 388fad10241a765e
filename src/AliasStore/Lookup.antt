-- ===== src/AliasStore/Lookup.antt =====
-- The search of an alias, and what a change of the array does to it.
use mathlib.Core.Path.{subst}
use migash.Prelude.{
  ℕ, suc, ◌+◌, ◌<◌, ◌≡◌, refl, Bool, true, false, not, ◌&&◌, List, [], ◌∷◌, ◌++◌, Option, none,
  some, arith, if◌then◌else◌, length, get_elem?, set, Text, string_eq, string_eq_iff,
}
use migash.AliasStore.{Alias, find_from}

-- The value under a name: that of the first alias with it.
abbrev pub lookup : Text → List Alias → Option Text
lookup name [] = none
lookup name (a ∷ rest) = if string_eq a.name name then some a.value else lookup name rest

-- The index of the first alias with the name.
pub data IsFirst (name : Text) : List Alias → ℕ → Type 0 where
  here : (a : Alias) (rest : List Alias) → string_eq a.name name ≡ true → IsFirst name (a ∷ rest) 0
  later :
      (a : Alias) (rest : List Alias) (k : ℕ)
      → string_eq a.name name ≡ false
      → IsFirst name rest k
      → IsFirst name (a ∷ rest) (suc k)

-- What a search from an index gives.
abbrev pub Search : Text → List Alias → ℕ → Option ℕ → Type 0
Search name elements i none = lookup name elements ≡ none
Search name elements i (some p) = (k : ℕ) × (p ≡ i + k) × IsFirst name elements k

find_from-Search :
    (i : ℕ) (name : Text) (elements : List Alias)
    → Search name elements i (find_from i name elements)
unfolding find_from
find_from-Search i name [] = refl
find_from-Search i name (a ∷ rest) =
    go (string_eq a.name name) refl (find_from (suc i) name rest)
      (find_from-Search (suc i) name rest)
  where
    go :
        (b : Bool)
        → string_eq a.name name ≡ b
        → (o : Option ℕ) → Search name rest (suc i) o
        → Search name (a ∷ rest) i (if b then some i else o)
    go true e o h = (0, omega arith, here a rest e)
    go false e none h = rw e h
    go false e (some p) (k, same, f) = (suc k, omega (arith, same), later a rest k e f)

-- What a search of the whole array gives.
abbrev pub Searched : Text → List Alias → Option ℕ → Type 0
Searched name elements none = lookup name elements ≡ none
Searched name elements (some k) = IsFirst name elements k

pub find_from-Searched :
    (name : Text) (elements : List Alias) → Searched name elements (find_from 0 name elements)
find_from-Searched name elements = go (find_from 0 name elements) (find_from-Search 0 name elements)
  where
    go : (o : Option ℕ) → Search name elements 0 o → Searched name elements o
    go none h = h
    go (some p) (k, same, f) = subst (IsFirst name elements) (omega (arith, same)) f

pub IsFirst-get :
    (name : Text) (elements : List Alias) (k : ℕ)
    → IsFirst name elements k
    → (a : Alias) × (get_elem? elements k ≡ some a) × (lookup name elements ≡ some a.value)
IsFirst-get name _ _ (here a rest e) = (a, refl, rw e refl)
IsFirst-get name _ _ (later a rest k e f) =
    let (b, g, l) = IsFirst-get name rest k f in (b, g, rw e l)

-- The names differ.
abbrev pub has : Text → List Alias → Bool
has name [] = false
has name (a ∷ rest) = if string_eq a.name name then true else has name rest

abbrev pub distinct : List Alias → Bool
distinct [] = true
distinct (a ∷ rest) = not (has a.name rest) && distinct rest

pub lookup-set :
    (name value j : Text) (elements : List Alias) (k : ℕ)
    → IsFirst name elements k
    → lookup j (set elements k (record { name = name; value = value }))
      ≡ (if string_eq name j then some value else lookup j elements)
lookup-set name value j _ _ (here a rest e) = ground (arith, e, string_eq_iff a.name name)
lookup-set name value j _ _ (later a rest k e f) = ground (
  arith,
  e,
  string_eq_iff a.name j,
  string_eq_iff name j,
  string_eq_iff a.name name,
  lookup-set name value j rest k f,
)

pub lookup-append :
    (name value j : Text) (elements : List Alias)
    → lookup name elements ≡ none
    → lookup j (elements ++ record { name = name; value = value } ∷ [])
      ≡ (if string_eq name j then some value else lookup j elements)
lookup-append name value j [] h = refl
lookup-append name value j (a ∷ rest) h = ground (
  arith,
  h,
  string_eq_iff a.name j,
  string_eq_iff name j,
  string_eq_iff a.name name,
  lookup-append name value j rest,
)

pub IsFirst-lt :
    (name : Text) (elements : List Alias) (k : ℕ) → IsFirst name elements k → k < length elements
IsFirst-lt name _ _ (here a rest e) = omega arith
IsFirst-lt name _ _ (later a rest k e f) = omega (arith, IsFirst-lt name rest k f)
