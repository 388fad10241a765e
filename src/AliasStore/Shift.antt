-- ===== src/AliasStore/Shift.antt =====
-- The removal of an alias from the array.
use migash.Prelude.{
  ℕ, zero, suc, ◌-◌, ◌<◌, ◌≡◌, refl, ap, ◌∙◌, true, false, List, [], ◌∷◌, Option, none, some, arith,
  if◌then◌else◌, length, length-set, get_elem?, set, ◌≤◌, Text, string_eq, string_eq_iff,
}
use migash.AliasStore.{Alias, shift_down, without_last}
use migash.AliasStore.Lookup.{lookup, IsFirst, here, later, has, distinct}

-- The array without the entry at an index.
abbrev pub remove_at : ℕ → List Alias → List Alias
remove_at k [] = []
remove_at zero (a ∷ rest) = rest
remove_at (suc k) (a ∷ rest) = a ∷ remove_at k rest

shift_down-suc :
    (i left : ℕ) (a : Alias) (rest : List Alias)
    → shift_down (suc i) left (a ∷ rest) ≡ a ∷ shift_down i left rest
unfolding shift_down
shift_down-suc i zero a rest = refl
shift_down-suc i (suc left) a rest = go (shift_down-suc (suc i) left a) (get_elem? rest (suc i))
  where
    go :
        ((t : List Alias) → shift_down (suc (suc i)) left (a ∷ t) ≡ a ∷ shift_down (suc i) left t)
        → (o : Option Alias)
        → elim o as (λ _. List Alias) [
          | none ↦ a ∷ rest
          | some next ↦ shift_down (suc (suc i)) left (a ∷ set rest i next)
        ]
          ≡ a ∷ elim o as (λ _. List Alias) [
            | none ↦ rest
            | some next ↦ shift_down (suc i) left (set rest i next)
          ]
    go more none = refl
    go more (some next) = more (set rest i next)

without_last-cons :
    (a b : Alias) (rest : List Alias) → without_last (a ∷ b ∷ rest) ≡ a ∷ without_last (b ∷ rest)
unfolding without_last
without_last-cons a b rest = refl

-- The shift from the first entry keeps the length.
length-shift_down :
    (i left : ℕ) (elements : List Alias) → length (shift_down i left elements) ≡ length elements
unfolding shift_down
length-shift_down i zero elements = refl
length-shift_down i (suc left) elements =
    go (length-shift_down (suc i) left) (get_elem? elements (suc i))
  where
    go :
        ((t : List Alias) → length (shift_down (suc i) left t) ≡ length t)
        → (o : Option Alias)
        → length (elim o as (λ _. List Alias) [
          | none ↦ elements
          | some next ↦ shift_down (suc i) left (set elements i next)
        ])
          ≡ length elements
    go more none = refl
    go more (some next) = more (set elements i next) ∙ length-set elements i next

without_last-later :
    (a : Alias) (es : List Alias) → 1 ≤ length es → without_last (a ∷ es) ≡ a ∷ without_last es
unfolding without_last
without_last-later a [] h = absurd (omega arith)
without_last-later a (b ∷ rest) h = refl

shifted_first :
    (a : Alias) (rest : List Alias) → without_last (shift_down 0 (length rest) (a ∷ rest)) ≡ rest
unfolding shift_down without_last
shifted_first a [] = refl
shifted_first a (b ∷ rest) =
    ap without_last (shift_down-suc 0 (length rest) b (b ∷ rest))
    ∙ without_last-later b (shift_down 0 (length rest) (b ∷ rest))
        (omega (arith, length-shift_down 0 (length rest) (b ∷ rest)))
    ∙ ap (λ t. b ∷ t) (shifted_first b rest)

fewer : (n k : ℕ) → suc n - 1 - suc k ≡ n - 1 - k
fewer n k = omega arith

-- The loop and the smaller size take the entry out.
pub without_last-shift_down :
    (k : ℕ) (elements : List Alias)
    → k < length elements
    → without_last (shift_down k (length elements - 1 - k) elements) ≡ remove_at k elements
without_last-shift_down k [] h = absurd (omega arith)
without_last-shift_down zero (a ∷ rest) h =
    ap (λ n. without_last (shift_down 0 n (a ∷ rest))) (omega arith) ∙ shifted_first a rest
without_last-shift_down (suc k) (a ∷ rest) h =
    ap (λ n. without_last (shift_down (suc k) n (a ∷ rest))) (fewer (length rest) k)
    ∙ ap without_last (shift_down-suc k (length rest - 1 - k) a rest)
    ∙ without_last-later a (shift_down k (length rest - 1 - k) rest)
        (omega (arith, h, length-shift_down k (length rest - 1 - k) rest))
    ∙ ap (λ t. a ∷ t) (without_last-shift_down k rest (omega (arith, h)))

pub has-lookup :
    (name : Text) (elements : List Alias) → has name elements ≡ false → lookup name elements ≡ none
has-lookup name [] h = refl
has-lookup name (a ∷ rest) h = ground (arith, has-lookup name rest)

pub lookup-remove_at :
    (name j : Text) (elements : List Alias) (k : ℕ)
    → distinct elements ≡ true
    → IsFirst name elements k
    → lookup j (remove_at k elements) ≡ (if string_eq name j then none else lookup j elements)
lookup-remove_at name j _ _ d (here a rest e) = ground (
  arith,
  e,
  d,
  string_eq_iff a.name j,
  string_eq_iff name j,
  string_eq_iff a.name name,
  has-lookup j rest,
)
lookup-remove_at name j _ _ d (later a rest k e f) = ground (
  arith,
  e,
  d,
  string_eq_iff a.name j,
  string_eq_iff name j,
  string_eq_iff a.name name,
  lookup-remove_at name j rest k (ground (arith, d)) f,
)
