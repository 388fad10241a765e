-- ===== src/PatternRemoval/Search.antt =====
-- What the loops over the positions find.
use migash.Prelude.{
  ℕ, zero, suc, ◌+◌, ◌≤◌, ◌<◌, ◌≡◌, refl, ap, ◌∙◌, inl, inr, Bool, true, false, Option, none, some,
  arith, if◌then◌else◌, Bool-cases, ◌==◌, ==_iff, ◌≢◌,
}
use mathlib.Core.Path.{subst}
use migash.PatternRemoval.{upwards, downwards}

-- What a loop over the positions `i` with `lo ≤ i < hi` finds: the first match, where a position
-- that `before` puts ahead of it does not match, or there is no match.
abbrev pub Finds : (ℕ → Bool) → (ℕ → ℕ → Type 0) → ℕ → ℕ → Option ℕ → Type 0
Finds matched before lo hi none = (m : ℕ) → lo ≤ m → m < hi → matched m ≡ false
Finds matched before lo hi (some i) =
    (matched i ≡ true)
    × (lo ≤ i)
    × (i < hi)
    × ((m : ℕ) → lo ≤ m → m < hi → before m i → matched m ≡ false)

abbrev pub Shorter : ℕ → ℕ → Type 0
Shorter m i = m < i

abbrev pub Longer : ℕ → ℕ → Type 0
Longer m i = i < m

-- A property of all positions but `i`, and of `i`.
besides :
    (matched : ℕ → Bool) (i m : ℕ)
    → matched i ≡ false
    → (m ≢ i → matched m ≡ false)
    → matched m ≡ false
besides matched i m e k = elim (Bool-cases (m == i)) [
  | inl same ↦ ap matched ((==_iff m i).0 same) ∙ e
  | inr other ↦ k (ground (arith, other))
]

upwards-Finds :
    (matched : ℕ → Bool) (i left : ℕ) → Finds matched Shorter i (i + left) (upwards matched i left)
unfolding upwards
upwards-Finds matched i zero = λ m a b. absurd (omega arith)
upwards-Finds matched i (suc left) =
    go (matched i) refl (upwards matched (suc i) left) (upwards-Finds matched (suc i) left)
  where
    go :
        (b : Bool)
        → matched i ≡ b
        → (o : Option ℕ) → Finds matched Shorter (suc i) (suc i + left) o
        → Finds matched Shorter i (i + suc left) (if b then some i else o)
    go true e o h = (e, omega arith, omega arith, λ m a b c. absurd (omega arith))
    go false e none h = λ m a b. besides matched i m e (λ n. h m (omega arith) (omega arith))
    go false e (some j) h = (
      h.0,
      omega (arith, h.1),
      omega (arith, h.2),
      λ m a b c. besides matched i m e (λ n. h.3 m (omega arith) (omega arith) c),
    )

pub downwards-Finds :
    (matched : ℕ → Bool) (i : ℕ) → Finds matched Longer 0 (suc i) (downwards matched i)
unfolding downwards
downwards-Finds matched zero = go (matched 0) refl
  where
    go : (b : Bool) → matched 0 ≡ b → Finds matched Longer 0 1 (if b then some zero else none)
    go true e = (e, omega arith, omega arith, λ m a b c. absurd (omega arith))
    go false e = λ m a b. besides matched 0 m e (λ n. absurd (omega arith))
downwards-Finds matched (suc i) =
    go (matched (suc i)) refl (downwards matched i) (downwards-Finds matched i)
  where
    go :
        (b : Bool)
        → matched (suc i) ≡ b
        → (o : Option ℕ) → Finds matched Longer 0 (suc i) o
        → Finds matched Longer 0 (suc (suc i)) (if b then some (suc i) else o)
    go true e o h = (e, omega arith, omega arith, λ m a b c. absurd (omega arith))
    go false e none h = λ m a b. besides matched (suc i) m e (λ n. h m a (omega arith))
    go false e (some j) h = (
      h.0,
      h.1,
      omega (arith, h.2),
      λ m a b c. besides matched (suc i) m e (λ n. h.3 m a (omega arith) c),
    )

pub upwards-Finds_all :
    (matched : ℕ → Bool) (n : ℕ) → Finds matched Shorter 0 n (upwards matched 0 n)
upwards-Finds_all matched n =
    let start : 0 + n ≡ n = omega arith in
    subst (λ k. Finds matched Shorter 0 k (upwards matched 0 n)) start (upwards-Finds matched 0 n)
