-- ===== src/VariableMap/Count.antt =====
-- How many of the first slots are occupied.
use mathlib.Core.Path.{subst}
use migash.Prelude.{
  ℕ, zero, suc, ◌+◌, ◌≤◌, ◌<◌, ◌≡◌, refl, sym, ap, ◌∙◌, ◌≢◌, inl, inr, Option, none, some, arith,
  ltb, ◌==◌, ==_iff, Bool-cases,
}
use migash.VariableMap.{Entry, Entries, write, vacant}

abbrev pub bit : Option Entry → ℕ
bit none = 0
bit (some e) = 1

pub used : Entries → ℕ → ℕ
used t zero = 0
used t (suc n) = used t n + bit (t n)

pub used-vacant : (n : ℕ) → used vacant n ≡ 0
unfolding used
used-vacant zero = refl
used-vacant (suc n) = omega (arith, used-vacant n)

pub bit-le : (o : Option Entry) → bit o ≤ 1
bit-le none = omega arith
bit-le (some e) = omega arith

bit-none : (o : Option Entry) → bit o ≡ 0 → o ≡ none
bit-none none h = refl
bit-none (some e) h = absurd (omega (arith, h))

pub used-le : (t : Entries) (n : ℕ) → used t n ≤ n
unfolding used
used-le t zero = omega arith
used-le t (suc n) = omega (arith, used-le t n, bit-le (t n))

-- A table that is not full has a vacant slot.
pub used-lt : (t : Entries) (n : ℕ) → used t n < n → (z : ℕ) × (z < n) × (t z ≡ none)
unfolding used
used-lt t zero h = absurd (omega arith)
used-lt t (suc n) h = elim (Bool-cases (ltb (used t n) n)) [
  | inl e ↦ let (z, l, v) = used-lt t n (ground (arith, e)) in (z, omega (arith, l), v)
  | inr e ↦ (n, omega arith, bit-none (t n) (ground (arith, e, h, used-le t n)))
]

pub write_self : (t : Entries) (p : ℕ) (o : Option Entry) → write t p o p ≡ o
unfolding write
write_self t p o = ground arith

pub write-ne : (t : Entries) (p q : ℕ) (o : Option Entry) → q ≢ p → write t p o q ≡ t q
unfolding write
write-ne t p q o h = ground arith

used-beyond : (t : Entries) (p n : ℕ) (o : Option Entry) → n ≤ p → used (write t p o) n ≡ used t n
unfolding used
used-beyond t p zero o h = refl
used-beyond t p (suc n) o h = omega (
  arith,
  used-beyond t p n o (omega (arith, h)),
  ap bit (write-ne t p n o (λ e. absurd (omega (arith, e, h)))),
)

pub used-write :
    (t : Entries) (p n : ℕ) (o : Option Entry)
    → p < n
    → used (write t p o) n + bit (t p) ≡ used t n + bit o
unfolding used
used-write t p zero o h = absurd (omega arith)
used-write t p (suc n) o h = elim (Bool-cases (p == n)) [
  | inl e ↦
      let same = (==_iff p n).0 e in
      omega (
        arith,
        used-beyond t p n o (omega (arith, same)),
        ap bit (sym (ap (write t p o) same) ∙ write_self t p o),
        ap (λ q. bit (t q)) same,
      )
  | inr e ↦
      let other : n ≢ p = ground (arith, e) in
      omega (arith, used-write t p n o (ground (arith, e, h)), ap bit (write-ne t p n o other))
]

pub used_zero : (t : Entries) → used t 0 ≡ 0
unfolding used
used_zero t = refl

pub used-suc : (t : Entries) (i : ℕ) → used t (suc i) ≡ used t i + bit (t i)
unfolding used
used-suc t i = refl

-- A longer part of the array has no fewer entries.
pub used_upto : (t : Entries) (i left n : ℕ) → i + left ≡ n → used t i ≤ used t n
unfolding used
used_upto t i zero n h = let same : i ≡ n = omega (arith, h) in ap-le same
  where
    ap-le : i ≡ n → used t i ≤ used t n
    ap-le e = subst (λ k. used t i ≤ used t k) e (omega arith)
used_upto t i (suc left) n h = omega (arith, used_upto t (suc i) left n (omega (arith, h)))
