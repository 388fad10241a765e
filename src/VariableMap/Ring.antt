-- ===== src/VariableMap/Ring.antt =====
-- Positions on the ring of a hash table's slots.
use native.Mathlib.Nat.{mod-eq_of_lt, mod_self}
use migash.Prelude.{
  ℕ, suc, ◌+◌, ◌-◌, ◌%◌, ◌<◌, ◌≡◌, refl, ap, ◌∙◌, ◌≢◌, ◌⊎◌, Bool, true, false, ◌&&◌, ◌||◌, arith,
  if◌then◌else◌, ltb, leb, ◌==◌, ==_iff, Bool-cases, inl, inr,
}
use migash.VariableMap.{next, should_move}

-- A walk from `home` that ends at `p` passes `q`.
abbrev pub passes : ℕ → ℕ → ℕ → Bool
passes home p q = if leb home p then leb home q && ltb q p else leb home q || ltb q p

-- The steps of a walk from `p` to `z`.
abbrev pub steps : ℕ → ℕ → ℕ → ℕ
steps capacity p z = if leb p z then z - p else capacity - p + z

pub next_cases :
    (capacity p : ℕ) → p < capacity → next capacity p ≡ (if suc p == capacity then 0 else suc p)
unfolding next
next_cases capacity p h = go (suc p == capacity) refl
  where
    step : p + 1 ≡ suc p
    step = omega arith

    go : (b : Bool) → (suc p == capacity) ≡ b → (p + 1) % capacity ≡ (if b then 0 else suc p)
    go true e =
        let end : p + 1 ≡ capacity = omega (arith, (==_iff (suc p) capacity).0 e) in
        ap (λ n. n % capacity) end ∙ mod_self capacity
    go false e = mod-eq_of_lt (ground (arith, e, h, step)) ∙ step

pub next-lt : (capacity p : ℕ) → p < capacity → next capacity p < capacity
next-lt capacity p h = rw (next_cases capacity p h) (ground arith)

-- A walk that goes one step on passes one more slot.
pub passes-next :
    (capacity home p q : ℕ)
    → p < capacity
    → q < capacity
    → home < capacity
    → (next capacity p ≢ home)
    → passes home (next capacity p) q ≡ (passes home p q || q == p)
passes-next capacity home p q hp hq hh ne = ground (arith, next_cases capacity p hp)

pub steps-next :
    (capacity p z : ℕ)
    → p < capacity
    → z < capacity
    → p ≢ z
    → suc (steps capacity (next capacity p) z) ≡ steps capacity p z
steps-next capacity p z hp hz ne = ground (arith, next_cases capacity p hp)

-- While a slot ahead is not passed, the walk has not come round.
pub next-ne_home :
    (capacity home p z : ℕ)
    → p < capacity
    → z < capacity
    → home < capacity
    → passes home p z ≡ false
    → p ≢ z
    → next capacity p ≢ home
next-ne_home capacity home p z hp hz hh e ne = ground (arith, next_cases capacity p hp)

-- Of two walks from the same slot one passes the end of the other.
pub passes_trichotomy :
    (home p q : ℕ) → (passes home p q ≡ true) ⊎ ((p ≡ q) ⊎ (passes home q p ≡ true))
passes_trichotomy home p q = elim (Bool-cases (passes home p q)) [
  | inl e ↦ inl e
  | inr e ↦ elim (Bool-cases (p == q)) [
    | inl same ↦ inr (inl ((==_iff p q).0 same))
    | inr other ↦ inr (inr (ground (arith, e, other)))
  ]
]

pub passes-start : (p q : ℕ) → passes p p q ≡ false
passes-start p q = ground arith

-- The code's test of whether an entry moves: its walk passes the empty slot.
pub should_move-passes :
    (empty curr ideal : ℕ) → empty ≢ curr → should_move empty curr ideal ≡ passes ideal curr empty
unfolding should_move
should_move-passes empty curr ideal h = ground arith

-- A walk that passes `h` to an end outside the stretch from `h` to `c` passes `c`.
pub passes-beyond :
    (capacity home h c p : ℕ)
    → h < capacity
    → c < capacity
    → p < capacity
    → home < capacity
    → passes (next capacity h) c p ≡ false
    → p ≢ c
    → p ≢ h
    → passes home p h ≡ true
    → passes home p c ≡ true
passes-beyond capacity home h c p hh hc hp hi a b d e = ground (arith, next_cases capacity h hh)

passes_self : (home p : ℕ) → passes home p p ≡ false
passes_self home p = ground arith

passes-asymm : (home p q : ℕ) → passes home p q ≡ true → passes home q p ≡ false
passes-asymm home p q a = ground (arith, a)

-- The walk to a slot that a walk passes is a part of that walk.
pub passes-part :
    (home p q r : ℕ)
    → passes home p q ≡ true
    → passes home q r ≡ true
    → (passes home p r ≡ true) × (r ≢ p) × (r ≢ q)
passes-part home p q r a b = (
  ground (arith, a, b),
  λ e. cc (passes-asymm home p q a, ap (passes home q) e, b),
  λ e. cc (passes_self home q, ap (passes home q) e, b),
)

pub next-ne : (capacity p z : ℕ) → p < capacity → z < capacity → z ≢ p → p ≢ next capacity p
next-ne capacity p z hp hz h = ground (arith, next_cases capacity p hp)

-- While a slot that is not the hole lies ahead, the walk does not come to the hole.
pub next-ne_hole :
    (capacity h c z : ℕ)
    → h < capacity
    → c < capacity
    → z < capacity
    → z ≢ h
    → c ≢ z
    → passes (next capacity h) c z ≡ false
    → h ≢ c
    → h ≢ next capacity c
next-ne_hole capacity h c z hh hc hz a b e d =
    ground (arith, next_cases capacity h hh, next_cases capacity c hc)
