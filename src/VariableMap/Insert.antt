-- ===== src/VariableMap/Insert.antt =====
-- A table with one more entry, and the table that a resize builds.
use mathlib.Core.Path.{subst}
use migash.Prelude.{
  ℕ, zero, suc, ◌+◌, ◌<◌, ◌≡◌, refl, sym, ap, ◌∙◌, ◌≢◌, ◌⊎◌, inl, inr, true, Option, none, some,
  arith, ◌==◌, ==_iff, Bool-cases, Text,
}
use migash.VariableMap.{
  Entry, Entries, occupied, write, vacant, find_slot, free_from, place, rehash,
}
use migash.VariableMap.Ring.{passes}
use migash.VariableMap.Probe.{IsProbed, IsOpen, Opened, find_slot-lt, free_from-home}
use migash.VariableMap.Count.{
  used_zero, used-suc, used_upto, bit, used, used-vacant, used-lt, used-write, write_self, write-ne,
}

-- The entry stands in the table.
abbrev pub Holds : ℕ → Entries → Entry → Type 0
Holds capacity t e = (p : ℕ) × (p < capacity) × (t p ≡ some e)

pub some-eq : (e f : Entry) → some e ≡ some f → e ≡ f
some-eq e f h = ap (λ o. elim o [ none ↦ e | some x ↦ x ]) h

-- A slot of the table with one more entry: the new one, or an old one.
pub written :
    (t : Entries) (p q : ℕ) (e f : Entry)
    → write t p (some e) q ≡ some f
    → ((q ≡ p) × (e ≡ f)) ⊎ ((q ≢ p) × (t q ≡ some f))
written t p q e f h = elim (Bool-cases (q == p)) [
  | inl b ↦
      let same = (==_iff q p).0 b in
      inl (same, some-eq e f (sym (ap (write t p (some e)) same ∙ write_self t p (some e)) ∙ h))
  | inr b ↦
      let other : q ≢ p = ground (arith, b) in inr (other, sym (write-ne t p q (some e) other) ∙ h)
]

pub occupied-write :
    (t : Entries) (p q : ℕ) (e : Entry)
    → occupied (t q) ≡ true
    → occupied (write t p (some e) q) ≡ true
occupied-write t p q e h = elim (Bool-cases (q == p)) [
  | inl b ↦ ap occupied (ap (write t p (some e)) ((==_iff q p).0 b) ∙ write_self t p (some e))
  | inr b ↦ ap occupied (write-ne t p q (some e) (ground (arith, b))) ∙ h
]

-- The key of no entry.
abbrev pub Lacks : ℕ → Entries → Text → Type 0
Lacks capacity t key = (q : ℕ) (f : Entry) → q < capacity → t q ≡ some f → f.key ≢ key

pub add-IsProbed :
    (capacity : ℕ) (t : Entries) (p : ℕ) (e : Entry)
    → IsProbed capacity t
    → IsOpen capacity t (find_slot e.key capacity) p
    → Lacks capacity t e.key
    → IsProbed capacity (write t p (some e))
add-IsProbed capacity t p e v o l = record {
  path = λ p' q f hp hq a k. occupied-write t p q e (elim (written t p p' e f a) [
    | inl (same, is) ↦ o.walked q hq (
        subst (λ x. passes (find_slot x.key capacity) p q ≡ true) (sym is)
          (subst (λ x. passes (find_slot f.key capacity) x q ≡ true) same k))
    | inr (ne, old) ↦ v.path p' q f hp hq old k
  ]);
  unique = λ p' q f g hp hq a b same. elim (written t p p' e f a) [
    | inl (p'_new, f_new) ↦ elim (written t p q e g b) [
      | inl (q_new, g_new) ↦ p'_new ∙ sym q_new
      | inr (ne, old) ↦ absurd (l q g hq old (sym same ∙ ap (λ x. x.key) (sym f_new)))
    ]
    | inr (ne, old) ↦ elim (written t p q e g b) [
      | inl (q_new, g_new) ↦ absurd (l p' f hp old (same ∙ ap (λ x. x.key) (sym g_new)))
      | inr (ne', old') ↦ v.unique p' q f g hp hq old old' same
    ]
  ];
}

-- The table after the old slots before `i` have moved.
pub record IsMoved (capacity : ℕ) (old : Entries) (i : ℕ) (t : Entries) : Type 0 where
  pub probed : IsProbed capacity t
  pub from :
      (p : ℕ) (e : Entry) → p < capacity → t p ≡ some e → (q : ℕ) × (q < i) × (old q ≡ some e)
  pub into : (q : ℕ) (e : Entry) → q < i → old q ≡ some e → Holds capacity t e
  pub counted : used t capacity ≡ used old i

-- A write to a vacant slot loses no entry.
pub Holds-write :
    (capacity : ℕ) (t : Entries) (p : ℕ) (e f : Entry)
    → t p ≡ none
    → Holds capacity t f
    → Holds capacity (write t p (some e)) f
Holds-write capacity t p e f v (x, hx, c) =
    (x, hx, write-ne t p x (some e) (λ same. cc (c, v, ap t same)) ∙ c)

pub used-add :
    (capacity : ℕ) (t : Entries) (p : ℕ) (e : Entry)
    → p < capacity
    → t p ≡ none
    → used (write t p (some e)) capacity ≡ suc (used t capacity)
used-add capacity t p e h v = omega (arith, used-write t p capacity (some e) h, ap bit v)

abbrev Distinct : ℕ → Entries → Type 0
Distinct n old =
    (p q : ℕ) (e f : Entry)
    → p < n
    → q < n
    → old p ≡ some e
    → old q ≡ some f
    → e.key ≡ f.key
    → p ≡ q

place-IsOpen :
    (capacity : ℕ) (t : Entries) (e : Entry)
    → used t capacity < capacity
    → (p : ℕ) × (place capacity t e ≡ some (write t p (some e)))
      × IsOpen capacity t (find_slot e.key capacity) p
unfolding place
place-IsOpen capacity t e h =
    let (z, hz, v) = used-lt t capacity h in
    let home = find_slot-lt e.key capacity (omega (arith, hz)) in
    go (free_from t capacity capacity (find_slot e.key capacity))
      (free_from-home capacity t (find_slot e.key capacity) z home hz v)
  where
    go :
        (o : Option ℕ)
        → Opened capacity t (find_slot e.key capacity) o
        → (p : ℕ) × (elim o as (λ _. Option Entries) [
          | none ↦ none
          | some pos ↦ some (write t pos (some e))
        ]
            ≡ some (write t p (some e)))
          × IsOpen capacity t (find_slot e.key capacity) p
    go none h = absurd h
    go (some p) h = (p, refl, h)

add-IsMoved :
    (capacity n : ℕ) (old : Entries) (i : ℕ) (t : Entries) (e : Entry) (p : ℕ)
    → Distinct n old
    → i < n
    → old i ≡ some e
    → IsMoved capacity old i t
    → IsOpen capacity t (find_slot e.key capacity) p
    → IsMoved capacity old (suc i) (write t p (some e))
add-IsMoved capacity n old i t e p d hi a m o = record {
  probed = add-IsProbed capacity t p e m.probed o (λ q f hq b same.
      let (j, hj, c) = m.from q f hq b in
      absurd (omega (arith, hj, d j i f e (omega (arith, hj, hi)) hi c a same)));
  from = λ q f hq b. elim (written t p q e f b) [
    | inl (same, is) ↦ (i, omega arith, a ∙ ap some is)
    | inr (ne, b') ↦ let (j, hj, c) = m.from q f hq b' in (j, omega (arith, hj), c)
  ];
  into = λ q f hq b. elim (Bool-cases (q == i)) [
    | inl same ↦
        (p, o.within, write_self t p (some e) ∙ sym a ∙ sym (ap old ((==_iff q i).0 same)) ∙ b)
    | inr other ↦ Holds-write capacity t p e f o.at (m.into q f (ground (arith, other, hq)) b)
  ];
  counted =
      omega (arith, used-add capacity t p e o.within o.at, m.counted, used-suc old i, ap bit a);
}

skip-IsMoved :
    (capacity : ℕ) (old : Entries) (i : ℕ) (t : Entries)
    → old i ≡ none
    → IsMoved capacity old i t
    → IsMoved capacity old (suc i) t
skip-IsMoved capacity old i t a m = record {
  probed = m.probed;
  from = λ p e hp b. let (j, hj, c) = m.from p e hp b in (j, omega (arith, hj), c);
  into = λ q e hq b. elim (Bool-cases (q == i)) [
    | inl same ↦ absurd (cc (a, b, ap old ((==_iff q i).0 same)))
    | inr other ↦ m.into q e (ground (arith, other, hq)) b
  ];
  counted = omega (arith, m.counted, used-suc old i, ap bit a);
}

rehash-IsMoved :
    (capacity n : ℕ) (old : Entries) (i left : ℕ) (t : Entries)
    → Distinct n old
    → i + left ≡ n
    → used old n < capacity
    → IsMoved capacity old i t
    → (r : Entries) × (rehash capacity old i left t ≡ some r) × IsMoved capacity old n r
unfolding rehash
rehash-IsMoved capacity n old i zero t d s g m =
    let same : i ≡ n = omega (arith, s) in (t, refl, subst (λ k. IsMoved capacity old k t) same m)
rehash-IsMoved capacity n old i (suc left) t d s g m =
    go (old i) refl (λ t'. rehash-IsMoved capacity n old (suc i) left t' d (omega (arith, s)) g)
  where
    go :
        (o : Option Entry)
        → old i ≡ o
        → ((t' : Entries)
            → IsMoved capacity old (suc i) t'
            → (r : Entries) × (rehash capacity old (suc i) left t' ≡ some r)
              × IsMoved capacity old n r)
        → (r : Entries) × (elim o as (λ _. Option Entries) [
          | none ↦ rehash capacity old (suc i) left t
          | some e ↦ elim (place capacity t e) [
            | none ↦ none
            | some placed ↦ rehash capacity old (suc i) left placed
          ]
        ]
            ≡ some r)
          × IsMoved capacity old n r
    go none a rest = rest t (skip-IsMoved capacity old i t a m)
    go (some e) a rest =
        let full : used t capacity < capacity =
          omega (arith, m.counted, used_upto old i (suc left) n s, g) in
        let (p, placed, o) = place-IsOpen capacity t e full in
        let (r, run, moved) =
          rest (write t p (some e))
            (add-IsMoved capacity n old i t e p d (omega (arith, s)) a m o) in
        (
          r,
          ap
                (λ x. elim x as (λ _. Option Entries) [
                  | none ↦ none
                  | some new ↦ rehash capacity old (suc i) left new
                ])
                placed
              ∙ run,
          moved,
        )

-- A move to an array with more slots than entries ends, and keeps the entries and how many they are.
pub rehash-Moved :
    (capacity n : ℕ) (old : Entries)
    → Distinct n old
    → used old n < capacity
    → (r : Entries) × (rehash capacity old 0 n vacant ≡ some r) × IsMoved capacity old n r
rehash-Moved capacity n old d g =
    rehash-IsMoved capacity n old 0 n vacant d (omega arith) g (record {
      probed = record { path = λ p q e a b c. cc; unique = λ p q e f a b c. cc };
      from = λ p e a. cc;
      into = λ q e a b. absurd (omega (arith, a));
      counted = used-vacant capacity ∙ sym (used_zero old);
    })
