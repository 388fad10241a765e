-- ===== src/VariableMap/Hole.antt =====
-- A table with a hole: the state of the deletion's loop.
use mathlib.Core.Path.{subst}
use migash.Prelude.{
  ℕ, ◌<◌, ◌≡◌, sym, ap, ◌≢◌, ◌⊎◌, inl, inr, true, false, none, some, arith, Bool-cases,
}
use migash.VariableMap.{Entry, Entries, occupied, find_slot, next}
use migash.VariableMap.Ring.{passes, passes-beyond}
use migash.VariableMap.Probe.{IsProbed, find_slot-lt}

-- The hole at `h` may break the walks to entries behind `c`, but no walk to an entry between them.
pub record IsHoled (capacity : ℕ) (t : Entries) (h c : ℕ) : Type 0 where
  pub hole_within : h < capacity
  pub within : c < capacity
  pub apart : h ≢ c
  pub hole : t h ≡ none
  pub path :
      (p q : ℕ) (e : Entry)
      → p < capacity
      → q < capacity
      → t p ≡ some e
      → passes (find_slot e.key capacity) p q ≡ true
      → (occupied (t q) ≡ true) ⊎ (q ≡ h)
  pub seen :
      (p : ℕ) (e : Entry)
      → p < capacity
      → t p ≡ some e
      → passes (next capacity h) c p ≡ true
      → passes (find_slot e.key capacity) p h ≡ false
  pub full : (q : ℕ) → q < capacity → passes (next capacity h) c q ≡ true → occupied (t q) ≡ true
  pub unique :
      (p q : ℕ) (e f : Entry)
      → p < capacity
      → q < capacity
      → t p ≡ some e
      → t q ≡ some f
      → e.key ≡ f.key
      → p ≡ q

-- Where the loop meets a vacant slot, the walks are unbroken.
pub ended-IsProbed :
    (capacity : ℕ) (t : Entries) (h c : ℕ)
    → IsHoled capacity t h c
    → t c ≡ none
    → IsProbed capacity t
ended-IsProbed capacity t h c v a = record {
  path = λ p q e hp hq b k. elim (v.path p q e hp hq b k) [
    | inl filled ↦ filled
    | inr same ↦
        let broken = subst (λ x. passes (find_slot e.key capacity) p x ≡ true) same k in
        absurd (broken_none p e hp b broken)
  ];
  unique = v.unique;
}
  where
    broken_none :
        (p : ℕ) (e : Entry)
        → p < capacity
        → t p ≡ some e
        → passes (find_slot e.key capacity) p h ≡ true
        → ⊥
    broken_none p e hp b broken = elim (Bool-cases (passes (next capacity h) c p)) [
      | inl between ↦ cc (v.seen p e hp b between, broken)
      | inr outside ↦
          let beyond =
            passes-beyond capacity (find_slot e.key capacity) h c p v.hole_within v.within hp
              (find_slot-lt e.key capacity (omega (arith, hp))) outside
              (λ same. cc (a, b, ap t same)) (λ same. cc (v.hole, b, ap t same)) broken in
          elim (v.path p c e hp v.within b beyond) [
            | inl filled ↦ cc (filled, ap occupied a)
            | inr same ↦ v.apart (sym same)
          ]
    ]
