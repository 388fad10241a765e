-- ===== src/VariableMap/Delete.antt =====
-- The deletions as writes to the finite map.
use mathlib.Core.Path.{subst}
use migash.Prelude.{
  ℕ, suc, ◌-◌, ◌≤◌, ◌<◌, ◌≡◌, refl, sym, ap, ◌∙◌, ◌≢◌, inl, inr, Option, none, some, arith, ◌==◌,
  ==_iff, Bool-cases, Text,
}
use migash.VariableMap.{
  Mapped, Entry, Entries, VariableMap, occupied, write, next, backward_shift_deletion,
  variable_map_find, variable_map_at, variable_map_erase_at_pos, variable_map_erase,
  variable_map_extract,
}
use migash.VariableMap.Ring.{next-lt, next-ne, passes-start}
use migash.VariableMap.Probe.{IsProbed, IsTaken, steps-lt}
use migash.VariableMap.Count.{bit, used, used-write, write_self, write-ne}
use migash.VariableMap.Insert.{Lacks, some-eq}
use migash.VariableMap.Hole.{IsHoled}
use migash.VariableMap.Erase.{IsMended, shift_back-IsMended}
use migash.VariableMap.Valid.{
  IsValid, vacancy, Located, variable_map_find-Located, variable_map_at-Lacks,
}
use migash.VariableMap.Writes.{Writes, Writes-at, present, taken-at}
use migash.VariableMap.Assign.{Ends}
use migash.VariableMap.Grow.{Writes-same}

-- An entry of the table with one entry cleared.
pub uncleared :
    (t : Entries) (p q : ℕ) (f : Entry) → write t p none q ≡ some f → (q ≢ p) × (t q ≡ some f)
uncleared t p q f b = elim (Bool-cases (q == p)) [
  | inl x ↦ absurd (cc (b, ap (write t p none) ((==_iff q p).0 x), write_self t p none))
  | inr x ↦ let ne : q ≢ p = ground (arith, x) in (ne, sym (write-ne t p q none ne) ∙ b)
]

cleared-IsHoled :
    (capacity : ℕ) (t : Entries) (p z : ℕ)
    → IsProbed capacity t
    → p < capacity
    → z < capacity
    → z ≢ p
    → IsHoled capacity (write t p none) p (next capacity p)
cleared-IsHoled capacity t p z v hp hz ne = record {
  hole_within = hp;
  within = next-lt capacity p hp;
  apart = next-ne capacity p z hp hz ne;
  hole = write_self t p none;
  path = λ x y e hx hy b k.
      let (other, old) = uncleared t p x e b in
      elim (Bool-cases (y == p)) [
        | inl same ↦ inr ((==_iff y p).0 same)
        | inr ne' ↦
            inl (ap occupied (write-ne t p y none (ground (arith, ne'))) ∙ v.path x y e hx hy old k)
      ];
  seen = λ x e hx b k. absurd (cc (k, passes-start (next capacity p) x));
  full = λ y hy k. absurd (cc (k, passes-start (next capacity p) y));
  unique = λ x y e f hx hy a b same.
      v.unique x y e f hx hy (uncleared t p x e a).1 (uncleared t p y f b).1 same;
}

-- The map after the loop, from the entries that it leaves.
abbrev erased : VariableMap → Entries → VariableMap
erased map r = record { entries = r; size = map.size - 1; capacity = map.capacity }

erased-Writes :
    (map : VariableMap) (key : Text) (p : ℕ) (r : Entries)
    → IsValid map
    → (h : IsTaken map.capacity map.entries key p)
    → IsMended map.capacity (write map.entries p none) r
    → Writes map key none (erased map r)
erased-Writes map key p r v h w = record {
  valid = valid';
  at =
      Writes-at map key none (erased map r) v valid'
        (variable_map_at-Lacks (erased map r) key valid' lacks)
        (λ f ne. (
          λ (q, hq, b).
              (w.holds f).1
                (q, hq, write-ne map.entries p q none (λ here. ne (key_of f q b here)) ∙ b),
          λ g. let (q, hq, b) = (w.holds f).0 g in (q, hq, (uncleared map.entries p q f b).1),
        ));
  sized = omega (arith, ap present (taken-at map key p v h), positive);
}
  where
    less : suc (used r map.capacity) ≡ used map.entries map.capacity
    less =
        omega (arith, w.counted, used-write map.entries p map.capacity none h.within, ap bit h.at)

    positive : 1 ≤ map.size
    positive = omega (arith, less, v.counted)

    key_of : (f : Entry) (q : ℕ) → map.entries q ≡ some f → q ≡ p → f.key ≡ key
    key_of f q b here =
        ap (λ x. x.key) (some-eq f h.entry (sym b ∙ ap map.entries here ∙ h.at)) ∙ h.same

    valid' : IsValid (erased map r)
    valid' = record {
      probed = w.probed;
      counted = omega (arith, less, v.counted);
      load = omega (arith, v.load);
      room = v.room;
    }

    lacks : Lacks map.capacity r key
    lacks q f hq b same =
        let (x, hx, c) = (w.holds f).0 (q, hq, b) in
        let (other, old) = uncleared map.entries p x f c in
        other (v.probed.unique x p f h.entry hx h.within old h.at (same ∙ sym h.same))

shift-Ends :
    (map : VariableMap) (key : Text) (p : ℕ)
    → IsValid map
    → (h : IsTaken map.capacity map.entries key p)
    → Ends (backward_shift_deletion (erased map (write map.entries p none)) p) (Writes map key none)
unfolding backward_shift_deletion
shift-Ends map key p v h =
    let (z, hz, a) = vacancy map v in
    let ne : z ≢ p = λ same. cc (a, h.at, ap map.entries same) in
    let (r, run, w) =
      shift_back-IsMended map.capacity map.capacity p (next map.capacity p) z
        (write map.entries p none)
        (cleared-IsHoled map.capacity map.entries p z v.probed h.within hz ne) hz
        (write-ne map.entries p z none ne ∙ a) ne
        (steps-lt map.capacity (next map.capacity p) z (next-lt map.capacity p h.within) hz) in
    (
      erased map r,
      ap
          (λ o. elim o as (λ _. Option VariableMap) [
            | none ↦ none
            | some entries' ↦ some (erased map entries')
          ])
          run,
      erased-Writes map key p r v h w,
    )

erase_at_pos-Ends :
    (map : VariableMap) (key : Text) (p : ℕ)
    → IsValid map
    → IsTaken map.capacity map.entries key p
    → Ends (variable_map_erase_at_pos map p) (Writes map key none)
unfolding variable_map_erase_at_pos
erase_at_pos-Ends map key p v h =
    subst
      (λ o.
        Ends
          (elim o as (λ _. Option VariableMap) [
            | none ↦ some map
            | some e ↦ backward_shift_deletion (erased map (write map.entries p none)) p
          ])
          (Writes map key none))
      (sym h.at) (shift-Ends map key p v h)

-- On a well-formed map `variable_map_erase` ends, and clears the key.
pub variable_map_erase-Writes :
    (map : VariableMap) (key : Text)
    → IsValid map
    → Ends (variable_map_erase map key) (Writes map key none)
unfolding variable_map_erase
variable_map_erase-Writes map key v =
    go (variable_map_find map key) (variable_map_find-Located map key v)
  where
    go :
        (o : Option ℕ)
        → Located map key o
        → Ends
            (elim o as (λ _. Option VariableMap) [
              | none ↦ some map
              | some pos ↦ variable_map_erase_at_pos map pos
            ])
            (Writes map key none)
    go none l = (map, refl, Writes-same map key none v (variable_map_at-Lacks map key v l))
    go (some p) h = erase_at_pos-Ends map key p v h

abbrev pub Extracts : VariableMap → Text → VariableMap × Option Mapped → Type 0
Extracts map key r = Writes map key none r.0 × (r.1 ≡ variable_map_at map key)

extract_at :
    (map : VariableMap) (key : Text) (p : ℕ)
    → IsValid map
    → IsTaken map.capacity map.entries key p
    → Ends
        (elim (map.entries p) as (λ _. Option (VariableMap × Option Mapped)) [
          | none ↦ some (map, none)
          | some e ↦ elim (variable_map_erase_at_pos map p) [
            | none ↦ none
            | some map' ↦ some (map', some e.mapped)
          ]
        ])
        (Extracts map key)
extract_at map key p v h =
    let (map', run, w) = erase_at_pos-Ends map key p v h in
    (
      (map', some h.entry.mapped),
      ap
            (λ o. elim o as (λ _. Option (VariableMap × Option Mapped)) [
              | none ↦ some (map, none)
              | some e ↦ elim (variable_map_erase_at_pos map p) [
                | none ↦ none
                | some x ↦ some (x, some e.mapped)
              ]
            ])
            h.at
          ∙ ap
              (λ o. elim o as (λ _. Option (VariableMap × Option Mapped)) [
                | none ↦ none
                | some x ↦ some (x, some h.entry.mapped)
              ])
              run,
      (w, sym (taken-at map key p v h)),
    )

-- On a well-formed map `variable_map_extract` ends, gives what the key had and clears the key.
pub variable_map_extract-Extracts :
    (map : VariableMap) (key : Text)
    → IsValid map
    → Ends (variable_map_extract map key) (Extracts map key)
unfolding variable_map_extract
variable_map_extract-Extracts map key v =
    go (variable_map_find map key) (variable_map_find-Located map key v)
  where
    go :
        (o : Option ℕ)
        → Located map key o
        → Ends
            (elim o as (λ _. Option (VariableMap × Option Mapped)) [
              | none ↦ some (map, none)
              | some pos ↦ elim (map.entries pos) [
                | none ↦ some (map, none)
                | some e ↦ elim (variable_map_erase_at_pos map pos) [
                  | none ↦ none
                  | some map' ↦ some (map', some e.mapped)
                ]
              ]
            ])
            (Extracts map key)
    go none l =
        let e = variable_map_at-Lacks map key v l in
        ((map, none), refl, (Writes-same map key none v e, sym e))
    go (some p) h = extract_at map key p v h
