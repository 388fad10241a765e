-- ===== src/VariableMap/Assign.antt =====
-- insert_or_assign and insert on a map, whether or not it grows first.
use mathlib.Core.Path.{subst}
use migash.Prelude.{
  ℕ, ◌+◌, ◌*◌, ◌≤◌, ◌<◌, ◌≡◌, refl, sym, ap, ◌∙◌, inl, inr, Bool, true, false, Option, none, some,
  arith, if◌then◌else◌, Text,
}
use migash.VariableMap.{
  Mapped, Entry, Entries, VariableMap, write, find_slot, probe_map, variable_map_at, set_entry,
  assign_entry, insert_or_assign_in,
}
use migash.VariableMap.Ring.{passes}
use migash.VariableMap.Probe.{IsProbed, IsTaken, Found}
use migash.VariableMap.Count.{bit, used-write, write_self, write-ne}
use migash.VariableMap.Insert.{some-eq, written, occupied-write}
use migash.VariableMap.Valid.{IsValid, probe_map-Found, variable_map_at-Holds}
use migash.VariableMap.Writes.{Writes, Writes-at, present, taken-at, set_entry-Writes}

-- A write over an entry with the same key.
over-IsProbed :
    (capacity : ℕ) (t : Entries) (p : ℕ) (e f : Entry)
    → p < capacity
    → t p ≡ some e
    → e.key ≡ f.key
    → IsProbed capacity t
    → IsProbed capacity (write t p (some f))
over-IsProbed capacity t p e f hp a same v = record {
  path = λ x y g hx hy b k.
      let (old, k', c) = before x g b in
      occupied-write t p y f
        (v.path x y old hx hy c (subst (λ n. passes (find_slot n capacity) x y ≡ true) (sym k') k));
  unique = λ x y g g' hx hy b b' k.
      let (old, k₁, c) = before x g b in
      let (old', k₂, c') = before y g' b' in v.unique x y old old' hx hy c c' (k₁ ∙ k ∙ sym k₂);
}
  where
    before :
        (x : ℕ) (g : Entry)
        → write t p (some f) x ≡ some g
        → (old : Entry) × (old.key ≡ g.key) × (t x ≡ some old)
    before x g b = elim (written t p x f g b) [
      | inl (here, is) ↦ (e, same ∙ ap (λ y. y.key) is, ap t here ∙ a)
      | inr (ne, old) ↦ (g, refl, old)
    ]

overwritten : VariableMap → ℕ → Entry → Mapped → VariableMap
overwritten map p e m = record map {
  entries = write map.entries p (some (record e { mapped = m }));
}

overwritten-Writes :
    (map : VariableMap) (key : Text) (m : Mapped) (p : ℕ)
    → IsValid map
    → (h : IsTaken map.capacity map.entries key p)
    → Writes map key (some m) (overwritten map p h.entry m)
unfolding overwritten
overwritten-Writes map key m p v h = record {
  valid = valid';
  at =
      Writes-at map key (some m) map' v valid'
        (ap (variable_map_at map') (sym h.same)
          ∙ variable_map_at-Holds map' new valid'
              (p, h.within, write_self map.entries p (some new)))
        (λ f ne. (
          λ (q, hq, b).
              (q, hq, write-ne map.entries p q (some new) (λ here. ne (key_of f q b here)) ∙ b),
          λ (q, hq, b). elim (written map.entries p q new f b) [
            | inl (here, is) ↦ absurd (ne (sym (ap (λ x. x.key) is) ∙ h.same))
            | inr (other, old) ↦ (q, hq, old)
          ],
        ));
  sized = omega (arith, ap present (taken-at map key p v h));
}
  where
    new : Entry
    new = record h.entry { mapped = m }

    map' : VariableMap
    map' = record map { entries = write map.entries p (some new) }

    key_of : (f : Entry) (q : ℕ) → map.entries q ≡ some f → q ≡ p → f.key ≡ key
    key_of f q b here =
        ap (λ x. x.key) (some-eq f h.entry (sym b ∙ ap map.entries here ∙ h.at)) ∙ h.same

    valid' : IsValid map'
    valid' = record {
      probed = over-IsProbed map.capacity map.entries p h.entry new h.within h.at refl v.probed;
      counted = omega (
        arith,
        used-write map.entries p map.capacity (some new) h.within,
        ap bit h.at,
        v.counted,
      );
      load = v.load;
      room = v.room;
    }

pub assign_entry-Writes :
    (map : VariableMap) (key : Text) (m : Mapped) (p : ℕ)
    → IsValid map
    → IsTaken map.capacity map.entries key p
    → Writes map key (some m) (assign_entry map p m)
unfolding assign_entry overwritten
assign_entry-Writes map key m p v h =
    subst
      (λ o. Writes map key (some m) (record map {
        entries = elim o [
          | none ↦ map.entries
          | some e ↦ write map.entries p (some (record e { mapped = m }))
        ];
      }))
      (sym h.at) (overwritten-Writes map key m p v h)

-- The result of an operation that ends, and what holds of it.
abbrev pub Ends {ℓ} : {A : Type ℓ} → Option A → (A → Type 0) → Type ℓ
Ends {A = A} o P = (a : A) × (o ≡ some a) × P a

pub insert_or_assign_in-Ends :
    (map : VariableMap) (key : Text) (m : Mapped)
    → IsValid map
    → 4 * (map.size + 1) ≤ 3 * map.capacity
    → Ends (insert_or_assign_in map key m) (λ r. Writes map key (some m) r.0)
unfolding insert_or_assign_in
insert_or_assign_in-Ends map key m v room = go (probe_map map key) (probe_map-Found map key v)
  where
    go :
        (o : Option (ℕ × Bool))
        → Found map.capacity map.entries key o
        → Ends
            (elim o as (λ _. Option (VariableMap × ℕ)) [
              | none ↦ none
              | some (pos, found) ↦
                  if found
                  then some (assign_entry map pos m, pos)
                  else some (set_entry map pos key m, pos)
            ])
            (λ r. Writes map key (some m) r.0)
    go none h = absurd h
    go (some (p, true)) h = ((assign_entry map p m, p), refl, assign_entry-Writes map key m p v h)
    go (some (p, false)) h =
        ((set_entry map p key m, p), refl, set_entry-Writes map key m p v room h)
