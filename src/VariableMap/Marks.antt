-- ===== src/VariableMap/Marks.antt =====
-- The loop that marks entries as not occupied.
use migash.Prelude.{
  ℕ, zero, suc, ◌+◌, ◌≤◌, ◌<◌, ◌≡◌, refl, sym, ap, ◌∙◌, Bool, true, false, ◌||◌, List, [], ◌∷◌,
  Option, none, some, arith, if◌then◌else◌, Text, string_eq, string_eq_iff,
}
use migash.VariableMap.{
  Entry, Entries, VariableMap, write, next, find_slot, probe, probe_map, variable_map_find,
}
use migash.VariableMap.Ring.{next-lt}
use migash.VariableMap.Probe.{find_slot-lt}
use migash.VariableMap.Count.{used, used-write, bit, write-ne}
use migash.VariableMap.Delete.{uncleared}
use migash.VariableMap.Multiple.{mark_deleted}

abbrev pub among : Text → List Text → Bool
among key [] = false
among key (k ∷ keys) = string_eq k key || among key keys

-- A search that finds a position finds an entry with the key there, in any table.
Hit : ℕ → Entries → Text → Option (ℕ × Bool) → Type 0
Hit capacity t key none = Unit
Hit capacity t key (some (p, false)) = Unit
Hit capacity t key (some (p, true)) = (p < capacity) × (e : Entry) × (t p ≡ some e) × (e.key ≡ key)

probe-Hit :
    (t : Entries) (capacity : ℕ) (key : Text) (left pos : ℕ)
    → pos < capacity
    → Hit capacity t key (probe t capacity key left pos)
unfolding probe Hit
probe-Hit t capacity key zero pos h = tt
probe-Hit t capacity key (suc left) pos h =
    go (t pos) refl (probe t capacity key left (next capacity pos))
      (probe-Hit t capacity key left (next capacity pos) (next-lt capacity pos h))
  where
    entry :
        (e : Entry) (b : Bool)
        → t pos ≡ some e
        → string_eq e.key key ≡ b
        → (later : Option (ℕ × Bool)) → Hit capacity t key later
        → Hit capacity t key (if b then some (pos, true) else later)
    entry e true a k later r = (h, e, a, (string_eq_iff e.key key).0 k)
    entry e false a k later r = r

    go :
        (o : Option Entry)
        → t pos ≡ o
        → (later : Option (ℕ × Bool)) → Hit capacity t key later
        → Hit capacity t key (elim o as (λ _. Option (ℕ × Bool)) [
          | none ↦ some (pos, false)
          | some e ↦ if string_eq e.key key then some (pos, true) else later
        ])
    go none a later r = tt
    go (some e) a later r = entry e (string_eq e.key key) a refl later r

-- What `variable_map_find` gives in any table.
HitAt : VariableMap → Text → Option ℕ → Type 0
HitAt map key none = Unit
HitAt map key (some p) = (p < map.capacity) × (e : Entry) × (map.entries p ≡ some e) × (e.key ≡ key)

find-HitAt :
    (map : VariableMap) (key : Text) → 0 < map.capacity → HitAt map key (variable_map_find map key)
unfolding variable_map_find probe_map Hit HitAt
find-HitAt map key h = go (probe_map map key) (
    probe-Hit map.entries map.capacity key map.capacity (find_slot key map.capacity)
      (find_slot-lt key map.capacity h))
  where
    go :
        (o : Option (ℕ × Bool))
        → Hit map.capacity map.entries key o
        → HitAt map key
            (elim o [ none ↦ none | some found ↦ if found.1 then some found.0 else none ])
    go none h = tt
    go (some (p, false)) h = tt
    go (some (p, true)) h = h

-- The entries and the number after the loop that marks, from those before it.
pub record IsMarked (map : VariableMap) (keys : List Text) (before : ℕ) (t : Entries) (deleted : ℕ)
    : Type 0 where
  pub sub : (i : ℕ) (e : Entry) → t i ≡ some e → map.entries i ≡ some e
  pub spared :
      (i : ℕ) (e : Entry) → map.entries i ≡ some e → among e.key keys ≡ false → t i ≡ some e
  pub counted : used t map.capacity + deleted ≡ used map.entries map.capacity + before
  pub more : before ≤ deleted
  pub untouched : deleted ≡ before → t ≡ map.entries

abbrev pub Marked : VariableMap → List Text → ℕ → VariableMap × ℕ → Type 0
Marked map keys before r =
    (t : Entries) × (deleted : ℕ) × (r ≡ (record map { entries = t }, deleted))
    × IsMarked map keys before t deleted

or_false : (a b : Bool) → (a || b) ≡ false → (a ≡ false) × (b ≡ false)
or_false true b h = cc
or_false false b h = (refl, h)

pub mark-Marked :
    (keys : List Text) (map : VariableMap) (before : ℕ)
    → 0 < map.capacity
    → Marked map keys before (mark_deleted map before keys)
unfolding mark_deleted HitAt
mark-Marked [] map before h = (
  map.entries,
  before,
  refl,
  record {
    sub = λ i e a. a;
    spared = λ i e a k. a;
    counted = refl;
    more = omega arith;
    untouched = λ k. refl;
  },
)
mark-Marked (key ∷ keys) map before h =
    go (variable_map_find map key) (find-HitAt map key h) (mark-Marked keys map before h)
      (λ t. mark-Marked keys (record map { entries = t }) (before + 1) h)
  where
    go :
        (o : Option ℕ)
        → HitAt map key o
        → Marked map keys before (mark_deleted map before keys)
        → ((t : Entries)
            → Marked
                (record map { entries = t })
                keys
                (before + 1)
                (mark_deleted (record map { entries = t }) (before + 1) keys))
        → Marked map (key ∷ keys) before (elim o as (λ _. VariableMap × ℕ) [
          | none ↦ mark_deleted map before keys
          | some pos ↦
              mark_deleted (record map { entries = write map.entries pos none }) (before + 1) keys
        ])
    go none hit (t, deleted, same, m) later = (
      t,
      deleted,
      same,
      record {
        sub = m.sub;
        spared = λ i e a k. m.spared i e a (or_false (string_eq key e.key) (among e.key keys) k).1;
        counted = m.counted;
        more = m.more;
        untouched = m.untouched;
      },
    )
    go (some p) (hp, e, a, k) here later =
        let (t, deleted, same, m) = later (write map.entries p none) in
        (
          t,
          deleted,
          same,
          record {
            sub = λ i f b. (uncleared map.entries p i f (m.sub i f b)).1;
            spared = λ i f b out.
                let (apart, out') = or_false (string_eq key f.key) (among f.key keys) out in
                m.spared i f
                  (write-ne map.entries p i none (λ here.
                      cc (apart, (string_eq_iff key e.key).1 (sym k), b, a, ap map.entries here))
                    ∙ b)
                  out';
            counted =
                omega (arith, m.counted, used-write map.entries p map.capacity none hp, ap bit a);
            more = omega (arith, m.more);
            untouched = λ x. absurd (omega (arith, x, m.more));
          },
        )
