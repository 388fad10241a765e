-- ===== src/VariableMap/Writes.antt =====
-- A new entry as a write to a finite map from names to values and flags.
use migash.Prelude.{
  ℕ, ◌+◌, ◌*◌, ◌≤◌, ◌≡◌, refl, sym, ap, ◌∙◌, ◌≢◌, inl, inr, ◌↔◌, Bool, true, false, Option, none,
  some, arith, if◌then◌else◌, Text, string_eq, string_eq_iff,
}
use migash.VariableMap.{Mapped, Entry, VariableMap, write, variable_map_at, set_entry}
use migash.VariableMap.Probe.{IsTaken, IsFree, IsFree-IsOpen}
use migash.VariableMap.Count.{write_self}
use migash.VariableMap.Insert.{Holds, Lacks, written, add-IsProbed, Holds-write, used-add}
use migash.VariableMap.Valid.{
  IsValid, IsFree-Lacks, variable_map_at-Holds, variable_map_at-Lacks, variable_map_at-congr,
}

abbrev pub present : Option Mapped → ℕ
present none = 0
present (some m) = 1

-- The second map is the first with `o` at the key, and its size is that of the finite map.
pub record Writes (map : VariableMap) (key : Text) (o : Option Mapped) (map' : VariableMap)
    : Type 0 where
  pub valid : IsValid map'
  pub at :
      (j : Text) → variable_map_at map' j ≡ (if string_eq key j then o else variable_map_at map j)
  pub sized : map'.size + present (variable_map_at map key) ≡ map.size + present o

pub string_eq-false : (a b : Text) → string_eq a b ≡ false → a ≢ b
string_eq-false a b h e = cc (h, (string_eq_iff a b).1 e)

-- It is enough to look at the key, and at the entries with other keys.
pub Writes-at :
    (map : VariableMap) (key : Text) (o : Option Mapped) (map' : VariableMap)
    → IsValid map
    → IsValid map'
    → variable_map_at map' key ≡ o
    → ((e : Entry)
        → e.key ≢ key
        → Holds map.capacity map.entries e ↔ Holds map'.capacity map'.entries e)
    → (j : Text) → variable_map_at map' j ≡ (if string_eq key j then o else variable_map_at map j)
Writes-at map key o map' v v' found others j = go (string_eq key j) refl
  where
    go :
        (b : Bool)
        → string_eq key j ≡ b
        → variable_map_at map' j ≡ (if b then o else variable_map_at map j)
    go true e = ap (variable_map_at map') (sym ((string_eq_iff key j).0 e)) ∙ found
    go false e =
        variable_map_at-congr map map' j v v'
          (λ f same. others f (λ k. string_eq-false key j e (sym k ∙ same)))

pub taken-at :
    (map : VariableMap) (key : Text) (p : ℕ)
    → IsValid map
    → (h : IsTaken map.capacity map.entries key p) → variable_map_at map key ≡ some h.entry.mapped
taken-at map key p v h =
    ap (variable_map_at map) (sym h.same) ∙ variable_map_at-Holds map h.entry v (p, h.within, h.at)

pub set_entry-Writes :
    (map : VariableMap) (key : Text) (m : Mapped) (p : ℕ)
    → IsValid map
    → 4 * (map.size + 1) ≤ 3 * map.capacity
    → IsFree map.capacity map.entries key p
    → Writes map key (some m) (set_entry map p key m)
unfolding set_entry
set_entry-Writes map key m p v room h = record {
  valid = valid';
  at =
      Writes-at map key (some m) map' v valid'
        (variable_map_at-Holds map' new valid' (p, h.within, write_self map.entries p (some new)))
        (λ f ne. (
          Holds-write map.capacity map.entries p new f h.at,
          λ (q, hq, b). elim (written map.entries p q new f b) [
            | inl (here, is) ↦ absurd (ne (sym (ap (λ x. x.key) is)))
            | inr (other, old) ↦ (q, hq, old)
          ],
        ));
  sized = omega (arith, ap present (variable_map_at-Lacks map key v absent));
}
  where
    new : Entry
    new = record { key = key; mapped = m }

    map' : VariableMap
    map' = record {
      entries = write map.entries p (some new);
      size = map.size + 1;
      capacity = map.capacity;
    }

    absent : Lacks map.capacity map.entries key
    absent = IsFree-Lacks map.capacity map.entries key p v.probed h

    valid' : IsValid map'
    valid' = record {
      probed =
          add-IsProbed map.capacity map.entries p new v.probed
            (IsFree-IsOpen map.capacity map.entries key p h) absent;
      counted = omega (arith, used-add map.capacity map.entries p new h.within h.at, v.counted);
      load = room;
      room = v.room;
    }
