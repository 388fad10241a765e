-- ===== src/VariableMap/Grow.antt =====
-- The growth of a map, and the insertions on any well-formed map.
use mathlib.Core.Path.{subst}
use migash.Prelude.{
  ℕ, ◌+◌, ◌*◌, ◌/◌, ◌≤◌, ◌<◌, ◌≡◌, refl, sym, ap, ◌∙◌, Bool, true, false, Option, none, some, arith,
  if◌then◌else◌, leb, Text, string_eq, string_eq_iff,
}
use migash.VariableMap.{
  Mapped, Entries, VariableMap, variable_map_resize, grown, probe_map, variable_map_at, set_entry,
  insert_or_assign_in, insert_in, variable_map_insert_or_assign, variable_map_insert,
}
use migash.VariableMap.Probe.{Found}
use migash.VariableMap.Count.{used-le}
use migash.VariableMap.Insert.{IsMoved, rehash-Moved}
use migash.VariableMap.Valid.{
  IsValid, probe_map-Found, variable_map_at-congr, IsFree-Lacks, variable_map_at-Lacks,
}
use migash.VariableMap.Writes.{Writes, present, taken-at, set_entry-Writes}
use migash.VariableMap.Assign.{Ends, insert_or_assign_in-Ends}

-- The same finite map with room for one more name.
pub record IsRoomy (map map' : VariableMap) : Type 0 where
  pub valid : IsValid map'
  pub at : (j : Text) → variable_map_at map' j ≡ variable_map_at map j
  pub sized : map'.size ≡ map.size
  pub room : 4 * (map'.size + 1) ≤ 3 * map'.capacity

resized-IsRoomy :
    (map : VariableMap) (t : Entries)
    → IsValid map
    → IsMoved (map.capacity * 2) map.entries map.capacity t
    → IsRoomy map (record { entries = t; size = map.size; capacity = map.capacity * 2 })
resized-IsRoomy map t v m = record {
  valid = valid';
  at = λ j.
      variable_map_at-congr map map' j v valid'
        (λ e same. (λ (p, hp, a). m.into p e hp a, λ (q, hq, b). m.from q e hq b));
  sized = refl;
  room = omega (arith, v.load, v.room);
}
  where
    map' : VariableMap
    map' = record { entries = t; size = map.size; capacity = map.capacity * 2 }

    valid' : IsValid map'
    valid' = record {
      probed = m.probed;
      counted = m.counted ∙ v.counted;
      load = omega (arith, v.load);
      room = omega (arith, v.room);
    }

resize-IsRoomy :
    (map : VariableMap)
    → IsValid map
    → Ends (variable_map_resize map (map.capacity * 2)) (IsRoomy map)
unfolding variable_map_resize
resize-IsRoomy map v =
    let (t, run, m) =
      rehash-Moved (map.capacity * 2) map.capacity map.entries v.probed.unique
        (omega (arith, v.room, used-le map.entries map.capacity)) in
    (
      record { entries = t; size = map.size; capacity = map.capacity * 2 },
      ap
          (λ o. elim o as (λ _. Option VariableMap) [
            | none ↦ none
            | some new_entries ↦
                some
                  (record { entries = new_entries; size = map.size; capacity = map.capacity * 2 })
          ])
          run,
      resized-IsRoomy map t v m,
    )

grown-IsRoomy : (map : VariableMap) → IsValid map → Ends (grown map) (IsRoomy map)
unfolding grown
grown-IsRoomy map v = go (leb (map.capacity * 3 / 4) map.size) refl
  where
    go :
        (b : Bool)
        → leb (map.capacity * 3 / 4) map.size ≡ b
        → Ends (if b then variable_map_resize map (map.capacity * 2) else some map) (IsRoomy map)
    go true e = resize-IsRoomy map v
    go false e =
        let small : map.size < map.capacity * 3 / 4 = ground (arith, e) in
        (map, refl, record { valid = v; at = λ j. refl; sized = refl; room = omega (arith, small) })

Writes-grown :
    (map map' map'' : VariableMap) (key : Text) (o : Option Mapped)
    → IsRoomy map map'
    → Writes map' key o map''
    → Writes map key o map''
Writes-grown map map' map'' key o r w = record {
  valid = w.valid;
  at = λ j. w.at j ∙ ap (λ x. if string_eq key j then o else x) (r.at j);
  sized = omega (arith, w.sized, r.sized, ap present (r.at key));
}

-- On a well-formed map `variable_map_insert_or_assign` ends, and writes the key.
pub variable_map_insert_or_assign-Writes :
    (map : VariableMap) (key : Text) (m : Mapped)
    → IsValid map
    → Ends (variable_map_insert_or_assign map key m) (λ r. Writes map key (some m) r.0)
unfolding variable_map_insert_or_assign
variable_map_insert_or_assign-Writes map key m v =
    let (map', run, r) = grown-IsRoomy map v in
    let (a, run', w) = insert_or_assign_in-Ends map' key m r.valid r.room in
    (
      a,
      ap
            (λ o. elim o as (λ _. Option (VariableMap × ℕ)) [
              | none ↦ none
              | some x ↦ insert_or_assign_in x key m
            ])
            run
          ∙ run',
      Writes-grown map map' a.0 key (some m) r w,
    )

-- A key that is there stays as it is.
abbrev pub kept : Mapped → Option Mapped → Option Mapped
kept m none = some m
kept m (some old) = some old

abbrev pub is_absent : Option Mapped → Bool
is_absent none = true
is_absent (some old) = false

abbrev pub Inserts : VariableMap → Text → Mapped → VariableMap × ℕ × Bool → Type 0
Inserts map key m r =
    Writes map key (kept m (variable_map_at map key)) r.0
    × (r.2 ≡ is_absent (variable_map_at map key))

-- A write of what is there.
pub Writes-same :
    (map : VariableMap) (key : Text) (o : Option Mapped)
    → IsValid map
    → variable_map_at map key ≡ o
    → Writes map key o map
Writes-same map key o v e = record {
  valid = v;
  at = λ j. go j (string_eq key j) refl;
  sized = omega (arith, ap present e);
}
  where
    go :
        (j : Text) (b : Bool)
        → string_eq key j ≡ b
        → variable_map_at map j ≡ (if b then o else variable_map_at map j)
    go j true k = ap (variable_map_at map) (sym ((string_eq_iff key j).0 k)) ∙ e
    go j false k = refl

insert_in-Ends :
    (map : VariableMap) (key : Text) (m : Mapped)
    → IsValid map
    → 4 * (map.size + 1) ≤ 3 * map.capacity
    → Ends (insert_in map key m) (Inserts map key m)
unfolding insert_in
insert_in-Ends map key m v room = go (probe_map map key) (probe_map-Found map key v)
  where
    go :
        (o : Option (ℕ × Bool))
        → Found map.capacity map.entries key o
        → Ends
            (elim o as (λ _. Option (VariableMap × ℕ × Bool)) [
              | none ↦ none
              | some (pos, found) ↦
                  if found
                  then some (map, pos, false)
                  else some (set_entry map pos key m, pos, true)
            ])
            (Inserts map key m)
    go none h = absurd h
    go (some (p, true)) h =
        let e = taken-at map key p v h in
        (
          (map, p, false),
          refl,
          (Writes-same map key _ v (e ∙ sym (ap (kept m) e)), sym (ap is_absent e)),
        )
    go (some (p, false)) h =
        let e =
          variable_map_at-Lacks map key v
            (IsFree-Lacks map.capacity map.entries key p v.probed h) in
        (
          (set_entry map p key m, p, true),
          refl,
          (
            subst (λ o. Writes map key o (set_entry map p key m)) (sym (ap (kept m) e))
                (set_entry-Writes map key m p v room h),
            sym (ap is_absent e),
          ),
        )

-- On a well-formed map `variable_map_insert` ends, and writes the key only where it is new.
pub variable_map_insert-Inserts :
    (map : VariableMap) (key : Text) (m : Mapped)
    → IsValid map
    → Ends (variable_map_insert map key m) (Inserts map key m)
unfolding variable_map_insert
variable_map_insert-Inserts map key m v =
    let (map', run, r) = grown-IsRoomy map v in
    let (a, run', (w, s)) = insert_in-Ends map' key m r.valid r.room in
    (
      a,
      ap
            (λ o. elim o as (λ _. Option (VariableMap × ℕ × Bool)) [
              | none ↦ none
              | some x ↦ insert_in x key m
            ])
            run
          ∙ run',
      (
        Writes-grown map map' a.0 key (kept m (variable_map_at map key)) r
            (subst (λ o. Writes map' key (kept m o) a.0) (r.at key) w),
        s ∙ ap is_absent (r.at key),
      ),
    )
