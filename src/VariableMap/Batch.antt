-- ===== src/VariableMap/Batch.antt =====
-- What the deletion of several names keeps.
use mathlib.Core.Path.{subst}
use migash.Prelude.{
  ℕ, ◌+◌, ◌-◌, ◌≡◌, ◌⊎◌, inl, inr, refl, sym, ap, ◌∙◌, Bool, true, false, ◌||◌, List, [], ◌∷◌,
  length, Option, none, some, arith, if◌then◌else◌, ◌==◌, ==_iff, Text, string_eq,
}
use migash.VariableMap.{Mapped, Entries, VariableMap, variable_map_at}
use migash.VariableMap.Count.{used}
use migash.VariableMap.Insert.{IsMoved, rehash-Moved}
use migash.VariableMap.Valid.{
  IsValid, Looked, variable_map_at-Looked, variable_map_at-Holds, variable_map_at-congr,
}
use migash.VariableMap.Writes.{Writes}
use migash.VariableMap.Assign.{Ends}
use migash.VariableMap.Delete.{variable_map_erase-Writes}
use migash.VariableMap.Multiple.{
  should_rebuild, erase_each, mark_deleted, rebuilt, erase_marked, variable_map_erase_multiple,
}
use migash.VariableMap.Marks.{among, IsMarked, mark-Marked}

-- A well-formed table in which the other names have what they had, and a name of the list has what
-- it had or nothing.
pub record Spares (map : VariableMap) (keys : List Text) (map' : VariableMap) : Type 0 where
  pub valid : IsValid map'
  pub others : (j : Text) → among j keys ≡ false → variable_map_at map' j ≡ variable_map_at map j
  pub gone :
      (j : Text)
      → (variable_map_at map' j ≡ variable_map_at map j) ⊎ (variable_map_at map' j ≡ none)

-- One by one, the names of the list are all deleted.
pub record Erases (map : VariableMap) (keys : List Text) (map' : VariableMap) : Type 0 where
  pub valid : IsValid map'
  pub at :
      (j : Text) → variable_map_at map' j ≡ (if among j keys then none else variable_map_at map j)

pub erase_each-Erases :
    (map : VariableMap) (keys : List Text)
    → IsValid map
    → Ends (erase_each map keys) (Erases map keys)
unfolding erase_each
erase_each-Erases map [] v = (map, refl, record { valid = v; at = λ j. refl })
erase_each-Erases map (key ∷ keys) v =
    let (map', run, w) = variable_map_erase-Writes map key v in
    let (map'', run', r) = erase_each-Erases map' keys w.valid in
    (
      map'',
      ap (λ o. elim o as (λ _. Option VariableMap) [ none ↦ none | some x ↦ erase_each x keys ]) run
          ∙ run',
      record {
        valid = r.valid;
        at = λ j.
            r.at j
            ∙ ap (λ x. if among j keys then none else x) (w.at j)
            ∙ go j (among j keys) (string_eq key j);
      },
    )
  where
    go :
        (j : Text) (b c : Bool)
        → (if b then none else (if c then none else variable_map_at map j))
          ≡ (if c || b then none else variable_map_at map j)
    go j true true = refl
    go j true false = refl
    go j false true = refl
    go j false false = refl

sized :
    (map : VariableMap) (keys : List Text) (t : Entries) (deleted : ℕ)
    → IsValid map
    → IsMarked map keys 0 t deleted
    → used t map.capacity + deleted ≡ map.size
sized map keys t deleted v m = omega (arith, m.counted, v.counted)

rebuilt-Spares :
    (map : VariableMap) (keys : List Text) (t : Entries) (deleted : ℕ)
    → IsValid map
    → IsMarked map keys 0 t deleted
    → Ends (rebuilt (record map { entries = t }) deleted) (Spares map keys)
unfolding rebuilt
rebuilt-Spares map keys t deleted v m =
    let (r, run, w) =
      rehash-Moved map.capacity map.capacity t
        (λ p q e f hp hq a b same. v.probed.unique p q e f hp hq (m.sub p e a) (m.sub q f b) same)
        (omega (arith, sized map keys t deleted v m, v.load, v.room)) in
    (
      left r,
      ap
          (λ o. elim o as (λ _. Option VariableMap) [
            | none ↦ none
            | some entries' ↦ some (left entries')
          ])
          run,
      spares r w,
    )
  where
    left : Entries → VariableMap
    left r = record { entries = r; size = map.size - deleted; capacity = map.capacity }

    spares : (r : Entries) → IsMoved map.capacity t map.capacity r → Spares map keys (left r)
    spares r w = record {
      valid = valid';
      others = λ j out. variable_map_at-congr map (left r) j v valid' (λ e same. (
        λ (p, hp, a). w.into p e hp (m.spared p e a (ap (λ k. among k keys) same ∙ out)),
        λ (q, hq, b). let (p, hp, a) = w.from q e hq b in (p, hp, m.sub p e a),
      ));
      gone = λ j. looked j (variable_map_at (left r) j) (variable_map_at-Looked (left r) j valid');
    }
      where
        valid' : IsValid (left r)
        valid' = record {
          probed = w.probed;
          counted = omega (arith, w.counted, sized map keys t deleted v m);
          load = omega (arith, v.load);
          room = v.room;
        }

        looked :
            (j : Text) (o : Option Mapped)
            → Looked (left r) j o
            → (o ≡ variable_map_at map j) ⊎ (o ≡ none)
        looked j none l = inr refl
        looked j (some x) (e, (q, hq, b), same, is) =
            let (p, hp, a) = w.from q e hq b in
            inl (
              ap some (sym is)
              ∙ sym (variable_map_at-Holds map e v (p, hp, m.sub p e a))
              ∙ ap (variable_map_at map) same)

erase_marked-Spares :
    (map : VariableMap) (keys : List Text)
    → IsValid map
    → Ends (erase_marked (mark_deleted map 0 keys)) (Spares map keys)
unfolding erase_marked
erase_marked-Spares map keys v =
    let (t, deleted, same, m) = mark-Marked keys map 0 (omega (arith, v.room)) in
    subst (λ r. Ends (erase_marked r) (Spares map keys)) (sym same)
      (go t deleted m (deleted == 0) refl)
  where
    go :
        (t : Entries) (deleted : ℕ)
        → IsMarked map keys 0 t deleted
        → (b : Bool) → (deleted == 0) ≡ b
        → Ends
            (if b
              then some (record map { entries = t })
              else rebuilt (record map { entries = t }) deleted)
            (Spares map keys)
    go t deleted m true e =
        let same : t ≡ map.entries = m.untouched ((==_iff deleted 0).0 e) in
        (
          record map { entries = t },
          refl,
          subst (λ x. Spares map keys (record map { entries = x })) (sym same)
              (record { valid = v; others = λ j out. refl; gone = λ j. inl refl }),
        )
    go t deleted m false e = rebuilt-Spares map keys t deleted v m

erased-Spares :
    (map map' : VariableMap) (keys : List Text) → Erases map keys map' → Spares map keys map'
erased-Spares map map' keys w = record {
  valid = w.valid;
  others = λ j out. w.at j ∙ ap (λ b. if b then none else variable_map_at map j) out;
  gone = λ j. go j (among j keys) (w.at j);
}
  where
    go :
        (j : Text) (b : Bool)
        → variable_map_at map' j ≡ (if b then none else variable_map_at map j)
        → (variable_map_at map' j ≡ variable_map_at map j) ⊎ (variable_map_at map' j ≡ none)
    go j true e = inr e
    go j false e = inl e

-- On a well-formed map the deletion of several names ends, whether it goes one by one or builds the
-- table again, and leaves a well-formed map in which every name outside the list has what it had,
-- and no name has anything but what it had.
pub variable_map_erase_multiple-Spares :
    (map : VariableMap) (keys : List Text)
    → IsValid map
    → Ends (variable_map_erase_multiple map keys) (Spares map keys)
unfolding variable_map_erase_multiple
variable_map_erase_multiple-Spares map [] v =
    (map, refl, record { valid = v; others = λ j out. refl; gone = λ j. inl refl })
variable_map_erase_multiple-Spares map (key ∷ []) v =
    let (one, run', x) = variable_map_erase-Writes map key v in (one, run', single one x)
  where
    single : (map' : VariableMap) → Writes map key none map' → Spares map (key ∷ []) map'
    single map' w =
        erased-Spares map map' (key ∷ [])
          (record { valid = w.valid; at = λ j. w.at j ∙ go j (string_eq key j) })
      where
        go :
            (j : Text) (b : Bool)
            → (if b then none else variable_map_at map j)
              ≡ (if b || false then none else variable_map_at map j)
        go j true = refl
        go j false = refl
variable_map_erase_multiple-Spares map (key ∷ other ∷ keys) v =
    go (should_rebuild (length (key ∷ other ∷ keys)) map)
      (erase_each-Erases map (key ∷ other ∷ keys) v)
  where
    go :
        (b : Bool)
        → Ends (erase_each map (key ∷ other ∷ keys)) (Erases map (key ∷ other ∷ keys))
        → Ends
            (if b
              then erase_marked (mark_deleted map 0 (key ∷ other ∷ keys))
              else erase_each map (key ∷ other ∷ keys))
            (Spares map (key ∷ other ∷ keys))
    go true each = erase_marked-Spares map (key ∷ other ∷ keys) v
    go false (map', run, w) = (map', run, erased-Spares map map' (key ∷ other ∷ keys) w)
