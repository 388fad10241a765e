-- ===== src/VariableMap/Runs.antt =====
-- The hash table against a finite map from names to what is mapped, over sequences of operations.
use mathlib.Core.Path.{subst}
use migash.Prelude.{
  ℕ, ◌≡◌, refl, sym, ap, ◌∙◌, Bool, true, false, List, [], ◌∷◌, Option, none, some, arith,
  if◌then◌else◌, Text, string_eq,
}
use migash.VariableMap.{
  Mapped, VariableMap, variable_map_find, variable_map_at, variable_map_contains,
  variable_map_create, variable_map_clear, vacant,
}
use migash.VariableMap.Count.{used-vacant}
use migash.VariableMap.Valid.{
  IsValid, Located, variable_map_find-Located, variable_map_at-Lacks, variable_map_create-IsValid,
}
use migash.VariableMap.Writes.{Writes, taken-at}
use migash.VariableMap.Assign.{Ends}
use migash.VariableMap.Grow.{
  kept, is_absent, variable_map_insert_or_assign-Writes, variable_map_insert-Inserts,
}
use migash.VariableMap.Delete.{variable_map_erase-Writes, variable_map_extract-Extracts}
use migash.VariableMap.Ops.{
  Op, look, contains, assign, insert, erase, extract, clear, Answer, nothing, flag, found, step,
  FiniteMap, put, abstract_step, run, abstract_run,
}

-- A well-formed hash table with the same names and the same values.
pub record Refines (map : VariableMap) (f : FiniteMap) : Type 0 where
  pub valid : IsValid map
  pub same : (j : Text) → variable_map_at map j ≡ f j

-- The same answers, and a table that agrees afterwards.
pub record Agrees (A : Type 0) (s : FiniteMap × A) (r : VariableMap × A) : Type 0 where
  pub state : Refines r.0 s.0
  pub answer : r.1 ≡ s.1

Writes-Refines :
    (map map' : VariableMap) (f : FiniteMap) (key : Text) (o : Option Mapped)
    → Refines map f
    → Writes map key o map'
    → Refines map' (put f key o)
Writes-Refines map map' f key o s w = record {
  valid = w.valid;
  same = λ j. w.at j ∙ ap (λ x. if string_eq key j then o else x) (s.same j);
}

-- A call of `variable_map_contains` tells whether the key has a value.
pub variable_map_contains-at :
    (map : VariableMap) (key : Text)
    → IsValid map
    → variable_map_contains map key
      ≡ elim (variable_map_at map key) [ none ↦ false | some _ ↦ true ]
unfolding variable_map_contains
variable_map_contains-at map key v =
    go (variable_map_find map key) (variable_map_find-Located map key v)
  where
    go :
        (o : Option ℕ)
        → Located map key o
        → elim o as (λ _. Bool) [ none ↦ false | some _ ↦ true ]
          ≡ elim (variable_map_at map key) [ none ↦ false | some _ ↦ true ]
    go none l =
        ap (λ x. elim x as (λ _. Bool) [ none ↦ false | some _ ↦ true ])
          (sym (variable_map_at-Lacks map key v l))
    go (some p) h =
        ap (λ x. elim x as (λ _. Bool) [ none ↦ false | some _ ↦ true ])
          (sym (taken-at map key p v h))

pub variable_map_clear-IsValid :
    (map : VariableMap) → IsValid map → IsValid (variable_map_clear map)
unfolding variable_map_clear
variable_map_clear-IsValid map v = record {
  probed = record { path = λ p q e a b c. cc; unique = λ p q e f a b c. cc };
  counted = used-vacant map.capacity;
  load = omega arith;
  room = v.room;
}

pub variable_map_clear-at :
    (map : VariableMap) (j : Text) → IsValid map → variable_map_at (variable_map_clear map) j ≡ none
unfolding variable_map_clear
variable_map_clear-at map j v =
    variable_map_at-Lacks (record { entries = vacant; size = 0; capacity = map.capacity }) j
      (variable_map_clear-IsValid map v) (λ p e hp a same. cc)

cleared-Refines : (map : VariableMap) → IsValid map → Refines (variable_map_clear map) (λ j. none)
cleared-Refines map v = record {
  valid = variable_map_clear-IsValid map v;
  same = λ j. variable_map_clear-at map j v;
}

-- Each call ends, answers as the finite map does and leaves a table that agrees with it.
step-Agrees :
    (op : Op) (map : VariableMap) (f : FiniteMap)
    → Refines map f
    → Ends (step op map) (Agrees Answer (abstract_step op f))
step-Agrees (look key) map f s = (_, refl, record { state = s; answer = ap found (s.same key) })
step-Agrees (contains key) map f s = (
  _,
  refl,
  record {
    state = s;
    answer = ap flag (
        variable_map_contains-at map key s.valid
        ∙ ap (λ x. elim x as (λ _. Bool) [ none ↦ false | some _ ↦ true ]) (s.same key));
  },
)
step-Agrees (assign key m) map f s =
    let (r, ends, w) = variable_map_insert_or_assign-Writes map key m s.valid in
    (
      (r.0, nothing),
      ap
          (λ o. elim o as (λ _. Option (VariableMap × Answer)) [
            | none ↦ none
            | some x ↦ some (x.0, nothing)
          ])
          ends,
      record { state = Writes-Refines map r.0 f key (some m) s w; answer = refl },
    )
step-Agrees (insert key m) map f s =
    let (r, ends, (w, new)) = variable_map_insert-Inserts map key m s.valid in
    (
      (r.0, flag r.2),
      ap
          (λ o. elim o as (λ _. Option (VariableMap × Answer)) [
            | none ↦ none
            | some x ↦ some (x.0, flag x.2)
          ])
          ends,
      record {
        state =
            Writes-Refines map r.0 f key (kept m (f key)) s
              (subst (λ o. Writes map key (kept m o) r.0) (s.same key) w);
        answer = ap flag (new ∙ ap is_absent (s.same key));
      },
    )
step-Agrees (erase key) map f s =
    let (map', ends, w) = variable_map_erase-Writes map key s.valid in
    (
      (map', nothing),
      ap
          (λ o. elim o as (λ _. Option (VariableMap × Answer)) [
            | none ↦ none
            | some x ↦ some (x, nothing)
          ])
          ends,
      record { state = Writes-Refines map map' f key none s w; answer = refl },
    )
step-Agrees (extract key) map f s =
    let (r, ends, (w, old)) = variable_map_extract-Extracts map key s.valid in
    (
      (r.0, found r.1),
      ap
          (λ o. elim o as (λ _. Option (VariableMap × Answer)) [
            | none ↦ none
            | some x ↦ some (x.0, found x.1)
          ])
          ends,
      record {
        state = Writes-Refines map r.0 f key none s w;
        answer = ap found (old ∙ s.same key);
      },
    )
step-Agrees clear map f s = (_, refl, record { state = cleared-Refines map s.valid; answer = refl })

run-Agrees :
    (ops : List Op) (map : VariableMap) (f : FiniteMap)
    → Refines map f
    → Ends (run ops map) (Agrees (List Answer) (abstract_run ops f))
run-Agrees [] map f s = (_, refl, record { state = s; answer = refl })
run-Agrees (op ∷ ops) map f s =
    let (r, ends, a) = step-Agrees op map f s in
    let (r', ends', a') = run-Agrees ops r.0 (abstract_step op f).0 a.state in
    (
      (r'.0, r.1 ∷ r'.1),
      ap
            (λ o. elim o as (λ _. Option (VariableMap × List Answer)) [
              | none ↦ none
              | some x ↦ elim (run ops x.0) [ none ↦ none | some y ↦ some (y.0, x.1 ∷ y.1) ]
            ])
            ends
          ∙ ap
              (λ o. elim o as (λ _. Option (VariableMap × List Answer)) [
                | none ↦ none
                | some y ↦ some (y.0, r.1 ∷ y.1)
              ])
              ends',
      record { state = a'.state; answer = cc (a.answer, a'.answer) },
    )

created-Refines : Refines variable_map_create (λ j. none)
unfolding variable_map_create
created-Refines = record {
  valid = variable_map_create-IsValid;
  same = λ j.
      variable_map_at-Lacks (record { entries = vacant; size = 0; capacity = 16 }) j
        variable_map_create-IsValid (λ p e hp a same. cc);
}

-- For every sequence of searches, insertions, deletions and clears from the new table, the run ends,
-- every answer is the one that the finite map gives, and the table is well formed and holds under
-- every name what the finite map holds: hash collisions, the growth of the array and the entries
-- that a deletion moves do not show.
pub variable_map-Agrees :
    (ops : List Op)
    → Ends (run ops variable_map_create) (Agrees (List Answer) (abstract_run ops (λ j. none)))
variable_map-Agrees ops = run-Agrees ops variable_map_create (λ j. none) created-Refines
