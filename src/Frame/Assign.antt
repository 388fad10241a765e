-- ===== src/Frame/Assign.antt =====
-- An assignment to a variable of a frame, on every branch.
use mathlib.Core.Path.{subst}
use migash.Prelude.{
  ◌≡◌, ◌≢◌, ◌↔◌, refl, sym, ap, ◌∙◌, Bool, true, false, Option, none, some, arith, if◌then◌else◌,
  Text, string_eq, string_eq_iff,
}
use migash.VariableMap.{Mapped, Entry, variable_map_at}
use migash.VariableMap.Valid.{IsValid}
use migash.VariableMap.Writes.{Writes}
use migash.VariableMap.Assign.{Ends}
use migash.VariableStore.{
  VarStoreError, error_read_only, VariableStore, text_or_empty, find_entry, variable_store_add,
  variable_store_get_variable,
}
use migash.VariableStore.Lookup.{mapped_of, read_only_of, value_of, find_entry-at}
use migash.VariableStore.Add.{IsAllowed, Added, new_mapped, variable_store_add-Added}
use migash.Frame.{VarStatus, status_ok, status_read_only, status_of_add, flags_of, set_in_store}

-- The new value, with the flags that the variable had.
abbrev pub assigned : Option Mapped → Text → Mapped
assigned none value = record { value = some value; exported = false; read_only = false }
assigned (some old) value = record old { value = some value }

-- A result and its status.
pub record IsAssigned (vars : VariableStore) (name value : Text) (r : VariableStore × VarStatus)
    : Type 0 where
  pub written :
      IsAllowed vars name (some value)
      → Writes vars.map name (some (assigned (variable_map_at vars.map name) value)) r.0.map
  pub accepted : IsAllowed vars name (some value) → r.1 ≡ status_ok
  pub unchanged : ¬ IsAllowed vars name (some value) → r.0 ≡ vars
  pub locked : (r.1 ≡ status_read_only) ↔ (
      (read_only_of (variable_map_at vars.map name) ≡ true)
      × (text_or_empty (value_of (variable_map_at vars.map name)) ≢ value))

status-locked : (c : VarStoreError) → status_of_add c ≡ status_read_only → c ≡ error_read_only
status-locked c h = grind arith

-- What the comparison of the values gives.
compared :
    (old value : Text)
    → ((if string_eq old value then status_ok else status_read_only) ≡ status_read_only)
      ↔ (old ≢ value)
compared old value = grind (arith, string_eq_iff old value)

add_status :
    (vars : VariableStore) (name value : Text) (m : Mapped) (r : VariableStore × VarStoreError)
    → read_only_of (variable_map_at vars.map name) ≡ false
    → m ≡ assigned (variable_map_at vars.map name) value
    → Added vars name (some value) m r
    → IsAssigned vars name value (r.0, status_of_add r.1)
add_status vars name value m (s, e) free same a = record {
  written = λ h. subst (λ x. Writes vars.map name (some x) s.map) same (a.written (a.allowed.1 h));
  accepted = λ h. ap status_of_add (a.allowed.1 h);
  unchanged = λ h. a.refused (λ k. h (a.allowed.0 k));
  locked =
      (λ h. absurd (cc (free, a.locked (status-locked e h))), λ (l, ne). absurd (cc (free, l)));
}

-- A variable that is read-only.
locked_status :
    (vars : VariableStore) (name value : Text)
    → read_only_of (variable_map_at vars.map name) ≡ true
    → IsAssigned vars name value (
      vars,
      if string_eq (text_or_empty (value_of (variable_map_at vars.map name))) value
          then status_ok
          else status_read_only,
    )
locked_status vars name value l = record {
  written = λ h. absurd (cc (l, h.writable));
  accepted = λ h. absurd (cc (l, h.writable));
  unchanged = λ h. refl;
  locked =
      let (to, from) = compared (text_or_empty (value_of (variable_map_at vars.map name))) value in
      (λ h. (l, to h), λ (x, ne). from ne);
}

assigned-flags :
    (o : Option Entry) (value : Text)
    → new_mapped (some value) (flags_of o).0 (flags_of o).1 ≡ assigned (mapped_of o) value
assigned-flags none value = refl
assigned-flags (some e) value = refl

-- On a store with a well-formed table an assignment ends. A name that POSIX allows gets a value that
-- fits and keeps its flags, and the status is OK; a read-only variable stays, and the status tells so
-- just where the value differs. Any other name or value leaves the store as it is, and the status is
-- not that of a read-only variable.
pub set_in_store-IsAssigned :
    (vars : VariableStore) (name value : Text)
    → IsValid vars.map
    → Ends (set_in_store vars name value) (IsAssigned vars name value)
unfolding set_in_store variable_store_get_variable
set_in_store-IsAssigned vars name value v = go (find_entry vars name) (find_entry-at vars name v)
  where
    Result : Type 0
    Result = Option (VariableStore × VarStatus)

    adding : Option Entry → Result
    adding o =
        elim (variable_store_add vars name (some value) (flags_of o).0 (flags_of o).1)
          as (λ _. Result) [ none ↦ none | some r ↦ some (r.0, status_of_add r.1) ]

    added :
        (o : Option Entry)
        → mapped_of o ≡ variable_map_at vars.map name
        → read_only_of (mapped_of o) ≡ false
        → Ends (adding o) (IsAssigned vars name value)
    added o e free =
        let (r, run, a) =
          variable_store_add-Added vars name (some value) (flags_of o).0 (flags_of o).1 v in
        (
          (r.0, status_of_add r.1),
          ap (λ x. elim x as (λ _. Result) [ none ↦ none | some y ↦ some (y.0, status_of_add y.1) ])
              run,
          add_status vars name value _ r (ap read_only_of (sym e) ∙ free)
              (assigned-flags o value ∙ ap (λ x. assigned x value) e) a,
        )

    entry :
        (e : Entry) (b : Bool)
        → some e.mapped ≡ variable_map_at vars.map name
        → e.mapped.read_only ≡ b
        → Ends
            (if b
              then some (
                vars,
                if string_eq (text_or_empty e.mapped.value) value
                    then status_ok
                    else status_read_only,
              )
              else adding (some e))
            (IsAssigned vars name value)
    entry e true h l = (
      _,
      refl,
      subst
          (λ t. IsAssigned vars name value (
            vars,
            if string_eq (text_or_empty (value_of t)) value then status_ok else status_read_only,
          ))
          (sym h) (locked_status vars name value (ap read_only_of (sym h) ∙ l)),
    )
    entry e false h l = added (some e) h l

    go :
        (o : Option Entry)
        → mapped_of o ≡ variable_map_at vars.map name
        → Ends
            (elim o as (λ _. Result) [
              | none ↦ adding o
              | some e ↦
                  if e.mapped.read_only
                  then some (
                    vars,
                    if string_eq (text_or_empty e.mapped.value) value
                        then status_ok
                        else status_read_only,
                  )
                  else adding o
            ])
            (IsAssigned vars name value)
    go none h = added none h refl
    go (some e) h = entry e e.mapped.read_only h refl
