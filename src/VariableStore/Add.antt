-- ===== src/VariableStore/Add.antt =====
-- The result of variable_store_add on every branch.
use migash.Prelude.{
  ◌≡◌, ◌≢◌, refl, sym, ap, ◌∙◌, ◌↔◌, Bool, true, false, not, Option, none, some, arith, [], ◌∷◌,
  if◌then◌else◌, Text,
}
use migash.VariableMap.{Mapped, Entry, variable_map_at}
use migash.VariableMap.Valid.{IsValid}
use migash.VariableMap.Writes.{Writes}
use migash.VariableMap.Assign.{Ends}
use migash.VariableMap.Grow.{variable_map_insert_or_assign-Writes}
use migash.VariableStore.{
  VarStoreError, error_none, error_read_only, VariableStore, changed, is_error_none, is_locked,
  text_or_empty, find_entry, validate_rest, validate_variable_name, validate_variable_value,
  add_checked, variable_store_add,
}
use migash.VariableStore.Names.{IsName, validate_variable_name_iff}
use migash.VariableStore.EnvText.{Fits, validate_variable_value_iff, is_error_none_iff}
use migash.VariableStore.Lookup.{mapped_of, read_only_of, find_entry-at}

abbrev pub new_mapped : Option Text → Bool → Bool → Mapped
new_mapped value exported read_only = record {
  value = some (text_or_empty value);
  exported = exported;
  read_only = read_only;
}

-- The condition on which a variable is changed.
pub record IsAllowed (store : VariableStore) (name : Text) (value : Option Text) : Type 0 where
  pub named : IsName name
  pub fits : Fits (text_or_empty value)
  pub writable : read_only_of (variable_map_at store.map name) ≡ false

-- A result and its error code: the code tells whether the table was written.
pub record Added (store : VariableStore) (name : Text) (value : Option Text) (m : Mapped)
    (r : VariableStore × VarStoreError) : Type 0 where
  pub allowed : (r.1 ≡ error_none) ↔ IsAllowed store name value
  pub written : r.1 ≡ error_none → Writes store.map name (some m) r.0.map
  pub counted : r.1 ≡ error_none → r.0 ≡ changed store r.0.map
  pub refused : r.1 ≢ error_none → r.0 ≡ store
  pub locked : r.1 ≡ error_read_only → read_only_of (variable_map_at store.map name) ≡ true

value_iff :
    (value : Option Text)
    → (validate_variable_value value ≡ error_none) ↔ Fits (text_or_empty value)
unfolding validate_variable_value
value_iff none = (λ h. omega arith, λ h. refl)
value_iff (some value) = validate_variable_value_iff value

pub is_locked-at :
    (store : VariableStore) (name : Text)
    → IsValid store.map
    → is_locked (find_entry store name) ≡ read_only_of (variable_map_at store.map name)
is_locked-at store name v =
    go (find_entry store name) ∙ ap read_only_of (find_entry-at store name v)
  where
    go : (o : Option Entry) → is_locked o ≡ read_only_of (mapped_of o)
    go none = refl
    go (some e) = refl

refusal :
    (store : VariableStore) (name : Text) (value : Option Text) (m : Mapped) (e : VarStoreError)
    → e ≢ error_none
    → (IsAllowed store name value → e ≡ error_none)
    → (e ≡ error_read_only → read_only_of (variable_map_at store.map name) ≡ true)
    → Added store name value m (store, e)
refusal store name value m e ne a l = record {
  allowed = (λ h. absurd (ne h), a);
  written = λ h. absurd (ne h);
  counted = λ h. absurd (ne h);
  refused = λ h. refl;
  locked = l;
}

rest-not_locked : (text : Text) → validate_rest text ≢ error_read_only
unfolding validate_rest
rest-not_locked [] = λ h. cc
rest-not_locked (c ∷ rest) = ground (arith, rest-not_locked rest)

name-not_locked : (name : Text) → validate_variable_name name ≢ error_read_only
unfolding validate_variable_name
name-not_locked [] = λ h. cc
name-not_locked (c ∷ rest) = ground (arith, rest-not_locked rest)

value-not_locked : (value : Option Text) → validate_variable_value value ≢ error_read_only
unfolding validate_variable_value
value-not_locked none = λ h. cc
value-not_locked (some value) = ground arith

add_checked-Added :
    (store : VariableStore) (name : Text) (value : Option Text) (exported read_only : Bool)
    → IsValid store.map
    → IsAllowed store name value
    → Ends
        (add_checked store name value exported read_only)
        (Added store name value (new_mapped value exported read_only))
unfolding add_checked
add_checked-Added store name value exported read_only v a =
    let (r, run, w) =
      variable_map_insert_or_assign-Writes store.map name (new_mapped value exported read_only) v in
    (
      (changed store r.0, error_none),
      ap
          (λ o. elim o as (λ _. Option (VariableStore × VarStoreError)) [
            | none ↦ none
            | some x ↦ some (changed store x.0, error_none)
          ])
          run,
      record {
        allowed = (λ h. a, λ h. refl);
        written = λ h. w;
        counted = λ h. refl;
        refused = λ h. absurd (h refl);
        locked = λ h. cc;
      },
    )

-- On a store with a well-formed table `variable_store_add` ends. It reports success on exactly the
-- names that POSIX allows, the values that fit and the variables that are not read-only; then the
-- table has the value and the flags under the name and nothing else is changed. With any other code
-- the store is as it was, and the code for a read-only variable is given for no other reason.
pub variable_store_add-Added :
    (store : VariableStore) (name : Text) (value : Option Text) (exported read_only : Bool)
    → IsValid store.map
    → Ends
        (variable_store_add store name value exported read_only)
        (Added store name value (new_mapped value exported read_only))
unfolding variable_store_add
variable_store_add-Added store name value exported read_only v =
    go (is_error_none (validate_variable_name name)) refl
      (is_error_none (validate_variable_value value)) refl (is_locked (find_entry store name)) refl
  where
    good : (e : VarStoreError) (b : Bool) → is_error_none e ≡ b → b ≡ false → e ≢ error_none
    good e b h k same = cc (h, k, (is_error_none_iff e).1 same)

    go :
        (n : Bool)
        → is_error_none (validate_variable_name name) ≡ n
        → (f : Bool) → is_error_none (validate_variable_value value) ≡ f
        → (l : Bool) → is_locked (find_entry store name) ≡ l
        → Ends
            (if not n
              then some (store, validate_variable_name name)
              else (if not f
                  then some (store, validate_variable_value value)
                  else (if l
                      then some (store, error_read_only)
                      else add_checked store name value exported read_only)))
            (Added store name value (new_mapped value exported read_only))
    go false n f f' l l' = (
      _,
      refl,
      refusal store name value _ _ (good _ _ n refl)
          (λ a. (validate_variable_name_iff name).1 a.named) (λ h. absurd (name-not_locked name h)),
    )
    go true n false f l l' = (
      _,
      refl,
      refusal store name value _ _ (good _ _ f refl) (λ a. (value_iff value).1 a.fits)
          (λ h. absurd (value-not_locked value h)),
    )
    go true n true f true l = (
      _,
      refl,
      refusal store name value _ error_read_only (λ h. cc)
          (λ a. absurd (cc (l, is_locked-at store name v, a.writable)))
          (λ h. sym (is_locked-at store name v) ∙ l),
    )
    go true n true f false l = add_checked-Added store name value exported read_only v (record {
      named =
          (validate_variable_name_iff name).0
            ((is_error_none_iff (validate_variable_name name)).0 n);
      fits = (value_iff value).0 ((is_error_none_iff (validate_variable_value value)).0 f);
      writable = sym (is_locked-at store name v) ∙ l;
    })
