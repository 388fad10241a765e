-- ===== src/AliasStore/Keeps.antt =====
-- The invariant of the array of aliases, and each operation's effect on the values.
use migash.Prelude.{
  ℕ, ◌+◌, ◌-◌, ◌≤◌, ◌<◌, ◌≡◌, refl, sym, ap, ◌∙◌, Bool, true, false, List, [], ◌∷◌, Option, none,
  some, arith, if◌then◌else◌, length, length-set, length-append, Text, string_eq, string_eq_iff,
}
use migash.AliasStore.{
  Alias, AliasStore, alias_array_create, alias_array_append, alias_array_set, alias_array_remove,
  alias_array_clear, alias_array_find_with_compare, shift_down, without_last, alias_store_create,
  alias_store_add, alias_store_remove, alias_store_clear, add_aliases, alias_store_clone,
}
use migash.AliasStore.Lookup.{
  lookup, IsFirst, IsFirst-get, Searched, find_from-Searched, distinct, lookup-set, lookup-append,
  IsFirst-lt,
}
use migash.AliasStore.Shift.{remove_at, without_last-shift_down, lookup-remove_at, has-lookup}
use migash.AliasStore.Distinct.{
  ensured-enough, distinct-set, distinct-append, distinct-remove_at, length-remove_at,
}

-- The size is the number of aliases, it fits the capacity, and no two aliases have the same name.
pub record IsWellFormed (store : AliasStore) : Type 0 where
  pub counted : store.aliases.size ≡ length store.aliases.elements
  pub fits : store.aliases.size ≤ store.aliases.capacity
  pub apart : distinct store.aliases.elements ≡ true

-- A store with the values of a function of the names.
pub record Shows (store : AliasStore) (f : Text → Option Text) : Type 0 where
  pub formed : IsWellFormed store
  pub same : (j : Text) → lookup j store.aliases.elements ≡ f j

abbrev pub put : (Text → Option Text) → Text → Option Text → Text → Option Text
put f name o j = if string_eq name j then o else f j

pub add-Shows :
    (store : AliasStore) (f : Text → Option Text) (name value : Text)
    → Shows store f
    → Shows (alias_store_add store name value) (put f name (some value))
unfolding alias_store_add alias_array_find_with_compare alias_array_set alias_array_append
add-Shows store f name value s =
    go (alias_array_find_with_compare store.aliases name)
      (find_from-Searched name store.aliases.elements)
  where
    new : Alias
    new = record { name = name; value = value }

    go :
        (o : Option ℕ)
        → Searched name store.aliases.elements o
        → Shows
            (elim o as (λ _. AliasStore) [
              | some index ↦ record { aliases = alias_array_set store.aliases index new }
              | none ↦ record { aliases = alias_array_append store.aliases new }
            ])
            (put f name (some value))
    go none h = record {
      formed = record {
        counted =
            omega (arith, s.formed.counted, length-append {0} store.aliases.elements (new ∷ []));
        fits = ensured-enough store.aliases.capacity (store.aliases.size + 1);
        apart = distinct-append name value store.aliases.elements s.formed.apart h;
      };
      same = λ j.
          lookup-append name value j store.aliases.elements h
          ∙ ap (λ x. if string_eq name j then some value else x) (s.same j);
    }
    go (some k) h = record {
      formed = record {
        counted = s.formed.counted ∙ sym (length-set store.aliases.elements k new);
        fits = s.formed.fits;
        apart = distinct-set name value store.aliases.elements k h ∙ s.formed.apart;
      };
      same = λ j.
          lookup-set name value j store.aliases.elements k h
          ∙ ap (λ x. if string_eq name j then some value else x) (s.same j);
    }

-- What the loop of the removal leaves.
removed_elements :
    (store : AliasStore) (k : ℕ)
    → IsWellFormed store
    → k < length store.aliases.elements
    → without_last (shift_down k (store.aliases.size - 1 - k) store.aliases.elements)
      ≡ remove_at k store.aliases.elements
removed_elements store k w h =
    ap (λ n. without_last (shift_down k (n - 1 - k) store.aliases.elements)) w.counted
    ∙ without_last-shift_down k store.aliases.elements h

remove_at-Shows :
    (store : AliasStore) (f : Text → Option Text) (name : Text) (k : ℕ) (left : List Alias)
    → Shows store f
    → IsFirst name store.aliases.elements k
    → left ≡ remove_at k store.aliases.elements
    → Shows
        (record {
          aliases = record store.aliases { elements = left; size = store.aliases.size - 1 };
        })
        (put f name none)
remove_at-Shows store f name k left s h e = record {
  formed = record {
    counted = omega (
      arith,
      ap length e,
      length-remove_at k store.aliases.elements (IsFirst-lt name store.aliases.elements k h),
      s.formed.counted,
    );
    fits = omega (arith, s.formed.fits);
    apart = ap distinct e ∙ distinct-remove_at k store.aliases.elements s.formed.apart;
  };
  same = λ j.
      ap (lookup j) e
      ∙ lookup-remove_at name j store.aliases.elements k s.formed.apart h
      ∙ ap (λ x. if string_eq name j then none else x) (s.same j);
}

abbrev pub is_some : Option Text → Bool
is_some none = false
is_some (some v) = true

absent-Shows :
    (store : AliasStore) (f : Text → Option Text) (name : Text)
    → Shows store f
    → f name ≡ none
    → Shows store (put f name none)
absent-Shows store f name s h = record {
  formed = s.formed;
  same = λ j. s.same j ∙ go j (string_eq name j) refl;
}
  where
    go : (j : Text) (b : Bool) → string_eq name j ≡ b → f j ≡ (if b then none else f j)
    go j true e = ap f (sym ((string_eq_iff name j).0 e)) ∙ h
    go j false e = refl

abbrev pub Removes : AliasStore → (Text → Option Text) → Text → AliasStore × Bool → Type 0
Removes store f name r = Shows r.0 (put f name none) × (r.1 ≡ is_some (f name))

pub remove-Shows :
    (store : AliasStore) (f : Text → Option Text) (name : Text)
    → Shows store f
    → Removes store f name (alias_store_remove store name)
unfolding alias_store_remove alias_array_find_with_compare alias_array_remove
remove-Shows store f name s =
    go (alias_array_find_with_compare store.aliases name)
      (find_from-Searched name store.aliases.elements)
  where
    go :
        (o : Option ℕ)
        → Searched name store.aliases.elements o
        → Removes store f name (elim o as (λ _. AliasStore × Bool) [
          | none ↦ (store, false)
          | some index ↦ (record { aliases = alias_array_remove store.aliases index }, true)
        ])
    go none h =
        let absent = sym (s.same name) ∙ h in
        (absent-Shows store f name s absent, sym (ap is_some absent))
    go (some k) h =
        let (a, g, l) = IsFirst-get name store.aliases.elements k h in
        (
          remove_at-Shows store f name k _ s h
              (removed_elements store k s.formed (IsFirst-lt name store.aliases.elements k h)),
          sym (ap is_some (sym (s.same name) ∙ l)),
        )

pub created-Shows : Shows alias_store_create (λ j. none)
unfolding alias_store_create alias_array_create
created-Shows = record {
  formed = record { counted = refl; fits = omega arith; apart = refl };
  same = λ j. refl;
}

pub clear-Shows :
    (store : AliasStore) (f : Text → Option Text)
    → Shows store f
    → Shows (alias_store_clear store) (λ j. none)
unfolding alias_store_clear alias_array_clear
clear-Shows store f s = record {
  formed = record { counted = refl; fits = omega arith; apart = refl };
  same = λ j. refl;
}

-- The values of a list of aliases over those that were there before.
abbrev over : List Alias → (Text → Option Text) → Text → Option Text
over as' f j = elim (lookup j as') [ none ↦ f j | some v ↦ some v ]

over-cons :
    (a : Alias) (rest : List Alias) (f : Text → Option Text) (j : Text)
    → distinct (a ∷ rest) ≡ true
    → over rest (put f a.name (some a.value)) j ≡ over (a ∷ rest) f j
over-cons a rest f j d =
    ground (arith, d, string_eq_iff a.name j, has-lookup j rest, has-lookup a.name rest)

add_aliases-Shows :
    (as' : List Alias) (store : AliasStore) (f : Text → Option Text)
    → distinct as' ≡ true
    → Shows store f
    → Shows (add_aliases store as') (over as' f)
unfolding add_aliases
add_aliases-Shows [] store f d s = s
add_aliases-Shows (a ∷ rest) store f d s =
    let r =
      add_aliases-Shows rest (alias_store_add store a.name a.value) (put f a.name (some a.value))
        (ground (arith, d)) (add-Shows store f a.name a.value s) in
    record { formed = r.formed; same = λ j. r.same j ∙ over-cons a rest f j d }

pub clone-Shows :
    (store : AliasStore) (f : Text → Option Text)
    → Shows store f
    → Shows (alias_store_clone store) f
unfolding alias_store_clone
clone-Shows store f s =
    let r =
      add_aliases-Shows store.aliases.elements alias_store_create (λ j. none) s.formed.apart
        created-Shows in
    record {
      formed = r.formed;
      same = λ j. r.same j ∙ go (lookup j store.aliases.elements) ∙ s.same j;
    }
  where
    go : (o : Option Text) → elim o as (λ _. Option Text) [ none ↦ none | some v ↦ some v ] ≡ o
    go none = refl
    go (some v) = refl
