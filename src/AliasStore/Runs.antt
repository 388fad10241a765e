-- ===== src/AliasStore/Runs.antt =====
-- The store of aliases against a function from names to values, over sequences of operations.
use migash.Prelude.{
  ℕ, ◌≡◌, refl, sym, ap, ◌∙◌, Bool, true, false, List, [], ◌∷◌, Option, none, some, get_elem?, Text,
}
use migash.AliasStore.{
  Alias, AliasStore, alias_array_find_with_compare, alias_store_create, alias_store_add,
  alias_store_remove, alias_store_clear, alias_store_clone, alias_store_has_name,
  alias_store_get_value,
}
use migash.AliasStore.Lookup.{lookup, IsFirst-get, Searched, find_from-Searched}
use migash.AliasStore.Keeps.{
  Shows, put, is_some, add-Shows, remove-Shows, clear-Shows, clone-Shows, created-Shows,
}

-- `clone` goes on with the copy.
pub data AliasOp : Type 0 where
  get has_name remove : Text → AliasOp
  add : Text → Text → AliasOp
  clear clone : AliasOp

pub data AliasAnswer : Type 0 where
  nothing : AliasAnswer
  flag : Bool → AliasAnswer
  value : Option Text → AliasAnswer

abbrev pub alias_step : AliasOp → AliasStore → AliasStore × AliasAnswer
alias_step (get name) store = (store, value (alias_store_get_value store name))
alias_step (has_name name) store = (store, flag (alias_store_has_name store name))
alias_step (remove name) store = let r = alias_store_remove store name in (r.0, flag r.1)
alias_step (add name v) store = (alias_store_add store name v, nothing)
alias_step clear store = (alias_store_clear store, nothing)
alias_step clone store = (alias_store_clone store, nothing)

abbrev pub abstract_alias_step : AliasOp → (Text → Option Text) → (Text → Option Text) × AliasAnswer
abstract_alias_step (get name) f = (f, value (f name))
abstract_alias_step (has_name name) f = (f, flag (is_some (f name)))
abstract_alias_step (remove name) f = (put f name none, flag (is_some (f name)))
abstract_alias_step (add name v) f = (put f name (some v), nothing)
abstract_alias_step clear f = (λ j. none, nothing)
abstract_alias_step clone f = (f, nothing)

abbrev pub alias_run : List AliasOp → AliasStore → AliasStore × List AliasAnswer
alias_run [] store = (store, [])
alias_run (op ∷ ops) store =
    let r = alias_step op store in let s = alias_run ops r.0 in (s.0, r.1 ∷ s.1)

abbrev pub abstract_alias_run :
    List AliasOp → (Text → Option Text) → (Text → Option Text) × List AliasAnswer
abstract_alias_run [] f = (f, [])
abstract_alias_run (op ∷ ops) f =
    let r = abstract_alias_step op f in let s = abstract_alias_run ops r.0 in (s.0, r.1 ∷ s.1)

-- The same answers, and a store with the same values.
pub record Matches (A : Type 0) (s : (Text → Option Text) × A) (r : AliasStore × A) : Type 0 where
  pub state : Shows r.0 s.0
  pub answer : r.1 ≡ s.1

get_value-lookup :
    (store : AliasStore) (name : Text)
    → alias_store_get_value store name ≡ lookup name store.aliases.elements
unfolding alias_store_get_value alias_array_find_with_compare
get_value-lookup store name =
    go (alias_array_find_with_compare store.aliases name)
      (find_from-Searched name store.aliases.elements)
  where
    entry : Option Alias → Option Text
    entry o = elim o [ none ↦ none | some a ↦ some a.value ]

    go :
        (o : Option ℕ)
        → Searched name store.aliases.elements o
        → elim o as (λ _. Option Text) [
          | none ↦ none
          | some index ↦ entry (get_elem? store.aliases.elements index)
        ]
          ≡ lookup name store.aliases.elements
    go none h = sym h
    go (some k) h =
        let (a, g, l) = IsFirst-get name store.aliases.elements k h in ap entry g ∙ sym l

has_name-lookup :
    (store : AliasStore) (name : Text)
    → alias_store_has_name store name ≡ is_some (lookup name store.aliases.elements)
unfolding alias_store_has_name alias_array_find_with_compare
has_name-lookup store name =
    go (alias_array_find_with_compare store.aliases name)
      (find_from-Searched name store.aliases.elements)
  where
    go :
        (o : Option ℕ)
        → Searched name store.aliases.elements o
        → elim o as (λ _. Bool) [ none ↦ false | some _ ↦ true ]
          ≡ is_some (lookup name store.aliases.elements)
    go none h = sym (ap is_some h)
    go (some k) h =
        let (a, g, l) = IsFirst-get name store.aliases.elements k h in sym (ap is_some l)

step-Matches :
    (op : AliasOp) (store : AliasStore) (f : Text → Option Text)
    → Shows store f
    → Matches AliasAnswer (abstract_alias_step op f) (alias_step op store)
step-Matches (get name) store f s = record {
  state = s;
  answer = ap value (get_value-lookup store name ∙ s.same name);
}
step-Matches (has_name name) store f s = record {
  state = s;
  answer = ap flag (has_name-lookup store name ∙ ap is_some (s.same name));
}
step-Matches (remove name) store f s =
    let (shows, there) = remove-Shows store f name s in
    record { state = shows; answer = ap flag there }
step-Matches (add name v) store f s = record { state = add-Shows store f name v s; answer = refl }
step-Matches clear store f s = record { state = clear-Shows store f s; answer = refl }
step-Matches clone store f s = record { state = clone-Shows store f s; answer = refl }

run-Matches :
    (ops : List AliasOp) (store : AliasStore) (f : Text → Option Text)
    → Shows store f
    → Matches (List AliasAnswer) (abstract_alias_run ops f) (alias_run ops store)
run-Matches [] store f s = record { state = s; answer = refl }
run-Matches (op ∷ ops) store f s =
    let a = step-Matches op store f s in
    let b = run-Matches ops (alias_step op store).0 (abstract_alias_step op f).0 a.state in
    record { state = b.state; answer = cc (a.answer, b.answer) }

-- For every sequence of additions, removals, clears, copies and searches from the new store of
-- aliases, every answer is the one that a function from names to values gives, and the store has the
-- values of that function; its size counts its aliases and fits the capacity, and no name stands
-- twice in it.
pub alias_store-Matches :
    (ops : List AliasOp)
    → Matches
        (List AliasAnswer)
        (abstract_alias_run ops (λ j. none))
        (alias_run ops alias_store_create)
alias_store-Matches ops = run-Matches ops alias_store_create (λ j. none) created-Shows
