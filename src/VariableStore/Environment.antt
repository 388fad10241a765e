-- ===== src/VariableStore/Environment.antt =====
-- The kept environment array against the variables.
use mathlib.Core.Path.{subst}
use migash.Prelude.{
  ℕ, suc, ◌+◌, ◌^◌, ◌≤◌, ◌<◌, ◌≡◌, refl, sym, ap, ◌∙◌, inl, inr, Bool, true, false, List, [], ◌∷◌,
  Option, none, some, arith, if◌then◌else◌, ◌==◌, ==_iff, length, Text,
}
use migash.VariableMap.Valid.{IsValid, variable_map_create-IsValid}
use migash.VariableMap.Assign.{Ends}
use migash.VariableStore.{
  VariableStore, variable_store_create, variable_store_get_envp, envp_cache_valid, built_envp,
}
use migash.VariableStore.Preserves.{store_step-Leaves}
use migash.VariableStore.Steps.{StoreOp, store_step, store_run, IsCounted, Cached}

-- The array that is kept with the number of the last change is that of the variables, and the store
-- has seen at most so many changes.
pub record IsFresh (changes : ℕ) (store : VariableStore) : Type 0 where
  pub valid : IsValid store.map
  pub few : store.generation ≤ changes
  pub older : store.cached_generation ≤ store.generation
  pub fresh :
      (envp : List Text)
      → store.cached_envp ≡ some envp
      → store.cached_generation ≡ store.generation
      → envp ≡ built_envp store.map

get_envp-current :
    (n : ℕ) (store : VariableStore)
    → IsFresh n store
    → (variable_store_get_envp store).1 ≡ built_envp store.map
unfolding variable_store_get_envp envp_cache_valid
get_envp-current n store f = go store.cached_envp refl
  where
    arrays : VariableStore × List Text → List Text
    arrays r = r.1

    kept :
        (envp : List Text) (b : Bool)
        → store.cached_envp ≡ some envp
        → (store.cached_generation == store.generation) ≡ b
        → arrays (
            if b then (store, envp) else (
              record store {
                cached_generation = store.generation;
                cached_envp = some (built_envp store.map);
              },
              built_envp store.map,
            ))
          ≡ built_envp store.map
    kept envp true e b = f.fresh envp e ((==_iff store.cached_generation store.generation).0 b)
    kept envp false e b = refl

    go :
        (o : Option (List Text))
        → store.cached_envp ≡ o
        → arrays (
            if elim o as (λ _. Bool) [
              | none ↦ false
              | some _ ↦ store.cached_generation == store.generation
            ]
            then (store, elim o as (λ _. List Text) [ none ↦ [] | some envp ↦ envp ])
            else (
              record store {
                cached_generation = store.generation;
                cached_envp = some (built_envp store.map);
              },
              built_envp store.map,
            ))
          ≡ built_envp store.map
    go none e = refl
    go (some envp) e = kept envp (store.cached_generation == store.generation) e refl

get_envp-IsFresh :
    (n : ℕ) (store : VariableStore) → IsFresh n store → IsFresh n (variable_store_get_envp store).0
unfolding variable_store_get_envp
get_envp-IsFresh n store f = go (envp_cache_valid store)
  where
    Fresh : VariableStore × List Text → Type 0
    Fresh r = IsFresh n r.0

    go :
        (b : Bool)
        → Fresh (
            if b then (store, elim store.cached_envp [ none ↦ [] | some envp ↦ envp ]) else (
              record store {
                cached_generation = store.generation;
                cached_envp = some (built_envp store.map);
              },
              built_envp store.map,
            ))
    go true = f
    go false = record {
      valid = f.valid;
      few = f.few;
      older = omega arith;
      fresh = λ envp e g. grind (arith, e);
    }

counted-IsFresh :
    (n : ℕ) (store store' : VariableStore)
    → IsValid store'.map
    → suc n < 2 ^ 32
    → IsFresh n store
    → IsCounted store store'
    → IsFresh (suc n) store'
counted-IsFresh n store store' v h f c = record {
  valid = v;
  few = omega (arith, c.counted, f.few);
  older = omega (arith, c.counted, c.older, f.older, f.few, h);
  fresh = λ envp e g. absurd (omega (arith, c.counted, c.older, f.older, f.few, h, g));
}

more-IsFresh : (n : ℕ) (store : VariableStore) → IsFresh n store → IsFresh (suc n) store
more-IsFresh n store f = record {
  valid = f.valid;
  few = omega (arith, f.few);
  older = f.older;
  fresh = f.fresh;
}

step-IsFresh :
    (n : ℕ) (op : StoreOp) (store : VariableStore)
    → suc n < 2 ^ 32
    → IsFresh n store
    → Ends (store_step op store) (IsFresh (suc n))
step-IsFresh n op store h f =
    let (store', run, a) = store_step-Leaves op store f.valid in
    (store', run, go store' a.valid a.cached)
  where
    go :
        (store' : VariableStore) → IsValid store'.map → Cached store store' → IsFresh (suc n) store'
    go store' v (inl e) = subst (IsFresh (suc n)) (sym e) (more-IsFresh n store f)
    go store' v (inr (inl c)) = counted-IsFresh n store store' v h f c
    go store' v (inr (inr e)) =
        subst (IsFresh (suc n)) (sym e) (more-IsFresh n _ (get_envp-IsFresh n store f))

run-IsFresh :
    (ops : List StoreOp) (n : ℕ) (store : VariableStore)
    → n + length ops < 2 ^ 32
    → IsFresh n store
    → Ends (store_run ops store) (IsFresh (n + length ops))
run-IsFresh [] n store h f = (store, refl, subst (λ k. IsFresh k store) (omega arith) f)
run-IsFresh (op ∷ ops) n store h f =
    let (store', run, f') = step-IsFresh n op store (omega (arith, h)) f in
    let (store'', run', f'') = run-IsFresh ops (suc n) store' (omega (arith, h)) f' in
    (
      store'',
      ap (λ o. elim o as (λ _. Option VariableStore) [ none ↦ none | some x ↦ store_run ops x ]) run
          ∙ run',
      subst (λ k. IsFresh k store'') (omega arith) f'',
    )

created-IsFresh : IsFresh 0 variable_store_create
unfolding variable_store_create
created-IsFresh = record {
  valid = variable_map_create-IsValid;
  few = omega arith;
  older = omega arith;
  fresh = λ envp e. absurd (cc e);
}

-- A well-formed table, and an array from `variable_store_get_envp` that has the exported variables.
abbrev pub Current : VariableStore → Type 0
Current store = IsValid store.map × ((variable_store_get_envp store).1 ≡ built_envp store.map)

-- After every sequence of fewer than 2 ^ 32 operations on a new store, `variable_store_get_envp`
-- among them, the sequence has ended and `variable_store_get_envp` gives the array that is built from
-- the variables at that time: an array that is kept from before a change is never given out.
pub get_envp-Current :
    (ops : List StoreOp) → length ops < 2 ^ 32 → Ends (store_run ops variable_store_create) Current
get_envp-Current ops h =
    let (store, run, f) =
      run-IsFresh ops 0 variable_store_create (omega (arith, h)) created-IsFresh in
    (store, run, (f.valid, get_envp-current (0 + length ops) store f))
