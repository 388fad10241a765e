-- ===== src/PositionalParams/Bounds.antt =====
-- The bounds of the positional parameters, through any sequence of calls.
use migash.Prelude.{
  ℕ, ◌+◌, ◌-◌, ◌≤◌, ◌<◌, ◌≡◌, refl, sym, Bool, true, false, List, [], none, some, arith,
  if◌then◌else◌, ltb, ◌==◌, ==_iff, length, drop, length-take, length-drop, Text,
}
use mathlib.Core.Path.{subst}
use migash.PositionalParams.{
  PositionalParams, positional_params_max, copied, positional_params_create,
  positional_params_create_from_array, positional_params_create_from_strlist,
  positional_params_create_from_argv, positional_params_clone, positional_params_set_arg0,
  positional_params_replace, positional_params_shift, positional_params_set_max,
}

pub record IsBounded (p : PositionalParams) : Type 0 where
  pub counted : length p.params ≡ p.count
  pub few : p.count ≤ positional_params_max
  pub limited : p.max_params ≤ positional_params_max

length-copied :
    (params : List Text) (first count : ℕ)
    → first + count ≤ length params
    → length (copied params first count) ≡ count
unfolding copied
length-copied params first count h =
    omega (arith, length-take count (drop first params), length-drop first params)

-- A constructor's result, and an object that an operation changes. `replace` hands over an array of
-- `count` strings, and `set_max` a maximum within the bounds that the code expects.
pub data Reach : PositionalParams → Type 0 where
  create : Reach positional_params_create
  from_array :
      (arg0 : Text) (count : ℕ) (params : List Text) (p : PositionalParams)
      → count ≤ length params
      → positional_params_create_from_array arg0 count params ≡ some p
      → Reach p
  from_strlist :
      (arg0 : Text) (params : List Text) (p : PositionalParams)
      → positional_params_create_from_strlist arg0 params ≡ some p
      → Reach p
  from_argv :
      (arg0 : Text) (argc : ℕ) (argv : List Text) (p : PositionalParams)
      → argc ≤ length argv
      → positional_params_create_from_argv arg0 argc argv ≡ some p
      → Reach p
  clone : (p : PositionalParams) → Reach p → Reach (positional_params_clone p)
  set_arg0 :
      (p : PositionalParams) (arg0 : Text) → Reach p → Reach (positional_params_set_arg0 p arg0)
  replace :
      (p : PositionalParams) (new_params : List Text)
      → Reach p
      → Reach (positional_params_replace p new_params (length new_params)).0
  shift : (p : PositionalParams) (n : ℕ) → Reach p → Reach (positional_params_shift p n).0
  set_max :
      (p : PositionalParams) (max_params : ℕ)
      → 0 < max_params
      → max_params ≤ positional_params_max
      → Reach p
      → Reach (positional_params_set_max p max_params)

-- What a test that fails with NULL lets through.
some-passed :
    (b : Bool) (q p : PositionalParams)
    → (if b then none else some q) ≡ some p
    → (b ≡ false) × (q ≡ p)
some-passed true q p e = cc
some-passed false q p e = (refl, cc)

shift-IsBounded :
    (p : PositionalParams) (n : ℕ) → IsBounded p → IsBounded (positional_params_shift p n).0
unfolding positional_params_shift
shift-IsBounded p n v = go (ltb p.count n) refl (n == 0) (p.count - n == 0)
  where
    go :
        (b : Bool)
        → ltb p.count n ≡ b
        → (c d : Bool)
        → let r : PositionalParams × Bool =
            if b
            then (p, false)
            else if c
            then (p, true)
            else if d
            then (record p { params = []; count = 0 }, true)
            else (
              record p { params = copied p.params n (p.count - n); count = p.count - n },
              true,
            ) in
          IsBounded r.0
    go true e c d = v
    go false e true d = v
    go false e false true = record {
      counted = refl;
      few = omega (arith, v.few);
      limited = v.limited;
    }
    go false e false false = record {
      counted =
          length-copied p.params n (p.count - n)
            (let h : n ≤ p.count = ground arith in omega (arith, h, v.counted));
      few = omega (arith, v.few);
      limited = v.limited;
    }

made-IsBounded :
    (arg0 : Text) (count : ℕ) (params : List Text)
    → count ≤ length params
    → ltb positional_params_max count ≡ false
    → IsBounded (record {
      arg0 = some arg0;
      params = copied params 0 count;
      count = count;
      max_params = positional_params_max;
    })
made-IsBounded arg0 count params h e = record {
  counted = length-copied params 0 count (omega (arith, h));
  few = ground arith;
  limited = omega arith;
}

argv-IsBounded :
    (arg0 : Text) (argc : ℕ) (argv : List Text) (p : PositionalParams)
    → argc ≤ length argv
    → positional_params_create_from_argv arg0 argc argv ≡ some p
    → IsBounded p
unfolding positional_params_create_from_argv
argv-IsBounded arg0 argc argv p h = go (ltb positional_params_max argc) refl (argc == 0)
  where
    go :
        (b : Bool)
        → ltb positional_params_max argc ≡ b
        → (c : Bool)
        → (if b
            then none
            else if c
            then some (record {
              arg0 = some arg0;
              params = [];
              count = 0;
              max_params = positional_params_max;
            })
            else some (record {
              arg0 = some arg0;
              params = copied argv 0 argc;
              count = argc;
              max_params = positional_params_max;
            }))
          ≡ some p
        → IsBounded p
    go true b c e = absurd cc
    go false b true e =
        subst IsBounded (some-passed false _ p e).1
          (record { counted = refl; few = omega arith; limited = omega arith })
    go false b false e =
        subst IsBounded (some-passed false _ p e).1 (made-IsBounded arg0 argc argv h b)

clone-IsBounded : (p : PositionalParams) → IsBounded p → IsBounded (positional_params_clone p)
unfolding positional_params_clone
clone-IsBounded p v = record { counted = go (p.count == 0) refl; few = v.few; limited = v.limited }
  where
    go :
        (c : Bool)
        → (p.count == 0) ≡ c
        → length (if c then [] else copied p.params 0 p.count) ≡ p.count
    go true e = sym ((==_iff p.count 0).0 e)
    go false e = length-copied p.params 0 p.count (omega (arith, v.counted))

replace-IsBounded :
    (p : PositionalParams) (new_params : List Text)
    → IsBounded p
    → IsBounded (positional_params_replace p new_params (length new_params)).0
unfolding positional_params_replace
replace-IsBounded p new_params v = go (ltb p.max_params (length new_params)) refl
  where
    go :
        (b : Bool)
        → ltb p.max_params (length new_params) ≡ b
        → let r : PositionalParams × Bool =
            if b
            then (p, false)
            else (record p { params = new_params; count = length new_params }, true) in
          IsBounded r.0
    go true e = v
    go false e = record {
      counted = refl;
      few =
          (let h : length new_params ≤ p.max_params = ground arith in omega (arith, h, v.limited));
      limited = v.limited;
    }

-- In every reachable object `count` is the number of parameters, and neither it nor the maximum
-- exceeds 4096, so that $1 to $count are in the array.
pub Reach-IsBounded : {p : PositionalParams} → Reach p → IsBounded p
unfolding positional_params_create positional_params_create_from_array
    positional_params_create_from_strlist positional_params_set_arg0 positional_params_set_max
Reach-IsBounded create = record { counted = refl; few = omega arith; limited = omega arith }
Reach-IsBounded (from_array arg0 count params p h e) =
    let (b, q) = some-passed _ _ p e in subst IsBounded q (made-IsBounded arg0 count params h b)
Reach-IsBounded (from_strlist arg0 params p e) =
    let (b, q) = some-passed _ _ p e in
    subst IsBounded q (made-IsBounded arg0 (length params) params (omega arith) b)
Reach-IsBounded (from_argv arg0 argc argv p h e) = argv-IsBounded arg0 argc argv p h e
Reach-IsBounded (clone p r) = clone-IsBounded p (Reach-IsBounded r)
Reach-IsBounded (set_arg0 p arg0 r) =
    let v = Reach-IsBounded r in record { counted = v.counted; few = v.few; limited = v.limited }
Reach-IsBounded (replace p new_params r) = replace-IsBounded p new_params (Reach-IsBounded r)
Reach-IsBounded (shift p n r) = shift-IsBounded p n (Reach-IsBounded r)
Reach-IsBounded (set_max p max_params a b r) =
    let v = Reach-IsBounded r in record { counted = v.counted; few = v.few; limited = b }
