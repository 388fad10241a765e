-- ===== src/PositionalParams.antt =====
-- The positional parameters $1, $2, ... of src/positional_params.c. `params` is the array up to the
-- entries that were allocated, the empty list for NULL; no entry of it is NULL. The functions are
-- modelled behind the checks `Expects` of their arguments, and destruction, which only frees, is
-- left out.
pub mod Access
pub mod Shift
pub mod Bounds
use migash.Prelude.{
  ℕ, zero, suc, ◌+◌, ◌-◌, Bool, true, false, List, [], ◌∷◌, ◌++◌, Option, none, some, if◌then◌else◌,
  ltb, ◌==◌, length, get_elem?, take, drop, Text,
}

-- POSITIONAL_PARAMS_MAX
abbrev pub positional_params_max : ℕ
positional_params_max = 4096

pub record PositionalParams : Type 0 where
  pub arg0 : Option Text
  pub params : List Text
  pub count : ℕ
  pub max_params : ℕ

unfoldable pub positional_params_create : PositionalParams
positional_params_create = record {
  arg0 = none;
  params = [];
  count = 0;
  max_params = positional_params_max;
}

-- The loop that copies `count` strings of an array from an index on.
unfoldable pub copied : List Text → ℕ → ℕ → List Text
copied params first count = take count (drop first params)

-- A failure returns NULL.
unfoldable pub positional_params_create_from_array : Text → ℕ → List Text → Option PositionalParams
unfolding copied
positional_params_create_from_array arg0 count params =
    if ltb positional_params_max count
    then none
    else some (record {
      arg0 = some arg0;
      params = copied params 0 count;
      count = count;
      max_params = positional_params_max;
    })

unfoldable pub positional_params_create_from_strlist : Text → List Text → Option PositionalParams
unfolding copied
positional_params_create_from_strlist arg0 params =
    let count = length params in
    if ltb positional_params_max count
    then none
    else some (record {
      arg0 = some arg0;
      params = copied params 0 count;
      count = count;
      max_params = positional_params_max;
    })

unfoldable pub positional_params_create_from_argv : Text → ℕ → List Text → Option PositionalParams
unfolding copied
positional_params_create_from_argv arg0 argc argv =
    if ltb positional_params_max argc
    then none
    else if argc == 0
    then some
        (record { arg0 = some arg0; params = []; count = 0; max_params = positional_params_max })
    else some (record {
      arg0 = some arg0;
      params = copied argv 0 argc;
      count = argc;
      max_params = positional_params_max;
    })

-- "miga"
abbrev pub default_arg0 : Text
default_arg0 = b'm' ∷ b'i' ∷ b'g' ∷ b'a' ∷ []

unfoldable pub positional_params_clone : PositionalParams → PositionalParams
unfolding copied
positional_params_clone src = record {
  arg0 = elim src.arg0 [ none ↦ some default_arg0 | some arg0 ↦ some arg0 ];
  params = if src.count == 0 then [] else copied src.params 0 src.count;
  count = src.count;
  max_params = src.max_params;
}

-- NULL outside 1 .. count.
unfoldable pub positional_params_get : PositionalParams → ℕ → Option Text
positional_params_get p n =
    if ltb n 1 then none else if ltb p.count n then none else get_elem? p.params (n - 1)

unfoldable pub positional_params_get_all : PositionalParams → List Text
unfolding copied
positional_params_get_all p = if p.count == 0 then [] else copied p.params 0 p.count

-- The loop of `positional_params_get_all_joined`; it puts the separator before every entry but the
-- first.
unfoldable pub joined : ℕ → Bool → Text → List Text → Text
joined sep first result [] = result
joined sep true result (param ∷ rest) = joined sep false (result ++ param) rest
joined sep false result (param ∷ rest) = joined sep false ((result ++ sep ∷ []) ++ param) rest

unfoldable pub positional_params_get_all_joined : PositionalParams → ℕ → Text
unfolding copied joined
positional_params_get_all_joined p sep =
    if p.count == 0 then [] else joined sep true [] (copied p.params 0 p.count)

unfoldable pub positional_params_set_arg0 : PositionalParams → Text → PositionalParams
positional_params_set_arg0 p arg0 = record p { arg0 = some arg0 }

unfoldable pub positional_params_replace :
    PositionalParams → List Text → ℕ → PositionalParams × Bool
positional_params_replace p new_params count =
    if ltb p.max_params count
    then (p, false)
    else (record p { params = new_params; count = count }, true)

-- The whole array goes when nothing is left, and is copied to a shorter one otherwise.
unfoldable pub positional_params_shift : PositionalParams → ℕ → PositionalParams × Bool
unfolding copied
positional_params_shift p n =
    let new_count = p.count - n in
    if ltb p.count n
    then (p, false)
    else if n == 0
    then (p, true)
    else if new_count == 0
    then (record p { params = []; count = 0 }, true)
    else (record p { params = copied p.params n new_count; count = new_count }, true)

unfoldable pub positional_params_set_max : PositionalParams → ℕ → PositionalParams
positional_params_set_max p max_params = record p { max_params = max_params }
