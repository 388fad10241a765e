-- ===== src/Tests/Params.antt =====
-- Runs of the positional parameters and of the pattern removals.
use migash.Prelude.{
  ◌≡◌, refl, Bool, false, not, List, [], ◌∷◌, some, if◌then◌else◌, ltb, Text, get_elem?, arith,
  ◌==◌,
}
use migash.Prelude.Int.{◌==ℤ◌, pos}
use migash.PositionalParams.{
  PositionalParams, positional_params_max, positional_params_create_from_strlist,
  positional_params_shift, positional_params_get, positional_params_get_all_joined,
  positional_params_get_all, positional_params_replace,
}
use migash.PositionalParams.Bounds.{IsBounded, Reach, Reach-IsBounded}
use migash.PositionalParams.Shift.{get-shift}
use migash.PositionalParams.Access.{join, get_all_joined-join, get-replace}
use migash.PatternRemoval.{
  Fnmatch, glob_util_match, remove_prefix_smallest, remove_prefix_largest, remove_suffix_smallest,
  remove_suffix_largest,
}
use migash.PatternRemoval.Search.{Shorter, Longer}
use migash.PatternRemoval.Best.{
  RemovesPrefix, RemovesSuffix, remove_prefix_smallest_lem, remove_prefix_largest_lem,
  remove_suffix_smallest_lem, remove_suffix_largest_lem,
}
use migash.Tests.Samples.{bytes}

abbrev three_words : List Text
three_words = bytes "a" ∷ bytes "b c" ∷ bytes "d" ∷ []

abbrev three_params : PositionalParams
three_params = record {
  arg0 = some (bytes "migash");
  params = three_words;
  count = 3;
  max_params = positional_params_max;
}

Reach-three_params : Reach three_params
unfolding positional_params_create_from_strlist
Reach-three_params = Reach.from_strlist (bytes "migash") three_words three_params refl

Reach-IsBounded_example : IsBounded three_params
Reach-IsBounded_example = Reach-IsBounded Reach-three_params

joined_words : positional_params_get_all_joined three_params b',' ≡ bytes "a,b c,d"
unfolding positional_params_get_all_joined
joined_words = refl

get-shift_example :
    positional_params_get (positional_params_shift three_params 1).0 2
    ≡ positional_params_get three_params 3
get-shift_example =
    get-shift three_params 1 2 (Reach-IsBounded Reach-three_params) (omega arith) (omega arith)

get_all_joined-join_example :
    positional_params_get_all_joined three_params b','
    ≡ join b',' (positional_params_get_all three_params)
get_all_joined-join_example = get_all_joined-join three_params b','

get-replace_example :
    let r = positional_params_replace three_params (bytes "x" ∷ []) 1 in
    (r.1 ≡ not (ltb positional_params_max 1))
    × (positional_params_get r.0 1 ≡ (
        if ltb positional_params_max 1
        then positional_params_get three_params 1
        else get_elem? (bytes "x" ∷ []) 0))
get-replace_example = get-replace three_params (bytes "x" ∷ []) 0

-- The matcher of the pattern `*/`: a text that ends in a slash.
abbrev ends_in_slash : Text → Bool
ends_in_slash [] = false
ends_in_slash (c ∷ []) = c == 47
ends_in_slash (c ∷ d ∷ s) = ends_in_slash (d ∷ s)

abbrev star_slash : Fnmatch
star_slash pattern string = if ends_in_slash string then pos 0 else pos 1

abbrev path : Text
path = bytes "path/to/file"

removed_prefixes :
    (remove_prefix_smallest star_slash (some path) (some (bytes "*/")) ≡ bytes "to/file")
    × (remove_prefix_largest star_slash (some path) (some (bytes "*/")) ≡ bytes "file")
    × (remove_suffix_smallest star_slash (some (bytes "a/b/")) (some (bytes "*/")) ≡ bytes "a/b")
    × (remove_suffix_largest star_slash (some (bytes "a/b/")) (some (bytes "*/")) ≡ [])
unfolding ◌==ℤ◌ remove_prefix_smallest remove_prefix_largest remove_suffix_smallest
    remove_suffix_largest
removed_prefixes = (refl, refl, refl, refl)

remove_prefix_smallest_lem_example :
    RemovesPrefix
      (glob_util_match star_slash (bytes "*/"))
      Shorter
      path
      (remove_prefix_smallest star_slash (some path) (some (bytes "*/")))
remove_prefix_smallest_lem_example = remove_prefix_smallest_lem star_slash path b'*' (bytes "/")

remove_prefix_largest_lem_example :
    RemovesPrefix
      (glob_util_match star_slash (bytes "*/"))
      Longer
      path
      (remove_prefix_largest star_slash (some path) (some (bytes "*/")))
remove_prefix_largest_lem_example = remove_prefix_largest_lem star_slash path b'*' (bytes "/")

remove_suffix_smallest_lem_example :
    RemovesSuffix
      (glob_util_match star_slash (bytes "*/"))
      Shorter
      (bytes "a/b/")
      (remove_suffix_smallest star_slash (some (bytes "a/b/")) (some (bytes "*/")))
remove_suffix_smallest_lem_example =
    remove_suffix_smallest_lem star_slash (bytes "a/b/") b'*' (bytes "/")

remove_suffix_largest_lem_example :
    RemovesSuffix
      (glob_util_match star_slash (bytes "*/"))
      Longer
      (bytes "a/b/")
      (remove_suffix_largest star_slash (some (bytes "a/b/")) (some (bytes "*/")))
remove_suffix_largest_lem_example =
    remove_suffix_largest_lem star_slash (bytes "a/b/") b'*' (bytes "/")
