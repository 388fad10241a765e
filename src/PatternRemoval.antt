-- ===== src/PatternRemoval.antt =====
-- The four pattern removals of src/pattern_removal.c, `${v#p}`, `${v##p}`, `${v%p}` and `${v%%p}`.
-- The matcher is the POSIX branch of src/glob_util.c, which calls fnmatch; fnmatch is a parameter.
-- The logging and the failure of malloc are left out.
pub mod Search
pub mod Best
use migash.Prelude.{
  ℕ, zero, suc, Bool, List, [], ◌∷◌, Option, none, some, if◌then◌else◌, length, take, drop, Text,
}
use migash.Prelude.Int.{ℤ, pos, ◌==ℤ◌}

-- The result of fnmatch on a pattern and a string, without flags.
abbrev pub Fnmatch : Type 0
Fnmatch = Text → Text → ℤ

-- glob_util_match(pattern, string, 0)
unfoldable pub glob_util_match : Fnmatch → Text → Text → Bool
glob_util_match fnmatch pattern string = fnmatch pattern string ==ℤ pos 0

-- for (int i = ...; i <= val_len; i++), with so many positions left.
unfoldable pub upwards : (ℕ → Bool) → ℕ → ℕ → Option ℕ
upwards matched i zero = none
upwards matched i (suc left) =
    let later = upwards matched (suc i) left in if matched i then some i else later

-- for (int i = ...; i >= 0; i--)
unfoldable pub downwards : (ℕ → Bool) → ℕ → Option ℕ
downwards matched zero = if matched zero then some zero else none
downwards matched (suc i) =
    let later = downwards matched i in if matched (suc i) then some (suc i) else later

-- What the four functions begin with: a NULL argument gives the empty string, an empty pattern
-- removes nothing.
unfoldable pub guarded : (Text → Text → Text) → Option Text → Option Text → Text
guarded remove none _ = []
guarded remove (some value) none = []
guarded remove (some value) (some []) = value
guarded remove (some value) (some (c ∷ cs)) = remove value (c ∷ cs)

-- value + i, or the value where nothing matched.
unfoldable pub without_prefix : Text → Option ℕ → Text
without_prefix value none = value
without_prefix value (some i) = drop i value

-- The first i bytes, or the value where nothing matched.
unfoldable pub without_suffix : Text → Option ℕ → Text
without_suffix value none = value
without_suffix value (some i) = take i value

unfoldable pub remove_prefix_smallest : Fnmatch → Option Text → Option Text → Text
unfolding glob_util_match upwards guarded without_prefix
remove_prefix_smallest fnmatch = guarded (λ value pattern.
    without_prefix value
      (upwards (λ i. glob_util_match fnmatch pattern (take i value)) 0 (suc (length value))))

unfoldable pub remove_prefix_largest : Fnmatch → Option Text → Option Text → Text
unfolding glob_util_match downwards guarded without_prefix
remove_prefix_largest fnmatch = guarded (λ value pattern.
    without_prefix value
      (downwards (λ i. glob_util_match fnmatch pattern (take i value)) (length value)))

unfoldable pub remove_suffix_smallest : Fnmatch → Option Text → Option Text → Text
unfolding glob_util_match downwards guarded without_suffix
remove_suffix_smallest fnmatch = guarded (λ value pattern.
    without_suffix value
      (downwards (λ i. glob_util_match fnmatch pattern (drop i value)) (length value)))

unfoldable pub remove_suffix_largest : Fnmatch → Option Text → Option Text → Text
unfolding glob_util_match upwards guarded without_suffix
remove_suffix_largest fnmatch = guarded (λ value pattern.
    without_suffix value
      (upwards (λ i. glob_util_match fnmatch pattern (drop i value)) 0 (suc (length value))))
