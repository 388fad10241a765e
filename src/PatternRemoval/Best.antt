-- ===== src/PatternRemoval/Best.antt =====
-- The pattern removals take off the shortest, or the longest, part that matches.
use migash.Prelude.{
  ℕ, suc, ◌+◌, ◌-◌, ◌≤◌, ◌≡◌, refl, sym, ap, ◌∙◌, ◌⊎◌, inl, inr, Bool, true, false, [], ◌∷◌, ◌++◌,
  Option, none, some, arith, length, length-append, take, drop, take-append-drop, length-take,
  length-drop, Text,
}
use mathlib.Core.Path.{subst}
use migash.PatternRemoval.{
  Fnmatch, glob_util_match, without_prefix, without_suffix, remove_prefix_smallest,
  remove_prefix_largest, remove_suffix_smallest, remove_suffix_largest,
}
use migash.PatternRemoval.Search.{Finds, Shorter, Longer, upwards-Finds_all, downwards-Finds}

-- The result is the value without a matching prefix whose length is best.
pub record WithoutPrefix (test : Text → Bool) (before : ℕ → ℕ → Type 0) (value result : Text)
    : Type 0 where
  pub prefix : Text
  pub split : value ≡ prefix ++ result
  pub matches : test prefix ≡ true
  pub best : (p q : Text) → value ≡ p ++ q → before (length p) (length prefix) → test p ≡ false

pub record WithoutSuffix (test : Text → Bool) (before : ℕ → ℕ → Type 0) (value result : Text)
    : Type 0 where
  pub suffix : Text
  pub split : value ≡ result ++ suffix
  pub matches : test suffix ≡ true
  pub best : (p q : Text) → value ≡ p ++ q → before (length q) (length suffix) → test q ≡ false

-- Or no prefix matches, and the result is the value.
abbrev pub RemovesPrefix : (Text → Bool) → (ℕ → ℕ → Type 0) → Text → Text → Type 0
RemovesPrefix test before value result =
    WithoutPrefix test before value result
    ⊎ ((result ≡ value) × ((p q : Text) → value ≡ p ++ q → test p ≡ false))

abbrev pub RemovesSuffix : (Text → Bool) → (ℕ → ℕ → Type 0) → Text → Text → Type 0
RemovesSuffix test before value result =
    WithoutSuffix test before value result
    ⊎ ((result ≡ value) × ((p q : Text) → value ≡ p ++ q → test q ≡ false))

take-append : (p q : Text) → take (length p) (p ++ q) ≡ p
take-append [] q = refl
take-append (c ∷ p) q = ap (λ t. c ∷ t) (take-append p q)

drop-append : (p q : Text) → drop (length p) (p ++ q) ≡ q
drop-append [] q = refl
drop-append (c ∷ p) q = drop-append p q

length-split : (value p q : Text) → value ≡ p ++ q → length value ≡ length p + length q
length-split value p q e = ap length e ∙ length-append {0} p q

take-split : (value p q : Text) → value ≡ p ++ q → take (length p) value ≡ p
take-split value p q e = ap (take (length p)) e ∙ take-append p q

drop-split : (value p q : Text) → value ≡ p ++ q → drop (length p) value ≡ q
drop-split value p q e = ap (drop (length p)) e ∙ drop-append p q

prefix-Finds :
    (test : Text → Bool) (before : ℕ → ℕ → Type 0) (value : Text) (o : Option ℕ)
    → Finds (λ i. test (take i value)) before 0 (suc (length value)) o
    → RemovesPrefix test before value (without_prefix value o)
unfolding without_prefix
prefix-Finds test before value none h = inr (
  refl,
  λ p q e.
      ap test (sym (take-split value p q e))
      ∙ h (length p) (omega arith) (omega (arith, length-split value p q e)),
)
prefix-Finds test before value (some i) h = inl (record {
  prefix = take i value;
  split = sym (take-append-drop i value);
  matches = h.0;
  best = λ p q e b.
      let reach : length (take i value) ≡ i = omega (arith, length-take i value, h.2) in
      ap test (sym (take-split value p q e))
      ∙ h.3 (length p) (omega arith) (omega (arith, length-split value p q e))
          (subst (λ n. before (length p) n) reach b);
})

suffix-Finds :
    (test : Text → Bool) (before after : ℕ → ℕ → Type 0) (value : Text) (o : Option ℕ)
    → ((n a b : ℕ) → a ≤ n → b ≤ n → after (n - a) (n - b) → before a b)
    → Finds (λ i. test (drop i value)) before 0 (suc (length value)) o
    → RemovesSuffix test after value (without_suffix value o)
unfolding without_suffix
suffix-Finds test before after value none turn h = inr (
  refl,
  λ p q e.
      ap test (sym (drop-split value p q e))
      ∙ h (length p) (omega arith) (omega (arith, length-split value p q e)),
)
suffix-Finds test before after value (some i) turn h = inl (record {
  suffix = drop i value;
  split = sym (take-append-drop i value);
  matches = h.0;
  best = λ p q e b.
      let total = length-split value p q e in
      let left : length q ≡ length value - length p = omega (arith, total) in
      ap test (sym (drop-split value p q e))
      ∙ h.3 (length p) (omega arith) (omega (arith, total)) (
          turn (length value) (length p) i (omega (arith, total)) (omega (arith, h.2)) (
            subst (λ n. after n (length value - i)) left
              (subst (λ n. after (length q) n) (length-drop i value) b)));
})

-- `${v#p}` with a pattern that is not empty takes the shortest matching prefix off, or returns the
-- value where no prefix matches.
pub remove_prefix_smallest_lem :
    (fnmatch : Fnmatch) (value : Text) (c : ℕ) (cs : Text)
    → RemovesPrefix
        (glob_util_match fnmatch (c ∷ cs))
        Shorter
        value
        (remove_prefix_smallest fnmatch (some value) (some (c ∷ cs)))
unfolding remove_prefix_smallest
remove_prefix_smallest_lem fnmatch value c cs =
    prefix-Finds (glob_util_match fnmatch (c ∷ cs)) Shorter value _ (
      upwards-Finds_all (λ i. glob_util_match fnmatch (c ∷ cs) (take i value)) (suc (length value)))

-- `${v##p}` with a pattern that is not empty takes the longest matching prefix off, or returns the
-- value where no prefix matches.
pub remove_prefix_largest_lem :
    (fnmatch : Fnmatch) (value : Text) (c : ℕ) (cs : Text)
    → RemovesPrefix
        (glob_util_match fnmatch (c ∷ cs))
        Longer
        value
        (remove_prefix_largest fnmatch (some value) (some (c ∷ cs)))
unfolding remove_prefix_largest
remove_prefix_largest_lem fnmatch value c cs =
    prefix-Finds (glob_util_match fnmatch (c ∷ cs)) Longer value _
      (downwards-Finds (λ i. glob_util_match fnmatch (c ∷ cs) (take i value)) (length value))

-- `${v%p}` with a pattern that is not empty takes the shortest matching suffix off, or returns the
-- value where no suffix matches.
pub remove_suffix_smallest_lem :
    (fnmatch : Fnmatch) (value : Text) (c : ℕ) (cs : Text)
    → RemovesSuffix
        (glob_util_match fnmatch (c ∷ cs))
        Shorter
        value
        (remove_suffix_smallest fnmatch (some value) (some (c ∷ cs)))
unfolding remove_suffix_smallest
remove_suffix_smallest_lem fnmatch value c cs =
    suffix-Finds (glob_util_match fnmatch (c ∷ cs)) Longer Shorter value _
      (λ n a b p q h. omega arith)
      (downwards-Finds (λ i. glob_util_match fnmatch (c ∷ cs) (drop i value)) (length value))

-- `${v%%p}` with a pattern that is not empty takes the longest matching suffix off, or returns the
-- value where no suffix matches.
pub remove_suffix_largest_lem :
    (fnmatch : Fnmatch) (value : Text) (c : ℕ) (cs : Text)
    → RemovesSuffix
        (glob_util_match fnmatch (c ∷ cs))
        Longer
        value
        (remove_suffix_largest fnmatch (some value) (some (c ∷ cs)))
unfolding remove_suffix_largest
remove_suffix_largest_lem fnmatch value c cs =
    suffix-Finds (glob_util_match fnmatch (c ∷ cs)) Shorter Longer value _
      (λ n a b p q h. omega arith)
      (upwards-Finds_all (λ i. glob_util_match fnmatch (c ∷ cs) (drop i value))
        (suc (length value)))
