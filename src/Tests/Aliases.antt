-- ===== src/Tests/Aliases.antt =====
-- Runs of the store of aliases.
use migash.Prelude.{◌≡◌, refl, true, false, List, [], ◌∷◌, some, none}
use migash.AliasStore.{
  alias_store_create, alias_store_add, alias_store_remove, alias_store_has_name,
  alias_store_get_value, alias_store_clone, alias_name_is_valid,
}
use migash.AliasStore.Runs.{
  AliasOp, get, has_name, remove, add, clone, AliasAnswer, nothing, flag, value, Matches, alias_run,
  abstract_alias_run, alias_store-Matches,
}
use migash.Tests.Samples.{bytes}

abbrev alias_calls : List AliasOp
alias_calls =
    add (bytes "ll") (bytes "ls -l")
    ∷ add (bytes "la") (bytes "ls -a")
    ∷ add (bytes "ll") (bytes "ls -la")
    ∷ clone
    ∷ remove (bytes "la")
    ∷ has_name (bytes "la")
    ∷ get (bytes "ll")
    ∷ []

alias-run :
    (alias_run alias_calls alias_store_create).1
    ≡ nothing
      ∷ nothing
      ∷ nothing
      ∷ nothing
      ∷ flag true
      ∷ flag false
      ∷ value (some (bytes "ls -la"))
      ∷ []
unfolding alias_store_create alias_store_add alias_store_remove alias_store_has_name
    alias_store_get_value alias_store_clone
alias-run = refl

valid-run : alias_name_is_valid (bytes "a,b") ≡ true
unfolding alias_name_is_valid
valid-run = refl

slash-run : alias_name_is_valid (bytes "a/b") ≡ false
unfolding alias_name_is_valid
slash-run = refl

alias_store-Matches_example :
    Matches
      (List AliasAnswer)
      (abstract_alias_run alias_calls (λ j. none))
      (alias_run alias_calls alias_store_create)
alias_store-Matches_example = alias_store-Matches alias_calls
