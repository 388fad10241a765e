-- ===== src/Tests/Samples.antt =====
-- Sample inputs.
use Prim.Native.Char.{code}
use Prim.Native.String.{String}
use migash.Prelude.{
  Bool, true, false, ◌&&◌, List, [], ◌∷◌, Option, none, some, if◌then◌else◌, ◌==◌, Text,
}
use migash.Arithmetic.Variables.{Variables}

-- The bytes of an ASCII literal.
abbrev pub bytes : String → Text
bytes String.[] = []
bytes (String.◌∷◌ c s) = code c ∷ bytes s

abbrev pub same : Text → Text → Bool
same [] [] = true
same (a ∷ as') (b ∷ bs) = a == b && same as' bs
same _ _ = false

-- A frame with nothing but variables.
abbrev pub Bindings : Type 0
Bindings = List (Text × Text)

abbrev pub get : Bindings → Text → Option Text
get [] name = none
get ((n, v) ∷ rest) name = if same n name then some v else get rest name

abbrev pub plain_variables : Variables Bindings
plain_variables = record { get = get; set = λ frame name value. (name, value) ∷ frame }
