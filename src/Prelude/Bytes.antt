-- ===== src/Prelude/Bytes.antt =====
-- Strings as byte lists, and the C locale's character classes.
use Prim.Native.Nat.{ℕ}
use mathlib.Core.Bool.{Bool, true, false, ◌&&◌, ◌||◌}
use mathlib.Core.List.{List, [], ◌∷◌}
use mathlib.Core.Logic.{◌↔◌}
use mathlib.Core.Path.{◌≡◌, refl}
use native.Mathlib.Omega.{arith}
use migash.Prelude.Tests.{leb, ◌==◌, ==_iff}

-- The bytes of a `string_t`, without its final NUL.
abbrev pub Text : Type 0
Text = List ℕ

abbrev pub is_digit : ℕ → Bool
is_digit c = leb b'0' c && leb c b'9'

abbrev pub is_alpha : ℕ → Bool
is_alpha c = (leb b'a' c && leb c b'z') || (leb b'A' c && leb c b'Z')

-- Space, and the five characters from tab to carriage return.
abbrev pub is_space : ℕ → Bool
is_space c = c == 32 || (leb 9 c && leb c 13)

-- `string_eq`
abbrev pub string_eq : Text → Text → Bool
string_eq [] [] = true
string_eq (a ∷ as') (b ∷ bs) = a == b && string_eq as' bs
string_eq _ _ = false

pub string_eq_iff : (a b : Text) → (string_eq a b ≡ true) ↔ (a ≡ b)
string_eq_iff [] [] = (λ h. refl, λ h. refl)
string_eq_iff [] (y ∷ b) = (λ h. cc, λ h. cc)
string_eq_iff (x ∷ a) [] = (λ h. cc, λ h. cc)
string_eq_iff (x ∷ a) (y ∷ b) = ground (arith, string_eq_iff a b, ==_iff x y)
