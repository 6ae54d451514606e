-- ===== src/Prelude/Text.antt =====
-- `strings.Split` by a separator of one character, which is given by its code.
pub mod Split
use Prim.Native.Char.{Char, code}
use Prim.Native.Nat.{compare, Ordering}
use cma_ssh.Prelude.{ℕ, String, ◌≢◌, Bool, true, false, List, [], ◌∷◌, if◌then◌else◌}

infix 50 ◌=ℕ◌
abbrev pub ◌=ℕ◌ : ℕ → ℕ → Bool
a =ℕ b = elim (compare a b) [ Ordering.eq ↦ true | _ ↦ false ]

-- The character goes before the first field.
prefix_first : Char → List String → List String
prefix_first c [] = String.◌∷◌ c String.[] ∷ []
prefix_first c (field ∷ fields) = String.◌∷◌ c field ∷ fields

unfoldable pub split : ℕ → String → List String
unfolding prefix_first
split sep String.[] = "" ∷ []
split sep (String.◌∷◌ c s) =
    let rest = split sep s in if code c =ℕ sep then "" ∷ rest else prefix_first c rest

-- The text does not hold the character.
abbrev pub Free : ℕ → String → Type 0
Free sep String.[] = Unit
Free sep (String.◌∷◌ c s) = (code c ≢ sep) × Free sep s
