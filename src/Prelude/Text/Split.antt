-- ===== src/Prelude/Text/Split.antt =====
-- `split` takes apart what separators join.
use Prim.Native.Char.{Char, code}
use Prim.Native.String.append
use cma_ssh.Prelude.{ℕ, String, ◌<>◌, ◌≡◌, refl, [], ◌∷◌, arith}
use cma_ssh.Prelude.Text.{split, Free}

pub split-Free : (sep : ℕ) (s : String) → Free sep s → split sep s ≡ s ∷ []
unfolding split
split-Free sep String.[] f = refl
split-Free sep (String.◌∷◌ c s) f = ground (arith, split-Free sep s f.1)

pub split-append :
    (sep : ℕ) (a : String) (c : Char) (b : String)
    → Free sep a
    → code c ≡ sep
    → split sep (a <> String.◌∷◌ c b) ≡ a ∷ split sep b
unfolding split
split-append sep String.[] c b f e = rw append.nil (ground arith)
split-append sep (String.◌∷◌ d a) c b f e =
    rw append.cons (ground (arith, split-append sep a c b f.1 e))

pub Free-append : (sep : ℕ) (a b : String) → Free sep a → Free sep b → Free sep (a <> b)
Free-append sep String.[] b f g = rw append.nil g
Free-append sep (String.◌∷◌ c a) b f g = rw append.cons (f.0, Free-append sep a b f.1 g)
