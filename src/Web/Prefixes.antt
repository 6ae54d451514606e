-- ===== src/Web/Prefixes.antt =====
-- Prefixes of a path that exclude each other.
use Prim.Native.Char.{code}
use cma_ssh.Prelude.{String, ◌≡◌, refl, Bool, true, false, Option, some, ◌&&◌, if◌then◌else◌, arith}
use cma_ssh.Prelude.Text.{◌=ℕ◌}
use cma_ssh.Web.Http.{trim_prefix, has_prefix}

-- The two texts differ at a place that both have.
unfoldable pub diverge : String → String → Bool
diverge String.[] t = false
diverge (String.◌∷◌ c s) String.[] = false
diverge (String.◌∷◌ c s) (String.◌∷◌ d t) =
    let rest = diverge s t in if code c =ℕ code d then rest else true

trim_prefix_self : (k : String) → trim_prefix k k ≡ some ""
unfolding trim_prefix
trim_prefix_self String.[] = refl
trim_prefix_self (String.◌∷◌ c k) = ground (arith, trim_prefix_self k)

-- No path has both prefixes.
pub has_prefix_apart :
    (k j path : String) → diverge k j ≡ true → (has_prefix k path && has_prefix j path) ≡ false
unfolding diverge trim_prefix
has_prefix_apart String.[] j path d = absurd (cc)
has_prefix_apart (String.◌∷◌ c k) String.[] path d = absurd (cc)
has_prefix_apart (String.◌∷◌ c k) (String.◌∷◌ b j) String.[] d = refl
has_prefix_apart (String.◌∷◌ c k) (String.◌∷◌ b j) (String.◌∷◌ a path) d =
    ground (arith, has_prefix_apart k j path)

pub trim_prefix_whole : (k path : String) → k ≡ path → trim_prefix k path ≡ some ""
trim_prefix_whole k path e = rw (← e) (trim_prefix_self k)

pub trim_prefix_at :
    (k j path : String) (o : Option String)
    → trim_prefix k j ≡ o
    → j ≡ path
    → trim_prefix k path ≡ o
trim_prefix_at k j path o h e = rw (← e) h
