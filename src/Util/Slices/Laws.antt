-- ===== src/Util/Slices/Laws.antt =====
-- What `RemoveString` leaves.
use cma_ssh.Prelude.{String, string_eq, ◌==◌, ◌≡◌, refl, false, List, [], ◌∷◌, if◌then◌else◌, arith}
use cma_ssh.Util.Slices.{contains_string, remove_string}

-- After `RemoveString(slice, s)`, `s` is not in the slice, and every other string is in it exactly
-- if it was before.
pub contains_string-remove_string :
    (slice : List String) (s t : String)
    → contains_string (remove_string slice s) t
      ≡ (if s == t then false else contains_string slice t)
unfolding contains_string remove_string
contains_string-remove_string [] s t = ground arith
contains_string-remove_string (item ∷ slice) s t =
    ground (arith, contains_string-remove_string slice s t)

-- A slice without `s` is left alone.
pub remove_string_absent :
    (slice : List String) (s : String)
    → contains_string slice s ≡ false
    → remove_string slice s ≡ slice
unfolding contains_string remove_string
remove_string_absent [] s h = refl
remove_string_absent (item ∷ slice) s h = ground (arith, remove_string_absent slice s)
