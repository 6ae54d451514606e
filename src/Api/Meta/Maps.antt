-- ===== src/Api/Meta/Maps.antt =====
-- Reading a map after a write.
use cma_ssh.Prelude.{String, string_eq, ◌==◌, ◌≡◌, refl, some, [], ◌∷◌, arith, if◌then◌else◌}
use cma_ssh.Api.Meta.{StringMap, find_string, set_string}

pub find_string-set_string :
    (m : StringMap String) (k v j : String)
    → find_string (set_string m k v) j ≡ (if k == j then some v else find_string m j)
unfolding find_string set_string
find_string-set_string [] k v j = refl
find_string-set_string ((i, u) ∷ m) k v j = ground (arith, find_string-set_string m k v j)
