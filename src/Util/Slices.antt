-- ===== src/Util/Slices.antt =====
-- pkg/util/controller-utils.go: `ContainsRole`, `ContainsString`, `RemoveString`.
pub mod Laws
use cma_ssh.Prelude.{String, string_eq, ◌==◌, Bool, true, false, List, [], ◌∷◌, if◌then◌else◌}
use cma_ssh.Api.Phase.{MachineRoles, role_eq}

unfoldable pub contains_role : List MachineRoles → MachineRoles → Bool
contains_role [] s = false
contains_role (item ∷ slice) s = if item == s then true else contains_role slice s

unfoldable pub contains_string : List String → String → Bool
contains_string [] s = false
contains_string (item ∷ slice) s = if item == s then true else contains_string slice s

unfoldable pub remove_string : List String → String → List String
remove_string [] s = []
remove_string (item ∷ slice) s =
    let rest = remove_string slice s in if item == s then rest else item ∷ rest
