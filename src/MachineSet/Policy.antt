-- ===== src/MachineSet/Policy.antt =====
-- pkg/controller/machineset/delete_policy.go: which machines go when a set shrinks. The priorities
-- are whole floats, 100.0, 50.0 and 20.0, and only compared.
pub mod Priority
use cma_ssh.Prelude.{
  ℕ, String, string_eq, ◌==◌, Bool, true, false, not, ◌&&◌, Option, none, some, List, [], ltb, take,
  length, if◌then◌else◌,
}
use cma_ssh.Prelude.Int.{ℤ, pos, pos_part, leb_ℤ}
use cma_ssh.Api.Meta.{is_zero, get_string}
use cma_ssh.Api.Machine.{CnctMachine}

abbrev pub must_delete : ℕ
must_delete = 100

abbrev pub better_delete : ℕ
better_delete = 50

abbrev pub could_delete : ℕ
could_delete = 20

abbrev pub delete_node_annotation : String
delete_node_annotation = "cluster.k8s.io/delete-machine"

unfoldable pub random_delete_policy : CnctMachine → ℕ
random_delete_policy machine =
    if not (is_zero machine.metadata.deletion_timestamp)
    then must_delete
    else if not (get_string machine.metadata.annotations delete_node_annotation == "")
    then better_delete
    else could_delete

-- `sortableMachines.Less` on the machines themselves: high to low.
abbrev pub less : (CnctMachine → ℕ) → CnctMachine → CnctMachine → Bool
less priority a b = ltb (priority b) (priority a)

-- `sort` is `sort.Sort`, by a `Less`.
unfoldable pub get_machines_to_delete_prioritized :
    ((CnctMachine → CnctMachine → Bool) → List CnctMachine → List CnctMachine)
    → List CnctMachine
    → ℤ
    → (CnctMachine → ℕ)
    → List CnctMachine
get_machines_to_delete_prioritized sort filtered_machines diff fun =
    if leb_ℤ (pos (length filtered_machines)) diff
    then filtered_machines
    else if leb_ℤ diff (pos 0)
    then []
    else take (pos_part diff) (sort (less fun) filtered_machines)
