-- ===== src/Util/Status.antt =====
-- pkg/util/controller-utils.go: `GetStatus`, `IsReadyForDeletion`, `IsReadyForUpgrade`,
-- `ContainsStatuses`, `KubernetesVersions`.
pub mod Phases
use cma_ssh.Prelude.{String, ◌<>◌, ◌==◌, Bool, true, false, ◌&&◌, List, [], ◌∷◌, if◌then◌else◌}
use cma_ssh.Prelude.Text.{split}
use cma_ssh.Prelude.Go.{Result, ok, err, plain_error}
use cma_ssh.Api.Phase.{
  MachineStatusPhase, unset_machine, provisioning_machine, upgrading_machine, deleting_machine,
  ready_machine, error_machine, machine_phase_eq, master, ClusterStatusPhase, unspecified_cluster,
  running_cluster, reconciling_cluster, error_cluster, api_endpoint_port,
}
use cma_ssh.Api.Machine.{CnctMachine}
use cma_ssh.Util.Slices.{contains_role}

-- `KubernetesVersions`
unfoldable pub kubernetes_versions : List String
kubernetes_versions = split b' ' "1.12.6 1.13.4"

-- The inner loop of `ContainsStatuses`.
contains_phase : List MachineStatusPhase → MachineStatusPhase → Bool
contains_phase [] phase = false
contains_phase (item ∷ ss) phase = if phase == item then true else contains_phase ss phase

unfoldable pub contains_statuses : List CnctMachine → List MachineStatusPhase → Bool
unfolding contains_phase
contains_statuses [] ss = false
contains_statuses (item ∷ machines) ss =
    if contains_phase ss item.status.phase then true else contains_statuses machines ss

-- The loop over the machines that sets `apiEndpoint`; the last ready master wins.
unfoldable pub find_api_endpoint : List CnctMachine → String → String
find_api_endpoint [] found = found
find_api_endpoint (machine ∷ machines) found = find_api_endpoint machines (
    if machine.status.phase == ready_machine && contains_role machine.spec.roles master
    then machine.status.ssh_config.host <> ":" <> api_endpoint_port
    else found)

unfoldable pub get_status : List CnctMachine → ClusterStatusPhase × String
get_status [] = (unspecified_cluster, "")
get_status (m ∷ ms) =
    let machines = m ∷ ms in
    let api_endpoint = find_api_endpoint machines "" in
    if contains_statuses machines (error_machine ∷ [])
    then (error_cluster, api_endpoint)
    else if contains_statuses machines
        (deleting_machine ∷ provisioning_machine ∷ upgrading_machine ∷ unset_machine ∷ [])
    then (reconciling_cluster, api_endpoint)
    else (running_cluster, api_endpoint)

unfoldable pub is_ready_for_deletion : List CnctMachine → Bool
is_ready_for_deletion [] = true
is_ready_for_deletion (m ∷ ms) =
    if contains_statuses (m ∷ ms) (provisioning_machine ∷ upgrading_machine ∷ unset_machine ∷ [])
    then false
    else true

unfoldable pub is_ready_for_upgrade : List CnctMachine → Result Bool
is_ready_for_upgrade [] = ok true
is_ready_for_upgrade (m ∷ ms) =
    if contains_statuses (m ∷ ms) (provisioning_machine ∷ unset_machine ∷ [])
    then ok false
    else if contains_statuses (m ∷ ms) (error_machine ∷ [])
    then err (plain_error "cannot upgrade, some of the cluster machines are in error state")
    else ok true
