-- ===== src/Api/Phase.antt =====
-- pkg/apis/cluster/common/consts.go. The phases and roles are Go strings with named constants:
-- `unset` is the empty string, and `other_…` any string that is none of the constants.
use cma_ssh.Prelude.{String, Eq, string_discrete}

pub data MachineStatusPhase : Type 0 where
  unset_machine : MachineStatusPhase
  provisioning_machine upgrading_machine deleting_machine : MachineStatusPhase
  ready_machine error_machine : MachineStatusPhase
  other_machine : String → MachineStatusPhase

pub data MachineSetStatusPhase : Type 0 where
  unset_machine_set unspecified_machine_set ready_machine_set : MachineSetStatusPhase
  reconciling_machine_set deleting_machine_set error_machine_set : MachineSetStatusPhase
  other_machine_set : String → MachineSetStatusPhase

pub data ClusterStatusPhase : Type 0 where
  unset_cluster unspecified_cluster running_cluster : ClusterStatusPhase
  reconciling_cluster stopping_cluster error_cluster : ClusterStatusPhase
  other_cluster : String → ClusterStatusPhase

pub data MachineRoles : Type 0 where
  master etcd worker : MachineRoles
  other_role : String → MachineRoles

unfoldable pub MachineStatusPhase-discrete : Discrete MachineStatusPhase
MachineStatusPhase-discrete = hlevel string_discrete

unfoldable pub MachineRoles-discrete : Discrete MachineRoles
MachineRoles-discrete = hlevel string_discrete

instance abbrev pub machine_phase_eq : Eq MachineStatusPhase
machine_phase_eq = record { dec = MachineStatusPhase-discrete }

instance abbrev pub role_eq : Eq MachineRoles
role_eq = record { dec = MachineRoles-discrete }

-- `ApiEndpointPort`
abbrev pub api_endpoint_port : String
api_endpoint_port = "6443"
