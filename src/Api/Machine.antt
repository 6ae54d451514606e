-- ===== src/Api/Machine.antt =====
-- pkg/apis/cluster/v1alpha1/machine_types.go
use cma_ssh.Prelude.{ℕ, String, Option, none, List}
use cma_ssh.Api.Meta.{ObjectMeta, TypeMeta, Time}
use cma_ssh.Api.Phase.{MachineStatusPhase, unset_machine, MachineRoles}

abbrev pub machine_finalizer : String
machine_finalizer = "cnctmachine.cluster.cnct.sds.samsung.com"

-- A taint is its text: the program copies taints and never reads them.
pub record MachineSpec : Type 0 where
  pub taints : List String
  pub roles : List MachineRoles
  pub provider_id : Option String
  pub instance_type : String

pub record MachineSshConfigInfo : Type 0 where
  pub username : String
  pub host : String
  pub port : ℕ

pub record MachineStatus : Type 0 where
  pub last_updated : Option Time
  pub phase : MachineStatusPhase
  pub kubernetes_version : String
  pub ssh_config : MachineSshConfigInfo
  pub system_id : String

pub record CnctMachine : Type 0 where
  pub type_meta : TypeMeta
  pub metadata : ObjectMeta
  pub spec : MachineSpec
  pub status : MachineStatus

-- The zero value of a status.
abbrev pub empty_status : MachineStatus
empty_status = record {
  last_updated = none;
  phase = unset_machine;
  kubernetes_version = "";
  ssh_config = record { username = ""; host = ""; port = 0 };
  system_id = "";
}
