-- ===== src/Api/MachineSet.antt =====
-- pkg/apis/cluster/v1alpha1/machineset_types.go
use cma_ssh.Prelude.{String, Option, List}
use cma_ssh.Prelude.Int.{ℤ}
use cma_ssh.Api.Meta.{ObjectMeta, Time, StringMap}
use cma_ssh.Api.Phase.{MachineSetStatusPhase}
use cma_ssh.Api.Machine.{MachineSpec}

-- `metav1.LabelSelector` and its requirements
pub record LabelSelectorRequirement : Type 0 where
  pub key : String
  pub operator : String
  pub values : List String

pub record LabelSelector : Type 0 where
  pub match_labels : StringMap String
  pub match_expressions : List LabelSelectorRequirement

pub record MachineTemplate : Type 0 where
  pub metadata : ObjectMeta
  pub spec : MachineSpec

-- The source's `Replicas` is a Go `int`, and may be negative.
pub record MachineSetSpec : Type 0 where
  pub replicas : ℤ
  pub selector : LabelSelector
  pub machine_template : MachineTemplate

pub record MachineSetStatus : Type 0 where
  pub last_updated : Option Time
  pub phase : MachineSetStatusPhase
  pub replicas : ℤ
  pub fully_labeled_replicas : ℤ
  pub ready_replicas : ℤ
  pub observed_generation : ℤ
  pub error_reason : Option String
  pub error_message : Option String

pub record CnctMachineSet : Type 0 where
  pub metadata : ObjectMeta
  pub spec : MachineSetSpec
  pub status : MachineSetStatus
