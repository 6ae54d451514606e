-- ===== src/World/Kube.antt =====
-- The API server, as controller-runtime's `client.Client` and `record.EventRecorder` show it, and
-- the helpers of apimachinery that the program calls.
use cma_ssh.Prelude.{String, Bool, Option, List}
use cma_ssh.Prelude.Go.{Call, Result}
use cma_ssh.Api.Meta.{ObjectMeta, ObjectKey, OwnerReference, Secret, StringMap}
use cma_ssh.Api.Cluster.{CnctCluster}
use cma_ssh.Api.Machine.{CnctMachine}
use cma_ssh.Api.MachineSet.{CnctMachineSet, LabelSelector}
use cma_ssh.Api.AppBundle.{AppBundle}

-- The calls for one kind of object. `list` takes a namespace, or "" for all. `create` and `update`
-- return the object as the server sends it back.
pub record Resource (S T : Type 0) : Type 0 where
  pub get : ObjectKey → Call S T
  pub list : String → Call S (List T)
  pub create : T → Call S T
  pub update : T → Call S T
  pub delete : T → Call S (Unit {0})

pub record Kube (S : Type 0) : Type 0 where
  pub clusters : Resource S CnctCluster
  pub machines : Resource S CnctMachine
  pub machine_sets : Resource S CnctMachineSet
  pub secrets : Resource S Secret
  pub namespaces : Resource S ObjectMeta
  pub app_bundles : Resource S AppBundle
  -- `Eventf(object, type, reason, message)`
  pub eventf : ObjectMeta → String → String → String → S → S
  -- `metav1.GetControllerOf`, `metav1.IsControlledBy`, `metav1.NewControllerRef` (by kind)
  pub get_controller_of : ObjectMeta → Option OwnerReference
  pub is_controlled_by : ObjectMeta → ObjectMeta → Bool
  pub new_controller_ref : ObjectMeta → String → OwnerReference

-- `labels.Selector` and how selectors are made.
pub record Labels : Type 1 where
  pub Selector : Type 0
  pub label_selector_as_selector : LabelSelector → Result Selector
  pub as_selector_pre_validated : StringMap String → Selector
  pub matches : Selector → StringMap String → Bool
  pub empty : Selector → Bool
