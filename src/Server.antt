-- ===== src/Server.antt =====
-- internal/apiserver: the gRPC server. The messages are those of the generated package api, as far
-- as the handlers read or fill them; a field that holds a message is a pointer, which may be nil, and
-- the items of a list are not nil, since a request is decoded.
pub mod Calls
pub mod Codes
pub mod Pools
pub mod Clusters
use cma_ssh.Prelude.{String, Bool, true, false, Option, List, if◌then◌else◌}
use cma_ssh.Prelude.Int.{ℤ}
use cma_ssh.Prelude.Go.{
  Exec, Call, throw, return, Result, ok, err, Err, rpc_error, internal, not_found_code, message,
  is_not_found,
}

pub record KubernetesLabel : Type 0 where
  pub name : String
  pub value : String

pub record ControlPlaneMachineSpec : Type 0 where
  pub labels : List KubernetesLabel
  pub instance_type : String
  pub count : ℤ

-- `MachineSpec` of the package api: a pool of workers.
pub record PoolSpec : Type 0 where
  pub name : String
  pub labels : List KubernetesLabel
  pub instance_type : String
  pub count : ℤ

pub record CreateClusterMsg : Type 0 where
  pub name : String
  pub k8s_version : String
  pub control_plane_nodes : Option ControlPlaneMachineSpec
  pub worker_node_pools : List PoolSpec

pub record ScaleNodePoolSpec : Type 0 where
  pub name : String
  pub count : ℤ

pub data ClusterStatusCode : Type 0 where
  status_unspecified provisioning running reconciling stopping error degraded : ClusterStatusCode

pub record ClusterItem : Type 0 where
  pub name : String
  pub status : ClusterStatusCode

pub record ClusterDetailItem : Type 0 where
  pub name : String
  pub status : ClusterStatusCode
  pub kubeconfig : String

pub record MachineStatusItem : Type 0 where
  pub k8s_node_status : String
  pub k8s_version : String
  pub maas_system_id : String
  pub maas_hostname : String
  pub maas_ip_addr : String

pub record NodesStatus : Type 0 where
  pub name : String
  pub count : ℤ
  pub machines : List MachineStatusItem

module _ {S A : Type 0} where
  -- `status.Error(codes.Internal, err.Error())` for any error
  abbrev pub internally : Result A → Exec S A
  internally (ok a) = return a
  internally (err e) = throw (rpc_error internal (message e))

  -- The same, where an error that says so becomes `codes.NotFound`.
  abbrev pub found : Result A → Exec S A
  found (ok a) = return a
  found (err e) =
      throw (rpc_error (if is_not_found e then not_found_code else internal) (message e))

  -- A call of the API server whose error is answered with `codes.Internal`.
  abbrev pub rpc_call : Call S A → Exec S A
  rpc_call f s = let (r, s') = f s in internally r s'

  abbrev pub rpc_find : Call S A → Exec S A
  rpc_find f s = let (r, s') = f s in found r s'
