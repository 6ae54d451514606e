-- ===== src/Api/Cluster.antt =====
-- pkg/apis/cluster/v1alpha1/cluster_types.go
use cma_ssh.Prelude.{String, Option}
use cma_ssh.Api.Meta.{ObjectMeta, TypeMeta, Time}
use cma_ssh.Api.Phase.{ClusterStatusPhase}

pub record ClusterSpec : Type 0 where
  pub kubernetes_version : String

pub record ClusterStatus : Type 0 where
  pub last_updated : Option Time
  pub api_endpoint : String
  pub phase : ClusterStatusPhase

pub record CnctCluster : Type 0 where
  pub type_meta : TypeMeta
  pub metadata : ObjectMeta
  pub spec : ClusterSpec
  pub status : ClusterStatus
