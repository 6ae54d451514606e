-- ===== src/Server/Pools.antt =====
-- internal/apiserver/pool.go: pools of workers are machine sets.
pub mod Labels
pub mod Separate
pub mod Codes
pub mod Store
pub mod Refinement
pub mod Stored
use cma_ssh.Prelude.{String, Bool, true, false, Option, List, [], ◌∷◌}
use cma_ssh.Prelude.Int.{ℤ, pos}
use cma_ssh.Prelude.Go.{
  Exec, return, throw, crash, ◌>>=◌, ◌>>◌, Result, ok, err, rpc_error, internal, message,
  nil_dereference,
}
use cma_ssh.Api.Meta.{ObjectKey, StringMap, set_string, empty_meta}
use cma_ssh.Api.Phase.{worker, unset_machine_set}
use cma_ssh.Api.MachineSet.{CnctMachineSet, MachineSetStatus}
use cma_ssh.World.{World}
use cma_ssh.MachineSet.Select.{validate_machine_set}
use cma_ssh.Server.{KubernetesLabel, PoolSpec, ScaleNodePoolSpec, rpc_call, rpc_find}

-- The zero value of a status.
abbrev empty_set_status : MachineSetStatus
empty_set_status = record {
  last_updated = Option.none;
  phase = unset_machine_set;
  replicas = pos 0;
  fully_labeled_replicas = pos 0;
  ready_replicas = pos 0;
  observed_generation = pos 0;
  error_reason = Option.none;
  error_message = Option.none;
}

-- The loop over the labels of a request.
unfoldable pub request_labels : List KubernetesLabel → StringMap String → StringMap String
request_labels [] m = m
request_labels (label ∷ labels) m = request_labels labels (set_string m label.name label.value)

-- The labels of a pool's set and of its machines.
unfoldable pub pool_labels : PoolSpec → StringMap String
pool_labels config =
    set_string (set_string (request_labels config.labels []) "controller-tools.k8s.io" "1.0")
      "node-pool" config.name

-- The machine set of a pool in the namespace of its cluster.
unfoldable pub pool_machine_set : String → PoolSpec → CnctMachineSet
pool_machine_set cluster_name config = record {
  metadata = record empty_meta {
    name = config.name;
    namespace = cluster_name;
    labels = pool_labels config;
  };
  spec = record {
    replicas = config.count;
    selector = record { match_labels = ("node-pool", config.name) ∷ []; match_expressions = [] };
    machine_template = record {
      metadata = record empty_meta { labels = pool_labels config };
      spec = record {
        taints = [];
        roles = worker ∷ [];
        provider_id = Option.none;
        instance_type = config.instance_type;
      };
    };
  };
  status = empty_set_status;
}

-- The key of a cluster: its namespace has its name.
abbrev pub cluster_key : String → ObjectKey
cluster_key name = record { namespace = name; name = name }

abbrev set_key : String → String → ObjectKey
set_key cluster_name name = record { namespace = cluster_name; name = name }

abbrev pub with_replicas : ℤ → CnctMachineSet → CnctMachineSet
with_replicas count machine_set = record machine_set {
  spec = record machine_set.spec { replicas = count };
}

module _ (w : World) where
  -- The check of `ValidateMachineSet`'s two results: without an error, `err.Error()` is a call on nil.
  abbrev checked : Result Bool → Exec w.State (Unit {0})
  checked (ok true) = return tt
  checked (ok false) = crash nil_dereference
  checked (err e) = throw (rpc_error internal (message e))

  -- One round of the loop over the pools of a request.
  unfoldable pub create_pool : String → PoolSpec → Exec w.State (Unit {0})
  create_pool cluster_name config = do
    checked (validate_machine_set w (pool_machine_set cluster_name config))
    created ← rpc_call (w.kube.machine_sets.create (pool_machine_set cluster_name config))
    return tt

  unfoldable pub create_pools : String → List PoolSpec → Exec w.State (Unit {0})
  create_pools cluster_name [] = return tt
  create_pools cluster_name (config ∷ configs) = do
    create_pool cluster_name config
    create_pools cluster_name configs

  unfoldable pub add_node_pool : String → List PoolSpec → Exec w.State (Unit {0})
  add_node_pool cluster_name configs = do
    cluster ← rpc_find (w.kube.clusters.get (cluster_key cluster_name))
    create_pools cluster_name configs

  -- The loops of the other two handlers.
  unfoldable pub delete_pools : String → List String → Exec w.State (Unit {0})
  delete_pools cluster_name [] = return tt
  delete_pools cluster_name (name ∷ names) = do
    machine_set ← rpc_find (w.kube.machine_sets.get (set_key cluster_name name))
    rpc_call (w.kube.machine_sets.delete machine_set)
    delete_pools cluster_name names

  unfoldable pub delete_node_pool : String → List String → Exec w.State (Unit {0})
  delete_node_pool cluster_name names = do
    cluster ← rpc_find (w.kube.clusters.get (cluster_key cluster_name))
    delete_pools cluster_name names

  unfoldable pub scale_pools : String → List ScaleNodePoolSpec → Exec w.State (Unit {0})
  scale_pools cluster_name [] = return tt
  scale_pools cluster_name (pool ∷ pools) = do
    machine_set ← rpc_find (w.kube.machine_sets.get (set_key cluster_name pool.name))
    updated ← rpc_call (w.kube.machine_sets.update (with_replicas pool.count machine_set))
    scale_pools cluster_name pools

  unfoldable pub scale_node_pool : String → List ScaleNodePoolSpec → Exec w.State (Unit {0})
  scale_node_pool cluster_name pools = do
    cluster ← rpc_find (w.kube.clusters.get (cluster_key cluster_name))
    scale_pools cluster_name pools
