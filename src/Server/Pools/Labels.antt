-- ===== src/Server/Pools/Labels.antt =====
-- What the sets of a request are to the machine set controller.
use cma_ssh.Prelude.{ℕ, String, string_eq, string_discrete, ◌≡◌, refl, some, List, [], ◌∷◌, arith}
use cma_ssh.Prelude.Int.{negsuc}
use cma_ssh.Prelude.Go.{done, panic, ok, deadlock}
use cma_ssh.Api.Meta.{find_string, set_string}
use cma_ssh.Api.Meta.Maps.{find_string-set_string}
use cma_ssh.Api.Machine.{CnctMachine}
use cma_ssh.Api.MachineSet.{CnctMachineSet}
use cma_ssh.Api.Cluster.{CnctCluster}
use cma_ssh.World.{World}
use cma_ssh.MachineSet.Sync.{sync_replicas}
use cma_ssh.MachineSet.Sync.Scale.{sync_replicas-deadlock}
use cma_ssh.Server.{PoolSpec}
use cma_ssh.Server.Pools.{
  request_labels, pool_labels, scale_pools, scale_node_pool, with_replicas, set_key, cluster_key,
}

pub pool_labels-node_pool :
    (config : PoolSpec) → find_string (pool_labels config) "node-pool" ≡ some config.name
unfolding pool_labels string_discrete
pool_labels-node_pool config = ground (
  arith,
  find_string-set_string
      (set_string (request_labels config.labels []) "controller-tools.k8s.io" "1.0") "node-pool"
      config.name "node-pool",
)

module _ (w : World) where
  -- For a request to scale a pool to a negative count, the handler answers without an error once the
  -- cluster and the set are read and the update is accepted; and the machine set controller, on the
  -- set that was sent, never comes back, whatever machines there are and in whatever state.
  pub scale_node_pool-deadlock :
      (cluster_name name : String) (k : ℕ) (cluster : CnctCluster) (ms ms' : CnctMachineSet)
      (machines : List CnctMachine) (s s₁ s₂ s₃ t : w.State)
      → w.kube.clusters.get (cluster_key cluster_name) s ≡ (ok cluster, s₁)
      → w.kube.machine_sets.get (set_key cluster_name name) s₁ ≡ (ok ms, s₂)
      → w.kube.machine_sets.update (with_replicas (negsuc k) ms) s₂ ≡ (ok ms', s₃)
      → (scale_node_pool w cluster_name (record { name = name; count = negsuc k } ∷ []) s
          ≡ (done tt, s₃))
        × ((sync_replicas w (with_replicas (negsuc k) ms) machines t).0 ≡ panic deadlock)
  unfolding scale_node_pool scale_pools
  scale_node_pool-deadlock cluster_name name k cluster ms ms' machines s s₁ s₂ s₃ t c g u =
      (ground arith, sync_replicas-deadlock w (with_replicas (negsuc k) ms) machines k t refl)
