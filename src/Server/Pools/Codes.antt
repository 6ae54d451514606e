-- ===== src/Server/Pools/Codes.antt =====
-- The errors of the handlers for pools.
use cma_ssh.Prelude.{String, Bool, true, false, refl, List, [], ◌∷◌}
use cma_ssh.Prelude.Go.{ok, err, Result, message, internal}
use cma_ssh.World.{World}
use cma_ssh.MachineSet.Select.{validate_machine_set}
use cma_ssh.Server.{PoolSpec, ScaleNodePoolSpec}
use cma_ssh.Server.Pools.{
  checked, pool_machine_set, create_pool, create_pools, add_node_pool, delete_pools,
  delete_node_pool, scale_pools, scale_node_pool, set_key, cluster_key, with_replicas,
}
use cma_ssh.Server.Codes.{Coded, continue-Coded, rpc_call-Coded, rpc_find-Coded}

module _ (w : World) where
  checked-Coded : (r : Result Bool) (s : w.State) → Coded (checked w r s)
  checked-Coded (ok true) s = tt
  checked-Coded (ok false) s = tt
  checked-Coded (err e) s = (internal, message e, refl)

  create_pool-Coded :
      (name : String) (config : PoolSpec) (s : w.State) → Coded (create_pool w name config s)
  unfolding create_pool
  create_pool-Coded name config s =
      continue-Coded _ _ _ (checked-Coded (validate_machine_set w (pool_machine_set name config)) s)
        (λ _.
          rpc_call-Coded (w.kube.machine_sets.create (pool_machine_set name config)) _ _
            (λ _ _. tt))

  pub create_pools-Coded :
      (name : String) (configs : List PoolSpec) (s : w.State)
      → Coded (create_pools w name configs s)
  unfolding create_pools
  create_pools-Coded name [] s = tt
  create_pools-Coded name (config ∷ configs) s =
      continue-Coded _ _ _ (create_pool-Coded name config s)
        (λ _. create_pools-Coded name configs _)

  delete_pools-Coded :
      (name : String) (names : List String) (s : w.State) → Coded (delete_pools w name names s)
  unfolding delete_pools
  delete_pools-Coded name [] s = tt
  delete_pools-Coded name (pool ∷ pools) s =
      rpc_find-Coded (w.kube.machine_sets.get (set_key name pool)) _ s (λ ms t.
        rpc_call-Coded (w.kube.machine_sets.delete ms) _ t (λ _ u. delete_pools-Coded name pools u))

  scale_pools-Coded :
      (name : String) (pools : List ScaleNodePoolSpec) (s : w.State)
      → Coded (scale_pools w name pools s)
  unfolding scale_pools
  scale_pools-Coded name [] s = tt
  scale_pools-Coded name (pool ∷ pools) s =
      rpc_find-Coded (w.kube.machine_sets.get (set_key name pool.name)) _ s (λ ms t.
        rpc_call-Coded (w.kube.machine_sets.update (with_replicas pool.count ms)) _ t
          (λ _ u. scale_pools-Coded name pools u))

  -- Whatever the API server answers, an error of the handlers that create, delete or scale node pools
  -- is a status of gRPC with a text.
  pub node_pool-Coded :
      (name : String) (configs : List PoolSpec) (names : List String)
      (pools : List ScaleNodePoolSpec) (s : w.State)
      → Coded (add_node_pool w name configs s)
        × Coded (delete_node_pool w name names s)
        × Coded (scale_node_pool w name pools s)
  unfolding add_node_pool delete_node_pool scale_node_pool
  node_pool-Coded name configs names pools s =
      let get = w.kube.clusters.get (cluster_key name) in
      (
        rpc_find-Coded get _ s (λ _ t. create_pools-Coded name configs t),
        rpc_find-Coded get _ s (λ _ t. delete_pools-Coded name names t),
        rpc_find-Coded get _ s (λ _ t. scale_pools-Coded name pools t),
      )
