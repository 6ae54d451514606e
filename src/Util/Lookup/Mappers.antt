-- ===== src/Util/Lookup/Mappers.antt =====
-- The mappers of pkg/util against the lookup of a cluster's machines.
use cma_ssh.Prelude.{string_eq, ◌≡◌, refl, List, [], ◌∷◌, map, arith}
use cma_ssh.Prelude.Go.{Result, ok, err, done}
use cma_ssh.Api.Cluster.{CnctCluster}
use cma_ssh.Api.Machine.{CnctMachine}
use cma_ssh.World.{World}
use cma_ssh.Util.Lookup.{
  machine_key, machines_of, machine_requests, watched_cluster, get_cluster_machine_list,
  cluster_to_machine_map,
}

machine_requests-machines_of :
    (cluster : CnctCluster) (ms : List CnctMachine)
    → machine_requests cluster ms ≡ map machine_key (machines_of cluster.metadata.name ms)
unfolding machine_requests machines_of
machine_requests-machines_of cluster [] = refl
machine_requests-machines_of cluster (m ∷ ms) =
    ground (arith, machine_requests-machines_of cluster ms)

module _ (w : World) where
  map-listed :
      (cluster : CnctCluster) (s s' : w.State) (machines : List CnctMachine)
      (r : Result (List CnctMachine))
      → (w.kube.machines.list "" s).0 ≡ r
      → get_cluster_machine_list w cluster.metadata.name s ≡ (done machines, s')
      → cluster_to_machine_map w (watched_cluster cluster) s ≡ (map machine_key machines, s')
  unfolding get_cluster_machine_list cluster_to_machine_map
  map-listed cluster s s' machines (ok items) e h =
      ground (arith, machine_requests-machines_of cluster items)
  map-listed cluster s s' machines (err x) e h = ground arith

  -- When `GetClusterMachineList` returns the machines of the cluster with the name of a watched
  -- cluster, `ClusterToMachineMapper` enqueues, in the same state, exactly the keys of these machines
  -- in their order.
  pub cluster_to_machine_map-get_cluster_machine_list :
      (cluster : CnctCluster) (s s' : w.State) (machines : List CnctMachine)
      → get_cluster_machine_list w cluster.metadata.name s ≡ (done machines, s')
      → cluster_to_machine_map w (watched_cluster cluster) s ≡ (map machine_key machines, s')
  cluster_to_machine_map-get_cluster_machine_list cluster s s' machines h =
      map-listed cluster s s' machines _ refl h
