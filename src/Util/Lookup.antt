-- ===== src/Util/Lookup.antt =====
-- pkg/util: the cluster that a machine names in its owner references, the cluster of a namespace,
-- and the requests that the two mappers enqueue.
pub mod Mappers
use cma_ssh.Prelude.{String, string_eq, ◌==◌, List, [], ◌∷◌, if◌then◌else◌}
use cma_ssh.Prelude.Go.{Exec, return, throw, call, ◌>>=◌, plain_error, ok, err}
use cma_ssh.Api.Meta.{OwnerReference, ObjectKey}
use cma_ssh.Api.Cluster.{CnctCluster}
use cma_ssh.Api.Machine.{CnctMachine}
use cma_ssh.World.{World}

abbrev pub cluster_kind : String
cluster_kind = "CnctCluster"

-- The loop over the owner references.
unfoldable pub cluster_name_in : List OwnerReference → String
cluster_name_in [] = ""
cluster_name_in (ref ∷ refs) = if ref.kind == cluster_kind then ref.name else cluster_name_in refs

abbrev pub get_cluster_name_from_machine_owner_ref : CnctMachine → String
get_cluster_name_from_machine_owner_ref m = cluster_name_in m.metadata.owner_references

-- The machines of the list that name the cluster, as `GetClusterMachineList` collects them.
unfoldable pub machines_of : String → List CnctMachine → List CnctMachine
machines_of cluster_name [] = []
machines_of cluster_name (item ∷ items) =
    let rest = machines_of cluster_name items in
    if get_cluster_name_from_machine_owner_ref item == cluster_name then item ∷ rest else rest

abbrev pub machine_key : CnctMachine → ObjectKey
machine_key m = record { namespace = m.metadata.namespace; name = m.metadata.name }

abbrev cluster_key : CnctCluster → ObjectKey
cluster_key c = record { namespace = c.metadata.namespace; name = c.metadata.name }

-- The loops of the two mappers.
unfoldable pub machine_requests : CnctCluster → List CnctMachine → List ObjectKey
machine_requests cluster [] = []
machine_requests cluster (machine ∷ machines) =
    let rest = machine_requests cluster machines in
    if get_cluster_name_from_machine_owner_ref machine == cluster.metadata.name
    then machine_key machine ∷ rest
    else rest

unfoldable pub cluster_requests : CnctMachine → List CnctCluster → List ObjectKey
cluster_requests machine [] = []
cluster_requests machine (cluster ∷ clusters) =
    let rest = cluster_requests machine clusters in
    if cluster.metadata.name == get_cluster_name_from_machine_owner_ref machine
    then cluster_key cluster ∷ rest
    else rest

-- The object of a `handler.MapObject`, by its dynamic type.
pub data WatchedObject : Type 0 where
  watched_cluster : CnctCluster → WatchedObject
  watched_machine : CnctMachine → WatchedObject
  watched_other : WatchedObject

-- The checks on the list of a namespace's clusters.
unfoldable pub only_cluster : {S : Type 0} → List CnctCluster → Exec S CnctCluster
only_cluster [] = throw (plain_error "No cluster Items found")
only_cluster (cluster ∷ []) = return cluster
only_cluster (_ ∷ _ ∷ _) = throw (plain_error "Found more than one cluster in namespace")

module _ (w : World) where
  unfoldable pub get_cluster_machine_list : String → Exec w.State (List CnctMachine)
  get_cluster_machine_list cluster_name = do
    items ← call (w.kube.machines.list "")
    return (machines_of cluster_name items)

  unfoldable pub get_cluster_from_namespace : String → Exec w.State CnctCluster
  get_cluster_from_namespace namespace = do
    items ← call (w.kube.clusters.list namespace)
    only_cluster items

  -- `ClusterToMachineMapper.Map`: an error of the list call yields no request.
  unfoldable pub cluster_to_machine_map : WatchedObject → w.State → List ObjectKey × w.State
  cluster_to_machine_map (watched_cluster cluster) s =
      let (r, s') = w.kube.machines.list "" s in
      (elim r [ ok machines ↦ machine_requests cluster machines | err _ ↦ [] ], s')
  cluster_to_machine_map _ s = ([], s)

  -- `MachineToClusterMapper.Map`
  unfoldable pub machine_to_cluster_map : WatchedObject → w.State → List ObjectKey × w.State
  machine_to_cluster_map (watched_machine machine) s =
      let (r, s') = w.kube.clusters.list "" s in
      (elim r [ ok clusters ↦ cluster_requests machine clusters | err _ ↦ [] ], s')
  machine_to_cluster_map _ s = ([], s)
