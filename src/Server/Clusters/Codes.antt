-- ===== src/Server/Clusters/Codes.antt =====
-- The errors of the handlers for clusters.
use cma_ssh.Prelude.{String, Option, some, none}
use cma_ssh.Prelude.Go.{done, caught, fail, panic, Outcome, ok, err, Result}
use cma_ssh.Api.Meta.{ObjectMeta}
use cma_ssh.World.{World}
use cma_ssh.Server.{ClusterDetailItem, CreateClusterMsg, ControlPlaneMachineSpec}
use cma_ssh.Server.Pools.{cluster_key}
use cma_ssh.Server.Pools.Codes.{create_pools-Coded}
use cma_ssh.Server.Clusters.{
  get_kube_config, control_plane_machine, new_namespace, new_cluster, create_control_plane,
  create_cluster, delete_namespace, delete_cluster, upgrade_cluster, get_cluster,
  get_cluster_nodes_status,
}
use cma_ssh.Server.Codes.{Coded, continue-Coded, rpc_call-Coded, rpc_find-Coded, internally-Coded}

module _ (w : World) where
  control_plane-Coded :
      (name : String) (nodes : Option ControlPlaneMachineSpec) (s : w.State)
      → Coded (create_control_plane w name nodes s)
  control_plane-Coded name none s = tt
  control_plane-Coded name (some config) s =
      rpc_call-Coded (w.kube.machines.create (control_plane_machine name config)) _ s (λ _ _. tt)

  namespace-Coded : (r : Result ObjectMeta) (s : w.State) → Coded (delete_namespace w r s)
  namespace-Coded (ok namespace) s = internally-Coded _ _
  namespace-Coded (err e) s = tt

  caught-Coded : (r : Outcome String) (s : w.State) → Coded (caught r, s)
  caught-Coded (done _) s = tt
  caught-Coded (fail _) s = tt
  caught-Coded (panic _) s = tt

  get_cluster-Coded : (name : String) (s : w.State) → Coded (get_cluster w name s)
  unfolding get_cluster
  get_cluster-Coded name s =
      continue-Coded {B = ClusterDetailItem} _ _ _
        (caught-Coded (get_kube_config w name s).0 (get_kube_config w name s).1)
        (λ kubeconfig.
          rpc_find-Coded {B = ClusterDetailItem} (w.kube.clusters.get (cluster_key name)) _
            (get_kube_config w name s).1 (λ _ _. tt))

  -- Whatever the API server answers, an error of the handlers that create, delete, upgrade and
  -- describe one cluster is a status of gRPC with a text.
  pub cluster-Coded :
      (msg : CreateClusterMsg) (name version : String) (s : w.State)
      → Coded (create_cluster w msg s)
        × Coded (delete_cluster w name s)
        × Coded (upgrade_cluster w name version s)
        × Coded (get_cluster w name s)
        × Coded (get_cluster_nodes_status w name s)
  unfolding create_cluster delete_cluster upgrade_cluster get_cluster_nodes_status
  cluster-Coded msg name version s =
      let get = w.kube.clusters.get (cluster_key name) in
      (
        rpc_call-Coded (w.kube.namespaces.create (new_namespace msg.name)) _ s (λ _ t.
            rpc_call-Coded (w.kube.clusters.create (new_cluster msg)) _ t (λ _ u.
              continue-Coded _ _ _ (control_plane-Coded msg.name msg.control_plane_nodes u) (λ _.
                continue-Coded _ _ _ (create_pools-Coded w msg.name msg.worker_node_pools _)
                  (λ _. tt)))),
        rpc_find-Coded get _ s (λ cluster t.
            rpc_call-Coded (w.kube.clusters.delete cluster) _ t (λ _ u. namespace-Coded _ _)),
        rpc_find-Coded get _ s (λ cluster t.
            rpc_call-Coded
              (w.kube.clusters.update
                (record cluster { spec = record cluster.spec { kubernetes_version = version } }))
              _ t (λ _ _. tt)),
        get_cluster-Coded name s,
        rpc_find-Coded get _ s (λ cluster t.
            rpc_find-Coded (w.kube.machines.list cluster.metadata.namespace) _ t (λ _ _. tt)),
      )
