-- ===== src/Machine/Delete/Ways.antt =====
-- `handleDelete`, by the ways through it.
use cma_ssh.Prelude.{
  String, ◌<>◌, string_eq, ◌≡◌, if◌then◌else◌, false, Option, none, some, List, [], ◌∷◌, arith,
}
use cma_ssh.Prelude.Go.{Err, wrapped, Result, ok, err, call, wrap, attempt, throw, is_not_found}
use cma_ssh.Prelude.Go.Ends as Go
use cma_ssh.Prelude.Go.Ends.{ComesBack}
use cma_ssh.Api.Meta.{Secret, is_zero}
use cma_ssh.Api.Cluster.{CnctCluster}
use cma_ssh.Api.Machine.{CnctMachine}
use cma_ssh.World.{World}
use cma_ssh.World.Remote.{Pod, Node}
use cma_ssh.Machine.Create.{private_key, kubeconfig_data}
use cma_ssh.Machine.Delete.{
  cordon, wrapped_clientset, delete_pods, drain, delete_object, node_deleted, with_node,
  with_config, with_secret, with_clusters, remove_node, delete_from_cluster, handle_delete,
}
use cma_ssh.Machine.Delete.Release.{Detached, Final, Ends, delete_object-Ends}

module _ (w : World) where
  cordon-ComesBack :
      (clientset : w.remote.Clientset) (node : Node) (s : w.State)
      → ComesBack (cordon w clientset node s)
  unfolding cordon
  cordon-ComesBack clientset node s = ground arith

  wrapped_clientset-ComesBack :
      (config_data : String) (s : w.State) → ComesBack (wrapped_clientset w config_data s)
  unfolding wrapped_clientset
  wrapped_clientset-ComesBack config_data s = ground arith

  delete_pods-ComesBack :
      (clientset : w.remote.Clientset) (pods : List Pod) (s : w.State)
      → ComesBack (delete_pods w clientset pods s)
  unfolding delete_pods
  delete_pods-ComesBack clientset [] s = tt
  delete_pods-ComesBack clientset (pod ∷ pods) s =
      ground (arith, delete_pods-ComesBack clientset pods (w.remote.delete_pod clientset pod s).1)

  drain-ComesBack :
      (clientset : w.remote.Clientset) (pods : List Pod) (policy : String) (s : w.State)
      → ComesBack (drain w clientset pods policy s)
  unfolding drain
  drain-ComesBack clientset pods policy s = ground (arith, delete_pods-ComesBack clientset pods s)

  -- Not found, or a wrapped error.
  either-Ends :
      (machine : CnctMachine) (e : Err) (m : String)
      → Ends w machine (if is_not_found e then delete_object w machine else throw (wrapped m e))
  either-Ends machine e m =
      Go.if-Ends ⊥ (λ _. Detached w machine) (is_not_found e) _ _ (delete_object-Ends w machine)
        (Go.throw-Ends ⊥ (λ _. Detached w machine) _)

  node_deleted-Ends :
      (machine : CnctMachine) (r : Result (Unit {0})) → Ends w machine (node_deleted w machine r)
  node_deleted-Ends machine (ok _) = delete_object-Ends w machine
  node_deleted-Ends machine (err e) = either-Ends machine e "could not delete node"

  remove_node-Ends :
      (machine : CnctMachine) (clientset : w.remote.Clientset) (node : Node)
      → Ends w machine (remove_node w machine clientset node)
  unfolding remove_node
  remove_node-Ends machine clientset node =
      Go.Ends-then ⊥ (λ _. Detached w machine) (cordon w clientset node) _
        (cordon-ComesBack clientset node)
        (λ _.
          Go.Ends-then ⊥ (λ _. Detached w machine)
            (wrap "could not list pods on node for eviction"
              (call (w.remote.get_pods_for_deletion clientset node.name)))
            _ (λ s. ground arith)
            (λ pods.
              Go.Ends-then ⊥ (λ _. Detached w machine)
                (call (w.remote.check_eviction_support clientset)) _ (λ s. ground arith)
                (λ policy.
                  Go.Ends-then ⊥ (λ _. Detached w machine) (drain w clientset pods policy) _
                    (drain-ComesBack clientset pods policy)
                    (λ _.
                      Go.Ends-then ⊥ (λ _. Detached w machine)
                        (attempt (w.remote.delete_node clientset machine.metadata.name)) _ (λ s. tt)
                        (node_deleted-Ends machine)))))

  with_node-Ends :
      (machine : CnctMachine) (clientset : w.remote.Clientset) (r : Result Node)
      → Ends w machine (with_node w machine clientset r)
  with_node-Ends machine clientset (ok node) = remove_node-Ends machine clientset node
  with_node-Ends machine clientset (err e) =
      either-Ends machine e ("could not get node " <> machine.metadata.name)

  with_config-Ends :
      (machine : CnctMachine) (d : Option String) → Ends w machine (with_config w machine d)
  with_config-Ends machine none = Go.throw-Ends ⊥ (λ _. Detached w machine) _
  with_config-Ends machine (some config_data) =
      Go.Ends-then ⊥ (λ _. Detached w machine) (wrapped_clientset w config_data) _
        (wrapped_clientset-ComesBack config_data)
        (λ clientset.
          Go.Ends-then ⊥ (λ _. Detached w machine)
            (attempt (w.remote.get_node clientset machine.metadata.name)) _ (λ s. tt)
            (with_node-Ends machine clientset))

  with_secret-Ends :
      (machine : CnctMachine) (r : Result Secret) → Ends w machine (with_secret w machine r)
  with_secret-Ends machine (ok secret) = with_config-Ends machine (kubeconfig_data secret)
  with_secret-Ends machine (err e) = either-Ends machine e "could not get cluster secret"

  delete_from_cluster-Ends :
      (machine : CnctMachine) (cluster : CnctCluster)
      → Ends w machine (delete_from_cluster w machine cluster)
  unfolding delete_from_cluster
  delete_from_cluster-Ends machine cluster =
      Go.if-Ends ⊥ (λ _. Detached w machine) _ _ _ (delete_object-Ends w machine)
        (Go.Ends-then ⊥ (λ _. Detached w machine)
          (attempt (w.kube.secrets.get (private_key cluster.metadata.namespace))) _ (λ s. tt)
          (with_secret-Ends machine))

  with_clusters-Ends :
      (machine : CnctMachine) (clusters : List CnctCluster)
      → Ends w machine (with_clusters w machine clusters)
  with_clusters-Ends machine [] = delete_object-Ends w machine
  with_clusters-Ends machine (cluster ∷ []) = delete_from_cluster-Ends machine cluster
  with_clusters-Ends machine (cluster ∷ _ ∷ _) = Go.throw-Ends ⊥ (λ _. Detached w machine) _

  -- `handleDelete` never panics, whatever the API server, the managed cluster and MAAS answer. When
  -- it returns nil, its last call was an update that the API server accepted, of a machine without
  -- the finalizer, and before that MAAS was asked to release the machine, if it has a system id.
  pub handle_delete-Ends :
      (machine : CnctMachine) (s : w.State) → Final w machine (handle_delete w machine s)
  unfolding handle_delete Go.Ends
  handle_delete-Ends machine =
      Go.Ends-then ⊥ (λ _. Detached w machine)
        (wrap "could not list clusters" (call (w.kube.clusters.list machine.metadata.namespace))) _
        (λ s. ground arith) (with_clusters-Ends machine)

  -- When the namespace has one cluster and it is being deleted, `handleDelete` asks nothing of the
  -- managed cluster: it is `deleteMachine` with its error wrapped.
  pub handle_delete-cluster_deleted :
      (machine : CnctMachine) (s s' : w.State) (cluster : CnctCluster)
      → w.kube.clusters.list machine.metadata.namespace s ≡ (ok (cluster ∷ []), s')
      → is_zero cluster.metadata.deletion_timestamp ≡ false
      → handle_delete w machine s ≡ delete_object w machine s'
  unfolding handle_delete delete_from_cluster
  handle_delete-cluster_deleted machine s s' cluster h d = ground arith
