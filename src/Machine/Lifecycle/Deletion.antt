-- ===== src/Machine/Lifecycle/Deletion.antt =====
-- `handleDelete` and what it calls, and `Delete` of the client of MAAS.
use cma_ssh.Prelude.{String, string_eq, ◌==◌, ◌||◌, not, Option, none, some, List, [], ◌∷◌, arith}
use cma_ssh.Prelude.Go.{Result, ok, err, is_not_found, wrap, call, attempt}
use cma_ssh.Api.Meta.{Secret, is_zero}
use cma_ssh.Api.Cluster.{CnctCluster}
use cma_ssh.Api.Machine.{CnctMachine}
use cma_ssh.World.{World}
use cma_ssh.World.Remote.{Node, Pod}
use cma_ssh.Maas as Maas
use cma_ssh.Maas.{DeleteRequest}
use cma_ssh.Machine.Create.{private_key, kubeconfig_data}
use cma_ssh.Machine.Delete.{
  without_finalizer, released, release_machine, delete_machine, delete_object, wrapped_clientset,
  cordon, pending_pods, pods_deleted, delete_pods, drain, node_deleted, remove_node, with_node,
  with_config, with_secret, delete_from_cluster, with_clusters, handle_delete,
}
use cma_ssh.Prelude.Go.Kept.{KeptBy, KeptBy-bind, KeptBy-if}
use cma_ssh.Machine.Lifecycle.{Outside}

module _ (w : World) (I : w.State → Type 0) (Sent : CnctMachine → Type 0)
    (outside : Outside w I Sent) where
  pub delete-KeptBy : (request : DeleteRequest) → KeptBy I (Maas.delete w request)
  unfolding Maas.delete
  delete-KeptBy request =
      KeptBy-if I (request.system_id == "") _ _ (λ s i. i)
        (λ s i. outside.release_machines (request.system_id ∷ []) s i)

  released-KeptBy :
      (machine : CnctMachine) (r : Result (Unit {0})) → KeptBy I (released w machine r)
  released-KeptBy machine r s i = ground arith

  release_machine-KeptBy : (machine : CnctMachine) → KeptBy I (release_machine w machine)
  unfolding release_machine
  release_machine-KeptBy machine =
      KeptBy-if I (machine.status.system_id == "") _ _ (λ s i. i)
        (KeptBy-bind I _ _ (delete-KeptBy _) (released-KeptBy machine))

  delete_machine-KeptBy :
      (machine : CnctMachine)
      → Sent (without_finalizer machine)
      → KeptBy I (delete_machine w machine)
  unfolding delete_machine
  delete_machine-KeptBy machine sent = KeptBy-bind I _ _ (release_machine-KeptBy machine) (λ _.
      KeptBy-bind I
        (wrap "could not remove finalizer"
          (call (w.kube.machines.update (without_finalizer machine))))
        _ (outside.update_machine (without_finalizer machine) sent) (λ updated s i. i))

  delete_object-KeptBy :
      (machine : CnctMachine)
      → Sent (without_finalizer machine)
      → KeptBy I (delete_object w machine)
  delete_object-KeptBy machine sent = delete_machine-KeptBy machine sent

  wrapped_clientset-KeptBy : (config_data : String) → KeptBy I (wrapped_clientset w config_data)
  unfolding wrapped_clientset
  wrapped_clientset-KeptBy config_data s i = ground arith

  cordon-KeptBy :
      (clientset : w.remote.Clientset) (node : Node) → KeptBy I (cordon w clientset node)
  unfolding cordon
  cordon-KeptBy clientset node s i = ground (arith, outside.patch_or_replace clientset node s i)

  pending_pods-KeptBy :
      (clientset : w.remote.Clientset) (pods all : List Pod)
      → KeptBy I (pending_pods w clientset pods all)
  unfolding pending_pods
  pending_pods-KeptBy clientset [] all s i = i
  pending_pods-KeptBy clientset (pod ∷ pods) [] s i = i
  pending_pods-KeptBy clientset (pod ∷ pods) (listed ∷ all) s i =
      let (got, s₁) = w.remote.get_pod clientset pod.namespace pod.name s in
      let kept : I s₁ = outside.get_pod clientset pod.namespace pod.name s i in
      ground (arith, kept, pending_pods-KeptBy clientset pods all s₁ kept)

  pods_deleted-KeptBy :
      (clientset : w.remote.Clientset) (all pods : List Pod)
      → KeptBy I (pods_deleted w clientset all pods)
  unfolding pods_deleted
  pods_deleted-KeptBy clientset all pods s i =
      ground (arith, pending_pods-KeptBy clientset pods all s i)

  delete_pods-KeptBy :
      (clientset : w.remote.Clientset) (pods : List Pod) → KeptBy I (delete_pods w clientset pods)
  unfolding delete_pods
  delete_pods-KeptBy clientset [] s i = i
  delete_pods-KeptBy clientset (pod ∷ pods) s i =
      let kept = outside.delete_pod clientset pod s i in
      ground (arith, kept, delete_pods-KeptBy clientset pods _ kept)

  drain-KeptBy :
      (clientset : w.remote.Clientset) (pods : List Pod) (policy : String)
      → KeptBy I (drain w clientset pods policy)
  unfolding drain
  drain-KeptBy clientset pods policy =
      KeptBy-if I (policy == "") _ _
        (KeptBy-bind I _ _ (delete_pods-KeptBy clientset pods) (λ _.
          outside.poll_immediate_with (List Pod) 1000 60000 (pods_deleted w clientset pods) pods
            (pods_deleted-KeptBy clientset pods)))
        (outside.background Pod pods)

  node_deleted-KeptBy :
      (machine : CnctMachine)
      → Sent (without_finalizer machine)
      → (r : Result (Unit {0})) → KeptBy I (node_deleted w machine r)
  node_deleted-KeptBy machine sent (ok _) = delete_object-KeptBy machine sent
  node_deleted-KeptBy machine sent (err e) =
      KeptBy-if I (is_not_found e) _ _ (delete_object-KeptBy machine sent) (λ s i. i)

  remove_node-KeptBy :
      (machine : CnctMachine)
      → Sent (without_finalizer machine)
      → (clientset : w.remote.Clientset) (node : Node)
      → KeptBy I (remove_node w machine clientset node)
  unfolding remove_node
  remove_node-KeptBy machine sent clientset node =
      KeptBy-bind I (cordon w clientset node) _ (cordon-KeptBy clientset node) (λ _.
        KeptBy-bind I
          (wrap "could not list pods on node for eviction"
            (call (w.remote.get_pods_for_deletion clientset node.name)))
          _ (outside.get_pods_for_deletion clientset node.name)
          (λ pods.
            KeptBy-bind I (call (w.remote.check_eviction_support clientset)) _
              (outside.check_eviction_support clientset)
              (λ policy.
                KeptBy-bind I (drain w clientset pods policy) _ (drain-KeptBy clientset pods policy)
                  (λ _.
                    KeptBy-bind I (attempt (w.remote.delete_node clientset machine.metadata.name))
                      (node_deleted w machine) (outside.delete_node clientset machine.metadata.name)
                      (node_deleted-KeptBy machine sent)))))

  with_node-KeptBy :
      (machine : CnctMachine)
      → Sent (without_finalizer machine)
      → (clientset : w.remote.Clientset) (r : Result Node)
      → KeptBy I (with_node w machine clientset r)
  with_node-KeptBy machine sent clientset (ok node) = remove_node-KeptBy machine sent clientset node
  with_node-KeptBy machine sent clientset (err e) =
      KeptBy-if I (is_not_found e) _ _ (delete_object-KeptBy machine sent) (λ s i. i)

  with_config-KeptBy :
      (machine : CnctMachine)
      → Sent (without_finalizer machine)
      → (found : Option String) → KeptBy I (with_config w machine found)
  with_config-KeptBy machine sent none = λ s i. i
  with_config-KeptBy machine sent (some config_data) =
      KeptBy-bind I (wrapped_clientset w config_data) _ (wrapped_clientset-KeptBy config_data)
        (λ clientset.
          KeptBy-bind I (attempt (w.remote.get_node clientset machine.metadata.name))
            (with_node w machine clientset) (outside.get_node clientset machine.metadata.name)
            (with_node-KeptBy machine sent clientset))

  with_secret-KeptBy :
      (machine : CnctMachine)
      → Sent (without_finalizer machine)
      → (r : Result Secret) → KeptBy I (with_secret w machine r)
  with_secret-KeptBy machine sent (ok secret) =
      with_config-KeptBy machine sent (kubeconfig_data secret)
  with_secret-KeptBy machine sent (err e) =
      KeptBy-if I (is_not_found e) _ _ (delete_object-KeptBy machine sent) (λ s i. i)

  with_clusters-KeptBy :
      (machine : CnctMachine)
      → Sent (without_finalizer machine)
      → (clusters : List CnctCluster) → KeptBy I (with_clusters w machine clusters)
  unfolding delete_from_cluster
  with_clusters-KeptBy machine sent [] = delete_object-KeptBy machine sent
  with_clusters-KeptBy machine sent (cluster ∷ []) =
      KeptBy-if I
        (machine.status.system_id == "" || not (is_zero cluster.metadata.deletion_timestamp)) _ _
        (delete_object-KeptBy machine sent)
        (KeptBy-bind I (attempt (w.kube.secrets.get (private_key cluster.metadata.namespace)))
          (with_secret w machine) (outside.get_secret (private_key cluster.metadata.namespace))
          (with_secret-KeptBy machine sent))
  with_clusters-KeptBy machine sent (cluster ∷ _ ∷ _) = λ s i. i

  pub handle_delete-KeptBy :
      (machine : CnctMachine)
      → Sent (without_finalizer machine)
      → KeptBy I (handle_delete w machine)
  unfolding handle_delete
  handle_delete-KeptBy machine sent =
      KeptBy-bind I
        (wrap "could not list clusters" (call (w.kube.clusters.list machine.metadata.namespace)))
        (with_clusters w machine) (outside.list_clusters machine.metadata.namespace)
        (with_clusters-KeptBy machine sent)
