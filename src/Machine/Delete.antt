-- ===== src/Machine/Delete.antt =====
-- pkg/controller/machine/delete.go: a machine's node is drained, the machine is released, and its
-- finalizer is taken away.
pub mod Release
pub mod Ways
pub mod Polling
pub mod Eviction
use cma_ssh.Prelude.{
  ℕ, String, ◌<>◌, string_eq, ◌==◌, Bool, true, false, not, ◌&&◌, ◌||◌, Option, none, some, List,
  [], ◌∷◌, if◌then◌else◌,
}
use cma_ssh.Prelude.Go.{
  Exec, Call, return, throw, crash, call, attempt, wrap, observe, ◌>>=◌, ◌>>◌, Result, ok, err, Err,
  status_error, not_found, too_many_requests, plain_error, done, try, wrapped, not_ready_error,
  is_not_found, nil_dereference, lift,
}
use cma_ssh.Api.Meta.{Secret, is_zero}
use cma_ssh.Api.Cluster.{CnctCluster}
use cma_ssh.Api.Machine.{CnctMachine, machine_finalizer}
use cma_ssh.World.{World}
use cma_ssh.World.Remote.{Pod, Node}
use cma_ssh.Util.Slices.{remove_string}
use cma_ssh.Maas.{delete}
use cma_ssh.Machine.Create.{private_key, kubeconfig_data}

-- `machine.Finalizers = util.RemoveString(machine.Finalizers, MachineFinalizer)`
unfoldable pub without_finalizer : CnctMachine → CnctMachine
without_finalizer machine = record machine {
  metadata = record machine.metadata {
    finalizers = remove_string machine.metadata.finalizers machine_finalizer;
  };
}

-- The poll's test that a pod is gone: an error that says so, or a pod with another UID.
unfoldable pub is_gone : Pod → Option Pod × Option Err → Bool
is_gone pod (p, e) =
    elim e [ none ↦ false | some x ↦ is_not_found x ]
    || elim p [ none ↦ false | some q ↦ not (q.uid == pod.uid) ]

-- What the loop of the poll makes of one pod and of the rest: `list.Pods()[i]` is kept.
abbrev keep : Pod → Bool → Result (List Pod) → Result (List Pod)
keep listed gone (err e) = err e
keep listed gone (ok pods) = ok (if gone then pods else listed ∷ pods)

module _ (w : World) where
  -- The error of the release is wrapped with `*machine.Spec.ProviderID`, which may be nil.
  abbrev pub released : CnctMachine → Result (Unit {0}) → Exec w.State (Unit {0})
  released machine (ok _) = return tt
  released machine (err e) = elim machine.spec.provider_id [
    | none ↦ crash nil_dereference
    | some id ↦ throw (
        wrapped ("could not delete machine " <> machine.metadata.name <> " with system id " <> id)
          e)
  ]

  -- The release in MAAS, for a machine that has a system id.
  unfoldable pub release_machine : CnctMachine → Exec w.State (Unit {0})
  release_machine machine = if machine.status.system_id == "" then return tt else (do
    result ← try (delete w (record { provider_id = ""; system_id = machine.status.system_id }))
    released machine result)

  unfoldable pub delete_machine : CnctMachine → Exec w.State (Unit {0})
  delete_machine machine = do
    release_machine machine
    updated ←
        wrap "could not remove finalizer"
          (call (w.kube.machines.update (without_finalizer machine)))
    return tt

  -- The call of `deleteMachine` at the end of each way through `handleDelete`.
  abbrev pub delete_object : CnctMachine → Exec w.State (Unit {0})
  delete_object machine = wrap "could not delete machine object" (delete_machine machine)

  -- `clientcmd.NewClientConfigFromBytes`, `ClientConfig` and `kubernetes.NewForConfig`, the error of
  -- each wrapped.
  unfoldable pub wrapped_clientset : String → Exec w.State w.remote.Clientset
  wrapped_clientset config_data = do
    config ←
        wrap "could not create client config"
          (λ s. (lift (w.remote.new_client_config_from_bytes config_data), s))
    rest_config ←
        wrap "could not create rest config" (λ s. (lift (w.remote.client_config config), s))
    wrap "could not create clientset" (λ s. (lift (w.remote.new_for_config rest_config), s))

  abbrev cordon_error : Option Err × Option Err → Exec w.State (Unit {0})
  cordon_error (none, _) = return tt
  cordon_error (some e, _) = throw (wrapped "could not cordon node" e)

  unfoldable pub cordon : w.remote.Clientset → Node → Exec w.State (Unit {0})
  cordon clientset node =
      if w.remote.update_if_required node
      then (do errors ← observe (w.remote.patch_or_replace clientset node); cordon_error errors)
      else return tt

  -- The loop of the poll over the pods that were pending and over `list.Pods()` beside them. The
  -- pods that are pending are never more than those of the list.
  unfoldable pub pending_pods : w.remote.Clientset → List Pod → List Pod → Call w.State (List Pod)
  pending_pods clientset [] _ s = (ok [], s)
  pending_pods clientset (pod ∷ pods) [] s = (ok [], s)
  pending_pods clientset (pod ∷ pods) (listed ∷ all) s =
      let (got, s1) = w.remote.get_pod clientset pod.namespace pod.name s in
      let (rest, s2) = pending_pods clientset pods all s1 in
      if is_gone pod got
      then (rest, s2)
      else elim got.1 [ some e ↦ (err e, s1) | none ↦ (keep listed false rest, s2) ]

  -- The condition of the poll, with the variable `pods`.
  unfoldable pub pods_deleted :
      w.remote.Clientset → List Pod → List Pod → Call w.State (Bool × List Pod)
  pods_deleted clientset all pods s =
      let (r, s') = pending_pods clientset pods all s in
      elim r [
        | err e ↦ (err e, s')
        | ok [] ↦ (ok (true, []), s')
        | ok (p ∷ ps) ↦ (ok (false, p ∷ ps), s')
      ]

  -- The loop over the pods to delete: a pod that is not there is no error.
  unfoldable pub delete_pods : w.remote.Clientset → List Pod → Exec w.State (Unit {0})
  delete_pods clientset [] s = return tt s
  delete_pods clientset (pod ∷ pods) s =
      let (r, s1) = w.remote.delete_pod clientset pod s in
      let rest = delete_pods clientset pods s1 in
      elim r [
        | ok _ ↦ rest
        | err e ↦ if is_not_found e then rest else throw (wrapped "could not delete pods" e) s1
      ]

  -- With support for eviction, goroutines are started that evict the pods, and nothing waits for
  -- them. Without it, the pods are deleted and polled for a minute, every second.
  unfoldable pub drain : w.remote.Clientset → List Pod → String → Exec w.State (Unit {0})
  drain clientset pods policy =
      if policy == ""
      then (do
        delete_pods clientset pods
        wrap "error while polling for deleted pods" (
            call (
              w.host.poll_immediate_with (List Pod) 1000 60000 (pods_deleted clientset pods) pods)))
      else (λ s. (done tt, w.host.background Pod pods s))

  abbrev pub node_deleted : CnctMachine → Result (Unit {0}) → Exec w.State (Unit {0})
  node_deleted machine (ok _) = delete_object machine
  node_deleted machine (err e) =
      if is_not_found e then delete_object machine else throw (wrapped "could not delete node" e)

  -- What `handleDelete` does once the node is there.
  unfoldable pub remove_node : CnctMachine → w.remote.Clientset → Node → Exec w.State (Unit {0})
  remove_node machine clientset node = do
    cordon clientset node
    pods ←
        wrap "could not list pods on node for eviction"
          (call (w.remote.get_pods_for_deletion clientset node.name))
    policy ← call (w.remote.check_eviction_support clientset)
    drain clientset pods policy
    result ← attempt (w.remote.delete_node clientset machine.metadata.name)
    node_deleted machine result

  abbrev pub with_node : CnctMachine → w.remote.Clientset → Result Node → Exec w.State (Unit {0})
  with_node machine clientset (ok node) = remove_node machine clientset node
  with_node machine clientset (err e) =
      if is_not_found e
      then delete_object machine
      else throw (wrapped ("could not get node " <> machine.metadata.name) e)

  -- From the kubeconfig to the node.
  abbrev pub with_config : CnctMachine → Option String → Exec w.State (Unit {0})
  with_config machine none = throw (not_ready_error "no kubeconfig in secret")
  with_config machine (some config_data) = do
    clientset ← wrapped_clientset config_data
    node ← attempt (w.remote.get_node clientset machine.metadata.name)
    with_node machine clientset node

  abbrev pub with_secret : CnctMachine → Result Secret → Exec w.State (Unit {0})
  with_secret machine (ok secret) = with_config machine (kubeconfig_data secret)
  with_secret machine (err e) =
      if is_not_found e
      then delete_object machine
      else throw (wrapped "could not get cluster secret" e)

  -- What `handleDelete` does with the one cluster of the namespace.
  unfoldable pub delete_from_cluster : CnctMachine → CnctCluster → Exec w.State (Unit {0})
  delete_from_cluster machine cluster =
      if machine.status.system_id == "" || not (is_zero cluster.metadata.deletion_timestamp)
      then delete_object machine
      else (do
        secret ← attempt (w.kube.secrets.get (private_key cluster.metadata.namespace))
        with_secret machine secret)

  abbrev pub with_clusters : CnctMachine → List CnctCluster → Exec w.State (Unit {0})
  with_clusters machine [] = delete_object machine
  with_clusters machine (cluster ∷ []) = delete_from_cluster machine cluster
  with_clusters machine (cluster ∷ _ ∷ _) =
      throw (plain_error "expected the number of clusters to be 1")

  unfoldable pub handle_delete : CnctMachine → Exec w.State (Unit {0})
  handle_delete machine = do
    clusters ←
        wrap "could not list clusters" (call (w.kube.clusters.list machine.metadata.namespace))
    with_clusters machine clusters
