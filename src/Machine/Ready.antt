-- ===== src/Machine/Ready.antt =====
-- `handleWaitingForReady`, `handleUpgrade`, `updateStatus` and `getCluster` of
-- pkg/controller/machine/machine_controller.go.
pub mod Kubelet
use cma_ssh.Prelude.{
  String, string_eq, ◌==◌, Bool, true, false, ◌&&◌, Option, none, some, List, [], ◌∷◌,
  if◌then◌else◌,
}
use cma_ssh.Prelude.Go.{
  Exec, Call, return, throw, call, attempt, try, wrap, observe, ◌>>=◌, ◌>>◌, Result, ok, err,
  wrapped, not_ready_error, is_not_found, lift, done,
}
use cma_ssh.Api.Meta.{ObjectKey, Secret, Time, ReconcileResult, finished}
use cma_ssh.Api.Phase.{MachineStatusPhase, ready_machine, upgrading_machine, machine_phase_eq}
use cma_ssh.Api.Cluster.{CnctCluster}
use cma_ssh.Api.Machine.{CnctMachine}
use cma_ssh.World.{World}
use cma_ssh.World.Remote.{Node, NodeCondition}
use cma_ssh.Util.Status.{is_ready_for_upgrade}
use cma_ssh.Util.Lookup.{get_cluster_name_from_machine_owner_ref, get_cluster_machine_list}
use cma_ssh.Machine.Create.{private_key, kubeconfig_data}

abbrev pub with_phase : MachineStatusPhase → CnctMachine → CnctMachine
with_phase phase machine = record machine { status = record machine.status { phase = phase } }

-- The loop over the conditions of the node.
unfoldable pub sees_kubelet_ready : List NodeCondition → Bool
sees_kubelet_ready [] = false
sees_kubelet_ready (v ∷ conditions) =
    if v.reason == "KubeletReady" && v.status == "True" then true else sees_kubelet_ready conditions

module _ (w : World) where
  unfoldable pub ready_clientset : String → Exec w.State w.remote.Clientset
  ready_clientset config_data = do
    config ←
        wrap "could not create new client config from secret"
          (λ s. (lift (w.remote.new_client_config_from_bytes config_data), s))
    rest_config ←
        wrap "could not create rest client config" (λ s. (lift (w.remote.client_config config), s))
    wrap "could not create a clientset" (λ s. (lift (w.remote.new_for_config rest_config), s))

  abbrev node_message : Result Node → String
  node_message (ok _) = ""
  node_message (err e) =
      if is_not_found e then "could not find node on apiserver" else "could not get node"

  -- `Update`, whose result the function returns.
  abbrev update_machine : CnctMachine → Exec w.State (Unit {0})
  update_machine machine = do updated ← call (w.kube.machines.update machine); return tt

  abbrev pub with_node : CnctMachine → Result Node → Exec w.State (Unit {0})
  with_node machine (err e) = throw (wrapped (node_message (err e)) e)
  with_node machine (ok node) =
      if sees_kubelet_ready node.conditions
      then update_machine (with_phase ready_machine machine)
      else throw (not_ready_error "did not see kubelet ready status")

  -- From the kubeconfig to the node.
  abbrev pub with_config : CnctMachine → Option String → Exec w.State (Unit {0})
  with_config machine none = throw (not_ready_error "no kubeconfig in secret")
  with_config machine (some config_data) = do
    clientset ← ready_clientset config_data
    node ← attempt (w.remote.get_node clientset machine.metadata.name)
    with_node machine node

  -- From the data of the secret on.
  unfoldable pub check_node : CnctMachine → Secret → Exec w.State (Unit {0})
  check_node machine secret = with_config machine (kubeconfig_data secret)

  -- Once the machine of a missing secret is deleted, the empty secret is read on.
  abbrev pub after_delete : CnctMachine → Result (Unit {0}) → Exec w.State (Unit {0})
  after_delete machine (ok _) =
      check_node machine (record { name = ""; namespace = ""; type = ""; contents = [] })
  after_delete machine (err e) =
      if is_not_found e
      then return tt
      else throw (wrapped "secret not found while wating for ready. deleting machine failed" e)

  abbrev pub with_secret : CnctMachine → Result Secret → Exec w.State (Unit {0})
  with_secret machine (ok secret) = check_node machine secret
  with_secret machine (err e) =
      if is_not_found e
      then (do deleted ← attempt (w.kube.machines.delete machine); after_delete machine deleted)
      else throw (wrapped "could not get secret" e)

  unfoldable pub handle_waiting_for_ready : CnctMachine → Exec w.State (Unit {0})
  handle_waiting_for_ready machine = do
    secret ← attempt (w.kube.secrets.get (private_key machine.metadata.namespace))
    with_secret machine secret

  unfoldable pub get_cluster : String → String → Call w.State CnctCluster
  get_cluster namespace cluster_name =
      w.kube.clusters.get (record { namespace = namespace; name = cluster_name })

  -- The fresh object with the fields of the instance.
  abbrev freshened : CnctMachine → CnctMachine → Time → CnctMachine
  freshened instance_ fresh now = record fresh {
    metadata = record fresh.metadata {
      annotations = instance_.metadata.annotations;
      finalizers = instance_.metadata.finalizers;
    };
    status = record fresh.status {
      phase = instance_.status.phase;
      kubernetes_version = instance_.status.kubernetes_version;
      last_updated = some now;
    };
  }

  unfoldable pub update_status : CnctMachine → String → String → String → Exec w.State (Unit {0})
  update_status instance_ event_type event event_message = do
    fresh ← call (
        w.kube.machines.get
          (record { namespace = instance_.metadata.namespace; name = instance_.metadata.name }))
    now ← observe w.host.now
    updated ← call (w.kube.machines.update (freshened instance_ fresh now))
    (λ s. (done tt, w.kube.eventf updated.metadata event_type event event_message s))

  -- What `IsReadyForUpgrade` answers: an error is logged and nothing is requeued.
  abbrev upgrade : CnctMachine → Result Bool → Exec w.State ReconcileResult
  upgrade machine (err e) = return finished
  upgrade machine (ok false) = return (record { requeue = true; requeue_after = 0 })
  upgrade machine (ok true) = do
    update_status (with_phase upgrading_machine machine) "Normal" "ResourceStateChange"
        "Resource %q changed state to %q"
    return finished

  unfoldable pub handle_upgrade : CnctMachine → Exec w.State ReconcileResult
  handle_upgrade machine =
      if machine.status.phase == upgrading_machine then return finished else (do
        cluster ← call (
            get_cluster machine.metadata.namespace
              (get_cluster_name_from_machine_owner_ref machine))
        machines ← get_cluster_machine_list w cluster.metadata.name
        upgrade machine (is_ready_for_upgrade machines))
