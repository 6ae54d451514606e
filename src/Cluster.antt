-- ===== src/Cluster.antt =====
-- pkg/controller/cluster/cluster_controller.go: a cluster claims its machines, gets its certificates,
-- and is running once the services of its managed cluster are there. A result
-- beside an error is left out, since controller-runtime does not look at it.
pub mod Deletion
pub mod Services
pub mod Handover
pub mod Lifecycle
use cma_ssh.Prelude.{
  String, string_eq, ◌==◌, Bool, true, false, Option, none, some, List, [], ◌∷◌, ◌++◌,
  if◌then◌else◌,
}
use cma_ssh.Prelude.Go.{
  Exec, Call, return, throw, call, attempt, try, wrap, observe, ◌>>=◌, ◌>>◌, Result, ok, err, Err,
  wrapped, plain_error, is_not_found, lift, done,
}
use cma_ssh.Api.Meta.{ObjectKey, OwnerReference, Secret, Time, ReconcileResult, finished}
use cma_ssh.Api.Phase.{ClusterStatusPhase, unset_cluster, reconciling_cluster, running_cluster}
use cma_ssh.Api.Cluster.{CnctCluster}
use cma_ssh.Api.Machine.{CnctMachine}
use cma_ssh.World.{World}
use cma_ssh.Util.Lookup.{cluster_kind}
use cma_ssh.Cert.{CaBundle, merge_with_map}
use cma_ssh.Cert.Issue.{new_ca_bundle}
use cma_ssh.Machine.Create.{private_key, kubeconfig_data}
use cma_ssh.Machine.Ready.{ready_clientset}

abbrev pub in_one_second : ReconcileResult
in_one_second = record { requeue = false; requeue_after = 1000 }

-- The loop of `canClaim` over the owner references.
unfoldable pub no_controller : List OwnerReference → Bool
no_controller [] = true
no_controller (v ∷ refs) = elim v.controller [
  | some true ↦ false
  | some false ↦ no_controller refs
  | none ↦ no_controller refs
]

abbrev pub can_claim : CnctMachine → Bool
can_claim machine = no_controller machine.metadata.owner_references

abbrev with_cluster_phase : ClusterStatusPhase → CnctCluster → CnctCluster
with_cluster_phase phase cluster = record cluster {
  status = record cluster.status { phase = phase };
}

-- The secret of `createClusterSecrets`.
unfoldable pub cluster_secret : CnctCluster → CaBundle → Secret
cluster_secret cluster bundle = record {
  name = "cluster-private-key";
  namespace = cluster.metadata.namespace;
  type = "Opaque";
  contents = merge_with_map bundle [];
}

module _ (w : World) where
  abbrev pub claimed_machine : CnctCluster → CnctMachine → CnctMachine
  claimed_machine cluster machine = record machine {
    metadata = record machine.metadata {
      owner_references =
          machine.metadata.owner_references
          ++ w.kube.new_controller_ref cluster.metadata cluster_kind ∷ [];
    };
  }

  unfoldable pub claim_machines : CnctCluster → List CnctMachine → Exec w.State (Unit {0})
  claim_machines cluster [] s = (done tt, s)
  claim_machines cluster (machine ∷ machines) s =
      let (r, s1) = w.kube.machines.update (claimed_machine cluster machine) s in
      let rest = claim_machines cluster machines in
      if can_claim machine then elim r [ ok _ ↦ rest s1 | err e ↦ throw e s1 ] else rest s

  unfoldable pub create_cluster_secrets : CnctCluster → Exec w.State (Unit {0})
  create_cluster_secrets cluster = do
    bundle ← new_ca_bundle w
    created ← call (w.kube.secrets.create (cluster_secret cluster bundle))
    return tt

  abbrev freshened : CnctCluster → CnctCluster → Time → CnctCluster
  freshened instance_ fresh now = record fresh {
    metadata = record fresh.metadata { finalizers = instance_.metadata.finalizers };
    status = record fresh.status {
      last_updated = some now;
      phase = instance_.status.phase;
      api_endpoint = instance_.status.api_endpoint;
    };
  }

  unfoldable pub update_status : CnctCluster → String → String → String → Exec w.State (Unit {0})
  update_status instance_ event_type event event_message = do
    fresh ← call (
        w.kube.clusters.get
          (record { namespace = instance_.metadata.namespace; name = instance_.metadata.name }))
    now ← observe w.host.now
    updated ← call (w.kube.clusters.update (freshened instance_ fresh now))
    (λ s. (done tt, w.kube.eventf updated.metadata event_type event event_message s))

  -- What is left of a cluster whose object is gone: its secret, once its machines are gone.
  abbrev secret_left : Result Secret → Exec w.State ReconcileResult
  secret_left (ok secret) = do
    wrap "could not delete cluster secret" (call (w.kube.secrets.delete secret))
    return finished
  secret_left (err e) =
      if is_not_found e then return finished else throw (wrapped "could not get secret" e)

  abbrev machines_left : String → List CnctMachine → Exec w.State ReconcileResult
  machines_left namespace (_ ∷ _) = return in_one_second
  machines_left namespace [] = do
    secret ← attempt (w.kube.secrets.get (private_key namespace))
    secret_left secret

  unfoldable pub clean_up : String → Exec w.State ReconcileResult
  clean_up namespace = do
    machines ← wrap "could not list machines" (call (w.kube.machines.list namespace))
    machines_left namespace machines

  -- The case of the empty phase.
  unfoldable pub start : CnctCluster → Exec w.State ReconcileResult
  start cluster = do
    create_cluster_secrets cluster
    update_status (with_cluster_phase reconciling_cluster cluster) "Normal" "ResourceStateChange"
        "Resource %q changed state to %q"
    return finished

  -- The answer to the list of services.
  abbrev with_services : CnctCluster → Result (List String) → Exec w.State ReconcileResult
  with_services cluster (err e) =
      if is_not_found e
      then return (record { requeue = false; requeue_after = 5000 })
      else throw (wrapped "could not get service list" e)
  with_services cluster (ok []) = throw (plain_error "cluster services are not running")
  with_services cluster (ok (_ ∷ _)) = do
    wrap "could not update cluster status"
        (call (w.kube.clusters.update (with_cluster_phase running_cluster cluster)))
    return finished

  -- An error of `Get` is overwritten, and the secret is then empty.
  abbrev config_of : Result Secret → Option String
  config_of (ok secret) = kubeconfig_data secret
  config_of (err _) = none

  abbrev with_config : CnctCluster → Option String → Exec w.State ReconcileResult
  with_config cluster none = throw (plain_error "no kubeconfig in secret")
  with_config cluster (some config_data) = do
    clientset ← ready_clientset w config_data
    services ← attempt (w.remote.list_services clientset)
    with_services cluster services

  -- The case of the phase Reconciling.
  unfoldable pub check_services : CnctCluster → Exec w.State ReconcileResult
  check_services cluster = do
    secret ← attempt (w.kube.secrets.get (private_key cluster.metadata.namespace))
    with_config cluster (config_of secret)

  abbrev handle_phase : ClusterStatusPhase → CnctCluster → Exec w.State ReconcileResult
  handle_phase unset_cluster cluster = start cluster
  handle_phase reconciling_cluster cluster = check_services cluster
  handle_phase _ cluster = return finished

  abbrev first_request : Result (List CnctCluster) → List ObjectKey
  first_request (err _) = []
  first_request (ok []) = []
  first_request (ok (cluster ∷ _)) =
      record { namespace = cluster.metadata.namespace; name = cluster.metadata.name } ∷ []

  -- The function of `add` by which a change of a machine enqueues a cluster of its namespace.
  unfoldable pub machine_requests : String → w.State → List ObjectKey × w.State
  machine_requests namespace s =
      let (clusters, t) = w.kube.clusters.list namespace s in (first_request clusters, t)

  unfoldable pub reconcile_cluster : ObjectKey → CnctCluster → Exec w.State ReconcileResult
  reconcile_cluster request cluster = do
    machines ← call (w.kube.machines.list request.namespace)
    claim_machines cluster machines
    handle_phase cluster.status.phase cluster

  unfoldable pub reconcile : ObjectKey → Exec w.State ReconcileResult
  reconcile request = do
    got ← attempt (w.kube.clusters.get request)
    elim got [
      | ok cluster ↦ reconcile_cluster request cluster
      | err e ↦ if is_not_found e then clean_up request.namespace else throw e
    ]
