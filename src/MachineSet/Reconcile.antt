-- ===== src/MachineSet/Reconcile.antt =====
-- `reconcile` and `Reconcile` of pkg/controller/machineset/machineset_controller.go.
pub mod Branches
pub mod Failed
pub mod Recorded
use cma_ssh.Prelude.{
  String, Bool, true, false, not, ◌&&◌, Option, some, List, [], ◌∷◌, ◌++◌, if◌then◌else◌,
}
use cma_ssh.Prelude.Go.{
  Exec, return, throw, call, try, attempt, wrap, ◌>>=◌, ◌>>◌, Result, ok, err, Err, wrapped,
  message, is_not_found, lift,
}
use cma_ssh.Api.Meta.{ObjectKey, OwnerReference, ReconcileResult, finished, is_zero}
use cma_ssh.Api.Phase.{MachineSetStatusPhase, ready_machine_set, error_machine_set}
use cma_ssh.Api.Cluster.{CnctCluster}
use cma_ssh.Api.Machine.{CnctMachine}
use cma_ssh.Api.MachineSet.{CnctMachineSet}
use cma_ssh.World.{World}
use cma_ssh.Util.Slices.{contains_string}
use cma_ssh.Util.Lookup.{get_cluster_from_namespace}
use cma_ssh.MachineSet.Select.{validate_machine_set, filter_machines}
use cma_ssh.MachineSet.Sync.{sync_replicas}
use cma_ssh.MachineSet.Status.{calculate_status, update_status}

-- `metav1.FinalizerDeleteDependents`
abbrev pub finalizer_delete_dependents : String
finalizer_delete_dependents = "foregroundDeletion"

-- The owner reference to the cluster, for a set that has none.
unfoldable pub with_owner : CnctCluster → CnctMachineSet → CnctMachineSet
with_owner cluster ms = elim ms.metadata.owner_references [
  | _ ∷ _ ↦ ms
  | [] ↦ record ms { metadata = record ms.metadata { owner_references = owner ∷ [] } }
]
  where
    owner : OwnerReference
    owner = record {
      api_version = cluster.type_meta.api_version;
      kind = cluster.type_meta.kind;
      name = cluster.metadata.name;
      uid = cluster.metadata.uid;
      controller = Option.none;
      block_owner_deletion = some true;
    }

-- A set that is not being deleted and lacks the finalizer.
abbrev pub lacks_finalizer : CnctMachineSet → Bool
lacks_finalizer ms =
    is_zero ms.metadata.deletion_timestamp
    && not (contains_string ms.metadata.finalizers finalizer_delete_dependents)

abbrev pub add_finalizer : CnctMachineSet → CnctMachineSet
add_finalizer ms = record ms {
  metadata = record ms.metadata {
    finalizers = ms.metadata.finalizers ++ finalizer_delete_dependents ∷ [];
  };
}

-- The phase that the result of `syncReplicas` leaves in the status.
abbrev synced_phase : Result (Unit {0}) → MachineSetStatusPhase
synced_phase (ok _) = ready_machine_set
synced_phase (err _) = error_machine_set

abbrev pub requeued : ReconcileResult
requeued = record { requeue = true; requeue_after = 0 }

-- The two errors at the end, that of `syncReplicas` first.
finish : {S : Type 0} → Result (Unit {0}) → Result CnctMachineSet → Exec S ReconcileResult
finish (err e) _ = throw (wrapped "failed to sync Machineset replicas" e)
finish (ok _) (err e) = throw e
finish (ok _) (ok _) = return finished

module _ (w : World) where
  -- From `filterMachines` to the end.
  unfoldable pub sync_machine_set : CnctMachineSet → List CnctMachine → Exec w.State ReconcileResult
  unfolding finish
  sync_machine_set ms all_machines = do
    filtered_machines ← filter_machines w ms all_machines
    sync_err ← try (sync_replicas w ms filtered_machines)
    let synced = record ms { status = record ms.status { phase = synced_phase sync_err } }
    let ms' = record synced { status = calculate_status w synced filtered_machines }
    update_err ←
        try (update_status w ms' "" "ResourceStateChange" "Resource %q changed state to %q")
    finish sync_err update_err

  unfoldable pub reconcile_machine_set : CnctMachineSet → Exec w.State ReconcileResult
  reconcile_machine_set ms = do
    all_machines ←
        wrap "failed to list machines" (call (w.kube.machines.list ms.metadata.namespace))
    call (λ s. (validate_machine_set w ms, s))
    named ← get_cluster_from_namespace w ms.metadata.namespace
    cluster ← call (
        w.kube.clusters.get
          (record { namespace = ms.metadata.namespace; name = named.metadata.name }))
    let owned = with_owner cluster ms
    if lacks_finalizer owned
        then (do call (w.kube.machine_sets.update (add_finalizer owned)); return requeued)
        else if not (is_zero owned.metadata.deletion_timestamp)
        then return finished
        else sync_machine_set owned all_machines

  -- An error is reported as an event and returned.
  report : CnctMachineSet → Result ReconcileResult → Exec w.State ReconcileResult
  report ms (ok r) s = return r s
  report ms (err e) s = throw e (w.kube.eventf ms.metadata "Warning" "ReconcileError" (message e) s)

  unfoldable pub reconcile : ObjectKey → Exec w.State ReconcileResult
  unfolding report
  reconcile request = do
    got ← attempt (w.kube.machine_sets.get request)
    elim got [
      | err e ↦ if is_not_found e then return finished else throw e
      | ok ms ↦ do r ← try (reconcile_machine_set ms); report ms r
    ]
