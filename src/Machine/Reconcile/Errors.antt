-- ===== src/Machine/Reconcile/Errors.antt =====
-- How `Reconcile` answers the errors of its handlers.
use cma_ssh.Prelude.{String, string_eq, ◌≡◌, refl, ◌≢◌, true, some, [], ◌∷◌, arith}
use cma_ssh.Prelude.Go.{done, fail, ok, Err, cause, release_error, not_ready_error}
use cma_ssh.Api.Meta.{ObjectKey, is_zero}
use cma_ssh.Api.Phase.{unset_machine}
use cma_ssh.Api.Machine.{CnctMachine}
use cma_ssh.World.{World}
use cma_ssh.Maas.Release.{delete-done}
use cma_ssh.Machine.Create.{Creator, new_creator, get_cluster, get_secret}
use cma_ssh.Machine.Create.Record.{create}
use cma_ssh.Machine.Create.Record.Steps.{steps-failed}
use cma_ssh.Machine.Reconcile.{
  in_five_seconds, handle_phase, respond_to, conclude, mark_deleting, reconcile_machine, reconcile,
}

module _ (w : World) where
  abbrev without_cluster : CnctMachine → Creator w
  without_cluster machine = record (new_creator w machine) {
    err = some (not_ready_error "no cluster in namespace");
  }

  create-no_cluster :
      (machine : CnctMachine) (s s' : w.State)
      → w.kube.clusters.list machine.metadata.namespace s ≡ (ok [], s')
      → create w machine s ≡ (done (without_cluster machine), s')
  unfolding create get_cluster get_secret
  create-no_cluster machine s s' h =
      ground (arith, steps-failed w (without_cluster machine) s' refl)

  -- A machine without a phase, whose deletion is not asked for, in a namespace without a cluster: after
  -- the machine is read and the clusters are listed nothing more is called, whatever the machine's
  -- roles are, and the request comes back in five seconds.
  pub reconcile-no_cluster :
      (request : ObjectKey) (machine : CnctMachine) (s s₁ s₂ : w.State)
      → w.kube.machines.get request s ≡ (ok machine, s₁)
      → is_zero machine.metadata.deletion_timestamp ≡ true
      → machine.status.phase ≡ unset_machine
      → w.kube.clusters.list machine.metadata.namespace s₁ ≡ (ok [], s₂)
      → reconcile w request s ≡ (done in_five_seconds, s₂)
  unfolding reconcile reconcile_machine mark_deleting handle_phase conclude respond_to cause
  reconcile-no_cluster request machine s s₁ s₂ g d p l =
      ground (arith, create-no_cluster machine s₁ s₂ l)

  -- When a handler fails with a `releaseError` that names a machine, however it is wrapped, MAAS is
  -- asked to release that machine, whose answer does not matter, and the handler's error is returned.
  pub conclude-release :
      (machine : CnctMachine) (e x : Err) (system_id : String) (s : w.State)
      → cause e ≡ release_error system_id x
      → system_id ≢ ""
      → conclude w (machine, some e) s ≡ (fail e, (w.maas.release_machines (system_id ∷ []) s).1)
  unfolding conclude respond_to
  conclude-release machine e x system_id s c h =
      ground (arith, delete-done w (record { provider_id = ""; system_id = system_id }) s h)
