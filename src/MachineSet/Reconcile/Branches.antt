-- ===== src/MachineSet/Reconcile/Branches.antt =====
-- How one reconcile of a machine set ends.
use cma_ssh.Prelude.{◌≡◌, refl, true, false, List, [], ◌∷◌, arith, ℕ}
use cma_ssh.Prelude.Go.{Outcome, done, fail, panic, ok, deadlock}
use cma_ssh.Prelude.Go.Ends.{Ensures, Returns}
use cma_ssh.Prelude.Int.{negsuc}
use cma_ssh.Api.Meta.{finished, is_zero}
use cma_ssh.Api.Machine.{CnctMachine}
use cma_ssh.Api.MachineSet.{CnctMachineSet}
use cma_ssh.World.{World}
use cma_ssh.Api.Cluster.{CnctCluster}
use cma_ssh.Util.Lookup.{get_cluster_from_namespace, only_cluster}
use cma_ssh.MachineSet.Select.{filter_machines, validate_machine_set}
use cma_ssh.MachineSet.Select.Claims.{filter_machines-Kept}
use cma_ssh.MachineSet.Sync.Scale.{sync_replicas-deadlock}
use cma_ssh.MachineSet.Status.{update_status}
use cma_ssh.MachineSet.Reconcile.{
  sync_machine_set, reconcile_machine_set, with_owner, lacks_finalizer, add_finalizer, requeued,
}

pub update_status-Returns :
    (w : World) (ms : CnctMachineSet) (s : w.State)
    → Returns (update_status w ms "" "ResourceStateChange" "Resource %q changed state to %q" s).0
unfolding update_status
update_status-Returns w ms s = ground arith

done_of_Ensures :
    {A : Type 0} (P : A → Type 0) (r : Outcome A) → Ensures P r → (a : A) × (r ≡ done a)
done_of_Ensures P (done a) h = (a, refl)
done_of_Ensures P (fail e) h = absurd h
done_of_Ensures P (panic x) h = absurd h

filter_machines-done :
    (w : World) (ms : CnctMachineSet) (l : List CnctMachine) (s : w.State)
    → (k : List CnctMachine) × ((filter_machines w ms l s).0 ≡ done k)
filter_machines-done w ms l s = done_of_Ensures _ _ (filter_machines-Kept w ms l s)

module _ (w : World) (ms : CnctMachineSet) (all_machines : List CnctMachine) (s : w.State) where
  -- A negative replica count blocks the whole reconcile: the status is not written, and no error
  -- is returned.
  pub sync_machine_set-deadlock :
      (k : ℕ)
      → ms.spec.replicas ≡ negsuc k
      → (sync_machine_set w ms all_machines s).0 ≡ panic deadlock
  unfolding sync_machine_set
  sync_machine_set-deadlock k e =
      let (kept, f) = filter_machines-done w ms all_machines s in
      ground
        (arith, f, sync_replicas-deadlock w ms kept k (filter_machines w ms all_machines s).1 e)

with_owner_guards :
    (cluster : CnctCluster) (ms : CnctMachineSet)
    → (lacks_finalizer (with_owner cluster ms) ≡ lacks_finalizer ms)
      × ((with_owner cluster ms).metadata.deletion_timestamp ≡ ms.metadata.deletion_timestamp)
unfolding with_owner
with_owner_guards cluster ms = ground arith

module _ (w : World) (ms : CnctMachineSet) (all_machines : List CnctMachine)
    (named cluster : CnctCluster) (s s₁ s₂ s₃ : w.State)
    (listed : w.kube.machines.list ms.metadata.namespace s ≡ (ok all_machines, s₁))
    (valid : validate_machine_set w ms ≡ ok true)
    (only : w.kube.clusters.list ms.metadata.namespace s₁ ≡ (ok (named ∷ []), s₂))
    (found : w.kube.clusters.get
        (record { namespace = ms.metadata.namespace; name = named.metadata.name })
        s₂
      ≡ (ok cluster, s₃)) where
  -- Once its reads have succeeded, a reconcile of a valid set that is being deleted ends there, with
  -- the outside world as the reads left it: nothing is adopted, created, deleted or written.
  pub reconcile_machine_set-deleting :
      is_zero ms.metadata.deletion_timestamp ≡ false
      → reconcile_machine_set w ms s ≡ (done finished, s₃)
  unfolding reconcile_machine_set get_cluster_from_namespace only_cluster
  reconcile_machine_set-deleting gone = ground (arith, with_owner_guards cluster ms)

  -- For a valid set that lacks the finalizer and is not being deleted the one write adds it, and the
  -- set is queued again.
  pub reconcile_machine_set-finalizer :
      (stored : CnctMachineSet) (s₄ : w.State)
      → lacks_finalizer ms ≡ true
      → w.kube.machine_sets.update (add_finalizer (with_owner cluster ms)) s₃ ≡ (ok stored, s₄)
      → reconcile_machine_set w ms s ≡ (done requeued, s₄)
  unfolding reconcile_machine_set get_cluster_from_namespace only_cluster
  reconcile_machine_set-finalizer stored s₄ lacks u = ground (arith, with_owner_guards cluster ms)
