-- ===== src/Cluster/Deletion.antt =====
-- When a cluster's secret goes, and when its machines are claimed.
use cma_ssh.Prelude.{◌≡◌, refl, true, false, some, List, [], ◌∷◌, ◌++◌, map, arith}
use cma_ssh.Prelude.Go.{Err, done, ok, err, is_not_found}
use cma_ssh.Api.Meta.{ObjectMeta, ObjectKey, OwnerReference}
use cma_ssh.Api.Cluster.{CnctCluster}
use cma_ssh.Api.Machine.{CnctMachine}
use cma_ssh.World.{World}
use cma_ssh.Util.Lookup.{cluster_kind}
use cma_ssh.Cluster.{
  no_controller, claimed_machine, claim_machines, clean_up, reconcile, in_one_second,
}

no_controller_append :
    (refs : List OwnerReference) (ref : OwnerReference)
    → ref.controller ≡ some true
    → no_controller (refs ++ ref ∷ []) ≡ false
unfolding no_controller
no_controller_append [] ref h = ground arith
no_controller_append (v ∷ refs) ref h = ground (arith, no_controller_append refs ref h)

module _ (w : World) where
  -- When the object of a cluster is gone and the namespace still has a machine, `Reconcile` reads
  -- both and comes back in a second: the secret with the certificates is neither read nor deleted.
  pub reconcile-in_one_second :
      (request : ObjectKey) (e : Err) (machine : CnctMachine) (machines : List CnctMachine)
      (s s₁ s₂ : w.State)
      → w.kube.clusters.get request s ≡ (err e, s₁)
      → is_not_found e ≡ true
      → w.kube.machines.list request.namespace s₁ ≡ (ok (machine ∷ machines), s₂)
      → reconcile w request s ≡ (done in_one_second, s₂)
  unfolding reconcile clean_up
  reconcile-in_one_second request e machine machines s s₁ s₂ g n l = ground arith

  -- Machines that a cluster has claimed are not claimed again: `claimMachines` on them updates
  -- nothing, whatever owner references they had before. Of `NewControllerRef` it is used that the
  -- reference is marked as the controller's.
  claim_machines-claimed_machine :
      ((owner : ObjectMeta) → (w.kube.new_controller_ref owner cluster_kind).controller ≡ some true)
      → (cluster : CnctCluster) (machines : List CnctMachine) (s : w.State)
      → claim_machines w cluster (map (claimed_machine w cluster) machines) s ≡ (done tt, s)
  unfolding claim_machines
  claim_machines-claimed_machine marked cluster [] s = refl
  claim_machines-claimed_machine marked cluster (m ∷ machines) s = ground (
    arith,
    claim_machines-claimed_machine marked cluster machines s,
    no_controller_append m.metadata.owner_references
        (w.kube.new_controller_ref cluster.metadata cluster_kind) (marked cluster.metadata),
  )
