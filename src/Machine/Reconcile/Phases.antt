-- ===== src/Machine/Reconcile/Phases.antt =====
-- What `Reconcile` does with a machine, by its phase.
use cma_ssh.Prelude.{string_eq, ◌≡◌, ◌⊎◌, inl, inr, true, Option, none, some, arith}
use cma_ssh.Prelude.Go.{Outcome, done, fail, panic, Exec, ok, err, Err, cause, ◌>>=◌, continue}
use cma_ssh.Prelude.Go.Ends as Go
use cma_ssh.Prelude.Go.Ends.{ComesBack}
use cma_ssh.Api.Meta.{ObjectKey, finished, is_zero}
use cma_ssh.Api.Phase.{
  MachineStatusPhase, provisioning_machine, upgrading_machine, deleting_machine, ready_machine,
  error_machine,
}
use cma_ssh.Api.Machine.{CnctMachine}
use cma_ssh.World.{World}
use cma_ssh.Maas.{delete}
use cma_ssh.Machine.Delete.{handle_delete}
use cma_ssh.Machine.Delete.Ways.{handle_delete-Ends}
use cma_ssh.Machine.Ready.{with_phase, handle_waiting_for_ready}
use cma_ssh.Machine.Ready.Kubelet.{handle_waiting_for_ready-Waited}
use cma_ssh.Machine.Reconcile.{
  handle_phase, respond_to, conclude, to_delete, mark_deleting, reconcile_machine, reconcile, after,
  outcome_for,
}

-- The phases in which the controller leaves a machine alone.
abbrev pub Settled : MachineStatusPhase → Type 0
Settled p = (p ≡ error_machine) ⊎ (p ≡ ready_machine) ⊎ (p ≡ upgrading_machine)

module _ (w : World) where
  -- A machine whose deletion is not asked for and whose phase is Error, Ready or Upgrading is left
  -- alone: `Reconcile` reads it, calls nothing else, and is finished without an error.
  pub reconcile-Settled :
      (request : ObjectKey) (machine : CnctMachine) (s s' : w.State)
      → w.kube.machines.get request s ≡ (ok machine, s')
      → is_zero machine.metadata.deletion_timestamp ≡ true
      → Settled machine.status.phase
      → reconcile w request s ≡ (done finished, s')
  unfolding reconcile reconcile_machine mark_deleting handle_phase conclude
  reconcile-Settled request machine s s' g d p = ground arith

  -- A machine whose deletion is asked for and whose phase is not yet Deleting is first written back
  -- with the phase Deleting. If that update fails, `Reconcile` returns its error and does no more.
  pub reconcile-deletion_failed :
      (request : ObjectKey) (machine : CnctMachine) (s s₁ s₂ : w.State) (e : Err)
      → w.kube.machines.get request s ≡ (ok machine, s₁)
      → to_delete w machine ≡ true
      → w.kube.machines.update (with_phase deleting_machine machine) s₁ ≡ (err e, s₂)
      → reconcile w request s ≡ (fail e, s₂)
  unfolding reconcile reconcile_machine mark_deleting
  reconcile-deletion_failed request machine s s₁ s₂ e g d u = ground arith

  -- If it succeeds and the API server kept the phase, the machine that it sent back is handled by
  -- `handleDelete`, and the error of that, if any, is answered.
  pub reconcile-deletion :
      (request : ObjectKey) (machine m : CnctMachine) (s s₁ s₂ : w.State)
      → w.kube.machines.get request s ≡ (ok machine, s₁)
      → to_delete w machine ≡ true
      → w.kube.machines.update (with_phase deleting_machine machine) s₁ ≡ (ok m, s₂)
      → m.status.phase ≡ deleting_machine
      → reconcile w request s ≡ (after w m (handle_delete w m) >>= conclude w) s₂
  unfolding reconcile reconcile_machine mark_deleting handle_phase
  reconcile-deletion request machine m s s₁ s₂ g d u p = ground arith

  respond_to-ComesBack :
      (c e : Err) (machine : CnctMachine) (s : w.State) → ComesBack (respond_to w c e machine s)
  unfolding respond_to delete
  respond_to-ComesBack c e machine s = ground arith

  conclude-ComesBack : (r : CnctMachine × Option Err) (s : w.State) → ComesBack (conclude w r s)
  unfolding conclude
  conclude-ComesBack (machine, none) s = tt
  conclude-ComesBack (machine, some e) s = respond_to-ComesBack (cause e) e machine s

  outcome_for-ComesBack :
      (machine : CnctMachine) (r : Outcome (Unit {0})) (s : w.State)
      → ComesBack (r, s)
      → ComesBack (continue (outcome_for machine r) (conclude w) s)
  outcome_for-ComesBack machine (done _) s h = conclude-ComesBack (machine, none) s
  outcome_for-ComesBack machine (fail e) s h = conclude-ComesBack (machine, some e) s
  outcome_for-ComesBack machine (panic f) s h = h

  after-ComesBack :
      (machine : CnctMachine) (m : Exec w.State (Unit {0})) (s : w.State)
      → ComesBack (m s)
      → ComesBack ((after w machine m >>= conclude w) s)
  after-ComesBack machine m s h = outcome_for-ComesBack machine (m s).0 (m s).1 h

  Final-ComesBack :
      {A : Type 0} (P : A → w.State → Type 0) (r : Outcome A) (s : w.State)
      → Go.Final ⊥ P (r, s)
      → ComesBack (r, s)
  Final-ComesBack P (done a) s h = tt
  Final-ComesBack P (fail e) s h = tt
  Final-ComesBack P (panic x) s h = h

  -- `Reconcile` never panics on a machine that is in the phase Deleting, or that is in the phase
  -- Provisioning and whose deletion is not asked for, whatever the API server, the managed cluster
  -- and MAAS answer: it comes back with a result or an error.
  pub reconcile_machine-ComesBack :
      (machine : CnctMachine) (s : w.State)
      → (machine.status.phase ≡ deleting_machine)
        ⊎ ((machine.status.phase ≡ provisioning_machine)
            × (is_zero machine.metadata.deletion_timestamp ≡ true))
      → ComesBack (reconcile_machine w machine s)
  unfolding reconcile_machine mark_deleting handle_phase
  reconcile_machine-ComesBack machine s (inl h) = ground (
    arith,
    after-ComesBack machine (handle_delete w machine) s
        (Final-ComesBack _ _ _ (handle_delete-Ends w machine s)),
  )
  reconcile_machine-ComesBack machine s (inr (h, d)) = ground (
    arith,
    after-ComesBack machine (handle_waiting_for_ready w machine) s
        (Final-ComesBack _ _ _ (handle_waiting_for_ready-Waited w machine s)),
  )
