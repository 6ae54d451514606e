-- ===== src/Machine/Lifecycle/Phases.antt =====
-- The phases that a reconcile may give a machine.
use cma_ssh.Prelude.{String, ◌≡◌, refl, sym, subst, Bool, true, false, if◌then◌else◌}
use cma_ssh.Prelude.Go.{Result, ok, err, call, return, continue, lift, ◌>>=◌}
use cma_ssh.Api.Phase.{
  MachineStatusPhase, unset_machine, provisioning_machine, upgrading_machine, deleting_machine,
  ready_machine, error_machine, other_machine,
}
use cma_ssh.Api.Machine.{CnctMachine}
use cma_ssh.World.{World}
use cma_ssh.Machine.Create.Record.{provisioned}
use cma_ssh.Machine.Delete.{without_finalizer, handle_delete}
use cma_ssh.Machine.Ready.{with_phase, handle_waiting_for_ready}
use cma_ssh.Machine.Reconcile.{handle_phase, conclude, to_delete, mark_deleting, reconcile_machine}
use cma_ssh.Prelude.Go.Kept.{KeptBy}
use cma_ssh.Machine.Lifecycle.{Outside}
use cma_ssh.Machine.Lifecycle.Deletion.{handle_delete-KeptBy}
use cma_ssh.Machine.Lifecycle.Handlers.{waiting-KeptBy, after-KeptBy, created-KeptBy}

-- A machine that is being created, waited for or deleted.
pub data Working : MachineStatusPhase → Type 0 where
  unset : Working unset_machine
  unknown : {text : String} → Working (other_machine text)
  provisioning : Working provisioning_machine
  deleting : Working deleting_machine

-- One step in the life of a machine.
pub data Next : MachineStatusPhase → MachineStatusPhase → Type 0 where
  created : Next unset_machine provisioning_machine
  created_again : {text : String} → Next (other_machine text) provisioning_machine
  became_ready : Next provisioning_machine ready_machine
  marked : {p : MachineStatusPhase} → Next p deleting_machine
  gave_up : {p : MachineStatusPhase} → Working p → Next p error_machine

pub data Reaches : MachineStatusPhase → MachineStatusPhase → Type 0 where
  stay : {p : MachineStatusPhase} → Reaches p p
  step : {p q r : MachineStatusPhase} → Reaches p q → Next q r → Reaches p r

abbrev pub SentFrom : MachineStatusPhase → CnctMachine → Type 0
SentFrom p x = Reaches p x.status.phase

module _ (w : World) (I : w.State → Type 0) (p : MachineStatusPhase)
    (outside : Outside w I (SentFrom p)) where
  gives_up :
      (q : MachineStatusPhase)
      → Reaches p q
      → Working q
      → (m : CnctMachine) → SentFrom p (with_phase error_machine m)
  gives_up q r h m = step r (gave_up h)

  handle_phase-KeptBy :
      (q : MachineStatusPhase) (machine : CnctMachine)
      → Reaches p q
      → machine.status.phase ≡ q
      → KeptBy I (handle_phase w q machine >>= conclude w)
  unfolding handle_phase conclude provisioned without_finalizer
  handle_phase-KeptBy unset_machine machine r e =
      created-KeptBy w I (SentFrom p) outside (gives_up _ r unset) (λ d ip. step r created) machine
  handle_phase-KeptBy (other_machine text) machine r e =
      created-KeptBy w I (SentFrom p) outside (gives_up _ r unknown) (λ d ip. step r created_again)
        machine
  handle_phase-KeptBy provisioning_machine machine r e =
      after-KeptBy w I (SentFrom p) outside (gives_up _ r provisioning) machine
        (handle_waiting_for_ready w machine)
        (waiting-KeptBy w I (SentFrom p) outside machine (step r became_ready))
  handle_phase-KeptBy deleting_machine machine r e =
      after-KeptBy w I (SentFrom p) outside (gives_up _ r deleting) machine
        (handle_delete w machine)
        (handle_delete-KeptBy w I (SentFrom p) outside machine (subst (Reaches p) (sym e) r))
  handle_phase-KeptBy upgrading_machine machine r e = λ s i. i
  handle_phase-KeptBy ready_machine machine r e = λ s i. i
  handle_phase-KeptBy error_machine machine r e = λ s i. i

  rest-KeptBy :
      (machine : CnctMachine)
      → Reaches p machine.status.phase
      → KeptBy I (handle_phase w machine.status.phase machine >>= conclude w)
  rest-KeptBy machine r = handle_phase-KeptBy machine.status.phase machine r refl

module _ (w : World) (I : w.State → Type 0)
    (echoes : (x y : CnctMachine) (s t : w.State)
      → w.kube.machines.update x s ≡ (ok y, t)
      → y.status.phase ≡ x.status.phase) where
  -- What follows the update that marks the machine.
  marked-KeptBy :
      (machine : CnctMachine) (s : w.State) (x : Result CnctMachine) (t : w.State)
      → Outside w I (SentFrom machine.status.phase)
      → w.kube.machines.update (with_phase deleting_machine machine) s ≡ (x, t)
      → I t
      → I (continue (lift x) (λ m. handle_phase w m.status.phase m >>= conclude w) t).1
  marked-KeptBy machine s (err e) t outside u i = i
  marked-KeptBy machine s (ok m) t outside u i =
      rest-KeptBy w I machine.status.phase outside m
        (subst (Reaches machine.status.phase) (sym (echoes _ m s t u)) (step stay marked)) t i

  to_delete-KeptBy :
      (machine : CnctMachine) (s : w.State)
      → Outside w I (SentFrom machine.status.phase)
      → I s
      → (b : Bool)
      → I
          (((if b
                then call (w.kube.machines.update (with_phase deleting_machine machine))
                else return machine)
              >>= λ m. handle_phase w m.status.phase m >>= conclude w)
            s).1
  to_delete-KeptBy machine s outside i true =
      marked-KeptBy machine s _ _ outside refl
        (outside.update_machine (with_phase deleting_machine machine) (step stay marked) s i)
  to_delete-KeptBy machine s outside i false =
      rest-KeptBy w I machine.status.phase outside machine stay s i

  -- Take any property of the outside world that is kept by all calls of the machine controller other
  -- than updates of machines, and by the update of a machine to a phase that the life of a machine
  -- reaches from the phase that the reconciled machine was read in. `Reconcile` keeps the property,
  -- whatever it is answered: it gives a machine no other phase. In a machine's life it is created,
  -- becomes ready, is marked as deleted from every phase, and fails while it is being created,
  -- waited for or deleted; nothing else happens, so a machine that is ready, upgrading or failed can
  -- only be deleted. Of the API server it is used that an accepted update answers with the phase that
  -- was sent.
  pub reconcile_machine-KeptBy :
      (machine : CnctMachine) (s : w.State)
      → Outside w I (SentFrom machine.status.phase)
      → I s
      → I (reconcile_machine w machine s).1
  unfolding reconcile_machine mark_deleting
  reconcile_machine-KeptBy machine s outside i =
      to_delete-KeptBy machine s outside i (to_delete w machine)
