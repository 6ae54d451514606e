-- ===== src/Machine/Reconcile.antt =====
-- `Reconcile` of pkg/controller/machine/machine_controller.go. Its handlers meet errors of other
-- packages and those of create.go; only `create` returns an `unrecoverableError`.
pub mod Phases
pub mod Errors
use cma_ssh.Prelude.{
  ℕ, String, Bool, true, false, not, ◌&&◌, ◌==◌, Option, none, some, List, if◌then◌else◌,
}
use cma_ssh.Prelude.Go.{
  Exec, Outcome, done, fail, panic, return, throw, call, attempt, try, ◌>>=◌, ◌>>◌, Result, ok, err,
  Err, status_error, not_found, too_many_requests, other_reason, plain_error, wrapped,
  not_ready_error, unrecoverable_error, release_error, rpc_error, cause, is_not_found,
}
use cma_ssh.Api.Meta.{ObjectKey, ReconcileResult, finished, is_zero}
use cma_ssh.Api.Phase.{
  MachineStatusPhase, unset_machine, provisioning_machine, upgrading_machine, deleting_machine,
  ready_machine, error_machine, other_machine, machine_phase_eq,
}
use cma_ssh.Api.Machine.{CnctMachine}
use cma_ssh.World.{World}
use cma_ssh.Maas.{delete}
use cma_ssh.Machine.Create.Record.{create}
use cma_ssh.Machine.Delete.{handle_delete}
use cma_ssh.Machine.Ready.{with_phase, handle_waiting_for_ready}

-- `reconcile.Result{RequeueAfter: 5 * time.Second}`
abbrev pub in_five_seconds : ReconcileResult
in_five_seconds = record { requeue = false; requeue_after = 5000 }

-- The machine at the end of a handler, and the handler's error.
abbrev pub outcome_for : CnctMachine → Outcome (Unit {0}) → Outcome (CnctMachine × Option Err)
outcome_for machine (done _) = done (machine, none)
outcome_for machine (fail e) = done (machine, some e)
outcome_for machine (panic f) = panic f

module _ (w : World) where
  -- `err = f(&machine)`
  abbrev pub after : CnctMachine → Exec w.State (Unit {0}) → Exec w.State (CnctMachine × Option Err)
  after machine m s = let (r, s') = m s in (outcome_for machine r, s')

  unfoldable pub handle_phase :
      MachineStatusPhase → CnctMachine → Exec w.State (CnctMachine × Option Err)
  handle_phase provisioning_machine machine = after machine (handle_waiting_for_ready w machine)
  handle_phase deleting_machine machine = after machine (handle_delete w machine)
  handle_phase error_machine machine = return (machine, none)
  handle_phase ready_machine machine = return (machine, none)
  handle_phase upgrading_machine machine = return (machine, none)
  handle_phase unset_machine machine = do c ← create w machine; return (c.machine, c.err)
  handle_phase (other_machine _) machine = do c ← create w machine; return (c.machine, c.err)

  -- The switch on `errors.Cause(err)`; the error that is returned is `err` itself.
  unfoldable pub respond_to : Err → Err → CnctMachine → Exec w.State ReconcileResult
  respond_to (status_error not_found _) e machine = return in_five_seconds
  respond_to (status_error too_many_requests _) e machine = throw e
  respond_to (status_error (other_reason _) _) e machine = throw e
  respond_to (not_ready_error _) e machine = return in_five_seconds
  respond_to (release_error system_id _) e machine = do
    -- An error of the release is logged.
    try (delete w (record { provider_id = ""; system_id = system_id }))
    throw e
  respond_to (unrecoverable_error _) e machine = do
    updated ← attempt (w.kube.machines.update (with_phase error_machine machine))
    elim updated [ err _ ↦ throw e | ok _ ↦ return finished ]
  respond_to (plain_error _) e machine = throw e
  respond_to (wrapped _ _) e machine = throw e
  respond_to (rpc_error _ _) e machine = throw e

  -- After the handlers.
  unfoldable pub conclude : CnctMachine × Option Err → Exec w.State ReconcileResult
  conclude (machine, none) = return finished
  conclude (machine, some e) = respond_to (cause e) e machine

  -- The machine's deletion was asked for, and its phase does not say so yet.
  abbrev pub to_delete : CnctMachine → Bool
  to_delete machine =
      not (is_zero machine.metadata.deletion_timestamp)
      && not (machine.status.phase == deleting_machine)

  unfoldable pub mark_deleting : CnctMachine → Exec w.State CnctMachine
  mark_deleting machine =
      if to_delete machine
      then call (w.kube.machines.update (with_phase deleting_machine machine))
      else return machine

  -- What `Reconcile` does with the machine that it got.
  unfoldable pub reconcile_machine : CnctMachine → Exec w.State ReconcileResult
  reconcile_machine machine = do
    marked ← mark_deleting machine
    handled ← handle_phase marked.status.phase marked
    conclude handled

  unfoldable pub reconcile : ObjectKey → Exec w.State ReconcileResult
  reconcile request = do
    got ← attempt (w.kube.machines.get request)
    elim got [
      | err e ↦ if is_not_found e then return finished else throw e
      | ok machine ↦ reconcile_machine machine
    ]
