-- ===== src/Util/Status/Phases.antt =====
-- The phase of a cluster as a statement about every machine.
use cma_ssh.Prelude.{◌≡◌, refl, ◌≢◌, ◌↔◌, true, false, List, [], ◌∷◌, ◌++◌, All, arith}
use cma_ssh.Prelude.Go.{ok}
use cma_ssh.Api.Phase.{
  MachineStatusPhase, unset_machine, provisioning_machine, upgrading_machine, deleting_machine,
  error_machine, machine_phase_eq, running_cluster, error_cluster,
}
use cma_ssh.Api.Machine.{CnctMachine}
use cma_ssh.Util.Status.{
  contains_phase, contains_statuses, get_status, is_ready_for_deletion, is_ready_for_upgrade,
}

-- A phase that is none of those listed.
abbrev pub Outside : List MachineStatusPhase → CnctMachine → Type 0
Outside [] m = Unit
Outside (p ∷ ps) m = (m.status.phase ≢ p) × Outside ps m

contains_phase-Outside :
    (ss : List MachineStatusPhase) (m : CnctMachine)
    → (contains_phase ss m.status.phase ≡ false) ↔ Outside ss m
unfolding contains_phase
contains_phase-Outside [] m = (λ _. tt, λ _. refl)
contains_phase-Outside (p ∷ ps) m = ground (arith, contains_phase-Outside ps m)

Outside-append :
    (ss ts : List MachineStatusPhase) (m : CnctMachine)
    → Outside (ss ++ ts) m ↔ (Outside ss m × Outside ts m)
Outside-append [] ts m = (λ h. (tt, h), λ h. h.1)
Outside-append (p ∷ ss) ts m = ground (arith, Outside-append ss ts m)

contains_statuses-Outside :
    (ss : List MachineStatusPhase) (ms : List CnctMachine)
    → (contains_statuses ms ss ≡ false) ↔ All (Outside ss) ms
unfolding contains_statuses
contains_statuses-Outside ss [] = (λ _. tt, λ _. refl)
contains_statuses-Outside ss (m ∷ ms) =
    ground (arith, contains_phase-Outside ss m, contains_statuses-Outside ss ms)

All-Outside-append :
    (ss ts : List MachineStatusPhase) (ms : List CnctMachine)
    → All (Outside (ss ++ ts)) ms ↔ (All (Outside ss) ms × All (Outside ts) ms)
All-Outside-append ss ts [] = (λ _. (tt, tt), λ _. tt)
All-Outside-append ss ts (m ∷ ms) =
    ground (arith, All-Outside-append ss ts ms, Outside-append ss ts m)

abbrev pub failed : List MachineStatusPhase
failed = error_machine ∷ []

abbrev pub busy : List MachineStatusPhase
busy = deleting_machine ∷ provisioning_machine ∷ upgrading_machine ∷ unset_machine ∷ []

-- A cluster is reported as running exactly if it has a machine, and no machine is in error, being
-- deleted, created or upgraded, or still without a phase.
pub get_status-running :
    (ms : List CnctMachine)
    → ((get_status ms).0 ≡ running_cluster) ↔ ((ms ≢ []) × All (Outside (failed ++ busy)) ms)
unfolding get_status
get_status-running [] = (λ e. absurd (cc), λ h. absurd (h.0 refl))
get_status-running (m ∷ ms) = ground (
  arith,
  contains_statuses-Outside failed (m ∷ ms),
  contains_statuses-Outside busy (m ∷ ms),
  All-Outside-append failed busy (m ∷ ms),
)

-- A cluster is reported as failed exactly if some machine is in error, whatever the others do.
pub get_status-error :
    (ms : List CnctMachine) → ((get_status ms).0 ≡ error_cluster) ↔ (¬ All (Outside failed) ms)
unfolding get_status
get_status-error [] = (λ e. absurd (cc), λ h. absurd (h tt))
get_status-error (m ∷ ms) = ground (arith, contains_statuses-Outside failed (m ∷ ms))

-- Deletion may go on exactly if no machine is being created or upgraded, or without a phase.
pub is_ready_for_deletion-true :
    (ms : List CnctMachine)
    → (is_ready_for_deletion ms ≡ true)
      ↔ All (Outside (provisioning_machine ∷ upgrading_machine ∷ unset_machine ∷ [])) ms
unfolding is_ready_for_deletion
is_ready_for_deletion-true [] = (λ _. tt, λ _. refl)
is_ready_for_deletion-true (m ∷ ms) = ground (
  arith,
  contains_statuses-Outside (provisioning_machine ∷ upgrading_machine ∷ unset_machine ∷ [])
      (m ∷ ms),
)

-- An upgrade may go on exactly if no machine is being created, without a phase, or in error.
pub is_ready_for_upgrade-true :
    (ms : List CnctMachine)
    → (is_ready_for_upgrade ms ≡ ok true)
      ↔ All (Outside ((provisioning_machine ∷ unset_machine ∷ []) ++ failed)) ms
unfolding is_ready_for_upgrade
is_ready_for_upgrade-true [] = (λ _. tt, λ _. refl)
is_ready_for_upgrade-true (m ∷ ms) = ground (
  arith,
  contains_statuses-Outside (provisioning_machine ∷ unset_machine ∷ []) (m ∷ ms),
  contains_statuses-Outside failed (m ∷ ms),
  All-Outside-append (provisioning_machine ∷ unset_machine ∷ []) failed (m ∷ ms),
)
