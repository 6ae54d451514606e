-- ===== src/MachineSet/Sync.antt =====
-- `syncReplicas` of machineset_controller.go and the functions that it waits by. The difference is
-- an unbounded integer: replica counts are far from the ends of Go's 64-bit `int`.
pub mod Scale
pub mod Tally
pub mod ApiServer
pub mod Converge
use cma_ssh.Prelude.{
  ℕ, zero, suc, String, ◌<>◌, Bool, true, false, not, List, [], ◌∷◌, ltb, length, if◌then◌else◌,
}
use cma_ssh.Prelude.Go.{
  Exec, return, throw, crash, call, attempt, wrap, ◌>>=◌, ◌>>◌, Result, ok, err, Err, plain_error,
  message, is_not_found, deadlock, Call,
}
use cma_ssh.Prelude.Int.{ℤ, pos, negsuc, pos_part, ◌-ℤ◌}
use cma_ssh.Api.Meta.{ObjectKey, is_zero}
use cma_ssh.Api.Machine.{CnctMachine}
use cma_ssh.Api.MachineSet.{CnctMachineSet}
use cma_ssh.World.{World}
use cma_ssh.MachineSet.Policy.{random_delete_policy, get_machines_to_delete_prioritized}
use cma_ssh.MachineSet.Select.{create_machine}

-- `strings.Join(errstrings, "; ")`
unfoldable pub join : List String → String
join [] = ""
join (e ∷ []) = e
join (e ∷ e' ∷ es) = e <> "; " <> join (e' ∷ es)

-- What the loop over the machines to create has gathered.
pub record Created : Type 0 where
  pub machine_list : List CnctMachine
  pub errstrings : List String

-- The condition of `waitForMachineCreation`, from what `Get` returned.
abbrev is_created : Result CnctMachine → Result Bool
is_created (ok _) = ok true
is_created (err e) = if is_not_found e then ok false else err e

-- The condition of `waitForMachineDeletion`.
abbrev is_deleted : Result CnctMachine → Result Bool
is_deleted (ok m) = ok (not (is_zero m.metadata.deletion_timestamp))
is_deleted (err e) = if is_not_found e then ok true else err e

-- One round of the creation loop, put before what the later rounds gather.
abbrev gather : Result CnctMachine → Created → Created
gather (ok machine) c = record c { machine_list = machine ∷ c.machine_list }
gather (err e) c = record c { errstrings = message e ∷ c.errstrings }

-- The error of one deletion, put before those sent to the channel later.
abbrev sent : Result (Unit {0}) → List Err → List Err
sent (ok _) errors = errors
sent (err e) errors = e ∷ errors

-- The `select` on `errCh`, which returns the first error.
first_error : {S : Type 0} → List Err → Exec S (Unit {0}) → Exec S (Unit {0})
first_error [] next = next
first_error (e ∷ _) next = throw e

-- `stateConfirmationInterval` and `stateConfirmationTimeout`, in milliseconds
abbrev pub state_confirmation_interval : ℕ
state_confirmation_interval = 100

abbrev pub state_confirmation_timeout : ℕ
state_confirmation_timeout = 10000

module _ (w : World) where
  poll_machine : (Result CnctMachine → Result Bool) → CnctMachine → Call w.State (Unit {0})
  poll_machine condition machine =
      w.host.poll_immediate state_confirmation_interval state_confirmation_timeout λ s.
        let (r, s') =
          w.kube.machines.get
            (record { namespace = machine.metadata.namespace; name = machine.metadata.name }) s in
        (condition r, s')

  unfoldable pub wait_for_machine_creation : List CnctMachine → Exec w.State (Unit {0})
  unfolding poll_machine
  wait_for_machine_creation [] = return tt
  wait_for_machine_creation (machine ∷ machine_list) = do
    wrap "failed waiting for machine object to be created" (call (poll_machine is_created machine))
    wait_for_machine_creation machine_list

  unfoldable pub wait_for_machine_deletion : List CnctMachine → Exec w.State (Unit {0})
  unfolding poll_machine
  wait_for_machine_deletion [] = return tt
  wait_for_machine_deletion (machine ∷ machine_list) = do
    wrap "failed waiting for machine object to be deleted" (call (poll_machine is_deleted machine))
    wait_for_machine_deletion machine_list

  -- An event about the set.
  abbrev eventf : CnctMachineSet → String → String → String → Exec w.State (Unit {0})
  eventf ms event_type reason text s =
      return tt (w.kube.eventf ms.metadata event_type reason text s)

  abbrev create_event : CnctMachineSet → CnctMachine → Result CnctMachine → Exec w.State (Unit {0})
  create_event ms sent (ok machine) =
      eventf ms "Normal" "SuccessfulCreate" ("Created cnctmachine: " <> machine.metadata.name)
  create_event ms sent (err e) =
      eventf ms "Warning" "FailedCreate" ("Error Creating cnctmachine: " <> sent.metadata.name)

  -- One round: the call and the event about it.
  unfoldable pub create_round : CnctMachineSet → Exec w.State (Result CnctMachine)
  create_round ms = do
    r ← attempt (w.kube.machines.create (create_machine w ms))
    create_event ms (create_machine w ms) r
    return r

  unfoldable pub create_machines : CnctMachineSet → ℕ → Exec w.State Created
  create_machines ms zero = return (record { machine_list = []; errstrings = [] })
  create_machines ms (suc n) = do
    r ← create_round ms
    later ← create_machines ms n
    return (gather r later)

  abbrev delete_event : CnctMachineSet → CnctMachine → Result (Unit {0}) → Exec w.State (Unit {0})
  delete_event ms machine (ok _) =
      eventf ms "Normal" "SuccessfulDelete" ("Deleted cnctmachine: " <> machine.metadata.name)
  delete_event ms machine (err e) =
      eventf ms "Warning" "FailedDelete" ("Error Deleting cnctmachine: " <> machine.metadata.name)

  -- The body of one goroutine.
  unfoldable pub delete_round : CnctMachineSet → CnctMachine → Exec w.State (Result (Unit {0}))
  delete_round ms machine = do
    r ← attempt (w.kube.machines.delete machine)
    delete_event ms machine r
    return r

  -- The goroutines that delete, in the order in which they run; the errors in the order in which
  -- they are sent to `errCh`, which has room for all.
  unfoldable pub delete_machines : CnctMachineSet → List CnctMachine → Exec w.State (List Err)
  delete_machines ms [] = return []
  delete_machines ms (machine ∷ machines) = do
    r ← delete_round ms machine
    errors ← delete_machines ms machines
    return (sent r errors)

  -- The branch `diff < 0`, for `n = -diff`.
  unfoldable pub scale_up : CnctMachineSet → ℕ → Exec w.State (Unit {0})
  scale_up ms n = do
    c ← create_machines ms n
    elim c.errstrings [
      | e ∷ es ↦ throw (plain_error (join (e ∷ es)))
      | [] ↦ wait_for_machine_creation c.machine_list
    ]

  -- The branch `diff > 0`. `wg.Add(diff)` waits for `diff` goroutines: if fewer are started, then
  -- `wg.Wait()` never returns.
  unfoldable pub scale_down : CnctMachineSet → List CnctMachine → ℕ → Exec w.State (Unit {0})
  unfolding first_error
  scale_down ms machines diff s =
      let machines_to_delete =
        get_machines_to_delete_prioritized (w.host.sort CnctMachine) machines (pos diff)
          random_delete_policy in
      let (r, s') = delete_machines ms (w.host.schedule CnctMachine s machines_to_delete) s in
      if ltb (length machines_to_delete) diff
      then crash deadlock s'
      else ((λ _. (r, s')) >>= λ errors.
            first_error errors (wait_for_machine_deletion machines_to_delete))
          s'

  -- The three branches on `diff`.
  unfoldable pub scale : CnctMachineSet → List CnctMachine → ℤ → Exec w.State (Unit {0})
  scale ms machines (negsuc n) = scale_up ms (suc n)
  scale ms machines (pos zero) = return tt
  scale ms machines (pos (suc n)) = scale_down ms machines (suc n)

  unfoldable pub sync_replicas : CnctMachineSet → List CnctMachine → Exec w.State (Unit {0})
  sync_replicas ms machines = scale ms machines (pos (length machines) -ℤ ms.spec.replicas)
