-- ===== src/Tests/MachineSets.antt =====
-- Runs of the machine set controller.
use mathlib.Core.List.Perm
use cma_ssh.Prelude.{
  ℕ, zero, suc, ◌-◌, ◌+◌, ◌<◌, String, ◌≡◌, refl, Bool, true, false, none, some, List, [], ◌∷◌,
  length, arith,
}
use cma_ssh.Prelude.Int.{pos, negsuc, pos_part}
use cma_ssh.Prelude.Go.{done, fail, panic, deadlock, ok, err, Err, wrapped, plain_error}
use cma_ssh.Prelude.Go.Ends.{Returns, Ensures, Final}
use cma_ssh.World.{World}
use cma_ssh.Api.Meta.{finished}
use cma_ssh.Api.Phase.{ready_machine, error_machine}
use cma_ssh.Api.Machine.{CnctMachine}
use cma_ssh.MachineSet.Policy.{random_delete_policy, get_machines_to_delete_prioritized}
use cma_ssh.MachineSet.Policy.Priority.{Choice, get_machines_to_delete_prioritized-Choice}
use cma_ssh.MachineSet.Select.{
  create_machine, should_exclude_machine, filter_machines, validate_machine_set,
}
use cma_ssh.MachineSet.Select.Own.{should_exclude_machine-create_machine}
use cma_ssh.MachineSet.Select.Claims.{Kept, filter_machines-Kept}
use cma_ssh.MachineSet.Status.{update_status}
use cma_ssh.MachineSet.Sync.{Created, create_machines, sync_replicas}
use cma_ssh.MachineSet.Sync.Scale.{sync_replicas-Returns}
use cma_ssh.MachineSet.Sync.Tally.{Tally, Made, sync_replicas-Created}
use cma_ssh.MachineSet.Reconcile.{sync_machine_set}
use cma_ssh.MachineSet.Reconcile.Failed.{Attempted, sync_machine_set-fail}
use cma_ssh.MachineSet.Reconcile.Recorded.{Recorded, sync_machine_set-Recorded}
use cma_ssh.Tests.Demo.{
  kube, labels, remote, maas, host, crypto, base, up, in_phase, set_of, alive, machine,
}
use cma_ssh.Tests.Sort.{insertion_sort, insertion_sort-Perm, insertion_sort-Sorted}

abbrev two : List CnctMachine
two = in_phase ready_machine ∷ in_phase error_machine ∷ []

get_machines_to_delete_prioritized_example : Choice random_delete_policy two (
    get_machines_to_delete_prioritized
      (insertion_sort CnctMachine)
      two
      (pos 1)
      random_delete_policy)
get_machines_to_delete_prioritized_example =
    get_machines_to_delete_prioritized-Choice (insertion_sort CnctMachine) insertion_sort-Perm
      insertion_sort-Sorted two (pos 1) random_delete_policy

sync_replicas-Returns_example : Returns (sync_replicas base (set_of (pos 1)) two tt).0
sync_replicas-Returns_example =
    sync_replicas-Returns base (λ lt l. Perm.refl l) (set_of (pos 1)) two 1 tt refl

-- The state is the number of machines that were created.
abbrev counting : World
counting = record {
  State = ℕ;
  kube = record kube { machines = record (alive machine) { create = λ x s. (ok x, suc s) } };
  labels = labels;
  remote = remote;
  maas = maas;
  host = host;
  crypto = crypto;
}

created_one :
    (y : CnctMachine) (s t : ℕ)
    → counting.kube.machines.create (create_machine counting (set_of (pos 3))) s ≡ (ok y, t)
    → t ≡ suc s
created_one y s t e = ground arith

refused_none :
    (e : Err) (s t : ℕ)
    → counting.kube.machines.create (create_machine counting (set_of (pos 3))) s ≡ (err e, t)
    → t ≡ s
refused_none x s t e = ground arith

abbrev creations : Tally counting (set_of (pos 3))
creations = record {
  accepted = λ s. s;
  create_accepted = created_one;
  create_refused = refused_none;
  get = λ k n s i. i;
  eventf = λ o t r m s. refl;
  poll_immediate = λ interval timeout n condition h s i. i;
}

sync_replicas-Created_example :
    Made counting (set_of (pos 3)) creations 1 4 (sync_replicas counting (set_of (pos 3)) two 4)
sync_replicas-Created_example =
    sync_replicas-Created counting (set_of (pos 3)) creations two 0 4 refl

-- The call succeeds there.
one_created : sync_replicas counting (set_of (pos 3)) two 4 ≡ (done tt, 5)
unfolding sync_replicas cma_ssh.MachineSet.Sync.scale cma_ssh.Prelude.Int.◌-ℤ◌
    cma_ssh.MachineSet.Sync.scale_up cma_ssh.MachineSet.Sync.create_machines
    cma_ssh.MachineSet.Sync.create_round cma_ssh.MachineSet.Sync.wait_for_machine_creation
one_created = refl

filter_machines_example :
    Ensures (Kept up (set_of (pos 2)) two) (filter_machines up (set_of (pos 2)) two tt).0
filter_machines_example = filter_machines-Kept up (set_of (pos 2)) two tt

should_exclude_machine_example :
    should_exclude_machine up (set_of (pos 1)) (create_machine up (set_of (pos 1))) ≡ false
unfolding validate_machine_set create_machine
should_exclude_machine_example =
    should_exclude_machine-create_machine up (λ o owner kind h. refl) (set_of (pos 1)) tt
      (create_machine up (set_of (pos 1))) refl refl refl refl refl refl

-- Machine sets can be read and written.
abbrev with_sets : World
with_sets = record up { kube = record up.kube { machine_sets = alive (set_of (pos 1)) } }

-- But no machine is created.
abbrev stuck : World
stuck = record with_sets { kube = record with_sets.kube { machines = base.kube.machines } }

sync_machine_set-fail_example :
    ((sync_machine_set stuck (set_of (pos 1)) [] tt).0
      ≡ fail (wrapped "failed to sync Machineset replicas" (plain_error "down")))
    × Attempted stuck (set_of (pos 1)) [] tt (sync_machine_set stuck (set_of (pos 1)) [] tt).1
unfolding filter_machines sync_replicas cma_ssh.MachineSet.Sync.scale cma_ssh.Prelude.Int.◌-ℤ◌
    cma_ssh.MachineSet.Sync.scale_up cma_ssh.MachineSet.Sync.create_machines
    cma_ssh.MachineSet.Sync.create_round cma_ssh.MachineSet.Sync.join cma_ssh.Prelude.Go.message
sync_machine_set-fail_example =
    sync_machine_set-fail stuck (set_of (pos 1)) [] [] tt tt tt (plain_error "down") refl refl

sync_machine_set-Recorded_example :
    Final Unit
      (λ result t. (result ≡ finished) × Recorded with_sets (set_of (pos 1)) (machine ∷ []) tt t)
      (sync_machine_set with_sets (set_of (pos 1)) (machine ∷ []) tt)
sync_machine_set-Recorded_example =
    sync_machine_set-Recorded with_sets (set_of (pos 1)) (machine ∷ []) tt

-- The reconcile succeeds there.
synced : sync_machine_set with_sets (set_of (pos 1)) (machine ∷ []) tt ≡ (done finished, tt)
unfolding sync_machine_set filter_machines cma_ssh.MachineSet.Select.claim_machine
    should_exclude_machine cma_ssh.MachineSet.Select.has_matching_labels
    cma_ssh.MachineSet.Select.adopt_orphan sync_replicas cma_ssh.MachineSet.Sync.scale
    cma_ssh.Prelude.Int.◌-ℤ◌ update_status cma_ssh.Prelude.string_discrete
synced = refl
