-- ===== src/MachineSet/Sync/Scale.antt =====
-- When a call of `syncReplicas` comes back, and when it never does.
use mathlib.Core.List.{Perm}
use native.Mathlib.Decide.{dec_lt}
use cma_ssh.Prelude.{
  ℕ, zero, suc, ◌+◌, ◌-◌, ◌≤◌, ◌<◌, ◌≡◌, Bool, List, [], ◌∷◌, length, arith, subst,
}
use cma_ssh.Prelude.Go.{done, panic, deadlock, Result}
use cma_ssh.Prelude.Go.Ends.{Returns, Ensures}
use cma_ssh.Prelude.Int.{ℤ, pos, negsuc, ◌-ℤ◌}
use cma_ssh.Api.Machine.{CnctMachine}
use cma_ssh.Api.MachineSet.{CnctMachineSet}
use cma_ssh.World.{World}
use cma_ssh.MachineSet.Policy.{random_delete_policy, get_machines_to_delete_prioritized}
use cma_ssh.MachineSet.Policy.Priority.{length-get_machines_to_delete_prioritized}
use cma_ssh.MachineSet.Select.{create_machine}
use cma_ssh.MachineSet.Sync.{
  Created, create_machines, delete_machines, wait_for_machine_creation, wait_for_machine_deletion,
  scale_up, scale_down, scale, sync_replicas, poll_machine, is_created, is_deleted, create_round,
  delete_round,
}

-- The sign of `len(machines) - replicas`.
pub data Difference (n r : ℕ) : ℤ → Type 0 where
  equal : n ≡ r → Difference n r (pos zero)
  more : (d : ℕ) → suc d + r ≡ n → Difference n r (pos (suc d))
  fewer : (d : ℕ) → suc d + n ≡ r → Difference n r (negsuc d)

pub -ℤ-Difference : (n r : ℕ) → Difference n r (pos n -ℤ pos r)
unfolding ◌-ℤ◌
-ℤ-Difference n r = elim (dec_lt r n) [
  | yes h ↦ subst (Difference n r) {x = pos (suc (n - r - 1))} (ground arith) (more _ (omega arith))
  | no h ↦ elim (dec_lt n r) [
    | yes k ↦ subst (Difference n r) {x = negsuc (r - n - 1)} (ground arith) (fewer _ (omega arith))
    | no k ↦ subst (Difference n r) {x = pos zero} (ground arith) (equal (omega arith))
  ]
]

-ℤ-negsuc : (n k : ℕ) → (d : ℕ) × (pos n -ℤ negsuc k ≡ pos (suc d)) × (n ≤ d)
unfolding ◌-ℤ◌
-ℤ-negsuc n k = (n + k, ground arith, omega arith)

module _ (w : World) where
  pub wait_for_machine_creation-Returns :
      (ml : List CnctMachine) (s : w.State) → Returns (wait_for_machine_creation w ml s).0
  unfolding wait_for_machine_creation
  wait_for_machine_creation-Returns [] s = tt
  wait_for_machine_creation-Returns (m ∷ ml) s =
      ground (arith, wait_for_machine_creation-Returns ml (poll_machine w is_created m s).1)

  wait_for_machine_deletion-Returns :
      (ml : List CnctMachine) (s : w.State) → Returns (wait_for_machine_deletion w ml s).0
  unfolding wait_for_machine_deletion
  wait_for_machine_deletion-Returns [] s = tt
  wait_for_machine_deletion-Returns (m ∷ ml) s =
      ground (arith, wait_for_machine_deletion-Returns ml (poll_machine w is_deleted m s).1)

  abbrev Counted : ℕ → Created → Type 0
  Counted n c = length c.machine_list + length c.errstrings ≡ n

  create_round-done :
      (ms : CnctMachineSet) (s : w.State)
      → (r : Result CnctMachine) × ((create_round w ms s).0 ≡ done r)
  unfolding create_round
  create_round-done ms s = ((w.kube.machines.create (create_machine w ms) s).0, ground arith)

  -- The creation loop makes every attempt, and each ends in the list or among the errors.
  create_machines-Ensures :
      (ms : CnctMachineSet) (n : ℕ) (s : w.State) → Ensures (Counted n) (create_machines w ms n s).0
  unfolding create_machines
  create_machines-Ensures ms zero s = omega arith
  create_machines-Ensures ms (suc n) s =
      ground (arith, create_round-done ms s, create_machines-Ensures ms n (create_round w ms s).1)

  delete_round-done :
      (ms : CnctMachineSet) (m : CnctMachine) (s : w.State)
      → (r : Result (Unit {0})) × ((delete_round w ms m s).0 ≡ done r)
  unfolding delete_round
  delete_round-done ms m s = ((w.kube.machines.delete m s).0, ground arith)

  delete_machines-Ensures :
      (ms : CnctMachineSet) (ml : List CnctMachine) (s : w.State)
      → Ensures (λ es. length es ≤ length ml) (delete_machines w ms ml s).0
  unfolding delete_machines
  delete_machines-Ensures ms [] s = omega arith
  delete_machines-Ensures ms (m ∷ ml) s =
      ground
        (arith, delete_round-done ms m s, delete_machines-Ensures ms ml (delete_round w ms m s).1)

  scale_up-Returns : (ms : CnctMachineSet) (n : ℕ) (s : w.State) → Returns (scale_up w ms n s).0
  unfolding scale_up
  scale_up-Returns ms n s =
      grind (arith, create_machines-Ensures, wait_for_machine_creation-Returns)

  module _
      (sort-perm : (lt : CnctMachine → CnctMachine → Bool) (l : List CnctMachine)
        → Perm (w.host.sort CnctMachine lt l) l) where
    scale_down-Returns :
        (ms : CnctMachineSet) (machines : List CnctMachine) (n : ℕ) (s : w.State)
        → n ≤ length machines
        → Returns (scale_down w ms machines n s).0
    unfolding scale_down
    scale_down-Returns ms machines n s h = ground (
      arith,
      length-get_machines_to_delete_prioritized (w.host.sort CnctMachine) sort-perm machines (pos n)
          random_delete_policy,
      delete_machines-Ensures ms (w.host.schedule CnctMachine s chosen) s,
      wait_for_machine_deletion-Returns chosen
          (delete_machines w ms (w.host.schedule CnctMachine s chosen) s).1,
    )
      where
        chosen : List CnctMachine
        chosen =
            get_machines_to_delete_prioritized (w.host.sort CnctMachine) machines (pos n)
              random_delete_policy

    scale-Returns :
        (ms : CnctMachineSet) (machines : List CnctMachine) (r : ℕ) (s : w.State) {z : ℤ}
        → Difference (length machines) r z
        → Returns (scale w ms machines z s).0
    unfolding scale
    scale-Returns ms machines r s (equal _) = tt
    scale-Returns ms machines r s (more d e) =
        scale_down-Returns ms machines (suc d) s (omega arith)
    scale-Returns ms machines r s (fewer d e) = scale_up-Returns ms (suc d) s

    -- For a replica count that is not negative the call comes back, with success or an error, in
    -- every state of the outside world, if the sort permutes what it is given.
    pub sync_replicas-Returns :
        (ms : CnctMachineSet) (machines : List CnctMachine) (r : ℕ) (s : w.State)
        → ms.spec.replicas ≡ pos r
        → Returns (sync_replicas w ms machines s).0
    unfolding sync_replicas
    sync_replicas-Returns ms machines r s e =
        simp e (scale-Returns ms machines r s (-ℤ-Difference (length machines) r))

  scale_down-deadlock :
      (ms : CnctMachineSet) (machines : List CnctMachine) (n : ℕ) (s : w.State)
      → length machines < n
      → (scale_down w ms machines n s).0 ≡ panic deadlock
  unfolding scale_down get_machines_to_delete_prioritized
  scale_down-deadlock ms machines n s h = ground arith

  -- For a negative replica count the call never comes back, whatever machines there are and
  -- whatever the outside world answers: it waits for more goroutines than it starts.
  pub sync_replicas-deadlock :
      (ms : CnctMachineSet) (machines : List CnctMachine) (k : ℕ) (s : w.State)
      → ms.spec.replicas ≡ negsuc k
      → (sync_replicas w ms machines s).0 ≡ panic deadlock
  unfolding sync_replicas scale
  sync_replicas-deadlock ms machines k s e = ground (
    arith,
    -ℤ-negsuc (length machines) k,
    scale_down-deadlock ms machines (suc (-ℤ-negsuc (length machines) k).0) s,
  )

  -- With as many machines as replicas a call does nothing.
  pub sync_replicas_equal :
      (ms : CnctMachineSet) (machines : List CnctMachine) (s : w.State)
      → ms.spec.replicas ≡ pos (length machines)
      → sync_replicas w ms machines s ≡ (done tt, s)
  unfolding sync_replicas scale ◌-ℤ◌
  sync_replicas_equal ms machines s e = ground arith
