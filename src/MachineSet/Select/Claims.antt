-- ===== src/MachineSet/Select/Claims.antt =====
-- Which machines `filterMachines` keeps for a set.
use cma_ssh.Prelude.{
  ◌≡◌, refl, ◌⊎◌, inl, inr, ◌≢◌, true, false, Option, none, some, List, [], ◌∷◌, ◌++◌, arith,
  Option-cases,
}
use cma_ssh.Prelude.Go.{Result, ok, err, Err, done}
use cma_ssh.Prelude.Go.Ends.{Ensures, Ensures-map}
use cma_ssh.Api.Machine.{CnctMachine}
use cma_ssh.Api.MachineSet.{CnctMachineSet}
use cma_ssh.World.{World}
use cma_ssh.MachineSet.Select.{
  should_exclude_machine, has_matching_labels, claim_machine, filter_machines, adopt_orphan,
  machine_set_kind, adopted_machine, prepend,
}

module _ (w : World) (ms : CnctMachineSet) where
  -- A machine that the set may hold: not controlled by another, not being deleted, with labels
  -- that the set selects.
  abbrev pub IsCandidate : CnctMachine → Type 0
  IsCandidate m =
      ((w.kube.get_controller_of m.metadata ≡ none)
        ⊎ (w.kube.is_controlled_by m.metadata ms.metadata ≡ true))
      × (m.metadata.deletion_timestamp ≡ none)
      × (has_matching_labels w ms m ≡ true)

  -- The machine with the set's controller reference behind its others.
  abbrev pub claimed : CnctMachine → CnctMachine
  claimed m = record m {
    metadata = record m.metadata {
      owner_references =
          m.metadata.owner_references
          ++ w.kube.new_controller_ref ms.metadata machine_set_kind ∷ [];
    };
  }

  -- What becomes of one machine: it stays, as it was or as the server returned it, or it does not.
  pub data Claim (m : CnctMachine) : Option CnctMachine → Type 0 where
    refused : ¬ IsCandidate m → Claim m none
    own : IsCandidate m → w.kube.get_controller_of m.metadata ≢ none → Claim m (some m)
    adopted :
        (s : w.State) {m' : CnctMachine}
        → IsCandidate m
        → w.kube.get_controller_of m.metadata ≡ none
        → (w.kube.machines.update (claimed m) s).0 ≡ ok m'
        → Claim m (some m')
    not_adopted :
        (s : w.State) {e : Err}
        → IsCandidate m
        → w.kube.get_controller_of m.metadata ≡ none
        → (w.kube.machines.update (claimed m) s).0 ≡ err e
        → Claim m none

  pub data Kept : List CnctMachine → List CnctMachine → Type 0 where
    end : Kept [] []
    skip : {m : CnctMachine} {l k : List CnctMachine} → Claim m none → Kept l k → Kept (m ∷ l) k
    keep :
        {m m' : CnctMachine} {l k : List CnctMachine}
        → Claim m (some m')
        → Kept l k
        → Kept (m ∷ l) (m' ∷ k)

  excluded-IsCandidate :
      (m : CnctMachine)
      → ((should_exclude_machine w ms m ≡ false) × IsCandidate m)
        ⊎ ((should_exclude_machine w ms m ≡ true) × (¬ IsCandidate m))
  unfolding should_exclude_machine
  excluded-IsCandidate m = grind arith

  adopted-Claim :
      (m : CnctMachine) (s : w.State) (r : Result CnctMachine)
      → IsCandidate m
      → w.kube.get_controller_of m.metadata ≡ none
      → (w.kube.machines.update (claimed m) s).0 ≡ r
      → Claim m (adopted_machine r)
  adopted-Claim m s (ok m') c n e = adopted s c n e
  adopted-Claim m s (err x) c n e = not_adopted s c n e

  claim_machine-Claim :
      (m : CnctMachine) (s : w.State)
      → (o : Option CnctMachine) × ((claim_machine w ms m s).0 ≡ done o) × Claim m o
  unfolding claim_machine adopt_orphan
  claim_machine-Claim m s = elim (excluded-IsCandidate m) [
    | inr (out, h) ↦ (none, ground arith, refused h)
    | inl (stay, c) ↦ elim (Option-cases (w.kube.get_controller_of m.metadata)) [
      | inr (ref, e) ↦ (some m, ground arith, own c (λ n. ground arith))
      | inl n ↦
          let r = (w.kube.machines.update (claimed m) s).0 in
          (adopted_machine r, ground arith, adopted-Claim m s r c n refl)
    ]
  ]

  prepend-Kept :
      {m : CnctMachine} {l k : List CnctMachine} (o : Option CnctMachine)
      → Claim m o
      → Kept l k
      → Kept (m ∷ l) (prepend o k)
  prepend-Kept none c h = skip c h
  prepend-Kept (some m') c h = keep c h

  -- For every machine listed, in order: it is kept if the set controls it, or if no controller is
  -- set and the server accepts it with the set's reference; it is passed over if it is controlled
  -- by another, being deleted or not selected, or if the server refuses the adoption. The call
  -- always comes back with a list.
  pub filter_machines-Kept :
      (all_machines : List CnctMachine) (s : w.State)
      → Ensures (Kept all_machines) (filter_machines w ms all_machines s).0
  unfolding filter_machines
  filter_machines-Kept [] s = end
  filter_machines-Kept (m ∷ l) s =
      let (o, e, c) = claim_machine-Claim m s in
      rw e (
        Ensures-map (Kept l) (Kept (m ∷ l)) (prepend o)
          (filter_machines w ms l (claim_machine w ms m s).1).0 _
          (filter_machines-Kept l (claim_machine w ms m s).1) (λ k. prepend-Kept o c))
