-- ===== src/MachineSet/Status/Labeled.antt =====
-- The machines that `calculateStatus` counts as fully labeled.
use cma_ssh.Prelude.{◌≡◌, refl, ap, inl, inr, Bool-cases, true, false, List, [], ◌∷◌, suc, length}
use cma_ssh.Api.Machine.{CnctMachine}
use cma_ssh.World.{World}
use cma_ssh.MachineSet.Status.{count_fully_labeled}

module _ (w : World) where
  -- Those of the machines whose labels match, in order.
  pub data Matching (selector : w.labels.Selector)
      : List CnctMachine → List CnctMachine → Type 0 where
    end : Matching selector [] []
    skip :
        {m : CnctMachine} {l k : List CnctMachine}
        → w.labels.matches selector m.metadata.labels ≡ false
        → Matching selector l k
        → Matching selector (m ∷ l) k
    keep :
        {m : CnctMachine} {l k : List CnctMachine}
        → w.labels.matches selector m.metadata.labels ≡ true
        → Matching selector l k
        → Matching selector (m ∷ l) (m ∷ k)

  pub count_fully_labeled-Matching :
      (selector : w.labels.Selector) (l : List CnctMachine)
      → (k : List CnctMachine) × Matching selector l k
        × (count_fully_labeled w selector l ≡ length k)
  unfolding count_fully_labeled
  count_fully_labeled-Matching selector [] = ([], end, refl)
  count_fully_labeled-Matching selector (m ∷ l) =
      let (k, h, e) = count_fully_labeled-Matching selector l in
      elim (Bool-cases (w.labels.matches selector m.metadata.labels)) [
        | inl same ↦ (m ∷ k, keep same h, rw same (ap suc e))
        | inr other ↦ (k, skip other h, rw other e)
      ]
