-- ===== src/MachineSet/Select/Own.antt =====
-- A set keeps the machines that it makes.
use cma_ssh.Prelude.{String, ◌≡◌, true, false, none, [], ◌∷◌, arith}
use cma_ssh.Prelude.Go.{ok}
use cma_ssh.Api.Meta.{ObjectMeta}
use cma_ssh.Api.Machine.{CnctMachine}
use cma_ssh.Api.MachineSet.{CnctMachineSet}
use cma_ssh.World.{World}
use cma_ssh.MachineSet.Select.{
  validate_machine_set, has_matching_labels, should_exclude_machine, create_machine,
}

module _ (w : World)
    (controlled : (o owner : ObjectMeta) (kind : String)
      → o.owner_references ≡ w.kube.new_controller_ref owner kind ∷ []
      → w.kube.is_controlled_by o owner ≡ true) where
  -- If a set is valid and its selector is not empty, then it does not exclude a machine that has
  -- the labels and owner references of the machines it creates and is not being deleted, however
  -- the server fills in the rest. The controller reference is recognised as the set's, as
  -- `IsControlledBy` documents of a reference made by `NewControllerRef`.
  pub should_exclude_machine-create_machine :
      (ms : CnctMachineSet) (selector : w.labels.Selector) (m : CnctMachine)
      → validate_machine_set w ms ≡ ok true
      → w.labels.label_selector_as_selector ms.spec.selector ≡ ok selector
      → w.labels.empty selector ≡ false
      → m.metadata.labels ≡ (create_machine w ms).metadata.labels
      → m.metadata.owner_references ≡ (create_machine w ms).metadata.owner_references
      → m.metadata.deletion_timestamp ≡ none
      → should_exclude_machine w ms m ≡ false
  unfolding validate_machine_set should_exclude_machine has_matching_labels create_machine
  should_exclude_machine-create_machine ms selector m valid made full labels refs live =
      ground (arith, controlled m.metadata ms.metadata "CnctMachineSet" refs)
