-- ===== src/MachineSet/Select.antt =====
-- pkg/controller/machineset/machineset-utils.go, and from machineset_controller.go the functions
-- that pick, adopt and make the machines of a set.
pub mod Own
pub mod Claims
use cma_ssh.Prelude.{
  String, ◌<>◌, Bool, true, false, not, ◌&&◌, Option, none, some, List, [], ◌∷◌, ◌++◌,
  if◌then◌else◌,
}
use cma_ssh.Prelude.Go.{
  Exec, return, try, call, ◌>>=◌, Result, ok, err, Err, wrapped, plain_error, is_not_found,
}
use cma_ssh.Api.Meta.{ObjectMeta, ObjectKey, OwnerReference}
use cma_ssh.Api.Phase.{unset_machine}
use cma_ssh.Api.Machine.{CnctMachine, empty_status}
use cma_ssh.Api.MachineSet.{CnctMachineSet}
use cma_ssh.World.{World}

abbrev pub machine_set_kind : String
machine_set_kind = "CnctMachineSet"

-- `Option` for a pointer that is compared with nil.
abbrev is_some : {A : Type 0} → Option A → Bool
is_some none = false
is_some (some _) = true

-- A machine with a controller reference, as the loop of `MachineToMachineSets` looks for it.
unfoldable pub has_controller : List OwnerReference → Bool
has_controller [] = false
has_controller (ref ∷ refs) = elim ref.controller [
  | some true ↦ true
  | some false ↦ has_controller refs
  | none ↦ has_controller refs
]

abbrev prepend : Option CnctMachine → List CnctMachine → List CnctMachine
prepend none rest = rest
prepend (some m) rest = m ∷ rest

abbrev set_requests : List CnctMachineSet → List ObjectKey
set_requests [] = []
set_requests (ms ∷ mss) =
    record { namespace = ms.metadata.namespace; name = ms.metadata.name } ∷ set_requests mss

-- A machine whose adoption fails is passed over.
abbrev adopted_machine : Result CnctMachine → Option CnctMachine
adopted_machine (ok m) = some m
adopted_machine (err _) = none

module _ (w : World) where
  -- The two results of `ValidateMachineSet`: `ok true` or an error.
  unfoldable pub validate_machine_set : CnctMachineSet → Result Bool
  validate_machine_set ms = elim (w.labels.label_selector_as_selector ms.spec.selector) [
    | err e ↦
        err (wrapped ("Failed to parse MachineSet \"" <> ms.metadata.name <> "\" label selector") e)
    | ok selector ↦
        if not (w.labels.matches selector ms.spec.machine_template.metadata.labels)
        then err (
            plain_error (
              "Failed validation on MachineSet \"" <> ms.metadata.name
              <> "\" label selector does not match machine template label"))
        else ok true
  ]

  unfoldable pub has_matching_labels : CnctMachineSet → CnctMachine → Bool
  has_matching_labels ms machine = elim (w.labels.label_selector_as_selector ms.spec.selector) [
    | err e ↦ false
    | ok selector ↦
        if w.labels.empty selector
        then false
        else if not (w.labels.matches selector machine.metadata.labels)
        then false
        else true
  ]

  unfoldable pub should_exclude_machine : CnctMachineSet → CnctMachine → Bool
  should_exclude_machine ms machine =
      if is_some (w.kube.get_controller_of machine.metadata)
        && not (w.kube.is_controlled_by machine.metadata ms.metadata)
      then true
      else if is_some machine.metadata.deletion_timestamp
      then true
      else if not (has_matching_labels ms machine)
      then true
      else false

  -- The loop of `getMachineSetsForMachine`.
  unfoldable pub matching_machine_sets : CnctMachine → List CnctMachineSet → List CnctMachineSet
  matching_machine_sets m [] = []
  matching_machine_sets m (ms ∷ items) =
      let rest = matching_machine_sets m items in
      if has_matching_labels ms m then ms ∷ rest else rest

  -- `getMachineSetsForMachine`: no set for a machine without labels, or if the list call fails.
  unfoldable pub get_machine_sets_for_machine :
      CnctMachine → w.State → List CnctMachineSet × w.State
  get_machine_sets_for_machine m s = elim m.metadata.labels [
    | [] ↦ ([], s)
    | _ ∷ _ ↦
        let (r, s') = w.kube.machine_sets.list m.metadata.namespace s in
        (elim r [ ok items ↦ matching_machine_sets m items | err _ ↦ [] ], s')
  ]

  -- `MachineToMachineSets`: the sets that may adopt the machine of that key.
  unfoldable pub machine_to_machine_sets : ObjectKey → w.State → List ObjectKey × w.State
  machine_to_machine_sets key s =
      let (r, s') = w.kube.machines.get key s in
      elim r [
        | err _ ↦ ([], s')
        | ok m ↦
            if has_controller m.metadata.owner_references
            then ([], s')
            else let (mss, s'') = get_machine_sets_for_machine m s' in (set_requests mss, s'')
      ]

  -- `adoptOrphan`. The machine comes back as the server sends it.
  unfoldable pub adopt_orphan : CnctMachineSet → CnctMachine → Exec w.State CnctMachine
  adopt_orphan ms machine = call (
      w.kube.machines.update (record machine {
        metadata = record machine.metadata {
          owner_references =
              machine.metadata.owner_references
              ++ w.kube.new_controller_ref ms.metadata machine_set_kind ∷ [];
        };
      }))

  -- One round of `filterMachines`: the machine that is kept, if it is.
  unfoldable pub claim_machine : CnctMachineSet → CnctMachine → Exec w.State (Option CnctMachine)
  claim_machine ms machine =
      if should_exclude_machine ms machine
      then return none
      else elim (w.kube.get_controller_of machine.metadata) [
        | some _ ↦ return (some machine)
        | none ↦ do r ← try (adopt_orphan ms machine); return (adopted_machine r)
      ]

  unfoldable pub filter_machines :
      CnctMachineSet → List CnctMachine → Exec w.State (List CnctMachine)
  filter_machines ms [] = return []
  filter_machines ms (machine ∷ items) = do
    kept ← claim_machine ms machine
    rest ← filter_machines ms items
    return (prepend kept rest)

  -- `createMachine`. The source copies the template's metadata whole.
  unfoldable pub create_machine : CnctMachineSet → CnctMachine
  create_machine ms = record {
    type_meta = record {
      kind = "CnctMachine";
      api_version = "cluster.cnct.sds.samsung.com/v1alpha1";
    };
    metadata = record ms.spec.machine_template.metadata {
      generate_name = ms.metadata.name <> "-";
      owner_references = w.kube.new_controller_ref ms.metadata machine_set_kind ∷ [];
      namespace = ms.metadata.namespace;
    };
    spec = ms.spec.machine_template.spec;
    status = empty_status;
  }
