-- ===== src/MachineSet/Status.antt =====
-- pkg/controller/machineset/status.go
pub mod Labeled
use cma_ssh.Prelude.{ℕ, suc, String, string_eq, ◌==◌, some, List, [], ◌∷◌, length, if◌then◌else◌}
use cma_ssh.Prelude.Go.{Exec, return, call, observe, ◌>>=◌}
use cma_ssh.Prelude.Int.{int32}
use cma_ssh.Api.Machine.{CnctMachine}
use cma_ssh.Api.MachineSet.{CnctMachineSet, MachineSetStatus}
use cma_ssh.World.{World}

module _ (w : World) where
  -- The loop of `calculateStatus`, over the machines left, for the template's selector.
  unfoldable pub count_fully_labeled : w.labels.Selector → List CnctMachine → ℕ
  count_fully_labeled template_label [] = 0
  count_fully_labeled template_label (machine ∷ machines) =
      let rest = count_fully_labeled template_label machines in
      if w.labels.matches template_label machine.metadata.labels then suc rest else rest

  unfoldable pub calculate_status : CnctMachineSet → List CnctMachine → MachineSetStatus
  calculate_status ms filtered_machines =
      let template_label =
        w.labels.as_selector_pre_validated ms.spec.machine_template.metadata.labels in
      record ms.status {
        replicas = int32 (length filtered_machines);
        fully_labeled_replicas = int32 (count_fully_labeled template_label filtered_machines);
      }

  -- `updateStatus`, with the event's type, reason and message.
  unfoldable pub update_status :
      CnctMachineSet → String → String → String → Exec w.State CnctMachineSet
  update_status ms event_type event event_message = do
    fresh ← call (
        w.kube.machine_sets.get
          (record { namespace = ms.metadata.namespace; name = ms.metadata.name }))
    now ← observe w.host.now
    updated ← call (
        w.kube.machine_sets.update (record fresh {
          status = record fresh.status {
            phase = ms.status.phase;
            last_updated = some now;
            replicas = ms.status.replicas;
            fully_labeled_replicas = ms.status.fully_labeled_replicas;
          };
        }))
    if event_type == ""
        then return updated
        else (λ s. return updated (w.kube.eventf updated.metadata event_type event event_message s))
