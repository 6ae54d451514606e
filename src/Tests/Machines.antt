-- ===== src/Tests/Machines.antt =====
-- Runs of the machine controller's reconcile and of a mapper.
use cma_ssh.Prelude.{refl, inl, none, some, [], ◌∷◌}
use cma_ssh.Prelude.Go.Ends.{ComesBack}
use cma_ssh.Api.Meta.{ObjectKey}
use cma_ssh.Api.Phase.{ready_machine, deleting_machine, provisioning_machine}
use cma_ssh.Api.Machine.{CnctMachine}
use cma_ssh.World.{World}
use cma_ssh.Machine.Create.Record as Record
use cma_ssh.Machine.Create.Record.{
  create_kubeconfig, provisioned, update_machine, master_steps, worker_steps,
}
use cma_ssh.Machine.Create.Record.Written.{Provisioned, create-Provisioned}
use cma_ssh.Machine.Ready.{handle_waiting_for_ready}
use cma_ssh.Machine.Ready.Kubelet.{Waited, handle_waiting_for_ready-Waited}
use cma_ssh.Machine.Reconcile.{reconcile_machine}
use cma_ssh.Machine.Reconcile.Phases.{reconcile_machine-ComesBack}
use cma_ssh.Tests.Demo.{up, alive, machine, in_phase}

abbrev key : ObjectKey
key = record { namespace = "ns"; name = "m0" }

handle_waiting_for_ready_example :
    Waited up
      (in_phase provisioning_machine)
      (handle_waiting_for_ready up (in_phase provisioning_machine) tt)
handle_waiting_for_ready_example =
    handle_waiting_for_ready-Waited up (in_phase provisioning_machine) tt

create_example : Provisioned up (Record.create up machine tt)
create_example = create-Provisioned up machine tt

reconcile_machine_example : ComesBack (reconcile_machine up (in_phase deleting_machine) tt)
reconcile_machine_example = reconcile_machine-ComesBack up (in_phase deleting_machine) tt (inl refl)

-- The API server has this machine.
abbrev having : CnctMachine → World
having m = record up { kube = record up.kube { machines = alive m } }

abbrev leaving : CnctMachine
leaving = record (in_phase ready_machine) {
  metadata = record machine.metadata { deletion_timestamp = some 5 };
}

abbrev left : CnctMachine
left = record (in_phase deleting_machine) {
  metadata = record machine.metadata { deletion_timestamp = some 5 };
}

abbrev owned : CnctMachine
owned = record machine {
  metadata = record machine.metadata {
    owner_references =
        record {
          api_version = "";
          kind = "CnctCluster";
          name = "c0";
          uid = "";
          controller = none;
          block_owner_deletion = none;
        }
        ∷ [];
  };
}
