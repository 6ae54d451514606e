-- ===== src/Machine/Lifecycle/Handlers.antt =====
-- The handlers of pkg/controller/machine/machine_controller.go, and what follows them.
use cma_ssh.Prelude.{String, Option, none, some, arith}
use cma_ssh.Prelude.Go.{Exec, Result, ok, err, Err, cause, is_not_found, attempt, return, ◌>>=◌}
use cma_ssh.Api.Meta.{Secret}
use cma_ssh.Api.Phase.{ready_machine, error_machine, machine_phase_eq}
use cma_ssh.Api.Machine.{CnctMachine}
use cma_ssh.World.{World}
use cma_ssh.World.Remote.{Node}
use cma_ssh.Machine.Create.{Creator, private_key, kubeconfig_data}
use cma_ssh.Machine.Create.Record.{create, provisioned}
use cma_ssh.Machine.Ready.{
  with_phase, ready_clientset, with_node, with_config, check_node, after_delete, with_secret,
  handle_waiting_for_ready,
}
use cma_ssh.Machine.Reconcile.{after, respond_to, conclude}
use cma_ssh.Prelude.Go.Kept.{KeptBy, KeptBy-bind, KeptBy-if}
use cma_ssh.Machine.Lifecycle.{Outside}
use cma_ssh.Machine.Lifecycle.Deletion.{delete-KeptBy}
use cma_ssh.Machine.Lifecycle.Creation.{create-KeptBy}

module _ (w : World) (I : w.State → Type 0) (Sent : CnctMachine → Type 0)
    (outside : Outside w I Sent) where
  ready_clientset-KeptBy : (config_data : String) → KeptBy I (ready_clientset w config_data)
  unfolding ready_clientset
  ready_clientset-KeptBy config_data s i = ground arith

  with_node-KeptBy :
      (machine : CnctMachine)
      → Sent (with_phase ready_machine machine)
      → (r : Result Node) → KeptBy I (with_node w machine r)
  with_node-KeptBy machine sent (err e) s i = i
  with_node-KeptBy machine sent (ok node) s i =
      ground (arith, outside.update_machine (with_phase ready_machine machine) sent s i)

  with_config-KeptBy :
      (machine : CnctMachine)
      → Sent (with_phase ready_machine machine)
      → (found : Option String) → KeptBy I (with_config w machine found)
  with_config-KeptBy machine sent none = λ s i. i
  with_config-KeptBy machine sent (some config_data) =
      KeptBy-bind I (ready_clientset w config_data) _ (ready_clientset-KeptBy config_data)
        (λ clientset.
          KeptBy-bind I (attempt (w.remote.get_node clientset machine.metadata.name))
            (with_node w machine) (outside.get_node clientset machine.metadata.name)
            (with_node-KeptBy machine sent))

  check_node-KeptBy :
      (machine : CnctMachine)
      → Sent (with_phase ready_machine machine)
      → (secret : Secret) → KeptBy I (check_node w machine secret)
  unfolding check_node
  check_node-KeptBy machine sent secret = with_config-KeptBy machine sent (kubeconfig_data secret)

  after_delete-KeptBy :
      (machine : CnctMachine)
      → Sent (with_phase ready_machine machine)
      → (r : Result (Unit {0})) → KeptBy I (after_delete w machine r)
  after_delete-KeptBy machine sent (ok _) = check_node-KeptBy machine sent _
  after_delete-KeptBy machine sent (err e) = KeptBy-if I (is_not_found e) _ _ (λ s i. i) (λ s i. i)

  with_secret-KeptBy :
      (machine : CnctMachine)
      → Sent (with_phase ready_machine machine)
      → (r : Result Secret) → KeptBy I (with_secret w machine r)
  with_secret-KeptBy machine sent (ok secret) = check_node-KeptBy machine sent secret
  with_secret-KeptBy machine sent (err e) =
      KeptBy-if I (is_not_found e) _ _
        (KeptBy-bind I (attempt (w.kube.machines.delete machine)) (after_delete w machine)
          (outside.delete_machine machine) (after_delete-KeptBy machine sent))
        (λ s i. i)

  pub waiting-KeptBy :
      (machine : CnctMachine)
      → Sent (with_phase ready_machine machine)
      → KeptBy I (handle_waiting_for_ready w machine)
  unfolding handle_waiting_for_ready
  waiting-KeptBy machine sent =
      KeptBy-bind I (attempt (w.kube.secrets.get (private_key machine.metadata.namespace)))
        (with_secret w machine) (outside.get_secret (private_key machine.metadata.namespace))
        (with_secret-KeptBy machine sent)

  module _ (gives_up : (m : CnctMachine) → Sent (with_phase error_machine m)) where
    respond_to-KeptBy : (c e : Err) (machine : CnctMachine) → KeptBy I (respond_to w c e machine)
    unfolding respond_to
    respond_to-KeptBy c e machine s i = grind (
      arith,
      outside.update_machine (with_phase error_machine machine) (gives_up machine) s i,
      delete-KeptBy w I Sent outside,
    )

    pub conclude-KeptBy : (r : CnctMachine × Option Err) → KeptBy I (conclude w r)
    unfolding conclude
    conclude-KeptBy (machine, none) = λ s i. i
    conclude-KeptBy (machine, some e) = respond_to-KeptBy (cause e) e machine

    pub after-KeptBy :
        (machine : CnctMachine) (m : Exec w.State (Unit {0}))
        → KeptBy I m
        → KeptBy I (after w machine m >>= conclude w)
    after-KeptBy machine m h = KeptBy-bind I (after w machine m) (conclude w) h conclude-KeptBy

    pub created-KeptBy :
        ((d : Creator w) (ip : String) → Sent (provisioned w d ip))
        → (machine : CnctMachine)
        → KeptBy I ((create w machine >>= λ c. return (c.machine, c.err)) >>= conclude w)
    created-KeptBy sent machine =
        KeptBy-bind I (create w machine >>= λ c. return (c.machine, c.err)) (conclude w)
          (KeptBy-bind I (create w machine) (λ c. return (c.machine, c.err))
            (create-KeptBy w I Sent outside sent machine) (λ c s i. i))
          conclude-KeptBy
