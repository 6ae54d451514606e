-- ===== src/Machine/Ready/Kubelet.antt =====
-- When a machine becomes ready or is upgraded.
use cma_ssh.Prelude.{
  String, string_eq, ◌≡◌, refl, ◌⊎◌, inl, inr, true, Option, none, some, List, [], ◌∷◌, Bool-cases,
  arith,
}
use cma_ssh.Prelude.Go.{Outcome, Result, ok, err, Err, is_not_found}
use cma_ssh.Prelude.Go.Ends as Go
use cma_ssh.Prelude.Go.Ends.{ComesBack}
use cma_ssh.Api.Meta.{Secret}
use cma_ssh.Api.Phase.{ready_machine}
use cma_ssh.Api.Machine.{CnctMachine}
use cma_ssh.World.{World}
use cma_ssh.World.Remote.{Node, NodeCondition}
use cma_ssh.Machine.Create.{kubeconfig_data}
use cma_ssh.Machine.Ready.{
  with_phase, sees_kubelet_ready, ready_clientset, update_machine, with_node, with_config,
  check_node, after_delete, with_secret, handle_waiting_for_ready,
}

-- A condition of the list says that the kubelet is ready.
abbrev pub KubeletReady : List NodeCondition → Type 0
KubeletReady [] = ⊥
KubeletReady (v ∷ conditions) =
    ((v.reason ≡ "KubeletReady") × (v.status ≡ "True")) ⊎ KubeletReady conditions

sees_kubelet_ready-KubeletReady :
    (conditions : List NodeCondition)
    → sees_kubelet_ready conditions ≡ true
    → KubeletReady conditions
unfolding sees_kubelet_ready
sees_kubelet_ready-KubeletReady [] h = ground arith
sees_kubelet_ready-KubeletReady (v ∷ conditions) h =
    ground (arith, sees_kubelet_ready-KubeletReady conditions)

module _ (w : World) where
  -- The last call made the machine ready, and the machine's node, read just before, had a ready
  -- kubelet.
  abbrev pub MadeReady : CnctMachine → w.State → Type 0
  MadeReady machine s =
      (clientset : w.remote.Clientset) × (node : Node) × (machine' : CnctMachine) × (s₀
        s₁ : w.State)
      × (w.remote.get_node clientset machine.metadata.name s₀ ≡ (ok node, s₁))
      × KubeletReady node.conditions
      × (w.kube.machines.update (with_phase ready_machine machine) s₁ ≡ (ok machine', s))

  -- The last call was to delete the machine, and the API server did not find it.
  abbrev pub NotFound : CnctMachine → w.State → Type 0
  NotFound machine s =
      (e : Err) × (s₁ : w.State) × (w.kube.machines.delete machine s₁ ≡ (err e, s))
      × (is_not_found e ≡ true)

  abbrev pub Waited : CnctMachine → Outcome (Unit {0}) × w.State → Type 0
  Waited machine = Go.Final ⊥ (λ _ s. MadeReady machine s ⊎ NotFound machine s)

  updated-Waited :
      (machine : CnctMachine) (clientset : w.remote.Clientset) (node : Node) (s₀ s₁ : w.State)
      (r : Result CnctMachine) (s : w.State)
      → w.remote.get_node clientset machine.metadata.name s₀ ≡ (ok node, s₁)
      → KubeletReady node.conditions
      → w.kube.machines.update (with_phase ready_machine machine) s₁ ≡ (r, s)
      → Waited machine (update_machine w (with_phase ready_machine machine) s₁)
  updated-Waited machine clientset node s₀ s₁ (ok m) s g k u =
      rw u (inl (clientset, node, m, s₀, s₁, g, k, u))
  updated-Waited machine clientset node s₀ s₁ (err e) s g k u = rw u tt

  pub ready_clientset-ComesBack :
      (config_data : String) (s : w.State) → ComesBack (ready_clientset w config_data s)
  unfolding ready_clientset
  ready_clientset-ComesBack config_data s = ground arith

  with_node-Waited :
      (machine : CnctMachine) (clientset : w.remote.Clientset) (r : Result Node) (s₀ s₁ : w.State)
      → w.remote.get_node clientset machine.metadata.name s₀ ≡ (r, s₁)
      → Waited machine (with_node w machine r s₁)
  with_node-Waited machine clientset (err e) s₀ s₁ g = tt
  with_node-Waited machine clientset (ok node) s₀ s₁ g =
      elim (Bool-cases (sees_kubelet_ready node.conditions)) [
        | inl h ↦ rw h (
            updated-Waited machine clientset node s₀ s₁ _ _ g
              (sees_kubelet_ready-KubeletReady node.conditions h) refl)
        | inr h ↦ rw h tt
      ]

  with_config-Waited :
      (machine : CnctMachine) (d : Option String) (s : w.State)
      → Waited machine (with_config w machine d s)
  unfolding Go.Ends
  with_config-Waited machine none s = tt
  with_config-Waited machine (some d) s =
      Go.Ends-bind ⊥ (λ _ _. Unit {0}) (λ _ s. MadeReady machine s ⊎ NotFound machine s)
        (ready_clientset w d) _ (ready_clientset-ComesBack d)
        (λ clientset s₀ _. with_node-Waited machine clientset _ s₀ _ refl) s

  check_node-Waited :
      (machine : CnctMachine) (secret : Secret) (s : w.State)
      → Waited machine (check_node w machine secret s)
  unfolding check_node
  check_node-Waited machine secret s = with_config-Waited machine (kubeconfig_data secret) s

  after_delete-Waited :
      (machine : CnctMachine) (r : Result (Unit {0})) (s₁ s : w.State)
      → w.kube.machines.delete machine s₁ ≡ (r, s)
      → Waited machine (after_delete w machine r s)
  after_delete-Waited machine (ok _) s₁ s h = check_node-Waited machine _ s
  after_delete-Waited machine (err e) s₁ s h = elim (Bool-cases (is_not_found e)) [
    | inl n ↦ rw n (inr (e, s₁, h, n))
    | inr n ↦ rw n tt
  ]

  with_secret-Waited :
      (machine : CnctMachine) (r : Result Secret) (s : w.State)
      → Waited machine (with_secret w machine r s)
  with_secret-Waited machine (ok secret) s = check_node-Waited machine secret s
  with_secret-Waited machine (err e) s = elim (Bool-cases (is_not_found e)) [
    | inl n ↦ rw n (after_delete-Waited machine _ s _ refl)
    | inr n ↦ rw n tt
  ]

  -- `handleWaitingForReady` never panics. When it returns nil, then either its last call was an
  -- update that the API server accepted, which sets the phase of the machine to ready, right after
  -- the machine's node was read and had a condition with the reason KubeletReady and the status
  -- True; or its last call was to delete the machine, which the API server did not find.
  pub handle_waiting_for_ready-Waited :
      (machine : CnctMachine) (s : w.State) → Waited machine (handle_waiting_for_ready w machine s)
  unfolding handle_waiting_for_ready
  handle_waiting_for_ready-Waited machine s = with_secret-Waited machine _ _
