-- ===== src/Server/Clusters/Creation.antt =====
-- What `CreateCluster` has done when it answers.
use cma_ssh.Prelude.{◌≡◌, refl, ◌⊎◌, inl, inr, Option, some, none}
use cma_ssh.Prelude.Go.{Outcome, done, fail, panic, Result, ok, err, Err, nil_dereference, return}
use cma_ssh.Prelude.Go.Ends.{Final, continue-Final}
use cma_ssh.Api.Meta.{ObjectMeta}
use cma_ssh.Api.Cluster.{CnctCluster}
use cma_ssh.Api.Machine.{CnctMachine}
use cma_ssh.World.{World}
use cma_ssh.Server.{ControlPlaneMachineSpec, CreateClusterMsg, ClusterItem, provisioning}
use cma_ssh.Server.Calls.{rpc_call-then}
use cma_ssh.Server.Pools.Stored.{Stored, create_pools-Stored}
use cma_ssh.Server.Clusters.{
  new_namespace, new_cluster, control_plane_machine, prometheus_bundle, create_control_plane,
  create_cluster,
}

module _ (w : World) where
  -- The namespace, the cluster, one machine of the control plane and the sets of the pools were
  -- created, in this order; then the app bundle was asked for, whether it was accepted or not.
  abbrev pub Created : CreateClusterMsg → ControlPlaneMachineSpec → w.State → w.State → Type 0
  Created msg config s t =
      (namespace : ObjectMeta) × (cluster : CnctCluster) × (machine : CnctMachine) × (s₁ s₂ s₃
        s₄ : w.State)
      × (w.kube.namespaces.create (new_namespace msg.name) s ≡ (ok namespace, s₁))
      × (w.kube.clusters.create (new_cluster msg) s₁ ≡ (ok cluster, s₂))
      × (w.kube.machines.create (control_plane_machine msg.name config) s₂ ≡ (ok machine, s₃))
      × Stored w msg.name msg.worker_node_pools s₃ s₄
      × ((w.kube.app_bundles.create (prometheus_bundle msg.name) s₄).1 ≡ t)

  abbrev pub Answered :
      CreateClusterMsg → ControlPlaneMachineSpec → w.State → ClusterItem → w.State → Type 0
  Answered msg config s item t =
      Created msg config s t × (item ≡ record { name = msg.name; status = provisioning })

  abbrev MachineCreated : CreateClusterMsg → ControlPlaneMachineSpec → w.State → w.State → Type 0
  MachineCreated msg config s t =
      (machine : CnctMachine) × (w.kube.machines.create (control_plane_machine msg.name config) s
        ≡ (ok machine, t))

  control_plane-Final :
      (msg : CreateClusterMsg) (config : ControlPlaneMachineSpec) (s : w.State)
      (nodes : Option ControlPlaneMachineSpec)
      → nodes ≡ some config
      → Final ⊥ (λ _ t. MachineCreated msg config s t) (create_control_plane w msg.name nodes s)
  control_plane-Final msg config s nodes p = rw p (
      rpc_call-then (λ _ t. MachineCreated msg config s t)
        (w.kube.machines.create (control_plane_machine msg.name config)) (λ _. return tt) s
        (λ machine t c. (machine, c)))

  -- With a control plane in the request the handler never panics, whatever the API server answers;
  -- and when it answers without an error, the namespace, the cluster, one machine of the control plane
  -- and the valid set of each pool were created in this order, the app bundle was asked for, and the
  -- reply has the name of the request and says that the cluster is being provisioned.
  pub create_cluster-Created :
      (msg : CreateClusterMsg) (config : ControlPlaneMachineSpec) (s : w.State)
      → msg.control_plane_nodes ≡ some config
      → Final ⊥ (Answered msg config s) (create_cluster w msg s)
  unfolding create_cluster
  create_cluster-Created msg config s p =
      rpc_call-then (Answered msg config s) (w.kube.namespaces.create (new_namespace msg.name)) _ s
        (λ namespace s₁ a.
          rpc_call-then (Answered msg config s) (w.kube.clusters.create (new_cluster msg)) _ s₁
            (λ cluster s₂ b.
              continue-Final ⊥ (λ _ t. MachineCreated msg config s₂ t) (Answered msg config s) _ _ _
                (control_plane-Final msg config s₂ msg.control_plane_nodes p)
                (λ _ (machine, c).
                  continue-Final ⊥ (λ _ u. Stored w msg.name msg.worker_node_pools _ u)
                    (Answered msg config s) _ _ _
                    (create_pools-Stored w msg.name msg.worker_node_pools _)
                    (λ _ d.
                      ((namespace, cluster, machine, s₁, s₂, _, _, a, b, c, d, refl), refl)))))

  -- What is left behind without an answer: a refused namespace, a namespace whose cluster was refused,
  -- or a panic with both of them created and nothing else.
  abbrev pub Unanswered : CreateClusterMsg → w.State → Outcome ClusterItem × w.State → Type 0
  Unanswered msg s (done item, t) = ⊥
  Unanswered msg s (fail _, t) =
      ((e : Err) × (w.kube.namespaces.create (new_namespace msg.name) s ≡ (err e, t)))
      ⊎ ((namespace : ObjectMeta) × (s₁ : w.State) × (e : Err) × (w.kube.namespaces.create
              (new_namespace msg.name) s
            ≡ (ok namespace, s₁))
          × (w.kube.clusters.create (new_cluster msg) s₁ ≡ (err e, t)))
  Unanswered msg s (panic fault, t) =
      (namespace : ObjectMeta) × (cluster : CnctCluster) × (s₁ : w.State)
      × (w.kube.namespaces.create (new_namespace msg.name) s ≡ (ok namespace, s₁))
      × (w.kube.clusters.create (new_cluster msg) s₁ ≡ (ok cluster, t))
      × (fault ≡ nil_dereference)

  cluster-Unanswered :
      (msg : CreateClusterMsg) (namespace : ObjectMeta) (s s₁ : w.State)
      → msg.control_plane_nodes ≡ none
      → w.kube.namespaces.create (new_namespace msg.name) s ≡ (ok namespace, s₁)
      → (r : Result CnctCluster) (t : w.State)
      → w.kube.clusters.create (new_cluster msg) s₁ ≡ (r, t)
      → Unanswered msg s (create_cluster w msg s)
  unfolding create_cluster
  cluster-Unanswered msg namespace s s₁ p a (ok cluster) t b =
      rw (a, b, p) (namespace, cluster, s₁, a, b, refl)
  cluster-Unanswered msg namespace s s₁ p a (err e) t b = rw (a, b) (inr (namespace, s₁, e, a, b))

  namespace-Unanswered :
      (msg : CreateClusterMsg) (s : w.State)
      → msg.control_plane_nodes ≡ none
      → (r : Result ObjectMeta) (t : w.State)
      → w.kube.namespaces.create (new_namespace msg.name) s ≡ (r, t)
      → Unanswered msg s (create_cluster w msg s)
  unfolding create_cluster
  namespace-Unanswered msg s p (err e) t a = rw a (inl (e, a))
  namespace-Unanswered msg s p (ok namespace) s₁ a =
      cluster-Unanswered msg namespace s s₁ p a _ _ refl

  -- A request without a control plane is never answered, whatever the API server answers: either the
  -- namespace or the cluster is refused and the handler returns an error, or both are created, and
  -- then the handler panics and leaves them behind.
  pub create_cluster-no_control_plane :
      (msg : CreateClusterMsg) (s : w.State)
      → msg.control_plane_nodes ≡ none
      → Unanswered msg s (create_cluster w msg s)
  create_cluster-no_control_plane msg s p = namespace-Unanswered msg s p _ _ refl
