-- ===== src/Server/Pools/Stored.antt =====
-- What the handlers for pools have done when they answer.
use cma_ssh.Prelude.{
  String, string_eq, ◌≡◌, refl, ◌≢◌, subst, sym, Bool, true, false, List, [], ◌∷◌, arith,
}
use cma_ssh.Prelude.Go.{fail, ok, err, ◌>>=◌, Result, Err, return, rpc_error, internal, message}
use cma_ssh.Prelude.Go.Ends.{Final, continue-Final, Final-map}
use cma_ssh.Api.MachineSet.{CnctMachineSet}
use cma_ssh.Api.Cluster.{CnctCluster}
use cma_ssh.World.{World}
use cma_ssh.MachineSet.Select.{validate_machine_set}
use cma_ssh.Server.{PoolSpec, rpc_call}
use cma_ssh.Server.Pools.{pool_machine_set, create_pool, create_pools, add_node_pool, cluster_key}
use cma_ssh.Server.Calls.{rpc_call-Final, rpc_find-Final}

module _ (w : World) where
  -- The sets of these pools were created one after the other, and nothing else was called.
  abbrev pub Stored : String → List PoolSpec → w.State → w.State → Type 0
  Stored cluster_name [] s t = s ≡ t
  Stored cluster_name (config ∷ configs) s t =
      (machine_set : CnctMachineSet) × (s₁ : w.State) × (w.kube.machine_sets.create
          (pool_machine_set cluster_name config) s
        ≡ (ok machine_set, s₁))
      × (validate_machine_set w (pool_machine_set cluster_name config) ≡ ok true)
      × Stored cluster_name configs s₁ t

  create_pool_lem :
      (cluster_name : String) (config : PoolSpec) (s : w.State)
      → validate_machine_set w (pool_machine_set cluster_name config) ≡ ok true
      → create_pool w cluster_name config s
        ≡ (rpc_call (w.kube.machine_sets.create (pool_machine_set cluster_name config)) >>= λ _.
              return tt)
            s
  unfolding create_pool
  create_pool_lem cluster_name config s v = ground arith

  -- The creation of a set that is valid.
  valid-Stored :
      (cluster_name : String) (config : PoolSpec) (s : w.State)
      → validate_machine_set w (pool_machine_set cluster_name config) ≡ ok true
      → Final ⊥ (λ _ t. Stored cluster_name (config ∷ []) s t) (create_pool w cluster_name config s)
  valid-Stored cluster_name config s v = rw (create_pool_lem cluster_name config s v) (
      continue-Final ⊥
        (λ ms t. w.kube.machine_sets.create (pool_machine_set cluster_name config) s ≡ (ok ms, t))
        (λ _ t. Stored cluster_name (config ∷ []) s t) _ _ _
        (rpc_call-Final (w.kube.machine_sets.create (pool_machine_set cluster_name config)) s)
        (λ ms c. (ms, _, c, v, refl)))

  create_pool-fail :
      (cluster_name : String) (config : PoolSpec) (s : w.State) (e : Err)
      → validate_machine_set w (pool_machine_set cluster_name config) ≡ err e
      → create_pool w cluster_name config s ≡ (fail (rpc_error internal (message e)), s)
  unfolding create_pool
  create_pool-fail cluster_name config s e v = ground arith

  validate-never_false : (ms : CnctMachineSet) → validate_machine_set w ms ≢ ok false
  unfolding validate_machine_set
  validate-never_false ms = ground arith

  validated-Stored :
      (cluster_name : String) (config : PoolSpec) (s : w.State) (v : Result Bool)
      → validate_machine_set w (pool_machine_set cluster_name config) ≡ v
      → Final ⊥ (λ _ t. Stored cluster_name (config ∷ []) s t) (create_pool w cluster_name config s)
  validated-Stored cluster_name config s (ok true) v = valid-Stored cluster_name config s v
  validated-Stored cluster_name config s (ok false) v =
      absurd (validate-never_false (pool_machine_set cluster_name config) v)
  validated-Stored cluster_name config s (err e) v =
      rw (create_pool-fail cluster_name config s e v) tt

  Stored-cons :
      (cluster_name : String) (config : PoolSpec) (configs : List PoolSpec) (s t u : w.State)
      → Stored cluster_name (config ∷ []) s t
      → Stored cluster_name configs t u
      → Stored cluster_name (config ∷ configs) s u
  Stored-cons cluster_name config configs s t u (ms, s₁, c, v, e) h =
      (ms, s₁, c, v, subst (λ x. Stored cluster_name configs x u) (sym e) h)

  pub create_pools-Stored :
      (cluster_name : String) (configs : List PoolSpec) (s : w.State)
      → Final ⊥ (λ _ t. Stored cluster_name configs s t) (create_pools w cluster_name configs s)
  unfolding create_pools
  create_pools-Stored cluster_name [] s = refl
  create_pools-Stored cluster_name (config ∷ configs) s =
      continue-Final ⊥ (λ _ t. Stored cluster_name (config ∷ []) s t)
        (λ _ u. Stored cluster_name (config ∷ configs) s u) _ _ _
        (validated-Stored cluster_name config s _ refl)
        (λ _ h.
          Final-map ⊥ (λ _ u. Stored cluster_name configs (create_pool w cluster_name config s).1 u)
            (λ _ u. Stored cluster_name (config ∷ configs) s u) _
            (create_pools-Stored cluster_name configs _)
            (λ _ u k. Stored-cons cluster_name config configs s _ u h k))

  -- When the handler answers without an error, the cluster was read first, and then the set of each
  -- pool, which is valid, was created, in the order of the request and with nothing in between; it
  -- never panics, whatever the API server answers.
  pub add_node_pool-Stored :
      (cluster_name : String) (configs : List PoolSpec) (s : w.State)
      → Final ⊥
          (λ _ t.
            (cluster : CnctCluster) × (s₁ : w.State) × (w.kube.clusters.get
                (cluster_key cluster_name)
                s
              ≡ (ok cluster, s₁))
            × Stored cluster_name configs s₁ t)
          (add_node_pool w cluster_name configs s)
  unfolding add_node_pool
  add_node_pool-Stored cluster_name configs s =
      continue-Final ⊥
        (λ cluster t. w.kube.clusters.get (cluster_key cluster_name) s ≡ (ok cluster, t)) _ _ _ _
        (rpc_find-Final (w.kube.clusters.get (cluster_key cluster_name)) s)
        (λ cluster c.
          Final-map ⊥ (λ _ u. Stored cluster_name configs _ u) _ _
            (create_pools-Stored cluster_name configs _) (λ _ u k. (cluster, _, c, k)))
