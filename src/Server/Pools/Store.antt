-- ===== src/Server/Pools/Store.antt =====
-- The node pools of a cluster as a map from names to pools, and what the handlers do to the map.
use cma_ssh.Prelude.{
  String, string_eq, ◌==◌, ◌≡◌, Bool, true, false, Option, some, none, List, [], ◌∷◌, if◌then◌else◌,
}
use cma_ssh.Prelude.Int.{ℤ}
use cma_ssh.Prelude.Go.{
  Outcome, done, fail, ok, err, Err, Code, rpc_error, internal, not_found_code, is_not_found,
}
use cma_ssh.Api.Cluster.{CnctCluster}
use cma_ssh.Api.MachineSet.{CnctMachineSet}
use cma_ssh.World.{World}
use cma_ssh.Server.{PoolSpec, ScaleNodePoolSpec}
use cma_ssh.Server.Pools.{cluster_key, set_key, pool_labels}

-- What is kept of the machine set of a pool: the count, whether a finalizer holds it when it is
-- deleted, and whether it has been deleted and waits for that.
pub record Pool : Type 0 where
  pub count : ℤ
  pub held : Bool
  pub marked : Bool

abbrev pub Pools : Type 0
Pools = String → Option Pool

unfoldable pub put : String → Option Pool → Pools → Pools
put name pool pools k = if k == name then pool else pools k

-- A pool that is held stays when it is deleted.
unfoldable pub deleted : Pool → Option Pool
deleted pool = if pool.held then some (record pool { marked = true }) else none

abbrev pub has_finalizers : CnctMachineSet → Bool
has_finalizers ms = elim ms.metadata.finalizers [ [] ↦ false | _ ∷ _ ↦ true ]

-- How a handler ends, without the text of its error.
pub data Answer : Type 0 where
  done_with : Answer
  refused : Code → Answer

abbrev pub new_pool : PoolSpec → Pool
new_pool config = record { count = config.count; held = false; marked = false }

-- A pool that is not accepted, or is there already, cannot be added; those before it stay.
unfoldable pub add_spec : (PoolSpec → Bool) → List PoolSpec → Pools → Answer × Pools
add_spec accepts [] pools = (done_with, pools)
add_spec accepts (config ∷ configs) pools =
    let rest = add_spec accepts configs (put config.name (some (new_pool config)) pools) in
    if accepts config
    then elim (pools config.name) [ some _ ↦ (refused internal, pools) | none ↦ rest ]
    else (refused internal, pools)

unfoldable pub delete_spec : List String → Pools → Answer × Pools
delete_spec [] pools = (done_with, pools)
delete_spec (name ∷ names) pools = elim (pools name) [
  | some pool ↦ delete_spec names (put name (deleted pool) pools)
  | none ↦ (refused not_found_code, pools)
]

unfoldable pub scale_spec : List ScaleNodePoolSpec → Pools → Answer × Pools
scale_spec [] pools = (done_with, pools)
scale_spec (scaled ∷ rest) pools = elim (pools scaled.name) [
  | some pool ↦
      scale_spec rest (put scaled.name (some (record pool { count = scaled.count })) pools)
  | none ↦ (refused not_found_code, pools)
]

-- What the API server promises for the machine sets in the namespace of a cluster that is there, while
-- nobody else writes them.
pub record PoolStore (w : World) (cluster_name : String) : Type 0 where
  pub pools : w.State → Pools
  pub cluster :
      (s : w.State)
      → (c : CnctCluster) × (w.kube.clusters.get (cluster_key cluster_name) s ≡ (ok c, s))
  pub get_some :
      (name : String) (pool : Pool) (s : w.State)
      → pools s name ≡ some pool
      → (ms : CnctMachineSet) × (w.kube.machine_sets.get (set_key cluster_name name) s ≡ (ok ms, s))
        × (ms.metadata.name ≡ name)
        × (ms.metadata.namespace ≡ cluster_name)
        × (has_finalizers ms ≡ pool.held)
  pub get_none :
      (name : String) (s : w.State)
      → pools s name ≡ none
      → (e : Err) × (w.kube.machine_sets.get (set_key cluster_name name) s ≡ (err e, s))
        × (is_not_found e ≡ true)
  pub create_new :
      (ms : CnctMachineSet) (s : w.State)
      → ms.metadata.namespace ≡ cluster_name
      → pools s ms.metadata.name ≡ none
      → (x : CnctMachineSet) × (t : w.State) × (w.kube.machine_sets.create ms s ≡ (ok x, t))
        × (pools t
            ≡ put ms.metadata.name
                (some
                  (record { count = ms.spec.replicas; held = has_finalizers ms; marked = false }))
                (pools s))
  pub create_again :
      (ms : CnctMachineSet) (pool : Pool) (s : w.State)
      → ms.metadata.namespace ≡ cluster_name
      → pools s ms.metadata.name ≡ some pool
      → (e : Err) × (w.kube.machine_sets.create ms s ≡ (err e, s))
  -- An update that sends the finalizers as they are.
  pub update :
      (ms : CnctMachineSet) (pool : Pool) (s : w.State)
      → ms.metadata.namespace ≡ cluster_name
      → pools s ms.metadata.name ≡ some pool
      → has_finalizers ms ≡ pool.held
      → (x : CnctMachineSet) × (t : w.State) × (w.kube.machine_sets.update ms s ≡ (ok x, t))
        × (pools t
            ≡ put ms.metadata.name (some (record pool { count = ms.spec.replicas })) (pools s))
  pub delete :
      (ms : CnctMachineSet) (pool : Pool) (s : w.State)
      → ms.metadata.namespace ≡ cluster_name
      → pools s ms.metadata.name ≡ some pool
      → (t : w.State) × (w.kube.machine_sets.delete ms s ≡ (ok tt, t))
        × (pools t ≡ put ms.metadata.name (deleted pool) (pools s))

module _ (w : World) (cluster_name : String) where
  -- Whether a selector can be made of the name of the pool, and matches the labels of its machines.
  unfoldable pub is_accepted : PoolSpec → Bool
  is_accepted config =
      elim (w.labels.label_selector_as_selector
        (record { match_labels = ("node-pool", config.name) ∷ []; match_expressions = [] })) [
          | err _ ↦ false
          | ok selector ↦ w.labels.matches selector (pool_labels config)
        ]

  module _ (store : PoolStore w cluster_name) where
    -- The code agrees with the specification: it ends as that says, and leaves that map.
    abbrev pub Refines : Answer × Pools → Outcome (Unit {0}) × w.State → Type 0
    Refines (done_with, pools) (done _, t) = store.pools t ≡ pools
    Refines (refused code, pools) (fail e, t) =
        (m : String) × (e ≡ rpc_error code m) × (store.pools t ≡ pools)
    Refines _ _ = ⊥
