-- ===== src/Server/Pools/Separate.antt =====
-- The machines of one pool and the sets of the others.
use cma_ssh.Prelude.{
  String, ◌==◌, string_eq, Bool, true, false, Option, none, some, ◌≡◌, refl, ◌<>◌, ◌⊎◌, inl, inr,
  [], ◌∷◌, arith,
}
use cma_ssh.Prelude.Go.{Result, ok, err, Err, wrapped}
use cma_ssh.Api.Machine.{CnctMachine}
use cma_ssh.Api.MachineSet.{CnctMachineSet}
use cma_ssh.Api.Meta.{StringMap, find_string}
use cma_ssh.World.{World}
use cma_ssh.MachineSet.Select.{validate_machine_set, has_matching_labels, create_machine}
use cma_ssh.Server.{PoolSpec}
use cma_ssh.Server.Pools.{pool_labels, pool_machine_set}
use cma_ssh.Server.Pools.Labels.{pool_labels-node_pool}

-- Whether a label that is read is the one that is wanted.
abbrev pub is_label : String → Option String → Bool
is_label value none = false
is_label value (some v) = value == v

module _ (w : World) where
  -- The name of the pool is no value of a label: its set is refused, and matches no machine.
  abbrev pub Refused : CnctMachineSet → CnctMachine → Type 0
  Refused ms machine =
      (e : Err) × (w.labels.label_selector_as_selector ms.spec.selector ≡ err e)
      × (validate_machine_set w ms
          ≡ err (
              wrapped ("Failed to parse MachineSet \"" <> ms.metadata.name <> "\" label selector")
                e))
      × (has_matching_labels w ms machine ≡ false)

module _ (w : World)
    (selects : (key value : String) (selector : w.labels.Selector)
      → w.labels.label_selector_as_selector
          (record { match_labels = (key, value) ∷ []; match_expressions = [] })
        ≡ ok selector
      → (w.labels.empty selector ≡ false)
        × ((labels : StringMap String)
            → w.labels.matches selector labels ≡ is_label value (find_string labels key))) where
  selected-pools :
      (cluster_name other_name : String) (config other : PoolSpec) (r : Result w.labels.Selector)
      → w.labels.label_selector_as_selector
          (record { match_labels = ("node-pool", config.name) ∷ []; match_expressions = [] })
        ≡ r
      → Refused w
          (pool_machine_set cluster_name config)
          (create_machine w (pool_machine_set other_name other))
        ⊎ ((validate_machine_set w (pool_machine_set cluster_name config) ≡ ok true)
            × (has_matching_labels w
                  (pool_machine_set cluster_name config)
                  (create_machine w (pool_machine_set other_name other))
                ≡ (config.name == other.name)))
  unfolding validate_machine_set has_matching_labels create_machine pool_machine_set
  selected-pools cluster_name other_name config other (err e) made =
      inl (e, made, ground (arith, made), ground (arith, made))
  selected-pools cluster_name other_name config other (ok selector) made =
      let (full, match) = selects "node-pool" config.name selector made in
      inr (
        ground (arith, made, match (pool_labels config), pool_labels-node_pool config),
        ground (arith, made, full, match (pool_labels other), pool_labels-node_pool other),
      )

  -- The set of a pool of a request is refused by `ValidateMachineSet`, and matches no machine, where
  -- no selector can be made of the pool's name; otherwise it is valid, whatever labels the request
  -- gives, and its labels match a machine made for a pool just if the two pools have the same name.
  -- Of selectors this is used: one that was made of a single label is not empty, and matches a map
  -- that has the label with that value, and no other.
  pub has_matching_labels-pool_machine_set :
      (cluster_name other_name : String) (config other : PoolSpec)
      → Refused w
          (pool_machine_set cluster_name config)
          (create_machine w (pool_machine_set other_name other))
        ⊎ ((validate_machine_set w (pool_machine_set cluster_name config) ≡ ok true)
            × (has_matching_labels w
                  (pool_machine_set cluster_name config)
                  (create_machine w (pool_machine_set other_name other))
                ≡ (config.name == other.name)))
  has_matching_labels-pool_machine_set cluster_name other_name config other =
      selected-pools cluster_name other_name config other _ refl
