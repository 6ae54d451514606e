-- ===== src/Tests/Servers.antt =====
-- Runs of the handlers of the gRPC server.
use cma_ssh.Prelude.{
  Bool, false, ◌&&◌, string_discrete, string_eq, ◌==◌, ◌⊎◌, List, String, length, ◌<◌, arith, ◌≡◌,
  refl, true, none, some, [], ◌∷◌,
}
use cma_ssh.Prelude.Int.{pos, negsuc}
use cma_ssh.Prelude.Go.{done, Result, ok, err, plain_error, panic, deadlock, nil_dereference}
use cma_ssh.Prelude.Go.Ends.{Final}
use cma_ssh.Api.Meta.{StringMap, find_string, empty_meta}
use cma_ssh.Api.Cluster.{CnctCluster}
use cma_ssh.World.{World}
use cma_ssh.MachineSet.Select.{validate_machine_set, has_matching_labels, create_machine}
use cma_ssh.MachineSet.Sync.{sync_replicas}
use cma_ssh.Server.{CreateClusterMsg, ControlPlaneMachineSpec, PoolSpec}
use cma_ssh.Server.Pools.{
  pool_machine_set, add_node_pool, scale_node_pool, cluster_key, with_replicas,
}
use cma_ssh.Server.Pools.Labels.{scale_node_pool-deadlock}
use cma_ssh.Server.Pools.Separate.{is_label, Refused, has_matching_labels-pool_machine_set}
use cma_ssh.Server.Pools.Stored.{Stored, add_node_pool-Stored}
use cma_ssh.Server.Codes.{Coded}
use cma_ssh.Server.Clusters.{
  create_cluster, delete_cluster, upgrade_cluster, get_cluster, get_cluster_nodes_status,
}
use cma_ssh.Server.Clusters.Creation.{
  Answered, Unanswered, create_cluster-Created, create_cluster-no_control_plane,
}
use cma_ssh.Server.Clusters.Nodes.{Described, get_cluster_nodes_status-Described}
use cma_ssh.Api.Machine.{CnctMachine}
use cma_ssh.Server.Clusters.Codes.{cluster-Coded}
use cma_ssh.Tests.Demo.{up, alive, cluster, machine, set_of, base}

-- Everything that is asked for is accepted.
abbrev server : World
server = record up {
  kube = record up.kube { namespaces = alive empty_meta; machine_sets = alive (set_of (pos 1)) };
}

abbrev pool : PoolSpec
pool = record {
  name = "p0";
  labels = record { name = "tier"; value = "front" } ∷ [];
  instance_type = "standard";
  count = pos 2;
}

abbrev control_plane : ControlPlaneMachineSpec
control_plane = record { labels = []; instance_type = "standard"; count = pos 1 }

abbrev request : CreateClusterMsg
request = record {
  name = "c0";
  k8s_version = "1.13.4";
  control_plane_nodes = some control_plane;
  worker_node_pools = pool ∷ pool ∷ [];
}

abbrev incomplete : CreateClusterMsg
incomplete = record request { control_plane_nodes = none }

create_cluster-Created_example :
    Final ⊥ (Answered server request control_plane tt) (create_cluster server request tt)
create_cluster-Created_example = create_cluster-Created server request control_plane tt refl

create_cluster-no_control_plane_example :
    Unanswered server incomplete tt (create_cluster server incomplete tt)
create_cluster-no_control_plane_example = create_cluster-no_control_plane server incomplete tt refl

-- The handler panics there.
left_behind : create_cluster server incomplete tt ≡ (panic nil_dereference, tt)
unfolding create_cluster
left_behind = refl

add_node_pool-Stored_example :
    Final ⊥
      (λ _ t.
        (read : CnctCluster) × (s₁ : server.State) × (server.kube.clusters.get (cluster_key "c0") tt
          ≡ (ok read, s₁))
        × Stored server "c0" (pool ∷ []) s₁ t)
      (add_node_pool server "c0" (pool ∷ []) tt)
add_node_pool-Stored_example = add_node_pool-Stored server "c0" (pool ∷ []) tt

-- Selectors as the labels that they want.
carries : StringMap String → StringMap String → Bool
carries [] found = true
carries ((key, value) ∷ []) found = is_label value (find_string found key)
carries ((key, value) ∷ next ∷ wanted) found =
    is_label value (find_string found key) && carries (next ∷ wanted) found

abbrev wants_none : StringMap String → Bool
wants_none [] = true
wants_none (_ ∷ _) = false

selector_of : Bool → StringMap String → Result (StringMap String)
selector_of true wanted = err (plain_error "invalid label")
selector_of false wanted = ok wanted

-- A value that is no label.
abbrev is_invalid : StringMap String → Bool
is_invalid [] = false
is_invalid ((_, value) ∷ _) = value == "a pool"

abbrev labelled : World
labelled = record server {
  labels = record {
    Selector = StringMap String;
    label_selector_as_selector = λ l. selector_of (is_invalid l.match_labels) l.match_labels;
    as_selector_pre_validated = λ l. l;
    matches = carries;
    empty = wants_none;
  };
}

carries-one :
    (key value : String) (b : Bool) (selector : StringMap String)
    → selector_of b ((key, value) ∷ []) ≡ ok selector
    → (wants_none selector ≡ false)
      × ((found : StringMap String)
          → carries selector found ≡ is_label value (find_string found key))
unfolding carries selector_of
carries-one key value true selector e = ground arith
carries-one key value false selector e = ground (arith, e)

has_matching_labels-pool_machine_set_example :
    Refused labelled
      (pool_machine_set "c0" pool)
      (create_machine labelled (pool_machine_set "c0" (record pool { name = "p1" })))
    ⊎ ((validate_machine_set labelled (pool_machine_set "c0" pool) ≡ ok true)
        × (has_matching_labels labelled
              (pool_machine_set "c0" pool)
              (create_machine labelled (pool_machine_set "c0" (record pool { name = "p1" })))
            ≡ false))
unfolding string_discrete
has_matching_labels-pool_machine_set_example =
    has_matching_labels-pool_machine_set labelled
      (λ key value selector. carries-one key value (value == "a pool") selector) "c0" "c0" pool
      (record pool { name = "p1" })

scale_node_pool-deadlock_example :
    (scale_node_pool server "c0" (record { name = "p0"; count = negsuc 0 } ∷ []) tt ≡ (done tt, tt))
    × ((sync_replicas server (with_replicas (negsuc 0) (set_of (pos 1))) (machine ∷ []) tt).0
        ≡ panic deadlock)
scale_node_pool-deadlock_example =
    scale_node_pool-deadlock server "c0" "p0" 0 cluster (set_of (pos 1)) _ (machine ∷ []) tt tt tt
      tt tt refl refl refl

cluster-Coded_example :
    Coded (create_cluster base request tt)
    × Coded (delete_cluster base "c0" tt)
    × Coded (upgrade_cluster base "c0" "1.13.4" tt)
    × Coded (get_cluster base "c0" tt)
    × Coded (get_cluster_nodes_status base "c0" tt)
cluster-Coded_example = cluster-Coded base request "c0" "1.13.4" tt

listed_few :
    (namespace : String) (u t : server.State) (machines : List CnctMachine)
    → server.kube.machines.list namespace u ≡ (ok machines, t)
    → length machines < 2147483648
listed_few namespace u t machines e = ground arith

get_cluster_nodes_status-Described_example :
    Final ⊥ (Described server "c0" tt) (get_cluster_nodes_status server "c0" tt)
get_cluster_nodes_status-Described_example =
    get_cluster_nodes_status-Described server "c0" tt listed_few
