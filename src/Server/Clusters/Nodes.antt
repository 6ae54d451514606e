-- ===== src/Server/Clusters/Nodes.antt =====
-- What `GetClusterNodesStatus` answers.
use cma_ssh.Prelude.{ℕ, ◌<◌, ◌≡◌, refl, sym, ap, ◌∙◌, String, List, [], ◌∷◌, map, length, arith}
use cma_ssh.Prelude.Int.{pos, int32}
use cma_ssh.Prelude.Go.{ok}
use cma_ssh.Prelude.Go.Ends.{Final}
use cma_ssh.Api.Cluster.{CnctCluster}
use cma_ssh.Api.Machine.{CnctMachine}
use cma_ssh.World.{World}
use cma_ssh.Server.{MachineStatusItem, NodesStatus}
use cma_ssh.Server.Calls.{rpc_find-then}
use cma_ssh.Server.Pools.{cluster_key}
use cma_ssh.Server.Clusters.{machine_item, get_cluster_nodes_status}

length-map :
    (f : CnctMachine → MachineStatusItem) (ms : List CnctMachine) → length (map f ms) ≡ length ms
length-map f [] = refl
length-map f (m ∷ ms) = ground (arith, length-map f ms)

int32-small : (n : ℕ) → n < 2147483648 → int32 n ≡ pos n
unfolding int32
int32-small n h = ground arith

module _ (w : World) where
  -- The reply has the name of the cluster that was read, an item for each machine of its namespace in
  -- the order of the list, and their number.
  abbrev pub Described : String → w.State → NodesStatus → w.State → Type 0
  Described cluster_name s reply t =
      (cluster : CnctCluster) × (machines : List CnctMachine) × (s₁ : w.State)
      × (w.kube.clusters.get (cluster_key cluster_name) s ≡ (ok cluster, s₁))
      × (w.kube.machines.list cluster.metadata.namespace s₁ ≡ (ok machines, t))
      × (reply.name ≡ cluster.metadata.name)
      × (reply.machines ≡ map machine_item machines)
      × (reply.count ≡ pos (length reply.machines))

  -- As long as fewer than 2 ^ 31 machines are listed, the handler never panics, and a reply without an
  -- error has the name of the cluster that was read, one item for each machine of the cluster's
  -- namespace in the order of the list, and the number of these items: the 32 bits of the count hold it.
  pub get_cluster_nodes_status-Described :
      (cluster_name : String) (s : w.State)
      → ((namespace : String) (u t : w.State) (machines : List CnctMachine)
          → w.kube.machines.list namespace u ≡ (ok machines, t)
          → length machines < 2147483648)
      → Final ⊥ (Described cluster_name s) (get_cluster_nodes_status w cluster_name s)
  unfolding get_cluster_nodes_status
  get_cluster_nodes_status-Described cluster_name s few =
      rpc_find-then (Described cluster_name s) (w.kube.clusters.get (cluster_key cluster_name)) _ s
        (λ cluster s₁ g.
          rpc_find-then (Described cluster_name s) (w.kube.machines.list cluster.metadata.namespace)
            _ s₁
            (λ machines t l. (
              cluster,
              machines,
              s₁,
              g,
              l,
              refl,
              refl,
              int32-small (length machines) (few cluster.metadata.namespace s₁ t machines l)
                  ∙ ap pos (sym (length-map machine_item machines)),
            )))
