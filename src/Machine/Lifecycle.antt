-- ===== src/Machine/Lifecycle.antt =====
-- What a reconcile of a machine does to the outside world, seen through a property of the state: it
-- stays, if the calls that do not write machines keep it, and the machines that are written do.
pub mod Deletion
pub mod Tokens
pub mod Creation
pub mod Handlers
pub mod Phases
use cma_ssh.Prelude.{ℕ, String, Bool, List}
use cma_ssh.Prelude.Go.{Call}
use cma_ssh.Prelude.Go.Kept.{KeptBy}
use cma_ssh.Api.Meta.{ObjectKey, ObjectMeta, Secret}
use cma_ssh.Api.Cluster.{CnctCluster}
use cma_ssh.Api.Machine.{CnctMachine}
use cma_ssh.World.{World}
use cma_ssh.World.Remote.{Node, Pod}
use cma_ssh.World.Maas.{MaasMachine, StartArgs}

-- The calls of the controller of machines, without the update of a machine; that keeps the property
-- for the machines of which `Sent` holds.
pub record Outside (w : World) (I : w.State → Type 0) (Sent : CnctMachine → Type 0) : Type 1 where
  pub update_machine : (x : CnctMachine) → Sent x → KeptBy I (w.kube.machines.update x)
  pub get_machine : (k : ObjectKey) → KeptBy I (w.kube.machines.get k)
  pub delete_machine : (x : CnctMachine) → KeptBy I (w.kube.machines.delete x)
  pub list_clusters : (namespace : String) → KeptBy I (w.kube.clusters.list namespace)
  pub get_cluster : (k : ObjectKey) → KeptBy I (w.kube.clusters.get k)
  pub update_cluster : (x : CnctCluster) → KeptBy I (w.kube.clusters.update x)
  pub get_secret : (k : ObjectKey) → KeptBy I (w.kube.secrets.get k)
  pub update_secret : (x : Secret) → KeptBy I (w.kube.secrets.update x)
  pub eventf : (o : ObjectMeta) (t r m : String) (s : w.State) → I s → I (w.kube.eventf o t r m s)
  pub get_node : (c : w.remote.Clientset) (n : String) → KeptBy I (w.remote.get_node c n)
  pub delete_node : (c : w.remote.Clientset) (n : String) → KeptBy I (w.remote.delete_node c n)
  pub list_secrets : (c : w.remote.Clientset) (t : String) → KeptBy I (w.remote.list_secrets c t)
  pub create_secret : (c : w.remote.Clientset) (x : Secret) → KeptBy I (w.remote.create_secret c x)
  pub patch_or_replace :
      (c : w.remote.Clientset) (n : Node) → KeptBy I (w.remote.patch_or_replace c n)
  pub get_pods_for_deletion :
      (c : w.remote.Clientset) (n : String) → KeptBy I (w.remote.get_pods_for_deletion c n)
  pub check_eviction_support :
      (c : w.remote.Clientset) → KeptBy I (w.remote.check_eviction_support c)
  pub delete_pod : (c : w.remote.Clientset) (p : Pod) → KeptBy I (w.remote.delete_pod c p)
  pub get_pod : (c : w.remote.Clientset) (n p : String) → KeptBy I (w.remote.get_pod c n p)
  pub boot_resources : KeptBy I w.maas.boot_resources
  pub allocate_machine : (tags : List String) → KeptBy I (w.maas.allocate_machine tags)
  pub start : (m : MaasMachine) (a : StartArgs) → KeptBy I (w.maas.start m a)
  pub release_machines : (ids : List String) → KeptBy I (w.maas.release_machines ids)
  pub now : KeptBy I w.host.now
  pub read_random_hex : (n : ℕ) → KeptBy I (w.host.read_random_hex n)
  -- Polling keeps what its condition keeps.
  pub poll_immediate_with :
      (A : Type 0) (interval timeout : ℕ) (f : A → Call w.State (Bool × A)) (a : A)
      → ((b : A) → KeptBy I (f b))
      → KeptBy I (w.host.poll_immediate_with A interval timeout f a)
  pub background : (A : Type 0) (l : List A) (s : w.State) → I s → I (w.host.background A l s)
