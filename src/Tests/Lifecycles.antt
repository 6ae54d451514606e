-- ===== src/Tests/Lifecycles.antt =====
-- API servers whose state is the list of the phases that machines, and clusters, were given.
use cma_ssh.Prelude.{◌≡◌, refl, ap, List, [], ◌∷◌, All, arith}
use cma_ssh.Prelude.Go.{done, ok}
use cma_ssh.Api.Meta.{finished}
use cma_ssh.Api.Phase.{
  MachineStatusPhase, provisioning_machine, ready_machine, ClusterStatusPhase, unset_cluster,
  reconciling_cluster,
}
use cma_ssh.Api.Machine.{CnctMachine}
use cma_ssh.World.{World}
use cma_ssh.Machine.Reconcile.{reconcile_machine}
use cma_ssh.Machine.Lifecycle.{Outside}
use cma_ssh.Machine.Lifecycle.Phases.{Reaches, SentFrom, reconcile_machine-KeptBy}
use cma_ssh.Cluster.{reconcile_cluster}
use cma_ssh.Cluster.Lifecycle as Cluster
use cma_ssh.Cluster.Lifecycle.{reconcile_cluster-KeptBy}
use cma_ssh.Tests.Demo.{
  kube, labels, remote, maas, host, crypto, alive, cluster, machine, secret, in_phase,
}

abbrev Log : Type 0
Log = List MachineStatusPhase

abbrev logging : World
logging = record {
  State = Log;
  kube = record kube {
    clusters = alive cluster;
    secrets = alive secret;
    machines = record (alive machine) { update = λ x s. (ok x, x.status.phase ∷ s) };
  };
  labels = labels;
  remote = remote;
  maas = maas;
  host = host;
  crypto = crypto;
}

abbrev Lawful : Log → Type 0
Lawful = All (Reaches provisioning_machine)

-- An update adds its phase to the list, and nothing else changes it.
abbrev log_only : Outside logging Lawful (SentFrom provisioning_machine)
log_only = record {
  update_machine = λ x sent s i. (sent, i);
  get_machine = λ k s i. i;
  delete_machine = λ x s i. i;
  list_clusters = λ ns s i. i;
  get_cluster = λ k s i. i;
  update_cluster = λ x s i. i;
  get_secret = λ k s i. i;
  update_secret = λ x s i. i;
  eventf = λ o t r m s i. i;
  get_node = λ c n s i. i;
  delete_node = λ c n s i. i;
  list_secrets = λ c t s i. i;
  create_secret = λ c x s i. i;
  patch_or_replace = λ c n s i. i;
  get_pods_for_deletion = λ c n s i. i;
  check_eviction_support = λ c s i. i;
  delete_pod = λ c p s i. i;
  get_pod = λ c n p s i. i;
  boot_resources = λ s i. i;
  allocate_machine = λ tags s i. i;
  start = λ m a s i. i;
  release_machines = λ ids s i. i;
  now = λ s i. i;
  read_random_hex = λ n s i. i;
  poll_immediate_with = λ A interval timeout f a keeps s i. i;
  background = λ A l s i. i;
}

echoes :
    (x y : CnctMachine) (s t : Log)
    → logging.kube.machines.update x s ≡ (ok y, t)
    → y.status.phase ≡ x.status.phase
echoes x y s t h = ground arith

reconcile_machine-KeptBy_example :
    Lawful (reconcile_machine logging (in_phase provisioning_machine) []).1
reconcile_machine-KeptBy_example =
    reconcile_machine-KeptBy logging Lawful echoes (in_phase provisioning_machine) [] log_only tt

-- The machine becomes ready.
became_ready :
    reconcile_machine logging (in_phase provisioning_machine) []
    ≡ (done finished, ready_machine ∷ [])
unfolding reconcile_machine cma_ssh.Machine.Reconcile.mark_deleting
    cma_ssh.Machine.Reconcile.handle_phase cma_ssh.Machine.Ready.handle_waiting_for_ready
    cma_ssh.Machine.Ready.check_node cma_ssh.Api.Meta.find_string cma_ssh.Prelude.string_discrete
    cma_ssh.Machine.Ready.ready_clientset cma_ssh.Machine.Ready.sees_kubelet_ready
    cma_ssh.Machine.Reconcile.conclude
became_ready = refl

abbrev Clusters : Type 0
Clusters = List ClusterStatusPhase

abbrev cluster_log : World
cluster_log = record {
  State = Clusters;
  kube = record kube {
    clusters = record (alive cluster) { update = λ x s. (ok x, x.status.phase ∷ s) };
    secrets = alive secret;
    machines = alive machine;
  };
  labels = labels;
  remote = remote;
  maas = maas;
  host = host;
  crypto = crypto;
}

abbrev FromNone : Clusters → Type 0
FromNone = All (Cluster.Next unset_cluster)

abbrev clusters_only : Cluster.Outside cluster_log FromNone cluster
clusters_only = record {
  claim = λ m free s i. i;
  update_cluster = λ x next s i. (next, i);
  create_secret = λ bundle e s i. i;
  list_machines = λ namespace s i. i;
  get_cluster = λ k s i. i;
  get_secret = λ k s i. i;
  list_services = λ c s i. i;
  eventf = λ o t r m s i. i;
  signing = record {
    now = λ s i. i;
    rand_int = λ limit s i. i;
    generate_key = λ bits s i. i;
    create_certificate = λ template parent public key s i. i;
  };
}

reconcile_cluster-KeptBy_example :
    FromNone (reconcile_cluster cluster_log (record { namespace = "ns"; name = "c0" }) cluster []).1
reconcile_cluster-KeptBy_example =
    reconcile_cluster-KeptBy cluster_log FromNone cluster clusters_only
      (record { namespace = "ns"; name = "c0" }) [] tt

-- The cluster gets its secret and the phase Reconciling.
got_started :
    reconcile_cluster cluster_log (record { namespace = "ns"; name = "c0" }) cluster []
    ≡ (done finished, reconciling_cluster ∷ [])
unfolding reconcile_cluster cma_ssh.Cluster.claim_machines cma_ssh.Cluster.no_controller
    cma_ssh.Cluster.start cma_ssh.Cluster.create_cluster_secrets cma_ssh.Cert.Issue.new_ca_bundle
    cma_ssh.Cert.Issue.issue_root cma_ssh.Cert.Issue.from_ca_template cma_ssh.Cert.Issue.issue_k8s
    cma_ssh.Cert.Issue.issue_ca cma_ssh.Cert.Issue.issue_client
    cma_ssh.Cert.Issue.from_cert_template cma_ssh.Cluster.update_status
got_started = refl
