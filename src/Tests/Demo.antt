-- ===== src/Tests/Demo.antt =====
-- A small outside world in which every call fails, and objects to try the program on.
use cma_ssh.Prelude.{zero, String, true, false, none, some, [], ◌∷◌, ◌≢◌}
use cma_ssh.Prelude.Int.{ℤ, pos}
use cma_ssh.Prelude.Go.{Err, ok, err, plain_error, status_error, not_found}
use cma_ssh.Api.Meta.{empty_meta, StringMap, Secret}
use cma_ssh.Api.Phase.{MachineStatusPhase, unset_machine_set}
use cma_ssh.Api.Cluster.{CnctCluster}
use cma_ssh.Api.Machine.{CnctMachine, empty_status}
use cma_ssh.Api.MachineSet.{CnctMachineSet}
use cma_ssh.World.{World}
use cma_ssh.World.Kube.{Resource, Kube, Labels}
use cma_ssh.World.Remote.{Remote, Node, Objects}
use cma_ssh.World.Maas.{Maas, MaasMachine}
use cma_ssh.World.Host.{Host}
use cma_ssh.World.Crypto.{Crypto}
use cma_ssh.Machine.Create.{empty_cluster}

abbrev pub S : Type 0
S = Unit {0}

abbrev pub down : Err
down = plain_error "down"

abbrev pub missing : Err
missing = status_error not_found "not found"

abbrev pub dead : {S : Type 0} (T : Type 0) → Resource S T
dead T = record {
  get = λ k s. (err down, s);
  list = λ n s. (err down, s);
  create = λ x s. (err down, s);
  update = λ x s. (err down, s);
  delete = λ x s. (err down, s);
}

-- Calls that succeed: reads give the objects, and writes give back what they are given.
abbrev pub alive : {S T : Type 0} → T → Resource S T
alive x = record {
  get = λ k s. (ok x, s);
  list = λ n s. (ok (x ∷ []), s);
  create = λ y s. (ok y, s);
  update = λ y s. (ok y, s);
  delete = λ y s. (ok tt, s);
}

abbrev pub kube : {S : Type 0} → Kube S
kube = record {
  clusters = dead _;
  machines = dead _;
  machine_sets = dead _;
  secrets = dead _;
  namespaces = dead _;
  app_bundles = dead _;
  eventf = λ o t r m s. s;
  get_controller_of = λ o. none;
  is_controlled_by = λ o owner. true;
  new_controller_ref = λ o kind. record {
    api_version = "";
    kind = kind;
    name = o.name;
    uid = o.uid;
    controller = some true;
    block_owner_deletion = some true;
  };
}

abbrev pub labels : Labels
labels = record {
  Selector = Unit {0};
  label_selector_as_selector = λ l. ok tt;
  as_selector_pre_validated = λ l. tt;
  matches = λ l m. true;
  empty = λ l. false;
}

abbrev pub node : Node
node = record { name = "m0"; conditions = record { reason = "KubeletReady"; status = "True" } ∷ [] }

-- No object is there, and each can be created.
abbrev absent : {S T : Type 0} → Objects S (Unit {0}) T
absent = record { get = λ c k s. (err missing, s); create = λ c n x s. (ok x, s) }

abbrev pub remote : {S : Type 0} → Remote S
remote = record {
  ClientConfig = Unit {0};
  RestConfig = Unit {0};
  Clientset = Unit {0};
  new_client_config_from_bytes = λ b. ok tt;
  client_config = λ c. ok tt;
  new_for_config = λ c. ok tt;
  get_node = λ c n s. (ok node, s);
  delete_node = λ c n s. (ok tt, s);
  list_secrets = λ c t s. (ok [], s);
  list_services = λ c s. (ok [], s);
  create_secret = λ c x s. (ok tt, s);
  update_if_required = λ n. true;
  patch_or_replace = λ c n s. ((none, none), s);
  get_pods_for_deletion = λ c n s. (ok [], s);
  check_eviction_support = λ c s. (ok "", s);
  delete_pod = λ c p s. (ok tt, s);
  evict_pod = λ c v p s. (ok tt, s);
  get_pod = λ c n p s. ((none, some missing), s);
  namespaces = absent;
  service_accounts = absent;
  cluster_role_bindings = absent;
  jobs = absent;
}

abbrev pub maas_machine : MaasMachine
maas_machine = record { system_id = "x1"; ip_addresses = "10.0.0.1" ∷ []; hostname = "h" }

abbrev pub maas : {S : Type 0} → Maas S
maas = record {
  boot_resources = λ s. (
    ok (record { name = "os=ubuntu-xenial,k8s=1.13.5,type=standard"; type = "Uploaded" } ∷ []),
    s,
  );
  allocate_machine = λ t s. (ok maas_machine, s);
  start = λ m a s. (ok m, s);
  release_machines = λ l s. (ok tt, s);
  machines = λ l s. (ok [], s);
}

abbrev pub host : {S : Type 0} → Host S
host = record {
  now = λ s. (1000, s);
  parse_rfc3339 = λ t. none;
  format_rfc3339 = λ t. "";
  read_random_hex = λ n s. (ok "ab", s);
  poll_immediate = λ i t c s. (ok tt, s);
  poll_immediate_with = λ A i t c a s. (ok tt, s);
  schedule = λ A s l. l;
  background = λ A l s. s;
  sort = λ A lt l. l;
  range_map = λ s m. m;
  execute_template = λ n m. ok "user data";
  encode_base64 = λ t. t;
  pem_decode = λ t. some t;
  parse_certificate = λ t. ok t;
  sha256_hex = λ t. t;
  TarWriter = Unit {0};
  new_tar_writer = tt;
  write_header = λ h t. ok tt;
  write_body = λ b t. ok tt;
  close_tar = λ t. ok tt;
  finish_base64 = λ t. ok "";
  byte_length = λ t. 0;
  encode_kubeconfig = λ c. ok "config";
}

-- Cryptography in which everything succeeds.
abbrev pub crypto : {S : Type 0} → Crypto S
crypto = record {
  PrivateKey = Unit {0};
  PublicKey = Unit {0};
  Certificate = Unit {0};
  from_template = λ t. tt;
  rand_int = λ n s. (ok 7, s);
  generate_key = λ n s. (ok tt, s);
  public = λ k. tt;
  marshal_private_key = λ k. "key";
  create_certificate = λ c p k q s. (ok "der", s);
  parse_certificate = λ d. ok tt;
  pem_encode = λ t b. b;
  parse_ip = λ h. none;
}

abbrev pub base : World
base = record {
  State = S;
  kube = kube;
  labels = labels;
  remote = remote;
  maas = maas;
  host = host;
  crypto = crypto;
}

abbrev pub machine : CnctMachine
machine = record {
  type_meta = record { kind = "CnctMachine"; api_version = "v1alpha1" };
  metadata = record empty_meta { name = "m0"; namespace = "ns" };
  spec = record { taints = []; roles = []; provider_id = none; instance_type = "standard" };
  status = empty_status;
}

abbrev pub in_phase : MachineStatusPhase → CnctMachine
in_phase p = record machine { status = record empty_status { phase = p; system_id = "x1" } }

abbrev pub cluster : CnctCluster
cluster = record empty_cluster {
  metadata = record empty_meta { name = "c0"; namespace = "ns" };
  spec = record { kubernetes_version = "1.13.5" };
  status = record empty_cluster.status { api_endpoint = "10.0.0.9:6443" };
}

abbrev pub certificates : StringMap String
certificates =
    ("root.crt", "a")
    ∷ ("root.key", "b")
    ∷ ("ca.crt", "c")
    ∷ ("ca.key", "d")
    ∷ ("etcd.crt", "e")
    ∷ ("etcd.key", "f")
    ∷ ("front-proxy.crt", "g")
    ∷ ("front-proxy.key", "h")
    ∷ ("k8s-client.crt", "i")
    ∷ ("k8s-client.key", "j")
    ∷ ("kubernetes.kubeconfig", "config")
    ∷ []

abbrev pub secret : Secret
secret = record {
  name = "cluster-private-key";
  namespace = "ns";
  type = "Opaque";
  contents = certificates;
}

-- The API server answers.
abbrev pub up : World
up = record base {
  kube = record kube { clusters = alive cluster; machines = alive machine; secrets = alive secret };
}

abbrev pub set_of : ℤ → CnctMachineSet
set_of n = record {
  metadata = record empty_meta { name = "ms"; namespace = "ns" };
  spec = record {
    replicas = n;
    selector = record { match_labels = []; match_expressions = [] };
    machine_template = record { metadata = empty_meta; spec = machine.spec };
  };
  status = record {
    last_updated = none;
    phase = unset_machine_set;
    replicas = pos zero;
    fully_labeled_replicas = pos zero;
    ready_replicas = pos zero;
    observed_generation = pos zero;
    error_reason = none;
    error_message = none;
  };
}

abbrev pub x1 : String
x1 = "x1"

pub x1-nonempty : x1 ≢ ""
x1-nonempty e = absurd (cc)
