-- ===== src/Machine/Create.antt =====
-- pkg/controller/machine/create.go: the creator and its steps. A step does nothing once `err` is set.
pub mod Token
pub mod Request
pub mod Record
use cma_ssh.Prelude.{
  String, ◌<>◌, string_eq, ◌==◌, Bool, true, false, not, ◌&&◌, ◌||◌, Option, none, some, List, [],
  ◌∷◌, if◌then◌else◌,
}
use cma_ssh.Prelude.Go.{
  Exec, return, attempt, try, ◌>>=◌, ◌>>◌, Result, ok, err, Err, not_ready_error,
}
use cma_ssh.Api.Meta.{ObjectKey, Secret, find_string, empty_meta}
use cma_ssh.Api.Phase.{MachineRoles, master, role_eq, unset_cluster}
use cma_ssh.Api.Cluster.{CnctCluster}
use cma_ssh.Api.Machine.{CnctMachine}
use cma_ssh.World.{World}
use cma_ssh.Maas.{CreateRequest, CreateResponse}

-- The loop over the roles.
unfoldable pub has_master : List MachineRoles → Bool
has_master [] = false
has_master (v ∷ roles) = if v == master then true else has_master roles

abbrev pub empty_cluster : CnctCluster
empty_cluster = record {
  type_meta = record { kind = ""; api_version = "" };
  metadata = empty_meta;
  spec = record { kubernetes_version = "" };
  status = record { last_updated = none; api_endpoint = ""; phase = unset_cluster };
}

-- The key of the secret that holds a cluster's certificates.
abbrev pub private_key : String → ObjectKey
private_key namespace = record { namespace = namespace; name = "cluster-private-key" }

-- `corev1.ServiceAccountKubeconfigKey`
abbrev pub kubeconfig_key : String
kubeconfig_key = "kubernetes.kubeconfig"

-- The kubeconfig of a secret, unless it is missing or empty.
abbrev pub kubeconfig_data : Secret → Option String
kubeconfig_data secret = elim (find_string secret.contents kubeconfig_key) [
  | none ↦ none
  | some d ↦ if d == "" then none else some d
]

pub record Creator (w : World) : Type 0 where
  pub machine : CnctMachine
  pub err : Option Err
  pub is_master : Bool
  pub cluster : CnctCluster
  pub clientset : Option w.remote.Clientset
  pub secret : Secret
  pub token : String
  pub create_request : CreateRequest
  pub create_response : CreateResponse

module _ (w : World) where
  abbrev pub new_creator : CnctMachine → Creator w
  new_creator machine = record {
    machine = machine;
    err = none;
    is_master = has_master machine.spec.roles;
    cluster = empty_cluster;
    clientset = none;
    secret = record { name = ""; namespace = ""; type = ""; contents = [] };
    token = "";
    create_request = record { provider_id = ""; distro = ""; instance_type = ""; userdata = "" };
    create_response = record { provider_id = ""; ip_addresses = []; system_id = ""; hostname = "" };
  }

  -- `c.err != nil`
  abbrev pub failed : Creator w → Bool
  failed c = elim c.err [ none ↦ false | some _ ↦ true ]

  -- `c.err = e; return`
  abbrev pub stop : Err → Creator w → Exec w.State (Creator w)
  stop e c = return (record c { err = some e })

  -- What `c.err = f()` leaves, and what it does when there is no error.
  abbrev pub store :
      {A : Type 0} → Result A → Creator w → (A → Creator w) → Exec w.State (Creator w)
  store (ok a) c f = return (f a)
  store (err e) c f = stop e c

  -- The first cluster of the namespace.
  abbrev first_cluster : Result (List CnctCluster) → Creator w → Exec w.State (Creator w)
  first_cluster (err e) c = stop e c
  first_cluster (ok []) c = stop (not_ready_error "no cluster in namespace") c
  first_cluster (ok (cluster ∷ _)) c = return (record c { cluster = cluster })

  unfoldable pub get_cluster : Creator w → Exec w.State (Creator w)
  get_cluster c = if failed c then return c else (do
    clusters ← attempt (w.kube.clusters.list c.machine.metadata.namespace)
    first_cluster clusters c)

  unfoldable pub get_secret : Creator w → Exec w.State (Creator w)
  get_secret c = if failed c then return c else (do
    secret ← attempt (w.kube.secrets.get (private_key c.machine.metadata.namespace))
    store secret c (λ x. record c { secret = x }))

  -- `clientcmd.NewClientConfigFromBytes`, `ClientConfig` and `kubernetes.NewForConfig`
  unfoldable pub new_clientset : String → Result w.remote.Clientset
  new_clientset config_data = elim (w.remote.new_client_config_from_bytes config_data) [
    | err e ↦ err e
    | ok config ↦ elim (w.remote.client_config config) [
      | err e ↦ err e
      | ok rest_config ↦ w.remote.new_for_config rest_config
    ]
  ]

  unfoldable pub create_clientset_from_secret : Creator w → Exec w.State (Creator w)
  create_clientset_from_secret c =
      if failed c || c.is_master then return c else elim (kubeconfig_data c.secret) [
        | none ↦ stop (not_ready_error "no kubeconfig in secret") c
        | some config_data ↦
            store (new_clientset config_data) c (λ x. record c { clientset = some x })
      ]

  unfoldable pub check_apiserver_address : Creator w → Exec w.State (Creator w)
  check_apiserver_address c =
      if failed c || c.is_master
      then return c
      else if c.cluster.status.api_endpoint == ""
      then stop (not_ready_error (c.cluster.metadata.name <> " cluster APIEndpoint is not set")) c
      else return c
