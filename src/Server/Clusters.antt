-- ===== src/Server/Clusters.antt =====
-- internal/apiserver/cluster.go and apiutil.go: the handlers for clusters.
pub mod Creation
pub mod Codes
pub mod Nodes
use cma_ssh.Prelude.{
  ℕ, String, ◌<>◌, string_eq, ◌==◌, Bool, true, false, Option, none, some, List, [], ◌∷◌, map,
  length, if◌then◌else◌,
}
use cma_ssh.Prelude.Text.{split}
use cma_ssh.Prelude.Int.{ℤ, int32}
use cma_ssh.Prelude.Go.{
  Exec, Call, return, throw, crash, call, attempt, try, ◌>>=◌, ◌>>◌, Result, ok, err, Err,
  nil_dereference,
}
use cma_ssh.Api.Meta.{ObjectMeta, ObjectKey, Secret, StringMap, get_string, set_string, empty_meta}
use cma_ssh.Api.Phase.{
  MachineStatusPhase, unset_machine, provisioning_machine, upgrading_machine, deleting_machine,
  ready_machine, error_machine, other_machine, master, etcd, ClusterStatusPhase, unset_cluster,
  unspecified_cluster, running_cluster, reconciling_cluster, stopping_cluster, error_cluster,
  other_cluster,
}
use cma_ssh.Api.Cluster.{CnctCluster}
use cma_ssh.Api.Machine.{CnctMachine, empty_status}
use cma_ssh.Api.AppBundle.{AppBundle, unset_app_bundle}
use cma_ssh.World.{World}
use cma_ssh.Util.Status.{kubernetes_versions}
use cma_ssh.Util.Lookup.{get_cluster_machine_list}
use cma_ssh.Machine.Create.{empty_cluster, private_key, kubeconfig_key}
use cma_ssh.Server.{
  ControlPlaneMachineSpec, CreateClusterMsg, ClusterStatusCode, status_unspecified, provisioning,
  running, reconciling, stopping, error, ClusterItem, ClusterDetailItem, MachineStatusItem,
  NodesStatus, rpc_call, rpc_find,
}
use cma_ssh.Server.Pools.{request_labels, create_pools, cluster_key}

abbrev pub translate_cluster_status : ClusterStatusPhase → ClusterStatusCode
translate_cluster_status unset_cluster = status_unspecified
translate_cluster_status unspecified_cluster = status_unspecified
translate_cluster_status error_cluster = error
translate_cluster_status running_cluster = running
translate_cluster_status stopping_cluster = stopping
translate_cluster_status reconciling_cluster = reconciling
translate_cluster_status (other_cluster _) = status_unspecified

-- `string(phase)`
abbrev phase_text : MachineStatusPhase → String
phase_text unset_machine = ""
phase_text provisioning_machine = "CreatingMachine"
phase_text upgrading_machine = "UpgradingMachine"
phase_text deleting_machine = "DeletingMachine"
phase_text ready_machine = "ReadyMachine"
phase_text error_machine = "ErrorMachine"
phase_text (other_machine text) = text

abbrev new_namespace : String → ObjectMeta
new_namespace name = record empty_meta { name = name }

abbrev new_cluster : CreateClusterMsg → CnctCluster
new_cluster msg = record empty_cluster {
  metadata = record empty_meta {
    name = msg.name;
    namespace = msg.name;
    labels = ("controller-tools.k8s.io", "1.0") ∷ [];
  };
  spec = record { kubernetes_version = msg.k8s_version };
}

unfoldable pub control_plane_machine : String → ControlPlaneMachineSpec → CnctMachine
control_plane_machine name config = record {
  type_meta = record { kind = ""; api_version = "" };
  metadata = record empty_meta {
    generate_name = "control-plane-";
    namespace = name;
    labels = set_string (request_labels config.labels []) "controller-tools.k8s.io" "1.0";
  };
  spec = record {
    taints = [];
    roles = master ∷ etcd ∷ [];
    provider_id = none;
    instance_type = config.instance_type;
  };
  status = empty_status;
}

abbrev prometheus_bundle : String → AppBundle
prometheus_bundle name = record {
  metadata = record empty_meta { name = "prometheus-addons-appbundle"; namespace = name };
  spec = record { image = "quay.io/samsung_cnct/cma-prometheus-installer:latest"; command = "" };
  status = record { phase = unset_app_bundle };
}

abbrev machine_item : CnctMachine → MachineStatusItem
machine_item m = record {
  k8s_node_status = phase_text m.status.phase;
  k8s_version = m.status.kubernetes_version;
  maas_system_id =
      if m.status.system_id == ""
      then "Waiting for Machine Instantiation..."
      else m.status.system_id;
  maas_hostname = get_string m.metadata.annotations "maas-hostname";
  maas_ip_addr = m.status.ssh_config.host;
}

abbrev cluster_item : CnctCluster → ClusterItem
cluster_item cluster = record {
  name = cluster.metadata.name;
  status = translate_cluster_status cluster.status.phase;
}

-- The versions of the reply.
abbrev get_upgrade_cluster_information : List String
get_upgrade_cluster_information = kubernetes_versions

-- The loop of `GetMachineName`.
unfoldable pub machine_at : String → List CnctMachine → String
machine_at host_ip [] = ""
machine_at host_ip (m ∷ ms) =
    if m.status.ssh_config.host == host_ip then m.metadata.name else machine_at host_ip ms

module _ (w : World) where
  -- `in.ControlPlaneNodes` is read through its pointer.
  abbrev create_control_plane : String → Option ControlPlaneMachineSpec → Exec w.State (Unit {0})
  create_control_plane name none = crash nil_dereference
  create_control_plane name (some config) = do
    created ← rpc_call (w.kube.machines.create (control_plane_machine name config))
    return tt

  unfoldable pub create_cluster : CreateClusterMsg → Exec w.State ClusterItem
  create_cluster msg = do
    namespace ← rpc_call (w.kube.namespaces.create (new_namespace msg.name))
    cluster ← rpc_call (w.kube.clusters.create (new_cluster msg))
    create_control_plane msg.name msg.control_plane_nodes
    create_pools w msg.name msg.worker_node_pools
    -- An error is logged.
    attempt (w.kube.app_bundles.create (prometheus_bundle msg.name))
    return (record { name = msg.name; status = provisioning })

  unfoldable pub get_kube_config : String → Exec w.State String
  get_kube_config cluster_name = do
    secret ← call (w.kube.secrets.get (private_key cluster_name))
    return (get_string secret.contents kubeconfig_key)

  -- The bytes beside an error are nil.
  abbrev text_or_empty : Result String → String
  text_or_empty (ok text) = text
  text_or_empty (err _) = ""

  unfoldable pub get_cluster : String → Exec w.State ClusterDetailItem
  get_cluster name = do
    kubeconfig ← try (get_kube_config name)
    cluster ← rpc_find (w.kube.clusters.get (cluster_key name))
    return (record {
      name = name;
      status = translate_cluster_status cluster.status.phase;
      kubeconfig = text_or_empty kubeconfig;
    })

  unfoldable pub get_cluster_nodes_status : String → Exec w.State NodesStatus
  get_cluster_nodes_status cluster_name = do
    cluster ← rpc_find (w.kube.clusters.get (cluster_key cluster_name))
    machines ← rpc_find (w.kube.machines.list cluster.metadata.namespace)
    return (record {
      name = cluster.metadata.name;
      count = int32 (length machines);
      machines = map machine_item machines;
    })

  -- The namespace is deleted if it can be read.
  abbrev delete_namespace : Result ObjectMeta → Exec w.State (Unit {0})
  delete_namespace (ok namespace) = rpc_call (w.kube.namespaces.delete namespace)
  delete_namespace (err _) = return tt

  unfoldable pub delete_cluster : String → Exec w.State (Unit {0})
  delete_cluster name = do
    cluster ← rpc_find (w.kube.clusters.get (cluster_key name))
    rpc_call (w.kube.clusters.delete cluster)
    namespace ← attempt (w.kube.namespaces.get (record { namespace = ""; name = name }))
    delete_namespace namespace

  unfoldable pub get_cluster_list : Exec w.State (List ClusterItem)
  get_cluster_list = do
    clusters ← call (w.kube.clusters.list "")
    return (map cluster_item clusters)

  unfoldable pub upgrade_cluster : String → String → Exec w.State (Unit {0})
  upgrade_cluster name version = do
    cluster ← rpc_find (w.kube.clusters.get (cluster_key name))
    updated ← rpc_call (
        w.kube.clusters.update
          (record cluster { spec = record cluster.spec { kubernetes_version = version } }))
    return tt

  unfoldable pub get_machine_name : String → String → Exec w.State String
  get_machine_name cluster_name host_ip = do
    machines ← get_cluster_machine_list w cluster_name
    return (machine_at host_ip machines)
