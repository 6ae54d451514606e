-- ===== src/Bundle.antt =====
-- pkg/controller/appbundle: the program of an app bundle is installed in the managed cluster by a job,
-- once the cluster of the bundle's namespace is running. A result beside an error is left out.
pub mod Objects
pub mod Installation
pub mod Again
use cma_ssh.Prelude.{
  ℕ, String, ◌<>◌, string_eq, ◌==◌, Bool, true, false, Option, none, some, List, [], ◌∷◌,
  if◌then◌else◌,
}
use cma_ssh.Prelude.Go.{
  Exec, Call, return, throw, call, attempt, wrap, ◌>>=◌, ◌>>◌, Result, ok, err, plain_error,
  is_not_found,
}
use cma_ssh.Api.Meta.{ObjectMeta, ObjectKey, Secret, ReconcileResult, finished, empty_meta}
use cma_ssh.Api.Phase.{ClusterStatusPhase, running_cluster}
use cma_ssh.Api.Cluster.{CnctCluster}
use cma_ssh.Api.AppBundle.{AppBundle, AppBundleStatusPhase, installed_app_bundle}
use cma_ssh.World.{World}
use cma_ssh.World.Remote.{ClusterRoleBinding, Container, Job}
use cma_ssh.Machine.Create.{private_key, kubeconfig_data}
use cma_ssh.Machine.Ready.{ready_clientset}

abbrev cma_install_namespace : String
cma_install_namespace = "cma-install"

abbrev cma_install_service_account : String
cma_install_service_account = "cma-sa"

abbrev install_namespace : ObjectMeta
install_namespace = record empty_meta { name = cma_install_namespace }

abbrev service_account : ObjectMeta
service_account = record empty_meta { name = cma_install_service_account }

abbrev role_binding : ClusterRoleBinding
role_binding = record {
  metadata = record empty_meta { name = cma_install_service_account };
  subjects = ("ServiceAccount", cma_install_service_account, cma_install_namespace) ∷ [];
  role_ref = ("ClusterRole", "cluster-admin", "");
}

abbrev job_name : AppBundle → String
job_name bundle = bundle.metadata.name <> "-installer"

abbrev install_job : AppBundle → Job
install_job bundle = record {
  metadata = record empty_meta { name = job_name bundle };
  service_account_name = cma_install_service_account;
  containers =
      record {
        name = job_name bundle;
        image = bundle.spec.image;
        image_pull_policy = "Always";
        command = if bundle.spec.command == "" then [] else bundle.spec.command ∷ [];
      }
      ∷ [];
  restart_policy = "OnFailure";
}

-- What the four functions of install.go do with their object: it is created if it is not found.
module _ {S T : Type 0} (get create : Call S T) where
  abbrev create_missing : Result T → Exec S (Unit {0})
  create_missing (ok _) = return tt
  create_missing (err e) = if is_not_found e then (do created ← call create; return tt) else throw e

  abbrev ensure : Exec S (Unit {0})
  ensure = do got ← attempt get; create_missing got

abbrev after : ℕ → ReconcileResult
after milliseconds = record { requeue = false; requeue_after = milliseconds }

abbrev marked_installed : AppBundle → AppBundle
marked_installed bundle = record bundle { status = record { phase = installed_app_bundle } }

abbrev is_running : ClusterStatusPhase → Bool
is_running running_cluster = true
is_running _ = false

abbrev is_installed : AppBundleStatusPhase → Bool
is_installed installed_app_bundle = true
is_installed _ = false

-- An error of `Get` is overwritten, and the secret is then empty.
abbrev config_of : Result Secret → Option String
config_of (ok secret) = kubeconfig_data secret
config_of (err _) = none

module _ (w : World) where
  unfoldable pub create_namespace : w.remote.Clientset → Exec w.State (Unit {0})
  create_namespace clientset =
      ensure
        (w.remote.namespaces.get clientset
          (record { namespace = ""; name = cma_install_namespace }))
        (w.remote.namespaces.create clientset "" install_namespace)

  unfoldable pub create_service_account : w.remote.Clientset → Exec w.State (Unit {0})
  create_service_account clientset =
      ensure
        (w.remote.service_accounts.get clientset
          (record { namespace = cma_install_namespace; name = cma_install_service_account }))
        (w.remote.service_accounts.create clientset cma_install_namespace service_account)

  unfoldable pub create_cluster_role_binding : w.remote.Clientset → Exec w.State (Unit {0})
  create_cluster_role_binding clientset =
      ensure
        (w.remote.cluster_role_bindings.get clientset
          (record { namespace = ""; name = cma_install_service_account }))
        (w.remote.cluster_role_bindings.create clientset "" role_binding)

  unfoldable pub create_install_job : w.remote.Clientset → AppBundle → Exec w.State (Unit {0})
  create_install_job clientset bundle =
      ensure
        (w.remote.jobs.get clientset
          (record { namespace = cma_install_namespace; name = job_name bundle }))
        (w.remote.jobs.create clientset cma_install_namespace (install_job bundle))

  unfoldable pub install : w.remote.Clientset → AppBundle → Exec w.State (Unit {0})
  install clientset bundle = do
    wrap "failed to create namespace for cma" (create_namespace clientset)
    wrap "failed to create service account for cma" (create_service_account clientset)
    wrap "failed to create cluster role binding for cma" (create_cluster_role_binding clientset)
    wrap "failed to create appBundle Job" (create_install_job clientset bundle)

  -- From the clientset on.
  unfoldable pub install_and_mark : AppBundle → w.remote.Clientset → Exec w.State ReconcileResult
  install_and_mark bundle clientset = do
    wrap "failed to install appBundle in remote cluster" (install clientset bundle)
    wrap "failed to update appBundle status"
        (call (w.kube.app_bundles.update (marked_installed bundle)))
    return finished

  abbrev with_config : AppBundle → Option String → Exec w.State ReconcileResult
  with_config bundle none = throw (plain_error "no kubeconfig in secret")
  with_config bundle (some config_data) = do
    clientset ← ready_clientset w config_data
    install_and_mark bundle clientset

  -- The case of a running cluster.
  unfoldable pub install_in : CnctCluster → AppBundle → Exec w.State ReconcileResult
  install_in cluster bundle = do
    secret ← attempt (w.kube.secrets.get (private_key cluster.metadata.namespace))
    with_config bundle (config_of secret)

  -- The first cluster of the bundle's namespace
  abbrev with_clusters : AppBundle → List CnctCluster → Exec w.State ReconcileResult
  with_clusters bundle [] = return (after 300000)
  with_clusters bundle (cluster ∷ _) =
      if is_running cluster.status.phase then install_in cluster bundle else return (after 10000)

  unfoldable pub reconcile_bundle : AppBundle → Exec w.State ReconcileResult
  reconcile_bundle bundle = if is_installed bundle.status.phase then return finished else do
    clusters ← call (w.kube.clusters.list bundle.metadata.namespace)
    with_clusters bundle clusters

  unfoldable pub reconcile : ObjectKey → Exec w.State ReconcileResult
  reconcile request = do
    got ← attempt (w.kube.app_bundles.get request)
    elim got [
      | ok bundle ↦ reconcile_bundle bundle
      | err e ↦ if is_not_found e then return finished else throw e
    ]
