-- ===== src/Machine/Create/Record.antt =====
-- `createKubeconfig`, `updateCluster`, `updateMachine` and `create` of
-- pkg/controller/machine/create.go: what is written back once MAAS has deployed the machine.
pub mod Steps
pub mod Written
use cma_ssh.Prelude.{
  String, ◌<>◌, Bool, true, false, not, ◌||◌, Option, none, some, List, [], ◌∷◌, ◌++◌,
  if◌then◌else◌,
}
use cma_ssh.Prelude.Go.{
  Exec, return, crash, attempt, observe, ◌>>=◌, ◌>>◌, Result, ok, err, Err, release_error,
  index_out_of_range,
}
use cma_ssh.Api.Meta.{Time, set_string}
use cma_ssh.Api.Phase.{provisioning_machine}
use cma_ssh.Api.Cluster.{CnctCluster}
use cma_ssh.Api.Machine.{CnctMachine, machine_finalizer}
use cma_ssh.World.{World}
use cma_ssh.Util.Slices.{contains_string}
use cma_ssh.Cert.{CaBundle, ca_bundle_from_map}
use cma_ssh.Cert.Export.{kubeconfig}
use cma_ssh.Maas.{CreateResponse}
use cma_ssh.Machine.Create.{
  Creator, failed, stop, store, new_creator, empty_cluster, kubeconfig_key, get_cluster, get_secret,
  create_clientset_from_secret, check_apiserver_address,
}
use cma_ssh.Machine.Create.Token.{check_if_token_exists, create_token}
use cma_ssh.Machine.Create.Request.{prepare_maas_request, do_maas_create}

-- `append` of the finalizer, unless it is there.
unfoldable pub with_machine_finalizer : List String → List String
with_machine_finalizer finalizers =
    if contains_string finalizers machine_finalizer
    then finalizers
    else finalizers ++ machine_finalizer ∷ []

module _ (w : World) where
  -- `c.createResponse.IPAddresses[0]`
  abbrev first_address : Creator w → Exec w.State String
  first_address c = elim c.create_response.ip_addresses [
    | [] ↦ crash index_out_of_range
    | ip ∷ _ ↦ return ip
  ]

  abbrev pub save_kubeconfig : Creator w → Result String → Exec w.State (Creator w)
  save_kubeconfig c (err e) = stop w e c
  save_kubeconfig c (ok text) = do
    let contents = set_string c.secret.contents kubeconfig_key text
    let c' = record c { secret = record c.secret { contents = contents } }
    updated ← attempt (w.kube.secrets.update c'.secret)
    store w updated c' (λ x. record c' { secret = x })

  abbrev pub kubeconfig_from : Creator w → Result CaBundle → Exec w.State (Creator w)
  kubeconfig_from c (err e) = stop w e c
  kubeconfig_from c (ok bundle) = do
    ip ← first_address c
    save_kubeconfig c (kubeconfig w bundle c.cluster.metadata.name ("https://" <> ip <> ":6443"))

  unfoldable pub create_kubeconfig : Creator w → Exec w.State (Creator w)
  create_kubeconfig c =
      if failed w c || not c.is_master
      then return c
      else kubeconfig_from c (ca_bundle_from_map c.secret.contents)

  -- The cluster that is updated: the fresh one, or the zero value when it could not be read.
  abbrev fresh_of : Result CnctCluster → CnctCluster
  fresh_of (ok fresh) = fresh
  fresh_of (err _) = empty_cluster

  abbrev release_after : Creator w → Result CnctCluster → Creator w
  release_after c (ok _) = c
  release_after c (err e) = record c { err = some (release_error c.create_response.system_id e) }

  abbrev with_endpoint : CnctCluster → String → Time → CnctCluster
  with_endpoint fresh ip now = record fresh {
    status = record fresh.status { api_endpoint = ip <> ":6443"; last_updated = some now };
  }

  abbrev cluster_event : Creator w → Result CnctCluster → Exec w.State (Creator w)
  cluster_event c (err e) s = return (release_after c (err e)) s
  cluster_event c (ok fresh) s =
      return c
        (w.kube.eventf fresh.metadata "Normal" "ResourceStateChange" "set cluster APIEndpoint" s)

  -- An error of `Get` is stored, and the cluster is updated all the same.
  unfoldable pub update_cluster : Creator w → Exec w.State (Creator w)
  update_cluster c = if failed w c || not c.is_master then return c else (do
    got ← attempt (
        w.kube.clusters.get
          (record { namespace = c.cluster.metadata.namespace; name = c.cluster.metadata.name }))
    let c' = release_after c got
    ip ← first_address c'
    now ← observe w.host.now
    updated ← attempt (w.kube.clusters.update (with_endpoint (fresh_of got) ip now))
    cluster_event c' updated)

  -- The machine as `updateMachine` sends it, with the first address.
  unfoldable pub provisioned : Creator w → String → CnctMachine
  provisioned c ip =
      let m = c.machine in
      let a1 = set_string m.metadata.annotations "maas-ip" ip in
      let a2 = set_string a1 "maas-system-id" c.create_response.system_id in
      record m {
        metadata = record m.metadata {
          finalizers = with_machine_finalizer m.metadata.finalizers;
          annotations = set_string a2 "maas-hostname" c.create_response.hostname;
        };
        status = record m.status {
          phase = provisioning_machine;
          kubernetes_version = c.cluster.spec.kubernetes_version;
          system_id = c.create_response.system_id;
          ssh_config = record m.status.ssh_config { host = ip };
        };
      }

  abbrev machine_event : Creator w → CnctMachine → Result CnctMachine → Exec w.State (Creator w)
  machine_event c sent (err e) s =
      return (record c { machine = sent; err = some (release_error c.create_response.system_id e) })
        s
  machine_event c sent (ok m) s =
      return (record c { machine = m })
        (w.kube.eventf m.metadata "Normal" "ResourceStateChange" "set Finalizer and OwnerReferences"
          s)

  unfoldable pub update_machine : Creator w → Exec w.State (Creator w)
  update_machine c = if failed w c then return c else (do
    ip ← first_address c
    updated ← attempt (w.kube.machines.update (provisioned c ip))
    machine_event c (provisioned c ip) updated)

  -- The steps for a master after the secret is read, and those for another machine.
  abbrev pub master_steps : Creator w → Exec w.State (Creator w)
  master_steps c = do
    c1 ← prepare_maas_request w c
    c2 ← do_maas_create w c1
    c3 ← create_kubeconfig c2
    c4 ← update_cluster c3
    update_machine c4

  abbrev pub worker_steps : Creator w → Exec w.State (Creator w)
  worker_steps c = do
    c1 ← create_clientset_from_secret w c
    c2 ← check_if_token_exists w c1
    c3 ← create_token w c2
    c4 ← check_apiserver_address w c3
    c5 ← prepare_maas_request w c4
    c6 ← do_maas_create w c5
    update_machine c6

  -- The creator at the end: its `err` is what `create` returns, and its machine is the object that
  -- the pointer of the caller points to.
  unfoldable pub create : CnctMachine → Exec w.State (Creator w)
  create machine = do
    c1 ← get_cluster w (new_creator w machine)
    c2 ← get_secret w c1
    if c2.is_master then master_steps c2 else worker_steps c2
