-- ===== src/Machine/Create/Request.antt =====
-- `prepareMaasRequest`, the user data and `doMaasCreate` of pkg/controller/machine/create.go.
use cma_ssh.Prelude.{String, ◌<>◌, string_eq, ◌==◌, Option, none, some, [], ◌∷◌, if◌then◌else◌}
use cma_ssh.Prelude.Go.{
  Exec, return, throw, crash, call, try, observe, ◌>>=◌, Result, ok, err, Err, wrapped,
  unrecoverable_error, nil_dereference,
}
use cma_ssh.Api.Meta.{StringMap}
use cma_ssh.World.{World}
use cma_ssh.Cert.{CaBundle, ca_bundle_from_map}
use cma_ssh.Cert.Export.{to_tar}
use cma_ssh.Maas.{CreateResponse, create, delete}
use cma_ssh.Machine.Images.{get_image}
use cma_ssh.Machine.Create.{Creator, failed, stop, store}

-- The loop over the labels: "k=v," for each.
unfoldable pub join_labels : StringMap String → String
join_labels [] = ""
join_labels ((k, v) ∷ labels) = k <> "=" <> v <> "," <> join_labels labels

-- What the error of the user data leaves.
abbrev pub error_of : Result String → Option Err
error_of (ok _) = none
error_of (err e) = some e

abbrev text_of : Result String → String
text_of (ok text) = text
text_of (err _) = ""

module _ (w : World) where
  -- `range` walks the labels in an order that Go leaves open.
  unfoldable pub get_node_labels : Creator w → w.State → String
  get_node_labels c s =
      join_labels (w.host.range_map s c.machine.metadata.labels)
      <> "beta.kubernetes.io/instance-type="
      <> c.machine.spec.instance_type

  abbrev node_labels : Creator w → Exec w.State String
  node_labels c = observe (λ s. (get_node_labels c s, s))

  unfoldable pub master_userdata : Creator w → CaBundle → Exec w.State String
  master_userdata c bundle = do
    ca_tar ← to_tar w bundle
    labels ← node_labels c
    call (λ s. (
      w.host.execute_template "master"
          (("Name", c.machine.metadata.name) ∷ ("Tar", ca_tar) ∷ ("NodeLabels", labels) ∷ []),
      s,
    ))

  -- The public key's hash and then the template.
  unfoldable pub render_worker : Creator w → Result String → Exec w.State String
  render_worker c (err e) = throw (wrapped "could not parse k8s certificate for public key" e)
  render_worker c (ok public_key) = do
    labels ← node_labels c
    call (λ s. (
      w.host.execute_template "worker" (
          ("Name", c.machine.metadata.name)
          ∷ ("Token", c.token)
          ∷ ("CertHash", "sha256:" <> w.host.sha256_hex public_key)
          ∷ ("APIEndpoint", c.cluster.status.api_endpoint)
          ∷ ("NodeLabels", labels)
          ∷ []),
      s,
    ))

  -- `pem.Decode` may find no block, and its nil is then dereferenced.
  unfoldable pub worker_userdata : Creator w → CaBundle → Exec w.State String
  worker_userdata c bundle = elim (w.host.pem_decode bundle.k8s) [
    | none ↦ crash nil_dereference
    | some bytes ↦ render_worker c (w.host.parse_certificate bytes)
  ]

  abbrev pub userdata_for : Creator w → CaBundle → Exec w.State String
  userdata_for c bundle = if c.is_master then master_userdata c bundle else worker_userdata c bundle

  -- The request once the user data is made or has failed: the error of the user data stays in `err`,
  -- unless no image is found.
  abbrev fill_request : Creator w → Result String → String → Creator w
  fill_request c userdata distro =
      if distro == ""
      then record c {
        err = some (
            unrecoverable_error (
              "there is no matching image in MaaS: osVersion=ubuntu-xenial, k8sVersion="
              <> c.cluster.spec.kubernetes_version <> ", instanceType="
              <> c.machine.spec.instance_type));
      }
      else record c {
        err = error_of userdata;
        create_request = record {
          provider_id = c.cluster.metadata.name <> "-" <> c.machine.metadata.name;
          distro = distro;
          userdata = text_of userdata;
          instance_type = c.machine.spec.instance_type;
        };
      }

  abbrev pub request_with : Creator w → Result CaBundle → Exec w.State (Creator w)
  request_with c (err e) = stop w e c
  request_with c (ok bundle) = do
    userdata ← try (userdata_for c bundle)
    distro ←
        observe (
          get_image w "ubuntu-xenial" c.cluster.spec.kubernetes_version
            c.machine.spec.instance_type)
    return (fill_request c userdata distro)

  unfoldable pub prepare_maas_request : Creator w → Exec w.State (Creator w)
  prepare_maas_request c =
      if failed w c then return c else request_with c (ca_bundle_from_map c.secret.contents)

  -- What follows `Create`: a machine without an address is released, and `err` is what `Delete`
  -- returns.
  unfoldable pub take_response : Creator w → CreateResponse → Exec w.State (Creator w)
  take_response c response = elim response.ip_addresses [
    | _ ∷ _ ↦ return (record c { create_response = response })
    | [] ↦ do
      released ←
          try (
            delete w
              (record { provider_id = response.provider_id; system_id = response.system_id }))
      store w released c (λ _. c)
  ]

  abbrev pub respond : Creator w → Result CreateResponse → Exec w.State (Creator w)
  respond c (err e) = stop w e c
  respond c (ok response) = take_response c response

  unfoldable pub do_maas_create : Creator w → Exec w.State (Creator w)
  do_maas_create c =
      if failed w c
      then return c
      else (do response ← try (create w c.create_request); respond c response)
