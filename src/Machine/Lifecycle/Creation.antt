-- ===== src/Machine/Lifecycle/Creation.antt =====
-- `create` and its steps, and `Create` of the client of MAAS.
use cma_ssh.Prelude.{String, string_eq, ◌||◌, not, List, [], ◌∷◌, if◌then◌else◌, arith}
use cma_ssh.Prelude.Go.{Result, ok, err, try}
use cma_ssh.Api.Machine.{CnctMachine}
use cma_ssh.World.{World}
use cma_ssh.Cert.{CaBundle, ca_bundle_from_map}
use cma_ssh.Cert.Export.{TarFile, tar_files, write_files, to_tar}
use cma_ssh.Maas as Maas
use cma_ssh.Maas.{CreateRequest, CreateResponse}
use cma_ssh.Machine.Images.{get_image, get_images}
use cma_ssh.Machine.Create.{
  Creator, failed, store, private_key, get_cluster, get_secret, create_clientset_from_secret,
  check_apiserver_address, new_creator,
}
use cma_ssh.Machine.Create.Token.{check_if_token_exists, create_token}
use cma_ssh.Machine.Create.Request.{
  master_userdata, render_worker, worker_userdata, userdata_for, request_with, prepare_maas_request,
  take_response, respond, do_maas_create,
}
use cma_ssh.Machine.Create.Record.{
  save_kubeconfig, kubeconfig_from, create_kubeconfig, update_cluster, provisioned, update_machine,
  master_steps, worker_steps, create,
}
use cma_ssh.Prelude.Go.Kept.{KeptBy, KeptBy-bind, KeptBy-if}
use cma_ssh.Machine.Lifecycle.{Outside}
use cma_ssh.Machine.Lifecycle.Tokens.{check_token-KeptBy, create_token-KeptBy}
use cma_ssh.Machine.Lifecycle.Deletion.{delete-KeptBy}

module _ (w : World) (I : w.State → Type 0) (Sent : CnctMachine → Type 0)
    (outside : Outside w I Sent) where
  store-KeptBy :
      {A : Type 0} (r : Result A) (c : Creator w) (f : A → Creator w) → KeptBy I (store w r c f)
  store-KeptBy r c f s i = ground arith

  get_cluster-KeptBy : (c : Creator w) → KeptBy I (get_cluster w c)
  unfolding get_cluster
  get_cluster-KeptBy c s i = ground (arith, outside.list_clusters c.machine.metadata.namespace s i)

  get_secret-KeptBy : (c : Creator w) → KeptBy I (get_secret w c)
  unfolding get_secret
  get_secret-KeptBy c s i =
      ground (arith, outside.get_secret (private_key c.machine.metadata.namespace) s i)

  create_clientset-KeptBy : (c : Creator w) → KeptBy I (create_clientset_from_secret w c)
  unfolding create_clientset_from_secret
  create_clientset-KeptBy c s i = ground arith

  check_address-KeptBy : (c : Creator w) → KeptBy I (check_apiserver_address w c)
  unfolding check_apiserver_address
  check_address-KeptBy c s i = ground arith

  write_files-KeptBy :
      (files : List TarFile) (tw : w.host.TarWriter) → KeptBy I (write_files w files tw)
  unfolding write_files
  write_files-KeptBy [] tw s i = i
  write_files-KeptBy (file ∷ files) tw s i =
      let kept = outside.now s i in grind (arith, kept, write_files-KeptBy files)

  to_tar-KeptBy : (bundle : CaBundle) → KeptBy I (to_tar w bundle)
  unfolding to_tar
  to_tar-KeptBy bundle s i =
      let kept = outside.now s i in grind (arith, kept, write_files-KeptBy (tar_files bundle))

  get_image-KeptBy : (os k8s type : String) → KeptBy I (get_image w os k8s type)
  unfolding get_image get_images
  get_image-KeptBy os k8s type s i = outside.boot_resources s i

  master_userdata-KeptBy :
      (c : Creator w) (bundle : CaBundle) → KeptBy I (master_userdata w c bundle)
  unfolding master_userdata
  master_userdata-KeptBy c bundle s i = ground (arith, to_tar-KeptBy bundle s i)

  worker_userdata-KeptBy :
      (c : Creator w) (bundle : CaBundle) → KeptBy I (worker_userdata w c bundle)
  unfolding worker_userdata render_worker
  worker_userdata-KeptBy c bundle s i = ground arith

  userdata_for-KeptBy : (c : Creator w) (bundle : CaBundle) → KeptBy I (userdata_for w c bundle)
  userdata_for-KeptBy c bundle =
      KeptBy-if I c.is_master _ _ (master_userdata-KeptBy c bundle)
        (worker_userdata-KeptBy c bundle)

  request_with-KeptBy : (c : Creator w) (r : Result CaBundle) → KeptBy I (request_with w c r)
  request_with-KeptBy c (err e) s i = i
  request_with-KeptBy c (ok bundle) s i =
      let kept = userdata_for-KeptBy c bundle s i in
      grind (
        arith,
        kept,
        get_image-KeptBy "ubuntu-xenial" c.cluster.spec.kubernetes_version
            c.machine.spec.instance_type,
      )

  prepare-KeptBy : (c : Creator w) → KeptBy I (prepare_maas_request w c)
  unfolding prepare_maas_request
  prepare-KeptBy c =
      KeptBy-if I (failed w c) _ _ (λ s i. i)
        (request_with-KeptBy c (ca_bundle_from_map c.secret.contents))

  maas_create-KeptBy : (request : CreateRequest) → KeptBy I (Maas.create w request)
  unfolding Maas.create
  maas_create-KeptBy request s i =
      let kept = outside.allocate_machine (request.instance_type ∷ []) s i in
      grind (arith, kept, outside.start, delete-KeptBy w I Sent outside)

  take_response-KeptBy :
      (c : Creator w) (response : CreateResponse) → KeptBy I (take_response w c response)
  unfolding take_response
  take_response-KeptBy c response s i = ground (
    arith,
    delete-KeptBy w I Sent outside
        (record { provider_id = response.provider_id; system_id = response.system_id }) s i,
  )

  respond-KeptBy : (c : Creator w) (r : Result CreateResponse) → KeptBy I (respond w c r)
  respond-KeptBy c (err e) = λ s i. i
  respond-KeptBy c (ok response) = take_response-KeptBy c response

  do_maas_create-KeptBy : (c : Creator w) → KeptBy I (do_maas_create w c)
  unfolding do_maas_create
  do_maas_create-KeptBy c =
      KeptBy-if I (failed w c) _ _ (λ s i. i)
        (KeptBy-bind I (try (Maas.create w c.create_request)) (respond w c)
          (maas_create-KeptBy c.create_request) (respond-KeptBy c))

  save_kubeconfig-KeptBy : (c : Creator w) (r : Result String) → KeptBy I (save_kubeconfig w c r)
  save_kubeconfig-KeptBy c (err e) s i = i
  save_kubeconfig-KeptBy c (ok text) s i = grind (arith, outside.update_secret)

  kubeconfig_from-KeptBy : (c : Creator w) (r : Result CaBundle) → KeptBy I (kubeconfig_from w c r)
  kubeconfig_from-KeptBy c (err e) s i = i
  kubeconfig_from-KeptBy c (ok bundle) s i = grind (arith, save_kubeconfig-KeptBy c)

  create_kubeconfig-KeptBy : (c : Creator w) → KeptBy I (create_kubeconfig w c)
  unfolding create_kubeconfig
  create_kubeconfig-KeptBy c =
      KeptBy-if I (failed w c || not c.is_master) _ _ (λ s i. i)
        (kubeconfig_from-KeptBy c (ca_bundle_from_map c.secret.contents))

  update_cluster-KeptBy : (c : Creator w) → KeptBy I (update_cluster w c)
  unfolding update_cluster
  update_cluster-KeptBy c s i =
      let kept =
        outside.get_cluster
          (record { namespace = c.cluster.metadata.namespace; name = c.cluster.metadata.name }) s
          i in
      grind (arith, kept, outside.now, outside.update_cluster, outside.eventf)

  update_machine-KeptBy :
      ((d : Creator w) (ip : String) → Sent (provisioned w d ip))
      → (c : Creator w) → KeptBy I (update_machine w c)
  unfolding update_machine
  update_machine-KeptBy sent c s i = grind (arith, sent c, outside.update_machine, outside.eventf)

  module _ (sent : (d : Creator w) (ip : String) → Sent (provisioned w d ip)) where
    master_steps-KeptBy : (c : Creator w) → KeptBy I (master_steps w c)
    master_steps-KeptBy c = KeptBy-bind I (prepare_maas_request w c) _ (prepare-KeptBy c) (λ c₁.
        KeptBy-bind I (do_maas_create w c₁) _ (do_maas_create-KeptBy c₁) (λ c₂.
          KeptBy-bind I (create_kubeconfig w c₂) _ (create_kubeconfig-KeptBy c₂) (λ c₃.
            KeptBy-bind I (update_cluster w c₃) (update_machine w) (update_cluster-KeptBy c₃)
              (update_machine-KeptBy sent))))

    worker_steps-KeptBy : (c : Creator w) → KeptBy I (worker_steps w c)
    worker_steps-KeptBy c =
        KeptBy-bind I (create_clientset_from_secret w c) _ (create_clientset-KeptBy c) (λ c₁.
          KeptBy-bind I (check_if_token_exists w c₁) _ (check_token-KeptBy w I Sent outside c₁)
            (λ c₂.
              KeptBy-bind I (create_token w c₂) _ (create_token-KeptBy w I Sent outside c₂) (λ c₃.
                KeptBy-bind I (check_apiserver_address w c₃) _ (check_address-KeptBy c₃) (λ c₄.
                  KeptBy-bind I (prepare_maas_request w c₄) _ (prepare-KeptBy c₄) (λ c₅.
                    KeptBy-bind I (do_maas_create w c₅) (update_machine w)
                      (do_maas_create-KeptBy c₅) (update_machine-KeptBy sent))))))

    pub create-KeptBy : (machine : CnctMachine) → KeptBy I (create w machine)
    unfolding create
    create-KeptBy machine =
        KeptBy-bind I (get_cluster w (new_creator w machine)) _
          (get_cluster-KeptBy (new_creator w machine))
          (λ c₁.
            KeptBy-bind I (get_secret w c₁)
              (λ c₂. if c₂.is_master then master_steps w c₂ else worker_steps w c₂)
              (get_secret-KeptBy c₁)
              (λ c₂.
                KeptBy-if I c₂.is_master _ _ (master_steps-KeptBy c₂) (worker_steps-KeptBy c₂)))
