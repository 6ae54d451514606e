-- ===== src/Machine/Create/Record/Steps.antt =====
-- The steps of `create`: after an error, with an address and without one.
use cma_ssh.Prelude.{String, string_eq, ◌≡◌, ◌≢◌, true, none, List, [], ◌∷◌, arith}
use cma_ssh.Prelude.Go.{done, panic, ok, ◌>>=◌, index_out_of_range}
use cma_ssh.Api.Machine.{CnctMachine}
use cma_ssh.World.{World}
use cma_ssh.Cert.{CaBundle, ca_bundle_from_map}
use cma_ssh.Maas as Maas
use cma_ssh.Maas.{CreateResponse}
use cma_ssh.Maas.Release.{delete-done}
use cma_ssh.Machine.Create.{Creator, failed, create_clientset_from_secret, check_apiserver_address}
use cma_ssh.Machine.Create.Token.{check_if_token_exists, create_token}
use cma_ssh.Machine.Create.Request.{prepare_maas_request, do_maas_create, take_response}
use cma_ssh.Machine.Create.Record.{
  create_kubeconfig, update_cluster, update_machine, provisioned, master_steps, worker_steps,
}

module _ (w : World) where
  -- Once `err` is set, none of the remaining steps for a master or for another machine does
  -- anything: the creator is left as it is, and nothing is called.
  pub steps-failed :
      (c : Creator w) (s : w.State)
      → failed w c ≡ true
      → (master_steps w c s ≡ (done c, s)) × (worker_steps w c s ≡ (done c, s))
  unfolding prepare_maas_request do_maas_create create_kubeconfig update_cluster update_machine
      create_clientset_from_secret check_if_token_exists create_token check_apiserver_address
  steps-failed c s h = (ground arith, ground arith)

  -- Let MAAS create a machine that has no address, for a creator that got no response before. Then
  -- `doMaasCreate` asks MAAS to release the machine and leaves `err` nil, so `updateMachine`, the
  -- next step for a worker, panics.
  pub update_machine-no_address :
      (c : Creator w) (s s₁ : w.State) (response : CreateResponse)
      → c.err ≡ none
      → c.create_response.ip_addresses ≡ []
      → Maas.create w c.create_request s ≡ (done response, s₁)
      → response.ip_addresses ≡ []
      → response.system_id ≢ ""
      → (do_maas_create w c >>= update_machine w) s
        ≡ (panic index_out_of_range, (w.maas.release_machines (response.system_id ∷ []) s₁).1)
  unfolding do_maas_create take_response update_machine
  update_machine-no_address c s s₁ response e i r a h = ground (
    arith,
    delete-done w (record { provider_id = response.provider_id; system_id = response.system_id }) s₁
        h,
  )

  -- The same for a master whose secret holds the certificates: `createKubeconfig`, the next step,
  -- panics.
  pub create_kubeconfig-no_address :
      (c : Creator w) (s s₁ : w.State) (response : CreateResponse) (bundle : CaBundle)
      → c.err ≡ none
      → c.is_master ≡ true
      → ca_bundle_from_map c.secret.contents ≡ ok bundle
      → c.create_response.ip_addresses ≡ []
      → Maas.create w c.create_request s ≡ (done response, s₁)
      → response.ip_addresses ≡ []
      → response.system_id ≢ ""
      → (do_maas_create w c >>= create_kubeconfig w) s
        ≡ (panic index_out_of_range, (w.maas.release_machines (response.system_id ∷ []) s₁).1)
  unfolding do_maas_create take_response create_kubeconfig
  create_kubeconfig-no_address c s s₁ response bundle e m b i r a h = ground (
    arith,
    delete-done w (record { provider_id = response.provider_id; system_id = response.system_id }) s₁
        h,
  )

  -- When MAAS creates a machine that has an address, and the API server accepts the machine that
  -- `updateMachine` sends, then `doMaasCreate` and `updateMachine` end with a nil error, the response
  -- and the machine that came back, and the last thing done is the event.
  pub update_machine-done :
      (c : Creator w) (s s₁ s₂ : w.State) (response : CreateResponse) (ip : String)
      (ips : List String) (m : CnctMachine)
      → c.err ≡ none
      → Maas.create w c.create_request s ≡ (done response, s₁)
      → response.ip_addresses ≡ ip ∷ ips
      → w.kube.machines.update (provisioned w (record c { create_response = response }) ip) s₁
        ≡ (ok m, s₂)
      → (do_maas_create w c >>= update_machine w) s ≡ (
        done (record c { err = none; create_response = response; machine = m }),
        w.kube.eventf m.metadata "Normal" "ResourceStateChange" "set Finalizer and OwnerReferences"
            s₂,
      )
  unfolding do_maas_create take_response update_machine
  update_machine-done c s s₁ s₂ response ip ips m e r a u = ground arith
