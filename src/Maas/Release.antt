-- ===== src/Maas/Release.antt =====
-- When an allocated machine goes back to MAAS.
use cma_ssh.Prelude.{string_eq, ◌≡◌, ◌≢◌, [], ◌∷◌, arith}
use cma_ssh.Prelude.Go.{done, fail, ok, err, Err}
use cma_ssh.World.{World}
use cma_ssh.World.Maas.{MaasMachine}
use cma_ssh.Maas.{CreateRequest, DeleteRequest, create, delete}

module _ (w : World) where
  -- `Delete` with a system id asks MAAS once to release that machine, and returns nil whatever
  -- MAAS answers.
  pub delete-done :
      (request : DeleteRequest) (s : w.State)
      → request.system_id ≢ ""
      → delete w request s ≡ (done tt, (w.maas.release_machines (request.system_id ∷ []) s).1)
  unfolding delete
  delete-done request s h = ground arith

  -- When the deployment of an allocated machine fails, `Create` asks MAAS to release that machine
  -- and returns the error of the deployment.
  pub create-start_failed :
      (request : CreateRequest) (s s₁ s₂ : w.State) (m : MaasMachine) (e : Err)
      → w.maas.allocate_machine (request.instance_type ∷ []) s ≡ (ok m, s₁)
      → w.maas.start m
          (record {
            user_data = w.host.encode_base64 request.userdata;
            distro_series = request.distro;
          })
          s₁
        ≡ (err e, s₂)
      → m.system_id ≢ ""
      → create w request s ≡ (fail e, (w.maas.release_machines (m.system_id ∷ []) s₂).1)
  unfolding create
  create-start_failed request s s₁ s₂ m e a b h = ground (
    arith,
    a,
    b,
    delete-done (record { provider_id = request.provider_id; system_id = m.system_id }) s₂ h,
  )
