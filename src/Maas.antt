-- ===== src/Maas.antt =====
-- pkg/maas/client.go: machines are allocated, deployed and released through MAAS.
pub mod Release
use cma_ssh.Prelude.{String, ◌<>◌, string_eq, ◌==◌, Bool, true, false, List, [], ◌∷◌, if◌then◌else◌}
use cma_ssh.Prelude.Go.{
  Exec, return, throw, call, attempt, try, ◌>>=◌, ◌>>◌, Result, ok, err, plain_error, message,
}
use cma_ssh.World.{World}
use cma_ssh.World.Maas.{MaasMachine}

pub record CreateRequest : Type 0 where
  pub provider_id : String
  pub distro : String
  pub instance_type : String
  pub userdata : String

pub record CreateResponse : Type 0 where
  pub provider_id : String
  pub ip_addresses : List String
  pub system_id : String
  pub hostname : String

pub record DeleteRequest : Type 0 where
  pub provider_id : String
  pub system_id : String

module _ (w : World) where
  unfoldable pub delete : DeleteRequest → Exec w.State (Unit {0})
  delete request =
      if request.system_id == ""
      then throw (plain_error ("machine " <> request.provider_id <> " has not been created"))
      else (do
        -- An error of the release is logged, and nil is returned.
        attempt (w.maas.release_machines (request.system_id ∷ []))
        return tt)

  unfoldable pub create : CreateRequest → Exec w.State CreateResponse
  create request = do
    allocated ← attempt (w.maas.allocate_machine (request.instance_type ∷ []))
    elim allocated [
      | err e ↦
          throw
            (plain_error ("error allocating machine " <> request.provider_id <> ": " <> message e))
      | ok m ↦ do
        started ← attempt (
            w.maas.start m (record {
              user_data = w.host.encode_base64 request.userdata;
              distro_series = request.distro;
            }))
        elim started [
          | err e ↦ do
            try (delete (record { provider_id = request.provider_id; system_id = m.system_id }))
            throw e
          | ok m' ↦ return (record {
            provider_id = request.provider_id;
            ip_addresses = m'.ip_addresses;
            system_id = m'.system_id;
            hostname = m'.hostname;
          })
        ]
    ]

  -- `Update` does nothing.
  unfoldable pub update : String → Exec w.State (Unit {0})
  update provider_id = return tt

  -- The check on the number of machines that `Exist` finds.
  abbrev exactly_one : String → List MaasMachine → Exec w.State Bool
  exactly_one provider_id (_ ∷ []) = return true
  exactly_one provider_id _ = throw (plain_error ("expected 1 machine " <> provider_id))

  unfoldable pub exist : String → Exec w.State Bool
  exist provider_id = if provider_id == "" then return false else (do
    listed ← attempt (w.maas.machines (provider_id ∷ []))
    elim listed [
      | err e ↦ throw (plain_error ("error listing machine " <> provider_id <> ": " <> message e))
      | ok machines ↦ exactly_one provider_id machines
    ])
