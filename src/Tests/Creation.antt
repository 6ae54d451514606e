-- ===== src/Tests/Creation.antt =====
-- Runs of the creation of machines, and of the MAAS client.
use cma_ssh.Prelude.{◌≡◌, refl, [], ◌∷◌}
use cma_ssh.Prelude.Go.{panic, ok, err, ◌>>=◌, index_out_of_range}
use cma_ssh.Prelude.Go.Ends.{Ensures}
use cma_ssh.Api.Meta.{Secret}
use cma_ssh.World.{World}
use cma_ssh.Maas.{CreateRequest, CreateResponse, create}
use cma_ssh.Machine.Create.{new_creator}
use cma_ssh.Machine.Create.Token.{find_token}
use cma_ssh.Machine.Create.Token.Lifetime.{Taken, find_token-Taken}
use cma_ssh.Machine.Create.Request.{do_maas_create}
use cma_ssh.Machine.Create.Record.{update_machine}
use cma_ssh.Machine.Create.Record.Steps.{update_machine-no_address}
use cma_ssh.Tests.Demo.{up, machine, down, maas_machine, x1-nonempty}

abbrev deployed : CreateResponse
deployed = record {
  provider_id = "";
  ip_addresses = "10.0.0.1" ∷ [];
  system_id = "x1";
  hostname = "h";
}

-- MAAS deploys a machine that has no address.
abbrev no_address : World
no_address = record up {
  maas = record up.maas { start = λ m a s. (ok (record maas_machine { ip_addresses = [] }), s) };
}

abbrev response : CreateResponse
response = record { provider_id = ""; ip_addresses = []; system_id = "x1"; hostname = "h" }

update_machine_example :
    (do_maas_create no_address (new_creator no_address machine) >>= update_machine no_address) tt
    ≡ (panic index_out_of_range, tt)
unfolding create
update_machine_example =
    update_machine-no_address no_address (new_creator no_address machine) tt tt response refl refl
      refl refl x1-nonempty

abbrev token_secret : Secret
token_secret = record {
  name = "t";
  namespace = "kube-system";
  type = "bootstrap.kubernetes.io/token";
  contents = ("token-id", "ab") ∷ ("token-secret", "cd") ∷ [];
}

find_token_example : Ensures (Taken up (token_secret ∷ [])) (find_token up (token_secret ∷ []) tt).0
find_token_example = find_token-Taken up (token_secret ∷ []) tt

-- MAAS fails to deploy.
abbrev no_start : World
no_start = record up { maas = record up.maas { start = λ m a s. (err down, s) } }

abbrev request : CreateRequest
request = record { provider_id = "p"; distro = "d"; instance_type = "standard"; userdata = "u" }
