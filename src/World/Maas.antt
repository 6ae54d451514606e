-- ===== src/World/Maas.antt =====
-- MAAS, as gomaasapi's `Controller` and `Machine` show it.
use cma_ssh.Prelude.{String, List}
use cma_ssh.Prelude.Go.{Call}

-- What the accessors of a `gomaasapi.Machine` return.
pub record MaasMachine : Type 0 where
  pub system_id : String
  pub ip_addresses : List String
  pub hostname : String

pub record BootResource : Type 0 where
  pub name : String
  pub type : String

pub record StartArgs : Type 0 where
  pub user_data : String
  pub distro_series : String

pub record Maas (S : Type 0) : Type 0 where
  pub boot_resources : Call S (List BootResource)
  -- `AllocateMachine`, by tags
  pub allocate_machine : List String → Call S MaasMachine
  -- `Machine.Start`; the machine is as MAAS describes it afterwards.
  pub start : MaasMachine → StartArgs → Call S MaasMachine
  -- `ReleaseMachines` and `Machines`, by system ids
  pub release_machines : List String → Call S (Unit {0})
  pub machines : List String → Call S (List MaasMachine)
