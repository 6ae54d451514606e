-- ===== src/Server/Pools/Refinement.antt =====
-- The handlers for pools do to the map of pools what the specification says.
use cma_ssh.Prelude.{Bool, true, false, ◌⊎◌, String, ◌≡◌}
use cma_ssh.Prelude.Go.{Outcome, ok, err, Err}
use cma_ssh.World.{World}
use cma_ssh.MachineSet.Select.{validate_machine_set}
use cma_ssh.Server.{PoolSpec}
use cma_ssh.Server.Pools.{pool_machine_set}
use cma_ssh.Server.Pools.Store.{Pools, Answer, is_accepted, PoolStore, Refines}

module _ (w : World) (cluster_name : String) (store : PoolStore w cluster_name) where
  abbrev Agrees : Answer × Pools → Outcome (Unit {0}) × w.State → Type 0
  Agrees = Refines w cluster_name store

  abbrev accepts : PoolSpec → Bool
  accepts = is_accepted w cluster_name

  Validated : PoolSpec → Type 0
  Validated config =
      ((accepts config ≡ true)
        × (validate_machine_set w (pool_machine_set cluster_name config) ≡ ok true))
      ⊎ ((accepts config ≡ false)
          × ((e : Err) × (validate_machine_set w (pool_machine_set cluster_name config) ≡ err e)))
