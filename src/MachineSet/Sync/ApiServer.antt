-- ===== src/MachineSet/Sync/ApiServer.antt =====
-- What is asked of the outside world for `syncReplicas` to succeed.
use mathlib.Core.List.{Perm}
use cma_ssh.Prelude.{ℕ, suc, ◌≡◌, ◌≢◌, String, Bool, true, List}
use cma_ssh.Prelude.Go.{Call, Result, ok}
use cma_ssh.Api.Meta.{ObjectMeta, ObjectKey}
use cma_ssh.Api.Machine.{CnctMachine}
use cma_ssh.World.{World}
use cma_ssh.MachineSet.Sync.{is_deleted}

abbrev pub key_of : CnctMachine → ObjectKey
key_of machine = record { namespace = machine.metadata.namespace; name = machine.metadata.name }

-- An API server that accepts every machine and keeps it until it is told to delete it. `live` counts
-- the machines that are there and are not being deleted, `is_live` says this of a machine, and `is_marked`
-- that it is gone or is being deleted. A poll ends at once if its condition holds at once, and the
-- scheduler runs each goroutine once.
pub record ApiServer (w : World) : Type 1 where
  pub live : w.State → ℕ
  pub is_live : CnctMachine → w.State → Bool
  pub create :
      (m : CnctMachine) (s : w.State)
      → (x : CnctMachine) × (t : w.State) × (w.kube.machines.create m s ≡ (ok x, t))
        × (live t ≡ suc (live s))
        × (is_live x t ≡ true)
  pub create_keeps :
      (m x : CnctMachine) (s : w.State)
      → is_live x s ≡ true
      → is_live x (w.kube.machines.create m s).1 ≡ true
  pub event :
      (o : ObjectMeta) (a b c : String) (s : w.State) → live (w.kube.eventf o a b c s) ≡ live s
  pub event_keeps :
      (o : ObjectMeta) (a b c : String) (x : CnctMachine) (s : w.State)
      → is_live x s ≡ true
      → is_live x (w.kube.eventf o a b c s) ≡ true
  pub get :
      (x : CnctMachine) (s : w.State)
      → is_live x s ≡ true
      → (y : CnctMachine) × (w.kube.machines.get (key_of x) s ≡ (ok y, s))
  pub is_marked : CnctMachine → w.State → Bool
  pub delete :
      (x : CnctMachine) (s : w.State)
      → is_live x s ≡ true
      → (t : w.State) × (w.kube.machines.delete x s ≡ (ok tt, t))
        × (suc (live t) ≡ live s)
        × (is_marked x t ≡ true)
  pub delete_keeps :
      (x y : CnctMachine) (s : w.State)
      → key_of x ≢ key_of y
      → is_live y s ≡ true
      → is_live y (w.kube.machines.delete x s).1 ≡ true
  pub delete_marked :
      (x y : CnctMachine) (s : w.State)
      → is_marked y s ≡ true
      → is_marked y (w.kube.machines.delete x s).1 ≡ true
  pub event_marked :
      (o : ObjectMeta) (a b c : String) (x : CnctMachine) (s : w.State)
      → is_marked x s ≡ true
      → is_marked x (w.kube.eventf o a b c s) ≡ true
  pub get_marked :
      (x : CnctMachine) (s : w.State)
      → is_marked x s ≡ true
      → (r : Result CnctMachine) × (w.kube.machines.get (key_of x) s ≡ (r, s))
        × (is_deleted r ≡ ok true)
  pub schedule : (s : w.State) (l : List CnctMachine) → Perm (w.host.schedule CnctMachine s l) l
  pub poll :
      (interval timeout : ℕ) (condition : Call w.State Bool) (s t : w.State)
      → condition s ≡ (ok true, t)
      → w.host.poll_immediate interval timeout condition s ≡ (ok tt, t)
