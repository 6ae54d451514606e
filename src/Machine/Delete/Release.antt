-- ===== src/Machine/Delete/Release.antt =====
-- What a machine's deletion has done when it ends.
use cma_ssh.Prelude.{
  string_eq, ◌==◌, ◌≡◌, refl, ◌⊎◌, inl, inr, Bool-cases, if◌then◌else◌, false, [], ◌∷◌, arith,
}
use cma_ssh.Prelude.Go.{Outcome, done, Exec, lift, Result, ok, err, continue, rewrapped}
use cma_ssh.Prelude.Go.Ends as Go
use cma_ssh.Api.Machine.{CnctMachine, machine_finalizer}
use cma_ssh.World.{World}
use cma_ssh.Util.Slices.{contains_string}
use cma_ssh.Util.Slices.Laws.{contains_string-remove_string}
use cma_ssh.Maas.Release.{delete-done}
use cma_ssh.Machine.Delete.{without_finalizer, release_machine, delete_machine, delete_object}

module _ (w : World) where
  -- MAAS was asked to release the machine, unless it has no system id.
  abbrev pub Asked : CnctMachine → w.State → Type 0
  Asked machine s =
      (machine.status.system_id ≡ "")
      ⊎ ((s₀ : w.State) × (s ≡ (w.maas.release_machines (machine.status.system_id ∷ []) s₀).1))

  -- The last call took the finalizer away, after the release was asked for.
  abbrev pub Detached : CnctMachine → w.State → Type 0
  Detached machine s =
      (sent machine' : CnctMachine) × (s₁ : w.State) × Asked machine s₁
      × (w.kube.machines.update sent s₁ ≡ (ok machine', s))
      × (contains_string sent.metadata.finalizers machine_finalizer ≡ false)

  -- How deletion ends: it does not panic, and nil means that the machine is detached.
  abbrev pub Ends : CnctMachine → Exec w.State (Unit {0}) → Type 0
  Ends machine = Go.Ends ⊥ (λ _. Detached machine)

  abbrev pub Final : CnctMachine → Outcome (Unit {0}) × w.State → Type 0
  Final machine = Go.Final ⊥ (λ _. Detached machine)

  -- The state once the release was asked for.
  abbrev asked : CnctMachine → w.State → w.State
  asked machine s =
      if machine.status.system_id == ""
      then s
      else (w.maas.release_machines (machine.status.system_id ∷ []) s).1

  asked-Asked : (machine : CnctMachine) (s : w.State) → Asked machine (asked machine s)
  asked-Asked machine s = elim (Bool-cases (machine.status.system_id == "")) [
    | inl h ↦ inl (ground arith)
    | inr h ↦ inr (s, ground arith)
  ]

  release_machine_lem :
      (machine : CnctMachine) (s : w.State)
      → release_machine w machine s ≡ (done tt, asked machine s)
  unfolding release_machine
  release_machine_lem machine s =
      ground
        (arith, delete-done w (record { provider_id = ""; system_id = machine.status.system_id }) s)

  without_finalizer-lacks :
      (machine : CnctMachine)
      → contains_string (without_finalizer machine).metadata.finalizers machine_finalizer ≡ false
  unfolding without_finalizer
  without_finalizer-lacks machine = ground (
    arith,
    contains_string-remove_string machine.metadata.finalizers machine_finalizer machine_finalizer,
  )

  -- The end of `deleteMachine`, by the answer to the update.
  updated-Final :
      (machine : CnctMachine) (s : w.State) (r : Result CnctMachine) (s' : w.State)
      → w.kube.machines.update (without_finalizer machine) (asked machine s) ≡ (r, s')
      → Final machine
          (continue (rewrapped "could not remove finalizer" (lift r)) (λ _ t. (done tt, t)) s')
  updated-Final machine s (ok m) s' h = (
    without_finalizer machine,
    m,
    asked machine s,
    asked-Asked machine s,
    h,
    without_finalizer-lacks machine,
  )
  updated-Final machine s (err e) s' h = tt

  delete_machine_lem :
      (machine : CnctMachine) (s : w.State)
      → delete_machine w machine s ≡ (
          let (r, s') = w.kube.machines.update (without_finalizer machine) (asked machine s) in
          continue (rewrapped "could not remove finalizer" (lift r)) (λ _ t. (done tt, t)) s')
  unfolding delete_machine
  delete_machine_lem machine s = ground (arith, release_machine_lem machine s)

  delete_machine-Final :
      (machine : CnctMachine) (s : w.State) → Final machine (delete_machine w machine s)
  delete_machine-Final machine s = rw (delete_machine_lem machine s) (
      updated-Final machine s
        (w.kube.machines.update (without_finalizer machine) (asked machine s)).0
        (w.kube.machines.update (without_finalizer machine) (asked machine s)).1 refl)

  pub delete_object-Ends : (machine : CnctMachine) → Ends machine (delete_object w machine)
  unfolding Go.Ends
  delete_object-Ends machine s =
      Go.Final-wrap ⊥ (λ _. Detached machine) "could not delete machine object"
        (delete_machine w machine s).0 (delete_machine w machine s).1
        (delete_machine-Final machine s)
