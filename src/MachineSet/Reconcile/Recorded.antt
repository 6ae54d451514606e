-- ===== src/MachineSet/Reconcile/Recorded.antt =====
-- What a reconcile that succeeds has written into the status of its machine set.
use cma_ssh.Prelude.{string_discrete, ◌≡◌, refl, some, List, ℕ, length}
use cma_ssh.Prelude.Int.{int32}
use cma_ssh.Prelude.Go.{
  Exec, Outcome, done, fail, panic, Result, ok, err, Err, caught, try, ◌>>=◌, continue,
}
use cma_ssh.Prelude.Go.Ends.{Final, continue-Final, call-then}
use cma_ssh.Api.Meta.{Time, ReconcileResult, finished}
use cma_ssh.Api.Phase.{ready_machine_set}
use cma_ssh.Api.Machine.{CnctMachine}
use cma_ssh.Api.MachineSet.{CnctMachineSet}
use cma_ssh.World.{World}
use cma_ssh.MachineSet.Select.{filter_machines}
use cma_ssh.MachineSet.Select.Claims.{Kept, filter_machines-Kept}
use cma_ssh.MachineSet.Sync.{sync_replicas}
use cma_ssh.MachineSet.Status.{count_fully_labeled, calculate_status, update_status}
use cma_ssh.Prelude.Go.Caught.{Ran, caught-Ran, IfOk, caught-IfOk, ensured-Final}
use cma_ssh.MachineSet.Status.Labeled.{Matching, count_fully_labeled-Matching}
use cma_ssh.MachineSet.Reconcile.{finish, synced_phase, sync_machine_set}

module _ (w : World) (ms : CnctMachineSet) where
  -- The set as it was read again, with the phase Ready, the time, the number of the machines that
  -- were kept, and the number of those that carry the labels of the template.
  abbrev counted : CnctMachineSet → Time → List CnctMachine → ℕ → CnctMachineSet
  counted fresh now kept labeled = record fresh {
    status = record fresh.status {
      phase = ready_machine_set;
      last_updated = some now;
      replicas = int32 (length kept);
      fully_labeled_replicas = int32 labeled;
    };
  }

  abbrev pub Recorded : List CnctMachine → w.State → w.State → Type 0
  Recorded all_machines s t =
      (kept labeled : List CnctMachine) × (fresh updated : CnctMachineSet) × (s₁ s₂ s₃ : w.State)
      × Kept w ms all_machines kept
      × (filter_machines w ms all_machines s ≡ (done kept, s₁))
      × (sync_replicas w ms kept s₁ ≡ (done tt, s₂))
      × Matching w (w.labels.as_selector_pre_validated ms.spec.machine_template.metadata.labels)
          kept labeled
      × (w.kube.machine_sets.get
            (record { namespace = ms.metadata.namespace; name = ms.metadata.name }) s₂
          ≡ (ok fresh, s₃))
      × (w.kube.machine_sets.update (counted fresh (w.host.now s₃).0 kept (length labeled))
            (w.host.now s₃).1
          ≡ (ok updated, t))

  abbrev synced : CnctMachineSet
  synced = record ms { status = record ms.status { phase = ready_machine_set } }

  abbrev with_status : List CnctMachine → CnctMachineSet
  with_status kept = record synced { status = calculate_status w synced kept }

  abbrev write : List CnctMachine → Exec w.State CnctMachineSet
  write kept =
      update_status w (with_status kept) "" "ResourceStateChange" "Resource %q changed state to %q"

  -- The update of the status, which makes no event.
  abbrev Written : List CnctMachine → w.State → w.State → Type 0
  Written kept s t =
      (labeled : List CnctMachine) × (fresh updated : CnctMachineSet) × (s₃ : w.State) × Matching w
        (w.labels.as_selector_pre_validated ms.spec.machine_template.metadata.labels) kept labeled
      × (w.kube.machine_sets.get
            (record { namespace = ms.metadata.namespace; name = ms.metadata.name }) s
          ≡ (ok fresh, s₃))
      × (w.kube.machine_sets.update (counted fresh (w.host.now s₃).0 kept (length labeled))
            (w.host.now s₃).1
          ≡ (ok updated, t))

  write-Written :
      (kept : List CnctMachine) (s : w.State) → Final Unit (λ _ t. Written kept s t) (write kept s)
  unfolding update_status calculate_status string_discrete
  write-Written kept s =
      let (labeled, h, e) =
        count_fully_labeled-Matching w
          (w.labels.as_selector_pre_validated ms.spec.machine_template.metadata.labels) kept in
      call-then Unit (λ _ t. Written kept s t)
        (w.kube.machine_sets.get
          (record { namespace = ms.metadata.namespace; name = ms.metadata.name }))
        _ s
        (λ fresh s₃ g.
          call-then Unit (λ _ t. Written kept s t)
            (w.kube.machine_sets.update (
              counted fresh (w.host.now s₃).0 kept (
                count_fully_labeled w
                  (w.labels.as_selector_pre_validated ms.spec.machine_template.metadata.labels)
                  kept)))
            _ (w.host.now s₃).1 (λ updated t u. (labeled, fresh, updated, s₃, h, g, rw (← e) u)))

  abbrev Success : List CnctMachine → w.State → ReconcileResult → w.State → Type 0
  Success all_machines s result t = (result ≡ finished) × Recorded all_machines s t

  finish-Success :
      (all_machines kept : List CnctMachine) (s s₁ s₂ : w.State) (r : Result CnctMachineSet)
      (t : w.State)
      → Kept w ms all_machines kept
      → filter_machines w ms all_machines s ≡ (done kept, s₁)
      → sync_replicas w ms kept s₁ ≡ (done tt, s₂)
      → IfOk (λ _ u. Written kept s₂ u) r t
      → Final Unit (Success all_machines s) (finish (ok tt) r t)
  unfolding finish
  finish-Success all_machines kept s s₁ s₂ (ok m) t k f y (labeled, fresh, updated, s₃, h, g, u) =
      (refl, (kept, labeled, fresh, updated, s₁, s₂, s₃, k, f, y, h, g, u))
  finish-Success all_machines kept s s₁ s₂ (err x) t k f y h = tt

  -- What follows `syncReplicas`.
  rest : List CnctMachine → Result (Unit {0}) → Exec w.State ReconcileResult
  rest kept sync_err =
      let done_set = record ms { status = record ms.status { phase = synced_phase sync_err } } in
      let ms' = record done_set { status = calculate_status w done_set kept } in
      try (update_status w ms' "" "ResourceStateChange" "Resource %q changed state to %q")
      >>= λ update_err. finish sync_err update_err

  failed-Success :
      (all_machines : List CnctMachine) (s : w.State) (e : Err) (r : Outcome CnctMachineSet)
      (t : w.State)
      → Final Unit
          (Success all_machines s)
          (continue (caught r) (λ update_err. finish (err e) update_err) t)
  unfolding finish
  failed-Success all_machines s e (done _) t = tt
  failed-Success all_machines s e (fail _) t = tt
  failed-Success all_machines s e (panic _) t = tt

  rest-Success :
      (all_machines kept : List CnctMachine) (s s₁ : w.State) (r : Result (Unit {0})) (s₂ : w.State)
      → Kept w ms all_machines kept
      → filter_machines w ms all_machines s ≡ (done kept, s₁)
      → Ran (sync_replicas w ms kept) s₁ r s₂
      → Final Unit (Success all_machines s) (rest kept r s₂)
  unfolding rest
  rest-Success all_machines kept s s₁ (ok _) s₂ k f y =
      continue-Final Unit (IfOk (λ _ u. Written kept s₂ u)) (Success all_machines s) _ _ _
        (caught-IfOk (λ _ u. Written kept s₂ u) _ _ (write-Written kept s₂))
        (λ r h. finish-Success all_machines kept s s₁ s₂ r _ k f y h)
  rest-Success all_machines kept s s₁ (err e) s₂ k f y = failed-Success all_machines s e _ _

  -- Whatever the outside world answers: when the reconcile of a set that has its finalizer and is
  -- not being deleted ends without an error, it is finished, `syncReplicas` succeeded on the machines
  -- that `filterMachines` kept, and the last call was an accepted update of the set as it was read
  -- again after that, with the phase Ready, the time, the number of the machines that were kept, and
  -- the number of those among them that carry the labels of the template.
  pub sync_machine_set-Recorded :
      (all_machines : List CnctMachine) (s : w.State)
      → Final Unit
          (λ result t. (result ≡ finished) × Recorded all_machines s t)
          (sync_machine_set w ms all_machines s)
  unfolding sync_machine_set rest
  sync_machine_set-Recorded all_machines s =
      continue-Final Unit
        (λ kept s₁.
          Kept w ms all_machines kept × (filter_machines w ms all_machines s ≡ (done kept, s₁)))
        (Success all_machines s) _ _ _
        (ensured-Final (Kept w ms all_machines) (filter_machines w ms all_machines) s _ _
          (filter_machines-Kept w ms all_machines s) refl)
        (λ kept (k, f).
          continue-Final Unit (Ran (sync_replicas w ms kept) _) (Success all_machines s) _
            (rest kept) _ (caught-Ran (sync_replicas w ms kept) _ _ _ refl)
            (λ r y. rest-Success all_machines kept s _ r _ k f y))
