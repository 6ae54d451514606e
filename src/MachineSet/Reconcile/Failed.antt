-- ===== src/MachineSet/Reconcile/Failed.antt =====
-- What a reconcile writes when the replicas of its machine set cannot be synced.
use cma_ssh.Prelude.{string_discrete, ◌≡◌, refl, ◌⊎◌, inl, inr, some, List, ℕ, length, arith}
use cma_ssh.Prelude.Int.{int32}
use cma_ssh.Prelude.Go.{done, fail, Result, ok, err, Err, wrapped}
use cma_ssh.Api.Meta.{Time}
use cma_ssh.Api.Phase.{error_machine_set}
use cma_ssh.Api.Machine.{CnctMachine}
use cma_ssh.Api.MachineSet.{CnctMachineSet}
use cma_ssh.World.{World}
use cma_ssh.MachineSet.Select.{filter_machines}
use cma_ssh.MachineSet.Sync.{sync_replicas}
use cma_ssh.MachineSet.Status.{calculate_status, update_status}
use cma_ssh.MachineSet.Status.Labeled.{Matching, count_fully_labeled-Matching}
use cma_ssh.MachineSet.Reconcile.{sync_machine_set}
use cma_ssh.MachineSet.Reconcile.Branches.{update_status-Returns}

module _ (w : World) (ms : CnctMachineSet) where
  -- The set as it was read again, with the phase Error, the time, the number of the machines that
  -- were kept, and the number of those that carry the labels of the template.
  abbrev failed_set : CnctMachineSet → Time → List CnctMachine → ℕ → CnctMachineSet
  failed_set fresh now kept labeled = record fresh {
    status = record fresh.status {
      phase = error_machine_set;
      last_updated = some now;
      replicas = int32 (length kept);
      fully_labeled_replicas = int32 labeled;
    };
  }

  -- The set was read again, and if that succeeded, the set with the error was sent, whatever the
  -- answer.
  abbrev pub Attempted : List CnctMachine → w.State → w.State → Type 0
  Attempted kept s t =
      ((e : Err) × (w.kube.machine_sets.get
            (record { namespace = ms.metadata.namespace; name = ms.metadata.name }) s
          ≡ (err e, t)))
      ⊎ ((labeled : List CnctMachine) × (fresh : CnctMachineSet) × (s₁ : w.State) × (answer : Result
            CnctMachineSet)
          × Matching w (w.labels.as_selector_pre_validated ms.spec.machine_template.metadata.labels)
              kept labeled
          × (w.kube.machine_sets.get
                (record { namespace = ms.metadata.namespace; name = ms.metadata.name }) s
              ≡ (ok fresh, s₁))
          × (w.kube.machine_sets.update (failed_set fresh (w.host.now s₁).0 kept (length labeled))
                (w.host.now s₁).1
              ≡ (answer, t)))

  abbrev failed : List CnctMachine → CnctMachineSet
  failed kept =
      let phased = record ms { status = record ms.status { phase = error_machine_set } } in
      record phased { status = calculate_status w phased kept }

  write-Attempted :
      (kept : List CnctMachine) (s : w.State) (r : Result CnctMachineSet) (s₁ : w.State)
      → w.kube.machine_sets.get
          (record { namespace = ms.metadata.namespace; name = ms.metadata.name })
          s
        ≡ (r, s₁)
      → Attempted kept s
          (update_status w
            (failed kept)
            ""
            "ResourceStateChange"
            "Resource %q changed state to %q"
            s).1
  unfolding update_status calculate_status string_discrete
  write-Attempted kept s (err e) s₁ g = inl (e, ground (arith, g))
  write-Attempted kept s (ok fresh) s₁ g =
      let (labeled, h, e) =
        count_fully_labeled-Matching w
          (w.labels.as_selector_pre_validated ms.spec.machine_template.metadata.labels) kept in
      inr (
        labeled,
        fresh,
        s₁,
        (w.kube.machine_sets.update (failed_set fresh (w.host.now s₁).0 kept (length labeled))
            (w.host.now s₁).1).0,
        h,
        g,
        ground (arith, g, e),
      )

  failed_lem :
      (all_machines kept : List CnctMachine) (s s₁ s₂ : w.State) (e : Err)
      → filter_machines w ms all_machines s ≡ (done kept, s₁)
      → sync_replicas w ms kept s₁ ≡ (fail e, s₂)
      → sync_machine_set w ms all_machines s ≡ (
        fail (wrapped "failed to sync Machineset replicas" e),
        (update_status w
            (failed kept)
            ""
            "ResourceStateChange"
            "Resource %q changed state to %q"
            s₂).1,
      )
  unfolding sync_machine_set
  failed_lem all_machines kept s s₁ s₂ e f g =
      ground (arith, update_status-Returns w (failed kept) s₂)

  -- When the replicas cannot be synced, the reconcile fails with the sync error, whatever the API
  -- server answers after that; and before it does, it has read the set again, and if that succeeded,
  -- its last call has sent the set with the phase Error, the time, the number of the machines that
  -- were kept, and the number of those among them that carry the labels of the template.
  pub sync_machine_set-fail :
      (all_machines kept : List CnctMachine) (s s₁ s₂ : w.State) (e : Err)
      → filter_machines w ms all_machines s ≡ (done kept, s₁)
      → sync_replicas w ms kept s₁ ≡ (fail e, s₂)
      → ((sync_machine_set w ms all_machines s).0
          ≡ fail (wrapped "failed to sync Machineset replicas" e))
        × Attempted kept s₂ (sync_machine_set w ms all_machines s).1
  sync_machine_set-fail all_machines kept s s₁ s₂ e f g =
      rw (failed_lem all_machines kept s s₁ s₂ e f g) (refl, write-Attempted kept s₂ _ _ refl)
