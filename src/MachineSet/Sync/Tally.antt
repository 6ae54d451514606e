-- ===== src/MachineSet/Sync/Tally.antt =====
-- How many machines a call of `syncReplicas` creates, as a tally of the accepted calls counts them.
use cma_ssh.Prelude.{
  ℕ, ◌<>◌, zero, suc, ◌+◌, ◌≤◌, String, ◌≡◌, refl, Bool, List, [], ◌∷◌, length, arith, subst,
}
use cma_ssh.Prelude.Go.{Outcome, done, fail, panic, message, Call, Result, ok, err, Err, call, wrap}
use cma_ssh.Prelude.Go.Ends.{Returns}
use cma_ssh.Prelude.Go.Kept.{KeptBy, KeptBy-bind}
use cma_ssh.Prelude.Int.{ℤ, pos}
use cma_ssh.Api.Meta.{ObjectKey, ObjectMeta}
use cma_ssh.Api.Machine.{CnctMachine}
use cma_ssh.Api.MachineSet.{CnctMachineSet}
use cma_ssh.World.{World}
use cma_ssh.MachineSet.Select.{create_machine}
use cma_ssh.MachineSet.Sync.{
  Created, create_round, create_machines, poll_machine, is_created, wait_for_machine_creation,
  scale_up, scale, sync_replicas,
}
use cma_ssh.MachineSet.Sync.Scale.{
  Difference, equal, more, fewer, -ℤ-Difference, wait_for_machine_creation-Returns,
}

-- A number that can be read off the outside world: the accepted calls to create the machine of a set.
-- Nothing else that is done while machines are created changes it.
pub record Tally (w : World) (ms : CnctMachineSet) : Type 0 where
  pub accepted : w.State → ℕ
  pub create_accepted :
      (y : CnctMachine) (s t : w.State)
      → w.kube.machines.create (create_machine w ms) s ≡ (ok y, t)
      → accepted t ≡ suc (accepted s)
  pub create_refused :
      (e : Err) (s t : w.State)
      → w.kube.machines.create (create_machine w ms) s ≡ (err e, t)
      → accepted t ≡ accepted s
  pub get : (k : ObjectKey) (n : ℕ) → KeptBy (λ s. accepted s ≡ n) (w.kube.machines.get k)
  pub eventf :
      (o : ObjectMeta) (t r m : String) (s : w.State)
      → accepted (w.kube.eventf o t r m s) ≡ accepted s
  pub poll_immediate :
      (interval timeout n : ℕ) (condition : Call w.State Bool)
      → KeptBy (λ s. accepted s ≡ n) condition
      → KeptBy (λ s. accepted s ≡ n) (w.host.poll_immediate interval timeout condition)

module _ (w : World) (ms : CnctMachineSet) (tally : Tally w ms) where
  wait_for_machine_creation-KeptBy :
      (ml : List CnctMachine) (n : ℕ)
      → KeptBy (λ s. tally.accepted s ≡ n) (wait_for_machine_creation w ml)
  unfolding wait_for_machine_creation poll_machine
  wait_for_machine_creation-KeptBy [] n = λ s i. i
  wait_for_machine_creation-KeptBy (m ∷ ml) n =
      KeptBy-bind (λ s. tally.accepted s ≡ n)
        (wrap "failed waiting for machine object to be created"
          (call (poll_machine w is_created m)))
        _ (tally.poll_immediate _ _ n _ (tally.get _ n))
        (λ _. wait_for_machine_creation-KeptBy ml n)

  -- Where a round of the creation loop ends.
  abbrev Round : w.State → Result CnctMachine → w.State → Type 0
  Round s (ok _) t = tally.accepted t ≡ suc (tally.accepted s)
  Round s (err _) t = tally.accepted t ≡ tally.accepted s

  abbrev Rounds : w.State → Type 0
  Rounds s =
      (r : Result CnctMachine) × (t : w.State) × (create_round w ms s ≡ (done r, t)) × Round s r t

  answered_round :
      (s : w.State) (r : Result CnctMachine) (t : w.State)
      → w.kube.machines.create (create_machine w ms) s ≡ (r, t)
      → Rounds s
  unfolding create_round
  answered_round s (ok y) t e =
      let text = "Created cnctmachine: " <> y.metadata.name in
      let kept = tally.eventf ms.metadata "Normal" "SuccessfulCreate" text t in
      (
        ok y,
        w.kube.eventf ms.metadata "Normal" "SuccessfulCreate" text t,
        ground (arith, e),
        ground (arith, tally.create_accepted y s t e, kept),
      )
  answered_round s (err x) t e =
      let text = "Error Creating cnctmachine: " <> (create_machine w ms).metadata.name in
      let kept = tally.eventf ms.metadata "Warning" "FailedCreate" text t in
      (
        err x,
        w.kube.eventf ms.metadata "Warning" "FailedCreate" text t,
        ground (arith, e),
        ground (arith, tally.create_refused x s t e, kept),
      )

  -- Each round is in the list and was accepted, or is among the errors and was not.
  abbrev Loop : w.State → ℕ → Created → w.State → Type 0
  Loop s n c t =
      (tally.accepted t ≡ tally.accepted s + length c.machine_list)
      × (length c.machine_list + length c.errstrings ≡ n)

  abbrev Loops : ℕ → w.State → Type 0
  Loops n s =
      (c : Created) × (t : w.State) × (create_machines w ms n s ≡ (done c, t)) × Loop s n c t

  create_machines-suc :
      (n : ℕ) (s : w.State) (r : Result CnctMachine) (t : w.State)
      → create_round w ms s ≡ (done r, t)
      → Round s r t
      → Loops n t
      → Loops (suc n) s
  unfolding create_machines
  create_machines-suc n s (ok m) t e round (c, u, h, (tallied, counted)) = (
    record c { machine_list = m ∷ c.machine_list },
    u,
    ground (arith, e, h),
    (omega (arith, tallied, round), omega (arith, counted)),
  )
  create_machines-suc n s (err x) t e round (c, u, h, (tallied, counted)) = (
    record c { errstrings = message x ∷ c.errstrings },
    u,
    ground (arith, e, h),
    (omega (arith, tallied, round), omega (arith, counted)),
  )

  create_machines-Loop : (n : ℕ) (s : w.State) → Loops n s
  unfolding create_machines
  create_machines-Loop zero s =
      (record { machine_list = []; errstrings = [] }, s, refl, (omega arith, omega arith))
  create_machines-Loop (suc n) s =
      let (r, t, e, round) = answered_round s _ _ refl in
      create_machines-suc n s r t e round (create_machines-Loop n t)

  -- What has been accepted when `syncReplicas` comes back: no more than the missing machines, and all
  -- of them if it succeeds.
  abbrev pub Made : ℕ → w.State → Outcome (Unit {0}) × w.State → Type 0
  Made n s (done _, t) = tally.accepted t ≡ tally.accepted s + n
  Made n s (fail _, t) = tally.accepted t ≤ tally.accepted s + n
  Made n s (panic _, t) = ⊥

  weaker :
      (n : ℕ) (s : w.State) (o : Outcome (Unit {0})) (t : w.State)
      → Returns o
      → tally.accepted t ≡ tally.accepted s + n
      → Made n s (o, t)
  weaker n s (done _) t r h = h
  weaker n s (fail _) t r h = omega (arith, h)
  weaker n s (panic _) t r h = r

  looped-Made :
      (n : ℕ) (s : w.State) (ml : List CnctMachine) (es : List String) (t : w.State)
      → create_machines w ms n s ≡ (done (record { machine_list = ml; errstrings = es }), t)
      → Loop s n (record { machine_list = ml; errstrings = es }) t
      → Made n s (scale_up w ms n s)
  unfolding scale_up
  looped-Made n s ml [] t e (tallied, counted) = rw e (
      weaker n s _ _ (wait_for_machine_creation-Returns w ml t) (
        wait_for_machine_creation-KeptBy ml (tally.accepted s + n) t
          (omega (arith, tallied, counted))))
  looped-Made n s ml (x ∷ es) t e (tallied, counted) = rw e (omega (arith, tallied, counted))

  scale_up-Made : (n : ℕ) (s : w.State) → Made n s (scale_up w ms n s)
  scale_up-Made n s =
      let (c, t, e, h) = create_machines-Loop n s in
      looped-Made n s c.machine_list c.errstrings t e h

  scale-Made :
      (machines : List CnctMachine) (r : ℕ) (s : w.State) {z : ℤ}
      → Difference (length machines) r z
      → (n : ℕ) → suc n + length machines ≡ r
      → Made (suc n) s (scale w ms machines z s)
  unfolding scale
  scale-Made machines r s (equal e) n lt = absurd (omega arith)
  scale-Made machines r s (more d e) n lt = absurd (omega arith)
  scale-Made machines r s (fewer d e) n lt =
      subst (λ k. Made k s (scale_up w ms (suc d) s)) {x = suc d} (omega (arith, e, lt))
        (scale_up-Made (suc d) s)

  -- Where `n + 1` machines are missing, a call of `syncReplicas` comes back, and when it succeeds,
  -- exactly `n + 1` calls to create the set's machine were accepted since it began; when it fails, no
  -- more than `n + 1` were. The number of accepted calls is any number that can be read off the outside
  -- world, that each accepted call to create such a machine raises by one, and that a refused one,
  -- the reads, the events and the polls leave as it is.
  pub sync_replicas-Created :
      (machines : List CnctMachine) (n : ℕ) (s : w.State)
      → ms.spec.replicas ≡ pos (suc n + length machines)
      → Made (suc n) s (sync_replicas w ms machines s)
  unfolding sync_replicas
  sync_replicas-Created machines n s e = simp e (
      scale-Made machines (suc n + length machines) s
        (-ℤ-Difference (length machines) (suc n + length machines)) n refl)
