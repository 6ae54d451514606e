-- ===== src/MachineSet/Sync/Converge.antt =====
-- Scaling up, with an API server that does what it is asked.
pub mod Down
use cma_ssh.Prelude.{
  ℕ, zero, suc, ◌+◌, ◌≤◌, ◌≡◌, refl, sym, ap, ◌∙◌, subst, ◌<>◌, String, Bool, true, List, [], ◌∷◌,
  length, arith,
}
use cma_ssh.Prelude.Go.{Call, Result, done, ok, ◌>>=◌, return, wrap, call}
use cma_ssh.Prelude.Int.{ℤ, pos}
use cma_ssh.Api.Meta.{ObjectMeta, ObjectKey}
use cma_ssh.Api.Machine.{CnctMachine}
use cma_ssh.Api.MachineSet.{CnctMachineSet}
use cma_ssh.World.{World}
use cma_ssh.MachineSet.Select.{create_machine}
use cma_ssh.MachineSet.Sync.{
  Created, create_round, create_machines, wait_for_machine_creation, poll_machine, is_created,
  scale_up, scale, sync_replicas,
}
use cma_ssh.MachineSet.Sync.Scale.{Difference, equal, more, fewer, -ℤ-Difference}
use cma_ssh.MachineSet.Sync.ApiServer.{ApiServer, key_of}

module _ (w : World) (server : ApiServer w) where
  abbrev AllLive : List CnctMachine → w.State → Type 0
  AllLive [] s = Unit
  AllLive (x ∷ xs) s = (server.is_live x s ≡ true) × AllLive xs s

  wait_for_machine_creation-AllLive :
      (xs : List CnctMachine) (s : w.State)
      → AllLive xs s
      → wait_for_machine_creation w xs s ≡ (done tt, s)
  unfolding wait_for_machine_creation poll_machine
  wait_for_machine_creation-AllLive [] s h = refl
  wait_for_machine_creation-AllLive (x ∷ xs) s (l, ls) =
      let (y, g) = server.get x s l in
      ground (
        arith,
        server.poll 100 10000
            (λ s. let (r, t) = w.kube.machines.get (key_of x) s in (is_created r, t)) s s
            (rw g refl),
        wait_for_machine_creation-AllLive xs s ls,
      )

  -- A round creates one machine and keeps those that are there.
  abbrev Grown : CnctMachineSet → w.State → Type 0
  Grown ms s =
      (x : CnctMachine) × (t : w.State) × (create_round w ms s ≡ (done (ok x), t))
      × (server.live t ≡ suc (server.live s))
      × (server.is_live x t ≡ true)
      × ((y : CnctMachine) → (server.is_live y s ≡ true) → (server.is_live y t ≡ true))

  create_round-Grown : (ms : CnctMachineSet) (s : w.State) → Grown ms s
  unfolding create_round
  create_round-Grown ms s =
      let (x, t, c, n, l) = server.create (create_machine w ms) s in
      let text = "Created cnctmachine: " <> x.metadata.name in
      (
        x,
        w.kube.eventf ms.metadata "Normal" "SuccessfulCreate" text t,
        ground arith,
        server.event ms.metadata "Normal" "SuccessfulCreate" text t ∙ n,
        server.event_keeps ms.metadata "Normal" "SuccessfulCreate" text x t l,
        λ y k. server.event_keeps ms.metadata "Normal" "SuccessfulCreate" text y t (
            subst (λ p. server.is_live y p.1 ≡ true) c
              (server.create_keeps (create_machine w ms) y s k)),
      )

  -- So many rounds.
  abbrev Rounds : CnctMachineSet → ℕ → w.State → Type 0
  Rounds ms n s =
      (xs : List CnctMachine) × (t : w.State) × (create_machines w ms n s
        ≡ (done (record { machine_list = xs; errstrings = [] }), t))
      × (server.live t ≡ n + server.live s)
      × AllLive xs t
      × ((y : CnctMachine) → (server.is_live y s ≡ true) → (server.is_live y t ≡ true))

  create_machines-Rounds : (ms : CnctMachineSet) (n : ℕ) (s : w.State) → Rounds ms n s
  unfolding create_machines
  create_machines-Rounds ms zero s = ([], s, refl, omega arith, tt, λ y k. k)
  create_machines-Rounds ms (suc n) s =
      let (x, t, c, e, l, k) = create_round-Grown ms s in
      let (xs, u, d, f, ls, m) = create_machines-Rounds ms n t in
      (x ∷ xs, u, ground arith, omega arith, (m x l, ls), λ y h. m y (k y h))

  -- Scaling up by `n` succeeds and leaves `n` machines more.
  pub scale_up-live :
      (ms : CnctMachineSet) (n : ℕ) (s : w.State)
      → (t : w.State) × (scale_up w ms n s ≡ (done tt, t)) × (server.live t ≡ n + server.live s)
  unfolding scale_up
  scale_up-live ms n s =
      let (xs, t, c, e, ls, _) = create_machines-Rounds ms n s in
      (t, ground (arith, wait_for_machine_creation-AllLive xs t ls), e)
