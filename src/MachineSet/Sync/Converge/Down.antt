-- ===== src/MachineSet/Sync/Converge/Down.antt =====
-- Scaling down, and the two together.
use mathlib.Core.List.{
  Mem, Perm, Pairwise, Pairwise-append, Pairwise-cons, mem-cons_self, mem-cons_of_mem,
  mem-append_left, mem-cons, not-mem-nil,
}
use mathlib.Core.Logic.Or
use mathlib.Core.List.Perm
use mathlib.Core.HLevel.{¬_prop}
use mathlib.Core.Bool.{Bool-set}
use cma_ssh.Prelude.{
  ℕ, suc, ◌+◌, ◌≤◌, ◌≡◌, ◌≢◌, refl, sym, ap, ◌∙◌, subst, ◌<>◌, Bool, true, List, [], ◌∷◌, length,
  length-perm, arith,
}
use cma_ssh.Prelude.Go.{done, ok}
use cma_ssh.Prelude.Int.{ℤ, pos}
use cma_ssh.Api.Machine.{CnctMachine}
use cma_ssh.Api.MachineSet.{CnctMachineSet}
use cma_ssh.World.{World}
use cma_ssh.MachineSet.Policy.{random_delete_policy, less, get_machines_to_delete_prioritized}
use cma_ssh.MachineSet.Policy.Priority.{
  get_machines_to_delete_prioritized-Choice, length-get_machines_to_delete_prioritized,
}
use cma_ssh.MachineSet.Sync.{
  delete_round, delete_machines, wait_for_machine_deletion, poll_machine, is_deleted, scale_down,
  scale, sync_replicas,
}
use cma_ssh.MachineSet.Sync.Scale.{Difference, equal, more, fewer, -ℤ-Difference}
use cma_ssh.MachineSet.Sync.ApiServer.{ApiServer, key_of}
use cma_ssh.MachineSet.Sync.Converge.{scale_up-live}

-- Machines with different names.
abbrev pub Apart : CnctMachine → CnctMachine → Type 0
Apart x y = key_of x ≢ key_of y

module _ (w : World) (server : ApiServer w) where
  abbrev pub EachLive : List CnctMachine → w.State → Type 0
  EachLive xs s = (x : CnctMachine) → Mem x xs → (server.is_live x s ≡ true)

  abbrev EachMarked : List CnctMachine → w.State → Type 0
  EachMarked xs s = (x : CnctMachine) → Mem x xs → (server.is_marked x s ≡ true)

  wait_for_machine_deletion-EachMarked :
      (xs : List CnctMachine) (s : w.State)
      → EachMarked xs s
      → wait_for_machine_deletion w xs s ≡ (done tt, s)
  unfolding wait_for_machine_deletion poll_machine
  wait_for_machine_deletion-EachMarked [] s h = refl
  wait_for_machine_deletion-EachMarked (x ∷ xs) s h =
      let (r, g, d) = server.get_marked x s (h x mem-cons_self) in
      ground (
        arith,
        server.poll 100 10000
            (λ s. let (r, t) = w.kube.machines.get (key_of x) s in (is_deleted r, t)) s s
            (rw (g, d) refl),
        wait_for_machine_deletion-EachMarked xs s (λ y m. h y (mem-cons_of_mem x m)),
      )

  -- A round deletes one machine, keeps the others, and forgets no deletion.
  abbrev Shrunk : CnctMachineSet → CnctMachine → w.State → Type 0
  Shrunk ms x s =
      (t : w.State) × (delete_round w ms x s ≡ (done (ok tt), t))
      × (suc (server.live t) ≡ server.live s)
      × (server.is_marked x t ≡ true)
      × ((y : CnctMachine) → Apart x y → (server.is_live y s ≡ true) → (server.is_live y t ≡ true))
      × ((y : CnctMachine) → (server.is_marked y s ≡ true) → (server.is_marked y t ≡ true))

  delete_round-Shrunk :
      (ms : CnctMachineSet) (x : CnctMachine) (s : w.State)
      → (server.is_live x s ≡ true)
      → Shrunk ms x s
  unfolding delete_round
  delete_round-Shrunk ms x s l =
      let (t, c, n, m) = server.delete x s l in
      let text = "Deleted cnctmachine: " <> x.metadata.name in
      (
        w.kube.eventf ms.metadata "Normal" "SuccessfulDelete" text t,
        ground arith,
        ap suc (server.event ms.metadata "Normal" "SuccessfulDelete" text t) ∙ n,
        server.event_marked ms.metadata "Normal" "SuccessfulDelete" text x t m,
        λ y a k.
            server.event_keeps ms.metadata "Normal" "SuccessfulDelete" text y t
              (subst (λ p. server.is_live y p.1 ≡ true) c (server.delete_keeps x y s a k)),
        λ y k.
            server.event_marked ms.metadata "Normal" "SuccessfulDelete" text y t
              (subst (λ p. server.is_marked y p.1 ≡ true) c (server.delete_marked x y s k)),
      )

  marked_cons :
      (x : CnctMachine) (xs : List CnctMachine) (s : w.State)
      → server.is_marked x s ≡ true
      → EachMarked xs s
      → EachMarked (x ∷ xs) s
  marked_cons x xs s h k y m =
      Or.elim (Bool-set _ _) (mem-cons.0 m)
        (λ e. subst (λ y. server.is_marked y s ≡ true) (sym e) h) (λ n. k y n)

  -- What the goroutines have done.
  abbrev Rounds : CnctMachineSet → List CnctMachine → w.State → Type 0
  Rounds ms xs s =
      (t : w.State) × (delete_machines w ms xs s ≡ (done [], t))
      × (length xs + server.live t ≡ server.live s)
      × EachMarked xs t
      × ((y : CnctMachine) → (server.is_marked y s ≡ true) → (server.is_marked y t ≡ true))

  delete_machines-Rounds :
      (ms : CnctMachineSet) (xs : List CnctMachine) (s : w.State)
      → Pairwise Apart xs
      → EachLive xs s
      → Rounds ms xs s
  unfolding delete_machines
  delete_machines-Rounds ms [] s a l =
      (s, refl, omega arith, λ x m. absurd (not-mem-nil m), λ y k. k)
  delete_machines-Rounds ms (x ∷ xs) s a l =
      let (b, rest) = Pairwise-cons.0 a in
      let (t, c, n, m, keep, marks) = delete_round-Shrunk ms x s (l x mem-cons_self) in
      let (u, d, e, ms', later) =
        delete_machines-Rounds ms xs t rest (λ y i. keep y (b y i) (l y (mem-cons_of_mem x i))) in
      (
        u,
        ground arith,
        ground arith,
        marked_cons x xs u (later x m) ms',
        λ y k. later y (marks y k),
      )

  module _
      (sort-perm : (lt : CnctMachine → CnctMachine → Bool) (l : List CnctMachine)
        → Perm (w.host.sort CnctMachine lt l) l)
      (sort-Pairwise : (priority : CnctMachine → ℕ) (l : List CnctMachine)
        → Pairwise
            (λ a b. priority b ≤ priority a)
            (w.host.sort CnctMachine (less priority) l)) where
    scale_down-live :
        (ms : CnctMachineSet) (machines : List CnctMachine) (n : ℕ) (s : w.State)
        → n ≤ length machines
        → Pairwise Apart machines
        → EachLive machines s
        → (t : w.State) × (scale_down w ms machines n s ≡ (done tt, t))
          × (n + server.live t ≡ server.live s)
    unfolding scale_down
    scale_down-live ms machines n s h a l =
        let choice =
          get_machines_to_delete_prioritized-Choice (w.host.sort CnctMachine) sort-perm
            sort-Pairwise machines (pos n) random_delete_policy in
        let count =
          length-get_machines_to_delete_prioritized (w.host.sort CnctMachine) sort-perm machines
            (pos n) random_delete_policy in
        let order = server.schedule s chosen in
        let apart =
          ((Pairwise-append (λ x y. ¬_prop)).0
            (Perm.pairwise (λ x y. ¬_prop) (λ x y n e. n (sym e)) (Perm.symm choice.split) a)).0 in
        let (t, d, e, marked, _) =
          delete_machines-Rounds ms (w.host.schedule CnctMachine s chosen) s
            (Perm.pairwise (λ x y. ¬_prop) (λ x y n e. n (sym e)) (Perm.symm order) apart)
            (λ x m.
              l x (
                Perm.subset choice.split x
                  (mem-append_left choice.kept (Perm.subset order x m)))) in
        (
          t,
          ground (
            arith,
            d,
            count,
            wait_for_machine_deletion-EachMarked chosen t
                (λ x m. marked x (Perm.subset (Perm.symm order) x m)),
          ),
          ground (arith, e, count, length-perm order),
        )
      where
        chosen : List CnctMachine
        chosen =
            get_machines_to_delete_prioritized (w.host.sort CnctMachine) machines (pos n)
              random_delete_policy

    scale-live :
        (ms : CnctMachineSet) (machines : List CnctMachine) (r : ℕ) (s : w.State) {z : ℤ}
        → Difference (length machines) r z
        → Pairwise Apart machines
        → EachLive machines s
        → server.live s ≡ length machines
        → (t : w.State) × (scale w ms machines z s ≡ (done tt, t)) × (server.live t ≡ r)
    unfolding scale
    scale-live ms machines r s (equal e) a l c = (s, refl, omega arith)
    scale-live ms machines r s (more d e) a l c =
        let (t, f, n) = scale_down-live ms machines (suc d) s (omega arith) a l in
        (t, f, omega arith)
    scale-live ms machines r s (fewer d e) a l c =
        let (t, f, n) = scale_up-live w server ms (suc d) s in (t, f, omega arith)

    -- On an API server that accepts machines, keeps them and deletes those that it is told to, when
    -- the machines of the set have different names and are all that it has: for any number of
    -- replicas that is not negative the call succeeds, and then exactly so many machines are there
    -- and are not being deleted. Of the sort it is used that it
    -- permutes what it is given and sorts.
    pub sync_replicas-live :
        (ms : CnctMachineSet) (machines : List CnctMachine) (r : ℕ) (s : w.State)
        → ms.spec.replicas ≡ pos r
        → Pairwise Apart machines
        → EachLive machines s
        → server.live s ≡ length machines
        → (t : w.State) × (sync_replicas w ms machines s ≡ (done tt, t)) × (server.live t ≡ r)
    unfolding sync_replicas
    sync_replicas-live ms machines r s e a l c =
        simp e (scale-live ms machines r s (-ℤ-Difference (length machines) r) a l c)
