-- ===== src/Tests/Evictions.antt =====
-- Runs of the goroutines that evict pods, and of `syncReplicas` on a server that keeps its machines.
use mathlib.Core.List.{Pairwise, mem-cons, not-mem-nil}
use mathlib.Core.Logic.Or
use mathlib.Core.Bool.{Bool-set}
use mathlib.Core.HLevel.{¬_prop}
use cma_ssh.Prelude.{
  ℕ, String, ◌≡◌, ◌≢◌, ◌≤◌, refl, sym, subst, ap, Bool, true, none, List, [], ◌∷◌, length, arith,
}
use cma_ssh.Prelude.Int.{pos}
use cma_ssh.Prelude.Go.{done, ok, err}
use cma_ssh.Api.Machine.{CnctMachine}
use cma_ssh.World.{World}
use cma_ssh.World.Remote.{Pod}
use cma_ssh.Machine.Delete.Eviction.{Evictions, Steps, start, ended, started}
use cma_ssh.Machine.Delete.Eviction.Leak.{count_ended, Steps-Bounded, AllInLoop, Steps-InLoop}
use cma_ssh.Machine.Delete.Eviction.Runs.{at, now, Evicts-ended}
use cma_ssh.MachineSet.Sync.{sync_replicas}
use cma_ssh.MachineSet.Sync.Converge.Down.{Apart, EachLive, sync_replicas-live}
use cma_ssh.Tests.Demo.{up, machine, missing, set_of}
use cma_ssh.Tests.Sort.{insertion_sort-Perm, insertion_sort-Sorted}
use cma_ssh.Tests.Honest.{honest, server, Kept}

abbrev pod : Pod
pod = record { name = "p0"; namespace = "default"; uid = "u0" }

abbrev pods : List Pod
pods = pod ∷ record pod { name = "p1" } ∷ []

-- The first goroutine has evicted its pod, polled and ended.
abbrev one_ended : Evictions up tt "policy/v1"
one_ended = at up tt "policy/v1" tt (none ∷ []) pod ended (record pod { name = "p1" } ∷ [])

Evicts-ended_example : Steps up tt "policy/v1" (started up tt "policy/v1" pods tt) one_ended
Evicts-ended_example =
    Evicts-ended up tt "policy/v1" pod (record pod { name = "p1" } ∷ []) tt tt tt (ok tt) (now refl)
      refl

Steps-Bounded_example :
    (count_ended one_ended.threads ≤ length one_ended.channel)
    × (length one_ended.channel ≤ 1)
    × (length one_ended.threads ≡ length pods)
Steps-Bounded_example = Steps-Bounded up tt "policy/v1" pods tt Evicts-ended_example

-- The pods are gone already.
abbrev no_pods : World
no_pods = record up { remote = record up.remote { evict_pod = λ c v p s. (err missing, s) } }

abbrev begun : Evictions no_pods tt "policy/v1"
begun = started no_pods tt "policy/v1" pods tt

Steps-InLoop_example : AllInLoop begun.threads
unfolding cma_ssh.Prelude.Go.is_not_found
Steps-InLoop_example =
    Steps-InLoop no_pods tt "policy/v1" (λ pod s. (missing, s, refl, refl)) pods tt start

abbrev named : String → CnctMachine
named name = record machine { metadata = record machine.metadata { name = name } }

abbrev both : List CnctMachine
both = named "a" ∷ named "ab" ∷ []

abbrev before : Kept
before = record {
  here = record { namespace = "ns"; name = "a" } ∷ record { namespace = "ns"; name = "ab" } ∷ [];
  leaving = [];
}

apart : Apart (named "a") (named "ab")
apart e = absurd (cc)

both-Apart : Pairwise Apart both
both-Apart =
    Pairwise.cons
      (λ x m.
        Or.elim ¬_prop (mem-cons.0 m) (λ e. subst (Apart (named "a")) (sym e) apart)
          (λ n. absurd (not-mem-nil n)))
      (Pairwise.cons (λ x m. absurd (not-mem-nil m)) Pairwise.nil)

both-EachLive : EachLive honest server both before
unfolding cma_ssh.Tests.Honest.holds cma_ssh.Prelude.string_discrete
both-EachLive x m =
    Or.elim (Bool-set _ _) (mem-cons.0 m)
      (λ e. subst (λ x. server.is_live x before ≡ true) (sym e) refl)
      (λ n.
        Or.elim (Bool-set _ _) (mem-cons.0 n)
          (λ e. subst (λ x. server.is_live x before ≡ true) (sym e) refl)
          (λ o. absurd (not-mem-nil o)))

sync_replicas-live_example :
    (t : Kept) × (sync_replicas honest (set_of (pos 1)) both before ≡ (done tt, t))
    × (server.live t ≡ 1)
sync_replicas-live_example =
    sync_replicas-live honest server insertion_sort-Perm insertion_sort-Sorted (set_of (pos 1)) both
      1 before refl both-Apart both-EachLive refl
