-- ===== src/Machine/Delete/Eviction/Runs.antt =====
-- A goroutine whose pod can be evicted ends.
use cma_ssh.Prelude.{true, false, Option, List, [], ◌∷◌, ◌≡◌, refl, subst, String, arith}
use cma_ssh.Prelude.Go.{Result, ok, err, Err, is_not_found}
use cma_ssh.World.{World}
use cma_ssh.World.Remote.{Pod}
use cma_ssh.Machine.Delete.Eviction.{
  Point, evicting, polling, ended, threads_of, after_evict, error_of, is_too_many_requests,
  watch_pod, Evictions, evict, poll, report, first, Step, go, Steps, start, next, started,
}

after_evict-busy :
    (e : Err)
    → is_not_found e ≡ false
    → is_too_many_requests e ≡ true
    → after_evict (err e) ≡ evicting
unfolding after_evict
after_evict-busy e n h = ground arith

after_evict-ok : after_evict (ok tt) ≡ polling
unfolding after_evict
after_evict-ok = refl

module _ (w : World) (clientset : w.remote.Clientset) (policy : String) where
  -- The pod is evicted after some number of answers that there are too many requests.
  pub data Evicts (pod : Pod) : w.State → w.State → Type 0 where
    now : {s t : w.State} → w.remote.evict_pod clientset policy pod s ≡ (ok tt, t) → Evicts pod s t
    busy :
        {s t u : w.State} (e : Err)
        → w.remote.evict_pod clientset policy pod s ≡ (err e, t)
        → is_not_found e ≡ false
        → is_too_many_requests e ≡ true
        → Evicts pod t u
        → Evicts pod s u

  abbrev pub at :
      w.State → List (Option Err) → Pod → Point → List Pod → Evictions w clientset policy
  at s channel pod p pods = record {
    state = s;
    channel = channel;
    threads = (pod, p) ∷ threads_of pods;
  }

  evict_to :
      {s t : w.State} {channel : List (Option Err)} (pod : Pod) (pods : List Pod)
      (r : Result (Unit {0})) (p : Point)
      → w.remote.evict_pod clientset policy pod s ≡ (r, t)
      → after_evict r ≡ p
      → Step w clientset policy (at s channel pod evicting pods) (at t channel pod p pods)
  evict_to {s} {t} {channel} pod pods r p h e =
      subst
        (λ p. Step w clientset policy (at s channel pod evicting pods) (at t channel pod p pods)) e
        (go (first (evict r h)))

  -- From the first goroutine's loop to its poll.
  Evicts-polling :
      {x : Evictions w clientset policy} (pod : Pod) (pods : List Pod) {s t : w.State}
      → Evicts pod s t
      → Steps w clientset policy x (at s [] pod evicting pods)
      → Steps w clientset policy x (at t [] pod polling pods)
  Evicts-polling pod pods (now h) steps =
      next steps (evict_to pod pods (ok tt) polling h after_evict-ok)
  Evicts-polling pod pods (busy e h n m rest) steps =
      Evicts-polling pod pods rest
        (next steps (evict_to pod pods (err e) evicting h (after_evict-busy e n m)))

  -- A pod that is evicted, if need be after answers that there are too many requests: there is a run
  -- in which its goroutine polls for the pod once and ends, and the channel has what the poll gave.
  pub Evicts-ended :
      (pod : Pod) (pods : List Pod) (s t u : w.State) (r : Result (Unit {0}))
      → Evicts pod s t
      → w.host.poll_immediate 1000 60000 (watch_pod w clientset policy pod) t ≡ (r, u)
      → Steps w clientset policy
          (started w clientset policy (pod ∷ pods) s)
          (at u (error_of r ∷ []) pod ended pods)
  Evicts-ended pod pods s t u r evicts polls =
      next (next (Evicts-polling pod pods evicts start) (go (first (poll r polls))))
        (go (first (report (error_of r))))
