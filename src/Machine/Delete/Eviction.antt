-- ===== src/Machine/Delete/Eviction.antt =====
-- pkg/controller/machine/delete.go: the goroutines that evict pods, as a step relation. They share a
-- channel with room for one value, which is made where they are started and which nothing receives
-- from.
pub mod Leak
pub mod Runs
use cma_ssh.Prelude.{
  ℕ, ◌+◌, Bool, Option, none, some, List, [], ◌∷◌, ◌≡◌, String, if◌then◌else◌, false, true,
}
use cma_ssh.Prelude.Go.{
  Call, Result, ok, err, Err, wrapped, is_not_found, status_error, too_many_requests, StatusReason,
}
use cma_ssh.World.{World}
use cma_ssh.World.Remote.{Pod}
use cma_ssh.Machine.Delete.{is_gone}

-- What a goroutine does next: it evicts, sends from within its loop, polls until the pod is gone, or
-- sends what the poll gave; then it has ended.
pub data Point : Type 0 where
  evicting polling ended : Point
  offering reporting : Option Err → Point

-- `apierrors.IsTooManyRequests`
unfoldable pub is_too_many_requests : Err → Bool
is_too_many_requests (status_error too_many_requests _) = true
is_too_many_requests _ = false

-- The branches after `EvictPod`. After too many requests it sleeps and tries again.
unfoldable pub after_evict : Result (Unit {0}) → Point
after_evict (ok _) = polling
after_evict (err e) =
    if is_not_found e
    then offering none
    else if is_too_many_requests e
    then evicting
    else offering (some (wrapped "could not evict pod" e))

abbrev pub error_of : Result (Unit {0}) → Option Err
error_of (ok _) = none
error_of (err e) = some e

-- What the poll's function makes of an answer.
abbrev watched : Bool → Option Err → Result Bool
watched true e = ok true
watched false none = ok false
watched false (some e) = err e

abbrev pub Thread : Type 0
Thread = Pod × Point

abbrev begun : Pod → Thread
begun pod = (pod, evicting)

abbrev threads_of : List Pod → List Thread
threads_of [] = []
threads_of (pod ∷ pods) = begun pod ∷ threads_of pods

module _ (w : World) (clientset : w.remote.Clientset) (policy : String) where
  unfoldable pub watch_pod : Pod → Call w.State Bool
  watch_pod pod s =
      let ((p, e), t) = w.remote.get_pod clientset pod.namespace pod.name s in
      (watched (is_gone pod (p, e)) e, t)

  pub record Evictions : Type 0 where
    pub state : w.State
    pub channel : List (Option Err)
    pub threads : List Thread

  -- What one goroutine does to the state, the channel and its point. A send waits for room.
  pub data Moves (pod : Pod)
      : w.State → List (Option Err) → Point → w.State → List (Option Err) → Point → Type 0 where
    evict :
        {s t : w.State} {channel : List (Option Err)} (r : Result (Unit {0}))
        → w.remote.evict_pod clientset policy pod s ≡ (r, t)
        → Moves pod s channel evicting t channel (after_evict r)
    offer : {s : w.State} (v : Option Err) → Moves pod s [] (offering v) s (v ∷ []) evicting
    poll :
        {s t : w.State} {channel : List (Option Err)} (r : Result (Unit {0}))
        → w.host.poll_immediate 1000 60000 (watch_pod pod) s ≡ (r, t)
        → Moves pod s channel polling t channel (reporting (error_of r))
    report : {s : w.State} (v : Option Err) → Moves pod s [] (reporting v) s (v ∷ []) ended

  -- One of the goroutines moves.
  pub data OneMoves
      : w.State
        → List (Option Err)
        → List Thread
        → w.State
        → List (Option Err)
        → List Thread
        → Type 0 where
    first :
        {s t : w.State} {c d : List (Option Err)} {pod : Pod} {p q : Point} {threads : List Thread}
        → Moves pod s c p t d q
        → OneMoves s c ((pod, p) ∷ threads) t d ((pod, q) ∷ threads)
    later :
        {s t : w.State} {c d : List (Option Err)} {thread : Thread} {threads moved : List Thread}
        → OneMoves s c threads t d moved
        → OneMoves s c (thread ∷ threads) t d (thread ∷ moved)

  -- A step of a goroutine, or a change of the world by somebody else.
  pub data Step : Evictions → Evictions → Type 0 where
    go :
        {s t : w.State} {c d : List (Option Err)} {threads moved : List Thread}
        → OneMoves s c threads t d moved
        → Step
            (record { state = s; channel = c; threads = threads })
            (record { state = t; channel = d; threads = moved })
    elsewhere :
        {s : w.State} {c : List (Option Err)} {threads : List Thread} (t : w.State)
        → Step
            (record { state = s; channel = c; threads = threads })
            (record { state = t; channel = c; threads = threads })

  pub data Steps (x : Evictions) : Evictions → Type 0 where
    start : Steps x x
    next : {y z : Evictions} → Steps x y → Step y z → Steps x z

  -- The loop over the pods has started a goroutine for each.
  abbrev pub started : List Pod → w.State → Evictions
  started pods s = record { state = s; channel = []; threads = threads_of pods }
