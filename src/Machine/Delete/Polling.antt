-- ===== src/Machine/Delete/Polling.antt =====
-- The poll for deleted pods in `handleDelete`, where a pod is gone and others stay.
use cma_ssh.Prelude.{
  ℕ, zero, suc, ◌+◌, ◌*◌, ◌≤◌, string_eq, ◌≡◌, refl, Bool, true, false, Option, none, some, List,
  [], ◌∷◌, length, All, subst, ◌∙◌, arith,
}
use cma_ssh.Prelude.Go.{Err, Result, ok, err, is_not_found}
use cma_ssh.World.{World}
use cma_ssh.World.Remote.{Pod}
use cma_ssh.Machine.Delete.{is_gone, pending_pods, pods_deleted}

-- As many pods of the second list as the first has.
firsts : List Pod → List Pod → List Pod
firsts [] all = []
firsts (_ ∷ pods) [] = []
firsts (_ ∷ pods) (listed ∷ all) = listed ∷ firsts pods all

length-firsts : (pods all : List Pod) → length (firsts pods all) ≤ length pods
unfolding firsts
length-firsts [] all = omega arith
length-firsts (p ∷ pods) [] = omega arith
length-firsts (p ∷ pods) (listed ∷ all) = omega (arith, length-firsts pods all)

module _ (w : World) (clientset : w.remote.Clientset) where
  -- Up to `n` calls of the condition, each with the pods that the call before left: whether one of
  -- them said that the pods are deleted.
  unfoldable pub polls : List Pod → ℕ → List Pod → w.State → Result Bool × w.State
  polls all zero pods s = (ok false, s)
  polls all (suc n) pods s =
      let (r, t) = pods_deleted w clientset all pods s in
      elim r [
        | err e ↦ (err e, t)
        | ok (true, _) ↦ (ok true, t)
        | ok (false, pending) ↦ polls all n pending t
      ]

  abbrev pub Stays : Pod → Type 0
  Stays pod =
      (s : w.State) → w.remote.get_pod clientset pod.namespace pod.name s ≡ ((some pod, none), s)

  abbrev pub IsGone : Pod → Type 0
  IsGone pod =
      (found : Option Pod) × (e : Err) × (is_not_found e ≡ true)
      × ((s : w.State) → w.remote.get_pod clientset pod.namespace pod.name s ≡ ((found, some e), s))

  firsts-All : (pods all : List Pod) → All Stays all → All Stays (firsts pods all)
  unfolding firsts
  firsts-All [] all h = tt
  firsts-All (p ∷ pods) [] h = tt
  firsts-All (p ∷ pods) (listed ∷ all) (stays, h) = (stays, firsts-All pods all h)

  -- The pods that stay are replaced by the first of all pods.
  pending_pods-firsts :
      (pods all : List Pod) (s : w.State)
      → All Stays pods
      → pending_pods w clientset pods all s ≡ (ok (firsts pods all), s)
  unfolding firsts pending_pods is_gone
  pending_pods-firsts [] all s h = refl
  pending_pods-firsts (p ∷ pods) [] s h = refl
  pending_pods-firsts (p ∷ pods) (listed ∷ all) s (stays, h) =
      ground (arith, stays s, pending_pods-firsts pods all s h)

  pending_pods-gone :
      (a listed : Pod) (pods all : List Pod) (s : w.State)
      → IsGone a
      → All Stays pods
      → pending_pods w clientset (a ∷ pods) (listed ∷ all) s ≡ (ok (firsts pods all), s)
  unfolding pending_pods is_gone
  pending_pods-gone a listed pods all s (found, e, n, gone) h =
      ground (arith, n, gone s, pending_pods-firsts pods all s h)

  -- A call whose pending pods are known.
  polls-none :
      (all : List Pod) (n : ℕ) (pods : List Pod) (s : w.State)
      → pending_pods w clientset pods all s ≡ (ok [], s)
      → polls all (suc n) pods s ≡ (ok true, s)
  unfolding polls pods_deleted
  polls-none all n pods s h = ground (arith, h)

  polls-some :
      (all : List Pod) (n : ℕ) (pods : List Pod) (p : Pod) (ps : List Pod) (s : w.State)
      → pending_pods w clientset pods all s ≡ (ok (p ∷ ps), s)
      → polls all (suc n) pods s ≡ polls all n (p ∷ ps) s
  unfolding polls pods_deleted
  polls-some all n pods p ps s h = ground (arith, h)

  -- After at most so many calls the condition says that the pods are deleted.
  abbrev pub SaysDeleted : List Pod → ℕ → List Pod → w.State → Type 0
  SaysDeleted all m pods s = (n : ℕ) × (n ≤ m) × (polls all n pods s ≡ (ok true, s))

  module _ (a : Pod) (rest : List Pod) (s : w.State) (gone : IsGone a) (stay : All Stays rest) where
    abbrev Missed : ℕ → Type 0
    Missed m =
        (pods : List Pod)
        → All Stays pods
        → length pods ≤ m
        → SaysDeleted (a ∷ rest) (2 * m + 1) (a ∷ pods) s

    -- Two calls: the first leaves out the pod that is gone, the second takes it up and leaves out
    -- another.
    two_calls :
        (m : ℕ) (pods : List Pod) (q : Pod) (qs : List Pod)
        → Missed m
        → pending_pods w clientset (a ∷ pods) (a ∷ rest) s ≡ (ok (q ∷ qs), s)
        → All Stays (q ∷ qs)
        → length (q ∷ qs) ≤ suc m
        → SaysDeleted (a ∷ rest) (2 * suc m + 1) (a ∷ pods) s
    unfolding firsts
    two_calls m pods q qs missed first h l =
        let fewer : length (firsts qs rest) ≤ m = omega (arith, length-firsts qs rest, l) in
        let (n, b, says) = missed (firsts qs rest) (firsts-All qs rest stay) fewer in
        (
          suc (suc n),
          omega (arith, b),
          polls-some (a ∷ rest) (suc n) (a ∷ pods) q qs s first
              ∙ polls-some (a ∷ rest) n (q ∷ qs) a (firsts qs rest) s
                  (pending_pods-firsts (q ∷ qs) (a ∷ rest) s h)
              ∙ says,
        )

    first_call :
        (m : ℕ) (pods left : List Pod)
        → ((k : ℕ) → suc k ≡ m → Missed k)
        → pending_pods w clientset (a ∷ pods) (a ∷ rest) s ≡ (ok left, s)
        → All Stays left
        → length left ≤ m
        → SaysDeleted (a ∷ rest) (2 * m + 1) (a ∷ pods) s
    first_call m pods [] missed first h l =
        (1, omega arith, polls-none (a ∷ rest) 0 (a ∷ pods) s first)
    first_call zero pods (q ∷ qs) missed first h l = absurd (omega (arith, l))
    first_call (suc k) pods (q ∷ qs) missed first h l =
        two_calls k pods q qs (missed k refl) first h l

    missed_lem : (m : ℕ) → Missed m
    missed_lem zero pods h l =
        first_call zero pods (firsts pods rest) (λ k e. absurd (omega (arith, e)))
          (pending_pods-gone a a pods rest s gone h) (firsts-All pods rest stay)
          (omega (arith, length-firsts pods rest, l))
    missed_lem (suc m) pods h l =
        first_call (suc m) pods (firsts pods rest)
          (λ k e. subst Missed (omega (arith, e)) (missed_lem m))
          (pending_pods-gone a a pods rest s gone h) (firsts-All pods rest stay)
          (omega (arith, length-firsts pods rest, l))

    -- Let the first pod be gone, and any number of other pods stay. However many they are, the
    -- condition of the poll, called again and again with the pods that it left, soon says that the
    -- pods are deleted, while all the others are there: after at most twice as many calls as pods
    -- stay, and one. It reads the index of a pending pod in the list of all pods. Of a pod that is
    -- gone only this is used, that reading it gives an error that is not found.
    pub pods_deleted-stale : SaysDeleted (a ∷ rest) (2 * length rest + 1) (a ∷ rest) s
    pods_deleted-stale = missed_lem (length rest) rest stay (omega arith)
