-- ===== src/Machine/Delete/Eviction/Leak.antt =====
-- The channel has room for one value and nothing receives from it: most goroutines never end.
use cma_ssh.Prelude.{
  ℕ, ◌+◌, ◌≤◌, true, Option, List, [], ◌∷◌, length, ◌≡◌, sym, ap, ◌∙◌, subst, String, arith,
}
use cma_ssh.Prelude.Go.{Result, err, Err, is_not_found}
use cma_ssh.World.{World}
use cma_ssh.World.Remote.{Pod}
use cma_ssh.Machine.Delete.Eviction.{
  Point, evicting, ended, offering, Thread, threads_of, after_evict, Evictions, Moves, evict, offer,
  poll, report, OneMoves, first, later, Step, go, elsewhere, Steps, start, next, started,
}

-- 1 for a goroutine that has ended
abbrev ends : Point → ℕ
ends ended = 1
ends _ = 0

unfoldable pub count_ended : List Thread → ℕ
count_ended [] = 0
count_ended ((_, p) ∷ threads) = ends p + count_ended threads

after_evict-ends : (r : Result (Unit {0})) → ends (after_evict r) ≡ 0
unfolding after_evict
after_evict-ends r = ground arith

module _ (w : World) (clientset : w.remote.Clientset) (policy : String) where
  -- A move that ends a goroutine fills the channel.
  Moves-ends :
      {pod : Pod} {s t : w.State} {c d : List (Option Err)} {p q : Point}
      → Moves w clientset policy pod s c p t d q
      → length c ≤ 1
      → (ends q + length c ≤ ends p + length d) × (length d ≤ 1)
  Moves-ends (evict r _) h = ground (arith, after_evict-ends r)
  Moves-ends (offer v) h = ground arith
  Moves-ends (poll r _) h = ground arith
  Moves-ends (report v) h = ground arith

  OneMoves-ends :
      {s t : w.State} {c d : List (Option Err)} {threads moved : List Thread}
      → OneMoves w clientset policy s c threads t d moved
      → length c ≤ 1
      → (count_ended moved + length c ≤ count_ended threads + length d)
        × (length d ≤ 1)
        × (length moved ≡ length threads)
  unfolding count_ended
  OneMoves-ends (first m) h = ground (arith, Moves-ends m h)
  OneMoves-ends (later m) h = ground (arith, OneMoves-ends m h)

  abbrev Bounded : List Pod → Evictions w clientset policy → Type 0
  Bounded pods x =
      (count_ended x.threads ≤ length x.channel)
      × (length x.channel ≤ 1)
      × (length x.threads ≡ length pods)

  Step-Bounded :
      {x y : Evictions w clientset policy} (pods : List Pod)
      → Step w clientset policy x y
      → Bounded pods x
      → Bounded pods y
  Step-Bounded pods (go m) (e, c, l) = ground (arith, OneMoves-ends m c)
  Step-Bounded pods (elsewhere t) h = h

  started-Bounded :
      (pods : List Pod) (s : w.State) → Bounded pods (started w clientset policy pods s)
  unfolding count_ended
  started-Bounded [] s = ground arith
  started-Bounded (pod ∷ pods) s = ground (arith, started-Bounded pods s)

  -- However the goroutines and the rest of the world interleave, and whatever the API server answers,
  -- there stays one goroutine for each pod, the channel holds at most one value, and at most one of
  -- the goroutines has ended.
  pub Steps-Bounded :
      (pods : List Pod) (s : w.State) {x : Evictions w clientset policy}
      → Steps w clientset policy (started w clientset policy pods s) x
      → (count_ended x.threads ≤ length x.channel)
        × (length x.channel ≤ 1)
        × (length x.threads ≡ length pods)
  Steps-Bounded pods s start = started-Bounded pods s
  Steps-Bounded pods s (next steps step) = Step-Bounded pods step (Steps-Bounded pods s steps)

-- The goroutine is still in its loop.
abbrev pub InLoop : Point → Type 0
InLoop evicting = Unit
InLoop (offering _) = Unit
InLoop _ = ⊥

abbrev pub AllInLoop : List Thread → Type 0
AllInLoop [] = Unit
AllInLoop ((_, p) ∷ threads) = InLoop p × AllInLoop threads

after_evict-InLoop : (e : Err) → is_not_found e ≡ true → InLoop (after_evict (err e))
unfolding after_evict
after_evict-InLoop e h = rw h tt

module _ (w : World) (clientset : w.remote.Clientset) (policy : String)
    (gone : (pod : Pod) (s : w.State)
      → (e : Err) × (t : w.State) × (w.remote.evict_pod clientset policy pod s ≡ (err e, t))
        × (is_not_found e ≡ true)) where
  evicted-InLoop :
      {pod : Pod} {s t : w.State} (r : Result (Unit {0}))
      → w.remote.evict_pod clientset policy pod s ≡ (r, t)
      → InLoop (after_evict r)
  evicted-InLoop {pod} {s} {t} r h =
      let (e, u, g, n) = gone pod s in
      subst (λ r. InLoop (after_evict r)) (ap (λ x. x.0) (sym g ∙ h)) (after_evict-InLoop e n)

  Moves-InLoop :
      {pod : Pod} {s t : w.State} {c d : List (Option Err)} {p q : Point}
      → Moves w clientset policy pod s c p t d q
      → InLoop p
      → InLoop q
  Moves-InLoop (evict r h) _ = evicted-InLoop r h
  Moves-InLoop (offer v) _ = tt
  Moves-InLoop (poll r _) l = absurd l
  Moves-InLoop (report v) l = absurd l

  OneMoves-InLoop :
      {s t : w.State} {c d : List (Option Err)} {threads moved : List Thread}
      → OneMoves w clientset policy s c threads t d moved
      → AllInLoop threads
      → AllInLoop moved
  OneMoves-InLoop (first m) (l, ls) = (Moves-InLoop m l, ls)
  OneMoves-InLoop (later m) (l, ls) = (l, OneMoves-InLoop m ls)

  Step-InLoop :
      {x y : Evictions w clientset policy}
      → Step w clientset policy x y
      → AllInLoop x.threads
      → AllInLoop y.threads
  Step-InLoop (go m) l = OneMoves-InLoop m l
  Step-InLoop (elsewhere t) l = l

  threads_of-InLoop : (pods : List Pod) → AllInLoop (threads_of pods)
  threads_of-InLoop [] = tt
  threads_of-InLoop (pod ∷ pods) = (tt, threads_of-InLoop pods)

  -- When the eviction of a pod is always answered with not found, no goroutine ever leaves its loop,
  -- however the goroutines and the rest of the world interleave.
  pub Steps-InLoop :
      (pods : List Pod) (s : w.State) {x : Evictions w clientset policy}
      → Steps w clientset policy (started w clientset policy pods s) x
      → AllInLoop x.threads
  Steps-InLoop pods s start = threads_of-InLoop pods
  Steps-InLoop pods s (next steps step) = Step-InLoop step (Steps-InLoop pods s steps)
