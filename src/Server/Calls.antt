-- ===== src/Server/Calls.antt =====
-- How a call of the API server ends in a handler.
use cma_ssh.Prelude.{◌≡◌, refl}
use cma_ssh.Prelude.Go.{Call, Result, ok, err, Exec, ◌>>=◌}
use cma_ssh.Prelude.Go.Ends.{Final, continue-Final}
use cma_ssh.Server.{rpc_call, rpc_find, internally, found}

module _ {S A : Type 0} (f : Call S A) (s : S) where
  internally-Final :
      (r : Result A) (t : S) → f s ≡ (r, t) → Final ⊥ (λ a u. f s ≡ (ok a, u)) (internally r t)
  internally-Final (ok a) t h = h
  internally-Final (err e) t h = tt

  found-Final : (r : Result A) (t : S) → f s ≡ (r, t) → Final ⊥ (λ a u. f s ≡ (ok a, u)) (found r t)
  found-Final (ok a) t h = h
  found-Final (err e) t h = tt

  -- It does not panic, and where it gives a value, that is the answer of the call.
  pub rpc_call-Final : Final ⊥ (λ a t. f s ≡ (ok a, t)) (rpc_call f s)
  rpc_call-Final = internally-Final _ _ refl

  pub rpc_find-Final : Final ⊥ (λ a t. f s ≡ (ok a, t)) (rpc_find f s)
  rpc_find-Final = found-Final _ _ refl

module _ {S A B : Type 0} (P : B → S → Type 0) (f : Call S A) (g : A → Exec S B) (s : S) where
  -- What follows goes on from the answer of the call and the state after it.
  pub rpc_call-then :
      ((a : A) (t : S) → f s ≡ (ok a, t) → Final ⊥ P (g a t)) → Final ⊥ P ((rpc_call f >>= g) s)
  rpc_call-then h =
      continue-Final ⊥ (λ a t. f s ≡ (ok a, t)) P _ g _ (rpc_call-Final f s) (λ a. h a _)

  pub rpc_find-then :
      ((a : A) (t : S) → f s ≡ (ok a, t) → Final ⊥ P (g a t)) → Final ⊥ P ((rpc_find f >>= g) s)
  rpc_find-then h =
      continue-Final ⊥ (λ a t. f s ≡ (ok a, t)) P _ g _ (rpc_find-Final f s) (λ a. h a _)
