-- ===== src/Server/Codes.antt =====
-- The errors of the handlers carry a code of gRPC.
use cma_ssh.Prelude.{String, ◌≡◌, refl, if◌then◌else◌}
use cma_ssh.Prelude.Go.{
  Outcome, done, fail, panic, ok, err, Result, Code, rpc_error, Call, Exec, continue, ◌>>=◌,
  message, is_not_found, internal, not_found_code,
}
use cma_ssh.Server.{rpc_call, rpc_find, internally, found}

-- An error, if there is one, is a status of gRPC: `codes.Internal` or `codes.NotFound` and a text.
abbrev pub Coded : {S A : Type 0} → Outcome A × S → Type 0
Coded (done _, s) = Unit
Coded (fail e, s) = (code : Code) × (m : String) × (e ≡ rpc_error code m)
Coded (panic _, s) = Unit

module _ {S A B : Type 0} where
  pub continue-Coded :
      (r : Outcome A) (g : A → Exec S B) (s : S)
      → Coded (r, s)
      → ((a : A) → Coded (g a s))
      → Coded (continue r g s)
  continue-Coded (done a) g s h k = k a
  continue-Coded (fail e) g s h k = h
  continue-Coded (panic x) g s h k = h

module _ {S A : Type 0} where
  pub internally-Coded : (r : Result A) (s : S) → Coded (internally r s)
  internally-Coded (ok a) s = tt
  internally-Coded (err e) s = (internal, message e, refl)

  found-Coded : (r : Result A) (s : S) → Coded (found r s)
  found-Coded (ok a) s = tt
  found-Coded (err e) s = (if is_not_found e then not_found_code else internal, message e, refl)

module _ {S A B : Type 0} (f : Call S A) (g : A → Exec S B) (s : S) where
  pub rpc_call-Coded : ((a : A) (t : S) → Coded (g a t)) → Coded ((rpc_call f >>= g) s)
  rpc_call-Coded h = continue-Coded _ g _ (internally-Coded (f s).0 (f s).1) (λ a. h a _)

  pub rpc_find-Coded : ((a : A) (t : S) → Coded (g a t)) → Coded ((rpc_find f >>= g) s)
  rpc_find-Coded h = continue-Coded _ g _ (found-Coded (f s).0 (f s).1) (λ a. h a _)
