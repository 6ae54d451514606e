-- ===== src/Prelude/Go.antt =====
-- Error values, results and effects, as the Go code passes them on.
pub mod Ends
pub mod Caught
pub mod Kept
use cma_ssh.Prelude.{String, ◌<>◌, Bool, true, false}

-- The reason of a Kubernetes `StatusError`, as far as the code tells reasons apart.
pub data StatusReason : Type 0 where
  not_found too_many_requests : StatusReason
  other_reason : String → StatusReason

-- The codes of gRPC that the server returns.
pub data Code : Type 0 where
  internal not_found_code : Code

-- `codes.Code.String`
abbrev code_name : Code → String
code_name internal = "Internal"
code_name not_found_code = "NotFound"

-- The errors of the program: those of the API server, plain ones, those wrapped by
-- `errors.Wrap`, the three types of pkg/controller/machine/create.go, and those of gRPC.
pub data Err : Type 0 where
  status_error : StatusReason → String → Err
  plain_error : String → Err
  wrapped : String → Err → Err
  not_ready_error : String → Err
  unrecoverable_error : String → Err
  release_error : String → Err → Err
  rpc_error : Code → String → Err

-- `err.Error()`
unfoldable pub message : Err → String
message (status_error _ m) = m
message (plain_error m) = m
message (wrapped m e) = m <> ": " <> message e
message (not_ready_error m) = m
message (unrecoverable_error reason) = reason
message (release_error _ e) = message e
message (rpc_error code m) = "rpc error: code = " <> code_name code <> " desc = " <> m

-- `errors.Cause`: what stands under the wrappers.
unfoldable pub cause : Err → Err
cause (wrapped _ e) = cause e
cause (status_error reason m) = status_error reason m
cause (plain_error m) = plain_error m
cause (not_ready_error m) = not_ready_error m
cause (unrecoverable_error reason) = unrecoverable_error reason
cause (release_error id e) = release_error id e
cause (rpc_error code m) = rpc_error code m

-- `apierrors.IsNotFound`, which does not look under wrappers.
unfoldable pub is_not_found : Err → Bool
is_not_found (status_error not_found _) = true
is_not_found _ = false

-- What a call that can fail returns: Go's `(value, error)`.
pub data Result (A : Type 0) : Type 0 where
  ok : A → Result A
  err : Err → Result A

-- Ways in which a goroutine never returns; the last two are the panics of a port without a
-- listener and of a pattern that `ServeMux` refuses.
pub data Fault : Type 0 where
  index_out_of_range nil_dereference deadlock unlistenable bad_pattern : Fault

-- How a function of the program ends.
pub data Outcome (A : Type 0) : Type 0 where
  done : A → Outcome A
  fail : Err → Outcome A
  panic : Fault → Outcome A

-- A function of the program over the state of everything outside it.
abbrev pub Exec : Type 0 → Type 0 → Type 0
Exec S A = S → Outcome A × S

-- A call of code outside the program.
abbrev pub Call : Type 0 → Type 0 → Type 0
Call S A = S → Result A × S

module _ {A : Type 0} where
  abbrev pub lift : Result A → Outcome A
  lift (ok a) = done a
  lift (err e) = fail e

  abbrev pub caught : Outcome A → Outcome (Result A)
  caught (done a) = done (ok a)
  caught (fail e) = done (err e)
  caught (panic f) = panic f

  abbrev pub rewrapped : String → Outcome A → Outcome A
  rewrapped m (done a) = done a
  rewrapped m (fail e) = fail (wrapped m e)
  rewrapped m (panic f) = panic f

module _ {S A : Type 0} where
  abbrev pub return : A → Exec S A
  return a s = (done a, s)

  abbrev pub throw : Err → Exec S A
  throw e s = (fail e, s)

  abbrev pub crash : Fault → Exec S A
  crash f s = (panic f, s)

  -- `if err := f(); err != nil { return err }`
  abbrev pub call : Call S A → Exec S A
  call f s = let (r, s') = f s in (lift r, s')

  -- `a, err := f()`, where what follows looks at `err`.
  abbrev pub attempt : Call S A → Exec S (Result A)
  attempt f s = let (r, s') = f s in (done r, s')

  -- The same for a function of the program. A panic goes through.
  abbrev pub try : Exec S A → Exec S (Result A)
  try m s = let (r, s') = m s in (caught r, s')

  -- `if err := f(); err != nil { return errors.Wrap(err, m) }`
  abbrev pub wrap : String → Exec S A → Exec S A
  wrap m f s = let (r, s') = f s in (rewrapped m r, s')

  -- A call that returns no error.
  abbrev pub observe : (S → A × S) → Exec S A
  observe f s = let (a, s') = f s in (done a, s')

module _ {S A B : Type 0} where
  abbrev pub continue : Outcome A → (A → Exec S B) → Exec S B
  continue (done a) f s = f a s
  continue (fail e) f s = (fail e, s)
  continue (panic x) f s = (panic x, s)

  infixl 10 ◌>>=◌ ◌>>◌
  abbrev pub ◌>>=◌ : Exec S A → (A → Exec S B) → Exec S B
  ◌>>=◌ m f s = let (r, s') = m s in continue r f s'

  abbrev pub ◌>>◌ : Exec S A → Exec S B → Exec S B
  m >> n = m >>= λ _. n
