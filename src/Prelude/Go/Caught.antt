-- ===== src/Prelude/Go/Caught.antt =====
-- What is known of a function of the program whose error is looked at.
use cma_ssh.Prelude.{◌≡◌}
use cma_ssh.Prelude.Go.{Exec, Outcome, done, fail, panic, Result, ok, err, caught}
use cma_ssh.Prelude.Go.Ends.{Ensures, Final}

module _ {S A : Type 0} where
  -- The value with which a function of the program came back, if there is one.
  abbrev pub Ran : Exec S A → S → Result A → S → Type 0
  Ran m s (ok a) t = m s ≡ (done a, t)
  Ran m s (err _) t = Unit

  pub caught-Ran :
      (m : Exec S A) (s : S) (r : Outcome A) (t : S)
      → m s ≡ (r, t)
      → Final Unit (Ran m s) (caught r, t)
  caught-Ran m s (done a) t h = h
  caught-Ran m s (fail e) t h = tt
  caught-Ran m s (panic x) t h = tt

  -- The property holds of the value, if there is one.
  abbrev pub IfOk : (A → S → Type 0) → Result A → S → Type 0
  IfOk P (ok a) t = P a t
  IfOk P (err _) t = Unit

  pub caught-IfOk :
      (P : A → S → Type 0) (r : Outcome A) (t : S)
      → Final Unit P (r, t)
      → Final Unit (IfOk P) (caught r, t)
  caught-IfOk P (done a) t h = h
  caught-IfOk P (fail e) t h = tt
  caught-IfOk P (panic x) t h = tt

  pub ensured-Final :
      (P : A → Type 0) (m : Exec S A) (s : S) (r : Outcome A) (t : S)
      → Ensures P r
      → m s ≡ (r, t)
      → Final Unit (λ a u. P a × (m s ≡ (done a, u))) (r, t)
  ensured-Final P m s (done a) t p h = (p, h)
  ensured-Final P m s (fail e) t p h = tt
  ensured-Final P m s (panic x) t p h = tt
