-- ===== src/Prelude/Go/Ends.antt =====
-- How functions of the program end.
use cma_ssh.Prelude.{String, ◌≡◌, refl, Bool, true, false, if◌then◌else◌}
use cma_ssh.Prelude.Go.{
  Outcome, Exec, Err, Call, Result, ok, err, lift, call, done, fail, panic, continue, return, throw,
  rewrapped, wrap, ◌>>=◌,
}

-- The call comes back, with a value or an error.
abbrev pub Returns : {A : Type 0} → Outcome A → Type 0
Returns (done _) = Unit
Returns (fail _) = Unit
Returns (panic _) = ⊥

-- It comes back with a value, and the value has the property.
abbrev pub Ensures : {A : Type 0} → (A → Type 0) → Outcome A → Type 0
Ensures P (done a) = P a
Ensures P (fail _) = ⊥
Ensures P (panic _) = ⊥

-- What follows is a pure step.
pub Ensures-map :
    {S A B : Type 0} (P : A → Type 0) (Q : B → Type 0) (f : A → B) (r : Outcome A) (s : S)
    → Ensures P r
    → ((a : A) → P a → Q (f a))
    → Ensures Q (continue r (λ a. return (f a)) s).0
Ensures-map P Q f (done a) s h k = k a h
Ensures-map P Q f (fail e) s h k = h
Ensures-map P Q f (panic x) s h k = h

module _ {S : Type 0} (F : Type 0) {A : Type 0} (P : A → S → Type 0) where
  -- If it comes back with a value, then `P` holds of the value and the state. `F` is what a panic
  -- means: the empty type where there is none.
  abbrev pub Final : Outcome A × S → Type 0
  Final (done a, s) = P a s
  Final (fail _, s) = Unit
  Final (panic _, s) = F

  -- The same from every state.
  unfoldable pub Ends : Exec S A → Type 0
  Ends m = (s : S) → Final (m s)

  pub throw-Ends : (e : Err) → Ends (throw e)
  unfolding Ends
  throw-Ends e s = tt

  pub if-Ends : (b : Bool) (m n : Exec S A) → Ends m → Ends n → Ends (if b then m else n)
  if-Ends true m n h k = h
  if-Ends false m n h k = k

  pub Final-wrap : (m : String) (r : Outcome A) (s : S) → Final (r, s) → Final (rewrapped m r, s)
  Final-wrap m (done _) s h = h
  Final-wrap m (fail _) s h = h
  Final-wrap m (panic _) s h = h

-- It comes back, with a value or an error.
abbrev pub ComesBack : {S A : Type 0} → Outcome A × S → Type 0
ComesBack = Final ⊥ (λ _ _. Unit {0})

module _ {S : Type 0} (F : Type 0) {A B : Type 0} (Q : A → S → Type 0) (P : B → S → Type 0) where
  pub continue-Final :
      (r : Outcome A) (f : A → Exec S B) (s : S)
      → Final F Q (r, s)
      → ((a : A) → Q a s → Final F P (f a s))
      → Final F P (continue r f s)
  continue-Final (done a) f s h k = k a h
  continue-Final (fail e) f s h k = tt
  continue-Final (panic x) f s h k = h

  -- What goes on from the value and the state of which `Q` holds.
  pub Ends-bind :
      (m : Exec S A) (f : A → Exec S B)
      → ((s : S) → Final F Q (m s))
      → ((a : A) (s : S) → Q a s → Final F P (f a s))
      → Ends F P (m >>= f)
  unfolding Ends
  Ends-bind m f h k s = continue-Final (m s).0 f (m s).1 (h s) (λ a. k a (m s).1)

module _ {S : Type 0} (F : Type 0) {A B : Type 0} (P : B → S → Type 0) where
  -- The same where it does not matter how the first part ends.
  pub Ends-then :
      (m : Exec S A) (f : A → Exec S B)
      → ((s : S) → Final F (λ _ _. Unit {0}) (m s))
      → ((a : A) → Ends F P (f a))
      → Ends F P (m >>= f)
  unfolding Ends
  Ends-then m f h k = Ends-bind F (λ _ _. Unit) P m f h (λ a s _. k a s)

-- A weaker property of the end.
pub Final-map :
    {S : Type 0} (F : Type 0) {A : Type 0} (P Q : A → S → Type 0) (r : Outcome A × S)
    → Final F P r
    → ((a : A) (s : S) → P a s → Q a s)
    → Final F Q r
Final-map F P Q (done a, s) h k = k a s h
Final-map F P Q (fail e, s) h k = tt
Final-map F P Q (panic x, s) h k = h

module _ {S : Type 0} (F : Type 0) {A B : Type 0} (Q : A → S → Type 0) (P : B → S → Type 0) where
  -- What goes on after a part whose error gets a message.
  pub wrap-then :
      (text : String) (m : Exec S A) (f : A → Exec S B) (s : S)
      → Final F Q (m s)
      → ((a : A) (t : S) → Q a t → Final F P (f a t))
      → Final F P ((wrap text m >>= f) s)
  wrap-then text m f s h k =
      continue-Final F Q P (rewrapped text (m s).0) f (m s).1
        (Final-wrap F Q text (m s).0 (m s).1 h) (λ a. k a (m s).1)

module _ {S : Type 0} (F : Type 0) {A B : Type 0} (P : B → S → Type 0) where
  called_then :
      (f : Call S A) (g : A → Exec S B) (s : S) (r : Result A) (t : S)
      → f s ≡ (r, t)
      → ((a : A) (u : S) → f s ≡ (ok a, u) → Final F P (g a u))
      → Final F P (continue (lift r) g t)
  called_then f g s (ok a) t e h = h a t e
  called_then f g s (err x) t e h = tt

  -- What goes on after a call.
  pub call-then :
      (f : Call S A) (g : A → Exec S B) (s : S)
      → ((a : A) (t : S) → f s ≡ (ok a, t) → Final F P (g a t))
      → Final F P ((call f >>= g) s)
  call-then f g s h = called_then f g s _ _ refl h

  -- What goes on after a pure function that may fail.
  pub lift-then :
      (r : Result A) (g : A → Exec S B) (s : S)
      → ((a : A) → r ≡ ok a → Final F P (g a s))
      → Final F P (continue (lift r) g s)
  lift-then (ok a) g s h = h a refl
  lift-then (err e) g s h = tt

-- Where there is no panic, a panic may mean anything.
pub Final-fault :
    {S : Type 0} (F : Type 0) {A : Type 0} (P : A → S → Type 0) (r : Outcome A × S)
    → Final ⊥ P r
    → Final F P r
Final-fault F P (done a, s) h = h
Final-fault F P (fail e, s) h = h
Final-fault F P (panic x, s) h = absurd h
