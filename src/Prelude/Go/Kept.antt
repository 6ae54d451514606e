-- ===== src/Prelude/Go/Kept.antt =====
-- Properties of the state that code keeps, however it ends.
use cma_ssh.Prelude.{Bool, true, false, if◌then◌else◌}
use cma_ssh.Prelude.Go.{Outcome, done, fail, panic, Exec, ◌>>=◌, continue}

module _ {S : Type 0} (I : S → Type 0) where
  abbrev pub KeptBy : {A : Type 0} → (S → A × S) → Type 0
  KeptBy f = (s : S) → I s → I (f s).1

  module _ {A B : Type 0} where
    kept_on :
        (r : Outcome A) (f : A → Exec S B) (t : S)
        → I t
        → ((a : A) → KeptBy (f a))
        → I (continue r f t).1
    kept_on (done a) f t h k = k a t h
    kept_on (fail e) f t h k = h
    kept_on (panic x) f t h k = h

    pub KeptBy-bind :
        (m : Exec S A) (f : A → Exec S B) → KeptBy m → ((a : A) → KeptBy (f a)) → KeptBy (m >>= f)
    KeptBy-bind m f h k s i = kept_on (m s).0 f (m s).1 (h s i) k

  pub KeptBy-if :
      {A : Type 0} (b : Bool) (m n : S → A × S) → KeptBy m → KeptBy n → KeptBy (if b then m else n)
  KeptBy-if true m n h k = h
  KeptBy-if false m n h k = k
