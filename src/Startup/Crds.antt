-- ===== src/Startup/Crds.antt =====
-- The definitions of the resources are installed, in order.
use cma_ssh.Prelude.{
  String, ◌≡◌, refl, Bool, true, false, List, [], ◌∷◌, ◌⊎◌, inl, inr, if◌then◌else◌,
}
use cma_ssh.Prelude.Go.{Result, ok, err, Err, is_not_found, throw, return}
use cma_ssh.Prelude.Go.Ends.{Final, Final-map, continue-Final, call-then, lift-then}
use cma_ssh.Startup.{Runtime, create_crd, crd_missing, install_crd, install_each}

module _ (r : Runtime) where
  -- The definition was there, or it was not found and was created as its file says.
  abbrev pub CrdPresent : r.Clientset → String → String → r.State → r.State → Type 0
  CrdPresent cs name file s t =
      ((x : r.Crd) × (r.get_crd cs name s ≡ (ok x, t)))
      ⊎ ((e : Err) × (s₁ : r.State) × (text : String) × (new_crd created : r.Crd) × (r.get_crd cs
              name s
            ≡ (err e, s₁))
          × (is_not_found e ≡ true)
          × (r.open_file file ≡ ok text)
          × (r.decode text ≡ ok new_crd)
          × (r.create_crd cs new_crd s₁ ≡ (ok created, t)))

  abbrev pub CrdsPresent : r.Clientset → List (String × String) → r.State → r.State → Type 0
  CrdsPresent cs [] s t = s ≡ t
  CrdsPresent cs ((name, file) ∷ rest) s t =
      (s₁ : r.State) × CrdPresent cs name file s s₁ × CrdsPresent cs rest s₁ t

  missing-CrdPresent :
      (cs : r.Clientset) (name file : String) (e : Err) (s s₁ : r.State) (b : Bool)
      → r.get_crd cs name s ≡ (err e, s₁)
      → is_not_found e ≡ b
      → Final ⊥
          (λ _ t. CrdPresent cs name file s t)
          ((if b then create_crd r cs file else throw e) s₁)
  unfolding create_crd
  missing-CrdPresent cs name file e s s₁ true g n =
      lift-then ⊥ (λ _ t. CrdPresent cs name file s t) (r.open_file file) _ s₁
        (λ text o.
          lift-then ⊥ (λ _ t. CrdPresent cs name file s t) (r.decode text) _ s₁
            (λ new_crd d.
              call-then ⊥ (λ _ t. CrdPresent cs name file s t) (r.create_crd cs new_crd)
                (λ _. return tt) s₁
                (λ created t c. inr (e, s₁, text, new_crd, created, g, n, o, d, c))))
  missing-CrdPresent cs name file e s s₁ false g n = tt

  got-CrdPresent :
      (cs : r.Clientset) (name file : String) (s : r.State) (x : Result r.Crd) (t : r.State)
      → r.get_crd cs name s ≡ (x, t)
      → Final ⊥ (λ _ u. CrdPresent cs name file s u) (crd_missing r cs file x t)
  got-CrdPresent cs name file s (ok x) t g = inl (x, g)
  got-CrdPresent cs name file s (err e) t g = missing-CrdPresent cs name file e s t _ g refl

  install_crd-CrdPresent :
      (cs : r.Clientset) (name file : String) (s : r.State)
      → Final ⊥ (λ _ t. CrdPresent cs name file s t) (install_crd r cs name file s)
  unfolding install_crd
  install_crd-CrdPresent cs name file s = got-CrdPresent cs name file s _ _ refl

  pub install_each-CrdsPresent :
      (cs : r.Clientset) (list : List (String × String)) (s : r.State)
      → Final ⊥ (λ _ t. CrdsPresent cs list s t) (install_each r cs list s)
  unfolding install_each
  install_each-CrdsPresent cs [] s = refl
  install_each-CrdsPresent cs ((name, file) ∷ rest) s =
      continue-Final ⊥ (λ _ t. CrdPresent cs name file s t)
        (λ _ t. CrdsPresent cs ((name, file) ∷ rest) s t) _ _ _
        (install_crd-CrdPresent cs name file s)
        (λ _ p.
          Final-map ⊥ (λ _ t. CrdsPresent cs rest _ t)
            (λ _ t. CrdsPresent cs ((name, file) ∷ rest) s t) _ (install_each-CrdsPresent cs rest _)
            (λ _ t q. (_, p, q)))
