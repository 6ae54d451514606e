-- ===== src/Bundle/Objects.antt =====
-- The four objects of an installation: what install.go has done when it succeeds.
use cma_ssh.Prelude.{◌≡◌, refl, Bool, true, false, if◌then◌else◌, ◌⊎◌, inl, inr}
use cma_ssh.Prelude.Go.{
  Call, return, throw, call, ◌>>=◌, Result, ok, err, Err, is_not_found, continue, lift,
}
use cma_ssh.Prelude.Go.Ends.{Final, Final-map, Final-wrap, wrap-then}
use cma_ssh.Api.AppBundle.{AppBundle}
use cma_ssh.World.{World}
use cma_ssh.Bundle.{
  install_namespace, service_account, role_binding, install_job, job_name, cma_install_namespace,
  cma_install_service_account, create_missing, ensure, create_namespace, create_service_account,
  create_cluster_role_binding, create_install_job, install,
}

module _ {S T : Type 0} (get create : Call S T) where
  -- The object was there, or it was not found and was created.
  abbrev Present : S → S → Type 0
  Present s t =
      ((x : T) × (get s ≡ (ok x, t)))
      ⊎ ((e : Err) × (s₁ : S) × (x : T) × (get s ≡ (err e, s₁))
          × (is_not_found e ≡ true)
          × (create s₁ ≡ (ok x, t)))

  made-Present :
      (e : Err) (s s₁ : S) (r : Result T) (t : S)
      → get s ≡ (err e, s₁)
      → is_not_found e ≡ true
      → create s₁ ≡ (r, t)
      → Final ⊥ (λ _ u. Present s u) (continue (lift r) (λ _. return tt) t)
  made-Present e s s₁ (ok x) t g n c = inr (e, s₁, x, g, n, c)
  made-Present e s s₁ (err _) t g n c = tt

  refused-Present :
      (e : Err) (s s₁ : S) (b : Bool)
      → get s ≡ (err e, s₁)
      → is_not_found e ≡ b
      → Final ⊥ (λ _ u. Present s u) ((if b then (call create >>= λ _. return tt) else throw e) s₁)
  refused-Present e s s₁ true g n = made-Present e s s₁ _ _ g n refl
  refused-Present e s s₁ false g n = tt

  got-Present :
      (s : S) (r : Result T) (t : S)
      → get s ≡ (r, t)
      → Final ⊥ (λ _ u. Present s u) (create_missing get create r t)
  got-Present s (ok x) t g = inl (x, g)
  got-Present s (err e) t g = refused-Present e s t _ g refl

  ensure-Present : (s : S) → Final ⊥ (λ _ t. Present s t) (ensure get create s)
  ensure-Present s = got-Present s _ _ refl

module _ (w : World) (clientset : w.remote.Clientset) where
  abbrev pub HasNamespace : w.State → w.State → Type 0
  HasNamespace =
      Present
        (w.remote.namespaces.get clientset
          (record { namespace = ""; name = cma_install_namespace }))
        (w.remote.namespaces.create clientset "" install_namespace)

  abbrev pub HasAccount : w.State → w.State → Type 0
  HasAccount =
      Present
        (w.remote.service_accounts.get clientset
          (record { namespace = cma_install_namespace; name = cma_install_service_account }))
        (w.remote.service_accounts.create clientset cma_install_namespace service_account)

  abbrev pub HasBinding : w.State → w.State → Type 0
  HasBinding =
      Present
        (w.remote.cluster_role_bindings.get clientset
          (record { namespace = ""; name = cma_install_service_account }))
        (w.remote.cluster_role_bindings.create clientset "" role_binding)

  abbrev pub HasJob : AppBundle → w.State → w.State → Type 0
  HasJob bundle =
      Present
        (w.remote.jobs.get clientset
          (record { namespace = cma_install_namespace; name = job_name bundle }))
        (w.remote.jobs.create clientset cma_install_namespace (install_job bundle))

  -- The four objects that an installation needs are there, each checked or created after the one
  -- before it.
  abbrev pub Installed : AppBundle → w.State → w.State → Type 0
  Installed bundle s t =
      (s₁ s₂ s₃ : w.State) × HasNamespace s s₁
      × HasAccount s₁ s₂
      × HasBinding s₂ s₃
      × HasJob bundle s₃ t

  create_install_job-HasJob :
      (bundle : AppBundle) (s : w.State)
      → Final ⊥ (λ _ t. HasJob bundle s t) (create_install_job w clientset bundle s)
  unfolding create_install_job
  create_install_job-HasJob bundle s =
      ensure-Present
        (w.remote.jobs.get clientset
          (record { namespace = cma_install_namespace; name = job_name bundle }))
        (w.remote.jobs.create clientset cma_install_namespace (install_job bundle)) s

  create_namespace-HasNamespace :
      (s : w.State) → Final ⊥ (λ _ t. HasNamespace s t) (create_namespace w clientset s)
  unfolding create_namespace
  create_namespace-HasNamespace s =
      ensure-Present
        (w.remote.namespaces.get clientset
          (record { namespace = ""; name = cma_install_namespace }))
        (w.remote.namespaces.create clientset "" install_namespace) s

  create_service_account-HasAccount :
      (s : w.State) → Final ⊥ (λ _ t. HasAccount s t) (create_service_account w clientset s)
  unfolding create_service_account
  create_service_account-HasAccount s =
      ensure-Present
        (w.remote.service_accounts.get clientset
          (record { namespace = cma_install_namespace; name = cma_install_service_account }))
        (w.remote.service_accounts.create clientset cma_install_namespace service_account) s

  create_cluster_role_binding-HasBinding :
      (s : w.State) → Final ⊥ (λ _ t. HasBinding s t) (create_cluster_role_binding w clientset s)
  unfolding create_cluster_role_binding
  create_cluster_role_binding-HasBinding s =
      ensure-Present
        (w.remote.cluster_role_bindings.get clientset
          (record { namespace = ""; name = cma_install_service_account }))
        (w.remote.cluster_role_bindings.create clientset "" role_binding) s

  pub install-Installed :
      (bundle : AppBundle) (s : w.State)
      → Final ⊥ (λ _ t. Installed bundle s t) (install w clientset bundle s)
  unfolding install
  install-Installed bundle s =
      wrap-then ⊥ (λ _ t. HasNamespace s t) (λ _ t. Installed bundle s t) _
        (create_namespace w clientset) _ s (create_namespace-HasNamespace s)
        (λ _ s₁ a.
          wrap-then ⊥ (λ _ t. HasAccount s₁ t) (λ _ t. Installed bundle s t) _
            (create_service_account w clientset) _ s₁ (create_service_account-HasAccount s₁)
            (λ _ s₂ b.
              wrap-then ⊥ (λ _ t. HasBinding s₂ t) (λ _ t. Installed bundle s t) _
                (create_cluster_role_binding w clientset) _ s₂
                (create_cluster_role_binding-HasBinding s₂)
                (λ _ s₃ c.
                  Final-wrap ⊥ (λ _ t. Installed bundle s t) _ _ _
                    (Final-map ⊥ (λ _ t. HasJob bundle s₃ t) (λ _ t. Installed bundle s t) _
                      (create_install_job-HasJob bundle s₃) (λ _ t d. (s₁, s₂, s₃, a, b, c, d))))))
