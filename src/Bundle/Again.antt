-- ===== src/Bundle/Again.antt =====
-- install.go on a managed cluster that keeps what is created: the first installation creates what is
-- missing, and a second one creates nothing.
use cma_ssh.Prelude.{◌≡◌, refl, Bool, true, false, ◌||◌, arith, inl, inr, Bool-cases}
use cma_ssh.Prelude.Go.{Call, Exec, done, ok, err, Err, is_not_found}
use cma_ssh.Api.Meta.{ObjectMeta}
use cma_ssh.Api.AppBundle.{AppBundle}
use cma_ssh.World.{World}
use cma_ssh.World.Remote.{ClusterRoleBinding, Job}
use cma_ssh.Bundle.{
  install_namespace, service_account, role_binding, install_job, job_name, cma_install_namespace,
  cma_install_service_account, ensure, create_namespace, create_service_account,
  create_cluster_role_binding, create_install_job, install,
}

-- The objects of an installation.
pub data Part : Type 0 where
  namespace_part account_part binding_part job_part : Part

abbrev pub same_part : Part → Part → Bool
same_part namespace_part namespace_part = true
same_part account_part account_part = true
same_part binding_part binding_part = true
same_part job_part job_part = true
same_part _ _ = false

abbrev pub Object : Part → Type 0
Object namespace_part = ObjectMeta
Object account_part = ObjectMeta
Object binding_part = ClusterRoleBinding
Object job_part = Job

-- The service account and the job are created in the namespace.
abbrev pub is_namespaced : Part → Bool
is_namespaced namespace_part = false
is_namespaced account_part = true
is_namespaced binding_part = false
is_namespaced job_part = true

same_part-eq : (p q : Part) → same_part p q ≡ true → p ≡ q
same_part-eq p q h = ground arith

module _ (w : World) (clientset : w.remote.Clientset) (bundle : AppBundle) where
  abbrev pub get_part : (p : Part) → Call w.State (Object p)
  get_part namespace_part =
      w.remote.namespaces.get clientset (record { namespace = ""; name = cma_install_namespace })
  get_part account_part =
      w.remote.service_accounts.get clientset
        (record { namespace = cma_install_namespace; name = cma_install_service_account })
  get_part binding_part =
      w.remote.cluster_role_bindings.get clientset
        (record { namespace = ""; name = cma_install_service_account })
  get_part job_part =
      w.remote.jobs.get clientset
        (record { namespace = cma_install_namespace; name = job_name bundle })

  abbrev pub create_part : (p : Part) → Call w.State (Object p)
  create_part namespace_part = w.remote.namespaces.create clientset "" install_namespace
  create_part account_part =
      w.remote.service_accounts.create clientset cma_install_namespace service_account
  create_part binding_part = w.remote.cluster_role_bindings.create clientset "" role_binding
  create_part job_part = w.remote.jobs.create clientset cma_install_namespace (install_job bundle)

  -- What the managed cluster promises: it answers a read with what it has, accepts an object that is
  -- missing and keeps it, where the namespace of the object is there.
  pub record PartStore : Type 0 where
    pub has : w.State → Part → Bool
    pub get_there :
        (p : Part) (s : w.State) → has s p ≡ true → (x : Object p) × (get_part p s ≡ (ok x, s))
    pub get_missing :
        (p : Part) (s : w.State)
        → has s p ≡ false
        → (e : Err) × (get_part p s ≡ (err e, s)) × (is_not_found e ≡ true)
    pub create_new :
        (p : Part) (s : w.State)
        → has s p ≡ false
        → (is_namespaced p ≡ true → has s namespace_part ≡ true)
        → (x : Object p) × (t : w.State) × (create_part p s ≡ (ok x, t))
          × ((q : Part) → has t q ≡ (same_part p q || has s q))

  module _ (parts : PartStore) where
    ensure_part : Part → Exec w.State (Unit {0})
    ensure_part p = ensure (get_part p) (create_part p)

    ensure_part-there :
        (p : Part) (s : w.State) → parts.has s p ≡ true → ensure_part p s ≡ (done tt, s)
    unfolding ensure_part
    ensure_part-there p s h = let (x, g) = parts.get_there p s h in rw g refl

    same_part-has :
        (p q : Part) (s : w.State)
        → parts.has s p ≡ true
        → parts.has s q ≡ (same_part p q || parts.has s q)
    same_part-has p q s h = ground (arith, same_part-eq p q, h)

    ensure_part-has :
        (p : Part) (s : w.State)
        → (is_namespaced p ≡ true → parts.has s namespace_part ≡ true)
        → (t : w.State) × (ensure_part p s ≡ (done tt, t))
          × ((q : Part) → parts.has t q ≡ (same_part p q || parts.has s q))
    unfolding ensure_part
    ensure_part-has p s placed = elim (Bool-cases (parts.has s p)) [
      | inl h ↦ (s, ensure_part-there p s h, λ q. same_part-has p q s h)
      | inr h ↦
          let (e, g, n) = parts.get_missing p s h in
          let (x, t, c, k) = parts.create_new p s h placed in (t, rw (g, n, c) refl, k)
    ]

    -- The four steps of `install`, from a state to the state after them.
    install_lem :
        (s s₁ s₂ s₃ s₄ : w.State)
        → ensure_part namespace_part s ≡ (done tt, s₁)
        → ensure_part account_part s₁ ≡ (done tt, s₂)
        → ensure_part binding_part s₂ ≡ (done tt, s₃)
        → ensure_part job_part s₃ ≡ (done tt, s₄)
        → install w clientset bundle s ≡ (done tt, s₄)
    unfolding install ensure_part create_namespace create_service_account
        create_cluster_role_binding create_install_job
    install_lem s s₁ s₂ s₃ s₄ a b c d = rw (a, b, c, d) refl

    abbrev Adds : Part → w.State → w.State → Type 0
    Adds p s t = (q : Part) → parts.has t q ≡ (same_part p q || parts.has s q)

    all_there :
        (s s₁ s₂ s₃ s₄ : w.State)
        → Adds namespace_part s s₁
        → Adds account_part s₁ s₂
        → Adds binding_part s₂ s₃
        → Adds job_part s₃ s₄
        → (p : Part) → parts.has s₄ p ≡ true
    all_there s s₁ s₂ s₃ s₄ a b c d namespace_part =
        rw (d namespace_part, c namespace_part, b namespace_part, a namespace_part) refl
    all_there s s₁ s₂ s₃ s₄ a b c d account_part =
        rw (d account_part, c account_part, b account_part) refl
    all_there s s₁ s₂ s₃ s₄ a b c d binding_part = rw (d binding_part, c binding_part) refl
    all_there s s₁ s₂ s₃ s₄ a b c d job_part = rw (d job_part) refl

    install-there :
        (t : w.State)
        → ((p : Part) → parts.has t p ≡ true)
        → install w clientset bundle t ≡ (done tt, t)
    install-there t h =
        install_lem t t t t t (ensure_part-there namespace_part t (h namespace_part))
          (ensure_part-there account_part t (h account_part))
          (ensure_part-there binding_part t (h binding_part))
          (ensure_part-there job_part t (h job_part))

    -- Whatever of the four objects is missing in a managed cluster that keeps its promises, where
    -- nothing is taken into a namespace that is not there, `install` succeeds, all four are there
    -- afterwards, and a second `install` succeeds as well and changes nothing.
    pub install-again :
        (s : w.State)
        → (t : w.State) × (install w clientset bundle s ≡ (done tt, t))
          × ((p : Part) → parts.has t p ≡ true)
          × (install w clientset bundle t ≡ (done tt, t))
    install-again s =
        let (s₁, a, h₁) = ensure_part-has namespace_part s (λ n. ground arith) in
        let (s₂, b, h₂) = ensure_part-has account_part s₁ (λ n. h₁ namespace_part) in
        let (s₃, c, h₃) = ensure_part-has binding_part s₂ (λ n. ground arith) in
        let (s₄, d, h₄) =
          ensure_part-has job_part s₃
            (λ n. rw (h₃ namespace_part, h₂ namespace_part, h₁ namespace_part) refl) in
        let there = all_there s s₁ s₂ s₃ s₄ h₁ h₂ h₃ h₄ in
        (s₄, install_lem s s₁ s₂ s₃ s₄ a b c d, there, install-there s₄ there)
