-- ===== src/Cluster/Services.antt =====
-- When a cluster becomes running.
use cma_ssh.Prelude.{
  String, ◌≡◌, refl, Bool, true, false, Option, none, some, List, [], ◌∷◌, ◌⊎◌, inl, inr,
  if◌then◌else◌,
}
use cma_ssh.Prelude.Go.{
  Outcome, done, fail, panic, Result, ok, err, Err, is_not_found, call, continue, lift, return,
  throw, wrapped,
}
use cma_ssh.Prelude.Go.Ends.{Final, Final-map, wrap-then}
use cma_ssh.Api.Meta.{Secret, ReconcileResult, finished}
use cma_ssh.Api.Phase.{running_cluster}
use cma_ssh.Api.Cluster.{CnctCluster}
use cma_ssh.World.{World}
use cma_ssh.Machine.Create.{private_key, kubeconfig_data}
use cma_ssh.Machine.Ready.{ready_clientset}
use cma_ssh.Machine.Ready.Kubelet.{ready_clientset-ComesBack}
use cma_ssh.Cluster.{with_cluster_phase, with_services, config_of, with_config, check_services}

abbrev in_five_seconds : ReconcileResult
in_five_seconds = record { requeue = false; requeue_after = 5000 }

module _ (w : World) where
  -- What the managed cluster answered: its services were not found, and the controller comes back in
  -- five seconds; or there was one, and the update to the phase Running was accepted last.
  abbrev pub Answered :
      CnctCluster → w.remote.Clientset → w.State → ReconcileResult → w.State → Type 0
  Answered cluster clientset s result t =
      ((e : Err) × (w.remote.list_services clientset s ≡ (err e, t))
        × (is_not_found e ≡ true)
        × (result ≡ in_five_seconds))
      ⊎ ((service : String) × (services : List String) × (updated : CnctCluster) × (s₁ : w.State)
          × (w.remote.list_services clientset s ≡ (ok (service ∷ services), s₁))
          × (w.kube.clusters.update (with_cluster_phase running_cluster cluster) s₁
              ≡ (ok updated, t))
          × (result ≡ finished))

  -- With the client that the kubeconfig of the cluster's secret gives.
  abbrev pub Checked : CnctCluster → w.State → ReconcileResult → w.State → Type 0
  Checked cluster s result t =
      (secret : Secret) × (config_data : String) × (clientset : w.remote.Clientset) × (s₁
        s₂ : w.State)
      × (w.kube.secrets.get (private_key cluster.metadata.namespace) s ≡ (ok secret, s₁))
      × (kubeconfig_data secret ≡ some config_data)
      × (ready_clientset w config_data s₁ ≡ (done clientset, s₂))
      × Answered cluster clientset s₂ result t

  updated-Answered :
      (cluster : CnctCluster) (clientset : w.remote.Clientset) (service : String)
      (services : List String) (s s₁ : w.State)
      → w.remote.list_services clientset s ≡ (ok (service ∷ services), s₁)
      → (r : Result CnctCluster) (t : w.State)
      → w.kube.clusters.update (with_cluster_phase running_cluster cluster) s₁ ≡ (r, t)
      → Final ⊥
          (λ updated u.
            w.kube.clusters.update (with_cluster_phase running_cluster cluster) s₁
            ≡ (ok updated, u))
          (lift r, t)
  updated-Answered cluster clientset service services s s₁ l (ok updated) t u = u
  updated-Answered cluster clientset service services s s₁ l (err e) t u = tt

  refused-Answered :
      (cluster : CnctCluster) (clientset : w.remote.Clientset) (e : Err) (s t : w.State) (b : Bool)
      → w.remote.list_services clientset s ≡ (err e, t)
      → is_not_found e ≡ b
      → Final ⊥
          (Answered cluster clientset s)
          ((if b then return in_five_seconds else throw (wrapped "could not get service list" e)) t)
  refused-Answered cluster clientset e s t true l n = inl (e, l, n, refl)
  refused-Answered cluster clientset e s t false l n = tt

  with_services-Answered :
      (cluster : CnctCluster) (clientset : w.remote.Clientset) (s : w.State)
      (r : Result (List String)) (t : w.State)
      → w.remote.list_services clientset s ≡ (r, t)
      → Final ⊥ (Answered cluster clientset s) (with_services w cluster r t)
  with_services-Answered cluster clientset s (err e) t l =
      refused-Answered cluster clientset e s t _ l refl
  with_services-Answered cluster clientset s (ok []) t l = tt
  with_services-Answered cluster clientset s (ok (service ∷ services)) t l =
      wrap-then ⊥
        (λ updated u.
          w.kube.clusters.update (with_cluster_phase running_cluster cluster) t ≡ (ok updated, u))
        (Answered cluster clientset s) _
        (call (w.kube.clusters.update (with_cluster_phase running_cluster cluster))) _ t
        (updated-Answered cluster clientset service services s t l _ _ refl)
        (λ updated u h. inr (service, services, updated, t, l, h, refl))

  client-Checked :
      (cluster : CnctCluster) (secret : Secret) (config_data : String) (s s₁ : w.State)
      (r : Outcome w.remote.Clientset) (s₂ : w.State)
      → w.kube.secrets.get (private_key cluster.metadata.namespace) s ≡ (ok secret, s₁)
      → kubeconfig_data secret ≡ some config_data
      → ready_clientset w config_data s₁ ≡ (r, s₂)
      → Final ⊥ (λ _ _. Unit {0}) (r, s₂)
      → Final ⊥ (Checked cluster s) (
          continue r
            (λ clientset t.
              let (l, u) = w.remote.list_services clientset t in with_services w cluster l u)
            s₂)
  client-Checked cluster secret config_data s s₁ (done clientset) s₂ g d c h =
      Final-map ⊥ (Answered cluster clientset s₂) (Checked cluster s) _
        (with_services-Answered cluster clientset s₂ _ _ refl)
        (λ result t a. (secret, config_data, clientset, s₁, s₂, g, d, c, a))
  client-Checked cluster secret config_data s s₁ (fail e) s₂ g d c h = tt
  client-Checked cluster secret config_data s s₁ (panic x) s₂ g d c h = h

  config-Checked :
      (cluster : CnctCluster) (secret : Secret) (s s₁ : w.State) (found : Option String)
      → w.kube.secrets.get (private_key cluster.metadata.namespace) s ≡ (ok secret, s₁)
      → kubeconfig_data secret ≡ found
      → Final ⊥ (Checked cluster s) (with_config w cluster found s₁)
  config-Checked cluster secret s s₁ none g d = tt
  config-Checked cluster secret s s₁ (some config_data) g d =
      client-Checked cluster secret config_data s s₁ _ _ g d refl
        (ready_clientset-ComesBack w config_data s₁)

  secret-Checked :
      (cluster : CnctCluster) (s : w.State) (r : Result Secret) (s₁ : w.State)
      → w.kube.secrets.get (private_key cluster.metadata.namespace) s ≡ (r, s₁)
      → Final ⊥ (Checked cluster s) (with_config w cluster (config_of w r) s₁)
  secret-Checked cluster s (ok secret) s₁ g = config-Checked cluster secret s s₁ _ g refl
  secret-Checked cluster s (err e) s₁ g = tt

  -- The case of the phase Reconciling never panics, and where it ends without an error, the kubeconfig
  -- of the cluster's secret gave a client, and either the managed cluster did not find its services
  -- and the controller comes back in five seconds, or it has a service, and after that the update of
  -- the cluster to the phase Running was accepted.
  pub check_services-Checked :
      (cluster : CnctCluster) (s : w.State)
      → Final ⊥ (Checked cluster s) (check_services w cluster s)
  unfolding check_services
  check_services-Checked cluster s = secret-Checked cluster s _ _ refl
