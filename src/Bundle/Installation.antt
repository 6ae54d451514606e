-- ===== src/Bundle/Installation.antt =====
-- When a bundle is marked as installed, and when it is left alone.
use cma_ssh.Prelude.{
  String, ◌≡◌, refl, Bool, true, false, Option, none, some, List, [], ◌∷◌, if◌then◌else◌, ◌⊎◌, inl,
  inr, arith,
}
use cma_ssh.Prelude.Go.{
  Outcome, done, fail, panic, return, call, Result, ok, err, is_not_found, continue, lift,
}
use cma_ssh.Prelude.Go.Ends.{Final, Final-map, wrap-then}
use cma_ssh.Api.Meta.{ObjectKey, Secret, ReconcileResult, finished}
use cma_ssh.Api.Cluster.{CnctCluster}
use cma_ssh.Api.AppBundle.{AppBundle}
use cma_ssh.World.{World}
use cma_ssh.Machine.Create.{private_key, kubeconfig_data}
use cma_ssh.Machine.Ready.{ready_clientset}
use cma_ssh.Machine.Ready.Kubelet.{ready_clientset-ComesBack}
use cma_ssh.Bundle.{
  after, marked_installed, is_running, is_installed, install, install_and_mark, install_in,
  config_of, with_config, with_clusters, reconcile_bundle, reconcile,
}
use cma_ssh.Bundle.Objects.{Installed, install-Installed}

abbrev pub at_rest : Result AppBundle → Bool
at_rest (ok bundle) = is_installed bundle.status.phase
at_rest (err e) = is_not_found e

module _ (w : World) where
  -- The bundle's program is installed in the managed cluster and the bundle is marked: the first
  -- cluster of its namespace is running, the kubeconfig of its secret gave a client, the four objects
  -- were there or were created, and the mark was written last.
  abbrev pub InstalledIn : AppBundle → CnctCluster → w.State → w.State → Type 0
  InstalledIn bundle cluster s t =
      (secret : Secret) × (config_data : String) × (clientset : w.remote.Clientset)
      × (updated : AppBundle) × (s₁ s₂ s₃ : w.State) × (w.kube.secrets.get
            (private_key cluster.metadata.namespace) s
          ≡ (ok secret, s₁))
      × (kubeconfig_data secret ≡ some config_data)
      × (ready_clientset w config_data s₁ ≡ (done clientset, s₂))
      × Installed w clientset bundle s₂ s₃
      × (w.kube.app_bundles.update (marked_installed bundle) s₃ ≡ (ok updated, t))

  -- What an answer without an error means for a bundle that is not yet installed.
  abbrev pub Progress : AppBundle → w.State → List CnctCluster → ReconcileResult → w.State → Type 0
  Progress bundle s [] result t = (result ≡ after 300000) × (t ≡ s)
  Progress bundle s (cluster ∷ _) result t =
      ((is_running cluster.status.phase ≡ false) × (result ≡ after 10000) × (t ≡ s))
      ⊎ ((is_running cluster.status.phase ≡ true)
          × (result ≡ finished)
          × InstalledIn bundle cluster s t)

  abbrev Marked : AppBundle → w.remote.Clientset → w.State → ReconcileResult → w.State → Type 0
  Marked bundle clientset s result t =
      (updated : AppBundle) × (s₁ : w.State) × (result ≡ finished)
      × Installed w clientset bundle s s₁
      × (w.kube.app_bundles.update (marked_installed bundle) s₁ ≡ (ok updated, t))

  updated-Marked :
      (bundle : AppBundle) (s : w.State) (r : Result AppBundle) (t : w.State)
      → w.kube.app_bundles.update (marked_installed bundle) s ≡ (r, t)
      → Final ⊥
          (λ updated u. w.kube.app_bundles.update (marked_installed bundle) s ≡ (ok updated, u))
          (lift r, t)
  updated-Marked bundle s (ok updated) t h = h
  updated-Marked bundle s (err e) t h = tt

  install_and_mark-Marked :
      (bundle : AppBundle) (clientset : w.remote.Clientset) (s : w.State)
      → Final ⊥ (Marked bundle clientset s) (install_and_mark w bundle clientset s)
  unfolding install_and_mark
  install_and_mark-Marked bundle clientset s =
      wrap-then ⊥ (λ _ t. Installed w clientset bundle s t) (Marked bundle clientset s) _
        (install w clientset bundle) _ s (install-Installed w clientset bundle s)
        (λ _ s₁ a.
          wrap-then ⊥
            (λ updated t. w.kube.app_bundles.update (marked_installed bundle) s₁ ≡ (ok updated, t))
            (Marked bundle clientset s) _
            (call (w.kube.app_bundles.update (marked_installed bundle))) _ s₁
            (updated-Marked bundle s₁ _ _ refl) (λ updated t b. (updated, s₁, refl, a, b)))

  abbrev Given : AppBundle → CnctCluster → w.State → ReconcileResult → w.State → Type 0
  Given bundle cluster s result t = (result ≡ finished) × InstalledIn bundle cluster s t

  -- The client that the kubeconfig gives.
  client-Given :
      (bundle : AppBundle) (cluster : CnctCluster) (secret : Secret) (config_data : String)
      (s s₁ : w.State) (r : Outcome w.remote.Clientset) (s₂ : w.State)
      → w.kube.secrets.get (private_key cluster.metadata.namespace) s ≡ (ok secret, s₁)
      → kubeconfig_data secret ≡ some config_data
      → ready_clientset w config_data s₁ ≡ (r, s₂)
      → Final ⊥ (λ _ _. Unit {0}) (r, s₂)
      → Final ⊥ (Given bundle cluster s) (continue r (install_and_mark w bundle) s₂)
  client-Given bundle cluster secret config_data s s₁ (done clientset) s₂ g d c h =
      Final-map ⊥ (Marked bundle clientset s₂) (Given bundle cluster s) _
        (install_and_mark-Marked bundle clientset s₂)
        (λ result t (updated, s₃, e, i, u).
          (e, (secret, config_data, clientset, updated, s₁, s₂, s₃, g, d, c, i, u)))
  client-Given bundle cluster secret config_data s s₁ (fail e) s₂ g d c h = tt
  client-Given bundle cluster secret config_data s s₁ (panic x) s₂ g d c h = h

  config-Given :
      (bundle : AppBundle) (cluster : CnctCluster) (secret : Secret) (s s₁ : w.State)
      (found : Option String)
      → w.kube.secrets.get (private_key cluster.metadata.namespace) s ≡ (ok secret, s₁)
      → kubeconfig_data secret ≡ found
      → Final ⊥ (Given bundle cluster s) (with_config w bundle found s₁)
  config-Given bundle cluster secret s s₁ none g d = tt
  config-Given bundle cluster secret s s₁ (some config_data) g d =
      client-Given bundle cluster secret config_data s s₁ _ _ g d refl
        (ready_clientset-ComesBack w config_data s₁)

  secret-Given :
      (bundle : AppBundle) (cluster : CnctCluster) (s : w.State) (r : Result Secret) (s₁ : w.State)
      → w.kube.secrets.get (private_key cluster.metadata.namespace) s ≡ (r, s₁)
      → Final ⊥ (Given bundle cluster s) (with_config w bundle (config_of r) s₁)
  secret-Given bundle cluster s (ok secret) s₁ g = config-Given bundle cluster secret s s₁ _ g refl
  secret-Given bundle cluster s (err e) s₁ g = tt

  install_in-Given :
      (cluster : CnctCluster) (bundle : AppBundle) (s : w.State)
      → Final ⊥ (Given bundle cluster s) (install_in w cluster bundle s)
  unfolding install_in
  install_in-Given cluster bundle s = secret-Given bundle cluster s _ _ refl

  running-Progress :
      (bundle : AppBundle) (cluster : CnctCluster) (clusters : List CnctCluster) (s : w.State)
      (b : Bool)
      → is_running cluster.status.phase ≡ b
      → Final ⊥
          (Progress bundle s (cluster ∷ clusters))
          ((if b then install_in w cluster bundle else return (after 10000)) s)
  running-Progress bundle cluster clusters s true e =
      Final-map ⊥ (Given bundle cluster s) (Progress bundle s (cluster ∷ clusters)) _
        (install_in-Given cluster bundle s) (λ result t (f, i). inr (e, f, i))
  running-Progress bundle cluster clusters s false e = inl (e, refl, refl)

  with_clusters-Progress :
      (bundle : AppBundle) (clusters : List CnctCluster) (s : w.State)
      → Final ⊥ (Progress bundle s clusters) (with_clusters w bundle clusters s)
  with_clusters-Progress bundle [] s = (refl, refl)
  with_clusters-Progress bundle (cluster ∷ clusters) s =
      running-Progress bundle cluster clusters s _ refl

  reconcile_lem :
      (request : ObjectKey) (bundle : AppBundle) (clusters : List CnctCluster) (s s₁ s₂ : w.State)
      → w.kube.app_bundles.get request s ≡ (ok bundle, s₁)
      → is_installed bundle.status.phase ≡ false
      → w.kube.clusters.list bundle.metadata.namespace s₁ ≡ (ok clusters, s₂)
      → reconcile w request s ≡ with_clusters w bundle clusters s₂
  unfolding reconcile reconcile_bundle
  reconcile_lem request bundle clusters s s₁ s₂ g n l = ground arith

  -- A bundle that was read and is not installed, in a namespace whose clusters were listed:
  -- `Reconcile` never panics, whatever the two API servers answer, and where it ends without an error
  -- it asks to come back in five minutes because there is no cluster, or in ten seconds because the
  -- first cluster is not running, having called nothing else; or all four objects of the installation
  -- are there, the mark was written after them, and it does not ask to come back.
  pub reconcile-Progress :
      (request : ObjectKey) (bundle : AppBundle) (clusters : List CnctCluster) (s s₁ s₂ : w.State)
      → w.kube.app_bundles.get request s ≡ (ok bundle, s₁)
      → is_installed bundle.status.phase ≡ false
      → w.kube.clusters.list bundle.metadata.namespace s₁ ≡ (ok clusters, s₂)
      → Final ⊥ (Progress bundle s₂ clusters) (reconcile w request s)
  reconcile-Progress request bundle clusters s s₁ s₂ g n l =
      rw (reconcile_lem request bundle clusters s s₁ s₂ g n l)
        (with_clusters-Progress bundle clusters s₂)

  -- A bundle that is installed already, or is gone, is left alone: nothing is called after the read.
  pub reconcile-at_rest :
      (request : ObjectKey) (r : Result AppBundle) (s s₁ : w.State)
      → w.kube.app_bundles.get request s ≡ (r, s₁)
      → at_rest r ≡ true
      → reconcile w request s ≡ (done finished, s₁)
  unfolding reconcile reconcile_bundle
  reconcile-at_rest request r s s₁ g a = ground arith
