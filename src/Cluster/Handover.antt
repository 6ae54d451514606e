-- ===== src/Cluster/Handover.antt =====
-- The certificates on their way from the cluster controller, through the secret of the cluster, to
-- the machine controller: createClusterSecrets of pkg/controller/cluster/cluster_controller.go, and
-- getSecret and createKubeconfig of pkg/controller/machine/create.go.
pub mod Shared
pub mod Trust
use cma_ssh.Prelude.{
  String, ◌<>◌, string_eq, string_discrete, ◌≡◌, refl, sym, subst, ◌⊎◌, inl, inr, true, Option,
  none, some, List, [], ◌∷◌, arith,
}
use cma_ssh.Prelude.Go.{Outcome, Result, ok, err, Err, ◌>>=◌, continue, lift, return, call}
use cma_ssh.Prelude.Go.Ends.{Final, Final-map, continue-Final, call-then}
use cma_ssh.Api.Meta.{StringMap, Secret, find_string, set_string}
use cma_ssh.Api.Meta.Maps.{find_string-set_string}
use cma_ssh.Api.Cluster.{CnctCluster}
use cma_ssh.World.{World}
use cma_ssh.Cert.{CaBundle, ca_bundle_from_map}
use cma_ssh.Cert.Export.{kubeconfig}
use cma_ssh.Cert.RoundTrip.{Holds, ca_bundle_from_map_iff, ca_bundle_from_map-merge_with_map}
use cma_ssh.Cert.Issue.{new_ca_bundle}
use cma_ssh.Cluster.{cluster_secret, create_cluster_secrets}
use cma_ssh.Machine.Create.{Creator, private_key, kubeconfig_key, store, get_secret}
use cma_ssh.Machine.Create.Record.{save_kubeconfig, create_kubeconfig}

-- What the API server keeps of the secret of the cluster in a namespace.
pub record SecretStore (w : World) : Type 0 where
  pub contents : String → w.State → Option (StringMap String)
  pub got :
      (namespace : String) (x : Secret) (s t : w.State)
      → w.kube.secrets.get (private_key namespace) s ≡ (ok x, t)
      → contents namespace s ≡ some x.contents
  pub created :
      (x y : Secret) (s t : w.State)
      → w.kube.secrets.create x s ≡ (ok y, t)
      → x.name ≡ "cluster-private-key"
      → contents x.namespace t ≡ some x.contents
  pub updated :
      (x y : Secret) (s t : w.State)
      → w.kube.secrets.update x s ≡ (ok y, t)
      → x.name ≡ "cluster-private-key"
      → contents x.namespace t ≡ some x.contents

module _ (w : World) (secrets : SecretStore w) where
  -- The secret of the namespace holds the bundle.
  abbrev pub Stores : String → CaBundle → w.State → Type 0
  Stores namespace bundle s =
      (m : StringMap String) × (secrets.contents namespace s ≡ some m)
      × (ca_bundle_from_map m ≡ ok bundle)

  abbrev pub Stopped : Creator w → Type 0
  Stopped c = (e : Err) × (c.err ≡ some e)

  -- An error is set, or the secret that was read gives the bundle.
  abbrev pub Carries : CaBundle → Creator w → Type 0
  Carries bundle c =
      Stopped c ⊎ ((c.err ≡ none) × (ca_bundle_from_map c.secret.contents ≡ ok bundle))

  module _ (P : CaBundle → Type 0)
      (makes : (s : w.State) → Final ⊥ (λ bundle _. P bundle) (new_ca_bundle w s)) where
    pub create_cluster_secrets-Stores :
        (cluster : CnctCluster) (s : w.State)
        → Final ⊥
            (λ _ t. (bundle : CaBundle) × P bundle × Stores cluster.metadata.namespace bundle t)
            (create_cluster_secrets w cluster s)
    unfolding create_cluster_secrets cluster_secret
    create_cluster_secrets-Stores cluster s =
        continue-Final ⊥ (λ bundle _. P bundle)
          (λ _ t. (bundle : CaBundle) × P bundle × Stores cluster.metadata.namespace bundle t) _ _ _
          (makes s)
          (λ bundle p.
            call-then ⊥
              (λ _ t. (bundle : CaBundle) × P bundle × Stores cluster.metadata.namespace bundle t)
              (w.kube.secrets.create (cluster_secret cluster bundle)) _ _
              (λ y t c. (
                bundle,
                p,
                (
                  (cluster_secret cluster bundle).contents,
                  secrets.created (cluster_secret cluster bundle) y _ t c refl,
                  ca_bundle_from_map-merge_with_map bundle [],
                ),
              )))

  stored-Carries :
      (c : Creator w) (bundle : CaBundle) (s : w.State) (r : Result Secret) (t : w.State)
      → c.err ≡ none
      → Stores c.machine.metadata.namespace bundle s
      → w.kube.secrets.get (private_key c.machine.metadata.namespace) s ≡ (r, t)
      → Final ⊥ (λ d _. Carries bundle d) (store w r c (λ x. record c { secret = x }) t)
  stored-Carries c bundle s (ok x) t e (m, h, b) g =
      inr (e, ground (arith, h, b, secrets.got c.machine.metadata.namespace x s t g))
  stored-Carries c bundle s (err x) t e h g = inl (x, refl)

  get_secret_lem :
      (c : Creator w) (s : w.State)
      → c.err ≡ none
      → get_secret w c s ≡ (
          let (r, t) = w.kube.secrets.get (private_key c.machine.metadata.namespace) s in
          store w r c (λ x. record c { secret = x }) t)
  unfolding get_secret
  get_secret_lem c s e = ground arith

  pub get_secret-Carries :
      (c : Creator w) (bundle : CaBundle) (s : w.State)
      → c.err ≡ none
      → Stores c.machine.metadata.namespace bundle s
      → Final ⊥ (λ d _. Carries bundle d) (get_secret w c s)
  get_secret-Carries c bundle s e h =
      subst (Final ⊥ (λ d _. Carries bundle d)) (sym (get_secret_lem c s e))
        (stored-Carries c bundle s _ _ e h refl)
