-- ===== src/Cluster/Handover/Trust.antt =====
-- What a machine finds in the secret of its cluster.
use cma_ssh.Prelude.{String, ◌≡◌, subst, sym, true, none, some}
use cma_ssh.Prelude.Go.{ok, ◌>>=◌}
use cma_ssh.Prelude.Go.Ends.{Final, Final-map, continue-Final}
use cma_ssh.Api.Cluster.{CnctCluster}
use cma_ssh.World.{World}
use cma_ssh.Cert.{CaBundle}
use cma_ssh.Cert.Issue.Trust.{Reading, Chained}
use cma_ssh.Cert.Issue.Chain.{new_ca_bundle-Chained}
use cma_ssh.Cluster.{create_cluster_secrets}
use cma_ssh.Machine.Create.{Creator, get_secret}
use cma_ssh.Cluster.Handover.{
  SecretStore, Stores, Carries, create_cluster_secrets-Stores, get_secret-Carries,
}

module _ (w : World) (x : Reading w) (secrets : SecretStore w) where
  -- The creator has an error, or its secret gives a bundle that is a chain.
  abbrev pub Trusted : Creator w → Type 0
  Trusted c = (bundle : CaBundle) × Chained w x bundle × Carries w secrets bundle c

module _ (w : World) (x : Reading w) (secrets : SecretStore w)
    (creates : (template parent : w.crypto.Certificate)
      → (subject_key : w.crypto.PublicKey) → (key : w.crypto.PrivateKey) → (s t : w.State)
      → (der : String) → w.crypto.create_certificate template parent subject_key key s ≡ (ok der, t)
      → (x.key_in der ≡ some subject_key)
        × (x.verifies (w.crypto.public key) der ≡ true)
        × (x.subject_in der ≡ x.subject template)
        × (x.issuer_in der ≡ x.subject parent))
    (parses : (der : String) (certificate : w.crypto.Certificate)
      → w.crypto.parse_certificate der ≡ ok certificate
      → x.subject certificate ≡ x.subject_in der) where
  -- Let the secrets of a cluster be created, and then the creator of a machine in its namespace, which
  -- has no error, read the secret. Neither panics, and if the first succeeds, the creator gets an
  -- error, or the secret gives it a bundle that is a chain of certificates with their keys. Of the API
  -- server it is used that it keeps what an accepted create sends and answers with what it keeps, and
  -- of crypto/x509 what it says of a certificate that it makes or parses.
  pub get_secret-Trusted :
      (cluster : CnctCluster) (c : Creator w) (s : w.State)
      → c.err ≡ none
      → c.machine.metadata.namespace ≡ cluster.metadata.namespace
      → Final ⊥
          (λ d _. Trusted w x secrets d)
          ((create_cluster_secrets w cluster >>= λ _. get_secret w c) s)
  get_secret-Trusted cluster c s e n =
      continue-Final ⊥
        (λ _ t.
          (bundle : CaBundle) × Chained w x bundle
          × Stores w secrets cluster.metadata.namespace bundle t)
        (λ d _. Trusted w x secrets d) _ _ _
        (create_cluster_secrets-Stores w secrets (Chained w x)
          (new_ca_bundle-Chained w x creates parses) cluster s)
        (λ _ (bundle, h, k).
          Final-map ⊥ (λ d _. Carries w secrets bundle d) (λ d _. Trusted w x secrets d) _
            (get_secret-Carries w secrets c bundle _ e (
              subst (λ ns. Stores w secrets ns bundle (create_cluster_secrets w cluster s).1)
                (sym n) k))
            (λ d _ carried. (bundle, h, carried)))
