-- ===== src/Cert/Issue/Trust.antt =====
-- What it means for the certificates of a bundle to be a chain, and how the calls end that make them.
use cma_ssh.Prelude.{ℕ, String, ◌≡◌, refl, Bool, true, Option, some, List, arith}
use cma_ssh.Prelude.Go.{Call, ok, err, Result, lift, call}
use cma_ssh.Prelude.Go.Ends.{Final, ComesBack}
use cma_ssh.World.{World}
use cma_ssh.Cert.{CaBundle}
use cma_ssh.Cert.Issue.{Issued, from_ca_template, from_cert_template, certificate_pem, key_pem}

module _ {S A : Type 0} where
  called-Final :
      (f : Call S A) (s : S) (r : Result A) (t : S)
      → f s ≡ (r, t)
      → Final ⊥ (λ a u. f s ≡ (ok a, u)) (lift r, t)
  called-Final f s (ok a) t h = h
  called-Final f s (err e) t h = tt

  pub call-Final : (f : Call S A) (s : S) → Final ⊥ (λ a t. f s ≡ (ok a, t)) (call f s)
  call-Final f s = called-Final f s _ _ refl

  pub pure-Final : (r : Result A) (s : S) → Final ⊥ (λ a t. (r ≡ ok a) × (t ≡ s)) (lift r, s)
  pure-Final (ok a) s = (refl, refl)
  pure-Final (err e) s = tt

-- What can be read off certificates, and how a signature is checked.
pub record Reading (w : World) : Type 0 where
  pub subject : w.crypto.Certificate → String
  pub key_in : String → Option w.crypto.PublicKey
  pub subject_in : String → String
  pub issuer_in : String → String
  pub verifies : w.crypto.PublicKey → String → Bool

module _ (w : World) where
  pub from_ca_template-ComesBack :
      (name : String) (s : w.State) → ComesBack (from_ca_template w name s)
  unfolding from_ca_template
  from_ca_template-ComesBack name s = ground arith

  pub from_cert_template-ComesBack :
      (s : w.State) (cn : String) (o hosts : List String) (server client : Bool)
      → ComesBack (from_cert_template w cn o hosts server client s)
  unfolding from_cert_template
  from_cert_template-ComesBack s cn o hosts server client = ground arith

  pub generate_key-ComesBack : (n : ℕ) (s : w.State) → ComesBack (call (w.crypto.generate_key n) s)
  generate_key-ComesBack n s = ground arith

module _ (w : World) (x : Reading w) where
  -- The certificate is for the key.
  abbrev pub Holds : Issued w → Type 0
  Holds issued = x.key_in issued.der ≡ some (w.crypto.public issued.key)

  -- The parent's certificate has a public key that verifies the signature, and is for the subject
  -- that the certificate names as its issuer.
  abbrev pub SignedBy : Issued w → Issued w → Type 0
  SignedBy issued parent =
      (key : w.crypto.PublicKey) × (x.key_in parent.der ≡ some key)
      × (x.verifies key issued.der ≡ true)
      × (x.issuer_in issued.der ≡ x.subject_in parent.der)

  -- The certificate beside the bytes is theirs.
  abbrev pub Parsed : Issued w → Type 0
  Parsed issued = x.subject issued.certificate ≡ x.subject_in issued.der

  abbrev pub Usable : Issued w → Issued w → Type 0
  Usable parent issued = Holds issued × SignedBy issued parent × Parsed issued

  -- The bundle is made of five certificates and the keys that they are for: the root's, signed by
  -- itself, those of Kubernetes, etcd and the front proxy, signed by the root, and the
  -- administrator's, signed by Kubernetes' authority.
  abbrev pub Chained : CaBundle → Type 0
  Chained bundle =
      (root k8s etcd front_proxy client : Issued w) × (bundle.root ≡ certificate_pem w root)
      × (bundle.root_key ≡ key_pem w root)
      × (bundle.k8s ≡ certificate_pem w k8s)
      × (bundle.k8s_key ≡ key_pem w k8s)
      × (bundle.etcd ≡ certificate_pem w etcd)
      × (bundle.etcd_key ≡ key_pem w etcd)
      × (bundle.front_proxy ≡ certificate_pem w front_proxy)
      × (bundle.front_proxy_key ≡ key_pem w front_proxy)
      × (bundle.k8s_client ≡ certificate_pem w client)
      × (bundle.k8s_client_key ≡ key_pem w client)
      × (Holds root × SignedBy root root)
      × (Holds k8s × SignedBy k8s root)
      × (Holds etcd × SignedBy etcd root)
      × (Holds front_proxy × SignedBy front_proxy root)
      × (Holds client × SignedBy client k8s)
