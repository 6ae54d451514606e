-- ===== src/Cert/Issue/Kept.antt =====
-- What `NewCABundle` asks of the outside world keeps any property of it that the calls keep which read
-- the clock, read random numbers and sign.
use cma_ssh.Prelude.{ℕ, String, true, false, List, [], ◌∷◌, arith}
use cma_ssh.Prelude.Go.{Exec, call, wrap, return, ◌>>=◌}
use cma_ssh.Prelude.Go.Kept.{KeptBy, KeptBy-bind}
use cma_ssh.World.{World}
use cma_ssh.World.Crypto.{Template}
use cma_ssh.Cert.Issue.{
  Issued, from_ca_template, from_cert_template, issue_root, issue_ca, issue_k8s, issue_client,
  new_ca_bundle, serial_number_limit, reparse, new_key,
}

pub record Signing (w : World) (I : w.State → Type 0) : Type 0 where
  pub now : KeptBy I w.host.now
  pub rand_int : (limit : ℕ) → KeptBy I (w.crypto.rand_int limit)
  pub generate_key : (bits : ℕ) → KeptBy I (w.crypto.generate_key bits)
  pub create_certificate :
      (template parent : w.crypto.Certificate) (public : w.crypto.PublicKey)
      (key : w.crypto.PrivateKey)
      → KeptBy I (w.crypto.create_certificate template parent public key)

module _ (w : World) (I : w.State → Type 0) (signing : Signing w I) where
  from_ca_template-KeptBy : (common_name : String) → KeptBy I (from_ca_template w common_name)
  unfolding from_ca_template
  from_ca_template-KeptBy common_name s i =
      ground (arith, signing.rand_int serial_number_limit (w.host.now s).1 (signing.now s i))

  from_cert_template-KeptBy :
      (cn : String) (o : List String) → KeptBy I (from_cert_template w cn o [] false true)
  unfolding from_cert_template
  from_cert_template-KeptBy cn o s i =
      ground (arith, signing.rand_int serial_number_limit (w.host.now s).1 (signing.now s i))

  -- A template, a key, and the bytes that a parent signs.
  signed-KeptBy :
      {A : Type 0} (m : Exec w.State Template) (no_key no_der : String)
      (parent : Template → w.crypto.Certificate)
      (signer : w.crypto.PrivateKey → w.crypto.PrivateKey)
      (f : Template → w.crypto.PrivateKey → String → Exec w.State A)
      → KeptBy I m
      → ((template : Template) (key : w.crypto.PrivateKey) (der : String)
          → KeptBy I (f template key der))
      → KeptBy I (
          m >>= λ template. new_key w no_key >>= λ key.
          wrap no_der (
            call (
              w.crypto.create_certificate
                (w.crypto.from_template template)
                (parent template)
                (w.crypto.public key)
                (signer key)))
          >>= f template key)
  signed-KeptBy m no_key no_der parent signer f h k = KeptBy-bind I m _ h (λ template.
      KeptBy-bind I (new_key w no_key) _ (signing.generate_key 2048) (λ key.
        KeptBy-bind I
          (wrap no_der (
            call (
              w.crypto.create_certificate (w.crypto.from_template template) (parent template)
                (w.crypto.public key) (signer key))))
          (f template key)
          (signing.create_certificate (w.crypto.from_template template) (parent template)
            (w.crypto.public key) (signer key))
          (k template key)))

  reparsed-KeptBy :
      {A : Type 0} (text der : String) (f : w.crypto.Certificate → A)
      → KeptBy I (reparse w text der >>= λ certificate. return (f certificate))
  reparsed-KeptBy text der f =
      KeptBy-bind I (reparse w text der) (λ certificate. return (f certificate)) (λ s i. i)
        (λ certificate s i. i)

  issue_root-KeptBy : KeptBy I (issue_root w)
  unfolding issue_root
  issue_root-KeptBy =
      signed-KeptBy (wrap "could not generate root ca" (from_ca_template w "samsung-cnct")) _ _
        w.crypto.from_template (λ key. key) _ (from_ca_template-KeptBy "samsung-cnct")
        (λ template key der. reparsed-KeptBy _ der _)

  issue_ca-KeptBy :
      (name no_template no_key no_der : String) (root : Issued w)
      → KeptBy I (issue_ca w name no_template no_key no_der root)
  unfolding issue_ca
  issue_ca-KeptBy name no_template no_key no_der root =
      signed-KeptBy (wrap no_template (from_ca_template w name)) _ _ (λ template. root.certificate)
        (λ key. root.key) _ (from_ca_template-KeptBy name) (λ template key der s i. i)

  issue_k8s-KeptBy : (root : Issued w) → KeptBy I (issue_k8s w root)
  unfolding issue_k8s
  issue_k8s-KeptBy root =
      KeptBy-bind I (issue_ca w _ _ _ _ root) _ (issue_ca-KeptBy _ _ _ _ root)
        (λ issued. reparsed-KeptBy _ issued.der _)

  issue_client-KeptBy : (k8s : Issued w) → KeptBy I (issue_client w k8s)
  unfolding issue_client
  issue_client-KeptBy k8s =
      signed-KeptBy
        (wrap "could not create kubeconfig client cert"
          (from_cert_template w "kubernetes-admin" ("system:masters" ∷ []) [] false true))
        _ _ (λ template. k8s.certificate) (λ key. k8s.key) _
        (from_cert_template-KeptBy "kubernetes-admin" ("system:masters" ∷ []))
        (λ template key der s i. i)

  pub new_ca_bundle-KeptBy : KeptBy I (new_ca_bundle w)
  unfolding new_ca_bundle
  new_ca_bundle-KeptBy = KeptBy-bind I (issue_root w) _ issue_root-KeptBy (λ root.
      KeptBy-bind I (issue_k8s w root) _ (issue_k8s-KeptBy root) (λ k8s.
        KeptBy-bind I (issue_ca w _ _ _ _ root) _ (issue_ca-KeptBy _ _ _ _ root) (λ etcd.
          KeptBy-bind I (issue_ca w _ _ _ _ root) _ (issue_ca-KeptBy _ _ _ _ root) (λ front_proxy.
            KeptBy-bind I (issue_client w k8s) _ (issue_client-KeptBy k8s) (λ client s i. i)))))
