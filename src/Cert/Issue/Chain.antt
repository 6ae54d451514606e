-- ===== src/Cert/Issue/Chain.antt =====
-- The chain of trust in a new bundle.
use cma_ssh.Prelude.{String, ◌≡◌, refl, true, false, [], ◌∷◌, some, sym, ◌∙◌}
use cma_ssh.Prelude.Go.{ok, wrap, call, ◌>>=◌, return}
use cma_ssh.Prelude.Go.Ends.{Final, Final-map, Final-wrap, continue-Final, wrap-then}
use cma_ssh.World.{World}
use cma_ssh.Cert.Issue.{
  Issued, from_ca_template, from_cert_template, rsa_bits, reparse, issue_root, issue_ca, issue_k8s,
  issue_client, new_ca_bundle,
}
use cma_ssh.Cert.Issue.Trust.{
  call-Final, pure-Final, Reading, from_ca_template-ComesBack, from_cert_template-ComesBack,
  generate_key-ComesBack, Holds, Parsed, Usable, Chained,
}

module _ (w : World) (x : Reading w)
    (creates : (template parent : w.crypto.Certificate)
      → (subject_key : w.crypto.PublicKey) → (key : w.crypto.PrivateKey) → (s t : w.State)
      → (der : String) → w.crypto.create_certificate template parent subject_key key s ≡ (ok der, t)
      → (x.key_in der ≡ some subject_key)
        × (x.verifies (w.crypto.public key) der ≡ true)
        × (x.subject_in der ≡ x.subject template)
        × (x.issuer_in der ≡ x.subject parent))
    (parses : (der : String) (certificate : w.crypto.Certificate)
      → w.crypto.parse_certificate der ≡ ok certificate
      → x.subject certificate ≡ x.subject_in der) where
  reparse-Final :
      (text der : String) (s : w.State)
      → Final ⊥ (λ c _. x.subject c ≡ x.subject_in der) (reparse w text der s)
  reparse-Final text der s =
      Final-wrap ⊥ (λ c _. x.subject c ≡ x.subject_in der) _ _ _
        (Final-map ⊥ _ (λ c _. x.subject c ≡ x.subject_in der) _
          (pure-Final (w.crypto.parse_certificate der) s) (λ c _ (e, _). parses der c e))

  made-Usable :
      (template : w.crypto.Certificate) (parent : Issued w) (key : w.crypto.PrivateKey)
      (s t : w.State) (der : String)
      → Holds w x parent
      → Parsed w x parent
      → w.crypto.create_certificate template parent.certificate (w.crypto.public key) parent.key s
        ≡ (ok der, t)
      → Usable w x parent (record { certificate = template; key = key; der = der })
  made-Usable template parent key s t der h p c =
      let (k, v, n, i) = creates _ _ _ _ _ _ _ c in
      (k, (w.crypto.public parent.key, h, v, i ∙ p), sym n)

  -- What comes after the template, for the authorities and the administrator alike.
  signed-Usable :
      (no_key no_der : String) (template : w.crypto.Certificate) (parent : Issued w) (s : w.State)
      → Holds w x parent
      → Parsed w x parent
      → Final ⊥
          (λ issued _. Usable w x parent issued)
          ((wrap no_key (call (w.crypto.generate_key rsa_bits)) >>= λ key.
              wrap no_der (
                call (
                  w.crypto.create_certificate template parent.certificate
                    (w.crypto.public key)
                    parent.key))
              >>= λ der. return (record { certificate = template; key = key; der = der }))
            s)
  signed-Usable no_key no_der template parent s h p =
      wrap-then ⊥ (λ _ _. Unit) (λ issued _. Usable w x parent issued) no_key
        (call (w.crypto.generate_key rsa_bits)) _ s (generate_key-ComesBack w rsa_bits s)
        (λ key s₁ _.
          let create =
            w.crypto.create_certificate template parent.certificate (w.crypto.public key)
              parent.key in
          wrap-then ⊥ (λ der t. create s₁ ≡ (ok der, t)) (λ issued _. Usable w x parent issued)
            no_der (call create) _ s₁ (call-Final create s₁)
            (λ der s₂ c. made-Usable template parent key s₁ s₂ der h p c))

  issue_ca-Usable :
      (name no_template no_key no_der : String) (root : Issued w) (s : w.State)
      → Holds w x root
      → Parsed w x root
      → Final ⊥
          (λ issued _. Usable w x root issued)
          (issue_ca w name no_template no_key no_der root s)
  unfolding issue_ca
  issue_ca-Usable name no_template no_key no_der root s h p =
      wrap-then ⊥ (λ _ _. Unit) (λ issued _. Usable w x root issued) no_template
        (from_ca_template w name) _ s (from_ca_template-ComesBack w name s)
        (λ template s₁ _. signed-Usable no_key no_der (w.crypto.from_template template) root s₁ h p)

  issue_client-Usable :
      (k8s : Issued w) (s : w.State)
      → Holds w x k8s
      → Parsed w x k8s
      → Final ⊥ (λ issued _. Usable w x k8s issued) (issue_client w k8s s)
  unfolding issue_client
  issue_client-Usable k8s s h p =
      wrap-then ⊥ (λ _ _. Unit) (λ issued _. Usable w x k8s issued) _
        (from_cert_template w "kubernetes-admin" ("system:masters" ∷ []) [] false true) _ s
        (from_cert_template-ComesBack w s "kubernetes-admin" ("system:masters" ∷ []) [] false true)
        (λ template s₁ _. signed-Usable _ _ (w.crypto.from_template template) k8s s₁ h p)

  issue_k8s-Usable :
      (root : Issued w) (s : w.State)
      → Holds w x root
      → Parsed w x root
      → Final ⊥ (λ issued _. Usable w x root issued) (issue_k8s w root s)
  unfolding issue_k8s
  issue_k8s-Usable root s h p =
      continue-Final ⊥ (λ issued _. Usable w x root issued) (λ issued _. Usable w x root issued) _ _
        _ (issue_ca-Usable _ _ _ _ root s h p)
        (λ issued (k, b, _).
          continue-Final ⊥ (λ c _. x.subject c ≡ x.subject_in issued.der)
            (λ issued _. Usable w x root issued) _ _ _ (reparse-Final _ issued.der _)
            (λ certificate e. (k, b, e)))

  issue_root-Usable : (s : w.State) → Final ⊥ (λ root _. Usable w x root root) (issue_root w s)
  unfolding issue_root
  issue_root-Usable s =
      wrap-then ⊥ (λ _ _. Unit) (λ root _. Usable w x root root) _
        (from_ca_template w "samsung-cnct") _ s (from_ca_template-ComesBack w "samsung-cnct" s)
        (λ template s₁ _.
          wrap-then ⊥ (λ _ _. Unit) (λ root _. Usable w x root root) _
            (call (w.crypto.generate_key rsa_bits)) _ s₁ (generate_key-ComesBack w rsa_bits s₁)
            (λ key s₂ _.
              let create =
                w.crypto.create_certificate (w.crypto.from_template template)
                  (w.crypto.from_template template) (w.crypto.public key) key in
              wrap-then ⊥ (λ der t. create s₂ ≡ (ok der, t)) (λ root _. Usable w x root root) _
                (call create) _ s₂ (call-Final create s₂)
                (λ der s₃ c.
                  continue-Final ⊥ (λ c _. x.subject c ≡ x.subject_in der)
                    (λ root _. Usable w x root root) _ _ _ (reparse-Final _ der s₃)
                    (λ certificate e.
                      let (k, v, n, i) = creates _ _ _ _ _ _ _ c in
                      (k, (w.crypto.public key, k, v, i ∙ sym n), e)))))

  -- Whatever random numbers are drawn, `NewCABundle` never panics, and where it does not fail the
  -- bundle is a chain of certificates with their keys. Of crypto/x509 it is used that a certificate
  -- holds the public key and the subject that it was made with, names the parent's subject as its
  -- issuer and verifies against the key that signed it, and that a parsed certificate has the
  -- subject of its bytes.
  pub new_ca_bundle-Chained :
      (s : w.State) → Final ⊥ (λ bundle _. Chained w x bundle) (new_ca_bundle w s)
  unfolding new_ca_bundle
  new_ca_bundle-Chained s =
      continue-Final ⊥ (λ root _. Usable w x root root) (λ bundle _. Chained w x bundle) _ _ _
        (issue_root-Usable s)
        (λ root (h, b, p).
          continue-Final ⊥ (λ k8s _. Usable w x root k8s) (λ bundle _. Chained w x bundle) _ _ _
            (issue_k8s-Usable root _ h p)
            (λ k8s (h₁, b₁, p₁).
              continue-Final ⊥ (λ etcd _. Usable w x root etcd) (λ bundle _. Chained w x bundle) _ _
                _ (issue_ca-Usable _ _ _ _ root _ h p)
                (λ etcd (h₂, b₂, _).
                  continue-Final ⊥ (λ front _. Usable w x root front)
                    (λ bundle _. Chained w x bundle) _ _ _ (issue_ca-Usable _ _ _ _ root _ h p)
                    (λ front (h₃, b₃, _).
                      continue-Final ⊥ (λ client _. Usable w x k8s client)
                        (λ bundle _. Chained w x bundle) _ _ _ (issue_client-Usable k8s _ h₁ p₁)
                        (λ client (h₄, b₄, _). (
                          root,
                          k8s,
                          etcd,
                          front,
                          client,
                          refl,
                          refl,
                          refl,
                          refl,
                          refl,
                          refl,
                          refl,
                          refl,
                          refl,
                          refl,
                          (h, b),
                          (h₁, b₁),
                          (h₂, b₂),
                          (h₃, b₃),
                          (h₄, b₄),
                        ))))))
