-- ===== src/Cert/Issue.antt =====
-- `NewCABundle` and its templates of pkg/cert/gen_cert.go: a root, three authorities that it signs,
-- and the administrator's certificate. Times are in nanoseconds.
pub mod Trust
pub mod Chain
pub mod Kept
use cma_ssh.Prelude.{
  ℕ, ◌+◌, ◌*◌, String, Bool, true, false, Option, none, some, List, [], ◌∷◌, ◌++◌, if◌then◌else◌,
  ◌&&◌,
}
use cma_ssh.Prelude.Go.{Exec, return, throw, call, wrap, observe, ◌>>=◌, Result, plain_error, lift}
use cma_ssh.Api.Meta.{second}
use cma_ssh.World.{World}
use cma_ssh.World.Crypto.{
  Subject, Template, KeyUsage, cert_sign, key_encipherment, digital_signature, ExtKeyUsage,
  server_auth, client_auth,
}
use cma_ssh.Cert.{CaBundle}

abbrev rsa_bits : ℕ
rsa_bits = 2048

abbrev year : ℕ
year = 365 * 24 * 3600 * second

-- `new(big.Int).Lsh(big.NewInt(1), 128)`
abbrev pub serial_number_limit : ℕ
serial_number_limit = 340282366920938463463374607431768211456

abbrev subject_of : String → List String → Subject
subject_of common_name organization = record {
  country = "US" ∷ [];
  organization = organization;
  common_name = common_name;
  province = "Washington" ∷ [];
  locality = "Seattle" ∷ [];
}

abbrev pub is_empty : List String → Bool
is_empty [] = true
is_empty (_ ∷ _) = false

abbrev ext_usages : Bool → Bool → List ExtKeyUsage
ext_usages server client =
    (if server then server_auth ∷ [] else []) ++ (if client then client_auth ∷ [] else [])

abbrev with_host : String → Option String → Template → Template
with_host h (some ip) template = record template { ip_addresses = template.ip_addresses ++ ip ∷ [] }
with_host h none template = record template { dns_names = template.dns_names ++ h ∷ [] }

module _ (w : World) where
  unfoldable pub from_ca_template : String → Exec w.State Template
  from_ca_template common_name = do
    not_before ← observe w.host.now
    serial_number ←
        wrap "failed to generate serial number" (call (w.crypto.rand_int serial_number_limit))
    return (record {
      serial_number = serial_number;
      subject = subject_of common_name ("Samsung CNCT" ∷ []);
      not_before = not_before;
      not_after = not_before + 10 * year;
      is_ca = true;
      key_usage = cert_sign ∷ key_encipherment ∷ digital_signature ∷ [];
      ext_key_usage = server_auth ∷ client_auth ∷ [];
      basic_constraints_valid = true;
      ip_addresses = [];
      dns_names = [];
    })

  -- The loop over the hosts.
  unfoldable pub add_hosts : List String → Template → Template
  add_hosts [] template = template
  add_hosts (h ∷ hosts) template = add_hosts hosts (with_host h (w.crypto.parse_ip h) template)

  unfoldable pub from_cert_template :
      String → List String → List String → Bool → Bool → Exec w.State Template
  from_cert_template cn o hosts server client =
      if is_empty hosts && server then throw (plain_error "no hosts provided") else do
        not_before ← observe w.host.now
        serial_number ←
            wrap "failed to generate serial number" (call (w.crypto.rand_int serial_number_limit))
        return (
            add_hosts hosts (record {
              serial_number = serial_number;
              subject = subject_of cn o;
              not_before = not_before;
              not_after = not_before + year;
              is_ca = true;
              key_usage = key_encipherment ∷ digital_signature ∷ [];
              ext_key_usage = ext_usages server client;
              basic_constraints_valid = true;
              ip_addresses = [];
              dns_names = [];
            }))

  -- A certificate, the key it is for, and its bytes.
  pub record Issued : Type 0 where
    pub certificate : w.crypto.Certificate
    pub key : w.crypto.PrivateKey
    pub der : String

  abbrev new_key : String → Exec w.State w.crypto.PrivateKey
  new_key text = wrap text (call (w.crypto.generate_key rsa_bits))

  abbrev reparse : String → String → Exec w.State w.crypto.Certificate
  reparse text der = wrap text (λ s. (lift (w.crypto.parse_certificate der), s))

  unfoldable pub issue_root : Exec w.State Issued
  issue_root = do
    template ← wrap "could not generate root ca" (from_ca_template "samsung-cnct")
    key ← new_key "could not create root ca key"
    der ← wrap "could not create der bytes for root ca" (
        call (
          w.crypto.create_certificate (w.crypto.from_template template)
            (w.crypto.from_template template) (w.crypto.public key) key))
    certificate ← reparse "could not reparse certificate for root ca" der
    return (record { certificate = certificate; key = key; der = der })

  -- An authority that the root signs: its name, and the messages of three errors.
  unfoldable pub issue_ca : String → String → String → String → Issued → Exec w.State Issued
  issue_ca name no_template no_key no_der root = do
    template ← wrap no_template (from_ca_template name)
    key ← new_key no_key
    der ← wrap no_der (
        call (
          w.crypto.create_certificate (w.crypto.from_template template) root.certificate
            (w.crypto.public key) root.key))
    return (record { certificate = w.crypto.from_template template; key = key; der = der })

  unfoldable pub issue_k8s : Issued → Exec w.State Issued
  issue_k8s root = do
    issued ←
        issue_ca "kubernetes-ca" "could not generate kubernetes-ca" "could not create k8s ca key"
          "could not create der bytes for k8s ca" root
    certificate ← reparse "could not reparse certificate for k8s ca" issued.der
    return (record issued { certificate = certificate })

  unfoldable pub issue_client : Issued → Exec w.State Issued
  issue_client k8s = do
    template ←
        wrap "could not create kubeconfig client cert"
          (from_cert_template "kubernetes-admin" ("system:masters" ∷ []) [] false true)
    key ← new_key "could not create kubeconfig client key"
    der ← wrap "could not write der bytes for kubeconfig" (
        call (
          w.crypto.create_certificate (w.crypto.from_template template) k8s.certificate
            (w.crypto.public key) k8s.key))
    return (record { certificate = w.crypto.from_template template; key = key; der = der })

  abbrev pub certificate_pem : Issued → String
  certificate_pem issued = w.crypto.pem_encode "CERTIFICATE" issued.der

  abbrev pub key_pem : Issued → String
  key_pem issued = w.crypto.pem_encode "RSA PRIVATE KEY" (w.crypto.marshal_private_key issued.key)

  abbrev bundle_of : Issued → Issued → Issued → Issued → Issued → CaBundle
  bundle_of root k8s etcd front_proxy client = record {
    root = certificate_pem root;
    root_key = key_pem root;
    k8s = certificate_pem k8s;
    k8s_key = key_pem k8s;
    etcd = certificate_pem etcd;
    etcd_key = key_pem etcd;
    front_proxy = certificate_pem front_proxy;
    front_proxy_key = key_pem front_proxy;
    k8s_client = certificate_pem client;
    k8s_client_key = key_pem client;
  }

  unfoldable pub new_ca_bundle : Exec w.State CaBundle
  new_ca_bundle = do
    root ← issue_root
    k8s ← issue_k8s root
    etcd ←
        issue_ca "etcd-ca" "could not generate etcd-ca" "could not create etcd ca key"
          "could not create der bytes for etcd ca" root
    front_proxy ←
        issue_ca "kubernetes-front-proxy-ca" "could not generate kubernetes-front-proxy-ca"
          "could not create kubernetes front proxy ca key"
          "could not create der bytes for k8s front proxy ca" root
    client ← issue_client k8s
    return (bundle_of root k8s etcd front_proxy client)
