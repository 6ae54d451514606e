-- ===== src/World/Crypto.antt =====
-- The packages crypto/rsa, crypto/x509, encoding/pem and math/big with rand.Reader, and `net.ParseIP`.
use cma_ssh.Prelude.{ℕ, String, Bool, Option, List}
use cma_ssh.Prelude.Go.{Call, Result}
use cma_ssh.Api.Meta.{Time}

-- The bits of `KeyUsage` that the program sets.
pub data KeyUsage : Type 0 where
  cert_sign key_encipherment digital_signature : KeyUsage

pub data ExtKeyUsage : Type 0 where
  server_auth client_auth : ExtKeyUsage

-- `pkix.Name`
pub record Subject : Type 0 where
  pub country : List String
  pub organization : List String
  pub common_name : String
  pub province : List String
  pub locality : List String

-- The parts of an `x509.Certificate` that the program fills.
pub record Template : Type 0 where
  pub serial_number : ℕ
  pub subject : Subject
  pub not_before : Time
  pub not_after : Time
  pub is_ca : Bool
  pub key_usage : List KeyUsage
  pub ext_key_usage : List ExtKeyUsage
  pub basic_constraints_valid : Bool
  pub ip_addresses : List String
  pub dns_names : List String

pub record Crypto (S : Type 0) : Type 1 where
  pub PrivateKey : Type 0
  pub PublicKey : Type 0
  pub Certificate : Type 0
  -- An `x509.Certificate` with these fields and no others
  pub from_template : Template → Certificate
  -- `rand.Int` below the limit; `rsa.GenerateKey` of so many bits
  pub rand_int : ℕ → Call S ℕ
  pub generate_key : ℕ → Call S PrivateKey
  pub public : PrivateKey → PublicKey
  pub marshal_private_key : PrivateKey → String
  -- `x509.CreateCertificate` from the template, the parent, the public key and the signer's key;
  -- `x509.ParseCertificate`, on DER bytes
  pub create_certificate : Certificate → Certificate → PublicKey → PrivateKey → Call S String
  pub parse_certificate : String → Result Certificate
  -- `pem.EncodeToMemory` of a block's type and bytes
  pub pem_encode : String → String → String
  -- `net.ParseIP`
  pub parse_ip : String → Option String
