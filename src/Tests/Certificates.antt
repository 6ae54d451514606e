-- ===== src/Tests/Certificates.antt =====
-- A small cryptography with two keys, which are drawn in turn, and two subjects, the root's and
-- the others'. The bytes of a certificate say its subject, its issuer, its key and its signer's key.
use cma_ssh.Prelude.{
  String, string_eq, ◌==◌, ◌≡◌, refl, Bool, true, false, not, Option, some, arith,
}
use cma_ssh.Prelude.Go.{ok}
use cma_ssh.Prelude.Go.Ends.{Final}
use Prim.Native.Char.{code}
use cma_ssh.Prelude.Text.{◌=ℕ◌}
use cma_ssh.World.{World}
use cma_ssh.World.Crypto.{Crypto}
use cma_ssh.World.Kube.{Kube}
use cma_ssh.Cert.Issue.{new_ca_bundle}
use cma_ssh.Cert.Issue.Trust.{Reading, Chained}
use cma_ssh.Cert.Issue.Chain.{new_ca_bundle-Chained}
use cma_ssh.Tests.Demo.{kube, labels, remote, maas, host}

pub encode : Bool → Bool → Bool → Bool → String
encode true true true true = "tttt"
encode true true true false = "tttf"
encode true true false true = "ttft"
encode true true false false = "ttff"
encode true false true true = "tftt"
encode true false true false = "tftf"
encode true false false true = "tfft"
encode true false false false = "tfff"
encode false true true true = "fttt"
encode false true true false = "fttf"
encode false true false true = "ftft"
encode false true false false = "ftff"
encode false false true true = "fftt"
encode false false true false = "fftf"
encode false false false true = "ffft"
encode false false false false = "ffff"

abbrev pub bit : String → Bool
bit String.[] = false
bit (String.◌∷◌ c s) = code c =ℕ 116

abbrev pub rest : String → String
rest String.[] = ""
rest (String.◌∷◌ c s) = s

abbrev pub subject_bit : String → Bool
subject_bit der = bit der

abbrev pub issuer_bit : String → Bool
issuer_bit der = bit (rest der)

abbrev pub key_bit : String → Bool
key_bit der = bit (rest (rest der))

abbrev pub signer_bit : String → Bool
signer_bit der = bit (rest (rest (rest der)))

abbrev pub same_bit : Bool → Bool → Bool
same_bit true b = b
same_bit false b = not b

abbrev pub subject_text : Bool → String
subject_text true = "samsung-cnct"
subject_text false = "another"

encode_read :
    (a b c d : Bool)
    → (key_bit (encode a b c d) ≡ c)
      × (same_bit d (signer_bit (encode a b c d)) ≡ true)
      × (subject_bit (encode a b c d) ≡ a)
      × (issuer_bit (encode a b c d) ≡ b)
unfolding encode
encode_read true true true true = (refl, refl, refl, refl)
encode_read true true true false = (refl, refl, refl, refl)
encode_read true true false true = (refl, refl, refl, refl)
encode_read true true false false = (refl, refl, refl, refl)
encode_read true false true true = (refl, refl, refl, refl)
encode_read true false true false = (refl, refl, refl, refl)
encode_read true false false true = (refl, refl, refl, refl)
encode_read true false false false = (refl, refl, refl, refl)
encode_read false true true true = (refl, refl, refl, refl)
encode_read false true true false = (refl, refl, refl, refl)
encode_read false true false true = (refl, refl, refl, refl)
encode_read false true false false = (refl, refl, refl, refl)
encode_read false false true true = (refl, refl, refl, refl)
encode_read false false true false = (refl, refl, refl, refl)
encode_read false false false true = (refl, refl, refl, refl)
encode_read false false false false = (refl, refl, refl, refl)

-- `draw` reads the next key off the state, and `next` is the state after it.
abbrev pub crypto_over : {S : Type 0} → (S → Bool) → (S → S) → Crypto S
crypto_over draw next = record {
  PrivateKey = Bool;
  PublicKey = Bool;
  Certificate = Bool;
  from_template = λ t. t.subject.common_name == "samsung-cnct";
  rand_int = λ n s. (ok 7, s);
  generate_key = λ n s. (ok (draw s), next s);
  public = λ k. k;
  marshal_private_key = λ k. "key";
  create_certificate = λ c p k q s. (ok (encode c p k q), s);
  parse_certificate = λ d. ok (subject_bit d);
  pem_encode = λ t b. b;
  parse_ip = λ h. Option.none;
}

module _ {S : Type 0} (kube : Kube S) (draw : S → Bool) (next : S → S) where
  abbrev pub authority : World
  authority = record {
    State = S;
    kube = kube;
    labels = labels;
    remote = remote;
    maas = maas;
    host = host;
    crypto = crypto_over draw next;
  }

  abbrev pub reading : Reading authority
  reading = record {
    subject = λ c. subject_text c;
    key_in = λ der. some (key_bit der);
    subject_in = λ der. subject_text (subject_bit der);
    issuer_in = λ der. subject_text (issuer_bit der);
    verifies = λ key der. same_bit key (signer_bit der);
  }

  pub creates :
      (template parent subject_key key : Bool) (s t : S) (der : String)
      → authority.crypto.create_certificate template parent subject_key key s ≡ (ok der, t)
      → (reading.key_in der ≡ some subject_key)
        × (reading.verifies key der ≡ true)
        × (reading.subject_in der ≡ reading.subject template)
        × (reading.issuer_in der ≡ reading.subject parent)
  creates template parent subject_key key s t der made =
      ground (arith, encode_read template parent subject_key key)

  pub parses :
      (der : String) (certificate : Bool)
      → authority.crypto.parse_certificate der ≡ ok certificate
      → reading.subject certificate ≡ reading.subject_in der
  parses der certificate parsed = ground arith

abbrev offline : World
offline = authority kube (λ s. s) not

new_ca_bundle-Chained_example :
    Final ⊥
      (λ bundle _. Chained offline (reading kube (λ s. s) not) bundle)
      (new_ca_bundle offline true)
new_ca_bundle-Chained_example =
    new_ca_bundle-Chained offline (reading kube (λ s. s) not) (creates kube (λ s. s) not)
      (parses kube (λ s. s) not) true
