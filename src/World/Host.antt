-- ===== src/World/Host.antt =====
-- The host: Go's runtime and standard library where the program depends on more than a pure
-- function of theirs, and the libraries for certificates, templates and polling.
use cma_ssh.Prelude.{ℕ, String, Bool, Option, List}
use cma_ssh.Prelude.Go.{Call, Result}
use cma_ssh.Api.Meta.{Time, StringMap}

-- A `tar.Header`: the name, the mode, whether it is of a directory, the time and the size.
pub record TarHeader : Type 0 where
  pub name : String
  pub mode : ℕ
  pub is_dir : Bool
  pub mod_time : Time
  pub size : ℕ

-- The parts of client-go's `api.Config` that the program fills.
pub record KubeConfig : Type 0 where
  pub clusters : StringMap (String × String)
  pub contexts : StringMap (String × String)
  pub auth_infos : StringMap (String × String)
  pub current_context : String

pub record Host (S : Type 0) : Type 1 where
  -- `time.Now`, in nanoseconds, and RFC 3339 in whole seconds
  pub now : S → Time × S
  pub parse_rfc3339 : String → Option Time
  pub format_rfc3339 : Time → String
  -- `io.ReadFull(rand.Reader, buf)` of so many bytes, printed by `%x`
  pub read_random_hex : ℕ → Call S String
  -- `wait.PollImmediate(interval, timeout, condition)`, times in milliseconds
  pub poll_immediate : ℕ → ℕ → Call S Bool → Call S (Unit {0})
  -- The same for a condition that keeps a variable from one call to the next
  pub poll_immediate_with : (A : Type 0) → ℕ → ℕ → (A → Call S (Bool × A)) → A → Call S (Unit {0})
  -- The order in which the scheduler runs goroutines that are started together
  pub schedule : (A : Type 0) → S → List A → List A
  -- The goroutines that are left running when the function that started them goes on
  pub background : (A : Type 0) → List A → S → S
  -- `sort.Sort` by a `Less`
  pub sort : (A : Type 0) → (A → A → Bool) → List A → List A
  -- The order in which `range` walks a map
  pub range_map : S → StringMap String → StringMap String
  -- `text/template`: the template of that name over its fields
  pub execute_template : String → StringMap String → Result String
  -- `base64.StdEncoding.EncodeToString`
  pub encode_base64 : String → String
  -- `pem.Decode`: the block's bytes; `x509.ParseCertificate`: the raw public key;
  -- `sha256.Sum256` printed by `%x`
  pub pem_decode : String → Option String
  pub parse_certificate : String → Result String
  pub sha256_hex : String → String
  -- `tar.Writer` over `base64.NewEncoder` over a buffer; `finish_base64` closes the encoder and
  -- takes the buffer's text.
  pub TarWriter : Type 0
  pub new_tar_writer : TarWriter
  pub write_header : TarHeader → TarWriter → Result TarWriter
  pub write_body : String → TarWriter → Result TarWriter
  pub close_tar : TarWriter → Result TarWriter
  pub finish_base64 : TarWriter → Result String
  -- The length of a byte slice
  pub byte_length : String → ℕ
  -- `runtime.Encode(latest.Codec, config)`
  pub encode_kubeconfig : KubeConfig → Result String
