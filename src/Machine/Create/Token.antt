-- ===== src/Machine/Create/Token.antt =====
-- `checkIfTokenExists`, `createToken` and `createBootstrapToken` of
-- pkg/controller/machine/create.go.
pub mod Lifetime
use cma_ssh.Prelude.{
  ℕ, ◌+◌, ◌*◌, ltb, String, ◌<>◌, string_eq, ◌==◌, Bool, true, false, not, ◌||◌, Option, none, some,
  List, [], ◌∷◌, if◌then◌else◌,
}
use cma_ssh.Prelude.Go.{
  Exec, return, throw, crash, call, attempt, try, wrap, observe, ◌>>=◌, ◌>>◌, Result, ok, err, Err,
  status_error, plain_error, wrapped, not_ready_error, unrecoverable_error, release_error,
  rpc_error, message, nil_dereference,
}
use cma_ssh.Api.Meta.{Time, second, Secret, get_string, find_string}
use cma_ssh.World.{World}
use cma_ssh.Machine.Create.{Creator, failed, stop}

-- `string(corev1.SecretTypeBootstrapToken)`
abbrev pub bootstrap_token_type : String
bootstrap_token_type = "bootstrap.kubernetes.io/token"

-- The error for a list that failed: a `StatusError` stays, any other is not ready.
abbrev list_error : Err → Err
list_error (status_error reason m) = status_error reason m
list_error (plain_error m) = not_ready_error m
list_error (wrapped m e) = not_ready_error (message (wrapped m e))
list_error (not_ready_error m) = not_ready_error m
list_error (unrecoverable_error reason) = not_ready_error reason
list_error (release_error id e) = not_ready_error (message (release_error id e))
list_error (rpc_error code m) = not_ready_error (message (rpc_error code m))

-- The token that a secret holds.
abbrev pub token_of : Secret → String
token_of secret =
    get_string secret.contents "token-id" <> "." <> get_string secret.contents "token-secret"

module _ (w : World) where
  -- Whether a secret is passed over at that time: its expiration cannot be read, or comes within
  -- 30 minutes.
  unfoldable pub expires_soon : Time → Secret → Bool
  expires_soon now secret = elim (find_string secret.contents "expiration") [
    | none ↦ false
    | some expires ↦ if expires == "" then false else elim (w.host.parse_rfc3339 expires) [
      | none ↦ true
      | some t ↦ ltb t (now + 1800 * second)
    ]
  ]

  -- Whether the loop looks at the clock: the expiration is there and can be read.
  abbrev reads_clock : Secret → Bool
  reads_clock secret = elim (find_string secret.contents "expiration") [
    | none ↦ false
    | some expires ↦
        if expires == ""
        then false
        else elim (w.host.parse_rfc3339 expires) [ none ↦ false | some t ↦ true ]
  ]

  -- The time where the loop asks for it.
  abbrev pub clock : Secret → Exec w.State Time
  clock secret = if reads_clock secret then observe w.host.now else return 0

  -- The loop over the secrets.
  unfoldable pub find_token : List Secret → Exec w.State (Option String)
  find_token [] = return none
  find_token (secret ∷ items) = do
    now ← clock secret
    if expires_soon now secret then find_token items else return (some (token_of secret))

  abbrev pub with_token : Creator w → Option String → Creator w
  with_token c none = c
  with_token c (some token) = record c { token = token }

  abbrev pub take_listed : Creator w → Result (List Secret) → Exec w.State (Creator w)
  take_listed c (err e) = stop w (list_error e) c
  take_listed c (ok items) = do found ← find_token items; return (with_token c found)

  -- From the clientset on.
  abbrev pub look_for_token : Creator w → Option w.remote.Clientset → Exec w.State (Creator w)
  look_for_token c none = crash nil_dereference
  look_for_token c (some clientset) = do
    listed ← attempt (w.remote.list_secrets clientset bootstrap_token_type)
    take_listed c listed

  unfoldable pub check_if_token_exists : Creator w → Exec w.State (Creator w)
  check_if_token_exists c =
      if failed w c || c.is_master then return c else look_for_token c c.clientset

  -- The secret of a new token, which expires in an hour.
  unfoldable pub bootstrap_secret : String → String → Time → Secret
  bootstrap_secret token_id token_secret now = record {
    name = "bootstrap-token-" <> token_id;
    namespace = "kube-system";
    type = bootstrap_token_type;
    contents =
        ("description", "Bootstrap token created by cma-ssh")
        ∷ ("token-id", token_id)
        ∷ ("token-secret", token_secret)
        ∷ ("expiration", w.host.format_rfc3339 (now + 3600 * second))
        ∷ ("usage-bootstrap-authentication", "true")
        ∷ ("usage-bootstrap-signing", "true")
        ∷ ("auth-extra-groups", "system:bootstrappers:kubeadm:default-node-token")
        ∷ [];
  }

  unfoldable pub create_bootstrap_token :
      w.remote.Clientset → String → String → Exec w.State (Unit {0})
  create_bootstrap_token clientset token_id token_secret = do
    now ← observe w.host.now
    wrap "could not create token secret"
        (call (w.remote.create_secret clientset (bootstrap_secret token_id token_secret now)))

  -- The same with a pointer, which is nil when there is no clientset.
  abbrev pub store_token : Option w.remote.Clientset → String → String → Exec w.State (Unit {0})
  store_token none token_id token_secret = crash nil_dereference
  store_token (some clientset) token_id token_secret =
      create_bootstrap_token clientset token_id token_secret

  -- From the random bytes to the token.
  unfoldable pub new_token : Option w.remote.Clientset → Exec w.State String
  new_token clientset = do
    token_id ← call (w.host.read_random_hex 3)
    token_secret ← call (w.host.read_random_hex 8)
    store_token clientset token_id token_secret
    return (token_id <> "." <> token_secret)

  unfoldable pub create_token : Creator w → Exec w.State (Creator w)
  create_token c = if failed w c || c.is_master || not (c.token == "") then return c else (do
    made ← try (new_token c.clientset)
    elim made [ err e ↦ stop w e c | ok token ↦ return (record c { token = token }) ])
