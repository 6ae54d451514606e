-- ===== src/Machine/Lifecycle/Tokens.antt =====
-- The steps of `create` that find or make a token.
use cma_ssh.Prelude.{String, string_eq, ◌||◌, Option, none, some, List, [], ◌∷◌, arith}
use cma_ssh.Prelude.Go.{Result, ok, err, attempt, call, wrap, observe, return}
use cma_ssh.Api.Meta.{Secret}
use cma_ssh.Api.Machine.{CnctMachine}
use cma_ssh.World.{World}
use cma_ssh.Machine.Create.{Creator, failed}
use cma_ssh.Machine.Create.Token.{
  bootstrap_token_type, clock, expires_soon, bootstrap_secret, find_token, take_listed, with_token,
  look_for_token, check_if_token_exists, create_bootstrap_token, store_token, new_token,
  create_token,
}
use cma_ssh.Prelude.Go.Kept.{KeptBy, KeptBy-bind, KeptBy-if}
use cma_ssh.Machine.Lifecycle.{Outside}

module _ (w : World) (I : w.State → Type 0) (Sent : CnctMachine → Type 0)
    (outside : Outside w I Sent) where
  clock-KeptBy : (secret : Secret) → KeptBy I (clock w secret)
  clock-KeptBy secret s i = ground (arith, outside.now s i)

  find_token-KeptBy : (secrets : List Secret) → KeptBy I (find_token w secrets)
  unfolding find_token
  find_token-KeptBy [] = λ s i. i
  find_token-KeptBy (secret ∷ items) =
      KeptBy-bind I (clock w secret) _ (clock-KeptBy secret)
        (λ now. KeptBy-if I (expires_soon w now secret) _ _ (find_token-KeptBy items) (λ s i. i))

  listed-KeptBy :
      (c : Creator w) (listed : Result (List Secret)) → KeptBy I (take_listed w c listed)
  listed-KeptBy c (err e) = λ s i. i
  listed-KeptBy c (ok items) =
      KeptBy-bind I (find_token w items) (λ found. return (with_token w c found))
        (find_token-KeptBy items) (λ found s i. i)

  look_for_token-KeptBy :
      (c : Creator w) (clientset : Option w.remote.Clientset)
      → KeptBy I (look_for_token w c clientset)
  look_for_token-KeptBy c none = λ s i. i
  look_for_token-KeptBy c (some clientset) =
      KeptBy-bind I (attempt (w.remote.list_secrets clientset bootstrap_token_type))
        (take_listed w c) (outside.list_secrets clientset bootstrap_token_type) (listed-KeptBy c)

  pub check_token-KeptBy : (c : Creator w) → KeptBy I (check_if_token_exists w c)
  unfolding check_if_token_exists
  check_token-KeptBy c =
      KeptBy-if I (failed w c || c.is_master) _ _ (λ s i. i) (look_for_token-KeptBy c c.clientset)

  store_token-KeptBy :
      (clientset : Option w.remote.Clientset) (id secret : String)
      → KeptBy I (store_token w clientset id secret)
  unfolding create_bootstrap_token
  store_token-KeptBy none id secret = λ s i. i
  store_token-KeptBy (some clientset) id secret =
      KeptBy-bind I (observe w.host.now)
        (λ now.
          wrap "could not create token secret"
            (call (w.remote.create_secret clientset (bootstrap_secret w id secret now))))
        outside.now (λ now. outside.create_secret clientset (bootstrap_secret w id secret now))

  new_token-KeptBy : (clientset : Option w.remote.Clientset) → KeptBy I (new_token w clientset)
  unfolding new_token
  new_token-KeptBy clientset =
      KeptBy-bind I (call (w.host.read_random_hex 3)) _ (outside.read_random_hex 3) (λ id.
        KeptBy-bind I (call (w.host.read_random_hex 8)) _ (outside.read_random_hex 8) (λ secret.
          KeptBy-bind I (store_token w clientset id secret) _
            (store_token-KeptBy clientset id secret) (λ _ s i. i)))

  pub create_token-KeptBy : (c : Creator w) → KeptBy I (create_token w c)
  unfolding create_token
  create_token-KeptBy c s i = ground (arith, new_token-KeptBy c.clientset s i)
