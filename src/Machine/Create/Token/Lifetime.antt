-- ===== src/Machine/Create/Token/Lifetime.antt =====
-- Which bootstrap token a worker joins with.
use cma_ssh.Prelude.{
  ◌+◌, ◌*◌, ◌<◌, ◌≤◌, String, ◌<>◌, string_eq, string_discrete, ◌≡◌, refl, ◌≢◌, ◌⊎◌, inl, inr, true,
  false, ltb, Option, none, some, List, [], ◌∷◌, if◌then◌else◌, Bool-cases, arith,
}
use cma_ssh.Prelude.Go.{Outcome, done, fail, panic}
use cma_ssh.Prelude.Go.Ends.{Ensures}
use cma_ssh.Api.Meta.{Time, second, Secret, get_string, find_string}
use cma_ssh.World.{World}
use cma_ssh.Machine.Create.Token.{
  token_of, expires_soon, clock, reads_clock, find_token, bootstrap_secret,
}

-- The time could be read and is at least 30 minutes later.
abbrev pub HalfAnHourAfter : Time → Option Time → Type 0
HalfAnHourAfter now none = ⊥
HalfAnHourAfter now (some t) = now + 1800 * second ≤ t

module _ (w : World) where
  -- The expiration, if there is one.
  abbrev pub LastsUntil : Time → Option String → Type 0
  LastsUntil now none = Unit
  LastsUntil now (some expires) =
      (expires ≡ "") ⊎ HalfAnHourAfter now (w.host.parse_rfc3339 expires)

  -- The secret has no expiration, or one that is at least 30 minutes after the time.
  abbrev pub Lasts : Time → Secret → Type 0
  Lasts now secret = LastsUntil now (find_string secret.contents "expiration")

  -- The token is that of a secret of the list which lasts from a time that the clock showed.
  abbrev pub TakenFrom : String → List Secret → Type 0
  TakenFrom token [] = ⊥
  TakenFrom token (secret ∷ items) =
      ((token ≡ token_of secret) × ((s₀ : w.State) × Lasts (w.host.now s₀).0 secret))
      ⊎ TakenFrom token items

  Lasts-clock :
      (secret : Secret) (s s' : w.State) (now : Time)
      → clock w secret s ≡ (done now, s')
      → expires_soon w now secret ≡ false
      → Lasts (w.host.now s).0 secret
  unfolding expires_soon
  Lasts-clock secret s s' now c h = ground arith

  -- What `clock` shows.
  abbrev shown : Secret → w.State → Time × w.State
  shown secret s = if reads_clock w secret then w.host.now s else (0, s)

  clock_lem :
      (secret : Secret) (s : w.State)
      → clock w secret s ≡ (done (shown secret s).0, (shown secret s).1)
  clock_lem secret s = ground arith

  -- A token that was found is taken from the list.
  abbrev pub Taken : List Secret → Option String → Type 0
  Taken items none = Unit
  Taken items (some token) = TakenFrom token items

  Taken-more :
      (secret : Secret) (items : List Secret) (r : Outcome (Option String))
      → Ensures (Taken items) r
      → Ensures (Taken (secret ∷ items)) r
  Taken-more secret items (done none) h = tt
  Taken-more secret items (done (some token)) h = inr h
  Taken-more secret items (fail e) h = h
  Taken-more secret items (panic x) h = h

  -- The search among the secrets that `checkIfTokenExists` listed ends without an error, with a
  -- token or without one. A token that it finds is the id and the secret of one of them, which has
  -- no expiration or one that is at least 30 minutes after a time that the clock showed.
  pub find_token-Taken :
      (items : List Secret) (s : w.State) → Ensures (Taken items) (find_token w items s).0
  unfolding find_token
  find_token-Taken [] s = tt
  find_token-Taken (secret ∷ items) s =
      let (now, s') = shown secret s in
      elim (Bool-cases (expires_soon w now secret)) [
        | inl h ↦ rw (clock_lem secret s, h) (Taken-more secret items _ (find_token-Taken items s'))
        | inr h ↦
            rw (clock_lem secret s, h)
              (inl (refl, (s, Lasts-clock secret s s' now (clock_lem secret s) h)))
      ]

  -- What RFC 3339 keeps of a time: the whole seconds.
  abbrev pub Cut : Time → Option Time → Type 0
  Cut t none = ⊥
  Cut t (some cut) = (cut ≤ t) × (t < cut + second)

  read_again :
      (expires : String) (t later : Time) (read : Option Time)
      → w.host.parse_rfc3339 expires ≡ read
      → Cut t read
      → later + second + 1800 * second ≤ t
      → elim read [ none ↦ true | some cut ↦ ltb cut (later + 1800 * second) ] ≡ false
  read_again expires t later none e h l = absurd h
  read_again expires t later (some cut) e (below, above) l = ground arith

  -- A token that `createToken` has stored at the time `now` is one that `checkIfTokenExists` takes
  -- until half an hour less a second later, and the text of the token is the id, a dot and the secret.
  -- Of RFC 3339 only this is used: a time that is printed is not empty, and what is read again is the
  -- time without its fraction of a second.
  pub bootstrap_secret-reused :
      (token_id token_secret : String) (now later : Time)
      → ((t : Time) → w.host.format_rfc3339 t ≢ "")
      → ((t : Time) → Cut t (w.host.parse_rfc3339 (w.host.format_rfc3339 t)))
      → later + second ≤ now + 1800 * second
      → (expires_soon w later (bootstrap_secret w token_id token_secret now) ≡ false)
        × (token_of (bootstrap_secret w token_id token_secret now)
            ≡ token_id <> "." <> token_secret)
  unfolding expires_soon bootstrap_secret find_string get_string string_discrete
  bootstrap_secret-reused token_id token_secret now later n p h =
      let expires = w.host.format_rfc3339 (now + 3600 * second) in
      let read =
        read_again expires (now + 3600 * second) later _ refl (p (now + 3600 * second))
          (omega (arith, h)) in
      (ground (arith, n (now + 3600 * second), read), refl)
