-- ===== src/Machine/Create/Record/Written.antt =====
-- What `create` has written when it returns nil.
use cma_ssh.Prelude.{
  String, string_eq, ◌≡◌, refl, ◌≢◌, ◌⊎◌, inl, inr, true, false, none, List, [], ◌∷◌, ◌++◌,
  Bool-cases, arith,
}
use cma_ssh.Prelude.Go.{
  Outcome, done, fail, panic, Exec, Result, ok, err, ◌>>=◌, index_out_of_range,
}
use cma_ssh.Prelude.Go.Ends as Go
use cma_ssh.Api.Phase.{provisioning_machine}
use cma_ssh.Api.Machine.{CnctMachine, machine_finalizer}
use cma_ssh.World.{World}
use cma_ssh.Util.Slices.{contains_string}
use cma_ssh.Machine.Create.{
  Creator, failed, new_creator, get_cluster, get_secret, create_clientset_from_secret,
  check_apiserver_address,
}
use cma_ssh.Machine.Create.Token.{check_if_token_exists, create_token}
use cma_ssh.Machine.Create.Request.{prepare_maas_request, do_maas_create}
use cma_ssh.Machine.Create.Record.{
  with_machine_finalizer, create_kubeconfig, update_cluster, update_machine, machine_event,
  provisioned, master_steps, worker_steps, create,
}

contains_string_append :
    (slice : List String) (s : String) → contains_string (slice ++ s ∷ []) s ≡ true
unfolding contains_string
contains_string_append [] s = ground arith
contains_string_append (item ∷ slice) s = ground (arith, contains_string_append slice s)

with_machine_finalizer-contains :
    (finalizers : List String)
    → contains_string (with_machine_finalizer finalizers) machine_finalizer ≡ true
unfolding with_machine_finalizer
with_machine_finalizer-contains finalizers =
    ground (arith, contains_string_append finalizers machine_finalizer)

module _ (w : World) where
  -- The last update before the event wrote the machine down as provisioned by MAAS: its system id
  -- and its first address are those of the response, and it has the finalizer.
  abbrev pub WrittenDown : Creator w → w.State → Type 0
  WrittenDown c s =
      (sent machine' : CnctMachine) × (s₁ s₂ : w.State) × (ip : String) × (ips : List String)
      × (w.kube.machines.update sent s₁ ≡ (ok machine', s₂))
      × (s
          ≡ w.kube.eventf machine'.metadata "Normal" "ResourceStateChange"
              "set Finalizer and OwnerReferences" s₂)
      × (c.machine ≡ machine')
      × (c.create_response.ip_addresses ≡ ip ∷ ips)
      × (sent.status.phase ≡ provisioning_machine)
      × (sent.status.system_id ≡ c.create_response.system_id)
      × (sent.status.ssh_config.host ≡ ip)
      × (contains_string sent.metadata.finalizers machine_finalizer ≡ true)

  abbrev pub Provisioned : Outcome (Creator w) × w.State → Type 0
  Provisioned = Go.Final Unit (λ c s. (c.err ≢ none) ⊎ WrittenDown c s)

  event-Provisioned :
      (c : Creator w) (ip : String) (ips : List String) (s₁ : w.State) (r : Result CnctMachine)
      (s₂ : w.State)
      → c.create_response.ip_addresses ≡ ip ∷ ips
      → w.kube.machines.update (provisioned w c ip) s₁ ≡ (r, s₂)
      → Provisioned (machine_event w c (provisioned w c ip) r s₂)
  unfolding provisioned
  event-Provisioned c ip ips s₁ (ok m) s₂ i u = inr (
    provisioned w c ip,
    m,
    s₁,
    s₂,
    ip,
    ips,
    u,
    refl,
    refl,
    i,
    refl,
    refl,
    refl,
    with_machine_finalizer-contains c.machine.metadata.finalizers,
  )
  event-Provisioned c ip ips s₁ (err x) s₂ i u = inl (ground arith)

  update_machine-failed :
      (c : Creator w) (s : w.State) → failed w c ≡ true → update_machine w c s ≡ (done c, s)
  unfolding update_machine
  update_machine-failed c s h = ground arith

  update_machine-panics :
      (c : Creator w) (s : w.State)
      → failed w c ≡ false
      → c.create_response.ip_addresses ≡ []
      → update_machine w c s ≡ (panic index_out_of_range, s)
  unfolding update_machine
  update_machine-panics c s h i = ground arith

  update_machine-sends :
      (c : Creator w) (ip : String) (ips : List String) (s : w.State)
      → failed w c ≡ false
      → c.create_response.ip_addresses ≡ ip ∷ ips
      → update_machine w c s ≡ (
          let (r, s') = w.kube.machines.update (provisioned w c ip) s in
          machine_event w c (provisioned w c ip) r s')
  unfolding update_machine
  update_machine-sends c ip ips s h i = ground arith

  address-Provisioned :
      (c : Creator w) (ips : List String) (s : w.State)
      → c.create_response.ip_addresses ≡ ips
      → failed w c ≡ false
      → Provisioned (update_machine w c s)
  address-Provisioned c [] s i h = rw (update_machine-panics c s h i) tt
  address-Provisioned c (ip ∷ ips) s i h =
      rw (update_machine-sends c ip ips s h i) (event-Provisioned c ip ips s _ _ i refl)

  update_machine-Provisioned : (c : Creator w) (s : w.State) → Provisioned (update_machine w c s)
  update_machine-Provisioned c s = elim (Bool-cases (failed w c)) [
    | inl h ↦ rw (update_machine-failed c s h) (inl (ground arith))
    | inr h ↦ address-Provisioned c _ s refl h
  ]

  -- A panic of the steps before is allowed here, so nothing is asked of them.
  any-Final : {A : Type 0} (p : Outcome A × w.State) → Go.Final Unit (λ _ _. Unit {0}) p
  any-Final (done a, s) = tt
  any-Final (fail e, s) = tt
  any-Final (panic x, s) = tt

  EndsProvisioned : Exec w.State (Creator w) → Type 0
  EndsProvisioned = Go.Ends Unit (λ c s. (c.err ≢ none) ⊎ WrittenDown c s)

  then-Provisioned :
      {A : Type 0} (m : Exec w.State A) (f : A → Exec w.State (Creator w))
      → ((a : A) → EndsProvisioned (f a))
      → EndsProvisioned (m >>= f)
  unfolding EndsProvisioned
  then-Provisioned m f k =
      Go.Ends-then Unit (λ c s. (c.err ≢ none) ⊎ WrittenDown c s) m f (λ s. any-Final (m s)) k

  last-Provisioned : (c : Creator w) → EndsProvisioned (update_machine w c)
  unfolding EndsProvisioned Go.Ends
  last-Provisioned c = update_machine-Provisioned c

  master_steps-Provisioned : (c : Creator w) → EndsProvisioned (master_steps w c)
  master_steps-Provisioned c = then-Provisioned (prepare_maas_request w c) _ (λ c1.
      then-Provisioned (do_maas_create w c1) _ (λ c2.
        then-Provisioned (create_kubeconfig w c2) _
          (λ c3. then-Provisioned (update_cluster w c3) _ last-Provisioned)))

  worker_steps-Provisioned : (c : Creator w) → EndsProvisioned (worker_steps w c)
  worker_steps-Provisioned c = then-Provisioned (create_clientset_from_secret w c) _ (λ c1.
      then-Provisioned (check_if_token_exists w c1) _ (λ c2.
        then-Provisioned (create_token w c2) _ (λ c3.
          then-Provisioned (check_apiserver_address w c3) _ (λ c4.
            then-Provisioned (prepare_maas_request w c4) _
              (λ c5. then-Provisioned (do_maas_create w c5) _ last-Provisioned)))))

  -- When `create` comes back with a nil error, its last call was the event, and the call before it
  -- an update of the machine that the API server accepted. The machine that it sent is in the phase
  -- Provisioning, has the machine finalizer, and has the system id and the first address of the
  -- response that the creator holds.
  pub create-Provisioned : (machine : CnctMachine) (s : w.State) → Provisioned (create w machine s)
  unfolding create EndsProvisioned Go.Ends
  create-Provisioned machine = then-Provisioned (get_cluster w (new_creator w machine)) _ (λ c1.
      then-Provisioned (get_secret w c1) _ (λ c2.
        Go.if-Ends Unit (λ c s. (c.err ≢ none) ⊎ WrittenDown c s) c2.is_master _ _
          (master_steps-Provisioned c2) (worker_steps-Provisioned c2)))
