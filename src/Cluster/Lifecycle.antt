-- ===== src/Cluster/Lifecycle.antt =====
-- What a reconcile of a cluster writes, seen through a property of the outside world that the calls
-- which only read keep.
use cma_ssh.Prelude.{
  String, ◌≡◌, refl, sym, subst, Bool, true, false, Option, none, some, List, [], ◌∷◌,
  if◌then◌else◌, arith,
}
use cma_ssh.Prelude.Go.{
  Outcome, done, Exec, Result, ok, err, is_not_found, call, attempt, wrap, throw,
}
use cma_ssh.Prelude.Go.Kept.{KeptBy, KeptBy-bind, KeptBy-if}
use cma_ssh.Api.Meta.{ObjectKey, ObjectMeta}
use cma_ssh.Api.Phase.{
  ClusterStatusPhase, unset_cluster, reconciling_cluster, running_cluster, unspecified_cluster,
  stopping_cluster, error_cluster, other_cluster,
}
use cma_ssh.Api.Cluster.{CnctCluster}
use cma_ssh.Api.Machine.{CnctMachine}
use cma_ssh.World.{World}
use cma_ssh.Cert.{CaBundle}
use cma_ssh.Cert.Issue.{new_ca_bundle}
use cma_ssh.Cert.Issue.Kept.{Signing, new_ca_bundle-KeptBy}
use cma_ssh.Machine.Create.{private_key}
use cma_ssh.Machine.Ready.{ready_clientset}
use cma_ssh.Cluster.{
  can_claim, claimed_machine, claim_machines, cluster_secret, create_cluster_secrets, update_status,
  freshened, with_cluster_phase, with_services, config_of, with_config, check_services, start,
  handle_phase, reconcile_cluster,
}

-- One step in the life of a cluster.
pub data Next : ClusterStatusPhase → ClusterStatusPhase → Type 0 where
  started : Next unset_cluster reconciling_cluster
  came_up : Next reconciling_cluster running_cluster

pub record Outside (w : World) (I : w.State → Type 0) (cluster : CnctCluster) : Type 0 where
  -- A machine that no controller has gets the cluster as its controller.
  pub claim :
      (m : CnctMachine)
      → can_claim m ≡ true
      → KeptBy I (w.kube.machines.update (claimed_machine w cluster m))
  -- A cluster gets the next phase.
  pub update_cluster :
      (x : CnctCluster)
      → Next cluster.status.phase x.status.phase
      → KeptBy I (w.kube.clusters.update x)
  -- For a cluster without a phase a secret is made of a bundle.
  pub create_secret :
      (bundle : CaBundle)
      → cluster.status.phase ≡ unset_cluster
      → KeptBy I (w.kube.secrets.create (cluster_secret cluster bundle))
  pub list_machines : (namespace : String) → KeptBy I (w.kube.machines.list namespace)
  pub get_cluster : (k : ObjectKey) → KeptBy I (w.kube.clusters.get k)
  pub get_secret : (k : ObjectKey) → KeptBy I (w.kube.secrets.get k)
  pub list_services : (c : w.remote.Clientset) → KeptBy I (w.remote.list_services c)
  pub eventf : (o : ObjectMeta) (t r m : String) (s : w.State) → I s → I (w.kube.eventf o t r m s)
  pub signing : Signing w I

module _ (w : World) (I : w.State → Type 0) (cluster : CnctCluster)
    (outside : Outside w I cluster) where
  -- The rounds after the update of a machine, and a round.
  updated-KeptBy :
      (r : Result CnctMachine) (rest : Exec w.State (Unit {0})) (t : w.State)
      → KeptBy I rest
      → I t
      → I (elim r as (λ _. Outcome (Unit {0}) × w.State) [ ok _ ↦ rest t | err e ↦ throw e t ]).1
  updated-KeptBy (ok _) rest t h i = h t i
  updated-KeptBy (err e) rest t h i = i

  round-KeptBy :
      (machine : CnctMachine) (rest : Exec w.State (Unit {0})) (s : w.State)
      → KeptBy I rest
      → I s
      → (b : Bool) → can_claim machine ≡ b
      → I
          (if b
            then (let (r, t) = w.kube.machines.update (claimed_machine w cluster machine) s in
                elim r as (λ _. Outcome (Unit {0}) × w.State) [ ok _ ↦ rest t | err e ↦ throw e t ])
            else rest s).1
  round-KeptBy machine rest s h i true e = updated-KeptBy _ rest _ h (outside.claim machine e s i)
  round-KeptBy machine rest s h i false e = h s i

  claim_machines-KeptBy :
      (machines : List CnctMachine) → KeptBy I (claim_machines w cluster machines)
  unfolding claim_machines
  claim_machines-KeptBy [] s i = i
  claim_machines-KeptBy (machine ∷ machines) s i =
      round-KeptBy machine (claim_machines w cluster machines) s (claim_machines-KeptBy machines) i
        (can_claim machine) refl

  create_cluster_secrets-KeptBy :
      cluster.status.phase ≡ unset_cluster → KeptBy I (create_cluster_secrets w cluster)
  unfolding create_cluster_secrets
  create_cluster_secrets-KeptBy e =
      KeptBy-bind I (new_ca_bundle w) _ (new_ca_bundle-KeptBy w I outside.signing) (λ bundle.
        KeptBy-bind I (call (w.kube.secrets.create (cluster_secret cluster bundle))) _
          (outside.create_secret bundle e) (λ created s i. i))

  update_status-KeptBy :
      (instance_ : CnctCluster) (event_type event event_message : String)
      → Next cluster.status.phase instance_.status.phase
      → KeptBy I (update_status w instance_ event_type event event_message)
  unfolding update_status
  update_status-KeptBy instance_ event_type event event_message next =
      KeptBy-bind I (call (w.kube.clusters.get _)) _ (outside.get_cluster _) (λ fresh s i.
        KeptBy-bind I (call (w.kube.clusters.update (freshened w instance_ fresh (w.host.now s).0)))
          (λ updated t. (done tt, w.kube.eventf updated.metadata event_type event event_message t))
          (outside.update_cluster (freshened w instance_ fresh (w.host.now s).0) next)
          (λ updated t h. outside.eventf updated.metadata event_type event event_message t h)
          (w.host.now s).1 (outside.signing.now s i))

  start-KeptBy : cluster.status.phase ≡ unset_cluster → KeptBy I (start w cluster)
  unfolding start
  start-KeptBy e =
      KeptBy-bind I (create_cluster_secrets w cluster) _ (create_cluster_secrets-KeptBy e) (λ _.
        KeptBy-bind I (update_status w (with_cluster_phase reconciling_cluster cluster) _ _ _) _
          (update_status-KeptBy (with_cluster_phase reconciling_cluster cluster) _ _ _
            (subst (λ p. Next p reconciling_cluster) (sym e) started))
          (λ _ s i. i))

  with_services-KeptBy :
      cluster.status.phase ≡ reconciling_cluster
      → (r : Result (List String)) → KeptBy I (with_services w cluster r)
  with_services-KeptBy e (err x) = KeptBy-if I (is_not_found x) _ _ (λ s i. i) (λ s i. i)
  with_services-KeptBy e (ok []) = λ s i. i
  with_services-KeptBy e (ok (_ ∷ _)) =
      KeptBy-bind I
        (wrap "could not update cluster status"
          (call (w.kube.clusters.update (with_cluster_phase running_cluster cluster))))
        _
        (outside.update_cluster (with_cluster_phase running_cluster cluster)
          (subst (λ p. Next p running_cluster) (sym e) came_up))
        (λ updated s i. i)

  ready_clientset-KeptBy : (config_data : String) → KeptBy I (ready_clientset w config_data)
  unfolding ready_clientset
  ready_clientset-KeptBy config_data s i = ground arith

  with_config-KeptBy :
      cluster.status.phase ≡ reconciling_cluster
      → (found : Option String) → KeptBy I (with_config w cluster found)
  with_config-KeptBy e none = λ s i. i
  with_config-KeptBy e (some config_data) =
      KeptBy-bind I (ready_clientset w config_data) _ (ready_clientset-KeptBy config_data)
        (λ clientset.
          KeptBy-bind I (attempt (w.remote.list_services clientset)) (with_services w cluster)
            (outside.list_services clientset) (with_services-KeptBy e))

  check_services-KeptBy :
      cluster.status.phase ≡ reconciling_cluster → KeptBy I (check_services w cluster)
  unfolding check_services
  check_services-KeptBy e =
      KeptBy-bind I (attempt (w.kube.secrets.get (private_key cluster.metadata.namespace)))
        (λ secret. with_config w cluster (config_of w secret))
        (outside.get_secret (private_key cluster.metadata.namespace))
        (λ secret. with_config-KeptBy e (config_of w secret))

  handle_phase-KeptBy :
      (p : ClusterStatusPhase) → cluster.status.phase ≡ p → KeptBy I (handle_phase w p cluster)
  handle_phase-KeptBy unset_cluster e = start-KeptBy e
  handle_phase-KeptBy reconciling_cluster e = check_services-KeptBy e
  handle_phase-KeptBy unspecified_cluster e = λ s i. i
  handle_phase-KeptBy running_cluster e = λ s i. i
  handle_phase-KeptBy stopping_cluster e = λ s i. i
  handle_phase-KeptBy error_cluster e = λ s i. i
  handle_phase-KeptBy (other_cluster text) e = λ s i. i

  -- Take any property of the outside world that is kept by the calls of the cluster controller that
  -- only read, record an event or make certificates, and by these writes: that a machine which no
  -- controller has gets the cluster as its controller, that a secret for the cluster is created while
  -- the cluster has no phase, and that a cluster gets the phase Reconciling if the one that was read
  -- has no phase, and Running if it is Reconciling. `Reconcile` of a cluster that was read keeps the
  -- property, whatever it is answered: it writes nothing else, takes no machine from a controller and
  -- deletes nothing.
  pub reconcile_cluster-KeptBy :
      (request : ObjectKey) (s : w.State) → I s → I (reconcile_cluster w request cluster s).1
  unfolding reconcile_cluster
  reconcile_cluster-KeptBy request =
      KeptBy-bind I (call (w.kube.machines.list request.namespace)) _
        (outside.list_machines request.namespace)
        (λ machines.
          KeptBy-bind I (claim_machines w cluster machines) _ (claim_machines-KeptBy machines)
            (λ _. handle_phase-KeptBy cluster.status.phase refl))
