-- ===== src/Tests/Bundles.antt =====
-- Runs of the app bundle controller.
use cma_ssh.Prelude.{
  arith, ◌≡◌, refl, Bool, true, false, ◌||◌, ◌&&◌, not, none, some, List, [], ◌∷◌,
}
use cma_ssh.Prelude.Go.{done, ok, err, Err, Result, is_not_found}
use cma_ssh.Prelude.Go.Ends.{Final}
use cma_ssh.Api.Meta.{ObjectKey, empty_meta, finished}
use cma_ssh.Api.Phase.{running_cluster}
use cma_ssh.Api.AppBundle.{AppBundle, AppBundleStatusPhase, unset_app_bundle}
use cma_ssh.Api.Cluster.{CnctCluster}
use cma_ssh.World.{World}
use cma_ssh.Bundle.{install, reconcile}
use cma_ssh.Bundle.Again.{
  Part, namespace_part, account_part, binding_part, job_part, same_part, is_namespaced, Object,
  get_part, create_part, PartStore, install-again,
}
use cma_ssh.World.Remote.{ClusterRoleBinding, Job, Objects}
use cma_ssh.Bundle.Installation.{Progress, reconcile-Progress}
use cma_ssh.Tests.Demo.{up, alive, cluster, kube, labels, remote, maas, host, crypto, missing}

abbrev bundle_in : AppBundleStatusPhase → AppBundle
bundle_in phase = record {
  metadata = record empty_meta { name = "prometheus"; namespace = "ns" };
  spec = record { image = "installer:latest"; command = "" };
  status = record { phase = phase };
}

abbrev running : CnctCluster
running = record cluster { status = record cluster.status { phase = running_cluster } }

-- A running cluster, and a bundle in this phase.
abbrev with_bundle : AppBundleStatusPhase → World
with_bundle phase = record up {
  kube = record up.kube { clusters = alive running; app_bundles = alive (bundle_in phase) };
}

abbrev key : ObjectKey
key = record { namespace = "ns"; name = "prometheus" }

reconcile-Progress_example :
    Final ⊥
      (Progress (with_bundle unset_app_bundle) (bundle_in unset_app_bundle) tt (running ∷ []))
      (reconcile (with_bundle unset_app_bundle) key tt)
reconcile-Progress_example =
    reconcile-Progress (with_bundle unset_app_bundle) key (bundle_in unset_app_bundle)
      (running ∷ []) tt tt tt refl refl refl

-- The installation goes through in this world.
installed : reconcile (with_bundle unset_app_bundle) key tt ≡ (done finished, tt)
unfolding reconcile cma_ssh.Bundle.reconcile_bundle cma_ssh.Bundle.install_in
    cma_ssh.Api.Meta.find_string cma_ssh.Prelude.string_discrete
    cma_ssh.Machine.Ready.ready_clientset cma_ssh.Bundle.install_and_mark cma_ssh.Bundle.install
    cma_ssh.Bundle.create_namespace cma_ssh.Prelude.Go.is_not_found
    cma_ssh.Bundle.create_service_account cma_ssh.Bundle.create_cluster_role_binding
    cma_ssh.Bundle.create_install_job
installed = refl

-- A managed cluster that keeps what is created: its state says which parts are there.
abbrev Parts : Type 0
Parts = Part → Bool

abbrev answer : {T : Type 0} → T → Bool → Result T
answer x true = ok x
answer x false = err missing

-- An object is refused where its namespace is missing.
abbrev accepted : {T : Type 0} → Part → T → Bool → Parts → Result T × Parts
accepted p y true s = (err missing, s)
accepted p y false s = (ok y, λ q. same_part p q || s q)

abbrev part_objects : {C T : Type 0} → Part → T → Objects Parts C T
part_objects p x = record {
  get = λ c k s. (answer x (s p), s);
  create = λ c n y s. accepted p y (is_namespaced p && not (s namespace_part)) s;
}

abbrev binding : ClusterRoleBinding
binding = record { metadata = empty_meta; subjects = []; role_ref = ("", "", "") }

abbrev job : Job
job = record {
  metadata = empty_meta;
  service_account_name = "";
  containers = [];
  restart_policy = "";
}

abbrev parts_world : World
parts_world = record {
  State = Parts;
  kube = kube;
  labels = labels;
  remote = record remote {
    namespaces = part_objects namespace_part empty_meta;
    service_accounts = part_objects account_part empty_meta;
    cluster_role_bindings = part_objects binding_part binding;
    jobs = part_objects job_part job;
  };
  maas = maas;
  host = host;
  crypto = crypto;
}

abbrev prometheus : AppBundle
prometheus = bundle_in unset_app_bundle

get_there :
    (p : Part) (s : Parts)
    → s p ≡ true
    → (x : Object p) × (get_part parts_world tt prometheus p s ≡ (ok x, s))
get_there namespace_part s h = (empty_meta, rw h refl)
get_there account_part s h = (empty_meta, rw h refl)
get_there binding_part s h = (binding, rw h refl)
get_there job_part s h = (job, rw h refl)

get_missing :
    (p : Part) (s : Parts)
    → s p ≡ false
    → (e : Err) × (get_part parts_world tt prometheus p s ≡ (err e, s)) × (is_not_found e ≡ true)
unfolding is_not_found
get_missing namespace_part s h = (missing, rw h refl, refl)
get_missing account_part s h = (missing, rw h refl, refl)
get_missing binding_part s h = (missing, rw h refl, refl)
get_missing job_part s h = (missing, rw h refl, refl)

accepted_new :
    {T : Type 0} (p : Part) (y : T) (b : Bool) (s : Parts)
    → b ≡ false
    → (x : T) × (t : Parts) × (accepted p y b s ≡ (ok x, t))
      × ((q : Part) → t q ≡ (same_part p q || s q))
accepted_new p y true s e = ground arith
accepted_new p y false s e = (y, _, refl, λ q. refl)

create_new :
    (p : Part) (s : Parts)
    → s p ≡ false
    → (is_namespaced p ≡ true → s namespace_part ≡ true)
    → (x : Object p) × (t : Parts) × (create_part parts_world tt prometheus p s ≡ (ok x, t))
      × ((q : Part) → t q ≡ (same_part p q || s q))
create_new namespace_part s h placed = (_, _, refl, λ q. refl)
create_new account_part s h placed = accepted_new account_part _ _ s (rw (placed refl) refl)
create_new binding_part s h placed = (_, _, refl, λ q. refl)
create_new job_part s h placed = accepted_new job_part _ _ s (rw (placed refl) refl)

abbrev part_store : PartStore parts_world tt prometheus
part_store = record {
  has = λ s. s;
  get_there = get_there;
  get_missing = get_missing;
  create_new = create_new;
}

-- Nothing is there but the binding.
abbrev begun : Parts
begun p = same_part p binding_part

install-again_example :
    (t : Parts) × (install parts_world tt prometheus begun ≡ (done tt, t))
    × ((p : Part) → t p ≡ true)
    × (install parts_world tt prometheus t ≡ (done tt, t))
install-again_example = install-again parts_world tt prometheus part_store begun
