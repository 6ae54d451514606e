-- ===== src/Tests/PoolStores.antt =====
-- An API server whose machine sets are a map from names to pools.
use cma_ssh.Prelude.{
  ℕ, String, ◌==◌, string_eq, if◌then◌else◌, ◌≡◌, refl, Bool, true, false, Option, some, none, List,
  [], ◌∷◌,
}
use cma_ssh.Prelude.Int.{ℤ, pos}
use cma_ssh.Prelude.Go.{Result, ok, err, plain_error, internal}
use cma_ssh.Api.Meta.{StringMap, get_string}
use cma_ssh.Api.MachineSet.{CnctMachineSet}
use cma_ssh.World.{World}
use cma_ssh.World.Kube.{Resource}
use cma_ssh.Server.{PoolSpec, ScaleNodePoolSpec}
use cma_ssh.Server.Pools.{pool_machine_set}
use cma_ssh.Server.Pools.Store.{
  Pool, Pools, put, deleted, has_finalizers, refused, add_spec, is_accepted, PoolStore,
}
use cma_ssh.Tests.Demo.{kube, remote, maas, host, crypto, cluster, alive, missing, down, set_of}

-- A pool that is held has the finalizer that its controller gave it.
abbrev finalizers_of : Bool → List String
finalizers_of true = "foregroundDeletion" ∷ []
finalizers_of false = []

abbrev named : String → Pool → CnctMachineSet
named name pool = record (set_of pool.count) {
  metadata = record (set_of pool.count).metadata {
    name = name;
    namespace = "c0";
    finalizers = finalizers_of pool.held;
  };
}

held_by :
    (name : String) (n : ℤ) (held marked : Bool)
    → has_finalizers (named name (record { count = n; held = held; marked = marked })) ≡ held
held_by name n true marked = refl
held_by name n false marked = refl

named-has_finalizers : (name : String) (pool : Pool) → has_finalizers (named name pool) ≡ pool.held
named-has_finalizers name pool = held_by name pool.count pool.held pool.marked

abbrev read : String → Option Pool → Result CnctMachineSet
read name (some pool) = ok (named name pool)
read name none = err missing

abbrev created : CnctMachineSet → Option Pool → Pools → Result CnctMachineSet × Pools
created ms (some _) s = (err down, s)
created ms none s =
    let new : Pool = record {
      count = ms.spec.replicas;
      held = has_finalizers ms;
      marked = false;
    } in
    (ok ms, put ms.metadata.name (some new) s)

abbrev updated : CnctMachineSet → Option Pool → Pools → Result CnctMachineSet × Pools
updated ms none s = (err missing, s)
updated ms (some pool) s =
    (ok ms, put ms.metadata.name (some (record pool { count = ms.spec.replicas })) s)

abbrev removed : CnctMachineSet → Option Pool → Pools → Result (Unit {0}) × Pools
removed ms none s = (err missing, s)
removed ms (some pool) s = (ok tt, put ms.metadata.name (deleted pool) s)

abbrev sets : Resource Pools CnctMachineSet
sets = record {
  get = λ k s. (read k.name (s k.name), s);
  list = λ n s. (ok [], s);
  create = λ ms s. created ms (s ms.metadata.name) s;
  update = λ ms s. updated ms (s ms.metadata.name) s;
  delete = λ ms s. removed ms (s ms.metadata.name) s;
}

-- The name of a pool must not be empty.
abbrev pools_world : World
pools_world = record {
  State = Pools;
  kube = record kube { clusters = alive cluster; machine_sets = sets };
  labels = record {
    Selector = StringMap String;
    label_selector_as_selector = λ l.
        if get_string l.match_labels "node-pool" == ""
        then err (plain_error "invalid label")
        else ok l.match_labels;
    as_selector_pre_validated = λ l. l;
    matches = λ l m. get_string l "node-pool" == get_string m "node-pool";
    empty = λ l. false;
  };
  remote = remote;
  maas = maas;
  host = host;
  crypto = crypto;
}

abbrev store : PoolStore pools_world "c0"
unfolding cma_ssh.Prelude.Go.is_not_found
store = record {
  pools = λ s. s;
  cluster = λ s. (cluster, refl);
  get_some =
      λ name pool s h. (named name pool, rw h refl, refl, refl, named-has_finalizers name pool);
  get_none = λ name s h. (missing, rw h refl, refl);
  create_new = λ ms s placed h. (ms, (created ms none s).1, rw h refl, refl);
  create_again = λ ms pool s placed h. (down, rw h refl);
  update = λ ms pool s placed h kept. (ms, (updated ms (some pool) s).1, rw h refl, refl);
  delete = λ ms pool s placed h. ((removed ms (some pool) s).1, rw h refl, refl);
}

abbrev pool_named : String → PoolSpec
pool_named name = record { name = name; labels = []; instance_type = "standard"; count = pos 2 }

abbrev scaled : ScaleNodePoolSpec
scaled = record { name = "p0"; count = pos 3 }

-- There is one pool, and it is held.
abbrev one_pool : Pools
one_pool = put "p0" (some (record { count = pos 1; held = true; marked = false })) (λ k. none)

-- One pool is added, and one has no name.
abbrev configs : List PoolSpec
configs = pool_named "p1" ∷ pool_named "" ∷ []

-- The second of these pools is refused.
refused_second : (add_spec (is_accepted pools_world "c0") configs one_pool).0 ≡ refused internal
unfolding add_spec is_accepted cma_ssh.Prelude.string_discrete get_string
    cma_ssh.Server.Pools.pool_labels cma_ssh.Api.Meta.set_string cma_ssh.Server.Pools.request_labels
    put
refused_second = refl
