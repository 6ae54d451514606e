-- ===== src/Tests/Handovers.antt =====
-- An API server that keeps the secret of each cluster, and what machines find there.
use cma_ssh.Prelude.{
  String, string_eq, ◌==◌, ◌≡◌, refl, ap, Bool, true, not, ◌⊎◌, Option, none, some, [], ◌∷◌,
  if◌then◌else◌, arith,
}
use cma_ssh.Prelude.Go.{Result, ok, err, ◌>>=◌}
use cma_ssh.Prelude.Go.Ends.{Final}
use cma_ssh.Api.Meta.{StringMap, Secret, ObjectKey}
use cma_ssh.World.{World}
use cma_ssh.World.Kube.{Kube, Resource}
use cma_ssh.Cert.{CaBundle, ca_bundle_from_map}
use cma_ssh.Cluster.{create_cluster_secrets}
use cma_ssh.Cluster.Handover.{SecretStore, Stopped}
use cma_ssh.Cluster.Handover.Shared.{Shares, create_kubeconfig-Shares}
use cma_ssh.Cluster.Handover.Trust.{Trusted, get_secret-Trusted}
use cma_ssh.Machine.Create.{Creator, new_creator, get_secret}
use cma_ssh.Machine.Create.Record.{create_kubeconfig}
use cma_ssh.Tests.Certificates.{authority, reading, creates, parses}
use cma_ssh.Tests.Demo.{kube, machine, cluster, missing, secret}

abbrev Stored : Type 0
Stored = String → Option (StringMap String)

-- The next key, and the secrets.
abbrev Kept : Type 0
Kept = Bool × Stored

abbrev put : Secret → Kept → Kept
put x (key, stored) = (key, λ ns. if ns == x.namespace then some x.contents else stored ns)

abbrev read : String → Option (StringMap String) → Result Secret
read ns none = err missing
read ns (some m) = ok (record secret { namespace = ns; contents = m })

abbrev keeping : Resource Kept Secret
keeping = record {
  get = λ k s. (read k.namespace (s.1 k.namespace), s);
  list = λ ns s. (ok [], s);
  create = λ x s. (ok x, put x s);
  update = λ x s. (ok x, put x s);
  delete = λ x s. (ok tt, s);
}

abbrev keeper : Kube Kept
keeper = record kube { secrets = keeping }

abbrev draw : Kept → Bool
draw s = s.0

abbrev next : Kept → Kept
next s = (not s.0, s.1)

abbrev kept_world : World
kept_world = authority keeper draw next

read-contents :
    (ns : String) (o : Option (StringMap String)) (x : Secret)
    → read ns o ≡ ok x
    → o ≡ some x.contents
read-contents ns o x h = ground arith

put-contents :
    (x y : Secret) (s t : Kept) → keeping.create x s ≡ (ok y, t) → t.1 x.namespace ≡ some x.contents
put-contents x y s t h = ground arith

abbrev secrets : SecretStore kept_world
secrets = record {
  contents = λ ns s. s.1 ns;
  got = λ ns x s t h. read-contents ns (s.1 ns) x (ap (λ p. p.0) h);
  created = λ x y s t h n. put-contents x y s t h;
  updated = λ x y s t h n. put-contents x y s t h;
}

abbrev nothing : Kept
nothing = (true, λ ns. none)

get_secret-Trusted_example :
    Final ⊥
      (λ d _. Trusted kept_world (reading keeper draw next) secrets d)
      ((create_cluster_secrets kept_world cluster >>= λ _.
          get_secret kept_world (new_creator kept_world machine))
        nothing)
get_secret-Trusted_example =
    get_secret-Trusted kept_world (reading keeper draw next) secrets (creates keeper draw next)
      (parses keeper draw next) cluster (new_creator kept_world machine) nothing refl refl

abbrev bundle : CaBundle
bundle = record {
  root = "a";
  root_key = "b";
  k8s = "c";
  k8s_key = "d";
  etcd = "e";
  etcd_key = "f";
  front_proxy = "g";
  front_proxy_key = "h";
  k8s_client = "i";
  k8s_client_key = "j";
}

-- A master that MAAS has deployed.
abbrev deployed : Creator kept_world
deployed = record (new_creator kept_world machine) {
  is_master = true;
  cluster = cluster;
  secret = secret;
  create_response = record {
    provider_id = "";
    ip_addresses = "10.0.0.1" ∷ [];
    system_id = "x1";
    hostname = "h";
  };
}

secret-bundle : ca_bundle_from_map secret.contents ≡ ok bundle
unfolding ca_bundle_from_map cma_ssh.Cert.read_keys cma_ssh.Api.Meta.find_string
    cma_ssh.Prelude.string_discrete cma_ssh.Cert.set
secret-bundle = refl

create_kubeconfig-Shares_example :
    Final ⊥
      (λ d t. Stopped kept_world secrets d ⊎ Shares kept_world secrets deployed bundle "10.0.0.1" t)
      (create_kubeconfig kept_world deployed nothing)
create_kubeconfig-Shares_example =
    create_kubeconfig-Shares kept_world secrets deployed bundle "10.0.0.1" [] nothing refl refl refl
      secret-bundle refl
