-- ===== src/Cert/RoundTrip.antt =====
-- A bundle written into a secret's data is read back whole.
use cma_ssh.Prelude.{String, string_eq, string_discrete, ◌≡◌, ◌↔◌, some, arith}
use cma_ssh.Prelude.Go.{ok}
use cma_ssh.Api.Meta.{StringMap, find_string}
use cma_ssh.Api.Meta.Maps.{find_string-set_string}
use cma_ssh.Cert.{CaBundle, ca_bundle_from_map, merge_with_map, read_keys, set}

-- The map holds every part of the bundle under its key.
pub record Holds (m : StringMap String) (c : CaBundle) : Type 0 where
  pub root : find_string m "root.crt" ≡ some c.root
  pub root_key : find_string m "root.key" ≡ some c.root_key
  pub k8s : find_string m "ca.crt" ≡ some c.k8s
  pub k8s_key : find_string m "ca.key" ≡ some c.k8s_key
  pub etcd : find_string m "etcd.crt" ≡ some c.etcd
  pub etcd_key : find_string m "etcd.key" ≡ some c.etcd_key
  pub front_proxy : find_string m "front-proxy.crt" ≡ some c.front_proxy
  pub front_proxy_key : find_string m "front-proxy.key" ≡ some c.front_proxy_key
  pub k8s_client : find_string m "k8s-client.crt" ≡ some c.k8s_client
  pub k8s_client_key : find_string m "k8s-client.key" ≡ some c.k8s_client_key

ca_bundle_from_map-Holds :
    (m : StringMap String) (c : CaBundle) → Holds m c → ca_bundle_from_map m ≡ ok c
unfolding ca_bundle_from_map read_keys set string_discrete
ca_bundle_from_map-Holds m c h = ground arith

Holds-ca_bundle_from_map :
    (m : StringMap String) (c : CaBundle) → ca_bundle_from_map m ≡ ok c → Holds m c
unfolding ca_bundle_from_map read_keys set string_discrete
Holds-ca_bundle_from_map m c h = ground arith

-- A bundle is read from a map exactly if the map holds each of its ten parts under that part's key.
pub ca_bundle_from_map_iff :
    (m : StringMap String) (c : CaBundle) → (ca_bundle_from_map m ≡ ok c) ↔ Holds m c
ca_bundle_from_map_iff m c = (Holds-ca_bundle_from_map m c, ca_bundle_from_map-Holds m c)

merge_with_map-Holds : (c : CaBundle) (m : StringMap String) → Holds (merge_with_map c m) c
unfolding merge_with_map string_discrete
merge_with_map-Holds c m = record {
  root = simp find_string-set_string;
  root_key = simp find_string-set_string;
  k8s = simp find_string-set_string;
  k8s_key = simp find_string-set_string;
  etcd = simp find_string-set_string;
  etcd_key = simp find_string-set_string;
  front_proxy = simp find_string-set_string;
  front_proxy_key = simp find_string-set_string;
  k8s_client = simp find_string-set_string;
  k8s_client_key = simp find_string-set_string;
}

-- Whatever the map held before, a bundle merged into it is the bundle that is read from it.
pub ca_bundle_from_map-merge_with_map :
    (c : CaBundle) (m : StringMap String) → ca_bundle_from_map (merge_with_map c m) ≡ ok c
ca_bundle_from_map-merge_with_map c m =
    ca_bundle_from_map-Holds (merge_with_map c m) c (merge_with_map-Holds c m)
