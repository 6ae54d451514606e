-- ===== src/Cert.antt =====
-- pkg/cert/gen_cert.go: the bundle of certificates and keys as the data of a secret. Byte slices
-- are strings.
pub mod RoundTrip
pub mod Export
pub mod Issue
use cma_ssh.Prelude.{
  String, ◌<>◌, string_eq, ◌==◌, List, [], ◌∷◌, Option, none, some, if◌then◌else◌,
}
use cma_ssh.Prelude.Go.{Result, ok, err, plain_error}
use cma_ssh.Api.Meta.{StringMap, find_string, set_string}

pub record CaBundle : Type 0 where
  pub root : String
  pub root_key : String
  pub k8s : String
  pub k8s_key : String
  pub etcd : String
  pub etcd_key : String
  pub front_proxy : String
  pub front_proxy_key : String
  pub k8s_client : String
  pub k8s_client_key : String

abbrev empty_bundle : CaBundle
empty_bundle = record {
  root = "";
  root_key = "";
  k8s = "";
  k8s_key = "";
  etcd = "";
  etcd_key = "";
  front_proxy = "";
  front_proxy_key = "";
  k8s_client = "";
  k8s_client_key = "";
}

-- `Set`: a key that is none of the ten changes nothing.
unfoldable pub set : String → String → CaBundle → CaBundle
set key value c =
    if key == "root.crt"
    then record c { root = value }
    else if key == "root.key"
    then record c { root_key = value }
    else if key == "ca.crt"
    then record c { k8s = value }
    else if key == "ca.key"
    then record c { k8s_key = value }
    else if key == "etcd.crt"
    then record c { etcd = value }
    else if key == "etcd.key"
    then record c { etcd_key = value }
    else if key == "front-proxy.crt"
    then record c { front_proxy = value }
    else if key == "front-proxy.key"
    then record c { front_proxy_key = value }
    else if key == "k8s-client.crt"
    then record c { k8s_client = value }
    else if key == "k8s-client.key"
    then record c { k8s_client_key = value }
    else c

abbrev map_keys : List String
map_keys =
    "root.crt" ∷ "root.key" ∷ "ca.crt" ∷ "ca.key" ∷ "etcd.crt" ∷ "etcd.key" ∷ "front-proxy.crt"
    ∷ "front-proxy.key" ∷ "k8s-client.crt" ∷ "k8s-client.key" ∷ []

-- The loop of `CABundleFromMap` over the keys left.
unfoldable pub read_keys : List String → StringMap String → CaBundle → Result CaBundle
read_keys [] m bundle = ok bundle
read_keys (key ∷ keys) m bundle = elim (find_string m key) [
  | none ↦ err (plain_error ("key " <> key <> " not found in data"))
  | some val ↦ read_keys keys m (set key val bundle)
]

unfoldable pub ca_bundle_from_map : StringMap String → Result CaBundle
ca_bundle_from_map m = read_keys map_keys m empty_bundle

-- `MergeWithMap` writes into the map that it is given.
unfoldable pub merge_with_map : CaBundle → StringMap String → StringMap String
merge_with_map c m0 =
    let m1 = set_string m0 "root.crt" c.root in
    let m2 = set_string m1 "root.key" c.root_key in
    let m3 = set_string m2 "ca.crt" c.k8s in
    let m4 = set_string m3 "ca.key" c.k8s_key in
    let m5 = set_string m4 "etcd.crt" c.etcd in
    let m6 = set_string m5 "etcd.key" c.etcd_key in
    let m7 = set_string m6 "front-proxy.crt" c.front_proxy in
    let m8 = set_string m7 "front-proxy.key" c.front_proxy_key in
    let m9 = set_string m8 "k8s-client.crt" c.k8s_client in
    set_string m9 "k8s-client.key" c.k8s_client_key
