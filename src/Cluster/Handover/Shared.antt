-- ===== src/Cluster/Handover/Shared.antt =====
-- What `createKubeconfig` leaves in the secret for the machines to come.
use cma_ssh.Prelude.{
  String, ◌<>◌, string_eq, string_discrete, ◌≡◌, refl, sym, subst, ◌⊎◌, inl, inr, true, none, some,
  List, ◌∷◌, arith,
}
use cma_ssh.Prelude.Go.{Result, ok, err}
use cma_ssh.Prelude.Go.Ends.{Final}
use cma_ssh.Api.Meta.{StringMap, Secret, find_string, set_string}
use cma_ssh.Api.Meta.Maps.{find_string-set_string}
use cma_ssh.World.{World}
use cma_ssh.Cert.{CaBundle, ca_bundle_from_map}
use cma_ssh.Cert.Export.{kubeconfig}
use cma_ssh.Cert.RoundTrip.{Holds, ca_bundle_from_map_iff}
use cma_ssh.Machine.Create.{Creator, kubeconfig_key, store}
use cma_ssh.Machine.Create.Record.{save_kubeconfig, create_kubeconfig}
use cma_ssh.Cluster.Handover.{SecretStore, Stopped}

module _ (w : World) (secrets : SecretStore w) where
  -- Another key does not change the bundle.
  set_string-Holds :
      (m : StringMap String) (bundle : CaBundle) (text : String)
      → Holds m bundle
      → Holds (set_string m kubeconfig_key text) bundle
  unfolding string_discrete
  set_string-Holds m bundle text h = record {
    root = rw find_string-set_string h.root;
    root_key = rw find_string-set_string h.root_key;
    k8s = rw find_string-set_string h.k8s;
    k8s_key = rw find_string-set_string h.k8s_key;
    etcd = rw find_string-set_string h.etcd;
    etcd_key = rw find_string-set_string h.etcd_key;
    front_proxy = rw find_string-set_string h.front_proxy;
    front_proxy_key = rw find_string-set_string h.front_proxy_key;
    k8s_client = rw find_string-set_string h.k8s_client;
    k8s_client_key = rw find_string-set_string h.k8s_client_key;
  }

  ca_bundle_from_map-set_string :
      (m : StringMap String) (bundle : CaBundle) (text : String)
      → ca_bundle_from_map m ≡ ok bundle
      → ca_bundle_from_map (set_string m kubeconfig_key text) ≡ ok bundle
  ca_bundle_from_map-set_string m bundle text h =
      (ca_bundle_from_map_iff _ bundle).1
        (set_string-Holds m bundle text ((ca_bundle_from_map_iff m bundle).0 h))

  -- The stored secret holds the bundle, and the kubeconfig that is made of it for the address.
  abbrev pub Shares : Creator w → CaBundle → String → w.State → Type 0
  Shares c bundle ip t =
      (text : String) × (m : StringMap String) × (kubeconfig w bundle c.cluster.metadata.name
          ("https://" <> ip <> ":6443")
        ≡ ok text)
      × (secrets.contents c.secret.namespace t ≡ some m)
      × (ca_bundle_from_map m ≡ ok bundle)
      × (find_string m kubeconfig_key ≡ some text)

  find_string-kubeconfig_key :
      (m : StringMap String) (text : String)
      → find_string (set_string m kubeconfig_key text) kubeconfig_key ≡ some text
  unfolding string_discrete
  find_string-kubeconfig_key m text = rw find_string-set_string refl

  abbrev Saved : Creator w → CaBundle → String → Creator w → w.State → Type 0
  Saved c bundle ip d t = Stopped w secrets d ⊎ Shares c bundle ip t

  abbrev with_kubeconfig : Creator w → String → Secret
  with_kubeconfig c text = record c.secret {
    contents = set_string c.secret.contents kubeconfig_key text;
  }

  updated-Saved :
      (c : Creator w) (bundle : CaBundle) (ip text : String) (s : w.State) (r : Result Secret)
      (t : w.State)
      → ca_bundle_from_map c.secret.contents ≡ ok bundle
      → c.secret.name ≡ "cluster-private-key"
      → kubeconfig w bundle c.cluster.metadata.name ("https://" <> ip <> ":6443") ≡ ok text
      → w.kube.secrets.update (with_kubeconfig c text) s ≡ (r, t)
      → Final ⊥ (Saved c bundle ip) (
          store w r (record c { secret = with_kubeconfig c text }) (λ x. record c { secret = x }) t)
  updated-Saved c bundle ip text s (ok x) t b n k u = inr (
    text,
    set_string c.secret.contents kubeconfig_key text,
    k,
    secrets.updated (with_kubeconfig c text) x s t u n,
    ca_bundle_from_map-set_string c.secret.contents bundle text b,
    find_string-kubeconfig_key c.secret.contents text,
  )
  updated-Saved c bundle ip text s (err e) t b n k u = inl (e, refl)

  encoded-Saved :
      (c : Creator w) (bundle : CaBundle) (ip : String) (s : w.State) (r : Result String)
      → ca_bundle_from_map c.secret.contents ≡ ok bundle
      → c.secret.name ≡ "cluster-private-key"
      → kubeconfig w bundle c.cluster.metadata.name ("https://" <> ip <> ":6443") ≡ r
      → Final ⊥ (Saved c bundle ip) (save_kubeconfig w c r s)
  encoded-Saved c bundle ip s (ok text) b n k = updated-Saved c bundle ip text s _ _ b n k refl
  encoded-Saved c bundle ip s (err e) b n k = inl (e, refl)

  create_kubeconfig_lem :
      (c : Creator w) (bundle : CaBundle) (ip : String) (ips : List String) (s : w.State)
      → c.err ≡ none
      → c.is_master ≡ true
      → c.create_response.ip_addresses ≡ ip ∷ ips
      → ca_bundle_from_map c.secret.contents ≡ ok bundle
      → create_kubeconfig w c s
        ≡ save_kubeconfig w c
            (kubeconfig w bundle c.cluster.metadata.name ("https://" <> ip <> ":6443"))
            s
  unfolding create_kubeconfig
  create_kubeconfig_lem c bundle ip ips s e m i b = ground arith

  -- Let a master's creator without an error have an address and a secret of the cluster that gives a
  -- bundle. Then `createKubeconfig` does not panic, and it sets an error, or the stored secret gives
  -- the same bundle and holds the kubeconfig that is made of it for the first address. Of the API
  -- server it is used that it keeps what an accepted update sends.
  pub create_kubeconfig-Shares :
      (c : Creator w) (bundle : CaBundle) (ip : String) (ips : List String) (s : w.State)
      → c.err ≡ none
      → c.is_master ≡ true
      → c.create_response.ip_addresses ≡ ip ∷ ips
      → ca_bundle_from_map c.secret.contents ≡ ok bundle
      → c.secret.name ≡ "cluster-private-key"
      → Final ⊥ (λ d t. Stopped w secrets d ⊎ Shares c bundle ip t) (create_kubeconfig w c s)
  create_kubeconfig-Shares c bundle ip ips s e m i b n =
      subst (Final ⊥ (Saved c bundle ip)) (sym (create_kubeconfig_lem c bundle ip ips s e m i b))
        (encoded-Saved c bundle ip s _ b n refl)
