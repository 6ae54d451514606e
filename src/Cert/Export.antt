-- ===== src/Cert/Export.antt =====
-- `ToTar` and `Kubeconfig` of pkg/cert/gen_cert.go: the bundle as an archive and as a kubeconfig.
use cma_ssh.Prelude.{ℕ, String, ◌<>◌, true, false, List, [], ◌∷◌}
use cma_ssh.Prelude.Go.{Exec, return, wrap, observe, ◌>>=◌, Result, lift}
use cma_ssh.World.{World}
use cma_ssh.World.Host.{KubeConfig}
use cma_ssh.Cert.{CaBundle}

-- A file of the archive, with its mode (0644 is 420 and 0600 is 384).
pub record TarFile : Type 0 where
  pub name : String
  pub body : String
  pub mode : ℕ

abbrev pub tar_files : CaBundle → List TarFile
tar_files c =
    record { name = "etcd/ca.crt"; body = c.etcd; mode = 420 }
    ∷ record { name = "etcd/ca.key"; body = c.etcd_key; mode = 384 }
    ∷ record { name = "ca.crt"; body = c.k8s; mode = 420 }
    ∷ record { name = "ca.key"; body = c.k8s_key; mode = 384 }
    ∷ record { name = "front-proxy-ca.crt"; body = c.front_proxy; mode = 420 }
    ∷ record { name = "front-proxy-ca.key"; body = c.front_proxy_key; mode = 384 }
    ∷ []

-- The `api.Config` of `Kubeconfig`.
unfoldable pub kubeconfig_of : CaBundle → String → String → KubeConfig
kubeconfig_of c name apiserver_address = record {
  clusters = (name, (apiserver_address, c.k8s)) ∷ [];
  contexts = ("kubernetes-admin@" <> name, (name, "kubernetes-admin")) ∷ [];
  auth_infos = ("kubernetes-admin", (c.k8s_client_key, c.k8s_client)) ∷ [];
  current_context = "kubernetes-admin@" <> name;
}

module _ (w : World) where
  -- The loop over the files.
  unfoldable pub write_files : List TarFile → w.host.TarWriter → Exec w.State w.host.TarWriter
  write_files [] tw = return tw
  write_files (file ∷ files) tw = do
    now ← observe w.host.now
    tw1 ← wrap "could not write tar header" (λ s. (
      lift (
          w.host.write_header
            (record {
              name = file.name;
              mode = file.mode;
              is_dir = false;
              mod_time = now;
              size = w.host.byte_length file.body;
            })
            tw),
      s,
    ))
    tw2 ← wrap "could not write tar body" (λ s. (lift (w.host.write_body file.body tw1), s))
    write_files files tw2

  unfoldable pub to_tar : CaBundle → Exec w.State String
  to_tar c = do
    now ← observe w.host.now
    tw ← wrap "could not write etcd dir tar header" (λ s. (
      lift (
          w.host.write_header
            (record { name = "etcd/"; mode = 493; is_dir = true; mod_time = now; size = 0 })
            w.host.new_tar_writer),
      s,
    ))
    tw1 ← write_files (tar_files c) tw
    tw2 ← wrap "could not close tar writer" (λ s. (lift (w.host.close_tar tw1), s))
    wrap "could not close b64 encoder" (λ s. (lift (w.host.finish_base64 tw2), s))

  unfoldable pub kubeconfig : CaBundle → String → String → Result String
  kubeconfig c name apiserver_address =
      w.host.encode_kubeconfig (kubeconfig_of c name apiserver_address)
