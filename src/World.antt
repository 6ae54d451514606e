-- ===== src/World.antt =====
-- Everything outside the program, as the parameter of its functions: the Kubernetes API server
-- behind the controller-runtime client, the managed clusters behind client-go, MAAS behind
-- gomaasapi, and the host (time, random numbers, the scheduler, libraries). `State` is the state of
-- all that; a call may change it in any way.
pub mod Kube
pub mod Remote
pub mod Maas
pub mod Host
pub mod Crypto

pub record World : Type 1 where
  pub State : Type 0
  pub kube : Kube.Kube State
  pub labels : Kube.Labels
  pub remote : Remote.Remote State
  pub maas : Maas.Maas State
  pub host : Host.Host State
  pub crypto : Crypto.Crypto State
