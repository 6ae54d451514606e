-- ===== src/Machine.antt =====
-- pkg/controller/machine: the controller that creates machines in MAAS and takes them down.
pub mod Images
pub mod Create
pub mod Delete
pub mod Ready
pub mod Reconcile
pub mod Lifecycle
