-- ===== src/MachineSet.antt =====
-- pkg/controller/machineset: the controller that keeps as many machines as a MachineSet asks for.
pub mod Policy
pub mod Select
pub mod Sync
pub mod Status
pub mod Reconcile
