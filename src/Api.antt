-- ===== src/Api.antt =====
-- The API objects of pkg/apis: their types, and the phases and roles of consts.go.
pub mod Phase
pub mod Meta
pub mod Cluster
pub mod Machine
pub mod MachineSet
pub mod AppBundle
