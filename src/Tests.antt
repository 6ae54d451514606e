-- ===== src/Tests.antt =====
-- Concrete runs of the program, in which the theorems apply.
mod Demo
mod Sort
mod Honest
mod MachineSets
mod Machines
mod Clusters
mod Servers
mod Bundles
mod Certificates
mod Evictions
mod PoolStores
mod Startups
mod Sites
mod Lifecycles
mod Handovers
mod Deletion
mod Creation
mod Values
