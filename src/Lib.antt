-- ===== src/Lib.antt =====
-- A model of the cma-ssh operator, which runs Kubernetes clusters on machines that it gets from MAAS,
-- and theorems about it.
--
-- The program is a gRPC server that writes custom resources and a set of controllers that work on
-- them. A machine set (CnctMachineSet) asks for a number of machines, its controller creates and
-- deletes CnctMachine objects; the machine controller gets a physical machine for each object from
-- MAAS, waits until its node is ready, and drains and releases it when the object is deleted; the
-- status of a cluster (CnctCluster) is made from the phases of its machines. The server and the
-- controllers share nothing but the API server.
--
-- Parts and files:
--   * Api: pkg/apis/cluster/common/consts.go and pkg/apis/*/v1alpha1/*_types.go, the resources
--     as records and their phases as data types; Api.Meta has the parts of ObjectMeta, secrets and
--     string maps that the program uses.
--   * World: everything outside the program, as one record of operations over a state: the API server
--     (World.Kube), a managed cluster (World.Remote), MAAS (World.Maas), cryptography (World.Crypto)
--     and the host (World.Host).
--     Every function that calls out takes it as the argument `w`. It fixes no answer, so a theorem
--     holds for all answers that its hypotheses allow, and for changes between calls as well.
--   * Prelude.Go: how Go code ends. An `Exec S A` takes the state and gives an outcome and a state;
--     the outcome is a value (`done`), an error that is returned (`fail`), or a goroutine that does
--     not return, by a panic or a deadlock (`panic`).
--   * Util: pkg/util (slices, GetStatus, IsReadyForDeletion, IsReadyForUpgrade, lookups, mappers).
--   * MachineSet: pkg/controller/machineset. Policy is delete_policy.go, Select is the choice of the
--     machines of a set (shouldExcludeMachine, filterMachines, createMachine, MachineToMachineSets),
--     Sync is syncReplicas with its waits, Status is status.go, Reconcile is Reconcile and reconcile.
--   * Maas: pkg/maas/client.go. Cert: pkg/cert/gen_cert.go, where Cert.Export is ToTar and Kubeconfig
--     and Cert.Issue is NewCABundle with its templates.
--   * Machine: pkg/controller/machine. Images is images.go; Create with Token, Request and Record is
--     create.go, where a Creator is the struct `creator` with its sticky `err`; Delete is delete.go,
--     and Delete.Eviction its goroutines that evict pods, as a step relation;
--     Ready and Reconcile are machine_controller.go. Lifecycle is the order of a machine's phases. Modules
--     below these hold the proofs.
--   * Cluster: pkg/controller/cluster/cluster_controller.go. Handover joins it with the creator of
--     machines, which reads and writes the secret that it makes; Lifecycle is what it writes.
--   * Bundle: pkg/controller/appbundle, the installation of a program in a managed cluster.
--   * Server: internal/apiserver, the gRPC handlers that create what the controllers work on; Pools is
--     pool.go and Clusters is cluster.go and apiutil.go. Pools.Store says what the handlers do to a
--     map from names to pools.
--   * Startup: cmd/cma-ssh/cmd/root.go and version.go with the registration of the controllers, over libraries that are
--     a record of their own (Runtime); Version is pkg/version.
--   * Web: pkg/apiserver/apiserver.go and pkg/ui/website/website.go. Http models the handlers and the
--     ServeMux of net/http, Cors is allowCORS, Site is AddServersToMux and the router that it makes.
--   * Tests: small outside worlds (Demo), a sort and API servers that have the laws asked of them, and runs.
--
-- Bounds: times are natural numbers of nanoseconds. Go's `int` counts are unbounded integers here, and differences of counts are far from the
-- ends of 64 bits. All loops of the program that are modelled run over a list or a count, so they
-- are structural recursion and there is no fuel; polling is an operation of the host. The loop of the
-- goroutines that evict pods has no bound, and is a relation between steps.
--
-- Not modelled: generated and vendored code, the files of the UI and the types that mime is told, the
-- tables of flags and variables and the settings of the log, logging, and the texts of the two
-- cloud-init templates: they only configure libraries or are data.
pub mod Prelude
pub mod Api
pub mod World
pub mod Util
pub mod MachineSet
pub mod Maas
pub mod Cert
pub mod Machine
pub mod Cluster
pub mod Server
pub mod Bundle
pub mod Startup
pub mod Web
pub mod Tests
