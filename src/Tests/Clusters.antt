-- ===== src/Tests/Clusters.antt =====
-- Runs of the cluster controller.
use cma_ssh.Prelude.{◌≡◌, refl, [], ◌∷◌, map}
use cma_ssh.Prelude.Go.{ok, done}
use cma_ssh.Api.Meta.{finished, ObjectKey}
use cma_ssh.World.{World}
use cma_ssh.Prelude.Go.Ends.{Final}
use cma_ssh.Cluster.{check_services}
use cma_ssh.Cluster.Services.{Checked, check_services-Checked}
use cma_ssh.Tests.Demo.{up, cluster}

-- The managed cluster has a service.
abbrev serving : World
serving = record up {
  remote = record up.remote { list_services = λ c s. (ok ("kube-dns" ∷ []), s) };
}

check_services-Checked_example :
    Final ⊥ (Checked serving cluster tt) (check_services serving cluster tt)
check_services-Checked_example = check_services-Checked serving cluster tt

becomes_running : check_services serving cluster tt ≡ (done finished, tt)
unfolding check_services cma_ssh.Api.Meta.find_string cma_ssh.Prelude.string_discrete
    cma_ssh.Machine.Ready.ready_clientset
becomes_running = refl
