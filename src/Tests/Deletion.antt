-- ===== src/Tests/Deletion.antt =====
-- Runs of the deletion of machines.
use cma_ssh.Prelude.{
  ℕ, String, ◌<>◌, ◌≡◌, refl, ◌≢◌, ◌⊎◌, inl, inr, Bool, true, false, Option, none, some, List, [],
  ◌∷◌, string_discrete, map, arith,
}
use cma_ssh.Prelude.Go.{
  Call, Err, done, fail, panic, ok, err, continue, ◌>>=◌, index_out_of_range, release_error,
  wrapped, not_ready_error, plain_error,
}
use cma_ssh.Api.Phase.{deleting_machine}
use cma_ssh.World.{World}
use cma_ssh.World.Remote.{Pod}
use cma_ssh.Machine.Delete.{handle_delete}
use cma_ssh.Machine.Delete.Release.{Final}
use cma_ssh.Machine.Delete.Ways.{handle_delete-Ends}
use cma_ssh.Machine.Delete.Polling.{SaysDeleted, pods_deleted-stale}
use cma_ssh.Tests.Demo.{base, up, in_phase, missing}

handle_delete_example :
    Final up (in_phase deleting_machine) (handle_delete up (in_phase deleting_machine) tt)
handle_delete_example = handle_delete-Ends up (in_phase deleting_machine) tt

abbrev pod : String → Pod
pod name = record { name = name; namespace = "ns"; uid = name }

-- The pod `a` is gone; with the error comes an empty pod.
abbrev with_pods : World
with_pods = record base {
  remote = record base.remote {
    get_pod = λ c n name s. (
      elim (string_discrete name "a") [
        | yes _ ↦ (some (pod ""), some missing)
        | no _ ↦ (some (pod name), none)
      ],
      s,
    );
  };
}

-- Two other pods stay.
pods_deleted_example :
    SaysDeleted with_pods tt
      (pod "a" ∷ pod "b" ∷ pod "c" ∷ [])
      5
      (pod "a" ∷ pod "b" ∷ pod "c" ∷ [])
      tt
unfolding cma_ssh.Prelude.Go.is_not_found string_discrete
pods_deleted_example =
    pods_deleted-stale with_pods tt (pod "a") (pod "b" ∷ pod "c" ∷ []) tt
      (some (pod ""), missing, refl, λ s. refl) ((λ s. refl), ((λ s. refl), tt))
