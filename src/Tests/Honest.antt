-- ===== src/Tests/Honest.antt =====
-- An API server that keeps its machines: the laws of `ApiServer` hold of it.
use mathlib.Core.List.Perm
use cma_ssh.Prelude.{
  suc, string_eq, ◌==◌, ◌≡◌, ◌≢◌, refl, Bool, true, false, ◌&&◌, Bool-cases, inl, inr, some, List,
  [], ◌∷◌, length, if◌then◌else◌, arith,
}
use cma_ssh.Prelude.Go.{Result, ok, err}
use cma_ssh.Api.Meta.{ObjectKey}
use cma_ssh.Api.Machine.{CnctMachine}
use cma_ssh.World.{World}
use cma_ssh.World.Kube.{Resource}
use cma_ssh.MachineSet.Sync.ApiServer.{ApiServer, key_of}
use cma_ssh.Tests.Demo.{labels, kube, remote, maas, host, crypto, machine, missing, down}
use cma_ssh.Tests.Sort.{insertion_sort}

abbrev same : ObjectKey → ObjectKey → Bool
same a b = a.namespace == b.namespace && a.name == b.name

unfoldable pub holds : ObjectKey → List ObjectKey → Bool
holds k [] = false
holds k (l ∷ ls) = let rest = holds k ls in if same k l then true else rest

unfoldable pub remove : ObjectKey → List ObjectKey → List ObjectKey
remove k [] = []
remove k (l ∷ ls) = let rest = remove k ls in if same k l then ls else l ∷ rest

-- The machines that are there, and those whose deletion is on its way.
pub record Kept : Type 0 where
  pub here : List ObjectKey
  pub leaving : List ObjectKey

abbrev pub deleted_machine : CnctMachine
deleted_machine = record machine {
  metadata = record machine.metadata { deletion_timestamp = some 1 };
}

abbrev kept : Resource Kept CnctMachine
kept = record {
  get = λ k s. (
    if holds k s.leaving
        then ok deleted_machine
        else if holds k s.here
        then ok machine
        else err missing,
    s,
  );
  list = λ n s. (ok [], s);
  create = λ x s. (ok x, record s { here = key_of x ∷ s.here });
  update = λ x s. (ok x, s);
  delete = λ x s. (
    if holds (key_of x) s.here then ok tt else err missing,
    record { here = remove (key_of x) s.here; leaving = key_of x ∷ s.leaving },
  );
}

abbrev checked_once : Result Bool → Result (Unit {0})
checked_once (ok true) = ok tt
checked_once (ok false) = err down
checked_once (err e) = err e

abbrev pub honest : World
honest = record {
  State = Kept;
  kube = record kube { machines = kept };
  labels = labels;
  remote = remote;
  maas = maas;
  host = record host {
    sort = insertion_sort;
    poll_immediate = λ i t c s. let (r, s') = c s in (checked_once r, s');
  };
  crypto = crypto;
}

same_refl : (k : ObjectKey) → same k k ≡ true
same_refl k = ground arith

same-eq : (k l : ObjectKey) → same k l ≡ true → k ≡ l
same-eq k l h = ground arith

pub length-remove :
    (k : ObjectKey) (ls : List ObjectKey)
    → holds k ls ≡ true
    → suc (length (remove k ls)) ≡ length ls
unfolding holds remove
length-remove k [] h = ground arith
length-remove k (l ∷ ls) h = ground (arith, length-remove k ls)

pub holds-remove :
    (k l : ObjectKey) (ls : List ObjectKey)
    → k ≢ l
    → holds l ls ≡ true
    → holds l (remove k ls) ≡ true
unfolding holds remove
holds-remove k l [] n h = ground arith
holds-remove k l (x ∷ ls) n h = ground (arith, holds-remove k l ls n, same-eq k x, same-eq l x)

pub live_cons : (k : ObjectKey) (ls : List ObjectKey) → length (k ∷ ls) ≡ suc (length ls)
live_cons k ls = ground arith

pub holds-here : (k : ObjectKey) (ls : List ObjectKey) → holds k (k ∷ ls) ≡ true
unfolding holds
holds-here k ls = rw (same_refl k) refl

pub holds-later :
    (k l : ObjectKey) (ls : List ObjectKey) → holds k ls ≡ true → holds k (l ∷ ls) ≡ true
unfolding holds
holds-later k l ls h = ground arith

pub got_here :
    (k : ObjectKey) (s : Kept)
    → holds k s.here ≡ true
    → (y : CnctMachine) × (kept.get k s ≡ (ok y, s))
got_here k s h = elim (Bool-cases (holds k s.leaving)) [
  | inl e ↦ (deleted_machine, rw e refl)
  | inr e ↦ (machine, rw (e, h) refl)
]

abbrev pub server : ApiServer honest
server = record {
  live = λ s. length s.here;
  is_live = λ x s. holds (key_of x) s.here;
  create = λ m s. (
    m,
    record s { here = key_of m ∷ s.here },
    refl,
    live_cons (key_of m) s.here,
    holds-here (key_of m) s.here,
  );
  create_keeps = λ m x s h. holds-later (key_of x) (key_of m) s.here h;
  event = λ o a b c s. refl;
  event_keeps = λ o a b c x s h. h;
  get = λ x s h. got_here (key_of x) s h;
  is_marked = λ x s. holds (key_of x) s.leaving;
  delete = λ x s h. (
    record { here = remove (key_of x) s.here; leaving = key_of x ∷ s.leaving },
    rw h refl,
    length-remove (key_of x) s.here h,
    holds-here (key_of x) s.leaving,
  );
  delete_keeps = λ x y s n h. holds-remove (key_of x) (key_of y) s.here n h;
  delete_marked = λ x y s h. holds-later (key_of y) (key_of x) s.leaving h;
  event_marked = λ o a b c x s h. h;
  get_marked = λ x s h. (ok deleted_machine, rw h refl, refl);
  schedule = λ s l. Perm.refl l;
  poll = λ i t condition s u h. rw h refl;
}
