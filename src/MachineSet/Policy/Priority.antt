-- ===== src/MachineSet/Policy/Priority.antt =====
-- The choice of the machines to delete.
use mathlib.Core.List.{Mem, Perm, Pairwise, Pairwise-append, append-nil, not-mem-nil}
use mathlib.Core.List.Perm
use Prim.Native.Nat.{min}
use native.Mathlib.Bridge.{le_prop}
use cma_ssh.Prelude.{
  ℕ, ◌≤◌, ◌≡◌, Bool, List, [], ◌++◌, take, drop, take-append-drop, length, length-take, length-perm,
  arith, subst, sym, Bool-cases, inl, inr,
}
use cma_ssh.Prelude.Int.{ℤ, pos, negsuc, pos_part, leb_ℤ}
use cma_ssh.Api.Machine.{CnctMachine}
use cma_ssh.MachineSet.Policy.{get_machines_to_delete_prioritized, less}

-- The machines left when `chosen` go from `machines`, and what makes the choice right.
pub record Choice (priority : CnctMachine → ℕ) (machines chosen : List CnctMachine) : Type 0 where
  pub kept : List CnctMachine
  pub split : Perm (chosen ++ kept) machines
  pub ordered : (a b : CnctMachine) → Mem a chosen → Mem b kept → priority b ≤ priority a

all-Choice :
    (priority : CnctMachine → ℕ) (machines : List CnctMachine) → Choice priority machines machines
all-Choice priority machines = record {
  kept = [];
  split = rw append-nil (Perm.refl machines);
  ordered = λ a b _ left. absurd (not-mem-nil left);
}

none-Choice :
    (priority : CnctMachine → ℕ) (machines : List CnctMachine) → Choice priority machines []
none-Choice priority machines = record {
  kept = machines;
  split = Perm.refl machines;
  ordered = λ a b taken _. absurd (not-mem-nil taken);
}

module _ (sort : (CnctMachine → CnctMachine → Bool) → List CnctMachine → List CnctMachine)
    (sort-perm : (lt : CnctMachine → CnctMachine → Bool) (l : List CnctMachine)
      → Perm (sort lt l) l)
    (sort-Pairwise : (key : CnctMachine → ℕ) (l : List CnctMachine)
      → Pairwise (λ a b. key b ≤ key a) (sort (less key) l)) where
  prefix-Choice :
      (priority : CnctMachine → ℕ) (machines : List CnctMachine) (n : ℕ)
      → Choice priority machines (take n (sort (less priority) machines))
  prefix-Choice priority machines n = record {
    kept = drop n sorted;
    split = subst (λ l. Perm l machines) (sym whole) (sort-perm (less priority) machines);
    ordered = λ a b chosen kept.
        ((Pairwise-append (λ x y. le_prop)).0 (
            subst (Pairwise (λ x y. priority y ≤ priority x)) (sym whole)
              (sort-Pairwise priority machines))).2
          a chosen b kept;
  }
    where
      sorted : List CnctMachine
      sorted = sort (less priority) machines

      whole : take n sorted ++ drop n sorted ≡ sorted
      whole = take-append-drop n sorted

  -- The chosen machines and the rest together are the machines given, and no machine that is kept
  -- has a higher priority for deletion than one that is chosen, for every `diff` and any sort
  -- that permutes and orders.
  pub get_machines_to_delete_prioritized-Choice :
      (machines : List CnctMachine) (diff : ℤ) (priority : CnctMachine → ℕ)
      → Choice priority machines (get_machines_to_delete_prioritized sort machines diff priority)
  unfolding get_machines_to_delete_prioritized
  get_machines_to_delete_prioritized-Choice machines diff priority =
      elim (Bool-cases (leb_ℤ (pos (length machines)) diff)) [
        | inl all ↦ rw all (all-Choice priority machines)
        | inr some ↦ elim (Bool-cases (leb_ℤ diff (pos 0))) [
          | inl none ↦ rw (some, none) (none-Choice priority machines)
          | inr more ↦ rw (some, more) (prefix-Choice priority machines (pos_part diff))
        ]
      ]

module _ (sort : (CnctMachine → CnctMachine → Bool) → List CnctMachine → List CnctMachine)
    (sort-perm : (lt : CnctMachine → CnctMachine → Bool) (l : List CnctMachine)
      → Perm (sort lt l) l) where
  -- So many machines are chosen as `diff` says, but never fewer than none nor more than there are.
  pub length-get_machines_to_delete_prioritized :
      (machines : List CnctMachine) (diff : ℤ) (priority : CnctMachine → ℕ)
      → length (get_machines_to_delete_prioritized sort machines diff priority)
        ≡ min (pos_part diff) (length machines)
  unfolding get_machines_to_delete_prioritized
  length-get_machines_to_delete_prioritized machines (pos n) priority = ground (
    arith,
    length-take n (sort (less priority) machines),
    length-perm (sort-perm (less priority) machines),
  )
  length-get_machines_to_delete_prioritized machines (negsuc n) priority = ground arith
