-- ===== src/Tests/Sort.antt =====
-- Insertion sort, as a sort that has the laws of `sort.Sort`.
use mathlib.Core.List.{Mem, Perm, Pairwise, not-mem-nil, eq-or-mem_of_mem-cons}
use mathlib.Core.List.Perm
use mathlib.Core.Logic.Or
use native.Mathlib.Bridge.{le_prop}
use cma_ssh.Prelude.{
  ℕ, ◌≤◌, Bool, List, [], ◌∷◌, arith, sym, subst, if◌then◌else◌, Bool-cases, inl, inr,
}
use cma_ssh.Api.Machine.{CnctMachine}
use cma_ssh.MachineSet.Policy.{less}

unfoldable pub insert : {A : Type 0} → (A → A → Bool) → A → List A → List A
insert lt x [] = x ∷ []
insert lt x (y ∷ l) = let rest = insert lt x l in if lt y x then y ∷ rest else x ∷ y ∷ l

unfoldable pub insertion_sort : (A : Type 0) → (A → A → Bool) → List A → List A
insertion_sort A lt [] = []
insertion_sort A lt (x ∷ l) = insert lt x (insertion_sort A lt l)

insert-Perm :
    (lt : CnctMachine → CnctMachine → Bool) (x : CnctMachine) (l : List CnctMachine)
    → Perm (insert lt x l) (x ∷ l)
unfolding insert
insert-Perm lt x [] = Perm.refl (x ∷ [])
insert-Perm lt x (y ∷ l) = elim (Bool-cases (lt y x)) [
  | inl h ↦ rw h (Perm.trans (Perm.cons y (insert-Perm lt x l)) (Perm.swap x y l))
  | inr h ↦ rw h (Perm.refl (x ∷ y ∷ l))
]

pub insertion_sort-Perm :
    (lt : CnctMachine → CnctMachine → Bool) (l : List CnctMachine)
    → Perm (insertion_sort CnctMachine lt l) l
unfolding insertion_sort
insertion_sort-Perm lt [] = Perm.refl []
insertion_sort-Perm lt (x ∷ l) =
    Perm.trans (insert-Perm lt x (insertion_sort CnctMachine lt l))
      (Perm.cons x (insertion_sort-Perm lt l))

module _ (key : CnctMachine → ℕ) where
  abbrev Sorted : List CnctMachine → Type 0
  Sorted = Pairwise (λ a b. key b ≤ key a)

  bound-insert :
      (x y : CnctMachine) (l : List CnctMachine)
      → key x ≤ key y
      → ((a : CnctMachine) → Mem a l → key a ≤ key y)
      → (a : CnctMachine) → Mem a (insert (less key) x l)
      → key a ≤ key y
  bound-insert x y l h k a m =
      Or.elim le_prop (eq-or-mem_of_mem-cons ((Perm.mem_iff (insert-Perm (less key) x l)).0 m))
        (λ e. subst (λ z. key z ≤ key y) (sym e) h) (λ n. k a n)

  insert-Sorted :
      (x : CnctMachine) (l : List CnctMachine) → Sorted l → Sorted (insert (less key) x l)
  unfolding insert
  insert-Sorted x [] p = Pairwise.cons (λ a m. absurd (not-mem-nil m)) Pairwise.nil
  insert-Sorted x (y ∷ l) (Pairwise.cons h p) = elim (Bool-cases (less key y x)) [
    | inl lt ↦ rw lt (Pairwise.cons (bound-insert x y l (ground arith) h) (insert-Sorted x l p))
    | inr ge ↦ rw ge (
        Pairwise.cons
          (λ a m.
            Or.elim le_prop (eq-or-mem_of_mem-cons m)
              (λ e. subst (λ z. key z ≤ key x) (sym e) (ground arith)) (λ n. ground (arith, h a n)))
          (Pairwise.cons h p))
  ]

  pub insertion_sort-Sorted :
      (l : List CnctMachine) → Sorted (insertion_sort CnctMachine (less key) l)
  unfolding insertion_sort
  insertion_sort-Sorted [] = Pairwise.nil
  insertion_sort-Sorted (x ∷ l) = insert-Sorted x _ (insertion_sort-Sorted l)
