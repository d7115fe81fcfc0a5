-- ===== src/Tree/Tests.antt =====
-- Runs on small trees: variable 3 at the root, and variable 5 below its left child.
use dsyrup.Base.{ℕ, ◌≡◌, refl, Bool, true, false, [], ◌∷◌, arith, ◌==◌}
use dsyrup.Tree.{
  Tree, left, right, Position, grow, extend_node, create_root, destroyed, minus, delete_node,
  pruning, is_unsat,
}
use dsyrup.Tree.Count.{leaves}
use dsyrup.Tree.Cover.{follows}
use dsyrup.Tree.History.{
  IsWellFormed, create_root-IsWellFormed, extend_node-IsWellFormed, delete_node-IsWellFormed,
  Refuted, Built, created, extended, pruned, unsat_sound,
}

abbrev two : Tree
two = create_root 3

abbrev three : Tree
three = extend_node 5 (left ∷ []) two

-- Both children of the left child are there, the right child of the root is gone.
abbrev narrow : Tree
narrow = delete_node (right ∷ []) three

three-IsWellFormed : IsWellFormed three
unfolding create_root extend_node grow
three-IsWellFormed =
    extend_node-IsWellFormed 5 (left ∷ []) two (refl, refl, refl) (create_root-IsWellFormed 3)

narrow-IsWellFormed : IsWellFormed narrow
unfolding create_root extend_node grow
narrow-IsWellFormed = delete_node-IsWellFormed (right ∷ []) three refl three-IsWellFormed

-- Variable 3 is true, all others are false.
abbrev only_three : ℕ → Bool
only_three v = v == 3

-- Pruning goes up from the right child of `narrow`'s node on 5 once its left child is deleted.
abbrev chain : Tree
chain = delete_node (left ∷ left ∷ []) narrow

chain-IsWellFormed : IsWellFormed chain
unfolding create_root extend_node grow delete_node destroyed minus
chain-IsWellFormed = delete_node-IsWellFormed (left ∷ left ∷ []) narrow refl narrow-IsWellFormed

pruned_to_the_root : pruning chain (right ∷ left ∷ []) ≡ []
unfolding create_root extend_node grow delete_node destroyed minus pruning
pruned_to_the_root = refl

-- The formula `x3 and not x5`.
abbrev IsConjunction : (ℕ → Bool) → Type 0
IsConjunction α = (α 3 ≡ true) × (α 5 ≡ false)

cut_right-Refuted : Refuted IsConjunction three (right ∷ [])
unfolding create_root extend_node grow follows
cut_right-Refuted α f m = ground arith

narrow-Built : Built IsConjunction (delete_node (pruning three (right ∷ [])) three)
unfolding create_root extend_node grow
narrow-Built =
    pruned (right ∷ []) (extended 5 (left ∷ []) (created 3) (refl, refl, refl)) refl
      cut_right-Refuted

-- The formula `x3 and not x3`.
abbrev IsContradiction : (ℕ → Bool) → Type 0
IsContradiction α = (α 3 ≡ true) × (α 3 ≡ false)

abbrev half : Tree
half = delete_node (pruning two (left ∷ [])) two

any-Refuted : (t : Tree) (p : Position) → Refuted IsContradiction t p
any-Refuted t p α f m = cc

emptied-Built : Built IsContradiction (delete_node (pruning half (right ∷ [])) half)
unfolding create_root extend_node grow delete_node destroyed minus pruning
emptied-Built =
    pruned (right ∷ []) (pruned (left ∷ []) (created 3) refl (any-Refuted two (left ∷ []))) refl
      (any-Refuted half (right ∷ []))

unsat_sound_example : ¬ IsContradiction only_three
unfolding create_root extend_node grow delete_node destroyed minus pruning is_unsat leaves
unsat_sound_example = unsat_sound IsContradiction emptied-Built (omega arith) refl only_three
