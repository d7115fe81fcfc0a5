-- ===== src/Tree/History.antt =====
-- The life of a tree of subproblems, as the manager changes it: createRoot, extendNode on a leaf,
-- and deleteNode of a pruned node that a worker has refuted.
use dsyrup.Base.{ℕ, ◌^◌, ◌<◌, ◌≡◌, refl, ◌∙◌, Bool, true, arith, Bool-cases, inl, inr}
use dsyrup.Tree.{Tree, Position, get, extend_node, create_root, delete_node, pruning, is_unsat}
use dsyrup.Tree.Count.{
  IsNode, IsLeaf, HasBranch, IsCounted, leaves, extend_node-IsCounted, delete_node-IsCounted,
  is_unsat_iff,
}
use dsyrup.Tree.Cover.{covered, follows, covered-extend_node, covered-delete_node, covered-leaves}
use dsyrup.Tree.Prune.{
  IsShaped, extend_node-IsShaped, delete_node-IsShaped, extend_node-HasBranch,
  delete_node-HasBranch, get-pruning-IsNode, follows-pruning,
}

-- What holds of every tree that the manager builds.
pub record IsWellFormed (t : Tree) : Type 0 where
  pub counted : IsCounted t
  pub shaped : IsShaped t
  pub branching : HasBranch t

pub create_root-IsWellFormed : (v : ℕ) → IsWellFormed (create_root v)
unfolding create_root leaves
create_root-IsWellFormed v = record {
  counted = (refl, (refl, tt, tt), (refl, tt, tt));
  shaped = (tt, ((refl, refl), tt, tt), ((refl, refl), tt, tt));
  branching = (v, refl);
}

pub extend_node-IsWellFormed :
    (v : ℕ) (p : Position) (t : Tree)
    → IsLeaf (get t p)
    → IsWellFormed t
    → IsWellFormed (extend_node v p t)
extend_node-IsWellFormed v p t h w = record {
  counted = (extend_node-IsCounted v p t w.counted h).0;
  shaped = extend_node-IsShaped v p t w.shaped h;
  branching = extend_node-HasBranch v p t w.branching;
}

pub delete_node-IsWellFormed :
    (p : Position) (t : Tree) → IsNode (get t p) → IsWellFormed t → IsWellFormed (delete_node p t)
delete_node-IsWellFormed p t n w = record {
  counted = (delete_node-IsCounted p t w.counted w.branching n).0;
  shaped = delete_node-IsShaped p t w.branching n w.shaped;
  branching = delete_node-HasBranch p t w.branching;
}

pub covered-create_root : (α : ℕ → Bool) (v : ℕ) → covered α (create_root v) ≡ true
unfolding create_root covered
covered-create_root α v = ground arith

module _ (IsModel : (ℕ → Bool) → Type 0) where
  -- A refuted node: no model of the formula goes through it.
  abbrev pub Refuted : Tree → Position → Type 0
  Refuted t p = (α : ℕ → Bool) → follows α t p ≡ true → ¬ IsModel α

  -- The trees that the manager reaches.
  pub data Built : Tree → Type 0 where
    created : (v : ℕ) → Built (create_root v)
    extended :
        {t : Tree} (v : ℕ) (p : Position) → Built t → IsLeaf (get t p) → Built (extend_node v p t)
    pruned :
        {t : Tree} (p : Position)
        → Built t
        → IsNode (get t p)
        → Refuted t p
        → Built (delete_node (pruning t p) t)

  pub Built-IsWellFormed : {t : Tree} → Built t → IsWellFormed t
  Built-IsWellFormed (created v) = create_root-IsWellFormed v
  Built-IsWellFormed (extended {t} v p b h) =
      extend_node-IsWellFormed v p t h (Built-IsWellFormed b)
  Built-IsWellFormed (pruned {t} p b n r) =
      delete_node-IsWellFormed (pruning t p) t (get-pruning-IsNode t p n) (Built-IsWellFormed b)

  -- Deleting a pruned node keeps the cover of an assignment that does not go through the refuted one.
  pub covered-pruned :
      (α : ℕ → Bool) (p : Position) (t : Tree)
      → IsWellFormed t
      → IsNode (get t p)
      → covered α t ≡ true
      → ¬ (follows α t p ≡ true)
      → covered α (delete_node (pruning t p) t) ≡ true
  covered-pruned α p t w n c out = elim (Bool-cases (follows α t (pruning t p))) [
    | inl through ↦ absurd (out (follows-pruning α t p w.shaped n c through))
    | inr beside ↦ ground (arith, covered-delete_node α (pruning t p) t w.branching)
  ]

  -- In every tree that the manager reaches by splitting leaves and by deleting pruned nodes that
  -- were refuted, each model of the formula is covered by some open subproblem.
  pub Built-covered : {t : Tree} → Built t → (α : ℕ → Bool) → IsModel α → covered α t ≡ true
  Built-covered (created v) α m = covered-create_root α v
  Built-covered (extended {t} v p b h) α m = covered-extend_node α v p t h ∙ Built-covered b α m
  Built-covered (pruned {t} p b n r) α m =
      covered-pruned α p t (Built-IsWellFormed b) n (Built-covered b α m) (λ f. r α f m)

  -- The answer UNSAT of the divide-and-conquer mode is right: if the manager reaches a tree of fewer
  -- than 2 ^ 32 open subproblems, each deleted node being pruned from a refuted one, and `isUnsat`
  -- says yes, then the formula has no model.
  pub unsat_sound :
      {t : Tree} → Built t → leaves t < 2 ^ 32 → is_unsat t ≡ true → (α : ℕ → Bool) → ¬ IsModel α
  unsat_sound {t} b small u α m =
      let none_left = (is_unsat_iff t (Built-IsWellFormed b).counted small).0 u in
      let c = Built-covered b α m in cc (covered-leaves α t none_left)
