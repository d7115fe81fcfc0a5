-- ===== src/Pharus/Deleted.antt =====
-- AmpharosManager.cc: what pharusRemoveAllWorkersOfNode and deleteNode do to a well-formed tree.
use dsyrup.Base.{
  ℕ, ◌≡◌, refl, ◌∙◌, Bool, true, false, not, ◌&&◌, Option, none, some, List, [], ◌∷◌, arith, All,
  Bool-cases, inl, inr,
}
use dsyrup.Tree.{
  Tree, null, node, Position, get, is_null, delete_node, pruning, get_workers_go_down,
}
use dsyrup.Tree.Count.{IsNode, HasBranch}
use dsyrup.Tree.Cover.{covered, follows, covered-delete_node}
use dsyrup.Tree.Prune.{get-pruning-IsNode, follows-pruning}
use dsyrup.Tree.History.{IsWellFormed, delete_node-IsWellFormed}
use dsyrup.Tree.Alike.{
  Alike, Alike-refl, Alike-trans, Alike-covered, Alike-follows, Alike-IsNode, Alike-IsWellFormed,
  del_worker-Alike,
}
use dsyrup.Tree.Restrict.{
  Restricts, Restricts-refl, Restricts-trans, Alike-Restricts, delete_node-Restricts,
  follows-Restricts,
}
use dsyrup.Pharus.Field.{
  beyond-not_ok, ok, >>=-eq-ok, Field, remove_worker, remove_workers, remove_all_workers_of_node,
  remove_and_delete, prune_and_delete,
}

remove_worker-Alike :
    (f f' : Field) (c h : ℕ) (o : Option Position)
    → remove_worker f c h o ≡ ok f'
    → Alike f.tree f'.tree
unfolding remove_worker
remove_worker-Alike f f' c h none e = cc
remove_worker-Alike f f' c h (some p) e = elim (Bool-cases (is_null (get f.tree p))) [
  | inl gone ↦ absurd (beyond-not_ok f p f' (rw gone at e))
  | inr there ↦ ground (arith, del_worker-Alike (c, h) p f.tree)
]

remove_workers-Alike :
    (f f' : Field) (ws : List (ℕ × ℕ)) → remove_workers f ws ≡ ok f' → Alike f.tree f'.tree
unfolding remove_workers
remove_workers-Alike f f' [] e = ground (arith, Alike-refl f.tree)
remove_workers-Alike f f' ((c, h) ∷ ws) e =
    let (g, one, rest) = >>=-eq-ok (remove_worker f c h (f.nodes c h)) _ e in
    Alike-trans f.tree g.tree f'.tree (remove_worker-Alike f g c h (f.nodes c h) one)
      (remove_workers-Alike g f' ws rest)

pub branching-IsNode : (t : Tree) → HasBranch t → IsNode t
branching-IsNode null b = absurd b
branching-IsNode (node i l r) b = refl

-- After `pharusRemoveAllWorkersOfNode` and `deleteNode` at a node.
record Deleted (f : Field) (p : Position) (f' : Field) : Type 0 where
  wellformed : IsWellFormed f'.tree
  restricts : Restricts f.tree f'.tree
  cover : (α : ℕ → Bool) → covered α f'.tree ≡ covered α f.tree && not (follows α f.tree p)

delete_node-Deleted :
    (f g f' : Field) (p : Position)
    → IsWellFormed f.tree
    → IsNode (get f.tree p)
    → Alike f.tree g.tree
    → f'.tree ≡ delete_node p g.tree
    → Deleted f p f'
delete_node-Deleted f g f' p w n a e =
    let w' = Alike-IsWellFormed f.tree g.tree a w in
    record {
      wellformed = rw e (delete_node-IsWellFormed p g.tree (Alike-IsNode p f.tree g.tree a ∙ n) w');
      restricts = rw e (
          Restricts-trans f.tree g.tree (delete_node p g.tree) (Alike-Restricts f.tree g.tree a)
            (delete_node-Restricts p g.tree));
      cover = λ α. ground (
        arith,
        covered-delete_node α p g.tree w'.branching,
        Alike-covered α f.tree g.tree a,
        Alike-follows α p f.tree g.tree a,
      );
    }

remove_and_delete-Deleted :
    (f f' : Field) (p : Position)
    → IsWellFormed f.tree
    → IsNode (get f.tree p)
    → remove_and_delete f p ≡ ok f'
    → Deleted f p f'
unfolding remove_and_delete remove_all_workers_of_node
remove_and_delete-Deleted f f' p w n e =
    let (g, one, rest) = >>=-eq-ok (remove_workers f (get_workers_go_down (get f.tree p))) _ e in
    delete_node-Deleted f g f' p w n (remove_workers-Alike f g _ one) (ground arith)

-- From `f` to `f'` the tree stays well-formed, loses nodes at most, and covers still each assignment
-- that it did cover and that goes through none of the positions `qs`.
pub record Spares (qs : List Position) (f f' : Field) : Type 0 where
  pub wellformed : IsWellFormed f'.tree
  pub restricts : Restricts f.tree f'.tree
  pub spared :
      (α : ℕ → Bool)
      → covered α f.tree ≡ true
      → All (λ q. follows α f.tree q ≡ false) qs
      → covered α f'.tree ≡ true

-- The root is not pruned but emptied.
pub root_deleted-Spares :
    (f f' : Field) → IsWellFormed f.tree → remove_and_delete f [] ≡ ok f' → Spares ([] ∷ []) f f'
root_deleted-Spares f f' w e =
    let d = remove_and_delete-Deleted f f' [] w (branching-IsNode f.tree w.branching) e in
    record {
      wellformed = d.wellformed;
      restricts = d.restricts;
      spared = λ α c out. ground (arith, d.cover α, out.0);
    }

pub prune_and_delete-Spares :
    (f f' : Field) (p : Position)
    → IsWellFormed f.tree
    → prune_and_delete f p ≡ ok f'
    → Spares (p ∷ []) f f'
unfolding prune_and_delete
prune_and_delete-Spares f f' p w e = elim (Bool-cases (is_null (get f.tree p))) [
  | inl gone ↦ absurd (beyond-not_ok f p f' (rw gone at e))
  | inr n ↦
      let d =
        remove_and_delete-Deleted f f' (pruning f.tree p) w (get-pruning-IsNode f.tree p n)
          (ground arith) in
      record {
        wellformed = d.wellformed;
        restricts = d.restricts;
        spared =
            λ α c out. ground (arith, d.cover α, follows-pruning α f.tree p w.shaped n c, out.0);
      }
]

pub Spares-refl : (f : Field) (qs : List Position) → IsWellFormed f.tree → Spares qs f f
Spares-refl f qs w = record {
  wellformed = w;
  restricts = Restricts-refl f.tree;
  spared = λ α c out. c;
}

pub outside-Restricts :
    (α : ℕ → Bool) (qs : List Position) (t u : Tree)
    → Restricts t u
    → All (λ q. follows α t q ≡ false) qs
    → All (λ q. follows α u q ≡ false) qs
outside-Restricts α [] t u r h = tt
outside-Restricts α (q ∷ qs) t u r h =
    (follows-Restricts α q t u r h.0, outside-Restricts α qs t u r h.1)
