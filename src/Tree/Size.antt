-- ===== src/Tree/Size.antt =====
-- How many open subproblems a tree can have after a change.
use dsyrup.Base.{◌≤◌, ℕ, ◌+◌, ◌≡◌, refl, arith}
use dsyrup.Tree.{Tree, null, node, Position, get, create_root, extend_node, grow, leaf_count}
use dsyrup.Tree.Count.{leaves, IsLeaf, IsCounted, extend_node-IsCounted}
use dsyrup.Tree.Restrict.{Restricts, Alike-Restricts}
use dsyrup.Tree.Alike.{Alike}

pub leaves-Restricts : (t u : Tree) → Restricts t u → leaves u ≤ leaves t
unfolding leaves
leaves-Restricts t null h = omega arith
leaves-Restricts null (node j m s) h = absurd h
leaves-Restricts (node i l r) (node j m s) h =
    let below = leaves-Restricts l m h.1 in
    let beside = leaves-Restricts r s h.2 in
    let same : leaf_count j.variable ≡ leaf_count i.variable = cc in omega arith

pub leaves-create_root : (v : ℕ) → leaves (create_root v) ≡ 2
unfolding leaves create_root extend_node grow
leaves-create_root v = refl

-- Splitting a leaf of a tree like `t` makes one more.
pub leaves-split :
    (t u : Tree) (v : ℕ) (p : Position)
    → Alike t u
    → IsCounted u
    → IsLeaf (get u p)
    → leaves (extend_node v p u) ≤ leaves t + 1
leaves-split t u v p a c h =
    let below = leaves-Restricts t u (Alike-Restricts t u a) in
    let one_more = (extend_node-IsCounted v p u c h).1 in omega arith
