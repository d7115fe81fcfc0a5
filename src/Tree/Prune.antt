-- ===== src/Tree/Prune.antt =====
-- `AmpharosManager::pharusPruning`, and what every tree that the manager builds has in common.
use dsyrup.Base.{ℕ, ◌≡◌, refl, ◌∙◌, Bool, true, [], ◌∷◌, arith}
use dsyrup.Tree.{
  Label, end_subproblem, branch, Info, Tree, null, node, Dir, left, right, Position, child, get,
  is_null, through, update_up, more_subproblems, grow, extend_node, cut, empty_root, delete_node,
  lacks_child, pruning,
}
use dsyrup.Tree.Count.{IsNode, IsLeaf, HasBranch, leaf-IsNode}
use dsyrup.Tree.Cover.{covered, follows, agrees, covered-get}

abbrev pub IsChildless : Label → Tree → Tree → Type 0
IsChildless end_subproblem l r = (is_null l ≡ true) × (is_null r ≡ true)
IsChildless (branch v) l r = Unit

-- An open subproblem has no children.
abbrev pub IsShaped : Tree → Type 0
IsShaped null = Unit
IsShaped (node i l r) = IsChildless i.variable l r × IsShaped l × IsShaped r

child-IsNode : (d : Dir) (t : Tree) → IsNode (child d t) → IsNode t
child-IsNode d null h = h
child-IsNode d (node i l r) h = refl

child-IsShaped : (d : Dir) (t : Tree) → IsShaped t → IsShaped (child d t)
child-IsShaped d null h = h
child-IsShaped left (node i l r) h = h.1
child-IsShaped right (node i l r) h = h.2

pub get-IsShaped : (p : Position) (t : Tree) → IsShaped t → IsShaped (get t p)
get-IsShaped [] t h = h
get-IsShaped (d ∷ p) t h = child-IsShaped d (get t p) (get-IsShaped p t h)

IsChildless-left : (v : Label) (l l' r : Tree) → IsNode l → IsChildless v l r → IsChildless v l' r
IsChildless-left end_subproblem l l' r n h = cc
IsChildless-left (branch v) l l' r n h = tt

IsChildless-right : (v : Label) (l r r' : Tree) → IsNode r → IsChildless v l r → IsChildless v l r'
IsChildless-right end_subproblem l r r' n h = cc
IsChildless-right (branch v) l r r' n h = tt

through-IsShaped :
    (g : Info → Info) (d : Dir) (f : Tree → Tree) (t : Tree)
    → ((i : Info) → (g i).variable ≡ i.variable)
    → IsNode (child d t)
    → IsShaped t
    → IsShaped (f (child d t))
    → IsShaped (through g d f t)
through-IsShaped g d f null k n s h = tt
through-IsShaped g left f (node i l r) k n s h =
    (rw (k i) (IsChildless-left i.variable l (f l) r n s.0), h, s.2)
through-IsShaped g right f (node i l r) k n s h =
    (rw (k i) (IsChildless-right i.variable l r (f r) n s.0), s.1, h)

pub update_up-IsShaped :
    (g : Info → Info) (p : Position) (f : Tree → Tree) (t : Tree)
    → ((i : Info) → (g i).variable ≡ i.variable)
    → IsNode (get t p)
    → IsShaped t
    → IsShaped (f (get t p))
    → IsShaped (update_up g f p t)
update_up-IsShaped g [] f t k n s h = h
update_up-IsShaped g (d ∷ p) f t k n s h =
    update_up-IsShaped g p (through g d f) t k (child-IsNode d (get t p) n) s
      (through-IsShaped g d f (get t p) k n (get-IsShaped p t s) h)

grow-IsShaped : (v : ℕ) (t : Tree) → IsShaped (grow v t)
unfolding grow
grow-IsShaped v null = tt
grow-IsShaped v (node i l r) = (tt, ((refl, refl), tt, tt), ((refl, refl), tt, tt))

pub extend_node-IsShaped :
    (v : ℕ) (p : Position) (t : Tree) → IsShaped t → IsLeaf (get t p) → IsShaped (extend_node v p t)
unfolding extend_node
extend_node-IsShaped v p t s h =
    update_up-IsShaped more_subproblems p (grow v) t (λ i. refl) (leaf-IsNode (get t p) h) s
      (grow-IsShaped v (get t p))

empty_root-IsShaped : (t : Tree) → HasBranch t → IsShaped (empty_root t)
empty_root-IsShaped null h = absurd h
empty_root-IsShaped (node i l r) h = (rw h.1 tt, tt, tt)

pub delete_node-IsShaped :
    (p : Position) (t : Tree)
    → HasBranch t
    → IsNode (get t p)
    → IsShaped t
    → IsShaped (delete_node p t)
unfolding delete_node
delete_node-IsShaped [] t b n s = empty_root-IsShaped t b
delete_node-IsShaped (d ∷ p) t b n s = update_up-IsShaped _ (d ∷ p) cut t (λ i. refl) n s tt

-- The label of the root is changed by no update below it, nor by growing a leaf.
through-HasBranch :
    (g : Info → Info) (d : Dir) (f : Tree → Tree) (t : Tree)
    → ((i : Info) → (g i).variable ≡ i.variable)
    → HasBranch t
    → HasBranch (through g d f t)
through-HasBranch g d f null k h = h
through-HasBranch g left f (node i l r) k h = (h.0, k i ∙ h.1)
through-HasBranch g right f (node i l r) k h = (h.0, k i ∙ h.1)

update_up-HasBranch :
    (g : Info → Info) (p : Position) (f : Tree → Tree) (t : Tree)
    → ((i : Info) → (g i).variable ≡ i.variable)
    → ((s : Tree) → HasBranch s → HasBranch (f s))
    → HasBranch t
    → HasBranch (update_up g f p t)
update_up-HasBranch g [] f t k n h = n t h
update_up-HasBranch g (d ∷ p) f t k n h =
    update_up-HasBranch g p (through g d f) t k (λ s. through-HasBranch g d f s k) h

grow-HasBranch : (v : ℕ) (t : Tree) → HasBranch t → HasBranch (grow v t)
unfolding grow
grow-HasBranch v null h = h
grow-HasBranch v (node i l r) h = (v, refl)

empty_root-HasBranch : (t : Tree) → HasBranch t → HasBranch (empty_root t)
empty_root-HasBranch null h = h
empty_root-HasBranch (node i l r) h = h

pub extend_node-HasBranch :
    (v : ℕ) (p : Position) (t : Tree) → HasBranch t → HasBranch (extend_node v p t)
unfolding extend_node
extend_node-HasBranch v p t h =
    update_up-HasBranch more_subproblems p (grow v) t (λ i. refl) (grow-HasBranch v) h

pub delete_node-HasBranch : (p : Position) (t : Tree) → HasBranch t → HasBranch (delete_node p t)
unfolding delete_node
delete_node-HasBranch [] t h = empty_root-HasBranch t h
delete_node-HasBranch (d ∷ p) t h =
    update_up-HasBranch _ p (through _ d cut) t (λ i. refl)
      (λ s. through-HasBranch _ d cut s (λ i. refl)) h

-- A node with one child left: whoever is covered by it takes that child's direction.
only_child :
    (α : ℕ → Bool) (d : Dir) (t : Tree)
    → IsShaped t
    → lacks_child t ≡ true
    → IsNode (child d t)
    → covered α t ≡ true
    → agrees α d t ≡ true
unfolding covered
only_child α d null s k n c = cc
only_child α left (node i null r) s k n c = cc
only_child α left (node i (node j a b) (node x y z)) s k n c = cc
only_child α left (node i (node j a b) null) s k n c = ground arith
only_child α right (node i l null) s k n c = cc
only_child α right (node i (node j a b) (node x y z)) s k n c = cc
only_child α right (node i null (node j a b)) s k n c = ground arith

pub get-pruning-IsNode : (t : Tree) (p : Position) → IsNode (get t p) → IsNode (get t (pruning t p))
unfolding pruning
get-pruning-IsNode t [] n = n
get-pruning-IsNode t (d ∷ p) n = ground (arith, get-pruning-IsNode t p (child-IsNode d (get t p) n))

-- Pruning does no harm: in a tree whose open subproblems have no children, the assignments that the
-- tree still covers and that go through the pruned node all go through the node that was to be cut.
pub follows-pruning :
    (α : ℕ → Bool) (t : Tree) (p : Position)
    → IsShaped t
    → IsNode (get t p)
    → covered α t ≡ true
    → follows α t (pruning t p) ≡ true
    → follows α t p ≡ true
unfolding pruning follows
follows-pruning α t [] s n c f = refl
follows-pruning α t (d ∷ p) s n c f = ground (
  arith,
  follows-pruning α t p s (child-IsNode d (get t p) n),
  only_child α d (get t p) (get-IsShaped p t s),
  covered-get α p t,
)
