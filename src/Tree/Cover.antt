-- ===== src/Tree/Cover.antt =====
-- What the tree means: the assignments of the variables that its open subproblems still cover.
use dsyrup.Base.{ℕ, ◌≡◌, refl, Bool, true, false, not, ◌&&◌, [], ◌∷◌, arith, if◌then◌else◌}
use dsyrup.Tree.{
  Label, end_subproblem, branch, Info, Tree, null, node, Dir, left, right, Position, child, get,
  through, update_up, more_subproblems, fewer_subproblems, grow, extend_node, destroyed, cut,
  empty_root, delete_node,
}
use dsyrup.Tree.Count.{IsNode, IsLeaf, HasBranch, leaves}

-- The left child has the variable true (VAR_POSITIVE_ASSIGN), the right one has it false.
abbrev pub turn : Dir → Bool → Bool
turn left b = b
turn right b = not b

abbrev pub chooses : (ℕ → Bool) → Dir → Label → Bool
chooses α d end_subproblem = false
chooses α d (branch v) = turn d (α v)

abbrev pub agrees : (ℕ → Bool) → Dir → Tree → Bool
agrees α d null = false
agrees α d (node i l r) = chooses α d i.variable

-- An assignment goes through a node if it agrees with every branching above it.
unfoldable pub follows : (ℕ → Bool) → Tree → Position → Bool
follows α t [] = true
follows α t (d ∷ p) = follows α t p && agrees α d (get t p)

abbrev pub enter : (ℕ → Bool) → Label → Bool → Bool → Bool
enter α end_subproblem l r = true
enter α (branch v) l r = if α v then l else r

-- An assignment is covered if its way down ends in an open subproblem.
unfoldable pub covered : (ℕ → Bool) → Tree → Bool
covered α null = false
covered α (node i l r) = let x = covered α l in let y = covered α r in enter α i.variable x y

child-IsNode : (d : Dir) (t : Tree) → IsNode (child d t) → IsNode t
child-IsNode d null h = h
child-IsNode d (node i l r) h = refl

-- Below a node, only the assignments that take the direction of a changed child are affected.
through-covered :
    (α : ℕ → Bool) (g : Info → Info) (d : Dir) (f : Tree → Tree) (t : Tree)
    → ((i : Info) → (g i).variable ≡ i.variable)
    → covered α (through g d f t)
      ≡ (if agrees α d t then covered α (f (child d t)) else covered α t)
unfolding covered
through-covered α g d f null k = refl
through-covered α g left f (node i l r) k = ground (arith, k i)
through-covered α g right f (node i l r) k = ground (arith, k i)

covered-child :
    (α : ℕ → Bool) (d : Dir) (t : Tree) → agrees α d t ≡ true → covered α t ≡ covered α (child d t)
unfolding covered
covered-child α d null h = refl
covered-child α left (node i l r) h = ground arith
covered-child α right (node i l r) h = ground arith

-- An assignment that goes through a node is covered by the tree if it is covered by the node.
pub covered-get :
    (α : ℕ → Bool) (p : Position) (t : Tree)
    → follows α t p ≡ true
    → covered α t ≡ covered α (get t p)
unfolding follows
covered-get α [] t h = refl
covered-get α (d ∷ p) t h = ground (arith, covered-get α p t, covered-child α d (get t p))

-- The same of a node at any depth.
pub update_up-covered :
    (α : ℕ → Bool) (g : Info → Info) (p : Position) (f : Tree → Tree) (t : Tree)
    → ((i : Info) → (g i).variable ≡ i.variable)
    → covered α (update_up g f p t)
      ≡ (if follows α t p then covered α (f (get t p)) else covered α t)
unfolding follows
update_up-covered α g [] f t k = refl
update_up-covered α g (d ∷ p) f t k = ground (
  arith,
  update_up-covered α g p (through g d f) t k,
  through-covered α g d f (get t p) k,
  covered-get α p t,
)

covered-grow : (α : ℕ → Bool) (v : ℕ) (t : Tree) → IsLeaf t → covered α (grow v t) ≡ covered α t
unfolding covered grow
covered-grow α v null h = absurd h
covered-grow α v (node i l r) h = ground arith

covered-empty_root : (α : ℕ → Bool) (t : Tree) → HasBranch t → covered α (empty_root t) ≡ false
unfolding covered
covered-empty_root α null h = absurd h
covered-empty_root α (node i l r) h = ground arith

-- Splitting a leaf loses no assignment and adds none.
pub covered-extend_node :
    (α : ℕ → Bool) (v : ℕ) (p : Position) (t : Tree)
    → IsLeaf (get t p)
    → covered α (extend_node v p t) ≡ covered α t
unfolding extend_node
covered-extend_node α v p t h = ground (
  arith,
  update_up-covered α more_subproblems p (grow v) t (λ i. refl),
  covered-grow α v (get t p) h,
  covered-get α p t,
)

-- In a tree whose root branches, deleting a node uncovers exactly the assignments that go through it.
pub covered-delete_node :
    (α : ℕ → Bool) (p : Position) (t : Tree)
    → HasBranch t
    → covered α (delete_node p t) ≡ covered α t && not (follows α t p)
unfolding delete_node covered follows
covered-delete_node α [] t h = ground (arith, covered-empty_root α t h)
covered-delete_node α (d ∷ p) t h =
    let lower = fewer_subproblems (destroyed (get t (d ∷ p))) in
    ground (arith, update_up-covered α lower (d ∷ p) cut t (λ i. refl))

-- A tree without open subproblems covers nothing.
pub covered-leaves : (α : ℕ → Bool) (t : Tree) → leaves t ≡ 0 → covered α t ≡ false
unfolding covered leaves
covered-leaves α null h = refl
covered-leaves α (node i l r) h = ground (arith, covered-leaves α l, covered-leaves α r)
