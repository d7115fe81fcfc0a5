-- ===== src/Tree.antt =====
-- Manager/AmpharosManager/Tree.{h,cc}: the tree of subproblems of the divide-and-conquer mode.
-- A `Node*` is a position: the directions from the node up to the root, so that `father` is the
-- tail of the list. Nodes never move, so a position stays good as long as its node lives. An
-- `int` counter is its pattern of 32 bits. `id`, `alreadySentULs` and the unit literals of a node
-- (`ULs`, `dataULs`, which the manager no longer fills) are left out.
pub mod Count
pub mod Cover
pub mod Prune
pub mod History
pub mod Alike
pub mod Restrict
pub mod Size
mod Tests
use dsyrup.Base.{
  ℕ, zero, suc, ◌+◌, ◌-◌, ◌%◌, ◌^◌, ◌≡◌, Bool, true, false, not, ◌&&◌, List, [], ◌∷◌, ◌++◌,
  if◌then◌else◌, ◌==◌, ltb,
}

-- `variable`: END_SUBPROBLEM (-2) at a leaf, or the variable on which the node branches.
pub data Label : Type 0 where
  end_subproblem : Label
  branch : ℕ → Label

-- `computers` and `threads` grow and shrink together: one list of pairs.
pub record Info : Type 0 where
  pub variable : Label
  pub nb_subproblems : ℕ
  pub nb_workers : ℕ
  pub nb_extends : ℕ
  pub workers : List (ℕ × ℕ)

pub data Tree : Type 0 where
  null : Tree
  node : Info → Tree → Tree → Tree

pub data Dir : Type 0 where
  left right : Dir

abbrev pub Position : Type 0
Position = List Dir

abbrev pub child : Dir → Tree → Tree
child d null = null
child left (node i l r) = l
child right (node i l r) = r

abbrev pub get : Tree → Position → Tree
get t [] = t
get t (d ∷ p) = child d (get t p)

abbrev pub is_null : Tree → Bool
is_null null = true
is_null (node i l r) = false

-- `g` on a node and `f` on one of its children
abbrev pub through : (Info → Info) → Dir → (Tree → Tree) → Tree → Tree
through g d f null = null
through g left f (node i l r) = node (g i) (f l) r
through g right f (node i l r) = node (g i) l (f r)

-- `f` at a node and `g` on all that its chain of fathers reaches.
abbrev pub update_up : (Info → Info) → (Tree → Tree) → Position → Tree → Tree
update_up g f [] t = f t
update_up g f (d ∷ p) t = update_up g (through g d f) p t

-- `int` arithmetic on bit patterns
abbrev pub plus_one : ℕ → ℕ
plus_one n = (n + 1) % 2 ^ 32

abbrev pub minus_one : ℕ → ℕ
minus_one n = (n + (2 ^ 32 - 1)) % 2 ^ 32

-- `<` on `int`
abbrev pub less_than : ℕ → ℕ → Bool
less_than x y = ltb ((x + 2 ^ 31) % 2 ^ 32) ((y + 2 ^ 31) % 2 ^ 32)

-- `n` rounds of `nb--`
unfoldable pub minus : ℕ → ℕ → ℕ
minus zero x = x
minus (suc n) x = minus n (minus_one x)

-- `Node(END_SUBPROBLEM, NULL, NULL, father, 1)`
abbrev pub new_leaf : Tree
new_leaf =
    node
      (record {
        variable = end_subproblem;
        nb_subproblems = 1;
        nb_workers = 0;
        nb_extends = 0;
        workers = [];
      })
      null null

abbrev pub more_subproblems : Info → Info
more_subproblems i = record i { nb_subproblems = plus_one i.nb_subproblems }

abbrev pub fewer_subproblems : ℕ → Info → Info
fewer_subproblems n i = record i { nb_subproblems = minus n i.nb_subproblems }

-- the node's own part of `extendNode`
unfoldable pub grow : ℕ → Tree → Tree
grow v null = null
grow v (node i l r) = node (more_subproblems (record i { variable = branch v })) new_leaf new_leaf

-- `extendNode`: two fresh leaves, and `incrementNbSubproblems` from the node up.
unfoldable pub extend_node : ℕ → Position → Tree → Tree
unfolding grow
extend_node v p t = update_up more_subproblems (grow v) p t

-- `Tree::createRoot`
unfoldable pub create_root : ℕ → Tree
unfolding extend_node
create_root v = extend_node v [] new_leaf

abbrev pub leaf_count : Label → ℕ
leaf_count end_subproblem = 1
leaf_count (branch v) = 0

-- How often `~Node` of a subtree calls `decrementNbSubproblems` through the node above it: once for
-- each node whose variable is END_SUBPROBLEM (the right child is deleted before the left one).
unfoldable pub destroyed : Tree → ℕ
destroyed null = 0
destroyed (node i l r) = leaf_count i.variable + destroyed r + destroyed l

abbrev pub cut : Tree → Tree
cut t = null

abbrev pub empty_root : Tree → Tree
empty_root null = null
empty_root (node i l r) = node (record i { nb_subproblems = 0 }) null null

-- `deleteNode`, on the tree that is below the root: a node with a father is unlinked and destroyed; from
-- the root its children are only unlinked, and stay allocated (`Field` of Pharus/Field.antt keeps them).
unfoldable pub delete_node : Position → Tree → Tree
unfolding destroyed minus
delete_node [] t = empty_root t
delete_node (d ∷ p) t = update_up (fewer_subproblems (destroyed (get t (d ∷ p)))) cut (d ∷ p) t

-- `extend`: whether more than `max_to_extend` workers have asked to extend the node.
abbrev pub count_extend : Tree → Tree
count_extend null = null
count_extend (node i l r) = node (record i { nb_extends = plus_one i.nb_extends }) l r

abbrev pub wants_extension : ℕ → Tree → Bool
wants_extension max null = false
wants_extension max (node i l r) = less_than max (plus_one i.nb_extends)

unfoldable pub extend : ℕ → Position → Tree → Bool × Tree
extend max p t = (wants_extension max (get t p), update_up (λ i. i) count_extend p t)

abbrev pub root_info : Tree → ℕ
root_info null = 0
root_info (node i l r) = i.nb_subproblems

-- `Tree::getNbSubproblems` and `Tree::isUnsat`
abbrev pub get_nb_subproblems : Tree → ℕ
get_nb_subproblems t = root_info t

unfoldable pub is_unsat : Tree → Bool
is_unsat t = get_nb_subproblems t == 0

abbrev pub more_workers : Info → Info
more_workers i = record i { nb_workers = plus_one i.nb_workers }

abbrev pub fewer_workers : Info → Info
fewer_workers i = record i { nb_workers = minus_one i.nb_workers }

abbrev pub same_worker : ℕ × ℕ → ℕ × ℕ → Bool
same_worker (c, h) (c', h') = c == c' && h == h'

unfoldable pub hire : ℕ × ℕ → Tree → Tree
hire w null = null
hire w (node i l r) = node (more_workers (record i { workers = i.workers ++ w ∷ [] })) l r

-- `addWorker`
unfoldable pub add_worker : ℕ × ℕ → Position → Tree → Tree
unfolding hire
add_worker w p t = update_up more_workers (hire w) p t

unfoldable pub has_worker : ℕ × ℕ → List (ℕ × ℕ) → Bool
has_worker w [] = false
has_worker w (x ∷ xs) = if same_worker x w then true else has_worker w xs

-- the first pair that matches is erased
unfoldable pub erase_worker : ℕ × ℕ → List (ℕ × ℕ) → List (ℕ × ℕ)
erase_worker w [] = []
erase_worker w (x ∷ xs) = if same_worker x w then xs else x ∷ erase_worker w xs

unfoldable pub fire : ℕ × ℕ → Tree → Tree
fire w null = null
fire w (node i l r) = node (fewer_workers (record i { workers = erase_worker w i.workers })) l r

abbrev pub workers_of : Tree → List (ℕ × ℕ)
workers_of null = []
workers_of (node i l r) = i.workers

-- `delWorker`: nothing happens where the worker is not found.
unfoldable pub del_worker : ℕ × ℕ → Position → Tree → Tree
unfolding has_worker erase_worker fire
del_worker w p t =
    if has_worker w (workers_of (get t p)) then update_up fewer_workers (fire w) p t else t

-- `getWorkersGoDown`: the node, then the right subtree, then the left one.
unfoldable pub get_workers_go_down : Tree → List (ℕ × ℕ)
get_workers_go_down null = []
get_workers_go_down (node i l r) = i.workers ++ (get_workers_go_down r ++ get_workers_go_down l)

-- `getDepth`
pub get_depth : Position → ℕ
get_depth [] = 0
get_depth (d ∷ p) = get_depth p + 1

abbrev pub lacks_child : Tree → Bool
lacks_child null = true
lacks_child (node i l r) = if is_null l then true else is_null r

-- `AmpharosManager::pharusPruning`: up as long as the father has lost a child.
unfoldable pub pruning : Tree → Position → Position
pruning t [] = []
pruning t (d ∷ p) = let above = pruning t p in if lacks_child (get t p) then above else d ∷ p

-- `adjacentIsUNSAT`
pub adjacent_is_unsat : Tree → Position → Bool
adjacent_is_unsat t [] = false
adjacent_is_unsat t (left ∷ p) = is_null (child right (get t p))
adjacent_is_unsat t (right ∷ p) = is_null (child left (get t p))
