-- ===== src/Tree/Count.antt =====
-- The counters of subproblems and workers.
use dsyrup.Base.{
  ℕ, zero, suc, ◌+◌, ◌%◌, ◌^◌, ◌<◌, ◌≡◌, ◌↔◌, refl, ap, ◌∙◌, true, false, [], ◌∷◌, arith,
}
use dsyrup.Tree.{
  end_subproblem, branch, Info, Tree, null, node, Dir, left, right, Position, child, get, is_null,
  through, update_up, minus, more_subproblems, fewer_subproblems, grow, extend_node, leaf_count,
  destroyed, cut, empty_root, delete_node, is_unsat,
}

-- The number of open subproblems: leaves that are labelled END_SUBPROBLEM.
unfoldable pub leaves : Tree → ℕ
leaves null = 0
leaves (node i l r) = leaf_count i.variable + leaves l + leaves r

-- Each node counts the open subproblems below it, modulo 2 ^ 32.
abbrev pub IsCounted : Tree → Type 0
IsCounted null = Unit
IsCounted (node i l r) =
    (i.nb_subproblems ≡ leaves (node i l r) % 2 ^ 32) × IsCounted l × IsCounted r

abbrev pub IsNode : Tree → Type 0
IsNode t = is_null t ≡ false

minus-lem : (n x a : ℕ) → minus n ((x + n) % 2 ^ 32) ≡ x % 2 ^ 32
unfolding minus
minus-lem zero x a = ap (λ y. y % 2 ^ 32) (omega arith)
minus-lem (suc n) x a = ap (minus n) (omega arith) ∙ minus-lem n x a

destroyed-leaves : (t : Tree) → destroyed t ≡ leaves t
unfolding destroyed leaves
destroyed-leaves null = refl
destroyed-leaves (node i l r) = omega (arith, destroyed-leaves l, destroyed-leaves r)

-- `g` follows a change of the number of leaves from `c` to `c'`, where c' + a ≡ c + b.
record Follows (a b : ℕ) (g : Info → Info) : Type 0 where
  label : (i : Info) → (g i).variable ≡ i.variable
  count :
      (i : Info) (c c' : ℕ)
      → c' + a ≡ c + b
      → i.nb_subproblems ≡ c % 2 ^ 32
      → (g i).nb_subproblems ≡ c' % 2 ^ 32

-- `s` stands for `t` with its leaves counted, `a` fewer or `b` more.
record Recount (a b : ℕ) (t s : Tree) : Type 0 where
  counted : IsCounted s
  change : leaves s + a ≡ leaves t + b

through-Recount :
    {a b : ℕ} {g : Info → Info} (d : Dir) (f : Tree → Tree) (t : Tree)
    → Follows a b g
    → IsNode (child d t)
    → IsCounted t
    → (IsCounted (child d t) → Recount a b (child d t) (f (child d t)))
    → Recount a b t (through g d f t)
unfolding leaves
through-Recount d f null k n c h = cc
through-Recount {a} {b} {g} left f (node i l r) k n c h =
    let below = h c.1 in
    let total : leaf_count (g i).variable + leaves (f l) + leaves r + a
        ≡ leaf_count i.variable + leaves l + leaves r + b =
      rw (k.label i) (omega (arith, below.change)) in
    record { counted = (k.count i _ _ total c.0, below.counted, c.2); change = total }
through-Recount {a} {b} {g} right f (node i l r) k n c h =
    let below = h c.2 in
    let total : leaf_count (g i).variable + leaves l + leaves (f r) + a
        ≡ leaf_count i.variable + leaves l + leaves r + b =
      rw (k.label i) (omega (arith, below.change)) in
    record { counted = (k.count i _ _ total c.0, c.1, below.counted); change = total }

child-IsNode : (d : Dir) (t : Tree) → IsNode (child d t) → IsNode t
child-IsNode d null h = h
child-IsNode d (node i l r) h = refl

child-IsCounted : (d : Dir) (t : Tree) → IsCounted t → IsCounted (child d t)
child-IsCounted d null h = h
child-IsCounted left (node i l r) h = h.1
child-IsCounted right (node i l r) h = h.2

pub get-IsCounted : (p : Position) (t : Tree) → IsCounted t → IsCounted (get t p)
get-IsCounted [] t h = h
get-IsCounted (d ∷ p) t h = child-IsCounted d (get t p) (get-IsCounted p t h)

update_up-Recount :
    {a b : ℕ} {g : Info → Info} (p : Position) (f : Tree → Tree) (t : Tree)
    → Follows a b g
    → IsNode (get t p)
    → IsCounted t
    → (IsCounted (get t p) → Recount a b (get t p) (f (get t p)))
    → Recount a b t (update_up g f p t)
update_up-Recount [] f t k n c h = h c
update_up-Recount {g} (d ∷ p) f t k n c h =
    update_up-Recount p (through g d f) t k (child-IsNode d (get t p) n) c
      λ here. through-Recount d f (get t p) k n here h

more_subproblems-Follows : Follows 0 1 more_subproblems
more_subproblems-Follows = record { label = λ i. refl; count = λ i c c' e h. omega arith }

fewer_subproblems-Follows : (n : ℕ) → Follows n 0 (fewer_subproblems n)
fewer_subproblems-Follows n = record {
  label = λ i. refl;
  count = λ i c c' e h. h' i c c' (omega arith) h;
}
  where
    h' :
        (i : Info) (c c' : ℕ)
        → c ≡ c' + n
        → i.nb_subproblems ≡ c % 2 ^ 32
        → minus n i.nb_subproblems ≡ c' % 2 ^ 32
    h' i c c' e h = rw (h, e) (minus-lem n c' 0)

-- A leaf of the tree: an open subproblem.
abbrev pub IsLeaf : Tree → Type 0
IsLeaf null = ⊥
IsLeaf (node i l r) = (i.variable ≡ end_subproblem) × (is_null l ≡ true) × (is_null r ≡ true)

-- The root branches, as `createRoot` leaves it.
abbrev pub HasBranch : Tree → Type 0
HasBranch null = ⊥
HasBranch (node i l r) = (v : ℕ) × (i.variable ≡ branch v)

leaves-null : (t : Tree) → is_null t ≡ true → leaves t ≡ 0
unfolding leaves
leaves-null null h = refl
leaves-null (node i l r) h = cc

pub leaves_of_leaf : (t : Tree) → IsLeaf t → leaves t ≡ 1
unfolding leaves
leaves_of_leaf null h = absurd h
leaves_of_leaf (node i l r) h = ground (arith, leaves-null l h.1, leaves-null r h.2)

pub leaf-IsNode : (t : Tree) → IsLeaf t → IsNode t
leaf-IsNode null h = absurd h
leaf-IsNode (node i l r) h = refl

grow-Recount : (v : ℕ) (t : Tree) → IsLeaf t → IsCounted t → Recount 0 1 t (grow v t)
unfolding grow leaves
grow-Recount v null h c = absurd h
grow-Recount v (node i l r) h c =
    let one : leaf_count i.variable + leaves l + leaves r ≡ 1 = leaves_of_leaf (node i l r) h in
    record { counted = (omega arith, (refl, tt, tt), (refl, tt, tt)); change = omega arith }

empty_root-Recount : (t : Tree) → HasBranch t → Recount (leaves t) 0 t (empty_root t)
unfolding leaves
empty_root-Recount null h = absurd h
empty_root-Recount (node i l r) h = record {
  counted = (ground arith, tt, tt);
  change = ground arith;
}

extend_node-Recount :
    (v : ℕ) (p : Position) (t : Tree)
    → IsCounted t
    → IsLeaf (get t p)
    → Recount 0 1 t (extend_node v p t)
unfolding extend_node
extend_node-Recount v p t c h =
    update_up-Recount p (grow v) t more_subproblems-Follows (leaf-IsNode (get t p) h) c
      (grow-Recount v (get t p) h)

delete_node-Recount :
    (p : Position) (t : Tree)
    → IsCounted t
    → HasBranch t
    → IsNode (get t p)
    → Recount (leaves (get t p)) 0 t (delete_node p t)
unfolding delete_node
delete_node-Recount [] t c h n = empty_root-Recount t h
delete_node-Recount (d ∷ p) t c h n = rw (← destroyed-leaves (get t (d ∷ p))) (
    update_up-Recount (d ∷ p) cut t (fewer_subproblems-Follows (destroyed (get t (d ∷ p)))) n c λ _.
      record {
        counted = tt;
        change = unfold leaves in rw (destroyed-leaves (get t (d ∷ p))) (omega arith);
      })

-- Extending a leaf keeps every node's count of the open subproblems below it, and opens one more.
pub extend_node-IsCounted :
    (v : ℕ) (p : Position) (t : Tree)
    → IsCounted t
    → IsLeaf (get t p)
    → IsCounted (extend_node v p t) × (leaves (extend_node v p t) ≡ leaves t + 1)
extend_node-IsCounted v p t c h =
    let r = extend_node-Recount v p t c h in (r.counted, omega (arith, r.change))

-- Deleting any node of a tree whose root branches keeps every node's count of the open subproblems
-- below it, and closes exactly the open subproblems that lay below the deleted node.
pub delete_node-IsCounted :
    (p : Position) (t : Tree)
    → IsCounted t
    → HasBranch t
    → IsNode (get t p)
    → IsCounted (delete_node p t) × (leaves (delete_node p t) + leaves (get t p) ≡ leaves t)
delete_node-IsCounted p t c h n =
    let r = delete_node-Recount p t c h n in (r.counted, omega (arith, r.change))

-- Where the counters are right and short of 2 ^ 32 open subproblems, `isUnsat` says exactly that none is left.
pub is_unsat_iff :
    (t : Tree) → IsCounted t → leaves t < 2 ^ 32 → (is_unsat t ≡ true) ↔ (leaves t ≡ 0)
unfolding is_unsat leaves
is_unsat_iff null c h = (λ _. refl, λ _. refl)
is_unsat_iff (node i l r) c h = (λ e. ground arith, λ e. ground arith)
