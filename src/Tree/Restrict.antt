-- ===== src/Tree/Restrict.antt =====
-- Deleting nodes leaves the paths to the other nodes as they were.
use dsyrup.Base.{false, ℕ, ◌≡◌, refl, ◌∙◌, Bool, false, [], ◌∷◌, arith}
use dsyrup.Tree.{
  Info, Tree, null, node, Dir, left, right, Position, child, get, through, update_up,
  fewer_subproblems, cut, empty_root, delete_node, destroyed,
}
use dsyrup.Tree.Cover.{follows, agrees}
use dsyrup.Tree.Alike.{Alike}

-- `u` has lost some of the nodes of `t`, and its own have their labels still.
abbrev pub Restricts : Tree → Tree → Type 0
Restricts t null = Unit
Restricts null (node j m s) = ⊥
Restricts (node i l r) (node j m s) = (j.variable ≡ i.variable) × Restricts l m × Restricts r s

pub Restricts-refl : (t : Tree) → Restricts t t
Restricts-refl null = tt
Restricts-refl (node i l r) = (refl, Restricts-refl l, Restricts-refl r)

pub Restricts-trans : (t u v : Tree) → Restricts t u → Restricts u v → Restricts t v
Restricts-trans t u null h k = tt
Restricts-trans t null (node x y z) h k = absurd k
Restricts-trans null (node j m s) (node x y z) h k = absurd h
Restricts-trans (node i l r) (node j m s) (node x y z) h k =
    (k.0 ∙ h.0, Restricts-trans l m y h.1 k.1, Restricts-trans r s z h.2 k.2)

pub Alike-Restricts : (t u : Tree) → Alike t u → Restricts t u
Alike-Restricts t null h = tt
Alike-Restricts null (node j m s) h = absurd h
Alike-Restricts (node i l r) (node j m s) h =
    (h.0, Alike-Restricts l m h.2, Alike-Restricts r s h.3)

through-Restricts :
    (g : Info → Info) (d : Dir) (f : Tree → Tree) (t : Tree)
    → ((i : Info) → (g i).variable ≡ i.variable)
    → ((s : Tree) → Restricts s (f s))
    → Restricts t (through g d f t)
through-Restricts g d f null k h = tt
through-Restricts g left f (node i l r) k h = (k i, h l, Restricts-refl r)
through-Restricts g right f (node i l r) k h = (k i, Restricts-refl l, h r)

update_up-Restricts :
    (g : Info → Info) (p : Position) (f : Tree → Tree) (t : Tree)
    → ((i : Info) → (g i).variable ≡ i.variable)
    → ((s : Tree) → Restricts s (f s))
    → Restricts t (update_up g f p t)
update_up-Restricts g [] f t k h = h t
update_up-Restricts g (d ∷ p) f t k h =
    update_up-Restricts g p (through g d f) t k (λ s. through-Restricts g d f s k h)

empty_root-Restricts : (t : Tree) → Restricts t (empty_root t)
empty_root-Restricts null = tt
empty_root-Restricts (node i l r) = (refl, tt, tt)

pub delete_node-Restricts : (p : Position) (t : Tree) → Restricts t (delete_node p t)
unfolding delete_node
delete_node-Restricts [] t = empty_root-Restricts t
delete_node-Restricts (d ∷ p) t =
    update_up-Restricts (fewer_subproblems (destroyed (get t (d ∷ p)))) (d ∷ p) cut t (λ i. refl)
      (λ s. tt)

Restricts-child : (d : Dir) (t u : Tree) → Restricts t u → Restricts (child d t) (child d u)
Restricts-child d t null h = tt
Restricts-child d null (node j m s) h = absurd h
Restricts-child left (node i l r) (node j m s) h = h.1
Restricts-child right (node i l r) (node j m s) h = h.2

Restricts-get : (p : Position) (t u : Tree) → Restricts t u → Restricts (get t p) (get u p)
Restricts-get [] t u h = h
Restricts-get (d ∷ p) t u h = Restricts-child d (get t p) (get u p) (Restricts-get p t u h)

agrees-Restricts :
    (α : ℕ → Bool) (d : Dir) (t u : Tree)
    → Restricts t u
    → agrees α d t ≡ false
    → agrees α d u ≡ false
agrees-Restricts α d t null h n = refl
agrees-Restricts α d null (node j m s) h n = absurd h
agrees-Restricts α d (node i l r) (node j m s) h n = ground arith

-- An assignment that does not go through a node does not do so after deletions either.
pub follows-Restricts :
    (α : ℕ → Bool) (p : Position) (t u : Tree)
    → Restricts t u
    → follows α t p ≡ false
    → follows α u p ≡ false
unfolding follows
follows-Restricts α [] t u h n = n
follows-Restricts α (d ∷ p) t u h n = ground (
  arith,
  follows-Restricts α p t u h,
  agrees-Restricts α d (get t p) (get u p) (Restricts-get p t u h),
)
