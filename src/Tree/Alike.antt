-- ===== src/Tree/Alike.antt =====
-- Trees that differ in their workers only, and trees that have lost some nodes.
use dsyrup.Base.{ℕ, ◌≡◌, refl, ◌∙◌, Bool, [], ◌∷◌, arith}
use dsyrup.Tree.{
  Label, end_subproblem, branch, Info, Tree, null, node, Dir, left, right, Position, child, get,
  is_null, through, update_up, fewer_workers, more_workers, fire, hire, del_worker, add_worker,
  count_extend, extend,
}
use dsyrup.Tree.Count.{leaves, IsCounted, HasBranch}
use dsyrup.Tree.Cover.{covered, follows, agrees}
use dsyrup.Tree.Prune
use dsyrup.Tree.Prune.{IsShaped}
use dsyrup.Tree.History.{IsWellFormed}

-- The same nodes, labels and counts of subproblems.
abbrev pub Alike : Tree → Tree → Type 0
Alike null null = Unit
Alike null (node i l r) = ⊥
Alike (node i l r) null = ⊥
Alike (node i l r) (node j m s) =
    (j.variable ≡ i.variable) × (j.nb_subproblems ≡ i.nb_subproblems) × Alike l m × Alike r s

pub Alike-refl : (t : Tree) → Alike t t
Alike-refl null = tt
Alike-refl (node i l r) = (refl, refl, Alike-refl l, Alike-refl r)

pub Alike-trans : (t u v : Tree) → Alike t u → Alike u v → Alike t v
Alike-trans null null v h k = k
Alike-trans null (node j m s) v h k = absurd h
Alike-trans (node i l r) null v h k = absurd h
Alike-trans (node i l r) (node j m s) null h k = absurd k
Alike-trans (node i l r) (node j m s) (node x y z) h k =
    (k.0 ∙ h.0, k.1 ∙ h.1, Alike-trans l m y h.2 k.2, Alike-trans r s z h.3 k.3)

Alike-leaves : (t u : Tree) → Alike t u → leaves u ≡ leaves t
unfolding leaves
Alike-leaves null null h = refl
Alike-leaves null (node j m s) h = absurd h
Alike-leaves (node i l r) null h = absurd h
Alike-leaves (node i l r) (node j m s) h =
    ground (arith, Alike-leaves l m h.2, Alike-leaves r s h.3)

pub Alike-covered : (α : ℕ → Bool) (t u : Tree) → Alike t u → covered α u ≡ covered α t
unfolding covered
Alike-covered α null null h = refl
Alike-covered α null (node j m s) h = absurd h
Alike-covered α (node i l r) null h = absurd h
Alike-covered α (node i l r) (node j m s) h =
    ground (arith, Alike-covered α l m h.2, Alike-covered α r s h.3)

Alike-null : (t u : Tree) → Alike t u → is_null u ≡ is_null t
Alike-null null null h = refl
Alike-null null (node j m s) h = absurd h
Alike-null (node i l r) null h = absurd h
Alike-null (node i l r) (node j m s) h = refl

Alike-child : (d : Dir) (t u : Tree) → Alike t u → Alike (child d t) (child d u)
Alike-child d null null h = h
Alike-child d null (node j m s) h = absurd h
Alike-child d (node i l r) null h = absurd h
Alike-child left (node i l r) (node j m s) h = h.2
Alike-child right (node i l r) (node j m s) h = h.3

pub Alike-get : (p : Position) (t u : Tree) → Alike t u → Alike (get t p) (get u p)
Alike-get [] t u h = h
Alike-get (d ∷ p) t u h = Alike-child d (get t p) (get u p) (Alike-get p t u h)

pub Alike-IsNode : (p : Position) (t u : Tree) → Alike t u → is_null (get u p) ≡ is_null (get t p)
Alike-IsNode p t u h = Alike-null (get t p) (get u p) (Alike-get p t u h)

agrees-Alike : (α : ℕ → Bool) (d : Dir) (t u : Tree) → Alike t u → agrees α d u ≡ agrees α d t
agrees-Alike α d null null h = refl
agrees-Alike α d null (node j m s) h = absurd h
agrees-Alike α d (node i l r) null h = absurd h
agrees-Alike α d (node i l r) (node j m s) h = ground arith

pub Alike-follows :
    (α : ℕ → Bool) (p : Position) (t u : Tree) → Alike t u → follows α u p ≡ follows α t p
unfolding follows
Alike-follows α [] t u h = refl
Alike-follows α (d ∷ p) t u h =
    ground
      (arith, Alike-follows α p t u h, agrees-Alike α d (get t p) (get u p) (Alike-get p t u h))

Alike-IsCounted : (t u : Tree) → Alike t u → IsCounted t → IsCounted u
unfolding leaves
Alike-IsCounted null null h c = c
Alike-IsCounted null (node j m s) h c = absurd h
Alike-IsCounted (node i l r) null h c = absurd h
Alike-IsCounted (node i l r) (node j m s) h c = (
  rw (h.1, Alike-leaves (node i l r) (node j m s) h) (c.0),
  Alike-IsCounted l m h.2 c.1,
  Alike-IsCounted r s h.3 c.2,
)

Alike-IsShaped : (t u : Tree) → Alike t u → IsShaped t → IsShaped u
Alike-IsShaped null null h c = c
Alike-IsShaped null (node j m s) h c = absurd h
Alike-IsShaped (node i l r) null h c = absurd h
Alike-IsShaped (node i l r) (node j m s) h c =
    (rw h.0 (childless i.variable c.0), Alike-IsShaped l m h.2 c.1, Alike-IsShaped r s h.3 c.2)
  where
    childless : (v : Label) → Prune.IsChildless v l r → Prune.IsChildless v m s
    childless end_subproblem k = (Alike-null l m h.2 ∙ k.0, Alike-null r s h.3 ∙ k.1)
    childless (branch v) k = tt

Alike-HasBranch : (t u : Tree) → Alike t u → HasBranch t → HasBranch u
Alike-HasBranch null null h c = c
Alike-HasBranch null (node j m s) h c = absurd h
Alike-HasBranch (node i l r) null h c = absurd h
Alike-HasBranch (node i l r) (node j m s) h c = (c.0, h.0 ∙ c.1)

pub Alike-IsWellFormed : (t u : Tree) → Alike t u → IsWellFormed t → IsWellFormed u
Alike-IsWellFormed t u h w = record {
  counted = Alike-IsCounted t u h w.counted;
  shaped = Alike-IsShaped t u h w.shaped;
  branching = Alike-HasBranch t u h w.branching;
}

-- `g` touches neither the label nor the count of subproblems.
abbrev Aside : (Info → Info) → Type 0
Aside g = (i : Info) → ((g i).variable ≡ i.variable) × ((g i).nb_subproblems ≡ i.nb_subproblems)

through-Alike :
    (g : Info → Info) (d : Dir) (f : Tree → Tree) (t : Tree)
    → Aside g
    → ((s : Tree) → Alike s (f s))
    → Alike t (through g d f t)
through-Alike g d f null k h = tt
through-Alike g left f (node i l r) k h = ((k i).0, (k i).1, h l, Alike-refl r)
through-Alike g right f (node i l r) k h = ((k i).0, (k i).1, Alike-refl l, h r)

update_up-Alike :
    (g : Info → Info) (p : Position) (f : Tree → Tree) (t : Tree)
    → Aside g
    → ((s : Tree) → Alike s (f s))
    → Alike t (update_up g f p t)
update_up-Alike g [] f t k h = h t
update_up-Alike g (d ∷ p) f t k h =
    update_up-Alike g p (through g d f) t k (λ s. through-Alike g d f s k h)

fire-Alike : (w : ℕ × ℕ) (t : Tree) → Alike t (fire w t)
unfolding fire
fire-Alike w null = tt
fire-Alike w (node i l r) = (refl, refl, Alike-refl l, Alike-refl r)

hire-Alike : (w : ℕ × ℕ) (t : Tree) → Alike t (hire w t)
unfolding hire
hire-Alike w null = tt
hire-Alike w (node i l r) = (refl, refl, Alike-refl l, Alike-refl r)

pub add_worker-Alike : (w : ℕ × ℕ) (p : Position) (t : Tree) → Alike t (add_worker w p t)
unfolding add_worker
add_worker-Alike w p t =
    update_up-Alike more_workers p (hire w) t (λ i. (refl, refl)) (hire-Alike w)

pub del_worker-Alike : (w : ℕ × ℕ) (p : Position) (t : Tree) → Alike t (del_worker w p t)
unfolding del_worker
del_worker-Alike w p t = ground (
  arith,
  update_up-Alike fewer_workers p (fire w) t (λ i. (refl, refl)) (fire-Alike w),
  Alike-refl t,
)

count_extend-Alike : (t : Tree) → Alike t (count_extend t)
count_extend-Alike null = tt
count_extend-Alike (node i l r) = (refl, refl, Alike-refl l, Alike-refl r)

pub extend-Alike : (max : ℕ) (p : Position) (t : Tree) → Alike t (extend max p t).1
unfolding extend
extend-Alike max p t =
    update_up-Alike (λ i. i) p count_extend t (λ i. (refl, refl)) count_extend-Alike
