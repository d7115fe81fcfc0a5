-- ===== src/Pharus/Split.antt =====
-- AmpharosManager::pharusSubproblemINDETERMINATE: a subproblem is split or left as it is.
use dsyrup.Base.{
  ◌^◌, ◌%◌, ◌≤◌, ℕ, ◌+◌, ◌*◌, ◌≡◌, refl, subst, ◌∙◌, Bool, true, Option, none, some, List, [], ◌∷◌,
  arith, Bool-cases, inl, inr,
}
use dsyrup.Tree.{
  plus_one, Tree, null, node, Label, end_subproblem, branch, Position, get, is_null, extend_node,
  extend, get_nb_subproblems,
}
use dsyrup.Tree.Count.{IsLeaf, leaves}
use dsyrup.Tree.Cover.{covered, covered-extend_node}
use dsyrup.Tree.Prune.{IsShaped, get-IsShaped}
use dsyrup.Tree.History.{IsWellFormed, extend_node-IsWellFormed}
use dsyrup.Tree.Alike.{Alike, Alike-covered, Alike-IsWellFormed, Alike-get, extend-Alike}
use dsyrup.Tree.Size.{leaves-split, leaves-Restricts}
use dsyrup.Tree.Restrict.{Alike-Restricts}
use dsyrup.Pharus.Field.{subproblem_exist, ok, Field, Pharus, is_end}
use dsyrup.Pharus.Handlers.{
  Done, split_node, extension, indeterminate_lost, indeterminate_at, subproblem_indeterminate,
}

-- A tree that is well-formed, covers the same assignments as before, and has at most one more open
-- subproblem.
pub record SameCover (f f' : Field) : Type 0 where
  pub wellformed : IsWellFormed f'.tree
  pub cover : (α : ℕ → Bool) → covered α f'.tree ≡ covered α f.tree
  pub grown : leaves f'.tree ≤ leaves f.tree + 1

SameCover-refl : (f : Field) → IsWellFormed f.tree → SameCover f f
SameCover-refl f w = record { wellformed = w; cover = λ α. refl; grown = omega arith }

is_end-IsLeaf : (t : Tree) → IsShaped t → is_end t ≡ true → IsLeaf t
is_end-IsLeaf null s e = cc
is_end-IsLeaf (node i l r) s e = at i.variable refl
  where
    at : (v : Label) → i.variable ≡ v → IsLeaf (node i l r)
    at end_subproblem q = let c = rw q at (s.0) in (q, c.0, c.1)
    at (branch v) q = cc

Alike-is_end : (t u : Tree) → Alike t u → is_end u ≡ is_end t
Alike-is_end null null a = refl
Alike-is_end null (node j m r) a = absurd a
Alike-is_end (node i l r) null a = absurd a
Alike-is_end (node i l r) (node j m q) a = ground arith

SameCover-tree :
    (f f' : Field) (t : Tree)
    → f'.tree ≡ t
    → IsWellFormed t
    → ((α : ℕ → Bool) → covered α t ≡ covered α f.tree)
    → leaves t ≤ leaves f.tree + 1
    → SameCover f f'
SameCover-tree f f' t e w c g = record {
  wellformed = rw e w;
  cover = λ α. rw e (c α);
  grown = rw e g;
}

extend_node-SameCover :
    (f f' : Field) (t : Tree) (v : ℕ) (p : Position)
    → Alike f.tree t
    → IsWellFormed f.tree
    → is_end (get f.tree p) ≡ true
    → f'.tree ≡ extend_node v p t
    → SameCover f f'
extend_node-SameCover f f' t v p a w leaf e =
    let w' = Alike-IsWellFormed f.tree t a w in
    let leaf' = Alike-is_end (get f.tree p) (get t p) (Alike-get p f.tree t a) ∙ leaf in
    let open_leaf = is_end-IsLeaf (get t p) (get-IsShaped p t w'.shaped) leaf' in
    SameCover-tree f f' (extend_node v p t) e (extend_node-IsWellFormed v p t open_leaf w')
      (λ α. covered-extend_node α v p t open_leaf ∙ Alike-covered α f.tree t a)
      (leaves-split f.tree t v p a w'.counted open_leaf)

split_node-SameCover :
    (s : Pharus) (p : Position) (t : Tree) (rest : List ℕ) (d : Done)
    → Alike s.field.tree t
    → IsWellFormed s.field.tree
    → is_end (get s.field.tree p) ≡ true
    → split_node s p t rest ≡ ok d
    → SameCover s.field d.state.field
unfolding split_node
split_node-SameCover s p t [] d a w leaf e = cc
split_node-SameCover s p t (v ∷ rest) d a w leaf e =
    extend_node-SameCover s.field d.state.field t v p a w leaf (ground arith)

extension-SameCover :
    (s : Pharus) (p : Position) (rest : List ℕ) (d : Done)
    → IsWellFormed s.field.tree
    → is_end (get s.field.tree p) ≡ true
    → extension s p rest ≡ ok d
    → SameCover s.field d.state.field
unfolding extension
extension-SameCover s p rest d w leaf e =
    let max = (get_nb_subproblems s.field.tree * s.speed_extend) % 2 ^ 32 in
    let t = (extend max p s.field.tree).1 in
    let a = extend-Alike max p s.field.tree in
    elim (Bool-cases (extend max p s.field.tree).0) [
      | inl wanted ↦ split_node-SameCover s p t rest d a w leaf (rw wanted at e)
      | inr no_need ↦
          let tree : d.state.field.tree ≡ t = ground arith in
          SameCover-tree s.field d.state.field t tree (Alike-IsWellFormed s.field.tree t a w)
            (λ α. Alike-covered α s.field.tree t a)
            (let small = leaves-Restricts s.field.tree t (Alike-Restricts s.field.tree t a) in
              omega arith)
    ]

told_to_stay :
    (s : Pharus) (d : Done)
    → ok (record { state = s; replies = subproblem_exist ∷ []; sends = [] }) ≡ ok d
    → s.field ≡ d.state.field
told_to_stay s d e = ground arith

indeterminate_lost-field :
    (s : Pharus) (p : Position) (d : Done) → indeterminate_lost s p ≡ ok d → s.field ≡ d.state.field
unfolding indeterminate_lost
indeterminate_lost-field s p d e = ground arith

indeterminate_at-SameCover :
    (s : Pharus) (o : Option Position) (rest : List ℕ) (d : Done)
    → IsWellFormed s.field.tree
    → indeterminate_at s o rest ≡ ok d
    → SameCover s.field d.state.field
unfolding indeterminate_at
indeterminate_at-SameCover s none rest d w e =
    let same : s.field ≡ d.state.field = ground arith in
    subst (SameCover s.field) same (SameCover-refl s.field w)
indeterminate_at-SameCover s (some p) rest d w e =
    elim (Bool-cases (is_null (get s.field.tree p))) [
      | inl gone ↦
          let same = indeterminate_lost-field s p d (rw gone at e) in
          subst (SameCover s.field) same (SameCover-refl s.field w)
      | inr there ↦ elim (Bool-cases (is_end (get s.field.tree p))) [
        | inl leaf ↦ extension-SameCover s p rest d w leaf (rw (there, leaf) at e)
        | inr inner ↦
            let same = told_to_stay s d (rw (there, inner) at e) in
            subst (SameCover s.field) same (SameCover-refl s.field w)
      ]
    ]

-- A report of an undecided subproblem that is handled to the end, whether the manager splits it or
-- not, or the node was cut off with the root and is no leaf (on a leaf that was cut off with the root the
-- handling counts as astray), keeps the tree well-formed, covers exactly the assignments that it did, and opens at most one
-- more subproblem.
pub subproblem_indeterminate-SameCover :
    (s : Pharus) (c : ℕ) (msgs : List ℕ) (d : Done)
    → IsWellFormed s.field.tree
    → subproblem_indeterminate s c msgs ≡ ok d
    → SameCover s.field d.state.field
unfolding subproblem_indeterminate
subproblem_indeterminate-SameCover s c [] d w e = cc
subproblem_indeterminate-SameCover s c (h ∷ []) d w e = cc
subproblem_indeterminate-SameCover s c (h ∷ promoted ∷ rest) d w e =
    indeterminate_at-SameCover
      (record s {
        nb_total_promoted_clauses = (s.nb_total_promoted_clauses + promoted) % 2 ^ 32;
        nb_total_get_promoted_clauses = plus_one s.nb_total_get_promoted_clauses;
      })
      (s.field.nodes c h) rest d w e
