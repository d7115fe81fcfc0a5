-- ===== src/Pharus/Inherited.antt =====
-- What the handlers of AmpharosManager.cc do to the fields of the base class Manager.
use dsyrup.Base.{
  ℕ, ◌≡◌, ◌⊎◌, inl, inr, true, ◌||◌, Option, none, some, List, [], ◌∷◌, arith, Bool-cases, ◌==◌,
}
use dsyrup.Tree.{Position, is_unsat, is_null, get}
use dsyrup.Pharus.Field.{
  uls_unsat, ok, stale, beyond-not_ok, >>=-eq-ok, Field, Pharus, set_field, remove_and_delete,
  prune_and_delete, is_end,
}
use dsyrup.Pharus.Transmission.{transmission}
use dsyrup.Pharus.Handlers.{
  Done, tree_unsat, check_unsat, leave_node, transmit, refuse, transmission_from_root, split_node,
  extension, indeterminate_lost, indeterminate_at, subproblem_indeterminate, refuted_child,
  unsat_at, subproblem_unsat,
}

-- The manager is as before, or the tree has no open subproblem left.
abbrev pub KeepsManager : Pharus → Pharus → Type 0
KeepsManager s s' = (s'.manager ≡ s.manager) ⊎ (is_unsat s'.field.tree ≡ true)

check_unsat-KeepsManager : (s : Pharus) → KeepsManager s (check_unsat s).0
unfolding check_unsat tree_unsat
check_unsat-KeepsManager s = elim (Bool-cases (is_unsat s.field.tree)) [
  | inl none_left ↦ inr (ground arith)
  | inr open_yet ↦ inl (ground arith)
]

transmit-KeepsManager :
    (s : Pharus) (f : Field) (c h : ℕ) (msgs : List ℕ) (d : Done)
    → transmit s f c h msgs ≡ ok d
    → KeepsManager s d.state
unfolding transmit
transmit-KeepsManager s f c h [] d e = cc
transmit-KeepsManager s f c h (answer ∷ rest) d e = elim (Bool-cases (answer == uls_unsat)) [
  | inl unsat ↦
      let (g, one, last) = >>=-eq-ok (remove_and_delete f []) _ (rw unsat at e) in
      ground (arith, check_unsat-KeepsManager (set_field s g))
  | inr on ↦
      let (t, one, last) = >>=-eq-ok (transmission f [] rest) _ (rw on at e) in inl (ground arith)
]

refuse-KeepsManager :
    (s : Pharus) (f : Field) (msgs : List ℕ) (d : Done)
    → refuse s f msgs ≡ ok d
    → KeepsManager s d.state
unfolding refuse
refuse-KeepsManager s f [] d e = cc
refuse-KeepsManager s f (answer ∷ rest) d e =
    ground (arith, check_unsat-KeepsManager (set_field s f))

pub transmission_from_root-KeepsManager :
    (s : Pharus) (c : ℕ) (msgs : List ℕ) (d : Done)
    → transmission_from_root s c msgs ≡ ok d
    → KeepsManager s d.state
unfolding transmission_from_root
transmission_from_root-KeepsManager s c [] d e = cc
transmission_from_root-KeepsManager s c (h ∷ msgs) d e =
    let (f, one, last) = >>=-eq-ok (leave_node s.field c h (s.field.nodes c h)) _ e in
    elim (Bool-cases (is_null f.tree)) [
      | inl gone ↦ let bad : stale ≡ ok d = rw gone at last in cc
      | inr there ↦ elim (Bool-cases (s.manager.solution_ok || is_unsat f.tree)) [
        | inl over ↦ refuse-KeepsManager s f msgs d (rw (there, over) at last)
        | inr on ↦ transmit-KeepsManager s f c h msgs d (rw (there, on) at last)
      ]
    ]

unsat_at-manager :
    (s : Pharus) (literal : ℕ) (o : Option Position) (d : Done)
    → unsat_at s literal o ≡ ok d
    → d.state.manager ≡ s.manager
unfolding unsat_at
unsat_at-manager s literal none d e = ground arith
unsat_at-manager s literal (some p) d e = elim (Bool-cases (is_null (get s.field.tree p))) [
  | inl gone ↦ absurd (beyond-not_ok s.field p d (rw gone at e))
  | inr there ↦
      let cut = prune_and_delete s.field (refuted_child s.field.tree literal p) in
      let (f, one, rest) = >>=-eq-ok cut _ (rw there at e) in ground arith
]

pub subproblem_unsat-manager :
    (s : Pharus) (c : ℕ) (msgs : List ℕ) (d : Done)
    → subproblem_unsat s c msgs ≡ ok d
    → d.state.manager ≡ s.manager
unfolding subproblem_unsat
subproblem_unsat-manager s c [] d e = cc
subproblem_unsat-manager s c (h ∷ []) d e = cc
subproblem_unsat-manager s c (h ∷ literal ∷ rest) d e =
    unsat_at-manager s literal (s.field.nodes c h) d e

extension-manager :
    (s : Pharus) (p : Position) (rest : List ℕ) (d : Done)
    → extension s p rest ≡ ok d
    → d.state.manager ≡ s.manager
unfolding extension split_node
extension-manager s p [] d e = ground arith
extension-manager s p (v ∷ rest) d e = ground arith

indeterminate_lost-manager :
    (s : Pharus) (p : Position) (d : Done)
    → indeterminate_lost s p ≡ ok d
    → d.state.manager ≡ s.manager
unfolding indeterminate_lost
indeterminate_lost-manager s p d e = ground arith

indeterminate_at-manager :
    (s : Pharus) (o : Option Position) (rest : List ℕ) (d : Done)
    → indeterminate_at s o rest ≡ ok d
    → d.state.manager ≡ s.manager
unfolding indeterminate_at
indeterminate_at-manager s none rest d e = ground arith
indeterminate_at-manager s (some p) rest d e = elim (Bool-cases (is_null (get s.field.tree p))) [
  | inl gone ↦ indeterminate_lost-manager s p d (rw gone at e)
  | inr there ↦ elim (Bool-cases (is_end (get s.field.tree p))) [
    | inl leaf ↦ extension-manager s p rest d (rw (there, leaf) at e)
    | inr inner ↦ ground arith
  ]
]

pub subproblem_indeterminate-manager :
    (s : Pharus) (c : ℕ) (msgs : List ℕ) (d : Done)
    → subproblem_indeterminate s c msgs ≡ ok d
    → d.state.manager ≡ s.manager
unfolding subproblem_indeterminate
subproblem_indeterminate-manager s c [] d e = cc
subproblem_indeterminate-manager s c (h ∷ []) d e = cc
subproblem_indeterminate-manager s c (h ∷ promoted ∷ rest) d e =
    indeterminate_at-manager _ (s.field.nodes c h) rest d e
