-- ===== src/Pharus/Refute.antt =====
-- AmpharosManager::pharusSubproblemUNSAT: what a report of UNSAT does to the tree.
use dsyrup.Base.{ℕ, ◌≡◌, subst, Option, none, some, List, [], ◌∷◌, arith, Bool-cases, inl, inr}
use dsyrup.Tree.{Tree, Position, get, is_null}
use dsyrup.Tree.History.{IsWellFormed}
use dsyrup.Pharus.Field.{beyond-not_ok, ok, >>=-eq-ok, Pharus, prune_and_delete}
use dsyrup.Pharus.Handlers.{Done, refuted_child, unsat_at, subproblem_unsat}
use dsyrup.Pharus.Deleted.{Spares, Spares-refl, prune_and_delete-Spares}

-- The positions that the report `h, literal` of computer `c` declares refuted.
abbrev pub refuted_by : Tree → ℕ → Option Position → List Position
refuted_by t literal none = []
refuted_by t literal (some p) = refuted_child t literal p ∷ []

unsat_at-Spares :
    (s : Pharus) (literal : ℕ) (o : Option Position) (d : Done)
    → IsWellFormed s.field.tree
    → unsat_at s literal o ≡ ok d
    → Spares (refuted_by s.field.tree literal o) s.field d.state.field
unfolding unsat_at
unsat_at-Spares s literal none d w e =
    let same : s.field ≡ d.state.field = ground arith in
    subst (Spares [] s.field) same (Spares-refl s.field [] w)
unsat_at-Spares s literal (some p) d w e = elim (Bool-cases (is_null (get s.field.tree p))) [
  | inl gone ↦ absurd (beyond-not_ok s.field p d (rw gone at e))
  | inr there ↦
      let cut = prune_and_delete s.field (refuted_child s.field.tree literal p) in
      let (f, one, rest) = >>=-eq-ok cut _ (rw there at e) in
      let same : f ≡ d.state.field = ground arith in
      subst (Spares _ s.field) same (prune_and_delete-Spares s.field f _ w one)
]

-- A report of UNSAT that is handled to the end, which one on a node that was cut off with the root is not
-- (it counts as astray), keeps the tree well-formed, and every assignment that
-- was covered is so still, unless it goes through the child that the asserted literal refutes: the
-- child, on the side of the literal's sign, of the nearest node from the worker's up that branches on
-- the literal's variable (of the root, if there is none).
pub subproblem_unsat-Spares :
    (s : Pharus) (c h literal : ℕ) (rest : List ℕ) (d : Done)
    → IsWellFormed s.field.tree
    → subproblem_unsat s c (h ∷ literal ∷ rest) ≡ ok d
    → Spares (refuted_by s.field.tree literal (s.field.nodes c h)) s.field d.state.field
unfolding subproblem_unsat
subproblem_unsat-Spares s c h literal rest d w e =
    unsat_at-Spares s literal (s.field.nodes c h) d w e
