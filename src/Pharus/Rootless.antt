-- ===== src/Pharus/Rootless.antt =====
-- AmpharosManager.cc before pharusInitialization has created the root: no handler makes a node.
use dsyrup.Base.{ℕ, ◌≡◌, refl, sym, true, Option, none, some, List, [], ◌∷◌, arith}
use dsyrup.Tree.{Tree, null, node, Dir, Position, get, is_null}
use dsyrup.Pharus.Field.{ok, stale, beyond-not_ok, >>=-eq-ok, Field, Pharus}
use dsyrup.Pharus.Handlers.{
  Done, leave_lost, leave_node, transmission_from_root, indeterminate_lost, indeterminate_at,
  subproblem_indeterminate, unsat_at, subproblem_unsat,
}

is_null-get : (t : Tree) (p : Position) → t ≡ null → is_null (get t p) ≡ true
is_null-get t [] e = rw e refl
is_null-get t (d ∷ p) e = above (get t p) d (is_null-get t p e)
  where
    above : (u : Tree) (d : Dir) → is_null u ≡ true → is_null (get u (d ∷ [])) ≡ true
    above null d n = refl
    above (node i l r) d n = cc

pub leave_lost-field : (f f' : Field) (c h : ℕ) (p : Position) → leave_lost f c h p ≡ ok f' → f ≡ f'
unfolding leave_lost
leave_lost-field f f' c h p e = ground arith

leave_node-null :
    (f f' : Field) (c h : ℕ) (o : Option Position)
    → f.tree ≡ null
    → leave_node f c h o ≡ ok f'
    → f'.tree ≡ null
unfolding leave_node
leave_node-null f f' c h none n e = ground arith
leave_node-null f f' c h (some p) n e =
    let same = leave_lost-field f f' c h p (rw (is_null-get f.tree p n) at e) in rw (sym same) n

pub transmission_from_root-null :
    (s : Pharus) (c : ℕ) (msgs : List ℕ) (d : Done)
    → s.field.tree ≡ null
    → ¬ (transmission_from_root s c msgs ≡ ok d)
unfolding transmission_from_root
transmission_from_root-null s c [] d n e = cc
transmission_from_root-null s c (h ∷ msgs) d n e =
    let (f, one, last) = >>=-eq-ok (leave_node s.field c h (s.field.nodes c h)) _ e in
    let gone = is_null-get f.tree [] (leave_node-null s.field f c h (s.field.nodes c h) n one) in
    let bad : stale ≡ ok d = rw gone at last in cc

unsat_at-null :
    (s : Pharus) (literal : ℕ) (o : Option Position) (d : Done)
    → s.field.tree ≡ null
    → unsat_at s literal o ≡ ok d
    → d.state.field.tree ≡ null
unfolding unsat_at
unsat_at-null s literal none d n e = ground arith
unsat_at-null s literal (some p) d n e =
    absurd (beyond-not_ok s.field p d (rw (is_null-get s.field.tree p n) at e))

pub subproblem_unsat-null :
    (s : Pharus) (c : ℕ) (msgs : List ℕ) (d : Done)
    → s.field.tree ≡ null
    → subproblem_unsat s c msgs ≡ ok d
    → d.state.field.tree ≡ null
unfolding subproblem_unsat
subproblem_unsat-null s c [] d n e = cc
subproblem_unsat-null s c (h ∷ []) d n e = cc
subproblem_unsat-null s c (h ∷ literal ∷ rest) d n e =
    unsat_at-null s literal (s.field.nodes c h) d n e

indeterminate_lost-null :
    (s : Pharus) (p : Position) (d : Done)
    → s.field.tree ≡ null
    → indeterminate_lost s p ≡ ok d
    → d.state.field.tree ≡ null
unfolding indeterminate_lost
indeterminate_lost-null s p d n e = ground arith

indeterminate_at-null :
    (s : Pharus) (o : Option Position) (rest : List ℕ) (d : Done)
    → s.field.tree ≡ null
    → indeterminate_at s o rest ≡ ok d
    → d.state.field.tree ≡ null
unfolding indeterminate_at
indeterminate_at-null s none rest d n e = ground arith
indeterminate_at-null s (some p) rest d n e =
    indeterminate_lost-null s p d n (rw (is_null-get s.field.tree p n) at e)

pub subproblem_indeterminate-null :
    (s : Pharus) (c : ℕ) (msgs : List ℕ) (d : Done)
    → s.field.tree ≡ null
    → subproblem_indeterminate s c msgs ≡ ok d
    → d.state.field.tree ≡ null
unfolding subproblem_indeterminate
subproblem_indeterminate-null s c [] d n e = cc
subproblem_indeterminate-null s c (h ∷ []) d n e = cc
subproblem_indeterminate-null s c (h ∷ promoted ∷ rest) d n e =
    indeterminate_at-null _ (s.field.nodes c h) rest d n e
