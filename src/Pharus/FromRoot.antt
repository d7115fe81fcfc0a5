-- ===== src/Pharus/FromRoot.antt =====
-- AmpharosManager::pharusTransmissionFromRoot: a worker asks for a subproblem.
use dsyrup.Base.{
  ℕ, ◌≡◌, subst, ◌∙◌, ◌||◌, Option, none, some, List, [], ◌∷◌, arith, if◌then◌else◌, ◌==◌,
  Bool-cases, inl, inr,
}
use dsyrup.Tree.{Position, is_unsat, get, is_null}
use dsyrup.Pharus.Rootless.{leave_lost-field}
use dsyrup.Tree.History.{IsWellFormed}
use dsyrup.Tree.Restrict.{Restricts-trans, Alike-Restricts}
use dsyrup.Tree.Alike.{
  Alike-refl, Alike, Alike-covered, Alike-IsWellFormed, del_worker-Alike, add_worker-Alike,
}
use dsyrup.Pharus.Field.{uls_unsat, ok, >>=-eq-ok, Field, Pharus, set_field, remove_and_delete}
use dsyrup.Pharus.Transmission.{transmission}
use dsyrup.Pharus.Handlers.{
  Done, leave_node, take_subproblem, transmit, refuse, transmission_from_root, check_unsat,
  tree_unsat,
}
use dsyrup.Pharus.Deleted.{
  branching-IsNode, outside-Restricts, root_deleted-Spares, Spares, Spares-refl,
}
use dsyrup.Pharus.Keeps.{declared, transmission-Spares}

-- What the worker declares refuted in a transmission, by its answer on the root and what follows.
abbrev pub declared_from_root : List ℕ → List Position
declared_from_root [] = []
declared_from_root (h ∷ []) = []
declared_from_root (h ∷ answer ∷ rest) = if answer == uls_unsat then [] ∷ [] else declared [] rest

leave_node-Alike :
    (f f' : Field) (c h : ℕ) (o : Option Position)
    → leave_node f c h o ≡ ok f'
    → Alike f.tree f'.tree
unfolding leave_node
leave_node-Alike f f' c h none e = ground (arith, Alike-refl f.tree)
leave_node-Alike f f' c h (some p) e = elim (Bool-cases (is_null (get f.tree p))) [
  | inl gone ↦
      let same = leave_lost-field f f' c h p (rw gone at e) in
      subst (λ g. Alike f.tree g.tree) same (Alike-refl f.tree)
  | inr there ↦ ground (arith, del_worker-Alike (c, h) p f.tree)
]

pub check_unsat-field : (s : Pharus) → (check_unsat s).0.field ≡ s.field
unfolding check_unsat tree_unsat
check_unsat-field s = ground arith

pub refuse-field :
    (s : Pharus) (f : Field) (msgs : List ℕ) (d : Done) → refuse s f msgs ≡ ok d → f ≡ d.state.field
unfolding refuse
refuse-field s f [] d e = cc
refuse-field s f (answer ∷ rest) d e = ground (arith, check_unsat-field (set_field s f))

take_subproblem-Alike :
    (f : Field) (c h : ℕ) (o : Option Position) → Alike f.tree (take_subproblem f c h o).tree
unfolding take_subproblem
take_subproblem-Alike f c h none = Alike-refl f.tree
take_subproblem-Alike f c h (some p) = add_worker-Alike (c, h) p f.tree

Spares-Alike :
    (f g g' : Field) (qs : List Position) → Spares qs f g → Alike g.tree g'.tree → Spares qs f g'
Spares-Alike f g g' qs k a = record {
  wellformed = Alike-IsWellFormed g.tree g'.tree a k.wellformed;
  restricts = Restricts-trans f.tree g.tree g'.tree k.restricts (Alike-Restricts g.tree g'.tree a);
  spared = λ α c out. Alike-covered α g.tree g'.tree a ∙ k.spared α c out;
}

Alike-Spares :
    (f g g' : Field) (qs : List Position) → Alike f.tree g.tree → Spares qs g g' → Spares qs f g'
Alike-Spares f g g' qs a k =
    let r = Alike-Restricts f.tree g.tree a in
    record {
      wellformed = k.wellformed;
      restricts = Restricts-trans f.tree g.tree g'.tree r k.restricts;
      spared = λ α c out.
          k.spared α (Alike-covered α f.tree g.tree a ∙ c)
            (outside-Restricts α qs f.tree g.tree r out);
    }

transmit-Spares :
    (s : Pharus) (f : Field) (c h : ℕ) (msgs : List ℕ) (d : Done)
    → IsWellFormed f.tree
    → transmit s f c h msgs ≡ ok d
    → Spares (declared_from_root (h ∷ msgs)) f d.state.field
unfolding transmit
transmit-Spares s f c h [] d w e = cc
transmit-Spares s f c h (answer ∷ rest) d w e = elim (Bool-cases (answer == uls_unsat)) [
  | inl unsat ↦
      let (g, one, last) = >>=-eq-ok (remove_and_delete f []) _ (rw unsat at e) in
      let same : g ≡ d.state.field = ground (arith, check_unsat-field (set_field s g)) in
      rw unsat (subst (Spares ([] ∷ []) f) same (root_deleted-Spares f g w one))
  | inr on ↦
      let (t, one, last) = >>=-eq-ok (transmission f [] rest) _ (rw on at e) in
      let same : take_subproblem t.field c h t.subproblem ≡ d.state.field = ground arith in
      rw on (
        subst (Spares (declared [] rest) f) same (
          Spares-Alike f t.field (take_subproblem t.field c h t.subproblem) (declared [] rest)
            (transmission-Spares f [] rest t w one)
            (take_subproblem-Alike t.field c h t.subproblem)))
]

-- A request for a subproblem, whatever the worker sends, keeps the tree well-formed if the handler runs
-- to its end, and covers still each assignment that it did cover and that goes through no node which
-- the worker declared refuted on its way down. The end is reached also if the worker's entry is a node
-- that was cut off with the root and that the worker has left already; a handler that then goes down
-- among such nodes has no end here.
pub transmission_from_root-Spares :
    (s : Pharus) (c : ℕ) (msgs : List ℕ) (d : Done)
    → IsWellFormed s.field.tree
    → transmission_from_root s c msgs ≡ ok d
    → Spares (declared_from_root msgs) s.field d.state.field
unfolding transmission_from_root
transmission_from_root-Spares s c [] d w e = cc
transmission_from_root-Spares s c (h ∷ msgs) d w e =
    let (f, one, last) = >>=-eq-ok (leave_node s.field c h (s.field.nodes c h)) _ e in
    let a = leave_node-Alike s.field f c h (s.field.nodes c h) one in
    let w' = Alike-IsWellFormed s.field.tree f.tree a w in
    let there = branching-IsNode f.tree w'.branching in
    Alike-Spares s.field f d.state.field (declared_from_root (h ∷ msgs)) a
      (elim (Bool-cases (s.manager.solution_ok || is_unsat f.tree)) [
        | inl over ↦
            subst (Spares _ f) (refuse-field s f msgs d (rw (there, over) at last))
              (Spares-refl f _ w')
        | inr on ↦ transmit-Spares s f c h msgs d w' (rw (there, on) at last)
      ])
