-- ===== src/Preprocess/Eliminate.antt =====
-- SimpSolver.cc: asymm, asymmVar, eliminateVar and substitute.
use dsyrup.Base.{
  ℕ, zero, suc, ◌+◌, Bool, true, false, not, ◌&&◌, ◌||◌, Option, none, some, List, [], ◌∷◌, map,
  if◌then◌else◌, ◌==◌, length, get_elem?, ◌>>=◌,
}
use dsyrup.Literal.{var, negate}
use dsyrup.Clause.{put}
use dsyrup.Trail.{
  is_false, is_undef, Trail, value, unchecked_enqueue, new_decision_level, Heap, set_decision_var,
}
use dsyrup.Propagate.{Watcher, Store, propagate}
use dsyrup.Attach.{is_satisfied}
use dsyrup.Simp.{store_eliminated, resolvents, substitute_in}
use dsyrup.Preprocess.{
  SimpSolver, add_and_note, after_propagation, cancel_all, clause_at, count_resolvents, if_true,
  is_removed, lookup_occurs, remove_noted, split, strengthen_clause,
}
use dsyrup.Preprocess.Backward.{backward_subsumption_check}

module _ {H : Type 0} (heap : Heap H) (sort : List ℕ → List ℕ) (remove : List ℕ → ℕ → List ℕ)
    (remove_watch : List Watcher → Watcher → List Watcher) (new_cref : Store → ℕ) (fuel : ℕ) where
  -- The loop of `asymm`: the literals of other variables that are not false made false, and the last
  -- of the others.
  unfoldable pub assume_others : ℕ → List ℕ → Option ℕ × Trail → Option ℕ × Trail
  assume_others v [] (l, t) = (l, t)
  assume_others v (p ∷ ps) (l, t) = assume_others v ps (
      if not (var p == v) && not (is_false (value t p))
      then (l, unchecked_enqueue (negate p) none t)
      else (some p, t))

  unfoldable pub asymm : ℕ → ℕ → SimpSolver H → Option (Bool × SimpSolver H)
  unfolding assume_others strengthen_clause
  asymm v cr s =
      let c = clause_at s cr in
      let (l, t) = assume_others v c (none, new_decision_level s.solver.trail) in
      let rest = propagate fuel (s.solver.store, t) >>= after_propagation s >>= λ (no_confl, s').
      (if no_confl
        then some (true, (cancel_all heap sort remove remove_watch new_cref fuel) s')
        else l >>= λ p.
            (strengthen_clause heap sort remove remove_watch new_cref fuel) cr p
              ((cancel_all heap sort remove remove_watch new_cref fuel) s')) in
      if is_removed s cr || is_satisfied c s.solver.trail then some (true, s) else rest

  -- The loop over the list of occurrences, which `asymm` can shorten.
  unfoldable pub asymm_each : ℕ → ℕ → ℕ → SimpSolver H → Option (Bool × SimpSolver H)
  unfolding asymm
  asymm_each zero v j s = none
  asymm_each (suc n) v j s = elim (get_elem? (s.occurs.occs v) j) [
    | none ↦ some (true, s)
    | some cr ↦ asymm v cr s >>= if_true (asymm_each n v (suc j))
  ]

  unfoldable pub asymm_var : ℕ → SimpSolver H → Option (Bool × SimpSolver H)
  unfolding asymm_each backward_subsumption_check
  asymm_var v s =
      let (cs, s') = lookup_occurs v s in
      if not (is_undef (s.solver.trail.assigns v)) || (length cs == 0)
      then some (true, s')
      else asymm_each fuel v 0 s'
        >>= if_true ((backward_subsumption_check heap sort remove remove_watch new_cref fuel) fuel)

  unfoldable pub add_all : List (List ℕ) → SimpSolver H → Option (Bool × SimpSolver H)
  unfolding add_and_note
  add_all [] s = some (true, s)
  add_all (c ∷ cs) s =
      (add_and_note heap sort remove remove_watch new_cref fuel) c s >>= if_true (add_all cs)

  unfoldable pub remove_all : List ℕ → SimpSolver H → SimpSolver H
  unfolding remove_noted
  remove_all [] s = s
  remove_all (cr ∷ cs) s =
      remove_all cs ((remove_noted heap sort remove remove_watch new_cref fuel) cr s)

  -- `occurs[v].clear`, after the clauses of the variable are removed. The `clear(true)` of its watchers,
  -- where these are empty, only frees memory.
  abbrev pub clear_occurs : ℕ → SimpSolver H → SimpSolver H
  clear_occurs v s = record s { occurs = record s.occurs { occs = put v [] s.occurs.occs } }

  abbrev pub mark_eliminated : ℕ → SimpSolver H → SimpSolver H
  mark_eliminated v s = record s {
    eliminated = put v true s.eliminated;
    order = set_decision_var heap v false s.order;
  }

  -- What `eliminateVar` does when the limits allow it. The clauses are those from before the loop,
  -- whose propagations only reorder their literals.
  abbrev pub eliminate_within :
      ℕ → List ℕ → List (List ℕ) → List (List ℕ) → SimpSolver H → Option (Bool × SimpSolver H)
  eliminate_within v cls pos neg s =
      add_all (resolvents v pos neg) (record (mark_eliminated v s) {
        eliminated_vars = suc s.eliminated_vars;
        elimclauses = store_eliminated v pos neg s.elimclauses;
      })
      >>= if_true (λ s'.
        (backward_subsumption_check heap sort remove remove_watch new_cref fuel) fuel
          (clear_occurs v (remove_all cls s')))

  unfoldable pub eliminate_var : ℕ → SimpSolver H → Option (Bool × SimpSolver H)
  unfolding split count_resolvents add_all remove_all
  eliminate_var v s =
      let (cls, s') = lookup_occurs v s in
      let (pos, neg) = split v (map (clause_at s') cls) in
      elim (count_resolvents s.clause_lim (length cls + s.grow) v pos neg 0) [
        | none ↦ some (true, s')
        | some cnt ↦ eliminate_within v cls pos neg s'
      ]

  unfoldable pub substitute_each : ℕ → ℕ → List ℕ → SimpSolver H → Option (Bool × SimpSolver H)
  unfolding add_and_note remove_noted
  substitute_each v x [] s = some (true, s)
  substitute_each v x (cr ∷ cs) s =
      (add_and_note heap sort remove remove_watch new_cref fuel)
        (substitute_in v x (clause_at s cr)) s
      >>= λ (fine, s').
          if fine
          then substitute_each v x cs
              ((remove_noted heap sort remove remove_watch new_cref fuel) cr s')
          else some (false, record s' { solver = record s'.solver { is_ok = false } })

  unfoldable pub substitute : ℕ → ℕ → SimpSolver H → Option (Bool × SimpSolver H)
  unfolding substitute_each
  substitute v x s =
      let (cs, s') = lookup_occurs v s in
      if s.solver.is_ok then substitute_each v x cs (mark_eliminated v s') else some (false, s)
