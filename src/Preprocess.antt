-- ===== src/Preprocess.antt =====
-- Solvers/SAT/GlucoseSyrup/syrup/simp/SimpSolver.cc: the preprocessor's state and operations. The mark
-- of a clause is whether it is removed; mark 2, which `gatherTouchedClauses` sets and resets, is
-- an argument there. The word `abstraction()` of a clause is computed from its literals, as the
-- code keeps it. A vector indexed by variables or literals is a function, a queue is a list with
-- the next element first. `sort` and `remove` of mtl, the CRef that the allocator returns and the
-- heap of the decisions are parameters; `elim_heap`, which only orders the eliminations, the
-- certificate, the interruption by the user and the printing are left out. A failed assertion, or
-- fuel that is used up, is `none`.
pub mod Limits
pub mod Backward
pub mod Eliminate
mod Tests
use dsyrup.Base.{
  ℕ, zero, suc, ◌+◌, ◌-◌, Bool, true, false, not, ◌&&◌, ◌||◌, Option, none, some, List, [], ◌∷◌,
  ◌++◌, map, if◌then◌else◌, ◌==◌, ltb, leb, length, get_elem?, ◌>>=◌,
}
use dsyrup.Literal.{var, negate, mk_lit}
use dsyrup.Clause.{
  Clause, OccLists, put, smudge, lookup, mask, Subsumption, unrelated, subsuming, resolving,
  subsumes,
}
use dsyrup.Clause.Meaning.{elem}
use dsyrup.Trail.{
  is_true, is_false, is_undef, Trail, value, unchecked_enqueue, enqueue, new_decision_level,
  at_index, Heap, Order, set_decision_var, cancel_until,
}
use dsyrup.Propagate.{Watcher, Store, set_clause, propagate}
use dsyrup.Attach.{
  Solver, no_conflict, is_satisfied, remove_clause, detach_clause, attach_clause, add_clause,
}
use dsyrup.Simp.{merge, merge_size, store_eliminated, resolvents, substitute_in}

-- The options -1 of `clause_lim` and `subsumption_lim` are `none`.
pub record SimpSolver (H : Type 0) : Type 0 where
  pub solver : Solver
  pub order : Order H
  pub occurs : OccLists ℕ
  pub n_occ : ℕ → ℕ
  pub touched : ℕ → Bool
  pub n_touched : ℕ
  pub eliminated : ℕ → Bool
  pub eliminated_vars : ℕ
  pub elimclauses : List ℕ
  pub subsumption_queue : List ℕ
  pub bwdsub_assigns : ℕ
  pub bwdsub_tmpunit : ℕ
  pub n_vars : ℕ
  pub grow : ℕ
  pub clause_lim : Option ℕ
  pub subsumption_lim : Option ℕ
  pub use_simplification : Bool
  pub use_rcheck : Bool

-- The clause at a reference, and whether it is removed.
abbrev pub clause_at : {H : Type 0} → SimpSolver H → ℕ → List ℕ
clause_at s cr = s.solver.store.ca cr

abbrev pub is_removed : {H : Type 0} → SimpSolver H → ℕ → Bool
is_removed s cr = s.solver.store.marked cr

abbrev pub with_abstraction : List ℕ → Clause
with_abstraction ls = record { lits = ls; abstraction = mask ls }

-- `occurs.lookup`
abbrev pub lookup_occurs : {H : Type 0} → ℕ → SimpSolver H → List ℕ × SimpSolver H
lookup_occurs v s = let (cs, o) = lookup (is_removed s) v s.occurs in (cs, record s { occurs = o })

-- What is done on each literal of a new clause, and of a removed one.
unfoldable pub note_new : {H : Type 0} → ℕ → List ℕ → SimpSolver H → SimpSolver H
note_new cr [] s = s
note_new cr (l ∷ ls) s = note_new cr ls (record s {
  occurs = record s.occurs { occs = put (var l) (s.occurs.occs (var l) ++ cr ∷ []) s.occurs.occs };
  n_occ = put l (suc (s.n_occ l)) s.n_occ;
  touched = put (var l) true s.touched;
  n_touched = suc s.n_touched;
})

unfoldable pub note_removed : {H : Type 0} → List ℕ → SimpSolver H → SimpSolver H
note_removed [] s = s
note_removed (l ∷ ls) s =
    note_removed ls
      (record s { n_occ = put l (s.n_occ l - 1) s.n_occ; occurs = smudge (var l) s.occurs })

-- The state of the solver below after a propagation, and whether there was no conflict.
abbrev pub after_propagation :
    {H : Type 0} → SimpSolver H → Option ℕ × Store × Trail → Option (Bool × SimpSolver H)
after_propagation s (confl, b, t) =
    some (no_conflict confl, record s { solver = record s.solver { store = b; trail = t } })

abbrev pub with_trail : {H : Type 0} → SimpSolver H → Trail → SimpSolver H
with_trail s t = record s { solver = record s.solver { trail = t } }

-- The literals of a clause that `gatherTouchedClauses` has put in the queue: mark 2.
unfoldable pub gather_from :
    {H : Type 0} → SimpSolver H → List ℕ → List ℕ × (ℕ → Bool) → List ℕ × (ℕ → Bool)
gather_from s [] q = q
gather_from s (cr ∷ cs) (queue, queued) = gather_from s cs (
    if is_removed s cr || queued cr
    then (queue, queued)
    else (queue ++ cr ∷ [], put cr true queued))

unfoldable pub mark_queued : {H : Type 0} → SimpSolver H → List ℕ → (ℕ → Bool) → ℕ → Bool
mark_queued s [] queued = queued
mark_queued s (cr ∷ cs) queued =
    mark_queued s cs (if is_removed s cr then queued else put cr true queued)

-- The loop over the touched variables, `k` of them being left from `v` on.
unfoldable pub gather_touched : {H : Type 0} → ℕ → ℕ → SimpSolver H → (ℕ → Bool) → SimpSolver H
unfolding gather_from
gather_touched zero v s queued = s
gather_touched (suc k) v s queued =
    let (cs, s') = lookup_occurs v s in
    let (queue, queued') = gather_from s' cs (s'.subsumption_queue, queued) in
    let gathered = record s' { subsumption_queue = queue; touched = put v false s'.touched } in
    gather_touched k (suc v) (if s.touched v then gathered else s)
      (if s.touched v then queued' else queued)

unfoldable pub gather_touched_clauses : {H : Type 0} → SimpSolver H → SimpSolver H
unfolding gather_touched mark_queued
gather_touched_clauses s =
    let gathered = gather_touched s.n_vars 0 s (mark_queued s s.subsumption_queue (λ cr. false)) in
    if s.n_touched == 0 then s else record gathered { n_touched = 0 }

-- The variable of a clause with the shortest list of occurrences.
abbrev pub best_of : {H : Type 0} → SimpSolver H → ℕ → List ℕ → ℕ
best_of s best [] = best
best_of s best (l ∷ ls) =
    best_of s
      (if ltb (length (s.occurs.occs (var l))) (length (s.occurs.occs best)) then var l else best)
      ls

abbrev pub first_var : List ℕ → ℕ
first_var [] = 0
first_var (l ∷ ls) = var l

-- Whether a number is below a limit, or not above it, where there is one.
abbrev pub is_below : Option ℕ → ℕ → Bool
is_below none n = true
is_below (some lim) n = ltb n lim

abbrev pub exceeds : Option ℕ → ℕ → Bool
exceeds none n = false
exceeds (some lim) n = ltb lim n

-- The count of the resolvents of one positive clause; `none` if a limit is exceeded.
unfoldable pub count_with : Option ℕ → ℕ → ℕ → List ℕ → List (List ℕ) → ℕ → Option ℕ
count_with clause_lim most v p [] cnt = some cnt
count_with clause_lim most v p (q ∷ neg) cnt = elim (merge_size p q v) [
  | none ↦ count_with clause_lim most v p neg cnt
  | some size ↦
      let rest = count_with clause_lim most v p neg (suc cnt) in
      if ltb most (suc cnt) || exceeds clause_lim size then none else rest
]

unfoldable pub count_resolvents : Option ℕ → ℕ → ℕ → List (List ℕ) → List (List ℕ) → ℕ → Option ℕ
unfolding count_with
count_resolvents clause_lim most v [] neg cnt = some cnt
count_resolvents clause_lim most v (p ∷ pos) neg cnt =
    count_with clause_lim most v p neg cnt >>= count_resolvents clause_lim most v pos neg

-- The occurrences of a variable split by its sign.
unfoldable pub split : ℕ → List (List ℕ) → List (List ℕ) × List (List ℕ)
split v [] = ([], [])
split v (c ∷ cs) =
    let (pos, neg) = split v cs in
    if elem (mk_lit v false) c then (c ∷ pos, neg) else (pos, c ∷ neg)

-- What a candidate leads to: the index to go on with, or the end of the loop.
pub data Scan (H : Type 0) : Type 0 where
  goes : ℕ → SimpSolver H → Scan H
  ends : Bool → SimpSolver H → Scan H

abbrev pub ends_if_false : {H : Type 0} → ℕ → Bool × SimpSolver H → Option (Scan H)
ends_if_false j (true, s) = some (goes j s)
ends_if_false j (false, s) = some (ends false s)

abbrev pub scan_on :
    {H : Type 0}
    → (ℕ → SimpSolver H → Option (Bool × SimpSolver H))
    → Scan H
    → Option (Bool × SimpSolver H)
scan_on next (goes j s) = next j s
scan_on next (ends b s) = some (b, s)

abbrev pub if_true :
    {H : Type 0}
    → (SimpSolver H → Option (Bool × SimpSolver H))
    → Bool × SimpSolver H
    → Option (Bool × SimpSolver H)
if_true next (true, s) = next s
if_true next (false, s) = some (false, s)

module _ {H : Type 0} (heap : Heap H) (sort : List ℕ → List ℕ) (remove : List ℕ → ℕ → List ℕ)
    (remove_watch : List Watcher → Watcher → List Watcher) (new_cref : Store → ℕ) (fuel : ℕ) where
  abbrev pub cancel_all : SimpSolver H → SimpSolver H
  cancel_all s =
      let (t, o) = cancel_until heap 0 (s.solver.trail, s.order) in
      record s { solver = record s.solver { trail = t }; order = o }

  -- The loop of `implied`: `none` if a literal is true, and else the trail with the others false.
  unfoldable pub assume_false : List ℕ → Trail → Option Trail
  assume_false [] t = some t
  assume_false (l ∷ ls) t =
      let rest =
        assume_false ls (if is_false (value t l) then t else unchecked_enqueue (negate l) none t) in
      if is_true (value t l) then none else rest

  -- The state of `assume_false` on a true literal is dropped, as the cancellation drops it.
  unfoldable pub implied : List ℕ → SimpSolver H → Option (Bool × SimpSolver H)
  unfolding assume_false
  implied c s = elim (assume_false c (new_decision_level s.solver.trail)) [
    | none ↦ some (false, s)
    | some t ↦ propagate fuel (s.solver.store, t) >>= after_propagation s >>= λ (no_confl, s').
        some (not no_confl, cancel_all s')
  ]

  -- After `Solver::addClause_`: the clause that it added, if any.
  abbrev pub note_added :
      ℕ → ℕ → List ℕ → SimpSolver H → Bool × Solver → Option (Bool × SimpSolver H)
  note_added cr n ps s (false, solver) = some (false, record s { solver = solver })
  note_added cr n ps s (true, solver) =
      let s' = record s { solver = solver } in
      some (
        true,
        if s.use_simplification && (length solver.clauses == suc n)
            then note_new cr (solver.store.ca cr)
                (record s' { subsumption_queue = s'.subsumption_queue ++ cr ∷ [] })
            else s',
      )

  -- `SimpSolver::addClause_`
  unfoldable pub add_and_note : List ℕ → SimpSolver H → Option (Bool × SimpSolver H)
  unfolding implied note_new
  add_and_note ps s =
      let cr = new_cref s.solver.store in
      let known = if s.use_rcheck then implied ps s else some (false, s) in
      known >>= λ (is_implied, s').
      if is_implied
      then some (true, s')
      else (add_clause sort fuel cr ps s'.solver >>= note_added cr (length s'.solver.clauses) ps s')

  -- `SimpSolver::removeClause`
  unfoldable pub remove_noted : ℕ → SimpSolver H → SimpSolver H
  unfolding note_removed
  remove_noted cr s =
      let s' = if s.use_simplification then note_removed (clause_at s cr) s else s in
      let (b, t) = remove_clause remove_watch cr false (s'.solver.store, s'.solver.trail) in
      record s' { solver = record s'.solver { store = b; trail = t } }

  abbrev pub set_literals : ℕ → List ℕ → SimpSolver H → SimpSolver H
  set_literals cr ls s = record s {
    solver = record s.solver { store = set_clause cr ls s.solver.store };
  }

  -- A clause of two literals is removed, a longer one is attached again.
  abbrev pub shorten : ℕ → ℕ → SimpSolver H → SimpSolver H
  shorten cr l s =
      if length (clause_at s cr) == 2
      then (let s' = remove_noted cr s in set_literals cr (remove (clause_at s' cr) l) s')
      else (let b = detach_clause remove_watch cr true s.solver.store in
          record s {
            solver = record s.solver {
              store = attach_clause cr (set_clause cr (remove (b.ca cr) l) b);
            };
            occurs = record s.occurs {
              occs = put (var l) (remove (s.occurs.occs (var l)) cr) s.occurs.occs;
            };
            n_occ = put l (s.n_occ l - 1) s.n_occ;
          })

  -- A clause that has become a fact.
  abbrev pub enqueue_fact : List ℕ → SimpSolver H → Option (Bool × SimpSolver H)
  enqueue_fact [] s = some (true, s)
  enqueue_fact (l ∷ []) s =
      let (free, t) = enqueue l none s.solver.trail in
      let s' = with_trail s t in
      if free then propagate fuel (s.solver.store, t) >>= after_propagation s' else some (false, s')
  enqueue_fact (l ∷ k ∷ ls) s = some (true, s)

  unfoldable pub strengthen_clause : ℕ → ℕ → SimpSolver H → Option (Bool × SimpSolver H)
  unfolding remove_noted
  strengthen_clause cr l s =
      let s' = shorten cr l (record s { subsumption_queue = s.subsumption_queue ++ cr ∷ [] }) in
      enqueue_fact (clause_at s' cr) s'
