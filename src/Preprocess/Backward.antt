-- ===== src/Preprocess/Backward.antt =====
-- SimpSolver.cc, backwardSubsumptionCheck: subsumption and self-subsumption among the clauses. The
-- list of occurrences changes while it is read.
use dsyrup.Base.{
  ℕ, zero, suc, Bool, true, not, ◌&&◌, ◌||◌, Option, none, some, List, [], ◌∷◌, if◌then◌else◌, ◌==◌,
  ltb, length, get_elem?, ◌>>=◌,
}
use dsyrup.Literal.{var, negate}
use dsyrup.Clause.{unrelated, subsuming, resolving, subsumes}
use dsyrup.Trail.{at_index, Heap}
use dsyrup.Propagate.{Watcher, Store}
use dsyrup.Preprocess.{
  Scan, SimpSolver, best_of, clause_at, ends, ends_if_false, first_var, goes, if_true, is_below,
  is_removed, lookup_occurs, remove_noted, scan_on, set_literals, strengthen_clause,
  with_abstraction,
}

module _ {H : Type 0} (heap : Heap H) (sort : List ℕ → List ℕ) (remove : List ℕ → ℕ → List ℕ)
    (remove_watch : List Watcher → Watcher → List Watcher) (new_cref : Store → ℕ) (fuel : ℕ) where
  -- The test of one candidate `cd` at index `j` against the clause `cr`.
  unfoldable pub scan_candidate : ℕ → ℕ → ℕ → ℕ → SimpSolver H → Option (Scan H)
  unfolding strengthen_clause
  scan_candidate best cr j cd s =
      if is_removed s cr
      then some (ends true s)
      else if not (is_removed s cd)
          && not (cd == cr)
          && is_below s.subsumption_lim (length (clause_at s cd))
      then (elim (subsumes (with_abstraction (clause_at s cr))
          (with_abstraction (clause_at s cd))) [
            | unrelated ↦ some (goes (suc j) s)
            | subsuming ↦
                some
                  (goes (suc j) ((remove_noted heap sort remove remove_watch new_cref fuel) cd s))
            | resolving l ↦
                (strengthen_clause heap sort remove remove_watch new_cref fuel) cd (negate l) s
                >>= ends_if_false (if var l == best then j else suc j)
          ])
      else some (goes (suc j) s)

  -- The loop over the list of occurrences, which the removals change.
  unfoldable pub scan : ℕ → ℕ → ℕ → ℕ → SimpSolver H → Option (Bool × SimpSolver H)
  unfolding scan_candidate
  scan zero best cr j s = none
  scan (suc n) best cr j s = elim (get_elem? (s.occurs.occs best) j) [
    | none ↦ some (true, s)
    | some cd ↦ scan_candidate best cr j cd s >>= scan_on (scan n best cr)
  ]

  -- The clause to check: the next of the queue, or the next literal of the trail as a clause.
  abbrev pub next_queued : List ℕ → SimpSolver H → Option (ℕ × SimpSolver H)
  next_queued (cr ∷ queue) s = some (cr, record s { subsumption_queue = queue })
  next_queued [] s = at_index s.bwdsub_assigns s.solver.trail.trail >>= λ l. some (
    s.bwdsub_tmpunit,
    (set_literals heap sort remove remove_watch new_cref fuel) s.bwdsub_tmpunit (l ∷ [])
        (record s { bwdsub_assigns = suc s.bwdsub_assigns }),
  )

  abbrev pub check_clause : ℕ → ℕ → SimpSolver H → Option (Bool × SimpSolver H)
  check_clause n cr s =
      let c = clause_at s cr in
      let best = best_of s (first_var c) c in
      let (cs, s') = lookup_occurs best s in
      if is_removed s cr then some (true, s) else scan n best cr 0 s'

  unfoldable pub backward_subsumption_check : ℕ → SimpSolver H → Option (Bool × SimpSolver H)
  unfolding scan
  backward_subsumption_check zero s = none
  backward_subsumption_check (suc n) s =
      let rest = next_queued s.subsumption_queue s >>= λ (cr, s').
      check_clause fuel cr s' >>= if_true (backward_subsumption_check n) in
      if ltb 0 (length s.subsumption_queue) || ltb s.bwdsub_assigns (length s.solver.trail.trail)
      then rest
      else some (true, s)
