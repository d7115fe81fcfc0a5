-- ===== src/Attach.antt =====
-- Solver::addClause_, attachClause, detachClause, removeClause, satisfied and locked of
-- Solvers/SAT/GlucoseSyrup/syrup/core/Solver.{h,cc}. `sort` and `remove` of mtl and the CRef that the
-- allocator returns are parameters; the certificate and counters are left out.
pub mod Reduce
pub mod Added
pub mod State
pub mod Meaning
mod Tests
use dsyrup.Base.{
  ℕ, zero, suc, Bool, true, false, not, ◌&&◌, ◌||◌, Option, none, some, List, [], ◌∷◌, ◌++◌,
  if◌then◌else◌, ◌==◌, length, ◌>>=◌,
}
use dsyrup.Literal.{negate, var}
use dsyrup.Clause.{OccLists, put, smudge}
use dsyrup.Trail.{is_true, is_false, Trail, value, decision_level, unchecked_enqueue}
use dsyrup.Propagate.{Watcher, Store, watcher, push_watch, propagate}

abbrev pub push_to : ℕ → Watcher → OccLists Watcher → OccLists Watcher
push_to q w o = record o { occs = put q (o.occs q ++ w ∷ []) o.occs }

abbrev pub push_bin : ℕ → Watcher → Store → Store
push_bin q w b = record b { watches_bin = push_to q w b.watches_bin }

-- A clause as the allocator leaves it.
abbrev pub alloc : ℕ → List ℕ → Store → Store
alloc cr ls b = record b {
  ca = put cr ls b.ca;
  marked = put cr false b.marked;
  one_watched = put cr false b.one_watched;
}

-- On a clause of less than two literals the assertion fails; nothing changes here.
abbrev pub attach_at : ℕ → List ℕ → Store → Store
attach_at cr [] b = b
attach_at cr (x ∷ []) b = b
attach_at cr (x ∷ y ∷ ls) b =
    if length ls == 0
    then push_bin (negate y) (watcher cr x) (push_bin (negate x) (watcher cr y) b)
    else push_watch (negate y) (watcher cr x) (push_watch (negate x) (watcher cr y) b)

unfoldable pub attach_clause : ℕ → Store → Store
attach_clause cr b = attach_at cr (b.ca cr) b

abbrev pub attach_unary : ℕ → List ℕ → Store → Store
attach_unary cr [] b = b
attach_unary cr (x ∷ []) b = b
attach_unary cr (x ∷ y ∷ ls) b = record b {
  unary_watches = push_to (negate x) (watcher cr y) b.unary_watches;
}

unfoldable pub attach_clause_purgatory : ℕ → Store → Store
attach_clause_purgatory cr b = attach_unary cr (b.ca cr) b

module _ (remove : List Watcher → Watcher → List Watcher) where
  abbrev pub remove_at : ℕ → Watcher → OccLists Watcher → OccLists Watcher
  remove_at q w o = record o { occs = put q (remove (o.occs q) w) o.occs }

  -- Both lists of the first two literals, changed at once or only noted.
  abbrev pub detach_from : Bool → ℕ → ℕ → ℕ → OccLists Watcher → OccLists Watcher
  detach_from strict cr x y o =
      if strict
      then remove_at (negate y) (watcher cr x) (remove_at (negate x) (watcher cr y) o)
      else smudge (negate y) (smudge (negate x) o)

  abbrev pub detach_at : ℕ → Bool → List ℕ → Store → Store
  detach_at cr strict [] b = b
  detach_at cr strict (x ∷ []) b = b
  detach_at cr strict (x ∷ y ∷ ls) b =
      if length ls == 0
      then record b { watches_bin = detach_from strict cr x y b.watches_bin }
      else record b { watches = detach_from strict cr x y b.watches }

  unfoldable pub detach_clause : ℕ → Bool → Store → Store
  detach_clause cr strict b = detach_at cr strict (b.ca cr) b

  abbrev pub detach_unary : ℕ → Bool → List ℕ → Store → Store
  detach_unary cr strict [] b = b
  detach_unary cr strict (x ∷ []) b = b
  detach_unary cr strict (x ∷ y ∷ ls) b = record b {
    unary_watches =
        if strict
        then remove_at (negate x) (watcher cr y) b.unary_watches
        else smudge (negate x) b.unary_watches;
  }

  unfoldable pub detach_clause_purgatory : ℕ → Bool → Store → Store
  detach_clause_purgatory cr strict b = detach_unary cr strict (b.ca cr) b

abbrev pub is_reason : ℕ → Option ℕ → Bool
is_reason cr none = false
is_reason cr (some r) = r == cr

abbrev pub is_locked_by : ℕ → ℕ → Trail → Bool
is_locked_by cr l t = is_true (value t l) && is_reason cr (t.reason (var l))

abbrev pub is_locked : ℕ → List ℕ → Trail → Bool
is_locked cr [] t = false
is_locked cr (x ∷ []) t = is_locked_by cr x t
is_locked cr (x ∷ y ∷ ls) t =
    if length ls == 0 then is_locked_by cr x t || is_locked_by cr y t else is_locked_by cr x t

-- `vardata[var(c[0])].reason = CRef_Undef`
abbrev pub forget_reason : List ℕ → Trail → Trail
forget_reason [] t = t
forget_reason (x ∷ ls) t = record t { reason = put (var x) none t.reason }

unfoldable pub remove_clause :
    (List Watcher → Watcher → List Watcher) → ℕ → Bool → Store × Trail → Store × Trail
unfolding detach_clause detach_clause_purgatory
remove_clause remove cr in_purgatory (b, t) =
    let b' =
      if in_purgatory
      then detach_clause_purgatory remove cr false b
      else detach_clause remove cr false b in
    (
      record b' { marked = put cr true b'.marked },
      if is_locked cr (b.ca cr) t then forget_reason (b.ca cr) t else t,
    )

abbrev pub is_satisfied : List ℕ → Trail → Bool
is_satisfied [] t = false
is_satisfied (l ∷ ls) t = is_true (value t l) || is_satisfied ls t

abbrev pub is_opposite : ℕ → Option ℕ → Bool
is_opposite l none = false
is_opposite l (some p) = l == negate p

abbrev pub is_same : ℕ → Option ℕ → Bool
is_same l none = false
is_same l (some p) = l == p

abbrev pub put_first : ℕ → List ℕ → Option (List ℕ)
put_first l ls = some (l ∷ ls)

-- The loop over the sorted literals, after literal `p`: `none` when the clause is satisfied or has two
-- opposite literals, and else the literals that are left.
unfoldable pub reduce : Trail → Option ℕ → List ℕ → Option (List ℕ)
reduce t p [] = some []
reduce t p (l ∷ ls) =
    let rest = reduce t p ls in
    let with_l = reduce t (some l) ls >>= put_first l in
    if is_true (value t l) || is_opposite l p
    then none
    else if not (is_false (value t l)) && not (is_same l p)
    then with_l
    else rest

-- `ok`, `clauses`, the clauses and the trail
pub record Solver : Type 0 where
  pub is_ok : Bool
  pub clauses : List ℕ
  pub store : Store
  pub trail : Trail

abbrev pub no_conflict : Option ℕ → Bool
no_conflict none = true
no_conflict (some cr) = false

-- After propagation.
abbrev pub propagated : Solver → Option ℕ × Store × Trail → Option (Bool × Solver)
propagated s (confl, b, t) =
    some (no_conflict confl, record s { is_ok = no_conflict confl; store = b; trail = t })

-- The literals that are left become the empty clause, a fact or a clause.
abbrev pub add_reduced : ℕ → ℕ → Option (List ℕ) → Solver → Option (Bool × Solver)
add_reduced fuel cr none s = some (true, s)
add_reduced fuel cr (some []) s = some (false, record s { is_ok = false })
add_reduced fuel cr (some (l ∷ [])) s =
    propagate fuel (s.store, unchecked_enqueue l none s.trail) >>= propagated s
add_reduced fuel cr (some (x ∷ y ∷ ls)) s = some (
  true,
  record s {
    clauses = s.clauses ++ cr ∷ [];
    store = attach_clause cr (alloc cr (x ∷ y ∷ ls) s.store);
  },
)

-- `none` when an assertion fails: the first one is that the decision level is 0.
unfoldable pub add_clause : (List ℕ → List ℕ) → ℕ → ℕ → List ℕ → Solver → Option (Bool × Solver)
unfolding reduce
add_clause sort fuel cr ps s =
    let rest = add_reduced fuel cr (reduce s.trail none (sort ps)) s in
    if not (decision_level s.trail == 0)
    then none
    else if not s.is_ok
    then some (false, s)
    else rest
