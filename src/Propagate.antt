-- ===== src/Propagate.antt =====
-- Solver::propagate of Solvers/SAT/GlucoseSyrup/syrup/core/Solver.cc, with two watched literals, for
-- a solver in which useUnaryWatched is off. A clause is found by its CRef; a failed assertion is
-- `none`. Watchers are pushed on other lists than the one that is read, so that this one is written
-- once, after the loop over it. Counters are left out.
pub mod Invariant
pub mod Bin
pub mod Long
pub mod Sound
pub mod Open
pub mod Moved
pub mod Visited
pub mod Loop
pub mod Ends
pub mod Cleaned
mod Tests
use dsyrup.Base.{
  ℕ, zero, suc, ◌+◌, Bool, true, false, not, ◌&&◌, ◌||◌, Option, none, some, List, [], ◌∷◌, ◌++◌,
  if◌then◌else◌, ◌==◌, ltb, length, ◌>>=◌,
}
use dsyrup.Literal.{negate}
use dsyrup.Clause.{OccLists, put, clean_all}
use dsyrup.Trail.{is_true, is_false, is_undef, Trail, value, unchecked_enqueue, at_index, or_zero}

pub record Watcher : Type 0 where
  pub cref : ℕ
  pub blocker : ℕ

-- The literals of each clause, `mark() == 1` and `getOneWatched()`, `watches`, `watchesBin` and
-- `unaryWatches`
pub record Store : Type 0 where
  pub ca : ℕ → List ℕ
  pub marked : ℕ → Bool
  pub one_watched : ℕ → Bool
  pub watches : OccLists Watcher
  pub watches_bin : OccLists Watcher
  pub unary_watches : OccLists Watcher

-- `WatcherDeleted`
abbrev pub is_deleted : Store → Watcher → Bool
is_deleted b w = b.marked w.cref

abbrev pub watcher : ℕ → ℕ → Watcher
watcher cr l = record { cref = cr; blocker = l }

abbrev pub set_clause : ℕ → List ℕ → Store → Store
set_clause cr ls b = record b { ca = put cr ls b.ca }

abbrev pub push_watch : ℕ → Watcher → Store → Store
push_watch q w b = record b {
  watches = record b.watches { occs = put q (b.watches.occs q ++ w ∷ []) b.watches.occs };
}

abbrev pub set_watches : ℕ → List Watcher → Store → Store
set_watches q ws b = record b { watches = record b.watches { occs = put q ws b.watches.occs } }

-- The loop over the binary clauses; a clause that is false is returned at once.
unfoldable pub propagate_bin : List Watcher → Trail → Option ℕ × Trail
propagate_bin [] t = (none, t)
propagate_bin (w ∷ ws) t =
    let imp = w.blocker in
    let rest =
      propagate_bin ws
        (if is_undef (value t imp) then unchecked_enqueue imp (some w.cref) t else t) in
    if is_false (value t imp) then (some w.cref, t) else rest

-- The false literal made the second one.
abbrev pub to_second : ℕ → List ℕ → List ℕ
to_second f (x ∷ y ∷ ls) = if x == f then y ∷ x ∷ ls else x ∷ y ∷ ls
to_second f (x ∷ []) = x ∷ []
to_second f [] = []

abbrev pub put_before : ℕ → ℕ × List ℕ → Option (ℕ × List ℕ)
put_before l (k, ls) = some (k, l ∷ ls)

-- The first literal from the third on that is not false, and those literals with `f` in its place.
unfoldable pub find_watch : Trail → ℕ → List ℕ → Option (ℕ × List ℕ)
find_watch t f [] = none
find_watch t f (l ∷ ls) =
    let rest = find_watch t f ls >>= put_before l in
    if is_false (value t l) then rest else some (l, f ∷ ls)

-- What becomes of a watcher: it stays in the list, moves to another, or its clause is false.
pub data Visit : Type 0 where
  kept : Watcher → Visit
  moved : Visit
  conflict : Watcher → Visit

-- After the search for a new watch, where `x` and `f` are the first two literals.
abbrev pub settle : ℕ → ℕ → ℕ → Option (ℕ × List ℕ) → Store × Trail → Visit × Store × Trail
settle cr x f (some (l, ls)) (b, t) =
    (moved, push_watch (negate l) (watcher cr x) (set_clause cr (x ∷ l ∷ ls) b), t)
settle cr x f none (b, t) =
    if is_false (value t x)
    then (conflict (watcher cr x), b, record t { qhead = length t.trail })
    else (kept (watcher cr x), b, unchecked_enqueue x (some cr) t)

-- A clause whose false literal was made the second.
abbrev pub inspect : ℕ → Watcher → List ℕ → Store × Trail → Option (Visit × Store × Trail)
inspect p w [] s = none
inspect p w (x ∷ []) s = none
inspect p w (x ∷ f ∷ ls) (b, t) =
    if not (f == negate p) || b.one_watched w.cref
    then none
    else if not (x == w.blocker) && is_true (value t x)
    then some (kept (watcher w.cref x), b, t)
    else some (settle w.cref x f (find_watch t f ls) (b, t))

unfoldable pub visit : ℕ → Watcher → Store × Trail → Option (Visit × Store × Trail)
unfolding find_watch unchecked_enqueue
visit p w (b, t) =
    let ls = to_second (negate p) (b.ca w.cref) in inspect p w ls (set_clause w.cref ls b, t)

-- What the loop over a list of watchers returns: the false clause, the list that is left, the state.
abbrev pub Result : Type 0
Result = Option ℕ × List Watcher × Store × Trail

abbrev pub keep : Watcher → Result → Option Result
keep w (confl, ws, b, t) = some (confl, w ∷ ws, b, t)

-- After a visit, with the rest of the loop and the watchers that follow.
abbrev pub go_on :
    (Store × Trail → Option Result) → List Watcher → Visit × Store × Trail → Option Result
go_on next ws (kept w, b, t) = next (b, t) >>= keep w
go_on next ws (moved, b, t) = next (b, t)
go_on next ws (conflict w, b, t) = some (some w.cref, w ∷ ws, b, t)

-- The loop over the other clauses that watch `p`.
unfoldable pub propagate_long : ℕ → List Watcher → Store × Trail → Option Result
unfolding visit
propagate_long p [] (b, t) = some (none, [], b, t)
propagate_long p (w ∷ ws) (b, t) =
    let rest = propagate_long p ws (b, t) >>= keep w in
    if is_true (value t w.blocker)
    then rest
    else visit p w (b, t) >>= go_on (propagate_long p ws) ws

-- After the loop over the watchers of `p`.
abbrev pub write_back :
    ℕ
    → (Option ℕ → Store × Trail → Option (Option ℕ × Store × Trail))
    → Result
    → Option (Option ℕ × Store × Trail)
write_back p next (confl, ws, b, t) = next confl (set_watches p ws b, t)

-- The loop over the queue; `none` also when the fuel is used up.
unfoldable pub propagate_queue : ℕ → Option ℕ → Store × Trail → Option (Option ℕ × Store × Trail)
unfolding propagate_bin propagate_long
propagate_queue zero confl s = none
propagate_queue (suc fuel) confl (b, t) =
    let p = or_zero (at_index t.qhead t.trail) in
    let (false_clause, t') =
      propagate_bin (b.watches_bin.occs p) (record t { qhead = suc t.qhead }) in
    let rest =
      propagate_long p (b.watches.occs p) (b, t') >>= write_back p (propagate_queue fuel) in
    if ltb t.qhead (length t.trail)
    then elim false_clause [ none ↦ rest | some cr ↦ some (some cr, b, t') ]
    else some (confl, b, t)

unfoldable pub propagate : ℕ → Store × Trail → Option (Option ℕ × Store × Trail)
unfolding propagate_queue
propagate fuel (b, t) = propagate_queue fuel none (
  record b {
    watches = clean_all (is_deleted b) b.watches;
    watches_bin = clean_all (is_deleted b) b.watches_bin;
    unary_watches = clean_all (is_deleted b) b.unary_watches;
  },
  t,
)
