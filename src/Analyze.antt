-- ===== src/Analyze.antt =====
-- Solver::analyze of Solvers/SAT/GlucoseSyrup/syrup/core/Solver.cc: the clause that is learnt from a
-- conflict. The trail is read from its last literal on. Which clauses the loop counts the levels of
-- (those learnt whose LBD is above 2) is a parameter, since no clause is met twice and only its own
-- visit changes it; what it does with the count, and what else it only notes on the clauses and
-- variables (activities, LBD, use, imports), is left out. `none` stands for a failed assertion: a
-- variable without a reason, a binary reason with no true literal to put first, or a selector that is
-- not false.
pub mod Literals
pub mod Visit
pub mod Visited
pub mod Reasons
pub mod Learnt
pub mod Asserting
pub mod Backtrack
pub mod Redundant
pub mod Pushes
pub mod Closing
pub mod Minimised
pub mod Implied
pub mod Binary
pub mod Gathered
pub mod Stamps
pub mod Resolvent
pub mod Whole
pub mod Sound
pub mod Jump
mod Tests
use dsyrup.Base.{
  ℕ, zero, suc, ◌+◌, ◌-◌, Bool, true, false, not, ◌&&◌, ◌||◌, Option, none, some, List, [], ◌∷◌,
  ◌++◌, if◌then◌else◌, ◌==◌, ltb, leb, length, get_or, set,
}
use dsyrup.Literal.{negate, var}
use dsyrup.Clause.{put}
use dsyrup.Trail.{is_true, is_false, Trail, value, decision_level}
use dsyrup.Lbd.{compute_lbd}

-- `seen`, `pathC`, `out_learnt` from index 1 on, and `selectors`
pub record Learning : Type 0 where
  pub seen : ℕ → Bool
  pub path_c : ℕ
  pub out : List ℕ
  pub selectors : List ℕ

abbrev pub mark_seen : ℕ → Learning → Learning
mark_seen q s = record s { seen = put (var q) true s.seen }

module _ (level : ℕ → ℕ) (current : ℕ) (is_selector : ℕ → Bool) where
  -- A literal that is not seen yet, and not of level 0.
  abbrev pub note : ℕ → Learning → Learning
  note q s =
      if leb current (level (var q))
      then record (mark_seen q s) { path_c = suc s.path_c }
      else if is_selector (var q)
      then record (mark_seen q s) { selectors = s.selectors ++ q ∷ [] }
      else record (mark_seen q s) { out = s.out ++ q ∷ [] }

  unfoldable pub visit_literal : ℕ → Learning → Learning
  visit_literal q s = if s.seen (var q) || (level (var q) == 0) then s else note q s

  -- The loop over the literals of a clause.
  unfoldable pub visit_all : List ℕ → Learning → Learning
  unfolding visit_literal
  visit_all [] s = s
  visit_all (q ∷ qs) s = visit_all qs (visit_literal q s)

-- `assert(value(q) == l_False)` for the selectors that the loop collects.
unfoldable pub selectors_false : Trail → (ℕ → Bool) → List ℕ → Learning → Bool
unfolding visit_literal
selectors_false t is_selector [] s = true
selectors_false t is_selector (q ∷ qs) s =
    (s.seen (var q)
      || (t.level (var q) == 0)
      || leb (decision_level t) (t.level (var q))
      || not (is_selector (var q))
      || is_false (value t q))
    && selectors_false t is_selector qs (visit_literal t.level (decision_level t) is_selector q s)

-- A binary reason with its true literal first.
abbrev pub true_first : Trail → List ℕ → List ℕ
true_first t [] = []
true_first t (x ∷ []) = x ∷ []
true_first t (x ∷ y ∷ ls) =
    if (length ls == 0) && is_false (value t x) then y ∷ x ∷ ls else x ∷ y ∷ ls

-- `assert(value(c[1]) == l_True)` fails before the exchange.
abbrev pub is_misplaced : Trail → List ℕ → Bool
is_misplaced t [] = false
is_misplaced t (x ∷ []) = false
is_misplaced t (x ∷ y ∷ ls) = (length ls == 0) && is_false (value t x) && not (is_true (value t y))

abbrev pub after_first : List ℕ → List ℕ
after_first [] = []
after_first (x ∷ ls) = ls

-- `seen[var(p)] = 0; pathC--`
abbrev pub take_off : ℕ → Learning → Learning
take_off p s = record s { seen = put (var p) false s.seen; path_c = s.path_c - 1 }

-- MYFLAG and `permDiff` after a clause was met: computeLBD is called if it is learnt and its LBD is
-- above 2.
unfoldable pub stamp_clause : (ℕ → ℕ) → Bool → List ℕ → ℕ × (ℕ → ℕ) → ℕ × (ℕ → ℕ)
unfolding compute_lbd
stamp_clause level counts c stamps =
    let (n, flag, perm) = compute_lbd level c stamps in if counts then (flag, perm) else stamps

module _ (t : Trail) (is_selector : ℕ → Bool) (counts : ℕ → Bool) where
  -- The loop from the choice of the next literal on: the literal at which it ends, the clauses, MYFLAG
  -- with `permDiff`, and the state.
  unfoldable pub resolve_on :
      (ℕ → List ℕ)
      → List ℕ
      → ℕ × (ℕ → ℕ)
      → Learning
      → Option (ℕ × (ℕ → List ℕ) × (ℕ × (ℕ → ℕ)) × Learning)
  unfolding visit_all stamp_clause selectors_false
  resolve_on ca [] stamps s = none
  resolve_on ca (p ∷ ps) stamps s =
      let s' = take_off p s in
      let further : Option (ℕ × (ℕ → List ℕ) × (ℕ × (ℕ → ℕ)) × Learning) = elim (t.reason (var p)) [
        | none ↦ none
        | some cr ↦
            let c = true_first t (ca cr) in
            let rest =
              resolve_on (put cr c ca) ps (stamp_clause t.level (counts cr) c stamps)
                (visit_all t.level (decision_level t) is_selector (after_first c) s') in
            if is_misplaced t (ca cr) || not (selectors_false t is_selector (after_first c) s')
            then none
            else rest
      ] in
      let next = resolve_on ca ps stamps s in
      if not (s.seen (var p))
      then next
      else if ltb 0 s'.path_c
      then further
      else some (p, ca, stamps, s')

  -- From the conflict on, where `seen` is clear: the asserting literal, the clauses, MYFLAG with
  -- `permDiff`, and the state.
  unfoldable pub analyze_conflict :
      (ℕ → List ℕ) → ℕ → ℕ × (ℕ → ℕ) → Option (ℕ × (ℕ → List ℕ) × (ℕ × (ℕ → ℕ)) × Learning)
  unfolding resolve_on visit_all stamp_clause selectors_false
  analyze_conflict ca confl stamps =
      let s : Learning = record { seen = λ v. false; path_c = 0; out = []; selectors = [] } in
      let rest =
        resolve_on ca t.trail (stamp_clause t.level (counts confl) (ca confl) stamps)
          (visit_all t.level (decision_level t) is_selector (ca confl) s) in
      if selectors_false t is_selector (ca confl) s then rest else none

-- `out_learnt` before it is simplified.
abbrev pub learnt_clause : ℕ → Learning → List ℕ
learnt_clause p s = negate p ∷ s.out ++ s.selectors

-- `max_i` from index `i` on, and the exchange of the literal there with the one at index 1.
abbrev pub highest : (ℕ → ℕ) → ℕ → List ℕ → ℕ → ℕ → ℕ
highest level i [] max_i best = max_i
highest level i (l ∷ ls) max_i best =
    highest level (suc i) ls (if ltb (level (var best)) (level (var l)) then i else max_i)
      (if ltb (level (var best)) (level (var l)) then l else best)

-- The clause, and `out_btlevel`.
unfoldable pub find_btlevel : (ℕ → ℕ) → List ℕ → List ℕ × ℕ
find_btlevel level [] = ([], 0)
find_btlevel level (p ∷ []) = (p ∷ [], 0)
find_btlevel level (p ∷ q ∷ ls) =
    let max_i = highest level 1 ls 0 q in
    let second = get_or (q ∷ ls) max_i 0 in
    (p ∷ set (set (q ∷ ls) max_i q) 0 second, level (var second))

-- `ccmin_mode == 1`: a literal stays if it is a decision, or if some other literal of its reason, for
-- a binary one any literal, is neither seen nor of level 0.
abbrev pub any_unseen : (ℕ → ℕ) → (ℕ → Bool) → List ℕ → Bool
any_unseen level seen [] = false
any_unseen level seen (k ∷ ks) =
    (not (seen (var k)) && ltb 0 (level (var k))) || any_unseen level seen ks

abbrev pub reason_literals : List ℕ → List ℕ
reason_literals c = if length c == 2 then c else after_first c

abbrev pub stays : (ℕ → List ℕ) → Trail → (ℕ → Bool) → Option ℕ → Bool
stays ca t seen none = true
stays ca t seen (some cr) = any_unseen t.level seen (reason_literals (ca cr))

unfoldable pub minimise_local : (ℕ → List ℕ) → Trail → (ℕ → Bool) → List ℕ → List ℕ
minimise_local ca t seen [] = []
minimise_local ca t seen (l ∷ ls) =
    let rest = minimise_local ca t seen ls in
    if stays ca t seen (t.reason (var l)) then l ∷ rest else rest
