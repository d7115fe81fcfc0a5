-- ===== src/Final.antt =====
-- Solver::analyzeFinal of Solvers/SAT/GlucoseSyrup/syrup/core/Solver.cc: the decisions that led to the
-- assignment of a literal. The trail is read from its last literal on.
pub mod Marks
pub mod Sound
mod Tests
use dsyrup.Base.{
  ℕ, Bool, true, false, not, ◌&&◌, Option, none, some, List, [], ◌∷◌, if◌then◌else◌, ◌==◌, ltb, leb,
  length,
}
use dsyrup.Literal.{negate, var}
use dsyrup.Clause.{put}
use dsyrup.Trail.{Trail, decision_level, at_index, or_zero}

-- The loop over the literals of a reason.
abbrev pub mark : (ℕ → ℕ) → List ℕ → (ℕ → Bool) → ℕ → Bool
mark level [] seen = seen
mark level (l ∷ ls) seen =
    mark level ls (if ltb 0 (level (var l)) then put (var l) true seen else seen)

-- It starts at the second literal, or at the first of a binary clause.
abbrev pub mark_reason : (ℕ → ℕ) → List ℕ → (ℕ → Bool) → ℕ → Bool
mark_reason level [] seen = seen
mark_reason level (x ∷ ls) seen =
    if length ls == 1 then mark level (x ∷ ls) seen else mark level ls seen

-- `seen` after the visit of literal `l`.
abbrev pub explain : (ℕ → List ℕ) → Trail → ℕ → (ℕ → Bool) → ℕ → Bool
explain ca t l seen =
    put (var l) false
      (elim (t.reason (var l)) [ none ↦ seen | some cr ↦ mark_reason t.level (ca cr) seen ])

abbrev pub is_decision : Option ℕ → Bool
is_decision none = true
is_decision (some cr) = false

-- The loop over the trail down to index `lim`: the literals that are pushed, in their order.
unfoldable pub explain_all : (ℕ → List ℕ) → Trail → ℕ → List ℕ → (ℕ → Bool) → List ℕ
explain_all ca t lim [] seen = []
explain_all ca t lim (l ∷ ls) seen =
    let after = explain_all ca t lim ls (explain ca t l seen) in
    let next = explain_all ca t lim ls seen in
    if not (leb lim (length ls))
    then []
    else if seen (var l)
    then (if is_decision (t.reason (var l)) then negate l ∷ after else after)
    else next

-- `seen` after the loop.
unfoldable pub seen_after : (ℕ → List ℕ) → Trail → ℕ → List ℕ → (ℕ → Bool) → ℕ → Bool
seen_after ca t lim [] seen = seen
seen_after ca t lim (l ∷ ls) seen =
    let after = seen_after ca t lim ls (if seen (var l) then explain ca t l seen else seen) in
    if not (leb lim (length ls)) then seen else after

-- The clause, and `seen`.
unfoldable pub analyze_final : (ℕ → List ℕ) → Trail → (ℕ → Bool) → ℕ → List ℕ × (ℕ → Bool)
unfolding explain_all seen_after
analyze_final ca t seen p =
    let lim = or_zero (at_index 0 t.trail_lim) in
    let marked = put (var p) true seen in
    let rest = explain_all ca t lim t.trail marked in
    if decision_level t == 0
    then (p ∷ [], seen)
    else (p ∷ rest, put (var p) false (seen_after ca t lim t.trail marked))
