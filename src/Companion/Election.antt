-- ===== src/Companion/Election.antt =====
-- SharedCompanion::solutionFound along a run of the threads.
use dsyrup.Base.{
  ℕ, ◌+◌, ◌≡◌, refl, subst, true, false, Option, none, some, List, [], ◌∷◌, arith, if◌then◌else◌,
  get_elem?, >>=-some,
}
use dsyrup.Companion.{
  Companion, empty, Event, variable, solver, from_network, learnt, read, found, set_solution,
  set_all, Output, nothing, sent, got, first, add_learnt_hight_level, add_learnt, get_unary,
  solution_found, step, run,
}
use dsyrup.Literal.{var}

-- How many solvers were told that they won.
abbrev pub wins_of : Output → ℕ
wins_of (first true) = 1
wins_of (first false) = 0
wins_of nothing = 0
wins_of (sent ps) = 0
wins_of (got sn p) = 0

abbrev pub wins : List Output → ℕ
wins [] = 0
wins (o ∷ os) = wins_of o + wins os

-- The first solver that calls `solutionFound`.
abbrev pub first_found : List Event → Option ℕ
first_found [] = none
first_found (found sn ∷ es) = some sn
first_found (variable ∷ es) = first_found es
first_found (solver ∷ es) = first_found es
first_found (from_network p ∷ es) = first_found es
first_found (learnt p ∷ es) = first_found es
first_found (read sn ∷ es) = first_found es
first_found (set_solution b ∷ es) = first_found es
first_found (set_all tmp ∷ es) = first_found es

-- `setSolutionFound` is not called.
abbrev pub IsUnset : List Event → Type 0
IsUnset [] = Unit
IsUnset (set_solution b ∷ es) = ⊥
IsUnset (variable ∷ es) = IsUnset es
IsUnset (solver ∷ es) = IsUnset es
IsUnset (from_network p ∷ es) = IsUnset es
IsUnset (learnt p ∷ es) = IsUnset es
IsUnset (read sn ∷ es) = IsUnset es
IsUnset (found sn ∷ es) = IsUnset es
IsUnset (set_all tmp ∷ es) = IsUnset es

-- The solution is left as it is.
record Leaves (c c' : Companion) (o : Output) : Type 0 where
  solution : c'.solution ≡ c.solution
  winner : c'.solver_solution ≡ c.solver_solution
  quiet : wins_of o ≡ 0

from_network-Leaves :
    (c : Companion) (p : ℕ) (r : Companion × Output)
    → step c (from_network p) ≡ some r
    → Leaves c r.0 r.1
unfolding step add_learnt_hight_level
from_network-Leaves c p r e =
    let (c', one, rest) = >>=-some (add_learnt_hight_level c p) _ e in
    let (known, at, more) = >>=-some (get_elem? c.is_unary (var p)) _ one in
    record { solution = ground arith; winner = ground arith; quiet = ground arith }

learnt-Leaves :
    (c : Companion) (p : ℕ) (r : Companion × Output) → step c (learnt p) ≡ some r → Leaves c r.0 r.1
unfolding step add_learnt
learnt-Leaves c p r e =
    let (q, one, rest) = >>=-some (add_learnt c p) _ e in
    let (known, at, more) = >>=-some (get_elem? c.is_unary (var p)) _ one in
    record { solution = ground arith; winner = ground arith; quiet = ground arith }

read-Leaves :
    (c : Companion) (sn : ℕ) (r : Companion × Output) → step c (read sn) ≡ some r → Leaves c r.0 r.1
unfolding step get_unary
read-Leaves c sn r e =
    let (q, one, rest) = >>=-some (get_unary c sn) _ e in
    let (next, at, more) = >>=-some (get_elem? c.next_unit sn) _ one in
    record { solution = ground arith; winner = ground arith; quiet = ground arith }

-- What a run adds to what is known of the winner.
abbrev pub later : Option ℕ → Option ℕ → Option ℕ
later before none = before
later before (some sn) = some sn

abbrev pub count : Option ℕ → ℕ
count none = 0
count (some sn) = 1

record Elects (c c' : Companion) (es : List Event) (os : List Output) : Type 0 where
  counted : wins os ≡ (if c.solution then 0 else count (first_found es))
  elected :
      c'.solver_solution
      ≡ (if c.solution then c.solver_solution else later c.solver_solution (first_found es))

Leaves-Elects :
    (c d c' : Companion) (e : Event) (es : List Event) (o : Output) (os : List Output)
    → first_found (e ∷ es) ≡ first_found es
    → Leaves c d o
    → Elects d c' es os
    → Elects c c' (e ∷ es) (o ∷ os)
Leaves-Elects c d c' e es o os f l k = record {
  counted = ground (arith, l.solution, l.quiet, k.counted);
  elected = ground (arith, l.solution, l.winner, k.elected);
}

found-Elects :
    (c c' : Companion) (sn : ℕ) (es : List Event) (os : List Output)
    → Elects (solution_found c sn).0 c' es os
    → Elects c c' (found sn ∷ es) (first (solution_found c sn).1 ∷ os)
unfolding solution_found
found-Elects c c' sn es os k = record {
  counted = ground (arith, k.counted);
  elected = ground (arith, k.elected);
}

step-Elects :
    (c : Companion) (e : Event) (r : Companion × Output) (c' : Companion) (es : List Event)
    (os : List Output)
    → IsUnset (e ∷ es)
    → step c e ≡ some r
    → Elects r.0 c' es os
    → Elects c c' (e ∷ es) (r.1 ∷ os)
unfolding step
step-Elects c variable r c' es os n e k =
    Leaves-Elects c r.0 c' variable es r.1 os refl
      (record { solution = ground arith; winner = ground arith; quiet = ground arith }) k
step-Elects c solver r c' es os n e k =
    Leaves-Elects c r.0 c' solver es r.1 os refl
      (record { solution = ground arith; winner = ground arith; quiet = ground arith }) k
step-Elects c (from_network p) r c' es os n e k =
    Leaves-Elects c r.0 c' (from_network p) es r.1 os refl (from_network-Leaves c p r e) k
step-Elects c (learnt p) r c' es os n e k =
    Leaves-Elects c r.0 c' (learnt p) es r.1 os refl (learnt-Leaves c p r e) k
step-Elects c (read sn) r c' es os n e k =
    Leaves-Elects c r.0 c' (read sn) es r.1 os refl (read-Leaves c sn r e) k
step-Elects c (found sn) r c' es os n e k =
    let same : ((solution_found c sn).0, first (solution_found c sn).1) ≡ r = ground arith in
    subst (λ r. Elects r.0 c' es os → Elects c c' (found sn ∷ es) (r.1 ∷ os)) same
      (found-Elects c c' sn es os) k
step-Elects c (set_solution b) r c' es os n e k = absurd n
step-Elects c (set_all tmp) r c' es os n e k =
    Leaves-Elects c r.0 c' (set_all tmp) es r.1 os refl
      (record { solution = ground arith; winner = ground arith; quiet = ground arith }) k

IsUnset-tail : (e : Event) (es : List Event) → IsUnset (e ∷ es) → IsUnset es
IsUnset-tail variable es n = n
IsUnset-tail solver es n = n
IsUnset-tail (from_network p) es n = n
IsUnset-tail (learnt p) es n = n
IsUnset-tail (read sn) es n = n
IsUnset-tail (found sn) es n = n
IsUnset-tail (set_solution b) es n = absurd n
IsUnset-tail (set_all tmp) es n = n

run-Elects :
    (c : Companion) (es : List Event) (r : Companion × List Output)
    → IsUnset es
    → run c es ≡ some r
    → Elects c r.0 es r.1
unfolding run
run-Elects c [] r n e =
    let same : (c, []) ≡ r = ground arith in
    subst (λ r. Elects c r.0 [] r.1) same
      (record { counted = ground arith; elected = ground arith })
run-Elects c (x ∷ es) r n e =
    let (q, one, then_on) = >>=-some (step c x) _ e in
    let (z, two, last) = >>=-some (run q.0 es) _ then_on in
    let same : (z.0, q.1 ∷ z.1) ≡ r = ground arith in
    subst (λ r. Elects c r.0 (x ∷ es) r.1) same
      (step-Elects c x q z.0 es z.1 n one (run-Elects q.0 es z (IsUnset-tail x es n) two))

-- In every run of the threads in which `setSolutionFound` is not called, the winner is the first
-- solver that called `solutionFound`, and it alone was told so.
pub elected-run :
    (es : List Event) (c : Companion) (os : List Output)
    → IsUnset es
    → run empty es ≡ some (c, os)
    → (c.solver_solution ≡ first_found es) × (wins os ≡ count (first_found es))
elected-run es c os n e =
    let k = run-Elects empty es (c, os) n e in (ground (arith, k.elected), k.counted)
