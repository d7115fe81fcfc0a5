-- ===== src/Companion/Units.antt =====
-- SharedCompanion::getUnary and the two operations that add unit literals: who reads what.
use dsyrup.Base.{
  ℕ, ◌≤◌, ◌≡◌, refl, sym, ap, subst, ◌∙◌, Option, none, some, List, [], ◌∷◌, ◌++◌, arith, ltb,
  length, get_elem?, get_or, take, Bool-cases, inl, inr, >>=-some,
}
use mathlib.Core.List.{append_assoc}
use dsyrup.Companion.{
  Companion, empty, Event, variable, solver, from_network, learnt, read, found, set_solution,
  set_all, Output, nothing, sent, got, first, add_learnt_hight_level, add_learnt, get_unary,
  is_undef, solution_found, step, run,
}
use dsyrup.Literal.{var}
use dsyrup.Companion.Advances.{
  received_by, received, known_to, get_or-append, Advances, still-Advances, share-Advances,
  get_elem?-exists, read-Advances,
}

add_learnt_hight_level-Advances :
    (t : ℕ) (c c' : Companion) (p : ℕ)
    → get_or c.next_unit t 0 ≤ length c.unit_lit
    → add_learnt_hight_level c p ≡ some c'
    → Advances t c c' []
unfolding add_learnt_hight_level
add_learnt_hight_level-Advances t c c' p h e =
    let (known, at, rest) = >>=-some (get_elem? c.is_unary (var p)) _ e in
    elim (Bool-cases (is_undef known)) [
      | inl new ↦ share-Advances t c c' p h (ground arith) (ground arith)
      | inr old ↦ still-Advances t c c' h (ground arith) (ground arith)
    ]

add_learnt-Advances :
    (t : ℕ) (c : Companion) (p : ℕ) (r : Companion × List ℕ)
    → get_or c.next_unit t 0 ≤ length c.unit_lit
    → add_learnt c p ≡ some r
    → Advances t c r.0 []
unfolding add_learnt
add_learnt-Advances t c p r h e =
    let (known, at, rest) = >>=-some (get_elem? c.is_unary (var p)) _ e in
    elim (Bool-cases (is_undef known)) [
      | inl new ↦ share-Advances t c r.0 p h (ground arith) (ground arith)
      | inr old ↦ still-Advances t c r.0 h (ground arith) (ground arith)
    ]

get_unary-Advances :
    (t : ℕ) (c : Companion) (sn : ℕ) (r : Companion × Option ℕ)
    → get_or c.next_unit t 0 ≤ length c.unit_lit
    → get_unary c sn ≡ some r
    → Advances t c r.0 (received_by t (got sn r.1))
unfolding get_unary
get_unary-Advances t c sn r h e =
    let (next, at, rest) = >>=-some (get_elem? c.next_unit sn) _ e in
    elim (Bool-cases (ltb next (length c.unit_lit))) [
      | inl more ↦
          let (p, there) = get_elem?-exists c.unit_lit next (ground arith) in
          let answer : r.1 ≡ some p = ground arith in
          rw answer (read-Advances t c r.0 sn next p h at there (ground arith) (ground arith))
      | inr all_read ↦
          let answer : r.1 ≡ none = ground arith in
          rw answer (still-Advances t c r.0 h (ground arith) (ground arith))
    ]

step-Advances :
    (t : ℕ) (c : Companion) (e : Event) (r : Companion × Output)
    → get_or c.next_unit t 0 ≤ length c.unit_lit
    → step c e ≡ some r
    → Advances t c r.0 (received_by t r.1)
unfolding step solution_found
step-Advances t c variable r h e =
    let o : r.1 ≡ nothing = ground arith in
    rw o (still-Advances t c r.0 h (ground arith) (ground arith))
step-Advances t c solver r h e =
    let o : r.1 ≡ nothing = ground arith in
    rw o (still-Advances t c r.0 h (ground arith) (ground (arith, get_or-append c.next_unit t)))
step-Advances t c (from_network p) r h e =
    let (c', one, rest) = >>=-some (add_learnt_hight_level c p) _ e in
    let k : (c', nothing) ≡ r = ground arith in
    subst (λ r. Advances t c r.0 (received_by t r.1)) k
      (add_learnt_hight_level-Advances t c c' p h one)
step-Advances t c (learnt p) r h e =
    let (q, one, rest) = >>=-some (add_learnt c p) _ e in
    let k : (q.0, sent q.1) ≡ r = ground arith in
    subst (λ r. Advances t c r.0 (received_by t r.1)) k (add_learnt-Advances t c p q h one)
step-Advances t c (read sn) r h e =
    let (q, one, rest) = >>=-some (get_unary c sn) _ e in
    let k : (q.0, got sn q.1) ≡ r = ground arith in
    subst (λ r. Advances t c r.0 (received_by t r.1)) k (get_unary-Advances t c sn q h one)
step-Advances t c (found sn) r h e =
    let o : r.1 ≡ first (solution_found c sn).1 = ground arith in
    rw o (still-Advances t c r.0 h (ground arith) (ground arith))
step-Advances t c (set_solution b) r h e =
    let o : r.1 ≡ nothing = ground arith in
    rw o (still-Advances t c r.0 h (ground arith) (ground arith))
step-Advances t c (set_all tmp) r h e =
    let o : r.1 ≡ nothing = ground arith in
    rw o (still-Advances t c r.0 h (ground arith) (ground arith))

run-Advances :
    (t : ℕ) (c : Companion) (es : List Event) (r : Companion × List Output)
    → get_or c.next_unit t 0 ≤ length c.unit_lit
    → run c es ≡ some r
    → Advances t c r.0 (received t r.1)
unfolding run
run-Advances t c [] r h e =
    let k : (c, []) ≡ r = ground arith in
    subst (λ r. Advances t c r.0 (received t r.1)) k (still-Advances t c c h refl refl)
run-Advances t c (x ∷ es) r h e =
    let (q, one, then_on) = >>=-some (step c x) _ e in
    let (z, two, last) = >>=-some (run q.0 es) _ then_on in
    let k : (z.0, q.1 ∷ z.1) ≡ r = ground arith in
    let a = step-Advances t c x q h one in
    let b = run-Advances t q.0 es z a.bounded two in
    subst (λ r. Advances t c r.0 (received t r.1)) k
      (record {
        bounded = b.bounded;
        known =
            sym (append_assoc (known_to t c) (received_by t q.1) (received t z.1))
            ∙ ap (λ xs. xs ++ received t z.1) a.known
            ∙ b.known;
      })

-- In every run of the threads, whatever the order of their operations, the unit literals that a
-- thread receives are, in order and without gap or repetition, the first ones that were shared:
-- as many as its counter says.
pub received-run :
    (t : ℕ) (es : List Event) (c : Companion) (os : List Output)
    → run empty es ≡ some (c, os)
    → received t os ≡ take (get_or c.next_unit t 0) c.unit_lit
received-run t es c os e = (run-Advances t empty es (c, os) (omega arith) e).known
