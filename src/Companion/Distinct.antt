-- ===== src/Companion/Distinct.antt =====
-- SharedCompanion: the list of shared unit literals against the table `isUnary`.
use dsyrup.Base.{
  ℕ, zero, suc, ◌≡◌, ◌≢◌, refl, sym, ap, ◌∙◌, subst, true, some, List, [], ◌∷◌, ◌++◌, arith,
  get_elem?, set, All, Bool-cases, inl, inr, >>=-some,
}
use dsyrup.Companion.{
  Companion, Lbool, l_undef, empty, Event, variable, solver, from_network, learnt, read, found,
  set_solution, set_all, Output, add_learnt_hight_level, add_learnt, get_unary, share, is_undef,
  value_of, solution_found, step, run,
}
use dsyrup.Literal.{var}

-- No two literals of the list have the same variable.
abbrev pub IsDistinct : List ℕ → Type 0
IsDistinct [] = Unit
IsDistinct (p ∷ ps) = All (λ q. var p ≢ var q) ps × IsDistinct ps

-- The table has the value of each shared literal, and each was shared once.
pub record IsConsistent (c : Companion) : Type 0 where
  pub recorded : All (λ p. get_elem? c.is_unary (var p) ≡ some (value_of p)) c.unit_lit
  pub distinct : IsDistinct c.unit_lit

get_elem?-set_self :
    (xs : List Lbool) (i : ℕ) (x v : Lbool)
    → get_elem? xs i ≡ some x
    → get_elem? (set xs i v) i ≡ some v
get_elem?-set_self [] i x v h = cc
get_elem?-set_self (y ∷ xs) zero x v h = refl
get_elem?-set_self (y ∷ xs) (suc i) x v h = get_elem?-set_self xs i x v h

get_elem?-set_ne :
    (xs : List Lbool) (i j : ℕ) (v : Lbool) → i ≢ j → get_elem? (set xs i v) j ≡ get_elem? xs j
get_elem?-set_ne [] i j v h = refl
get_elem?-set_ne (x ∷ xs) zero zero v h = absurd (h refl)
get_elem?-set_ne (x ∷ xs) zero (suc j) v h = refl
get_elem?-set_ne (x ∷ xs) (suc i) zero v h = refl
get_elem?-set_ne (x ∷ xs) (suc i) (suc j) v h = get_elem?-set_ne xs i j v (λ e. h (ap suc e))

get_elem?-append :
    (xs ys : List Lbool) (i : ℕ) (x : Lbool)
    → get_elem? xs i ≡ some x
    → get_elem? (xs ++ ys) i ≡ some x
get_elem?-append [] ys i x h = cc
get_elem?-append (y ∷ xs) ys zero x h = h
get_elem?-append (y ∷ xs) ys (suc i) x h = get_elem?-append xs ys i x h

-- An entry that is undefined is that of no shared literal.
undef-differs :
    (table : List Lbool) (p q : ℕ) (known : Lbool)
    → get_elem? table (var p) ≡ some known
    → is_undef known ≡ true
    → get_elem? table (var q) ≡ some (value_of q)
    → var q ≢ var p
undef-differs table p q known a u b e =
    let same : get_elem? table (var q) ≡ get_elem? table (var p) = ap (get_elem? table) e in
    let equal : some (value_of q) ≡ some known = sym b ∙ same ∙ a in ground arith

IsDistinct-append :
    (ps : List ℕ) (p : ℕ) → IsDistinct ps → All (λ q. var q ≢ var p) ps → IsDistinct (ps ++ p ∷ [])
IsDistinct-append [] p d h = (tt, tt)
IsDistinct-append (x ∷ ps) p d h = (further ps d.0, IsDistinct-append ps p d.1 h.1)
  where
    further : (qs : List ℕ) → All (λ q. var x ≢ var q) qs → All (λ q. var x ≢ var q) (qs ++ p ∷ [])
    further [] a = (h.0, tt)
    further (q ∷ qs) a = (a.0, further qs a.1)

-- Every entry is kept by a change that keeps those of the shared literals.
recorded-kept :
    (table table' : List Lbool) (ps : List ℕ)
    → ((q : ℕ)
        → get_elem? table (var q) ≡ some (value_of q)
        → get_elem? table' (var q) ≡ some (value_of q))
    → All (λ p. get_elem? table (var p) ≡ some (value_of p)) ps
    → All (λ p. get_elem? table' (var p) ≡ some (value_of p)) ps
recorded-kept table table' [] k h = tt
recorded-kept table table' (q ∷ ps) k h = (k q h.0, recorded-kept table table' ps k h.1)

recorded-append :
    (table : List Lbool) (ps : List ℕ) (p : ℕ)
    → get_elem? table (var p) ≡ some (value_of p)
    → All (λ q. get_elem? table (var q) ≡ some (value_of q)) ps
    → All (λ q. get_elem? table (var q) ≡ some (value_of q)) (ps ++ p ∷ [])
recorded-append table [] p a h = (a, tt)
recorded-append table (q ∷ ps) p a h = (h.0, recorded-append table ps p a h.1)

differing_from_shared :
    (table : List Lbool) (p : ℕ) (known : Lbool) (ps : List ℕ)
    → get_elem? table (var p) ≡ some known
    → is_undef known ≡ true
    → All (λ q. get_elem? table (var q) ≡ some (value_of q)) ps
    → All (λ q. var q ≢ var p) ps
differing_from_shared table p known [] a u h = tt
differing_from_shared table p known (q ∷ ps) a u h =
    (undef-differs table p q known a u h.0, differing_from_shared table p known ps a u h.1)

share-IsConsistent :
    (c c' : Companion) (p : ℕ) (known : Lbool)
    → IsConsistent c
    → get_elem? c.is_unary (var p) ≡ some known
    → is_undef known ≡ true
    → c'.unit_lit ≡ (share c p).unit_lit
    → c'.is_unary ≡ (share c p).is_unary
    → IsConsistent c'
share-IsConsistent c c' p known k a u e f =
    let table = set c.is_unary (var p) (value_of p) in
    let kept =
      recorded-kept c.is_unary table c.unit_lit
        (λ q b.
          get_elem?-set_ne c.is_unary (var p) (var q) (value_of p)
            (λ same. undef-differs c.is_unary p q known a u b (sym same))
          ∙ b)
        k.recorded in
    record {
      recorded =
          rw (e, f)
            (recorded-append table c.unit_lit p
              (get_elem?-set_self c.is_unary (var p) known (value_of p) a) kept);
      distinct = rw e (
          IsDistinct-append c.unit_lit p k.distinct
            (differing_from_shared c.is_unary p known c.unit_lit a u k.recorded));
    }

still-IsConsistent :
    (c c' : Companion)
    → IsConsistent c
    → c'.unit_lit ≡ c.unit_lit
    → c'.is_unary ≡ c.is_unary
    → IsConsistent c'
still-IsConsistent c c' k e f = record {
  recorded = rw (e, f) k.recorded;
  distinct = rw e k.distinct;
}

step-IsConsistent :
    (c : Companion) (e : Event) (r : Companion × Output)
    → IsConsistent c
    → step c e ≡ some r
    → IsConsistent r.0
unfolding step solution_found add_learnt_hight_level add_learnt get_unary
step-IsConsistent c variable r k e =
    let table = c.is_unary ++ l_undef ∷ [] in
    let t : r.0.is_unary ≡ table = ground arith in
    let u : r.0.unit_lit ≡ c.unit_lit = ground arith in
    record {
      recorded =
          rw (t, u)
            (recorded-kept c.is_unary table c.unit_lit
              (λ q b. get_elem?-append c.is_unary (l_undef ∷ []) (var q) (value_of q) b)
              k.recorded);
      distinct = rw u k.distinct;
    }
step-IsConsistent c solver r k e = still-IsConsistent c r.0 k (ground arith) (ground arith)
step-IsConsistent c (from_network p) r k e =
    let (c', one, rest) = >>=-some (add_learnt_hight_level c p) _ e in
    let (known, at, more) = >>=-some (get_elem? c.is_unary (var p)) _ one in
    elim (Bool-cases (is_undef known)) [
      | inl new ↦ share-IsConsistent c r.0 p known k at new (ground arith) (ground arith)
      | inr old ↦ still-IsConsistent c r.0 k (ground arith) (ground arith)
    ]
step-IsConsistent c (learnt p) r k e =
    let (q, one, rest) = >>=-some (add_learnt c p) _ e in
    let (known, at, more) = >>=-some (get_elem? c.is_unary (var p)) _ one in
    elim (Bool-cases (is_undef known)) [
      | inl new ↦ share-IsConsistent c r.0 p known k at new (ground arith) (ground arith)
      | inr old ↦ still-IsConsistent c r.0 k (ground arith) (ground arith)
    ]
step-IsConsistent c (read sn) r k e =
    let (q, one, rest) = >>=-some (get_unary c sn) _ e in
    let (next, at, more) = >>=-some (get_elem? c.next_unit sn) _ one in
    still-IsConsistent c r.0 k (ground arith) (ground arith)
step-IsConsistent c (found sn) r k e = still-IsConsistent c r.0 k (ground arith) (ground arith)
step-IsConsistent c (set_solution b) r k e =
    still-IsConsistent c r.0 k (ground arith) (ground arith)
step-IsConsistent c (set_all tmp) r k e = still-IsConsistent c r.0 k (ground arith) (ground arith)

run-IsConsistent :
    (c : Companion) (es : List Event) (r : Companion × List Output)
    → IsConsistent c
    → run c es ≡ some r
    → IsConsistent r.0
unfolding run
run-IsConsistent c [] r k e = let same : c ≡ r.0 = ground arith in subst IsConsistent same k
run-IsConsistent c (x ∷ es) r k e =
    let (q, one, then_on) = >>=-some (step c x) _ e in
    let (z, two, last) = >>=-some (run q.0 es) _ then_on in
    let same : z.0 ≡ r.0 = ground arith in
    subst IsConsistent same (run-IsConsistent q.0 es z (step-IsConsistent c x q k one) two)

-- In every run of the threads, whatever they and the other workers send, each variable is shared at
-- most once, with one sign, and the table has the value of each shared literal.
pub IsConsistent-run :
    (es : List Event) (c : Companion) (os : List Output)
    → run empty es ≡ some (c, os)
    → IsConsistent c
IsConsistent-run es c os e =
    run-IsConsistent empty es (c, os) (record { recorded = tt; distinct = tt }) e
