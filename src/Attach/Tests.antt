-- ===== src/Attach/Tests.antt =====
-- A clause added to a solver in which variable 0 is true.
use dsyrup.Base.{
  ℕ, ◌/◌, ◌≡◌, refl, Bool, true, false, ◌||◌, none, some, List, [], ◌∷◌, arith, if◌then◌else◌, ◌==◌,
  leb, Bool-cases, inl, inr,
}
use dsyrup.Literal.{negate}
use dsyrup.Clause.{OccLists}
use dsyrup.Clause.Meaning.{holds, elem}
use dsyrup.Trail.{l_undef, Trail, value, unchecked_enqueue, decision_level}
use dsyrup.Trail.Invariant.{IsTrail, unchecked_enqueue-IsTrail}
use dsyrup.Propagate.{Watcher}
use dsyrup.Propagate.Bin.{Agrees}
use dsyrup.Propagate.Long.{IsModel}
use dsyrup.Attach.{Solver, reduce, add_clause}
use dsyrup.Attach.Reduce.{is_ascending, Reduced, reduce-satisfies}
use dsyrup.Attach.Meaning.{add_clause-IsModel}
use dsyrup.Attach.State.{IsSort, IsSolver, add_clause-IsSolver}

abbrev insert : ℕ → List ℕ → List ℕ
insert x [] = x ∷ []
insert x (y ∷ ys) = let rest = insert x ys in if leb x y then x ∷ y ∷ ys else y ∷ rest

abbrev sorted : List ℕ → List ℕ
sorted [] = []
sorted (x ∷ xs) = insert x (sorted xs)

elem-insert : (x l : ℕ) (ys : List ℕ) → elem l (insert x ys) ≡ (l == x) || elem l ys
elem-insert x l [] = refl
elem-insert x l (y ∷ ys) = ground (arith, elem-insert x l ys)

insert-ascending :
    (b x : ℕ) (ys : List ℕ)
    → leb b x ≡ true
    → is_ascending b ys ≡ true
    → is_ascending b (insert x ys) ≡ true
insert-ascending b x [] h k = ground arith
insert-ascending b x (y ∷ ys) h k = elim (Bool-cases (leb x y)) [
  | inl here ↦ rw here (ground arith)
  | inr there ↦
      let rest = insert-ascending y x ys (ground arith) (ground arith) in rw there (ground arith)
]

elem-sorted : (ps : List ℕ) (l : ℕ) → elem l (sorted ps) ≡ elem l ps
elem-sorted [] l = refl
elem-sorted (p ∷ ps) l = ground (arith, elem-insert p l (sorted ps), elem-sorted ps l)

sorted-ascending : (ps : List ℕ) → is_ascending 0 (sorted ps) ≡ true
sorted-ascending [] = refl
sorted-ascending (p ∷ ps) = insert-ascending 0 p (sorted ps) (ground arith) (sorted-ascending ps)

sorted-IsSort : IsSort sorted
sorted-IsSort = record { elem-sort = elem-sorted; ascending = sorted-ascending }

abbrev no_lists : OccLists Watcher
no_lists = record { occs = λ q. []; dirty = λ q. false; dirties = [] }

abbrev fresh : Trail
fresh = record {
  assigns = λ v. l_undef;
  reason = λ v. none;
  level = λ v. 0;
  trail = [];
  trail_lim = [];
  qhead = 0;
}

fresh-IsTrail : IsTrail fresh
fresh-IsTrail = record {
  literals = refl;
  covered = λ v e. cc;
  once = refl;
  levelled = refl;
  limits = refl;
  queue = omega arith;
}

abbrev solver : Solver
solver = record {
  is_ok = true;
  clauses = [];
  store = record {
    ca = λ cr. [];
    marked = λ cr. false;
    one_watched = λ cr. false;
    watches = no_lists;
    watches_bin = no_lists;
    unary_watches = no_lists;
  };
  trail = unchecked_enqueue 0 none fresh;
}

refused : false ≡ true → ⊥
refused e = cc

solver-IsSolver : IsSolver 4 solver
unfolding unchecked_enqueue value
solver-IsSolver = record {
  is_store = record {
    good = λ q cr h. absurd (refused h);
    two = λ q cr h. refl;
    single = λ q. refl;
    binary = λ q. refl;
  };
  is_trail = (unchecked_enqueue-IsTrail 0 none fresh refl fresh-IsTrail).1;
  range = refl;
}

-- Variables 0 and 2 are true.
abbrev two_true : ℕ → Bool
two_true v = if v == 0 then true else v == 2

two_true-Agrees : Agrees two_true solver.trail
unfolding unchecked_enqueue value holds
two_true-Agrees = (
  (λ l h. elim (Bool-cases (0 == l / 2)) [
    | inl here ↦ elim (Bool-cases (l == 0)) [
      | inl e ↦ let at : l ≡ 0 = ground arith in rw at refl
      | inr e ↦ let at : l ≡ 1 = ground arith in absurd (refused (rw at at h))
    ]
    | inr other ↦ absurd (refused (rw other at h))
  ]),
  refl,
)

reduce-satisfies_example :
    Reduced two_true solver.trail
      (1 ∷ 2 ∷ 4 ∷ 4 ∷ 6 ∷ [])
      (reduce solver.trail none (1 ∷ 2 ∷ 4 ∷ 4 ∷ 6 ∷ []))
reduce-satisfies_example =
    reduce-satisfies two_true solver.trail (1 ∷ 2 ∷ 4 ∷ 4 ∷ 6 ∷ []) two_true-Agrees refl

left_over : reduce solver.trail none (1 ∷ 2 ∷ 4 ∷ 4 ∷ 6 ∷ []) ≡ some (2 ∷ 4 ∷ 6 ∷ [])
unfolding reduce value unchecked_enqueue negate
left_over = refl

at_root : decision_level solver.trail ≡ 0
unfolding unchecked_enqueue
at_root = refl

add_clause-IsSolver_example :
    (r : Bool × Solver) × (add_clause sorted 5 0 (6 ∷ 2 ∷ 1 ∷ 4 ∷ []) solver ≡ some r)
    × IsSolver 4 r.1
add_clause-IsSolver_example =
    add_clause-IsSolver sorted 4 5 0 (6 ∷ 2 ∷ 1 ∷ 4 ∷ []) solver sorted-IsSort (λ q. refl) refl
      (ground arith) at_root solver-IsSolver

two_true-IsModel : IsModel two_true (λ cr. false) solver.store solver.trail
two_true-IsModel = record {
  satisfied = λ cr h. absurd (refused h);
  lives = λ q. refl;
  agrees = two_true-Agrees;
  pairs = λ q. refl;
}

add_clause-IsModel_example :
    (r : Bool × Solver) × (add_clause sorted 5 0 (6 ∷ 2 ∷ 1 ∷ 4 ∷ []) solver ≡ some r)
    × (r.0 ≡ true)
    × (live' : ℕ → Bool) × ((c : ℕ) → false ≡ true → live' c ≡ true)
    × IsModel two_true live' r.1.store r.1.trail
unfolding holds
add_clause-IsModel_example =
    add_clause-IsModel sorted two_true (λ cr. false) 4 5 0 (6 ∷ 2 ∷ 1 ∷ 4 ∷ []) solver sorted-IsSort
      refl (ground arith) at_root solver-IsSolver refl two_true-IsModel refl
