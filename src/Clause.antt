-- ===== src/Clause.antt =====
-- Solvers/SAT/GlucoseSyrup/syrup/core/SolverTypes.h: what the solver and its preprocessing ask of
-- clauses (`Clause`), and the lists of occurrences with lazy deletion (`OccLists`). A clause is the
-- list of its literals with the word `abstraction()`, which stands as the set of its 32 bits. The
-- assertions on the other fields of the header hold for the clauses of the formula, to which these
-- functions are applied. `remove` of mtl/Alg.h is a parameter.
pub mod Meaning
pub mod Mask
pub mod Subsume
pub mod Occurrences
mod Tests
use dsyrup.Base.{
  ℕ, zero, suc, ◌+◌, ◌/◌, ◌%◌, Bool, true, false, not, ◌&&◌, ◌||◌, Option, none, some, List, [],
  ◌∷◌, ◌++◌, if◌then◌else◌, ◌==◌, ltb, length, ◌>>=◌,
}
use dsyrup.Literal.{var, negate}

pub record Clause : Type 0 where
  pub lits : List ℕ
  pub abstraction : ℕ → Bool

-- Bit `i` of the union of `1 << (var(l) & 31)` over the literals.
abbrev pub mask : List ℕ → ℕ → Bool
mask [] i = false
mask (l ∷ ls) i = (var l % 32 == i) || mask ls i

-- `calcAbstraction`
abbrev pub calc_abstraction : Clause → Clause
calc_abstraction c = record c { abstraction = mask c.lits }

-- Whether `a & ~b` is 0 in the bits below `n`.
abbrev pub is_inside : ℕ → (ℕ → Bool) → (ℕ → Bool) → Bool
is_inside zero a b = true
is_inside (suc n) a b = not (a n && not (b n)) && is_inside n a b

-- The result of `subsumes`: lit_Error, lit_Undef, or a literal.
pub data Subsumption : Type 0 where
  unrelated : Subsumption
  subsuming : Subsumption
  resolving : ℕ → Subsumption

abbrev pub is_none : Option ℕ → Bool
is_none none = true
is_none (some p) = false

-- The inner loop: the literal is found in the other clause, or its negation is, for the first time;
-- the new value of `ret`, or `none` when neither is found.
unfoldable pub find : Option ℕ → ℕ → List ℕ → Option (Option ℕ)
find ret l [] = none
find ret l (d ∷ ds) =
    let rest = find ret l ds in
    if l == d then some ret else if is_none ret && (l == negate d) then some (some l) else rest

-- The outer loop.
unfoldable pub find_all : Option ℕ → List ℕ → List ℕ → Option (Option ℕ)
unfolding find
find_all ret [] ds = some ret
find_all ret (l ∷ ls) ds = find ret l ds >>= λ ret'. find_all ret' ls ds

abbrev pub result : Option (Option ℕ) → Subsumption
result none = unrelated
result (some none) = subsuming
result (some (some p)) = resolving p

-- `Clause::subsumes`
unfoldable pub subsumes : Clause → Clause → Subsumption
unfolding find_all
subsumes c d =
    if ltb (length d.lits) (length c.lits) || not (is_inside 32 c.abstraction d.abstraction)
    then unrelated
    else result (find_all none c.lits d.lits)

-- `Clause::strengthen`, where `remove` is that of mtl/Alg.h
abbrev pub strengthen : (List ℕ → ℕ → List ℕ) → Clause → ℕ → Clause
strengthen remove c p = calc_abstraction (record c { lits = remove c.lits p })

-- `OccLists`: the lists by index, whether each may hold deleted elements, and the indices for which
-- that was noted.
pub record OccLists (A : Type 0) : Type 0 where
  pub occs : ℕ → List A
  pub dirty : ℕ → Bool
  pub dirties : List ℕ

abbrev pub put {ℓ} : {A : Type ℓ} → ℕ → A → (ℕ → A) → ℕ → A
put i a f j = if i == j then a else f j

module _ {A : Type 0} where
  -- the copying loop of `clean`
  unfoldable pub sweep : (A → Bool) → List A → List A
  sweep deleted [] = []
  sweep deleted (x ∷ xs) = let rest = sweep deleted xs in if deleted x then rest else x ∷ rest

  unfoldable pub clean : (A → Bool) → ℕ → OccLists A → OccLists A
  unfolding sweep
  clean deleted i o = record o {
    occs = put i (sweep deleted (o.occs i)) o.occs;
    dirty = put i false o.dirty;
  }

  -- the loop of `cleanAll`
  unfoldable pub clean_each : (A → Bool) → List ℕ → OccLists A → OccLists A
  unfolding clean
  clean_each deleted [] o = o
  clean_each deleted (i ∷ is) o = clean_each deleted is (if o.dirty i then clean deleted i o else o)

  unfoldable pub clean_all : (A → Bool) → OccLists A → OccLists A
  unfolding clean_each
  clean_all deleted o = record (clean_each deleted o.dirties o) { dirties = [] }

  unfoldable pub smudge : ℕ → OccLists A → OccLists A
  smudge i o =
      if o.dirty i
      then o
      else record o { dirty = put i true o.dirty; dirties = o.dirties ++ i ∷ [] }

  -- `lookup`: the list, and what is left of the lists
  unfoldable pub lookup : (A → Bool) → ℕ → OccLists A → List A × OccLists A
  unfolding clean
  lookup deleted i o = let o' = if o.dirty i then clean deleted i o else o in (o'.occs i, o')
