-- ===== src/Analyze/Redundant.antt =====
-- Solver::litRedundant of Solvers/SAT/GlucoseSyrup/syrup/core/Solver.cc, and the step of analyze that
-- minimises the learnt clause, for each value of ccmin_mode. Vectors that are used as stacks have
-- their last element first.
use dsyrup.Base.{
  ℕ, zero, suc, ◌%◌, Bool, true, false, not, ◌&&◌, ◌||◌, Option, none, some, List, [], ◌∷◌, ◌++◌,
  if◌then◌else◌, ◌==◌, ltb, ◌>>=◌,
}
use dsyrup.Literal.{var}
use dsyrup.Clause.{put}
use dsyrup.Trail.{Trail}
use dsyrup.Analyze.{true_first, is_misplaced, after_first, minimise_local}

-- The bits of `abstract_level`, of which `abstractLevel` sets one.
abbrev pub abstract_levels : (ℕ → ℕ) → List ℕ → ℕ → Bool
abstract_levels level [] i = false
abstract_levels level (l ∷ ls) i = (level (var l) % 32 == i) || abstract_levels level ls i

-- `seen`, and what `analyze_toclear` has gained since `top`
pub record Marks : Type 0 where
  pub seen : ℕ → Bool
  pub pushed : List ℕ

-- The clauses, `seen` and `analyze_toclear`
pub record Minimising : Type 0 where
  pub ca : ℕ → List ℕ
  pub seen : ℕ → Bool
  pub to_clear : List ℕ

abbrev pub has_reason : Option ℕ → Bool
has_reason none = false
has_reason (some cr) = true

abbrev pub push_mark : ℕ → Marks → Marks
push_mark p m = record m { seen = put (var p) true m.seen; pushed = p ∷ m.pushed }

-- The reset of the literals pushed since `top`.
abbrev pub unmark : List ℕ → (ℕ → Bool) → ℕ → Bool
unmark [] seen = seen
unmark (l ∷ ls) seen = put (var l) false (unmark ls seen)

module _ (t : Trail) (abstract_level : ℕ → Bool) where
  -- The loop over the literals of a reason after the first: false if it meets one that cannot be removed.
  unfoldable pub push_others : List ℕ → List ℕ → Marks → Bool × List ℕ × Marks
  push_others [] stack m = (true, stack, m)
  push_others (p ∷ ps) stack m =
      let next = push_others ps stack m in
      let deeper = push_others ps (p ∷ stack) (push_mark p m) in
      if m.seen (var p) || not (ltb 0 (t.level (var p)))
      then next
      else if has_reason (t.reason (var p)) && abstract_level (t.level (var p) % 32)
      then deeper
      else (false, stack, m)

  -- The loop while `analyze_stack` has elements.
  unfoldable pub search : ℕ → (ℕ → List ℕ) → List ℕ → Marks → Option (Bool × (ℕ → List ℕ) × Marks)
  unfolding push_others
  search zero ca stack m = none
  search (suc fuel) ca [] m = some (true, ca, m)
  search (suc fuel) ca (p ∷ stack) m = elim (t.reason (var p)) [
    | none ↦ none
    | some cr ↦
        let c = true_first t (ca cr) in
        let r = push_others (after_first c) stack m in
        let rest = search fuel (put cr c ca) r.1 r.2 in
        if is_misplaced t (ca cr)
        then none
        else if r.0
        then rest
        else some (false, put cr c ca, r.2)
  ]

  unfoldable pub lit_redundant : ℕ → ℕ → Minimising → Option (Bool × Minimising)
  unfolding search
  lit_redundant fuel p s = do
    (b, ca, m) ← search fuel s.ca (p ∷ []) (record { seen = s.seen; pushed = [] })
    some (
      b,
      record {
        ca = ca;
        seen = if b then m.seen else unmark m.pushed m.seen;
        to_clear = if b then m.pushed ++ s.to_clear else s.to_clear;
      },
    )

  -- Whether a literal of the clause is removed.
  abbrev pub judge : ℕ → ℕ → Minimising → Option (Bool × Minimising)
  judge fuel l s = if has_reason (t.reason (var l)) then lit_redundant fuel l s else some (false, s)

  -- The loop over the clause from index 1 on, for `ccmin_mode == 2`.
  unfoldable pub minimise_deep : ℕ → List ℕ → Minimising → Option (List ℕ × Minimising)
  unfolding lit_redundant
  minimise_deep fuel [] s = some ([], s)
  minimise_deep fuel (l ∷ ls) s = do
    (b, s1) ← judge fuel l s
    (kept, s2) ← minimise_deep fuel ls s1
    some (if b then kept else l ∷ kept, s2)

-- The literals of the clause from index 1 on that are left.
unfoldable pub minimise : ℕ → ℕ → Trail → List ℕ → Minimising → Option (List ℕ × Minimising)
unfolding minimise_deep minimise_local
minimise mode fuel t lits s =
    if mode == 2
    then minimise_deep t (abstract_levels t.level lits) fuel lits s
    else some (if mode == 1 then minimise_local s.ca t s.seen lits else lits, s)
