-- ===== src/Analyze/Whole.antt =====
-- Solver::analyze of Solvers/SAT/GlucoseSyrup/syrup/core/Solver.cc as a whole, from the conflict to the
-- level to go back to. Activities and statistics are left out; INCREMENTAL is not defined, so that
-- computeLBD counts the levels of all literals.
use mathlib.Core.List.{reverse}
use dsyrup.Base.{
  ℕ, suc, ◌+◌, Bool, not, ◌&&◌, Option, some, List, ◌∷◌, ◌++◌, if◌then◌else◌, leb, length, ◌>>=◌,
}
use dsyrup.Literal.{negate}
use dsyrup.Trail.{Trail}
use dsyrup.Propagate.{Watcher}
use dsyrup.Lbd.{compute_lbd}
use dsyrup.Analyze.{analyze_conflict, learnt_clause, find_btlevel}
use dsyrup.Analyze.Redundant.{unmark, minimise}
use dsyrup.Analyze.Binary.{minimise_binary}

-- `ccmin_mode`, `incremental`, `lbSizeMinimizingClause` and `lbLBDMinimizingClause`
pub record Options : Type 0 where
  pub ccmin_mode : ℕ
  pub incremental : Bool
  pub lb_size : ℕ
  pub lb_lbd : ℕ

-- `out_learnt`, `out_btlevel` and `lbd`, the clauses, `seen`, and MYFLAG with `permDiff`
pub record Analysis : Type 0 where
  pub learnt : List ℕ
  pub btlevel : ℕ
  pub lbd : ℕ
  pub ca : ℕ → List ℕ
  pub seen : ℕ → Bool
  pub stamps : ℕ × (ℕ → ℕ)

module _ (options : Options) (t : Trail) (is_selector : ℕ → Bool) (watches_bin : ℕ → List Watcher)
    (counts : ℕ → Bool) where
  -- The call of minimisationWithBinaryResolution on the clause of `first` and the others.
  unfoldable pub shorten : ℕ → List ℕ → ℕ × (ℕ → ℕ) → Option (List ℕ × ℕ × (ℕ → ℕ))
  unfolding minimise_binary
  shorten first ls stamps =
      if not options.incremental && leb (suc (length ls)) options.lb_size
      then minimise_binary options.lb_lbd t (watches_bin (negate first)) first ls stamps
      else some (ls, stamps.0, stamps.1)

  unfoldable pub analyze : (ℕ → List ℕ) → ℕ → ℕ × (ℕ → ℕ) → Option Analysis
  unfolding analyze_conflict minimise shorten find_btlevel compute_lbd
  analyze ca confl stamps = do
    (p, ca', stamps', s) ← analyze_conflict t is_selector counts ca confl stamps
    (kept, m) ←
        minimise options.ccmin_mode (length t.trail + 2) t (s.out ++ s.selectors)
          (record { ca = ca'; seen = s.seen; to_clear = reverse (learnt_clause p s) })
    (lits, flag, perm) ← shorten (negate p) kept stamps'
    (lbd, flag', perm') ←
        some (compute_lbd t.level (find_btlevel t.level (negate p ∷ lits)).0 (flag, perm))
    some (record {
      learnt = (find_btlevel t.level (negate p ∷ lits)).0;
      btlevel = (find_btlevel t.level (negate p ∷ lits)).1;
      lbd = lbd;
      ca = m.ca;
      seen = unmark s.selectors (unmark m.to_clear m.seen);
      stamps = (flag', perm');
    })
