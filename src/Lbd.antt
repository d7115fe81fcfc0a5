-- ===== src/Lbd.antt =====
-- Solver::computeLBD of Solvers/SAT/GlucoseSyrup/syrup/core/Solver.cc, outside the incremental mode: the
-- number of decision levels in a clause. The array permDiff has, for a level that was met, the
-- stamp MYFLAG of the last count; MYFLAG is an unsigned int of 32 bits.
pub mod Levels
use dsyrup.Base.{ℕ, suc, ◌+◌, ◌%◌, ◌^◌, List, [], ◌∷◌, if◌then◌else◌, ◌==◌}
use dsyrup.Literal.{var}
use dsyrup.Clause.{put}

-- The loop, with `permDiff` and `nblevels`.
unfoldable pub count_levels : (ℕ → ℕ) → ℕ → List ℕ → (ℕ → ℕ) → ℕ → ℕ × (ℕ → ℕ)
count_levels level flag [] perm n = (n, perm)
count_levels level flag (p ∷ ps) perm n =
    let l = level (var p) in
    let new = count_levels level flag ps (put l flag perm) (suc n) in
    let old = count_levels level flag ps perm n in if perm l == flag then old else new

-- The count, `MYFLAG` and `permDiff`.
unfoldable pub compute_lbd : (ℕ → ℕ) → List ℕ → ℕ × (ℕ → ℕ) → ℕ × ℕ × (ℕ → ℕ)
unfolding count_levels
compute_lbd level ps (flag, perm) =
    let flag' = (flag + 1) % 2 ^ 32 in
    let (n, perm') = count_levels level flag' ps perm 0 in (n, flag', perm')
