-- ===== src/Lbd/Levels.antt =====
-- computeLBD counts every level once.
use dsyrup.Base.{
  ℕ, suc, ◌+◌, ◌%◌, ◌^◌, ◌≡◌, ◌∙◌, true, false, List, [], ◌∷◌, arith, if◌then◌else◌, ◌==◌,
  Bool-cases, inl, inr,
}
use dsyrup.Literal.{var}
use dsyrup.Clause.{put}
use dsyrup.Clause.Meaning.{elem}
use dsyrup.Lbd.{count_levels, compute_lbd}

-- How many levels there are in a clause that are not among those met before.
abbrev pub n_levels : (ℕ → ℕ) → List ℕ → List ℕ → ℕ
n_levels level met [] = 0
n_levels level met (p ∷ ps) =
    let l = level (var p) in
    let new = suc (n_levels level (l ∷ met) ps) in
    let old = n_levels level met ps in if elem l met then old else new

count_levels-n_levels :
    (level : ℕ → ℕ) (flag : ℕ) (ps : List ℕ) (perm : ℕ → ℕ) (n : ℕ) (met : List ℕ)
    → ((l : ℕ) → (perm l == flag) ≡ elem l met)
    → (count_levels level flag ps perm n).0 ≡ n + n_levels level met ps
unfolding count_levels
count_levels-n_levels level flag [] perm n met h = omega arith
count_levels-n_levels level flag (p ∷ ps) perm n met h =
    let l = level (var p) in
    elim (Bool-cases (elem l met)) [
      | inl old ↦
          let stamped : (perm l == flag) ≡ true = rw (h l) old in
          rw (stamped, old) (count_levels-n_levels level flag ps perm n met h)
      | inr new ↦
          let fresh : (perm l == flag) ≡ false = rw (h l) new in
          let stamps : (k : ℕ) → (put l flag perm k == flag) ≡ elem k (l ∷ met) = λ k.
            elim (Bool-cases (l == k)) [
              | inl same ↦ rw same (ground arith)
              | inr other ↦ let differ : (k == l) ≡ false = ground arith in rw (other, differ) (h k)
            ] in
          let rest =
            count_levels-n_levels level flag ps (put l flag perm) (suc n) (l ∷ met) stamps in
          rw (fresh, new) (omega arith)
    ]

-- The count is the number of different levels of the literals, if no level has the next stamp.
pub compute_lbd-n_levels :
    (level : ℕ → ℕ) (ps : List ℕ) (flag : ℕ) (perm : ℕ → ℕ)
    → ((l : ℕ) → (perm l == (flag + 1) % 2 ^ 32) ≡ false)
    → (compute_lbd level ps (flag, perm)).0 ≡ n_levels level [] ps
unfolding compute_lbd
compute_lbd-n_levels level ps flag perm h =
    count_levels-n_levels level ((flag + 1) % 2 ^ 32) ps perm 0 [] h ∙ (omega arith)
