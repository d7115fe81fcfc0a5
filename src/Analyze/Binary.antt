-- ===== src/Analyze/Binary.antt =====
-- Solver::minimisationWithBinaryResolution of Solvers/SAT/GlucoseSyrup/syrup/core/Solver.cc: literals of the
-- learnt clause that a binary clause with its first literal resolves away. A clause is its first
-- literal and the list of the others, whose indices here count from 0. MYFLAG and permDiff are a pair,
-- as in Lbd.antt.
use dsyrup.Base.{
  ℕ, zero, suc, ◌+◌, ◌-◌, ◌%◌, ◌^◌, Bool, not, ◌&&◌, Option, none, some, List, [], ◌∷◌,
  if◌then◌else◌, ◌==◌, ltb, leb, length, take, get_or, set, ◌>>=◌,
}
use dsyrup.Literal.{var}
use dsyrup.Clause.{put}
use dsyrup.Trail.{is_true, Trail, value}
use dsyrup.Propagate.{Watcher}
use dsyrup.Lbd.{compute_lbd}

abbrev pub stamp_all : ℕ → List ℕ → (ℕ → ℕ) → ℕ → ℕ
stamp_all flag [] perm = perm
stamp_all flag (l ∷ ls) perm = stamp_all flag ls (put (var l) flag perm)

-- The loop over the binary watchers: `nb` and `permDiff`.
abbrev pub count_implied : Trail → ℕ → List Watcher → ℕ → (ℕ → ℕ) → ℕ × (ℕ → ℕ)
count_implied t flag [] nb perm = (nb, perm)
count_implied t flag (w ∷ ws) nb perm =
    let imp = w.blocker in
    let older = (flag + (2 ^ 32 - 1)) % 2 ^ 32 in
    let found = count_implied t flag ws (suc nb) (put (var imp) older perm) in
    let next = count_implied t flag ws nb perm in
    if (perm (var imp) == flag) && is_true (value t imp) then found else next

abbrev pub is_stale : ℕ → (ℕ → ℕ) → ℕ → Bool
is_stale flag perm l = not (perm (var l) == flag)

abbrev pub exchange : ℕ → ℕ → List ℕ → List ℕ
exchange i l ls = set (set ls l (get_or ls i 0)) i (get_or ls l 0)

-- The loop that exchanges the literals to remove with those at the end.
unfoldable pub gather : (ℕ → Bool) → ℕ → ℕ → ℕ → ℕ → List ℕ → Option (List ℕ)
gather stale bound zero i l ls = none
gather stale bound (suc fuel) i l ls =
    let moved = gather stale bound fuel i (l - 1) (exchange i l ls) in
    let next = gather stale bound fuel (suc i) l ls in
    if ltb i bound then (if stale (get_or ls i 0) then moved else next) else some ls

unfoldable pub minimise_binary :
    ℕ → Trail → List Watcher → ℕ → List ℕ → ℕ × (ℕ → ℕ) → Option (List ℕ × ℕ × (ℕ → ℕ))
unfolding gather compute_lbd
minimise_binary lbd_limit t wbin p ls s =
    let m = compute_lbd t.level (p ∷ ls) s in
    let flag = (m.1 + 1) % 2 ^ 32 in
    let found = count_implied t flag wbin 0 (stamp_all flag ls m.2) in
    let bound = length ls - found.0 in
    let parted = gather (is_stale flag found.1) bound (suc (length ls)) 0 (length ls - 1) ls in
    if not (leb m.0 lbd_limit)
    then some (ls, m.1, m.2)
    else if ltb 0 found.0
    then parted >>= (λ ls'. some (take bound ls', flag, found.1))
    else some (ls, flag, found.1)
