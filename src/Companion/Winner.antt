-- ===== src/Companion/Winner.antt =====
-- SharedCompanion::solutionFound: one solver of the worker wins, and all are told to stop.
use dsyrup.Base.{
  ℕ, zero, suc, ◌<◌, ◌≡◌, refl, true, false, some, List, [], ◌∷◌, arith, if◌then◌else◌, ◌==◌,
  length, get_elem?, set, map,
}
use dsyrup.Companion.{
  Companion, solution_found, solution_found_state, solution_found_by_another_state, all_final,
  get_all_end_search_is_finished, is_final,
}

all_final-stopped :
    (flags : List ℕ) → all_final (map (λ flag. solution_found_by_another_state) flags) ≡ true
all_final-stopped [] = refl
all_final-stopped (x ∷ flags) = all_final-stopped flags

all_final-set :
    (flags : List ℕ) (i x : ℕ)
    → is_final x ≡ true
    → all_final flags ≡ true
    → all_final (set flags i x) ≡ true
all_final-set [] i x h a = refl
all_final-set (y ∷ flags) zero x h a = ground arith
all_final-set (y ∷ flags) (suc i) x h a = ground (arith, all_final-set flags i x h)

flag_of_others :
    (flags : List ℕ) (j y : ℕ) → j < length flags → get_elem? (map (λ flag. y) flags) j ≡ some y
flag_of_others [] j y h = absurd (omega arith)
flag_of_others (z ∷ flags) zero y h = refl
flag_of_others (z ∷ flags) (suc j) y h = flag_of_others flags j y (omega arith)

flag_of :
    (flags : List ℕ) (i j x y : ℕ)
    → j < length flags
    → get_elem? (set (map (λ flag. y) flags) i x) j ≡ some (if i == j then x else y)
flag_of [] i j x y h = absurd (omega arith)
flag_of (z ∷ flags) zero zero x y h = ground arith
flag_of (z ∷ flags) zero (suc j) x y h = ground (arith, flag_of_others flags j y (omega arith))
flag_of (z ∷ flags) (suc i) zero x y h = ground arith
flag_of (z ∷ flags) (suc i) (suc j) x y h = ground (arith, flag_of flags i j x y (omega arith))

-- The first solver to call `solutionFound` is told that it won; from then on the search of every
-- solver counts as ended, its own flag being SOLUTION_FOUND_STATE and those of the others
-- SOLUTION_FOUND_BY_ANOTHER_STATE.
pub solution_found-stops :
    (c : Companion) (sn j : ℕ)
    → c.solution ≡ false
    → j < length c.end_search
    → ((solution_found c sn).1 ≡ true)
      × (get_all_end_search_is_finished (solution_found c sn).0 ≡ true)
      × (get_elem? (solution_found c sn).0.end_search j
          ≡ some (if sn == j then solution_found_state else solution_found_by_another_state))
unfolding solution_found
solution_found-stops c sn j open_yet h =
    let flags = map (λ flag. solution_found_by_another_state) c.end_search in
    rw open_yet (
      refl,
      all_final-set flags sn solution_found_state refl (all_final-stopped c.end_search),
      flag_of c.end_search sn j solution_found_state solution_found_by_another_state h,
    )
