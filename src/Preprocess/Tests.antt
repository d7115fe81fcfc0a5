-- ===== src/Preprocess/Tests.antt =====
-- The count for variable 0 in the clauses (0 or 1) and (-0 or 2).
use dsyrup.Base.{◌≤◌, ◌≡◌, refl, true, some, [], ◌∷◌, length}
use dsyrup.Simp.{merge_size, resolvents}
use dsyrup.Preprocess.{count_resolvents}
use dsyrup.Preprocess.Limits.{none_exceeds, count_resolvents-bounds}

counted : count_resolvents (some 2) 2 0 ((0 ∷ 2 ∷ []) ∷ []) ((1 ∷ 4 ∷ []) ∷ []) 0 ≡ some 1
unfolding count_resolvents merge_size
counted = refl

count_resolvents-bounds_example :
    (1 ≡ length (resolvents 0 ((0 ∷ 2 ∷ []) ∷ []) ((1 ∷ 4 ∷ []) ∷ [])))
    × (length (resolvents 0 ((0 ∷ 2 ∷ []) ∷ []) ((1 ∷ 4 ∷ []) ∷ [])) ≤ 2)
    × (none_exceeds (some 2) (resolvents 0 ((0 ∷ 2 ∷ []) ∷ []) ((1 ∷ 4 ∷ []) ∷ [])) ≡ true)
count_resolvents-bounds_example =
    count_resolvents-bounds (some 2) 2 0 1 ((0 ∷ 2 ∷ []) ∷ []) ((1 ∷ 4 ∷ []) ∷ []) (refl, tt)
      (refl, tt) counted
