-- ===== src/Simp/Tests.antt =====
-- Variable 0 eliminated from the clauses (0 or 1), (0 or -2), (-0 or 2), and a clause shortened.
use dsyrup.Base.{ℕ, ◌≡◌, refl, Bool, true, List, [], ◌∷◌, ◌==◌, if◌then◌else◌}
use dsyrup.Clause.Meaning.{holds}
use dsyrup.Clause.{put}
use dsyrup.Literal.{negate}
use dsyrup.Trail.{Lbool, l_true, l_undef, lift}
use dsyrup.Simp.{resolvents, store_eliminated, extend_model}
use dsyrup.Simp.Extended.{AgreesOff}
use dsyrup.Simp.Stored.{satisfies_all}
use dsyrup.Simp.Resolved.{store_eliminated-restores, resolvents-hold}

abbrev with_var : List (List ℕ)
with_var = (0 ∷ 2 ∷ []) ∷ (0 ∷ 5 ∷ []) ∷ []

abbrev with_opposite : List (List ℕ)
with_opposite = (1 ∷ 4 ∷ []) ∷ []

abbrev all_true : ℕ → Bool
all_true v = true

abbrev unset_first : ℕ → Lbool
unset_first v = if v == 0 then l_undef else l_true

unset_first-AgreesOff : AgreesOff 0 all_true unset_first
unset_first-AgreesOff u n = rw n refl

all_resolved : satisfies_all all_true (resolvents 0 with_var with_opposite) ≡ true
unfolding resolvents holds negate
all_resolved = refl

store_eliminated-restores_example :
    (b : Bool) × (extend_model (store_eliminated 0 with_var with_opposite []) unset_first
      ≡ extend_model [] (put 0 (lift b) unset_first))
    × (satisfies_all (put 0 b all_true) with_var ≡ true)
    × (satisfies_all (put 0 b all_true) with_opposite ≡ true)
store_eliminated-restores_example =
    store_eliminated-restores 0 all_true unset_first with_var with_opposite [] unset_first-AgreesOff
      ((refl, refl), ((refl, refl), tt)) ((refl, refl), tt) all_resolved

resolvents-hold_example : satisfies_all all_true (resolvents 0 with_var with_opposite) ≡ true
unfolding holds
resolvents-hold_example =
    resolvents-hold 0 all_true with_var with_opposite ((refl, refl), ((refl, refl), tt))
      ((refl, refl), tt) refl refl
