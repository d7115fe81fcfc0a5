-- ===== src/Final/Tests.antt =====
-- A decision and a literal that it implies by a binary clause.
use dsyrup.Base.{
  ℕ, ◌≡◌, refl, Bool, true, false, none, some, List, [], ◌∷◌, arith, ◌==◌, Bool-cases, inl, inr,
}
use dsyrup.Literal.{negate}
use dsyrup.Clause.Meaning.{holds, satisfies, elem}
use dsyrup.Trail.{l_undef, Trail, value, new_decision_level, unchecked_enqueue}
use dsyrup.Trail.Invariant.{IsTrail, unchecked_enqueue-IsTrail, new_decision_level-IsTrail}
use dsyrup.Final.{explain_all, analyze_final}
use dsyrup.Final.Sound.{Facts, analyze_final-holds}
use dsyrup.Final.Marks.{IsReason, Explained, Supported}

abbrev fresh : Trail
fresh = record {
  assigns = λ v. l_undef;
  reason = λ v. none;
  level = λ v. 0;
  trail = [];
  trail_lim = [];
  qhead = 0;
}

fresh-IsTrail : IsTrail fresh
fresh-IsTrail = record {
  literals = refl;
  covered = λ v e. cc;
  once = refl;
  levelled = refl;
  limits = refl;
  queue = omega arith;
}

abbrev decided : Trail
decided = unchecked_enqueue 0 none (new_decision_level fresh)

-- Clause 0 is 2 1.
abbrev clauses : ℕ → List ℕ
clauses cr = 2 ∷ 1 ∷ []

abbrev implied : Trail
implied = unchecked_enqueue 2 (some 0) decided

implied-IsTrail : IsTrail implied
unfolding unchecked_enqueue value
implied-IsTrail =
    (unchecked_enqueue-IsTrail 2 (some 0) decided refl
      (unchecked_enqueue-IsTrail 0 none (new_decision_level fresh) refl
        (new_decision_level-IsTrail fresh fresh-IsTrail)).1).1

refused : false ≡ true → ⊥
refused e = cc

two_one-IsReason : IsReason 2 (0 ∷ []) (2 ∷ 1 ∷ [])
unfolding negate
two_one-IsReason = record {
  inside = refl;
  others = λ k e d. let here : k ≡ 1 = ground arith in rw here refl;
  placed = λ x ls e long. ground arith;
}

implied-Explained : Explained clauses implied implied.trail
unfolding unchecked_enqueue
implied-Explained = ((λ cr e. two_one-IsReason), ((λ cr e. cc), tt))

abbrev all_true : ℕ → Bool
all_true v = true

implied-Supported : Supported clauses implied all_true implied.trail
unfolding unchecked_enqueue holds
implied-Supported = ((λ cr e. refl), ((λ cr e. refl), tt))

implied-Facts : Facts clauses implied all_true implied.trail
unfolding unchecked_enqueue
implied-Facts l e low = elim (Bool-cases (l == 2)) [
  | inl here ↦ let same : l ≡ 2 = ground arith in let bad : true ≡ false = rw same at low in cc
  | inr other ↦ let same : l ≡ 0 = ground arith in let bad : true ≡ false = rw same at low in cc
]

is_assigned : elem 2 implied.trail ≡ true
unfolding unchecked_enqueue
is_assigned = refl

analyze_final-holds_example :
    satisfies all_true (analyze_final clauses implied (λ v. false) 2).0 ≡ true
analyze_final-holds_example =
    analyze_final-holds clauses implied all_true (λ v. false) 2 implied-IsTrail implied-Explained
      implied-Supported implied-Facts is_assigned

final_clause : (analyze_final clauses implied (λ v. false) 2).0 ≡ 2 ∷ 1 ∷ []
unfolding analyze_final explain_all unchecked_enqueue negate
final_clause = refl
