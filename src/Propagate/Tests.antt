-- ===== src/Propagate/Tests.antt =====
-- Three clauses over four variables: the first literal implies all others.
use dsyrup.Base.{
  ℕ, ◌/◌, ◌≡◌, refl, Bool, true, false, ◌||◌, Option, none, some, List, [], ◌∷◌, arith,
  if◌then◌else◌, ◌==◌, ltb, Bool-cases, inl, inr,
}
use dsyrup.Literal.{negate}
use dsyrup.Clause.{OccLists, clean_all}
use dsyrup.Clause.Meaning.{holds}
use dsyrup.Trail.{l_true, l_undef, is_true, is_undef, Trail, value}
use dsyrup.Trail.Invariant.{IsTrail}
use dsyrup.Propagate.{Watcher, Store, watcher, propagate}
use dsyrup.Propagate.Invariant.{has, is_single, is_good, IsStore}
use dsyrup.Propagate.Long.{IsModel, are_live}
use dsyrup.Propagate.Ends.{IsEnd}
use dsyrup.Propagate.Cleaned.{propagate-IsEnd, propagate-IsModel}

abbrev lists_of : (ℕ → List Watcher) → OccLists Watcher
lists_of f = record { occs = f; dirty = λ q. false; dirties = [] }

-- 2 4 6, and in pairs 1 5 and 1 7
abbrev clauses : ℕ → List ℕ
clauses cr = if cr == 0 then 2 ∷ 4 ∷ 6 ∷ [] else if cr == 1 then 1 ∷ 5 ∷ [] else 1 ∷ 7 ∷ []

abbrev long_lists : ℕ → List Watcher
long_lists q = if q == 3 then watcher 0 4 ∷ [] else if q == 5 then watcher 0 2 ∷ [] else []

abbrev bin_lists : ℕ → List Watcher
bin_lists q =
    if q == 0
    then watcher 1 5 ∷ watcher 2 7 ∷ []
    else if q == 4
    then watcher 1 1 ∷ []
    else if q == 6
    then watcher 2 1 ∷ []
    else []

abbrev store : Store
store = record {
  ca = clauses;
  marked = λ cr. false;
  one_watched = λ cr. false;
  watches = lists_of long_lists;
  watches_bin = lists_of bin_lists;
  unary_watches = lists_of (λ q. []);
}

abbrev start : Trail
start = record {
  assigns = λ v. if v == 0 then l_true else l_undef;
  reason = λ v. none;
  level = λ v. 0;
  trail = 0 ∷ [];
  trail_lim = [];
  qhead = 0;
}

abbrev trail_of : Option (Option ℕ × Store × Trail) → List ℕ
trail_of none = []
trail_of (some (confl, b, t)) = t.trail

derived : trail_of (propagate 5 (store, start)) ≡ 2 ∷ 7 ∷ 5 ∷ 0 ∷ []
unfolding propagate value negate clean_all
derived = refl

by_list :
    (P : ℕ → List Watcher → Type 0) (q : ℕ)
    → P 3 (watcher 0 4 ∷ [])
    → P 5 (watcher 0 2 ∷ [])
    → P q []
    → P q (long_lists q)
by_list P q three five other = elim (Bool-cases (q == 3)) [
  | inl e ↦ let here : q ≡ 3 = ground arith in rw here three
  | inr e ↦ elim (Bool-cases (q == 5)) [
    | inl e5 ↦ let here : q ≡ 5 = ground arith in rw here five
    | inr e5 ↦ rw (e, e5) other
  ]
]

refused : false ≡ true → ⊥
refused e = cc

store-IsStore : IsStore 4 store
unfolding negate
store-IsStore = record {
  good = λ q cr.
      by_list (λ q ws. has cr ws ≡ true → is_good 4 q (clauses cr) ≡ true) q (first cr 3 refl)
        (first cr 5 refl) (λ h. absurd (refused h));
  two = λ q cr h. refl;
  single = λ q. by_list (λ q ws. is_single ws ≡ true) q refl refl refl;
  binary = λ q. elim (Bool-cases (q == 0)) [
    | inl e ↦ rw e refl
    | inr e ↦ elim (Bool-cases (q == 4)) [
      | inl e4 ↦ rw (e, e4) refl
      | inr e4 ↦ elim (Bool-cases (q == 6)) [
        | inl e6 ↦ rw (e, e4, e6) refl
        | inr e6 ↦ rw (e, e4, e6) refl
      ]
    ]
  ];
}
  where
    first :
        (cr q : ℕ)
        → is_good 4 q (clauses 0) ≡ true
        → ((0 == cr) || false) ≡ true
        → is_good 4 q (clauses cr) ≡ true
    first cr q g h = let here : cr ≡ 0 = ground arith in rw here g

start-IsTrail : IsTrail start
start-IsTrail = record {
  literals = refl;
  covered = λ v e. elim (Bool-cases (v == 0)) [
    | inl here ↦ ground arith
    | inr other ↦ absurd (refused (no_value v other e))
  ];
  once = refl;
  levelled = refl;
  limits = refl;
  queue = omega arith;
}
  where
    no_value : (v : ℕ) → (v == 0) ≡ false → is_undef (start.assigns v) ≡ false → false ≡ true
    no_value v other e = let free : true ≡ false = rw other at e in cc

propagate-IsEnd_example :
    (r : Option ℕ × Store × Trail) × (propagate 5 (store, start) ≡ some r) × IsEnd 4 r
propagate-IsEnd_example =
    propagate-IsEnd 4 5 store start store-IsStore start-IsTrail refl (omega arith)

-- Variables 0 and 1 are true.
abbrev two_true : ℕ → Bool
two_true v = ltb v 2

abbrev all_live : ℕ → Bool
all_live cr = ltb cr 3

from_zero : (l : ℕ) → l / 2 ≡ 0 → is_true (value start l) ≡ true → holds two_true l ≡ true
unfolding value holds
from_zero l z h = elim (Bool-cases (l == 0)) [
  | inl here ↦ let e : l ≡ 0 = ground arith in rw e refl
  | inr other ↦
      let e : l ≡ 1 = ground arith in
      let h' : is_true (value start 1) ≡ true = rw e at h in absurd (refused h')
]

two_true-IsModel : IsModel two_true all_live store start
unfolding holds negate value
two_true-IsModel = record {
  satisfied = λ cr h. elim (Bool-cases (cr == 0)) [
    | inl e ↦ rw e refl
    | inr e ↦ elim (Bool-cases (cr == 1)) [ inl e1 ↦ rw (e, e1) refl | inr e1 ↦ rw (e, e1) refl ]
  ];
  lives = λ q. by_list (λ q ws. are_live all_live ws ≡ true) q refl refl refl;
  agrees = (
    (λ l h. elim (Bool-cases (l / 2 == 0)) [
      | inl here ↦ from_zero l (ground arith) h
      | inr other ↦ absurd (refused (rw other at h))
    ]),
    refl,
  );
  pairs = λ q. elim (Bool-cases (q == 0)) [
    | inl e ↦ let here : q ≡ 0 = ground arith in rw here refl
    | inr e ↦ elim (Bool-cases (q == 4)) [
      | inl e4 ↦ let here : q ≡ 4 = ground arith in rw here refl
      | inr e4 ↦ elim (Bool-cases (q == 6)) [
        | inl e6 ↦ let here : q ≡ 6 = ground arith in rw here refl
        | inr e6 ↦ rw (e, e4, e6) refl
      ]
    ]
  ];
}

propagate-IsModel_example :
    (r : Option ℕ × Store × Trail) × (propagate 5 (store, start) ≡ some r)
    × (r.0 ≡ none)
    × IsModel two_true all_live r.1 r.2
propagate-IsModel_example =
    propagate-IsModel two_true all_live 4 5 store start store-IsStore start-IsTrail refl
      (omega arith) two_true-IsModel
