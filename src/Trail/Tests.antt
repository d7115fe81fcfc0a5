-- ===== src/Trail/Tests.antt =====
-- A trail of two literals, and a heap of variables as the gaps between them in ascending order.
use dsyrup.Base.{
  ℕ, suc, ◌+◌, ◌-◌, ◌<◌, ◌≡◌, refl, Bool, true, false, not, ◌&&◌, ◌||◌, none, some, List, [], ◌∷◌,
  arith, if◌then◌else◌, ◌==◌, ltb, length, get_or, Bool-cases, inl, inr,
}
use dsyrup.Trail.{
  l_undef, is_true, is_undef, Trail, value, decision_level, new_decision_level, unchecked_enqueue,
  Heap, Order, cancel_until,
}
use dsyrup.Trail.Decide.{Choice, Descent, pick_branch_lit}
use dsyrup.Trail.Invariant.{IsTrail, unchecked_enqueue-IsTrail, new_decision_level-IsTrail}
use dsyrup.Trail.Cancel.{cancel_until-assigns}
use dsyrup.Trail.Keeps.{cancel_until-IsTrail}
use dsyrup.Trail.Chosen.{IsAnswer, pick_branch_lit-IsAnswer}
use dsyrup.Trail.Ordered.{IsHeap, IsOrdered, cancel_until-IsOrdered}

abbrev is_in : List ℕ → ℕ → Bool
is_in [] y = false
is_in (g ∷ gs) y = (g == y) || (ltb g y && is_in gs (y - suc g))

abbrev add : ℕ → List ℕ → List ℕ
add x [] = x ∷ []
add x (g ∷ gs) =
    let rest = add (x - suc g) gs in
    if ltb x g then x ∷ (g - suc x) ∷ gs else if x == g then g ∷ gs else g ∷ rest

abbrev widen : ℕ → List ℕ → List ℕ
widen n [] = []
widen n (g ∷ gs) = (g + n) ∷ gs

abbrev take_min : List ℕ → ℕ × List ℕ
take_min [] = (0, [])
take_min (g ∷ gs) = (g, widen (suc g) gs)

abbrev gaps : Heap (List ℕ)
gaps = record {
  size = λ h. length h;
  in_heap = is_in;
  insert = add;
  element = λ h i. get_or h i 0;
  remove_min = take_min;
}

is_in-add : (x y : ℕ) (h : List ℕ) → is_in h x ≡ false → is_in (add x h) y ≡ (x == y) || is_in h y
is_in-add x y [] out = ground arith
is_in-add x y (g ∷ gs) out =
    let rest = is_in-add (x - suc g) (y - suc g) gs in
    elim (Bool-cases (ltb x g)) [
      | inl low ↦ rw low (elim (Bool-cases (ltb x y)) [
        | inl above ↦
            let less : x < g = ground arith in
            let shift : y - suc x - suc (g - suc x) ≡ y - suc g = omega arith in
            rw shift (ground arith)
        | inr below ↦ ground arith
      ])
      | inr high ↦ elim (Bool-cases (x == g)) [
        | inl same ↦ ground arith
        | inr other ↦
            let inner : is_in gs (x - suc g) ≡ false = ground arith in
            let step = rest inner in rw (high, other) (ground arith)
      ]
    ]

is_in-widen : (n y : ℕ) (h : List ℕ) → is_in (widen n h) y ≡ not (ltb y n) && is_in h (y - n)
is_in-widen n y [] = ground arith
is_in-widen n y (g ∷ gs) = elim (Bool-cases (ltb y n)) [
  | inl low ↦ ground arith
  | inr high ↦ let shift : y - suc (g + n) ≡ y - n - suc g = omega arith in rw shift (ground arith)
]

gaps-IsHeap : IsHeap gaps
gaps-IsHeap = record {
  in_heap-insert = is_in-add;
  in_heap-remove_min = smaller;
  size-remove_min = shorter;
  empty = λ h y e. nothing h y e;
}
  where
    smaller :
        (y : ℕ) (h : List ℕ)
        → (length h == 0) ≡ false
        → is_in (take_min h).1 y ≡ not ((take_min h).0 == y) && is_in h y
    smaller y [] e = cc
    smaller y (g ∷ gs) e = ground (arith, is_in-widen (suc g) y gs)

    shorter : (h : List ℕ) → (length h == 0) ≡ false → suc (length (take_min h).1) ≡ length h
    shorter [] e = cc
    shorter (g ∷ []) e = refl
    shorter (g ∷ k ∷ gs) e = refl

    nothing : (h : List ℕ) (y : ℕ) → (length h == 0) ≡ true → is_in h y ≡ false
    nothing [] y e = refl
    nothing (g ∷ gs) y e = ground arith

abbrev fresh : Trail
fresh = record {
  assigns = λ v. l_undef;
  reason = λ v. none;
  level = λ v. 0;
  trail = [];
  trail_lim = [];
  qhead = 0;
}

fresh-IsTrail : IsTrail fresh
fresh-IsTrail = record {
  literals = refl;
  covered = λ v e. cc;
  once = refl;
  levelled = refl;
  limits = refl;
  queue = omega arith;
}

-- Variable 0 is true at level 0, and variable 1 false at level 1.
abbrev unit : Trail
unit = unchecked_enqueue 0 none fresh

abbrev decided : Trail
decided = unchecked_enqueue 3 none (new_decision_level unit)

enqueued-IsTrail : (is_true (value unit 0) ≡ true) × IsTrail unit
unfolding value
enqueued-IsTrail = unchecked_enqueue-IsTrail 0 none fresh refl fresh-IsTrail

decided-IsTrail : IsTrail decided
unfolding unchecked_enqueue value
decided-IsTrail =
    (unchecked_enqueue-IsTrail 3 none (new_decision_level unit) refl
      (new_decision_level-IsTrail unit enqueued-IsTrail.1)).1

-- Variables 0, 1 and 2 are decision variables, and 2 alone is in the heap.
abbrev order : Order (List ℕ)
order = record {
  polarity = λ v. false;
  decision = λ v. ltb v 3;
  order_heap = 2 ∷ [];
  current_dec = some 1;
  phase_saving = 2;
  useful_var = λ v. 0;
  variables_dec = λ v. 0;
  dec_vars = 3;
  rnd_decisions = 0;
}

order-IsOrdered : IsOrdered gaps decided order
unfolding unchecked_enqueue
order-IsOrdered v u d = elim (Bool-cases (v == 2)) [
  | inl here ↦ let e : v ≡ 2 = ground arith in rw e refl
  | inr other ↦ elim (Bool-cases (v == 1)) [
    | inl one ↦
        let e : v ≡ 1 = ground arith in
        let bad : is_undef (decided.assigns 1) ≡ true = rw e at u in cc
    | inr zero_left ↦
        let e : v ≡ 0 = ground arith in
        let bad : is_undef (decided.assigns 0) ≡ true = rw e at u in cc
  ]
]

cancel_until-assigns_example : (cancel_until gaps 0 (decided, order)).0.assigns 1 ≡ (
    if ltb 0 (decision_level decided) && ltb 0 (decided.level 1)
    then l_undef
    else decided.assigns 1)
cancel_until-assigns_example = cancel_until-assigns gaps 0 decided order 1 decided-IsTrail

freed : (cancel_until gaps 0 (decided, order)).0.assigns 1 ≡ l_undef
unfolding unchecked_enqueue
freed = cancel_until-assigns gaps 0 decided order 1 decided-IsTrail

cancel_until-IsTrail_example :
    (decision_level (cancel_until gaps 0 (decided, order)).0 ≡ 0)
    × ((cancel_until gaps 0 (decided, order)).0.qhead
        ≡ length (cancel_until gaps 0 (decided, order)).0.trail)
    × IsTrail (cancel_until gaps 0 (decided, order)).0
unfolding unchecked_enqueue
cancel_until-IsTrail_example =
    cancel_until-IsTrail gaps 0 decided order (omega arith) decided-IsTrail

cancel_until-IsOrdered_example :
    IsOrdered gaps (cancel_until gaps 0 (decided, order)).0 (cancel_until gaps 0 (decided, order)).1
cancel_until-IsOrdered_example =
    cancel_until-IsOrdered gaps gaps-IsHeap 0 decided order order-IsOrdered

abbrev plain : Descent
plain = record {
  randomize_on_restarts = false;
  fixed_randomize_on_restarts = false;
  new_descent = false;
  random_descent_assignments = 0;
  rnd_pol = none;
}

pick_branch_lit-IsAnswer_example :
    (r : Choice × Order (List ℕ)) × (pick_branch_lit gaps 2 none plain decided order ≡ some r)
    × IsAnswer decided order.decision false r.0
pick_branch_lit-IsAnswer_example =
    pick_branch_lit-IsAnswer gaps gaps-IsHeap 2 none plain decided order order-IsOrdered
      (omega arith)
