-- ===== src/Trail/Invariant.antt =====
-- The well-formed trails, and that enqueuing a literal and opening a decision level keep them so.
use dsyrup.Base.{
  ℕ, suc, ◌+◌, ◌≤◌, ◌≡◌, refl, Bool, true, false, not, ◌&&◌, ◌||◌, Option, List, [], ◌∷◌, arith,
  if◌then◌else◌, ◌==◌, leb, length, Bool-cases, inl, inr,
}
use dsyrup.Literal.{sign, var}
use dsyrup.Clause.{put}
use dsyrup.Trail.{
  Lbool, l_true, l_false, l_undef, lift, flip, is_true, is_undef, Trail, value, decision_level,
  new_decision_level, unchecked_enqueue,
}

-- Whether a variable is assigned by a literal of the list.
abbrev pub on_trail : ℕ → List ℕ → Bool
on_trail v [] = false
on_trail v (p ∷ ps) = (var p == v) || on_trail v ps

-- No variable is assigned twice.
abbrev pub is_once : List ℕ → Bool
is_once [] = true
is_once (p ∷ ps) = not (on_trail (var p) ps) && is_once ps

-- Its literals are true.
abbrev pub are_true : (ℕ → Lbool) → List ℕ → Bool
are_true assigns [] = true
are_true assigns (p ∷ ps) = is_true (flip (assigns (var p)) (sign p)) && are_true assigns ps

-- How many limits there are up to an index.
abbrev pub count_upto : List ℕ → ℕ → ℕ
count_upto [] i = 0
count_upto (m ∷ ms) i = (if leb m i then 1 else 0) + count_upto ms i

-- The level of the literal at index `i` is the number of limits up to `i`.
abbrev pub is_levelled : (ℕ → ℕ) → List ℕ → List ℕ → Bool
is_levelled level lims [] = true
is_levelled level lims (p ∷ ps) =
    (level (var p) == count_upto lims (length ps)) && is_levelled level lims ps

-- The limits are in order, and not above the bound.
abbrev pub is_descending : ℕ → List ℕ → Bool
is_descending bound [] = true
is_descending bound (m ∷ ms) = leb m bound && is_descending m ms

pub record IsTrail (t : Trail) : Type 0 where
  pub literals : are_true t.assigns t.trail ≡ true
  pub covered : (v : ℕ) → is_undef (t.assigns v) ≡ false → on_trail v t.trail ≡ true
  pub once : is_once t.trail ≡ true
  pub levelled : is_levelled t.level t.trail_lim t.trail ≡ true
  pub limits : is_descending (length t.trail) t.trail_lim ≡ true
  pub queue : t.qhead ≤ length t.trail

pub is_undef-flip : (b : Lbool) (s : Bool) → is_undef (flip b s) ≡ is_undef b
is_undef-flip l_true true = refl
is_undef-flip l_true false = refl
is_undef-flip l_false true = refl
is_undef-flip l_false false = refl
is_undef-flip l_undef s = refl

pub are_true-on_trail :
    (assigns : ℕ → Lbool) (v : ℕ) (ps : List ℕ)
    → are_true assigns ps ≡ true
    → on_trail v ps ≡ true
    → is_undef (assigns v) ≡ false
are_true-on_trail assigns v [] a h = cc
are_true-on_trail assigns v (p ∷ ps) a h = elim (Bool-cases (var p == v)) [
  | inl here ↦
      let same : var p ≡ v = ground arith in
      let now : is_true (flip (assigns (var p)) (sign p)) ≡ true = ground arith in
      one (assigns v) (sign p) (rw same at now)
  | inr there ↦ are_true-on_trail assigns v ps (ground arith) (ground arith)
]
  where
    one : (b : Lbool) (s : Bool) → is_true (flip b s) ≡ true → is_undef b ≡ false
    one l_true s e = refl
    one l_false s e = refl
    one l_undef s e = cc

pub are_true-put :
    (assigns : ℕ → Lbool) (v : ℕ) (b : Lbool) (ps : List ℕ)
    → on_trail v ps ≡ false
    → are_true (put v b assigns) ps ≡ are_true assigns ps
are_true-put assigns v b [] h = refl
are_true-put assigns v b (p ∷ ps) h =
    let other : (v == var p) ≡ false = ground arith in
    rw (other, are_true-put assigns v b ps (ground arith)) refl

is_levelled-put :
    (level : ℕ → ℕ) (v n : ℕ) (lims ps : List ℕ)
    → on_trail v ps ≡ false
    → is_levelled (put v n level) lims ps ≡ is_levelled level lims ps
is_levelled-put level v n lims [] h = refl
is_levelled-put level v n lims (p ∷ ps) h =
    let other : (v == var p) ≡ false = ground arith in
    rw (other, is_levelled-put level v n lims ps (ground arith)) refl

pub is_descending-le :
    (a b : ℕ) (lims : List ℕ) → a ≤ b → is_descending a lims ≡ true → is_descending b lims ≡ true
is_descending-le a b [] h d = refl
is_descending-le a b (m ∷ ms) h d = ground arith

-- At an index not below the last limit, all limits count.
pub count_upto-all :
    (i : ℕ) (lims : List ℕ) → is_descending i lims ≡ true → count_upto lims i ≡ length lims
count_upto-all i [] d = refl
count_upto-all i (m ∷ ms) d =
    let low : leb m i ≡ true = ground arith in
    let rest = count_upto-all i ms (is_descending-le m i ms (ground arith) (ground arith)) in
    ground arith

is_levelled-above :
    (level : ℕ → ℕ) (m : ℕ) (lims ps : List ℕ)
    → length ps ≤ m
    → is_levelled level lims ps ≡ true
    → is_levelled level (m ∷ lims) ps ≡ true
is_levelled-above level m lims [] h e = refl
is_levelled-above level m lims (p ∷ ps) h e =
    let below : leb m (length ps) ≡ false = ground arith in
    let rest = is_levelled-above level m lims ps (omega arith) (ground arith) in ground arith

true_by_lift : (s : Bool) → is_true (flip (lift (not s)) s) ≡ true
true_by_lift true = refl
true_by_lift false = refl

-- A literal that was undefined is true after it is enqueued, at the current level, and the trail
-- stays well-formed: its literals are true, each assigned variable stands on it once, with the level
-- that the limits give it.
pub unchecked_enqueue-IsTrail :
    (p : ℕ) (from : Option ℕ) (t : Trail)
    → is_undef (value t p) ≡ true
    → IsTrail t
    → (is_true (value (unchecked_enqueue p from t) p) ≡ true) × IsTrail (unchecked_enqueue p from t)
unfolding unchecked_enqueue value
unchecked_enqueue-IsTrail p from t h k =
    let undefined : is_undef (t.assigns (var p)) ≡ true =
      ground (arith, is_undef-flip (t.assigns (var p)) (sign p)) in
    let fresh : on_trail (var p) t.trail ≡ false = elim (Bool-cases (on_trail (var p) t.trail)) [
      | inl on ↦ let bad = are_true-on_trail t.assigns (var p) t.trail k.literals on in cc
      | inr off ↦ off
    ] in
    let here : (var p == var p) ≡ true = ground arith in
    let now : is_true (flip (put (var p) (lift (not (sign p))) t.assigns (var p)) (sign p)) ≡ true =
      rw here (true_by_lift (sign p)) in
    (
      now,
      record {
        literals =
            let others = are_true-put t.assigns (var p) (lift (not (sign p))) t.trail fresh in
            rw (now, others) k.literals;
        covered = λ v d. elim (Bool-cases (var p == v)) [
          | inl same ↦ ground arith
          | inr other ↦
              let before : is_undef (t.assigns v) ≡ false = rw other at d in
              ground (arith, k.covered v before)
        ];
        once = ground (arith, k.once);
        levelled =
            let others =
              is_levelled-put t.level (var p) (decision_level t) t.trail_lim t.trail fresh in
            let all = count_upto-all (length t.trail) t.trail_lim k.limits in
            let level_now : (length t.trail_lim == length t.trail_lim) ≡ true = ground arith in
            rw (here, others, all, level_now) k.levelled;
        limits =
            is_descending-le (length t.trail) (suc (length t.trail)) t.trail_lim (omega arith)
              k.limits;
        queue = omega (arith, k.queue);
      },
    )

pub new_decision_level-IsTrail : (t : Trail) → IsTrail t → IsTrail (new_decision_level t)
new_decision_level-IsTrail t k = record {
  literals = k.literals;
  covered = k.covered;
  once = k.once;
  levelled =
      is_levelled-above t.level (length t.trail) t.trail_lim t.trail (omega arith) k.levelled;
  limits = ground (arith, k.limits);
  queue = k.queue;
}
