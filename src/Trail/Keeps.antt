-- ===== src/Trail/Keeps.antt =====
-- Solver::cancelUntil keeps the trail well-formed, and every free decision variable in the heap.
use dsyrup.Base.{
  ℕ, ◌-◌, ◌≤◌, ◌<◌, ◌≡◌, ◌∙◌, refl, sym, true, false, not, ◌&&◌, List, [], ◌∷◌, arith, ◌==◌, ltb,
  leb, length, Bool-cases, inl, inr,
}
use dsyrup.Literal.{var}
use dsyrup.Trail.{
  Lbool, l_undef, is_undef, Trail, decision_level, at_index, shrink_to, or_zero, Heap, Order,
  undo_from, cancel_until,
}
use dsyrup.Trail.Invariant.{
  on_trail, is_once, are_true, count_upto, is_levelled, is_descending, IsTrail,
}
use dsyrup.Trail.Cancel.{is_late, undo_from-assigns, undo_from-rest, limit, limit-le, is_late-short}

shrink_to-short : (n : ℕ) (xs : List ℕ) → length xs ≤ n → shrink_to n xs ≡ xs
shrink_to-short n [] h = refl
shrink_to-short n (x ∷ xs) h = let stop : leb n (length xs) ≡ false = ground arith in rw stop refl

length-shrink_to : (n : ℕ) (xs : List ℕ) → n ≤ length xs → length (shrink_to n xs) ≡ n
length-shrink_to n [] h = omega arith
length-shrink_to n (x ∷ xs) h = elim (Bool-cases (leb n (length xs))) [
  | inl more ↦ rw more (length-shrink_to n xs (ground arith))
  | inr last ↦ rw last (ground arith)
]

-- A variable of a list in which none is assigned twice is late, or left by the shrinking.
on_trail-shrink_to :
    (lim v : ℕ) (ps : List ℕ)
    → is_once ps ≡ true
    → on_trail v (shrink_to lim ps) ≡ on_trail v ps && not (is_late lim v ps)
on_trail-shrink_to lim v [] h = refl
on_trail-shrink_to lim v (p ∷ ps) h = elim (Bool-cases (leb lim (length ps))) [
  | inl more ↦ elim (Bool-cases (var p == v)) [
    | inl here ↦
        let same : var p ≡ v = ground arith in
        let off : on_trail (var p) ps ≡ false = ground arith in
        let off_v : on_trail v ps ≡ false = rw same at off in
        let rest = on_trail-shrink_to lim v ps (ground arith) in rw (more, here, rest, off_v) refl
    | inr other ↦
        let rest = on_trail-shrink_to lim v ps (ground arith) in rw (more, other, rest) refl
  ]
  | inr last ↦ let early = is_late-short lim v ps (ground arith) in rw (last, early) (ground arith)
]

is_once-shrink_to : (lim : ℕ) (ps : List ℕ) → is_once ps ≡ true → is_once (shrink_to lim ps) ≡ true
is_once-shrink_to lim [] h = refl
is_once-shrink_to lim (p ∷ ps) h = elim (Bool-cases (leb lim (length ps))) [
  | inl more ↦ rw more (is_once-shrink_to lim ps (ground arith))
  | inr last ↦ rw last h
]

are_true-shrink_to :
    (assigns : ℕ → Lbool) (lim : ℕ) (ps : List ℕ)
    → are_true assigns ps ≡ true
    → are_true assigns (shrink_to lim ps) ≡ true
are_true-shrink_to assigns lim [] h = refl
are_true-shrink_to assigns lim (p ∷ ps) h = elim (Bool-cases (leb lim (length ps))) [
  | inl more ↦ rw more (are_true-shrink_to assigns lim ps (ground arith))
  | inr last ↦ rw last h
]

-- Assignments that agree on the variables of a list make the same of its literals true.
are_true-agree :
    (a b : ℕ → Lbool) (ps : List ℕ)
    → ((v : ℕ) → on_trail v ps ≡ true → a v ≡ b v)
    → are_true a ps ≡ are_true b ps
are_true-agree a b [] h = refl
are_true-agree a b (p ∷ ps) h =
    let now : a (var p) ≡ b (var p) = h (var p) (ground arith) in
    let rest = are_true-agree a b ps (λ v on. h v (ground arith)) in rw (now, rest) refl

count_upto-shrink_to :
    (target i bound : ℕ) (lims : List ℕ)
    → target < length lims
    → is_descending bound lims ≡ true
    → i < limit target lims
    → count_upto (shrink_to target lims) i ≡ count_upto lims i
count_upto-shrink_to target i bound [] h d k = refl
count_upto-shrink_to target i bound (m ∷ ms) h d k =
    let inner : is_descending m ms ≡ true = ground arith in
    elim (Bool-cases (length ms == target)) [
      | inl here ↦
          let more : leb target (length ms) ≡ true = ground arith in
          let kept = shrink_to-short target ms (ground arith) in
          let after : i < m = rw here at k in
          let above : leb m i ≡ false = ground arith in rw (more, kept, above) (omega arith)
      | inr lower ↦
          let more : leb target (length ms) ≡ true = ground arith in
          let below : i < limit target ms = rw lower at k in
          let low = limit-le target m ms (ground arith) inner in
          let above : leb m i ≡ false = ground arith in
          let rest = count_upto-shrink_to target i m ms (ground arith) inner below in
          rw (more, above, rest) (omega arith)
    ]

is_levelled-shrink_to :
    (level : ℕ → ℕ) (target bound : ℕ) (lims ps : List ℕ)
    → target < length lims
    → is_descending bound lims ≡ true
    → is_levelled level lims ps ≡ true
    → is_levelled level (shrink_to target lims) (shrink_to (limit target lims) ps) ≡ true
is_levelled-shrink_to level target bound lims [] h d l = refl
is_levelled-shrink_to level target bound lims (p ∷ ps) h d l =
    let lim = limit target lims in
    let rest = is_levelled-shrink_to level target bound lims ps h d (ground arith) in
    elim (Bool-cases (leb lim (length ps))) [
      | inl more ↦ rw more rest
      | inr last ↦
          let short = shrink_to-short lim ps (ground arith) in
          let same = count_upto-shrink_to target (length ps) bound lims h d (ground arith) in
          let rest' : is_levelled level (shrink_to target lims) ps ≡ true = rw short at rest in
          rw (last, same, rest') (ground arith)
    ]

is_descending-shrink_to :
    (target bound : ℕ) (lims : List ℕ)
    → target < length lims
    → is_descending bound lims ≡ true
    → is_descending (limit target lims) (shrink_to target lims) ≡ true
is_descending-shrink_to target bound [] h d = refl
is_descending-shrink_to target bound (m ∷ ms) h d = elim (Bool-cases (length ms == target)) [
  | inl here ↦
      let more : leb target (length ms) ≡ true = ground arith in
      let kept = shrink_to-short target ms (ground arith) in rw (more, here, kept) (ground arith)
  | inr lower ↦
      let more : leb target (length ms) ≡ true = ground arith in
      rw (more, lower) (is_descending-shrink_to target m ms (ground arith) (ground arith))
]

-- Backtracking keeps the trail well-formed, leaves the given level as the current one, and leaves
-- nothing to propagate.
pub cancel_until-IsTrail :
    {H : Type 0} (heap : Heap H) (target : ℕ) (t : Trail) (o : Order H)
    → target < decision_level t
    → IsTrail t
    → (decision_level (cancel_until heap target (t, o)).0 ≡ target)
      × ((cancel_until heap target (t, o)).0.qhead
          ≡ length (cancel_until heap target (t, o)).0.trail)
      × IsTrail (cancel_until heap target (t, o)).0
unfolding cancel_until
cancel_until-IsTrail heap target t o h k =
    let lim = limit target t.trail_lim in
    let last = or_zero (at_index (decision_level t - 1) t.trail_lim) in
    let down : ltb target (decision_level t) ≡ true = ground arith in
    let low = limit-le target (length t.trail) t.trail_lim h k.limits in
    let (levels, reasons, trails, lims) = undo_from-rest heap lim last t.trail (t, o) in
    let assigned = undo_from-assigns heap lim last t.trail (t, o) in
    let left = on_trail-shrink_to lim in
    let length_left = length-shrink_to lim t.trail low in
    let same : (v : ℕ)
        → on_trail v (shrink_to lim t.trail) ≡ true
        → (undo_from heap lim last t.trail (t, o)).0.assigns v ≡ t.assigns v =
      λ v on.
        let early : is_late lim v t.trail ≡ false = ground (arith, left v t.trail k.once) in
        assigned v ∙ (rw early refl) in
    rw (down, levels, trails, lims)
      (
        length-shrink_to target t.trail_lim (ground arith),
        sym length_left,
        record {
          literals =
              are_true-agree (undo_from heap lim last t.trail (t, o)).0.assigns t.assigns
                (shrink_to lim t.trail) same
              ∙ are_true-shrink_to t.assigns lim t.trail k.literals;
          covered = λ v d. elim (Bool-cases (is_late lim v t.trail)) [
            | inl late ↦
                let gone : l_undef ≡ (undo_from heap lim last t.trail (t, o)).0.assigns v =
                  sym (assigned v ∙ (rw late refl)) in
                let bad : is_undef l_undef ≡ false = rw (sym gone) at d in cc
            | inr early ↦
                let kept : (undo_from heap lim last t.trail (t, o)).0.assigns v ≡ t.assigns v =
                  assigned v ∙ (rw early refl) in
                let before : is_undef (t.assigns v) ≡ false = rw kept at d in
                ground (arith, left v t.trail k.once, k.covered v before)
          ];
          once = is_once-shrink_to lim t.trail k.once;
          levelled =
              is_levelled-shrink_to t.level target (length t.trail) t.trail_lim t.trail h k.limits
                k.levelled;
          limits =
              rw length_left
                (is_descending-shrink_to target (length t.trail) t.trail_lim h k.limits);
          queue = rw length_left (omega arith);
        },
      )
