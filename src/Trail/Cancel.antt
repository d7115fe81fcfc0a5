-- ===== src/Trail/Cancel.antt =====
-- Solver::cancelUntil: what its loop does to the assignment, and where the level of a literal
-- stands to the limits.
use dsyrup.Base.{
  ℕ, ◌-◌, ◌≤◌, ◌<◌, ◌≡◌, ◌∙◌, ◌⊎◌, refl, Bool, true, false, ◌&&◌, ◌||◌, List, [], ◌∷◌, arith,
  if◌then◌else◌, ◌==◌, ltb, leb, length, Bool-cases, inl, inr,
}
use dsyrup.Literal.{var}
use dsyrup.Trail.{
  Lbool, l_undef, is_undef, Trail, decision_level, at_index, or_zero, Heap, Order, undo, undo_from,
  cancel_until,
}
use dsyrup.Trail.Invariant.{
  on_trail, is_once, count_upto, is_levelled, is_descending, count_upto-all, is_descending-le,
  IsTrail,
}

-- Whether a variable is assigned at index `lim` or later.
abbrev pub is_late : ℕ → ℕ → List ℕ → Bool
is_late lim v [] = false
is_late lim v (p ∷ ps) = (leb lim (length ps) && (var p == v)) || is_late lim v ps

pub is_late-short : (lim v : ℕ) (ps : List ℕ) → length ps ≤ lim → is_late lim v ps ≡ false
is_late-short lim v [] h = refl
is_late-short lim v (p ∷ ps) h =
    let below : leb lim (length ps) ≡ false = ground arith in
    let rest = is_late-short lim v ps (omega arith) in ground arith

module _ {H : Type 0} (heap : Heap H) where
  -- The loop takes back the assignments of the late variables, and no more of the trail.
  pub undo_from-assigns :
      (lim last : ℕ) (ps : List ℕ) (s : Trail × Order H) (v : ℕ)
      → (undo_from heap lim last ps s).0.assigns v
        ≡ (if is_late lim v ps then l_undef else s.0.assigns v)
  unfolding undo_from undo
  undo_from-assigns lim last [] s v = refl
  undo_from-assigns lim last (p ∷ ps) s v = elim (Bool-cases (leb lim (length ps))) [
    | inl late ↦ rw late (
        undo_from-assigns lim last ps (undo heap last (length ps) p s) v
        ∙ merge (is_late lim v ps) (var p == v) (s.0.assigns v))
    | inr early ↦
        let none_late = is_late-short lim v ps (ground arith) in rw (early, none_late) refl
  ]
    where
      merge :
          (a b : Bool) (x : Lbool)
          → (if a then l_undef else if b then l_undef else x) ≡ (if b || a then l_undef else x)
      merge true true x = refl
      merge true false x = refl
      merge false true x = refl
      merge false false x = refl

  pub undo_from-rest :
      (lim last : ℕ) (ps : List ℕ) (s : Trail × Order H)
      → ((undo_from heap lim last ps s).0.level ≡ s.0.level)
        × ((undo_from heap lim last ps s).0.reason ≡ s.0.reason)
        × ((undo_from heap lim last ps s).0.trail ≡ s.0.trail)
        × ((undo_from heap lim last ps s).0.trail_lim ≡ s.0.trail_lim)
  unfolding undo_from undo
  undo_from-rest lim last [] s = (refl, refl, refl, refl)
  undo_from-rest lim last (p ∷ ps) s = elim (Bool-cases (leb lim (length ps))) [
    | inl late ↦ rw late (undo_from-rest lim last ps (undo heap last (length ps) p s))
    | inr early ↦ rw early (refl, refl, refl, refl)
  ]

-- The limit of a level that is open.
abbrev pub limit : ℕ → List ℕ → ℕ
limit level lims = or_zero (at_index level lims)

pub limit-le :
    (level bound : ℕ) (lims : List ℕ)
    → level < length lims
    → is_descending bound lims ≡ true
    → limit level lims ≤ bound
limit-le level bound [] h d = absurd (omega arith)
limit-le level bound (m ∷ ms) h d = elim (Bool-cases (length ms == level)) [
  | inl here ↦ rw here (ground arith)
  | inr lower ↦
      let rest = limit-le level m ms (ground arith) (ground arith) in
      let fits : m ≤ bound = ground arith in rw lower (omega arith)
]

count_upto-le : (i : ℕ) (lims : List ℕ) → count_upto lims i ≤ length lims
count_upto-le i [] = omega arith
count_upto-le i (m ∷ ms) = ground (arith, count_upto-le i ms)

-- An index is past the limit of a level exactly if more limits than that level are up to it.
pub limit-count_upto :
    (level i bound : ℕ) (lims : List ℕ)
    → level < length lims
    → is_descending bound lims ≡ true
    → leb (limit level lims) i ≡ ltb level (count_upto lims i)
limit-count_upto level i bound [] h d = absurd (omega arith)
limit-count_upto level i bound (m ∷ ms) h d =
    let inner : is_descending m ms ≡ true = ground arith in
    elim (Bool-cases (length ms == level)) [
      | inl here ↦ elim (Bool-cases (leb m i)) [
        | inl past ↦
            let all = count_upto-all i ms (is_descending-le m i ms (ground arith) inner) in
            rw here (ground arith)
        | inr before ↦ let few = count_upto-le i ms in rw here (ground arith)
      ]
      | inr lower ↦ elim (Bool-cases (leb m i)) [
        | inl past ↦
            let all = count_upto-all i ms (is_descending-le m i ms (ground arith) inner) in
            let low = limit-le level m ms (ground arith) inner in rw lower (ground arith)
        | inr before ↦
            let rest = limit-count_upto level i m ms (ground arith) inner in rw lower (ground arith)
      ]
    ]

is_late-on_trail : (lim v : ℕ) (ps : List ℕ) → on_trail v ps ≡ false → is_late lim v ps ≡ false
is_late-on_trail lim v [] h = refl
is_late-on_trail lim v (p ∷ ps) h =
    let rest = is_late-on_trail lim v ps (ground arith) in ground arith

-- A variable of the trail is late exactly if its level is above the given one.
pub is_late-level :
    (level : ℕ → ℕ) (target bound : ℕ) (lims ps : List ℕ) (v : ℕ)
    → target < length lims
    → is_descending bound lims ≡ true
    → is_levelled level lims ps ≡ true
    → is_once ps ≡ true
    → on_trail v ps ≡ true
    → is_late (limit target lims) v ps ≡ ltb target (level v)
is_late-level level target bound lims [] v h d l o on = cc
is_late-level level target bound lims (p ∷ ps) v h d l o on = elim (Bool-cases (var p == v)) [
  | inl here ↦
      let same : var p ≡ v = ground arith in
      let here_level : level (var p) ≡ count_upto lims (length ps) = ground arith in
      let at_v : level v ≡ count_upto lims (length ps) = rw same at here_level in
      let past = limit-count_upto target (length ps) bound lims h d in
      let off : on_trail (var p) ps ≡ false = ground arith in
      let none_later : is_late (limit target lims) v ps ≡ false =
        is_late-on_trail (limit target lims) v ps (rw same at off) in
      rw (here, none_later, at_v) (ground arith)
  | inr other ↦
      let rest =
        is_late-level level target bound lims ps v h d (ground arith) (ground arith)
          (ground arith) in
      rw (other) (ground arith)
]

-- On a well-formed trail, backtracking to a level takes back exactly the assignments of a higher
-- level: the value of a variable is undefined afterwards if its level is higher, and else as before.
pub cancel_until-assigns :
    {H : Type 0} (heap : Heap H) (target : ℕ) (t : Trail) (o : Order H) (v : ℕ)
    → IsTrail t
    → (cancel_until heap target (t, o)).0.assigns v
      ≡ (if ltb target (decision_level t) && ltb target (t.level v) then l_undef else t.assigns v)
unfolding cancel_until
cancel_until-assigns heap target t o v k =
    let lim = limit target t.trail_lim in
    let loop =
      undo_from-assigns heap lim (or_zero (at_index (decision_level t - 1) t.trail_lim)) t.trail
        (t, o) v in
    elim (Bool-cases (ltb target (decision_level t))) [
      | inl down ↦ elim (Bool-cases (on_trail v t.trail)) [
        | inl on ↦
            let late =
              is_late-level t.level target (length t.trail) t.trail_lim t.trail v (ground arith)
                k.limits k.levelled k.once on in
            rw (down, loop, late) refl
        | inr off ↦
            let late = is_late-on_trail lim v t.trail off in
            let undefined : t.assigns v ≡ l_undef =
              unassigned (t.assigns v) (Bool-cases (is_undef (t.assigns v)))
                (λ d. cc_off (k.covered v d) off) in
            rw (down, loop, late, undefined) (both_undef (ltb target (t.level v)))
      ]
      | inr stay ↦ rw stay refl
    ]
  where
    cc_off : {b : Bool} → b ≡ true → b ≡ false → ⊥
    cc_off a b = cc

    both_undef : (b : Bool) → l_undef ≡ (if b then l_undef else l_undef)
    both_undef true = refl
    both_undef false = refl

    unassigned :
        (b : Lbool)
        → (is_undef b ≡ true) ⊎ (is_undef b ≡ false)
        → (is_undef b ≡ false → ⊥)
        → b ≡ l_undef
    unassigned Lbool.l_true c n = absurd (n refl)
    unassigned Lbool.l_false c n = absurd (n refl)
    unassigned l_undef c n = refl
