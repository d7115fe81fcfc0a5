-- ===== src/Analyze/Jump.antt =====
-- From the conflict to the level to go back to: analyze, and then cancelUntil.
use dsyrup.Base.{
  ℕ, ◌+◌, ◌^◌, ◌≤◌, ◌<◌, ◌≡◌, refl, ◌∙◌, Bool, true, false, ◌&&◌, some, List, arith, ◌==◌, ltb,
  get_or, length,
}
use dsyrup.Literal.{negate, var, sign}
use dsyrup.Literal.Laws.{negate-involutive}
use dsyrup.Clause.Meaning.{elem}
use dsyrup.Trail.{
  l_undef, is_false, is_undef, Trail, value, decision_level, Heap, Order, cancel_until,
}
use dsyrup.Trail.Invariant.{IsTrail, is_undef-flip}
use dsyrup.Trail.Cancel.{cancel_until-assigns}
use dsyrup.Trail.Keeps.{cancel_until-IsTrail}
use dsyrup.Propagate.{Watcher}
use dsyrup.Analyze.Literals.{are_false_on}
use dsyrup.Analyze.Reasons.{Reasons, value-elem-negate}
use dsyrup.Analyze.Learnt.{is_current}
use dsyrup.Analyze.Stamps.{IsBelow}
use dsyrup.Analyze.Whole.{Options, Analysis, analyze}
use dsyrup.Analyze.Sound.{analyze-learns}

module _ {H : Type 0} (heap : Heap H) (t : Trail) (o : Order H) (w : IsTrail t) (target : ℕ) where
  abbrev jumped : Trail
  jumped = (cancel_until heap target (t, o)).0

  value-above :
      (k : ℕ)
      → target < decision_level t
      → target < t.level (var k)
      → is_undef (value jumped k) ≡ true
  unfolding value
  value-above k d h =
      let after = cancel_until-assigns heap target t o (var k) w in
      let high : (ltb target (decision_level t) && ltb target (t.level (var k))) ≡ true =
        ground arith in
      let undefined : jumped.assigns (var k) ≡ l_undef = rw high at after in
      is_undef-flip (jumped.assigns (var k)) (sign k) ∙ rw undefined refl

  value-below : (k : ℕ) → t.level (var k) ≤ target → value jumped k ≡ value t k
  unfolding value
  value-below k h =
      let after = cancel_until-assigns heap target t o (var k) w in
      let low : (ltb target (decision_level t) && ltb target (t.level (var k))) ≡ false =
        ground arith in
      let kept : jumped.assigns (var k) ≡ t.assigns (var k) = rw low at after in rw kept refl

-- The first literal of a clause is undefined, and the others are false.
abbrev pub IsUnit : Trail → List ℕ → Type 0
IsUnit t c =
    (is_undef (value t (get_or c 0 0)) ≡ true)
    × ((k : ℕ) → elem k c ≡ true → (k == get_or c 0 0) ≡ false → is_false (value t k) ≡ true)

module _ {H : Type 0} (heap : Heap H) (options : Options) (t : Trail) (o : Order H)
    (is_selector : ℕ → Bool) (watches_bin : ℕ → List Watcher) (counts : ℕ → Bool)
    (w : IsTrail t) where
  -- Back to the level that the analysis finds: under its conditions, the analysis ends, and after
  -- cancelUntil that level is the current one, the trail is well-formed, the first literal of the
  -- learnt clause is undefined, and the others are false.
  pub analyze-IsUnit :
      (ca : ℕ → List ℕ) (confl q : ℕ) (stamps : ℕ × (ℕ → ℕ))
      → 0 < decision_level t
      → Reasons ca t t.trail
      → are_false_on t.trail (ca confl) ≡ true
      → elem q (ca confl) ≡ true
      → is_current t is_selector q ≡ true
      → IsBelow stamps
      → stamps.0 + length t.trail + 3 < 2 ^ 32
      → (r : Analysis) × (analyze options t is_selector watches_bin counts ca confl stamps ≡ some r)
        × IsUnit (cancel_until heap r.btlevel (t, o)).0 r.learnt
        × (decision_level (cancel_until heap r.btlevel (t, o)).0 ≡ r.btlevel)
        × IsTrail (cancel_until heap r.btlevel (t, o)).0
  analyze-IsUnit ca confl q stamps open_level reasons f q_in high below small =
      let (r, e, (p, p_in, p_high, first, btlevel, others), clear, says) =
        analyze-learns options t is_selector watches_bin counts w ca confl q stamps open_level
          reasons f q_in high below small in
      let (level, queue, kept) = cancel_until-IsTrail heap r.btlevel t o (ground arith) w in
      let p_level : r.btlevel < t.level (var (negate p)) =
        rw ((negate-involutive p).0) (ground arith) in
      (
        r,
        e,
        (
          rw first (value-above heap t o w r.btlevel (negate p) btlevel p_level),
          λ k k_in apart.
              let (k_false, k_level) = others k k_in (rw first at apart) in
              rw (value-below heap t o w r.btlevel k k_level) (value-elem-negate t k w k_false),
        ),
        level,
        kept,
      )
