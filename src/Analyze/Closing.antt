-- ===== src/Analyze/Closing.antt =====
-- litRedundant: the search comes to an end, and what it leaves marked follows from the clause.
use dsyrup.Base.{
  false_not_true, ℕ, zero, suc, ◌+◌, ◌<◌, ◌≡◌, refl, ◌∙◌, subst, Bool, true, false, some, List, [],
  ◌∷◌, arith, ◌==◌, ltb, length, Bool-cases, inl, inr, ◌⊎◌,
}
use dsyrup.Analyze.Literals.{same_literal, are_false_on, are_false_on-elem}
use dsyrup.Literal.{negate, var}
use dsyrup.Literal.Laws.{negate-involutive}
use dsyrup.Clause.Meaning.{elem}
use dsyrup.Trail.{Trail}
use dsyrup.Trail.Invariant.{IsTrail}
use dsyrup.Propagate.Invariant.{no_repeat}
use dsyrup.Final.Marks.{IsReason}
use dsyrup.Analyze.{true_first, is_misplaced, after_first}
use dsyrup.Analyze.Reasons.{
  Reasons, all_false, exchanged, exchanged-Reasons, SameLiterals, exchanged-SameLiterals,
  reason-is_misplaced,
}
use dsyrup.Analyze.Asserting.{others_read}
use dsyrup.Analyze.Redundant.{Marks, unmark, push_others, search}
use dsyrup.Analyze.Pushes.{
  count_marked, count_marked-le, Covers, IsBacked, IsPushed, push_others-IsPushed,
}

-- A literal of the trail has a reason, whose other literals are seen or of level 0.
abbrev pub Closed : (ℕ → List ℕ) → Trail → (ℕ → Bool) → ℕ → Type 0
Closed ca t seen l =
    (cr : ℕ) × (t.reason (var l) ≡ some cr)
    × ((q : ℕ)
        → elem q (ca cr) ≡ true
        → (q == l) ≡ false
        → ltb 0 (t.level (var q)) ≡ true
        → seen (var q) ≡ true)

-- More marks, and other orders of the literals, keep it so.
pub grows-Closed :
    (ca ca' : ℕ → List ℕ) (t : Trail) (seen seen' : ℕ → Bool) (l : ℕ)
    → SameLiterals ca ca'
    → ((v : ℕ) → seen v ≡ true → seen' v ≡ true)
    → Closed ca' t seen l
    → Closed ca t seen' l
grows-Closed ca ca' t seen seen' l same grows (cr, reason, others) =
    (cr, reason, λ q inside apart high. grows (var q) (others q (same cr q ∙ inside) apart high))

-- The reason of a literal of the trail.
pub reason_at :
    (ca : ℕ → List ℕ) (t : Trail) (ls : List ℕ) (l cr : ℕ)
    → Reasons ca t ls
    → elem l ls ≡ true
    → t.reason (var l) ≡ some cr
    → (before : List ℕ) × ((k : ℕ) → elem k before ≡ true → elem k ls ≡ true)
      × IsReason l before (ca cr)
      × (no_repeat (ca cr) ≡ true)
reason_at ca t [] l cr r e h = absurd (false_not_true e)
reason_at ca t (x ∷ ls) l cr (now, decision, r) e h = elim (Bool-cases (l == x)) [
  | inl here ↦
      let same : x ≡ l = ground arith in
      let (i, n) = now cr (rw same h) in
      (ls, λ k inside. ground arith, subst (λ z. IsReason z ls (ca cr)) same i, n)
  | inr there ↦
      let (before, inside, i, n) = reason_at ca t ls l cr r (ground arith) h in
      (before, λ k e'. let below = inside k e' in ground arith, i, n)
]

module _ (t : Trail) (w : IsTrail t) where
  -- The literals of a reason that are read: false on the trail, and all but the implied one.
  read_at :
      (ca : ℕ → List ℕ) (l cr : ℕ)
      → Reasons ca t t.trail
      → elem l t.trail ≡ true
      → t.reason (var l) ≡ some cr
      → (are_false_on t.trail (after_first (true_first t (ca cr))) ≡ true)
        × ((k : ℕ)
            → elem k (ca cr) ≡ true
            → (k == l) ≡ false
            → elem k (after_first (true_first t (ca cr))) ≡ true)
  read_at ca l cr r e h =
      let (before, inside, i, n) = reason_at ca t t.trail l cr r e h in
      let (others, f) = others_read t l before (ca cr) w e inside i n in
      (
        all_false t.trail (after_first (true_first t (ca cr)))
            (λ k e'. inside (negate k) (are_false_on-elem before _ k f e')),
        others,
      )

  -- What the search returns.
  pub record IsSearched (ca : ℕ → List ℕ) (stack : List ℕ) (m : Marks) (b : Bool) (ca' : ℕ → List ℕ)
      (m' : Marks) : Type 0 where
    pub same : SameLiterals ca ca'
    pub reasons : Reasons ca' t t.trail
    pub grows : (v : ℕ) → m.seen v ≡ true → m'.seen v ≡ true
    pub restores : (v : ℕ) → unmark m'.pushed m'.seen v ≡ unmark m.pushed m.seen v
    pub covers : (base : ℕ → Bool) → Covers base m → Covers base m'
    pub closed : b ≡ true → (q : ℕ) → elem q stack ≡ true → Closed ca t m'.seen (negate q)
    pub news :
        b ≡ true
        → (k : ℕ) → elem k t.trail ≡ true
        → m'.seen (var k) ≡ true
        → (m.seen (var k) ≡ true) ⊎ Closed ca t m'.seen k

  module _ (ca : ℕ → List ℕ) (p cr : ℕ) (stack : List ℕ) (m : Marks)
      (reasons : Reasons ca t t.trail) (p_false : elem (negate p) t.trail ≡ true)
      (reason : t.reason (var p) ≡ some cr) (r : Bool × List ℕ × Marks)
      (k : IsPushed t (after_first (true_first t (ca cr))) stack m r) where
    -- The literal that was taken from the stack.
    taken-Closed :
        (seen : ℕ → Bool)
        → r.0 ≡ true
        → ((v : ℕ) → r.2.seen v ≡ true → seen v ≡ true)
        → Closed ca t seen (negate p)
    taken-Closed seen further grows =
        let same_var = (negate-involutive p).0 in
        let reason' : t.reason (var (negate p)) ≡ some cr = rw same_var reason in
        let (f, others) = read_at ca (negate p) cr reasons p_false reason' in
        (
          cr,
          reason',
          λ q inside apart high. grows (var q) (k.all_seen further q (others q inside apart) high),
        )

    stopped-IsSearched : r.0 ≡ false → IsSearched ca (p ∷ stack) m false (exchanged ca t cr) r.2
    stopped-IsSearched halted = record {
      same = exchanged-SameLiterals ca t cr;
      reasons = exchanged-Reasons ca t cr t.trail reasons;
      grows = k.grows;
      restores = k.restores;
      covers = k.covers;
      closed = λ further. absurd (false_not_true further);
      news = λ further. absurd (false_not_true further);
    }

    step-IsSearched :
        (b : Bool) (ca' : ℕ → List ℕ) (m' : Marks)
        → r.0 ≡ true
        → ((q : ℕ) → elem q r.1 ≡ true → IsBacked t q)
        → IsSearched (exchanged ca t cr) r.1 r.2 b ca' m'
        → IsSearched ca (p ∷ stack) m b ca' m'
    step-IsSearched b ca' m' further backed s =
        let same1 = exchanged-SameLiterals ca t cr in
        let back : (l : ℕ) → Closed (exchanged ca t cr) t m'.seen l → Closed ca t m'.seen l =
          λ l. grows-Closed ca (exchanged ca t cr) t m'.seen m'.seen l same1 (λ v h. h) in
        record {
          same = λ c q. s.same c q ∙ same1 c q;
          reasons = s.reasons;
          grows = λ v h. s.grows v (k.grows v h);
          restores = λ v. s.restores v ∙ k.restores v;
          covers = λ base h. s.covers base (k.covers base h);
          closed = λ ok q inside. elim (Bool-cases (q == p)) [
            | inl here ↦
                let equal : p ≡ q = ground arith in
                subst (λ z. Closed ca t m'.seen (negate z)) equal
                  (taken-Closed m'.seen further s.grows)
            | inr there ↦ back (negate q) (s.closed ok q (k.kept q (ground arith)))
          ];
          news = λ ok l inside marked. elim (s.news ok l inside marked) [
            | inr found ↦ inr (back l found)
            | inl sooner ↦ elim (k.news (var l) sooner) [
              | inl old ↦ inl old
              | inr (q, on_stack, same_var) ↦
                  let q_false = (backed q on_stack).0 in
                  let vars : (var (negate q) == var l) ≡ true =
                    rw ((negate-involutive q).0, same_var) (ground arith) in
                  let equal = same_literal t.trail (negate q) l w.once q_false inside vars in
                  inr (
                    subst (λ z. Closed ca t m'.seen z) equal
                      (back (negate q) (s.closed ok q on_stack)))
            ]
          ];
        }

  module _ (abstract_level : ℕ → Bool) where
    search-step :
        (fuel : ℕ) (ca : ℕ → List ℕ) (p cr : ℕ) (stack : List ℕ) (m : Marks)
        (r : Bool × List ℕ × Marks)
        → t.reason (var p) ≡ some cr
        → push_others t abstract_level (after_first (true_first t (ca cr))) stack m ≡ r
        → r.0 ≡ true
        → is_misplaced t (ca cr) ≡ false
        → search t abstract_level (suc fuel) ca (p ∷ stack) m
          ≡ search t abstract_level fuel (exchanged ca t cr) r.1 r.2
    unfolding search
    search-step fuel ca p cr stack m r reason e further well =
        rw (reason, e, further, well, search) refl

    search-stop :
        (fuel : ℕ) (ca : ℕ → List ℕ) (p cr : ℕ) (stack : List ℕ) (m : Marks)
        (r : Bool × List ℕ × Marks)
        → t.reason (var p) ≡ some cr
        → push_others t abstract_level (after_first (true_first t (ca cr))) stack m ≡ r
        → r.0 ≡ false
        → is_misplaced t (ca cr) ≡ false
        → search t abstract_level (suc fuel) ca (p ∷ stack) m ≡ some (false, exchanged ca t cr, r.2)
    unfolding search
    search-stop fuel ca p cr stack m r reason e halted well =
        rw (reason, e, halted, well, search) refl

    pub search-IsSearched :
        (fuel : ℕ) (ca : ℕ → List ℕ) (stack : List ℕ) (m : Marks)
        → length t.trail + length stack < fuel + count_marked m.seen t.trail
        → Reasons ca t t.trail
        → ((q : ℕ) → elem q stack ≡ true → IsBacked t q)
        → (b : Bool) × (ca' : ℕ → List ℕ) × (m' : Marks) × (search t abstract_level fuel ca stack m
            ≡ some (b, ca', m'))
          × IsSearched ca stack m b ca' m'
    unfolding search
    search-IsSearched zero ca stack m f reasons backed =
        let bound = count_marked-le m.seen t.trail in absurd (omega arith)
    search-IsSearched (suc fuel) ca [] m f reasons backed = (
      true,
      ca,
      m,
      refl,
      record {
        same = λ c q. refl;
        reasons = reasons;
        grows = λ v h. h;
        restores = λ v. refl;
        covers = λ base h. h;
        closed = λ further q e. absurd (false_not_true e);
        news = λ further k e h. inl h;
      },
    )
    search-IsSearched (suc fuel) ca (p ∷ stack) m f reasons backed =
        let (p_false, cr, reason) = backed p (ground arith) in
        let reason' : t.reason (var (negate p)) ≡ some cr = rw ((negate-involutive p).0) reason in
        let (all, others) = read_at ca (negate p) cr reasons p_false reason' in
        let (before, within, i, n) = reason_at ca t t.trail (negate p) cr reasons p_false reason' in
        let well = reason-is_misplaced t (negate p) before (ca cr) w p_false i in
        let c = after_first (true_first t (ca cr)) in
        let r = push_others t abstract_level c stack m in
        let k = push_others-IsPushed t abstract_level c stack m w.once all in
        let backed' = k.backed (λ q e. backed q (ground arith)) in
        elim (Bool-cases r.0) [
          | inr halted ↦ (
            false,
            exchanged ca t cr,
            r.2,
            search-stop fuel ca p cr stack m r reason refl halted well,
            stopped-IsSearched ca p cr stack m reasons p_false reason r k halted,
          )
          | inl further ↦
              let measure = k.measure in
              let (b, ca', m', e, s) =
                search-IsSearched fuel (exchanged ca t cr) r.1 r.2 (omega arith)
                  (exchanged-Reasons ca t cr t.trail reasons) backed' in
              (
                b,
                ca',
                m',
                search-step fuel ca p cr stack m r reason refl further well ∙ e,
                step-IsSearched ca p cr stack m reasons p_false reason r k b ca' m' further backed'
                    s,
              )
        ]
