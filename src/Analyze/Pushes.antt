-- ===== src/Analyze/Pushes.antt =====
-- litRedundant: what the loop over the literals of a reason pushes and marks.
use dsyrup.Base.{
  false_not_true, ℕ, ◌+◌, ◌%◌, ◌≤◌, ◌≡◌, refl, sym, ◌∙◌, subst, Bool, true, false, not, ◌&&◌, ◌||◌,
  Option, none, some, List, [], ◌∷◌, arith, ◌==◌, ltb, length, Bool-cases, inl, inr, ◌⊎◌,
}
use dsyrup.Analyze.Literals.{are_false_on}
use dsyrup.Literal.{negate, var}
use dsyrup.Clause.{put}
use dsyrup.Clause.Meaning.{elem}
use dsyrup.Trail.{Trail}
use dsyrup.Trail.Invariant.{on_trail, is_once}
use dsyrup.Analyze.Visit.{count_seen, note-counted}
use dsyrup.Analyze.Redundant.{Marks, has_reason, push_mark, unmark, push_others}

-- The literals of the trail whose variables are seen.
abbrev pub count_marked : (ℕ → Bool) → List ℕ → ℕ
count_marked seen ls = count_seen (λ v. 0) 0 (λ v. false) seen ls

pub count_marked-le : (seen : ℕ → Bool) (ls : List ℕ) → count_marked seen ls ≤ length ls
count_marked-le seen [] = omega arith
count_marked-le seen (l ∷ ls) = let rest = count_marked-le seen ls in ground arith

pub unmark-at : (ls : List ℕ) (seen : ℕ → Bool) (v : ℕ) → seen v ≡ false → unmark ls seen v ≡ false
unmark-at [] seen v h = h
unmark-at (l ∷ ls) seen v h = let rest = unmark-at ls seen v h in ground arith

unmark-put :
    (ls : List ℕ) (seen : ℕ → Bool) (v w : ℕ) (b : Bool)
    → (v == w) ≡ false
    → unmark ls (put v b seen) w ≡ unmark ls seen w
unmark-put [] seen v w b h = ground arith
unmark-put (l ∷ ls) seen v w b h = let rest = unmark-put ls seen v w b h in ground arith

-- The reset takes back a mark.
unmark-push_mark :
    (p : ℕ) (m : Marks) (v : ℕ)
    → m.seen (var p) ≡ false
    → unmark (push_mark p m).pushed (push_mark p m).seen v ≡ unmark m.pushed m.seen v
unmark-push_mark p m v h = elim (Bool-cases (var p == v)) [
  | inl same ↦
      let equal : var p ≡ v = ground arith in
      let clear = unmark-at m.pushed m.seen v (subst (λ w. m.seen w ≡ false) equal h) in
      rw same (sym clear)
  | inr other ↦ rw other (unmark-put m.pushed m.seen (var p) v true other)
]

pub unmark-on_trail :
    (ls : List ℕ) (seen : ℕ → Bool) (v : ℕ) → on_trail v ls ≡ true → unmark ls seen v ≡ false
unmark-on_trail [] seen v h = absurd (false_not_true h)
unmark-on_trail (l ∷ ls) seen v h = elim (Bool-cases (var l == v)) [
  | inl here ↦ rw here refl
  | inr there ↦ rw there (unmark-on_trail ls seen v (ground arith))
]

-- Every variable that is seen is of the base or was pushed.
abbrev pub Covers : (ℕ → Bool) → Marks → Type 0
Covers base m = (v : ℕ) → m.seen v ≡ true → (base v || on_trail v m.pushed) ≡ true

module _ (t : Trail) where
  -- A literal that is false on the trail, and whose variable has a reason.
  abbrev pub IsBacked : ℕ → Type 0
  IsBacked q = (elem (negate q) t.trail ≡ true) × (cr : ℕ) × (t.reason (var q) ≡ some cr)

  pub record IsPushed (ps stack : List ℕ) (m : Marks) (r : Bool × List ℕ × Marks) : Type 0 where
    pub grows : (v : ℕ) → m.seen v ≡ true → r.2.seen v ≡ true
    pub restores : (v : ℕ) → unmark r.2.pushed r.2.seen v ≡ unmark m.pushed m.seen v
    pub measure :
        length r.1 + count_marked m.seen t.trail ≡ length stack + count_marked r.2.seen t.trail
    pub kept : (q : ℕ) → elem q stack ≡ true → elem q r.1 ≡ true
    pub backed :
        ((q : ℕ) → elem q stack ≡ true → IsBacked q) → (q : ℕ) → elem q r.1 ≡ true → IsBacked q
    pub news :
        (v : ℕ)
        → r.2.seen v ≡ true
        → (m.seen v ≡ true) ⊎ (q : ℕ) × (elem q r.1 ≡ true) × (var q ≡ v)
    pub covers : (base : ℕ → Bool) → Covers base m → Covers base r.2
    pub all_seen :
        r.0 ≡ true
        → (q : ℕ) → elem q ps ≡ true
        → ltb 0 (t.level (var q)) ≡ true
        → r.2.seen (var q) ≡ true

  unpushed :
      (b : Bool) (ps stack : List ℕ) (m : Marks)
      → (b ≡ true
          → (q : ℕ) → elem q ps ≡ true
          → ltb 0 (t.level (var q)) ≡ true
          → m.seen (var q) ≡ true)
      → IsPushed ps stack m (b, stack, m)
  unpushed b ps stack m h = record {
    grows = λ v s. s;
    restores = λ v. refl;
    measure = refl;
    kept = λ q e. e;
    backed = λ k q e. k q e;
    news = λ v s. inl s;
    covers = λ base c. c;
    all_seen = h;
  }

  -- Going on with one literal pushed.
  IsPushed-more :
      (p : ℕ) (ps stack : List ℕ) (m : Marks) (r : Bool × List ℕ × Marks)
      → is_once t.trail ≡ true
      → elem (negate p) t.trail ≡ true
      → has_reason (t.reason (var p)) ≡ true
      → m.seen (var p) ≡ false
      → IsPushed ps (p ∷ stack) (push_mark p m) r
      → IsPushed (p ∷ ps) stack m r
  IsPushed-more p ps stack m r o e h n k = record {
    grows = λ v s. k.grows v (ground arith);
    restores = λ v. k.restores v ∙ unmark-push_mark p m v n;
    measure =
        let one =
          note-counted (λ v. 0) 0 (λ v. false) p t.trail
            (record { seen = m.seen; path_c = 0; out = []; selectors = [] }) o e n refl in
        let rest = k.measure in omega arith;
    kept = λ q i. k.kept q (ground arith);
    backed = λ old q i.
        k.backed
          (λ j inside. elim (Bool-cases (j == p)) [
            | inl same ↦
                let equal : p ≡ j = ground arith in
                let (cr, found) = reason_of h in subst IsBacked equal (e, cr, found)
            | inr other ↦ old j (ground arith)
          ])
          q i;
    news = λ v s. elim (k.news v s) [
      | inr found ↦ inr found
      | inl marked ↦ elim (Bool-cases (var p == v)) [
        | inl same ↦ inr (p, k.kept p (ground arith), ground arith)
        | inr other ↦ inl (rw other at marked)
      ]
    ];
    covers = λ base c. k.covers base (λ v sv. elim (Bool-cases (var p == v)) [
      | inl same ↦ ground arith
      | inr other ↦ let old = c v (rw other at sv) in ground arith
    ]);
    all_seen = λ yes q i high. elim (Bool-cases (q == p)) [
      | inl same ↦ let equal : q ≡ p = ground arith in rw equal (k.grows (var p) (ground arith))
      | inr other ↦ k.all_seen yes q (ground arith) high
    ];
  }
    where
      reason_of : {o : Option ℕ} → has_reason o ≡ true → (cr : ℕ) × (o ≡ some cr)
      reason_of {o = none} e = cc
      reason_of {o = some cr} e = (cr, refl)

  -- Going on without one that is seen or of level 0.
  IsPushed-next :
      (p : ℕ) (ps stack : List ℕ) (m : Marks) (r : Bool × List ℕ × Marks)
      → (m.seen (var p) || not (ltb 0 (t.level (var p)))) ≡ true
      → IsPushed ps stack m r
      → IsPushed (p ∷ ps) stack m r
  IsPushed-next p ps stack m r h k = record {
    grows = k.grows;
    restores = k.restores;
    measure = k.measure;
    kept = k.kept;
    backed = k.backed;
    news = k.news;
    covers = k.covers;
    all_seen = λ yes q i high. elim (Bool-cases (q == p)) [
      | inl same ↦
          let equal : q ≡ p = ground arith in
          let high' : ltb 0 (t.level (var p)) ≡ true = rw equal at high in
          rw equal (k.grows (var p) (ground arith))
      | inr other ↦ k.all_seen yes q (ground arith) high
    ];
  }

  pub push_others-IsPushed :
      (abstract_level : ℕ → Bool) (ps stack : List ℕ) (m : Marks)
      → is_once t.trail ≡ true
      → are_false_on t.trail ps ≡ true
      → IsPushed ps stack m (push_others t abstract_level ps stack m)
  unfolding push_others
  push_others-IsPushed abstract_level [] stack m o f =
      unpushed true [] stack m (λ b q e. absurd (false_not_true e))
  push_others-IsPushed abstract_level (p ∷ ps) stack m o f =
      elim (Bool-cases (m.seen (var p) || not (ltb 0 (t.level (var p))))) [
        | inl skipped ↦ rw skipped (
            IsPushed-next p ps stack m _ skipped
              (push_others-IsPushed abstract_level ps stack m o (ground arith)))
        | inr fresh ↦
            elim (Bool-cases
              (has_reason (t.reason (var p)) && abstract_level (t.level (var p) % 32))) [
                | inl open_one ↦
                    rw (fresh, open_one)
                      (IsPushed-more p ps stack m _ o (ground arith) (ground arith) (ground arith) (
                        push_others-IsPushed abstract_level ps (p ∷ stack) (push_mark p m) o
                          (ground arith)))
                | inr closed ↦
                    rw (fresh, closed)
                      (unpushed false (p ∷ ps) stack m (λ b. absurd (false_not_true b)))
              ]
      ]
