-- ===== src/Analyze/Minimised.antt =====
-- analyze: what the minimisation of the learnt clause leaves out follows from what it keeps.
use dsyrup.Base.{
  false_not_true, ℕ, suc, ◌<◌, ◌≡◌, refl, sym, ◌∙◌, subst, Bool, true, false, Option, none, some,
  List, [], ◌∷◌, ◌++◌, arith, if◌then◌else◌, ◌==◌, ltb, length, Bool-cases, Option-cases, inl, inr,
  ◌⊎◌,
}
use dsyrup.Analyze.Literals.{are_false_on, on_trail-append}
use dsyrup.Literal.{negate, var}
use dsyrup.Literal.Laws.{negate-involutive}
use dsyrup.Clause.Meaning.{elem}
use dsyrup.Trail.{Trail}
use dsyrup.Trail.Invariant.{on_trail, is_once, IsTrail}
use dsyrup.Final.Marks.{IsReason, off_trail}
use dsyrup.Analyze.{any_unseen, reason_literals, stays, minimise_local}
use dsyrup.Analyze.Reasons.{Reasons, SameLiterals}
use dsyrup.Analyze.Redundant.{
  Marks, Minimising, has_reason, unmark, lit_redundant, judge, minimise_deep,
}
use dsyrup.Analyze.Pushes.{Covers}
use dsyrup.Analyze.Closing.{Closed, grows-Closed, reason_at, search-IsSearched}

reason_of : (o : Option ℕ) → has_reason o ≡ true → (cr : ℕ) × (o ≡ some cr)
reason_of none e = absurd (false_not_true e)
reason_of (some cr) e = (cr, refl)

-- `analyze_toclear` lists every variable that is seen.
abbrev pub IsListed : Minimising → Type 0
IsListed s = (v : ℕ) → s.seen v ≡ true → on_trail v s.to_clear ≡ true

module _ (t : Trail) where
  -- The marks, after a literal was judged or some were removed, with the clauses as they were before.
  pub record IsMarked (s s' : Minimising) : Type 0 where
    pub same : SameLiterals s.ca s'.ca
    pub reasons : Reasons s'.ca t t.trail
    pub listed : IsListed s → IsListed s'
    pub grows : (v : ℕ) → s.seen v ≡ true → s'.seen v ≡ true
    pub news :
        (k : ℕ)
        → elem k t.trail ≡ true
        → s'.seen (var k) ≡ true
        → (s.seen (var k) ≡ true) ⊎ Closed s.ca t s'.seen k

  pub same-IsMarked : (s : Minimising) → Reasons s.ca t t.trail → IsMarked s s
  same-IsMarked s r = record {
    same = λ c q. refl;
    reasons = r;
    listed = λ h. h;
    grows = λ v h. h;
    news = λ k e h. inl h;
  }

  later-Closed :
      (s s1 s2 : Minimising) (l : ℕ)
      → IsMarked s s1
      → Closed s1.ca t s2.seen l
      → Closed s.ca t s2.seen l
  later-Closed s s1 s2 l k = grows-Closed s.ca s1.ca t s2.seen s2.seen l k.same (λ v h. h)

  trans-IsMarked : (s s1 s2 : Minimising) → IsMarked s s1 → IsMarked s1 s2 → IsMarked s s2
  trans-IsMarked s s1 s2 a b = record {
    same = λ c q. b.same c q ∙ a.same c q;
    reasons = b.reasons;
    listed = λ h. b.listed (a.listed h);
    grows = λ v h. b.grows v (a.grows v h);
    news = λ k e h. elim (b.news k e h) [
      | inr found ↦ inr (later-Closed s s1 s2 k a found)
      | inl sooner ↦ elim (a.news k e sooner) [
        | inl old ↦ inl old
        | inr found ↦ inr (grows-Closed s.ca s.ca t s1.seen s2.seen k (λ c q. refl) b.grows found)
      ]
    ];
  }

  -- Each literal is kept, or its negation is closed.
  abbrev pub Removes : Minimising → (ℕ → Bool) → List ℕ → List ℕ → Type 0
  Removes s seen ls kept =
      ((q : ℕ) → elem q kept ≡ true → elem q ls ≡ true)
      × ((q : ℕ) → elem q ls ≡ true → (elem q kept ≡ true) ⊎ Closed s.ca t seen (negate q))
      × (is_once ls ≡ true → is_once kept ≡ true)

  inside-off :
      (v : ℕ) (ls kept : List ℕ)
      → on_trail v ls ≡ false
      → ((q : ℕ) → elem q kept ≡ true → elem q ls ≡ true)
      → on_trail v kept ≡ false
  inside-off v ls [] o h = refl
  inside-off v ls (x ∷ kept) o h =
      let apart = off_trail v x ls o (h x (ground arith)) in
      let rest = inside-off v ls kept o (λ q e. h q (ground arith)) in ground arith

  cons-Removes :
      (s : Minimising) (seen : ℕ → Bool) (l : ℕ) (ls kept : List ℕ) (b : Bool)
      → (b ≡ true → Closed s.ca t seen (negate l))
      → Removes s seen ls kept
      → Removes s seen (l ∷ ls) (if b then kept else l ∷ kept)
  cons-Removes s seen l ls kept true h (inside, found, once) = (
    λ q e. let below = inside q e in ground arith,
    λ q e. elim (Bool-cases (q == l)) [
      | inl here ↦
          let equal : l ≡ q = ground arith in
          inr (subst (λ z. Closed s.ca t seen (negate z)) equal (h refl))
      | inr there ↦ found q (ground arith)
    ],
    λ o. once (ground arith),
  )
  cons-Removes s seen l ls kept false h (inside, found, once) = (
    λ q e. elim (Bool-cases (q == l)) [
      | inl here ↦ ground arith
      | inr there ↦ let below = inside q (ground arith) in ground arith
    ],
    λ q e. elim (Bool-cases (q == l)) [
      | inl here ↦ inl (ground arith)
      | inr there ↦ elim (found q (ground arith)) [
        | inl still ↦ inl (ground arith)
        | inr closed ↦ inr closed
      ]
    ],
    λ o.
        let rest = once (ground arith) in
        let off = inside-off (var l) ls kept (ground arith) inside in ground arith,
  )

  module _ (w : IsTrail t) (abstract_level : ℕ → Bool) (fuel : ℕ)
      (enough : suc (length t.trail) < fuel) where
    lit_redundant-IsMarked :
        (l cr : ℕ) (s : Minimising)
        → Reasons s.ca t t.trail
        → elem (negate l) t.trail ≡ true
        → t.reason (var l) ≡ some cr
        → (b : Bool) × (s1 : Minimising) × (lit_redundant t abstract_level fuel l s ≡ some (b, s1))
          × IsMarked s s1
          × (b ≡ true → Closed s.ca t s1.seen (negate l))
    unfolding lit_redundant
    lit_redundant-IsMarked l cr s r e reason =
        let m : Marks = record { seen = s.seen; pushed = [] } in
        let (b, ca', m', found, k) =
          search-IsSearched t w abstract_level fuel s.ca (l ∷ []) m (omega arith) r (λ q inside.
            let same : l ≡ q = ground arith in
            subst (λ z. (elem (negate z) t.trail ≡ true) × (c : ℕ) × (t.reason (var z) ≡ some c))
              same (e, cr, reason)) in
        elim (Bool-cases b) [
          | inl gone ↦ (
            true,
            record { ca = ca'; seen = m'.seen; to_clear = m'.pushed ++ s.to_clear },
            rw (found, gone) refl,
            record {
              same = k.same;
              reasons = k.reasons;
              listed = λ h v sv.
                  let base : ℕ → Bool = λ u. on_trail u s.to_clear in
                  let start : Covers base m = λ u su. let old = h u su in ground arith in
                  let end = k.covers base start v sv in
                  let both = on_trail-append v m'.pushed s.to_clear in ground arith;
              grows = k.grows;
              news = k.news gone;
            },
            λ _. k.closed gone l (ground arith),
          )
          | inr stays_on ↦ (
            false,
            record { ca = ca'; seen = unmark m'.pushed m'.seen; to_clear = s.to_clear },
            rw (found, stays_on) refl,
            record {
              same = k.same;
              reasons = k.reasons;
              listed = λ h v sv. h v (sym (k.restores v) ∙ sv);
              grows = λ v h. k.restores v ∙ h;
              news = λ j i h. inl (sym (k.restores (var j)) ∙ h);
            },
            λ bad. absurd (false_not_true bad),
          )
        ]

    judge-IsMarked :
        (l : ℕ) (s : Minimising)
        → Reasons s.ca t t.trail
        → elem (negate l) t.trail ≡ true
        → (b : Bool) × (s1 : Minimising) × (judge t abstract_level fuel l s ≡ some (b, s1))
          × IsMarked s s1
          × (b ≡ true → Closed s.ca t s1.seen (negate l))
    judge-IsMarked l s r e = elim (Bool-cases (has_reason (t.reason (var l)))) [
      | inr decision ↦
          (false, s, rw decision refl, same-IsMarked s r, λ bad. absurd (false_not_true bad))
      | inl has ↦
          let (cr, reason) = reason_of (t.reason (var l)) has in
          let (b, s1, found, k, closed) = lit_redundant-IsMarked l cr s r e reason in
          (b, s1, rw has found, k, closed)
    ]

    pub minimise_deep-Removes :
        (ls : List ℕ) (s : Minimising)
        → Reasons s.ca t t.trail
        → are_false_on t.trail ls ≡ true
        → (kept : List ℕ) × (s' : Minimising) × (minimise_deep t abstract_level fuel ls s
            ≡ some (kept, s'))
          × IsMarked s s'
          × Removes s s'.seen ls kept
    unfolding minimise_deep
    minimise_deep-Removes [] s r f =
        ([], s, refl, same-IsMarked s r, (λ q e. e, λ q e. absurd (false_not_true e), λ o. o))
    minimise_deep-Removes (l ∷ ls) s r f =
        let (b, s1, found, k, closed) = judge-IsMarked l s r (ground arith) in
        let (kept, s2, found', k', (inside, removed, once)) =
          minimise_deep-Removes ls s1 k.reasons (ground arith) in
        let closed' : b ≡ true → Closed s.ca t s2.seen (negate l) = λ gone.
          grows-Closed s.ca s.ca t s1.seen s2.seen (negate l) (λ c q. refl) k'.grows
            (closed gone) in
        (
          if b then kept else l ∷ kept,
          s2,
          rw (found, found') refl,
          trans-IsMarked s s1 s2 k k',
          cons-Removes s s2.seen l ls kept b closed' (
            inside,
            λ q e. elim (removed q e) [
              | inl still ↦ inl still
              | inr gone ↦ inr (later-Closed s s1 s2 (negate q) k gone)
            ],
            once,
          ),
        )

  any_unseen-elem :
      (seen : ℕ → Bool) (c : List ℕ) (q : ℕ)
      → any_unseen t.level seen c ≡ false
      → elem q c ≡ true
      → ltb 0 (t.level (var q)) ≡ true
      → seen (var q) ≡ true
  any_unseen-elem seen [] q a e h = absurd (false_not_true e)
  any_unseen-elem seen (x ∷ c) q a e h = elim (Bool-cases (q == x)) [
    | inl here ↦
        let same : q ≡ x = ground arith in
        let high : ltb 0 (t.level (var x)) ≡ true = rw same at h in rw same (ground arith)
    | inr there ↦ any_unseen-elem seen c q (ground arith) (ground arith) h
  ]

  -- The literals of a reason that the basic minimisation reads hold all but the implied one.
  reason_literals-elem :
      (c before : List ℕ) (l q : ℕ)
      → IsReason l before c
      → elem q c ≡ true
      → (q == l) ≡ false
      → elem q (reason_literals c) ≡ true
  reason_literals-elem [] before l q r e d = absurd (false_not_true e)
  reason_literals-elem (x ∷ c) before l q r e d = elim (Bool-cases (length c == 1)) [
    | inl binary ↦ let two : (length (x ∷ c) == 2) ≡ true = ground arith in rw two e
    | inr long ↦
        let other : (length (x ∷ c) == 2) ≡ false = ground arith in
        let first = r.placed x c refl long in rw other (ground arith)
  ]

  removed-Closed :
      (s : Minimising) (l : ℕ)
      → Reasons s.ca t t.trail
      → elem (negate l) t.trail ≡ true
      → stays s.ca t s.seen (t.reason (var l)) ≡ false
      → Closed s.ca t s.seen (negate l)
  removed-Closed s l r e h = elim (Option-cases (t.reason (var l))) [
    | inl decision ↦ absurd (false_not_true (sym (rw decision at h)))
    | inr (cr, reason) ↦
        let reason' : t.reason (var (negate l)) ≡ some cr = rw ((negate-involutive l).0) reason in
        let (before, inside, i, n) = reason_at s.ca t t.trail (negate l) cr r e reason' in
        let none_unseen : any_unseen t.level s.seen (reason_literals (s.ca cr)) ≡ false =
          rw reason at h in
        (
          cr,
          reason',
          λ q q_in apart high.
              any_unseen-elem s.seen (reason_literals (s.ca cr)) q none_unseen
                (reason_literals-elem (s.ca cr) before (negate l) q i q_in apart) high,
        )
  ]

  pub minimise_local-Removes :
      (ls : List ℕ) (s : Minimising)
      → Reasons s.ca t t.trail
      → are_false_on t.trail ls ≡ true
      → Removes s s.seen ls (minimise_local s.ca t s.seen ls)
  unfolding minimise_local
  minimise_local-Removes [] s r f = (λ q e. e, λ q e. absurd (false_not_true e), λ o. o)
  minimise_local-Removes (l ∷ ls) s r f =
      let rest = minimise_local-Removes ls s r (ground arith) in
      elim (Bool-cases (stays s.ca t s.seen (t.reason (var l)))) [
        | inl on ↦
            rw on (cons-Removes s s.seen l ls _ false (λ bad. absurd (false_not_true bad)) rest)
        | inr gone ↦
            rw gone (
              cons-Removes s s.seen l ls _ true (λ _. removed-Closed s l r (ground arith) gone)
                rest)
      ]
