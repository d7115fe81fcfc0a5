-- ===== src/Analyze/Learnt.antt =====
-- analyze: the loop over the trail ends, and the clause that it learns.
use dsyrup.Base.{
  false_not_true, clash, ◌++◌, ℕ, ◌+◌, ◌<◌, ◌≡◌, refl, ap, ◌∙◌, subst, Bool, true, false, not, ◌&&◌,
  ◌||◌, List, [], ◌∷◌, arith, ◌==◌, ltb, leb, Bool-cases, inl, inr, ◌⊎◌,
}
use dsyrup.Analyze.Literals.{elem-append, are_false_on, elem-on_trail, are_false_on-elem}
use dsyrup.Literal.{negate, var}
use dsyrup.Literal.Laws.{negate-involutive}
use dsyrup.Clause.{put}
use dsyrup.Clause.Meaning.{holds, satisfies, elem, holds-negate, satisfies-elem, satisfies-witness}
use dsyrup.Trail.{Trail, decision_level}
use dsyrup.Trail.Invariant.{on_trail, is_once}
use dsyrup.Final.Marks.{Supported, off_trail}
use dsyrup.Final.Sound.{Facts}
use dsyrup.Analyze.{Learning, visit_all, take_off}
use dsyrup.Analyze.Visit.{
  among, some_low, count_seen, are_low, are_low-append, IsLearning, count_seen-off,
}
use dsyrup.Analyze.Visited.{visit_all-Grows, visit_all-seen}
use dsyrup.Analyze.Reasons.{Descends}

module _ (t : Trail) (is_selector : ℕ → Bool) where
  abbrev pub is_current : ℕ → Bool
  is_current k = leb (decision_level t) (t.level (var k))

  abbrev pub counted_on : (ℕ → Bool) → List ℕ → ℕ
  counted_on seen ls = count_seen t.level (decision_level t) is_selector seen ls

  -- A literal of the current level to resolve on, which the assignment makes false.
  abbrev pub Open : (ℕ → Bool) → Learning → List ℕ → Type 0
  Open α s ls =
      (k : ℕ) × (elem k ls ≡ true)
      × (s.seen (var k) ≡ true)
      × (is_current k ≡ true)
      × (holds α k ≡ false)

  -- The assignment satisfies the clause that has been resolved so far.
  abbrev pub Resolved : (ℕ → Bool) → Learning → List ℕ → Type 0
  Resolved α s ls = (some_low α s ≡ true) ⊎ Open α s ls

  counted-witness :
      (seen : ℕ → Bool) (ls : List ℕ)
      → 0 < counted_on seen ls
      → (k : ℕ) × (elem k ls ≡ true) × (seen (var k) ≡ true) × (is_current k ≡ true)
  counted-witness seen [] h = absurd (omega arith)
  counted-witness seen (l ∷ ls) h = elim (Bool-cases (seen (var l) && is_current l)) [
    | inl here ↦ (l, ground arith, ground arith, ground arith)
    | inr other ↦
        let more : 0 < counted_on seen ls = ground arith in
        let (k, inside, seen_k, high) = counted-witness seen ls more in
        (k, ground arith, seen_k, high)
  ]

  pub counted-pos :
      (seen : ℕ → Bool) (ls : List ℕ) (k : ℕ)
      → elem k ls ≡ true
      → seen (var k) ≡ true
      → is_current k ≡ true
      → 0 < counted_on seen ls
  counted-pos seen [] k e h c = absurd (false_not_true e)
  counted-pos seen (l ∷ ls) k e h c = elim (Bool-cases (k == l)) [
    | inl here ↦
        let same : k ≡ l = ground arith in
        let seen_l : seen (var l) ≡ true = rw same at h in
        let high : is_current l ≡ true = rw same at c in rw (seen_l, high) (omega arith)
    | inr there ↦ let rest = counted-pos seen ls k (ground arith) h c in omega arith
  ]

  -- The literals of a satisfied clause that are visited, all false on the trail: if one that holds is
  -- among them, the resolvent is satisfied.
  pub visited-Resolved :
      (α : ℕ → Bool) (ls qs : List ℕ) (s : Learning) (j : ℕ)
      → Facts (λ cr. []) t α t.trail
      → ((k : ℕ) → elem k ls ≡ true → elem k t.trail ≡ true)
      → are_false_on ls qs ≡ true
      → IsLearning t.level
          (decision_level t)
          is_selector
          t.trail
          ls
          (visit_all t.level (decision_level t) is_selector qs s)
      → elem j qs ≡ true
      → holds α j ≡ true
      → Resolved α (visit_all t.level (decision_level t) is_selector qs s) ls
  visited-Resolved α ls qs s j facts inside f k e h =
      let s' = visit_all t.level (decision_level t) is_selector qs s in
      let before = are_false_on-elem ls qs j f e in
      let same = (negate-involutive j).0 in
      let opposite = holds-negate α j in
      elim (Bool-cases (ltb 0 (t.level (var j)))) [
        | inr ground_level ↦
            let fact = facts (negate j) (inside (negate j) before) (rw same ground_level) in
            absurd (clash fact (opposite ∙ ap not h))
        | inl positive ↦
            let seen_j = visit_all-seen t.level (decision_level t) is_selector qs j s e positive in
            elim (Bool-cases (is_current j)) [
              | inl high ↦ inr (negate j, before, rw same seen_j, rw same high, opposite ∙ ap not h)
              | inr low ↦
                  let found = k.collected j (inside (negate j) before) seen_j (ground arith) in
                  inl (elim (Bool-cases (elem j s'.out)) [
                    | inl out ↦ let a = satisfies-elem α j s'.out out h in ground arith
                    | inr selector ↦
                        let a = satisfies-elem α j s'.selectors (ground arith) h in ground arith
                  ])
            ]
      ]

  pub are_low-on_trail :
      (c : List ℕ) (v : ℕ)
      → are_low t.level (decision_level t) is_selector c ≡ true
      → on_trail v c ≡ true
      → ltb (t.level v) (decision_level t) ≡ true
  are_low-on_trail [] v h e = absurd (false_not_true e)
  are_low-on_trail (x ∷ c) v h e = elim (Bool-cases (var x == v)) [
    | inl same ↦ let equal : v ≡ var x = ground arith in rw equal (ground arith)
    | inr other ↦ are_low-on_trail c v (ground arith) (ground arith)
  ]

  pub take_off-IsLearning :
      (l : ℕ) (ls : List ℕ) (s : Learning)
      → on_trail (var l) ls ≡ false
      → s.seen (var l) ≡ true
      → is_current l ≡ true
      → IsLearning t.level (decision_level t) is_selector t.trail (l ∷ ls) s
      → IsLearning t.level (decision_level t) is_selector t.trail ls (take_off l s)
  take_off-IsLearning l ls s off h c k = record {
    counted =
        let gone =
          count_seen-off t.level (decision_level t) is_selector s.seen (var l) false ls off in
        let all : s.path_c ≡ 1 + counted_on s.seen ls = rw (h, c) at k.counted in
        rw gone (omega arith);
    low_out = k.low_out;
    low_selectors = k.low_selectors;
    collected = λ q e sq lq. k.collected q e (ground arith) lq;
    passed = λ j j_in sj off_j. elim (Bool-cases (j == l)) [
      | inl same ↦
          let equal : l ≡ j = ground arith in
          let own : (var l == var j) ≡ true = rw equal (ground arith) in
          absurd (clash sj (rw own refl))
      | inr other ↦ k.passed j j_in (ground arith) (ground arith)
    ];
    false_out = k.false_out;
    false_selectors = k.false_selectors;
    noted = λ v on. elim (Bool-cases (var l == v)) [
      | inl same ↦
          let equal : v ≡ var l = ground arith in
          let both = are_low-append t.level (decision_level t) is_selector s.out s.selectors in
          let a = k.low_out in
          let b = k.low_selectors in
          let low = are_low-on_trail (s.out ++ s.selectors) v (ground arith) on in
          let high : leb (decision_level t) (t.level v) ≡ true = rw equal c in
          absurd (clash high (ground arith))
      | inr other ↦ rw other (k.noted v on)
    ];
    distinct = k.distinct;
    known = λ v sv. k.known v (ground arith);
  }

  -- At the end, `seen` marks the collected literals alone, which are false on the trail.
  pub record IsCollected (s : Learning) : Type 0 where
    pub marks : (j : ℕ) → elem j t.trail ≡ true → s.seen (var j) ≡ true → among (negate j) s ≡ true
    pub false_out : are_false_on t.trail s.out ≡ true
    pub false_selectors : are_false_on t.trail s.selectors ≡ true
    pub distinct : is_once (s.out ++ s.selectors) ≡ true
    pub listed : (v : ℕ) → s.seen v ≡ true → on_trail v (s.out ++ s.selectors) ≡ true

  uncounted :
      (seen : ℕ → Bool) (ls : List ℕ) (j : ℕ)
      → counted_on seen ls ≡ 0
      → elem j ls ≡ true
      → seen (var j) ≡ true
      → ltb (t.level (var j)) (decision_level t) ≡ true
  uncounted seen [] j c e h = absurd (false_not_true e)
  uncounted seen (l ∷ ls) j c e h = elim (Bool-cases (j == l)) [
    | inl here ↦
        let same : j ≡ l = ground arith in
        let seen_l : seen (var l) ≡ true = rw same at h in rw same (ground arith)
    | inr there ↦ uncounted seen ls j (ground arith) (ground arith) h
  ]

  on_trail-elem :
      (v : ℕ) (ls : List ℕ) → on_trail v ls ≡ true → (j : ℕ) × (elem j ls ≡ true) × (var j ≡ v)
  on_trail-elem v [] e = absurd (false_not_true e)
  on_trail-elem v (x ∷ ls) e = elim (Bool-cases (var x == v)) [
    | inl here ↦ (x, ground arith, ground arith)
    | inr there ↦
        let (j, inside, same) = on_trail-elem v ls (ground arith) in (j, ground arith, same)
  ]

  end_marks :
      (ls : List ℕ) (s : Learning)
      → counted_on s.seen ls ≡ 0
      → IsLearning t.level (decision_level t) is_selector t.trail ls s
      → (j : ℕ) → elem j t.trail ≡ true
      → s.seen (var j) ≡ true
      → among (negate j) s ≡ true
  end_marks ls s c k j e h =
      let (same, opposite, back) = negate-involutive j in
      let low : ltb (t.level (var j)) (decision_level t) ≡ true = elim (Bool-cases (elem j ls)) [
        | inl left ↦ uncounted s.seen ls j c left h
        | inr passed ↦ k.passed j e h passed
      ] in
      k.collected (negate j) (rw back e) (rw same h) (rw same low)

  pub end-IsCollected :
      (ls : List ℕ) (s : Learning)
      → counted_on s.seen ls ≡ 0
      → IsLearning t.level (decision_level t) is_selector t.trail ls s
      → IsCollected s
  end-IsCollected ls s c k = record {
    marks = end_marks ls s c k;
    false_out = k.false_out;
    false_selectors = k.false_selectors;
    distinct = k.distinct;
    listed = λ v sv.
        let (j, inside, same) = on_trail-elem v t.trail (k.known v sv) in
        let seen_j : s.seen (var j) ≡ true = rw same sv in
        let found = elem-append (negate j) s.out s.selectors ∙ end_marks ls s c k j inside seen_j in
        subst (λ z. on_trail z (s.out ++ s.selectors) ≡ true) ((negate-involutive j).0 ∙ same)
          (elem-on_trail (s.out ++ s.selectors) (negate j) found);
  }

  -- What the loop returns, and what its clause says.
  abbrev pub Learns : (ℕ → List ℕ) → List ℕ → Learning → ℕ → Learning → Type 0
  Learns ca ls s p s' =
      (elem p ls ≡ true)
      × (is_current p ≡ true)
      × (are_low t.level (decision_level t) is_selector s'.out ≡ true)
      × (are_low t.level (decision_level t) is_selector s'.selectors ≡ true)
      × IsCollected s'
      × ((α : ℕ → Bool)
          → Supported ca t α ls
          → Facts (λ cr. []) t α t.trail
          → Resolved α s ls
          → (holds α (negate p) || some_low α s') ≡ true)

  -- Where it stops: no other literal of the current level is seen.
  pub last-satisfied :
      (α : ℕ → Bool) (l : ℕ) (ls : List ℕ) (s : Learning)
      → on_trail (var l) ls ≡ false
      → counted_on (put (var l) false s.seen) ls ≡ 0
      → Resolved α s (l ∷ ls)
      → (holds α (negate l) || some_low α s) ≡ true
  last-satisfied α l ls s off none_left (inl low) = ground arith
  last-satisfied α l ls s off none_left (inr (k, inside, seen_k, high, false_k)) =
      elim (Bool-cases (k == l)) [
        | inl same ↦
            let equal : k ≡ l = ground arith in
            let false_l : holds α l ≡ false = rw equal at false_k in
            let opposite = holds-negate α l in ground arith
        | inr other ↦
            let below : elem k ls ≡ true = ground arith in
            let apart = off_trail (var l) k ls off below in
            let some_left =
              counted-pos (put (var l) false s.seen) ls k below (rw apart seen_k) high in
            absurd (omega arith)
      ]

  -- A step of resolution on the literal `l`, with the others of its reason.
  pub step-Resolved :
      (α : ℕ → Bool) (l : ℕ) (ls c rest : List ℕ) (s : Learning)
      → on_trail (var l) ls ≡ false
      → Facts (λ cr. []) t α t.trail
      → ((k : ℕ) → elem k ls ≡ true → elem k t.trail ≡ true)
      → are_false_on ls rest ≡ true
      → ((k : ℕ) → elem k c ≡ true → (k == l) ≡ false → elem k rest ≡ true)
      → satisfies α c ≡ true
      → IsLearning t.level
          (decision_level t)
          is_selector
          t.trail
          ls
          (visit_all t.level (decision_level t) is_selector rest (take_off l s))
      → Resolved α s (l ∷ ls)
      → Resolved α (visit_all t.level (decision_level t) is_selector rest (take_off l s)) ls
  step-Resolved α l ls c rest s off facts inside f others sat k (inl low) =
      let (seen, grows) =
        visit_all-Grows t.level (decision_level t) is_selector α rest (take_off l s) in
      inl (grows low)
  step-Resolved α l ls c rest s off facts inside f others sat k
        (inr (j, j_in, seen_j, high, false_j)) =
      elim (Bool-cases (j == l)) [
        | inl same ↦
            let equal : j ≡ l = ground arith in
            let false_l : holds α l ≡ false = rw equal at false_j in
            let (i, i_in, true_i) = satisfies-witness α c sat in
            let other : (i == l) ≡ false = elim (Bool-cases (i == l)) [
              | inr other ↦ other
              | inl bad ↦ let e : i ≡ l = ground arith in absurd (clash (rw e at true_i) false_l)
            ] in
            visited-Resolved α ls rest (take_off l s) i facts inside f k (others i i_in other)
              true_i
        | inr other ↦
            let below : elem j ls ≡ true = ground arith in
            let apart = off_trail (var l) j ls off below in
            let (seen, grows) =
              visit_all-Grows t.level (decision_level t) is_selector α rest (take_off l s) in
            inr (j, below, seen (var j) (rw apart seen_j), high, false_j)
      ]

  pub counted-grows :
      (seen seen' : ℕ → Bool) (ls : List ℕ)
      → ((v : ℕ) → seen v ≡ true → seen' v ≡ true)
      → 0 < counted_on seen ls
      → 0 < counted_on seen' ls
  counted-grows seen seen' ls h p =
      let (k, inside, seen_k, high) = counted-witness seen ls p in
      counted-pos seen' ls k inside (h (var k) seen_k) high

  -- A literal that is seen before the last one of the current level is itself of that level.
  pub seen-current :
      (l : ℕ) (ls : List ℕ) (s : Learning)
      → Descends t.level (decision_level t) (l ∷ ls)
      → 0 < counted_on s.seen (l ∷ ls)
      → is_current l ≡ true
  seen-current l ls s (own, order, d) h =
      let (k, inside, seen_k, high) = counted-witness s.seen (l ∷ ls) h in
      elim (Bool-cases (k == l)) [
        | inl same ↦ let equal : k ≡ l = ground arith in rw equal at high
        | inr other ↦ let under = order k (ground arith) in ground arith
      ]

  pub are_low-elem :
      (c : List ℕ) (k : ℕ)
      → are_low t.level (decision_level t) is_selector c ≡ true
      → elem k c ≡ true
      → t.level (var k) < decision_level t
  are_low-elem [] k h e = absurd (false_not_true e)
  are_low-elem (x ∷ c) k h e = elim (Bool-cases (k == x)) [
    | inl same ↦ let equal : k ≡ x = ground arith in rw equal (ground arith)
    | inr other ↦ are_low-elem c k (ground arith) (ground arith)
  ]
