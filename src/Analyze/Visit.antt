-- ===== src/Analyze/Visit.antt =====
-- analyze: what the loop over the literals of a clause adds to the resolvent.
use mathlib.Core.List.{append_assoc}
use dsyrup.Base.{
  clash, append_nothing, ℕ, suc, ◌+◌, ◌≡◌, refl, sym, ap, ◌∙◌, subst, Bool, true, false, ◌&&◌, ◌||◌,
  List, [], ◌∷◌, ◌++◌, arith, if◌then◌else◌, ◌==◌, ltb, leb, Bool-cases, inl, inr, ◌⊎◌,
}
use dsyrup.Analyze.Literals.{
  elem-append, same_literal, same_negated, are_false_on, elem-on_trail, inserted,
  are_false_on-append,
}
use dsyrup.Literal.{negate, var}
use dsyrup.Literal.Laws.{negate-involutive}
use dsyrup.Clause.{put}
use dsyrup.Clause.Meaning.{satisfies, elem}
use dsyrup.Trail.Invariant.{on_trail, is_once}
use dsyrup.Final.Marks.{off_trail}
use dsyrup.Analyze.{Learning, visit_literal}

-- A literal is among the first, or the others.
abbrev pub among : ℕ → Learning → Bool
among q s = elem q s.out || elem q s.selectors

-- An assignment satisfies a literal of the lower levels that was collected.
abbrev pub some_low : (ℕ → Bool) → Learning → Bool
some_low α s = satisfies α s.out || satisfies α s.selectors

module _ (level : ℕ → ℕ) (current : ℕ) (is_selector : ℕ → Bool) where
  -- The literals of the current level on the trail that are seen.
  abbrev pub count_seen : (ℕ → Bool) → List ℕ → ℕ
  count_seen seen [] = 0
  count_seen seen (l ∷ ls) =
      (if seen (var l) && leb current (level (var l)) then 1 else 0) + count_seen seen ls

  -- All are of lower levels, and not of level 0.
  abbrev pub are_low : List ℕ → Bool
  are_low [] = true
  are_low (l ∷ ls) = ltb 0 (level (var l)) && ltb (level (var l)) current && are_low ls

  pub are_low-append : (c d : List ℕ) → are_low (c ++ d) ≡ are_low c && are_low d
  are_low-append [] d = refl
  are_low-append (x ∷ c) d = ground (arith, are_low-append c d)

  -- Each literal that is false on the trail, seen and of a lower level was collected.
  abbrev pub Collected : List ℕ → Learning → Type 0
  Collected trail s =
      (q : ℕ)
      → elem (negate q) trail ≡ true
      → s.seen (var q) ≡ true
      → ltb (level (var q)) current ≡ true
      → among q s ≡ true

  -- Seen literals of the trail that the loop has passed are of lower levels.
  abbrev pub Passed : List ℕ → List ℕ → Learning → Type 0
  Passed trail ls s =
      (j : ℕ)
      → elem j trail ≡ true
      → s.seen (var j) ≡ true
      → elem j ls ≡ false
      → ltb (level (var j)) current ≡ true

  -- What the loop keeps, where `ls` is the rest of the trail.
  pub record IsLearning (trail ls : List ℕ) (s : Learning) : Type 0 where
    pub counted : s.path_c ≡ count_seen s.seen ls
    pub low_out : are_low s.out ≡ true
    pub low_selectors : are_low s.selectors ≡ true
    pub collected : Collected trail s
    pub passed : Passed trail ls s
    pub false_out : are_false_on trail s.out ≡ true
    pub false_selectors : are_false_on trail s.selectors ≡ true
    pub noted : (v : ℕ) → on_trail v (s.out ++ s.selectors) ≡ true → s.seen v ≡ true
    pub distinct : is_once (s.out ++ s.selectors) ≡ true
    pub known : (v : ℕ) → s.seen v ≡ true → on_trail v trail ≡ true

  pub count_seen-off :
      (seen : ℕ → Bool) (v : ℕ) (b : Bool) (ls : List ℕ)
      → on_trail v ls ≡ false
      → count_seen (put v b seen) ls ≡ count_seen seen ls
  count_seen-off seen v b [] o = refl
  count_seen-off seen v b (l ∷ ls) o =
      let other : (v == var l) ≡ false = ground arith in
      rw (other, count_seen-off seen v b ls (ground arith)) refl

  count_seen-on :
      (seen : ℕ → Bool) (l : ℕ) (ls : List ℕ)
      → is_once ls ≡ true
      → elem l ls ≡ true
      → seen (var l) ≡ false
      → leb current (level (var l)) ≡ true
      → count_seen (put (var l) true seen) ls ≡ suc (count_seen seen ls)
  count_seen-on seen l [] o e n h = cc
  count_seen-on seen l (x ∷ ls) o e n h = elim (Bool-cases (l == x)) [
    | inl here ↦
        let same : l ≡ x = ground arith in
        let off : on_trail (var l) ls ≡ false = rw same (ground arith) in
        let there = count_seen-off seen (var l) true ls off in
        let unseen : seen (var x) ≡ false = rw same at n in
        let high : leb current (level (var x)) ≡ true = rw same at h in
        let own : (var l == var x) ≡ true = rw same (ground arith) in
        rw (own, there, unseen, high) (omega arith)
    | inr there ↦
        let rest = count_seen-on seen l ls (ground arith) (ground arith) n h in
        let apart = off_trail (var x) l ls (ground arith) (ground arith) in
        let other : (var l == var x) ≡ false = ground arith in rw (other, rest) (omega arith)
  ]

  -- Marking a variable of the current level.
  pub note-counted :
      (q : ℕ) (ls : List ℕ) (s : Learning)
      → is_once ls ≡ true
      → elem (negate q) ls ≡ true
      → s.seen (var q) ≡ false
      → leb current (level (var q)) ≡ true
      → count_seen (put (var q) true s.seen) ls ≡ suc (count_seen s.seen ls)
  note-counted q ls s o e n h =
      let same = (negate-involutive q).0 in
      subst (λ v. count_seen (put v true s.seen) ls ≡ suc (count_seen s.seen ls)) same
        (count_seen-on s.seen (negate q) ls o e (rw same n) (rw same h))

  count_seen-low :
      (seen : ℕ → Bool) (v : ℕ) (ls : List ℕ)
      → leb current (level v) ≡ false
      → count_seen (put v true seen) ls ≡ count_seen seen ls
  count_seen-low seen v [] h = refl
  count_seen-low seen v (l ∷ ls) h = elim (Bool-cases (v == var l)) [
    | inl same ↦
        let equal : v ≡ var l = ground arith in
        let low : leb current (level (var l)) ≡ false =
          subst (λ z. leb current (level z) ≡ false) equal h in
        rw (same, count_seen-low seen v ls h) (ground arith)
    | inr other ↦ rw (other, count_seen-low seen v ls h) refl
  ]

  -- After a literal is marked: it is collected, if its level is low, and so are those from before.
  pub marked-Collected :
      (trail : List ℕ) (q : ℕ) (s : Learning)
      → is_once trail ≡ true
      → elem (negate q) trail ≡ true
      → Collected trail s
      → (r : ℕ) → elem (negate r) trail ≡ true
      → put (var q) true s.seen (var r) ≡ true
      → (among r s || (r == q)) ≡ true ⊎ (ltb (level (var r)) current ≡ false)
  marked-Collected trail q s o e k r er sr = elim (Bool-cases (ltb (level (var r)) current)) [
    | inr high ↦ inr high
    | inl low ↦ elim (Bool-cases (var q == var r)) [
      | inl same ↦ let equal = same_negated trail q r o e er same in inl (rw equal (ground arith))
      | inr other ↦ inl (let old = k r er (rw other at sr) low in ground arith)
    ]
  ]

  marked-Passed :
      (trail ls : List ℕ) (q : ℕ) (s : Learning)
      → is_once trail ≡ true
      → elem (negate q) trail ≡ true
      → elem (negate q) ls ≡ true
      → Passed trail ls s
      → (j : ℕ) → elem j trail ≡ true
      → put (var q) true s.seen (var j) ≡ true
      → elem j ls ≡ false
      → ltb (level (var j)) current ≡ true
  marked-Passed trail ls q s o et el k j j_in seen_j off = elim (Bool-cases (var q == var j)) [
    | inl same ↦
        let vars : (var (negate q) == var j) ≡ true = rw ((negate-involutive q).0) same in
        let equal = same_literal trail (negate q) j o et j_in vars in
        absurd (clash (rw equal at el) off)
    | inr other ↦ k j j_in (rw other at seen_j) off
  ]

  pub visit_literal-IsLearning :
      (trail ls : List ℕ) (q : ℕ) (s : Learning)
      → is_once trail ≡ true
      → is_once ls ≡ true
      → elem (negate q) trail ≡ true
      → elem (negate q) ls ≡ true
      → IsLearning trail ls s
      → IsLearning trail ls (visit_literal level current is_selector q s)
  unfolding visit_literal
  visit_literal-IsLearning trail ls q s ot ol et el k =
      let marked = marked-Collected trail q s ot et k.collected in
      let passed = marked-Passed trail ls q s ot et el k.passed in
      let known : (v : ℕ) → put (var q) true s.seen v ≡ true → on_trail v trail ≡ true = λ v sv.
        elim (Bool-cases (var q == v)) [
          | inl same ↦
              let equal : var q ≡ v = ground arith in
              subst (λ z. on_trail z trail ≡ true) ((negate-involutive q).0 ∙ equal)
                (elem-on_trail trail (negate q) et)
          | inr other ↦ k.known v (rw other at sv)
        ] in
      let noted : (v : ℕ)
          → on_trail v (s.out ++ s.selectors) ≡ true
          → put (var q) true s.seen v ≡ true =
        λ v on. let old = k.noted v on in ground arith in
      elim (Bool-cases (s.seen (var q) || (level (var q) == 0))) [
        | inl skipped ↦ rw skipped k
        | inr fresh ↦
            let unseen : s.seen (var q) ≡ false = ground arith in
            let positive : ltb 0 (level (var q)) ≡ true = ground arith in
            rw fresh (elim (Bool-cases (leb current (level (var q)))) [
              | inl high ↦ rw high (record {
                counted = ap suc k.counted ∙ sym (note-counted q ls s ol el unseen high);
                low_out = k.low_out;
                low_selectors = k.low_selectors;
                collected = λ r er sr lr. elim (marked r er sr) [
                  | inl found ↦ elim (Bool-cases (r == q)) [
                    | inl same ↦
                        let equal : q ≡ r = ground arith in
                        let high' : leb current (level (var r)) ≡ true = rw equal at high in
                        ground arith
                    | inr other ↦ ground arith
                  ]
                  | inr no_low ↦ absurd (clash lr no_low)
                ];
                passed = passed;
                false_out = k.false_out;
                false_selectors = k.false_selectors;
                noted = noted;
                distinct = k.distinct;
                known = known;
              })
              | inr low ↦
                  let below : ltb (level (var q)) current ≡ true = ground arith in
                  let counted : s.path_c ≡ count_seen (put (var q) true s.seen) ls =
                    k.counted ∙ sym (count_seen-low s.seen (var q) ls low) in
                  let last =
                    inserted s.seen q (s.out ++ s.selectors) [] (s.out ++ (s.selectors ++ q ∷ []))
                      (sym (append_assoc s.out s.selectors (q ∷ []))) unseen
                      (rw (append_nothing (s.out ++ s.selectors)) k.noted)
                      (rw (append_nothing (s.out ++ s.selectors)) k.distinct) in
                  let inner =
                    inserted s.seen q s.out s.selectors ((s.out ++ q ∷ []) ++ s.selectors)
                      (append_assoc s.out (q ∷ []) s.selectors) unseen k.noted k.distinct in
                  rw low (elim (Bool-cases (is_selector (var q))) [
                    | inl selected ↦ rw selected (record {
                      counted = counted;
                      low_out = k.low_out;
                      low_selectors =
                          let a = are_low-append s.selectors (q ∷ []) in
                          let b = k.low_selectors in ground arith;
                      collected = λ r er sr lr. elim (marked r er sr) [
                        | inl found ↦ let a = elem-append r s.selectors (q ∷ []) in ground arith
                        | inr no_low ↦ absurd (clash lr no_low)
                      ];
                      passed = passed;
                      false_out = k.false_out;
                      false_selectors =
                          are_false_on-append trail s.selectors (q ∷ [])
                          ∙ rw (k.false_selectors, et) refl;
                      noted = last.0;
                      distinct = last.1;
                      known = known;
                    })
                    | inr plain ↦ rw plain (record {
                      counted = counted;
                      low_out =
                          let a = are_low-append s.out (q ∷ []) in
                          let b = k.low_out in ground arith;
                      low_selectors = k.low_selectors;
                      collected = λ r er sr lr. elim (marked r er sr) [
                        | inl found ↦ let a = elem-append r s.out (q ∷ []) in ground arith
                        | inr no_low ↦ absurd (clash lr no_low)
                      ];
                      passed = passed;
                      false_out =
                          are_false_on-append trail s.out (q ∷ []) ∙ rw (k.false_out, et) refl;
                      false_selectors = k.false_selectors;
                      noted = inner.0;
                      distinct = inner.1;
                      known = known;
                    })
                  ])
            ])
      ]
