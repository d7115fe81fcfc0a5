-- ===== src/Analyze/Asserting.antt =====
-- analyze: from a conflict of the current level the loop comes to an asserting clause.
use dsyrup.Base.{
  length, ◌+◌, ◌^◌, clash, ℕ, ◌≤◌, ◌<◌, ◌≡◌, refl, sym, ◌∙◌, Bool, true, false, some, List, [], ◌∷◌,
  ◌++◌, arith, ◌==◌, ltb, leb, Bool-cases, Option-cases, inl, inr,
}
use dsyrup.Analyze.Literals.{are_false_on, are_false_on-elem}
use dsyrup.Literal.{negate, var}
use dsyrup.Literal.Laws.{negate-involutive}
use dsyrup.Clause.Meaning.{satisfies-append, satisfies, elem, satisfies-witness}
use dsyrup.Trail.{Trail, decision_level}
use dsyrup.Trail.Invariant.{on_trail, is_once, IsTrail}
use dsyrup.Propagate.Invariant.{no_repeat}
use dsyrup.Final.Marks.{IsReason, Supported}
use dsyrup.Final.Sound.{Facts}
use dsyrup.Analyze.{
  Learning, visit_all, selectors_false, true_first, is_misplaced, stamp_clause, after_first,
  take_off, resolve_on, analyze_conflict, learnt_clause,
}
use dsyrup.Analyze.Visit.{are_low, IsLearning, are_low-append}
use dsyrup.Analyze.Visited.{visit_all-IsLearning, visit_all-Grows, visit_all-seen}
use dsyrup.Analyze.Reasons.{
  all_false, visited-selectors_false, Reasons, Descends, is_levelled-Descends, true_first-Read,
  exchanged, exchanged-Reasons, exchanged-Supported, SameLiterals, exchanged-SameLiterals,
  reason-is_misplaced,
}
use dsyrup.Analyze.Stamps.{IsBelow, stamp_clause-IsBelow}
use dsyrup.Analyze.Learnt.{
  IsCollected, end-IsCollected, is_current, counted_on, Resolved, Learns, visited-Resolved,
  counted-pos, take_off-IsLearning, last-satisfied, step-Resolved, counted-grows, seen-current,
}

-- The literals of a reason after the first.
pub others_read :
    (t : Trail) (l : ℕ) (before c : List ℕ)
    → IsTrail t
    → elem l t.trail ≡ true
    → ((k : ℕ) → elem k before ≡ true → elem k t.trail ≡ true)
    → IsReason l before c
    → no_repeat c ≡ true
    → ((k : ℕ) → elem k c ≡ true → (k == l) ≡ false → elem k (after_first (true_first t c)) ≡ true)
      × (are_false_on before (after_first (true_first t c)) ≡ true)
others_read t l before c w e b r n =
    let (rest, shape, others, f) = true_first-Read t l before c w e b r n in rw shape (others, f)

module _ (t : Trail) (is_selector counts : ℕ → Bool) (ca : ℕ → List ℕ) (l : ℕ) (ls : List ℕ)
    (stamps : ℕ × (ℕ → ℕ)) (s : Learning) where
  resolve_on-skip :
      s.seen (var l) ≡ false
      → resolve_on t is_selector counts ca (l ∷ ls) stamps s
        ≡ resolve_on t is_selector counts ca ls stamps s
  unfolding resolve_on
  resolve_on-skip h = rw h refl

  resolve_on-stop :
      s.seen (var l) ≡ true
      → ltb 0 (take_off l s).path_c ≡ false
      → resolve_on t is_selector counts ca (l ∷ ls) stamps s ≡ some (l, ca, stamps, take_off l s)
  unfolding resolve_on
  resolve_on-stop h k = rw (h, k) refl

  resolve_on-step :
      (cr : ℕ)
      → s.seen (var l) ≡ true
      → ltb 0 (take_off l s).path_c ≡ true
      → t.reason (var l) ≡ some cr
      → is_misplaced t (ca cr) ≡ false
      → selectors_false t is_selector (after_first (true_first t (ca cr))) (take_off l s) ≡ true
      → resolve_on t is_selector counts ca (l ∷ ls) stamps s
        ≡ resolve_on t is_selector counts
            (exchanged ca t cr)
            ls
            (stamp_clause t.level (counts cr) (true_first t (ca cr)) stamps)
            (visit_all t.level
              (decision_level t)
              is_selector
              (after_first (true_first t (ca cr)))
              (take_off l s))
  unfolding resolve_on
  resolve_on-step cr h k r well passes = rw (h, k, r, well, passes) refl

module _ (t : Trail) (is_selector counts : ℕ → Bool) (w : IsTrail t) where
  -- MYFLAG has moved by at most `n`.
  abbrev pub Moved : ℕ × (ℕ → ℕ) → ℕ → ℕ × (ℕ → ℕ) → Type 0
  Moved stamps n z = IsBelow z × (z.0 ≤ stamps.0 + n)

  abbrev Returns : (ℕ → List ℕ) → List ℕ → ℕ × (ℕ → ℕ) → Learning → Type 0
  Returns ca ls stamps s =
      (p : ℕ) × (ca' : ℕ → List ℕ) × (z : ℕ × (ℕ → ℕ)) × (s' : Learning) × (resolve_on t is_selector
          counts ca ls stamps s
        ≡ some (p, ca', z, s'))
      × Moved stamps (length ls) z
      × SameLiterals ca ca'
      × (Reasons ca t t.trail → Reasons ca' t t.trail)
      × Learns t is_selector ca ls s p s'

  unless_last :
      (α : ℕ → Bool) (l : ℕ) (ls : List ℕ) (s : Learning)
      → s.seen (var l) ≡ false
      → Resolved t is_selector α s (l ∷ ls)
      → Resolved t is_selector α s ls
  unless_last α l ls s unseen (inl low) = inl low
  unless_last α l ls s unseen (inr (k, inside, seen_k, high, false_k)) =
      elim (Bool-cases (k == l)) [
        | inl same ↦ let equal : k ≡ l = ground arith in absurd (clash (rw equal at seen_k) unseen)
        | inr other ↦ inr (k, ground arith, seen_k, high, false_k)
      ]

  -- A decision is the last literal of its level.
  last_of_level :
      (l : ℕ) (ls : List ℕ) (seen : ℕ → Bool)
      → ((k : ℕ) → elem k ls ≡ true → t.level (var k) < t.level (var l))
      → t.level (var l) ≤ decision_level t
      → counted_on t is_selector seen ls ≡ 0
  last_of_level l [] seen h b = refl
  last_of_level l (x ∷ ls) seen h b =
      let now = h x (ground arith) in
      let rest = last_of_level l ls seen (λ k e. h k (ground arith)) b in
      let low : leb (decision_level t) (t.level (var x)) ≡ false = ground arith in ground arith

  resolve_on-Learns :
      (ca : ℕ → List ℕ) (ls : List ℕ) (stamps : ℕ × (ℕ → ℕ)) (s : Learning)
      → IsBelow stamps
      → stamps.0 + length ls < 2 ^ 32
      → 0 < decision_level t
      → is_once ls ≡ true
      → ((k : ℕ) → elem k ls ≡ true → elem k t.trail ≡ true)
      → Descends t.level (decision_level t) ls
      → Reasons ca t ls
      → IsLearning t.level (decision_level t) is_selector t.trail ls s
      → 0 < s.path_c
      → Returns ca ls stamps s
  resolve_on-Learns ca [] stamps s low small o once inside d r k pos =
      let none_left = k.counted in absurd (omega arith)
  resolve_on-Learns ca (l ∷ ls) stamps s low small o once inside (own, order, d) (r, decision, rs) k
        pos =
      let off : on_trail (var l) ls ≡ false = ground arith in
      let below : (k : ℕ) → elem k ls ≡ true → elem k t.trail ≡ true =
        λ k e. inside k (ground arith) in
      elim (Bool-cases (s.seen (var l))) [
        | inr unseen ↦
            let k' : IsLearning t.level (decision_level t) is_selector t.trail ls s = record {
              counted = let all = k.counted in ground arith;
              low_out = k.low_out;
              low_selectors = k.low_selectors;
              collected = k.collected;
              passed = λ j j_in sj off_j. elim (Bool-cases (j == l)) [
                | inl same ↦
                    let equal : j ≡ l = ground arith in absurd (clash (rw equal at sj) unseen)
                | inr other ↦ k.passed j j_in sj (ground arith)
              ];
              false_out = k.false_out;
              false_selectors = k.false_selectors;
              noted = k.noted;
              distinct = k.distinct;
              known = k.known;
            } in
            let (
              p,
              ca',
              z,
              s',
              e,
              (z_low, z_small),
              same,
              reasons,
              (p_in, high, low_out, low_sel, done, says),
            ) =
              resolve_on-Learns ca ls stamps s low (omega arith) o (ground arith) below d rs k'
                pos in
            (
              p,
              ca',
              z,
              s',
              resolve_on-skip t is_selector counts ca l ls stamps s unseen ∙ e,
              (z_low, omega arith),
              same,
              reasons,
              (
                ground arith,
                high,
                low_out,
                low_sel,
                done,
                λ α (sup, sups) facts q. says α sups facts (unless_last α l ls s unseen q),
              ),
            )
        | inl marked ↦
            let counted = k.counted in
            let high = seen-current t is_selector l ls s (own, order, d) (omega arith) in
            let s1 = take_off l s in
            let k1 = take_off-IsLearning t is_selector l ls s off marked high k in
            elim (Bool-cases (ltb 0 s1.path_c)) [
              | inr stop ↦
                  let left = k1.counted in
                  let none_left : counted_on t is_selector s1.seen ls ≡ 0 = ground arith in
                  (
                    l,
                    ca,
                    stamps,
                    s1,
                    resolve_on-stop t is_selector counts ca l ls stamps s marked stop,
                    (low, omega arith),
                    λ c q. refl,
                    λ h. h,
                    (
                      ground arith,
                      high,
                      k1.low_out,
                      k1.low_selectors,
                      end-IsCollected t is_selector ls s1 none_left k1,
                      λ α sup facts q. last-satisfied t is_selector α l ls s off none_left q,
                    ),
                  )
              | inl more ↦ elim (Option-cases (t.reason (var l))) [
                | inl no_reason ↦
                    let left = k1.counted in
                    let gone =
                      last_of_level l ls s1.seen (λ j e. decision no_reason j e (ground arith))
                        own in
                    absurd (ground arith)
                | inr (cr, reason) ↦
                    let (i, n) = r cr reason in
                    let c = true_first t (ca cr) in
                    let (others, f) =
                      others_read t l ls (ca cr) w (inside l (ground arith)) below i n in
                    let on_all : are_false_on t.trail (after_first c) ≡ true =
                      all_false t.trail (after_first c)
                        (λ q e. below (negate q) (are_false_on-elem ls (after_first c) q f e)) in
                    let passes =
                      visited-selectors_false t is_selector (after_first c) s1 w on_all in
                    let s2 = visit_all t.level (decision_level t) is_selector (after_first c) s1 in
                    let k2 =
                      visit_all-IsLearning t.level (decision_level t) is_selector t.trail ls
                        (after_first c) s1 w.once (ground arith) below f k1 in
                    let (grows, kept) =
                      visit_all-Grows t.level (decision_level t) is_selector (λ v. true)
                        (after_first c) s1 in
                    let (low2, small2) =
                      stamp_clause-IsBelow t.level (counts cr) c stamps low (omega arith) in
                    let stamps2 = stamp_clause t.level (counts cr) c stamps in
                    let left = k1.counted in
                    let some_left =
                      counted-grows t is_selector s1.seen s2.seen ls grows (ground arith) in
                    let counted2 = k2.counted in
                    let (
                      p,
                      ca',
                      z,
                      s',
                      e,
                      (z_low, z_small),
                      same,
                      reasons,
                      (p_in, high', low_out, low_sel, done, says),
                    ) =
                      resolve_on-Learns (exchanged ca t cr) ls stamps2 s2 low2 (omega arith) o
                        (ground arith) below d (exchanged-Reasons ca t cr ls rs) k2 (omega arith) in
                    (
                      p,
                      ca',
                      z,
                      s',
                      resolve_on-step t is_selector counts ca l ls stamps s cr marked more reason
                            (reason-is_misplaced t l ls (ca cr) w (inside l (ground arith)) i)
                            passes
                          ∙ e,
                      (z_low, omega arith),
                      λ c' q. same c' q ∙ exchanged-SameLiterals ca t cr c' q,
                      λ h. reasons (exchanged-Reasons ca t cr t.trail h),
                      (
                        ground arith,
                        high',
                        low_out,
                        low_sel,
                        done,
                        λ α (sup, sups) facts q.
                            says α (exchanged-Supported ca t cr α ls sups) facts (
                              step-Resolved t is_selector α l ls (ca cr) (after_first c) s off facts
                                below f others (sup cr reason) k2 q),
                      ),
                    )
              ]
            ]
      ]

  no_literal_seen : (ls : List ℕ) → counted_on t is_selector (λ v. false) ls ≡ 0
  no_literal_seen [] = refl
  no_literal_seen (l ∷ ls) = omega (arith, no_literal_seen ls)

  -- On a well-formed trail, whose literals are decisions or have reasons without repetition and
  -- whose decisions come before the other literals of their levels: if the literals of the
  -- conflicting clause are all false on the trail, and one of them is of the current level, which
  -- is not 0, then the loop comes to an end; the literal at which it ends is of the current level
  -- and all others of the learnt clause are of lower levels, but not of level 0, and false; they
  -- alone are marked as seen on the trail, the reasons keep their literals, and MYFLAG moves by at
  -- most one more than the trail has literals. Each assignment
  -- that satisfies the conflicting clause, the reasons and the literals of level 0 satisfies the
  -- learnt clause.
  pub analyze_conflict-learns :
      (ca : ℕ → List ℕ) (confl q : ℕ) (stamps : ℕ × (ℕ → ℕ))
      → IsBelow stamps
      → stamps.0 + length t.trail + 1 < 2 ^ 32
      → 0 < decision_level t
      → Reasons ca t t.trail
      → are_false_on t.trail (ca confl) ≡ true
      → elem q (ca confl) ≡ true
      → is_current t is_selector q ≡ true
      → (p : ℕ) × (ca' : ℕ → List ℕ) × (z : ℕ × (ℕ → ℕ)) × (s : Learning) × (analyze_conflict t
            is_selector counts ca confl stamps
          ≡ some (p, ca', z, s))
        × Moved stamps (length t.trail + 1) z
        × SameLiterals ca ca'
        × Reasons ca' t t.trail
        × IsCollected t is_selector s
        × (elem p t.trail ≡ true)
        × (is_current t is_selector p ≡ true)
        × (are_low t.level (decision_level t) is_selector (s.out ++ s.selectors) ≡ true)
        × ((α : ℕ → Bool)
            → Supported ca t α t.trail
            → Facts (λ cr. []) t α t.trail
            → satisfies α (ca confl) ≡ true
            → satisfies α (learnt_clause p s) ≡ true)
  unfolding analyze_conflict
  analyze_conflict-learns ca confl q stamps low small o r f q_in high =
      let s0 : Learning = record { seen = λ v. false; path_c = 0; out = []; selectors = [] } in
      let k0 : IsLearning t.level (decision_level t) is_selector t.trail t.trail s0 = record {
        counted = sym (no_literal_seen t.trail);
        low_out = refl;
        low_selectors = refl;
        collected = λ j e sj lj. absurd (clash sj refl);
        passed = λ j e sj off. absurd (clash sj refl);
        false_out = refl;
        false_selectors = refl;
        noted = λ v on. absurd (clash on refl);
        distinct = refl;
        known = λ v sv. absurd (clash sv refl);
      } in
      let s1 = visit_all t.level (decision_level t) is_selector (ca confl) s0 in
      let inside : (k : ℕ) → elem k t.trail ≡ true → elem k t.trail ≡ true = λ k e. e in
      let passes = visited-selectors_false t is_selector (ca confl) s0 w f in
      let k1 =
        visit_all-IsLearning t.level (decision_level t) is_selector t.trail t.trail (ca confl) s0
          w.once w.once inside f k0 in
      let q_false = are_false_on-elem t.trail (ca confl) q f q_in in
      let same = (negate-involutive q).0 in
      let seen_q =
        visit_all-seen t.level (decision_level t) is_selector (ca confl) q s0 q_in (ground arith) in
      let some_left =
        counted-pos t is_selector s1.seen t.trail (negate q) q_false (rw same seen_q)
          (rw same high) in
      let counted = k1.counted in
      let (low1, small1) =
        stamp_clause-IsBelow t.level (counts confl) (ca confl) stamps low (omega arith) in
      let stamps1 = stamp_clause t.level (counts confl) (ca confl) stamps in
      let (
        p,
        ca',
        z,
        s,
        e,
        (z_low, z_small),
        same_lits,
        reasons,
        (p_in, p_high, low_out, low_sel, done, says),
      ) =
        resolve_on-Learns ca t.trail stamps1 s1 low1 (omega arith) o w.once inside
          (is_levelled-Descends t.level t.trail_lim t.trail w.levelled) r k1 (omega arith) in
      let levels = are_low-append t.level (decision_level t) is_selector s.out s.selectors in
      (
        p,
        ca',
        z,
        s,
        rw passes e,
        (z_low, omega arith),
        same_lits,
        reasons r,
        done,
        p_in,
        p_high,
        ground arith,
        λ α sup facts sat.
            let (j, j_in, true_j) = satisfies-witness α (ca confl) sat in
            let start =
              visited-Resolved t is_selector α t.trail (ca confl) s0 j facts inside f k1 j_in
                true_j in
            let end = says α sup facts start in
            let parts = satisfies-append α s.out s.selectors in ground arith,
      )
