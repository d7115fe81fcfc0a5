-- ===== src/Analyze/Sound.antt =====
-- analyze: the clause that it learns asserts a literal, and follows from the clauses.
use mathlib.Core.List.{reverse, reverse_aux}
use dsyrup.Base.{
  ◌||◌, ℕ, suc, ◌+◌, ◌^◌, ◌≤◌, ◌<◌, ◌≡◌, refl, ◌∙◌, Bool, true, false, not, ◌&&◌, some, List, [],
  ◌∷◌, ◌++◌, arith, ◌==◌, leb, length, get_or, All, Bool-cases, inl, inr,
}
use dsyrup.Analyze.Literals.{elem-append, are_false_on, are_false_on-append, are_false_on-elem}
use dsyrup.Literal.{negate, var}
use dsyrup.Clause.Meaning.{satisfies, elem, satisfies-elem, satisfies-witness}
use dsyrup.Trail.{Trail, decision_level}
use dsyrup.Trail.Invariant.{on_trail, is_once, IsTrail}
use dsyrup.Propagate.{Watcher}
use dsyrup.Lbd.{compute_lbd}
use dsyrup.Final.Marks.{Supported}
use dsyrup.Final.Sound.{Facts}
use dsyrup.Analyze.{learnt_clause, find_btlevel}
use dsyrup.Analyze.Reasons.{Reasons, SameLiterals, all_false}
use dsyrup.Analyze.Learnt.{is_current, are_low-elem}
use dsyrup.Analyze.Asserting.{analyze_conflict-learns}
use dsyrup.Analyze.Backtrack.{find_btlevel-below}
use dsyrup.Analyze.Implied.{minimise-satisfies}
use dsyrup.Analyze.Redundant.{Minimising, unmark}
use dsyrup.Analyze.Pushes.{unmark-at, unmark-on_trail}
use dsyrup.Analyze.Minimised.{IsListed}
use dsyrup.Analyze.Stamps.{IsBelow}
use dsyrup.Analyze.Resolvent.{minimise_binary-satisfies}
use dsyrup.Analyze.Whole.{Options, Analysis, shorten, analyze}

same-satisfies :
    (α : ℕ → Bool) (c d : List ℕ)
    → ((q : ℕ) → elem q d ≡ elem q c)
    → satisfies α c ≡ true
    → satisfies α d ≡ true
same-satisfies α c d same h =
    let (l, l_in, true_l) = satisfies-witness α c h in satisfies-elem α l d (same l ∙ l_in) true_l

same-Supported :
    (ca ca' : ℕ → List ℕ) (t : Trail) (α : ℕ → Bool) (ls : List ℕ)
    → SameLiterals ca ca'
    → Supported ca t α ls
    → Supported ca' t α ls
same-Supported ca ca' t α [] same h = tt
same-Supported ca ca' t α (l ∷ ls) same (now, h) = (
  λ cr e. same-satisfies α (ca cr) (ca' cr) (same cr) (now cr e),
  same-Supported ca ca' t α ls same h,
)

inside-are_false_on :
    (ls c d : List ℕ)
    → are_false_on ls c ≡ true
    → ((q : ℕ) → elem q d ≡ true → elem q c ≡ true)
    → are_false_on ls d ≡ true
inside-are_false_on ls c d f h = all_false ls d (λ q e. are_false_on-elem ls c q f (h q e))

on_trail-reverse_aux :
    (v : ℕ) (c d : List ℕ) → on_trail v (reverse_aux c d) ≡ on_trail v c || on_trail v d
on_trail-reverse_aux v [] d = refl
on_trail-reverse_aux v (x ∷ c) d = let rest = on_trail-reverse_aux v c (x ∷ d) in ground arith

on_trail-reverse : (v : ℕ) (c : List ℕ) → on_trail v (reverse c) ≡ on_trail v c
on_trail-reverse v c = let whole = on_trail-reverse_aux v c [] in ground arith

-- What is listed is reset.
cleared : (m : Minimising) (v : ℕ) → IsListed m → unmark m.to_clear m.seen v ≡ false
cleared m v h = elim (Bool-cases (m.seen v)) [
  | inl marked ↦ unmark-on_trail m.to_clear m.seen v (h v marked)
  | inr clear ↦ unmark-at m.to_clear m.seen v clear
]

module _ (options : Options) (t : Trail) (is_selector : ℕ → Bool) (watches_bin : ℕ → List Watcher)
    (counts : ℕ → Bool) where
  -- An assignment satisfies the binary clauses that are watched.
  abbrev pub Binaries : (ℕ → Bool) → Type 0
  Binaries α =
      (first : ℕ)
      → All (λ w. satisfies α (first ∷ w.blocker ∷ []) ≡ true) (watches_bin (negate first))

  -- The first literal is that of the current level; the others are false, and of levels up to the one
  -- to go back to.
  abbrev pub Asserts : Analysis → Type 0
  Asserts r =
      (p : ℕ) × (elem p t.trail ≡ true)
      × (is_current t is_selector p ≡ true)
      × (get_or r.learnt 0 0 ≡ negate p)
      × (r.btlevel < decision_level t)
      × ((k : ℕ)
          → elem k r.learnt ≡ true
          → (k == negate p) ≡ false
          → (elem (negate k) t.trail ≡ true) × (t.level (var k) ≤ r.btlevel))

  module _ (w : IsTrail t) where
    shorten-satisfies :
        (first : ℕ) (ls : List ℕ) (stamps : ℕ × (ℕ → ℕ))
        → are_false_on t.trail ls ≡ true
        → is_once ls ≡ true
        → IsBelow stamps
        → stamps.0 + 2 < 2 ^ 32
        → (kept : List ℕ) × (s' : ℕ × (ℕ → ℕ)) × (shorten options t is_selector watches_bin counts
              first ls stamps
            ≡ some (kept, s'.0, s'.1))
          × ((q : ℕ) → elem q kept ≡ true → elem q ls ≡ true)
          × ((α : ℕ → Bool) → Binaries α → satisfies α (first ∷ kept) ≡ satisfies α (first ∷ ls))
    unfolding shorten
    shorten-satisfies first ls stamps f o below small =
        elim (Bool-cases (not options.incremental && leb (suc (length ls)) options.lb_size)) [
          | inr skipped ↦ (ls, stamps, rw skipped refl, λ q e. e, λ α b. refl)
          | inl called ↦
              let (kept, s', e, (inside, says)) =
                minimise_binary-satisfies t options.lb_lbd first (watches_bin (negate first)) ls
                  stamps w f o below small in
              (kept, s', rw called e, inside, λ α b. says α (b first))
        ]

    -- The whole analysis, for each setting of the options: on a well-formed trail, whose literals
    -- are decisions or have reasons without repetition and whose decisions come before the other
    -- literals of their levels, where no stamp is above MYFLAG, which with the number of literals
    -- of the trail is below 2 ^ 32 - 3, whichever clauses the loop counts the levels of: if the
    -- literals of the conflicting clause are all false on the trail, and one of them is of the
    -- current level, which is not 0, then the analysis comes to an end without a failed assertion
    -- and leaves `seen` clear. The first literal of the clause that it learns is the negation of
    -- one of the trail, of the current level; the others are false on the trail, and of levels up
    -- to the one to go back to, which is below the current one. Each assignment that satisfies the
    -- conflicting clause, the reasons, the binary clauses that are watched and the literals of
    -- level 0 satisfies the learnt clause.
    pub analyze-learns :
        (ca : ℕ → List ℕ) (confl q : ℕ) (stamps : ℕ × (ℕ → ℕ))
        → 0 < decision_level t
        → Reasons ca t t.trail
        → are_false_on t.trail (ca confl) ≡ true
        → elem q (ca confl) ≡ true
        → is_current t is_selector q ≡ true
        → IsBelow stamps
        → stamps.0 + length t.trail + 3 < 2 ^ 32
        → (r : Analysis) × (analyze options t is_selector watches_bin counts ca confl stamps
            ≡ some r)
          × Asserts r
          × ((v : ℕ) → r.seen v ≡ false)
          × ((α : ℕ → Bool)
              → Supported ca t α t.trail
              → Facts (λ cr. []) t α t.trail
              → Binaries α
              → satisfies α (ca confl) ≡ true
              → satisfies α r.learnt ≡ true)
    unfolding analyze
    analyze-learns ca confl q stamps o r f q_in high below small =
        let (p, ca', z, s, e1, (z_low, z_small), same, reasons, done, p_in, p_high, low, says1) =
          analyze_conflict-learns t is_selector counts w ca confl q stamps below (omega arith) o r f
            q_in high in
        let all = s.out ++ s.selectors in
        let f1 : are_false_on t.trail all ≡ true =
          are_false_on-append t.trail s.out s.selectors
          ∙ rw (done.false_out, done.false_selectors) refl in
        let (kept, m, e2, inside2, once2, listed2, says2) =
          minimise-satisfies t options.ccmin_mode (length t.trail + 2) (negate p) all
            (record { ca = ca'; seen = s.seen; to_clear = reverse (learnt_clause p s) }) w reasons
            f1 (λ j j_in h. elem-append (negate j) s.out s.selectors ∙ done.marks j j_in h)
            (omega arith) in
        let f2 = inside-are_false_on t.trail all kept f1 inside2 in
        let (lits, s', e3, inside3, says3) =
          shorten-satisfies (negate p) kept z f2 (once2 done.distinct) z_low (omega arith) in
        let (members, first, btlevel, highest) =
          find_btlevel-below t.level (decision_level t) (negate p) lits o
            (λ k e. are_low-elem t is_selector all k low (inside2 k (inside3 k e))) in
        let counted = compute_lbd t.level (find_btlevel t.level (negate p ∷ lits)).0 s' in
        (
          record {
            learnt = (find_btlevel t.level (negate p ∷ lits)).0;
            btlevel = (find_btlevel t.level (negate p ∷ lits)).1;
            lbd = counted.0;
            ca = m.ca;
            seen = unmark s.selectors (unmark m.to_clear m.seen);
            stamps = (counted.1, counted.2);
          },
          rw (e1, e2, e3) refl,
          (
            p,
            p_in,
            p_high,
            first,
            btlevel,
            λ k e other.
                let inside : elem k lits ≡ true = let both = members k in ground arith in
                (are_false_on-elem t.trail kept k f2 (inside3 k inside), highest k inside),
          ),
          λ v. unmark-at s.selectors (unmark m.to_clear m.seen) v (
              cleared m v (
                listed2 (λ u su.
                  let first : on_trail u (reverse (learnt_clause p s))
                      ≡ on_trail u (learnt_clause p s) =
                    on_trail-reverse u (learnt_clause p s) in
                  let later = done.listed u su in ground arith))),
          λ α sup facts bins sat. same-satisfies α (negate p ∷ lits) _ members (
              says3 α bins
              ∙ says2 α (same-Supported ca ca' t α t.trail same sup) facts
              ∙ says1 α sup facts sat),
        )
