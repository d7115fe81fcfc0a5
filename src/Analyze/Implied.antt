-- ===== src/Analyze/Implied.antt =====
-- analyze: the minimised clause says the same as the learnt one.
use dsyrup.Base.{
  false_not_true, clash, ℕ, suc, ◌<◌, ◌≡◌, refl, sym, Bool, true, false, some, List, [], ◌∷◌, arith,
  ◌==◌, ltb, length, Bool-cases, inl, inr, ◌⊎◌,
}
use dsyrup.Analyze.Literals.{are_false_on, are_false_on-elem}
use dsyrup.Literal.{negate, var}
use dsyrup.Literal.Laws.{negate-involutive}
use dsyrup.Clause.Meaning.{holds, satisfies, elem, holds-negate, satisfies-elem, satisfies-witness}
use dsyrup.Trail.{Trail}
use dsyrup.Trail.Invariant.{is_once, IsTrail}
use dsyrup.Final.Marks.{IsReason, Supported}
use dsyrup.Final.Sound.{Facts}
use dsyrup.Analyze.{minimise_local}
use dsyrup.Analyze.Reasons.{Reasons}
use dsyrup.Analyze.Redundant.{Minimising, abstract_levels, minimise}
use dsyrup.Analyze.Closing.{Closed, reason_at}
use dsyrup.Analyze.Minimised.{
  IsListed, IsMarked, same-IsMarked, Removes, minimise_deep-Removes, minimise_local-Removes,
}

Supported-at :
    (ca : ℕ → List ℕ) (t : Trail) (α : ℕ → Bool) (ls : List ℕ) (l cr : ℕ)
    → Supported ca t α ls
    → elem l ls ≡ true
    → t.reason (var l) ≡ some cr
    → satisfies α (ca cr) ≡ true
Supported-at ca t α [] l cr s e h = absurd (false_not_true e)
Supported-at ca t α (x ∷ ls) l cr (now, s) e h = elim (Bool-cases (l == x)) [
  | inl here ↦ let same : x ≡ l = ground arith in now cr (rw same h)
  | inr there ↦ Supported-at ca t α ls l cr s (ground arith) h
]

module _ (ca : ℕ → List ℕ) (t : Trail) (α : ℕ → Bool) (seen : ℕ → Bool) where
  closed-holds :
      (before : List ℕ) (l cr : ℕ)
      → IsReason l before (ca cr)
      → satisfies α (ca cr) ≡ true
      → ((q : ℕ)
          → elem q (ca cr) ≡ true
          → (q == l) ≡ false
          → ltb 0 (t.level (var q)) ≡ true
          → seen (var q) ≡ true)
      → ((k : ℕ) → elem k before ≡ true → ltb 0 (t.level (var k)) ≡ false → holds α k ≡ true)
      → ((k : ℕ) → elem k before ≡ true → seen (var k) ≡ true → holds α k ≡ true)
      → holds α l ≡ true
  closed-holds before l cr r sat others facts marked =
      let (i, i_in, true_i) = satisfies-witness α (ca cr) sat in
      elim (Bool-cases (i == l)) [
        | inl same ↦ let equal : l ≡ i = ground arith in rw equal true_i
        | inr other ↦
            let sooner = r.others i i_in other in
            let same_var = (negate-involutive i).0 in
            let opposite : holds α (negate i) ≡ true = elim (Bool-cases (ltb 0 (t.level (var i)))) [
              | inl high ↦ marked (negate i) sooner (rw same_var (others i i_in other high))
              | inr low ↦ facts (negate i) sooner (rw same_var low)
            ] in
            let false_i : holds α (negate i) ≡ false = rw (holds-negate α i, true_i) refl in
            absurd (clash opposite false_i)
      ]

  -- From the first literal of the trail on.
  marked-holds :
      (ls : List ℕ)
      → Reasons ca t ls
      → Supported ca t α ls
      → Facts (λ cr. []) t α ls
      → ((k : ℕ) → elem k ls ≡ true → seen (var k) ≡ true → (holds α k ≡ true) ⊎ Closed ca t seen k)
      → (k : ℕ) → elem k ls ≡ true
      → seen (var k) ≡ true
      → holds α k ≡ true
  marked-holds [] r s facts good k e h = absurd (false_not_true e)
  marked-holds (l ∷ ls) (r, decision, rs) (s, ss) facts good k e h =
      let facts' : Facts (λ cr. []) t α ls = λ j j_in low. facts j (ground arith) low in
      let below = marked-holds ls rs ss facts' (λ j j_in m. good j (ground arith) m) in
      elim (Bool-cases (k == l)) [
        | inr other ↦ below k (ground arith) h
        | inl same ↦ elim (good k e h) [
          | inl direct ↦ direct
          | inr (cr, reason, others) ↦
              let equal : k ≡ l = ground arith in
              let reason' : t.reason (var l) ≡ some cr = rw equal at reason in
              let (i, n) = r cr reason' in
              rw equal (
                closed-holds ls l cr i (s cr reason')
                  (λ q q_in apart high. others q q_in (rw equal apart) high) facts' below)
        ]
      ]

pub same_truth : (a b : Bool) → (a ≡ true → b ≡ true) → (b ≡ true → a ≡ true) → a ≡ b
same_truth true b f g = sym (f refl)
same_truth false true f g = g refl
same_truth false false f g = refl

not_any :
    (α : ℕ → Bool) (c : List ℕ) (l : ℕ)
    → satisfies α c ≡ false
    → elem l c ≡ true
    → holds α l ≡ false
not_any α c l h e = elim (Bool-cases (holds α l)) [
  | inl bad ↦ absurd (clash (satisfies-elem α l c e bad) h)
  | inr fine ↦ fine
]

module _ (t : Trail) (lits : List ℕ) (f : are_false_on t.trail lits ≡ true) (s s' : Minimising)
    (reasons : Reasons s.ca t t.trail) (kept : List ℕ) (k : IsMarked t s s')
    (only : (j : ℕ)
      → elem j t.trail ≡ true
      → s.seen (var j) ≡ true
      → elem (negate j) lits ≡ true) where
  removed-false :
      (α : ℕ → Bool)
      → Removes t s s'.seen lits kept
      → Supported s.ca t α t.trail
      → Facts (λ cr. []) t α t.trail
      → satisfies α kept ≡ false
      → (l : ℕ) → elem l lits ≡ true
      → holds α l ≡ false
  removed-false α (inside, removed, once) sup facts none_holds l e =
      let closed_holds : (j : ℕ)
          → elem j t.trail ≡ true
          → Closed s.ca t s'.seen j
          → ((i : ℕ) → elem i t.trail ≡ true → s'.seen (var i) ≡ true → holds α i ≡ true)
          → holds α j ≡ true =
        λ j j_in (cr, reason, others) marked.
          let (before, within, r, n) = reason_at s.ca t t.trail j cr reasons j_in reason in
          closed-holds s.ca t α s'.seen before j cr r
            (Supported-at s.ca t α t.trail j cr sup j_in reason) others
            (λ i i_in low. facts i (within i i_in) low) (λ i i_in m. marked i (within i i_in) m) in
      let good : (j : ℕ)
          → elem j t.trail ≡ true
          → s'.seen (var j) ≡ true
          → (holds α j ≡ true) ⊎ Closed s.ca t s'.seen j =
        λ j j_in m. elim (k.news j j_in m) [
          | inr closed ↦ inr closed
          | inl old ↦ elim (removed (negate j) (only j j_in old)) [
            | inl still ↦
                let opposite = not_any α kept (negate j) none_holds still in
                let flipped = holds-negate α j in inl (ground arith)
            | inr closed ↦ let back = (negate-involutive j).2 in inr (rw back at closed)
          ]
        ] in
      let marked = marked-holds s.ca t α s'.seen t.trail reasons sup facts good in
      elim (removed l e) [
        | inl still ↦ not_any α kept l none_holds still
        | inr closed ↦
            let opposite =
              closed_holds (negate l) (are_false_on-elem t.trail lits l f e) closed marked in
            let flipped = holds-negate α l in ground arith
      ]

  kept-satisfies :
      (α : ℕ → Bool) (p : ℕ)
      → Removes t s s'.seen lits kept
      → Supported s.ca t α t.trail
      → Facts (λ cr. []) t α t.trail
      → satisfies α (p ∷ kept) ≡ satisfies α (p ∷ lits)
  kept-satisfies α p (inside, removed, once) sup facts =
      let same =
        same_truth (satisfies α kept) (satisfies α lits)
          (λ h.
            let (l, l_in, true_l) = satisfies-witness α kept h in
            satisfies-elem α l lits (inside l l_in) true_l)
          (λ h. elim (Bool-cases (satisfies α kept)) [
            | inl fine ↦ fine
            | inr none_holds ↦
                let (l, l_in, true_l) = satisfies-witness α lits h in
                absurd (
                  clash true_l
                    (removed-false α (inside, removed, once) sup facts none_holds l l_in))
          ]) in
      ground arith

-- For each way to minimise, on a well-formed trail whose literals are decisions or have reasons,
-- for a clause `p` and `lits`, the latter false on the trail, where `seen` marks no variables of
-- the trail but theirs: with fuel for two more than the literals of the trail, the minimisation
-- ends without a failed assertion and keeps only literals of the clause, without new repetitions
-- of a variable; if `analyze_toclear` listed every variable that is seen, it does so afterwards;
-- and each assignment that satisfies the reasons and the literals of level 0 satisfies what is
-- left exactly if it satisfies the clause.
pub minimise-satisfies :
    (t : Trail) (mode fuel p : ℕ) (lits : List ℕ) (s : Minimising)
    → IsTrail t
    → Reasons s.ca t t.trail
    → are_false_on t.trail lits ≡ true
    → ((j : ℕ) → elem j t.trail ≡ true → s.seen (var j) ≡ true → elem (negate j) lits ≡ true)
    → suc (length t.trail) < fuel
    → (kept : List ℕ) × (s' : Minimising) × (minimise mode fuel t lits s ≡ some (kept, s'))
      × ((q : ℕ) → elem q kept ≡ true → elem q lits ≡ true)
      × (is_once lits ≡ true → is_once kept ≡ true)
      × (IsListed s → IsListed s')
      × ((α : ℕ → Bool)
          → Supported s.ca t α t.trail
          → Facts (λ cr. []) t α t.trail
          → satisfies α (p ∷ kept) ≡ satisfies α (p ∷ lits))
unfolding minimise
minimise-satisfies t mode fuel p lits s w r f only enough = elim (Bool-cases (mode == 2)) [
  | inl deep ↦
      let (kept, s', e, k, (inside, removed, once)) =
        minimise_deep-Removes t w (abstract_levels t.level lits) fuel enough lits s r f in
      (
        kept,
        s',
        rw (deep, e) refl,
        inside,
        once,
        k.listed,
        λ α sup facts.
            kept-satisfies t lits f s s' r kept k only α p (inside, removed, once) sup facts,
      )
  | inr other ↦ elim (Bool-cases (mode == 1)) [
    | inl basic ↦
        let kept = minimise_local s.ca t s.seen lits in
        let (inside, removed, once) = minimise_local-Removes t lits s r f in
        (
          kept,
          s,
          rw (other, basic) refl,
          inside,
          once,
          λ h. h,
          λ α sup facts.
              kept-satisfies t lits f s s r kept (same-IsMarked t s r) only α p
                (inside, removed, once) sup facts,
        )
    | inr nothing ↦
        (lits, s, rw (other, nothing) refl, λ q e. e, λ o. o, λ h. h, λ α sup facts. refl)
  ]
]
