-- ===== src/Analyze/Stamps.antt =====
-- minimisationWithBinaryResolution: the stamps on the variables.
use dsyrup.Base.{
  false_not_true, clash, ℕ, suc, ◌+◌, ◌-◌, ◌%◌, ◌^◌, ◌≤◌, ◌<◌, ◌≡◌, refl, ap, ◌∙◌, subst, Bool,
  true, false, ◌||◌, ◌&&◌, List, [], ◌∷◌, arith, ◌==◌, All, Bool-cases, inl, inr,
}
use dsyrup.Analyze.Literals.{are_false_on, are_false_on-elem}
use dsyrup.Literal.{negate, var}
use dsyrup.Clause.{put}
use dsyrup.Clause.Meaning.{holds, satisfies, elem, holds-negate}
use dsyrup.Trail.{Lbool, l_true, l_false, l_undef, is_true, is_false, Trail, value}
use dsyrup.Trail.Invariant.{on_trail, is_once, IsTrail}
use dsyrup.Propagate.{Watcher}
use dsyrup.Lbd.{count_levels, compute_lbd}
use dsyrup.Analyze.{stamp_clause}
use dsyrup.Analyze.Reasons.{value-elem-negate}
use dsyrup.Analyze.Binary.{stamp_all, count_implied, is_stale}
use dsyrup.Analyze.Gathered.{count_if}

-- No stamp is above MYFLAG.
abbrev pub IsBelow : ℕ × (ℕ → ℕ) → Type 0
IsBelow (flag, perm) = (v : ℕ) → perm v ≤ flag

pub count_levels-le :
    (level : ℕ → ℕ) (flag : ℕ) (ps : List ℕ) (perm : ℕ → ℕ) (n : ℕ)
    → ((v : ℕ) → perm v ≤ flag)
    → (v : ℕ) → (count_levels level flag ps perm n).1 v ≤ flag
unfolding count_levels
count_levels-le level flag [] perm n h = h
count_levels-le level flag (p ∷ ps) perm n h = elim (Bool-cases (perm (level (var p)) == flag)) [
  | inl old ↦ rw old (count_levels-le level flag ps perm n h)
  | inr new ↦ rw new (
      count_levels-le level flag ps (put (level (var p)) flag perm) (suc n)
        (λ v. let before = h v in ground arith))
]

-- A clause that is met moves MYFLAG by at most one, and keeps the stamps below it.
pub stamp_clause-IsBelow :
    (level : ℕ → ℕ) (counts : Bool) (c : List ℕ) (stamps : ℕ × (ℕ → ℕ))
    → IsBelow stamps
    → stamps.0 + 1 < 2 ^ 32
    → IsBelow (stamp_clause level counts c stamps)
      × ((stamp_clause level counts c stamps).0 ≤ stamps.0 + 1)
unfolding stamp_clause compute_lbd
stamp_clause-IsBelow level false c stamps below small = (below, omega arith)
stamp_clause-IsBelow level true c stamps below small = (
  λ v.
      let all =
        count_levels-le level ((stamps.0 + 1) % 2 ^ 32) c stamps.1 0
          (λ u. let old = below u in omega arith) in
      all v,
  omega arith,
)

pub stamp_all-on_trail :
    (flag : ℕ) (ls : List ℕ) (perm : ℕ → ℕ) (v : ℕ)
    → (stamp_all flag ls perm v == flag) ≡ on_trail v ls || (perm v == flag)
stamp_all-on_trail flag [] perm v = refl
stamp_all-on_trail flag (l ∷ ls) perm v =
    let rest = stamp_all-on_trail flag ls (put (var l) flag perm) v in ground arith

module _ (flag older : ℕ) (differ : (older == flag) ≡ false) where
  count_if-off :
      (perm : ℕ → ℕ) (v : ℕ) (ls : List ℕ)
      → on_trail v ls ≡ false
      → count_if (is_stale flag (put v older perm)) ls ≡ count_if (is_stale flag perm) ls
  count_if-off perm v [] o = refl
  count_if-off perm v (l ∷ ls) o =
      let other : (v == var l) ≡ false = ground arith in
      rw (other, count_if-off perm v ls (ground arith)) refl

  count_if-on :
      (perm : ℕ → ℕ) (v : ℕ) (ls : List ℕ)
      → is_once ls ≡ true
      → on_trail v ls ≡ true
      → (perm v == flag) ≡ true
      → count_if (is_stale flag (put v older perm)) ls ≡ suc (count_if (is_stale flag perm) ls)
  count_if-on perm v [] o e h = absurd (false_not_true e)
  count_if-on perm v (l ∷ ls) o e h = elim (Bool-cases (var l == v)) [
    | inl here ↦
        let same : v ≡ var l = ground arith in
        let off : on_trail v ls ≡ false = rw same (ground arith) in
        let rest = count_if-off perm v ls off in
        let own : (v == var l) ≡ true = ground arith in
        let stamped : (perm (var l) == flag) ≡ true = subst (λ w. (perm w == flag) ≡ true) same h in
        rw (own, rest, differ, stamped) (omega arith)
    | inr there ↦
        let rest = count_if-on perm v ls (ground arith) (ground arith) h in
        let other : (v == var l) ≡ false = ground arith in rw (other, rest) (omega arith)
  ]

  pub count_if-none :
      (perm : ℕ → ℕ) (ls : List ℕ)
      → ((l : ℕ) → elem l ls ≡ true → (perm (var l) == flag) ≡ true)
      → count_if (is_stale flag perm) ls ≡ 0
  count_if-none perm [] h = refl
  count_if-none perm (l ∷ ls) h =
      let now = h l (ground arith) in
      let rest = count_if-none perm ls (λ j e. h j (ground arith)) in rw (now, rest) refl

opposite_literals :
    (t : Trail) (a b : ℕ)
    → is_true (value t a) ≡ true
    → is_false (value t b) ≡ true
    → (var a == var b) ≡ true
    → a ≡ negate b
unfolding value negate
opposite_literals t a b x y v = elim (Bool-cases (a == b)) [
  | inl same ↦ let equal : a ≡ b = ground arith in absurd (both _ (rw equal at x) y)
  | inr other ↦ ground arith
]
  where
    both : (l : Lbool) → is_true l ≡ true → is_false l ≡ true → ⊥
    both l_true x y = cc
    both l_false x y = cc
    both l_undef x y = cc

module _ (t : Trail) (flag : ℕ) (positive : 0 < flag) (small : flag < 2 ^ 32) (lits : List ℕ) where
  pub older-differs : ((flag + (2 ^ 32 - 1)) % 2 ^ 32 == flag) ≡ false
  older-differs = ground arith

  pub count_implied-counts :
      (ws : List Watcher) (nb : ℕ) (perm : ℕ → ℕ)
      → is_once lits ≡ true
      → count_if (is_stale flag perm) lits ≡ nb
      → ((v : ℕ) → (perm v == flag) ≡ true → on_trail v lits ≡ true)
      → count_if (is_stale flag (count_implied t flag ws nb perm).1) lits
        ≡ (count_implied t flag ws nb perm).0
  count_implied-counts [] nb perm o c h = c
  count_implied-counts (w ∷ ws) nb perm o c h =
      let v = var w.blocker in
      let older = (flag + (2 ^ 32 - 1)) % 2 ^ 32 in
      elim (Bool-cases ((perm v == flag) && is_true (value t w.blocker))) [
        | inr other ↦ rw other (count_implied-counts ws nb perm o c h)
        | inl found ↦
            let stamped : (perm v == flag) ≡ true = ground arith in
            let one = count_if-on flag older older-differs perm v lits o (h v stamped) stamped in
            rw found (
              count_implied-counts ws (suc nb) (put v older perm) o (one ∙ ap suc c) (λ u e.
                elim (Bool-cases (v == u)) [
                  | inl same ↦ absurd (clash (rw same at e) older-differs)
                  | inr other ↦ h u (rw other at e)
                ]))
      ]

  -- What is no longer stamped gives the first literal of the clause.
  abbrev pub Implies : (ℕ → Bool) → ℕ → (ℕ → ℕ) → Type 0
  Implies α p perm =
      (x : ℕ)
      → elem x lits ≡ true
      → is_stale flag perm x ≡ true
      → holds α x ≡ true
      → holds α p ≡ true

  pub count_implied-Implies :
      (α : ℕ → Bool) (p : ℕ) (ws : List Watcher) (nb : ℕ) (perm : ℕ → ℕ)
      → IsTrail t
      → are_false_on t.trail lits ≡ true
      → All (λ w. satisfies α (p ∷ w.blocker ∷ []) ≡ true) ws
      → Implies α p perm
      → Implies α p (count_implied t flag ws nb perm).1
  count_implied-Implies α p [] nb perm k f sat h = h
  count_implied-Implies α p (w ∷ ws) nb perm k f (now, sat) h =
      let v = var w.blocker in
      let older = (flag + (2 ^ 32 - 1)) % 2 ^ 32 in
      elim (Bool-cases ((perm v == flag) && is_true (value t w.blocker))) [
        | inr other ↦ rw other (count_implied-Implies α p ws nb perm k f sat h)
        | inl found ↦
            let true_w : is_true (value t w.blocker) ≡ true = ground arith in
            rw found (
              count_implied-Implies α p ws (suc nb) (put v older perm) k f sat
                (λ x x_in stale true_x. elim (Bool-cases (v == var x)) [
                  | inr other ↦ h x x_in (rw other at stale) true_x
                  | inl same ↦
                      let false_x =
                        value-elem-negate t x k (are_false_on-elem t.trail lits x f x_in) in
                      let opposite = opposite_literals t w.blocker x true_w false_x same in
                      let flipped = holds-negate α x in
                      let either : (holds α p || (holds α (negate x) || false)) ≡ true =
                        rw opposite at now in
                      ground arith
                ]))
      ]
