-- ===== src/Attach/Meaning.antt =====
-- Solver::addClause_ as a whole: each assignment that is a model of the clauses and of the new one is a
-- model afterwards.
use dsyrup.Base.{
  ℕ, ◌+◌, ◌<◌, ◌≡◌, ◌∙◌, refl, sym, subst, Bool, true, false, Option, none, some, List, [], ◌∷◌,
  ◌++◌, arith, ◌==◌, Bool-cases, inl, inr,
}
use dsyrup.Clause.{put}
use dsyrup.Clause.Meaning.{holds, satisfies, elem, satisfies-elem, satisfies-witness}
use dsyrup.Trail.{Trail, unchecked_enqueue, decision_level}
use dsyrup.Trail.Invariant.{unchecked_enqueue-IsTrail}
use dsyrup.Propagate.{Watcher, Store}
use dsyrup.Propagate.Bin.{unchecked_enqueue-Agrees}
use dsyrup.Propagate.Invariant.{in_range}
use dsyrup.Propagate.Long.{IsModel, are_live}
use dsyrup.Propagate.Ends.{unchecked_enqueue-kept}
use dsyrup.Propagate.Cleaned.{propagate-IsModel}
use dsyrup.Attach.{
  alloc, attach_at, attach_clause, reduce, Solver, no_conflict, add_reduced, add_clause,
}
use dsyrup.Attach.Reduce.{are_undef, reduce-some}
use dsyrup.Attach.State.{
  attach_at-IsModel, IsSolver, undef_first, IsSort, in_range-elem, in_range-all, allowed,
}

satisfies-elems :
    (α : ℕ → Bool) (a b : List ℕ)
    → ((l : ℕ) → elem l a ≡ true → elem l b ≡ true)
    → satisfies α a ≡ true
    → satisfies α b ≡ true
satisfies-elems α a b h e =
    let (l, inside, yes_l) = satisfies-witness α a e in satisfies-elem α l b (h l inside) yes_l

-- Added, and a model of the clauses that were live and of those that now are.
abbrev Modelled : (ℕ → Bool) → (ℕ → Bool) → Option (Bool × Solver) → Type 0
Modelled α live o =
    (r : Bool × Solver) × (o ≡ some r)
    × (r.0 ≡ true)
    × (live' : ℕ → Bool) × ((c : ℕ) → live c ≡ true → live' c ≡ true)
    × IsModel α live' r.1.store r.1.trail

put_live : (live : ℕ → Bool) (cr c : ℕ) → live c ≡ true → put cr true live c ≡ true
put_live live cr c h = ground arith

are_live-put :
    (live : ℕ → Bool) (cr : ℕ) (ws : List Watcher)
    → are_live live ws ≡ true
    → are_live (put cr true live) ws ≡ true
are_live-put live cr [] h = refl
are_live-put live cr (w ∷ ws) h = let rest = are_live-put live cr ws (ground arith) in ground arith

alloc-IsModel :
    (α live : ℕ → Bool) (cr : ℕ) (ls : List ℕ) (b : Store) (t : Trail)
    → satisfies α ls ≡ true
    → IsModel α live b t
    → IsModel α (put cr true live) (alloc cr ls b) t
alloc-IsModel α live cr ls b t h k = record {
  satisfied = λ c l. elim (Bool-cases (cr == c)) [
    | inl same ↦ rw same h
    | inr differ ↦ rw differ (k.satisfied c (rw differ at l))
  ];
  lives = λ q. are_live-put live cr (b.watches.occs q) (k.lives q);
  agrees = k.agrees;
  pairs = k.pairs;
}

add_reduced-IsModel :
    (α live : ℕ → Bool) (n fuel cr : ℕ) (s : Solver) (o : Option (List ℕ))
    → ((r : List ℕ)
        → o ≡ some r
        → (satisfies α r ≡ true) × (are_undef s.trail r ≡ true) × (in_range n r ≡ true))
    → n < fuel + s.trail.qhead
    → IsSolver n s
    → IsModel α live s.store s.trail
    → Modelled α live (add_reduced fuel cr o s)
unfolding attach_clause
add_reduced-IsModel α live n fuel cr s none left h k m =
    ((true, s), refl, refl, live, (λ c l. l), m)
add_reduced-IsModel α live n fuel cr s (some []) left h k m = absurd (no_literal (left [] refl).0)
  where
    no_literal : false ≡ true → ⊥
    no_literal e = cc
add_reduced-IsModel α live n fuel cr s (some (p ∷ [])) left h k m =
    let (sat, free, low) = left (p ∷ []) refl in
    let yes_p : holds α p ≡ true = ground arith in
    let (now, k') =
      unchecked_enqueue-IsTrail p none s.trail (undef_first s.trail p free) k.is_trail in
    let (longer, same) = unchecked_enqueue-kept p none s.trail in
    let range' : in_range n (unchecked_enqueue p none s.trail).trail ≡ true =
      let before = k.range in rw longer (ground arith) in
    let m' : IsModel α live s.store (unchecked_enqueue p none s.trail) = record {
      satisfied = m.satisfied;
      lives = m.lives;
      agrees = unchecked_enqueue-Agrees α p none s.trail yes_p m.agrees;
      pairs = m.pairs;
    } in
    let ((confl, b, t), e, fine, m'') =
      propagate-IsModel α live n fuel s.store (unchecked_enqueue p none s.trail) k.is_store k'
        range' (rw same h) m' in
    (
      (no_conflict confl, record s { is_ok = no_conflict confl; store = b; trail = t }),
      rw e refl,
      rw fine refl,
      live,
      (λ c l. l),
      m'',
    )
add_reduced-IsModel α live n fuel cr s (some (x ∷ y ∷ ls)) left h k m =
    let (sat, free, low) = left (x ∷ y ∷ ls) refl in
    let here : (cr == cr) ≡ true = ground arith in
    let b = alloc cr (x ∷ y ∷ ls) s.store in
    let clause : b.ca cr ≡ x ∷ y ∷ ls = rw here refl in
    let m' = alloc-IsModel α live cr (x ∷ y ∷ ls) s.store s.trail sat m in
    (
      (true, record s { clauses = s.clauses ++ cr ∷ []; store = attach_clause cr b }),
      refl,
      refl,
      put cr true live,
      put_live live cr,
      subst (λ z. IsModel α (put cr true live) (attach_at cr z b) s.trail) (sym clause)
          (attach_at-IsModel α (put cr true live) cr x y ls b s.trail (rw here refl) sat m'),
    )

-- At decision level 0, for a `sort` that sorts, fuel as for propagation, a well-formed state that is not known to be
-- contradictory, a clause over its variables, and an assignment that satisfies the clauses and the new
-- one and makes the literals of the trail true: the addition succeeds, and the assignment satisfies
-- the clauses that were live and those that are watched now, and makes the literals of the trail
-- true.
pub add_clause-IsModel :
    (sort : List ℕ → List ℕ) (α live : ℕ → Bool) (n fuel cr : ℕ) (ps : List ℕ) (s : Solver)
    → IsSort sort
    → in_range n ps ≡ true
    → n < fuel + s.trail.qhead
    → decision_level s.trail ≡ 0
    → IsSolver n s
    → s.is_ok ≡ true
    → IsModel α live s.store s.trail
    → satisfies α ps ≡ true
    → Modelled α live (add_clause sort fuel cr ps s)
unfolding add_clause
add_clause-IsModel sort α live n fuel cr ps s sorts low h root k fine m sat =
    let sorted_range =
      in_range-all n (sort ps) (λ l e. in_range-elem n l ps low (sym (sorts.elem-sort ps l) ∙ e)) in
    let sorted_yes : satisfies α (sort ps) ≡ true =
      satisfies-elems α ps (sort ps) (λ l e. sorts.elem-sort ps l ∙ e) sat in
    let left : (r : List ℕ)
        → reduce s.trail none (sort ps) ≡ some r
        → (satisfies α r ≡ true) × (are_undef s.trail r ≡ true) × (in_range n r ≡ true) =
      λ r e.
        let reduct = reduce-some α s.trail none (sort ps) r m.agrees (sorts.ascending ps) e in
        (reduct.same ∙ sorted_yes, reduct.undefined, reduct.range n sorted_range) in
    let added =
      allowed (Modelled α live) s.is_ok (some (false, s)) fine
        (add_reduced-IsModel α live n fuel cr s (reduce s.trail none (sort ps)) left h k m) in
    rw root added
