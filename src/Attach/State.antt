-- ===== src/Attach/State.antt =====
-- Solver::addClause_ as a whole: it returns, and the state stays well-formed.
use dsyrup.Base.{
  false_not_true, ℕ, suc, ◌+◌, ◌<◌, ◌≡◌, ◌∙◌, refl, sym, subst, Bool, true, false, not, ◌||◌,
  Option, none, some, List, [], ◌∷◌, ◌++◌, arith, if◌then◌else◌, ◌==◌, ltb, length, Bool-cases, inl,
  inr,
}
use dsyrup.Literal.{negate, var, sign}
use dsyrup.Literal.Laws.{negate-involutive}
use dsyrup.Clause.Meaning.{holds, satisfies, elem}
use dsyrup.Trail.{
  Lbool, l_true, l_false, l_undef, flip, is_true, is_undef, Trail, value, unchecked_enqueue,
  decision_level,
}
use dsyrup.Trail.Invariant.{IsTrail, are_true, unchecked_enqueue-IsTrail}
use dsyrup.Propagate.{Watcher, Store, watcher, push_watch}
use dsyrup.Propagate.Bin.{Agrees, all_hold, pairs_hold}
use dsyrup.Propagate.Invariant.{has, no_repeat, in_range, IsStore}
use dsyrup.Propagate.Long.{IsModel, push_watch-IsModel}
use dsyrup.Propagate.Ends.{unchecked_enqueue-kept}
use dsyrup.Propagate.Cleaned.{propagate-IsEnd}
use dsyrup.Attach.{
  push_bin, alloc, attach_at, attach_clause, reduce, Solver, no_conflict, add_reduced, add_clause,
}
use dsyrup.Attach.Reduce.{is_ascending, are_undef, reduce-some, no_repeat-is_strict}
use dsyrup.Attach.Added.{alloc-IsStore, attach_at-IsStore}

pairs_hold-append :
    (α : ℕ → Bool) (q : ℕ) (ws : List Watcher) (w : Watcher)
    → pairs_hold α q ws ≡ true
    → (holds α (negate q) || holds α w.blocker) ≡ true
    → pairs_hold α q (ws ++ w ∷ []) ≡ true
pairs_hold-append α q [] w h k = ground arith
pairs_hold-append α q (x ∷ ws) w h k =
    let rest = pairs_hold-append α q ws w (ground arith) k in ground arith

push_bin-IsModel :
    (α live : ℕ → Bool) (b : Store) (t : Trail) (q : ℕ) (w : Watcher)
    → (holds α (negate q) || holds α w.blocker) ≡ true
    → IsModel α live b t
    → IsModel α live (push_bin q w b) t
push_bin-IsModel α live b t q w h k = record {
  satisfied = k.satisfied;
  lives = k.lives;
  agrees = k.agrees;
  pairs = λ r. elim (Bool-cases (q == r)) [
    | inl here ↦
        let equal : q ≡ r = ground arith in
        let all : pairs_hold α q (b.watches_bin.occs q ++ w ∷ []) ≡ true =
          pairs_hold-append α q (b.watches_bin.occs q) w (k.pairs q) h in
        rw here (subst (λ z. pairs_hold α z (b.watches_bin.occs q ++ w ∷ []) ≡ true) equal all)
    | inr there ↦ rw there (k.pairs r)
  ];
}

pub attach_at-IsModel :
    (α live : ℕ → Bool) (cr x y : ℕ) (ls : List ℕ) (b : Store) (t : Trail)
    → live cr ≡ true
    → satisfies α (x ∷ y ∷ ls) ≡ true
    → IsModel α live b t
    → IsModel α live (attach_at cr (x ∷ y ∷ ls) b) t
attach_at-IsModel α live cr x y [] b t l h k =
    let one : (holds α (negate (negate x)) || holds α y) ≡ true =
      rw ((negate-involutive x).2) (ground arith) in
    let two : (holds α (negate (negate y)) || holds α x) ≡ true =
      rw ((negate-involutive y).2) (ground arith) in
    push_bin-IsModel α live (push_bin (negate x) (watcher cr y) b) t (negate y) (watcher cr x) two
      (push_bin-IsModel α live b t (negate x) (watcher cr y) one k)
attach_at-IsModel α live cr x y (z ∷ ls) b t l h k =
    let long : (suc (length ls) == 0) ≡ false = ground arith in
    rw long (
      push_watch-IsModel α live (push_watch (negate x) (watcher cr y) b) t (negate y) (watcher cr x)
        l (push_watch-IsModel α live b t (negate x) (watcher cr y) l k))

-- The assignment that the trail itself gives.
abbrev own : Trail → ℕ → Bool
own t v = is_true (t.assigns v)

own-Agrees : (t : Trail) → IsTrail t → Agrees (own t) t
unfolding value holds
own-Agrees t k = ((λ l h. one (t.assigns (var l)) (sign l) h), all t.trail k.literals)
  where
    one :
        (b : Lbool) (s : Bool)
        → is_true (flip b s) ≡ true
        → (if s then not (is_true b) else is_true b) ≡ true
    one l_true true h = h
    one l_true false h = h
    one l_false true h = h
    one l_false false h = h
    one l_undef true h = refl
    one l_undef false h = h

    all : (ps : List ℕ) → are_true t.assigns ps ≡ true → all_hold (own t) ps ≡ true
    all [] h = refl
    all (p ∷ ps) h =
        let now = one (t.assigns (var p)) (sign p) (ground arith) in
        let rest = all ps (ground arith) in rw now rest

-- A well-formed state.
pub record IsSolver (n : ℕ) (s : Solver) : Type 0 where
  pub is_store : IsStore n s.store
  pub is_trail : IsTrail s.trail
  pub range : in_range n s.trail.trail ≡ true

abbrev Returned : ℕ → Option (Bool × Solver) → Type 0
Returned n o = (r : Bool × Solver) × (o ≡ some r) × IsSolver n r.1

pub undef_first : (t : Trail) (l : ℕ) → are_undef t (l ∷ []) ≡ true → is_undef (value t l) ≡ true
undef_first t l h = ground arith

add_reduced-IsSolver :
    (n fuel cr : ℕ) (s : Solver) (o : Option (List ℕ))
    → ((r : List ℕ)
        → o ≡ some r
        → (no_repeat r ≡ true) × (are_undef s.trail r ≡ true) × (in_range n r ≡ true))
    → ((q : ℕ) → has cr (s.store.watches.occs q) ≡ false)
    → n < fuel + s.trail.qhead
    → IsSolver n s
    → Returned n (add_reduced fuel cr o s)
unfolding attach_clause
add_reduced-IsSolver n fuel cr s none left fresh h k = ((true, s), refl, k)
add_reduced-IsSolver n fuel cr s (some []) left fresh h k = (
  (false, record s { is_ok = false }),
  refl,
  record { is_store = k.is_store; is_trail = k.is_trail; range = k.range },
)
add_reduced-IsSolver n fuel cr s (some (l ∷ [])) left fresh h k =
    let (once, free, low) = left (l ∷ []) refl in
    let (now, k') =
      unchecked_enqueue-IsTrail l none s.trail (undef_first s.trail l free) k.is_trail in
    let (longer, same) = unchecked_enqueue-kept l none s.trail in
    let range' : in_range n (unchecked_enqueue l none s.trail).trail ≡ true =
      let before = k.range in rw longer (ground arith) in
    let ((confl, b, t), e, ended) =
      propagate-IsEnd n fuel s.store (unchecked_enqueue l none s.trail) k.is_store k' range'
        (rw same h) in
    (
      (no_conflict confl, record s { is_ok = no_conflict confl; store = b; trail = t }),
      rw e refl,
      record { is_store = ended.store; is_trail = ended.is_trail; range = ended.range },
    )
add_reduced-IsSolver n fuel cr s (some (x ∷ y ∷ ls)) left fresh h k =
    let (once, free, low) = left (x ∷ y ∷ ls) refl in
    let here : (cr == cr) ≡ true = ground arith in
    let b = alloc cr (x ∷ y ∷ ls) s.store in
    let clause : b.ca cr ≡ x ∷ y ∷ ls = rw here refl in
    let one : b.one_watched cr ≡ false = rw here refl in
    (
      (true, record s { clauses = s.clauses ++ cr ∷ []; store = attach_clause cr b }),
      refl,
      record {
        is_store =
            subst (λ z. IsStore n (attach_at cr z b)) (sym clause)
              (attach_at-IsStore n cr x y ls b clause fresh one once low
                (alloc-IsStore n cr (x ∷ y ∷ ls) s.store fresh k.is_store));
        is_trail = k.is_trail;
        range = k.range;
      },
    )

-- What the solver relies on of `sort`: the same literals, in order.
pub record IsSort (sort : List ℕ → List ℕ) : Type 0 where
  pub elem-sort : (ps : List ℕ) (l : ℕ) → elem l (sort ps) ≡ elem l ps
  pub ascending : (ps : List ℕ) → is_ascending 0 (sort ps) ≡ true

pub in_range-elem :
    (n l : ℕ) (ls : List ℕ) → in_range n ls ≡ true → elem l ls ≡ true → ltb (var l) n ≡ true
in_range-elem n l [] h e = absurd (false_not_true e)
in_range-elem n l (y ∷ ls) h e = elim (Bool-cases (l == y)) [
  | inl same ↦ let equal : l ≡ y = ground arith in rw equal (ground arith)
  | inr differ ↦ in_range-elem n l ls (ground arith) (ground arith)
]

pub in_range-all :
    (n : ℕ) (ls : List ℕ)
    → ((l : ℕ) → elem l ls ≡ true → ltb (var l) n ≡ true)
    → in_range n ls ≡ true
in_range-all n [] h = refl
in_range-all n (l ∷ ls) h =
    let now = h l (ground arith) in
    let rest = in_range-all n ls (λ k e. h k (ground arith)) in ground arith

-- The two ways through the test of `ok`.
guard : {A : Type 0} (P : A → Type 0) (c : Bool) {a b : A} → P a → P b → P (if not c then a else b)
guard P true x y = y
guard P false x y = x

pub allowed :
    {A : Type 0} (P : A → Type 0) (c : Bool) (a : A) {b : A}
    → c ≡ true
    → P b
    → P (if not c then a else b)
allowed P true a h y = y
allowed P false a h y = absurd (refused h)
  where
    refused : false ≡ true → ⊥
    refused e = cc

-- At decision level 0, for a `sort` that sorts, a CRef that no list has, and fuel as for propagation, a clause over the
-- variables of the solver is added without a failed assertion, and the state stays well-formed.
pub add_clause-IsSolver :
    (sort : List ℕ → List ℕ) (n fuel cr : ℕ) (ps : List ℕ) (s : Solver)
    → IsSort sort
    → ((q : ℕ) → has cr (s.store.watches.occs q) ≡ false)
    → in_range n ps ≡ true
    → n < fuel + s.trail.qhead
    → decision_level s.trail ≡ 0
    → IsSolver n s
    → Returned n (add_clause sort fuel cr ps s)
unfolding add_clause
add_clause-IsSolver sort n fuel cr ps s sorts fresh low h root k =
    let sorted_range =
      in_range-all n (sort ps) (λ l e. in_range-elem n l ps low (sym (sorts.elem-sort ps l) ∙ e)) in
    let left : (r : List ℕ)
        → reduce s.trail none (sort ps) ≡ some r
        → (no_repeat r ≡ true) × (are_undef s.trail r ≡ true) × (in_range n r ≡ true) =
      λ r e.
        let reduct =
          reduce-some (own s.trail) s.trail none (sort ps) r (own-Agrees s.trail k.is_trail)
            (sorts.ascending ps) e in
        (no_repeat-is_strict none r reduct.strict, reduct.undefined, reduct.range n sorted_range) in
    let added =
      guard (Returned n) s.is_ok ((false, s), refl, k)
        (add_reduced-IsSolver n fuel cr s (reduce s.trail none (sort ps)) left fresh h k) in
    rw root added
