-- ===== src/Propagate/Long.antt =====
-- The visit of a clause by its watcher: an assignment that satisfies the clauses and agrees with the
-- trail does so afterwards.
use dsyrup.Base.{
  clash, ℕ, ◌≡◌, ◌∙◌, refl, sym, ap, subst, Bool, true, false, not, ◌&&◌, ◌||◌, Option, none, some,
  List, [], ◌∷◌, ◌++◌, arith, ◌==◌, Bool-cases, inl, inr, >>=-some, ◌>>=◌,
}
use dsyrup.Literal.{negate}
use dsyrup.Clause.Meaning.{holds, satisfies}
use dsyrup.Trail.{is_true, is_false, Trail, value}
use dsyrup.Propagate.{
  Watcher, Store, watcher, set_clause, push_watch, to_second, put_before, find_watch, Visit, kept,
  moved, conflict, settle, inspect, visit,
}
use dsyrup.Propagate.Bin.{Agrees, pairs_hold, Agrees-is_false, unchecked_enqueue-Agrees}

abbrev pub are_live : (ℕ → Bool) → List Watcher → Bool
are_live live [] = true
are_live live (w ∷ ws) = live w.cref && are_live live ws

pub are_live-append :
    (live : ℕ → Bool) (ws : List Watcher) (w : Watcher)
    → are_live live ws ≡ true
    → live w.cref ≡ true
    → are_live live (ws ++ w ∷ []) ≡ true
are_live-append live [] w h k = ground arith
are_live-append live (x ∷ ws) w h k =
    let rest = are_live-append live ws w (ground arith) k in ground arith

-- The assignment satisfies the live clauses and agrees with the trail, the watchers are those of live
-- clauses, and those of binary clauses stand for clauses that hold.
pub record IsModel (α live : ℕ → Bool) (b : Store) (t : Trail) : Type 0 where
  pub satisfied : (cr : ℕ) → live cr ≡ true → satisfies α (b.ca cr) ≡ true
  pub lives : (q : ℕ) → are_live live (b.watches.occs q) ≡ true
  pub agrees : Agrees α t
  pub pairs : (q : ℕ) → pairs_hold α q (b.watches_bin.occs q) ≡ true

pub satisfies-to_second :
    (α : ℕ → Bool) (f : ℕ) (ls : List ℕ) → satisfies α (to_second f ls) ≡ satisfies α ls
satisfies-to_second α f [] = refl
satisfies-to_second α f (x ∷ []) = refl
satisfies-to_second α f (x ∷ y ∷ ls) = ground arith

-- The literals are the same after the exchange.
satisfies-find_watch :
    (α : ℕ → Bool) (t : Trail) (f : ℕ) (ls : List ℕ) (l : ℕ) (ls' : List ℕ)
    → find_watch t f ls ≡ some (l, ls')
    → (holds α l || satisfies α ls') ≡ (holds α f || satisfies α ls)
unfolding find_watch
satisfies-find_watch α t f [] l ls' e = cc
satisfies-find_watch α t f (x ∷ ls) l ls' e = elim (Bool-cases (is_false (value t x))) [
  | inl wrong ↦
      let e' : (find_watch t f ls >>= put_before x) ≡ some (l, ls') = rw wrong at e in
      let (r, found, same) = >>=-some (find_watch t f ls) (put_before x) e' in
      let rest = satisfies-find_watch α t f ls r.0 r.1 found in
      let first : r.0 ≡ l = ap (λ o. fst_of o l) same in
      let second : x ∷ r.1 ≡ ls' = ap (λ o. snd_of o ls') same in
      rw (sym first, sym second) (ground arith)
  | inr good ↦
      let e' : some (x, f ∷ ls) ≡ some (l, ls') = rw good at e in
      let first : x ≡ l = ap (λ o. fst_of o l) e' in
      let second : f ∷ ls ≡ ls' = ap (λ o. snd_of o ls') e' in
      rw (sym first, sym second) (ground arith)
]
  where
    fst_of : Option (ℕ × List ℕ) → ℕ → ℕ
    fst_of none d = d
    fst_of (some r) d = r.0

    snd_of : Option (ℕ × List ℕ) → List ℕ → List ℕ
    snd_of none d = d
    snd_of (some r) d = r.1

-- When there is no new watch, the literals are false.
satisfies-no_watch :
    (α : ℕ → Bool) (t : Trail) (f : ℕ) (ls : List ℕ)
    → Agrees α t
    → find_watch t f ls ≡ none
    → satisfies α ls ≡ false
unfolding find_watch
satisfies-no_watch α t f [] k e = refl
satisfies-no_watch α t f (x ∷ ls) k e = elim (Bool-cases (is_false (value t x))) [
  | inl wrong ↦
      let e' : (find_watch t f ls >>= put_before x) ≡ none = rw wrong at e in
      let rest = satisfies-no_watch α t f ls k (none_before (find_watch t f ls) x e') in
      let now = Agrees-is_false α t x k wrong in ground arith
  | inr good ↦ let e' : some (x, f ∷ ls) ≡ none = rw good at e in cc
]
  where
    none_before : (o : Option (ℕ × List ℕ)) (x : ℕ) → (o >>= put_before x) ≡ none → o ≡ none
    none_before none x e = refl
    none_before (some r) x e = cc

set_clause-IsModel :
    (α live : ℕ → Bool) (b : Store) (t : Trail) (cr : ℕ) (ls : List ℕ)
    → satisfies α ls ≡ satisfies α (b.ca cr)
    → IsModel α live b t
    → IsModel α live (set_clause cr ls b) t
set_clause-IsModel α live b t cr ls e k = record {
  satisfied = λ c l. elim (Bool-cases (cr == c)) [
    | inl here ↦
        let same : cr ≡ c = ground arith in
        let before : satisfies α (b.ca cr) ≡ true = rw same (k.satisfied c l) in
        rw here (e ∙ before)
    | inr other ↦ rw other (k.satisfied c l)
  ];
  lives = k.lives;
  agrees = k.agrees;
  pairs = k.pairs;
}

pub push_watch-IsModel :
    (α live : ℕ → Bool) (b : Store) (t : Trail) (q : ℕ) (w : Watcher)
    → live w.cref ≡ true
    → IsModel α live b t
    → IsModel α live (push_watch q w b) t
push_watch-IsModel α live b t q w h k = record {
  satisfied = k.satisfied;
  lives = λ r. elim (Bool-cases (q == r)) [
    | inl here ↦ rw here (are_live-append live (b.watches.occs q) w (k.lives q) h)
    | inr other ↦ rw other (k.lives r)
  ];
  agrees = k.agrees;
  pairs = k.pairs;
}

-- No conflict, and a watcher that stays is one of a live clause.
abbrev pub is_fine : (ℕ → Bool) → Visit → Bool
is_fine live (kept w) = live w.cref
is_fine live moved = true
is_fine live (conflict w) = false

abbrev Fine : (ℕ → Bool) → (ℕ → Bool) → Visit × Store × Trail → Type 0
Fine α live (v, b, t) = (is_fine live v ≡ true) × IsModel α live b t

settle-IsModel :
    (α live : ℕ → Bool) (cr x f : ℕ) (ls : List ℕ) (b : Store) (t : Trail) (o : Option (ℕ × List ℕ))
    → find_watch t f ls ≡ o
    → b.ca cr ≡ x ∷ f ∷ ls
    → live cr ≡ true
    → holds α f ≡ false
    → IsModel α live b t
    → Fine α live (settle cr x f o (b, t))
settle-IsModel α live cr x f ls b t (some (l, ls')) e c h n k =
    let same = satisfies-find_watch α t f ls l ls' e in
    (
      refl,
      push_watch-IsModel α live (set_clause cr (x ∷ l ∷ ls') b) t (negate l) (watcher cr x) h
          (set_clause-IsModel α live b t cr (x ∷ l ∷ ls') (rw (c, same) refl) k),
    )
settle-IsModel α live cr x f ls b t none e c h n k =
    let others = satisfies-no_watch α t f ls k.agrees e in
    let all : satisfies α (x ∷ f ∷ ls) ≡ true =
      subst (λ ks. satisfies α ks ≡ true) c (k.satisfied cr h) in
    let implied : holds α x ≡ true = ground arith in
    elim (Bool-cases (is_false (value t x))) [
      | inl wrong ↦ let bad = Agrees-is_false α t x k.agrees wrong in absurd (clash implied bad)
      | inr right ↦ rw right (
        h,
        record {
          satisfied = k.satisfied;
          lives = k.lives;
          agrees = unchecked_enqueue-Agrees α x (some cr) t implied k.agrees;
          pairs = k.pairs;
        },
      )
    ]

some_inj : {A : Type 0} {a b : A} → some a ≡ some b → a ≡ b
some_inj e = cc

inspect-IsModel :
    (α live : ℕ → Bool) (p : ℕ) (w : Watcher) (ls : List ℕ) (b : Store) (t : Trail)
    (r : Visit × Store × Trail)
    → b.ca w.cref ≡ ls
    → live w.cref ≡ true
    → holds α (negate p) ≡ false
    → IsModel α live b t
    → inspect p w ls (b, t) ≡ some r
    → Fine α live r
inspect-IsModel α live p w [] b t r c h n k e = cc
inspect-IsModel α live p w (x ∷ []) b t r c h n k e = cc
inspect-IsModel α live p w (x ∷ f ∷ ls) b t r c h n k e =
    elim (Bool-cases (not (f == negate p) || b.one_watched w.cref)) [
      | inl failed ↦ let bad : none ≡ some r = rw failed at e in cc
      | inr passed ↦ elim (Bool-cases (not (x == w.blocker) && is_true (value t x))) [
        | inl satisfied ↦
            let e' : some (kept (watcher w.cref x), b, t) ≡ some r = rw (passed, satisfied) at e in
            subst (Fine α live) (some_inj e') (h, k)
        | inr open_yet ↦
            let e' : some (settle w.cref x f (find_watch t f ls) (b, t)) ≡ some r =
              rw (passed, open_yet) at e in
            let second : f ≡ negate p = ground arith in
            let wrong : holds α f ≡ false = rw second n in
            subst (Fine α live) (some_inj e')
              (settle-IsModel α live w.cref x f ls b t (find_watch t f ls) refl c h wrong k)
      ]
    ]

-- The visit of a clause: if it returns, the assignment is a model as before, and the clause is not
-- found to be false.
pub visit-IsModel :
    (α live : ℕ → Bool) (p : ℕ) (w : Watcher) (b : Store) (t : Trail) (r : Visit × Store × Trail)
    → live w.cref ≡ true
    → holds α (negate p) ≡ false
    → IsModel α live b t
    → visit p w (b, t) ≡ some r
    → (is_fine live r.0 ≡ true) × IsModel α live r.1 r.2
unfolding visit
visit-IsModel α live p w b t r h n k e =
    let ls = to_second (negate p) (b.ca w.cref) in
    let here : (w.cref == w.cref) ≡ true = ground arith in
    inspect-IsModel α live p w ls (set_clause w.cref ls b) t r (rw here refl) h n
      (set_clause-IsModel α live b t w.cref ls (satisfies-to_second α (negate p) (b.ca w.cref)) k) e
