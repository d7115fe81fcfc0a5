-- ===== src/Clause/Subsume.antt =====
-- Clause::subsumes: its three results.
use dsyrup.Base.{
  ℕ, ◌≤◌, ◌≡◌, ◌≢◌, refl, sym, ap, subst, ◌∙◌, Bool, true, false, not, ◌&&◌, ◌||◌, Option, none,
  some, List, [], ◌∷◌, arith, ◌==◌, ltb, length, Bool-cases, inl, inr, ◌⊎◌, >>=-some,
}
use dsyrup.Literal.{negate}
use dsyrup.Literal.Laws.{negate-involutive}
use dsyrup.Clause.{
  Clause, calc_abstraction, is_inside, unrelated, subsuming, resolving, is_none, find, find_all,
  result, subsumes, strengthen,
}
use dsyrup.Clause.Meaning.{holds, satisfies, elem, holds-negate, satisfies-elem, satisfies-witness}
use dsyrup.Clause.Mask.{is_inside-mask}

-- A literal is in the other clause, or it is the one on which both are resolved.
abbrev Placed : Option ℕ → List ℕ → ℕ → Type 0
Placed r d l = (elem l d ≡ true) ⊎ ((r ≡ some l) × (elem (negate l) d ≡ true))

-- What becomes of `ret`.
abbrev Follows : Option ℕ → Option ℕ → List ℕ → List ℕ → Type 0
Follows ret r c d =
    (p : ℕ) → (r ≡ some p) → (ret ≡ some p) ⊎ ((elem p c ≡ true) × (elem (negate p) d ≡ true))

no_result : {A : Type 0} (a : A) → none ≡ some a → ⊥
no_result a e = cc

opposite-found :
    (ret : Option ℕ) (l x : ℕ) (d : List ℕ) (r : Option ℕ)
    → is_none ret ≡ true
    → l ≡ negate x
    → some (some l) ≡ some r
    → (ret ≡ none) × (r ≡ some l) × (elem (negate l) (x ∷ d) ≡ true)
opposite-found none l x d r a b c =
    let back : negate l ≡ x = ap negate b ∙ (negate-involutive x).2 in
    (refl, ground arith, ground arith)
opposite-found (some p) l x d r a b c = absurd (no_match a)
  where
    no_match : false ≡ true → ⊥
    no_match e = cc

-- What the inner loop has found.
abbrev Found : Option ℕ → ℕ → List ℕ → Option ℕ → Type 0
Found ret l d r =
    ((r ≡ ret) × (elem l d ≡ true)) ⊎ ((ret ≡ none) × (r ≡ some l) × (elem (negate l) d ≡ true))

find-ok :
    (ret : Option ℕ) (l : ℕ) (d : List ℕ) (r : Option ℕ) → find ret l d ≡ some r → Found ret l d r
unfolding find
find-ok ret l [] r e = absurd (no_result r e)
find-ok ret l (x ∷ d) r e = elim (Bool-cases (l == x)) [
  | inl here ↦ inl (ground arith)
  | inr other ↦ elim (Bool-cases (is_none ret && (l == negate x))) [
    | inl opposite ↦ inr (opposite-found ret l x d r (ground arith) (ground arith) (ground arith))
    | inr neither ↦ elim (find-ok ret l d r (ground arith)) [
      | inl (same, inside) ↦ inl (same, ground arith)
      | inr (fresh, new, inside) ↦ inr (fresh, new, ground arith)
    ]
  ]
]

Found-kept :
    (ret mid : Option ℕ) (x : ℕ) (d : List ℕ) (p : ℕ)
    → Found ret x d mid
    → ret ≡ some p
    → mid ≡ some p
Found-kept ret mid x d p (inl (same, inside)) h = same ∙ h
Found-kept ret mid x d p (inr (fresh, new, inside)) h = absurd (no_result p (sym fresh ∙ h))

Placed-head :
    (ret mid r : Option ℕ) (x : ℕ) (d : List ℕ)
    → Found ret x d mid
    → ((p : ℕ) → mid ≡ some p → r ≡ some p)
    → Placed r d x
Placed-head ret mid r x d (inl (same, inside)) kept = inl inside
Placed-head ret mid r x d (inr (fresh, new, inside)) kept = inr (kept x new, inside)

Placed-cons :
    (ret mid r : Option ℕ) (x : ℕ) (c d : List ℕ)
    → Found ret x d mid
    → ((p : ℕ) → mid ≡ some p → r ≡ some p)
    → ((l : ℕ) → elem l c ≡ true → Placed r d l)
    → (l : ℕ) → elem l (x ∷ c) ≡ true
    → Placed r d l
Placed-cons ret mid r x c d first kept placed l h = elim (Bool-cases (l == x)) [
  | inl here ↦
      let same : x ≡ l = ground arith in
      subst (Placed r d) same (Placed-head ret mid r x d first kept)
  | inr there ↦ placed l (ground arith)
]

Follows-cons :
    (ret mid r : Option ℕ) (x : ℕ) (c d : List ℕ)
    → Found ret x d mid
    → Follows mid r c d
    → Follows ret r (x ∷ c) d
Follows-cons ret mid r x c d (inl (same, inside)) follows p h = elim (follows p h) [
  | inl before ↦ inl (sym same ∙ before)
  | inr (a, b) ↦ inr (ground arith, b)
]
Follows-cons ret mid r x c d (inr (fresh, new, inside)) follows p h = elim (follows p h) [
  | inl before ↦
      let same : some x ≡ some p = sym new ∙ before in
      let equal : x ≡ p = ground arith in inr (ground arith, rw equal at inside)
  | inr (a, b) ↦ inr (ground arith, b)
]

find_all-ok :
    (ret : Option ℕ) (c d : List ℕ) (r : Option ℕ)
    → find_all ret c d ≡ some r
    → ((l : ℕ) → elem l c ≡ true → Placed r d l)
      × Follows ret r c d
      × ((p : ℕ) → ret ≡ some p → r ≡ some p)
unfolding find_all
find_all-ok ret [] d r e = ((λ l h. cc), (λ p h. inl (ground arith)), λ p h. ground arith)
find_all-ok ret (x ∷ c) d r e =
    let (mid, one, rest) = >>=-some (find ret x d) (λ m. find_all m c d) e in
    let (placed, follows, kept) = find_all-ok mid c d r rest in
    let first = find-ok ret x d mid one in
    (
      Placed-cons ret mid r x c d first kept placed,
      Follows-cons ret mid r x c d first follows,
      λ p h. kept p (Found-kept ret mid x d p first h),
    )

result-some : (o : Option (Option ℕ)) (r : Option ℕ) → result o ≡ result (some r) → o ≡ some r
result-some none none e = cc
result-some none (some p) e = cc
result-some (some none) none e = refl
result-some (some none) (some p) e = cc
result-some (some (some q)) none e = cc
result-some (some (some q)) (some p) e = ground arith

not_unrelated : (r : Option ℕ) → unrelated ≡ result (some r) → ⊥
not_unrelated none e = cc
not_unrelated (some p) e = cc

find_all-of :
    (c d : Clause) (r : Option ℕ)
    → subsumes c d ≡ result (some r)
    → find_all none c.lits d.lits ≡ some r
unfolding subsumes
find_all-of c d r e =
    let quick =
      ltb (length d.lits) (length c.lits) || not (is_inside 32 c.abstraction d.abstraction) in
    elim (Bool-cases quick) [
      | inl refused ↦ absurd (not_unrelated r (rw refused at e))
      | inr open_yet ↦ result-some (find_all none c.lits d.lits) r (rw open_yet at e)
    ]

-- If a clause is found to subsume another, each assignment that satisfies it satisfies the other.
subsumes-subsuming :
    (α : ℕ → Bool) (c d : Clause)
    → subsumes c d ≡ subsuming
    → satisfies α c.lits ≡ true
    → satisfies α d.lits ≡ true
subsumes-subsuming α c d e h =
    let (placed, follows, kept) = find_all-ok none c.lits d.lits none (find_all-of c d none e) in
    let (l, inside, true_l) = satisfies-witness α c.lits h in
    elim (placed l inside) [
      | inl found ↦ satisfies-elem α l d.lits found true_l
      | inr (no_literal, opposite) ↦ absurd (no_result l no_literal)
    ]

-- If it is found to resolve with the other on `p`, then it has `p` and the other has the negation of
-- `p`; and where it is no tautology on `p`, each assignment that satisfies both satisfies the other
-- without that negation, provided that `remove` leaves all literals but the one it is given.
pub strengthen-resolving :
    (remove : List ℕ → ℕ → List ℕ) (α : ℕ → Bool) (c d : Clause) (p : ℕ)
    → ((ls : List ℕ) (x l : ℕ) → elem l ls ≡ true → l ≢ x → elem l (remove ls x) ≡ true)
    → subsumes c d ≡ resolving p
    → elem (negate p) c.lits ≡ false
    → satisfies α c.lits ≡ true
    → satisfies α d.lits ≡ true
    → (elem p c.lits ≡ true)
      × (elem (negate p) d.lits ≡ true)
      × (satisfies α (strengthen remove d (negate p)).lits ≡ true)
strengthen-resolving remove α c d p removes e plain hc hd =
    let (placed, follows, kept) =
      find_all-ok none c.lits d.lits (some p) (find_all-of c d (some p) e) in
    let (in_c, in_d) = resolved p (follows p refl) in
    (
      in_c,
      in_d,
      elim (Bool-cases (holds α p)) [
        | inl true_p ↦
            let (l, inside, true_l) = satisfies-witness α d.lits hd in
            let other : l ≢ negate p = λ same.
              let both : holds α (negate p) ≡ true = rw (sym same) true_l in
              ground (arith, holds-negate α p) in
            satisfies-elem α l (remove d.lits (negate p)) (removes d.lits (negate p) l inside other)
              true_l
        | inr false_p ↦
            let (l, inside, true_l) = satisfies-witness α c.lits hc in
            let other : l ≢ negate p = λ same. ground arith in
            let found = placed_by_another α c.lits d.lits p l false_p true_l (placed l inside) in
            satisfies-elem α l (remove d.lits (negate p)) (removes d.lits (negate p) l found other)
              true_l
      ],
    )
  where
    resolved :
        (p : ℕ)
        → (none ≡ some p) ⊎ ((elem p c.lits ≡ true) × (elem (negate p) d.lits ≡ true))
        → (elem p c.lits ≡ true) × (elem (negate p) d.lits ≡ true)
    resolved p (inl bad) = absurd (no_result p bad)
    resolved p (inr both) = both

    placed_by_another :
        (α : ℕ → Bool) (c d : List ℕ) (p l : ℕ)
        → holds α p ≡ false
        → holds α l ≡ true
        → Placed (some p) d l
        → elem l d ≡ true
    placed_by_another α c d p l a b (inl found) = found
    placed_by_another α c d p l a b (inr (same, opposite)) =
        let equal : p ≡ l = ground arith in let bad : holds α p ≡ true = rw equal b in cc

find-here :
    (l : ℕ) (d : List ℕ) → elem l d ≡ true → elem (negate l) d ≡ false → find none l d ≡ some none
unfolding find
find-here l [] h k = cc
find-here l (x ∷ d) h k = elim (Bool-cases (l == x)) [
  | inl here ↦ ground arith
  | inr other ↦ elim (Bool-cases (l == negate x)) [
    | inl opposite ↦
        let e : l ≡ negate x = ground arith in
        let back : negate l ≡ x = ap negate e ∙ (negate-involutive x).2 in ground arith
    | inr neither ↦ ground (arith, find-here l d)
  ]
]

find_all-here :
    (c d : List ℕ)
    → ((l : ℕ) → elem l c ≡ true → (elem l d ≡ true) × (elem (negate l) d ≡ false))
    → find_all none c d ≡ some none
unfolding find_all
find_all-here [] d h = refl
find_all-here (l ∷ c) d h =
    let (a, b) = h l (ground arith) in
    rw (find-here l d a b) (find_all-here c d (λ k inside. h k (ground arith)))

-- A clause whose literals are all in another one that is no tautology is found to subsume it, if it
-- is not longer and both words are up to date.
pub subsumes-subset :
    (c d : Clause)
    → length c.lits ≤ length d.lits
    → ((l : ℕ) → elem l c.lits ≡ true → (elem l d.lits ≡ true) × (elem (negate l) d.lits ≡ false))
    → subsumes (calc_abstraction c) (calc_abstraction d) ≡ subsuming
unfolding subsumes
subsumes-subset c d short h =
    let inside = is_inside-mask 32 c.lits d.lits (λ l k. (h l k).0) in
    let found = find_all-here c.lits d.lits h in
    let fits : ltb (length d.lits) (length c.lits) ≡ false = ground arith in
    rw (fits, inside, found) refl
