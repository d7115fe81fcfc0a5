-- ===== src/Attach/Reduce.antt =====
-- The loop of addClause_ over the sorted literals of a clause.
use dsyrup.Base.{
  clash, ℕ, ◌<◌, ◌≡◌, ◌∙◌, refl, sym, ap, subst, Bool, true, false, not, ◌&&◌, ◌||◌, Option, none,
  some, List, [], ◌∷◌, arith, ◌==◌, ltb, leb, Bool-cases, Option-cases, inl, inr, >>=-some, ◌>>=◌,
}
use dsyrup.Literal.{negate}
use dsyrup.Clause.Meaning.{holds, holds-negate, satisfies, elem}
use dsyrup.Trail.{Lbool, l_true, l_false, l_undef, is_true, is_false, is_undef, Trail, value}
use dsyrup.Propagate.Bin.{Agrees, Agrees-is_false}
use dsyrup.Propagate.Invariant.{no_repeat, in_range}
use dsyrup.Attach.{is_opposite, is_same, put_first, reduce}

-- The literals are not below the bound and in order, and none stands twice.
abbrev pub is_ascending : ℕ → List ℕ → Bool
is_ascending b [] = true
is_ascending b (l ∷ ls) = leb b l && is_ascending l ls

abbrev pub is_strict : Option ℕ → List ℕ → Bool
is_strict p [] = true
is_strict none (l ∷ ls) = is_strict (some l) ls
is_strict (some b) (l ∷ ls) = ltb b l && is_strict (some l) ls

abbrev pub are_undef : Trail → List ℕ → Bool
are_undef t [] = true
are_undef t (l ∷ ls) = is_undef (value t l) && are_undef t ls

-- The literals before the loop, of which the last kept one is known.
abbrev pub holds_before : (ℕ → Bool) → Option ℕ → Bool
holds_before α none = false
holds_before α (some p) = holds α p

abbrev at_least : Option ℕ → List ℕ → Bool
at_least none ls = is_ascending 0 ls
at_least (some p) ls = is_ascending p ls

neither : (b : Lbool) → is_true b ≡ false → is_false b ≡ false → is_undef b ≡ true
neither l_true a c = cc
neither l_false a c = cc
neither l_undef a c = refl

opposite_holds :
    (α : ℕ → Bool) (l : ℕ) (p : Option ℕ)
    → is_opposite l p ≡ true
    → (holds_before α p || holds α l) ≡ true
opposite_holds α l none h = absurd (clash (sym h ∙ h) (sym h))
opposite_holds α l (some p) h =
    let e : l ≡ negate p = ground arith in rw (e, holds-negate α p) (either (holds α p))
  where
    either : (b : Bool) → (b || not b) ≡ true
    either true = refl
    either false = refl

same_holds :
    (α : ℕ → Bool) (l : ℕ) (p : Option ℕ) (rest : Bool)
    → is_same l p ≡ true
    → (holds_before α p || rest) ≡ (holds_before α p || (holds α l || rest))
same_holds α l none rest h = absurd (clash (sym h ∙ h) (sym h))
same_holds α l (some p) rest h = let e : l ≡ p = ground arith in rw e (twice (holds α p))
  where
    twice : (b : Bool) → (b || rest) ≡ (b || (b || rest))
    twice true = refl
    twice false = refl

-- A clause that is dropped holds.
pub reduce-none :
    (α : ℕ → Bool) (t : Trail) (p : Option ℕ) (ls : List ℕ)
    → Agrees α t
    → reduce t p ls ≡ none
    → (holds_before α p || satisfies α ls) ≡ true
unfolding reduce
reduce-none α t p [] k e = cc
reduce-none α t p (l ∷ ls) k e = elim (Bool-cases (is_true (value t l) || is_opposite l p)) [
  | inl dropped ↦ elim (Bool-cases (is_true (value t l))) [
    | inl now ↦ let yes_l = k.0 l now in ground arith
    | inr other ↦ let one = opposite_holds α l p (ground arith) in ground arith
  ]
  | inr fine ↦ elim (Bool-cases (not (is_false (value t l)) && not (is_same l p))) [
    | inl new ↦
        let rest =
          reduce-none α t (some l) ls k
            (none_before (reduce t (some l) ls) l (rw (fine, new) at e)) in
        ground arith
    | inr old ↦ let rest = reduce-none α t p ls k (rw (fine, old) at e) in ground arith
  ]
]
  where
    none_before : (o : Option (List ℕ)) (l : ℕ) → (o >>= put_first l) ≡ none → o ≡ none
    none_before none l e = refl
    none_before (some r) l e = cc

-- What is left of a clause.
pub record IsReduct (α : ℕ → Bool) (t : Trail) (p : Option ℕ) (ls r : List ℕ) : Type 0 where
  pub same : (holds_before α p || satisfies α r) ≡ (holds_before α p || satisfies α ls)
  pub strict : is_strict p r ≡ true
  pub undefined : are_undef t r ≡ true
  pub range : (n : ℕ) → in_range n ls ≡ true → in_range n r ≡ true

weaken : (l : ℕ) (p : Option ℕ) (ls : List ℕ) → at_least p (l ∷ ls) ≡ true → at_least p ls ≡ true
weaken l none [] h = refl
weaken l none (k ∷ ls) h = ground arith
weaken l (some p) [] h = refl
weaken l (some p) (k ∷ ls) h = ground arith

above : (l : ℕ) (p : Option ℕ) (ls : List ℕ) → at_least p (l ∷ ls) ≡ true → is_ascending l ls ≡ true
above l none ls h = ground arith
above l (some p) ls h = ground arith

strictly :
    (l : ℕ) (p : Option ℕ) (ls r : List ℕ)
    → at_least p (l ∷ ls) ≡ true
    → is_same l p ≡ false
    → is_strict (some l) r ≡ true
    → is_strict p (l ∷ r) ≡ true
strictly l none ls r h d s = s
strictly l (some p) ls r h d s = ground arith

pub reduce-some :
    (α : ℕ → Bool) (t : Trail) (p : Option ℕ) (ls r : List ℕ)
    → Agrees α t
    → at_least p ls ≡ true
    → reduce t p ls ≡ some r
    → IsReduct α t p ls r
unfolding reduce
reduce-some α t p [] r k a e =
    subst (IsReduct α t p []) (some_inj e)
      (record { same = refl; strict = refl; undefined = refl; range = λ n h. refl })
  where
    some_inj : {A : Type 0} {a b : A} → some a ≡ some b → a ≡ b
    some_inj e = cc
reduce-some α t p (l ∷ ls) r k a e = elim (Bool-cases (is_true (value t l) || is_opposite l p)) [
  | inl dropped ↦ let bad : none ≡ some r = rw dropped at e in cc
  | inr fine ↦ elim (Bool-cases (not (is_false (value t l)) && not (is_same l p))) [
    | inl new ↦
        let (r', e1, e2) = >>=-some (reduce t (some l) ls) (put_first l) (rw (fine, new) at e) in
        let rest = reduce-some α t (some l) ls r' k (above l p ls a) e1 in
        let free = neither (value t l) (ground arith) (ground arith) in
        subst (IsReduct α t p (l ∷ ls)) (some_inj e2) (record {
          same = ap (λ b. holds_before α p || b) rest.same;
          strict = strictly l p ls r' a (ground arith) rest.strict;
          undefined = ground (arith, rest.undefined);
          range = λ n h. ground (arith, rest.range n);
        })
    | inr old ↦
        let rest = reduce-some α t p ls r k (weaken l p ls a) (rw (fine, old) at e) in
        record {
          same = rest.same ∙ (elim (Bool-cases (is_same l p)) [
            | inl twice ↦ same_holds α l p (satisfies α ls) twice
            | inr other ↦ let no_l = Agrees-is_false α t l k (ground arith) in rw no_l refl
          ]);
          strict = rest.strict;
          undefined = rest.undefined;
          range = λ n h. rest.range n (ground arith);
        }
  ]
]
  where
    some_inj : {A : Type 0} {a b : A} → some a ≡ some b → a ≡ b
    some_inj e = cc

elem-is_strict : (b k : ℕ) (ls : List ℕ) → is_strict (some b) ls ≡ true → elem k ls ≡ true → b < k
elem-is_strict b k [] s h = absurd (clash (sym h ∙ h) (sym h))
elem-is_strict b k (l ∷ ls) s h = elim (Bool-cases (k == l)) [
  | inl here ↦ ground arith
  | inr there ↦
      let rest = elem-is_strict l k ls (ground arith) (ground arith) in
      let low : b < l = ground arith in omega arith
]

pub no_repeat-is_strict : (p : Option ℕ) (ls : List ℕ) → is_strict p ls ≡ true → no_repeat ls ≡ true
no_repeat-is_strict p [] s = refl
no_repeat-is_strict p (l ∷ ls) s =
    let tail : is_strict (some l) ls ≡ true = drop_bound p s in
    let rest = no_repeat-is_strict (some l) ls tail in
    let out : elem l ls ≡ false = elim (Bool-cases (elem l ls)) [
      | inl inside ↦ let less = elem-is_strict l l ls tail inside in absurd (omega arith)
      | inr out ↦ out
    ] in
    ground arith
  where
    drop_bound : (p : Option ℕ) → is_strict p (l ∷ ls) ≡ true → is_strict (some l) ls ≡ true
    drop_bound none s = s
    drop_bound (some b) s = ground arith

-- What the loop returns, against the clause.
abbrev pub Reduced : (ℕ → Bool) → Trail → List ℕ → Option (List ℕ) → Type 0
Reduced α t ls none = satisfies α ls ≡ true
Reduced α t ls (some r) =
    (satisfies α r ≡ satisfies α ls) × (no_repeat r ≡ true) × (are_undef t r ≡ true)

-- For sorted literals, and an assignment that makes the literals of the trail true: if the loop finds
-- the clause satisfied or with two opposite literals, the assignment satisfies it; otherwise it
-- satisfies what is left exactly if it satisfies the clause, and what is left has no literal twice
-- and is undefined on the trail.
pub reduce-satisfies :
    (α : ℕ → Bool) (t : Trail) (ls : List ℕ)
    → Agrees α t
    → is_ascending 0 ls ≡ true
    → Reduced α t ls (reduce t none ls)
reduce-satisfies α t ls k a = elim (Option-cases (reduce t none ls)) [
  | inl e ↦ rw e (reduce-none α t none ls k e)
  | inr (r, e) ↦
      let left = reduce-some α t none ls r k a e in
      rw e (left.same, no_repeat-is_strict none r left.strict, left.undefined)
]
