-- ===== src/Simp/Resolved.antt =====
-- SimpSolver.cc: the resolvents that eliminateVar adds against the clauses that it stores, and the
-- model that extendModel makes of them.
use dsyrup.Base.{
  ℕ, suc, ◌≡◌, refl, sym, ap, ◌∙◌, subst, Bool, true, false, not, ◌&&◌, ◌||◌, Option, none, some,
  List, [], ◌∷◌, ◌++◌, arith, if◌then◌else◌, ◌==◌, ltb, length, Bool-cases, inl, inr, All,
}
use dsyrup.Literal.{var, sign, negate, mk_lit}
use dsyrup.Literal.Laws.{mk_lit-var-sign, negate-involutive}
use dsyrup.Clause.{put}
use dsyrup.Clause.Meaning.{holds, satisfies, elem, satisfies-elem}
use dsyrup.Trail.{Lbool, lift}
use dsyrup.Simp.{
  without, merge, store_eliminated, keep_resolvent, resolve_with, resolvents, extend_model,
}
use dsyrup.Simp.Merge.{Resolves, merge-Resolves, occurrences}
use dsyrup.Simp.Extended.{its_literal, without-none, var-its_literal, AgreesOff}
use dsyrup.Simp.Stored.{HasLiteral, satisfies_all, all_without, extend_from-stored}

found : (l x : ℕ) (c : List ℕ) → elem x c ≡ true → elem x (l ∷ c) ≡ true
found l x c h = ground arith

elem-its_literal : (v : ℕ) (c : List ℕ) → occurrences v c ≡ 1 → elem (its_literal v c) c ≡ true
elem-its_literal v [] h = absurd (omega arith)
elem-its_literal v (l ∷ c) h = elim (Bool-cases (var l == v)) [
  | inl same ↦ rw same (ground arith)
  | inr other ↦
      let e : its_literal v (l ∷ c) ≡ its_literal v c = rw other refl in
      subst (λ z. elem z (l ∷ c) ≡ true) (sym e)
        (found l (its_literal v c) c (elem-its_literal v c (rw other at h)))
]

holds-put :
    (v : ℕ) (b : Bool) (α : ℕ → Bool) (l : ℕ)
    → (var l == v) ≡ false
    → holds (put v b α) l ≡ holds α l
unfolding holds
holds-put v b α l n = let other : (v == var l) ≡ false = ground arith in rw other refl

-- Setting a variable keeps the clauses that hold without it.
satisfies-put :
    (v : ℕ) (b : Bool) (α : ℕ → Bool) (c : List ℕ)
    → satisfies α (without v c) ≡ true
    → satisfies (put v b α) c ≡ true
unfolding without
satisfies-put v b α [] h = h
satisfies-put v b α (l ∷ c) h = elim (Bool-cases (var l == v)) [
  | inl same ↦ let rest = satisfies-put v b α c (rw same at h) in ground arith
  | inr other ↦
      let now : (holds α l || satisfies α (without v c)) ≡ true = rw other at h in
      let same_value = holds-put v b α l other in
      elim (Bool-cases (holds α l)) [
        | inl true_l ↦ ground arith
        | inr false_l ↦ let rest = satisfies-put v b α c (ground arith) in ground arith
      ]
]

all_without-put :
    (v : ℕ) (b : Bool) (α : ℕ → Bool) (cs : List (List ℕ))
    → all_without α v cs ≡ true
    → satisfies_all (put v b α) cs ≡ true
all_without-put v b α [] h = refl
all_without-put v b α (c ∷ cs) h =
    let now = satisfies-put v b α c (ground arith) in
    let rest = all_without-put v b α cs (ground arith) in ground arith

made_true :
    (v : ℕ) (s : Bool) (α : ℕ → Bool) (l : ℕ)
    → var l ≡ v
    → sign l ≡ s
    → holds (put v (not s) α) l ≡ true
unfolding holds
made_true v s α l its signed =
    let here : (v == var l) ≡ true = ground arith in rw (here, signed) (cases s)
  where
    cases : (s : Bool) → (if s then not (not s) else not s) ≡ true
    cases true = refl
    cases false = refl

satisfies_its :
    (v : ℕ) (s : Bool) (α : ℕ → Bool) (l : ℕ) (c : List ℕ)
    → elem l c ≡ true
    → var l ≡ v
    → sign l ≡ s
    → satisfies (put v (not s) α) c ≡ true
satisfies_its v s α l c inside its signed =
    satisfies-elem (put v (not s) α) l c inside (made_true v s α l its signed)

-- Setting a variable to what its literal asks for makes the clauses hold.
satisfies_all-put :
    (v : ℕ) (s : Bool) (α : ℕ → Bool) (cs : List (List ℕ))
    → All (HasLiteral v s) cs
    → satisfies_all (put v (not s) α) cs ≡ true
satisfies_all-put v s α [] h = refl
satisfies_all-put v s α (c ∷ cs) ((one, signed), h) =
    let rest = satisfies_all-put v s α cs h in
    let now =
      satisfies_its v s α (its_literal v c) c (elem-its_literal v c one) (var-its_literal v c one)
        signed in
    ground arith

keep_resolvent-satisfies :
    (α : ℕ → Bool) (a b c : Bool) (o : Option (List ℕ)) (rs : List (List ℕ))
    → Resolves α (a || b) o
    → satisfies_all α rs ≡ a || c
    → satisfies_all α (keep_resolvent o rs) ≡ a || (b && c)
keep_resolvent-satisfies α a b c none rs h k = ground arith
keep_resolvent-satisfies α a b c (some r) rs h k = ground arith

resolve_with-satisfies :
    (v : ℕ) (α : ℕ → Bool) (p : List ℕ) (neg : List (List ℕ))
    → satisfies_all α (resolve_with v p neg) ≡ satisfies α (without v p) || all_without α v neg
unfolding resolve_with
resolve_with-satisfies v α p [] = ground arith
resolve_with-satisfies v α p (q ∷ neg) =
    keep_resolvent-satisfies α (satisfies α (without v p)) (satisfies α (without v q))
      (all_without α v neg) (merge p q v) (resolve_with v p neg) (merge-Resolves α v p q)
      (resolve_with-satisfies v α p neg)

satisfies_all-append :
    (α : ℕ → Bool) (cs ds : List (List ℕ))
    → satisfies_all α (cs ++ ds) ≡ satisfies_all α cs && satisfies_all α ds
satisfies_all-append α [] ds = refl
satisfies_all-append α (c ∷ cs) ds = ground (arith, satisfies_all-append α cs ds)

-- The resolvents say that all clauses of one side hold without the variable.
resolvents-satisfies :
    (v : ℕ) (α : ℕ → Bool) (pos neg : List (List ℕ))
    → satisfies_all α (resolvents v pos neg) ≡ all_without α v pos || all_without α v neg
unfolding resolvents
resolvents-satisfies v α [] neg = refl
resolvents-satisfies v α (p ∷ pos) neg = ground (
  arith,
  satisfies_all-append α (resolve_with v p neg) (resolvents v pos neg),
  resolve_with-satisfies v α p neg,
  resolvents-satisfies v α pos neg,
)

-- A variable whose clauses, split by the sign of its one literal in each, are replaced by their
-- resolvents: a model of the resolvents is extended by the stored clauses to one of all the
-- clauses, whatever was stored before them, and only the variable is set.
pub store_eliminated-restores :
    (v : ℕ) (α : ℕ → Bool) (m : ℕ → Lbool) (pos neg : List (List ℕ)) (es : List ℕ)
    → AgreesOff v α m
    → All (HasLiteral v false) pos
    → All (HasLiteral v true) neg
    → satisfies_all α (resolvents v pos neg) ≡ true
    → (b : Bool) × (extend_model (store_eliminated v pos neg es) m
        ≡ extend_model es (put v (lift b) m))
      × (satisfies_all (put v b α) pos ≡ true)
      × (satisfies_all (put v b α) neg ≡ true)
unfolding store_eliminated extend_model
store_eliminated-restores v α m pos neg es k h j r =
    let either : (all_without α v pos || all_without α v neg) ≡ true =
      sym (resolvents-satisfies v α pos neg) ∙ r in
    let positive = mk_lit-var-sign v false 0 in
    let opposite = negate-involutive (mk_lit v false) in
    let with_neg =
      extend_from-stored v (mk_lit v false) true α m neg es k j positive.0 positive.1 in
    let with_pos =
      extend_from-stored v (negate (mk_lit v false)) false α m pos es k h (opposite.0 ∙ positive.0)
        (opposite.1 ∙ ap not positive.1) in
    elim (Bool-cases (ltb (length neg) (length pos))) [
      | inl fewer ↦ elim (Bool-cases (all_without α v neg)) [
        | inl all ↦ (
          true,
          rw fewer (rw all at with_neg),
          satisfies_all-put v false α pos h,
          all_without-put v true α neg all,
        )
        | inr some_fail ↦ (
          false,
          rw fewer (rw some_fail at with_neg),
          all_without-put v false α pos (ground arith),
          satisfies_all-put v true α neg j,
        )
      ]
      | inr more ↦ elim (Bool-cases (all_without α v pos)) [
        | inl all ↦ (
          false,
          rw more (rw all at with_pos),
          all_without-put v false α pos all,
          satisfies_all-put v true α neg j,
        )
        | inr some_fail ↦ (
          true,
          rw more (rw some_fail at with_pos),
          satisfies_all-put v false α pos h,
          all_without-put v true α neg (ground arith),
        )
      ]
    ]

satisfies-without :
    (α : ℕ → Bool) (v : ℕ) (c : List ℕ)
    → occurrences v c ≡ 1
    → satisfies α c ≡ satisfies α (without v c) || holds α (its_literal v c)
unfolding without
satisfies-without α v [] h = absurd (omega arith)
satisfies-without α v (l ∷ c) h = elim (Bool-cases (var l == v)) [
  | inl same ↦
      let last : occurrences v c ≡ 0 =
        let all : suc (occurrences v c) ≡ 1 = rw same at h in omega arith in
      rw (same, without-none v c last) (ground arith)
  | inr other ↦ rw other (ground (arith, satisfies-without α v c (rw other at h)))
]

made_false : (v : ℕ) (α : ℕ → Bool) (l : ℕ) → var l ≡ v → sign l ≡ α v → holds α l ≡ false
unfolding holds
made_false v α l its signed =
    rw signed (subst (λ u. (if α v then not (α u) else α u) ≡ false) (sym its) (cases (α v)))
  where
    cases : (b : Bool) → (if b then not b else b) ≡ false
    cases true = refl
    cases false = refl

all_without-false :
    (v : ℕ) (α : ℕ → Bool) (cs : List (List ℕ))
    → All (HasLiteral v (α v)) cs
    → satisfies_all α cs ≡ true
    → all_without α v cs ≡ true
all_without-false v α [] h k = refl
all_without-false v α (c ∷ cs) ((one, signed), h) k =
    let rest = all_without-false v α cs h (ground arith) in
    let now = satisfies-without α v c one in
    let no_literal = made_false v α (its_literal v c) (var-its_literal v c one) signed in
    ground arith

-- Each assignment that satisfies the clauses of a variable satisfies their resolvents.
pub resolvents-hold :
    (v : ℕ) (α : ℕ → Bool) (pos neg : List (List ℕ))
    → All (HasLiteral v false) pos
    → All (HasLiteral v true) neg
    → satisfies_all α pos ≡ true
    → satisfies_all α neg ≡ true
    → satisfies_all α (resolvents v pos neg) ≡ true
resolvents-hold v α pos neg h j p n = resolvents-satisfies v α pos neg ∙ elim (Bool-cases (α v)) [
  | inl set_true ↦
      let all =
        all_without-false v α neg (subst (λ b. All (HasLiteral v b) neg) (sym set_true) j) n in
      ground arith
  | inr set_false ↦
      let all =
        all_without-false v α pos (subst (λ b. All (HasLiteral v b) pos) (sym set_false) h) p in
      ground arith
]
