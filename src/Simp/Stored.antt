-- ===== src/Simp/Stored.antt =====
-- SimpSolver.cc: what the clauses that eliminateVar stores do to a model.
use mathlib.Core.Path.{fun_ext}
use dsyrup.Base.{
  ℕ, ◌≡◌, refl, sym, ap, ◌∙◌, Bool, true, false, not, ◌&&◌, List, [], ◌∷◌, arith, if◌then◌else◌,
  ◌==◌, All,
}
use dsyrup.Literal.{var, sign}
use dsyrup.Clause.{put}
use dsyrup.Clause.Meaning.{satisfies}
use dsyrup.Trail.{Lbool, lift}
use dsyrup.Simp.{without, mk_elim_unit, mk_elim_clause, mk_elim_all, skipping, extend_from}
use dsyrup.Simp.Merge.{occurrences}
use dsyrup.Simp.Extended.{its_literal, AgreesOff, extend_from-mk_elim_clause}

abbrev pub satisfies_all : (ℕ → Bool) → List (List ℕ) → Bool
satisfies_all α [] = true
satisfies_all α (c ∷ cs) = satisfies α c && satisfies_all α cs

-- All hold without a variable.
abbrev pub all_without : (ℕ → Bool) → ℕ → List (List ℕ) → Bool
all_without α v [] = true
all_without α v (c ∷ cs) = satisfies α (without v c) && all_without α v cs

-- A clause with one literal of the variable, of the given sign.
abbrev pub HasLiteral : ℕ → Bool → List ℕ → Type 0
HasLiteral v s c = (occurrences v c ≡ 1) × (sign (its_literal v c) ≡ s)

put-twice : {A : Type 0} (v : ℕ) (a b : A) (m : ℕ → A) → put v a (put v b m) ≡ put v a m
put-twice v a b m = fun_ext (λ u. once (v == u) u)
  where
    once : (c : Bool) (u : ℕ) → (if c then a else (if c then b else m u)) ≡ (if c then a else m u)
    once true u = refl
    once false u = refl

put-AgreesOff :
    (v : ℕ) (α : ℕ → Bool) (m : ℕ → Lbool) (b : Lbool) → AgreesOff v α m → AgreesOff v α (put v b m)
put-AgreesOff v α m b k u n = let other : (v == u) ≡ false = ground arith in rw other (k u n)

-- Two choices in turn.
chosen :
    {A : Type 0} (r n t x y : A) (a c : Bool)
    → r ≡ (if c then n else t)
    → n ≡ (if a then x else y)
    → t ≡ y
    → r ≡ (if a && c then x else y)
chosen r n t x y true true h k e = h ∙ k
chosen r n t x y false true h k e = h ∙ k
chosen r n t x y true false h k e = h ∙ e
chosen r n t x y false false h k e = h ∙ e

same_branch : {A : Type 0} {y z : A} (a : Bool) → z ≡ y → (if a then y else z) ≡ y
same_branch true e = refl
same_branch false e = e

-- The stored clauses set the variable if one of them does not hold without it.
extend_from-mk_elim_all :
    (v : ℕ) (s : Bool) (α : ℕ → Bool) (m : ℕ → Lbool) (cs : List (List ℕ)) (es : List ℕ)
    → AgreesOff v α m
    → All (HasLiteral v s) cs
    → extend_from (skipping 0) (mk_elim_all v cs es) m ≡ (
        if all_without α v cs
        then extend_from (skipping 0) es m
        else extend_from (skipping 0) es (put v (lift (not s)) m))
extend_from-mk_elim_all v s α m [] es k h = refl
extend_from-mk_elim_all v s α m (c ∷ cs) es k ((one, signed), h) =
    let rest = extend_from-mk_elim_all v s α m cs (mk_elim_clause v c es) k h in
    let set_once = put v (lift (not s)) m in
    let now = rw signed at (extend_from-mk_elim_clause v α m c es k one) in
    let later =
      rw signed at
        (extend_from-mk_elim_clause v α set_once c es (put-AgreesOff v α m (lift (not s)) k) one) in
    let twice = put-twice v (lift (not s)) (lift (not s)) m in
    chosen _ _ _ _ _ (satisfies α (without v c)) (all_without α v cs) rest now
      (later ∙ same_branch (satisfies α (without v c)) (ap (extend_from (skipping 0) es) twice))

not-not : (s : Bool) → s ≡ not (not s)
not-not true = refl
not-not false = refl

one_put :
    (v : ℕ) (s : Bool) (m : ℕ → Lbool) (a : Bool) (es : List ℕ)
    → (if a
        then extend_from (skipping 0) es (put v (lift s) m)
        else extend_from (skipping 0) es (put v (lift (not s)) (put v (lift s) m)))
      ≡ extend_from (skipping 0) es (put v (lift (if a then s else not s)) m)
one_put v s m true es = refl
one_put v s m false es = ap (extend_from (skipping 0) es) (put-twice v (lift (not s)) (lift s) m)

read_unit :
    (m : ℕ → Lbool) (x : ℕ) (es : List ℕ)
    → extend_from (skipping 0) (mk_elim_unit x es) m
      ≡ extend_from (skipping 0) es (put (var x) (lift (not (sign x))) m)
unfolding extend_from
read_unit m x es = refl

-- One side stored, with a literal that stands for the other: `s` is the sign of its clauses.
pub extend_from-stored :
    (v x : ℕ) (s : Bool) (α : ℕ → Bool) (m : ℕ → Lbool) (cs : List (List ℕ)) (es : List ℕ)
    → AgreesOff v α m
    → All (HasLiteral v s) cs
    → var x ≡ v
    → sign x ≡ not s
    → extend_from (skipping 0) (mk_elim_unit x (mk_elim_all v cs es)) m
      ≡ extend_from (skipping 0) es (put v (lift (if all_without α v cs then s else not s)) m)
extend_from-stored v x s α m cs es k h its signed =
    read_unit m x (mk_elim_all v cs es)
    ∙ ap (λ u. extend_from (skipping 0) (mk_elim_all v cs es) (put u (lift (not (sign x))) m)) its
    ∙ ap (λ b. extend_from (skipping 0) (mk_elim_all v cs es) (put v (lift b) m))
        (ap not signed ∙ sym (not-not s))
    ∙ extend_from-mk_elim_all v s α (put v (lift s) m) cs es (put-AgreesOff v α m (lift s) k) h
    ∙ one_put v s m (all_without α v cs) es
