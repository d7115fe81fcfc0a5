-- ===== src/Simp/Extended.antt =====
-- extendModel of SimpSolver.cc: how it reads the clauses that mkElimClause stored.
use dsyrup.Base.{
  ℕ, suc, ◌+◌, ◌-◌, ◌≡◌, refl, sym, ap, ◌∙◌, subst, Bool, true, false, not, ◌||◌, none, some, List,
  [], ◌∷◌, arith, if◌then◌else◌, ◌==◌, ltb, length, set, get_or, Bool-cases, inl, inr,
}
use dsyrup.Literal.{var, sign}
use dsyrup.Clause.{put}
use dsyrup.Clause.Meaning.{holds, satisfies}
use dsyrup.Trail.{Lbool, lift, flip, is_false}
use dsyrup.Simp.{
  without, push_all, v_pos, swap_first, mk_elim_clause, skipping, checking, model_value,
  extend_from,
}
use dsyrup.Simp.Merge.{occurrences}

-- Whether some literal is not false in the model.
abbrev any_open : (ℕ → Lbool) → List ℕ → Bool
any_open m [] = false
any_open m (l ∷ ls) = not (is_false (model_value m l)) || any_open m ls

-- One more literal read.
more_read :
    (m : ℕ → Lbool) (k l : ℕ) (o : Bool) (es : List ℕ)
    → (if o
        then extend_from (skipping (suc (suc k))) (l ∷ es) m
        else extend_from (checking (suc (suc k))) (l ∷ es) m)
      ≡ (if not (is_false (model_value m l)) || o
          then extend_from (skipping (suc k)) es m
          else extend_from (checking (suc k)) es m)
unfolding extend_from
more_read m k l true es = elim (Bool-cases (is_false (model_value m l))) [
  | inl closed ↦ rw closed refl
  | inr left_open ↦ rw left_open refl
]
more_read m k l false es =
    let more : ltb 1 (suc (suc k)) ≡ true = ground arith in
    let less : suc (suc k) - 1 ≡ suc k = omega arith in
    elim (Bool-cases (is_false (model_value m l))) [
      | inl closed ↦ rw (more, closed, less) refl
      | inr left_open ↦ rw (more, left_open, less) refl
    ]

-- The literals after the first, from the last one on, with `k` more to come before them.
extend_from-push_all :
    (m : ℕ → Lbool) (k : ℕ) (ls es : List ℕ)
    → extend_from (checking (length ls + suc k)) (push_all ls es) m ≡ (
        if any_open m ls
        then extend_from (skipping (suc k)) es m
        else extend_from (checking (suc k)) es m)
extend_from-push_all m k [] es = ap (λ n. extend_from (checking n) es m) (omega arith)
extend_from-push_all m k (l ∷ ls) es =
    let shift : suc (length ls) + suc k ≡ length ls + suc (suc k) = omega arith in
    ap (λ n. extend_from (checking n) (push_all ls (l ∷ es)) m) shift
    ∙ extend_from-push_all m (suc k) ls (l ∷ es)
    ∙ more_read m k l (any_open m ls) es

-- A stored clause, `x` being its first literal: it is passed over if another literal is not false,
-- and else `x` is made true.
read_clause :
    (m : ℕ → Lbool) (x : ℕ) (ls es : List ℕ)
    → extend_from (skipping 0) (length (x ∷ ls) ∷ push_all (x ∷ ls) es) m ≡ (
        if any_open m ls
        then extend_from (skipping 0) es m
        else extend_from (skipping 0) es (put (var x) (lift (not (sign x))) m))
unfolding extend_from
read_clause m x ls es =
    let shift : suc (length ls) ≡ length ls + suc 0 = omega arith in
    ap (λ n. extend_from (checking n) (push_all ls (x ∷ es)) m) shift
    ∙ extend_from-push_all m 0 ls (x ∷ es)

-- The first literal and the others of what mkElimClause pushes.
abbrev others : List ℕ → List ℕ
others [] = []
others (l ∷ ls) = ls

v_pos-none : (v : ℕ) (ls : List ℕ) → occurrences v ls ≡ 0 → v_pos v ls ≡ none
unfolding v_pos
v_pos-none v [] h = refl
v_pos-none v (l ∷ ls) h = elim (Bool-cases (var l == v)) [
  | inl same ↦ absurd (no_zero (rw same at h))
  | inr other ↦ rw (v_pos-none v ls (rw other at h), other) refl
]
  where
    no_zero : suc (occurrences v ls) ≡ 0 → ⊥
    no_zero e = omega arith

-- The literal of the variable in a clause with one of them.
abbrev pub its_literal : ℕ → List ℕ → ℕ
its_literal v [] = 0
its_literal v (l ∷ ls) = if var l == v then l else its_literal v ls

pub without-none : (v : ℕ) (ls : List ℕ) → occurrences v ls ≡ 0 → without v ls ≡ ls
unfolding without
without-none v [] h = refl
without-none v (l ∷ ls) h = elim (Bool-cases (var l == v)) [
  | inl same ↦ absurd (no_zero (rw same at h))
  | inr other ↦ rw other (ap (λ z. l ∷ z) (without-none v ls (rw other at h)))
]
  where
    no_zero : suc (occurrences v ls) ≡ 0 → ⊥
    no_zero e = omega arith

-- Where the variable stands, and a clause with another literal put there.
abbrev Place : ℕ → ℕ → List ℕ → ℕ → Type 0
Place v y ls i =
    (v_pos v ls ≡ some i)
    × (get_or ls i 0 ≡ its_literal v ls)
    × (length (set ls i y) ≡ length ls)
    × ((α : ℕ → Bool) → satisfies α (set ls i y) ≡ holds α y || satisfies α (without v ls))
    × ((var y == v) ≡ false → occurrences v (set ls i y) ≡ 0)

placed : (v y : ℕ) (ls : List ℕ) → occurrences v ls ≡ 1 → (i : ℕ) × Place v y ls i
unfolding v_pos without
placed v y [] h = absurd (omega arith)
placed v y (l ∷ ls) h = elim (Bool-cases (var l == v)) [
  | inl same ↦
      let last : occurrences v ls ≡ 0 =
        let all : suc (occurrences v ls) ≡ 1 = rw same at h in omega arith in
      let at_end = v_pos-none v ls last in
      (
        0,
        (
          rw (at_end, same) refl,
          rw same refl,
          refl,
          λ α. rw (same, without-none v ls last) refl,
          λ o. rw o last,
        ),
      )
  | inr other ↦
      let (i, (at_i, value, same_length, says, gone)) = placed v y ls (rw other at h) in
      (
        suc i,
        (
          rw at_i refl,
          rw other value,
          ap suc same_length,
          λ α. rw other (ground (arith, says α)),
          λ o. rw other (gone o),
        ),
      )
]

-- A clause with one literal of the variable, as it is pushed: that literal, and the others.
abbrev Pushed : ℕ → List ℕ → List ℕ → Type 0
Pushed v c ls =
    (swap_first (v_pos v c) c ≡ its_literal v c ∷ ls)
    × (length c ≡ suc (length ls))
    × ((α : ℕ → Bool) → satisfies α ls ≡ satisfies α (without v c))
    × (occurrences v ls ≡ 0)

swap_first-Pushed : (v : ℕ) (c : List ℕ) → occurrences v c ≡ 1 → (ls : List ℕ) × Pushed v c ls
unfolding v_pos without
swap_first-Pushed v [] h = absurd (omega arith)
swap_first-Pushed v (l ∷ ls) h = elim (Bool-cases (var l == v)) [
  | inl same ↦
      let last : occurrences v ls ≡ 0 =
        let all : suc (occurrences v ls) ≡ 1 = rw same at h in omega arith in
      (
        ls,
        (
          rw (v_pos-none v ls last, same) refl,
          refl,
          λ α. rw (same, without-none v ls last) refl,
          last,
        ),
      )
  | inr other ↦
      let (i, (at_i, found, same_length, says, gone)) = placed v l ls (rw other at h) in
      (
        set ls i l,
        (
          rw (at_i, other) (ap (λ z. z ∷ set ls i l) found),
          ap suc (sym same_length),
          λ α. rw other (says α),
          gone other,
        ),
      )
]

pub var-its_literal : (v : ℕ) (c : List ℕ) → occurrences v c ≡ 1 → var (its_literal v c) ≡ v
var-its_literal v [] h = absurd (omega arith)
var-its_literal v (l ∷ c) h = elim (Bool-cases (var l == v)) [
  | inl same ↦ rw same (ground arith)
  | inr other ↦ rw other (var-its_literal v c (rw other at h))
]

-- A model that gives each other variable its value in an assignment.
abbrev pub AgreesOff : ℕ → (ℕ → Bool) → (ℕ → Lbool) → Type 0
AgreesOff v α m = (u : ℕ) → (u == v) ≡ false → m u ≡ lift (α u)

open_literal :
    (v : ℕ) (α : ℕ → Bool) (m : ℕ → Lbool) (l : ℕ)
    → AgreesOff v α m
    → (var l == v) ≡ false
    → not (is_false (model_value m l)) ≡ holds α l
unfolding holds
open_literal v α m l k n = rw (k (var l) n) (cases (α (var l)) (sign l))
  where
    cases : (a s : Bool) → not (is_false (flip (lift a) s)) ≡ (if s then not a else a)
    cases true true = refl
    cases true false = refl
    cases false true = refl
    cases false false = refl

any_open-satisfies :
    (v : ℕ) (α : ℕ → Bool) (m : ℕ → Lbool) (ls : List ℕ)
    → AgreesOff v α m
    → occurrences v ls ≡ 0
    → any_open m ls ≡ satisfies α ls
any_open-satisfies v α m [] k h = refl
any_open-satisfies v α m (l ∷ ls) k h = elim (Bool-cases (var l == v)) [
  | inl same ↦ absurd (no_zero (rw same at h))
  | inr other ↦
      rw (open_literal v α m l k other, any_open-satisfies v α m ls k (rw other at h)) refl
]
  where
    no_zero : suc (occurrences v ls) ≡ 0 → ⊥
    no_zero e = omega arith

-- What a stored clause does to the model: nothing, if it holds without the variable, and else the
-- variable is set to what makes its literal true.
pub extend_from-mk_elim_clause :
    (v : ℕ) (α : ℕ → Bool) (m : ℕ → Lbool) (c es : List ℕ)
    → AgreesOff v α m
    → occurrences v c ≡ 1
    → extend_from (skipping 0) (mk_elim_clause v c es) m ≡ (
        if satisfies α (without v c)
        then extend_from (skipping 0) es m
        else extend_from (skipping 0) es (put v (lift (not (sign (its_literal v c)))) m))
unfolding mk_elim_clause
extend_from-mk_elim_clause v α m c es k h =
    let (ls, (pushed, long, says, gone)) = swap_first-Pushed v c h in
    let read = read_clause m (its_literal v c) ls es in
    let left_open = any_open-satisfies v α m ls k gone ∙ says α in
    rw (pushed, long)
      (subst
        (λ u. extend_from (skipping 0) (suc (length ls) ∷ push_all ls (its_literal v c ∷ es)) m ≡ (
          if satisfies α (without v c)
          then extend_from (skipping 0) es m
          else extend_from (skipping 0) es (put u (lift (not (sign (its_literal v c)))) m)))
        (var-its_literal v c h) (rw left_open at read))
