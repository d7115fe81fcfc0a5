-- ===== src/Simp/Merge.antt =====
-- merge of SimpSolver.cc: the resolvent of two clauses, and its length.
use dsyrup.Base.{
  ℕ, suc, ◌+◌, ◌-◌, ◌≡◌, refl, sym, ap, ◌∙◌, Bool, true, false, ◌||◌, Option, none, some, List, [],
  ◌∷◌, arith, if◌then◌else◌, ◌==◌, ltb, length, Bool-cases, inl, inr, ◌>>=◌,
}
use dsyrup.Literal.{var, negate}
use dsyrup.Clause.Meaning.{holds, satisfies, holds-negate}
use dsyrup.Simp.{
  Met, absent, present, opposite, meet, put_first, merge_into, without, merge, one_more, count_into,
  merge_size,
}

-- Two literals of one variable are equal or opposite.
pub same_var : (l p : ℕ) → (var p == var l) ≡ true → (p == negate l) ≡ false → p ≡ l
unfolding negate
same_var l p e n = ground arith

-- What the inner loop says of the other clause under an assignment.
abbrev Says : (ℕ → Bool) → ℕ → List ℕ → Met → Type 0
Says α l ps absent = Unit
Says α l ps present = holds α l ≡ true → satisfies α ps ≡ true
Says α l ps opposite = holds α l ≡ false → satisfies α ps ≡ true

Says-later :
    (α : ℕ → Bool) (v l p : ℕ) (ps : List ℕ) (m : Met)
    → Says α l (without v ps) m
    → Says α l (without v (p ∷ ps)) m
unfolding without
Says-later α v l p ps absent k = tt
Says-later α v l p ps present k = λ h. let rest = k h in ground arith
Says-later α v l p ps opposite k = λ h. let rest = k h in ground arith

-- The rest of the other clause, without the variable.
meet-Says :
    (α : ℕ → Bool) (v l : ℕ) (ps : List ℕ)
    → (var l == v) ≡ false
    → Says α l (without v ps) (meet l ps)
unfolding meet without
meet-Says α v l [] n = tt
meet-Says α v l (p ∷ ps) n = elim (Bool-cases (var p == var l)) [
  | inr other ↦ rw other (Says-later α v l p ps (meet l ps) (meet-Says α v l ps n))
  | inl here ↦
      let kept : (var p == v) ≡ false = ground arith in
      elim (Bool-cases (p == negate l)) [
        | inl facing ↦
            rw (here, facing)
              (λ h.
                let equal : p ≡ negate l = ground arith in
                let true_p : holds α p ≡ true = rw equal (ground (arith, holds-negate α l)) in
                rw kept (ground arith))
        | inr same ↦
            rw (here, same)
              (λ h.
                let equal : p ≡ l = same_var l p here same in
                let true_p : holds α p ≡ true = rw equal h in rw kept (ground arith))
      ]
]

-- What a result says of an assignment, where the clauses to resolve say `a` and `b`.
abbrev pub Resolves : (ℕ → Bool) → Bool → Option (List ℕ) → Type 0
Resolves α both none = both ≡ true
Resolves α both (some r) = satisfies α r ≡ both

step-Resolves :
    (α : ℕ → Bool) (l : ℕ) (b c : Bool) (ps : List ℕ) (m : Met) (rest : Option (List ℕ))
    → Says α l ps m
    → satisfies α ps ≡ b
    → Resolves α (b || c) rest
    → Resolves α
        (b || (holds α l || c))
        (elim m [ absent ↦ rest >>= put_first l | present ↦ rest | opposite ↦ none ])
step-Resolves α l b c ps absent none k e h = ground arith
step-Resolves α l b c ps absent (some r) k e h = ground arith
step-Resolves α l b c ps present none k e h = ground arith
step-Resolves α l b c ps present (some r) k e h = elim (Bool-cases (holds α l)) [
  | inl yes_l ↦ let all = k yes_l in ground arith
  | inr no_l ↦ ground arith
]
step-Resolves α l b c ps opposite rest k e h = elim (Bool-cases (holds α l)) [
  | inl yes_l ↦ ground arith
  | inr no_l ↦ let all = k no_l in ground arith
]

merge_into-Resolves :
    (α : ℕ → Bool) (v : ℕ) (ps qs : List ℕ)
    → Resolves α
        (satisfies α (without v ps) || satisfies α (without v qs))
        (merge_into v ps (without v ps) qs)
unfolding merge_into without
merge_into-Resolves α v ps [] = ground arith
merge_into-Resolves α v ps (l ∷ qs) = elim (Bool-cases (var l == v)) [
  | inl same ↦ rw same (merge_into-Resolves α v ps qs)
  | inr other ↦ rw other (
      step-Resolves α l (satisfies α (without v ps)) (satisfies α (without v qs)) (without v ps)
        (meet l ps) (merge_into v ps (without v ps) qs) (meet-Says α v l ps other) refl
        (merge_into-Resolves α v ps qs))
]

Resolves-swap :
    (α : ℕ → Bool) (b c : Bool) (r : Option (List ℕ))
    → Resolves α (b || c) r
    → Resolves α (c || b) r
Resolves-swap α b c none h = ground arith
Resolves-swap α b c (some r) h = ground arith

-- The resolvent of two clauses on a variable holds exactly if one of them holds without its literals
-- of that variable; where merge returns false, one of them always does.
pub merge-Resolves :
    (α : ℕ → Bool) (v : ℕ) (ps qs : List ℕ)
    → Resolves α (satisfies α (without v ps) || satisfies α (without v qs)) (merge ps qs v)
unfolding merge
merge-Resolves α v ps qs = elim (Bool-cases (ltb (length ps) (length qs))) [
  | inl shorter ↦ rw shorter (
      Resolves-swap α (satisfies α (without v qs)) (satisfies α (without v ps))
        (merge_into v qs (without v qs) ps) (merge_into-Resolves α v qs ps))
  | inr longer ↦ rw longer (merge_into-Resolves α v ps qs)
]

abbrev pub option_length : Option (List ℕ) → Option ℕ
option_length none = none
option_length (some r) = some (length r)

-- How often a variable occurs in a clause.
abbrev pub occurrences : ℕ → List ℕ → ℕ
occurrences v [] = 0
occurrences v (l ∷ ls) = if var l == v then suc (occurrences v ls) else occurrences v ls

-- A length counted on from a number.
abbrev added : ℕ → Option ℕ → Option ℕ
added n none = none
added n (some k) = some (n + k)

added-suc : (n : ℕ) (o : Option ℕ) → added (suc n) o ≡ added n (o >>= one_more)
added-suc n none = refl
added-suc n (some k) = ap some (omega arith)

added-some : (n k : ℕ) (o : Option ℕ) → n ≡ k → added n o ≡ added k o
added-some n k o e = ap (λ z. added z o) e

option_length-put_first :
    (l : ℕ) (o : Option (List ℕ)) → option_length (o >>= put_first l) ≡ option_length o >>= one_more
option_length-put_first l none = refl
option_length-put_first l (some r) = refl

length-without : (v : ℕ) (ls : List ℕ) → length (without v ls) + occurrences v ls ≡ length ls
unfolding without
length-without v [] = refl
length-without v (l ∷ ls) = ground (arith, length-without v ls)

-- `count_into` counts on from `n` what `merge_into` puts before its end.
abbrev Counts : ℕ → ℕ → Option (List ℕ) → Option ℕ → Type 0
Counts n m o c = added m c ≡ added n (option_length o)

Counts-put_first :
    (l n m : ℕ) (o : Option (List ℕ)) (c : Option ℕ)
    → added m c ≡ added (suc n) (option_length o)
    → Counts n m (o >>= put_first l) c
Counts-put_first l n m o c e =
    e ∙ added-suc n (option_length o) ∙ ap (added n) (sym (option_length-put_first l o))

met-Counts :
    (l v n j : ℕ) (ps qs : List ℕ) (o : Option (List ℕ)) (m : Met)
    → ((k : ℕ) → Counts k j o (count_into v ps k qs))
    → Counts n j
        (elim m [ absent ↦ o >>= put_first l | present ↦ o | opposite ↦ none ])
        (elim m [
          | absent ↦ count_into v ps (suc n) qs
          | present ↦ count_into v ps n qs
          | opposite ↦ none
        ])
met-Counts l v n j ps qs o absent k =
    Counts-put_first l n j o (count_into v ps (suc n) qs) (k (suc n))
met-Counts l v n j ps qs o present k = k n
met-Counts l v n j ps qs o opposite k = refl

count_into-Counts :
    (v n : ℕ) (ps end qs : List ℕ)
    → Counts n (length end) (merge_into v ps end qs) (count_into v ps n qs)
unfolding merge_into count_into
count_into-Counts v n ps end [] = ap some (omega arith)
count_into-Counts v n ps end (l ∷ qs) = elim (Bool-cases (var l == v)) [
  | inl same ↦ rw same (count_into-Counts v n ps end qs)
  | inr other ↦ rw other (
      met-Counts l v n (length end) ps qs (merge_into v ps end qs) (meet l ps)
        (λ k. count_into-Counts v k ps end qs))
]

added-same : (n : ℕ) (a b : Option ℕ) → added n a ≡ added n b → a ≡ b
added-same n none none e = refl
added-same n none (some k) e = cc
added-same n (some k) none e = cc
added-same n (some k) (some j) e = ground arith

one_less : (v : ℕ) (ls : List ℕ) → occurrences v ls ≡ 1 → length ls - 1 ≡ length (without v ls)
one_less v ls h = let sum = length-without v ls in omega arith

counted_length :
    (v : ℕ) (ps qs : List ℕ)
    → occurrences v ps ≡ 1
    → count_into v ps (length ps - 1) qs ≡ option_length (merge_into v ps (without v ps) qs)
counted_length v ps qs h =
    let k = length (without v ps) in
    rw (one_less v ps h) (
      added-same k (count_into v ps k qs) (option_length (merge_into v ps (without v ps) qs))
        (count_into-Counts v k ps (without v ps) qs))

-- If each clause has one literal of the variable, the version of merge that only counts gives the
-- length of the resolvent, and returns false when the other one does.
pub merge_size-length :
    (v : ℕ) (ps qs : List ℕ)
    → occurrences v ps ≡ 1
    → occurrences v qs ≡ 1
    → merge_size ps qs v ≡ option_length (merge ps qs v)
unfolding merge_size merge
merge_size-length v ps qs h k = elim (Bool-cases (ltb (length ps) (length qs))) [
  | inl shorter ↦ rw shorter (counted_length v qs ps k)
  | inr longer ↦ rw longer (counted_length v ps qs h)
]
