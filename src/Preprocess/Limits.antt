-- ===== src/Preprocess/Limits.antt =====
-- eliminateVar of SimpSolver.cc: the limits under which a variable is eliminated.
use dsyrup.Base.{
  ℕ, suc, ◌+◌, ◌≤◌, ◌≡◌, refl, Bool, true, not, ◌&&◌, ◌||◌, Option, none, some, List, [], ◌∷◌, ◌++◌,
  arith, if◌then◌else◌, ltb, length, length-append, Bool-cases, inl, inr, All, >>=-some,
}
use dsyrup.Simp.{merge, keep_resolvent, resolve_with, resolvents}
use dsyrup.Simp.Merge.{occurrences, option_length, merge_size-length}
use dsyrup.Preprocess.{exceeds, count_with, count_resolvents}

abbrev pub OnceIn : ℕ → List ℕ → Type 0
OnceIn v c = occurrences v c ≡ 1

-- No clause exceeds the limit.
abbrev pub none_exceeds : Option ℕ → List (List ℕ) → Bool
none_exceeds lim [] = true
none_exceeds lim (c ∷ cs) = not (exceeds lim (length c)) && none_exceeds lim cs

-- A count that went on from `cnt` over some clauses.
abbrev Counted : Option ℕ → ℕ → ℕ → ℕ → List (List ℕ) → Type 0
Counted lim most cnt n cs =
    (n ≡ cnt + length cs) × (none_exceeds lim cs ≡ true) × (cnt ≤ most → n ≤ most)

no_count : {A : Type 0} (a : A) → none ≡ some a → ⊥
no_count a e = cc

step-Counted :
    (lim : Option ℕ) (most cnt n : ℕ) (cs : List (List ℕ)) (o : Option (List ℕ))
    (count : ℕ → Option ℕ)
    → ((k : ℕ) → count k ≡ some n → Counted lim most k n cs)
    → (elim (option_length o) [
      | none ↦ count cnt
      | some size ↦ if ltb most (suc cnt) || exceeds lim size then none else count (suc cnt)
    ])
      ≡ some n
    → Counted lim most cnt n (keep_resolvent o cs)
step-Counted lim most cnt n cs none count k e = k cnt e
step-Counted lim most cnt n cs (some r) count k e =
    elim (Bool-cases (ltb most (suc cnt) || exceeds lim (length r))) [
      | inl over ↦ absurd (no_count n (rw over at e))
      | inr within ↦
          let (sum, fits, bound) = k (suc cnt) (rw within at e) in
          (omega arith, ground arith, λ h. bound (ground arith))
    ]

count_with-Counted :
    (lim : Option ℕ) (most v cnt n : ℕ) (p : List ℕ) (neg : List (List ℕ))
    → OnceIn v p
    → All (OnceIn v) neg
    → count_with lim most v p neg cnt ≡ some n
    → Counted lim most cnt n (resolve_with v p neg)
unfolding count_with resolve_with
count_with-Counted lim most v cnt n p [] one h e = (ground arith, refl, λ k. ground arith)
count_with-Counted lim most v cnt n p (q ∷ neg) one (once, h) e =
    step-Counted lim most cnt n (resolve_with v p neg) (merge p q v) (count_with lim most v p neg)
      (λ k. count_with-Counted lim most v k n p neg one h)
      (rw (merge_size-length v p q one once, count_with) at e)

none_exceeds-append :
    (lim : Option ℕ) (cs ds : List (List ℕ))
    → none_exceeds lim (cs ++ ds) ≡ none_exceeds lim cs && none_exceeds lim ds
none_exceeds-append lim [] ds = refl
none_exceeds-append lim (c ∷ cs) ds = ground (arith, none_exceeds-append lim cs ds)

count_resolvents-Counted :
    (lim : Option ℕ) (most v cnt n : ℕ) (pos neg : List (List ℕ))
    → All (OnceIn v) pos
    → All (OnceIn v) neg
    → count_resolvents lim most v pos neg cnt ≡ some n
    → Counted lim most cnt n (resolvents v pos neg)
unfolding count_resolvents resolvents
count_resolvents-Counted lim most v cnt n [] neg g h e = (ground arith, refl, λ k. ground arith)
count_resolvents-Counted lim most v cnt n (p ∷ pos) neg (one, g) h e =
    let (mid, now, later) =
      >>=-some (count_with lim most v p neg cnt) (count_resolvents lim most v pos neg) e in
    let (sum1, fits1, bound1) = count_with-Counted lim most v cnt mid p neg one h now in
    let (sum2, fits2, bound2) = count_resolvents-Counted lim most v mid n pos neg g h later in
    let both = length-append (resolve_with v p neg) (resolvents v pos neg) in
    let all = none_exceeds-append lim (resolve_with v p neg) (resolvents v pos neg) in
    (ground arith, ground arith, λ k. bound2 (bound1 k))

-- If each clause has one literal of the variable and the count passes, it is the number of resolvents,
-- at most the number allowed, and none of them is longer than the limit on clauses.
pub count_resolvents-bounds :
    (lim : Option ℕ) (most v n : ℕ) (pos neg : List (List ℕ))
    → All (OnceIn v) pos
    → All (OnceIn v) neg
    → count_resolvents lim most v pos neg 0 ≡ some n
    → (n ≡ length (resolvents v pos neg))
      × (length (resolvents v pos neg) ≤ most)
      × (none_exceeds lim (resolvents v pos neg) ≡ true)
count_resolvents-bounds lim most v n pos neg g h e =
    let (sum, fits, bound) = count_resolvents-Counted lim most v 0 n pos neg g h e in
    let below : n ≤ most = bound (ground arith) in (ground arith, ground arith, fits)
