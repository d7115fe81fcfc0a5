-- ===== src/Clause/Tests.antt =====
-- Small clauses, and a list of occurrences with a deleted element.
use dsyrup.Base.{
  ℕ, ◌≡◌, ◌≢◌, refl, Bool, true, false, List, [], ◌∷◌, arith, if◌then◌else◌, ◌==◌, Bool-cases, inl,
  inr,
}
use dsyrup.Literal.{negate}
use dsyrup.Clause.{
  Clause, mask, subsumes, find, find_all, strengthen, OccLists, sweep, clean, clean_each, clean_all,
  smudge, lookup,
}
use dsyrup.Clause.Meaning.{satisfies, elem, holds}
use dsyrup.Clause.Subsume.{strengthen-resolving}
use dsyrup.Clause.Occurrences.{is_swept, IsNoted, clean_all-sweep, lookup-sweep, smudge-IsNoted}

abbrev clause : List ℕ → Clause
clause ls = record { lits = ls; abstraction = mask ls }

-- Variable 1 is true and all others are false.
abbrev only_one : ℕ → Bool
only_one v = v == 1

abbrev remove_all : List ℕ → ℕ → List ℕ
remove_all [] x = []
remove_all (l ∷ ls) x = let rest = remove_all ls x in if l == x then rest else l ∷ rest

elem-remove_all :
    (ls : List ℕ) (x l : ℕ) → elem l ls ≡ true → l ≢ x → elem l (remove_all ls x) ≡ true
elem-remove_all [] x l h k = cc
elem-remove_all (y ∷ ls) x l h k = ground (arith, elem-remove_all ls x l)

strengthen-resolving_example :
    (elem 6 (2 ∷ 6 ∷ []) ≡ true)
    × (elem (negate 6) (7 ∷ 2 ∷ 9 ∷ []) ≡ true)
    × (satisfies only_one (strengthen remove_all (clause (7 ∷ 2 ∷ 9 ∷ [])) (negate 6)).lits ≡ true)
unfolding subsumes find_all find negate holds
strengthen-resolving_example =
    strengthen-resolving remove_all only_one (clause (2 ∷ 6 ∷ [])) (clause (7 ∷ 2 ∷ 9 ∷ [])) 6
      elem-remove_all refl refl refl refl

two_of_three :
    (l : ℕ)
    → elem l (2 ∷ 6 ∷ []) ≡ true
    → (elem l (6 ∷ 2 ∷ 9 ∷ []) ≡ true) × (elem (negate l) (6 ∷ 2 ∷ 9 ∷ []) ≡ false)
unfolding negate
two_of_three l h = elim (Bool-cases (l == 2)) [
  | inl here ↦ let e : l ≡ 2 = ground arith in rw e (refl, refl)
  | inr other ↦ let e : l ≡ 6 = ground arith in rw e (refl, refl)
]

-- Even numbers are deleted; list 3 holds one.
abbrev is_even : ℕ → Bool
is_even n = if n == 4 then true else false

abbrev lists : OccLists ℕ
lists = record {
  occs = λ i. if i == 3 then 5 ∷ 4 ∷ 7 ∷ [] else [];
  dirty = λ i. i == 3;
  dirties = 3 ∷ [];
}

lists-IsNoted : IsNoted is_even lists
lists-IsNoted = record { swept = λ i e. rw e refl; noted = λ i e. rw e refl }

clean_all-sweep_example :
    ((clean_all is_even lists).occs 3 ≡ sweep is_even (lists.occs 3))
    × ((clean_all is_even lists).dirty 3 ≡ false)
    × IsNoted is_even (clean_all is_even lists)
clean_all-sweep_example = clean_all-sweep is_even lists 3 lists-IsNoted

swept_three : (clean_all is_even lists).occs 3 ≡ 5 ∷ 7 ∷ []
unfolding clean_all clean_each clean sweep
swept_three = refl

swept_by_lookup :
    ((lookup is_even 3 lists).0 ≡ sweep is_even (lists.occs 3))
    × IsNoted is_even (lookup is_even 3 lists).1
swept_by_lookup = lookup-sweep is_even lists 3 lists-IsNoted

abbrev fives : ℕ → Bool
fives n = if n == 4 then true else n == 5

same_elsewhere :
    (j : ℕ) → (3 == j) ≡ false → is_swept fives (lists.occs j) ≡ is_swept is_even (lists.occs j)
same_elsewhere j e = let other : (j == 3) ≡ false = ground arith in rw other refl

smudge-lists-IsNoted : IsNoted fives (smudge 3 lists)
smudge-lists-IsNoted = smudge-IsNoted is_even fives lists 3 lists-IsNoted same_elsewhere
