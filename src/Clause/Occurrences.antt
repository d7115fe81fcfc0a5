-- ===== src/Clause/Occurrences.antt =====
-- OccLists: lazy deletion from the lists of occurrences.
use dsyrup.Base.{
  ℕ, ◌≡◌, refl, sym, ap, ◌∙◌, Bool, true, false, not, ◌||◌, ◌&&◌, List, [], ◌∷◌, ◌++◌, arith,
  if◌then◌else◌, ◌==◌, Bool-cases, inl, inr,
}
use dsyrup.Clause.{OccLists, sweep, clean, clean_each, clean_all, smudge, lookup}
use dsyrup.Clause.Meaning.{elem}

module _ {A : Type 0} (deleted : A → Bool) where
  -- A list that has no deleted element.
  abbrev pub is_swept : List A → Bool
  is_swept [] = true
  is_swept (x ∷ xs) = if deleted x then false else is_swept xs

  sweep-is_swept : (xs : List A) → is_swept (sweep deleted xs) ≡ true
  unfolding sweep
  sweep-is_swept [] = refl
  sweep-is_swept (x ∷ xs) = elim (Bool-cases (deleted x)) [
    | inl gone ↦ rw gone (sweep-is_swept xs)
    | inr kept ↦ rw (kept, kept) (sweep-is_swept xs)
  ]

  sweep-swept : (xs : List A) → is_swept xs ≡ true → sweep deleted xs ≡ xs
  unfolding sweep
  sweep-swept [] h = refl
  sweep-swept (x ∷ xs) h = elim (Bool-cases (deleted x)) [
    | inl gone ↦ absurd (refused (rw gone at h))
    | inr kept ↦ rw kept (ap (λ ys. x ∷ ys) (sweep-swept xs (rw kept at h)))
  ]
    where
      refused : false ≡ true → ⊥
      refused e = cc

  -- Deleted elements stand in dirty lists only, and each dirty list is noted.
  pub record IsNoted (o : OccLists A) : Type 0 where
    pub swept : (i : ℕ) → o.dirty i ≡ false → is_swept (o.occs i) ≡ true
    pub noted : (i : ℕ) → o.dirty i ≡ true → elem i o.dirties ≡ true

  clean-occs :
      (i j : ℕ) (o : OccLists A)
      → (clean deleted i o).occs j ≡ (if i == j then sweep deleted (o.occs j) else o.occs j)
  unfolding clean
  clean-occs i j o = elim (Bool-cases (i == j)) [
    | inl same ↦ let equal : i ≡ j = ground arith in rw (same, equal) refl
    | inr other ↦ rw other refl
  ]

  clean-dirty :
      (i j : ℕ) (o : OccLists A)
      → (clean deleted i o).dirty j ≡ (if i == j then false else o.dirty j)
  unfolding clean
  clean-dirty i j o = refl

  clean_each-occs :
      (is : List ℕ) (j : ℕ) (o : OccLists A)
      → (clean_each deleted is o).occs j
        ≡ (if o.dirty j && elem j is then sweep deleted (o.occs j) else o.occs j)
  unfolding clean_each
  clean_each-occs [] j o = ground arith
  clean_each-occs (i ∷ is) j o = elim (Bool-cases (o.dirty i)) [
    | inl dirty ↦
        ground
          (arith, clean_each-occs is j (clean deleted i o), clean-occs i j o, clean-dirty i j o)
    | inr tidy ↦ ground (arith, clean_each-occs is j o)
  ]

  -- Each list is swept or left as it is.
  pub clean_all-occs :
      (j : ℕ) (o : OccLists A)
      → (clean_all deleted o).occs j
        ≡ (if o.dirty j && elem j o.dirties then sweep deleted (o.occs j) else o.occs j)
  unfolding clean_all
  clean_all-occs j o = clean_each-occs o.dirties j o

  clean_each-dirty :
      (is : List ℕ) (j : ℕ) (o : OccLists A)
      → (clean_each deleted is o).dirty j ≡ o.dirty j && not (elem j is)
  unfolding clean_each
  clean_each-dirty [] j o = ground arith
  clean_each-dirty (i ∷ is) j o = elim (Bool-cases (o.dirty i)) [
    | inl dirty ↦ ground (arith, clean_each-dirty is j (clean deleted i o), clean-dirty i j o)
    | inr tidy ↦ ground (arith, clean_each-dirty is j o)
  ]

  -- `cleanAll` takes the deleted elements out of every list, keeps the others in their order, and
  -- leaves no list dirty, if each dirty list was noted and the others had no deleted element.
  pub clean_all-sweep :
      (o : OccLists A) (j : ℕ)
      → IsNoted o
      → ((clean_all deleted o).occs j ≡ sweep deleted (o.occs j))
        × ((clean_all deleted o).dirty j ≡ false)
        × IsNoted (clean_all deleted o)
  unfolding clean_all
  clean_all-sweep o j k =
      (all j, tidy j, record { swept = λ i d. swept i; noted = λ i d. clash i d })
    where
      all : (j : ℕ) → (clean_each deleted o.dirties o).occs j ≡ sweep deleted (o.occs j)
      all j = elim (Bool-cases (o.dirty j)) [
        | inl d ↦ ground (arith, clean_each-occs o.dirties j o, k.noted j d)
        | inr d ↦
            ground (arith, clean_each-occs o.dirties j o, sweep-swept (o.occs j) (k.swept j d))
      ]

      tidy : (j : ℕ) → (clean_each deleted o.dirties o).dirty j ≡ false
      tidy j = elim (Bool-cases (o.dirty j)) [
        | inl d ↦ ground (arith, clean_each-dirty o.dirties j o, k.noted j d)
        | inr d ↦ ground (arith, clean_each-dirty o.dirties j o)
      ]

      swept : (j : ℕ) → is_swept ((clean_each deleted o.dirties o).occs j) ≡ true
      swept j = rw (all j) (sweep-is_swept (o.occs j))

      clash : (j : ℕ) → (clean_each deleted o.dirties o).dirty j ≡ true → elem j [] ≡ true
      clash j d = let t = tidy j in cc

  -- `lookup` returns the list without its deleted elements, and keeps what is noted.
  pub lookup-sweep :
      (o : OccLists A) (i : ℕ)
      → IsNoted o
      → ((lookup deleted i o).0 ≡ sweep deleted (o.occs i)) × IsNoted (lookup deleted i o).1
  unfolding lookup
  lookup-sweep o i k = elim (Bool-cases (o.dirty i)) [
    | inl d ↦ rw d (
      let here = clean-occs i i o in ground (arith, here),
      record {
        swept = λ j e. cleaned_swept j e;
        noted = λ j e. k.noted j (ground (arith, clean-dirty i j o));
      },
    )
    | inr d ↦ rw d (sym (sweep-swept (o.occs i) (k.swept i d)), k)
  ]
    where
      cleaned_swept :
          (j : ℕ)
          → (clean deleted i o).dirty j ≡ false
          → is_swept ((clean deleted i o).occs j) ≡ true
      cleaned_swept j e = elim (Bool-cases (i == j)) [
        | inl same ↦
            let s : (clean deleted i o).occs j ≡ sweep deleted (o.occs j) =
              ground (arith, clean-occs i j o) in
            rw s (sweep-is_swept (o.occs j))
        | inr other ↦
            let s : (clean deleted i o).occs j ≡ o.occs j = ground (arith, clean-occs i j o) in
            rw s (k.swept j (ground (arith, clean-dirty i j o)))
      ]

elem-append : (i j : ℕ) (xs : List ℕ) → elem i (xs ++ j ∷ []) ≡ elem i xs || (i == j)
elem-append i j [] = ground arith
elem-append i j (x ∷ xs) = ground (arith, elem-append i j xs)

-- An element may be marked as deleted once its list is smudged: what is noted stays so.
pub smudge-IsNoted :
    {A : Type 0} (deleted deleted' : A → Bool) (o : OccLists A) (i : ℕ)
    → IsNoted deleted o
    → ((j : ℕ) → (i == j) ≡ false → is_swept deleted' (o.occs j) ≡ is_swept deleted (o.occs j))
    → IsNoted deleted' (smudge i o)
unfolding smudge
smudge-IsNoted deleted deleted' o i k same = elim (Bool-cases (o.dirty i)) [
  | inl d ↦ rw d (record {
    swept = λ j e. let other : (i == j) ≡ false = differs j d e in same j other ∙ k.swept j e;
    noted = k.noted;
  })
  | inr d ↦ rw d (record {
    swept = λ j e.
        let other : (i == j) ≡ false = ground arith in
        let tidy : o.dirty j ≡ false = ground arith in same j other ∙ k.swept j tidy;
    noted = λ j e. elim (Bool-cases (i == j)) [
      | inl here ↦ ground (arith, elem-append j i o.dirties)
      | inr other ↦
          let dirty : o.dirty j ≡ true = rw other at e in
          ground (arith, elem-append j i o.dirties, k.noted j dirty)
    ];
  })
]
  where
    differs : (j : ℕ) → o.dirty i ≡ true → o.dirty j ≡ false → (i == j) ≡ false
    differs j a b = elim (Bool-cases (i == j)) [
      | inl here ↦
          let equal : i ≡ j = ground arith in let bad : o.dirty j ≡ true = rw equal at a in cc
      | inr other ↦ other
    ]
