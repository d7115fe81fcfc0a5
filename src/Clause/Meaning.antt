-- ===== src/Clause/Meaning.antt =====
-- What literals and clauses say of an assignment.
use dsyrup.Base.{
  ℕ, ◌+◌, ◌-◌, ◌/◌, ◌%◌, ◌≡◌, refl, Bool, true, false, not, ◌||◌, List, [], ◌∷◌, ◌++◌, arith,
  if◌then◌else◌, ◌==◌, Bool-cases, inl, inr,
}
use dsyrup.Literal.{var, sign, negate}

-- A literal under an assignment of the variables.
unfoldable pub holds : (ℕ → Bool) → ℕ → Bool
holds α l = if sign l then not (α (var l)) else α (var l)

-- A clause holds if one of its literals does.
abbrev pub satisfies : (ℕ → Bool) → List ℕ → Bool
satisfies α [] = false
satisfies α (l ∷ ls) = holds α l || satisfies α ls

abbrev pub elem : ℕ → List ℕ → Bool
elem l [] = false
elem l (x ∷ xs) = (l == x) || elem l xs

pub holds-negate : (α : ℕ → Bool) (l : ℕ) → holds α (negate l) ≡ not (holds α l)
unfolding holds negate
holds-negate α l = elim (Bool-cases (l % 2 == 0)) [
  | inl even ↦
      let half : (l + 1) / 2 ≡ l / 2 = ground arith in
      let odd : ((l + 1) % 2 == 1) ≡ true = ground arith in
      let plain : (l % 2 == 1) ≡ false = ground arith in rw (even, odd, plain, half) refl
  | inr odd ↦
      let half : (l - 1) / 2 ≡ l / 2 = ground arith in
      let even : ((l - 1) % 2 == 1) ≡ false = ground arith in
      let signed : (l % 2 == 1) ≡ true = ground arith in
      rw (odd, even, signed, half) (twice (α (l / 2)))
]
  where
    twice : (b : Bool) → b ≡ not (not b)
    twice true = refl
    twice false = refl

pub satisfies-elem :
    (α : ℕ → Bool) (l : ℕ) (c : List ℕ) → elem l c ≡ true → holds α l ≡ true → satisfies α c ≡ true
satisfies-elem α l [] e h = cc
satisfies-elem α l (x ∷ xs) e h = ground (arith, satisfies-elem α l xs)

-- A clause that holds has a literal that does.
pub satisfies-witness :
    (α : ℕ → Bool) (c : List ℕ)
    → satisfies α c ≡ true
    → (l : ℕ) × (elem l c ≡ true) × (holds α l ≡ true)
satisfies-witness α [] h = absurd (absurd_lem h)
  where
    absurd_lem : false ≡ true → ⊥
    absurd_lem e = cc
satisfies-witness α (x ∷ xs) h = elim (Bool-cases (holds α x)) [
  | inl here ↦ (x, ground arith, here)
  | inr there ↦
      let (l, inside, yes_l) = satisfies-witness α xs (ground arith) in (l, ground arith, yes_l)
]

pub satisfies-append :
    (α : ℕ → Bool) (c d : List ℕ) → satisfies α (c ++ d) ≡ satisfies α c || satisfies α d
satisfies-append α [] d = refl
satisfies-append α (x ∷ c) d = ground (arith, satisfies-append α c d)
