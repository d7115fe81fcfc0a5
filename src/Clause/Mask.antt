-- ===== src/Clause/Mask.antt =====
-- Clause::calcAbstraction: the word of a clause, as a necessary condition for subsumption.
use dsyrup.Base.{
  ℕ, zero, suc, ◌%◌, ◌≡◌, refl, true, List, [], ◌∷◌, arith, ◌==◌, Bool-cases, inl, inr,
}
use dsyrup.Literal.{var}
use dsyrup.Clause.{mask, is_inside}
use dsyrup.Clause.Meaning.{elem}

mask-elem : (l i : ℕ) (d : List ℕ) → elem l d ≡ true → (var l % 32 == i) ≡ true → mask d i ≡ true
mask-elem l i [] e h = cc
mask-elem l i (x ∷ d) e h = ground (arith, mask-elem l i d)

mask_subset :
    (c d : List ℕ) (i : ℕ)
    → ((l : ℕ) → elem l c ≡ true → elem l d ≡ true)
    → mask c i ≡ true
    → mask d i ≡ true
mask_subset [] d i h e = cc
mask_subset (l ∷ c) d i h e = elim (Bool-cases (var l % 32 == i)) [
  | inl here ↦ mask-elem l i d (h l (ground arith)) here
  | inr there ↦ mask_subset c d i (λ k inside. h k (ground arith)) (ground arith)
]

-- The word of a subset of literals has no bit that the other word lacks.
pub is_inside-mask :
    (n : ℕ) (c d : List ℕ)
    → ((l : ℕ) → elem l c ≡ true → elem l d ≡ true)
    → is_inside n (mask c) (mask d) ≡ true
is_inside-mask zero c d h = refl
is_inside-mask (suc n) c d h = elim (Bool-cases (mask c n)) [
  | inl set_bit ↦ ground (arith, is_inside-mask n c d h, mask_subset c d n h set_bit)
  | inr clear ↦ ground (arith, is_inside-mask n c d h)
]
