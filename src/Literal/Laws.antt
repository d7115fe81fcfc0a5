-- ===== src/Literal/Laws.antt =====
-- SolverTypes.h: the codes of literals and of lifted Booleans against what they stand for.
use dsyrup.Base.{ℕ, zero, suc, ◌<◌, ◌≡◌, refl, Bool, true, false, not, arith}
use dsyrup.Literal.{mk_lit, negate, sign, var, equals, both, either}

-- Literals are variables with a sign: the code of a pair is read back, and each literal is the code
-- of what is read from it.
pub mk_lit-var-sign :
    (v : ℕ) (s : Bool) (p : ℕ)
    → (var (mk_lit v s) ≡ v) × (sign (mk_lit v s) ≡ s) × (mk_lit (var p) (sign p) ≡ p)
unfolding mk_lit
mk_lit-var-sign v true p = (omega arith, ground arith, ground arith)
mk_lit-var-sign v false p = (omega arith, ground arith, ground arith)

-- The negation of a literal has the same variable and the other sign, and negating twice does
-- nothing.
pub negate-involutive :
    (p : ℕ) → (var (negate p) ≡ var p) × (sign (negate p) ≡ not (sign p)) × (negate (negate p) ≡ p)
unfolding negate
negate-involutive p = (ground arith, ground arith, ground arith)

-- The three truth values, and the strong logic of Kleene on them.
pub data Truth : Type 0 where
  yes no undecided : Truth

abbrev pub meaning : ℕ → Truth
meaning zero = yes
meaning (suc zero) = no
meaning (suc (suc n)) = undecided

abbrev pub conj : Truth → Truth → Truth
conj yes t = t
conj no t = no
conj undecided yes = undecided
conj undecided no = no
conj undecided undecided = undecided

abbrev pub disj : Truth → Truth → Truth
disj yes t = yes
disj no t = t
disj undecided yes = yes
disj undecided no = undecided
disj undecided undecided = undecided

abbrev pub same_truth : Truth → Truth → Bool
same_truth yes yes = true
same_truth yes no = false
same_truth yes undecided = false
same_truth no yes = false
same_truth no no = true
same_truth no undecided = false
same_truth undecided yes = false
same_truth undecided no = false
same_truth undecided undecided = true

-- `f` and `g` agree on two codes.
abbrev Agrees : ℕ → ℕ → Type 0
Agrees a b =
    (meaning (both a b) ≡ conj (meaning a) (meaning b))
    × (meaning (either a b) ≡ disj (meaning a) (meaning b))
    × (equals a b ≡ same_truth (meaning a) (meaning b))

each : (P : ℕ → Type 0) → P 0 → P 1 → P 2 → P 3 → (n : ℕ) → n < 4 → P n
each P a b c d zero h = a
each P a b c d (suc zero) h = b
each P a b c d (suc (suc zero)) h = c
each P a b c d (suc (suc (suc zero))) h = d
each P a b c d (suc (suc (suc (suc n)))) h = absurd (omega arith)

-- On all codes of lifted Booleans the tables of `&&` and `||` compute the conjunction and the
-- disjunction of three-valued logic, and `==` takes both codes of l_Undef for the same.
pub both-either-equals :
    (a b : ℕ)
    → a < 4
    → b < 4
    → (meaning (both a b) ≡ conj (meaning a) (meaning b))
      × (meaning (either a b) ≡ disj (meaning a) (meaning b))
      × (equals a b ≡ same_truth (meaning a) (meaning b))
unfolding both either equals
both-either-equals a b h k =
    each (λ a. Agrees a b)
      (each (λ b. Agrees 0 b) (refl, refl, refl) (refl, refl, refl) (refl, refl, refl)
        (refl, refl, refl) b k)
      (each (λ b. Agrees 1 b) (refl, refl, refl) (refl, refl, refl) (refl, refl, refl)
        (refl, refl, refl) b k)
      (each (λ b. Agrees 2 b) (refl, refl, refl) (refl, refl, refl) (refl, refl, refl)
        (refl, refl, refl) b k)
      (each (λ b. Agrees 3 b) (refl, refl, refl) (refl, refl, refl) (refl, refl, refl)
        (refl, refl, refl) b k)
      a h
