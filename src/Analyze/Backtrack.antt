-- ===== src/Analyze/Backtrack.antt =====
-- analyze: the level to go back to, and the second literal of the learnt clause.
use dsyrup.Base.{
  false_not_true, ℕ, zero, suc, ◌+◌, ◌≤◌, ◌<◌, ◌≡◌, refl, sym, ap, ◌∙◌, subst, true, ◌||◌, List, [],
  ◌∷◌, arith, ◌==◌, ltb, length, get_or, set, Bool-cases, inl, inr,
}
use dsyrup.Literal.{var}
use dsyrup.Clause.Meaning.{elem}
use dsyrup.Analyze.{highest, find_btlevel}

module _ (level : ℕ → ℕ) (at : ℕ → ℕ) where
  -- The index that `highest` returns, and how its level compares.
  highest-level :
      (i : ℕ) (ls : List ℕ) (max_i best : ℕ)
      → ((j : ℕ) → j < length ls → get_or ls j 0 ≡ at (i + j))
      → at max_i ≡ best
      → max_i < i
      → (level (var best) ≤ level (var (at (highest level i ls max_i best))))
        × (highest level i ls max_i best < i + length ls)
        × ((k : ℕ)
            → elem k ls ≡ true
            → level (var k) ≤ level (var (at (highest level i ls max_i best))))
  highest-level i [] max_i best h b m =
      (ground arith, omega arith, λ k e. absurd (false_not_true e))
  highest-level i (l ∷ ls) max_i best h b m =
      let here : l ≡ at i = h 0 (omega arith) ∙ ap at (omega arith) in
      let later : (j : ℕ) → j < length ls → get_or ls j 0 ≡ at (suc i + j) = λ j k.
        (let shift : i + suc j ≡ suc i + j = omega arith in
          h (suc j) (omega arith) ∙ ap at shift) in
      elim (Bool-cases (ltb (level (var best)) (level (var l)))) [
        | inl above ↦
            let (up, range, all) = highest-level (suc i) ls i l later (sym here) (omega arith) in
            rw above (
              ground arith,
              omega arith,
              λ k e. elim (Bool-cases (k == l)) [
                | inl same ↦ let equal : k ≡ l = ground arith in rw equal up
                | inr other ↦ all k (ground arith)
              ],
            )
        | inr under ↦
            let (up, range, all) = highest-level (suc i) ls max_i best later b (omega arith) in
            rw under (
              up,
              omega arith,
              λ k e. elim (Bool-cases (k == l)) [
                | inl same ↦ let equal : k ≡ l = ground arith in rw equal (ground arith)
                | inr other ↦ all k (ground arith)
              ],
            )
      ]

get_or-shift : (q : ℕ) (ls : List ℕ) (j : ℕ) → get_or ls j 0 ≡ get_or (q ∷ ls) (1 + j) 0
get_or-shift q ls j = ap (λ i. get_or (q ∷ ls) i 0) (one_more j)
  where
    one_more : (j : ℕ) → suc j ≡ 1 + j
    one_more j = omega arith

elem-set :
    (ls : List ℕ) (j q k : ℕ)
    → j < length ls
    → (elem k (set ls j q) || (k == get_or ls j 0)) ≡ (elem k ls || (k == q))
elem-set [] j q k h = absurd (omega arith)
elem-set (x ∷ ls) zero q k h = ground arith
elem-set (x ∷ ls) (suc j) q k h = let rest = elem-set ls j q k (omega arith) in ground arith

-- The exchange keeps the literals and puts the chosen one first.
exchange :
    (q : ℕ) (ls : List ℕ) (i k : ℕ)
    → i < suc (length ls)
    → (elem k (set (set (q ∷ ls) i q) 0 (get_or (q ∷ ls) i 0)) ≡ elem k (q ∷ ls))
      × (get_or (set (set (q ∷ ls) i q) 0 (get_or (q ∷ ls) i 0)) 0 0 ≡ get_or (q ∷ ls) i 0)
exchange q ls zero k h = (refl, refl)
exchange q ls (suc j) k h = let rest = elem-set ls j q k (omega arith) in (ground arith, refl)

-- The clause keeps its literals, the asserting one first; the level to go back to is the highest among
-- those of the others, and the second literal is of that level.
pub find_btlevel-highest :
    (level : ℕ → ℕ) (p q k : ℕ) (ls : List ℕ)
    → (elem k (find_btlevel level (p ∷ q ∷ ls)).0 ≡ elem k (p ∷ q ∷ ls))
      × (get_or (find_btlevel level (p ∷ q ∷ ls)).0 0 0 ≡ p)
      × (level (var (get_or (find_btlevel level (p ∷ q ∷ ls)).0 1 0))
          ≡ (find_btlevel level (p ∷ q ∷ ls)).1)
      × (elem k (q ∷ ls) ≡ true → level (var k) ≤ (find_btlevel level (p ∷ q ∷ ls)).1)
unfolding find_btlevel
find_btlevel-highest level p q k ls =
    let i = highest level 1 ls 0 q in
    let (up, range, all) =
      highest-level level (λ j. get_or (q ∷ ls) j 0) 1 ls 0 q (λ j h. get_or-shift q ls j) refl
        (omega arith) in
    let (same, second) = exchange q ls i k (ground arith) in
    (
      ap (λ b. (k == p) || b) same,
      refl,
      ap (λ l. level (var l)) second,
      λ e. elim (Bool-cases (k == q)) [
        | inl here ↦ let equal : k ≡ q = ground arith in rw equal up
        | inr there ↦ all k (ground arith)
      ],
    )

get_or-elem : (ls : List ℕ) (i : ℕ) → i < length ls → elem (get_or ls i 0) ls ≡ true
get_or-elem [] i h = absurd (omega arith)
get_or-elem (x ∷ ls) zero h = ground arith
get_or-elem (x ∷ ls) (suc i) h = let rest = get_or-elem ls i (omega arith) in ground arith

-- The level to go back to is that of a literal after the first.
find_btlevel-second :
    (level : ℕ → ℕ) (p q : ℕ) (ls : List ℕ)
    → (k : ℕ) × (elem k (q ∷ ls) ≡ true) × ((find_btlevel level (p ∷ q ∷ ls)).1 ≡ level (var k))
unfolding find_btlevel
find_btlevel-second level p q ls =
    let i = highest level 1 ls 0 q in
    let (up, range, all) =
      highest-level level (λ j. get_or (q ∷ ls) j 0) 1 ls 0 q (λ j h. get_or-shift q ls j) refl
        (omega arith) in
    (get_or (q ∷ ls) i 0, get_or-elem (q ∷ ls) i (ground arith), refl)

-- For a clause whose other literals are of levels below `current`.
pub find_btlevel-below :
    (level : ℕ → ℕ) (current p : ℕ) (ls : List ℕ)
    → 0 < current
    → ((k : ℕ) → elem k ls ≡ true → level (var k) < current)
    → ((k : ℕ) → elem k (find_btlevel level (p ∷ ls)).0 ≡ elem k (p ∷ ls))
      × (get_or (find_btlevel level (p ∷ ls)).0 0 0 ≡ p)
      × ((find_btlevel level (p ∷ ls)).1 < current)
      × ((k : ℕ) → elem k ls ≡ true → level (var k) ≤ (find_btlevel level (p ∷ ls)).1)
unfolding find_btlevel
find_btlevel-below level current p [] o h = (λ k. refl, refl, o, λ k e. absurd (false_not_true e))
find_btlevel-below level current p (q ∷ ls) o h =
    let (k, k_in, same) = find_btlevel-second level p q ls in
    let low = h k k_in in
    (
      λ j. (find_btlevel-highest level p q j ls).0,
      refl,
      subst (λ n. n < current) (sym same) low,
      λ j. (find_btlevel-highest level p q j ls).3,
    )
