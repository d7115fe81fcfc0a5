-- ===== src/Analyze/Visited.antt =====
-- analyze: the loop over the literals of a clause as a whole.
use dsyrup.Base.{
  false_not_true, ℕ, ◌≡◌, Bool, true, false, ◌||◌, List, [], ◌∷◌, arith, ◌==◌, ltb, leb, Bool-cases,
  inl, inr,
}
use dsyrup.Analyze.Literals.{are_false_on}
use dsyrup.Literal.{negate, var}
use dsyrup.Clause.Meaning.{satisfies-append, elem}
use dsyrup.Trail.Invariant.{is_once}
use dsyrup.Analyze.{Learning, visit_literal, visit_all}
use dsyrup.Analyze.Visit.{some_low, IsLearning, visit_literal-IsLearning}

module _ (level : ℕ → ℕ) (current : ℕ) (is_selector : ℕ → Bool) where
  -- What is seen and what is collected only grows.
  abbrev pub Grows : (ℕ → Bool) → Learning → Learning → Type 0
  Grows α s s' =
      ((v : ℕ) → s.seen v ≡ true → s'.seen v ≡ true) × (some_low α s ≡ true → some_low α s' ≡ true)

  visit_literal-Grows :
      (α : ℕ → Bool) (q : ℕ) (s : Learning)
      → Grows α s (visit_literal level current is_selector q s)
  unfolding visit_literal
  visit_literal-Grows α q s =
      let a = satisfies-append α s.selectors (q ∷ []) in
      let b = satisfies-append α s.out (q ∷ []) in
      elim (Bool-cases (s.seen (var q) || (level (var q) == 0))) [
        | inl skipped ↦ rw skipped (λ v h. h, λ h. h)
        | inr fresh ↦ rw fresh (elim (Bool-cases (leb current (level (var q)))) [
          | inl high ↦ rw high (λ v h. ground arith, λ h. h)
          | inr low ↦ rw low (elim (Bool-cases (is_selector (var q))) [
            | inl selected ↦ rw selected (λ v h. ground arith, λ h. ground arith)
            | inr plain ↦ rw plain (λ v h. ground arith, λ h. ground arith)
          ])
        ])
      ]

  visit_literal-seen :
      (q : ℕ) (s : Learning)
      → ltb 0 (level (var q)) ≡ true
      → (visit_literal level current is_selector q s).seen (var q) ≡ true
  unfolding visit_literal
  visit_literal-seen q s h = elim (Bool-cases (s.seen (var q))) [
    | inl already ↦ rw already already
    | inr fresh ↦
        let positive : (level (var q) == 0) ≡ false = ground arith in
        rw (fresh, positive)
          (elim (Bool-cases (leb current (level (var q)))) [
            | inl high ↦ rw high (ground arith)
            | inr low ↦ rw low (elim (Bool-cases (is_selector (var q))) [
              | inl selected ↦ rw selected (ground arith)
              | inr plain ↦ rw plain (ground arith)
            ])
          ])
  ]

  pub visit_all-IsLearning :
      (trail ls qs : List ℕ) (s : Learning)
      → is_once trail ≡ true
      → is_once ls ≡ true
      → ((k : ℕ) → elem k ls ≡ true → elem k trail ≡ true)
      → are_false_on ls qs ≡ true
      → IsLearning level current is_selector trail ls s
      → IsLearning level current is_selector trail ls (visit_all level current is_selector qs s)
  unfolding visit_all
  visit_all-IsLearning trail ls [] s ot ol inside f k = k
  visit_all-IsLearning trail ls (q ∷ qs) s ot ol inside f k =
      let here : elem (negate q) ls ≡ true = ground arith in
      visit_all-IsLearning trail ls qs (visit_literal level current is_selector q s) ot ol inside
        (ground arith)
        (visit_literal-IsLearning level current is_selector trail ls q s ot ol
          (inside (negate q) here) here k)

  pub visit_all-Grows :
      (α : ℕ → Bool) (qs : List ℕ) (s : Learning)
      → Grows α s (visit_all level current is_selector qs s)
  unfolding visit_all
  visit_all-Grows α [] s = (λ v h. h, λ h. h)
  visit_all-Grows α (q ∷ qs) s =
      let (seen1, low1) = visit_literal-Grows α q s in
      let (seen2, low2) = visit_all-Grows α qs (visit_literal level current is_selector q s) in
      (λ v h. seen2 v (seen1 v h), λ h. low2 (low1 h))

  pub visit_all-seen :
      (qs : List ℕ) (q : ℕ) (s : Learning)
      → elem q qs ≡ true
      → ltb 0 (level (var q)) ≡ true
      → (visit_all level current is_selector qs s).seen (var q) ≡ true
  unfolding visit_all
  visit_all-seen [] q s e h = absurd (false_not_true e)
  visit_all-seen (x ∷ qs) q s e h = elim (Bool-cases (q == x)) [
    | inl here ↦
        let same : q ≡ x = ground arith in
        let now = visit_literal-seen x s (rw same at h) in
        let (seen, low) =
          visit_all-Grows (λ v. true) qs (visit_literal level current is_selector x s) in
        rw same (seen (var x) now)
    | inr there ↦ visit_all-seen qs q (visit_literal level current is_selector x s) (ground arith) h
  ]
