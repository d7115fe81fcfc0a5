-- ===== src/Companion/Advances.antt =====
-- SharedCompanion::getUnary on the list of shared unit literals, step by step.
use dsyrup.Base.{
  append_nothing, ℕ, zero, suc, ◌+◌, ◌≤◌, ◌<◌, ◌≡◌, ◌≢◌, refl, sym, ap, ◌∙◌, none, some, List, [],
  ◌∷◌, ◌++◌, arith, if◌then◌else◌, ◌==◌, length, get_elem?, get_or, set, take, Bool-cases, inl, inr,
  length-append, get_or-set_self, get_or-set_ne,
}
use dsyrup.Companion.{Companion, Output, nothing, sent, got, first}

-- The literals that thread `t` has received.
abbrev pub received_by : ℕ → Output → List ℕ
received_by t nothing = []
received_by t (sent ps) = []
received_by t (first b) = []
received_by t (got sn none) = []
received_by t (got sn (some p)) = if sn == t then p ∷ [] else []

abbrev pub received : ℕ → List Output → List ℕ
received t [] = []
received t (o ∷ os) = received_by t o ++ received t os

-- The literals that thread `t` has received before.
abbrev pub known_to : ℕ → Companion → List ℕ
known_to t c = take (get_or c.next_unit t 0) c.unit_lit

take-append : (n : ℕ) (xs ys : List ℕ) → n ≤ length xs → take n (xs ++ ys) ≡ take n xs
take-append zero xs ys h = refl
take-append (suc n) [] ys h = absurd (omega arith)
take-append (suc n) (x ∷ xs) ys h = ap (λ zs. x ∷ zs) (take-append n xs ys (omega arith))

take-next :
    (n : ℕ) (xs : List ℕ) (p : ℕ) → get_elem? xs n ≡ some p → take (suc n) xs ≡ take n xs ++ p ∷ []
take-next n [] p h = cc
take-next zero (x ∷ xs) p h = ground arith
take-next (suc n) (x ∷ xs) p h = ap (λ zs. x ∷ zs) (take-next n xs p h)

pub get_or-append : (xs : List ℕ) (t : ℕ) → get_or (xs ++ 0 ∷ []) t 0 ≡ get_or xs t 0
get_or-append [] zero = refl
get_or-append [] (suc t) = refl
get_or-append (x ∷ xs) zero = refl
get_or-append (x ∷ xs) (suc t) = get_or-append xs t

-- Every thread has read a part of what there is.
pub record Advances (t : ℕ) (c c' : Companion) (ps : List ℕ) : Type 0 where
  pub bounded : get_or c'.next_unit t 0 ≤ length c'.unit_lit
  pub known : known_to t c ++ ps ≡ known_to t c'

pub still-Advances :
    (t : ℕ) (c c' : Companion)
    → get_or c.next_unit t 0 ≤ length c.unit_lit
    → c'.unit_lit ≡ c.unit_lit
    → get_or c'.next_unit t 0 ≡ get_or c.next_unit t 0
    → Advances t c c' []
still-Advances t c c' h u n = record {
  bounded = rw (u, n) h;
  known = rw (u, n) (append_nothing (known_to t c));
}

pub share-Advances :
    (t : ℕ) (c c' : Companion) (p : ℕ)
    → get_or c.next_unit t 0 ≤ length c.unit_lit
    → c'.unit_lit ≡ c.unit_lit ++ p ∷ []
    → c'.next_unit ≡ c.next_unit
    → Advances t c c' []
share-Advances t c c' p h u n = record {
  bounded = rw (u, n) (let long = length-append c.unit_lit (p ∷ []) in omega arith);
  known =
      rw (u, n)
        (append_nothing (known_to t c)
          ∙ sym (take-append (get_or c.next_unit t 0) c.unit_lit (p ∷ []) h));
}

get_elem?-get_or :
    (xs : List ℕ) (i x : ℕ) → get_elem? xs i ≡ some x → (get_or xs i 0 ≡ x) × (i < length xs)
get_elem?-get_or [] i x h = cc
get_elem?-get_or (y ∷ xs) zero x h = (ground arith, omega arith)
get_elem?-get_or (y ∷ xs) (suc i) x h = let (a, b) = get_elem?-get_or xs i x h in (a, omega arith)

pub get_elem?-exists : (xs : List ℕ) (i : ℕ) → i < length xs → (x : ℕ) × (get_elem? xs i ≡ some x)
get_elem?-exists [] i h = absurd (omega arith)
get_elem?-exists (x ∷ xs) zero h = (x, refl)
get_elem?-exists (x ∷ xs) (suc i) h = get_elem?-exists xs i (omega arith)

-- A read that finds something new.
pub read-Advances :
    (t : ℕ) (c c' : Companion) (sn next p : ℕ)
    → get_or c.next_unit t 0 ≤ length c.unit_lit
    → get_elem? c.next_unit sn ≡ some next
    → get_elem? c.unit_lit next ≡ some p
    → c'.unit_lit ≡ c.unit_lit
    → c'.next_unit ≡ set c.next_unit sn (next + 1)
    → Advances t c c' (if sn == t then p ∷ [] else [])
read-Advances t c c' sn next p h a b u n = elim (Bool-cases (sn == t)) [
  | inl mine ↦
      let same : sn ≡ t = ground arith in
      let (at, inside) = get_elem?-get_or c.next_unit sn next a in
      let (_, there) = get_elem?-get_or c.unit_lit next p b in
      let after = get_or-set_self c.next_unit sn (next + 1) 0 inside in
      let step : next + 1 ≡ suc next = omega arith in
      rw mine (record {
        bounded = rw (u, n, sym same, after) (omega arith);
        known = rw (u, n, sym same, after, at, step) (sym (take-next next c.unit_lit p b));
      })
  | inr other ↦
      let differs : sn ≢ t = λ e. ground arith in
      rw other
        (still-Advances t c c' h u (rw n (get_or-set_ne c.next_unit sn t (next + 1) 0 differs)))
]
