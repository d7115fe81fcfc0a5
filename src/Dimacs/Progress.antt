-- ===== src/Dimacs/Progress.antt =====
-- Dimacs.h: every reader consumes input, so that reading a problem comes to an end.
use dsyrup.Base.{
  ℕ, zero, suc, ◌+◌, ◌-◌, ◌*◌, ◌^◌, ◌≤◌, ◌<◌, ◌≡◌, ◌≢◌, subst, Bool, true, false, List, [], ◌∷◌,
  ◌++◌, arith, if◌then◌else◌, ◌==◌, ltb, length, Bool-cases, inl, inr,
}
use dsyrup.Literal.{mk_lit}
use dsyrup.Dimacs.{
  Outcome, returns, exits, undefined, unfinished, and_then, skip_whitespace, skip_line, eager_match,
  is_digit, read_digits, read_sign, signed, starts_number, parse_int, Target, new_vars, read_clause,
  Reading, header, read_header, add_read, read_item, parse_main, parse_dimacs,
}

-- The reader had enough fuel, and what it left is shorter than so many bytes.
abbrev pub Ends : {A : Type 0} → ℕ → Outcome A → Type 0
Ends n (returns a rest) = length rest < n
Ends n (exits code) = Unit
Ends n undefined = Unit
Ends n unfinished = ⊥

and_then-Ends :
    {A B : Type 0} (n m : ℕ) (o : Outcome A) (next : A → List ℕ → Outcome B)
    → Ends n o
    → ((a : A) (rest : List ℕ) → length rest < n → Ends m (next a rest))
    → Ends m (and_then o next)
and_then-Ends n m (returns a rest) next h k = k a rest h
and_then-Ends n m (exits code) next h k = tt
and_then-Ends n m undefined next h k = tt
and_then-Ends n m unfinished next h k = absurd h

Ends-≤ : {A : Type 0} (n m : ℕ) (o : Outcome A) → n ≤ m → Ends n o → Ends m o
Ends-≤ n m (returns a rest) l h = omega arith
Ends-≤ n m (exits code) l h = tt
Ends-≤ n m undefined l h = tt
Ends-≤ n m unfinished l h = absurd h

length-skip_whitespace : (cs : List ℕ) → length (skip_whitespace cs) ≤ length cs
unfolding skip_whitespace
length-skip_whitespace [] = omega arith
length-skip_whitespace (c ∷ cs) = let rest = length-skip_whitespace cs in ground arith

length-skip_line : (cs : List ℕ) → length (skip_line cs) ≤ length cs
unfolding skip_line
length-skip_line [] = omega arith
length-skip_line (c ∷ cs) = let rest = length-skip_line cs in ground arith

length-eager_match : (xs cs : List ℕ) → length ((eager_match xs cs).1) ≤ length cs
unfolding eager_match
length-eager_match [] cs = ground arith
length-eager_match (x ∷ xs) [] = ground arith
length-eager_match (x ∷ xs) (c ∷ cs) = let rest = length-eager_match xs cs in ground arith

length-read_sign : (cs : List ℕ) → length ((read_sign cs).1) ≤ length cs
length-read_sign [] = ground arith
length-read_sign (c ∷ cs) = ground arith

read_digits-Ends : (val : ℕ) (cs : List ℕ) → Ends (suc (length cs)) (read_digits val cs)
unfolding read_digits
read_digits-Ends val [] = omega arith
read_digits-Ends val (c ∷ cs) = elim (Bool-cases (is_digit c)) [
  | inr other ↦ rw other (omega arith)
  | inl digit ↦ elim (Bool-cases (ltb (val * 10 + (c - 48)) (2 ^ 31))) [
    | inr over ↦ rw (digit, over) tt
    | inl fits ↦
        rw (digit, fits)
          (Ends-≤ (suc (length cs)) (suc (length (c ∷ cs))) (read_digits (val * 10 + (c - 48)) cs)
            (omega arith) (read_digits-Ends (val * 10 + (c - 48)) cs))
  ]
]

-- The first digit is consumed.
number-Ends :
    (neg : Bool) (cs : List ℕ)
    → Ends
        (length cs)
        (if starts_number cs then and_then (read_digits 0 cs) (signed neg) else exits 3)
unfolding read_digits
number-Ends neg [] = tt
number-Ends neg (c ∷ cs) = elim (Bool-cases (is_digit c)) [
  | inr other ↦ rw other tt
  | inl digit ↦ elim (Bool-cases (ltb (0 * 10 + (c - 48)) (2 ^ 31))) [
    | inr over ↦ rw (digit, over) tt
    | inl fits ↦
        rw (digit, fits)
          (and_then-Ends (suc (length cs)) (suc (length cs)) (read_digits (0 * 10 + (c - 48)) cs)
            (signed neg) (read_digits-Ends (0 * 10 + (c - 48)) cs) (λ a rest h. h))
  ]
]

pub parse_int-Ends : (cs : List ℕ) → Ends (length cs) (parse_int cs)
unfolding parse_int
parse_int-Ends cs =
    let (neg, digits) = read_sign (skip_whitespace cs) in
    let shorter = length-read_sign (skip_whitespace cs) in
    let skipped = length-skip_whitespace cs in
    Ends-≤ (length digits) (length cs)
      (if starts_number digits then and_then (read_digits 0 digits) (signed neg) else exits 3)
      (omega arith) (number-Ends neg digits)

module _ {S : Type 0} (target : Target S) where
  read_clause-Ends :
      (fuel : ℕ) (lits : List ℕ) (s : S) (cs : List ℕ)
      → length cs < fuel
      → Ends (length cs) (read_clause target fuel lits s cs)
  unfolding read_clause
  read_clause-Ends zero lits s cs h = absurd (omega arith)
  read_clause-Ends (suc fuel) lits s cs h =
      and_then-Ends (length cs) (length cs) (parse_int cs) _ (parse_int-Ends cs) (λ lit rest l.
        let more =
          read_clause-Ends fuel (lits ++ mk_lit (lit.1 - 1) lit.0 ∷ [])
            (new_vars target lit.1 (lit.1 - 1) s) rest (omega arith) in
        elim (Bool-cases (lit.1 == 0)) [
          | inl ended ↦ rw ended l
          | inr goes_on ↦ elim (Bool-cases (ltb (2 ^ 30) lit.1)) [
            | inl over ↦ rw (goes_on, over) tt
            | inr fits ↦ rw (goes_on, fits) (Ends-≤ (length rest) (length cs) _ (omega arith) more)
          ]
        ])

  read_header-Ends :
      (n m : ℕ) (next : Reading S → List ℕ → Outcome (Reading S)) (r : Reading S)
      (b : Bool × List ℕ)
      → ((r : Reading S) (rest : List ℕ) → length rest < n → Ends m (next r rest))
      → length (b.1) ≤ n
      → Ends m (read_header target next r b)
  read_header-Ends n m next r (false, cs) k h = tt
  read_header-Ends n m next r (true, cs) k h =
      and_then-Ends n m (parse_int cs) _ (Ends-≤ (length cs) n _ h (parse_int-Ends cs)) (λ v rest l.
        and_then-Ends n m (parse_int rest) _
          (Ends-≤ (length rest) n _ (omega arith) (parse_int-Ends rest)) (λ c rest l. k _ rest l))

  read_item-Ends :
      (m : ℕ) (next : Reading S → List ℕ → Outcome (Reading S)) (r : Reading S) (cs : List ℕ)
      → ((r : Reading S) (rest : List ℕ) → length rest < length cs → Ends m (next r rest))
      → length cs < m
      → Ends m (read_item target next r cs)
  unfolding skip_line
  read_item-Ends m next r [] k h = h
  read_item-Ends m next r (c ∷ cs) k h = elim (Bool-cases (c == 112)) [
    | inl p ↦ rw p (
        read_header-Ends (length (c ∷ cs)) m next r (eager_match header (c ∷ cs)) k
          (length-eager_match header (c ∷ cs)))
    | inr no_p ↦ elim (Bool-cases (c == 99)) [
      | inl comment ↦
          let shorter = length-skip_line cs in
          let other : (c == 10) ≡ false = ground arith in
          rw (no_p, comment, other) (k r (skip_line cs) (omega arith))
      | inr no_comment ↦
          rw (no_p, no_comment)
            (and_then-Ends (length (c ∷ cs)) m _ _
              (read_clause-Ends (suc (length (c ∷ cs))) [] r.solver (c ∷ cs) (omega arith))
              (λ read rest l. k (add_read target r read) rest l))
    ]
  ]

  parse_main-Ends :
      (fuel : ℕ) (r : Reading S) (cs : List ℕ)
      → length cs < fuel
      → Ends (suc (length cs)) (parse_main target fuel r cs)
  unfolding parse_main
  parse_main-Ends zero r cs h = absurd (omega arith)
  parse_main-Ends (suc fuel) r cs h =
      let skipped = length-skip_whitespace cs in
      read_item-Ends (suc (length cs)) (parse_main target fuel) r (skip_whitespace cs)
        (λ r rest l.
          Ends-≤ (suc (length rest)) (suc (length cs)) _ (omega arith)
            (parse_main-Ends fuel r rest (omega arith)))
        (omega arith)

  -- Reading comes to an end on every input: with a problem, with the exit code of an error, or with
  -- the overflow of a number.
  pub parse_dimacs-finished : (s : S) (cs : List ℕ) → parse_dimacs target s cs ≢ unfinished
  parse_dimacs-finished s cs e =
      ended (parse_dimacs target s cs) e (parse_main-Ends (suc (length cs)) _ cs (omega arith))
    where
      ended : (o : Outcome (Reading S)) → o ≡ unfinished → Ends (suc (length cs)) o → ⊥
      ended o e h = subst (Ends (suc (length cs))) e h
