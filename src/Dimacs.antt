-- ===== src/Dimacs.antt =====
-- Solvers/SAT/GlucoseSyrup/syrup/core/Dimacs.h and utils/ParseUtils.h: the reader of problems in
-- DIMACS format. The input is the list of its bytes; at its end `*in` is EOF, and stays so. The
-- solver that the problem goes into is a type parameter of the code, here the interface `Target`.
-- A number that overflows an int is undefined behaviour; so is the double of a variable from 2 ^ 30 on
-- in mkLit. The warnings of a wrong header are left out.
pub mod Progress
pub mod Text
pub mod File
pub mod Lines
mod Tests
use dsyrup.Base.{
  ℕ, zero, suc, ◌+◌, ◌-◌, ◌*◌, ◌^◌, Bool, true, false, not, ◌&&◌, ◌||◌, List, [], ◌∷◌, ◌++◌,
  if◌then◌else◌, ◌==◌, ltb, leb, length,
}
use dsyrup.Literal.{mk_lit}

-- What a reader ends with: a value and the rest of the input, the end of the process with an exit
-- code, undefined behaviour, or no fuel.
pub data Outcome (A : Type 0) : Type 0 where
  returns : A → List ℕ → Outcome A
  exits : ℕ → Outcome A
  undefined : Outcome A
  unfinished : Outcome A

abbrev pub and_then : {A B : Type 0} → Outcome A → (A → List ℕ → Outcome B) → Outcome B
and_then (returns a rest) next = next a rest
and_then (exits n) next = exits n
and_then undefined next = undefined
and_then unfinished next = unfinished

abbrev pub is_blank : ℕ → Bool
is_blank c = (leb 9 c && leb c 13) || (c == 32)

unfoldable pub skip_whitespace : List ℕ → List ℕ
skip_whitespace [] = []
skip_whitespace (c ∷ cs) = let rest = skip_whitespace cs in if is_blank c then rest else c ∷ cs

unfoldable pub skip_line : List ℕ → List ℕ
skip_line [] = []
skip_line (c ∷ cs) = let rest = skip_line cs in if c == 10 then cs else rest

-- `eagerMatch`: the characters that match are consumed also when it fails.
unfoldable pub eager_match : List ℕ → List ℕ → Bool × List ℕ
eager_match [] cs = (true, cs)
eager_match (x ∷ xs) [] = (false, [])
eager_match (x ∷ xs) (c ∷ cs) =
    let rest = eager_match xs cs in if x == c then rest else (false, c ∷ cs)

abbrev pub is_digit : ℕ → Bool
is_digit c = leb 48 c && leb c 57

-- The loop of `parseInt`
unfoldable pub read_digits : ℕ → List ℕ → Outcome ℕ
read_digits val [] = returns val []
read_digits val (c ∷ cs) =
    let next = val * 10 + (c - 48) in
    let rest = read_digits next cs in
    if is_digit c then (if ltb next (2 ^ 31) then rest else undefined) else returns val (c ∷ cs)

-- An int by its sign and its absolute value; 0 has the sign false.
abbrev pub read_sign : List ℕ → Bool × List ℕ
read_sign [] = (false, [])
read_sign (c ∷ cs) =
    if c == 45 then (true, cs) else if c == 43 then (false, cs) else (false, c ∷ cs)

abbrev pub signed : Bool → ℕ → List ℕ → Outcome (Bool × ℕ)
signed neg val rest = returns (neg && ltb 0 val, val) rest

abbrev pub starts_number : List ℕ → Bool
starts_number [] = false
starts_number (c ∷ cs) = is_digit c

unfoldable pub parse_int : List ℕ → Outcome (Bool × ℕ)
unfolding skip_whitespace read_digits
parse_int cs =
    let (neg, digits) = read_sign (skip_whitespace cs) in
    if starts_number digits then and_then (read_digits 0 digits) (signed neg) else exits 3

-- What the reader calls of the solver.
pub record Target (S : Type 0) : Type 0 where
  pub n_vars : S → ℕ
  pub new_var : S → S
  pub add_clause_ : List ℕ → S → S

-- `vars` and `clauses`, `cnt`, and the solver.
pub record Reading (S : Type 0) : Type 0 where
  pub vars : Bool × ℕ
  pub clauses : Bool × ℕ
  pub cnt : ℕ
  pub solver : S

-- "p cnf"
abbrev pub header : List ℕ
header = 112 ∷ 32 ∷ 99 ∷ 110 ∷ 102 ∷ []

module _ {S : Type 0} (target : Target S) where
  -- `while (var >= S.nVars()) S.newVar()`, at most so many times.
  unfoldable pub new_vars : ℕ → ℕ → S → S
  new_vars zero v s = s
  new_vars (suc n) v s =
      let rest = new_vars n v (target.new_var s) in if leb (target.n_vars s) v then rest else s

  -- The loop of `readClause`; `var + var` of mkLit overflows for a literal beyond 2 ^ 30.
  unfoldable pub read_clause : ℕ → List ℕ → S → List ℕ → Outcome (List ℕ × S)
  unfolding parse_int new_vars
  read_clause zero lits s cs = unfinished
  read_clause (suc fuel) lits s cs = and_then (parse_int cs) (λ lit rest.
      let more =
        read_clause fuel (lits ++ mk_lit (lit.1 - 1) lit.0 ∷ []) (new_vars lit.1 (lit.1 - 1) s)
          rest in
      if lit.1 == 0 then returns (lits, s) rest else if ltb (2 ^ 30) lit.1 then undefined else more)

  abbrev pub read_header :
      (Reading S → List ℕ → Outcome (Reading S)) → Reading S → Bool × List ℕ → Outcome (Reading S)
  read_header next r (false, rest) = exits 3
  read_header next r (true, rest) = and_then (parse_int rest) (λ v rest.
      and_then (parse_int rest) (λ c rest. next (record r { vars = v; clauses = c }) rest))

  abbrev pub add_read : Reading S → List ℕ × S → Reading S
  add_read r (lits, s) = record r { cnt = suc r.cnt; solver = target.add_clause_ lits s }

  -- One turn of the loop of `parse_DIMACS_main`, at the first character that is not blank.
  abbrev pub read_item :
      (Reading S → List ℕ → Outcome (Reading S)) → Reading S → List ℕ → Outcome (Reading S)
  read_item next r [] = returns r []
  read_item next r (c ∷ cs) =
      if c == 112
      then read_header next r (eager_match header (c ∷ cs))
      else if c == 99
      then next r (skip_line (c ∷ cs))
      else and_then (read_clause (suc (length (c ∷ cs))) [] r.solver (c ∷ cs))
          (λ read rest. next (add_read r read) rest)

  unfoldable pub parse_main : ℕ → Reading S → List ℕ → Outcome (Reading S)
  unfolding read_clause skip_line eager_match
  parse_main zero r cs = unfinished
  parse_main (suc fuel) r cs = read_item (parse_main fuel) r (skip_whitespace cs)

  abbrev pub parse_dimacs : S → List ℕ → Outcome (Reading S)
  parse_dimacs s cs =
      parse_main (suc (length cs))
        (record { vars = (false, 0); clauses = (false, 0); cnt = 0; solver = s }) cs
