-- ===== src/Dimacs/File.antt =====
-- Dimacs.h: the lines of a file, how they are written, and what the parts of the reader do on them.
use dsyrup.Base.{
  leb, ◌^◌, ℕ, suc, ◌+◌, ◌-◌, ◌≤◌, ◌<◌, ◌≡◌, refl, ap, Bool, true, false, not, ◌&&◌, List, [], ◌∷◌,
  ◌++◌, arith, ◌==◌, ltb, length, Bool-cases, inl, inr,
}
use dsyrup.Literal.{mk_lit}
use dsyrup.Dimacs.{
  exits, is_blank, skip_whitespace, skip_line, eager_match, is_digit, read_sign, starts_number,
  parse_int, Target, new_vars, Reading, header,
}
use dsyrup.Dimacs.Text.{Number, magnitude, is_int, write_digits, write_number, value_of}

-- The literals of a clause, which are up to 2 ^ 30, and the variables that are created for them.
abbrev pub literal_of : Number → ℕ
literal_of n = mk_lit (magnitude n - 1) n.is_minus

abbrev pub are_literals : List Number → Bool
are_literals [] = true
are_literals (n ∷ ns) =
    is_int n && ltb 0 (magnitude n) && leb (magnitude n) (2 ^ 30) && are_literals ns

abbrev pub literals_of : List Number → List ℕ
literals_of [] = []
literals_of (n ∷ ns) = literal_of n ∷ literals_of ns

-- Each literal after a blank, and then 0 and the end of the line.
abbrev pub write_literals : List Number → List ℕ → List ℕ
write_literals [] rest = 32 ∷ 48 ∷ 10 ∷ rest
write_literals (n ∷ ns) rest = 32 ∷ write_number n (write_literals ns rest)

-- A line of the file: a comment, the header, or a clause.
pub data Line : Type 0 where
  comment : List ℕ → Line
  problem : Number → Number → Line
  clause : List Number → Line

abbrev pub has_no_newline : List ℕ → Bool
has_no_newline [] = true
has_no_newline (c ∷ cs) = not (c == 10) && has_no_newline cs

abbrev pub is_line : Line → Bool
is_line (comment text) = has_no_newline text
is_line (problem v c) = is_int v && is_int c
is_line (clause ns) = are_literals ns

abbrev pub write_line : Line → List ℕ → List ℕ
write_line (comment text) rest = 99 ∷ text ++ 10 ∷ rest
write_line (problem v c) rest = header ++ 32 ∷ write_number v (32 ∷ write_number c (10 ∷ rest))
write_line (clause ns) rest = write_literals ns rest

abbrev pub write_lines : List Line → List ℕ → List ℕ
write_lines [] end = end
write_lines (l ∷ ls) end = write_line l (write_lines ls end)

-- The literals of a clause without the 0, before some other text.
abbrev pub write_cut : List Number → List ℕ → List ℕ
write_cut [] bad = bad
write_cut (n ∷ ns) bad = 32 ∷ write_number n (write_cut ns bad)

-- Whether a text starts with a number, its sign included.
abbrev pub is_number : List ℕ → Bool
is_number cs = starts_number ((read_sign cs).1)

pub append_assoc : (xs : List ℕ) (y : ℕ) (zs : List ℕ) → (xs ++ y ∷ []) ++ zs ≡ xs ++ y ∷ zs
append_assoc [] y zs = refl
append_assoc (x ∷ xs) y zs = ap (λ l. x ∷ l) (append_assoc xs y zs)

-- Whether the text of an item is read as a clause.
abbrev pub starts_clause : List ℕ → Bool
starts_clause [] = false
starts_clause (c ∷ cs) = not (c == 112) && not (c == 99)

pub skip_whitespace-twice :
    (cs : List ℕ) → skip_whitespace (skip_whitespace cs) ≡ skip_whitespace cs
unfolding skip_whitespace
skip_whitespace-twice [] = refl
skip_whitespace-twice (c ∷ cs) = elim (Bool-cases (is_blank c)) [
  | inl blank ↦ rw blank (skip_whitespace-twice cs)
  | inr plain ↦ rw (plain, plain) refl
]

pub parse_int-skip_whitespace : (cs : List ℕ) → parse_int (skip_whitespace cs) ≡ parse_int cs
unfolding parse_int
parse_int-skip_whitespace cs = rw (skip_whitespace-twice cs) refl

pub skip_whitespace-write_number :
    (n : Number) (rest : List ℕ)
    → is_int n ≡ true
    → skip_whitespace (write_number n rest) ≡ write_number n rest
unfolding skip_whitespace
skip_whitespace-write_number n rest h =
    let plain : is_blank (48 + n.first_digit) ≡ false = ground arith in
    elim (Bool-cases n.is_minus) [
      | inl minus ↦ rw minus refl
      | inr no_minus ↦ rw (no_minus, plain) refl
    ]

pub starts_clause-write_number :
    (n : Number) (rest : List ℕ) → is_int n ≡ true → starts_clause (write_number n rest) ≡ true
starts_clause-write_number n rest h = elim (Bool-cases n.is_minus) [
  | inl minus ↦ rw minus refl
  | inr no_minus ↦ rw no_minus (ground arith)
]

pub length-write_digits : (ds rest : List ℕ) → length rest ≤ length (write_digits ds rest)
length-write_digits [] rest = omega arith
length-write_digits (d ∷ ds) rest = omega (arith, length-write_digits ds rest)

pub length-write_number : (n : Number) (rest : List ℕ) → length rest < length (write_number n rest)
length-write_number n rest =
    let digits = length-write_digits n.digits rest in
    elim (Bool-cases n.is_minus) [
      | inl minus ↦ rw minus (omega arith)
      | inr no_minus ↦ rw no_minus (omega arith)
    ]

pub length-write_literals :
    (ns : List Number) (rest : List ℕ) → length ns < length (write_literals ns rest)
length-write_literals [] rest = omega arith
length-write_literals (n ∷ ns) rest =
    let more = length-write_literals ns rest in
    let number = length-write_number n (write_literals ns rest) in omega arith

-- A written clause after its blanks.
pub skipped_clause :
    (ns : List Number) (rest : List ℕ)
    → are_literals ns ≡ true
    → (starts_clause (skip_whitespace (write_literals ns rest)) ≡ true)
      × (length ns < suc (length (skip_whitespace (write_literals ns rest))))
unfolding skip_whitespace
skipped_clause [] rest h = (refl, omega arith)
skipped_clause (n ∷ ns) rest h =
    let more = length-write_literals ns rest in
    let number = length-write_number n (write_literals ns rest) in
    rw (skip_whitespace-write_number n (write_literals ns rest) (ground arith))
      (starts_clause-write_number n (write_literals ns rest) (ground arith), omega arith)

pub skip_line-comment :
    (text rest : List ℕ) → has_no_newline text ≡ true → skip_line (text ++ 10 ∷ rest) ≡ rest
unfolding skip_line
skip_line-comment [] rest h = refl
skip_line-comment (c ∷ cs) rest h =
    let other : (c == 10) ≡ false = ground arith in
    rw other (skip_line-comment cs rest (ground arith))

pub eager_match-header : (rest : List ℕ) → eager_match header (header ++ rest) ≡ (true, rest)
unfolding eager_match
eager_match-header rest = refl

pub parse_int-exits :
    (cs : List ℕ) → is_number (skip_whitespace cs) ≡ false → parse_int cs ≡ exits 3
unfolding parse_int
parse_int-exits cs h = rw h refl

pub starts_cut :
    (ns : List Number) (bad : List ℕ)
    → is_number (skip_whitespace bad) ≡ false
    → starts_number (write_cut ns bad) ≡ false
unfolding skip_whitespace
starts_cut [] [] b = refl
starts_cut [] (c ∷ cs) b = elim (Bool-cases (is_digit c)) [
  | inr other ↦ other
  | inl digit ↦
      let plain : is_blank c ≡ false = ground arith in
      let no_minus : (c == 45) ≡ false = ground arith in
      let no_plus : (c == 43) ≡ false = ground arith in rw (plain, no_minus, no_plus) at b
]
starts_cut (n ∷ ns) bad b = refl

pub length-write_cut : (ns : List Number) (bad : List ℕ) → length ns ≤ length (write_cut ns bad)
length-write_cut [] bad = omega arith
length-write_cut (n ∷ ns) bad =
    let more = length-write_cut ns bad in
    let number = length-write_number n (write_cut ns bad) in omega arith

pub length-append_line : (text rest : List ℕ) → length rest < length (text ++ 10 ∷ rest)
length-append_line [] rest = omega arith
length-append_line (c ∷ cs) rest = omega (arith, length-append_line cs rest)

pub rest_of_clause :
    (ns : List Number) (rest : List ℕ) → length rest < length (write_literals ns rest)
rest_of_clause [] rest = omega arith
rest_of_clause (n ∷ ns) rest =
    let more = rest_of_clause ns rest in
    let number = length-write_number n (write_literals ns rest) in omega arith

pub length-write_line : (l : Line) (rest : List ℕ) → length rest < length (write_line l rest)
length-write_line (comment text) rest = omega (arith, length-append_line text rest)
length-write_line (problem v c) rest =
    let one = length-write_number v (32 ∷ write_number c (10 ∷ rest)) in
    let two = length-write_number c (10 ∷ rest) in omega arith
length-write_line (clause ns) rest = rest_of_clause ns rest

pub length-write_lines : (ls : List Line) (end : List ℕ) → length ls ≤ length (write_lines ls end)
length-write_lines [] end = omega arith
length-write_lines (l ∷ ls) end =
    let more = length-write_lines ls end in
    let line = length-write_line l (write_lines ls end) in omega arith

pub refused : false ≡ true → ⊥
refused e = cc

pub comment_skipped :
    (text rest : List ℕ) → has_no_newline text ≡ true → skip_line (99 ∷ text ++ 10 ∷ rest) ≡ rest
unfolding skip_line
comment_skipped text rest h = skip_line-comment text rest h

module _ {S : Type 0} (target : Target S) where
  abbrev pub make_vars : List Number → S → S
  make_vars [] s = s
  make_vars (n ∷ ns) s = make_vars ns (new_vars target (magnitude n) (magnitude n - 1) s)

  -- What a line means.
  abbrev pub apply_line : Reading S → Line → Reading S
  apply_line r (comment text) = r
  apply_line r (problem v c) = record r { vars = value_of v; clauses = value_of c }
  apply_line r (clause ns) = record r {
    cnt = suc r.cnt;
    solver = target.add_clause_ (literals_of ns) (make_vars ns r.solver);
  }

  abbrev pub apply_lines : Reading S → List Line → Reading S
  apply_lines r [] = r
  apply_lines r (l ∷ ls) = apply_lines (apply_line r l) ls
