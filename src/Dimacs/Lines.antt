-- ===== src/Dimacs/Lines.antt =====
-- Dimacs.h: a problem written out line by line is read back, and a clause that is cut is refused.
use dsyrup.Base.{
  leb, ◌^◌, ℕ, zero, suc, ◌+◌, ◌-◌, ◌<◌, ◌≡◌, refl, sym, ap, ◌∙◌, Bool, true, false, ◌&&◌, List, [],
  ◌∷◌, ◌++◌, arith, if◌then◌else◌, ◌==◌, ltb, length, append_nothing, All,
}
use dsyrup.Dimacs.{
  Outcome, returns, exits, and_then, skip_whitespace, starts_number, Target, new_vars, read_clause,
  Reading, read_header, add_read, read_item, parse_main, parse_dimacs,
}
use dsyrup.Dimacs.Text.{Number, magnitude, is_int, write_number, spaces, parse_int-write_number}
use dsyrup.Dimacs.File.{
  literal_of, are_literals, literals_of, write_literals, is_line, write_line, write_lines,
  write_cut, is_number, append_assoc, starts_clause, parse_int-skip_whitespace,
  skip_whitespace-write_number, starts_clause-write_number, length-write_number, skipped_clause,
  eager_match-header, parse_int-exits, starts_cut, length-write_cut, length-write_lines, refused,
  comment_skipped, Line, comment, problem, clause, make_vars, apply_line, apply_lines,
}

module _ {S : Type 0} (target : Target S) where
  after_number :
      (fuel k : ℕ) (lits : List ℕ) (s : S) (n : Number) (rest : List ℕ)
      → is_int n ≡ true
      → starts_number rest ≡ false
      → (ltb 0 (magnitude n) && leb (magnitude n) (2 ^ 30)) ≡ true
      → read_clause target (suc fuel) lits s (spaces k (write_number n rest))
        ≡ read_clause target fuel
            (lits ++ literal_of n ∷ [])
            (new_vars target (magnitude n) (magnitude n - 1) s)
            rest
  unfolding read_clause
  after_number fuel k lits s n rest h e p =
      let other : (magnitude n == 0) ≡ false = ground arith in
      let positive : ltb 0 (magnitude n) ≡ true = ground arith in
      let small : ltb (2 ^ 30) (magnitude n) ≡ false = ground arith in
      let kept : (n.is_minus && true) ≡ n.is_minus = ground arith in
      rw (parse_int-write_number k n rest h e, positive, other, small, kept) refl

  starts_blank : (ns : List Number) (rest : List ℕ) → starts_number (write_literals ns rest) ≡ false
  starts_blank [] rest = refl
  starts_blank (n ∷ ns) rest = refl

  -- The loop of readClause, from any literals on.
  read_clause-write_literals :
      (fuel : ℕ) (lits : List ℕ) (s : S) (ns : List Number) (rest : List ℕ)
      → are_literals ns ≡ true
      → length ns < fuel
      → read_clause target fuel lits s (write_literals ns rest)
        ≡ returns (lits ++ literals_of ns, make_vars target ns s) (10 ∷ rest)
  unfolding read_clause
  read_clause-write_literals zero lits s ns rest h l = absurd (omega arith)
  read_clause-write_literals (suc fuel) lits s [] rest h l =
      ap (λ ls. returns (ls, s) (10 ∷ rest)) (sym (append_nothing lits))
  read_clause-write_literals (suc fuel) lits s (n ∷ ns) rest h l =
      after_number fuel 1 lits s n (write_literals ns rest) (ground arith) (starts_blank ns rest)
        (ground arith)
      ∙ read_clause-write_literals fuel (lits ++ literal_of n ∷ [])
          (new_vars target (magnitude n) (magnitude n - 1) s) ns rest (ground arith) (omega arith)
      ∙ ap (λ ls. returns (ls, make_vars target (n ∷ ns) s) (10 ∷ rest))
          (append_assoc lits (literal_of n) (literals_of ns))

  abbrev pub at_start : S → Reading S
  at_start s = record { vars = (false, 0); clauses = (false, 0); cnt = 0; solver = s }

  at_end :
      (fuel : ℕ) (r : Reading S) (end : List ℕ)
      → parse_main target (0 + suc fuel) r end
        ≡ read_item target (parse_main target fuel) r (skip_whitespace end)
  unfolding parse_main
  at_end fuel r end =
      let e : 0 + suc fuel ≡ suc fuel = omega arith in ap (λ n. parse_main target n r end) e

  more_fuel :
      (m n : ℕ) (r : Reading S) (cs : List ℕ) (newline : Bool)
      → m ≡ suc n
      → parse_main target m r (if newline then 10 ∷ cs else cs)
        ≡ read_item target (parse_main target n) r (skip_whitespace cs)
  unfolding parse_main skip_whitespace
  more_fuel m n r cs true e = ap (λ k. parse_main target k r (10 ∷ cs)) e
  more_fuel m n r cs false e = ap (λ k. parse_main target k r cs) e

  read_item-clause :
      (next : Reading S → List ℕ → Outcome (Reading S)) (r : Reading S) (cs : List ℕ)
      → starts_clause cs ≡ true
      → read_item target next r cs
        ≡ and_then
            (read_clause target (suc (length cs)) [] r.solver cs)
            (λ read rest. next (add_read target r read) rest)
  read_item-clause next r [] h = absurd (refused h)
  read_item-clause next r (c ∷ cs) h =
      let no_p : (c == 112) ≡ false = ground arith in
      let no_c : (c == 99) ≡ false = ground arith in rw (no_p, no_c) refl

  read_clause-skip_whitespace :
      (fuel : ℕ) (lits : List ℕ) (s : S) (cs : List ℕ)
      → read_clause target (suc fuel) lits s (skip_whitespace cs)
        ≡ read_clause target (suc fuel) lits s cs
  unfolding read_clause
  read_clause-skip_whitespace fuel lits s cs = rw (parse_int-skip_whitespace cs) refl

  header_read :
      (next : Reading S → List ℕ → Outcome (Reading S)) (r : Reading S) (v c : Number)
      (rest : List ℕ)
      → is_int v ≡ true
      → is_int c ≡ true
      → read_header target next r (true, 32 ∷ write_number v (32 ∷ write_number c (10 ∷ rest)))
        ≡ next (apply_line target r (problem v c)) (10 ∷ rest)
  header_read next r v c rest h k =
      rw
        (
          parse_int-write_number 1 v (32 ∷ write_number c (10 ∷ rest)) h refl,
          parse_int-write_number 1 c (10 ∷ rest) k refl,
        )
        refl

  -- One turn of the main loop on a written line.
  read_item-write_line :
      (next : Reading S → List ℕ → Outcome (Reading S)) (r : Reading S) (l : Line) (rest : List ℕ)
      → is_line l ≡ true
      → (newline : Bool) × (read_item target next r (skip_whitespace (write_line l rest))
          ≡ next (apply_line target r l) (if newline then 10 ∷ rest else rest))
  unfolding skip_whitespace
  read_item-write_line next r (comment text) rest h =
      (false, ap (next r) (comment_skipped text rest h))
  read_item-write_line next r (problem v c) rest h = (
    true,
    ap (read_header target next r)
          (eager_match-header (32 ∷ write_number v (32 ∷ write_number c (10 ∷ rest))))
        ∙ header_read next r v c rest (ground arith) (ground arith),
  )
  read_item-write_line next r (clause ns) rest h =
      let (starts, fits) = skipped_clause ns rest h in
      let cs = skip_whitespace (write_literals ns rest) in
      (
        true,
        read_item-clause next r cs starts
            ∙ ap (λ o. and_then o (λ read rest. next (add_read target r read) rest))
                (read_clause-skip_whitespace (length cs) [] r.solver (write_literals ns rest)
                  ∙ read_clause-write_literals (suc (length cs)) [] r.solver ns rest h fits),
      )

  -- The main loop after some lines.
  parse_main-write_lines :
      (fuel : ℕ) (r : Reading S) (ls : List Line) (end : List ℕ) (newline : Bool)
      → All (λ l. is_line l ≡ true) ls
      → parse_main target
          (length ls + suc fuel)
          r
          (if newline then 10 ∷ write_lines ls end else write_lines ls end)
        ≡ read_item target (parse_main target fuel) (apply_lines target r ls) (skip_whitespace end)
  unfolding parse_main skip_whitespace
  parse_main-write_lines fuel r [] end true h = at_end fuel r (10 ∷ end)
  parse_main-write_lines fuel r [] end false h = at_end fuel r end
  parse_main-write_lines fuel r (l ∷ ls) end newline (h, hs) =
      let (newline', turn) =
        read_item-write_line (parse_main target (length ls + suc fuel)) r l (write_lines ls end)
          h in
      let step = turn ∙ parse_main-write_lines fuel (apply_line target r l) ls end newline' hs in
      more_fuel (suc (length ls) + suc fuel) (length ls + suc fuel) r
        (write_line l (write_lines ls end)) newline (omega arith)
      ∙ step

  -- A problem written out line by line, each comment, header and clause in its line, each number an
  -- int and each literal between 1 and 2 ^ 30 or the negation of one, is read back: reading ends at the end of the file with the variables and clauses of the
  -- last header, and with each clause added to the solver in its turn, after the variables that it
  -- needs were created.
  pub parse_dimacs-write_lines :
      (s : S) (ls : List Line)
      → All (λ l. is_line l ≡ true) ls
      → parse_dimacs target s (write_lines ls []) ≡ returns (apply_lines target (at_start s) ls) []
  unfolding skip_whitespace
  parse_dimacs-write_lines s ls h =
      let text = write_lines ls [] in
      let long = length-write_lines ls [] in
      let enough : suc (length text) ≡ length ls + suc (length text - length ls) = omega arith in
      ap (λ n. parse_main target n (at_start s) text) enough
      ∙ parse_main-write_lines (length text - length ls) (at_start s) ls [] false h

  read_clause-cut :
      (fuel : ℕ) (lits : List ℕ) (s : S) (ns : List Number) (bad : List ℕ)
      → are_literals ns ≡ true
      → length ns < fuel
      → is_number (skip_whitespace bad) ≡ false
      → read_clause target fuel lits s (write_cut ns bad) ≡ exits 3
  unfolding read_clause
  read_clause-cut zero lits s ns bad h l b = absurd (omega arith)
  read_clause-cut (suc fuel) lits s [] bad h l b = rw (parse_int-exits bad b) refl
  read_clause-cut (suc fuel) lits s (n ∷ ns) bad h l b =
      after_number fuel 1 lits s n (write_cut ns bad) (ground arith) (starts_cut ns bad b)
        (ground arith)
      ∙ read_clause-cut fuel (lits ++ literal_of n ∷ [])
          (new_vars target (magnitude n) (magnitude n - 1) s) ns bad (ground arith) (omega arith) b

  -- A clause that is not closed by a 0, but cut by the end of the file or by text that is no number,
  -- ends the process with exit code 3, whatever lines were read before, where the literals are again
  -- between 1 and 2 ^ 30 or negations.
  pub parse_dimacs-cut :
      (s : S) (ls : List Line) (n : Number) (ns : List Number) (bad : List ℕ)
      → All (λ l. is_line l ≡ true) ls
      → are_literals (n ∷ ns) ≡ true
      → is_number (skip_whitespace bad) ≡ false
      → parse_dimacs target s (write_lines ls (write_cut (n ∷ ns) bad)) ≡ exits 3
  unfolding skip_whitespace
  parse_dimacs-cut s ls n ns bad h k b =
      let end = write_cut (n ∷ ns) bad in
      let text = write_lines ls end in
      let long = length-write_lines ls end in
      let fuel = length text - length ls in
      let enough : suc (length text) ≡ length ls + suc fuel = omega arith in
      let cs = write_number n (write_cut ns bad) in
      let number : is_int n ≡ true = ground arith in
      let solver = (apply_lines target (at_start s) ls).solver in
      let more = length-write_cut ns bad in
      let first = length-write_number n (write_cut ns bad) in
      ap (λ n. parse_main target n (at_start s) text) enough
      ∙ parse_main-write_lines fuel (at_start s) ls end false h
      ∙ ap (read_item target (parse_main target fuel) (apply_lines target (at_start s) ls))
          (skip_whitespace-write_number n (write_cut ns bad) number)
      ∙ read_item-clause (parse_main target fuel) (apply_lines target (at_start s) ls) cs
          (starts_clause-write_number n (write_cut ns bad) number)
      ∙ ap
          (λ o. and_then o (λ read rest.
            parse_main target fuel (add_read target (apply_lines target (at_start s) ls) read)
              rest))
          (after_number (length cs) 0 [] solver n (write_cut ns bad) number (starts_cut ns bad b)
              (ground arith)
            ∙ read_clause-cut (length cs) (literal_of n ∷ [])
                (new_vars target (magnitude n) (magnitude n - 1) solver) ns bad (ground arith)
                (omega arith) b)
