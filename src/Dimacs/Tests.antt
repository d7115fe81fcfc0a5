-- ===== src/Dimacs/Tests.antt =====
-- "p cnf 2 1", then the clause "1 -2 0", into a solver that counts its variables.
use dsyrup.Base.{ℕ, suc, ◌≡◌, ◌≢◌, refl, Bool, true, false, List, [], ◌∷◌}
use dsyrup.Dimacs.{exits, returns, unfinished, Target, parse_dimacs, skip_whitespace}
use dsyrup.Dimacs.Text.{Number}
use dsyrup.Dimacs.File.{Line, problem, clause, write_lines, write_cut, apply_lines}
use dsyrup.Dimacs.Lines.{at_start, parse_dimacs-write_lines, parse_dimacs-cut}
use dsyrup.Dimacs.Progress.{parse_dimacs-finished}

abbrev counting : Target (ℕ × List (List ℕ))
counting = record {
  n_vars = λ s. s.0;
  new_var = λ s. (suc s.0, s.1);
  add_clause_ = λ c s. (s.0, c ∷ s.1);
}

abbrev number : Bool → ℕ → Number
number minus d = record { is_minus = minus; first_digit = d; digits = [] }

abbrev lines : List Line
lines =
    problem (number false 2) (number false 1) ∷ clause (number false 1 ∷ number true 2 ∷ []) ∷ []

parse_dimacs-write_lines_example :
    parse_dimacs counting (0, []) (write_lines lines [])
    ≡ returns (apply_lines counting (at_start counting (0, [])) lines) []
parse_dimacs-write_lines_example =
    parse_dimacs-write_lines counting (0, []) lines (refl, (refl, tt))

-- The file ends after "1".
parse_dimacs-cut_example :
    parse_dimacs counting (0, []) (write_lines lines (write_cut (number false 1 ∷ []) [])) ≡ exits 3
unfolding skip_whitespace
parse_dimacs-cut_example =
    parse_dimacs-cut counting (0, []) lines (number false 1) [] [] (refl, (refl, tt)) refl refl

parse_dimacs-finished_example : parse_dimacs counting (0, []) (49 ∷ []) ≢ unfinished
parse_dimacs-finished_example = parse_dimacs-finished counting (0, []) (49 ∷ [])
