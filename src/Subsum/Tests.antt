-- ===== src/Subsum/Tests.antt =====
-- Three clauses, the third of which has all literals of the first.
use dsyrup.Base.{ℕ, ◌%◌, ◌≡◌, refl, Bool, true, false, [], ◌∷◌, ◌==◌}
use dsyrup.Subsum.{ComSubsum, subsum, add}
use dsyrup.Subsum.Stored.{add-any_part}
use dsyrup.Subsum.Entries.{any_part, Represents}

abbrev shifted : ℕ → ℕ → Bool
shifted l i = l % 64 == i

abbrev empty : ComSubsum
empty = record {
  deleted = 0;
  check = 0;
  local_check = 0;
  local_deleted = 0;
  lim_clauses = 0;
  nb_clauses = 0;
  hash = λ i. false;
  clauses = λ a. 0;
  current_clause = λ l. false;
  watch = λ l. [];
}

empty-Represents : Represents shifted empty []
empty-Represents = record { entries = λ l. tt; idle = λ l. refl; filled = refl }

abbrev two : ComSubsum
two = (add shifted 4 (9 ∷ []) (add shifted 6 (2 ∷ []) empty).1).1

two-Represents : Represents shifted two ((6 ∷ 2 ∷ []) ∷ (4 ∷ 9 ∷ []) ∷ [])
two-Represents =
    (add-any_part shifted (add shifted 6 (2 ∷ []) empty).1 ((6 ∷ 2 ∷ []) ∷ []) 4 (9 ∷ [])
      (add-any_part shifted empty [] 6 (2 ∷ []) empty-Represents).1).1

add-any_part_example :
    ((add shifted 2 (7 ∷ 6 ∷ []) two).0
      ≡ any_part ((6 ∷ 2 ∷ []) ∷ (4 ∷ 9 ∷ []) ∷ []) (2 ∷ 7 ∷ 6 ∷ []))
    × Represents shifted (add shifted 2 (7 ∷ 6 ∷ []) two).1 ((6 ∷ 2 ∷ []) ∷ (4 ∷ 9 ∷ []) ∷ [])
add-any_part_example =
    add-any_part shifted two ((6 ∷ 2 ∷ []) ∷ (4 ∷ 9 ∷ []) ∷ []) 2 (7 ∷ 6 ∷ []) two-Represents

found : (add shifted 2 (7 ∷ 6 ∷ []) two).0 ≡ true
unfolding add subsum
found = refl
