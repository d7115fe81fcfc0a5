-- ===== src/Companion/Tests.antt =====
-- A run of two threads of a worker.
use dsyrup.Base.{◌≡◌, refl, none, some, List, [], ◌∷◌, get_or, take}
use dsyrup.Companion.{
  Companion, empty, Event, variable, solver, from_network, learnt, read, found, Output,
  add_learnt_hight_level, add_learnt, get_unary, solution_found, step, run,
}
use dsyrup.Companion.Advances.{received}
use dsyrup.Companion.Units.{received-run}
use dsyrup.Companion.Distinct.{IsConsistent, IsConsistent-run}
use dsyrup.Companion.Election.{wins, elected-run}

-- Three variables, two solvers; variable 1 comes from both sides.
abbrev events : List Event
events =
    variable
    ∷ variable
    ∷ variable
    ∷ solver
    ∷ solver
    ∷ learnt 3
    ∷ from_network 2
    ∷ read 0
    ∷ from_network 5
    ∷ read 1
    ∷ read 0
    ∷ read 0
    ∷ found 1
    ∷ found 0
    ∷ []

abbrev in_the_end : Companion × List Output
in_the_end = elim (run empty events) [ none ↦ (empty, []) | some r ↦ r ]

received-run_example :
    received 0 in_the_end.1 ≡ take (get_or in_the_end.0.next_unit 0 0) in_the_end.0.unit_lit
unfolding run step add_learnt_hight_level add_learnt get_unary solution_found
received-run_example = received-run 0 events in_the_end.0 in_the_end.1 refl

received_both : received 0 in_the_end.1 ≡ 3 ∷ 5 ∷ []
unfolding run step add_learnt_hight_level add_learnt get_unary solution_found
received_both = refl

IsConsistent-run_example : IsConsistent in_the_end.0
unfolding run step add_learnt_hight_level add_learnt get_unary solution_found
IsConsistent-run_example = IsConsistent-run events in_the_end.0 in_the_end.1 refl

elected-run_example : (in_the_end.0.solver_solution ≡ some 1) × (wins in_the_end.1 ≡ 1)
unfolding run step add_learnt_hight_level add_learnt get_unary solution_found
elected-run_example = elected-run events in_the_end.0 in_the_end.1 tt refl
