-- ===== src/Manager/Tests.antt =====
-- Runs of the manager of three workers: its listener with both barriers and the verdict.
use dsyrup.Base.{◌≡◌, refl, false, List, [], ◌∷◌, arith}
use dsyrup.Manager.{
  stop_and_kill, print_solution, answer, Event, solution, stop_com_uls, stop_com_clauses,
  job_finished, returned, init, handle, listener, solution_found, message_stop_com_uls,
  message_stop_com_clauses, add_others,
}
use dsyrup.Manager.Barrier.{barrier_uls}
use dsyrup.Manager.Inbox.{inbox}
use dsyrup.Manager.Winner.{inbox-listener, decided-first_winner, blocked-no_solution}
use dsyrup.Worker
use dsyrup.Worker.{decided, blocked}

-- Workers 2 and 0 are done, unit literals are counted, worker 1 is still searching.
abbrev begun : List Event
begun = solution 2 20 ∷ stop_com_uls 2 5 ∷ solution 0 0 ∷ stop_com_uls 0 7 ∷ []

abbrev ended : List Event
ended = solution 2 20 ∷ solution 0 0 ∷ stop_com_clauses 2 9 ∷ solution 1 20 ∷ []

abbrev fruitless : List Event
fruitless = solution 1 0 ∷ solution 0 0 ∷ []

barrier_uls_example :
    (handle (listener (init 3) begun).1 (stop_com_uls 1 100)).1
    ≡ (0, answer 105) ∷ (1, answer 12) ∷ (2, answer 107) ∷ []
unfolding listener handle solution_found message_stop_com_uls init add_others
barrier_uls_example = barrier_uls 3 begun 1 100 refl

inbox-listener_example : inbox 2 (listener (init 3) ended).2 ≡ stop_and_kill ∷ print_solution ∷ []
unfolding listener handle solution_found message_stop_com_clauses init
inbox-listener_example = inbox-listener 2 3 ended (omega arith) refl (omega arith)

decided-first_winner_example :
    Worker.solution_found false (inbox 1 (listener (init 3) ended).2) ≡ decided false
unfolding listener handle solution_found message_stop_com_clauses init
decided-first_winner_example = decided-first_winner 1 3 2 ended (omega arith) refl refl refl

blocked-no_solution_example :
    Worker.solution_found false (inbox 0 (listener (init 2) fruitless).2) ≡ blocked
unfolding listener handle solution_found init
blocked-no_solution_example = blocked-no_solution 0 2 fruitless (omega arith) refl refl refl

-- The listener stops at JOB_FINISHED and leaves what follows.
listener_returns : (listener (init 3) (job_finished ∷ begun)).0 ≡ returned
unfolding listener
listener_returns = refl
