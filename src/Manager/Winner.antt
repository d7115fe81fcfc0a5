-- ===== src/Manager/Winner.antt =====
-- The agreement on a solution: Manager::solutionFound with the worker's ComMPI::solutionFound.
use dsyrup.Base.{
  ℕ, ◌+◌, ◌-◌, ◌≤◌, ◌<◌, ◌≡◌, refl, true, false, not, ◌&&◌, Option, none, some, List, [], ◌∷◌, ◌++◌,
  arith, if◌then◌else◌, ◌==◌, length,
}
use dsyrup.Manager.{
  Manager, solution_ind, Event, solution, stop_com_uls, stop_com_clauses, job_finished, unknown,
  waiting, init, solution_found, message_stop_com_uls, message_stop_com_clauses, handle, listener,
}
use dsyrup.Worker
use dsyrup.Worker.{Outcome, blocked, decided}
use dsyrup.Manager.Inbox.{
  solutions, first_winner, inbox, inbox-append, verdict, final, opening, inbox-solution_found,
  inbox-stop_com_uls, inbox-stop_com_clauses,
}

-- The fields that decide on the verdict, after each handler.
pub record Same (m m' : Manager) : Type 0 where
  pub size : m'.size_comm ≡ m.size_comm
  pub won : m'.solution_ok ≡ m.solution_ok
  pub winner : m'.rank_of_the_first_solution ≡ m.rank_of_the_first_solution
  pub finished : m'.nb_worker_finished ≡ m.nb_worker_finished

pub stop_com_uls-Same : (m : Manager) (r n : ℕ) → Same m (message_stop_com_uls m r n).0
unfolding message_stop_com_uls
stop_com_uls-Same m r n = record { size = refl; won = refl; winner = refl; finished = refl }

pub stop_com_clauses-Same : (m : Manager) (r n : ℕ) → Same m (message_stop_com_clauses m r n).0
unfolding message_stop_com_clauses
stop_com_clauses-Same m r n = record { size = refl; won = refl; winner = refl; finished = refl }

pub record Reported (m : Manager) (r v : ℕ) (m' : Manager) : Type 0 where
  pub size : m'.size_comm ≡ m.size_comm
  pub won : m'.solution_ok ≡ (if not m.solution_ok && not (v == 0) then true else m.solution_ok)
  pub winner :
      m'.rank_of_the_first_solution
      ≡ (if not m.solution_ok && not (v == 0) then some r else m.rank_of_the_first_solution)
  pub finished : m'.nb_worker_finished ≡ m.nb_worker_finished + 1

pub solution_found-Reported : (m : Manager) (r v : ℕ) → Reported m r v (solution_found m r v).0
unfolding solution_found
solution_found-Reported m r v = ground arith

final-cons :
    (j : ℕ) (w : Option ℕ) (need : ℕ) (s : ℕ × ℕ) (ss : List (ℕ × ℕ))
    → length (s ∷ ss) ≤ need
    → final j w need (s ∷ ss)
      ≡ (if need == 1 then verdict j w ∷ [] else []) ++ final j w (need - 1) ss
final-cons j w need s [] h = ground arith
final-cons j w need s (x ∷ ss) h = ground arith

-- A manager that has a winner.
inbox-listener_won :
    (j : ℕ) (m : Manager) (es : List Event)
    → m.solution_ok ≡ true
    → j < m.size_comm
    → (listener m es).0 ≡ waiting
    → m.nb_worker_finished + length (solutions es) ≤ m.size_comm
    → inbox j (listener m es).2
      ≡ final j m.rank_of_the_first_solution (m.size_comm - m.nb_worker_finished) (solutions es)
unfolding listener handle
inbox-listener_won j m [] ok lt w h = refl
inbox-listener_won j m (solution r v ∷ es) ok lt w h =
    let (m', out) = solution_found m r v in
    let need = m.size_comm - m.nb_worker_finished in
    ground (
      arith,
      inbox-append j out (listener m' es).2,
      inbox-solution_found j m r v,
      solution_found-Reported m r v,
      final-cons j m.rank_of_the_first_solution need (r, v) (solutions es),
      inbox-listener_won j m' es,
    )
inbox-listener_won j m (stop_com_uls r n ∷ es) ok lt w h =
    let (m', out) = message_stop_com_uls m r n in
    ground (
      arith,
      inbox-append j out (listener m' es).2,
      inbox-stop_com_uls j m r n,
      stop_com_uls-Same m r n,
      inbox-listener_won j m' es,
    )
inbox-listener_won j m (stop_com_clauses r n ∷ es) ok lt w h =
    let (m', out) = message_stop_com_clauses m r n in
    ground (
      arith,
      inbox-append j out (listener m' es).2,
      inbox-stop_com_clauses j m r n,
      stop_com_clauses-Same m r n,
      inbox-listener_won j m' es,
    )
inbox-listener_won j m (job_finished ∷ es) ok lt w h = cc
inbox-listener_won j m (unknown ∷ es) ok lt w h = cc

opening-cons :
    (j need r v : ℕ) (ss : List (ℕ × ℕ))
    → length ss + 1 ≤ need
    → v ≡ 0
    → opening j need ((r, v) ∷ ss) (first_winner ((r, v) ∷ ss))
      ≡ (if need == 1 then solution_ind ∷ [] else []) ++ opening j (need - 1) ss (first_winner ss)
opening-cons j need r v [] h e = ground arith
opening-cons j need r v (x ∷ ss) h e = ground arith

-- A manager that has none yet.
inbox-listener_open :
    (j : ℕ) (m : Manager) (es : List Event)
    → m.solution_ok ≡ false
    → m.rank_of_the_first_solution ≡ none
    → j < m.size_comm
    → (listener m es).0 ≡ waiting
    → m.nb_worker_finished + length (solutions es) ≤ m.size_comm
    → inbox j (listener m es).2
      ≡ opening j (m.size_comm - m.nb_worker_finished) (solutions es) (first_winner (solutions es))
unfolding listener handle
inbox-listener_open j m [] ok none_yet lt w h = refl
inbox-listener_open j m (solution r v ∷ es) ok none_yet lt w h =
    let (m', out) = solution_found m r v in
    let need = m.size_comm - m.nb_worker_finished in
    ground (
      arith,
      inbox-append j out (listener m' es).2,
      inbox-solution_found j m r v,
      solution_found-Reported m r v,
      final-cons j (some r) need (r, v) (solutions es),
      opening-cons j need r v (solutions es),
      inbox-listener_won j m' es,
      inbox-listener_open j m' es,
    )
inbox-listener_open j m (stop_com_uls r n ∷ es) ok none_yet lt w h =
    let (m', out) = message_stop_com_uls m r n in
    ground (
      arith,
      inbox-append j out (listener m' es).2,
      inbox-stop_com_uls j m r n,
      stop_com_uls-Same m r n,
      inbox-listener_open j m' es,
    )
inbox-listener_open j m (stop_com_clauses r n ∷ es) ok none_yet lt w h =
    let (m', out) = message_stop_com_clauses m r n in
    ground (
      arith,
      inbox-append j out (listener m' es).2,
      inbox-stop_com_clauses j m r n,
      stop_com_clauses-Same m r n,
      inbox-listener_open j m' es,
    )
inbox-listener_open j m (job_finished ∷ es) ok none_yet lt w h = cc
inbox-listener_open j m (unknown ∷ es) ok none_yet lt w h = cc

-- The whole exchange: in a run of the listener that has not ended, with at most one report on the
-- solution for each of the `n` workers, worker `j` is sent, the barriers' answers apart, exactly:
-- STOP_AND_KILL if some report so far has a solution, followed, once all `n` reports are in, by
-- PRINT_SOLUTION if `j` sent the first of those with a solution, and by SOLUTION_IND if not.
pub inbox-listener :
    (j n : ℕ) (es : List Event)
    → j < n
    → (listener (init n) es).0 ≡ waiting
    → length (solutions es) ≤ n
    → inbox j (listener (init n) es).2 ≡ opening j n (solutions es) (first_winner (solutions es))
unfolding init
inbox-listener j n es lt w h =
    let start : n - 0 ≡ n = omega arith in
    rw start at (inbox-listener_open j (init n) es refl refl lt w (omega arith))

-- Once every worker has reported and the first report with a solution is that of `w`, each worker
-- that has not read STOP_AND_KILL before ends its `solutionFound`, and displays the solution
-- exactly if it is `w`.
pub decided-first_winner :
    (j n w : ℕ) (es : List Event)
    → j < n
    → (listener (init n) es).0 ≡ waiting
    → length (solutions es) ≡ n
    → first_winner (solutions es) ≡ some w
    → Worker.solution_found false (inbox j (listener (init n) es).2) ≡ decided (j == w)
unfolding Worker.solution_found
decided-first_winner j n w es lt idle all won = ground (arith, inbox-listener j n es)

-- If every worker has reported and none of them has a solution, each worker waits for ever: the one
-- message that it is sent, SOLUTION_IND, is taken for STOP_AND_KILL.
pub blocked-no_solution :
    (j n : ℕ) (es : List Event)
    → j < n
    → (listener (init n) es).0 ≡ waiting
    → length (solutions es) ≡ n
    → first_winner (solutions es) ≡ none
    → Worker.solution_found false (inbox j (listener (init n) es).2) ≡ blocked
unfolding Worker.solution_found
blocked-no_solution j n es lt idle all lost = ground (arith, inbox-listener j n es)
