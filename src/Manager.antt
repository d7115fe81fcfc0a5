-- ===== src/Manager.antt =====
-- Manager/Main/Manager.{h,cc} and Manager/ConcurrentManager/ConcurrentManager.cc: the manager
-- process. A handler takes the values that it receives over MPI as arguments and returns the new
-- state beside the messages that it sends, in order. Printing, timing and process creation are
-- left out; ranks are below `size_comm`, so -1 in `rankOfTheFirstSolution` is `none`.
pub mod Barrier
pub mod Inbox
pub mod Winner
mod Tests
use dsyrup.Base.{
  ℕ, zero, suc, ◌+◌, ◌%◌, ◌^◌, ◌≡◌, Bool, true, false, not, ◌&&◌, Option, none, some, List, [], ◌∷◌,
  ◌++◌, if◌then◌else◌, ◌==◌, replicate,
}

-- What the manager sends to workers; `answer` is an unsigned long of a barrier.
pub data Msg : Type 0 where
  stop_and_kill : Msg
  print_solution : Msg
  solution_ind : Msg
  answer : ℕ → Msg

-- One MPI_Send: the rank of the worker, and what it is sent.
abbrev pub Send : Type 0
Send = ℕ × Msg

pub record Manager : Type 0 where
  pub size_comm : ℕ
  pub solution_ok : Bool
  pub rank_of_the_first_solution : Option ℕ
  pub nb_worker_finished : ℕ
  pub nb_worker_uls : ℕ
  pub nb_worker_clauses : ℕ
  pub nb_clauses_to_receive : List ℕ
  pub nb_uls_to_receive : List ℕ

-- The constructor, with what `launch` allocates: `calloc` fills both tables with 0.
unfoldable pub init : ℕ → Manager
init n = record {
  size_comm = n;
  solution_ok = false;
  rank_of_the_first_solution = none;
  nb_worker_finished = 0;
  nb_worker_uls = 0;
  nb_worker_clauses = 0;
  nb_clauses_to_receive = replicate n 0;
  nb_uls_to_receive = replicate n 0;
}

-- for(j = from; j < from + n; j++) MPI_Send(&msg, …, j, …)
unfoldable pub broadcast : ℕ → ℕ → Msg → List Send
broadcast zero from msg = []
broadcast (suc n) from msg = (from, msg) ∷ broadcast n (suc from) msg

abbrev pub is_rank : ℕ → Option ℕ → Bool
is_rank j none = false
is_rank j (some r) = j == r

-- for(j = from; j < from + n; j++) PRINT_SOLUTION to the first winner, SOLUTION_IND to the others
pub free_solvers : ℕ → ℕ → Option ℕ → List Send
free_solvers zero from winner = []
free_solvers (suc n) from winner =
    (from, if is_rank from winner then print_solution else solution_ind)
    ∷ free_solvers n (suc from) winner

-- `if(!solutionOk && resultat != 0)`: the first worker with a solution wins, and all are stopped.
pub first_solution : Manager → ℕ → ℕ → Manager × List Send
first_solution m rank result =
    if not m.solution_ok && not (result == 0)
    then (
      record m { solution_ok = true; rank_of_the_first_solution = some rank },
      broadcast m.size_comm 0 stop_and_kill,
    )
    else (m, [])

-- `nbWorkerFinished++` and what follows
pub count_finished : Manager → Manager × List Send
count_finished m =
    let m' = record m { nb_worker_finished = m.nb_worker_finished + 1 } in
    (
      m',
      if m.nb_worker_finished + 1 == m.size_comm
          then free_solvers m.size_comm 0 m.rank_of_the_first_solution
          else [],
    )

pub solution_found : Manager → ℕ → ℕ → Manager × List Send
unfolding first_solution count_finished
solution_found m rank result =
    let (m₁, stops) = first_solution m rank result in
    let (m₂, frees) = count_finished m₁ in (m₂, stops ++ frees)

-- for(j …) if(j != rankOfSender) table[j] += n, on unsigned longs
pub add_others : ℕ → ℕ → ℕ → List ℕ → List ℕ
add_others from rank n [] = []
add_others from rank n (x ∷ xs) =
    (if from == rank then x else (x + n) % 2 ^ 64) ∷ add_others (suc from) rank n xs

-- for(j …) MPI_Send(table + j, …, j, …)
pub send_table : ℕ → List ℕ → List Send
send_table from [] = []
send_table from (x ∷ xs) = (from, answer x) ∷ send_table (suc from) xs

pub message_stop_com_uls : Manager → ℕ → ℕ → Manager × List Send
message_stop_com_uls m rank n =
    let table = add_others 0 rank n m.nb_uls_to_receive in
    (
      record m { nb_uls_to_receive = table; nb_worker_uls = m.nb_worker_uls + 1 },
      if m.nb_worker_uls + 1 == m.size_comm then send_table 0 table else [],
    )

pub message_stop_com_clauses : Manager → ℕ → ℕ → Manager × List Send
message_stop_com_clauses m rank n =
    let table = add_others 0 rank n m.nb_clauses_to_receive in
    (
      record m { nb_clauses_to_receive = table; nb_worker_clauses = m.nb_worker_clauses + 1 },
      if m.nb_worker_clauses + 1 == m.size_comm then send_table 0 table else [],
    )

-- What reaches the listener: the tag value, the sender, and the value that its handler receives.
pub data Event : Type 0 where
  solution : ℕ → ℕ → Event
  stop_com_uls : ℕ → ℕ → Event
  stop_com_clauses : ℕ → ℕ → Event
  job_finished : Event
  unknown : Event

pub handle : Manager → Event → Manager × List Send
handle m (solution rank result) = solution_found m rank result
handle m (stop_com_uls rank n) = message_stop_com_uls m rank n
handle m (stop_com_clauses rank n) = message_stop_com_clauses m rank n
handle m job_finished = (m, [])
handle m unknown = (m, [])

-- How the listener's loop ends; `waiting` is no end: the events are used up.
pub data Ending : Type 0 where
  returned exited waiting : Ending

-- `ConcurrentManager::listener`, over the events in the order in which MPI delivers them.
pub listener : Manager → List Event → Ending × Manager × List Send
listener m [] = (waiting, m, [])
listener m (job_finished ∷ es) = (returned, m, [])
listener m (unknown ∷ es) = (exited, m, [])
listener m (e ∷ es) =
    let (m', out) = handle m e in
    let (ending, last, rest) = listener m' es in (ending, last, out ++ rest)
