-- ===== src/Worker.antt =====
-- Solvers/SAT/GlucoseSyrup/syrup/com/ComMPI.cc: how a worker process learns the verdict of the
-- manager. A call takes the messages that the manager sends to the worker, in order, and blocks
-- when they are used up.
use dsyrup.Base.{Bool, true, false, List, [], ◌∷◌, if◌then◌else◌}
use dsyrup.Manager.{Msg, stop_and_kill, print_solution, solution_ind, answer}

pub data Outcome : Type 0 where
  -- MPI_Recv has nothing to receive
  blocked : Outcome
  -- the value of `solutionFound`: whether this worker displays the solution
  decided : Bool → Outcome
  -- `exit(9)`
  exited : Outcome

-- The second receive and the switch on it.
unfoldable pub await_answer : List Msg → Outcome
await_answer [] = blocked
await_answer (print_solution ∷ rest) = decided true
await_answer (solution_ind ∷ rest) = decided false
await_answer (stop_and_kill ∷ rest) = exited
await_answer (answer n ∷ rest) = exited

-- The first receive: `assert(msg = STOP_AND_KILL)` is an assignment, so any message passes.
unfoldable pub await_stop : List Msg → Outcome
unfolding await_answer
await_stop [] = blocked
await_stop (msg ∷ rest) = await_answer rest

-- `ComMPI::solutionFound` behind its two sends; the flag is `stopAndKillReceived`.
unfoldable pub solution_found : Bool → List Msg → Outcome
unfolding await_stop await_answer
solution_found stopped inbox = if stopped then await_answer inbox else await_stop inbox
