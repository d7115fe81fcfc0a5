-- ===== src/Lib.antt =====
-- dSyrup is a distributed SAT solver. A manager process (Manager/) starts worker processes over MPI;
-- each worker runs several CDCL solvers (Solvers/SAT/GlucoseSyrup/syrup/). In the concurrent mode the
-- workers solve the whole formula and exchange clauses; the manager decides which of them displays
-- its solution, and holds two barriers at the end. In the divide-and-conquer mode (Ampharos) the
-- manager also holds a tree of subproblems: a worker goes down from the root to a leaf, works on it,
-- and reports it refuted or undecided; undecided leaves are split, refuted nodes are deleted, and an
-- empty tree means that the formula is unsatisfiable.
--
--   Manager.antt   Manager/Main/Manager.{h,cc} (constructor, launch, solutionFound) and
--                  Manager/ConcurrentManager/ConcurrentManager.cc (listener, messageStopComUls,
--                  messageStopComClauses). A handler takes the state and the values that it receives,
--                  and returns the new state and the messages that it sends; the listener runs over a
--                  list of events, in the order in which MPI delivers them, so that every
--                  interleaving of the workers is some list.
--   Worker.antt    Solvers/SAT/GlucoseSyrup/syrup/com/ComMPI.cc, solutionFound: the worker's side of
--                  the agreement, over the messages that the manager sends it.
--   Companion.antt Solvers/SAT/GlucoseSyrup/syrup/parallel/SharedCompanion.{h,cc}: the unit literals
--                  that the threads of a worker share, and which of them has a solution. Each
--                  operation is one critical section, and a run of the threads a list of operations.
--   Literal.antt   Solvers/SAT/GlucoseSyrup/syrup/core/SolverTypes.h: literals and lifted Booleans, with
--                  the tables by which they are combined.
--   Clause.antt    the same file: what the solver asks of clauses (calcAbstraction, subsumes,
--                  strengthen), and OccLists, the lists of occurrences with lazy deletion.
--   Trail.antt     Solvers/SAT/GlucoseSyrup/syrup/core/Solver.{h,cc}: the trail of assigned literals
--                  (uncheckedEnqueue, cancelUntil, newVar) and, in Trail/Decide, pickBranchLit.
--   Propagate.antt the same files: propagate, with two watched literals, for a solver in which
--                  useUnaryWatched is off. A failed assertion is none.
--   Attach.antt    the same files: addClause_, attachClause, detachClause, removeClause and the tests
--                  satisfied and locked. sort and remove of mtl are parameters.
--   Subsum.antt    Solvers/SAT/GlucoseSyrup/syrup/com/ComSubsum.{h,cc}: which clauses were sent, and
--                  whether one of them subsumes the next.
--   Final.antt     Solvers/SAT/GlucoseSyrup/syrup/core/Solver.cc, analyzeFinal: the decisions that led to
--                  an assignment.
--   Lbd.antt       Solvers/SAT/GlucoseSyrup/syrup/core/Solver.cc, computeLBD: the number of decision levels
--                  in a clause.
--   Simp.antt      Solvers/SAT/GlucoseSyrup/syrup/simp/SimpSolver.cc: resolution (merge), the clauses that
--                  eliminateVar stores and adds, and the model that extendModel makes of them.
--   Preprocess.antt  Solvers/SAT/GlucoseSyrup/syrup/simp/SimpSolver.{h,cc}, on the state of Attach.antt:
--                  adding, removing and strengthening clauses, implied and gatherTouchedClauses, and in
--                  its children backwardSubsumptionCheck, asymm, eliminateVar and substitute. Loops
--                  over lists that change run on fuel, and return nothing when it is used up.
--   Dimacs.antt    Solvers/SAT/GlucoseSyrup/syrup/core/Dimacs.h and utils/ParseUtils.h: the reader of
--                  problems. Its fuel is the length of the input and one, which is enough.
--   Analyze.antt   Solvers/SAT/GlucoseSyrup/syrup/core/Solver.cc, analyze: the clause learnt from a conflict
--                  and the level to go back to (Analyze/Whole). For which clauses the loop calls
--                  computeLBD is a parameter; the calls move MYFLAG and permDiff. litRedundant
--                  is in Analyze/Redundant, with two more than the literals of the trail as fuel, and
--                  minimisationWithBinaryResolution in Analyze/Binary, with the length of the clause.
--   Buffer.antt    Solvers/SAT/GlucoseSyrup/syrup/parallel/ClausesBuffer.{h,cc}: the ring in which threads
--                  share clauses. Its loops over clauses have the number of words as fuel.
--   Encoding.antt  Solvers/SAT/GlucoseSyrup/syrup/com/ComEncoding.h: unsigned ints in bytes of seven bits,
--                  five of which are enough for 32 bits.
--   Queue.antt     Solvers/SAT/GlucoseSyrup/syrup/core/BoundedQueue.h: the ring of the last LBDs or trail
--                  sizes, with their sum, on which the solver decides to restart.
--   Tree.antt      Manager/AmpharosManager/Tree.{h,cc}, and pharusPruning. A pointer to a node is the
--                  list of directions from the node up to the root; father is the tail of that list.
--                  An int counter is its pattern of 32 bits, with wrap-around.
--   Pharus.antt    Manager/AmpharosManager/AmpharosManager.{h,cc}: Pharus/Field (state and deletion),
--                  Pharus/Transmission (pharusTransmission), Pharus/Handlers (the four handlers) and
--                  Pharus/Listener (listener). A handler is a function of the list of numbers
--                  that its worker sends: it is blocked when the list ends too early, exited after
--                  exit(0), stale when the code reads through a null or a deleted node, and
--                  astray when it goes on to use a node that deleteNode on the root has cut off,
--                  which is not followed; leaving such a node and saying that it exists are.
--   Base.antt      the names that all files share.
--
-- Theorems on a component stand in the modules below it. Recursion is structural (over the list
-- of messages, of workers or of directions), except where an entry above names its fuel, in the loop
-- of pickBranchLit, where one step more than the heap has elements is enough, and in the outer loop of
-- propagate, where one step more than there are variables past the head of the queue is enough.
--
-- MPI itself is not modelled: a run is a list of received values, each with its sender, and messages
-- between two processes arrive in the order in which they are sent. Not modelled: creation of
-- processes and threads, timing, printing, statistics; the unit literals under assumption
-- of the divide-and-conquer mode, since pharusSendULs has an empty body and pharusReceiveULs is
-- never called; the rest of the solvers, the exchange of clauses, and the reading of options and of
-- the configuration.
pub mod Base
pub mod Manager
pub mod Worker
pub mod Companion
pub mod Queue
pub mod Literal
pub mod Tree
pub mod Pharus
pub mod Clause
pub mod Trail
pub mod Propagate
pub mod Attach
pub mod Subsum
pub mod Final
pub mod Lbd
pub mod Simp
pub mod Preprocess
pub mod Dimacs
pub mod Analyze
pub mod Buffer
pub mod Encoding
