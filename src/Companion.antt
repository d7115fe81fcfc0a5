-- ===== src/Companion.antt =====
-- Solvers/SAT/GlucoseSyrup/syrup/parallel/SharedCompanion.{h,cc}: what the threads of a worker share,
-- the clauses apart: unit literals, and who has a solution. Each operation is one critical section,
-- so a run of the threads is a list of operations. A literal is its `toInt`; an access outside a
-- vector is `none`. The flags of the solvers stand in `end_search`, by thread, and `nbThreads` is
-- their number.
pub mod Advances
pub mod Units
pub mod Distinct
pub mod Winner
pub mod Election
mod Tests
use dsyrup.Base.{
  ℕ, zero, suc, ◌+◌, ◌/◌, ◌%◌, Bool, true, false, not, ◌||◌, Option, none, some, List, [], ◌∷◌,
  ◌++◌, if◌then◌else◌, ◌==◌, ltb, length, get_elem?, set, map, ◌>>=◌,
}
use dsyrup.Literal.{var, sign}

-- core/SolverTypes.h
pub data Lbool : Type 0 where
  l_true l_false l_undef : Lbool

abbrev pub is_undef : Lbool → Bool
is_undef l_true = false
is_undef l_false = false
is_undef l_undef = true

-- `sign(unary)?l_False:l_True`
abbrev pub value_of : ℕ → Lbool
value_of p = if sign p then l_false else l_true

-- MessageCoding.h
abbrev pub not_finished_state : ℕ
not_finished_state = 0

abbrev pub solution_found_state : ℕ
solution_found_state = 1

abbrev pub solution_found_by_another_state : ℕ
solution_found_by_another_state = 2

pub record Companion : Type 0 where
  pub is_unary : List Lbool
  pub unit_lit : List ℕ
  pub next_unit : List ℕ
  pub info_imported_ul_usefull : ℕ
  pub solution : Bool
  pub solver_solution : Option ℕ
  pub end_search : List ℕ

-- The constructor.
abbrev pub empty : Companion
empty = record {
  is_unary = [];
  unit_lit = [];
  next_unit = [];
  info_imported_ul_usefull = 0;
  solution = false;
  solver_solution = none;
  end_search = [];
}

-- `addSolver`, with the flag of a new solver
abbrev pub add_solver : Companion → Companion
add_solver c = record c {
  next_unit = c.next_unit ++ 0 ∷ [];
  end_search = c.end_search ++ not_finished_state ∷ [];
}

-- `newVar`
abbrev pub new_var : Companion → Companion
new_var c = record c { is_unary = c.is_unary ++ l_undef ∷ [] }

abbrev pub share : Companion → ℕ → Companion
share c p = record c {
  unit_lit = c.unit_lit ++ p ∷ [];
  is_unary = set c.is_unary (var p) (value_of p);
}

abbrev pub count_usefull : Companion → Companion
count_usefull c = record c { info_imported_ul_usefull = c.info_imported_ul_usefull + 1 }

-- `addLearntHightLevel(int ul)`: a literal from another worker
unfoldable pub add_learnt_hight_level : Companion → ℕ → Option Companion
add_learnt_hight_level c p = do
  known ← get_elem? c.is_unary (var p)
  some (if is_undef known then count_usefull (share c p) else c)

-- `addLearnt(s, unary)`: a literal of a thread, and what goes to `mpiCommunicator->sendUL`
unfoldable pub add_learnt : Companion → ℕ → Option (Companion × List ℕ)
add_learnt c p = do
  known ← get_elem? c.is_unary (var p)
  some (if is_undef known then (share c p, p ∷ []) else (c, []))

-- `getUnary`: `none` inside is lit_Undef.
unfoldable pub get_unary : Companion → ℕ → Option (Companion × Option ℕ)
get_unary c sn = do
  next ← get_elem? c.next_unit sn
  some (
      if ltb next (length c.unit_lit)
      then (record c { next_unit = set c.next_unit sn (next + 1) }, get_elem? c.unit_lit next)
      else (c, none))

-- for(i …) solvers[i]->setEndSearch(tmp)
abbrev pub set_all_end_search : Companion → ℕ → Companion
set_all_end_search c tmp = record c { end_search = map (λ flag. tmp) c.end_search }

abbrev pub set_end_search : Companion → ℕ → ℕ → Companion
set_end_search c sn tmp = record c { end_search = set c.end_search sn tmp }

-- `solutionFound`
unfoldable pub solution_found : Companion → ℕ → Companion × Bool
solution_found c sn = if c.solution then (c, false) else (
  set_end_search
      (set_all_end_search (record c { solution = true; solver_solution = some sn })
        solution_found_by_another_state)
      sn solution_found_state,
  true,
)

-- `setSolutionFound`
abbrev pub set_solution_found : Companion → Bool → Companion
set_solution_found c tmp = record c { solution = tmp }

abbrev pub is_final : ℕ → Bool
is_final flag = flag == solution_found_state || flag == solution_found_by_another_state

abbrev pub all_final : List ℕ → Bool
all_final [] = true
all_final (flag ∷ flags) = let rest = all_final flags in if is_final flag then rest else false

-- `getAllEndSearchIsFinished`
abbrev pub get_all_end_search_is_finished : Companion → Bool
get_all_end_search_is_finished c = all_final c.end_search

-- One critical section of some thread.
pub data Event : Type 0 where
  variable solver : Event
  from_network learnt read found : ℕ → Event
  set_solution : Bool → Event
  set_all : ℕ → Event

pub data Output : Type 0 where
  nothing : Output
  sent : List ℕ → Output
  got : ℕ → Option ℕ → Output
  first : Bool → Output

unfoldable pub step : Companion → Event → Option (Companion × Output)
unfolding add_learnt_hight_level add_learnt get_unary solution_found
step c variable = some (new_var c, nothing)
step c solver = some (add_solver c, nothing)
step c (from_network p) = do c' ← add_learnt_hight_level c p; some (c', nothing)
step c (learnt p) = do r ← add_learnt c p; some (r.0, sent r.1)
step c (read sn) = do r ← get_unary c sn; some (r.0, got sn r.1)
step c (found sn) = some ((solution_found c sn).0, first (solution_found c sn).1)
step c (set_solution tmp) = some (set_solution_found c tmp, nothing)
step c (set_all tmp) = some (set_all_end_search c tmp, nothing)

-- A run of the threads: the state in the end, and what each operation returned or sent.
unfoldable pub run : Companion → List Event → Option (Companion × List Output)
unfolding step
run c [] = some (c, [])
run c (e ∷ es) = do r ← step c e; rest ← run r.0 es; some (rest.0, r.1 ∷ rest.1)
