-- ===== src/Manager/Inbox.antt =====
-- What a worker receives of the messages that Manager.cc sends: the helper functions of
-- Manager::solutionFound, message by message.
use dsyrup.Base.{
  ℕ, zero, suc, ◌+◌, ◌≤◌, ◌<◌, ◌≡◌, refl, not, ◌&&◌, Option, none, some, List, [], ◌∷◌, ◌++◌, arith,
  if◌then◌else◌, ◌==◌, length,
}
use mathlib.Core.List.{append_assoc}
use dsyrup.Manager.{
  Manager, Send, Msg, stop_and_kill, print_solution, solution_ind, answer, Event, solution, is_rank,
  broadcast, free_solvers, add_others, send_table, first_solution, count_finished, solution_found,
  message_stop_com_uls, message_stop_com_clauses,
}

-- The reports on solutions among the events: sender and result (10, 20, or 0 for none).
abbrev pub solutions : List Event → List (ℕ × ℕ)
solutions [] = []
solutions (solution r v ∷ es) = (r, v) ∷ solutions es
solutions (_ ∷ es) = solutions es

-- The first worker that reports a solution.
abbrev pub first_winner : List (ℕ × ℕ) → Option ℕ
first_winner [] = none
first_winner ((r, v) ∷ rs) = if v == 0 then first_winner rs else some r

-- A message to worker `j` other than the answer of a barrier.
abbrev pub keep : ℕ → Send → List Msg
keep j (r, answer n) = []
keep j (r, stop_and_kill) = if r == j then stop_and_kill ∷ [] else []
keep j (r, print_solution) = if r == j then print_solution ∷ [] else []
keep j (r, solution_ind) = if r == j then solution_ind ∷ [] else []

-- What worker `j` receives of the sends, the answers of the barriers apart.
abbrev pub inbox : ℕ → List Send → List Msg
inbox j [] = []
inbox j (s ∷ out) = keep j s ++ inbox j out

pub inbox-append : (j : ℕ) (xs ys : List Send) → inbox j (xs ++ ys) ≡ inbox j xs ++ inbox j ys
inbox-append j [] ys = refl
inbox-append j (x ∷ xs) ys = simp (inbox-append j xs ys, append_assoc)

inbox-send_table : (j from : ℕ) (table : List ℕ) → inbox j (send_table from table) ≡ []
unfolding send_table
inbox-send_table j from [] = refl
inbox-send_table j from (x ∷ xs) = inbox-send_table j (suc from) xs

inbox-broadcast_before : (j n from : ℕ) → j < from → inbox j (broadcast n from stop_and_kill) ≡ []
unfolding broadcast
inbox-broadcast_before j zero from h = refl
inbox-broadcast_before j (suc n) from h = ground (arith, inbox-broadcast_before j n (suc from))

inbox-broadcast :
    (j n from : ℕ)
    → from ≤ j
    → j < from + n
    → inbox j (broadcast n from stop_and_kill) ≡ stop_and_kill ∷ []
unfolding broadcast
inbox-broadcast j zero from h k = absurd (omega arith)
inbox-broadcast j (suc n) from h k =
    ground (arith, inbox-broadcast j n (suc from), inbox-broadcast_before j n (suc from))

abbrev pub verdict : ℕ → Option ℕ → Msg
verdict j w = if is_rank j w then print_solution else solution_ind

inbox-free_solvers_before :
    (j n from : ℕ) (w : Option ℕ) → j < from → inbox j (free_solvers n from w) ≡ []
unfolding free_solvers
inbox-free_solvers_before j zero from w h = refl
inbox-free_solvers_before j (suc n) from w h =
    ground (arith, inbox-free_solvers_before j n (suc from) w)

inbox-free_solvers :
    (j n from : ℕ) (w : Option ℕ)
    → from ≤ j
    → j < from + n
    → inbox j (free_solvers n from w) ≡ verdict j w ∷ []
unfolding free_solvers
inbox-free_solvers j zero from w h k = absurd (omega arith)
inbox-free_solvers j (suc n) from w h k =
    ground (arith, inbox-free_solvers j n (suc from) w, inbox-free_solvers_before j n (suc from) w)

-- The verdict falls with the last report, when `need` of them were expected.
abbrev pub final : ℕ → Option ℕ → ℕ → List (ℕ × ℕ) → List Msg
final j w need [] = []
final j w need (s ∷ ss) = if length (s ∷ ss) == need then verdict j w ∷ [] else []

-- What worker `j` receives while no worker has won yet.
abbrev pub opening : ℕ → ℕ → List (ℕ × ℕ) → Option ℕ → List Msg
opening j need ss none = final j none need ss
opening j need ss (some r) = stop_and_kill ∷ final j (some r) need ss

pub inbox-solution_found :
    (j : ℕ) (m : Manager) (r v : ℕ)
    → j < m.size_comm
    → inbox j (solution_found m r v).1
      ≡ (if not m.solution_ok && not (v == 0) then stop_and_kill ∷ [] else [])
        ++ (if m.nb_worker_finished + 1 == m.size_comm
            then verdict j (solution_found m r v).0.rank_of_the_first_solution ∷ []
            else [])
unfolding solution_found
inbox-solution_found j m r v h = ground (
  arith,
  inbox-append j (first_solution m r v).1 (count_finished (first_solution m r v).0).1,
  inbox-broadcast j m.size_comm 0,
  inbox-free_solvers j m.size_comm 0 (first_solution m r v).0.rank_of_the_first_solution,
)

pub inbox-stop_com_uls :
    (j : ℕ) (m : Manager) (r n : ℕ) → inbox j (message_stop_com_uls m r n).1 ≡ []
unfolding message_stop_com_uls
inbox-stop_com_uls j m r n =
    ground (arith, inbox-send_table j 0 (add_others 0 r n m.nb_uls_to_receive))

pub inbox-stop_com_clauses :
    (j : ℕ) (m : Manager) (r n : ℕ) → inbox j (message_stop_com_clauses m r n).1 ≡ []
unfolding message_stop_com_clauses
inbox-stop_com_clauses j m r n =
    ground (arith, inbox-send_table j 0 (add_others 0 r n m.nb_clauses_to_receive))
