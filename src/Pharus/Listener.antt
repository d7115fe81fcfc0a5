-- ===== src/Pharus/Listener.antt =====
-- AmpharosManager::listener: the switch over the messages with tag TAG_MANAGER. The barriers of
-- AmpharosManager.cc are those of ConcurrentManager.cc, printing apart.
use dsyrup.Base.{ℕ, Bool, true, false, ◌&&◌, Option, none, some, List, [], ◌∷◌, ◌++◌, ◌==◌}
use dsyrup.Manager.{
  Manager, Send, init, solution_found, message_stop_com_uls, message_stop_com_clauses,
}
use dsyrup.Tree.{null}
use dsyrup.Pharus.Field.{Outcome, ok, blocked, exited, stale, astray, ◌>>=◌, Pharus}
use dsyrup.Pharus.Handlers.{
  Done, initialization, transmission_from_root, subproblem_unsat, subproblem_indeterminate,
}

-- What reaches the listener: the tag value, the sender, and what its handler receives next.
pub data Event : Type 0 where
  solution stop_com_uls stop_com_clauses : ℕ → ℕ → Event
  initialize from_root unsat indeterminate : ℕ → List ℕ → Event
  job_finished unknown : Event

-- The constructor, and `run` up to the listener; `malloc` and a loop fill the table with NULL.
unfoldable pub start : ℕ → ℕ → Pharus
start size_comm speed_extend = record {
  manager = init size_comm;
  field = record { tree = null; lost = null; nodes = λ c h. none };
  first_times = true;
  speed_extend = speed_extend;
  nb_total_promoted_clauses = 0;
  nb_total_get_promoted_clauses = 0;
}

-- The handlers that this class shares with its base class.
abbrev pub on_manager : Pharus → Manager × List Send → Outcome Done
on_manager s (m, out) = ok (record { state = record s { manager = m }; replies = []; sends = out })

unfoldable pub handle : Pharus → Event → Outcome Done
handle s (solution rank result) = on_manager s (solution_found s.manager rank result)
handle s (stop_com_uls rank n) = on_manager s (message_stop_com_uls s.manager rank n)
handle s (stop_com_clauses rank n) = on_manager s (message_stop_com_clauses s.manager rank n)
handle s (initialize rank msgs) = initialization s msgs
handle s (from_root rank msgs) = transmission_from_root s rank msgs
handle s (unsat rank msgs) = subproblem_unsat s rank msgs
handle s (indeterminate rank msgs) = subproblem_indeterminate s rank msgs
handle s job_finished = ok (record { state = s; replies = []; sends = [] })
handle s unknown = exited

-- Whether the loop returns after a message.
abbrev pub is_none : Option ℕ → Bool
is_none none = true
is_none (some r) = false

abbrev pub returns : Pharus → Event → Bool
returns s job_finished = true
returns s (stop_com_clauses rank n) =
    s.manager.nb_worker_clauses == s.manager.size_comm
    && is_none s.manager.rank_of_the_first_solution
returns s (solution rank result) = false
returns s (stop_com_uls rank n) = false
returns s (initialize rank msgs) = false
returns s (from_root rank msgs) = false
returns s (unsat rank msgs) = false
returns s (indeterminate rank msgs) = false
returns s unknown = false

-- What is sent before the rest of the loop, and whether there is one.
abbrev pub go_on : Bool → Done → Outcome (Pharus × List Send) → Outcome (Pharus × List Send)
go_on true d rest = ok (d.state, d.sends)
go_on false d (ok r) = ok (r.0, d.sends ++ r.1)
go_on false d blocked = blocked
go_on false d exited = exited
go_on false d stale = stale
go_on false d astray = astray

-- The loop, over the messages in the order in which MPI delivers them: the state in the end, and
-- what the workers were sent with tag TAG_MANAGER.
unfoldable pub listener : Pharus → List Event → Outcome (Pharus × List Send)
unfolding handle
listener s [] = ok (s, [])
listener s (e ∷ es) = handle s e >>= λ d. go_on (returns d.state e) d (listener d.state es)
