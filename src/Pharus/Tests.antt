-- ===== src/Pharus/Tests.antt =====
-- Runs of the handlers on a tree with variable 3 at the root and variable 5 below its left child.
use dsyrup.Base.{arith, ◌≡◌, Bool, true, ◌⊎◌, ℕ, refl, false, none, some, List, [], ◌∷◌}
use dsyrup.Manager.{init}
use dsyrup.Pharus.Listener.{
  Event, initialize, from_root, unsat, indeterminate, start, handle, listener,
}
use dsyrup.Pharus.Verdict.{Honest, listener-covered, listener-unsat}
use dsyrup.Manager.{Send, broadcast}
use dsyrup.Tree.Cover.{covered}
use dsyrup.Tree.{
  null, Tree, left, grow, extend_node, create_root, destroyed, minus, delete_node, pruning, extend,
  hire, add_worker, has_worker, erase_worker, fire, del_worker, is_unsat, get_workers_go_down,
}
use dsyrup.Tree.History.{IsWellFormed, create_root-IsWellFormed, extend_node-IsWellFormed}
use dsyrup.Tree.Alike.{Alike-IsWellFormed, add_worker-Alike}
use dsyrup.Pharus.Field.{
  uls_unsat, transmission_children, transmission_go_right, transmission_go_left,
  transmission_already_assigned, Outcome, ok, blocked, exited, stale, astray, Field, Pharus, assign,
  remove_worker, remove_workers, remove_all_workers_of_node, remove_and_delete, prune_and_delete,
  send_node,
}
use dsyrup.Pharus.Transmission.{Sent, enter, transmission}
use dsyrup.Pharus.Handlers.{
  initialization, check_unsat, tree_unsat, refuse, Done, leave_lost, leave_node, take_subproblem,
  transmit, transmission_from_root, split_node, extension, indeterminate_at,
  subproblem_indeterminate, climb, refuted_child, unsat_at, subproblem_unsat,
}
use dsyrup.Pharus.Deleted.{Spares}
use dsyrup.Pharus.Keeps.{declared, transmission-Spares}
use dsyrup.Pharus.Refute.{refuted_by, subproblem_unsat-Spares}
use dsyrup.Pharus.Split.{SameCover, subproblem_indeterminate-SameCover}
use dsyrup.Pharus.FromRoot.{declared_from_root, transmission_from_root-Spares}

abbrev get_ok {ℓ} : {A : Type ℓ} → A → Outcome A → A
get_ok default (ok a) = a
get_ok default blocked = default
get_ok default exited = default
get_ok default stale = default
get_ok default astray = default

abbrev three : Tree
three = extend_node 5 (left ∷ []) (create_root 3)

-- Thread 0 of computer 0 works on the left child of the left child.
abbrev busy : Field
busy = record {
  tree = add_worker (0, 0) (left ∷ left ∷ []) three;
  lost = null;
  nodes = assign (λ c h. none) 0 0 (some (left ∷ left ∷ []));
}

abbrev started : Pharus
started = record {
  manager = init 2;
  field = busy;
  first_times = false;
  speed_extend = 0;
  nb_total_promoted_clauses = 0;
  nb_total_get_promoted_clauses = 0;
}

abbrev nothing : Done
nothing = record { state = started; replies = []; sends = [] }

busy-IsWellFormed : IsWellFormed busy.tree
unfolding create_root extend_node grow
busy-IsWellFormed =
    Alike-IsWellFormed three busy.tree (add_worker-Alike (0, 0) (left ∷ left ∷ []) three) (
      extend_node-IsWellFormed 5 (left ∷ []) (create_root 3) (refl, refl, refl)
        (create_root-IsWellFormed 3))

-- A worker goes left, asks for the children, and has the right one already refuted.
abbrev descent : List ℕ
descent =
    transmission_children ∷ transmission_go_left ∷ 0 ∷ transmission_already_assigned ∷ 1
    ∷ transmission_go_right ∷ 0 ∷ []

abbrev sent : Sent
sent =
    get_ok (record { subproblem = none; field = busy; replies = [] }) (transmission busy [] descent)

transmission-Spares_example : Spares (declared [] descent) busy sent.field
unfolding create_root extend_node grow hire add_worker transmission enter prune_and_delete
    remove_and_delete remove_all_workers_of_node remove_workers remove_worker has_worker
    erase_worker fire del_worker delete_node destroyed minus pruning get_workers_go_down send_node
transmission-Spares_example = transmission-Spares busy [] descent sent busy-IsWellFormed refl

abbrev after_split : Done
after_split = get_ok nothing (subproblem_indeterminate started 0 (0 ∷ 12 ∷ 7 ∷ []))

subproblem_indeterminate-SameCover_example : SameCover busy after_split.state.field
unfolding create_root extend_node grow hire add_worker subproblem_indeterminate indeterminate_at
    extension split_node extend
subproblem_indeterminate-SameCover_example =
    subproblem_indeterminate-SameCover started 0 (0 ∷ 12 ∷ 7 ∷ []) after_split busy-IsWellFormed
      refl

-- The literal is the negation of variable 3: the left child of the root goes, and its worker too.
abbrev after_unsat : Done
after_unsat = get_ok nothing (subproblem_unsat started 0 (0 ∷ 7 ∷ []))

subproblem_unsat-Spares_example :
    Spares (refuted_by busy.tree 7 (some (left ∷ left ∷ []))) busy after_unsat.state.field
unfolding create_root extend_node grow hire add_worker subproblem_unsat unsat_at refuted_child climb
    prune_and_delete remove_and_delete remove_all_workers_of_node remove_workers remove_worker
    has_worker erase_worker fire del_worker delete_node destroyed minus pruning get_workers_go_down
subproblem_unsat-Spares_example =
    subproblem_unsat-Spares started 0 0 7 [] after_unsat busy-IsWellFormed refl

-- The worker comes back to the root and goes down to the right child.
abbrev asks_again : List ℕ
asks_again = 0 ∷ 0 ∷ transmission_children ∷ transmission_go_right ∷ 0 ∷ []

abbrev after_root : Done
after_root = get_ok nothing (transmission_from_root started 0 asks_again)

transmission_from_root-Spares_example :
    Spares (declared_from_root asks_again) busy after_root.state.field
unfolding init create_root extend_node grow hire add_worker transmission_from_root leave_node
    transmit take_subproblem transmission enter send_node has_worker erase_worker fire del_worker
    is_unsat
transmission_from_root-Spares_example =
    transmission_from_root-Spares started 0 asks_again after_root busy-IsWellFormed refl

-- The root was emptied while the entry of thread 0 of computer 0 was kept: it comes back, is stopped, and
-- the manager announces UNSAT.
abbrev emptied : Pharus
emptied = record started { field = record busy { tree = delete_node [] three; lost = three } }

comes_back :
    (get_ok nothing (transmission_from_root emptied 0 (0 ∷ 0 ∷ []))).state.manager.solution_ok
    ≡ true
unfolding init create_root extend_node grow transmission_from_root leave_node leave_lost refuse
    check_unsat tree_unsat delete_node is_unsat broadcast has_worker
comes_back = refl

-- Two workers split variable 3, refute both sides one after the other, and come back.
abbrev whole_run : List Event
whole_run =
    initialize 0 (3 ∷ [])
    ∷ from_root 0 (0 ∷ 0 ∷ transmission_children ∷ transmission_go_left ∷ 0 ∷ [])
    ∷ unsat 0 (0 ∷ 7 ∷ [])
    ∷ from_root 1 (0 ∷ 0 ∷ transmission_go_right ∷ uls_unsat ∷ [])
    ∷ from_root 0 (0 ∷ 0 ∷ [])
    ∷ []

abbrev IsContradiction : (ℕ → Bool) → Type 0
IsContradiction α = (α 3 ≡ true) × (α 3 ≡ false)

any-Honest : (s : Pharus) (es : List Event) → Honest IsContradiction s es
any-Honest s [] = tt
any-Honest s (e ∷ es) = ((λ α m. cc), λ d one. any-Honest d.state es)

abbrev in_the_end : Pharus × List Send
in_the_end = get_ok (start 2 1, []) (listener (start 2 1) whole_run)

listener-unsat_example : ¬ IsContradiction (λ v. true)
unfolding listener handle start init create_root extend_node grow hire add_worker initialization
    transmission_from_root leave_node transmit refuse check_unsat tree_unsat subproblem_unsat
    unsat_at refuted_child climb prune_and_delete remove_and_delete remove_all_workers_of_node
    remove_workers remove_worker has_worker erase_worker fire del_worker delete_node destroyed minus
    pruning get_workers_go_down take_subproblem transmission enter send_node is_unsat broadcast
listener-unsat_example =
    listener-unsat IsContradiction 2 1 whole_run in_the_end.0 in_the_end.1 (omega arith)
      (any-Honest (start 2 1) whole_run) refl refl refl (λ v. true)

-- A run in which the tree is split once more, for a formula that holds of everything.
abbrev half_run : List Event
half_run =
    initialize 0 (3 ∷ [])
    ∷ from_root 0 (0 ∷ 0 ∷ transmission_children ∷ transmission_go_left ∷ 0 ∷ [])
    ∷ indeterminate 0 (0 ∷ 12 ∷ 5 ∷ [])
    ∷ []

abbrev IsAnything : (ℕ → Bool) → Type 0
IsAnything α = Unit

half_run-Honest : Honest IsAnything (start 2 0) half_run
unfolding declared
half_run-Honest = ((λ α m. tt), λ d one. ((λ α m. tt), λ d' two. ((λ α m. tt), λ d'' three. tt)))

abbrev at_half : Pharus × List Send
at_half = get_ok (start 2 0, []) (listener (start 2 0) half_run)

listener-covered_example :
    (at_half.0.field.tree ≡ null)
    ⊎ (IsWellFormed at_half.0.field.tree
        × ((α : ℕ → Bool) → IsAnything α → covered α at_half.0.field.tree ≡ true))
unfolding listener handle start init create_root extend_node grow hire add_worker initialization
    transmission_from_root leave_node transmit take_subproblem transmission enter send_node
    subproblem_indeterminate indeterminate_at extension split_node extend is_unsat
listener-covered_example =
    listener-covered IsAnything 2 0 half_run at_half.0 at_half.1 (omega arith) half_run-Honest refl
