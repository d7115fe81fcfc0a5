-- ===== src/Pharus/Handlers.antt =====
-- AmpharosManager.cc: the handlers of the messages PHARUS_INITIALIZATION,
-- PHARUS_TRANSMISSION_FROM_ROOT, PHARUS_SUBPROBLEM_INDETERMINATE and PHARUS_SUBPROBLEM_UNSAT.
use dsyrup.Base.{
  ◌^◌, ℕ, ◌+◌, ◌*◌, ◌/◌, ◌%◌, Bool, true, false, ◌||◌, Option, none, some, List, [], ◌∷◌, ◌++◌,
  if◌then◌else◌, ◌==◌,
}
use dsyrup.Manager.{Send, stop_and_kill, broadcast}
use dsyrup.Tree.{
  plus_one, Tree, null, node, end_subproblem, branch, left, right, Position, get, is_null,
  extend_node, create_root, extend, get_nb_subproblems, is_unsat, add_worker, del_worker,
  has_worker, workers_of,
}
use dsyrup.Pharus.Field.{
  uls_unsat, Reply, stop, label, unsat_subproblem, number, subproblem_exist, subproblem_exist_leaf,
  subproblem_not_exist, extend_yes, extend_no, Outcome, ok, blocked, stale, astray, beyond, ◌>>=◌,
  Field, Pharus, assign, set_field, remove_and_delete, prune_and_delete, is_end,
}
use dsyrup.Pharus.Transmission.{transmission}

-- What a handler returns: the state, the answers to its worker, and what goes to the workers with
-- tag TAG_MANAGER.
pub record Done : Type 0 where
  pub state : Pharus
  pub replies : List Reply
  pub sends : List Send

-- `treeUNSAT`
unfoldable pub tree_unsat : Pharus → Pharus × List Send
tree_unsat s = if s.manager.solution_ok then (s, []) else (
  record s {
    manager = record (s.manager) { solution_ok = true; rank_of_the_first_solution = none };
  },
  broadcast s.manager.size_comm 0 stop_and_kill,
)

-- `if(tree->isUnsat())treeUNSAT();`
unfoldable pub check_unsat : Pharus → Pharus × List Send
unfolding tree_unsat
check_unsat s = if is_unsat s.field.tree then tree_unsat s else (s, [])

-- `pharusInitialization`: the variable of the first worker becomes the root, and is sent back.
unfoldable pub initialization : Pharus → List ℕ → Outcome Done
initialization s [] = blocked
initialization s (v ∷ rest) = ok (record {
  state =
      if s.first_times
      then record s { field = record (s.field) { tree = create_root v }; first_times = false }
      else s;
  replies = label (branch v) ∷ [];
  sends = [];
})

-- `delWorker` on a node that was cut off with the root: nothing happens if the worker is not there.
unfoldable pub leave_lost : Field → ℕ → ℕ → Position → Outcome Field
leave_lost f c h p =
    if is_null (get f.lost p)
    then stale
    else if has_worker (c, h) (workers_of (get f.lost p))
    then astray
    else ok f

-- `if(nodesAccordingToWorkers[…][…] != NULL) ….delWorker(…)`: the entry itself is kept.
unfoldable pub leave_node : Field → ℕ → ℕ → Option Position → Outcome Field
unfolding leave_lost
leave_node f c h none = ok f
leave_node f c h (some p) =
    if is_null (get f.tree p)
    then leave_lost f c h p
    else ok (record f { tree = del_worker (c, h) p f.tree })

abbrev pub root_label : Tree → Reply
root_label null = unsat_subproblem
root_label (node i l r) = label i.variable

-- the worker `(c, h)` is given the subproblem at the end of the transmission
unfoldable pub take_subproblem : Field → ℕ → ℕ → Option Position → Field
take_subproblem f c h none = f
take_subproblem f c h (some p) = record f {
  tree = add_worker (c, h) p f.tree;
  nodes = assign f.nodes c h (some p);
}

-- The branch of `pharusTransmissionFromRoot` that sends the root.
unfoldable pub transmit : Pharus → Field → ℕ → ℕ → List ℕ → Outcome Done
unfolding check_unsat take_subproblem
transmit s f c h [] = blocked
transmit s f c h (answer ∷ rest) =
    let head = root_label f.tree ∷ number (get_nb_subproblems f.tree) ∷ [] in
    if answer == uls_unsat
    then (do
      f' ← remove_and_delete f []
      ok (record {
        state = (check_unsat (set_field s f')).0;
        replies = head;
        sends = (check_unsat (set_field s f')).1;
      }))
    else do
      t ← transmission f [] rest
      ok (record {
        state = set_field s (take_subproblem t.field c h t.subproblem);
        replies = head ++ t.replies;
        sends = [];
      })

-- Its branch that stops the worker.
unfoldable pub refuse : Pharus → Field → List ℕ → Outcome Done
unfolding check_unsat
refuse s f [] = blocked
refuse s f (answer ∷ rest) = ok (record {
  state = (check_unsat (set_field s f)).0;
  replies = stop ∷ number (get_nb_subproblems f.tree) ∷ [];
  sends = (check_unsat (set_field s f)).1;
})

-- `pharusTransmissionFromRoot`: before `createRoot`, `isUnsat` reads through the null root.
unfoldable pub transmission_from_root : Pharus → ℕ → List ℕ → Outcome Done
unfolding leave_node transmit refuse
transmission_from_root s c [] = blocked
transmission_from_root s c (h ∷ rest) = do
  f ← leave_node s.field c h (s.field.nodes c h)
  (if is_null f.tree
      then stale
      else if s.manager.solution_ok || is_unsat f.tree
      then refuse s f rest
      else transmit s f c h rest)

-- the node is split on the variable that the worker sends
unfoldable pub split_node : Pharus → Position → Tree → List ℕ → Outcome Done
split_node s p t [] = blocked
split_node s p t (v ∷ rest) = ok (record {
  state = set_field s (record (s.field) { tree = extend_node v p t });
  replies = subproblem_exist_leaf ∷ extend_yes ∷ [];
  sends = [];
})

-- `pharusSubproblemINDETERMINATE` at a leaf
unfoldable pub extension : Pharus → Position → List ℕ → Outcome Done
unfolding split_node
extension s p rest =
    let max = (get_nb_subproblems s.field.tree * s.speed_extend) % 2 ^ 32 in
    let (wanted, t) = extend max p s.field.tree in
    if wanted
    then split_node s p t rest
    else ok (record {
      state = set_field s (record (s.field) { tree = t });
      replies = subproblem_exist_leaf ∷ extend_no ∷ [];
      sends = [];
    })

-- An inner node that was cut off with the root still exists.
unfoldable pub indeterminate_lost : Pharus → Position → Outcome Done
indeterminate_lost s p =
    if is_null (get s.field.lost p)
    then stale
    else if is_end (get s.field.lost p)
    then astray
    else ok (record { state = s; replies = subproblem_exist ∷ []; sends = [] })

unfoldable pub indeterminate_at : Pharus → Option Position → List ℕ → Outcome Done
unfolding extension indeterminate_lost
indeterminate_at s none rest =
    ok (record { state = s; replies = subproblem_not_exist ∷ []; sends = [] })
indeterminate_at s (some p) rest =
    if is_null (get s.field.tree p)
    then indeterminate_lost s p
    else if is_end (get s.field.tree p)
    then extension s p rest
    else ok (record { state = s; replies = subproblem_exist ∷ []; sends = [] })

-- `pharusSubproblemINDETERMINATE`
unfoldable pub subproblem_indeterminate : Pharus → ℕ → List ℕ → Outcome Done
unfolding indeterminate_at
subproblem_indeterminate s c [] = blocked
subproblem_indeterminate s c (h ∷ []) = blocked
subproblem_indeterminate s c (h ∷ promoted ∷ rest) =
    indeterminate_at
      (record s {
        nb_total_promoted_clauses = (s.nb_total_promoted_clauses + promoted) % 2 ^ 32;
        nb_total_get_promoted_clauses = plus_one s.nb_total_get_promoted_clauses;
      })
      (s.field.nodes c h) rest

abbrev pub has_variable : ℕ → Tree → Bool
has_variable v null = false
has_variable v (node i l r) = elim i.variable [ end_subproblem ↦ false | branch w ↦ w == v ]

-- `while(nodeToCut->variable != assertifVariable && nodeToCut->father)nodeToCut=nodeToCut->father;`
unfoldable pub climb : Tree → ℕ → Position → Position
climb t v [] = []
climb t v (d ∷ p) =
    let above = climb t v p in if has_variable v (get t (d ∷ p)) then d ∷ p else above

-- The child that the asserted literal refutes: `assertifSign ? leftChild : rightChild`.
unfoldable pub refuted_child : Tree → ℕ → Position → Position
unfolding climb
refuted_child t literal p = (if literal % 2 == 1 then left else right) ∷ climb t (literal / 2) p

unfoldable pub unsat_at : Pharus → ℕ → Option Position → Outcome Done
unfolding refuted_child
unsat_at s literal none = ok (record { state = s; replies = []; sends = [] })
unsat_at s literal (some p) = if is_null (get s.field.tree p) then beyond s.field p else do
  f ← prune_and_delete s.field (refuted_child s.field.tree literal p)
  ok (record { state = set_field s f; replies = []; sends = [] })

-- `pharusSubproblemUNSAT`, with `pharusGetNodeToCut`
unfoldable pub subproblem_unsat : Pharus → ℕ → List ℕ → Outcome Done
unfolding unsat_at
subproblem_unsat s c [] = blocked
subproblem_unsat s c (h ∷ []) = blocked
subproblem_unsat s c (h ∷ literal ∷ rest) = unsat_at s literal (s.field.nodes c h)
