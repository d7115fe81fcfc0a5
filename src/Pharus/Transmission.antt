-- ===== src/Pharus/Transmission.antt =====
-- AmpharosManager.cc: pharusTransmission, the descent of a worker from the root to a subproblem.
use dsyrup.Base.{ℕ, ◌||◌, Option, none, some, List, [], ◌∷◌, ◌++◌, if◌then◌else◌, ◌==◌}
use dsyrup.Tree.{left, right, Position, get, is_null}
use dsyrup.Pharus.Field.{
  transmission_children, transmission_delete_father, transmission_go_right, transmission_go_left,
  transmission_already_assigned, uls_unsat, Reply, Outcome, ok, blocked, exited, stale, astray,
  beyond, ◌>>=◌, Field, prune_and_delete, send_node, is_end,
}

-- What a transmission ends with: the subproblem, if there is one, the field and the answers.
pub record Sent : Type 0 where
  pub subproblem : Option Position
  pub field : Field
  pub replies : List Reply

abbrev pub prepend : List Reply → Outcome Sent → Outcome Sent
prepend rs (ok s) = ok (record s { replies = rs ++ s.replies })
prepend rs blocked = blocked
prepend rs exited = exited
prepend rs stale = stale
prepend rs astray = astray

abbrev pub no_subproblem : Field → Outcome Sent
no_subproblem f = ok (record { subproblem = none; field = f; replies = [] })

-- What going down to a child and the answer of the worker come to; `further` is the descent from it.
unfoldable pub enter : Field → Position → ℕ → Outcome Sent → Outcome Sent
enter f q answer further =
    if answer == uls_unsat
    then prune_and_delete f q >>= no_subproblem
    else if is_null (get f.tree q)
    then beyond f q
    else if is_end (get f.tree q)
    then ok (record { subproblem = some q; field = f; replies = [] })
    else further

-- `pharusTransmission`, over the messages of the worker; `p` is `currentNode`.
unfoldable pub transmission : Field → Position → List ℕ → Outcome Sent
transmission f p [] = blocked
transmission f p (m ∷ []) =
    if m == transmission_delete_father
    then prune_and_delete f p >>= no_subproblem
    else if m == transmission_children
        || (m == transmission_already_assigned
            || (m == transmission_go_left || m == transmission_go_right))
    then blocked
    else exited
transmission f p (m ∷ b ∷ rest) =
    let stay = transmission f p (b ∷ rest) in
    let cut_left = prune_and_delete f (left ∷ p) >>= λ f'. transmission f' p rest in
    let cut_right = prune_and_delete f (right ∷ p) >>= λ f'. transmission f' p rest in
    let go_left = transmission f (left ∷ p) rest in
    let go_right = transmission f (right ∷ p) rest in
    if m == transmission_delete_father
    then prune_and_delete f p >>= no_subproblem
    else if m == transmission_children
    then if is_null (get f.tree p)
      then beyond f p
      else prepend (send_node (get f.tree (left ∷ p)) ++ send_node (get f.tree (right ∷ p))) stay
    else if m == transmission_already_assigned
    then if b == 0 then cut_right else cut_left
    else if m == transmission_go_left
    then enter f (left ∷ p) b go_left
    else if m == transmission_go_right
    then enter f (right ∷ p) b go_right
    else exited
