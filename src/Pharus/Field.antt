-- ===== src/Pharus/Field.antt =====
-- AmpharosManager.{h,cc}: the state, the ways a handler can end, and the removal of nodes
-- (pharusRemoveAllWorkersOfNode, with the deletion that follows each call of it).
use dsyrup.Base.{
  Bool-cases, inl, inr, ◌≡◌, refl, ℕ, Bool, true, false, ◌&&◌, Option, none, some, List, [], ◌∷◌,
  if◌then◌else◌, ◌==◌,
}
use dsyrup.Manager.{Manager}
use dsyrup.Tree.{
  Tree, null, node, Label, end_subproblem, branch, Position, get, is_null, delete_node, pruning,
  del_worker, get_workers_go_down,
}

-- MessageCoding.h
abbrev pub transmission_children : ℕ
transmission_children = 14

abbrev pub transmission_delete_father : ℕ
transmission_delete_father = 15

abbrev pub transmission_go_right : ℕ
transmission_go_right = 16

abbrev pub transmission_go_left : ℕ
transmission_go_left = 17

abbrev pub transmission_already_assigned : ℕ
transmission_already_assigned = 18

abbrev pub uls_unsat : ℕ
uls_unsat = 25

-- What the manager answers with tag TAG_PHARUS.
pub data Reply : Type 0 where
  stop : Reply
  label : Label → Reply
  unsat_subproblem : Reply
  number : ℕ → Reply
  subproblem_exist subproblem_exist_leaf subproblem_not_exist extend_yes extend_no : Reply

-- How a handler ends: `stale` is a read through a null pointer or of a deleted node; `astray` is the
-- use of a node that was cut off with the root. deleteNode on the root only unlinks such nodes, and the
-- code goes on to change them and, through `father`, the counts of the root; that is not followed.
pub data Outcome {ℓ} (A : Type ℓ) : Type ℓ where
  ok : A → Outcome A
  blocked exited stale astray : Outcome A

-- The first end that is not `ok` is the end of a chain of steps.
abbrev pub ◌>>=◌ {ℓ₁ ℓ₂} :
    {Now : Type ℓ₁} {Next : Type ℓ₂} → Outcome Now → (Now → Outcome Next) → Outcome Next
stale >>= step = stale
astray >>= step = astray
exited >>= step = exited
blocked >>= step = blocked
ok now >>= step = step now

infixl 5 ◌>>=◌
-- A chain that succeeds, taken apart.
pub >>=-eq-ok {ℓ₁ ℓ₂} :
    {Now : Type ℓ₁} {Next : Type ℓ₂} (o : Outcome Now) (step : Now → Outcome Next) {next : Next}
    → (o >>= step) ≡ ok next
    → (now : Now) × (o ≡ ok now) × (step now ≡ ok next)
>>=-eq-ok stale step e = cc
>>=-eq-ok astray step e = cc
>>=-eq-ok exited step e = cc
>>=-eq-ok blocked step e = cc
>>=-eq-ok (ok now) step e = (now, refl, e)

-- The tree, the tree of the nodes that were cut off with the root (null as long as there are none), and
-- `nodesAccordingToWorkers` by computer and thread.
pub record Field : Type 0 where
  pub tree : Tree
  pub lost : Tree
  pub nodes : ℕ → ℕ → Option Position

pub record Pharus : Type 0 where
  pub manager : Manager
  pub field : Field
  pub first_times : Bool
  pub speed_extend : ℕ
  pub nb_total_promoted_clauses : ℕ
  pub nb_total_get_promoted_clauses : ℕ

abbrev pub assign : (ℕ → ℕ → Option Position) → ℕ → ℕ → Option Position → ℕ → ℕ → Option Position
assign nodes c h v c' h' = if c == c' && h == h' then v else nodes c' h'

abbrev pub set_field : Pharus → Field → Pharus
set_field s f = record s { field = f }

-- What is not below the root any more was deleted, or cut off with it.
unfoldable pub beyond : {A : Type 0} → Field → Position → Outcome A
beyond f p = if is_null (get f.lost p) then stale else astray

pub beyond-not_ok : {A : Type 0} (f : Field) (p : Position) (a : A) → ¬ (beyond f p ≡ ok a)
unfolding beyond
beyond-not_ok f p a e = elim (Bool-cases (is_null (get f.lost p))) [
  | inl gone ↦ let bad : stale ≡ ok a = rw gone at e in cc
  | inr cut_off ↦ let bad : astray ≡ ok a = rw cut_off at e in cc
]

-- one round of the loop of `pharusRemoveAllWorkersOfNode`
unfoldable pub remove_worker : Field → ℕ → ℕ → Option Position → Outcome Field
remove_worker f c h none = exited
remove_worker f c h (some p) =
    if is_null (get f.tree p)
    then beyond f p
    else ok (record f { tree = del_worker (c, h) p f.tree; nodes = assign f.nodes c h none })

unfoldable pub remove_workers : Field → List (ℕ × ℕ) → Outcome Field
remove_workers f [] = ok f
remove_workers f ((c, h) ∷ ws) = do f' ← remove_worker f c h (f.nodes c h); remove_workers f' ws

-- `pharusRemoveAllWorkersOfNode`
unfoldable pub remove_all_workers_of_node : Field → Position → Outcome Field
remove_all_workers_of_node f p = remove_workers f (get_workers_go_down (get f.tree p))

-- What deleteNode on the root cuts off; it is emptied for good, so that a second time nothing is left to
-- cut.
abbrev pub cut_off : Field → Position → Tree
cut_off f [] = if is_null f.lost then f.tree else f.lost
cut_off f (d ∷ p) = f.lost

-- `pharusRemoveAllWorkersOfNode(n); n->deleteNode()`
unfoldable pub remove_and_delete : Field → Position → Outcome Field
remove_and_delete f p = do
  f' ← remove_all_workers_of_node f p
  ok (record f' { tree = delete_node p f'.tree; lost = cut_off f' p })

-- The same for `n = pharusPruning(node)`; `pharusPruning(NULL)` reads through the null pointer.
unfoldable pub prune_and_delete : Field → Position → Outcome Field
prune_and_delete f p =
    if is_null (get f.tree p) then beyond f p else remove_and_delete f (pruning f.tree p)

-- `MPI_Send_Worker_Node`
unfoldable pub send_node : Tree → List Reply
send_node null = unsat_subproblem ∷ []
send_node (node i l r) = label i.variable ∷ number i.nb_subproblems ∷ number i.nb_workers ∷ []

abbrev pub is_end : Tree → Bool
is_end null = false
is_end (node i l r) = elim i.variable [ end_subproblem ↦ true | branch v ↦ false ]
