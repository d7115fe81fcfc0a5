-- ===== src/Simp.antt =====
-- Solvers/SAT/GlucoseSyrup/syrup/simp/SimpSolver.cc: elimination of variables by resolution (`merge`,
-- the clauses that `eliminateVar` stores and produces, `substitute`) and the model of what was
-- eliminated (`extendModel`). A clause is the list of its literals; the vector `elimclauses` is a
-- list with the last pushed element first, and a model is a function on the variables.
pub mod Merge
pub mod Stored
pub mod Extended
pub mod Resolved
mod Tests
use dsyrup.Base.{
  ℕ, zero, suc, ◌+◌, ◌-◌, ◌*◌, Bool, true, false, not, ◌&&◌, ◌||◌, Option, none, some, List, [],
  ◌∷◌, ◌++◌, if◌then◌else◌, ◌==◌, ltb, leb, length, set, get_or, ◌>>=◌,
}
use dsyrup.Literal.{var, sign, negate, mk_lit, flip_if}
use dsyrup.Clause.{put}
use dsyrup.Clause.Meaning.{elem}
use dsyrup.Trail.{Lbool, l_true, l_false, l_undef, lift, flip, is_false}

-- What the inner loop of `merge` finds for a literal: nothing on its variable, the literal, or the
-- opposite one.
pub data Met : Type 0 where
  absent : Met
  present : Met
  opposite : Met

unfoldable pub meet : ℕ → List ℕ → Met
meet l [] = absent
meet l (p ∷ ps) =
    let rest = meet l ps in
    if var p == var l then (if p == negate l then opposite else present) else rest

abbrev pub put_first : ℕ → List ℕ → Option (List ℕ)
put_first l ls = some (l ∷ ls)

-- The first loop of `merge`, over the shorter clause, and before what the second one pushes.
unfoldable pub merge_into : ℕ → List ℕ → List ℕ → List ℕ → Option (List ℕ)
unfolding meet
merge_into v ps end [] = some end
merge_into v ps end (l ∷ qs) =
    let rest = merge_into v ps end qs in
    if var l == v
    then rest
    else elim (meet l ps) [ absent ↦ rest >>= put_first l | present ↦ rest | opposite ↦ none ]

-- The second loop: the literals of another variable.
unfoldable pub without : ℕ → List ℕ → List ℕ
without v [] = []
without v (l ∷ ls) = let rest = without v ls in if var l == v then rest else l ∷ rest

-- `merge` with `out_clause`; `none` stands for the result false.
unfoldable pub merge : List ℕ → List ℕ → ℕ → Option (List ℕ)
unfolding merge_into without
merge ps qs v =
    if ltb (length ps) (length qs)
    then merge_into v qs (without v qs) ps
    else merge_into v ps (without v ps) qs

abbrev pub one_more : ℕ → Option ℕ
one_more n = some (suc n)

unfoldable pub count_into : ℕ → List ℕ → ℕ → List ℕ → Option ℕ
unfolding meet
count_into v ps size [] = some size
count_into v ps size (l ∷ qs) = if var l == v then count_into v ps size qs else elim (meet l ps) [
  | absent ↦ count_into v ps (suc size) qs
  | present ↦ count_into v ps size qs
  | opposite ↦ none
]

-- `merge` with `size`
unfoldable pub merge_size : List ℕ → List ℕ → ℕ → Option ℕ
unfolding count_into
merge_size ps qs v =
    if ltb (length ps) (length qs)
    then count_into v qs (length qs - 1) ps
    else count_into v ps (length ps - 1) qs

-- The clauses that the cross product of `eliminateVar` adds, in order.
abbrev pub keep_resolvent : Option (List ℕ) → List (List ℕ) → List (List ℕ)
keep_resolvent none rs = rs
keep_resolvent (some r) rs = r ∷ rs

unfoldable pub resolve_with : ℕ → List ℕ → List (List ℕ) → List (List ℕ)
unfolding merge
resolve_with v p [] = []
resolve_with v p (q ∷ neg) = keep_resolvent (merge p q v) (resolve_with v p neg)

unfoldable pub resolvents : ℕ → List (List ℕ) → List (List ℕ) → List (List ℕ)
unfolding resolve_with
resolvents v [] neg = []
resolvents v (p ∷ pos) neg = resolve_with v p neg ++ resolvents v pos neg

-- Elements pushed on a vector in turn.
abbrev pub push_all : List ℕ → List ℕ → List ℕ
push_all [] es = es
push_all (l ∷ ls) es = push_all ls (l ∷ es)

-- `v_pos`: the last position of the variable.
unfoldable pub v_pos : ℕ → List ℕ → Option ℕ
v_pos v [] = none
v_pos v (l ∷ ls) = elim (v_pos v ls) [
  | some i ↦ some (suc i)
  | none ↦ if var l == v then some 0 else none
]

-- The first literal exchanged with the one at a position; a failed assertion changes nothing.
abbrev pub swap_first : Option ℕ → List ℕ → List ℕ
swap_first none ls = ls
swap_first (some i) [] = []
swap_first (some i) (l ∷ ls) = set (set (l ∷ ls) i l) 0 (get_or (l ∷ ls) i 0)

-- `mkElimClause` of a literal, and of a clause
abbrev pub mk_elim_unit : ℕ → List ℕ → List ℕ
mk_elim_unit x es = 1 ∷ x ∷ es

unfoldable pub mk_elim_clause : ℕ → List ℕ → List ℕ → List ℕ
unfolding v_pos
mk_elim_clause v c es = length c ∷ push_all (swap_first (v_pos v c) c) es

abbrev pub mk_elim_all : ℕ → List (List ℕ) → List ℕ → List ℕ
mk_elim_all v [] es = es
mk_elim_all v (c ∷ cs) es = mk_elim_all v cs (mk_elim_clause v c es)

-- The clauses that `eliminateVar` stores, where `pos` are those with the literal of `v`.
unfoldable pub store_eliminated : ℕ → List (List ℕ) → List (List ℕ) → List ℕ → List ℕ
unfolding mk_elim_clause
store_eliminated v pos neg es =
    if ltb (length neg) (length pos)
    then mk_elim_unit (mk_lit v false) (mk_elim_all v neg es)
    else mk_elim_unit (negate (mk_lit v false)) (mk_elim_all v pos es)

-- Where `extendModel` stands: so many elements to skip before the length of the next clause, or so
-- many literals to read, the first one of the clause included.
pub data Phase : Type 0 where
  skipping : ℕ → Phase
  checking : ℕ → Phase

-- `model[var(p)] ^ sign(p)`
abbrev pub model_value : (ℕ → Lbool) → ℕ → Lbool
model_value m p = flip (m (var p)) (sign p)

abbrev pub next_phase : (ℕ → Lbool) → ℕ → Phase → Phase
next_phase m e (skipping zero) = checking e
next_phase m e (skipping (suc n)) = skipping n
next_phase m e (checking j) =
    if ltb 1 j
    then (if is_false (model_value m e) then checking (j - 1) else skipping (j - 1))
    else skipping 0

abbrev pub next_model : ℕ → Phase → (ℕ → Lbool) → ℕ → Lbool
next_model e (skipping n) m = m
next_model e (checking j) m = if ltb 1 j then m else put (var e) (lift (not (sign e))) m

-- `extendModel`, from a place in its two loops. No stored clause is empty.
unfoldable pub extend_from : Phase → List ℕ → (ℕ → Lbool) → ℕ → Lbool
extend_from p [] m = m
extend_from p (e ∷ es) m = extend_from (next_phase m e p) es (next_model e p m)

unfoldable pub extend_model : List ℕ → (ℕ → Lbool) → ℕ → Lbool
unfolding extend_from
extend_model es m = extend_from (skipping 0) es m

-- The literals of `v` in a clause replaced by `x` or its negation.
unfoldable pub substitute_in : ℕ → ℕ → List ℕ → List ℕ
unfolding flip_if
substitute_in v x [] = []
substitute_in v x (p ∷ ps) = (if var p == v then flip_if x (sign p) else p) ∷ substitute_in v x ps
