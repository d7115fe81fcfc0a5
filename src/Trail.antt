-- ===== src/Trail.antt =====
-- Solvers/SAT/GlucoseSyrup/syrup/core/Solver.{h,cc}: the trail of assigned literals, backtracking, and
-- the order of the decisions. An lbool is one of three values, since its == does not tell 2 from
-- 3; vectors indexed by variables are functions. The trail and its limits are lists with the last
-- pushed element first. `Heap` of mtl/Heap.h is a parameter.
pub mod Invariant
pub mod Cancel
pub mod Keeps
pub mod Decide
pub mod Ordered
pub mod Chosen
mod Tests
use dsyrup.Base.{
  ℕ, zero, suc, ◌+◌, ◌-◌, Bool, true, false, not, ◌&&◌, ◌||◌, Option, none, some, List, [], ◌∷◌,
  if◌then◌else◌, ◌==◌, ltb, leb, length,
}
use dsyrup.Literal.{mk_lit, sign, var}
use dsyrup.Clause.{put}

pub data Lbool : Type 0 where
  l_true : Lbool
  l_false : Lbool
  l_undef : Lbool

-- `lbool(bool)`, and `operator ^`
abbrev pub lift : Bool → Lbool
lift true = l_true
lift false = l_false

abbrev pub flip : Lbool → Bool → Lbool
flip l_true b = lift (not b)
flip l_false b = lift b
flip l_undef b = l_undef

abbrev pub is_true : Lbool → Bool
is_true l_true = true
is_true l_false = false
is_true l_undef = false

abbrev pub is_false : Lbool → Bool
is_false l_true = false
is_false l_false = true
is_false l_undef = false

abbrev pub is_undef : Lbool → Bool
is_undef l_true = false
is_undef l_false = false
is_undef l_undef = true

-- `assigns`, `vardata` (its reasons, where `CRef_Undef` is `none`, and its levels), `trail`,
-- `trail_lim` and `qhead`
pub record Trail : Type 0 where
  pub assigns : ℕ → Lbool
  pub reason : ℕ → Option ℕ
  pub level : ℕ → ℕ
  pub trail : List ℕ
  pub trail_lim : List ℕ
  pub qhead : ℕ

-- `value(Lit)`
unfoldable pub value : Trail → ℕ → Lbool
value t p = flip (t.assigns (var p)) (sign p)

abbrev pub decision_level : Trail → ℕ
decision_level t = length t.trail_lim

abbrev pub new_decision_level : Trail → Trail
new_decision_level t = record t { trail_lim = length t.trail ∷ t.trail_lim }

unfoldable pub unchecked_enqueue : ℕ → Option ℕ → Trail → Trail
unchecked_enqueue p from t = record t {
  assigns = put (var p) (lift (not (sign p))) t.assigns;
  reason = put (var p) from t.reason;
  level = put (var p) (decision_level t) t.level;
  trail = p ∷ t.trail;
}

unfoldable pub enqueue : ℕ → Option ℕ → Trail → Bool × Trail
unfolding unchecked_enqueue
enqueue p from t =
    if not (is_undef (value t p))
    then (not (is_false (value t p)), t)
    else (true, unchecked_enqueue p from t)

-- `operator[]`, and `shrink` to a size, on a vector with its last element first.
abbrev pub at_index : ℕ → List ℕ → Option ℕ
at_index i [] = none
at_index i (x ∷ xs) = if length xs == i then some x else at_index i xs

abbrev pub shrink_to : ℕ → List ℕ → List ℕ
shrink_to n [] = []
shrink_to n (x ∷ xs) = if leb n (length xs) then shrink_to n xs else x ∷ xs

abbrev pub or_zero : Option ℕ → ℕ
or_zero none = 0
or_zero (some n) = n

-- `Heap` of mtl/Heap.h, for its calls here.
pub record Heap (H : Type 0) : Type 0 where
  pub size : H → ℕ
  pub in_heap : H → ℕ → Bool
  pub insert : ℕ → H → H
  pub element : H → ℕ → ℕ
  pub remove_min : H → ℕ × H

-- `polarity`, `decision`, `order_heap`, `currentDec`, the option `phase_saving`, and the counters
-- `usefullVar`, `variablesDec` and `stats[dec_vars]`, `stats[rnd_decisions]`.
pub record Order (H : Type 0) : Type 0 where
  pub polarity : ℕ → Bool
  pub decision : ℕ → Bool
  pub order_heap : H
  pub current_dec : Option ℕ
  pub phase_saving : ℕ
  pub useful_var : ℕ → ℕ
  pub variables_dec : ℕ → ℕ
  pub dec_vars : ℕ
  pub rnd_decisions : ℕ

abbrev pub bump : ℕ → (ℕ → ℕ) → ℕ → ℕ
bump x f = put x (suc (f x)) f

module _ {H : Type 0} (heap : Heap H) where
  abbrev pub insert_var_order : ℕ → Order H → Order H
  insert_var_order x o =
      if not (heap.in_heap o.order_heap x) && o.decision x
      then record o { order_heap = heap.insert x o.order_heap }
      else o

  unfoldable pub set_decision_var : ℕ → Bool → Order H → Order H
  set_decision_var v b o = insert_var_order v (record o {
    dec_vars =
        if b && not (o.decision v)
        then suc o.dec_vars
        else if not b && o.decision v
        then o.dec_vars - 1
        else o.dec_vars;
    decision = put v b o.decision;
  })

  -- The body of the loop of `cancelUntil`, on literal `p` at index `c`, where `last` is
  -- `trail_lim.last()`.
  unfoldable pub undo : ℕ → ℕ → ℕ → Trail × Order H → Trail × Order H
  undo last c p (t, o) = (
    record t { assigns = put (var p) l_undef t.assigns },
    insert_var_order (var p) (
        if ltb 1 o.phase_saving || ((o.phase_saving == 1) && ltb last c)
        then record o { polarity = put (var p) (sign p) o.polarity }
        else o),
  )

  -- The loop, from the last literal down to index `lim`.
  unfoldable pub undo_from : ℕ → ℕ → List ℕ → Trail × Order H → Trail × Order H
  unfolding undo
  undo_from lim last [] s = s
  undo_from lim last (p ∷ ps) s =
      let rest = undo_from lim last ps (undo last (length ps) p s) in
      if leb lim (length ps) then rest else s

  -- A read past the end of the trail is `none` for `currentDec`.
  unfoldable pub cancel_until : ℕ → Trail × Order H → Trail × Order H
  unfolding undo_from
  cancel_until level (t, o) =
      let lim = or_zero (at_index level t.trail_lim) in
      let s =
        undo_from lim (or_zero (at_index (decision_level t - 1) t.trail_lim)) t.trail (t, o) in
      if ltb level (decision_level t)
      then (
        record s.0 {
          qhead = lim;
          trail = shrink_to lim s.0.trail;
          trail_lim = shrink_to level s.0.trail_lim;
        },
        record s.1 {
          current_dec =
              if level == 0
              then none
              else elim (at_index lim t.trail) [ none ↦ none | some p ↦ some (var p) ];
        },
      )
      else (t, o)

  -- `newVar`, for what stands in these two records, where `v` is `nVars()`
  unfoldable pub new_var : ℕ → Bool → Bool → Trail × Order H → Trail × Order H
  unfolding set_decision_var
  new_var v sign dvar (t, o) = (
    record t {
      assigns = put v l_undef t.assigns;
      reason = put v none t.reason;
      level = put v 0 t.level;
    },
    set_decision_var v dvar (record o {
      polarity = put v sign o.polarity;
      decision = put v false o.decision;
      useful_var = put v 0 o.useful_var;
      variables_dec = put v 0 o.variables_dec;
    }),
  )
