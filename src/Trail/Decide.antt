-- ===== src/Trail/Decide.antt =====
-- Solver::pickBranchLit of Solvers/SAT/GlucoseSyrup/syrup/core/Solver.cc: the choice of the next
-- decision. Random draws are parameters.
use dsyrup.Base.{
  ℕ, zero, suc, ◌/◌, ◌%◌, ◌^◌, Bool, true, not, ◌&&◌, ◌||◌, Option, none, some, if◌then◌else◌, ◌==◌,
  ltb, ◌>>=◌,
}
use dsyrup.Literal.{mk_lit}
use dsyrup.Trail.{Trail, is_undef, Heap, Order, bump, decision_level}

-- Whether the loop of `pickBranchLit` goes on.
abbrev pub goes_on : {H : Type 0} → Trail → Order H → Option ℕ → Bool
goes_on t o none = true
goes_on t o (some v) = not (is_undef (t.assigns v)) || not (o.decision v)

module _ {H : Type 0} (heap : Heap H) where
  -- The loop; `none` when the fuel is used up.
  unfoldable pub next_var : ℕ → Trail → Option ℕ → Order H → Option (Option ℕ × Order H)
  next_var zero t next o = none
  next_var (suc fuel) t next o =
      let (v, h) = heap.remove_min o.order_heap in
      let rest = next_var fuel t (some v) (record o {
        order_heap = h;
        useful_var = bump v o.useful_var;
        variables_dec = bump v o.variables_dec;
        current_dec = some v;
      }) in
      if goes_on t o next
      then (if heap.size o.order_heap == 0 then some (none, o) else rest)
      else some (next, o)

  -- The random pick before it; `draw` is the index drawn, if the heap is not empty and the other draw
  -- asks for one.
  abbrev pub random_var : Trail → Option ℕ → Order H → Option ℕ × Order H
  random_var t none o = (none, o)
  random_var t (some index) o =
      let v = heap.element o.order_heap index in
      (
        some v,
        if is_undef (t.assigns v) && o.decision v
            then record o { rnd_decisions = suc o.rnd_decisions }
            else o,
      )

-- The result: lit_Undef, lit_Error, or a literal.
pub data Choice : Type 0 where
  lit_undef : Choice
  lit_error : Choice
  lit : ℕ → Choice

-- `mkLit`, where var_Undef is -1
abbrev pub lit_of : Option ℕ → Bool → Choice
lit_of none s = if s then lit_error else lit_undef
lit_of (some v) s = lit (mk_lit v s)

-- The options `randomize_on_restarts` and `fixed_randomize_on_restarts`, and `newDescent`,
-- `randomDescentAssignments`, and the value of `rnd_pol` with the draw that it asks for.
pub record Descent : Type 0 where
  pub randomize_on_restarts : Bool
  pub fixed_randomize_on_restarts : Bool
  pub new_descent : Bool
  pub random_descent_assignments : ℕ
  pub rnd_pol : Option Bool

-- Whether a random descent gives the decision at `level` the sign true.
abbrev pub signs : Descent → ℕ → Bool
signs d level =
    ((d.randomize_on_restarts
        && not d.fixed_randomize_on_restarts
        && d.new_descent
        && (level % 2 == 0))
      || (d.fixed_randomize_on_restarts && ltb level 7))
    && (d.random_descent_assignments / 2 ^ (level % 32) % 2 == 1)

unfoldable pub lit_for : Descent → ℕ → Option ℕ → (ℕ → Bool) → Choice
lit_for d level next polarity =
    let random = lit_of next (d.random_descent_assignments / 2 ^ (level % 32) % 2 == 1) in
    if d.randomize_on_restarts
      && not d.fixed_randomize_on_restarts
      && d.new_descent
      && (level % 2 == 0)
    then random
    else if d.fixed_randomize_on_restarts && ltb level 7
    then random
    else elim next [
      | none ↦ lit_undef
      | some v ↦ lit (mk_lit v (elim d.rnd_pol [ none ↦ polarity v | some b ↦ b ]))
    ]

unfoldable pub pick_branch_lit :
    {H : Type 0} → Heap H → ℕ → Option ℕ → Descent → Trail → Order H → Option (Choice × Order H)
unfolding lit_for next_var
pick_branch_lit heap fuel draw d t o =
    let (first_pick, o') = random_var heap t draw o in
    next_var heap fuel t first_pick o' >>= λ (next, o'').
    some (lit_for d (decision_level t) next o''.polarity, o'')
