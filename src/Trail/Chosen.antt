-- ===== src/Trail/Chosen.antt =====
-- What Solver::pickBranchLit returns, and that it ends.
use dsyrup.Base.{
  ℕ, zero, suc, ◌/◌, ◌%◌, ◌^◌, ◌<◌, ◌≡◌, ◌⊎◌, refl, sym, ap, subst, Bool, true, false, not, ◌&&◌,
  ◌||◌, Option, none, some, arith, ◌==◌, ltb, Bool-cases, inl, inr,
}
use dsyrup.Literal.{mk_lit, sign, var}
use dsyrup.Literal.Laws.{mk_lit-var-sign}
use dsyrup.Trail.{is_undef, Trail, value, decision_level, Heap, Order, bump}
use dsyrup.Trail.Decide.{
  goes_on, next_var, random_var, Choice, lit_undef, lit_error, lit, lit_of, Descent, signs, lit_for,
  pick_branch_lit,
}
use dsyrup.Trail.Invariant.{is_undef-flip}
use dsyrup.Trail.Ordered.{IsHeap, IsOffered, IsOrdered}

-- The answer is right: a free decision variable, or none where every decision variable is assigned.
abbrev Answered : Trail → (ℕ → Bool) → Option ℕ → Type 0
Answered t decision none = (v : ℕ) → is_undef (t.assigns v) ≡ true → decision v ≡ false
Answered t decision (some v) = (is_undef (t.assigns v) ≡ true) × (decision v ≡ true)

some_inj : {A : Type 0} {a b : A} → some a ≡ some b → a ≡ b
some_inj e = cc

stopped :
    {H : Type 0} (t : Trail) (next : Option ℕ) (o : Order H)
    → goes_on t o next ≡ false
    → Answered t o.decision next
stopped t none o e = cc
stopped t (some v) o e = (ground arith, ground arith)

-- The variable at which the loop goes on is no free decision variable.
passed_over :
    {H : Type 0} (t : Trail) (next : Option ℕ) (o : Order H) (v : ℕ)
    → goes_on t o next ≡ true
    → is_undef (t.assigns v) ≡ true
    → o.decision v ≡ true
    → next ≡ some v
    → ⊥
passed_over t none o v on u d e = cc
passed_over t (some w) o v on u d e = let same : w ≡ v = some_inj e in both (rw same at on)
  where
    false_is : false ≡ true → ⊥
    false_is e = cc

    both : (not (is_undef (t.assigns v)) || not (o.decision v)) ≡ true → ⊥
    both h = false_is (rw (u, d) at h)

-- The same of the literal that is returned, where `signed` is whether a random descent asks for the
-- sign true: only then is the answer lit_Error, which does not mean that there is none.
abbrev pub IsAnswer : Trail → (ℕ → Bool) → Bool → Choice → Type 0
IsAnswer t decision signed lit_undef = (v : ℕ) → is_undef (t.assigns v) ≡ true → decision v ≡ false
IsAnswer t decision signed lit_error =
    (signed ≡ true) × ((v : ℕ) → is_undef (t.assigns v) ≡ true → decision v ≡ false)
IsAnswer t decision signed (lit p) = (is_undef (value t p) ≡ true) × (decision (var p) ≡ true)

lit_of-IsAnswer :
    (t : Trail) (decision : ℕ → Bool) (signed : Bool) (next : Option ℕ) (s : Bool)
    → (s ≡ true → signed ≡ true)
    → Answered t decision next
    → IsAnswer t decision signed (lit_of next s)
unfolding value
lit_of-IsAnswer t decision signed none true asks a = (asks refl, a)
lit_of-IsAnswer t decision signed none false asks a = a
lit_of-IsAnswer t decision signed (some v) s asks (u, d) =
    let (back, sign_back, code) = mk_lit-var-sign v s 0 in
    rw (back, is_undef-flip (t.assigns v) (sign (mk_lit v s))) (u, d)

chosen-IsAnswer :
    (t : Trail) (decision : ℕ → Bool) (v : ℕ) (s : Bool)
    → Answered t decision (some v)
    → IsAnswer t decision false (lit (mk_lit v s))
chosen-IsAnswer t decision v s a = lit_of-IsAnswer t decision s (some v) s (λ e. e) a

lit_for-IsAnswer :
    (descent : Descent) (level : ℕ) (t : Trail) (decision polarity : ℕ → Bool) (next : Option ℕ)
    → Answered t decision next
    → IsAnswer t decision (signs descent level) (lit_for descent level next polarity)
unfolding lit_for
lit_for-IsAnswer d level t decision polarity next a =
    let bit = d.random_descent_assignments / 2 ^ (level % 32) % 2 == 1 in
    elim (Bool-cases (
      d.randomize_on_restarts
      && not d.fixed_randomize_on_restarts
      && d.new_descent
      && (level % 2 == 0))) [
        | inl random ↦ rw random (lit_of-IsAnswer t decision bit next bit (λ e. e) a)
        | inr other ↦ elim (Bool-cases (d.fixed_randomize_on_restarts && ltb level 7)) [
          | inl fixed ↦ rw (other, fixed) (lit_of-IsAnswer t decision bit next bit (λ e. e) a)
          | inr plain ↦ rw (other, plain) (by_polarity next a)
        ]
      ]
  where
    by_polarity :
        (next : Option ℕ)
        → Answered t decision next
        → IsAnswer t decision false (elim next [
          | none ↦ lit_undef
          | some v ↦ lit (mk_lit v (elim d.rnd_pol [ none ↦ polarity v | some b ↦ b ]))
        ])
    by_polarity none a = a
    by_polarity (some v) a =
        chosen-IsAnswer t decision v (elim d.rnd_pol [ none ↦ polarity v | some b ↦ b ]) a

module _ {H : Type 0} (heap : Heap H) (is_heap : IsHeap heap) where
  -- The loop ends within one step more than the size of the heap.
  next_var-ends :
      (fuel : ℕ) (t : Trail) (next : Option ℕ) (o : Order H)
      → heap.size o.order_heap < fuel
      → (r : Option ℕ × Order H) × (next_var heap fuel t next o ≡ some r)
  unfolding next_var
  next_var-ends zero t next o h = absurd (omega arith)
  next_var-ends (suc fuel) t next o h = elim (Bool-cases (goes_on t o next)) [
    | inl on ↦ elim (Bool-cases (heap.size o.order_heap == 0)) [
      | inl empty ↦ ((none, o), rw (on, empty) refl)
      | inr more ↦
          let smaller = is_heap.size-remove_min o.order_heap more in
          let v = (heap.remove_min o.order_heap).0 in
          let o' : Order H = record o {
            order_heap = (heap.remove_min o.order_heap).1;
            useful_var = bump v o.useful_var;
            variables_dec = bump v o.variables_dec;
            current_dec = some v;
          } in
          let (r, e) = next_var-ends fuel t (some v) o' (omega arith) in (r, rw (on, more) e)
    ]
    | inr stop ↦ ((next, o), rw stop refl)
  ]

  nothing :
      (t : Trail) (next : Option ℕ) (o : Order H)
      → goes_on t o next ≡ true
      → IsOffered heap t next o
      → (heap.size o.order_heap == 0) ≡ true
      → (v : ℕ) → is_undef (t.assigns v) ≡ true
      → o.decision v ≡ false
  nothing t next o on k empty v u = elim (Bool-cases (o.decision v)) [
    | inl d ↦ elim (k v u d) [
      | inl inside ↦ let out = is_heap.empty o.order_heap v empty in cc
      | inr same ↦ absurd (passed_over t next o v on u d same)
    ]
    | inr d ↦ d
  ]

  offered :
      (t : Trail) (next : Option ℕ) (o : Order H)
      → goes_on t o next ≡ true
      → IsOffered heap t next o
      → (heap.size o.order_heap == 0) ≡ false
      → (y : ℕ) → is_undef (t.assigns y) ≡ true
      → o.decision y ≡ true
      → (heap.in_heap (heap.remove_min o.order_heap).1 y ≡ true)
        ⊎ (some (heap.remove_min o.order_heap).0 ≡ some y)
  offered t next o on k more y u d = elim (k y u d) [
    | inl inside ↦ elim (Bool-cases ((heap.remove_min o.order_heap).0 == y)) [
      | inl least ↦
          let same : (heap.remove_min o.order_heap).0 ≡ y = ground arith in inr (ap some same)
      | inr other ↦ inl (rw (is_heap.in_heap-remove_min y o.order_heap more, other, inside) refl)
    ]
    | inr same ↦ absurd (passed_over t next o y on u d same)
  ]

  -- What it returns: a free decision variable, or none where there is none.
  next_var-IsOffered :
      (fuel : ℕ) (t : Trail) (next : Option ℕ) (o : Order H) (r : Option ℕ × Order H)
      → IsOffered heap t next o
      → next_var heap fuel t next o ≡ some r
      → Answered t o.decision r.0
  unfolding next_var
  next_var-IsOffered zero t next o r k e = absurd (no_answer e)
    where
      no_answer : none ≡ some r → ⊥
      no_answer e = cc
  next_var-IsOffered (suc fuel) t next o r k e = elim (Bool-cases (goes_on t o next)) [
    | inl on ↦ elim (Bool-cases (heap.size o.order_heap == 0)) [
      | inl empty ↦
          let e' : some (none, o) ≡ some r = rw (on, empty) at e in
          let same : none ≡ r.0 = ap (λ s. s.0) (some_inj e') in
          rw (sym same) (λ v u. nothing t next o on k empty v u)
      | inr more ↦
          let v = (heap.remove_min o.order_heap).0 in
          let o' : Order H = record o {
            order_heap = (heap.remove_min o.order_heap).1;
            useful_var = bump v o.useful_var;
            variables_dec = bump v o.variables_dec;
            current_dec = some v;
          } in
          next_var-IsOffered fuel t (some v) o' r (λ y u d. offered t next o on k more y u d)
            (rw (on, more) at e)
    ]
    | inr stop ↦
        let e' : some (next, o) ≡ some r = rw stop at e in
        let same : next ≡ r.0 = ap (λ s. s.0) (some_inj e') in rw (sym same) (stopped t next o stop)
  ]

  random_var-IsOffered :
      (t : Trail) (draw : Option ℕ) (o : Order H)
      → IsOrdered heap t o
      → IsOffered heap t (random_var heap t draw o).0 (random_var heap t draw o).1
        × ((random_var heap t draw o).1.decision ≡ o.decision)
        × ((random_var heap t draw o).1.order_heap ≡ o.order_heap)
  random_var-IsOffered t none o k = ((λ v u d. inl (k v u d)), refl, refl)
  random_var-IsOffered t (some index) o k =
      let v = heap.element o.order_heap index in
      elim (Bool-cases (is_undef (t.assigns v) && o.decision v)) [
        | inl free ↦ rw free ((λ v u d. inl (k v u d)), refl, refl)
        | inr taken ↦ rw taken ((λ v u d. inl (k v u d)), refl, refl)
      ]

  -- With every free decision variable in the heap, the choice of a decision ends within one step more
  -- than the heap has elements, whatever is drawn. A literal that it returns is undefined and of a
  -- decision variable; it returns lit_Undef only if every decision variable is assigned, and lit_Error
  -- (which `search` takes for a decision) only if, moreover, a random descent asks for the sign true.
  pub pick_branch_lit-IsAnswer :
      (fuel : ℕ) (draw : Option ℕ) (d : Descent) (t : Trail) (o : Order H)
      → IsOrdered heap t o
      → heap.size o.order_heap < fuel
      → (r : Choice × Order H) × (pick_branch_lit heap fuel draw d t o ≡ some r)
        × IsAnswer t o.decision (signs d (decision_level t)) r.0
  unfolding pick_branch_lit
  pick_branch_lit-IsAnswer fuel draw d t o k h =
      let (first_pick, o') = random_var heap t draw o in
      let (offers, decisions, heaps) = random_var-IsOffered t draw o k in
      let (r, e) = next_var-ends fuel t first_pick o' (rw heaps h) in
      let answer : Answered t o.decision r.0 =
        subst (λ decision. Answered t decision r.0) decisions
          (next_var-IsOffered fuel t first_pick o' r offers e) in
      (
        (lit_for d (decision_level t) r.0 r.1.polarity, r.1),
        rw e refl,
        lit_for-IsAnswer d (decision_level t) t o.decision r.1.polarity r.0 answer,
      )
