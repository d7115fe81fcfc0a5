-- ===== src/Trail/Ordered.antt =====
-- Solver::cancelUntil keeps every free decision variable in the heap.
use dsyrup.Base.{
  ℕ, suc, ◌-◌, ◌≡◌, ◌⊎◌, refl, true, false, not, ◌&&◌, ◌||◌, Option, some, List, [], ◌∷◌, arith,
  ◌==◌, ltb, leb, length, Bool-cases, inl, inr,
}
use dsyrup.Literal.{sign, var}
use dsyrup.Clause.{put}
use dsyrup.Trail.{
  l_undef, is_undef, Trail, decision_level, at_index, or_zero, Heap, Order, insert_var_order, undo,
  undo_from, cancel_until,
}
use dsyrup.Trail.Cancel.{limit}

-- What the solver relies on of a heap: an element inserted is in it, the least is taken out and
-- leaves the others, and an empty heap has no element.
pub record IsHeap {H : Type 0} (heap : Heap H) : Type 0 where
  pub in_heap-insert :
      (x y : ℕ) (h : H)
      → heap.in_heap h x ≡ false
      → heap.in_heap (heap.insert x h) y ≡ (x == y) || heap.in_heap h y
  pub in_heap-remove_min :
      (y : ℕ) (h : H)
      → (heap.size h == 0) ≡ false
      → heap.in_heap (heap.remove_min h).1 y ≡ not ((heap.remove_min h).0 == y) && heap.in_heap h y
  pub size-remove_min :
      (h : H) → (heap.size h == 0) ≡ false → suc (heap.size (heap.remove_min h).1) ≡ heap.size h
  pub empty : (h : H) (y : ℕ) → (heap.size h == 0) ≡ true → heap.in_heap h y ≡ false

-- Every decision variable that is not assigned is in the heap, or is the one just taken from it.
abbrev pub IsOffered : {H : Type 0} → Heap H → Trail → Option ℕ → Order H → Type 0
IsOffered heap t next o =
    (v : ℕ)
    → is_undef (t.assigns v) ≡ true
    → o.decision v ≡ true
    → (heap.in_heap o.order_heap v ≡ true) ⊎ (next ≡ some v)

-- The same where no variable is taken out.
abbrev pub IsOrdered : {H : Type 0} → Heap H → Trail → Order H → Type 0
IsOrdered heap t o =
    (v : ℕ)
    → is_undef (t.assigns v) ≡ true
    → o.decision v ≡ true
    → heap.in_heap o.order_heap v ≡ true

module _ {H : Type 0} (heap : Heap H) (is_heap : IsHeap heap) where
  in_heap-insert_var_order :
      (x y : ℕ) (o : Order H)
      → heap.in_heap (insert_var_order heap x o).order_heap y
        ≡ ((x == y) && o.decision x) || heap.in_heap o.order_heap y
  in_heap-insert_var_order x y o =
      elim (Bool-cases (not (heap.in_heap o.order_heap x) && o.decision x)) [
        | inl new ↦
            let now = is_heap.in_heap-insert x y o.order_heap (ground arith) in
            let dec : o.decision x ≡ true = ground arith in rw (new, dec) (ground arith)
        | inr known ↦ rw known (elim (Bool-cases (x == y)) [
          | inl same ↦
              let equal : x ≡ y = ground arith in
              let here : (not (heap.in_heap o.order_heap y) && o.decision y) ≡ false =
                rw equal at known in
              rw (same, equal) (ground arith)
          | inr other ↦ rw other refl
        ])
      ]

  decision-insert_var_order :
      (x : ℕ) (o : Order H) → (insert_var_order heap x o).decision ≡ o.decision
  decision-insert_var_order x o =
      elim (Bool-cases (not (heap.in_heap o.order_heap x) && o.decision x)) [
        | inl new ↦ rw new refl
        | inr known ↦ rw known refl
      ]

  undo-IsOrdered :
      (last c p : ℕ) (s : Trail × Order H)
      → IsOrdered heap s.0 s.1
      → IsOrdered heap (undo heap last c p s).0 (undo heap last c p s).1
  unfolding undo
  undo-IsOrdered last c p (t, o) k v u d =
      elim (Bool-cases (ltb 1 o.phase_saving || ((o.phase_saving == 1) && ltb last c))) [
        | inl saved ↦
            let o' : Order H = record o { polarity = put (var p) (sign p) o.polarity } in
            rw saved (kept o' (λ v a b. k v a b) u (rw saved at d))
        | inr plain ↦ rw plain (kept o k u (rw plain at d))
      ]
    where
      kept :
          (o : Order H)
          → IsOrdered heap t o
          → is_undef (put (var p) l_undef t.assigns v) ≡ true
          → (insert_var_order heap (var p) o).decision v ≡ true
          → heap.in_heap (insert_var_order heap (var p) o).order_heap v ≡ true
      kept o k u d =
          let dec : o.decision v ≡ true = rw (decision-insert_var_order (var p) o) at d in
          elim (Bool-cases (var p == v)) [
            | inl same ↦
                let equal : var p ≡ v = ground arith in
                rw (in_heap-insert_var_order (var p) v o, equal, dec) (ground arith)
            | inr other ↦
                let free : is_undef (t.assigns v) ≡ true = rw other at u in
                rw (in_heap-insert_var_order (var p) v o, k v free dec) (ground arith)
          ]

  undo_from-IsOrdered :
      (lim last : ℕ) (ps : List ℕ) (s : Trail × Order H)
      → IsOrdered heap s.0 s.1
      → IsOrdered heap (undo_from heap lim last ps s).0 (undo_from heap lim last ps s).1
  unfolding undo_from
  undo_from-IsOrdered lim last [] s k = k
  undo_from-IsOrdered lim last (p ∷ ps) s k = elim (Bool-cases (leb lim (length ps))) [
    | inl late ↦ rw late (
        undo_from-IsOrdered lim last ps (undo heap last (length ps) p s)
          (undo-IsOrdered last (length ps) p s k))
    | inr early ↦ rw early k
  ]

  -- Backtracking puts the variables that it frees back into the heap: if every free decision variable
  -- was in it, every free decision variable is in it afterwards.
  pub cancel_until-IsOrdered :
      (target : ℕ) (t : Trail) (o : Order H)
      → IsOrdered heap t o
      → IsOrdered heap (cancel_until heap target (t, o)).0 (cancel_until heap target (t, o)).1
  unfolding cancel_until
  cancel_until-IsOrdered target t o k = elim (Bool-cases (ltb target (decision_level t))) [
    | inl down ↦ rw down (λ v.
        undo_from-IsOrdered (limit target t.trail_lim)
          (or_zero (at_index (decision_level t - 1) t.trail_lim)) t.trail (t, o) k v)
    | inr stay ↦ rw stay k
  ]
