-- ===== src/Pharus/Keeps.antt =====
-- What AmpharosManager::pharusTransmission keeps: a well-formed tree, and every assignment that the
-- worker does not declare refuted.
use dsyrup.Base.{
  ℕ, ◌≡◌, refl, subst, Bool, true, false, List, [], ◌∷◌, ◌++◌, arith, if◌then◌else◌, ◌==◌,
  Bool-cases, inl, inr,
}
use dsyrup.Tree.{left, right, Position, get, is_null}
use dsyrup.Tree.History.{IsWellFormed}
use dsyrup.Tree.Restrict.{Restricts-trans}
use dsyrup.Pharus.Field.{
  transmission_children, transmission_delete_father, transmission_go_right, transmission_go_left,
  transmission_already_assigned, uls_unsat, Outcome, ok, blocked, exited, stale, astray, beyond,
  beyond-not_ok, ◌>>=◌, >>=-eq-ok, Reply, Field, prune_and_delete, is_end, send_node,
}
use dsyrup.Pharus.Transmission.{Sent, enter, transmission, no_subproblem, prepend}
use dsyrup.Pharus.Deleted.{Spares-refl, outside-Restricts, Spares, prune_and_delete-Spares}

-- The positions that the worker declares refuted by its messages, at `currentNode`.
unfoldable pub declared : Position → List ℕ → List Position
declared p [] = []
declared p (m ∷ []) = if m == transmission_delete_father then p ∷ [] else []
declared p (m ∷ b ∷ rest) =
    let stay = declared p (b ∷ rest) in
    let after_left = (left ∷ p) ∷ declared p rest in
    let after_right = (right ∷ p) ∷ declared p rest in
    let go_left = declared (left ∷ p) rest in
    let go_right = declared (right ∷ p) rest in
    if m == transmission_delete_father
    then p ∷ []
    else if m == transmission_children
    then stay
    else if m == transmission_already_assigned
    then if b == 0 then after_right else after_left
    else if m == transmission_go_left
    then if b == uls_unsat then (left ∷ p) ∷ [] else go_left
    else if m == transmission_go_right
    then if b == uls_unsat then (right ∷ p) ∷ [] else go_right
    else []

Spares-cons :
    (f g f' : Field) (q : Position) (qs : List Position)
    → Spares (q ∷ []) f g
    → Spares qs g f'
    → Spares (q ∷ qs) f f'
Spares-cons f g f' q qs a b = record {
  wellformed = b.wellformed;
  restricts = Restricts-trans f.tree g.tree f'.tree a.restricts b.restricts;
  spared = λ α c out.
      b.spared α (a.spared α c (out.0, tt))
        (outside-Restricts α qs f.tree g.tree a.restricts out.1);
}

-- The last step of a descent.
cut_here-Spares :
    (f : Field) (p : Position) (s : Sent)
    → IsWellFormed f.tree
    → (prune_and_delete f p >>= no_subproblem) ≡ ok s
    → Spares (p ∷ []) f s.field
cut_here-Spares f p s w e =
    let (g, one, rest) = >>=-eq-ok (prune_and_delete f p) no_subproblem e in
    let here : g ≡ s.field = ground arith in
    subst (Spares (p ∷ []) f) here (prune_and_delete-Spares f g p w one)

-- A cut followed by the rest of the descent.
cut_on-Spares :
    (f : Field) (q p : Position) (rest : List ℕ) (s : Sent)
    → IsWellFormed f.tree
    → ((g : Field)
        → IsWellFormed g.tree
        → transmission g p rest ≡ ok s
        → Spares (declared p rest) g s.field)
    → (prune_and_delete f q >>= λ g. transmission g p rest) ≡ ok s
    → Spares (q ∷ declared p rest) f s.field
cut_on-Spares f q p rest s w ih e =
    let (g, one, then_on) = >>=-eq-ok (prune_and_delete f q) (λ g. transmission g p rest) e in
    let a = prune_and_delete-Spares f g q w one in
    Spares-cons f g s.field q (declared p rest) a (ih g a.wellformed then_on)

-- The children are asked for, and the descent goes on.
stay-Spares :
    (f : Field) (gone : Bool) (p : Position) (rs : List Reply) (o : Outcome Sent)
    (qs : List Position) (s : Sent)
    → ((s' : Sent) → o ≡ ok s' → Spares qs f s'.field)
    → (if gone then beyond f p else prepend rs o) ≡ ok s
    → Spares qs f s.field
stay-Spares f true p rs o qs s ih e = absurd (beyond-not_ok f p s e)
stay-Spares f false p rs (ok s') qs s ih e =
    let same : s'.field ≡ s.field = ground arith in subst (Spares qs f) same (ih s' refl)
stay-Spares f false p rs blocked qs s ih e = cc
stay-Spares f false p rs exited qs s ih e = cc
stay-Spares f false p rs stale qs s ih e = cc
stay-Spares f false p rs astray qs s ih e = cc

enter-Spares :
    (f : Field) (q : Position) (b : ℕ) (further : Outcome Sent) (qs : List Position) (s : Sent)
    → IsWellFormed f.tree
    → (further ≡ ok s → Spares qs f s.field)
    → enter f q b further ≡ ok s
    → Spares (if b == uls_unsat then q ∷ [] else qs) f s.field
unfolding enter
enter-Spares f q b further qs s w ih e = elim (Bool-cases (b == uls_unsat)) [
  | inl cut ↦ rw cut (cut_here-Spares f q s w (rw cut at e))
  | inr on ↦ rw on (elim (Bool-cases (is_null (get f.tree q))) [
    | inl gone ↦ absurd (beyond-not_ok f q s (rw (on, gone) at e))
    | inr there ↦ elim (Bool-cases (is_end (get f.tree q))) [
      | inl last ↦
          let same : f ≡ s.field = ground arith in subst (Spares qs f) same (Spares-refl f qs w)
      | inr inner ↦ ih (ground arith)
    ]
  ])
]

-- A descent that runs to its end, whatever the worker sends, keeps the tree well-formed and covers
-- still each assignment that it did cover and that goes through no node which the worker declared
-- refuted. A descent that, after it has cut the root, goes on among the nodes that were cut off with it
-- counts as astray, and not as run to its end.
pub transmission-Spares :
    (f : Field) (p : Position) (msgs : List ℕ) (s : Sent)
    → IsWellFormed f.tree
    → transmission f p msgs ≡ ok s
    → Spares (declared p msgs) f s.field
unfolding transmission declared
transmission-Spares f p [] s w e = cc
transmission-Spares f p (m ∷ []) s w e = elim (Bool-cases (m == transmission_delete_father)) [
  | inl cut ↦ rw cut (cut_here-Spares f p s w (rw cut at e))
  | inr other ↦ ground arith
]
transmission-Spares f p (m ∷ b ∷ rest) s w e = elim (Bool-cases (m == transmission_delete_father)) [
  | inl t₁ ↦ rw t₁ (cut_here-Spares f p s w (rw t₁ at e))
  | inr t₁ ↦ elim (Bool-cases (m == transmission_children)) [
    | inl t₂ ↦
        rw (t₁, t₂)
          (stay-Spares f (is_null (get f.tree p)) p
            (send_node (get f.tree (left ∷ p)) ++ send_node (get f.tree (right ∷ p))) _ _ s
            (λ s' e'. transmission-Spares f p (b ∷ rest) s' w e') (rw (t₁, t₂) at e))
    | inr t₂ ↦ elim (Bool-cases (m == transmission_already_assigned)) [
      | inl t₃ ↦ elim (Bool-cases (b == 0)) [
        | inl t₄ ↦
            rw (t₁, t₂, t₃, t₄)
              (cut_on-Spares f (right ∷ p) p rest s w
                (λ g w' e'. transmission-Spares g p rest s w' e') (rw (t₁, t₂, t₃, t₄) at e))
        | inr t₄ ↦
            rw (t₁, t₂, t₃, t₄)
              (cut_on-Spares f (left ∷ p) p rest s w
                (λ g w' e'. transmission-Spares g p rest s w' e') (rw (t₁, t₂, t₃, t₄) at e))
      ]
      | inr t₃ ↦ elim (Bool-cases (m == transmission_go_left)) [
        | inl t₄ ↦
            rw (t₁, t₂, t₃, t₄)
              (enter-Spares f (left ∷ p) b _ _ s w (transmission-Spares f (left ∷ p) rest s w)
                (rw (t₁, t₂, t₃, t₄) at e))
        | inr t₄ ↦ elim (Bool-cases (m == transmission_go_right)) [
          | inl t₅ ↦
              rw (t₁, t₂, t₃, t₄, t₅)
                (enter-Spares f (right ∷ p) b _ _ s w (transmission-Spares f (right ∷ p) rest s w)
                  (rw (t₁, t₂, t₃, t₄, t₅) at e))
          | inr t₅ ↦ ground arith
        ]
      ]
    ]
  ]
]
