-- ===== src/Pharus/Verdict.antt =====
-- AmpharosManager::listener as a whole: what a run of the manager of the divide-and-conquer mode
-- says of the formula.
use dsyrup.Base.{
  ℕ, ◌+◌, ◌^◌, ◌≤◌, ◌<◌, ◌≡◌, ◌⊎◌, inl, inr, refl, subst, Bool, true, false, none, List, [], ◌∷◌,
  arith, length,
}
use dsyrup.Manager.{Send, init}
use dsyrup.Tree.{null}
use dsyrup.Tree.Cover.{covered}
use dsyrup.Tree.History.{IsWellFormed}
use dsyrup.Pharus.Field.{Outcome, ok, blocked, exited, stale, astray, >>=-eq-ok, Pharus}
use dsyrup.Pharus.Handlers.{Done}
use dsyrup.Pharus.Listener.{Event, start, handle, returns, go_on, listener}
use dsyrup.Pharus.Judged.{Sound, null-Sound}
use dsyrup.Pharus.Steps.{Truthful, handle-Sound}

module _ (IsModel : (ℕ → Bool) → Type 0) where
  -- Every message tells the truth when it is handled.
  abbrev pub Honest : Pharus → List Event → Type 0
  Honest s [] = Unit
  Honest s (e ∷ es) = Truthful IsModel s e × ((d : Done) → handle s e ≡ ok d → Honest d.state es)

  go_on-ok :
      (b : Bool) (d : Done) (o : Outcome (Pharus × List Send)) (s : Pharus) (out : List Send)
      → go_on b d o ≡ ok (s, out)
      → (d.state ≡ s) ⊎ ((rest : List Send) × (o ≡ ok (s, rest)))
  go_on-ok true d o s out e = inl (ground arith)
  go_on-ok false d (ok r) s out e = inr (r.1, ground arith)
  go_on-ok false d blocked s out e = cc
  go_on-ok false d exited s out e = cc
  go_on-ok false d stale s out e = cc
  go_on-ok false d astray s out e = cc

  listener-Sound :
      (n : ℕ) (s : Pharus) (es : List Event) (s' : Pharus) (out : List Send)
      → n + length es + 2 < 2 ^ 32
      → Sound IsModel n s
      → Honest s es
      → listener s es ≡ ok (s', out)
      → (m : ℕ) × (m ≤ n + length es) × Sound IsModel m s'
  unfolding listener
  listener-Sound n s [] s' out b k h e =
      let same : s ≡ s' = ground arith in (n, omega arith, subst (Sound IsModel n) same k)
  listener-Sound n s (x ∷ es) s' out b k h e =
      let (d, one, rest) = >>=-eq-ok (handle s x) _ e in
      let k' = handle-Sound IsModel n s x d (omega arith) k h.0 one in
      elim (go_on-ok (returns d.state x) d (listener d.state es) s' out rest) [
        | inl same ↦ (n + 1, omega arith, subst (Sound IsModel (n + 1)) same k')
        | inr (more, then_on) ↦
            let (m, few, last) =
              listener-Sound (n + 1) d.state es s' more (omega arith) k' (h.1 d one) then_on in
            (m, omega arith, last)
      ]

  start-Sound : (workers speed : ℕ) → Sound IsModel 0 (start workers speed)
  unfolding start init
  start-Sound workers speed = null-Sound IsModel 0 (start workers speed) refl (λ said. cc)

  -- In the divide-and-conquer mode, every run of fewer than 2 ^ 32 - 2 messages, in whatever order
  -- the workers send them, that is handled to its end, without a use of a null or deleted node, and
  -- without going astray (using a node that was cut off with the root, other than to leave it or to
  -- say that it exists), leaves a well-formed tree in which each model of the formula is covered by an
  -- open subproblem, or no tree at all if no worker has initialised it; the workers are taken to
  -- declare a node refuted only if no model goes through it.
  pub listener-covered :
      (workers speed : ℕ) (es : List Event) (s : Pharus) (out : List Send)
      → length es + 2 < 2 ^ 32
      → Honest (start workers speed) es
      → listener (start workers speed) es ≡ ok (s, out)
      → (s.field.tree ≡ null)
        ⊎ (IsWellFormed s.field.tree × ((α : ℕ → Bool) → IsModel α → covered α s.field.tree ≡ true))
  listener-covered workers speed es s out b h e =
      let k =
        listener-Sound 0 (start workers speed) es s out (omega arith) (start-Sound workers speed) h
          e in
      elim k.2.tree [ inl gone ↦ inl gone | inr r ↦ inr (r.wellformed, r.covers) ]

  -- The UNSAT that the manager announces itself is right: if a run of fewer than 2 ^ 32 - 2 messages,
  -- in whatever order, is handled to its end (without a use of a null or deleted node, and without going
  -- astray: a worker whose node was cut off with the root may leave it, and be told that it exists, but
  -- the run uses such nodes for nothing else), ends with a solution that no worker has found, and the
  -- workers declared a node refuted only if no model of the formula goes through it, then the formula
  -- has no model.
  pub listener-unsat :
      (workers speed : ℕ) (es : List Event) (s : Pharus) (out : List Send)
      → length es + 2 < 2 ^ 32
      → Honest (start workers speed) es
      → listener (start workers speed) es ≡ ok (s, out)
      → s.manager.solution_ok ≡ true
      → s.manager.rank_of_the_first_solution ≡ none
      → (α : ℕ → Bool) → ¬ IsModel α
  listener-unsat workers speed es s out b h e =
      let k =
        listener-Sound 0 (start workers speed) es s out (omega arith) (start-Sound workers speed) h
          e in
      k.2.judged
