-- ===== src/Propagate/Sound.antt =====
-- Unit propagation is sound: what it assigns follows from the clauses and the literals assigned
-- before.
use dsyrup.Base.{
  ℕ, zero, suc, ◌≡◌, refl, subst, Bool, true, false, Option, none, some, List, [], ◌∷◌, arith, ◌==◌,
  Bool-cases, inl, inr, length, ltb, >>=-some, ◌>>=◌,
}
use dsyrup.Literal.{negate}
use dsyrup.Clause.Meaning.{holds, holds-negate}
use dsyrup.Trail.{is_true, Trail, value, or_zero, at_index}
use dsyrup.Propagate.{
  Watcher, Store, set_watches, Visit, kept, moved, conflict, visit, Result, keep, go_on, write_back,
  propagate_bin, propagate_long, propagate_queue,
}
use dsyrup.Propagate.Bin.{all_hold, propagate_bin-Agrees}
use dsyrup.Propagate.Long.{IsModel, are_live, is_fine, visit-IsModel}

some_inj : {A : Type 0} {a b : A} → some a ≡ some b → a ≡ b
some_inj e = cc

-- No clause was found to be false, and the assignment is a model as before.
abbrev Swept : (ℕ → Bool) → (ℕ → Bool) → Result → Type 0
Swept α live (confl, ws, b, t) = (confl ≡ none) × (are_live live ws ≡ true) × IsModel α live b t

keep-Swept :
    (α live : ℕ → Bool) (w : Watcher) (o : Option Result) (r : Result)
    → live w.cref ≡ true
    → ((r : Result) → o ≡ some r → Swept α live r)
    → (o >>= keep w) ≡ some r
    → Swept α live r
keep-Swept α live w o r h k e =
    let ((confl, ws, b, t), e1, e2) = >>=-some o (keep w) e in
    let (no_conflict, lives, model) = k (confl, ws, b, t) e1 in
    subst (Swept α live) (some_inj e2) (no_conflict, ground arith, model)

go_on-Swept :
    (α live : ℕ → Bool) (next : Store × Trail → Option Result) (ws : List Watcher) (r : Result)
    → ((b : Store) (t : Trail) (r : Result)
        → IsModel α live b t
        → next (b, t) ≡ some r
        → Swept α live r)
    → (v : Visit) (b : Store) (t : Trail) → is_fine live v ≡ true
    → IsModel α live b t
    → go_on next ws (v, b, t) ≡ some r
    → Swept α live r
go_on-Swept α live next ws r after (kept w) b t fine k e =
    keep-Swept α live w (next (b, t)) r fine (λ r e. after b t r k e) e
go_on-Swept α live next ws r after moved b t fine k e = after b t r k e
go_on-Swept α live next ws r after (conflict w) b t fine k e = cc

propagate_long-IsModel :
    (α live : ℕ → Bool) (p : ℕ) (ws : List Watcher) (b : Store) (t : Trail) (r : Result)
    → are_live live ws ≡ true
    → holds α (negate p) ≡ false
    → IsModel α live b t
    → propagate_long p ws (b, t) ≡ some r
    → Swept α live r
unfolding propagate_long
propagate_long-IsModel α live p [] b t r l n k e = subst (Swept α live) (some_inj e) (refl, refl, k)
propagate_long-IsModel α live p (w ∷ ws) b t r l n k e =
    let this : live w.cref ≡ true = ground arith in
    let others : are_live live ws ≡ true = ground arith in
    let after : (b : Store) (t : Trail) (r : Result)
        → IsModel α live b t
        → propagate_long p ws (b, t) ≡ some r
        → Swept α live r =
      λ b t r k e. propagate_long-IsModel α live p ws b t r others n k e in
    elim (Bool-cases (is_true (value t w.blocker))) [
      | inl blocked ↦
          keep-Swept α live w (propagate_long p ws (b, t)) r this (λ r e. after b t r k e)
            (rw blocked at e)
      | inr open_yet ↦
          let ((v, b', t'), e1, e2) =
            >>=-some (visit p w (b, t)) (go_on (propagate_long p ws) ws) (rw open_yet at e) in
          let (fine, k') = visit-IsModel α live p w b t (v, b', t') this n k e1 in
          go_on-Swept α live (propagate_long p ws) ws r after v b' t' fine k' e2
    ]

all_hold-at_index :
    (α : ℕ → Bool) (i : ℕ) (ls : List ℕ)
    → ltb i (length ls) ≡ true
    → all_hold α ls ≡ true
    → holds α (or_zero (at_index i ls)) ≡ true
all_hold-at_index α i [] h k = absurd (bounded h)
  where
    bounded : ltb i 0 ≡ true → ⊥
    bounded e = ground arith
all_hold-at_index α i (l ∷ ls) h k = elim (Bool-cases (length ls == i)) [
  | inl here ↦ rw here (ground arith)
  | inr lower ↦ rw lower (all_hold-at_index α i ls (ground arith) (ground arith))
]

set_watches-IsModel :
    (α live : ℕ → Bool) (b : Store) (t : Trail) (p : ℕ) (ws : List Watcher)
    → are_live live ws ≡ true
    → IsModel α live b t
    → IsModel α live (set_watches p ws b) t
set_watches-IsModel α live b t p ws h k = record {
  satisfied = k.satisfied;
  lives =
      λ q. elim (Bool-cases (p == q)) [ inl here ↦ rw here h | inr other ↦ rw other (k.lives q) ];
  agrees = k.agrees;
  pairs = k.pairs;
}

pub propagate_queue-IsModel :
    (α live : ℕ → Bool) (fuel : ℕ) (confl : Option ℕ) (b : Store) (t : Trail)
    (r : Option ℕ × Store × Trail)
    → confl ≡ none
    → IsModel α live b t
    → propagate_queue fuel confl (b, t) ≡ some r
    → (r.0 ≡ none) × IsModel α live r.1 r.2
unfolding propagate_queue value
propagate_queue-IsModel α live zero confl b t r c k e = cc
propagate_queue-IsModel α live (suc fuel) confl b t r c k e =
    elim (Bool-cases (ltb t.qhead (length t.trail))) [
      | inl more ↦
          let p = or_zero (at_index t.qhead t.trail) in
          let true_p : holds α p ≡ true = all_hold-at_index α t.qhead t.trail more k.agrees.1 in
          let bin = propagate_bin (b.watches_bin.occs p) (record t { qhead = suc t.qhead }) in
          let (fine, agrees) =
            propagate_bin-Agrees α p (b.watches_bin.occs p) (record t { qhead = suc t.qhead })
              true_p (k.pairs p) k.agrees in
          let false_p : holds α (negate p) ≡ false = ground (arith, holds-negate α p) in
          let k' : IsModel α live b bin.1 = record {
            satisfied = k.satisfied;
            lives = k.lives;
            agrees = agrees;
            pairs = k.pairs;
          } in
          let ((confl', ws, b', t'), e1, e2) =
            >>=-some (propagate_long p (b.watches.occs p) (b, bin.1))
              (write_back p (propagate_queue fuel)) (rw (more, fine) at e) in
          let (none_false, lives, k'') =
            propagate_long-IsModel α live p (b.watches.occs p) b bin.1 (confl', ws, b', t')
              (k.lives p) false_p k' e1 in
          propagate_queue-IsModel α live fuel confl' (set_watches p ws b') t' r none_false
            (set_watches-IsModel α live b' t' p ws lives k'') e2
      | inr done ↦
          let e' : some (confl, b, t) ≡ some r = rw done at e in
          subst (λ r. (r.0 ≡ none) × IsModel α live r.1 r.2) (some_inj e') (c, k)
    ]
