-- ===== src/Propagate/Bin.antt =====
-- What a trail says of an assignment of all variables, and the loop over the binary clauses.
use dsyrup.Base.{
  clash, ℕ, ◌≡◌, ◌∙◌, refl, sym, Bool, true, false, not, ◌&&◌, ◌||◌, Option, none, some, List, [],
  ◌∷◌, arith, ◌==◌, Bool-cases, inl, inr,
}
use dsyrup.Literal.{negate, sign, var}
use dsyrup.Literal.Laws.{negate-involutive}
use dsyrup.Clause.Meaning.{holds, holds-negate}
use dsyrup.Trail.{
  Lbool, l_true, l_false, l_undef, lift, flip, is_true, is_false, is_undef, Trail, value,
  unchecked_enqueue,
}
use dsyrup.Propagate.{Watcher, propagate_bin}

abbrev pub all_hold : (ℕ → Bool) → List ℕ → Bool
all_hold α [] = true
all_hold α (l ∷ ls) = holds α l && all_hold α ls

-- The assignment makes every literal true that is true, and those of the trail.
abbrev pub Agrees : (ℕ → Bool) → Trail → Type 0
Agrees α t = ((l : ℕ) → is_true (value t l) ≡ true → holds α l ≡ true) × (all_hold α t.trail ≡ true)

flip-not : (b : Lbool) (s : Bool) → is_true (flip b (not s)) ≡ is_false (flip b s)
flip-not l_true true = refl
flip-not l_true false = refl
flip-not l_false true = refl
flip-not l_false false = refl
flip-not l_undef s = refl

pub is_true-negate : (t : Trail) (l : ℕ) → is_true (value t (negate l)) ≡ is_false (value t l)
unfolding value
is_true-negate t l =
    let (same, other, back) = negate-involutive l in
    rw (same, other) (flip-not (t.assigns (var l)) (sign l))

pub Agrees-is_false :
    (α : ℕ → Bool) (t : Trail) (l : ℕ)
    → Agrees α t
    → is_false (value t l) ≡ true
    → holds α l ≡ false
Agrees-is_false α t l k h =
    let opposite : holds α (negate l) ≡ true = k.0 (negate l) (is_true-negate t l ∙ h) in
    ground (arith, holds-negate α l)

same_sign : (a b : Bool) → is_true (flip (lift (not a)) b) ≡ true → a ≡ b
same_sign true true e = refl
same_sign false false e = refl
same_sign true false e = cc
same_sign false true e = cc

same_literal : (x l : ℕ) → var x ≡ var l → sign x ≡ sign l → x ≡ l
same_literal x l v s = elim (Bool-cases (sign x)) [
  | inl odd ↦ let odd_l : sign l ≡ true = sym s ∙ odd in ground arith
  | inr even ↦ let even_l : sign l ≡ false = sym s ∙ even in ground arith
]

pub unchecked_enqueue-Agrees :
    (α : ℕ → Bool) (x : ℕ) (from : Option ℕ) (t : Trail)
    → holds α x ≡ true
    → Agrees α t
    → Agrees α (unchecked_enqueue x from t)
unfolding unchecked_enqueue value
unchecked_enqueue-Agrees α x from t h (k, on) = (
  λ l e. elim (Bool-cases (var x == var l)) [
    | inl here ↦
        let now : is_true (flip (lift (not (sign x))) (sign l)) ≡ true = rw here at e in
        let same = same_literal x l (ground arith) (same_sign (sign x) (sign l) now) in
        rw (sym same) h
    | inr other ↦ k l (rw other at e)
  ],
  rw h on,
)

-- The watchers stand for binary clauses that hold.
abbrev pub pairs_hold : (ℕ → Bool) → ℕ → List Watcher → Bool
pairs_hold α p [] = true
pairs_hold α p (w ∷ ws) = (holds α (negate p) || holds α w.blocker) && pairs_hold α p ws

pub propagate_bin-Agrees :
    (α : ℕ → Bool) (p : ℕ) (ws : List Watcher) (t : Trail)
    → holds α p ≡ true
    → pairs_hold α p ws ≡ true
    → Agrees α t
    → ((propagate_bin ws t).0 ≡ none) × Agrees α (propagate_bin ws t).1
unfolding propagate_bin
propagate_bin-Agrees α p [] t h e k = (refl, k)
propagate_bin-Agrees α p (w ∷ ws) t h e k =
    let implied : holds α w.blocker ≡ true = ground (arith, holds-negate α p) in
    let others : pairs_hold α p ws ≡ true = ground arith in
    elim (Bool-cases (is_false (value t w.blocker))) [
      | inl false_clause ↦
          let bad = Agrees-is_false α t w.blocker k false_clause in absurd (clash implied bad)
      | inr fine ↦ elim (Bool-cases (is_undef (value t w.blocker))) [
        | inl free ↦
            rw (fine, free)
              (propagate_bin-Agrees α p ws (unchecked_enqueue w.blocker (some w.cref) t) h others
                (unchecked_enqueue-Agrees α w.blocker (some w.cref) t implied k))
        | inr known ↦ rw (fine, known) (propagate_bin-Agrees α p ws t h others k)
      ]
    ]
