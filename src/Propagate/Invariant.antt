-- ===== src/Propagate/Invariant.antt =====
-- The well-formed lists of watchers, and what the search for a new watch does to a clause.
use dsyrup.Base.{
  ℕ, ◌≡◌, refl, subst, Bool, true, false, not, ◌&&◌, ◌||◌, some, List, [], ◌∷◌, arith, ◌==◌, ltb,
  length, Bool-cases, inl, inr, >>=-some,
}
use dsyrup.Literal.{negate, var}
use dsyrup.Clause.Meaning.{elem}
use dsyrup.Trail.{is_false, Trail, value}
use dsyrup.Propagate.{Watcher, Store, to_second, put_before, find_watch}

-- A clause stands in a list of watchers.
abbrev pub has : ℕ → List Watcher → Bool
has cr [] = false
has cr (w ∷ ws) = (w.cref == cr) || has cr ws

abbrev pub is_single : List Watcher → Bool
is_single [] = true
is_single (w ∷ ws) = not (has w.cref ws) && is_single ws

abbrev pub no_repeat : List ℕ → Bool
no_repeat [] = true
no_repeat (l ∷ ls) = not (elem l ls) && no_repeat ls

-- The variables are among the first `n`.
abbrev pub in_range : ℕ → List ℕ → Bool
in_range n [] = true
in_range n (l ∷ ls) = ltb (var l) n && in_range n ls

-- The literal is one of the first two.
abbrev pub is_front : ℕ → List ℕ → Bool
is_front f [] = false
is_front f (x ∷ []) = false
is_front f (x ∷ y ∷ ls) = (x == f) || (y == f)

-- A clause of three literals or more, none of them twice, over the first `n` variables.
abbrev pub is_proper : ℕ → List ℕ → Bool
is_proper n ls = ltb 2 (length ls) && no_repeat ls && in_range n ls

-- Such a clause that is rightly in the list of those that watch `q`.
abbrev pub is_good : ℕ → ℕ → List ℕ → Bool
is_good n q ls = is_front (negate q) ls && is_proper n ls

-- A watcher of a binary clause has its other literal.
abbrev pub blockers : List Watcher → List ℕ
blockers [] = []
blockers (w ∷ ws) = w.blocker ∷ blockers ws

-- Each clause in the list of `q` watches `q` with one of its first two literals, has no literal twice,
-- and is not watched by one literal only; no list has a clause twice; variables are below `n`.
pub record IsStore (n : ℕ) (b : Store) : Type 0 where
  pub good : (q cr : ℕ) → has cr (b.watches.occs q) ≡ true → is_good n q (b.ca cr) ≡ true
  pub two : (q cr : ℕ) → has cr (b.watches.occs q) ≡ true → b.one_watched cr ≡ false
  pub single : (q : ℕ) → is_single (b.watches.occs q) ≡ true
  pub binary : (q : ℕ) → in_range n (blockers (b.watches_bin.occs q)) ≡ true

pub is_good-to_second : (n q f : ℕ) (ls : List ℕ) → is_good n q (to_second f ls) ≡ is_good n q ls
is_good-to_second n q f [] = refl
is_good-to_second n q f (x ∷ []) = refl
is_good-to_second n q f (x ∷ y ∷ ls) = elim (Bool-cases (x == f)) [
  | inl here ↦ rw here (ground arith)
  | inr other ↦ rw other refl
]

abbrev pub Exchanged : Trail → ℕ → List ℕ → ℕ × List ℕ → Type 0
Exchanged t f ls (l, ls') =
    (elem l ls ≡ true)
    × (is_false (value t l) ≡ false)
    × (no_repeat ls' ≡ true)
    × (length ls' ≡ length ls)
    × ((k : ℕ) → elem k ls' ≡ (k == f) || (elem k ls && not (k == l)))
    × ((n : ℕ) → ltb (var f) n ≡ true → in_range n ls ≡ true → in_range n ls' ≡ true)

some_inj : {A : Type 0} {a b : A} → some a ≡ some b → a ≡ b
some_inj e = cc

-- The new watch is a literal of the rest that is not false, and the old one takes its place.
pub find_watch-Exchanged :
    (t : Trail) (f : ℕ) (ls : List ℕ) (r : ℕ × List ℕ)
    → find_watch t f ls ≡ some r
    → no_repeat ls ≡ true
    → elem f ls ≡ false
    → Exchanged t f ls r
unfolding find_watch
find_watch-Exchanged t f [] r e d out = cc
find_watch-Exchanged t f (x ∷ ls) r e d out = elim (Bool-cases (is_false (value t x))) [
  | inl wrong ↦
      let ((l, ls'), e1, e2) = >>=-some (find_watch t f ls) (put_before x) (rw wrong at e) in
      let (inside, right, once, same_length, elems, range) =
        find_watch-Exchanged t f ls (l, ls') e1 (ground arith) (ground arith) in
      let other : (l == x) ≡ false = elim (Bool-cases (l == x)) [
        | inl same ↦
            let equal : l ≡ x = ground arith in
            let bad : is_false (value t x) ≡ false = rw equal at right in cc
        | inr differ ↦ differ
      ] in
      subst (Exchanged t f (x ∷ ls)) (some_inj e2) (
        ground arith,
        right,
        ground (arith, elems x),
        ground arith,
        (λ k. ground (arith, elems k)),
        λ n low h. ground (arith, range n low),
      )
  | inr good ↦
      let e' : some (x, f ∷ ls) ≡ some r = rw good at e in
      subst (Exchanged t f (x ∷ ls)) (some_inj e')
        (ground arith, good, ground arith, refl, (λ k. others k), λ n low h. ground arith)
]
  where
    others :
        (k : ℕ) → ((k == f) || elem k ls) ≡ ((k == f) || (((k == x) || elem k ls) && not (k == x)))
    others k = elim (Bool-cases (k == x)) [
      | inl same ↦ let equal : k ≡ x = ground arith in rw equal (ground arith)
      | inr differ ↦ ground arith
    ]
