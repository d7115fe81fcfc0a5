-- ===== src/Propagate/Open.antt =====
-- What holds during the loop over the watchers of a literal.
use dsyrup.Base.{
  clash, ℕ, ◌≡◌, ◌∙◌, refl, sym, ap, true, false, ◌||◌, List, [], ◌∷◌, ◌++◌, arith, ◌==◌,
  Bool-cases, inl, inr,
}
use dsyrup.Literal.{negate}
use dsyrup.Literal.Laws.{negate-involutive}
use dsyrup.Clause.{put}
use dsyrup.Clause.Meaning.{elem}
use dsyrup.Trail.{is_false, Trail, value}
use dsyrup.Trail.Invariant.{IsTrail}
use dsyrup.Propagate.{Watcher, Store, set_clause}
use dsyrup.Propagate.Invariant.{has, is_single, in_range, is_good}

-- `ws` are the watchers of `p` that are still to visit; the other lists are well-formed.
pub record IsOpen (n p : ℕ) (ws : List Watcher) (b : Store) (t : Trail) : Type 0 where
  pub here : (cr : ℕ) → has cr ws ≡ true → is_good n p (b.ca cr) ≡ true
  pub here_two : (cr : ℕ) → has cr ws ≡ true → b.one_watched cr ≡ false
  pub here_single : is_single ws ≡ true
  pub good :
      (q cr : ℕ)
      → (q == p) ≡ false
      → has cr (b.watches.occs q) ≡ true
      → is_good n q (b.ca cr) ≡ true
  pub two :
      (q cr : ℕ) → (q == p) ≡ false → has cr (b.watches.occs q) ≡ true → b.one_watched cr ≡ false
  pub single : (q : ℕ) → (q == p) ≡ false → is_single (b.watches.occs q) ≡ true
  pub is_trail : IsTrail t
  pub range : in_range n t.trail ≡ true
  pub false_p : is_false (value t (negate p)) ≡ true

pub IsOpen-tail :
    (n p : ℕ) (w : Watcher) (ws : List Watcher) (b : Store) (t : Trail)
    → IsOpen n p (w ∷ ws) b t
    → IsOpen n p ws b t
IsOpen-tail n p w ws b t k = record {
  here = λ cr h. k.here cr (ground arith);
  here_two = λ cr h. k.here_two cr (ground arith);
  here_single = ground (arith, k.here_single);
  good = k.good;
  two = k.two;
  single = k.single;
  is_trail = k.is_trail;
  range = k.range;
  false_p = k.false_p;
}

pub set_clause-IsOpen :
    (n p : ℕ) (ws : List Watcher) (b : Store) (t : Trail) (cr : ℕ) (ls : List ℕ)
    → ((q : ℕ) → is_good n q ls ≡ is_good n q (b.ca cr))
    → IsOpen n p ws b t
    → IsOpen n p ws (set_clause cr ls b) t
set_clause-IsOpen n p ws b t cr ls same k = record {
  here = λ c h. still p c (k.here c h);
  here_two = k.here_two;
  here_single = k.here_single;
  good = λ q c e h. still q c (k.good q c e h);
  two = k.two;
  single = k.single;
  is_trail = k.is_trail;
  range = k.range;
  false_p = k.false_p;
}
  where
    still : (q c : ℕ) → is_good n q (b.ca c) ≡ true → is_good n q (put cr ls b.ca c) ≡ true
    still q c h = elim (Bool-cases (cr == c)) [
      | inl here ↦ let equal : cr ≡ c = ground arith in rw here (same q ∙ rw equal h)
      | inr other ↦ rw other h
    ]

pub has-append :
    (cr : ℕ) (ws : List Watcher) (w : Watcher) → has cr (ws ++ w ∷ []) ≡ has cr ws || (w.cref == cr)
has-append cr [] w = ground arith
has-append cr (x ∷ ws) w = ground (arith, has-append cr ws w)

pub is_single-append :
    (ws : List Watcher) (w : Watcher)
    → has w.cref ws ≡ false
    → is_single ws ≡ true
    → is_single (ws ++ w ∷ []) ≡ true
is_single-append [] w out h = refl
is_single-append (x ∷ ws) w out h =
    let rest = is_single-append ws w (ground arith) (ground arith) in
    ground (arith, has-append x.cref ws w)

pub negate-negate : (q l : ℕ) → negate l ≡ q → l ≡ negate q
negate-negate q l h = sym (negate-involutive l).2 ∙ ap negate h

pub negate_inj : (p q : ℕ) → (q == p) ≡ false → (negate p == negate q) ≡ false
negate_inj p q h = elim (Bool-cases (negate p == negate q)) [
  | inl same ↦
      let equal : negate p ≡ negate q = ground arith in
      let back : p ≡ negate (negate q) = negate-negate (negate q) p equal in
      let bad : p ≡ q = back ∙ (negate-involutive q).2 in absurd (apart bad)
  | inr differ ↦ differ
]
  where
    apart : p ≡ q → ⊥
    apart e = ground arith

pub unlike :
    (cr dr : ℕ) (ws : List Watcher) → has cr ws ≡ false → has dr ws ≡ true → (cr == dr) ≡ false
unlike cr dr ws out inside = elim (Bool-cases (cr == dr)) [
  | inl same ↦ let equal : cr ≡ dr = ground arith in absurd (clash inside (rw equal at out))
  | inr differ ↦ differ
]

pub unlike_elem : (l f : ℕ) (ls : List ℕ) → elem l ls ≡ true → elem f ls ≡ false → (l == f) ≡ false
unlike_elem l f ls inside out = elim (Bool-cases (l == f)) [
  | inl same ↦ let equal : l ≡ f = ground arith in absurd (clash inside (rw (sym equal) at out))
  | inr differ ↦ differ
]
