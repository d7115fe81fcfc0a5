-- ===== src/Propagate/Visited.antt =====
-- The visit of a watcher: no assertion fails, and the lists stay well-formed.
use dsyrup.Base.{
  ℕ, ◌≤◌, ◌≡◌, ◌∙◌, refl, subst, Bool, true, false, not, ◌&&◌, Option, none, some, List, [], ◌∷◌,
  arith, ◌==◌, ltb, Bool-cases, inl, inr,
}
use dsyrup.Literal.{negate, var}
use dsyrup.Trail.{
  Lbool, l_true, l_false, l_undef, is_true, is_false, is_undef, Trail, value, unchecked_enqueue,
}
use dsyrup.Propagate.{
  Watcher, Store, watcher, set_clause, to_second, find_watch, Visit, kept, moved, conflict, settle,
  inspect, visit,
}
use dsyrup.Propagate.Invariant.{is_front, is_good, is_good-to_second}
use dsyrup.Propagate.Open.{IsOpen, IsOpen-tail, set_clause-IsOpen}
use dsyrup.Propagate.Moved.{moved-IsOpen, unchecked_enqueue-IsOpen}

-- A watcher that stays is that of the same clause, which still watches `p`.
abbrev Stays : ℕ → ℕ → ℕ → Visit → Store → Type 0
Stays n p cr (kept w) b = (w.cref ≡ cr) × (is_good n p (b.ca cr) ≡ true)
Stays n p cr moved b = Unit
Stays n p cr (conflict w) b = (w.cref ≡ cr) × (is_good n p (b.ca cr) ≡ true)

-- What does not change but for the clauses in a set.
pub record IsFramed (touched : ℕ → Bool) (b : Store) (t : Trail) (b' : Store) (t' : Trail)
    : Type 0 where
  pub frame : (cr : ℕ) → touched cr ≡ false → b'.ca cr ≡ b.ca cr
  pub flags : b'.one_watched ≡ b.one_watched
  pub bins : b'.watches_bin ≡ b.watches_bin
  pub head : t.qhead ≤ t'.qhead

abbrev pub Seen : ℕ → ℕ → Watcher → List Watcher → Store → Trail → Visit × Store × Trail → Type 0
Seen n p w ws b t (v, b', t') =
    IsOpen n p ws b' t' × Stays n p w.cref v b' × IsFramed (λ cr. w.cref == cr) b t b' t'

neither : (b : Lbool) → is_true b ≡ false → is_false b ≡ false → is_undef b ≡ true
neither l_true a c = cc
neither l_false a c = cc
neither l_undef a c = refl

unchecked_enqueue-qhead :
    (x : ℕ) (from : Option ℕ) (t : Trail) → (unchecked_enqueue x from t).qhead ≡ t.qhead
unfolding unchecked_enqueue
unchecked_enqueue-qhead x from t = refl

abbrev is_second : ℕ → List ℕ → Bool
is_second f (x ∷ y ∷ ls) = y == f
is_second f (x ∷ []) = false
is_second f [] = false

is_second-to_second :
    (f : ℕ) (ls : List ℕ) → is_front f ls ≡ true → is_second f (to_second f ls) ≡ true
is_second-to_second f [] h = h
is_second-to_second f (x ∷ []) h = h
is_second-to_second f (x ∷ y ∷ ls) h = elim (Bool-cases (x == f)) [
  | inl here ↦ rw here here
  | inr other ↦ rw other (ground arith)
]

module _ (n p : ℕ) (w : Watcher) (ws : List Watcher) where
  settle-Seen :
      (x f : ℕ) (ls : List ℕ) (b : Store) (t : Trail) (o : Option (ℕ × List ℕ))
      → find_watch t f ls ≡ o
      → b.ca w.cref ≡ x ∷ f ∷ ls
      → f ≡ negate p
      → is_true (value t x) ≡ false
      → IsOpen n p (w ∷ ws) b t
      → Seen n p w ws b t (settle w.cref x f o (b, t))
  unfolding value
  settle-Seen x f ls b t (some (l, ls')) e c same untrue k = (
    moved-IsOpen n p w ws b t x f l ls ls' c same e k,
    tt,
    record { frame = λ cr other. rw other refl; flags = refl; bins = refl; head = omega arith },
  )
  settle-Seen x f ls b t none e c same untrue k =
      let good : is_good n p (b.ca w.cref) ≡ true = k.here w.cref (ground arith) in
      let rest = IsOpen-tail n p w ws b t k in
      elim (Bool-cases (is_false (value t x))) [
        | inl wrong ↦ rw wrong (
          record {
            here = rest.here;
            here_two = rest.here_two;
            here_single = rest.here_single;
            good = rest.good;
            two = rest.two;
            single = rest.single;
            is_trail = record {
              literals = k.is_trail.literals;
              covered = k.is_trail.covered;
              once = k.is_trail.once;
              levelled = k.is_trail.levelled;
              limits = k.is_trail.limits;
              queue = omega arith;
            };
            range = k.range;
            false_p = rest.false_p;
          },
          (refl, good),
          record { frame = λ cr other. refl; flags = refl; bins = refl; head = k.is_trail.queue },
        )
        | inr right ↦
            let free = neither (value t x) untrue right in
            let low : ltb (var x) n ≡ true = in_front good c in
            rw right (
              unchecked_enqueue-IsOpen n p ws b t x (some w.cref) free low rest,
              (refl, good),
              record {
                frame = λ cr other. refl;
                flags = refl;
                bins = refl;
                head = let same_head = unchecked_enqueue-qhead x (some w.cref) t in omega arith;
              },
            )
      ]
    where
      in_front : is_good n p (b.ca w.cref) ≡ true → b.ca w.cref ≡ x ∷ f ∷ ls → ltb (var x) n ≡ true
      in_front g c =
          let g' : is_good n p (x ∷ f ∷ ls) ≡ true = subst (λ ks. is_good n p ks ≡ true) c g in
          ground arith

  inspect-Seen :
      (ls : List ℕ) (b : Store) (t : Trail)
      → is_second (negate p) ls ≡ true
      → b.ca w.cref ≡ ls
      → is_true (value t w.blocker) ≡ false
      → IsOpen n p (w ∷ ws) b t
      → (r : Visit × Store × Trail) × (inspect p w ls (b, t) ≡ some r) × Seen n p w ws b t r
  inspect-Seen [] b t s c untrue k =
      absurd (short (subst (λ ks. is_good n p ks ≡ true) c (k.here w.cref (ground arith))))
    where
      short : is_good n p [] ≡ true → ⊥
      short e = cc
  inspect-Seen (x ∷ []) b t s c untrue k =
      absurd (short (subst (λ ks. is_good n p ks ≡ true) c (k.here w.cref (ground arith))))
    where
      short : is_good n p (x ∷ []) ≡ true → ⊥
      short e = cc
  inspect-Seen (x ∷ f ∷ ls) b t s c untrue k =
      let g : is_good n p (x ∷ f ∷ ls) ≡ true =
        subst (λ ks. is_good n p ks ≡ true) c (k.here w.cref (ground arith)) in
      let good : is_good n p (b.ca w.cref) ≡ true = k.here w.cref (ground arith) in
      let second : (f == negate p) ≡ true = s in
      let one : b.one_watched w.cref ≡ false = k.here_two w.cref (ground arith) in
      let equal : f ≡ negate p = ground arith in
      elim (Bool-cases (not (x == w.blocker) && is_true (value t x))) [
        | inl satisfied ↦ (
          (kept (watcher w.cref x), b, t),
          rw (second, one, satisfied) refl,
          (
            IsOpen-tail n p w ws b t k,
            (refl, good),
            record { frame = λ cr other. refl; flags = refl; bins = refl; head = omega arith },
          ),
        )
        | inr open_yet ↦
            let not_true : is_true (value t x) ≡ false = elim (Bool-cases (x == w.blocker)) [
              | inl blocker ↦ let e : x ≡ w.blocker = ground arith in rw e untrue
              | inr other ↦ ground arith
            ] in
            (
              settle w.cref x f (find_watch t f ls) (b, t),
              rw (second, one, open_yet) refl,
              settle-Seen x f ls b t (find_watch t f ls) refl c equal not_true k,
            )
      ]

  pub visit-Seen :
      (b : Store) (t : Trail)
      → is_true (value t w.blocker) ≡ false
      → IsOpen n p (w ∷ ws) b t
      → (r : Visit × Store × Trail) × (visit p w (b, t) ≡ some r) × Seen n p w ws b t r
  unfolding visit
  visit-Seen b t untrue k =
      let ls = to_second (negate p) (b.ca w.cref) in
      let here : (w.cref == w.cref) ≡ true = ground arith in
      let good : is_good n p (b.ca w.cref) ≡ true = k.here w.cref (ground arith) in
      let second = is_second-to_second (negate p) (b.ca w.cref) (ground arith) in
      let (r, e, (is_open, stays, framed)) =
        inspect-Seen ls (set_clause w.cref ls b) t second (rw here refl) untrue (
          set_clause-IsOpen n p (w ∷ ws) b t w.cref ls
            (λ q. is_good-to_second n q (negate p) (b.ca w.cref)) k) in
      (
        r,
        e,
        (
          is_open,
          stays,
          record {
            frame = λ cr other. framed.frame cr other ∙ (rw other refl);
            flags = framed.flags;
            bins = framed.bins;
            head = framed.head;
          },
        ),
      )
