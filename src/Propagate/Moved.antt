-- ===== src/Propagate/Moved.antt =====
-- A watcher that moves and a literal that is enqueued keep what holds during the loop.
use dsyrup.Base.{
  clash, ℕ, ◌≡◌, ◌∙◌, sym, subst, Bool, true, false, Option, some, List, [], ◌∷◌, ◌++◌, arith, ◌==◌,
  ltb, Bool-cases, inl, inr,
}
use dsyrup.Literal.{negate, var, sign}
use dsyrup.Clause.{put}
use dsyrup.Clause.Meaning.{elem}
use dsyrup.Trail.{
  Lbool, l_true, l_false, l_undef, flip, is_false, is_undef, Trail, value, unchecked_enqueue,
}
use dsyrup.Trail.Invariant.{unchecked_enqueue-IsTrail, is_undef-flip}
use dsyrup.Propagate.{Watcher, Store, watcher, set_clause, push_watch, find_watch}
use dsyrup.Propagate.Invariant.{has, is_single, in_range, is_proper, is_good, find_watch-Exchanged}
use dsyrup.Propagate.Open.{
  IsOpen, has-append, is_single-append, negate-negate, negate_inj, unlike, unlike_elem,
}

-- The clause with its new watch is as proper as before, and `x` is not the new watch.
exchanged-is_proper :
    (n x f l : ℕ) (ls ls' : List ℕ) (t : Trail)
    → is_proper n (x ∷ f ∷ ls) ≡ true
    → find_watch t f ls ≡ some (l, ls')
    → (is_proper n (x ∷ l ∷ ls') ≡ true) × ((x == l) ≡ false) × (is_false (value t l) ≡ false)
exchanged-is_proper n x f l ls ls' t h found =
    let out_f : elem f ls ≡ false = ground arith in
    let out_x : elem x ls ≡ false = ground arith in
    let (inside, right, once, same_length, elems, range) =
      find_watch-Exchanged t f ls (l, ls') found (ground arith) out_f in
    let not_f = unlike_elem l f ls inside out_f in
    let not_x = unlike_elem l x ls inside out_x in
    let x_out : elem x ls' ≡ false = ground (arith, elems x) in
    let l_out : elem l ls' ≡ false = ground (arith, elems l) in
    let in_l : ltb (var l) n ≡ true = in_range-elem n l ls (ground arith) inside in
    let in_ls : in_range n ls' ≡ true = range n (ground arith) (ground arith) in
    (ground arith, ground arith, right)
  where
    in_range-elem :
        (n l : ℕ) (ls : List ℕ) → in_range n ls ≡ true → elem l ls ≡ true → ltb (var l) n ≡ true
    in_range-elem n l [] h e = absurd (clash (sym e ∙ e) (sym e))
    in_range-elem n l (y ∷ ls) h e = elim (Bool-cases (l == y)) [
      | inl same ↦ let equal : l ≡ y = ground arith in rw equal (ground arith)
      | inr differ ↦ in_range-elem n l ls (ground arith) (ground arith)
    ]

module _ (n p : ℕ) (w : Watcher) (ws : List Watcher) (b : Store) (t : Trail) (x f l : ℕ)
    (ls ls' : List ℕ) (c : b.ca w.cref ≡ x ∷ f ∷ ls) (e : f ≡ negate p)
    (found : find_watch t f ls ≡ some (l, ls')) (k : IsOpen n p (w ∷ ws) b t) where
  proper : is_proper n (x ∷ f ∷ ls) ≡ true
  proper =
      let g : is_good n p (x ∷ f ∷ ls) ≡ true =
        subst (λ ks. is_good n p ks ≡ true) c (k.here w.cref (ground arith)) in
      ground arith

  -- Where the clause was listed, it was for its first literal, which stays.
  listed :
      (q : ℕ) → (q == p) ≡ false → has w.cref (b.watches.occs q) ≡ true → (x == negate q) ≡ true
  listed q o h =
      let g : is_good n q (x ∷ f ∷ ls) ≡ true =
        subst (λ ks. is_good n q ks ≡ true) c (k.good q w.cref o h) in
      let differ = negate_inj p q o in
      let not_f : (f == negate q) ≡ false = rw e differ in ground arith

  moved_good :
      (q cr : ℕ)
      → (q == p) ≡ false
      → has cr
          (put (negate l) (b.watches.occs (negate l) ++ watcher w.cref x ∷ []) b.watches.occs q)
        ≡ true
      → (is_good n q (put w.cref (x ∷ l ∷ ls') b.ca cr) ≡ true) × (b.one_watched cr ≡ false)
  moved_good q cr o h =
      let (fit, apart, right) = exchanged-is_proper n x f l ls ls' t proper found in
      elim (Bool-cases (w.cref == cr)) [
        | inl same ↦
            let equal : w.cref ≡ cr = ground arith in
            let one : b.one_watched cr ≡ false = k.here_two cr (ground arith) in
            elim (Bool-cases (negate l == q)) [
              | inl new ↦
                  let at_q : negate l ≡ q = ground arith in
                  let second = negate-negate q l at_q in
                  (rw same (rw (sym second) (ground arith)), one)
              | inr old ↦
                  let inside : has w.cref (b.watches.occs q) ≡ true = rw equal (rw old at h) in
                  let first = listed q o inside in (rw same (ground arith), one)
            ]
        | inr differ ↦
            let inside : has cr (b.watches.occs q) ≡ true = elim (Bool-cases (negate l == q)) [
              | inl new ↦
                  let at_q : negate l ≡ q = ground arith in
                  let h' : has cr (b.watches.occs (negate l) ++ watcher w.cref x ∷ []) ≡ true =
                    rw new at h in
                  let before : has cr (b.watches.occs (negate l)) ≡ true =
                    ground (arith, has-append cr (b.watches.occs (negate l)) (watcher w.cref x)) in
                  rw (sym at_q) before
              | inr old ↦ rw old at h
            ] in
            (rw differ (k.good q cr o inside), k.two q cr o inside)
      ]

  moved_single :
      (q : ℕ)
      → (q == p) ≡ false
      → is_single
          (put (negate l) (b.watches.occs (negate l) ++ watcher w.cref x ∷ []) b.watches.occs q)
        ≡ true
  moved_single q o =
      let (fit, apart, right) = exchanged-is_proper n x f l ls ls' t proper found in
      elim (Bool-cases (negate l == q)) [
        | inl new ↦
            let at_q : negate l ≡ q = ground arith in
            let second = negate-negate q l at_q in
            let fresh : has w.cref (b.watches.occs q) ≡ false =
              elim (Bool-cases (has w.cref (b.watches.occs q))) [
                | inl inside ↦
                    let first : (x == l) ≡ true = rw second (listed q o inside) in
                    absurd (clash first apart)
                | inr out ↦ out
              ] in
            rw (new, at_q)
              (is_single-append (b.watches.occs q) (watcher w.cref x) fresh (k.single q o))
        | inr old ↦ rw old (k.single q o)
      ]

  -- A watcher moves to the list of its new watch.
  pub moved-IsOpen :
      IsOpen n p ws (push_watch (negate l) (watcher w.cref x) (set_clause w.cref (x ∷ l ∷ ls') b)) t
  moved-IsOpen = record {
    here = λ cr h.
        let single : is_single (w ∷ ws) ≡ true = k.here_single in
        let other = unlike w.cref cr ws (ground arith) h in rw other (k.here cr (ground arith));
    here_two = λ cr h. k.here_two cr (ground arith);
    here_single = ground (arith, k.here_single);
    good = λ q cr o h. (moved_good q cr o h).0;
    two = λ q cr o h. (moved_good q cr o h).1;
    single = λ q o. moved_single q o;
    is_trail = k.is_trail;
    range = k.range;
    false_p = k.false_p;
  }

still_false :
    (b : Lbool) (v : Bool) (x l : ℕ) (t : Trail)
    → is_undef (value t x) ≡ true
    → is_false (value t l) ≡ true
    → (var x == var l) ≡ false
unfolding value
still_false b v x l t u h = elim (Bool-cases (var x == var l)) [
  | inl same ↦
      let equal : var x ≡ var l = ground arith in
      let free : is_undef (t.assigns (var x)) ≡ true =
        ground (arith, is_undef-flip (t.assigns (var x)) (sign x)) in
      absurd (no_value (t.assigns (var l)) (sign l) (rw equal at free) h)
  | inr differ ↦ differ
]
  where
    no_value : (b : Lbool) (s : Bool) → is_undef b ≡ true → is_false (flip b s) ≡ true → ⊥
    no_value l_true s u h = cc
    no_value l_false s u h = cc
    no_value l_undef s u h = cc

pub is_false-unchecked_enqueue :
    (x l : ℕ) (from : Option ℕ) (t : Trail)
    → is_undef (value t x) ≡ true
    → is_false (value t l) ≡ true
    → is_false (value (unchecked_enqueue x from t) l) ≡ true
unfolding value unchecked_enqueue
is_false-unchecked_enqueue x l from t u h =
    let other = still_false l_undef true x l t u h in rw other h

-- A literal of the clause is enqueued.
pub unchecked_enqueue-IsOpen :
    (n p : ℕ) (ws : List Watcher) (b : Store) (t : Trail) (x : ℕ) (from : Option ℕ)
    → is_undef (value t x) ≡ true
    → ltb (var x) n ≡ true
    → IsOpen n p ws b t
    → IsOpen n p ws b (unchecked_enqueue x from t)
unfolding unchecked_enqueue
unchecked_enqueue-IsOpen n p ws b t x from u low k = record {
  here = k.here;
  here_two = k.here_two;
  here_single = k.here_single;
  good = k.good;
  two = k.two;
  single = k.single;
  is_trail = (unchecked_enqueue-IsTrail x from t u k.is_trail).1;
  range = ground (arith, k.range);
  false_p = is_false-unchecked_enqueue x (negate p) from t u k.false_p;
}
