-- ===== src/Propagate/Loop.antt =====
-- The loop over the watchers of a literal: it ends, no assertion fails, and the lists stay well-formed.
use dsyrup.Base.{
  ℕ, ◌≡◌, ◌∙◌, refl, sym, Bool, true, false, Option, none, some, List, [], ◌∷◌, arith, ◌==◌,
  Bool-cases, inl, inr, ◌>>=◌,
}
use dsyrup.Trail.{is_true, Trail, value}
use dsyrup.Propagate.{
  Watcher, Store, Visit, kept, moved, conflict, Result, keep, go_on, propagate_long,
}
use dsyrup.Propagate.Invariant.{has, is_single, is_good}
use dsyrup.Propagate.Open.{IsOpen, IsOpen-tail}
use dsyrup.Propagate.Visited.{Seen, IsFramed, visit-Seen}

-- A watcher of a clause that still watches `p` stays before the others.
cons-IsOpen :
    (n p : ℕ) (w : Watcher) (ws : List Watcher) (b : Store) (t : Trail)
    → has w.cref ws ≡ false
    → is_good n p (b.ca w.cref) ≡ true
    → b.one_watched w.cref ≡ false
    → IsOpen n p ws b t
    → IsOpen n p (w ∷ ws) b t
cons-IsOpen n p w ws b t out good one k = record {
  here = λ cr h. elim (Bool-cases (w.cref == cr)) [
    | inl same ↦ let equal : w.cref ≡ cr = ground arith in rw (sym equal) good
    | inr other ↦ k.here cr (ground arith)
  ];
  here_two = λ cr h. elim (Bool-cases (w.cref == cr)) [
    | inl same ↦ let equal : w.cref ≡ cr = ground arith in rw (sym equal) one
    | inr other ↦ k.here_two cr (ground arith)
  ];
  here_single = ground (arith, k.here_single);
  good = k.good;
  two = k.two;
  single = k.single;
  is_trail = k.is_trail;
  range = k.range;
  false_p = k.false_p;
}

-- After the loop: the list that is left is well-formed, and of clauses of the list before.
pub record IsDone (n p : ℕ) (ws : List Watcher) (b : Store) (t : Trail) (r : Result) : Type 0 where
  pub is_open : IsOpen n p r.1 r.2 r.3
  pub among : (cr : ℕ) → has cr ws ≡ false → has cr r.1 ≡ false
  pub framed : IsFramed (λ cr. has cr ws) b t r.2 r.3

IsFramed-trans :
    (f g h : ℕ → Bool) (b : Store) (t : Trail) (b' : Store) (t' : Trail) (b'' : Store) (t'' : Trail)
    → ((cr : ℕ) → h cr ≡ false → (f cr ≡ false) × (g cr ≡ false))
    → IsFramed f b t b' t'
    → IsFramed g b' t' b'' t''
    → IsFramed h b t b'' t''
IsFramed-trans f g h b t b' t' b'' t'' e i j = record {
  frame = λ cr o. let (of, og) = e cr o in j.frame cr og ∙ i.frame cr of;
  flags = j.flags ∙ i.flags;
  bins = j.bins ∙ i.bins;
  head = let a = i.head in let c = j.head in omega arith;
}

abbrev Ends : ℕ → ℕ → List Watcher → Store → Trail → Option Result → Type 0
Ends n p ws b t o = (r : Result) × (o ≡ some r) × IsDone n p ws b t r

module _ (n p : ℕ) (w : Watcher) (ws : List Watcher) (b : Store) (t : Trail)
    (fresh : has w.cref ws ≡ false) where
  keep-Ends :
      (w' : Watcher) (b' : Store) (t' : Trail) (o : Option Result)
      → w'.cref ≡ w.cref
      → is_good n p (b'.ca w.cref) ≡ true
      → b'.one_watched w.cref ≡ false
      → IsFramed (λ cr. w.cref == cr) b t b' t'
      → Ends n p ws b' t' o
      → Ends n p (w ∷ ws) b t (o >>= keep w')
  keep-Ends w' b' t' o same good one framed ((confl, left, b'', t''), e, done) =
      let kept_clause : b''.ca w.cref ≡ b'.ca w.cref = done.framed.frame w.cref fresh in
      let good' : is_good n p (b''.ca w'.cref) ≡ true = rw (same, kept_clause) good in
      let one' : b''.one_watched w'.cref ≡ false = rw (same, done.framed.flags) one in
      let out : has w'.cref left ≡ false = rw same (done.among w.cref fresh) in
      (
        (confl, w' ∷ left, b'', t''),
        rw e refl,
        record {
          is_open = cons-IsOpen n p w' left b'' t'' out good' one' done.is_open;
          among = λ cr h.
              let rest = done.among cr (ground arith) in
              let other : (w'.cref == cr) ≡ false = rw same (ground arith) in ground arith;
          framed =
              IsFramed-trans (λ cr. w.cref == cr) (λ cr. has cr ws) (λ cr. has cr (w ∷ ws)) b t b'
                t' b'' t'' (λ cr h. (ground arith, ground arith)) framed done.framed;
        },
      )

  go_on-Ends :
      (next : Store × Trail → Option Result)
      → ((b : Store) (t : Trail) → IsOpen n p ws b t → Ends n p ws b t (next (b, t)))
      → (v : Visit) (b' : Store) (t' : Trail) → b.one_watched w.cref ≡ false
      → Seen n p w ws b t (v, b', t')
      → Ends n p (w ∷ ws) b t (go_on next ws (v, b', t'))
  go_on-Ends next rest (kept w') b' t' one (is_open, (same, good), framed) =
      keep-Ends w' b' t' (next (b', t')) same good (rw framed.flags one) framed (rest b' t' is_open)
  go_on-Ends next rest moved b' t' one (is_open, stays, framed) =
      let (r, e, done) = rest b' t' is_open in
      (
        r,
        e,
        record {
          is_open = done.is_open;
          among = λ cr h. done.among cr (ground arith);
          framed =
              IsFramed-trans (λ cr. w.cref == cr) (λ cr. has cr ws) (λ cr. has cr (w ∷ ws)) b t b'
                t' r.2 r.3 (λ cr h. (ground arith, ground arith)) framed done.framed;
        },
      )
  go_on-Ends next rest (conflict w') b' t' one (is_open, (same, good), framed) =
      let good' : is_good n p (b'.ca w'.cref) ≡ true = rw same good in
      let one' : b'.one_watched w'.cref ≡ false = rw (same, framed.flags) one in
      let out : has w'.cref ws ≡ false = rw same fresh in
      (
        (some w'.cref, w' ∷ ws, b', t'),
        refl,
        record {
          is_open = cons-IsOpen n p w' ws b' t' out good' one' is_open;
          among =
              λ cr h. let other : (w'.cref == cr) ≡ false = rw same (ground arith) in ground arith;
          framed = record {
            frame = λ cr h. framed.frame cr (ground arith);
            flags = framed.flags;
            bins = framed.bins;
            head = framed.head;
          };
        },
      )

-- The loop over the watchers of a literal that is true ends without a failed assertion.
pub propagate_long-IsDone :
    (n p : ℕ) (ws : List Watcher) (b : Store) (t : Trail)
    → IsOpen n p ws b t
    → Ends n p ws b t (propagate_long p ws (b, t))
unfolding propagate_long
propagate_long-IsDone n p [] b t k = (
  (none, [], b, t),
  refl,
  record {
    is_open = k;
    among = λ cr h. refl;
    framed = record { frame = λ cr h. refl; flags = refl; bins = refl; head = omega arith };
  },
)
propagate_long-IsDone n p (w ∷ ws) b t k =
    let single : is_single (w ∷ ws) ≡ true = k.here_single in
    let fresh : has w.cref ws ≡ false = ground arith in
    let one : b.one_watched w.cref ≡ false = k.here_two w.cref (ground arith) in
    elim (Bool-cases (is_true (value t w.blocker))) [
      | inl blocked ↦ rw blocked (
          keep-Ends n p w ws b t fresh w b t (propagate_long p ws (b, t)) refl
            (k.here w.cref (ground arith)) one
            (record { frame = λ cr h. refl; flags = refl; bins = refl; head = omega arith })
            (propagate_long-IsDone n p ws b t (IsOpen-tail n p w ws b t k)))
      | inr open_yet ↦
          let ((v, b', t'), e, seen) = visit-Seen n p w ws b t open_yet k in
          rw (open_yet, e)
            (go_on-Ends n p w ws b t fresh (propagate_long p ws)
              (λ b t k. propagate_long-IsDone n p ws b t k) v b' t' one seen)
    ]
