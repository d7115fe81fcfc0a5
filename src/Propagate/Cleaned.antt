-- ===== src/Propagate/Cleaned.antt =====
-- Solver::propagate as a whole: the lists are cleaned, then the queue is propagated.
use dsyrup.Base.{
  ℕ, ◌+◌, ◌<◌, ◌≡◌, ◌∙◌, refl, sym, subst, Bool, true, false, ◌&&◌, Option, none, some, List, [],
  ◌∷◌, arith, Bool-cases, inl, inr,
}
use dsyrup.Clause.{OccLists, sweep, clean_all}
use dsyrup.Clause.Occurrences.{clean_all-occs}
use dsyrup.Clause.Meaning.{elem}
use dsyrup.Trail.{Trail}
use dsyrup.Trail.Invariant.{IsTrail}
use dsyrup.Propagate.{Watcher, Store, is_deleted, propagate}
use dsyrup.Propagate.Invariant.{has, is_single, in_range, blockers, IsStore}
use dsyrup.Propagate.Bin.{pairs_hold}
use dsyrup.Propagate.Long.{IsModel, are_live}
use dsyrup.Propagate.Sound.{propagate_queue-IsModel}
use dsyrup.Propagate.Ends.{IsEnd, propagate_queue-IsEnd}

-- What holds of each list and of it after the sweep holds of the lists after `cleanAll`.
clean_all-all :
    (P : List Watcher → Type 0) (d : Watcher → Bool) (o : OccLists Watcher) (q : ℕ)
    → P (o.occs q)
    → P (sweep d (o.occs q))
    → P ((clean_all d o).occs q)
clean_all-all P d o q before after = elim (Bool-cases (o.dirty q && elem q o.dirties)) [
  | inl swept ↦ subst P (sym (clean_all-occs d q o ∙ (rw swept refl))) after
  | inr left ↦ subst P (sym (clean_all-occs d q o ∙ (rw left refl))) before
]

module _ (d : Watcher → Bool) where
  has-sweep : (cr : ℕ) (ws : List Watcher) → has cr ws ≡ false → has cr (sweep d ws) ≡ false
  unfolding sweep
  has-sweep cr [] h = refl
  has-sweep cr (w ∷ ws) h = let rest = has-sweep cr ws (ground arith) in ground arith

  is_single-sweep : (ws : List Watcher) → is_single ws ≡ true → is_single (sweep d ws) ≡ true
  unfolding sweep
  is_single-sweep [] h = refl
  is_single-sweep (w ∷ ws) h =
      let rest = is_single-sweep ws (ground arith) in
      let out = has-sweep w.cref ws (ground arith) in ground arith

  in_range-sweep :
      (n : ℕ) (ws : List Watcher)
      → in_range n (blockers ws) ≡ true
      → in_range n (blockers (sweep d ws)) ≡ true
  unfolding sweep
  in_range-sweep n [] h = refl
  in_range-sweep n (w ∷ ws) h =
      let rest = in_range-sweep n ws (ground arith) in
      elim (Bool-cases (d w)) [ inl gone ↦ rw gone rest | inr stays ↦ rw stays (ground arith) ]

  are_live-sweep :
      (live : ℕ → Bool) (ws : List Watcher)
      → are_live live ws ≡ true
      → are_live live (sweep d ws) ≡ true
  unfolding sweep
  are_live-sweep live [] h = refl
  are_live-sweep live (w ∷ ws) h =
      let rest = are_live-sweep live ws (ground arith) in
      elim (Bool-cases (d w)) [ inl gone ↦ rw gone rest | inr stays ↦ rw stays (ground arith) ]

  pairs_hold-sweep :
      (α : ℕ → Bool) (q : ℕ) (ws : List Watcher)
      → pairs_hold α q ws ≡ true
      → pairs_hold α q (sweep d ws) ≡ true
  unfolding sweep
  pairs_hold-sweep α q [] h = refl
  pairs_hold-sweep α q (w ∷ ws) h =
      let rest = pairs_hold-sweep α q ws (ground arith) in
      elim (Bool-cases (d w)) [ inl gone ↦ rw gone rest | inr stays ↦ rw stays (ground arith) ]

abbrev cleaned : Store → Store
cleaned b = record b {
  watches = clean_all (is_deleted b) b.watches;
  watches_bin = clean_all (is_deleted b) b.watches_bin;
  unary_watches = clean_all (is_deleted b) b.unary_watches;
}

cleaned-IsStore : (n : ℕ) (b : Store) → IsStore n b → IsStore n (cleaned b)
cleaned-IsStore n b k = record {
  good = λ q cr h. k.good q cr (before q cr h);
  two = λ q cr h. k.two q cr (before q cr h);
  single = λ q.
      clean_all-all (λ ws. is_single ws ≡ true) (is_deleted b) b.watches q (k.single q)
        (is_single-sweep (is_deleted b) (b.watches.occs q) (k.single q));
  binary = λ q.
      clean_all-all (λ ws. in_range n (blockers ws) ≡ true) (is_deleted b) b.watches_bin q
        (k.binary q) (in_range-sweep (is_deleted b) n (b.watches_bin.occs q) (k.binary q));
}
  where
    before :
        (q cr : ℕ)
        → has cr ((clean_all (is_deleted b) b.watches).occs q) ≡ true
        → has cr (b.watches.occs q) ≡ true
    before q cr h = elim (Bool-cases (has cr (b.watches.occs q))) [
      | inl inside ↦ inside
      | inr out ↦
          let gone =
            clean_all-all (λ ws. has cr ws ≡ false) (is_deleted b) b.watches q out
              (has-sweep (is_deleted b) cr (b.watches.occs q) out) in
          cc
    ]

cleaned-IsModel :
    (α live : ℕ → Bool) (b : Store) (t : Trail) → IsModel α live b t → IsModel α live (cleaned b) t
cleaned-IsModel α live b t k = record {
  satisfied = k.satisfied;
  lives = λ q.
      clean_all-all (λ ws. are_live live ws ≡ true) (is_deleted b) b.watches q (k.lives q)
        (are_live-sweep (is_deleted b) live (b.watches.occs q) (k.lives q));
  agrees = k.agrees;
  pairs = λ q.
      clean_all-all (λ ws. pairs_hold α q ws ≡ true) (is_deleted b) b.watches_bin q (k.pairs q)
        (pairs_hold-sweep (is_deleted b) α q (b.watches_bin.occs q) (k.pairs q));
}

-- On well-formed lists of watchers and a well-formed trail over `n` variables, with fuel for more than
-- the variables that the queue can still take, propagation ends, no assertion fails, both are
-- well-formed again, and the queue is empty if no clause was found to be false.
pub propagate-IsEnd :
    (n fuel : ℕ) (b : Store) (t : Trail)
    → IsStore n b
    → IsTrail t
    → in_range n t.trail ≡ true
    → n < fuel + t.qhead
    → (r : Option ℕ × Store × Trail) × (propagate fuel (b, t) ≡ some r) × IsEnd n r
unfolding propagate
propagate-IsEnd n fuel b t s k r h =
    propagate_queue-IsEnd n fuel none (cleaned b) t (cleaned-IsStore n b s) k r h

-- On well-formed lists of watchers and a well-formed trail over `n` variables, with fuel for more than
-- the variables that the queue can still take, and for an assignment of all variables that satisfies
-- the clauses and makes the literals of the trail true: propagation ends, no clause is found to be
-- false, and the assignment satisfies the clauses and makes the literals of the trail true
-- afterwards.
pub propagate-IsModel :
    (α live : ℕ → Bool) (n fuel : ℕ) (b : Store) (t : Trail)
    → IsStore n b
    → IsTrail t
    → in_range n t.trail ≡ true
    → n < fuel + t.qhead
    → IsModel α live b t
    → (r : Option ℕ × Store × Trail) × (propagate fuel (b, t) ≡ some r)
      × (r.0 ≡ none)
      × IsModel α live r.1 r.2
unfolding propagate
propagate-IsModel α live n fuel b t s k r h m =
    let (r', e, ended) = propagate-IsEnd n fuel b t s k r h in
    let (fine, m') =
      propagate_queue-IsModel α live fuel none (cleaned b) t r' refl (cleaned-IsModel α live b t m)
        e in
    (r', e, fine, m')
