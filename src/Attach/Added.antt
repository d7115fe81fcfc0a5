-- ===== src/Attach/Added.antt =====
-- Solver::addClause_: the lists of watchers stay well-formed, and a clause is added without a change
-- of meaning.
use dsyrup.Base.{
  ℕ, suc, ◌≡◌, ◌∙◌, sym, ap, true, false, List, [], ◌∷◌, ◌++◌, arith, ◌==◌, ltb, length, Bool-cases,
  inl, inr,
}
use dsyrup.Literal.{negate, var}
use dsyrup.Literal.Laws.{negate-involutive}
use dsyrup.Clause.{put}
use dsyrup.Propagate.{Watcher, Store, watcher, push_watch}
use dsyrup.Propagate.Invariant.{has, no_repeat, in_range, is_good, blockers, IsStore}
use dsyrup.Propagate.Open.{has-append, is_single-append}
use dsyrup.Attach.{push_bin, alloc, attach_at}

pub alloc-IsStore :
    (n cr : ℕ) (ls : List ℕ) (b : Store)
    → ((q : ℕ) → has cr (b.watches.occs q) ≡ false)
    → IsStore n b
    → IsStore n (alloc cr ls b)
alloc-IsStore n cr ls b fresh k = record {
  good = λ q c h. rw (other q c h) (k.good q c h);
  two = λ q c h. rw (other q c h) (k.two q c h);
  single = k.single;
  binary = k.binary;
}
  where
    other : (q c : ℕ) → has c (b.watches.occs q) ≡ true → (cr == c) ≡ false
    other q c h = elim (Bool-cases (cr == c)) [
      | inl same ↦
          let equal : cr ≡ c = ground arith in
          let out : has c (b.watches.occs q) ≡ false = rw (sym equal) (fresh q) in cc
      | inr differ ↦ differ
    ]

push_watch-IsStore :
    (n q : ℕ) (w : Watcher) (b : Store)
    → has w.cref (b.watches.occs q) ≡ false
    → is_good n q (b.ca w.cref) ≡ true
    → b.one_watched w.cref ≡ false
    → IsStore n b
    → IsStore n (push_watch q w b)
push_watch-IsStore n q w b fresh good one k = record {
  good = λ r c h. elim (Bool-cases (w.cref == c)) [
    | inl same ↦ let equal : w.cref ≡ c = ground arith in rw (sym equal) (at_list r c equal h)
    | inr differ ↦ k.good r c (old r c differ h)
  ];
  two = λ r c h. elim (Bool-cases (w.cref == c)) [
    | inl same ↦ let equal : w.cref ≡ c = ground arith in rw (sym equal) one
    | inr differ ↦ k.two r c (old r c differ h)
  ];
  single = λ r. elim (Bool-cases (q == r)) [
    | inl here ↦ rw here (is_single-append (b.watches.occs q) w fresh (k.single q))
    | inr there ↦ rw there (k.single r)
  ];
  binary = k.binary;
}
  where
    old :
        (r c : ℕ)
        → (w.cref == c) ≡ false
        → has c (put q (b.watches.occs q ++ w ∷ []) b.watches.occs r) ≡ true
        → has c (b.watches.occs r) ≡ true
    old r c differ h = elim (Bool-cases (q == r)) [
      | inl here ↦
          let equal : q ≡ r = ground arith in
          let h' : has c (b.watches.occs q ++ w ∷ []) ≡ true = rw here at h in
          let before : has c (b.watches.occs q) ≡ true =
            ground (arith, has-append c (b.watches.occs q) w) in
          rw (sym equal) before
      | inr there ↦ rw there at h
    ]

    at_list :
        (r c : ℕ)
        → w.cref ≡ c
        → has c (put q (b.watches.occs q ++ w ∷ []) b.watches.occs r) ≡ true
        → is_good n r (b.ca w.cref) ≡ true
    at_list r c same h = elim (Bool-cases (q == r)) [
      | inl here ↦ let equal : q ≡ r = ground arith in rw (sym equal) good
      | inr there ↦
          let h' : has c (b.watches.occs r) ≡ true = rw there at h in k.good r w.cref (rw same h')
    ]

in_range-append :
    (n : ℕ) (ws : List Watcher) (w : Watcher)
    → in_range n (blockers ws) ≡ true
    → ltb (var w.blocker) n ≡ true
    → in_range n (blockers (ws ++ w ∷ [])) ≡ true
in_range-append n [] w h k = ground arith
in_range-append n (x ∷ ws) w h k =
    let rest = in_range-append n ws w (ground arith) k in ground arith

push_bin-IsStore :
    (n q : ℕ) (w : Watcher) (b : Store)
    → ltb (var w.blocker) n ≡ true
    → IsStore n b
    → IsStore n (push_bin q w b)
push_bin-IsStore n q w b low k = record {
  good = k.good;
  two = k.two;
  single = k.single;
  binary = λ r. elim (Bool-cases (q == r)) [
    | inl here ↦ rw here (in_range-append n (b.watches_bin.occs q) w (k.binary q) low)
    | inr there ↦ rw there (k.binary r)
  ];
}

pub attach_at-IsStore :
    (n cr x y : ℕ) (ls : List ℕ) (b : Store)
    → b.ca cr ≡ x ∷ y ∷ ls
    → ((q : ℕ) → has cr (b.watches.occs q) ≡ false)
    → b.one_watched cr ≡ false
    → no_repeat (x ∷ y ∷ ls) ≡ true
    → in_range n (x ∷ y ∷ ls) ≡ true
    → IsStore n b
    → IsStore n (attach_at cr (x ∷ y ∷ ls) b)
attach_at-IsStore n cr x y ls b c fresh one once range k = elim (Bool-cases (length ls == 0)) [
  | inl two ↦ rw two (
      push_bin-IsStore n (negate y) (watcher cr x) (push_bin (negate x) (watcher cr y) b)
        (ground arith) (push_bin-IsStore n (negate x) (watcher cr y) b (ground arith) k))
  | inr more ↦
      let back_x : negate (negate x) ≡ x = (negate-involutive x).2 in
      let back_y : negate (negate y) ≡ y = (negate-involutive y).2 in
      let long : ltb 2 (suc (suc (length ls))) ≡ true = ground arith in
      let good_x : is_good n (negate x) (b.ca cr) ≡ true = rw (c, back_x) (ground arith) in
      let good_y : is_good n (negate y) (b.ca cr) ≡ true = rw (c, back_y) (ground arith) in
      let apart : (negate x == negate y) ≡ false = elim (Bool-cases (negate x == negate y)) [
        | inl same ↦
            let equal : negate x ≡ negate y = ground arith in
            let bad : x ≡ y = sym back_x ∙ ap negate equal ∙ back_y in absurd (repeated bad)
        | inr differ ↦ differ
      ] in
      let still : has cr (
            put (negate x) (b.watches.occs (negate x) ++ watcher cr y ∷ []) b.watches.occs
              (negate y))
          ≡ false =
        rw apart (fresh (negate y)) in
      rw more (
        push_watch-IsStore n (negate y) (watcher cr x) (push_watch (negate x) (watcher cr y) b)
          still good_y one
          (push_watch-IsStore n (negate x) (watcher cr y) b (fresh (negate x)) good_x one k))
]
  where
    repeated : x ≡ y → ⊥
    repeated e = ground arith
