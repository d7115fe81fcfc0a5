-- ===== src/Propagate/Ends.antt =====
-- Solver::propagate ends with enough fuel, fails no assertion, and keeps the lists of watchers and
-- the trail well-formed.
use dsyrup.Base.{
  ℕ, zero, suc, ◌+◌, ◌≤◌, ◌<◌, ◌≡◌, ◌∙◌, refl, sym, true, false, Option, none, some, List, [], ◌∷◌,
  arith, if◌then◌else◌, ◌==◌, ltb, length, Bool-cases, Option-cases, inl, inr,
}
use dsyrup.Literal.{negate, var, sign}
use dsyrup.Literal.Laws.{negate-involutive}
use dsyrup.Trail.{
  Lbool, flip, is_true, is_false, is_undef, Trail, value, unchecked_enqueue, or_zero, at_index,
}
use dsyrup.Trail.Invariant.{IsTrail, on_trail, is_once, are_true, unchecked_enqueue-IsTrail}
use dsyrup.Propagate.{Watcher, Store, set_watches, propagate_bin, propagate_queue}
use dsyrup.Propagate.Invariant.{in_range, blockers, IsStore}
use dsyrup.Propagate.Bin.{is_true-negate}
use dsyrup.Propagate.Open.{IsOpen}
use dsyrup.Propagate.Moved.{is_false-unchecked_enqueue}
use dsyrup.Propagate.Loop.{propagate_long-IsDone}

-- A list without the literal of a variable.
abbrev drop_var : ℕ → List ℕ → List ℕ
drop_var v [] = []
drop_var v (p ∷ ps) = let rest = drop_var v ps in if var p == v then ps else p ∷ rest

drop_var-on_trail :
    (u v : ℕ) (ps : List ℕ) → on_trail u ps ≡ false → on_trail u (drop_var v ps) ≡ false
drop_var-on_trail u v [] h = refl
drop_var-on_trail u v (p ∷ ps) h =
    let rest = drop_var-on_trail u v ps (ground arith) in ground arith

drop_var-is_once :
    (n : ℕ) (ps : List ℕ)
    → is_once ps ≡ true
    → in_range (suc n) ps ≡ true
    → (is_once (drop_var n ps) ≡ true)
      × (in_range n (drop_var n ps) ≡ true)
      × (length ps ≤ suc (length (drop_var n ps)))
drop_var-is_once n [] o r = (refl, refl, omega arith)
drop_var-is_once n (p ∷ ps) o r = elim (Bool-cases (var p == n)) [
  | inl here ↦
      let same : var p ≡ n = ground arith in
      let out : on_trail n ps ≡ false = rw (sym same) (ground arith) in
      rw here (ground arith, below n ps out (ground arith), omega arith)
  | inr other ↦
      let (once, range, long) = drop_var-is_once n ps (ground arith) (ground arith) in
      let out = drop_var-on_trail (var p) n ps (ground arith) in
      rw other (ground arith, ground arith, omega arith)
]
  where
    below :
        (n : ℕ) (ps : List ℕ)
        → on_trail n ps ≡ false
        → in_range (suc n) ps ≡ true
        → in_range n ps ≡ true
    below n [] o r = refl
    below n (p ∷ ps) o r = let rest = below n ps (ground arith) (ground arith) in ground arith

-- A trail over `n` variables has at most `n` literals.
length-is_once : (n : ℕ) (ps : List ℕ) → is_once ps ≡ true → in_range n ps ≡ true → length ps ≤ n
length-is_once zero [] o r = omega arith
length-is_once zero (p ∷ ps) o r = absurd (bounded (ground arith))
  where
    bounded : ltb (var p) 0 ≡ true → ⊥
    bounded e = ground arith
length-is_once (suc n) ps o r =
    let (once, range, long) = drop_var-is_once n ps o r in
    let rest = length-is_once n (drop_var n ps) once range in omega arith

are_true-at_index :
    (assigns : ℕ → Lbool) (i : ℕ) (ps : List ℕ)
    → ltb i (length ps) ≡ true
    → are_true assigns ps ≡ true
    → is_true (flip (assigns (var (or_zero (at_index i ps)))) (sign (or_zero (at_index i ps))))
      ≡ true
are_true-at_index assigns i [] h k = absurd (bounded h)
  where
    bounded : ltb i 0 ≡ true → ⊥
    bounded e = ground arith
are_true-at_index assigns i (p ∷ ps) h k = elim (Bool-cases (length ps == i)) [
  | inl here ↦ rw here (ground arith)
  | inr lower ↦ rw lower (are_true-at_index assigns i ps (ground arith) (ground arith))
]

record IsKept (n l : ℕ) (t t' : Trail) : Type 0 where
  is_trail : IsTrail t'
  range : in_range n t'.trail ≡ true
  still : is_false (value t' l) ≡ true
  head : t'.qhead ≡ t.qhead

pub unchecked_enqueue-kept :
    (x : ℕ) (from : Option ℕ) (t : Trail)
    → ((unchecked_enqueue x from t).trail ≡ x ∷ t.trail)
      × ((unchecked_enqueue x from t).qhead ≡ t.qhead)
unfolding unchecked_enqueue
unchecked_enqueue-kept x from t = (refl, refl)

propagate_bin-IsKept :
    (n l : ℕ) (ws : List Watcher) (t : Trail)
    → in_range n (blockers ws) ≡ true
    → IsTrail t
    → in_range n t.trail ≡ true
    → is_false (value t l) ≡ true
    → IsKept n l t (propagate_bin ws t).1
unfolding propagate_bin
propagate_bin-IsKept n l [] t b k r f = record { is_trail = k; range = r; still = f; head = refl }
propagate_bin-IsKept n l (w ∷ ws) t b k r f = elim (Bool-cases (is_false (value t w.blocker))) [
  | inl wrong ↦ rw wrong (record { is_trail = k; range = r; still = f; head = refl })
  | inr fine ↦ elim (Bool-cases (is_undef (value t w.blocker))) [
    | inl free ↦
        let (now, k') = unchecked_enqueue-IsTrail w.blocker (some w.cref) t free k in
        let (longer, same) = unchecked_enqueue-kept w.blocker (some w.cref) t in
        let range' : in_range n (unchecked_enqueue w.blocker (some w.cref) t).trail ≡ true =
          rw longer (ground arith) in
        let rest =
          propagate_bin-IsKept n l ws (unchecked_enqueue w.blocker (some w.cref) t) (ground arith)
            k' range' (is_false-unchecked_enqueue w.blocker l (some w.cref) t free f) in
        rw (fine, free)
          (record {
            is_trail = rest.is_trail;
            range = rest.range;
            still = rest.still;
            head = rest.head ∙ same;
          })
    | inr known ↦ rw (fine, known) (propagate_bin-IsKept n l ws t (ground arith) k r f)
  ]
]

set_watches-IsStore :
    (n p : ℕ) (ws : List Watcher) (b : Store) (t : Trail)
    → IsOpen n p ws b t
    → ((q : ℕ) → in_range n (blockers (b.watches_bin.occs q)) ≡ true)
    → IsStore n (set_watches p ws b)
set_watches-IsStore n p ws b t k bins = record {
  good = λ q cr h. elim (Bool-cases (p == q)) [
    | inl here ↦ let equal : p ≡ q = ground arith in rw (sym equal) (k.here cr (rw here at h))
    | inr other ↦ k.good q cr (ground arith) (rw other at h)
  ];
  two = λ q cr h. elim (Bool-cases (p == q)) [
    | inl here ↦ k.here_two cr (rw here at h)
    | inr other ↦ k.two q cr (ground arith) (rw other at h)
  ];
  single = λ q. elim (Bool-cases (p == q)) [
    | inl here ↦ rw here k.here_single
    | inr other ↦ rw other (k.single q (ground arith))
  ];
  binary = bins;
}

-- Without a false clause, the whole queue was propagated.
abbrev pub Emptied : Option ℕ → Trail → Type 0
Emptied none t = t.qhead ≡ length t.trail
Emptied (some cr) t = Unit

-- Well-formed lists of watchers and a well-formed trail over `n` variables.
pub record IsEnd (n : ℕ) (r : Option ℕ × Store × Trail) : Type 0 where
  pub store : IsStore n r.1
  pub is_trail : IsTrail r.2
  pub range : in_range n r.2.trail ≡ true
  pub emptied : Emptied r.0 r.2

Emptied-all : (confl : Option ℕ) (t : Trail) → t.qhead ≡ length t.trail → Emptied confl t
Emptied-all none t e = e
Emptied-all (some cr) t e = tt

pub propagate_queue-IsEnd :
    (n fuel : ℕ) (confl : Option ℕ) (b : Store) (t : Trail)
    → IsStore n b
    → IsTrail t
    → in_range n t.trail ≡ true
    → n < fuel + t.qhead
    → (r : Option ℕ × Store × Trail) × (propagate_queue fuel confl (b, t) ≡ some r) × IsEnd n r
unfolding propagate_queue value
propagate_queue-IsEnd n zero confl b t s k r h =
    let short = length-is_once n t.trail k.once r in let low = k.queue in absurd (omega arith)
propagate_queue-IsEnd n (suc fuel) confl b t s k r h =
    elim (Bool-cases (ltb t.qhead (length t.trail))) [
      | inl more ↦
          let p = or_zero (at_index t.qhead t.trail) in
          let t0 : Trail = record t { qhead = suc t.qhead } in
          let true_p : is_true (value t p) ≡ true =
            are_true-at_index t.assigns t.qhead t.trail more k.literals in
          let back : negate (negate p) ≡ p = (negate-involutive p).2 in
          let false_p : is_false (value t (negate p)) ≡ true =
            sym (is_true-negate t (negate p)) ∙ (rw back true_p) in
          let k0 : IsTrail t0 = record {
            literals = k.literals;
            covered = k.covered;
            once = k.once;
            levelled = k.levelled;
            limits = k.limits;
            queue = ground arith;
          } in
          let bin = propagate_bin (b.watches_bin.occs p) t0 in
          let left =
            propagate_bin-IsKept n (negate p) (b.watches_bin.occs p) t0 (s.binary p) k0 r false_p in
          elim (Option-cases bin.0) [
            | inl fine ↦
                let started : IsOpen n p (b.watches.occs p) b bin.1 = record {
                  here = λ cr h. s.good p cr h;
                  here_two = λ cr h. s.two p cr h;
                  here_single = s.single p;
                  good = λ q cr o h. s.good q cr h;
                  two = λ q cr o h. s.two q cr h;
                  single = λ q o. s.single q;
                  is_trail = left.is_trail;
                  range = left.range;
                  false_p = left.still;
                } in
                let ((confl', ws, b', t'), e, done) =
                  propagate_long-IsDone n p (b.watches.occs p) b bin.1 started in
                let bins : (q : ℕ) → in_range n (blockers (b'.watches_bin.occs q)) ≡ true =
                  λ q. rw done.framed.bins (s.binary q) in
                let further : suc t.qhead ≤ t'.qhead =
                  let a = left.head in let c = done.framed.head in omega arith in
                let (r', e', end) =
                  propagate_queue-IsEnd n fuel confl' (set_watches p ws b') t'
                    (set_watches-IsStore n p ws b' t' done.is_open bins) done.is_open.is_trail
                    done.is_open.range (omega arith) in
                (r', rw (more, fine, e) e', end)
            | inr (cr, wrong) ↦ (
              (some cr, b, bin.1),
              rw (more, wrong) refl,
              record { store = s; is_trail = left.is_trail; range = left.range; emptied = tt },
            )
          ]
      | inr stop ↦ (
        (confl, b, t),
        rw stop refl,
        record {
          store = s;
          is_trail = k;
          range = r;
          emptied = Emptied-all confl t (let low = k.queue in ground arith);
        },
      )
    ]
