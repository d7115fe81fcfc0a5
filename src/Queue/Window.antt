-- ===== src/Queue/Window.antt =====
-- BoundedQueue.h: one push slides the window over the last elements, and keeps their sum.
use dsyrup.Base.{
  ℕ, suc, ◌+◌, ◌-◌, ◌%◌, ◌^◌, ◌≤◌, ◌<◌, ◌≡◌, refl, sym, ap, ◌∙◌, true, false, List, [], ◌∷◌, ◌++◌,
  arith, if◌then◌else◌, ◌==◌, get_or, take, drop, length, length-set, Bool-cases, inl, inr,
}
use mathlib.Core.List.{append_assoc}
use dsyrup.Queue.{Bqueue, make_room, enter, push}
use dsyrup.Queue.Slices.{
  content, total, IsQueue, take-set, drop-get_or, drop-all, total-append, window-set,
}

-- The window slides: the oldest element goes if the queue is full.
abbrev pub slide : Bqueue → List ℕ → List ℕ
slide q xs = if q.queuesize == q.maxsize then drop 1 xs else xs

pub content-full :
    (q : Bqueue)
    → IsQueue q
    → (q.queuesize == q.maxsize) ≡ true
    → content q ≡ get_or q.elems q.first 0 ∷ (drop (suc q.first) q.elems ++ take q.first q.elems)
content-full q k full =
    let below : q.first < length q.elems = let a = k.sized in let b = k.inside in omega arith in
    rw (full, drop-get_or q.elems q.first below) refl

push-full :
    (q : Bqueue) (x : ℕ)
    → IsQueue q
    → (q.queuesize == q.maxsize) ≡ true
    → content (push q x) ≡ (drop (suc q.first) q.elems ++ take q.first q.elems) ++ x ∷ []
unfolding push make_room enter
push-full q x k full =
    let below : q.first < length q.elems = let a = k.sized in let b = k.inside in omega arith in
    rw (full, full, sym k.sized)
      (window-set q.elems q.first x below
        ∙ sym (append_assoc (drop (suc q.first) q.elems) (take q.first q.elems) (x ∷ [])))

push-open :
    (q : Bqueue) (x : ℕ)
    → IsQueue q
    → (q.queuesize == q.maxsize) ≡ false
    → content (push q x) ≡ take q.first q.elems ++ x ∷ []
unfolding push make_room enter
push-open q x k room =
    let below : q.first < length q.elems = let a = k.sized in let b = k.inside in omega arith in
    let same = k.newest room in
    let size = k.sized in
    elim (Bool-cases (q.queuesize + 1 == q.maxsize)) [
      | inl fills ↦
          let end : length q.elems ≤ suc q.first = ground arith in
          rw (room, fills, sym k.sized)
            (window-set q.elems q.first x below
              ∙ ap (λ zs. zs ++ (take q.first q.elems ++ x ∷ []))
                  (drop-all q.elems (suc q.first) end))
      | inr more ↦
          let on : (q.first + 1 == q.maxsize) ≡ false = ground arith in
          let step : q.first + 1 ≡ suc q.first = omega arith in
          rw (room, more, on, step) (take-set q.elems q.first x below)
    ]

-- The window slides: a full queue loses its oldest element, and the new one comes last.
pub content-push :
    (q : Bqueue) (x : ℕ) → IsQueue q → content (push q x) ≡ slide q (content q) ++ x ∷ []
content-push q x k = elim (Bool-cases (q.queuesize == q.maxsize)) [
  | inl full ↦ push-full q x k full ∙ sym (rw (content-full q k full, full) refl)
  | inr room ↦ push-open q x k room ∙ sym (rw room refl)
]

sum-lem :
    (e t x : ℕ)
    → (((e + t) % 2 ^ 64 + (2 ^ 64 - e % 2 ^ 64)) % 2 ^ 64 + x) % 2 ^ 64 ≡ (t + x) % 2 ^ 64
sum-lem e t x = omega arith

push-sum :
    (q : Bqueue) (x : ℕ)
    → IsQueue q
    → (push q x).sumofqueue ≡ (total (slide q (content q)) + x) % 2 ^ 64
unfolding push make_room enter
push-sum q x k = elim (Bool-cases (q.queuesize == q.maxsize)) [
  | inl full ↦
      let at : q.last ≡ q.first = rw full at k.oldest in
      let rest = drop (suc q.first) q.elems ++ take q.first q.elems in
      let s : q.sumofqueue ≡ (get_or q.elems q.first 0 + total rest) % 2 ^ 64 =
        rw (content-full q k full) at k.summed in
      rw (content-full q k full, full, s, at) (sum-lem (get_or q.elems q.first 0) (total rest) x)
  | inr room ↦
      let s : q.sumofqueue ≡ total (take q.first q.elems) % 2 ^ 64 = rw room at k.summed in
      rw (room, s) (omega arith)
]

push-sized :
    (q : Bqueue) (x : ℕ) → length q.elems ≡ q.maxsize → length (push q x).elems ≡ (push q x).maxsize
unfolding push make_room enter
push-sized q x s = ground (arith, length-set q.elems q.first x)

push-inside : (q : Bqueue) (x : ℕ) → q.first < q.maxsize → (push q x).first < (push q x).maxsize
unfolding push make_room enter
push-inside q x s = ground arith

push-filled :
    (q : Bqueue) (x : ℕ) → q.queuesize ≤ q.maxsize → (push q x).queuesize ≤ (push q x).maxsize
unfolding push make_room enter
push-filled q x s = ground arith

push-oldest :
    (q : Bqueue) (x : ℕ)
    → IsQueue q
    → (push q x).last ≡ (if (push q x).queuesize == (push q x).maxsize then (push q x).first else 0)
unfolding push make_room enter
push-oldest q x k = ground (arith, k.oldest, k.inside, k.filled, k.newest)

push-newest :
    (q : Bqueue) (x : ℕ)
    → IsQueue q
    → ((push q x).queuesize == (push q x).maxsize) ≡ false
    → (push q x).first ≡ (push q x).queuesize
unfolding push make_room enter
push-newest q x k h = ground (arith, k.oldest, k.inside, k.filled, k.newest)

pub push-IsQueue : (q : Bqueue) (x : ℕ) → IsQueue q → IsQueue (push q x)
push-IsQueue q x k = record {
  sized = push-sized q x k.sized;
  inside = push-inside q x k.inside;
  filled = push-filled q x k.filled;
  oldest = push-oldest q x k;
  newest = push-newest q x k;
  summed =
      push-sum q x k
      ∙ sym (
          rw (content-push q x k) (rw (total-append (slide q (content q)) (x ∷ [])) (omega arith)));
}
