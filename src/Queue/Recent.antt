-- ===== src/Queue/Recent.antt =====
-- BoundedQueue.h along a sequence of pushes.
use dsyrup.Base.{
  append_nothing, ℕ, zero, suc, ◌-◌, ◌%◌, ◌^◌, ◌≤◌, ◌<◌, ◌≡◌, refl, sym, ap, ◌∙◌, false, List, [],
  ◌∷◌, ◌++◌, arith, ◌==◌, get_or, take, drop, length, length-append, length-replicate, Bool-cases,
  inl, inr,
}
use mathlib.Core.List.{append_assoc}
use dsyrup.Queue.{Bqueue, init_size, push, fastclear, push_all, make_room, enter}
use dsyrup.Queue.Slices.{IsQueue, content, total}
use dsyrup.Queue.Window.{content-full, content-push, push-IsQueue}

-- The last `n` elements.
abbrev pub recent : ℕ → List ℕ → List ℕ
recent n xs = drop (length xs - n) xs

length-drop : (xs : List ℕ) (n : ℕ) → length (drop n xs) ≡ length xs - n
length-drop xs zero = omega arith
length-drop [] (suc n) = omega arith
length-drop (x ∷ xs) (suc n) = omega (arith, length-drop xs n)

length-take : (xs : List ℕ) (n : ℕ) → n ≤ length xs → length (take n xs) ≡ n
length-take xs zero h = refl
length-take [] (suc n) h = absurd (omega arith)
length-take (x ∷ xs) (suc n) h = ap suc (length-take xs n (omega arith))

recent-cons : (n e : ℕ) (xs : List ℕ) → n ≤ length xs → recent n (e ∷ xs) ≡ recent n xs
recent-cons n e xs h =
    let step : length (e ∷ xs) - n ≡ suc (length xs - n) = omega arith in
    ap (λ k. drop k (e ∷ xs)) step

-- What one push does to the last elements of what was pushed.
recent-push :
    (q : Bqueue) (x : ℕ) (xs : List ℕ)
    → IsQueue q
    → recent q.maxsize (content (push q x) ++ xs) ≡ recent q.maxsize (content q ++ x ∷ xs)
recent-push q x xs k = elim (Bool-cases (q.queuesize == q.maxsize)) [
  | inl full ↦
      let rest = drop (suc q.first) q.elems ++ take q.first q.elems in
      let size = k.sized in
      let inside = k.inside in
      let long : q.maxsize ≤ length (rest ++ x ∷ xs) = omega (
        arith,
        length-append rest (x ∷ xs),
        length-append (drop (suc q.first) q.elems) (take q.first q.elems),
        length-drop q.elems (suc q.first),
        length-take q.elems q.first (omega arith),
      ) in
      rw (content-push q x k, content-full q k full, full)
        (ap (recent q.maxsize) (append_assoc rest (x ∷ []) xs)
          ∙ sym (recent-cons q.maxsize (get_or q.elems q.first 0) (rest ++ x ∷ xs) long))
  | inr room ↦
      rw (content-push q x k, room)
        (ap (recent q.maxsize) (append_assoc (take q.first q.elems) (x ∷ []) xs))
]

push-maxsize : (q : Bqueue) (x : ℕ) → (push q x).maxsize ≡ q.maxsize
unfolding push make_room enter
push-maxsize q x = ground arith

recent-content : (q : Bqueue) → IsQueue q → recent q.maxsize (content q) ≡ content q
recent-content q k =
    let short : length (content q) - q.maxsize ≡ 0 = omega (arith, length-content q k) in
    ap (λ n. drop n (content q)) short
  where
    length-content : (q : Bqueue) → IsQueue q → length (content q) ≤ q.maxsize
    length-content q k =
        let size = k.sized in
        let inside = k.inside in
        let low = length-take q.elems q.first (omega arith) in
        let high = length-drop q.elems q.first in
        let both = length-append (drop q.first q.elems) (take q.first q.elems) in ground arith

-- Any sequence of pushes on a queue leaves the last `maxsize` of its elements and of those pushed,
-- in order, and keeps the invariant, the sum included.
pub push_all-recent :
    (q : Bqueue) (xs : List ℕ)
    → IsQueue q
    → IsQueue (push_all q xs) × (content (push_all q xs) ≡ recent q.maxsize (content q ++ xs))
unfolding push_all
push_all-recent q [] k =
    (k, sym (ap (recent q.maxsize) (append_nothing (content q)) ∙ recent-content q k))
push_all-recent q (x ∷ xs) k =
    let (a, b) = push_all-recent (push q x) xs (push-IsQueue q x k) in
    (a, b ∙ ap (λ m. recent m (content (push q x) ++ xs)) (push-maxsize q x) ∙ recent-push q x xs k)

pub init_size-IsQueue : (m : ℕ) → 0 < m → IsQueue (init_size m)
unfolding init_size
init_size-IsQueue m h = record {
  sized = length-replicate m 0;
  inside = h;
  filled = omega arith;
  oldest = ground arith;
  newest = λ e. refl;
  summed = ground arith;
}

pub content-init_size : (m : ℕ) → 0 < m → content (init_size m) ≡ []
unfolding init_size
content-init_size m h = let room : (0 == m) ≡ false = ground arith in rw room refl

init_size-maxsize : (m : ℕ) → (init_size m).maxsize ≡ m
unfolding init_size
init_size-maxsize m = refl

-- `fastclear` empties the queue and leaves it fit for use, though the array keeps its elements.
pub fastclear-IsQueue :
    (q : Bqueue) → IsQueue q → IsQueue (fastclear q) × (content (fastclear q) ≡ [])
fastclear-IsQueue q k =
    let inside = k.inside in
    let room : (0 == q.maxsize) ≡ false = ground arith in
    (
      record {
        sized = k.sized;
        inside = omega arith;
        filled = omega arith;
        oldest = ground arith;
        newest = λ e. refl;
        summed = ground arith;
      },
      rw room refl,
    )

-- A new queue of size `m`, which is not 0, holds after any pushes exactly the last `m` elements
-- pushed, the oldest first, and `getsum` is their sum modulo 2 ^ 64.
pub push_all-init :
    (m : ℕ) (xs : List ℕ)
    → 0 < m
    → (content (push_all (init_size m) xs) ≡ recent m xs)
      × ((push_all (init_size m) xs).sumofqueue ≡ total (recent m xs) % 2 ^ 64)
push_all-init m xs h =
    let (k, held) = push_all-recent (init_size m) xs (init_size-IsQueue m h) in
    let e : content (push_all (init_size m) xs) ≡ recent m xs =
      held
      ∙ ap (λ c. recent (init_size m).maxsize (c ++ xs)) (content-init_size m h)
      ∙ ap (λ n. recent n xs) (init_size-maxsize m) in
    (e, rw e at k.summed)
