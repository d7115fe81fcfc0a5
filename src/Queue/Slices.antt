-- ===== src/Queue/Slices.antt =====
-- BoundedQueue.h: its array seen from `first`, and what one write does to that view.
use dsyrup.Base.{
  append_nothing, ℕ, zero, suc, ◌+◌, ◌%◌, ◌^◌, ◌≤◌, ◌<◌, ◌≡◌, refl, sym, ap, ◌∙◌, false, List, [],
  ◌∷◌, ◌++◌, arith, if◌then◌else◌, ◌==◌, get_or, set, take, drop, length, length-set, Bool-cases,
  inl, inr,
}
use dsyrup.Queue.{Bqueue, next_index}

-- What is in the queue, the oldest first.
abbrev pub content : Bqueue → List ℕ
content q =
    if q.queuesize == q.maxsize
    then drop q.first q.elems ++ take q.first q.elems
    else take q.first q.elems

abbrev pub total : List ℕ → ℕ
total [] = 0
total (x ∷ xs) = x + total xs

-- Elements enter at `first`; the oldest is at `last`.
pub record IsQueue (q : Bqueue) : Type 0 where
  pub sized : length q.elems ≡ q.maxsize
  pub inside : q.first < q.maxsize
  pub filled : q.queuesize ≤ q.maxsize
  pub oldest : q.last ≡ (if q.queuesize == q.maxsize then q.first else 0)
  pub newest : (q.queuesize == q.maxsize) ≡ false → q.first ≡ q.queuesize
  pub summed : q.sumofqueue ≡ total (content q) % 2 ^ 64

pub take-set :
    (xs : List ℕ) (i x : ℕ) → i < length xs → take (suc i) (set xs i x) ≡ take i xs ++ x ∷ []
take-set [] i x h = absurd (omega arith)
take-set (y ∷ xs) zero x h = refl
take-set (y ∷ xs) (suc i) x h = ap (λ zs. y ∷ zs) (take-set xs i x (omega arith))

drop-set : (xs : List ℕ) (i x : ℕ) → drop (suc i) (set xs i x) ≡ drop (suc i) xs
drop-set [] i x = refl
drop-set (y ∷ xs) zero x = refl
drop-set (y ∷ xs) (suc i) x = drop-set xs i x

pub drop-get_or :
    (xs : List ℕ) (i : ℕ) → i < length xs → drop i xs ≡ get_or xs i 0 ∷ drop (suc i) xs
drop-get_or [] i h = absurd (omega arith)
drop-get_or (y ∷ xs) zero h = refl
drop-get_or (y ∷ xs) (suc i) h = drop-get_or xs i (omega arith)

take-all : (xs : List ℕ) (n : ℕ) → length xs ≤ n → take n xs ≡ xs
take-all [] zero h = refl
take-all [] (suc n) h = refl
take-all (x ∷ xs) zero h = absurd (omega arith)
take-all (x ∷ xs) (suc n) h = ap (λ zs. x ∷ zs) (take-all xs n (omega arith))

pub drop-all : (xs : List ℕ) (n : ℕ) → length xs ≤ n → drop n xs ≡ []
drop-all [] zero h = refl
drop-all [] (suc n) h = refl
drop-all (x ∷ xs) zero h = absurd (omega arith)
drop-all (x ∷ xs) (suc n) h = drop-all xs n (omega arith)

pub total-append : (xs ys : List ℕ) → total (xs ++ ys) ≡ total xs + total ys
total-append [] ys = omega arith
total-append (x ∷ xs) ys = omega (arith, total-append xs ys)

-- One more element in an array: the window as `enter` leaves it, at `i` below `m`.
abbrev pub window : ℕ → List ℕ → List ℕ
window i xs = drop i xs ++ take i xs

pub window-set :
    (xs : List ℕ) (i x : ℕ)
    → i < length xs
    → window (next_index (length xs) i) (set xs i x) ≡ drop (suc i) xs ++ (take i xs ++ x ∷ [])
window-set xs i x h = elim (Bool-cases (i + 1 == length xs)) [
  | inl wraps ↦
      let end : length xs ≤ suc i = ground arith in
      let long : length (set xs i x) ≤ suc i = ground (arith, length-set xs i x) in
      rw (wraps, drop-all xs (suc i) end)
        (append_nothing (set xs i x) ∙ sym (take-all (set xs i x) (suc i) long) ∙ take-set xs i x h)
  | inr on ↦
      let step : i + 1 ≡ suc i = omega arith in
      rw (on, step, drop-set xs i x, take-set xs i x h) refl
]
