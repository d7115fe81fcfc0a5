-- ===== src/Queue.antt =====
-- Solvers/SAT/GlucoseSyrup/syrup/core/BoundedQueue.h: the window over the last LBDs, with their sum.
-- `sumofqueue` is an unsigned long long; an element is an unsigned int. A position outside `elems`
-- is read as 0 and written nowhere. The averages over doubles are left out.
pub mod Slices
pub mod Window
pub mod Recent
mod Tests
use dsyrup.Base.{
  ℕ, zero, suc, ◌+◌, ◌-◌, ◌/◌, ◌%◌, ◌^◌, Bool, true, false, List, [], ◌∷◌, if◌then◌else◌, ◌==◌,
  get_or, set, replicate,
}

pub record Bqueue : Type 0 where
  pub elems : List ℕ
  pub first : ℕ
  pub last : ℕ
  pub sumofqueue : ℕ
  pub maxsize : ℕ
  pub queuesize : ℕ

-- `initSize` on a new queue: `growTo` fills the array with 0.
unfoldable pub init_size : ℕ → Bqueue
init_size size = record {
  elems = replicate size 0;
  first = 0;
  last = 0;
  sumofqueue = 0;
  maxsize = size;
  queuesize = 0;
}

-- `if ((++i) == maxsize) i = 0;`
abbrev pub next_index : ℕ → ℕ → ℕ
next_index maxsize i = if i + 1 == maxsize then 0 else i + 1

-- the oldest element leaves a full queue, or the queue grows
unfoldable pub make_room : Bqueue → Bqueue
make_room q =
    if q.queuesize == q.maxsize
    then record q {
      sumofqueue = (q.sumofqueue + (2 ^ 64 - get_or q.elems q.last 0 % 2 ^ 64)) % 2 ^ 64;
      last = next_index q.maxsize q.last;
    }
    else record q { queuesize = q.queuesize + 1 }

-- the new element goes to `first`; when `first` wraps, `last` is 0 too
unfoldable pub enter : Bqueue → ℕ → Bqueue
enter q x = record q {
  sumofqueue = (q.sumofqueue + x) % 2 ^ 64;
  elems = set q.elems q.first x;
  first = next_index q.maxsize q.first;
  last = if q.first + 1 == q.maxsize then 0 else q.last;
}

unfoldable pub push : Bqueue → ℕ → Bqueue
unfolding make_room enter
push q x = enter (make_room q) x

abbrev pub getsum : Bqueue → ℕ
getsum q = q.sumofqueue

abbrev pub isvalid : Bqueue → Bool
isvalid q = q.queuesize == q.maxsize

-- `getavg` of a queue that is not empty
abbrev pub getavg : Bqueue → ℕ
getavg q = (q.sumofqueue / q.queuesize) % 2 ^ 32

abbrev pub fastclear : Bqueue → Bqueue
fastclear q = record q { first = 0; last = 0; queuesize = 0; sumofqueue = 0 }

-- for(…) queue.push(x)
unfoldable pub push_all : Bqueue → List ℕ → Bqueue
unfolding push
push_all q [] = q
push_all q (x ∷ xs) = push_all (push q x) xs
