-- ===== src/Buffer/Ring.antt =====
-- ClausesBuffer: the ring of words as a queue of words.
use dsyrup.Base.{
  ℕ, zero, suc, ◌+◌, ◌-◌, ◌<◌, ◌≡◌, refl, sym, ap, ◌∙◌, subst, true, false, List, [], ◌∷◌, ◌++◌,
  arith, ◌==◌, ltb, length, length-append, get_or, Bool-cases, inl, inr,
}
use dsyrup.Buffer.{Buffer, next_index, add_index, advance, no_check_push, push_words}

-- The place of the word number `k` of a queue that starts after `last`.
abbrev pub place : Buffer → ℕ → ℕ
place b k = add_index b.maxsize (next_index b.maxsize b.last) k

-- The words of the queue, in order; `queuesize` is left aside, since a push counts its words at its
-- end.
pub record IsRing (b : Buffer) (ws : List ℕ) : Type 0 where
  pub words : (k : ℕ) → k < length ws → get_or ws k 0 ≡ b.elems (place b k)
  pub end : b.first ≡ place b (length ws)
  pub room : length ws < b.maxsize
  pub in_range : b.last < b.maxsize

-- Two places of the ring are different.
place-ne : (m s i j : ℕ) → s < m → i < j → j < m → (add_index m s j == add_index m s i) ≡ false
place-ne m s i j h k l = ground arith

place-suc : (m s k : ℕ) → s < m → suc k < m → next_index m (add_index m s k) ≡ add_index m s (suc k)
place-suc m s k h l = ground arith

pub place-shift :
    (m s k : ℕ) → s < m → suc k < m → add_index m (next_index m s) k ≡ add_index m s (suc k)
place-shift m s k h l = ground arith

pub place-zero : (m s : ℕ) → s < m → add_index m s 0 ≡ s
place-zero m s h = ground arith

pub next_index-lt : (m i : ℕ) → i < m → next_index m i < m
next_index-lt m i h = ground arith

get_or-append : (ws vs : List ℕ) (k : ℕ) → k < length ws → get_or (ws ++ vs) k 0 ≡ get_or ws k 0
get_or-append [] vs k h = absurd (omega arith)
get_or-append (w ∷ ws) vs zero h = refl
get_or-append (w ∷ ws) vs (suc k) h = get_or-append ws vs k (omega arith)

get_or-last : (ws : List ℕ) (x : ℕ) → get_or (ws ++ x ∷ []) (length ws) 0 ≡ x
get_or-last [] x = refl
get_or-last (w ∷ ws) x = get_or-last ws x

pub no_check_push-IsRing :
    (b : Buffer) (ws : List ℕ) (x : ℕ)
    → IsRing b ws
    → suc (length ws) < b.maxsize
    → IsRing (no_check_push x b) (ws ++ x ∷ [])
no_check_push-IsRing b ws x r h =
    let start = next_index-lt b.maxsize b.last r.in_range in
    let long = length-append ws (x ∷ []) in
    let size : length (ws ++ x ∷ []) ≡ suc (length ws) = omega arith in
    record {
      words = λ k l. elim (Bool-cases (ltb k (length ws))) [
        | inl old ↦
            let k_old : k < length ws = ground arith in
            let apart =
              place-ne b.maxsize (next_index b.maxsize b.last) k (length ws) start k_old r.room in
            let other : (b.first == place b k) ≡ false = rw r.end apart in
            get_or-append ws (x ∷ []) k k_old ∙ r.words k k_old ∙ rw other refl
        | inr new ↦
            let k_new : length ws ≡ k = ground arith in
            let here : (b.first == place b k) ≡ true =
              rw r.end
                (subst (λ z. (place b (length ws) == place b z) ≡ true) k_new (ground arith)) in
            subst (λ z. get_or (ws ++ x ∷ []) z 0 ≡ x) k_new (get_or-last ws x) ∙ rw here refl
      ];
      end =
          ap (next_index b.maxsize) r.end
          ∙ place-suc b.maxsize (next_index b.maxsize b.last) (length ws) start h
          ∙ ap (place b) (sym size);
      room = omega arith;
      in_range = r.in_range;
    }

append_assoc_one : (ws : List ℕ) (x : ℕ) (xs : List ℕ) → (ws ++ x ∷ []) ++ xs ≡ ws ++ x ∷ xs
append_assoc_one [] x xs = refl
append_assoc_one (w ∷ ws) x xs = ap (λ z. w ∷ z) (append_assoc_one ws x xs)

pub append_nil : (ws : List ℕ) → ws ≡ ws ++ []
append_nil [] = refl
append_nil (w ∷ ws) = ap (λ z. w ∷ z) (append_nil ws)

-- What a push of words leaves alone.
abbrev pub SameFrame : Buffer → Buffer → Type 0
SameFrame b b' = (b'.queuesize ≡ b.queuesize) × (b'.maxsize ≡ b.maxsize)

pub push_words-IsRing :
    (xs ws : List ℕ) (b : Buffer)
    → IsRing b ws
    → length ws + length xs < b.maxsize
    → IsRing (push_words xs b) (ws ++ xs) × SameFrame b (push_words xs b)
unfolding push_words
push_words-IsRing [] ws b r h = (subst (IsRing b) (append_nil ws) r, (refl, refl))
push_words-IsRing (x ∷ xs) ws b r h =
    let long = length-append ws (x ∷ []) in
    let (rest, frame) =
      push_words-IsRing xs (ws ++ x ∷ []) (no_check_push x b)
        (no_check_push-IsRing b ws x r (omega arith)) (omega arith) in
    (subst (IsRing (push_words xs (no_check_push x b))) (append_assoc_one ws x xs) rest, frame)

abbrev pop_one : Buffer → Buffer
pop_one b = record b { last = next_index b.maxsize b.last; queuesize = b.queuesize - 1 }

pop_one-IsRing : (b : Buffer) (w : ℕ) (ws : List ℕ) → IsRing b (w ∷ ws) → IsRing (pop_one b) ws
pop_one-IsRing b w ws r =
    let start = next_index-lt b.maxsize b.last r.in_range in
    let room = r.room in
    record {
      words = λ k l.
          r.words (suc k) (omega arith)
          ∙ ap b.elems
              (sym (place-shift b.maxsize (next_index b.maxsize b.last) k start (omega arith)));
      end =
          r.end
          ∙ sym
              (place-shift b.maxsize (next_index b.maxsize b.last) (length ws) start (omega arith));
      room = omega arith;
      in_range = start;
    }

-- What no operation on clauses changes.
abbrev pub shape : Buffer → ℕ × ℕ
shape b = (b.maxsize, b.nb_threads)

-- Popping words takes them off the front.
pub advance-IsRing :
    (vs ws : List ℕ) (b : Buffer)
    → IsRing b (vs ++ ws)
    → IsRing (advance (length vs) b) ws
      × ((advance (length vs) b).queuesize ≡ b.queuesize - length vs)
      × (shape (advance (length vs) b) ≡ shape b)
unfolding advance
advance-IsRing [] ws b r = (r, omega arith, refl)
advance-IsRing (v ∷ vs) ws b r =
    let (rest, less, size) = advance-IsRing vs ws (pop_one b) (pop_one-IsRing b v (vs ++ ws) r) in
    (rest, less ∙ omega arith, size)
