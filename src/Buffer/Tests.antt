-- ===== src/Buffer/Tests.antt =====
-- A clause pushed into an empty ring of eight words that two threads share.
use dsyrup.Base.{
  ◌+◌, ◌≡◌, ◌⊎◌, ◌==◌, if◌then◌else◌, leb, refl, true, false, none, some, [], ◌∷◌, length, arith,
}
use dsyrup.Buffer.{Buffer, advance, remove_one, remove_last_clause, make_room, push_from}
use dsyrup.Buffer.Fifo.{IsBuffer, encode_all, is_spent, refuses, Pushes, push_from-IsBuffer}

abbrev empty : Buffer
empty = record {
  elems = λ i. 0;
  first = 0;
  last = 7;
  maxsize = 8;
  queuesize = 0;
  nb_threads = 2;
  when_full_remove_older = true;
  fifo_size_by_core = 4;
  last_of_thread = λ i. 7;
}

empty-IsBuffer : IsBuffer empty []
empty-IsBuffer = record {
  ring = record {
    words = λ k h. absurd (omega arith);
    end = refl;
    room = omega arith;
    in_range = omega arith;
  };
  size = refl;
}

-- A clause that no thread is to see any more, in a ring of eight words.
abbrev seen_by_all : Buffer
seen_by_all = record {
  elems = λ i. if i == 0 then 2 else 0;
  first = 5;
  last = 7;
  maxsize = 8;
  queuesize = 5;
  nb_threads = 2;
  when_full_remove_older = true;
  fifo_size_by_core = 4;
  last_of_thread = λ i. 7;
}

-- It is removed for lack of room, and the assertion that clauses are left fails.
runs_empty : push_from false 0 (4 ∷ []) seen_by_all ≡ none
unfolding push_from make_room remove_last_clause remove_one advance
runs_empty = refl

push_from-IsBuffer_example :
    (refuses false (2 ∷ 4 ∷ []) empty ≡ true
      → push_from false 0 (2 ∷ 4 ∷ []) empty ≡ some (false, empty))
    × (refuses false (2 ∷ 4 ∷ []) empty ≡ false
        → Pushes false 0 (2 ∷ 4 ∷ []) empty []
          ⊎ (push_from false 0 (2 ∷ 4 ∷ []) empty ≡ none)
            × (leb 8 (length (encode_all []) + 5) ≡ true)
            × (is_spent 8 5 [] ≡ true))
push_from-IsBuffer_example =
    push_from-IsBuffer false 0 (2 ∷ 4 ∷ []) empty [] empty-IsBuffer (omega arith)
