-- ===== src/Buffer.antt =====
-- Solvers/SAT/GlucoseSyrup/syrup/parallel/ClausesBuffer.{h,cc}: the ring in which the threads of a
-- worker share clauses. A clause is stored as its size, the number of threads that have yet to see
-- it, where it comes from, and its literals. The array is a function on the indices. Whether
-- stat_size_clauses refuses a size, by statistics over doubles, is an argument; counters are left
-- out. A failed assertion is `none`.
pub mod Ring
pub mod Fifo
mod Tests
use dsyrup.Base.{
  ℕ, zero, suc, ◌+◌, ◌-◌, ◌*◌, ◌%◌, ◌^◌, Bool, true, false, not, ◌&&◌, ◌||◌, Option, none, some,
  List, [], ◌∷◌, ◌++◌, if◌then◌else◌, ◌==◌, ltb, leb, length, ◌>>=◌,
}
use dsyrup.Clause.{put}

pub record Buffer : Type 0 where
  pub elems : ℕ → ℕ
  pub first : ℕ
  pub last : ℕ
  pub maxsize : ℕ
  pub queuesize : ℕ
  pub nb_threads : ℕ
  pub when_full_remove_older : Bool
  pub fifo_size_by_core : ℕ
  pub last_of_thread : ℕ → ℕ

abbrev pub header_size : ℕ
header_size = 3

-- `setNbThreads`
abbrev pub set_nb_threads : ℕ → Buffer → Buffer
set_nb_threads n b =
    let size = b.fifo_size_by_core * n in
    record b {
      last = size - 1;
      maxsize = size;
      nb_threads = n;
      last_of_thread = λ i. if ltb i n then size - 1 else b.last_of_thread i;
    }

abbrev pub next_index : ℕ → ℕ → ℕ
next_index maxsize i = if suc i == maxsize then 0 else suc i

abbrev pub add_index : ℕ → ℕ → ℕ → ℕ
add_index maxsize i a = if leb maxsize (i + a) then i + a - maxsize else i + a

-- The threads that stood at the clause that is removed.
abbrev pub move_threads : ℕ → ℕ → ℕ → (ℕ → ℕ) → ℕ → ℕ
move_threads n from to last_of_thread i =
    if ltb i n && (last_of_thread i == from) then to else last_of_thread i

-- `last = nextIndex(last)`, `queuesize --`, so many times.
unfoldable pub advance : ℕ → Buffer → Buffer
advance zero b = b
advance (suc n) b =
    advance n (record b { last = next_index b.maxsize b.last; queuesize = b.queuesize - 1 })

-- The body of the loop of `removeLastClause`
unfoldable pub remove_one : Buffer → Buffer
unfolding advance
remove_one b =
    let size = b.elems (next_index b.maxsize b.last) in
    let nextlast = add_index b.maxsize b.last (size + header_size) in
    advance (size + header_size)
      (record b { last_of_thread = move_threads b.nb_threads b.last nextlast b.last_of_thread })

unfoldable pub remove_last_clause : ℕ → Buffer → Option Buffer
unfolding remove_one
remove_last_clause zero b = none
remove_last_clause (suc fuel) b =
    let b' = remove_one b in
    let rest = remove_last_clause fuel b' in
    if b.queuesize == 0
    then none
    else if ltb 0 b'.queuesize && (b'.elems (add_index b'.maxsize b'.last 2) == 0)
    then rest
    else some b'

abbrev pub no_check_push : ℕ → Buffer → Buffer
no_check_push x b = record b { elems = put b.first x b.elems; first = next_index b.maxsize b.first }

unfoldable pub push_words : List ℕ → Buffer → Buffer
push_words [] b = b
push_words (x ∷ xs) b = push_words xs (no_check_push x b)

-- After a removal `queuesize > 0` is asserted.
abbrev pub some_left : Buffer → Option Buffer
some_left b = if b.queuesize == 0 then none else some b

-- The loop that removes clauses until there is room for `n` words.
unfoldable pub make_room : ℕ → ℕ → Buffer → Option Buffer
unfolding remove_last_clause
make_room zero n b = none
make_room (suc fuel) n b =
    let rest = remove_last_clause (suc b.queuesize) b >>= some_left >>= make_room fuel n in
    if leb b.maxsize (b.queuesize + n) then rest else some b

-- The number of threads that are to see a clause.
abbrev pub to_see : Buffer → ℕ
to_see b = if ltb 1 b.nb_threads then b.nb_threads - 1 else 1

abbrev pub store_words : ℕ → List ℕ → Buffer → Option (Bool × Buffer)
store_words origin c b =
    let n = length c + header_size in
    let b' = push_words (length c ∷ to_see b ∷ origin ∷ c) b in
    some (true, record b' { queuesize = b'.queuesize + n })

-- `pushClause` and `pushClauseHightLevel`, for the word that says where the clause comes from.
unfoldable pub push_from : Bool → ℕ → List ℕ → Buffer → Option (Bool × Buffer)
unfolding make_room push_words
push_from is_refused origin c b =
    let n = length c + header_size in
    let pushed = make_room (suc b.queuesize) n b >>= store_words origin c in
    if is_refused || (not b.when_full_remove_older && leb b.maxsize (b.queuesize + n))
    then some (false, b)
    else pushed

abbrev pub push_clause : Bool → ℕ → List ℕ → Buffer → Option (Bool × Buffer)
push_clause is_refused thread c b = push_from is_refused thread c b

-- `-(worker + 1)` as a uint32_t; `nbThreads > 1` is asserted.
abbrev pub push_clause_hight_level : Bool → ℕ → List ℕ → Buffer → Option (Bool × Buffer)
push_clause_hight_level is_refused worker c b =
    if ltb 1 b.nb_threads then push_from is_refused (2 ^ 32 - suc worker) c b else none

-- So many words after an index, and the index of the last of them.
unfoldable pub pop_words : ℕ → ℕ → Buffer → List ℕ × ℕ
pop_words zero i b = ([], i)
pop_words (suc n) i b =
    let next = next_index b.maxsize i in
    let (ws, end) = pop_words n next b in (b.elems next ∷ ws, end)

-- Whether the place of a thread is no longer valid, since `last` has moved.
abbrev pub is_behind : ℕ → Buffer → Bool
is_behind i b =
    (ltb i b.last && ltb b.last b.first)
    || (ltb b.first i && ltb i b.last)
    || (ltb b.last b.first && ltb b.first i)

-- The loop over the clauses of the thread itself.
unfoldable pub skip_own : ℕ → ℕ → ℕ → Buffer → Option ℕ
skip_own zero thread i b = none
skip_own (suc fuel) thread i b =
    let next = next_index b.maxsize i in
    let rest = skip_own fuel thread (add_index b.maxsize i (b.elems next + header_size)) b in
    if not (next == b.first) && (b.elems (add_index b.maxsize i 3) == thread) then rest else some i

-- The clause after an index: its origin and literals, and the state. The word that counts the threads
-- is a uint32_t.
abbrev pub read_at : ℕ → ℕ → Buffer → Option (Option (ℕ × List ℕ) × Buffer)
read_at thread i b =
    let start = next_index b.maxsize i in
    let seen_at = next_index b.maxsize start in
    let csize = b.elems start in
    let seen = (b.elems seen_at + (2 ^ 32 - 1)) % 2 ^ 32 in
    let origin_at = next_index b.maxsize seen_at in
    let (lits, end) = pop_words csize origin_at b in
    let b' = record b { elems = put seen_at seen b.elems } in
    let removed = remove_last_clause (suc b.queuesize) b' >>= λ b2. some (
      some (b.elems origin_at, lits),
      record b2 { last_of_thread = put thread b2.last b2.last_of_thread },
    ) in
    if (b.last == i) && (seen == 0)
    then removed
    else some (
      some (b.elems origin_at, lits),
      record b' { last_of_thread = put thread end b.last_of_thread },
    )

-- `getClause`, with `firstFound` false, which is asserted.
unfoldable pub get_clause : ℕ → Buffer → Option (Option (ℕ × List ℕ) × Buffer)
unfolding skip_own pop_words remove_last_clause
get_clause thread b =
    let place = b.last_of_thread thread in
    let i = if is_behind place b then b.last else place in
    let found = skip_own (suc b.queuesize) thread i b >>= λ j.
    if next_index b.maxsize j == b.first
    then some (none, record b { last_of_thread = put thread j b.last_of_thread })
    else read_at thread j b in
    if next_index b.maxsize place == b.first then some (none, b) else found
