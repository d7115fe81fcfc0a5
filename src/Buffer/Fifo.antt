-- ===== src/Buffer/Fifo.antt =====
-- ClausesBuffer: the ring as a queue of clauses, from which the oldest are removed for lack of room.
use dsyrup.Base.{
  clash, ℕ, zero, suc, ◌+◌, ◌-◌, ◌≤◌, ◌<◌, ◌≡◌, refl, sym, ap, ◌∙◌, subst, Bool, true, false, not,
  ◌&&◌, ◌||◌, Option, none, some, List, [], ◌∷◌, ◌++◌, arith, if◌then◌else◌, ◌==◌, ltb, leb, length,
  length-append, Bool-cases, inl, inr, ◌⊎◌, ◌>>=◌,
}
use dsyrup.Buffer.{
  Buffer, header_size, next_index, add_index, move_threads, advance, remove_one, remove_last_clause,
  push_words, some_left, make_room, to_see, store_words, push_from,
}
use dsyrup.Buffer.Ring.{
  IsRing, place-shift, push_words-IsRing, advance-IsRing, place-zero, next_index-lt, append_nil,
  shape,
}

-- A clause of the queue: the count of the threads that are to see it, its origin, its literals.
pub record Entry : Type 0 where
  pub seen : ℕ
  pub origin : ℕ
  pub lits : List ℕ

abbrev pub encode : Entry → List ℕ
encode e = length e.lits ∷ e.seen ∷ e.origin ∷ e.lits

abbrev pub encode_all : List Entry → List ℕ
encode_all [] = []
encode_all (e ∷ es) = encode e ++ encode_all es

-- The buffer holds these clauses, the oldest first.
pub record IsBuffer (b : Buffer) (es : List Entry) : Type 0 where
  pub ring : IsRing b (encode_all es)
  pub size : b.queuesize ≡ length (encode_all es)

append_assoc : {A : Type 0} (xs ys zs : List A) → (xs ++ ys) ++ zs ≡ xs ++ (ys ++ zs)
append_assoc [] ys zs = refl
append_assoc (x ∷ xs) ys zs = ap (λ l. x ∷ l) (append_assoc xs ys zs)

length-encode_all : (es : List Entry) → length es ≤ length (encode_all es)
length-encode_all [] = omega arith
length-encode_all (e ∷ es) =
    let rest = length-encode_all es in
    let both = length-append e.lits (encode_all es) in omega arith

encode_all-append : (es fs : List Entry) → encode_all (es ++ fs) ≡ encode_all es ++ encode_all fs
encode_all-append [] fs = refl
encode_all-append (e ∷ es) fs =
    ap (λ ws. encode e ++ ws) (encode_all-append es fs)
    ∙ sym (append_assoc (encode e) (encode_all es) (encode_all fs))

remove_one-IsBuffer :
    (b : Buffer) (e : Entry) (es : List Entry)
    → IsBuffer b (e ∷ es)
    → IsBuffer (remove_one b) es × (shape (remove_one b) ≡ shape b)
unfolding remove_one
remove_one-IsBuffer b e es k =
    let r = k.ring in
    let start = next_index-lt b.maxsize b.last r.in_range in
    let head : length e.lits ≡ b.elems (next_index b.maxsize b.last) =
      r.words 0 (omega arith)
      ∙ ap b.elems (place-zero b.maxsize (next_index b.maxsize b.last) start) in
    let moved : Buffer = record b {
      last_of_thread =
          move_threads b.nb_threads b.last
            (add_index b.maxsize b.last (b.elems (next_index b.maxsize b.last) + header_size))
            b.last_of_thread;
    } in
    let moved-IsRing : IsRing moved (encode e ++ encode_all es) = record {
      words = r.words;
      end = r.end;
      room = r.room;
      in_range = r.in_range;
    } in
    let (ring, less, size) = advance-IsRing (encode e) (encode_all es) moved moved-IsRing in
    let both = length-append (encode e) (encode_all es) in
    let all = k.size in
    let count : length (encode e) ≡ b.elems (next_index b.maxsize b.last) + header_size =
      omega arith in
    subst (λ n. IsBuffer (advance n moved) es × (shape (advance n moved) ≡ shape b)) count
      (record { ring = ring; size = less ∙ omega arith }, size)

-- What is kept, after the oldest were dropped.
abbrev pub Suffix : List Entry → List Entry → Type 0
Suffix es kept = (dropped : List Entry) × (es ≡ dropped ++ kept)

Suffix-trans : (es fs gs : List Entry) → Suffix es fs → Suffix fs gs → Suffix es gs
Suffix-trans es fs gs (ds, d) (cs, c) =
    (ds ++ cs, d ∙ ap (λ z. ds ++ z) c ∙ sym (append_assoc ds cs gs))

-- Whether a queue without room for `n` words may run empty: no thread is to see its newest clause, or
-- that alone leaves no room.
abbrev pub is_spent : ℕ → ℕ → List Entry → Bool
is_spent maxsize n [] = true
is_spent maxsize n (e ∷ []) = (e.seen == 0) || leb maxsize (length (encode e) + n)
is_spent maxsize n (e ∷ f ∷ es) = is_spent maxsize n (f ∷ es)

-- The oldest clause is removed on account of `n` words, or since no thread is to see it.
abbrev pub is_removed : ℕ → ℕ → Entry → List Entry → Bool
is_removed maxsize n e es = (e.seen == 0) || leb maxsize (length (encode_all (e ∷ es)) + n)

last-is_spent :
    (maxsize n : ℕ) (e : Entry)
    → is_removed maxsize n e [] ≡ true
    → is_spent maxsize n (e ∷ []) ≡ true
last-is_spent maxsize n e h = let long = length-append e.lits [] in ground arith

-- The word that counts the threads that are to see the oldest clause.
seen-word :
    (b : Buffer) (e : Entry) (es : List Entry)
    → IsBuffer b (e ∷ es)
    → b.elems (add_index b.maxsize b.last 2) ≡ e.seen
seen-word b e es k =
    let r = k.ring in
    let room = r.room in
    let same = place-shift b.maxsize b.last 1 r.in_range (omega arith) in
    ap b.elems (sym same) ∙ sym (r.words 1 (omega arith))

-- What a removal leaves: a state that holds the clauses that are kept.
abbrev Leaves : Buffer → List Entry → Option Buffer → List Entry → Type 0
Leaves b es o kept =
    (b' : Buffer) × (o ≡ some b') × IsBuffer b' kept × (shape b' ≡ shape b) × Suffix es kept

remove_last_clause-Leaves :
    (fuel n : ℕ) (b : Buffer) (e : Entry) (es : List Entry)
    → IsBuffer b (e ∷ es)
    → is_removed b.maxsize n e es ≡ true
    → length es < fuel
    → (kept : List Entry) × (length kept ≤ length es)
      × (is_spent b.maxsize n kept ≡ true → is_spent b.maxsize n (e ∷ es) ≡ true)
      × Leaves b (e ∷ es) (remove_last_clause fuel b) kept
unfolding remove_last_clause
remove_last_clause-Leaves zero n b e es k out h = absurd (omega arith)
remove_last_clause-Leaves (suc fuel) n b e [] k out h =
    let (k', size') = remove_one-IsBuffer b e [] k in
    let b' = remove_one b in
    let all = k.size in
    let filled : (b.queuesize == 0) ≡ false = ground arith in
    let none_left = k'.size in
    let empty : ltb 0 b'.queuesize ≡ false = ground arith in
    let last = last-is_spent b.maxsize n e out in
    ([], omega arith, λ h. last, (b', rw (filled, empty) refl, k', size', (e ∷ [], refl)))
remove_last_clause-Leaves (suc fuel) n b e (f ∷ fs) k out h =
    let (k', size') = remove_one-IsBuffer b e (f ∷ fs) k in
    let b' = remove_one b in
    let all = k.size in
    let filled : (b.queuesize == 0) ≡ false = ground arith in
    elim (Bool-cases (ltb 0 b'.queuesize && (b'.elems (add_index b'.maxsize b'.last 2) == 0))) [
      | inr stop ↦
          (f ∷ fs, omega arith, λ h. h, (b', rw (filled, stop) refl, k', size', (e ∷ [], refl)))
      | inl more ↦
          let seen = seen-word b' f fs k' in
          let unseen : (f.seen == 0) ≡ true = rw (sym seen) (ground arith) in
          let out' : is_removed b'.maxsize n f fs ≡ true = rw unseen refl in
          let (kept, short, spent, (b2, found, k2, size2, suffix)) =
            remove_last_clause-Leaves fuel n b' f fs k' out' (omega arith) in
          let same_size = ap (λ p. p.0) size' in
          (
            kept,
            omega arith,
            subst (λ m. is_spent m n kept ≡ true → is_spent m n (f ∷ fs) ≡ true) same_size spent,
            (
              b2,
              rw (filled, more) found,
              k2,
              size2 ∙ size',
              Suffix-trans (e ∷ f ∷ fs) (f ∷ fs) kept (e ∷ [], refl) suffix,
            ),
          )
    ]

is_zero : (n : ℕ) → (n == 0) ≡ true → n ≡ 0
is_zero n h = ground arith

nothing-is_spent :
    (maxsize n : ℕ) (es : List Entry) → length (encode_all es) ≡ 0 → is_spent maxsize n es ≡ true
nothing-is_spent maxsize n [] h = refl
nothing-is_spent maxsize n (e ∷ es) h = absurd (omega arith)

-- Room is made, or the queue runs empty.
abbrev Makes : ℕ → ℕ → Buffer → List Entry → Type 0
Makes fuel n b es =
    ((kept : List Entry) × (length (encode_all kept) + n < b.maxsize)
      × Leaves b es (make_room fuel n b) kept)
    ⊎ (make_room fuel n b ≡ none) × (is_spent b.maxsize n es ≡ true)

make_room-Leaves :
    (fuel n : ℕ) (b : Buffer) (es : List Entry)
    → IsBuffer b es
    → n < b.maxsize
    → length es < fuel
    → Makes fuel n b es
unfolding make_room
make_room-Leaves zero n b es k r h = absurd (omega arith)
make_room-Leaves (suc fuel) n b [] k r h =
    let none_there = k.size in
    let fits : leb b.maxsize (b.queuesize + n) ≡ false = ground arith in
    inl ([], omega arith, (b, rw fits refl, k, refl, ([], refl)))
make_room-Leaves (suc fuel) n b (e ∷ es) k r h =
    let all = k.size in
    let long = length-encode_all (e ∷ es) in
    elim (Bool-cases (leb b.maxsize (b.queuesize + n))) [
      | inr fits ↦ inl (e ∷ es, ground arith, (b, rw fits refl, k, refl, ([], refl)))
      | inl full ↦
          let (kept, short, spent, (b1, found, k1, size1, suffix)) =
            remove_last_clause-Leaves (suc b.queuesize) n b e es k (ground arith) (omega arith) in
          let same_size = ap (λ p. p.0) size1 in
          let left = k1.size in
          elim (Bool-cases (b1.queuesize == 0)) [
            | inl empty ↦
                let none_left : some_left b1 ≡ none = rw empty refl in
                inr (
                  rw full (
                      ap (λ o. o >>= some_left >>= make_room fuel n) found
                      ∙ ap (λ o. o >>= make_room fuel n) none_left),
                  spent (nothing-is_spent b.maxsize n kept (sym left ∙ is_zero b1.queuesize empty)),
                )
            | inr filled ↦
                let still : some_left b1 ≡ some b1 = rw filled refl in
                let on : make_room (suc fuel) n b ≡ make_room fuel n b1 = rw full (
                  ap (λ o. o >>= some_left >>= make_room fuel n) found
                  ∙ ap (λ o. o >>= make_room fuel n) still) in
                elim (make_room-Leaves fuel n b1 kept k1 (rw same_size r) (omega arith)) [
                  | inr (stopped, spent2) ↦ inr (on ∙ stopped, spent (rw same_size at spent2))
                  | inl (kept2, room2, (b2, found2, k2, size2, suffix2)) ↦ inl (
                    kept2,
                    rw same_size at room2,
                    (
                      b2,
                      on ∙ found2,
                      k2,
                      size2 ∙ size1,
                      Suffix-trans (e ∷ es) kept kept2 suffix suffix2,
                    ),
                  )
                ]
          ]
    ]

make_room-fits :
    (fuel n : ℕ) (b : Buffer)
    → leb b.maxsize (b.queuesize + n) ≡ false
    → make_room (suc fuel) n b ≡ some b
unfolding make_room
make_room-fits fuel n b h = rw h refl

-- The new clause stored in the room that was made.
store_words-IsBuffer :
    (origin : ℕ) (c : List ℕ) (b : Buffer) (es : List Entry)
    → IsBuffer b es
    → length (encode_all es) + (length c + header_size) < b.maxsize
    → (b' : Buffer) × (store_words origin c b ≡ some (true, b'))
      × IsBuffer b' (es ++ record { seen = to_see b; origin = origin; lits = c } ∷ [])
store_words-IsBuffer origin c b es k room =
    let new : Entry = record { seen = to_see b; origin = origin; lits = c } in
    let (ring, (same, size)) =
      push_words-IsRing (encode new) (encode_all es) b k.ring (omega arith) in
    let b' = push_words (encode new) b in
    let all = k.size in
    let long = length-append (encode_all es) (encode new) in
    let joined : encode_all es ++ encode new ≡ encode_all (es ++ new ∷ []) =
      ap (λ ws. encode_all es ++ ws) (append_nil (encode new))
      ∙ sym (encode_all-append es (new ∷ [])) in
    let stored : Buffer = record b' { queuesize = b'.queuesize + (length c + header_size) } in
    let stored-IsRing : IsRing stored (encode_all es ++ encode new) = record {
      words = ring.words;
      end = ring.end;
      room = ring.room;
      in_range = ring.in_range;
    } in
    (
      stored,
      refl,
      record {
        ring = subst (IsRing stored) joined stored-IsRing;
        size =
            let count : b'.queuesize + (length c + header_size)
                ≡ length (encode_all es ++ encode new) =
              omega arith in
            count ∙ ap length joined;
      },
    )

-- Whether a push is refused.
abbrev pub refuses : Bool → List ℕ → Buffer → Bool
refuses is_refused c b =
    is_refused
    || (not b.when_full_remove_older && leb b.maxsize (b.queuesize + (length c + header_size)))

-- The clause is added, and the newest clauses are kept.
abbrev pub Pushes : Bool → ℕ → List ℕ → Buffer → List Entry → Type 0
Pushes is_refused origin c b es =
    (b' : Buffer) × (kept : List Entry) × (push_from is_refused origin c b ≡ some (true, b'))
    × IsBuffer b' (kept ++ record { seen = to_see b; origin = origin; lits = c } ∷ [])
    × Suffix es kept
    × (length (encode_all es) + (length c + 3) < b.maxsize → kept ≡ es)

-- A push is refused if the size of the clause is, or if there is no room and the option asks for that,
-- and then it changes nothing. Otherwise a clause whose words are fewer than the ring's is added
-- at the end of the queue, for as many threads as are to see it; to make room the oldest clauses
-- are dropped, the others staying in their order, and none is dropped if there is room. Or the
-- assertion that clauses are left after a removal fails: only if there is no room, and no thread is to
-- see the newest clause or that alone leaves no room.
pub push_from-IsBuffer :
    (is_refused : Bool) (origin : ℕ) (c : List ℕ) (b : Buffer) (es : List Entry)
    → IsBuffer b es
    → length c + 3 < b.maxsize
    → (refuses is_refused c b ≡ true → push_from is_refused origin c b ≡ some (false, b))
      × (refuses is_refused c b ≡ false
          → Pushes is_refused origin c b es
            ⊎ (push_from is_refused origin c b ≡ none)
              × (leb b.maxsize (length (encode_all es) + (length c + 3)) ≡ true)
              × (is_spent b.maxsize (length c + 3) es ≡ true))
unfolding push_from
push_from-IsBuffer is_refused origin c b es k r =
    let n = length c + header_size in
    let all = k.size in
    let long = length-encode_all es in
    (
      λ out. rw out refl,
      λ taken. elim (Bool-cases (leb b.maxsize (b.queuesize + n))) [
        | inr fits ↦
            let found = make_room-fits b.queuesize n b fits in
            let (b', stored, k') = store_words-IsBuffer origin c b es k (ground arith) in
            inl (
              b',
              es,
              rw taken (ap (λ o. o >>= store_words origin c) found ∙ stored),
              k',
              ([], refl),
              λ h. refl,
            )
        | inl full ↦ elim (make_room-Leaves (suc b.queuesize) n b es k r (omega arith)) [
          | inr (stopped, spent) ↦
              inr (rw taken (ap (λ o. o >>= store_words origin c) stopped), ground arith, spent)
          | inl (kept, room, (b1, found, k1, size1, suffix)) ↦
              let same_size = ap (λ p. p.0) size1 in
              let same_threads = ap (λ p. p.1) size1 in
              let (b', stored, k') = store_words-IsBuffer origin c b1 kept k1 (rw same_size room) in
              inl (
                b',
                kept,
                rw taken (ap (λ o. o >>= store_words origin c) found ∙ stored),
                subst
                    (λ m. IsBuffer b' (
                      kept
                      ++ record { seen = if ltb 1 m then m - 1 else 1; origin = origin; lits = c }
                        ∷ []))
                    same_threads k',
                suffix,
                λ h. absurd (clash full (ground arith)),
              )
        ]
      ],
    )
