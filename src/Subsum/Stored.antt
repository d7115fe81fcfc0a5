-- ===== src/Subsum/Stored.antt =====
-- ComSubsum against a list of clauses: what `add` answers and stores.
use dsyrup.Base.{
  ℕ, suc, ◌+◌, ◌<◌, ◌≡◌, ◌∙◌, refl, sym, subst, Bool, true, false, not, ◌&&◌, ◌||◌, List, [], ◌∷◌,
  ◌++◌, arith, if◌then◌else◌, ◌==◌, length, Bool-cases, inl, inr,
}
use dsyrup.Clause.{put}
use dsyrup.Clause.Meaning.{elem}
use dsyrup.Subsum.{ComSubsum, set_all, write_all, get_hash_clause, subsum, store_clause, add}
use dsyrup.Subsum.Words.{set_all-true, set_all-false, write_all-below, is_at-write_all}
use dsyrup.Subsum.Entries.{
  any_part, is_head, with_head, are_filled, gathered-any_part, Entries, Represents, IsEntry,
  Entries-agree, Entries-append, subsum-gathered,
}

with_head-append :
    (l : ℕ) (ds : List (List ℕ)) (x : ℕ) (xs : List ℕ)
    → with_head l (ds ++ (x ∷ xs) ∷ [])
      ≡ (if x == l then with_head l ds ++ (x ∷ xs) ∷ [] else with_head l ds)
with_head-append l [] x xs = refl
with_head-append l (d ∷ ds) x xs =
    let rest = with_head-append l ds x xs in
    elim (Bool-cases (is_head l d)) [
      | inl here ↦ rw (here, rest) (inside (x == l) d (with_head l ds) ((x ∷ xs) ∷ []))
      | inr there ↦ rw (there, rest) refl
    ]
  where
    inside :
        (b : Bool) (d : List ℕ) (ds es : List (List ℕ))
        → (d ∷ (if b then ds ++ es else ds)) ≡ (if b then (d ∷ ds) ++ es else d ∷ ds)
    inside true d ds es = refl
    inside false d ds es = refl

are_filled-append :
    (ds : List (List ℕ)) (x : ℕ) (xs : List ℕ)
    → are_filled ds ≡ true
    → are_filled (ds ++ (x ∷ xs) ∷ []) ≡ true
are_filled-append [] x xs h = refl
are_filled-append (d ∷ ds) x xs h =
    let rest = are_filled-append ds x xs (ground arith) in ground arith

module _ (bit : ℕ → ℕ → Bool) where
  store_clause-Entries :
      (s : ComSubsum) (ds : List (List ℕ)) (x : ℕ) (xs : List ℕ)
      → s.hash ≡ get_hash_clause bit (x ∷ xs)
      → ((l : ℕ) → Entries bit s.clauses s.lim_clauses (s.watch l) (with_head l ds))
      → (l : ℕ)
      → Entries bit
          (store_clause x (x ∷ xs) s).clauses
          (store_clause x (x ∷ xs) s).lim_clauses
          ((store_clause x (x ∷ xs) s).watch l)
          (with_head l (ds ++ (x ∷ xs) ∷ []))
  store_clause-Entries s ds x xs w e l =
      let c = x ∷ xs in
      let mem = write_all (suc s.lim_clauses) c (put s.lim_clauses (length c) s.clauses) in
      let lim = suc s.lim_clauses + length c in
      let same : (i : ℕ) → i < s.lim_clauses → mem i ≡ s.clauses i = λ i h.
        let other : (s.lim_clauses == i) ≡ false = ground arith in
        write_all-below (suc s.lim_clauses) c (put s.lim_clauses (length c) s.clauses) i
          (omega arith)
        ∙ (rw other refl) in
      let old =
        Entries-agree bit s.clauses mem s.lim_clauses lim (s.watch l) (with_head l ds) same
          (omega arith) (e l) in
      let here : (s.lim_clauses == s.lim_clauses) ≡ true = ground arith in
      let new : IsEntry bit mem lim (record { addr = s.lim_clauses; hash = s.hash }) c = record {
        size_at =
            write_all-below (suc s.lim_clauses) c (put s.lim_clauses (length c) s.clauses)
              s.lim_clauses (omega arith)
            ∙ (rw here refl);
        literals_at =
            is_at-write_all (suc s.lim_clauses) c (put s.lim_clauses (length c) s.clauses);
        word = w;
        fits = omega arith;
      } in
      elim (Bool-cases (x == l)) [
        | inl first ↦
            let equal : x ≡ l = ground arith in
            rw (with_head-append l ds x xs, first)
              (subst
                (λ k.
                  Entries bit mem lim
                    (s.watch k ++ record { addr = s.lim_clauses; hash = s.hash } ∷ [])
                    (with_head l ds ++ c ∷ []))
                (sym equal)
                (Entries-append bit mem lim (s.watch l) (with_head l ds)
                  (record { addr = s.lim_clauses; hash = s.hash }) c old new))
        | inr other ↦ rw (with_head-append l ds x xs, other) old
      ]

  -- `add` answers whether some stored clause is not longer than the given one and has only literals
  -- of it, and otherwise stores the given clause as well, for whatever bits the shift yields.
  pub add-any_part :
      (s : ComSubsum) (ds : List (List ℕ)) (x : ℕ) (xs : List ℕ)
      → Represents bit s ds
      → ((add bit x xs s).0 ≡ any_part ds (x ∷ xs))
        × Represents bit
            (add bit x xs s).1
            (if any_part ds (x ∷ xs) then ds else ds ++ (x ∷ xs) ∷ [])
  unfolding add
  add-any_part s ds x xs k =
      let c = x ∷ xs in
      let s' : ComSubsum = record s {
        current_clause = set_all true c s.current_clause;
        hash = get_hash_clause bit c;
      } in
      let marked : (l : ℕ) → s'.current_clause l ≡ elem l c =
        λ l. set_all-true c s.current_clause l ∙ (rw (k.idle l) (never (elem l c))) in
      let idle : (l : ℕ) → set_all false c s'.current_clause l ≡ false =
        λ l. set_all-false c s'.current_clause l ∙ (rw (marked l) (no_more (elem l c))) in
      let found : subsum bit s' (length c) c ≡ any_part ds c =
        subsum-gathered bit s' c c ds marked refl k.entries ∙ gathered-any_part ds c k.filled in
      elim (Bool-cases (any_part ds c)) [
        | inl yes_part ↦
            rw (found, yes_part)
              (refl, record { entries = k.entries; idle = idle; filled = k.filled })
        | inr no_part ↦
            rw (found, no_part)
              (
                refl,
                record {
                  entries = store_clause-Entries s' ds x xs refl k.entries;
                  idle = idle;
                  filled = are_filled-append ds x xs k.filled;
                },
              )
      ]
    where
      never : (b : Bool) → (b || false) ≡ b
      never true = refl
      never false = refl

      no_more : (b : Bool) → (not b && b) ≡ false
      no_more true = refl
      no_more false = refl
