-- ===== src/Subsum/Entries.antt =====
-- ComSubsum: how a list of clauses is stored, and which of them subsum finds.
use dsyrup.Base.{
  ℕ, suc, ◌+◌, ◌≤◌, ◌<◌, ◌≡◌, ◌∙◌, refl, Bool, true, false, ◌&&◌, ◌||◌, List, [], ◌∷◌, ◌++◌, arith,
  if◌then◌else◌, ◌==◌, leb, length, Bool-cases, inl, inr,
}
use dsyrup.Clause.{is_inside}
use dsyrup.Clause.Meaning.{elem}
use dsyrup.Subsum.{HashClause, ComSubsum, get_hash_clause, is_subsumed_by, any_entry, subsum}
use dsyrup.Subsum.Words.{is_at, is_at-agree, is_subset, are_current-is_subset, is_inside-is_subset}

-- A clause that is not longer and whose literals are all in the other.
abbrev pub is_part : List ℕ → List ℕ → Bool
is_part d c = leb (length d) (length c) && is_subset d c

abbrev pub any_part : List (List ℕ) → List ℕ → Bool
any_part [] c = false
any_part (d ∷ ds) c = is_part d c || any_part ds c

abbrev pub is_head : ℕ → List ℕ → Bool
is_head l [] = false
is_head l (x ∷ xs) = x == l

abbrev pub with_head : ℕ → List (List ℕ) → List (List ℕ)
with_head l [] = []
with_head l (d ∷ ds) = let rest = with_head l ds in if is_head l d then d ∷ rest else rest

abbrev is_filled : List ℕ → Bool
is_filled [] = false
is_filled (x ∷ xs) = true

abbrev pub are_filled : List (List ℕ) → Bool
are_filled [] = true
are_filled (d ∷ ds) = is_filled d && are_filled ds

abbrev head_in : List ℕ → List ℕ → Bool
head_in [] ls = false
head_in (x ∷ xs) ls = elem x ls

-- The clauses found by the lists of some literals.
abbrev gathered : List ℕ → List (List ℕ) → List ℕ → Bool
gathered [] ds c = false
gathered (l ∷ ls) ds c = any_part (with_head l ds) c || gathered ls ds c

gathered-nil : (ls c : List ℕ) → gathered ls [] c ≡ false
gathered-nil [] c = refl
gathered-nil (l ∷ ls) c = gathered-nil ls c

gathered-cons :
    (ls d : List ℕ) (ds : List (List ℕ)) (c : List ℕ)
    → gathered ls (d ∷ ds) c ≡ (head_in d ls && is_part d c) || gathered ls ds c
gathered-cons [] [] ds c = refl
gathered-cons [] (x ∷ xs) ds c = refl
gathered-cons (l ∷ ls) [] ds c = let rest = gathered-cons ls [] ds c in rw rest refl
gathered-cons (l ∷ ls) (x ∷ xs) ds c =
    let rest = gathered-cons ls (x ∷ xs) ds c in
    elim (Bool-cases (x == l)) [
      | inl here ↦
          rw (here, rest)
            (merge (is_part (x ∷ xs) c) (any_part (with_head l ds) c) (elem x ls)
              (gathered ls ds c))
      | inr there ↦
          rw (there, rest)
            (swap (any_part (with_head l ds) c) (elem x ls && is_part (x ∷ xs) c)
              (gathered ls ds c))
    ]
  where
    merge : (a b e g : Bool) → ((a || b) || ((e && a) || g)) ≡ (a || (b || g))
    merge true b e g = refl
    merge false true e g = refl
    merge false false true g = refl
    merge false false false g = refl

    swap : (b e g : Bool) → (b || (e || g)) ≡ (e || (b || g))
    swap true true g = refl
    swap true false g = refl
    swap false true g = refl
    swap false false g = refl

pub gathered-any_part :
    (ds : List (List ℕ)) (c : List ℕ) → are_filled ds ≡ true → gathered c ds c ≡ any_part ds c
gathered-any_part [] c h = gathered-nil c c
gathered-any_part ([] ∷ ds) c h = cc
gathered-any_part ((x ∷ xs) ∷ ds) c h =
    let rest = gathered-any_part ds c (ground arith) in
    rw (gathered-cons c (x ∷ xs) ds c, rest) (ground arith)

module _ (bit : ℕ → ℕ → Bool) where
  pub record IsEntry (mem : ℕ → ℕ) (lim : ℕ) (it : HashClause) (d : List ℕ) : Type 0 where
    pub size_at : mem it.addr ≡ length d
    pub literals_at : is_at mem (suc it.addr) d ≡ true
    pub word : it.hash ≡ get_hash_clause bit d
    pub fits : suc it.addr + length d ≤ lim

  abbrev pub Entries : (ℕ → ℕ) → ℕ → List HashClause → List (List ℕ) → Type 0
  Entries mem lim [] [] = Unit
  Entries mem lim [] (d ∷ ds) = false ≡ true
  Entries mem lim (it ∷ its) [] = false ≡ true
  Entries mem lim (it ∷ its) (d ∷ ds) = IsEntry mem lim it d × Entries mem lim its ds

  -- The clauses are stored, each in the list of its first literal, in the order of their addition.
  pub record Represents (s : ComSubsum) (ds : List (List ℕ)) : Type 0 where
    pub entries : (l : ℕ) → Entries s.clauses s.lim_clauses (s.watch l) (with_head l ds)
    pub idle : (l : ℕ) → s.current_clause l ≡ false
    pub filled : are_filled ds ≡ true

  is_subsumed_by-is_part :
      (s : ComSubsum) (c d : List ℕ) (it : HashClause)
      → ((k : ℕ) → s.current_clause k ≡ elem k c)
      → s.hash ≡ get_hash_clause bit c
      → IsEntry s.clauses s.lim_clauses it d
      → is_subsumed_by bit s (length c) it ≡ is_part d c
  is_subsumed_by-is_part s c d it h w k =
      let found =
        are_current-is_subset s.current_clause s.clauses (suc it.addr) d c h k.literals_at in
      elim (Bool-cases (is_subset d c)) [
        | inl inside ↦
            let word = is_inside-is_subset bit 64 d c inside in
            rw (k.size_at, found, inside, k.word, w, word) refl
        | inr outside ↦
            rw (k.size_at, found, outside)
              (never (is_inside 64 it.hash s.hash) (leb (length d) (length c)))
      ]
    where
      never : (a b : Bool) → ((a && b) && false) ≡ (b && false)
      never true true = refl
      never true false = refl
      never false true = refl
      never false false = refl

  any_entry-any_part :
      (s : ComSubsum) (c : List ℕ) (its : List HashClause) (ds : List (List ℕ))
      → ((k : ℕ) → s.current_clause k ≡ elem k c)
      → s.hash ≡ get_hash_clause bit c
      → Entries s.clauses s.lim_clauses its ds
      → any_entry bit s (length c) its ≡ any_part ds c
  any_entry-any_part s c [] [] h w e = refl
  any_entry-any_part s c [] (d ∷ ds) h w e = cc
  any_entry-any_part s c (it ∷ its) [] h w e = cc
  any_entry-any_part s c (it ∷ its) (d ∷ ds) h w (k, e) =
      rw (is_subsumed_by-is_part s c d it h w k, any_entry-any_part s c its ds h w e) refl

  pub subsum-gathered :
      (s : ComSubsum) (c ls : List ℕ) (ds : List (List ℕ))
      → ((k : ℕ) → s.current_clause k ≡ elem k c)
      → s.hash ≡ get_hash_clause bit c
      → ((l : ℕ) → Entries s.clauses s.lim_clauses (s.watch l) (with_head l ds))
      → subsum bit s (length c) ls ≡ gathered ls ds c
  unfolding subsum
  subsum-gathered s c [] ds h w e = refl
  subsum-gathered s c (l ∷ ls) ds h w e =
      rw
        (
          any_entry-any_part s c (s.watch l) (with_head l ds) h w (e l),
          subsum-gathered s c ls ds h w e,
        )
        refl

  pub Entries-agree :
      (mem mem' : ℕ → ℕ) (lim lim' : ℕ) (its : List HashClause) (ds : List (List ℕ))
      → ((i : ℕ) → i < lim → mem' i ≡ mem i)
      → lim ≤ lim'
      → Entries mem lim its ds
      → Entries mem' lim' its ds
  Entries-agree mem mem' lim lim' [] [] h m e = tt
  Entries-agree mem mem' lim lim' [] (d ∷ ds) h m e = e
  Entries-agree mem mem' lim lim' (it ∷ its) [] h m e = e
  Entries-agree mem mem' lim lim' (it ∷ its) (d ∷ ds) h m (k, e) = (
    record {
      size_at = let low = k.fits in h it.addr (omega arith) ∙ k.size_at;
      literals_at = is_at-agree mem mem' (suc it.addr) lim d h k.fits ∙ k.literals_at;
      word = k.word;
      fits = let low = k.fits in omega arith;
    },
    Entries-agree mem mem' lim lim' its ds h m e,
  )

  pub Entries-append :
      (mem : ℕ → ℕ) (lim : ℕ) (its : List HashClause) (ds : List (List ℕ)) (it : HashClause)
      (d : List ℕ)
      → Entries mem lim its ds
      → IsEntry mem lim it d
      → Entries mem lim (its ++ it ∷ []) (ds ++ d ∷ [])
  Entries-append mem lim [] [] it d e k = (k, tt)
  Entries-append mem lim [] (c ∷ ds) it d e k = cc
  Entries-append mem lim (i ∷ its) [] it d e k = cc
  Entries-append mem lim (i ∷ its) (c ∷ ds) it d (j, e) k =
      (j, Entries-append mem lim its ds it d e k)
