-- ===== src/Subsum/Words.antt =====
-- ComSubsum: what its loops over literals compute.
use dsyrup.Base.{
  false_not_true, ℕ, zero, suc, ◌+◌, ◌≤◌, ◌<◌, ◌≡◌, ◌∙◌, refl, Bool, true, false, not, ◌&&◌, ◌||◌,
  List, [], ◌∷◌, arith, ◌==◌, length, Bool-cases, inl, inr,
}
use dsyrup.Clause.{is_inside, put}
use dsyrup.Clause.Meaning.{elem}
use dsyrup.Subsum.{set_all, write_all, are_current, get_hash_clause}

pub set_all-true : (ls : List ℕ) (f : ℕ → Bool) (k : ℕ) → set_all true ls f k ≡ elem k ls || f k
set_all-true [] f k = refl
set_all-true (l ∷ ls) f k = ground (arith, set_all-true ls (put l true f) k)

pub set_all-false :
    (ls : List ℕ) (f : ℕ → Bool) (k : ℕ) → set_all false ls f k ≡ not (elem k ls) && f k
set_all-false [] f k = refl
set_all-false (l ∷ ls) f k = ground (arith, set_all-false ls (put l false f) k)

pub write_all-below :
    (a : ℕ) (ls : List ℕ) (mem : ℕ → ℕ) (i : ℕ) → i < a → write_all a ls mem i ≡ mem i
write_all-below a [] mem i h = refl
write_all-below a (l ∷ ls) mem i h =
    let other : (a == i) ≡ false = ground arith in
    write_all-below (suc a) ls (put a l mem) i (omega arith) ∙ (rw other refl)

-- The literals that are stored from an address on.
abbrev pub is_at : (ℕ → ℕ) → ℕ → List ℕ → Bool
is_at mem a [] = true
is_at mem a (l ∷ ls) = (mem a == l) && is_at mem (suc a) ls

pub is_at-write_all : (a : ℕ) (ls : List ℕ) (mem : ℕ → ℕ) → is_at (write_all a ls mem) a ls ≡ true
is_at-write_all a [] mem = refl
is_at-write_all a (l ∷ ls) mem =
    let here : (a == a) ≡ true = ground arith in
    let first : write_all (suc a) ls (put a l mem) a ≡ l =
      write_all-below (suc a) ls (put a l mem) a (omega arith) ∙ (rw here refl) in
    let rest = is_at-write_all (suc a) ls (put a l mem) in ground arith

-- What is stored below an address stays.
pub is_at-agree :
    (mem mem' : ℕ → ℕ) (a bound : ℕ) (ls : List ℕ)
    → ((i : ℕ) → i < bound → mem' i ≡ mem i)
    → a + length ls ≤ bound
    → is_at mem' a ls ≡ is_at mem a ls
is_at-agree mem mem' a bound [] h k = refl
is_at-agree mem mem' a bound (l ∷ ls) h k =
    let now = h a (omega arith) in
    let rest = is_at-agree mem mem' (suc a) bound ls h (omega arith) in rw (now, rest) refl

abbrev pub is_subset : List ℕ → List ℕ → Bool
is_subset [] c = true
is_subset (l ∷ ls) c = elem l c && is_subset ls c

pub are_current-is_subset :
    (current : ℕ → Bool) (mem : ℕ → ℕ) (a : ℕ) (d c : List ℕ)
    → ((k : ℕ) → current k ≡ elem k c)
    → is_at mem a d ≡ true
    → are_current current mem a (length d) ≡ is_subset d c
are_current-is_subset current mem a [] c h k = refl
are_current-is_subset current mem a (l ∷ d) c h k =
    let same : mem a ≡ l = ground arith in
    let rest = are_current-is_subset current mem (suc a) d c h (ground arith) in
    rw (same, h l, rest) refl

module _ (bit : ℕ → ℕ → Bool) where
  get_hash_clause-elem :
      (l i : ℕ) (c : List ℕ) → elem l c ≡ true → bit l i ≡ true → get_hash_clause bit c i ≡ true
  get_hash_clause-elem l i [] h k = absurd (false_not_true h)
  get_hash_clause-elem l i (x ∷ c) h k = elim (Bool-cases (l == x)) [
    | inl here ↦
        let same : l ≡ x = ground arith in let now : bit x i ≡ true = rw same at k in ground arith
    | inr there ↦ let rest = get_hash_clause-elem l i c (ground arith) k in ground arith
  ]

  get_hash_clause-is_subset :
      (i : ℕ) (d c : List ℕ)
      → is_subset d c ≡ true
      → get_hash_clause bit d i ≡ true
      → get_hash_clause bit c i ≡ true
  get_hash_clause-is_subset i [] c h k = absurd (no_bit k)
    where
      no_bit : false ≡ true → ⊥
      no_bit e = cc
  get_hash_clause-is_subset i (l ∷ d) c h k = elim (Bool-cases (bit l i)) [
    | inl here ↦ get_hash_clause-elem l i c (ground arith) here
    | inr there ↦ get_hash_clause-is_subset i d c (ground arith) (ground arith)
  ]

  -- The word of a subset has no bit that the other word lacks, whatever the bits of a literal are.
  pub is_inside-is_subset :
      (n : ℕ) (d c : List ℕ)
      → is_subset d c ≡ true
      → is_inside n (get_hash_clause bit d) (get_hash_clause bit c) ≡ true
  is_inside-is_subset zero d c h = refl
  is_inside-is_subset (suc n) d c h =
      let rest = is_inside-is_subset n d c h in
      elim (Bool-cases (get_hash_clause bit d n)) [
        | inl one ↦ let other = get_hash_clause-is_subset n d c h one in ground arith
        | inr none_here ↦ ground arith
      ]
