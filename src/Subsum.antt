-- ===== src/Subsum.antt =====
-- Solvers/SAT/GlucoseSyrup/syrup/com/ComSubsum.{h,cc}: the clauses that were sent, and whether one of
-- them subsumes the next. The array of the clauses is a function without an end; a word of 64 bits is
-- the set of its bits, and the bits of `1<<(l%64)`, which C++ does not define from 32 on, are a
-- parameter.
pub mod Words
pub mod Entries
pub mod Stored
mod Tests
use dsyrup.Base.{
  ℕ, zero, suc, ◌+◌, Bool, true, false, ◌&&◌, ◌||◌, List, [], ◌∷◌, ◌++◌, if◌then◌else◌, leb, length,
}
use dsyrup.Clause.{is_inside, put}

-- `hashClause`
pub record HashClause : Type 0 where
  pub addr : ℕ
  pub hash : ℕ → Bool

-- `ComSubsum`, with the lists of `watch` by literal
pub record ComSubsum : Type 0 where
  pub deleted : ℕ
  pub check : ℕ
  pub local_check : ℕ
  pub local_deleted : ℕ
  pub lim_clauses : ℕ
  pub nb_clauses : ℕ
  pub hash : ℕ → Bool
  pub clauses : ℕ → ℕ
  pub current_clause : ℕ → Bool
  pub watch : ℕ → List HashClause

-- The loops that write a value to `currentClause`.
abbrev pub set_all : Bool → List ℕ → (ℕ → Bool) → ℕ → Bool
set_all v [] f = f
set_all v (l ∷ ls) f = set_all v ls (put l v f)

-- The loop that copies the literals.
abbrev pub write_all : ℕ → List ℕ → (ℕ → ℕ) → ℕ → ℕ
write_all a [] mem = mem
write_all a (l ∷ ls) mem = write_all (suc a) ls (put a l mem)

-- Whether the `n` literals from an address are in the current clause.
abbrev pub are_current : (ℕ → Bool) → (ℕ → ℕ) → ℕ → ℕ → Bool
are_current current mem a zero = true
are_current current mem a (suc n) = current (mem a) && are_current current mem (suc a) n

-- A clause that is not subsumed is kept, in the list of its first literal.
abbrev pub store_clause : ℕ → List ℕ → ComSubsum → ComSubsum
store_clause x ls s = record s {
  watch = put x (s.watch x ++ record { addr = s.lim_clauses; hash = s.hash } ∷ []) s.watch;
  clauses = write_all (suc s.lim_clauses) ls (put s.lim_clauses (length ls) s.clauses);
  lim_clauses = suc s.lim_clauses + length ls;
  nb_clauses = suc s.nb_clauses;
}

abbrev pub count_deleted : ComSubsum → ComSubsum
count_deleted s = record s { local_deleted = suc s.local_deleted; deleted = suc s.deleted }

abbrev pub finish : List ℕ → ComSubsum → ComSubsum
finish ls s = record s {
  current_clause = set_all false ls s.current_clause;
  check = suc s.check;
  local_check = suc s.local_check;
}

module _ (bit : ℕ → ℕ → Bool) where
  -- `getHashClause`
  abbrev pub get_hash_clause : List ℕ → ℕ → Bool
  get_hash_clause [] i = false
  get_hash_clause (l ∷ ls) i = bit l i || get_hash_clause ls i

  -- The body of the inner loop.
  abbrev pub is_subsumed_by : ComSubsum → ℕ → HashClause → Bool
  is_subsumed_by s size it =
      is_inside 64 it.hash s.hash
      && leb (s.clauses it.addr) size
      && are_current s.current_clause s.clauses (suc it.addr) (s.clauses it.addr)

  abbrev pub any_entry : ComSubsum → ℕ → List HashClause → Bool
  any_entry s size [] = false
  any_entry s size (it ∷ its) = is_subsumed_by s size it || any_entry s size its

  -- `subsum`, from a literal on
  unfoldable pub subsum : ComSubsum → ℕ → List ℕ → Bool
  subsum s size [] = false
  subsum s size (l ∷ ls) = any_entry s size (s.watch l) || subsum s size ls

  -- `add`, on a clause with first literal `x`
  unfoldable pub add : ℕ → List ℕ → ComSubsum → Bool × ComSubsum
  unfolding subsum
  add x xs s =
      let ls = x ∷ xs in
      let s' = record s {
        current_clause = set_all true ls s.current_clause;
        hash = get_hash_clause ls;
      } in
      if subsum s' (length ls) ls
      then (true, finish ls (count_deleted s'))
      else (false, finish ls (store_clause x ls s'))

-- `clear`, for either value of `type`
abbrev pub clear : Bool → ComSubsum → ComSubsum
clear true s = s
clear false s = record s { local_check = 0; local_deleted = 0; lim_clauses = 0; watch = λ l. [] }
