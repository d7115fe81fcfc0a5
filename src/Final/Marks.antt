-- ===== src/Final/Marks.antt =====
-- analyzeFinal: the literals of a reason that are marked.
use dsyrup.Base.{
  false_not_true, ℕ, ◌≤◌, ◌<◌, ◌≡◌, refl, Bool, true, false, some, List, [], ◌∷◌, arith, ◌==◌, ltb,
  length, Bool-cases, inl, inr,
}
use dsyrup.Literal.{negate, var}
use dsyrup.Clause.{put}
use dsyrup.Clause.Meaning.{satisfies, elem}
use dsyrup.Trail.{Trail}
use dsyrup.Trail.Invariant.{on_trail, is_levelled, is_descending}
use dsyrup.Trail.Cancel.{limit, limit-count_upto}
use dsyrup.Final.{mark, mark_reason}

-- The reason of a literal holds it, at its first place unless it is a binary clause, and the
-- negations of its other literals were assigned before.
pub record IsReason (l : ℕ) (before c : List ℕ) : Type 0 where
  pub inside : elem l c ≡ true
  pub others : (k : ℕ) → elem k c ≡ true → (k == l) ≡ false → elem (negate k) before ≡ true
  pub placed : (x : ℕ) (ls : List ℕ) → c ≡ x ∷ ls → (length ls == 1) ≡ false → x ≡ l

-- Each literal that is no decision has a reason.
abbrev pub Explained : (ℕ → List ℕ) → Trail → List ℕ → Type 0
Explained ca t [] = Unit
Explained ca t (l ∷ ls) =
    ((cr : ℕ) → t.reason (var l) ≡ some cr → IsReason l ls (ca cr)) × Explained ca t ls

mark-kept :
    (level : ℕ → ℕ) (ls : List ℕ) (seen : ℕ → Bool) (v : ℕ)
    → seen v ≡ true
    → mark level ls seen v ≡ true
mark-kept level [] seen v h = h
mark-kept level (l ∷ ls) seen v h = elim (Bool-cases (ltb 0 (level (var l)))) [
  | inl high ↦ rw high (mark-kept level ls (put (var l) true seen) v (ground arith))
  | inr low ↦ rw low (mark-kept level ls seen v h)
]

mark-elem :
    (level : ℕ → ℕ) (ls : List ℕ) (seen : ℕ → Bool) (k : ℕ)
    → elem k ls ≡ true
    → ltb 0 (level (var k)) ≡ true
    → mark level ls seen (var k) ≡ true
mark-elem level [] seen k e h = absurd (false_not_true e)
mark-elem level (l ∷ ls) seen k e h = elim (Bool-cases (k == l)) [
  | inl here ↦
      let same : k ≡ l = ground arith in
      let high : ltb 0 (level (var l)) ≡ true = rw same at h in
      rw high (mark-kept level ls (put (var l) true seen) (var k) (rw same (ground arith)))
  | inr there ↦ elim (Bool-cases (ltb 0 (level (var l)))) [
    | inl high ↦ rw high (mark-elem level ls (put (var l) true seen) k (ground arith) h)
    | inr low ↦ rw low (mark-elem level ls seen k (ground arith) h)
  ]
]

-- Every literal of a reason but the one it implies is marked, if it is not of level 0.
pub mark_reason-elem :
    (level : ℕ → ℕ) (c before : List ℕ) (l : ℕ) (seen : ℕ → Bool) (k : ℕ)
    → IsReason l before c
    → elem k c ≡ true
    → (k == l) ≡ false
    → ltb 0 (level (var k)) ≡ true
    → mark_reason level c seen (var k) ≡ true
mark_reason-elem level [] before l seen k r e d h = absurd (false_not_true e)
mark_reason-elem level (x ∷ ls) before l seen k r e d h = elim (Bool-cases (length ls == 1)) [
  | inl binary ↦ rw binary (mark-elem level (x ∷ ls) seen k e h)
  | inr long ↦
      let first : x ≡ l = r.placed x ls refl long in
      let other : (k == x) ≡ false = rw first d in
      rw long (mark-elem level ls seen k (ground arith) h)
]

pub mark_reason-kept :
    (level : ℕ → ℕ) (c : List ℕ) (seen : ℕ → Bool) (v : ℕ)
    → seen v ≡ true
    → mark_reason level c seen v ≡ true
mark_reason-kept level [] seen v h = h
mark_reason-kept level (x ∷ ls) seen v h = elim (Bool-cases (length ls == 1)) [
  | inl binary ↦ rw binary (mark-kept level (x ∷ ls) seen v h)
  | inr long ↦ rw long (mark-kept level ls seen v h)
]

pub off_trail :
    (v l : ℕ) (ls : List ℕ) → on_trail v ls ≡ false → elem l ls ≡ true → (v == var l) ≡ false
off_trail v l [] o e = absurd (false_not_true e)
off_trail v l (x ∷ ls) o e = elim (Bool-cases (l == x)) [
  | inl here ↦ let same : l ≡ x = ground arith in rw same (ground arith)
  | inr there ↦ off_trail v l ls (ground arith) (ground arith)
]

-- The reasons hold.
abbrev pub Supported : (ℕ → List ℕ) → Trail → (ℕ → Bool) → List ℕ → Type 0
Supported ca t α [] = Unit
Supported ca t α (l ∷ ls) =
    ((cr : ℕ) → t.reason (var l) ≡ some cr → satisfies α (ca cr) ≡ true) × Supported ca t α ls

-- Literals below the first limit are of level 0.
pub low_level :
    (level : ℕ → ℕ) (bound : ℕ) (lims ls : List ℕ) (k : ℕ)
    → is_descending bound lims ≡ true
    → 0 < length lims
    → is_levelled level lims ls ≡ true
    → length ls ≤ limit 0 lims
    → elem k ls ≡ true
    → ltb 0 (level (var k)) ≡ false
low_level level bound lims [] k d o l h e = absurd (false_not_true e)
low_level level bound lims (x ∷ ls) k d o l h e = elim (Bool-cases (k == x)) [
  | inl here ↦
      let same : k ≡ x = ground arith in
      let past = limit-count_upto 0 (length ls) bound lims o d in rw same (ground arith)
  | inr there ↦ low_level level bound lims ls k d o (ground arith) (omega arith) (ground arith)
]
