-- ===== src/Analyze/Literals.antt =====
-- analyze: literals of clauses and of the trail.
use dsyrup.Base.{
  false_not_true, clash, not, ℕ, ◌≡◌, refl, sym, ap, ◌∙◌, Bool, true, false, ◌&&◌, ◌||◌, List, [],
  ◌∷◌, ◌++◌, arith, ◌==◌, Bool-cases, inl, inr,
}
use dsyrup.Literal.{negate, var}
use dsyrup.Literal.Laws.{negate-involutive}
use dsyrup.Clause.{put}
use dsyrup.Clause.Meaning.{elem}
use dsyrup.Trail.Invariant.{on_trail, is_once}
use dsyrup.Final.Marks.{off_trail}

pub elem-append : (l : ℕ) (c d : List ℕ) → elem l (c ++ d) ≡ elem l c || elem l d
elem-append l [] d = refl
elem-append l (x ∷ c) d = ground (arith, elem-append l c d)

-- A trail has one literal of a variable.
pub same_literal :
    (ls : List ℕ) (a b : ℕ)
    → is_once ls ≡ true
    → elem a ls ≡ true
    → elem b ls ≡ true
    → (var a == var b) ≡ true
    → a ≡ b
same_literal [] a b o e f v = absurd (false_not_true e)
same_literal (x ∷ ls) a b o e f v = elim (Bool-cases (a == x)) [
  | inl here ↦ elim (Bool-cases (b == x)) [
    | inl too ↦ ground arith
    | inr below ↦
        let apart = off_trail (var x) b ls (ground arith) (ground arith) in
        let same : a ≡ x = ground arith in absurd (clash (rw same at v) apart)
  ]
  | inr there ↦ elim (Bool-cases (b == x)) [
    | inl here ↦
        let apart = off_trail (var x) a ls (ground arith) (ground arith) in
        let same : b ≡ x = ground arith in
        let v' : (var a == var x) ≡ true = rw same at v in ground arith
    | inr below ↦ same_literal ls a b (ground arith) (ground arith) (ground arith) v
  ]
]

pub same_negated :
    (ls : List ℕ) (a b : ℕ)
    → is_once ls ≡ true
    → elem (negate a) ls ≡ true
    → elem (negate b) ls ≡ true
    → (var a == var b) ≡ true
    → a ≡ b
same_negated ls a b o e f v =
    let va = (negate-involutive a).0 in
    let vb = (negate-involutive b).0 in
    let same = same_literal ls (negate a) (negate b) o e f (rw (va, vb) v) in
    sym ((negate-involutive a).2) ∙ ap negate same ∙ (negate-involutive b).2

-- All literals of a clause are false on the rest of the trail.
abbrev pub are_false_on : List ℕ → List ℕ → Bool
are_false_on ls [] = true
are_false_on ls (q ∷ qs) = elem (negate q) ls && are_false_on ls qs

on_trail-insert :
    (v x : ℕ) (c d : List ℕ) → on_trail v (c ++ x ∷ d) ≡ (var x == v) || on_trail v (c ++ d)
on_trail-insert v x [] d = refl
on_trail-insert v x (y ∷ c) d = ground (arith, on_trail-insert v x c d)

is_once-insert :
    (x : ℕ) (c d : List ℕ)
    → is_once (c ++ x ∷ d) ≡ not (on_trail (var x) (c ++ d)) && is_once (c ++ d)
is_once-insert x [] d = refl
is_once-insert x (y ∷ c) d = ground (arith, is_once-insert x c d, on_trail-insert (var y) x c d)

pub elem-on_trail : (ls : List ℕ) (l : ℕ) → elem l ls ≡ true → on_trail (var l) ls ≡ true
elem-on_trail [] l e = absurd (false_not_true e)
elem-on_trail (x ∷ ls) l e = elim (Bool-cases (l == x)) [
  | inl same ↦ let equal : l ≡ x = ground arith in rw equal (ground arith)
  | inr other ↦ let rest = elem-on_trail ls l (ground arith) in ground arith
]

-- A literal of a new variable, put in somewhere.
pub inserted :
    (seen : ℕ → Bool) (q : ℕ) (c d e : List ℕ)
    → e ≡ c ++ q ∷ d
    → seen (var q) ≡ false
    → ((v : ℕ) → on_trail v (c ++ d) ≡ true → seen v ≡ true)
    → is_once (c ++ d) ≡ true
    → ((v : ℕ) → on_trail v e ≡ true → put (var q) true seen v ≡ true) × (is_once e ≡ true)
inserted seen q c d e same n h o =
    let off : on_trail (var q) (c ++ d) ≡ false = elim (Bool-cases (on_trail (var q) (c ++ d))) [
      | inr fine ↦ fine
      | inl bad ↦ absurd (clash (h (var q) bad) n)
    ] in
    let once = is_once-insert q c d in
    rw same (
      λ v on. let split = on_trail-insert v q c d in let old = h v in ground arith,
      once ∙ rw (off, o) refl,
    )

pub are_false_on-append :
    (ls c d : List ℕ) → are_false_on ls (c ++ d) ≡ are_false_on ls c && are_false_on ls d
are_false_on-append ls [] d = refl
are_false_on-append ls (x ∷ c) d = ground (arith, are_false_on-append ls c d)

pub are_false_on-elem :
    (ls qs : List ℕ) (q : ℕ)
    → are_false_on ls qs ≡ true
    → elem q qs ≡ true
    → elem (negate q) ls ≡ true
are_false_on-elem ls [] q f e = absurd (false_not_true e)
are_false_on-elem ls (x ∷ qs) q f e = elim (Bool-cases (q == x)) [
  | inl here ↦ let same : q ≡ x = ground arith in rw same (ground arith)
  | inr there ↦ are_false_on-elem ls qs q (ground arith) (ground arith)
]

pub on_trail-append : (v : ℕ) (c d : List ℕ) → on_trail v (c ++ d) ≡ on_trail v c || on_trail v d
on_trail-append v [] d = refl
on_trail-append v (x ∷ c) d = ground (arith, on_trail-append v c d)
