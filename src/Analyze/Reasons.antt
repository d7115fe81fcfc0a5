-- ===== src/Analyze/Reasons.antt =====
-- analyze: what a trail and its reasons must be for a conflict to be resolved.
use dsyrup.Base.{
  false_not_true, ℕ, suc, ◌≤◌, ◌<◌, ◌≡◌, refl, sym, ap, ◌∙◌, subst, Bool, true, false, not, none,
  some, List, [], ◌∷◌, arith, ◌==◌, ltb, length, Bool-cases, inl, inr,
}
use dsyrup.Analyze.Literals.{are_false_on}
use dsyrup.Literal.{negate, var, sign}
use dsyrup.Literal.Laws.{negate-involutive}
use dsyrup.Clause.{put}
use dsyrup.Clause.Meaning.{satisfies, elem}
use dsyrup.Trail.{
  Lbool, l_true, l_false, l_undef, flip, is_true, is_false, Trail, value, decision_level,
}
use dsyrup.Trail.Invariant.{are_true, count_upto, is_levelled, IsTrail}
use dsyrup.Propagate.Invariant.{no_repeat}
use dsyrup.Final.Marks.{IsReason, Supported}
use dsyrup.Analyze.{Learning, visit_literal, selectors_false, true_first, is_misplaced}

-- The reason of each literal that has one, without repetition; and a decision is the first literal of
-- its level.
abbrev pub Reasons : (ℕ → List ℕ) → Trail → List ℕ → Type 0
Reasons ca t [] = Unit
Reasons ca t (l ∷ ls) =
    ((cr : ℕ) → t.reason (var l) ≡ some cr → IsReason l ls (ca cr) × (no_repeat (ca cr) ≡ true))
    × (t.reason (var l) ≡ none
        → (k : ℕ) → elem k ls ≡ true
        → ltb 0 (t.level (var l)) ≡ true
        → t.level (var k) < t.level (var l))
    × Reasons ca t ls

-- The levels go down along the trail.
abbrev pub Descends : (ℕ → ℕ) → ℕ → List ℕ → Type 0
Descends level current [] = Unit
Descends level current (l ∷ ls) =
    (level (var l) ≤ current)
    × ((k : ℕ) → elem k ls ≡ true → level (var k) ≤ level (var l))
    × Descends level current ls

count_upto_mono : (lims : List ℕ) (i j : ℕ) → i ≤ j → count_upto lims i ≤ count_upto lims j
count_upto_mono [] i j h = omega arith
count_upto_mono (m ∷ ms) i j h = let rest = count_upto_mono ms i j h in ground arith

count_upto-all : (lims : List ℕ) (i : ℕ) → count_upto lims i ≤ length lims
count_upto-all [] i = omega arith
count_upto-all (m ∷ ms) i = let rest = count_upto-all ms i in ground arith

below :
    (level : ℕ → ℕ) (lims ls : List ℕ) (k : ℕ)
    → is_levelled level lims ls ≡ true
    → elem k ls ≡ true
    → level (var k) ≤ count_upto lims (length ls)
below level lims [] k h e = absurd (false_not_true e)
below level lims (x ∷ ls) k h e =
    let step = count_upto_mono lims (length ls) (suc (length ls)) (omega arith) in
    elim (Bool-cases (k == x)) [
      | inl here ↦ let same : k ≡ x = ground arith in rw same (ground arith)
      | inr there ↦ let rest = below level lims ls k (ground arith) (ground arith) in omega arith
    ]

pub is_levelled-Descends :
    (level : ℕ → ℕ) (lims ls : List ℕ)
    → is_levelled level lims ls ≡ true
    → Descends level (length lims) ls
is_levelled-Descends level lims [] h = tt
is_levelled-Descends level lims (l ∷ ls) h =
    let own : level (var l) ≡ count_upto lims (length ls) = ground arith in
    let all = count_upto-all lims (length ls) in
    (
      omega arith,
      λ k e. let under = below level lims ls k (ground arith) e in omega arith,
      is_levelled-Descends level lims ls (ground arith),
    )

are_true-elem :
    (assigns : ℕ → Lbool) (ls : List ℕ) (k : ℕ)
    → are_true assigns ls ≡ true
    → elem k ls ≡ true
    → is_true (flip (assigns (var k)) (sign k)) ≡ true
are_true-elem assigns [] k h e = absurd (false_not_true e)
are_true-elem assigns (x ∷ ls) k h e = elim (Bool-cases (k == x)) [
  | inl here ↦ let same : k ≡ x = ground arith in rw same (ground arith)
  | inr there ↦ are_true-elem assigns ls k (ground arith) (ground arith)
]

is_false-flip : (b : Lbool) (s : Bool) → is_false (flip b s) ≡ is_true (flip b (not s))
is_false-flip l_true true = refl
is_false-flip l_true false = refl
is_false-flip l_false true = refl
is_false-flip l_false false = refl
is_false-flip l_undef s = refl

is_false-true : (b : Lbool) → is_true b ≡ true → is_false b ≡ false
is_false-true l_true h = refl
is_false-true l_false h = cc
is_false-true l_undef h = refl

-- The literals of the trail are true, and their negations false.
pub value-elem :
    (t : Trail) (k : ℕ) → IsTrail t → elem k t.trail ≡ true → is_false (value t k) ≡ false
unfolding value
value-elem t k h e = is_false-true _ (are_true-elem t.assigns t.trail k h.literals e)

value-elem-true :
    (t : Trail) (k : ℕ) → IsTrail t → elem k t.trail ≡ true → is_true (value t k) ≡ true
unfolding value
value-elem-true t k h e = are_true-elem t.assigns t.trail k h.literals e

pub value-elem-negate :
    (t : Trail) (k : ℕ) → IsTrail t → elem (negate k) t.trail ≡ true → is_false (value t k) ≡ true
unfolding value
value-elem-negate t k h e =
    let (same, opposite, back) = negate-involutive k in
    let now = are_true-elem t.assigns t.trail (negate k) h.literals e in
    is_false-flip (t.assigns (var k)) (sign k) ∙ rw (same, opposite) at now

-- Literals that are false on the trail pass the assertion on selectors.
pub visited-selectors_false :
    (t : Trail) (is_selector : ℕ → Bool) (qs : List ℕ) (s : Learning)
    → IsTrail t
    → are_false_on t.trail qs ≡ true
    → selectors_false t is_selector qs s ≡ true
unfolding selectors_false
visited-selectors_false t is_selector [] s w f = refl
visited-selectors_false t is_selector (q ∷ qs) s w f =
    let now = value-elem-negate t q w (ground arith) in
    let rest =
      visited-selectors_false t is_selector qs
        (visit_literal t.level (decision_level t) is_selector q s) w (ground arith) in
    ground arith

-- The second literal of a binary reason is true if the first is false.
pub reason-is_misplaced :
    (t : Trail) (l : ℕ) (before c : List ℕ)
    → IsTrail t
    → elem l t.trail ≡ true
    → IsReason l before c
    → is_misplaced t c ≡ false
reason-is_misplaced t l before [] w e r = refl
reason-is_misplaced t l before (x ∷ []) w e r = refl
reason-is_misplaced t l before (x ∷ y ∷ []) w e r = elim (Bool-cases (l == x)) [
  | inl first ↦
      let same : x ≡ l = ground arith in
      let open_x : is_false (value t x) ≡ false = rw same (value-elem t l w e) in rw open_x refl
  | inr second ↦
      let inside = r.inside in
      let same : y ≡ l = ground arith in
      let true_y : is_true (value t y) ≡ true = rw same (value-elem-true t l w e) in ground arith
]
reason-is_misplaced t l before (x ∷ y ∷ z ∷ ls) w e r =
    let many : (length (z ∷ ls) == 0) ≡ false = ground arith in rw many refl

-- A reason as it is read: the literal that it implies, and the others, which are false before it.
abbrev pub Read : Trail → ℕ → List ℕ → List ℕ → Type 0
Read t l before c =
    (rest : List ℕ) × (true_first t c ≡ l ∷ rest)
    × ((k : ℕ) → elem k c ≡ true → (k == l) ≡ false → elem k rest ≡ true)
    × (are_false_on before rest ≡ true)

pub all_false :
    (before rest : List ℕ)
    → ((k : ℕ) → elem k rest ≡ true → elem (negate k) before ≡ true)
    → are_false_on before rest ≡ true
all_false before [] h = refl
all_false before (x ∷ rest) h =
    let now = h x (ground arith) in
    let later = all_false before rest (λ k e. h k (ground arith)) in ground arith

-- In front there is the literal itself.
read_front :
    (l : ℕ) (before rest : List ℕ)
    → ((k : ℕ) → elem k (l ∷ rest) ≡ true → (k == l) ≡ false → elem (negate k) before ≡ true)
    → elem l rest ≡ false
    → are_false_on before rest ≡ true
read_front l before rest h o = all_false before rest (λ k e. elim (Bool-cases (k == l)) [
  | inl same ↦ let equal : k ≡ l = ground arith in absurd (false_not_true (sym o ∙ rw equal at e))
  | inr other ↦ h k (ground arith) other
])

pub true_first-Read :
    (t : Trail) (l : ℕ) (before c : List ℕ)
    → IsTrail t
    → elem l t.trail ≡ true
    → ((k : ℕ) → elem k before ≡ true → elem k t.trail ≡ true)
    → IsReason l before c
    → no_repeat c ≡ true
    → Read t l before c
true_first-Read t l before [] w e b r n = absurd (false_not_true r.inside)
true_first-Read t l before (x ∷ []) w e b r n =
    let inside = r.inside in
    let same : x ≡ l = ground arith in ([], ap (λ z. z ∷ []) same, λ k i o. ground arith, refl)
true_first-Read t l before (x ∷ y ∷ []) w e b r n = elim (Bool-cases (l == x)) [
  | inl first ↦
      let same : x ≡ l = ground arith in
      let open_x : is_false (value t x) ≡ false = rw same (value-elem t l w e) in
      (
        y ∷ [],
        rw open_x (ap (λ z. z ∷ y ∷ []) same),
        λ k i o. ground arith,
        read_front l before (y ∷ []) (λ k i o. r.others k (rw same i) o) (ground arith),
      )
  | inr second ↦
      let inside = r.inside in
      let same : y ≡ l = ground arith in
      let other : (x == l) ≡ false = ground arith in
      let false_x = value-elem-negate t x w (b (negate x) (r.others x (ground arith) other)) in
      (
        x ∷ [],
        rw false_x (ap (λ z. z ∷ x ∷ []) same),
        λ k i o. ground arith,
        read_front l before (x ∷ []) (λ k i o. r.others k (ground arith) o) (ground arith),
      )
]
true_first-Read t l before (x ∷ y ∷ z ∷ ls) w e b r n =
    let long : (length (y ∷ z ∷ ls) == 1) ≡ false = ground arith in
    let same : x ≡ l = r.placed x (y ∷ z ∷ ls) refl long in
    let many : (length (z ∷ ls) == 0) ≡ false = ground arith in
    (
      y ∷ z ∷ ls,
      rw many (ap (λ h. h ∷ y ∷ z ∷ ls) same),
      λ k i o. ground arith,
      read_front l before (y ∷ z ∷ ls) (λ k i o. r.others k (ground arith) o) (ground arith),
    )

-- The exchange keeps what is required of a reason.
pub elem-true_first : (t : Trail) (c : List ℕ) (k : ℕ) → elem k (true_first t c) ≡ elem k c
elem-true_first t [] k = refl
elem-true_first t (x ∷ []) k = refl
elem-true_first t (x ∷ y ∷ ls) k = ground arith

satisfies-true_first :
    (t : Trail) (α : ℕ → Bool) (c : List ℕ) → satisfies α (true_first t c) ≡ satisfies α c
satisfies-true_first t α [] = refl
satisfies-true_first t α (x ∷ []) = refl
satisfies-true_first t α (x ∷ y ∷ ls) = ground arith

no_repeat-true_first : (t : Trail) (c : List ℕ) → no_repeat (true_first t c) ≡ no_repeat c
no_repeat-true_first t [] = refl
no_repeat-true_first t (x ∷ []) = refl
no_repeat-true_first t (x ∷ y ∷ ls) = ground arith

length-true_first : (t : Trail) (c : List ℕ) → length (true_first t c) ≡ length c
length-true_first t [] = refl
length-true_first t (x ∷ []) = refl
length-true_first t (x ∷ y ∷ ls) = ground arith

placed-true_first :
    (t : Trail) (l : ℕ) (before c : List ℕ)
    → IsReason l before c
    → (x : ℕ) (ls : List ℕ) → true_first t c ≡ x ∷ ls
    → (length ls == 1) ≡ false
    → x ≡ l
placed-true_first t l before [] r x ls e n = absurd (false_not_true r.inside)
placed-true_first t l before (y ∷ []) r x ls e n = r.placed x ls e n
placed-true_first t l before (y ∷ z ∷ []) r x ls e n =
    let two = sym (length-true_first t (y ∷ z ∷ [])) ∙ ap length e in
    let one : (length ls == 1) ≡ true = ground arith in absurd (false_not_true (sym n ∙ one))
placed-true_first t l before (y ∷ z ∷ w ∷ zs) r x ls e n =
    let many : (length (w ∷ zs) == 0) ≡ false = ground arith in r.placed x ls (rw many at e) n

true_first-IsReason :
    (t : Trail) (l : ℕ) (before c : List ℕ)
    → IsReason l before c
    → IsReason l before (true_first t c)
true_first-IsReason t l before c r = record {
  inside = elem-true_first t c l ∙ r.inside;
  others = λ k e o. r.others k (sym (elem-true_first t c k) ∙ e) o;
  placed = placed-true_first t l before c r;
}

module _ (ca : ℕ → List ℕ) (t : Trail) (cr : ℕ) where
  abbrev pub exchanged : ℕ → List ℕ
  exchanged = put cr (true_first t (ca cr)) ca

  any_clause :
      (P : List ℕ → Type 0) (k : ℕ)
      → P (ca k)
      → (P (ca cr) → P (true_first t (ca cr)))
      → P (exchanged k)
  any_clause P k h step = elim (Bool-cases (cr == k)) [
    | inl same ↦ let equal : k ≡ cr = ground arith in rw same (step (subst (λ j. P (ca j)) equal h))
    | inr other ↦ rw other h
  ]

  pub exchanged-Reasons : (ls : List ℕ) → Reasons ca t ls → Reasons exchanged t ls
  exchanged-Reasons [] h = tt
  exchanged-Reasons (l ∷ ls) (r, d, h) = (
    λ k e.
        any_clause (λ c. IsReason l ls c × (no_repeat c ≡ true)) k (r k e)
          (λ (i, n). (true_first-IsReason t l ls (ca cr) i, no_repeat-true_first t (ca cr) ∙ n)),
    d,
    exchanged-Reasons ls h,
  )

  pub exchanged-Supported :
      (α : ℕ → Bool) (ls : List ℕ) → Supported ca t α ls → Supported exchanged t α ls
  exchanged-Supported α [] h = tt
  exchanged-Supported α (l ∷ ls) (s, h) = (
    λ k e.
        any_clause (λ c. satisfies α c ≡ true) k (s k e)
          (λ a. satisfies-true_first t α (ca cr) ∙ a),
    exchanged-Supported α ls h,
  )

-- The same literals in each clause.
abbrev pub SameLiterals : (ℕ → List ℕ) → (ℕ → List ℕ) → Type 0
SameLiterals ca ca' = (cr q : ℕ) → elem q (ca' cr) ≡ elem q (ca cr)

pub exchanged-SameLiterals :
    (ca : ℕ → List ℕ) (t : Trail) (cr : ℕ) → SameLiterals ca (exchanged ca t cr)
exchanged-SameLiterals ca t cr k q = elim (Bool-cases (cr == k)) [
  | inl same ↦
      let equal : cr ≡ k = ground arith in
      rw same (
        subst (λ j. elem q (true_first t (ca cr)) ≡ elem q (ca j)) equal
          (elem-true_first t (ca cr) q))
  | inr other ↦ rw other refl
]
