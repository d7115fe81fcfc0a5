-- ===== src/Analyze/Tests.antt =====
-- The decision 0, the literal 2 that the clause 2 1 implies, and the conflict in 3 1.
use dsyrup.Base.{
  get_or, ◌+◌, ◌^◌, ℕ, suc, ◌<◌, ◌≡◌, refl, subst, Bool, true, false, ◌||◌, Option, none, some,
  List, [], ◌∷◌, arith, ◌==◌, if◌then◌else◌, length, Bool-cases, inl, inr,
}
use dsyrup.Analyze.Literals.{are_false_on}
use dsyrup.Literal.{negate, var}
use dsyrup.Clause.Meaning.{satisfies, elem}
use dsyrup.Trail.{
  Heap, Order, cancel_until, l_undef, Trail, value, decision_level, new_decision_level,
  unchecked_enqueue,
}
use dsyrup.Trail.Invariant.{is_once, IsTrail, unchecked_enqueue-IsTrail, new_decision_level-IsTrail}
use dsyrup.Propagate.Invariant.{no_repeat}
use dsyrup.Final.Marks.{IsReason, Supported}
use dsyrup.Final.Sound.{Facts}
use dsyrup.Analyze.Reasons.{Reasons}
use dsyrup.Analyze.Learnt.{is_current}
use dsyrup.Analyze.Redundant.{
  Minimising, push_others, search, lit_redundant, minimise_deep, minimise,
}
use dsyrup.Analyze.Minimised.{IsListed}
use dsyrup.Analyze.Implied.{minimise-satisfies}
use dsyrup.Analyze.Binary.{minimise_binary}
use dsyrup.Analyze.Resolvent.{Shortens, minimise_binary-satisfies}
use dsyrup.Analyze.Whole.{Options, Analysis, analyze}
use dsyrup.Analyze.Jump.{IsUnit, analyze-IsUnit}
use dsyrup.Analyze.Sound.{Asserts, Binaries, analyze-learns}
use dsyrup.Propagate.{Watcher, watcher}

abbrev fresh : Trail
fresh = record {
  assigns = λ v. l_undef;
  reason = λ v. none;
  level = λ v. 0;
  trail = [];
  trail_lim = [];
  qhead = 0;
}

fresh-IsTrail : IsTrail fresh
fresh-IsTrail = record {
  literals = refl;
  covered = λ v e. cc;
  once = refl;
  levelled = refl;
  limits = refl;
  queue = omega arith;
}

abbrev clauses : ℕ → List ℕ
clauses cr = if cr == 0 then 2 ∷ 1 ∷ [] else 3 ∷ 1 ∷ []

abbrev implied : Trail
implied = unchecked_enqueue 2 (some 0) (unchecked_enqueue 0 none (new_decision_level fresh))

implied-IsTrail : IsTrail implied
unfolding unchecked_enqueue value
implied-IsTrail =
    (unchecked_enqueue-IsTrail 2 (some 0) (unchecked_enqueue 0 none (new_decision_level fresh)) refl
      (unchecked_enqueue-IsTrail 0 none (new_decision_level fresh) refl
        (new_decision_level-IsTrail fresh fresh-IsTrail)).1).1

two_one-IsReason : IsReason 2 (0 ∷ []) (2 ∷ 1 ∷ [])
unfolding negate
two_one-IsReason = record {
  inside = refl;
  others = λ k e d. let here : k ≡ 1 = ground arith in rw here refl;
  placed = λ x ls e long. ground arith;
}

implied-Reasons : Reasons clauses implied implied.trail
unfolding unchecked_enqueue
implied-Reasons = (
  λ cr e.
      let first : 0 ≡ cr = ground arith in
      subst (λ z. IsReason 2 (0 ∷ []) (clauses z) × (no_repeat (clauses z) ≡ true)) first
        (two_one-IsReason, refl),
  λ e. cc,
  (λ cr e. cc, λ e k inside. cc, tt),
)

conflict-false : are_false_on implied.trail (clauses 1) ≡ true
unfolding unchecked_enqueue negate
conflict-false = refl

one_level : 0 < decision_level implied
unfolding unchecked_enqueue
one_level = omega arith

abbrev no_selector : ℕ → Bool
no_selector v = false

conflict-is_current : is_current implied no_selector 1 ≡ true
unfolding unchecked_enqueue
conflict-is_current = refl

three_one-false : are_false_on implied.trail (3 ∷ 1 ∷ []) ≡ true
unfolding unchecked_enqueue negate
three_one-false = refl

abbrev settings : Options
settings = record { ccmin_mode = 2; incremental = false; lb_size = 30; lb_lbd = 6 }

-- No variable or level was stamped.
abbrev unstamped : ℕ × (ℕ → ℕ)
unstamped = (0, λ v. 0)

-- The loop counts the levels of both clauses.
abbrev every : ℕ → Bool
every cr = true

short_trail : 0 + length implied.trail + 3 < 2 ^ 32
unfolding unchecked_enqueue
short_trail = omega arith

abbrev no_watchers : ℕ → List Watcher
no_watchers l = []

analyze-learns_example :
    (r : Analysis) × (analyze settings implied no_selector no_watchers every clauses 1 unstamped
      ≡ some r)
    × Asserts settings implied no_selector no_watchers every r
    × ((v : ℕ) → r.seen v ≡ false)
    × ((α : ℕ → Bool)
        → Supported clauses implied α implied.trail
        → Facts (λ cr. []) implied α implied.trail
        → Binaries settings implied no_selector no_watchers every α
        → satisfies α (clauses 1) ≡ true
        → satisfies α r.learnt ≡ true)
analyze-learns_example =
    analyze-learns settings implied no_selector no_watchers every implied-IsTrail clauses 1 1
      unstamped one_level implied-Reasons conflict-false refl conflict-is_current (λ v. omega arith)
      short_trail

abbrev holds_var : List ℕ → ℕ → Bool
holds_var [] v = false
holds_var (x ∷ xs) v = (x == v) || holds_var xs v

abbrev take_last : List ℕ → ℕ × List ℕ
take_last [] = (0, [])
take_last (x ∷ xs) = (x, xs)

-- A heap of variables that takes the last one inserted.
abbrev last_in : Heap (List ℕ)
last_in = record {
  size = λ h. length h;
  in_heap = λ h v. holds_var h v;
  insert = λ v h. v ∷ h;
  element = λ h i. get_or h i 0;
  remove_min = take_last;
}

abbrev no_order : Order (List ℕ)
no_order = record {
  polarity = λ v. false;
  decision = λ v. true;
  order_heap = [];
  current_dec = none;
  phase_saving = 2;
  useful_var = λ v. 0;
  variables_dec = λ v. 0;
  dec_vars = 2;
  rnd_decisions = 0;
}

analyze-IsUnit_example :
    (r : Analysis) × (analyze settings implied no_selector no_watchers every clauses 1 unstamped
      ≡ some r)
    × IsUnit (cancel_until last_in r.btlevel (implied, no_order)).0 r.learnt
    × (decision_level (cancel_until last_in r.btlevel (implied, no_order)).0 ≡ r.btlevel)
    × IsTrail (cancel_until last_in r.btlevel (implied, no_order)).0
analyze-IsUnit_example =
    analyze-IsUnit last_in settings implied no_order no_selector no_watchers every implied-IsTrail
      clauses 1 1 unstamped one_level implied-Reasons conflict-false refl conflict-is_current
      (λ v. omega arith) short_trail

-- The binary clause 4 2 resolves 3 away.
abbrev four_two : List Watcher
four_two = watcher 9 2 ∷ []

minimise_binary-satisfies_example :
    (kept : List ℕ) × (s' : ℕ × (ℕ → ℕ)) × (minimise_binary 6 implied four_two 4
        (3 ∷ 1 ∷ [])
        unstamped
      ≡ some (kept, s'.0, s'.1))
    × Shortens 4 four_two (3 ∷ 1 ∷ []) kept
minimise_binary-satisfies_example =
    minimise_binary-satisfies implied 6 4 four_two (3 ∷ 1 ∷ []) unstamped implied-IsTrail
      three_one-false refl (λ v. omega arith) (omega arith)

-- In the clause 4 3 1 on that trail, the literal 3 is redundant.
abbrev marked : Minimising
marked = record { ca = clauses; seen = λ v. (v == 0) || (v == 1); to_clear = 1 ∷ 3 ∷ 4 ∷ [] }

abbrev map_kept : Option (List ℕ × Minimising) → Option (List ℕ)
map_kept none = none
map_kept (some (kept, s)) = some kept

three_removed : map_kept (minimise 2 4 implied (3 ∷ 1 ∷ []) marked) ≡ some (1 ∷ [])
unfolding minimise minimise_deep lit_redundant search push_others unchecked_enqueue value
three_removed = refl

marked-only :
    (j : ℕ)
    → elem j implied.trail ≡ true
    → marked.seen (var j) ≡ true
    → elem (negate j) (3 ∷ 1 ∷ []) ≡ true
unfolding unchecked_enqueue negate
marked-only j e h = elim (Bool-cases (j == 2)) [
  | inl two ↦ let same : j ≡ 2 = ground arith in rw same refl
  | inr other ↦ let same : j ≡ 0 = ground arith in rw same refl
]

enough_fuel : suc (length implied.trail) < 4
unfolding unchecked_enqueue
enough_fuel = omega arith

minimise-satisfies_example :
    (kept : List ℕ) × (s' : Minimising) × (minimise 2 4 implied (3 ∷ 1 ∷ []) marked
      ≡ some (kept, s'))
    × ((q : ℕ) → elem q kept ≡ true → elem q (3 ∷ 1 ∷ []) ≡ true)
    × (is_once (3 ∷ 1 ∷ []) ≡ true → is_once kept ≡ true)
    × (IsListed marked → IsListed s')
    × ((α : ℕ → Bool)
        → Supported clauses implied α implied.trail
        → Facts (λ cr. []) implied α implied.trail
        → satisfies α (4 ∷ kept) ≡ satisfies α (4 ∷ 3 ∷ 1 ∷ []))
minimise-satisfies_example =
    minimise-satisfies implied 2 4 4 (3 ∷ 1 ∷ []) marked implied-IsTrail implied-Reasons
      three_one-false marked-only enough_fuel
