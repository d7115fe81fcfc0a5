-- ===== src/Final/Sound.antt =====
-- The clause of analyzeFinal follows from the clauses and the literals of level 0.
use dsyrup.Base.{
  false_not_true, ℕ, ◌<◌, ◌≡◌, ◌∙◌, refl, sym, subst, Bool, true, false, ◌||◌, List, [], ◌∷◌, arith,
  ◌==◌, ltb, leb, length, Bool-cases, Option-cases, inl, inr,
}
use dsyrup.Literal.{negate, var}
use dsyrup.Literal.Laws.{negate-involutive}
use dsyrup.Clause.{put}
use dsyrup.Clause.Meaning.{holds, holds-negate, satisfies, elem, satisfies-witness}
use dsyrup.Trail.{Trail, decision_level}
use dsyrup.Trail.Invariant.{on_trail, is_once, is_levelled, is_descending, IsTrail}
use dsyrup.Trail.Cancel.{limit}
use dsyrup.Final.{mark_reason, explain_all, analyze_final}
use dsyrup.Final.Marks.{
  IsReason, Explained, mark_reason-elem, mark_reason-kept, off_trail, Supported, low_level,
}

module _ (ca : ℕ → List ℕ) (t : Trail) (α : ℕ → Bool) where
  -- The first literals of the trail, of level 0, hold.
  abbrev pub Facts : List ℕ → Type 0
  Facts ls = (l : ℕ) → elem l ls ≡ true → ltb 0 (t.level (var l)) ≡ false → holds α l ≡ true

  implied :
      (l : ℕ) (ls : List ℕ) (cr : ℕ) (seen : ℕ → Bool)
      → satisfies α (ca cr) ≡ true
      → IsReason l ls (ca cr)
      → on_trail (var l) ls ≡ false
      → Facts ls
      → ((k : ℕ)
          → elem k ls ≡ true
          → put (var l) false (mark_reason t.level (ca cr) seen) (var k) ≡ true
          → holds α k ≡ true)
      → holds α l ≡ true
  implied l ls cr seen yes_c r off facts marked =
      let (k, inside, yes_k) = satisfies-witness α (ca cr) yes_c in
      elim (Bool-cases (k == l)) [
        | inl same ↦ let equal : k ≡ l = ground arith in rw (sym equal) yes_k
        | inr other ↦
            let before = r.others k inside other in
            let differ = off_trail (var l) (negate k) ls off before in
            let same_var : var (negate k) ≡ var k = (negate-involutive k).0 in
            let no_k : holds α (negate k) ≡ true = elim (Bool-cases (ltb 0 (t.level (var k)))) [
              | inl high ↦
                  let seen_k = mark_reason-elem t.level (ca cr) ls l seen k r inside other high in
                  marked (negate k) before (rw (differ, same_var) seen_k)
              | inr low ↦ facts (negate k) before (rw same_var low)
            ] in
            absurd (clash (holds-negate α k ∙ (rw yes_k refl)) no_k)
      ]
    where
      clash : {b : Bool} → b ≡ false → b ≡ true → ⊥
      clash a c = cc

  unless_last :
      (l k : ℕ) (ls : List ℕ) → elem k (l ∷ ls) ≡ true → (k == l) ≡ false → elem k ls ≡ true
  unless_last l k ls e d = ground arith

  explain_all-holds :
      (ls : List ℕ) (seen : ℕ → Bool)
      → 0 < length t.trail_lim
      → is_descending (length t.trail) t.trail_lim ≡ true
      → is_once ls ≡ true
      → is_levelled t.level t.trail_lim ls ≡ true
      → Explained ca t ls
      → Supported ca t α ls
      → Facts ls
      → satisfies α (explain_all ca t (limit 0 t.trail_lim) ls seen) ≡ false
      → (k : ℕ) → elem k ls ≡ true
      → seen (var k) ≡ true
      → holds α k ≡ true
  unfolding explain_all
  explain_all-holds [] seen o d once lev ex sup facts out k e h = cc
  explain_all-holds (l ∷ ls) seen o d once lev (ex, exs) (sup, sups) facts out k e h =
      let lim = limit 0 t.trail_lim in
      let off : on_trail (var l) ls ≡ false = ground arith in
      let facts' : Facts ls = λ j inside low. facts j (ground arith) low in
      let rest : (seen' : ℕ → Bool)
          → satisfies α (explain_all ca t lim ls seen') ≡ false
          → (j : ℕ) → elem j ls ≡ true
          → seen' (var j) ≡ true
          → holds α j ≡ true =
        λ seen' out' j e' h'.
          explain_all-holds ls seen' o d (ground arith) (ground arith) exs sups facts' out' j e'
            h' in
      elim (Bool-cases (leb lim (length ls))) [
        | inr below ↦
            facts k e
              (low_level t.level (length t.trail) t.trail_lim (l ∷ ls) k d o lev (ground arith) e)
        | inl more ↦ elim (Bool-cases (seen (var l))) [
          | inr unseen ↦ elim (Bool-cases (k == l)) [
            | inl same ↦
                let equal : k ≡ l = ground arith in
                let bad : seen (var l) ≡ true = rw equal at h in cc
            | inr other ↦ rest seen (rw (more, unseen) at out) k (unless_last l k ls e other) h
          ]
          | inl marked ↦ elim (Option-cases (t.reason (var l))) [
            | inl decision ↦
                let out' : (holds α (negate l)
                      || satisfies α (explain_all ca t lim ls (put (var l) false seen)))
                    ≡ false =
                  rw (more, marked, decision) at out in
                elim (Bool-cases (k == l)) [
                  | inl same ↦
                      let equal : k ≡ l = ground arith in
                      rw equal (ground (arith, holds-negate α l))
                  | inr other ↦
                      let before = unless_last l k ls e other in
                      let differ = off_trail (var l) k ls off before in
                      rest (put (var l) false seen) (ground arith) k before (rw differ h)
                ]
            | inr (cr, reason) ↦
                let seen' = put (var l) false (mark_reason t.level (ca cr) seen) in
                let out' : satisfies α (explain_all ca t lim ls seen') ≡ false =
                  rw (more, marked, reason) at out in
                elim (Bool-cases (k == l)) [
                  | inl same ↦
                      let equal : k ≡ l = ground arith in
                      rw equal (
                        implied l ls cr seen (sup cr reason) (ex cr reason) off facts'
                          (λ j e' h'. rest seen' out' j e' h'))
                  | inr other ↦
                      let before = unless_last l k ls e other in
                      let differ = off_trail (var l) k ls off before in
                      rest seen' out' k before
                        (rw differ (mark_reason-kept t.level (ca cr) seen (var k) h))
                ]
          ]
        ]
      ]

  level_zero :
      (ls : List ℕ) (k : ℕ)
      → is_levelled t.level [] ls ≡ true
      → elem k ls ≡ true
      → ltb 0 (t.level (var k)) ≡ false
  level_zero [] k l e = absurd (false_not_true e)
  level_zero (x ∷ ls) k l e = elim (Bool-cases (k == x)) [
    | inl here ↦ let same : k ≡ x = ground arith in rw same (ground arith)
    | inr there ↦ level_zero ls k (ground arith) (ground arith)
  ]

  -- On a well-formed trail whose literals are decisions or have their reasons, take an assignment that
  -- satisfies these reasons and makes the literals of level 0 true. For a literal `p` of the trail it
  -- satisfies the clause that is returned: `p`, or the negation of one of the decisions found.
  pub analyze_final-holds :
      (seen : ℕ → Bool) (p : ℕ)
      → IsTrail t
      → Explained ca t t.trail
      → Supported ca t α t.trail
      → Facts t.trail
      → elem p t.trail ≡ true
      → satisfies α (analyze_final ca t seen p).0 ≡ true
  unfolding analyze_final
  analyze_final-holds seen p k ex sup facts e =
      let seen' = put (var p) true seen in
      let rest = explain_all ca t (limit 0 t.trail_lim) t.trail seen' in
      elim (Bool-cases (decision_level t == 0)) [
        | inl bottom ↦
            let none_open : t.trail_lim ≡ [] = no_limit t.trail_lim bottom in
            let lev : is_levelled t.level [] t.trail ≡ true =
              subst (λ z. is_levelled t.level z t.trail ≡ true) none_open k.levelled in
            let yes_p = facts p e (level_zero t.trail p lev e) in rw (bottom, yes_p) refl
        | inr open_level ↦ elim (Bool-cases (satisfies α rest)) [
          | inl one ↦ rw (open_level, one) (ground arith)
          | inr no_one ↦
              let here : seen' (var p) ≡ true = ground arith in
              let yes_p =
                explain_all-holds t.trail seen' (ground arith) k.limits k.once k.levelled ex sup
                  facts no_one p e here in
              rw (open_level, yes_p) refl
        ]
      ]
    where
      no_limit : (xs : List ℕ) → (length xs == 0) ≡ true → xs ≡ []
      no_limit [] h = refl
      no_limit (x ∷ xs) h = ground arith
