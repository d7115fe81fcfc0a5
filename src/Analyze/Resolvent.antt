-- ===== src/Analyze/Resolvent.antt =====
-- minimisationWithBinaryResolution: the shorter clause says the same.
use dsyrup.Base.{
  false_not_true, clash, ℕ, suc, ◌+◌, ◌-◌, ◌%◌, ◌^◌, ◌≤◌, ◌<◌, ◌≡◌, refl, sym, ◌∙◌, Bool, true,
  false, some, List, [], ◌∷◌, arith, ◌==◌, ltb, leb, length, take, All, Bool-cases, inl, inr,
}
use dsyrup.Analyze.Literals.{are_false_on, elem-on_trail}
use dsyrup.Literal.{var}
use dsyrup.Clause.Meaning.{holds, satisfies, elem, satisfies-elem, satisfies-witness}
use dsyrup.Trail.{Trail}
use dsyrup.Trail.Invariant.{is_once, IsTrail}
use dsyrup.Propagate.{Watcher}
use dsyrup.Lbd.{compute_lbd}
use dsyrup.Analyze.Implied.{same_truth}
use dsyrup.Analyze.Binary.{stamp_all, count_implied, is_stale, gather, minimise_binary}
use dsyrup.Analyze.Gathered.{count_if, count_if-le, gather-keeps}
use dsyrup.Analyze.Stamps.{
  IsBelow, count_levels-le, stamp_all-on_trail, count_if-none, older-differs, count_implied-counts,
  Implies, count_implied-Implies,
}

-- Literals of a clause are kept that say the same as all of them, with the first one and its binary
-- clauses.
abbrev pub Shortens : ℕ → List Watcher → List ℕ → List ℕ → Type 0
Shortens p wbin lits kept =
    ((q : ℕ) → elem q kept ≡ true → elem q lits ≡ true)
    × ((α : ℕ → Bool)
        → All (λ w. satisfies α (p ∷ w.blocker ∷ []) ≡ true) wbin
        → satisfies α (p ∷ kept) ≡ satisfies α (p ∷ lits))

module _ (t : Trail) (lbd_limit p : ℕ) (wbin : List Watcher) (lits : List ℕ) (s : ℕ × (ℕ → ℕ))
    (k : IsTrail t) (f : are_false_on t.trail lits ≡ true) (o : is_once lits ≡ true)
    (below : IsBelow s) (small : s.0 + 2 < 2 ^ 32) where
  first_flag : (compute_lbd t.level (p ∷ lits) s).1 ≡ s.0 + 1
  unfolding compute_lbd
  first_flag = omega arith

  first-IsBelow : (v : ℕ) → (compute_lbd t.level (p ∷ lits) s).2 v ≤ s.0 + 1
  unfolding compute_lbd
  first-IsBelow v =
      let flag : (s.0 + 1) % 2 ^ 32 ≡ s.0 + 1 = omega arith in
      let all =
        count_levels-le t.level ((s.0 + 1) % 2 ^ 32) (p ∷ lits) s.1 0
          (λ u. let old = below u in omega arith) in
      let here = all v in omega arith

  all_kept : Shortens p wbin lits lits
  all_kept = (λ q e. e, λ α sat. refl)

  module _ (flag nb : ℕ) (perm perm' : ℕ → ℕ) (new : flag ≡ s.0 + 2)
      (found : count_implied t flag wbin 0 (stamp_all flag lits perm) ≡ (nb, perm'))
      (fresh : (v : ℕ) → (perm v == flag) ≡ false) where
    stamped : (l : ℕ) → elem l lits ≡ true → (stamp_all flag lits perm (var l) == flag) ≡ true
    stamped l e = stamp_all-on_trail flag lits perm (var l) ∙ rw (elem-on_trail lits l e) refl

    counted : count_if (is_stale flag perm') lits ≡ nb
    counted =
        let differs = older-differs t flag (omega arith) (omega arith) lits in
        let none_yet =
          count_if-none flag ((flag + (2 ^ 32 - 1)) % 2 ^ 32) differs (stamp_all flag lits perm)
            lits stamped in
        let end =
          count_implied-counts t flag (omega arith) (omega arith) lits wbin 0
            (stamp_all flag lits perm) o none_yet
            (λ v e.
              let split = stamp_all-on_trail flag lits perm v in
              let clear = fresh v in ground arith) in
        rw found at end

    cut_off :
        0 < nb
        → (ys : List ℕ) × (gather
              (is_stale flag perm')
              (length lits - nb)
              (suc (length lits))
              0
              (length lits - 1)
              lits
            ≡ some ys)
          × Shortens p wbin lits (take (length lits - nb) ys)
    cut_off some_found =
        let most = count_if-le (is_stale flag perm') lits in
        let all = counted in
        let (ys, e, inside, kept) =
          gather-keeps (is_stale flag perm') (length lits - nb) lits (omega arith) (omega arith) in
        (
          ys,
          e,
          (
            inside,
            λ α sat.
                let start : Implies t flag (omega arith) (omega arith) lits α p
                    (stamp_all flag lits perm) =
                  λ x x_in stale true_x.
                    absurd (false_not_true (sym (rw (stamped x x_in) refl) ∙ stale)) in
                let implies =
                  count_implied-Implies t flag (omega arith) (omega arith) lits α p wbin 0
                    (stamp_all flag lits perm) k f sat start in
                let implies' : Implies t flag (omega arith) (omega arith) lits α p perm' =
                  rw found at implies in
                let kept_to_lits : satisfies α (take (length lits - nb) ys) ≡ true
                    → satisfies α lits ≡ true =
                  λ h.
                    let (l, l_in, true_l) = satisfies-witness α _ h in
                    satisfies-elem α l lits (inside l l_in) true_l in
                same_truth _ _
                  (λ h. elim (Bool-cases (holds α p)) [
                    | inl first ↦ ground arith
                    | inr other ↦ let rest = kept_to_lits (ground arith) in ground arith
                  ])
                  (λ h. elim (Bool-cases (holds α p)) [
                    | inl first ↦ ground arith
                    | inr other ↦
                        let (l, l_in, true_l) = satisfies-witness α lits (ground arith) in
                        elim (Bool-cases (is_stale flag perm' l)) [
                          | inl gone ↦ absurd (clash (implies' l l_in gone true_l) other)
                          | inr still ↦
                              let one = satisfies-elem α l _ (kept l l_in still) true_l in
                              ground arith
                        ]
                  ]),
          ),
        )

  -- On a well-formed trail, for a clause `p` and `lits`, the latter false on the trail and of
  -- different variables, where no stamp is above MYFLAG, which is below 2 ^ 32 - 2: the exchanges
  -- come to an end, only literals of the clause are kept, and each assignment that satisfies the
  -- binary clauses of `p` with the blockers of the watchers satisfies what is left exactly if it
  -- satisfies the clause.
  pub minimise_binary-satisfies :
      (kept : List ℕ) × (s' : ℕ × (ℕ → ℕ)) × (minimise_binary lbd_limit t wbin p lits s
        ≡ some (kept, s'.0, s'.1))
      × Shortens p wbin lits kept
  unfolding minimise_binary
  minimise_binary-satisfies =
      let m = compute_lbd t.level (p ∷ lits) s in
      let flag = (m.1 + 1) % 2 ^ 32 in
      let found = count_implied t flag wbin 0 (stamp_all flag lits m.2) in
      let first = first_flag in
      let new : flag ≡ s.0 + 2 = rw first (omega arith) in
      let fresh : (v : ℕ) → (m.2 v == flag) ≡ false =
        λ v. let under = first-IsBelow v in ground arith in
      elim (Bool-cases (leb m.0 lbd_limit)) [
        | inr above ↦ (lits, (m.1, m.2), rw above refl, all_kept)
        | inl reached ↦ elim (Bool-cases (ltb 0 found.0)) [
          | inr nothing ↦ (lits, (flag, found.1), rw (reached, nothing) refl, all_kept)
          | inl some_found ↦
              let (ys, e, says) = cut_off flag found.0 m.2 found.1 new refl fresh (ground arith) in
              (
                take (length lits - found.0) ys,
                (flag, found.1),
                rw (reached, some_found, e) refl,
                says,
              )
        ]
      ]
