-- ===== src/Analyze/Gathered.antt =====
-- minimisationWithBinaryResolution: the exchanges end with the literals to remove at the end.
use dsyrup.Base.{
  false_not_true, ℕ, zero, suc, ◌+◌, ◌-◌, ◌≤◌, ◌<◌, ◌≡◌, ◌≢◌, refl, sym, ap, ◌∙◌, Bool, true, false,
  some, List, [], ◌∷◌, arith, if◌then◌else◌, ◌==◌, ltb, length, take, drop, get_or, set, length-set,
  get_or-set_self, get_or-set_ne, Bool-cases, inl, inr,
}
use dsyrup.Clause.Meaning.{elem}
use dsyrup.Analyze.Binary.{exchange, gather}

abbrev weight : (ℕ → Bool) → ℕ → ℕ
weight f x = if f x then 1 else 0

abbrev pub count_if : (ℕ → Bool) → List ℕ → ℕ
count_if f [] = 0
count_if f (x ∷ xs) = weight f x + count_if f xs

pub elem-count_if : (q : ℕ) (xs : List ℕ) → elem q xs ≡ ltb 0 (count_if (λ z. q == z) xs)
elem-count_if q [] = refl
elem-count_if q (x ∷ xs) = let rest = elem-count_if q xs in ground arith

count_if-set :
    (f : ℕ → Bool) (xs : List ℕ) (j v : ℕ)
    → j < length xs
    → count_if f (set xs j v) + weight f (get_or xs j 0) ≡ count_if f xs + weight f v
count_if-set f [] j v h = absurd (omega arith)
count_if-set f (x ∷ xs) zero v h = omega arith
count_if-set f (x ∷ xs) (suc j) v h = let rest = count_if-set f xs j v (omega arith) in omega arith

module _ (i l : ℕ) (xs : List ℕ) (hi : i < length xs) (hl : l < length xs) where
  middle : get_or (set xs l (get_or xs i 0)) i 0 ≡ get_or xs i 0
  middle = elim (Bool-cases (i == l)) [
    | inl same ↦
        let equal : i ≡ l = ground arith in
        ap (λ j. get_or (set xs l (get_or xs i 0)) j 0) equal
        ∙ get_or-set_self xs l (get_or xs i 0) 0 hl
    | inr other ↦
        let apart : l ≢ i = λ e. false_not_true (sym other ∙ (ground arith)) in
        get_or-set_ne xs l i (get_or xs i 0) 0 apart
  ]

  count_if-exchange : (f : ℕ → Bool) → count_if f (exchange i l xs) ≡ count_if f xs
  count_if-exchange f =
      let ys = set xs l (get_or xs i 0) in
      let long = length-set xs l (get_or xs i 0) in
      let first = count_if-set f xs l (get_or xs i 0) hl in
      let second = count_if-set f ys i (get_or xs l 0) (omega arith) in
      let second' : count_if f (exchange i l xs) + weight f (get_or xs i 0)
          ≡ count_if f ys + weight f (get_or xs l 0) =
        rw middle at second in
      omega arith

  length-exchange : length (exchange i l xs) ≡ length xs
  length-exchange =
      length-set (set xs l (get_or xs i 0)) i (get_or xs l 0) ∙ length-set xs l (get_or xs i 0)

  exchange-elsewhere : (j : ℕ) → i ≢ j → l ≢ j → get_or (exchange i l xs) j 0 ≡ get_or xs j 0
  exchange-elsewhere j a b =
      get_or-set_ne (set xs l (get_or xs i 0)) i j (get_or xs l 0) 0 a
      ∙ get_or-set_ne xs l j (get_or xs i 0) 0 b

  exchange-last : get_or (exchange i l xs) l 0 ≡ get_or xs i 0
  exchange-last = elim (Bool-cases (i == l)) [
    | inl same ↦
        let equal : i ≡ l = ground arith in
        let long = length-set xs l (get_or xs i 0) in
        let own = get_or-set_self (set xs l (get_or xs i 0)) i (get_or xs l 0) 0 (omega arith) in
        ap (λ j. get_or (exchange i l xs) j 0) (sym equal)
        ∙ own
        ∙ ap (λ j. get_or xs j 0) (sym equal)
    | inr other ↦
        let apart : i ≢ l = λ e. false_not_true (sym other ∙ (ground arith)) in
        get_or-set_ne (set xs l (get_or xs i 0)) i l (get_or xs l 0) 0 apart
        ∙ get_or-set_self xs l (get_or xs i 0) 0 hl
  ]

module _ (stale : ℕ → Bool) where
  all_after :
      (xs : List ℕ) (k : ℕ)
      → ((j : ℕ) → k ≤ j → j < length xs → stale (get_or xs j 0) ≡ true)
      → length xs ≤ k + count_if stale xs
  all_after [] k h = omega arith
  all_after (x ∷ xs) zero h =
      let now = h 0 (omega arith) (omega arith) in
      let rest = all_after xs 0 (λ j a b. h (suc j) (omega arith) (omega arith)) in ground arith
  all_after (x ∷ xs) (suc k) h =
      let rest = all_after xs k (λ j a b. h (suc j) (omega arith) (omega arith)) in ground arith

  -- What the loop returns: the same literals, and none of the first `bound` is to be removed.
  abbrev pub IsGathered : ℕ → List ℕ → List ℕ → Type 0
  IsGathered bound xs ys =
      (length ys ≡ length xs)
      × ((f : ℕ → Bool) → count_if f ys ≡ count_if f xs)
      × ((j : ℕ) → j < bound → stale (get_or ys j 0) ≡ false)

  gather-IsGathered :
      (bound fuel i l : ℕ) (xs : List ℕ)
      → bound + count_if stale xs ≡ length xs
      → ((j : ℕ) → j < i → stale (get_or xs j 0) ≡ false)
      → ((j : ℕ) → l < j → j < length xs → stale (get_or xs j 0) ≡ true)
      → i ≤ suc l
      → l < length xs
      → suc (suc l) ≤ fuel + i
      → (ys : List ℕ) × (gather stale bound fuel i l xs ≡ some ys) × IsGathered bound xs ys
  unfolding gather
  gather-IsGathered bound zero i l xs total good bad il ln f = absurd (omega arith)
  gather-IsGathered bound (suc fuel) i l xs total good bad il ln f =
      elim (Bool-cases (ltb i bound)) [
        | inr done ↦ (xs, rw done refl, (refl, λ g. refl, λ j h. good j (ground arith)))
        | inl more ↦
            let below : i < bound = ground arith in
            let inside : i ≤ l = elim (Bool-cases (ltb l i)) [
              | inr fine ↦ ground arith
              | inl past ↦
                  let all = all_after xs i (λ j a b. bad j (ground arith) b) in absurd (omega arith)
            ] in
            elim (Bool-cases (stale (get_or xs i 0))) [
              | inr kept ↦
                  let (ys, e, g) =
                    gather-IsGathered bound fuel (suc i) l xs total
                      (λ j h. elim (Bool-cases (j == i)) [
                        | inl same ↦ let equal : j ≡ i = ground arith in rw equal kept
                        | inr other ↦ good j (ground arith)
                      ])
                      bad (omega arith) ln (omega arith) in
                  (ys, rw (more, kept) e, g)
              | inl gone ↦
                  let hi : i < length xs = omega arith in
                  let bad' : (j : ℕ)
                      → l ≤ j
                      → j < length xs
                      → stale (get_or (exchange i l xs) j 0) ≡ true =
                    λ j a b. elim (Bool-cases (j == l)) [
                      | inl same ↦
                          let equal : j ≡ l = ground arith in
                          rw (equal, exchange-last i l xs hi ln) gone
                      | inr other ↦
                          let e1 : i ≢ j = λ e. false_not_true (ground arith) in
                          let e2 : l ≢ j = λ e. false_not_true (sym other ∙ (ground arith)) in
                          rw (exchange-elsewhere i l xs hi ln j e1 e2) (bad j (ground arith) b)
                    ] in
                  let long = length-exchange i l xs hi ln in
                  let counted = count_if-exchange i l xs hi ln stale in
                  let positive : 0 < l = elim (Bool-cases (l == 0)) [
                    | inr fine ↦ ground arith
                    | inl zero_l ↦
                        let all =
                          all_after (exchange i l xs) 0
                            (λ j a b. bad' j (ground arith) (omega arith)) in
                        absurd (omega arith)
                  ] in
                  let (ys, e, (same_length, counts, front)) =
                    gather-IsGathered bound fuel i (l - 1) (exchange i l xs) (omega arith)
                      (λ j h.
                        let e1 : i ≢ j = λ e. false_not_true (ground arith) in
                        let e2 : l ≢ j = λ e. false_not_true (ground arith) in
                        rw (exchange-elsewhere i l xs hi ln j e1 e2) (good j h))
                      (λ j a b. bad' j (omega arith) (omega arith)) (omega arith) (omega arith)
                      (omega arith) in
                  (
                    ys,
                    rw (more, gone) e,
                    (same_length ∙ long, λ g. counts g ∙ count_if-exchange i l xs hi ln g, front),
                  )
            ]
      ]

  -- In the part that is kept.
  count_if-drop :
      (ys : List ℕ) (k : ℕ)
      → k ≤ length ys
      → ((j : ℕ) → j < k → stale (get_or ys j 0) ≡ false)
      → (count_if stale (drop k ys) ≡ count_if stale ys) × (length (drop k ys) + k ≡ length ys)
  count_if-drop ys zero h g = (refl, omega arith)
  count_if-drop [] (suc k) h g = absurd (omega arith)
  count_if-drop (y ∷ ys) (suc k) h g =
      let now = g 0 (omega arith) in
      let (counts, long) = count_if-drop ys k (omega arith) (λ j a. g (suc j) (omega arith)) in
      (ground arith, omega arith)

  pub count_if-le : (ys : List ℕ) → count_if stale ys ≤ length ys
  count_if-le [] = omega arith
  count_if-le (y ∷ ys) = let rest = count_if-le ys in ground arith

  all_counted :
      (ys : List ℕ) (q : ℕ) → count_if stale ys ≡ length ys → elem q ys ≡ true → stale q ≡ true
  all_counted [] q c e = absurd (false_not_true e)
  all_counted (y ∷ ys) q c e =
      let most = count_if-le ys in
      elim (Bool-cases (q == y)) [
        | inl same ↦ let equal : q ≡ y = ground arith in rw equal (ground arith)
        | inr other ↦ all_counted ys q (ground arith) (ground arith)
      ]

  elem-take : (ys : List ℕ) (k q : ℕ) → elem q (take k ys) ≡ true → elem q ys ≡ true
  elem-take ys zero q e = absurd (false_not_true e)
  elem-take [] (suc k) q e = e
  elem-take (y ∷ ys) (suc k) q e = elim (Bool-cases (q == y)) [
    | inl same ↦ ground arith
    | inr other ↦ let rest = elem-take ys k q (ground arith) in ground arith
  ]

  elem-split :
      (ys : List ℕ) (k q : ℕ)
      → elem q ys ≡ true
      → elem q (drop k ys) ≡ false
      → elem q (take k ys) ≡ true
  elem-split ys zero q e d = absurd (false_not_true (sym d ∙ e))
  elem-split [] (suc k) q e d = e
  elem-split (y ∷ ys) (suc k) q e d = elim (Bool-cases (q == y)) [
    | inl same ↦ ground arith
    | inr other ↦ let rest = elem-split ys k q (ground arith) d in ground arith
  ]

  -- With as many literals to remove as stand behind the bound, just those are cut off.
  pub gather-keeps :
      (bound : ℕ) (xs : List ℕ)
      → bound + count_if stale xs ≡ length xs
      → 0 < length xs
      → (ys : List ℕ) × (gather stale bound (suc (length xs)) 0 (length xs - 1) xs ≡ some ys)
        × ((q : ℕ) → elem q (take bound ys) ≡ true → elem q xs ≡ true)
        × ((q : ℕ) → elem q xs ≡ true → stale q ≡ false → elem q (take bound ys) ≡ true)
  gather-keeps bound xs total some_left =
      let (ys, e, (long, counts, front)) =
        gather-IsGathered bound (suc (length xs)) 0 (length xs - 1) xs total
          (λ j h. absurd (omega arith)) (λ j a b. absurd (omega arith)) (omega arith) (omega arith)
          (omega arith) in
      let same : (q : ℕ) → elem q ys ≡ elem q xs = λ q.
        elem-count_if q ys ∙ ap (λ n. ltb 0 n) (counts (λ z. q == z)) ∙ sym (elem-count_if q xs) in
      let stale_count = counts stale in
      let (behind, left) = count_if-drop ys bound (omega arith) front in
      (
        ys,
        e,
        λ q q_in. sym (same q) ∙ elem-take ys bound q q_in,
        λ q q_in fine.
            elem-split ys bound q (same q ∙ q_in) (elim (Bool-cases (elem q (drop bound ys))) [
              | inl cut ↦
                  let all : count_if stale (drop bound ys) ≡ length (drop bound ys) = omega arith in
                  let bad = all_counted (drop bound ys) q all cut in
                  absurd (false_not_true (sym fine ∙ bad))
              | inr kept ↦ kept
            ]),
      )
