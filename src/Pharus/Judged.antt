-- ===== src/Pharus/Judged.antt =====
-- What the manager of the divide-and-conquer mode knows of the formula after each message: the tree
-- covers its models, and UNSAT has not been announced wrongly.
use dsyrup.Base.{
  ℕ, ◌+◌, ◌^◌, ◌≤◌, ◌<◌, ◌≡◌, ◌⊎◌, inl, inr, sym, ◌∙◌, Bool, true, false, not, ◌&&◌, none, some,
  List, [], ◌∷◌, arith, All, Bool-cases, ◌==◌,
}
use dsyrup.Manager.{Manager, solution_found}
use dsyrup.Manager.Winner.{solution_found-Reported, Same}
use dsyrup.Tree.{null, Position, is_unsat}
use dsyrup.Tree.Count.{leaves, is_unsat_iff}
use dsyrup.Tree.Cover.{covered, follows, covered-leaves}
use dsyrup.Tree.History.{IsWellFormed}
use dsyrup.Pharus.Field.{Field, Pharus}
use dsyrup.Pharus.Listener.{
  Event, solution, stop_com_uls, stop_com_clauses, initialize, from_root, unsat, indeterminate,
  job_finished, unknown,
}
use dsyrup.Pharus.Deleted.{Spares}
use dsyrup.Pharus.Refute.{refuted_by}
use dsyrup.Pharus.Split.{SameCover}
use dsyrup.Pharus.FromRoot.{declared_from_root}

-- The nodes that a worker declares refuted by a message, in the tree as it then is.
abbrev pub unsat_report : Pharus → ℕ → List ℕ → List Position
unsat_report s c [] = []
unsat_report s c (h ∷ []) = []
unsat_report s c (h ∷ literal ∷ rest) = refuted_by s.field.tree literal (s.field.nodes c h)

abbrev pub declares : Pharus → Event → List Position
declares s (from_root c msgs) = declared_from_root msgs
declares s (unsat c msgs) = unsat_report s c msgs
declares s (solution c v) = []
declares s (stop_com_uls c n) = []
declares s (stop_com_clauses c n) = []
declares s (initialize c msgs) = []
declares s (indeterminate c msgs) = []
declares s job_finished = []
declares s unknown = []

-- A tree in which every model of the formula is covered.
pub record Rooted (IsModel : (ℕ → Bool) → Type 0) (f : Field) : Type 0 where
  pub wellformed : IsWellFormed f.tree
  pub covers : (α : ℕ → Bool) → IsModel α → covered α f.tree ≡ true

pub Rooted-Spares :
    (IsModel : (ℕ → Bool) → Type 0) (qs : List Position) (f f' : Field)
    → ((α : ℕ → Bool) → IsModel α → All (λ q. follows α f.tree q ≡ false) qs)
    → Rooted IsModel f
    → Spares qs f f'
    → Rooted IsModel f'
Rooted-Spares IsModel qs f f' h r k = record {
  wellformed = k.wellformed;
  covers = λ α m. k.spared α (r.covers α m) (h α m);
}

pub Rooted-SameCover :
    (IsModel : (ℕ → Bool) → Type 0) (f f' : Field)
    → Rooted IsModel f
    → SameCover f f'
    → Rooted IsModel f'
Rooted-SameCover IsModel f f' r k = record {
  wellformed = k.wellformed;
  covers = λ α m. k.cover α ∙ r.covers α m;
}

module _ (IsModel : (ℕ → Bool) → Type 0) where
  -- UNSAT has not been announced, or rightly so.
  abbrev pub Judged : Manager → Type 0
  Judged m =
      m.solution_ok ≡ true → m.rank_of_the_first_solution ≡ none → (α : ℕ → Bool) → ¬ IsModel α

  -- What holds of the manager after `n` messages.
  pub record Sound (n : ℕ) (s : Pharus) : Type 0 where
    pub tree : (s.field.tree ≡ null) ⊎ Rooted IsModel s.field
    pub size : leaves s.field.tree ≤ n + 2
    pub judged : Judged s.manager

  pub Rooted-is_unsat :
      (f : Field)
      → Rooted IsModel f
      → leaves f.tree < 2 ^ 32
      → is_unsat f.tree ≡ true
      → (α : ℕ → Bool) → ¬ IsModel α
  Rooted-is_unsat f r small u α m =
      let none_left = (is_unsat_iff f.tree r.wellformed.counted small).0 u in
      let c = r.covers α m in cc (covered-leaves α f.tree none_left)

  pub Judged-solution_found : (m : Manager) (r v : ℕ) → Judged m → Judged (solution_found m r v).0
  Judged-solution_found m r v j said none_won =
      let k = solution_found-Reported m r v in
      elim (Bool-cases (not m.solution_ok && not (v == 0))) [
        | inl first ↦ let bad : some r ≡ none = rw first at (sym (k.winner) ∙ none_won) in cc
        | inr later ↦ j (sym (rw later at k.won) ∙ said) (sym (rw later at k.winner) ∙ none_won)
      ]

  pub Judged-Same : (m m' : Manager) → Same m m' → Judged m → Judged m'
  Judged-Same m m' k j said none_won = j (sym k.won ∙ said) (sym k.winner ∙ none_won)

  -- A handler that changes the manager alone.
  pub on_manager-Sound :
      (n : ℕ) (s s' : Pharus)
      → s'.field ≡ s.field
      → Judged s'.manager
      → Sound n s
      → Sound (n + 1) s'
  on_manager-Sound n s s' e j k = record {
    tree = rw e k.tree;
    size = let small = k.size in rw e (omega arith);
    judged = j;
  }

  pub null-Sound : (n : ℕ) (s : Pharus) → s.field.tree ≡ null → Judged s.manager → Sound n s
  unfolding leaves
  null-Sound n s e j = record { tree = inl e; size = rw e (omega arith); judged = j }
