-- ===== src/Pharus/Steps.antt =====
-- AmpharosManager::listener, one message: each handler keeps what the manager knows of the formula.
use dsyrup.Base.{
  ℕ, ◌+◌, ◌^◌, ◌<◌, ◌≡◌, inl, inr, subst, sym, Bool, false, List, [], ◌∷◌, arith, All, Bool-cases,
}
use dsyrup.Manager.{Manager, solution_found, message_stop_com_uls, message_stop_com_clauses}
use dsyrup.Manager.Winner.{stop_com_uls-Same, stop_com_clauses-Same}
use dsyrup.Tree.{create_root}
use dsyrup.Tree.Cover.{follows}
use dsyrup.Tree.History.{IsWellFormed, create_root-IsWellFormed, covered-create_root}
use dsyrup.Tree.Size.{leaves-Restricts, leaves-create_root}
use dsyrup.Pharus.Field.{ok, Pharus}
use dsyrup.Pharus.Handlers.{
  Done, initialization, transmission_from_root, subproblem_unsat, subproblem_indeterminate,
}
use dsyrup.Pharus.Listener.{
  Event, solution, stop_com_uls, stop_com_clauses, initialize, from_root, unsat, indeterminate,
  job_finished, unknown, handle,
}
use dsyrup.Pharus.Deleted.{Spares}
use dsyrup.Pharus.Refute.{subproblem_unsat-Spares}
use dsyrup.Pharus.Split.{subproblem_indeterminate-SameCover}
use dsyrup.Pharus.FromRoot.{declared_from_root, transmission_from_root-Spares}
use dsyrup.Pharus.Inherited.{
  transmission_from_root-KeepsManager, subproblem_unsat-manager, subproblem_indeterminate-manager,
}
use dsyrup.Pharus.Judged.{
  declares, unsat_report, Rooted-Spares, Rooted-SameCover, Judged, Sound, Rooted-is_unsat,
  Judged-solution_found, Judged-Same, on_manager-Sound, null-Sound,
}
use dsyrup.Pharus.Rootless.{
  transmission_from_root-null, subproblem_unsat-null, subproblem_indeterminate-null,
}

unsat_report-Spares :
    (s : Pharus) (c : ℕ) (msgs : List ℕ) (d : Done)
    → IsWellFormed s.field.tree
    → subproblem_unsat s c msgs ≡ ok d
    → Spares (unsat_report s c msgs) s.field d.state.field
unfolding subproblem_unsat
unsat_report-Spares s c [] d w e = cc
unsat_report-Spares s c (h ∷ []) d w e = cc
unsat_report-Spares s c (h ∷ literal ∷ rest) d w e =
    subproblem_unsat-Spares s c h literal rest d w e

module _ (IsModel : (ℕ → Bool) → Type 0) where
  -- None of the nodes that a message declares refuted has a model below it.
  abbrev pub Truthful : Pharus → Event → Type 0
  Truthful s e =
      (α : ℕ → Bool) → IsModel α → All (λ q. follows α s.field.tree q ≡ false) (declares s e)

  initialization-Sound :
      (n : ℕ) (s : Pharus) (msgs : List ℕ) (d : Done)
      → Sound IsModel n s
      → initialization s msgs ≡ ok d
      → Sound IsModel (n + 1) d.state
  unfolding initialization
  initialization-Sound n s [] d k e = cc
  initialization-Sound n s (v ∷ rest) d k e =
      let m : d.state.manager ≡ s.manager = ground arith in
      let judged = subst (Judged IsModel) (sym m) k.judged in
      elim (Bool-cases s.first_times) [
        | inl first ↦
            let new : d.state.field.tree ≡ create_root v = ground arith in
            record {
              tree = inr (record {
                wellformed = rw new (create_root-IsWellFormed v);
                covers = λ α h. rw new (covered-create_root α v);
              });
              size = let two = leaves-create_root v in rw new (omega arith);
              judged = judged;
            }
        | inr again ↦
            let same : d.state.field ≡ s.field = ground arith in
            on_manager-Sound IsModel n s d.state same judged k
      ]

  transmission_from_root-Sound :
      (n : ℕ) (s : Pharus) (c : ℕ) (msgs : List ℕ) (d : Done)
      → n + 3 < 2 ^ 32
      → Sound IsModel n s
      → Truthful s (from_root c msgs)
      → transmission_from_root s c msgs ≡ ok d
      → Sound IsModel (n + 1) d.state
  transmission_from_root-Sound n s c msgs d b k h e = elim k.tree [
    | inl gone ↦ absurd (transmission_from_root-null s c msgs d gone e)
    | inr r ↦
        let spares = transmission_from_root-Spares s c msgs d r.wellformed e in
        let r' = Rooted-Spares IsModel (declared_from_root msgs) s.field d.state.field h r spares in
        let less = leaves-Restricts s.field.tree d.state.field.tree spares.restricts in
        let small = k.size in
        record {
          tree = inr r';
          size = omega arith;
          judged = elim (transmission_from_root-KeepsManager s c msgs d e) [
            | inl same ↦ subst (Judged IsModel) (sym same) k.judged
            | inr none_left ↦
                λ said won. Rooted-is_unsat IsModel d.state.field r' (omega arith) none_left
          ];
        }
  ]

  subproblem_unsat-Sound :
      (n : ℕ) (s : Pharus) (c : ℕ) (msgs : List ℕ) (d : Done)
      → Sound IsModel n s
      → Truthful s (unsat c msgs)
      → subproblem_unsat s c msgs ≡ ok d
      → Sound IsModel (n + 1) d.state
  subproblem_unsat-Sound n s c msgs d k h e =
      let judged = subst (Judged IsModel) (sym (subproblem_unsat-manager s c msgs d e)) k.judged in
      elim k.tree [
        | inl gone ↦
            null-Sound IsModel (n + 1) d.state (subproblem_unsat-null s c msgs d gone e) judged
        | inr r ↦
            let spares = unsat_report-Spares s c msgs d r.wellformed e in
            let less = leaves-Restricts s.field.tree d.state.field.tree spares.restricts in
            let small = k.size in
            record {
              tree = inr (Rooted-Spares IsModel _ s.field d.state.field h r spares);
              size = omega arith;
              judged = judged;
            }
      ]

  subproblem_indeterminate-Sound :
      (n : ℕ) (s : Pharus) (c : ℕ) (msgs : List ℕ) (d : Done)
      → Sound IsModel n s
      → subproblem_indeterminate s c msgs ≡ ok d
      → Sound IsModel (n + 1) d.state
  subproblem_indeterminate-Sound n s c msgs d k e =
      let m = subproblem_indeterminate-manager s c msgs d e in
      let judged = subst (Judged IsModel) (sym m) k.judged in
      elim k.tree [
        | inl gone ↦
            null-Sound IsModel (n + 1) d.state (subproblem_indeterminate-null s c msgs d gone e)
              judged
        | inr r ↦
            let cover = subproblem_indeterminate-SameCover s c msgs d r.wellformed e in
            let more = cover.grown in
            let small = k.size in
            record {
              tree = inr (Rooted-SameCover IsModel s.field d.state.field r cover);
              size = omega arith;
              judged = judged;
            }
      ]

  managed-Sound :
      (n : ℕ) (s : Pharus) (d : Done) (m : Manager)
      → Sound IsModel n s
      → d.state.manager ≡ m
      → Judged IsModel m
      → d.state.field ≡ s.field
      → Sound IsModel (n + 1) d.state
  managed-Sound n s d m k e j same =
      on_manager-Sound IsModel n s d.state same (subst (Judged IsModel) (sym e) j) k

  pub handle-Sound :
      (n : ℕ) (s : Pharus) (e : Event) (d : Done)
      → n + 3 < 2 ^ 32
      → Sound IsModel n s
      → Truthful s e
      → handle s e ≡ ok d
      → Sound IsModel (n + 1) d.state
  unfolding handle
  handle-Sound n s (solution r v) d b k h e =
      let m : d.state.manager ≡ (solution_found s.manager r v).0 = ground arith in
      managed-Sound n s d _ k m (Judged-solution_found IsModel s.manager r v k.judged)
        (ground arith)
  handle-Sound n s (stop_com_uls r c) d b k h e =
      let m : d.state.manager ≡ (message_stop_com_uls s.manager r c).0 = ground arith in
      let same = stop_com_uls-Same s.manager r c in
      managed-Sound n s d _ k m (Judged-Same IsModel s.manager _ same k.judged) (ground arith)
  handle-Sound n s (stop_com_clauses r c) d b k h e =
      let m : d.state.manager ≡ (message_stop_com_clauses s.manager r c).0 = ground arith in
      let same = stop_com_clauses-Same s.manager r c in
      managed-Sound n s d _ k m (Judged-Same IsModel s.manager _ same k.judged) (ground arith)
  handle-Sound n s (initialize r msgs) d b k h e = initialization-Sound n s msgs d k e
  handle-Sound n s (from_root r msgs) d b k h e = transmission_from_root-Sound n s r msgs d b k h e
  handle-Sound n s (unsat r msgs) d b k h e = subproblem_unsat-Sound n s r msgs d k h e
  handle-Sound n s (indeterminate r msgs) d b k h e =
      subproblem_indeterminate-Sound n s r msgs d k e
  handle-Sound n s job_finished d b k h e =
      let m : d.state.manager ≡ s.manager = ground arith in
      managed-Sound n s d _ k m k.judged (ground arith)
  handle-Sound n s unknown d b k h e = cc
