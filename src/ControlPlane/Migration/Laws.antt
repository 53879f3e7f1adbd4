-- ===== src/ControlPlane/Migration/Laws.antt =====
-- A migration whose last journal write fails, and the call after it.
use skillplane.Common.{
  ◌≡◌, refl, subst, ap, String, Option, none, some, true, false, Bool-cases, inl, inr, List, [],
  ◌∷◌, str_eq, eq_iff, any, filter, map, Result, ok, err, arith, Date,
}
use skillplane.ControlPlane.Placement.{WorkspacePlacement, PlacementError, Table, get}
use skillplane.ControlPlane.Migration.{
  starting, finalizing, completing, postponing, can_finalize, migration_source, Source, World,
  MigrationInput, completion_failed, is_source, moved, prepared, migrate_from, migrate_workspace,
  begun, migrate_with_journal,
}
use skillplane.ControlPlane.Migration.Runs.{
  WorkspaceMigrationProof, MigrationCheck, Run, Journal, running, completed, completion_pending,
  complete, change, journal_completed, journal_pending, is_pending, newest, pending_completion,
}

newest-none : (rs : List Run) → newest rs ≡ none → rs ≡ []
newest-none [] h = refl
newest-none (r ∷ rs) h = cc

-- A change of a run that the journal does not have changes nothing.
change-fresh :
    (id : String) (f : Run → Run) (j : Journal)
    → any (λ r. str_eq r.id id) j ≡ false
    → map (change id f) j ≡ j
change-fresh id f [] h = refl
change-fresh id f (r ∷ rs) h =
    let rest = change-fresh id f rs (ground (arith, h)) in
    let apart : str_eq r.id id ≡ false = ground (arith, h) in
    let same : change id f r ≡ r = rw apart refl in cc (same, rest)

module _ {R : Type 0} (x : MigrationInput R) where
  -- A migration leaves the journal, and proves the placement that it returns.
  abbrev IsProof :
      Journal → World R × Result String (WorkspacePlacement × WorkspaceMigrationProof) → Type 0
  IsProof j (w, err message) = Unit
  IsProof j (w, ok (p, proof)) =
      (w.journal ≡ j)
      × (proof.workspace_id ≡ x.workspace_id)
      × (proof.target_region_id ≡ x.target_region_id)
      × (proof.final_epoch ≡ p.epoch)

  moved-IsProof :
      (w : World R) (source : Source)
      (r : (Table × R) × Result String (WorkspacePlacement × List MigrationCheck))
      → IsProof w.journal (moved x w source r)
  moved-IsProof w source ((t, r), ok (p, checks)) = (refl, refl, refl, refl)
  moved-IsProof w source ((t, r), err message) = tt

  prepared-IsProof :
      (w : World R) (source : Source) (r : R × Option String)
      → IsProof w.journal (prepared x w source r)
  prepared-IsProof w source (r, some message) = tt
  prepared-IsProof w source (r, none) = moved-IsProof w source (x.move w.placements r)

  migrate_from-IsProof :
      (w : World R) (r : Result PlacementError (Option WorkspacePlacement))
      → IsProof w.journal (migrate_from x w r)
  migrate_from-IsProof w (err e) = tt
  migrate_from-IsProof w (ok none) = tt
  migrate_from-IsProof w (ok (some before)) = elim (Bool-cases (is_source x before)) [
    | inr n ↦ rw n tt
    | inl y ↦ rw y (prepared-IsProof w (migration_source before) _)
  ]

  migrate_workspace-IsProof : (w : World R) → IsProof w.journal (migrate_workspace x w)
  unfolding migrate_workspace
  migrate_workspace-IsProof w = migrate_from-IsProof w (get w.placements x.workspace_id)

  abbrev pub postponed : WorkspacePlacement → WorkspaceMigrationProof → Run
  postponed source proof = record {
    id = x.migration_id;
    workspace_id = x.workspace_id;
    source_region_id = (migration_source source).region_id;
    target_region_id = x.target_region_id;
    source_epoch = (migration_source source).epoch;
    final_epoch = some proof.final_epoch;
    status = running;
    phase = completion_pending;
    proof = some proof;
    error_code = none;
    updated_at = x.now;
  }

  itself : (s : String) → str_eq s s ≡ true
  itself s = (eq_iff s s).1 refl

  pending-journal :
      (source : WorkspacePlacement) (proof : WorkspaceMigrationProof) (w : World R)
      → any (λ r. str_eq r.id x.migration_id) w.journal ≡ false
      → journal_pending x.now x.migration_id proof (begun x source w).journal
        ≡ postponed source proof ∷ w.journal
  unfolding journal_pending
  pending-journal source proof w fresh =
      rw (itself x.migration_id)
        (ap (λ j. postponed source proof ∷ j) (change-fresh x.migration_id _ w.journal fresh))

  completed-journal :
      (now : Date) (source : WorkspacePlacement) (proof : WorkspaceMigrationProof) (w : World R)
      → any (λ r. str_eq r.id x.migration_id) w.journal ≡ false
      → journal_completed now x.migration_id proof (postponed source proof ∷ w.journal)
        ≡ record (postponed source proof) { status = completed; phase = complete; updated_at = now }
          ∷ w.journal
  unfolding journal_completed
  completed-journal now source proof w fresh = rw (itself x.migration_id) (
      ap
        (λ j.
          record (postponed source proof) { status = completed; phase = complete; updated_at = now }
          ∷ j)
        (change-fresh x.migration_id _ w.journal fresh))

  pending-found :
      (source : WorkspacePlacement) (proof : WorkspaceMigrationProof) (j : Journal)
      → pending_completion x.workspace_id j ≡ none
      → pending_completion x.workspace_id (postponed source proof ∷ j)
        ≡ some (postponed source proof)
  unfolding pending_completion
  pending-found source proof j h =
      let others = newest-none (filter (is_pending x.workspace_id) j) h in
      rw (itself x.workspace_id, others) refl

  finalizable :
      (source p : WorkspacePlacement) (proof : WorkspaceMigrationProof)
      → p.state ≡ "active"
      → p.region_id ≡ x.target_region_id
      → p.namespace ≡ x.workspace_id
      → proof.workspace_id ≡ x.workspace_id
      → proof.target_region_id ≡ x.target_region_id
      → proof.final_epoch ≡ p.epoch
      → can_finalize p (postponed source proof) x.workspace_id x.target_region_id ≡ true
  unfolding can_finalize
  finalizable source p proof active region namespace ws target epoch = ground (
    arith,
    (eq_iff p.state "active").1 active,
    (eq_iff p.region_id x.target_region_id).1 region,
    (eq_iff p.namespace x.workspace_id).1 namespace,
    (eq_iff proof.workspace_id x.workspace_id).1 ws,
    (eq_iff proof.target_region_id x.target_region_id).1 target,
    itself x.target_region_id,
    epoch,
  )

  -- A call whose data moves while its last journal write fails.
  pub record Moves (w w1 : World R) (source p : WorkspacePlacement)
      (proof : WorkspaceMigrationProof) : Type 0 where
    pub found : get w.placements x.workspace_id ≡ ok (some source)
    pub admitted : is_source x source ≡ true
    pub no_pending : pending_completion x.workspace_id w.journal ≡ none
    pub fresh : any (λ r. str_eq r.id x.migration_id) w.journal ≡ false
    pub starts : x.fails starting ≡ false
    pub breaks : x.fails completing ≡ true
    pub postpones : x.fails postponing ≡ false
    pub moves : migrate_workspace x (begun x source w) ≡ (w1, ok (p, proof))

  -- What the call leaves.
  abbrev pub broken_off : World R → World R → WorkspacePlacement → WorkspaceMigrationProof → World R
  broken_off w w1 source proof = record w1 { journal = postponed source proof ∷ w.journal }

  Moves-IsProof :
      (w w1 : World R) (source p : WorkspacePlacement) (proof : WorkspaceMigrationProof)
      → Moves w w1 source p proof
      → IsProof (begun x source w).journal (w1, ok (p, proof))
  Moves-IsProof w w1 source p proof m =
      subst (IsProof (begun x source w).journal) m.moves
        (migrate_workspace-IsProof (begun x source w))

  migrate-broken_off :
      (w w1 : World R) (source p : WorkspacePlacement) (proof : WorkspaceMigrationProof)
      → Moves w w1 source p proof
      → migrate_with_journal x w ≡ (broken_off w w1 source proof, err completion_failed)
  unfolding migrate_with_journal
  migrate-broken_off w w1 source p proof m =
      let (journal, ws, target, epoch) = Moves-IsProof w w1 source p proof m in
      rw
        (
          migrate_with_journal,
          m.found,
          m.admitted,
          m.no_pending,
          m.starts,
          m.fresh,
          m.moves,
          m.breaks,
          m.postpones,
          journal,
          pending-journal source proof w m.fresh,
        )
        refl

-- A migration with a new id and no completion pending, whose data has moved, whose last journal write
-- failed and whose proof the journal kept, and whose placement is active in the target region: the
-- call throws, and the next call for the same workspace and target, if its journal write succeeds,
-- answers the same proof under the same id. The run, which alone has
-- changed, is then completed in the phase `complete` with the epoch and the proof that were kept,
-- and no placement and no data of a region has changed.
pub migrate-finalizes :
    {R : Type 0} (x y : MigrationInput R) (w w1 : World R) (source p : WorkspacePlacement)
    (proof : WorkspaceMigrationProof)
    → Moves x w w1 source p proof
    → get w1.placements x.workspace_id ≡ ok (some p)
    → p.state ≡ "active"
    → p.region_id ≡ x.target_region_id
    → p.namespace ≡ x.workspace_id
    → y.workspace_id ≡ x.workspace_id
    → y.target_region_id ≡ x.target_region_id
    → y.fails finalizing ≡ false
    → (migrate_with_journal x w ≡ (broken_off x w w1 source proof, err completion_failed))
      × (migrate_with_journal y (broken_off x w w1 source proof) ≡ (
        record (broken_off x w w1 source proof) {
          journal =
              record (postponed x source proof) {
                status = completed;
                phase = complete;
                updated_at = y.now;
              }
              ∷ w.journal;
        },
        ok (record { migration_id = x.migration_id; placement = p; proof = proof }),
      ))
unfolding migrate_with_journal
migrate-finalizes x y w w1 source p proof m there active region namespace same_ws same_target
      writes =
    let (journal, ws, target, epoch) = Moves-IsProof x w w1 source p proof m in
    let is_active : is_source x p ≡ true = ground (arith, (eq_iff p.state "active").1 active) in
    let ready = finalizable x source p proof active region namespace ws target epoch in
    let found = pending-found x source proof w.journal m.no_pending in
    (
      migrate-broken_off x w w1 source p proof m,
      rw
          (
            migrate_with_journal,
            same_ws,
            same_target,
            there,
            is_active,
            found,
            ready,
            writes,
            completed-journal x y.now source proof w m.fresh,
          )
          refl,
    )
