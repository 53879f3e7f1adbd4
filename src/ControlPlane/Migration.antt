-- ===== src/ControlPlane/Migration.antt =====
-- The entry point of packages/control-plane/src/migration.ts that runs a migration of a workspace with
-- its journal. The move of the data is DataFn's, and an argument.
pub mod Runs
pub mod Laws
mod Tests
use skillplane.ControlPlane.Migration.Runs.{
  Journal, MigrationCheck, Run, RunPhase, RunStatus, WorkspaceMigrationProof, change, complete,
  completed, completion_pending, failed, fence, is_pending, is_pending_phase, is_run,
  journal_completed, journal_failed, journal_pending, newest, pending_completion, rollback, running,
}
use skillplane.Common.{
  ℕ, ◌+◌, ◌-◌, max, String, Option, none, some, Bool, true, false, not, ◌&&◌, ◌||◌, List, [], ◌∷◌,
  ◌==◌, str_eq, all, any, filter, map, length, leb, get_or, Result, ok, err, if◌then◌else◌, Date,
}
use skillplane.ControlPlane.Outbox.Drain.{is_code_unit}
use skillplane.Common.Text.{codes}
use skillplane.ControlPlane.Placement.{WorkspacePlacement, Migration, PlacementError, Table, get}

abbrev proves : WorkspacePlacement → String → String → Option WorkspaceMigrationProof → Bool
proves p ws target none = false
proves p ws target (some proof) =
    str_eq proof.workspace_id ws
    && str_eq proof.target_region_id target
    && p.epoch == proof.final_epoch

-- `canFinalizeWorkspaceMigrationCompletion`, with a placement and a pending run
unfoldable pub can_finalize : WorkspacePlacement → Run → String → String → Bool
can_finalize p pending ws target =
    str_eq p.state "active"
    && str_eq pending.target_region_id target
    && proves p ws target pending.proof
    && str_eq p.namespace ws
    && str_eq p.region_id target

abbrev is_resuming : Option Migration → Bool
is_resuming none = false
is_resuming (some m) = str_eq m.phase "resume-source" || str_eq m.phase "resume-target"

-- `isWorkspaceMigrationRecoveryPending`
unfoldable pub is_recovery_pending : WorkspacePlacement → Bool
is_recovery_pending p =
    str_eq p.state "moving" || (str_eq p.state "active" && is_resuming p.migration)

abbrev source_region : Option Migration → Option String
source_region none = none
source_region (some m) = m.source_region_id

abbrev source_epoch_of : Option Migration → Option ℕ
source_epoch_of none = none
source_epoch_of (some m) = m.source_epoch

pub record Source : Type 0 where
  pub region_id : String
  pub epoch : ℕ

-- `Math.max(1, epoch - 1)` is the same on a subtraction that stops at 0.
unfoldable pub migration_source : WorkspacePlacement → Source
migration_source p =
    if not (is_recovery_pending p)
    then record { region_id = p.region_id; epoch = p.epoch }
    else record {
      region_id = get_or (source_region p.migration) (get_or p.previous_region_id p.region_id);
      epoch = get_or (source_epoch_of p.migration) (max 1 (p.epoch - 1));
    }

-- The messages of the errors that this module throws.
abbrev pub source_not_active : String
source_not_active = "WORKSPACE_MIGRATION_SOURCE_NOT_ACTIVE"

abbrev pub completion_failed : String
completion_failed = "WORKSPACE_MIGRATION_JOURNAL_COMPLETION_FAILED"

-- The statements of the journal in a call, of which each may fail.
pub data Statement : Type 0 where
  finalizing starting failing completing postponing : Statement

-- What a migration changes: the placements, the journal, and what `R` stands for, the data of the
-- regions.
pub record World (R : Type 0) : Type 0 where
  pub placements : Table
  pub journal : Journal
  pub regions : R

-- The input of a call. `prepare` and `move` answer the message that they throw with, or what they
-- return: `move` is the fenced move of DataFn with the hooks of the operations, and answers the
-- placement that it leaves with the checks that its hooks have made.
pub record MigrationInput (R : Type 0) : Type 0 where
  pub workspace_id : String
  pub target_region_id : String
  pub migration_id : String
  pub rollback_tested : Bool
  pub prepare : R → R × Option String
  pub move : Table → R → (Table × R) × Result String (WorkspacePlacement × List MigrationCheck)
  pub started_at : Date
  pub completed_at : Date
  pub now : Date
  pub fails : Statement → Bool

pub record MigrationAnswer : Type 0 where
  pub migration_id : String
  pub placement : WorkspacePlacement
  pub proof : WorkspaceMigrationProof

module _ {R : Type 0} (x : MigrationInput R) where
  abbrev pub is_source : WorkspacePlacement → Bool
  is_source p = str_eq p.state "active" || is_recovery_pending p

  abbrev pub proof_of : Source → WorkspacePlacement → List MigrationCheck → WorkspaceMigrationProof
  proof_of source p checks = record {
    workspace_id = x.workspace_id;
    source_region_id = source.region_id;
    target_region_id = x.target_region_id;
    source_epoch = source.epoch;
    final_epoch = p.epoch;
    started_at = x.started_at;
    completed_at = x.completed_at;
    checks = checks;
    rollback_tested = x.rollback_tested;
  }

  abbrev pub moved :
      World R
      → Source
      → (Table × R) × Result String (WorkspacePlacement × List MigrationCheck)
      → World R × Result String (WorkspacePlacement × WorkspaceMigrationProof)
  moved w source ((t, r), ok (p, checks)) =
      (record w { placements = t; regions = r }, ok (p, proof_of source p checks))
  moved w source ((t, r), err message) = (record w { placements = t; regions = r }, err message)

  abbrev pub prepared :
      World R
      → Source
      → R × Option String
      → World R × Result String (WorkspacePlacement × WorkspaceMigrationProof)
  prepared w source (r, some message) = (record w { regions = r }, err message)
  prepared w source (r, none) = moved w source (x.move w.placements r)

  -- A migration that recovers does not wait for the source again.
  abbrev pub migrate_from :
      World R
      → Result PlacementError (Option WorkspacePlacement)
      → World R × Result String (WorkspacePlacement × WorkspaceMigrationProof)
  migrate_from w (err e) = (w, err "WORKSPACE_PLACEMENT_EPOCH_INVALID")
  migrate_from w (ok none) = (w, err source_not_active)
  migrate_from w (ok (some before)) =
      if not (is_source before)
      then (w, err source_not_active)
      else prepared w (migration_source before)
          (if is_recovery_pending before then (w.regions, none) else x.prepare w.regions)

  unfoldable pub migrate_workspace :
      World R → World R × Result String (WorkspacePlacement × WorkspaceMigrationProof)
  migrate_workspace w = migrate_from w (get w.placements x.workspace_id)

  -- The message of an error as a code.
  abbrev pub failure_code : String → String
  failure_code message =
      if all is_code_unit (codes message)
        && leb 1 (length (codes message))
        && leb (length (codes message)) 160
      then message
      else "WORKSPACE_MIGRATION_FAILED"

  -- A statement of the journal, unless it fails.
  abbrev pub written : Statement → (Journal → Journal) → World R → World R
  written s f w = if x.fails s then w else record w { journal = f w.journal }

  abbrev pub settled :
      World R × Result String (WorkspacePlacement × WorkspaceMigrationProof)
      → World R × Result String MigrationAnswer
  settled (w, err message) =
      (written failing (journal_failed x.now x.migration_id (failure_code message)) w, err message)
  settled (w, ok (p, proof)) =
      if x.fails completing
      then (
        written postponing (journal_pending x.now x.migration_id proof) w,
        err completion_failed,
      )
      else (
        record w { journal = journal_completed x.now x.migration_id proof w.journal },
        ok (record { migration_id = x.migration_id; placement = p; proof = proof }),
      )

  abbrev pub begun : WorkspacePlacement → World R → World R
  begun source w = record w {
    journal =
        record {
          id = x.migration_id;
          workspace_id = x.workspace_id;
          source_region_id = (migration_source source).region_id;
          target_region_id = x.target_region_id;
          source_epoch = (migration_source source).epoch;
          final_epoch = none;
          status = running;
          phase = fence;
          proof = none;
          error_code = none;
          updated_at = x.now;
        }
        ∷ w.journal;
  }

  abbrev pub start_run : WorkspacePlacement → World R → World R × Result String MigrationAnswer
  start_run source w =
      if x.fails starting || any (λ r. str_eq r.id x.migration_id) w.journal
      then (w, err "WORKSPACE_MIGRATION_JOURNAL_START_FAILED")
      else settled (migrate_workspace (begun source w))

  abbrev pub finalized :
      WorkspacePlacement
      → World R
      → Run
      → Option WorkspaceMigrationProof
      → World R × Result String MigrationAnswer
  finalized source w run none = start_run source w
  finalized source w run (some proof) = if x.fails finalizing then (w, err completion_failed) else (
    record w { journal = journal_completed x.now run.id proof w.journal },
    ok (record { migration_id = run.id; placement = source; proof = proof }),
  )

  abbrev pub resume_run :
      WorkspacePlacement → World R → Option Run → World R × Result String MigrationAnswer
  resume_run source w none = start_run source w
  resume_run source w (some run) =
      if can_finalize source run x.workspace_id x.target_region_id
      then finalized source w run run.proof
      else start_run source w

  abbrev pub run_from :
      World R
      → Result PlacementError (Option WorkspacePlacement)
      → World R × Result String MigrationAnswer
  run_from w (err e) = (w, err "WORKSPACE_PLACEMENT_EPOCH_INVALID")
  run_from w (ok none) = (w, err source_not_active)
  run_from w (ok (some source)) =
      if not (is_source source)
      then (w, err source_not_active)
      else resume_run source w (pending_completion x.workspace_id w.journal)

  -- `migrateWorkspaceWithJournal`
  unfoldable pub migrate_with_journal : World R → World R × Result String MigrationAnswer
  migrate_with_journal w = run_from w (get w.placements x.workspace_id)
