-- ===== src/ControlPlane/Migration/Runs.antt =====
-- `PostgresWorkspaceMigrationJournal` of packages/control-plane/src/migration.ts, over the table
-- `workspace_migration_runs`. The rows of rollback drills are not modelled.
use skillplane.Common.{
  ℕ, String, Option, none, some, Bool, true, false, ◌&&◌, List, [], ◌∷◌, str_eq, filter, map, leb,
  if◌then◌else◌, Date,
}

pub record MigrationCheck : Type 0 where
  pub name : String
  pub source : String
  pub target : String
  pub matched : Bool

pub record WorkspaceMigrationProof : Type 0 where
  pub workspace_id : String
  pub source_region_id : String
  pub target_region_id : String
  pub source_epoch : ℕ
  pub final_epoch : ℕ
  pub started_at : Date
  pub completed_at : Date
  pub checks : List MigrationCheck
  pub rollback_tested : Bool

pub data RunStatus : Type 0 where
  running completed failed : RunStatus

pub data RunPhase : Type 0 where
  fence completion_pending complete rollback : RunPhase

-- A row. The evidence is the proof and the code of an error, as far as they are there.
pub record Run : Type 0 where
  pub id : String
  pub workspace_id : String
  pub source_region_id : String
  pub target_region_id : String
  pub source_epoch : ℕ
  pub final_epoch : Option ℕ
  pub status : RunStatus
  pub phase : RunPhase
  pub proof : Option WorkspaceMigrationProof
  pub error_code : Option String
  pub updated_at : Date

abbrev pub Journal : Type 0
Journal = List Run

abbrev is_running : RunStatus → Bool
is_running running = true
is_running _ = false

-- `WHERE id = $1 AND status = 'running'`
abbrev pub is_run : String → Run → Bool
is_run id r = str_eq r.id id && is_running r.status

abbrev pub change : String → (Run → Run) → Run → Run
change id f r = if is_run id r then f r else r

unfoldable pub journal_completed : Date → String → WorkspaceMigrationProof → Journal → Journal
journal_completed now id proof = map (
    change id (λ r. record r {
      status = completed;
      phase = complete;
      final_epoch = some proof.final_epoch;
      proof = some proof;
      updated_at = now;
    }))

unfoldable pub journal_pending : Date → String → WorkspaceMigrationProof → Journal → Journal
journal_pending now id proof = map (
    change id (λ r. record r {
      phase = completion_pending;
      final_epoch = some proof.final_epoch;
      proof = some proof;
      updated_at = now;
    }))

unfoldable pub journal_failed : Date → String → String → Journal → Journal
journal_failed now id code = map (
    change id (λ r. record r {
      status = failed;
      phase = rollback;
      error_code = some code;
      updated_at = now;
    }))

abbrev pub is_pending_phase : RunPhase → Bool
is_pending_phase completion_pending = true
is_pending_phase _ = false

abbrev pub is_pending : String → Run → Bool
is_pending ws r = str_eq r.workspace_id ws && is_running r.status && is_pending_phase r.phase

abbrev later : Run → Option Run → Run
later r none = r
later r (some s) = if leb s.updated_at r.updated_at then r else s

-- `ORDER BY updated_at DESC LIMIT 1`
abbrev pub newest : List Run → Option Run
newest [] = none
newest (r ∷ rs) = some (later r (newest rs))

unfoldable pub pending_completion : String → Journal → Option Run
pending_completion ws j = newest (filter (is_pending ws) j)
