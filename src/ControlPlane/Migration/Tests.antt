-- ===== src/ControlPlane/Migration/Tests.antt =====
-- A workspace that moves once, although the last journal write of its first call fails.
use skillplane.Common.{ℕ, ◌+◌, String, ◌≡◌, refl, none, Bool, true, false, [], ◌∷◌, ok, err}
use skillplane.ControlPlane.Placement.{WorkspacePlacement, write, get, placement}
use skillplane.ControlPlane.Migration.{
  MigrationInput, World, Statement, completing, completion_failed, begun, is_recovery_pending,
  migration_source, migrate_workspace, migrate_with_journal,
}
use skillplane.ControlPlane.Migration.Runs.{
  WorkspaceMigrationProof, completed, complete, pending_completion,
}
use skillplane.ControlPlane.Migration.Laws.{Moves, postponed, broken_off, migrate-finalizes}

abbrev place : String → ℕ → WorkspacePlacement
place region epoch = record {
  namespace = "w";
  region_id = region;
  epoch = epoch;
  state = "active";
  updated_at = 1;
  cache_expires_at = none;
  destination_ref = none;
  moving_to_region_id = none;
  previous_region_id = none;
  migration = none;
}

-- The moves of data are counted.
abbrev world : World ℕ
world = record { placements = write (λ ws. none) "w" (place "eu" 1); journal = []; regions = 0 }

abbrev is_completing : Statement → Bool
is_completing completing = true
is_completing _ = false

abbrev first : MigrationInput ℕ
first = record {
  workspace_id = "w";
  target_region_id = "us";
  migration_id = "m";
  rollback_tested = true;
  prepare = λ n. (n, none);
  move = λ t n. ((write t "w" (place "us" 2), n + 1), ok (place "us" 2, []));
  started_at = 3;
  completed_at = 4;
  now = 5;
  fails = is_completing;
}

abbrev second : MigrationInput ℕ
second = record first { now = 9; fails = λ s. false }

abbrev proof : WorkspaceMigrationProof
proof = record {
  workspace_id = "w";
  source_region_id = "eu";
  target_region_id = "us";
  source_epoch = 1;
  final_epoch = 2;
  started_at = 3;
  completed_at = 4;
  checks = [];
  rollback_tested = true;
}

abbrev after : World ℕ
after = record {
  placements = write world.placements "w" (place "us" 2);
  journal = (begun first (place "eu" 1) world).journal;
  regions = 1;
}

first-Moves : Moves first world after (place "eu" 1) (place "us" 2) proof
unfolding migrate_workspace get placement is_recovery_pending migration_source pending_completion
first-Moves = record {
  found = refl;
  admitted = refl;
  no_pending = refl;
  fresh = refl;
  starts = refl;
  breaks = refl;
  postpones = refl;
  moves = refl;
}

migrate-finalizes_example :
    (migrate_with_journal first world
      ≡ (broken_off first world after (place "eu" 1) proof, err completion_failed))
    × (migrate_with_journal second (broken_off first world after (place "eu" 1) proof) ≡ (
      record (broken_off first world after (place "eu" 1) proof) {
        journal =
            record (postponed first (place "eu" 1) proof) {
              status = completed;
              phase = complete;
              updated_at = 9;
            }
            ∷ [];
      },
      ok (record { migration_id = "m"; placement = place "us" 2; proof = proof }),
    ))
unfolding get placement
migrate-finalizes_example =
    migrate-finalizes first second world after (place "eu" 1) (place "us" 2) proof first-Moves refl
      refl refl refl refl refl refl
