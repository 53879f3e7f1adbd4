-- ===== src/ControlPlane/Tests.antt =====
-- A workspace that moves between regions, and an event that is replayed after its row is gone.
use skillplane.Common.{ℕ, String, ◌≡◌, refl, arith, none, some, true, [], ◌∷◌, ok, err}
use skillplane.Common.Int.{pos, negsuc}
use skillplane.ControlPlane.Placement.{
  WorkspacePlacement, Table, Swap, compare_and_set, swap_matches, placement, write,
}
use skillplane.ControlPlane.Placement.Laws.{
  put, swap, epoch_at, Swapped, Swapped-once, run_ops-epoch_at, table_of_not_done,
}
use skillplane.ControlPlane.Placement.Laws as Moves
use skillplane.ControlPlane.Stats.{
  StatsInput, StatsState, agent_skill_used, cleanup_events, delete_expired, is_expired,
  apply_checkpoint, is_recorded, is_covered, stands_before, violates_check, add_counters,
  check_violation,
}
use skillplane.ControlPlane.Stats.Laws.{apply, cleanup, counters-apply_again, run_ops-keeps_past}
use skillplane.ControlPlane.Stats.Laws as Events

abbrev place : String → ℕ → WorkspacePlacement
place region epoch = record {
  namespace = "w";
  region_id = region;
  epoch = epoch;
  state = "active";
  updated_at = 1;
  cache_expires_at = none;
  destination_ref = none;
  moving_to_region_id = none;
  previous_region_id = none;
  migration = none;
}

abbrev table : Table
table = write (λ ws. none) "w" (place "eu" 1)

abbrev move : String → Swap
move region = record {
  namespace = "w";
  expected_epoch = 1;
  expected_state = some "active";
  next = place region 2;
}

moved_test : Swapped table (move "us")
unfolding compare_and_set swap_matches placement
moved_test = (place "us" 2, refl)

Swapped-once_example :
    ¬ Swapped
      (Moves.run_ops (put (place "eu" 1) ∷ []) (compare_and_set table (move "us")).0)
      (move "asia")
Swapped-once_example =
    Swapped-once table (move "us") (move "asia") (put (place "eu" 1) ∷ []) moved_test refl
      (omega arith)

abbrev used : StatsInput
used = record {
  event_id = "e";
  workspace_id = "w";
  event_type = agent_skill_used;
  fencing_epoch = 1;
  sequence = 1;
  agent_skill_uses = 1;
  total_skills = pos 0;
}

abbrev empty : StatsState
empty = record { events = []; checkpoints = λ ws. none; counters = λ ws. none }

abbrev counted : StatsState
counted = Events.or_unchanged empty (apply_checkpoint 1 used empty)

counted_test : apply_checkpoint 1 used empty ≡ ok counted
unfolding apply_checkpoint is_recorded stands_before violates_check add_counters
counted_test = refl

-- A first event that takes a skill away violates the check.
refused_test :
    apply_checkpoint 1 (record used { total_skills = negsuc 0 }) empty ≡ err check_violation
unfolding apply_checkpoint is_recorded stands_before violates_check add_counters
refused_test = refl

gone_test : (Events.run_ops (cleanup 9000000 3600 10 (λ e. true) ∷ []) counted).events ≡ []
unfolding apply_checkpoint is_recorded stands_before violates_check add_counters cleanup_events
    delete_expired is_expired is_covered Events.run_ops
gone_test = refl

counters-apply_again_example :
    (counted.counters "w" ≡ some (record { agent_skill_uses = 1; total_skills = pos 0 }))
    × ((t : StatsState) × (apply_checkpoint 9999999 used
            (Events.run_ops (cleanup 9000000 3600 10 (λ e. true) ∷ []) counted)
          ≡ ok t)
        × (t.counters
            ≡ (Events.run_ops (cleanup 9000000 3600 10 (λ e. true) ∷ []) counted).counters))
unfolding is_recorded stands_before
counters-apply_again_example =
    counters-apply_again 1 9999999 used (cleanup 9000000 3600 10 (λ e. true) ∷ []) empty counted
      refl refl counted_test
