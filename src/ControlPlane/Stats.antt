-- ===== src/ControlPlane/Stats.antt =====
-- `applyPublicStatsProjectionCheckpoint` and `cleanupPublicStatsProjectionEvents` of
-- packages/control-plane/src/projection-outbox.ts: the statements over the three tables of the
-- public statistics.
pub mod Laws
use skillplane.Common.{
  ℕ, ◌+◌, ◌*◌, String, Option, none, some, Bool, true, false, not, ◌&&◌, ◌||◌, List, [], ◌∷◌, any,
  filter, str_eq, ltb, leb, ◌==◌, if◌then◌else◌, Date, Result, ok, err,
}
use skillplane.Common.Int.{ℤ, pos, negsuc, ◌+ℤ◌}

pub data EventType : Type 0 where
  agent_skill_used skill_count_changed : EventType

-- The input of `applyPublicStatsProjectionCheckpoint`.
pub record StatsInput : Type 0 where
  pub event_id : String
  pub workspace_id : String
  pub event_type : EventType
  pub fencing_epoch : ℕ
  pub sequence : ℕ
  pub agent_skill_uses : ℕ
  pub total_skills : ℤ

-- A row of `public_stats_projection_events`; old rows have no epoch and no sequence.
pub record EventRow : Type 0 where
  pub event_id : String
  pub workspace_id : String
  pub event_type : EventType
  pub fencing_epoch : Option ℕ
  pub sequence : Option ℕ
  pub applied_at : Date

-- A row of `public_stats_projection_checkpoints`.
pub record Checkpoint : Type 0 where
  pub fencing_epoch : ℕ
  pub sequence : ℕ

-- A row of `public_stats_counters`.
pub record Counters : Type 0 where
  pub agent_skill_uses : ℕ
  pub total_skills : ℤ

pub record StatsState : Type 0 where
  pub events : List EventRow
  pub checkpoints : String → Option Checkpoint
  pub counters : String → Option Counters

abbrev pub update {ℓ} : {A : Type ℓ} → (String → Option A) → String → A → String → Option A
update t key a k = if str_eq key k then some a else t k

-- `ON CONFLICT (event_id) DO NOTHING`
unfoldable pub is_recorded : String → List EventRow → Bool
is_recorded id events = any (λ e. str_eq e.event_id id) events

-- The checkpoint moves if there is none, or if it stands before the event.
unfoldable pub stands_before : Option Checkpoint → ℕ → ℕ → Bool
stands_before none epoch sequence = true
stands_before (some c) epoch sequence =
    ltb c.fencing_epoch epoch || (c.fencing_epoch == epoch && ltb c.sequence sequence)

unfoldable pub add_counters : Option Counters → StatsInput → Counters
add_counters none i = record {
  agent_skill_uses = i.agent_skill_uses;
  total_skills = i.total_skills;
}
add_counters (some c) i = record {
  agent_skill_uses = c.agent_skill_uses + i.agent_skill_uses;
  total_skills = c.total_skills +ℤ i.total_skills;
}

-- The row that `claimed` inserts.
abbrev pub row_of : Date → StatsInput → EventRow
row_of now i = record {
  event_id = i.event_id;
  workspace_id = i.workspace_id;
  event_type = i.event_type;
  fencing_epoch = some i.fencing_epoch;
  sequence = some i.sequence;
  applied_at = now;
}

-- `advanced` and the counters
abbrev pub advance : StatsInput → StatsState → StatsState
advance i s = record s {
  checkpoints =
      update s.checkpoints i.workspace_id
        (record { fencing_epoch = i.fencing_epoch; sequence = i.sequence });
  counters = update s.counters i.workspace_id (add_counters (s.counters i.workspace_id) i);
}

abbrev pub claim : Date → StatsInput → StatsState → StatsState
claim now i s = record s { events = row_of now i ∷ s.events }

abbrev is_negative : ℤ → Bool
is_negative (pos n) = false
is_negative (negsuc n) = true

-- `CHECK (total_skills >= 0)`, which PostgreSQL tests of the row that is proposed, before it looks for
-- the one in conflict, and of the row that is written.
unfoldable pub violates_check : StatsInput → StatsState → Bool
violates_check i s =
    is_negative i.total_skills
    || is_negative (add_counters (s.counters i.workspace_id) i).total_skills

pub data StatsError : Type 0 where
  check_violation : StatsError

-- What the statement leaves, or its violation of the check, which rolls it back.
unfoldable pub apply_checkpoint : Date → StatsInput → StatsState → Result StatsError StatsState
apply_checkpoint now i s =
    if is_recorded i.event_id s.events
    then ok s
    else if stands_before (s.checkpoints i.workspace_id) i.fencing_epoch i.sequence
    then (if violates_check i s then err check_violation else ok (claim now i (advance i s)))
    else ok (claim now i s)

-- `checkpoint.fencing_epoch > event.fencing_epoch OR (… = … AND checkpoint.sequence >= …)`
unfoldable pub is_covered : Option Checkpoint → Option ℕ → Option ℕ → Bool
is_covered (some c) (some epoch) (some sequence) =
    ltb epoch c.fencing_epoch || (c.fencing_epoch == epoch && leb sequence c.sequence)
is_covered _ _ _ = false

-- The rows that a cleanup may delete. Which of them it deletes, by the limit and the locks that it
-- skips, is the argument `chosen`.
unfoldable pub is_expired : Date → ℕ → StatsState → EventRow → Bool
is_expired now retention_ms s e =
    is_covered (s.checkpoints e.workspace_id) e.fencing_epoch e.sequence
    && ltb (e.applied_at + retention_ms) now

-- The statement of the cleanup
unfoldable pub delete_expired : Date → ℕ → (EventRow → Bool) → StatsState → StatsState
delete_expired now retention_ms chosen s = record s {
  events = filter (λ e. not (is_expired now retention_ms s e && chosen e)) s.events;
}

pub data CleanupError : Type 0 where
  retention_invalid cleanup_limit_invalid : CleanupError

-- `limit` bounds how many rows `chosen` takes.
unfoldable pub cleanup_events :
    Date → ℕ → ℕ → (EventRow → Bool) → StatsState → Result CleanupError StatsState
cleanup_events now retention_seconds limit chosen s =
    if ltb retention_seconds 3600 || ltb 7776000 retention_seconds
    then err retention_invalid
    else if ltb limit 1 || ltb 5000 limit
    then err cleanup_limit_invalid
    else ok (delete_expired now (retention_seconds * 1000) chosen s)
