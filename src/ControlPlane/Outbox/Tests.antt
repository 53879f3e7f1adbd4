-- ===== src/ControlPlane/Outbox/Tests.antt =====
-- Two events of one workspace: they are enqueued, claimed, processed and cleaned up.
use skillplane.Common.{
  ℕ, ◌+◌, ◌==◌, if◌then◌else◌, ◌≤◌, ◌<◌, ◌≡◌, ◌≢◌, refl, Date, Option, none, some, true, false, [],
  ◌∷◌, Result, ok, err,
}
use skillplane.Common.Json.{obj, end}
use skillplane.Common.Sorting.{sort}
use skillplane.ControlPlane.Regional.{stats_used}
use skillplane.ControlPlane.Outbox.{
  Row, Outbox, OutboxError, Moment, next_sequence, enqueue, is_candidate, candidates, update, claim,
  acknowledges, acknowledge, fail, cleanup, retired,
}
use skillplane.ControlPlane.Outbox.Laws.{
  IsOrdered, enqueued, claimed, acknowledged, cleaned, Steps, here, onward,
}
use skillplane.ControlPlane.Outbox.Steps.{Steps-IsOrdered, next_sequence-grows}
use skillplane.ControlPlane.Outbox.History.{IsServed, Steps-IsServed}
use skillplane.ControlPlane.Outbox.Drain.{
  safe_failure_code, Worker, Progress, Outcome, going, drain, turn, turns,
}
use skillplane.ControlPlane.Outbox.Drain.Order.{drain-IsOrdered}

abbrev empty : Outbox
empty = record { ids = []; row = λ id. none; sequences = λ ws. none }

empty-IsOrdered : IsOrdered empty
empty-IsOrdered = record {
  listed = λ id r e. cc;
  allotted = λ id r e. cc;
  ordered = λ id later r s e. cc;
}

abbrev moment : Date → Moment
moment now = record { before = λ a b. false; unlocked = λ id. true; now = now }

abbrev or_empty : Result OutboxError Outbox → Outbox
or_empty (ok t) = t
or_empty (err e) = empty

abbrev first : Outbox
first = or_empty (enqueue 1 "a" "w" stats_used (obj end) none empty)

abbrev second : Outbox
second = or_empty (enqueue 2 "b" "w" stats_used (obj end) none first)

first-enqueued : enqueue 1 "a" "w" stats_used (obj end) none empty ≡ ok first
unfolding enqueue
first-enqueued = refl

second-enqueued : enqueue 2 "b" "w" stats_used (obj end) none first ≡ ok second
unfolding enqueue
second-enqueued = refl

filled : Steps empty second
filled =
    onward (onward here (enqueued 1 "a" "w" stats_used (obj end) none first-enqueued))
      (enqueued 2 "b" "w" stats_used (obj end) none second-enqueued)

-- Only the first of the two rows is a candidate.
claim_test : candidates (moment 9) 25 60 [] second ≡ "a" ∷ []
unfolding candidates sort is_candidate enqueue next_sequence
claim_test = refl

-- The first row is processed, and retired later.
abbrev processed : Outbox
processed = acknowledge 9 "a" "t" (claim (moment 9) 25 60 "t" [] second)

abbrev retired_later : Outbox
retired_later = or_empty (cleanup (moment 9000000) 3600 100 processed)

retired-cleaned : cleanup (moment 9000000) 3600 100 processed ≡ ok retired_later
unfolding cleanup
retired-cleaned = refl

gone_test : retired_later.row "a" ≡ none
unfolding candidates sort is_candidate enqueue next_sequence claim acknowledge update cleanup
    retired
gone_test = refl

abbrev first_row : Row
first_row = record {
  workspace_id = "w";
  event_type = stats_used;
  payload = obj end;
  fencing_epoch = 1;
  sequence = 1;
  created_at = 1;
  claim_token = none;
  claimed_at = none;
  attempts = 0;
  last_error = none;
  processed_at = none;
}

-- The sequence of the retired row is not allotted again.
next_sequence-grows_example : 1 < next_sequence "w" retired_later
unfolding enqueue next_sequence
next_sequence-grows_example =
    next_sequence-grows "a" first_row (Steps-IsOrdered filled empty-IsOrdered) refl (
      onward (onward (onward here (claimed (moment 9) 25 60 "t" [])) (acknowledged 9 "a" "t"))
        (cleaned (moment 9000000) 3600 100 retired-cleaned))

-- The second row is claimed after the first was processed and is gone.
Steps-IsServed_example : IsServed second (claim (moment 9000001) 25 60 "u" [] retired_later)
Steps-IsServed_example =
    Steps-IsServed filled
      (onward
        (onward (onward (onward here (claimed (moment 9) 25 60 "t" [])) (acknowledged 9 "a" "t"))
          (cleaned (moment 9000000) 3600 100 retired-cleaned))
        (claimed (moment 9000001) 25 60 "u" []))
      empty-IsOrdered

-- A processor that throws at the first event of all.
abbrev worker : Worker ℕ
worker = record {
  region_id = "eu";
  limit = 3;
  lease_seconds = 60;
  max_duration_ms = none;
  claim_token = "t";
  process = λ e n. (n + e.sequence, if n == 0 then some "REFUSED" else none);
  moment = λ k. moment (9 + k);
  others = λ k t. t;
  late = λ k. false;
}

abbrev counts : Option (Progress ℕ × Outcome) → ℕ × ℕ × ℕ
counts none = (0, 0, 0)
counts (some (s, x)) = (s.world, s.processed, s.failed)

-- From a world that processed before, both rows are processed, one claim after the other; from a
-- new one, the first fails and the second waits for it.
drained_test : counts (drain worker 7 second) ≡ (10, 2, 0)
unfolding drain turn turns candidates sort is_candidate enqueue next_sequence claim acknowledges
    acknowledge update fail safe_failure_code
drained_test = refl

poisoned_test : counts (drain worker 0 second) ≡ (1, 0, 1)
unfolding drain turn turns candidates sort is_candidate enqueue next_sequence claim acknowledges
    acknowledge update fail safe_failure_code
poisoned_test = refl

drain-IsOrdered_example :
    (s : Progress ℕ) × (x : Outcome) × (drain worker 7 second ≡ some (s, x))
    × (x ≢ going)
    × (s.processed + s.failed ≤ 3)
    × IsOrdered s.outbox
drain-IsOrdered_example =
    drain-IsOrdered worker (λ k t. here) second 7 (Steps-IsOrdered filled empty-IsOrdered)
