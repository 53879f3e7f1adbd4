-- ===== src/ControlPlane/Outbox/Drain.antt =====
-- `drainRegionalProjectionOutbox` of packages/control-plane/src/projection-outbox.ts, without its
-- optional observer: the loop of one worker, beside other workers.
pub mod Laws
pub mod Order
use skillplane.Common.{
  ℕ, suc, zero, ◌+◌, ◌-◌, min, String, Option, none, some, Bool, true, false, not, ◌&&◌, ◌||◌, List,
  [], ◌∷◌, ◌==◌, str_eq, all, contains, length, is_some, ltb, leb, map, Result, ok, err,
  if◌then◌else◌, Date,
}
use skillplane.Common.Text.{codes}
use skillplane.Common.Json.{max_safe_integer}
use skillplane.ControlPlane.Regional.{RegionalEvent}
use skillplane.ControlPlane.Outbox.{
  Row, Outbox, OutboxError, epoch_invalid, sequence_invalid, limit_invalid, lease_invalid,
  duration_invalid, Moment, Claimed, candidates, returning, claim, acknowledges, acknowledge, fail,
  release,
}

-- `[A-Z0-9_:-]`
abbrev pub is_code_unit : ℕ → Bool
is_code_unit c = (leb 65 c && leb c 90) || (leb 48 c && leb c 58) || c == 95 || c == 45

-- `safeFailureCode` of the message of an error
unfoldable pub safe_failure_code : String → String
safe_failure_code message =
    if all is_code_unit (codes message)
      && leb 1 (length (codes message))
      && leb (length (codes message)) 160
    then message
    else "PUBLICATION_PROJECTION_FAILED"

-- The input of a drain. `process` answers the message that it throws with, if it throws. The tick
-- counts the statements and the readings of the clock: `moment` is what the database decides at a
-- statement, `others` what other workers have done to the table until then, and `late` whether the
-- deadline has passed.
pub record Worker (W : Type 0) : Type 0 where
  pub region_id : String
  pub limit : ℕ
  pub lease_seconds : ℕ
  pub max_duration_ms : Option ℕ
  pub claim_token : String
  pub process : RegionalEvent → W → W × Option String
  pub moment : ℕ → Moment
  pub others : ℕ → Outbox → Outbox
  pub late : ℕ → Bool

pub record Progress (W : Type 0) : Type 0 where
  pub world : W
  pub outbox : Outbox
  pub tick : ℕ
  pub processed : ℕ
  pub failed : ℕ
  pub blocked : List String

pub data Outcome : Type 0 where
  going returned : Outcome
  thrown : OutboxError → Outcome

module _ {W : Type 0} (w : Worker W) where
  -- A statement, after what the other workers did.
  abbrev pub run : (Moment → Outbox → Outbox) → Progress W → Progress W
  run statement s = record s {
    outbox = statement (w.moment s.tick) (w.others s.tick s.outbox);
    tick = suc s.tick;
  }

  abbrev pub event_of : Claimed → RegionalEvent
  event_of c = record {
    id = c.id;
    region_id = w.region_id;
    event_type = c.row.event_type;
    workspace_id = c.row.workspace_id;
    fencing_epoch = c.row.fencing_epoch;
    sequence = c.row.sequence;
    payload = c.row.payload;
  }

  -- The `catch` block.
  abbrev pub caught : Claimed → String → Progress W → Progress W
  caught c message s =
      let t = run (λ m. fail c.id w.claim_token (safe_failure_code message)) s in
      record t { blocked = c.row.workspace_id ∷ t.blocked; failed = t.failed + 1 }

  abbrev pub settle : Claimed → Option String → Progress W → Progress W
  settle c (some message) s = caught c message s
  settle c none s =
      let t = run (λ m. acknowledge m.now c.id w.claim_token) s in
      if acknowledges c.id w.claim_token (w.others s.tick s.outbox)
      then record t { processed = t.processed + 1 }
      else caught c "PUBLICATION_OUTBOX_CLAIM_LOST" t

  abbrev pub attempt : Claimed → Progress W → Progress W
  attempt c s =
      let done = w.process (event_of c) s.world in settle c done.1 (record s { world = done.0 })

  -- `fencingEpoch` and `projectionSequence`
  abbrev pub is_counted : ℕ → Bool
  is_counted n = leb 1 n && leb n max_safe_integer

  abbrev pub tick_on : Progress W → Progress W
  tick_on s = record s { tick = suc s.tick }

  -- The rows of one claim, in the order in which the statement returned them.
  abbrev pub drain_rows : List Claimed → Progress W → Progress W × Outcome
  drain_rows [] s = (s, going)
  drain_rows (c ∷ cs) s =
      let rest = drain_rows cs (attempt c (tick_on s)) in
      if w.late s.tick
      then (
        run (λ m. release (map (λ unused. unused.id) (c ∷ cs)) w.claim_token) (tick_on s),
        returned,
      )
      else if not (is_counted c.row.fencing_epoch)
      then (tick_on s, thrown epoch_invalid)
      else if not (is_counted c.row.sequence)
      then (tick_on s, thrown sequence_invalid)
      else rest

  abbrev pub claim_limit : Progress W → ℕ
  claim_limit s = min (w.limit - s.processed - s.failed) 25

  -- The rows that the claim of a turn returns.
  abbrev pub claimed_rows : Progress W → List Claimed
  claimed_rows s =
      let m = w.moment s.tick in
      let t = w.others s.tick s.outbox in
      returning (claim m (claim_limit s) w.lease_seconds w.claim_token s.blocked t)
        (candidates m (claim_limit s) w.lease_seconds s.blocked t)

  abbrev pub claiming : Progress W → Progress W
  claiming s = run (λ m. claim m (claim_limit s) w.lease_seconds w.claim_token s.blocked) s

  abbrev pub drain_claimed : List Claimed → Progress W → Progress W × Outcome
  drain_claimed [] s = (s, returned)
  drain_claimed (c ∷ cs) s = drain_rows (c ∷ cs) s

  -- One turn of the `while` loop.
  unfoldable pub turn : Progress W → Progress W × Outcome
  turn s =
      if not (ltb (s.processed + s.failed) w.limit)
      then (s, returned)
      else if w.late s.tick
      then (tick_on s, returned)
      else drain_claimed (claimed_rows (tick_on s)) (claiming (tick_on s))

  -- None when the fuel is out.
  unfoldable pub turns : ℕ → Progress W → Option (Progress W × Outcome)
  turns zero s = none
  turns (suc n) s =
      let (t, outcome) = turn s in
      elim outcome [
        | going ↦ turns n t
        | returned ↦ some (t, returned)
        | thrown e ↦ some (t, thrown e)
      ]

  abbrev pub start : W → Outbox → Progress W
  start world t = record {
    world = world;
    outbox = t;
    tick = 0;
    processed = 0;
    failed = 0;
    blocked = [];
  }

  abbrev pub is_limit : Option ℕ → Bool
  is_limit none = leb 1 w.limit && leb w.limit 500
  is_limit (some d) = leb 1 w.limit && leb w.limit 50000

  abbrev pub is_duration : Option ℕ → Bool
  is_duration none = true
  is_duration (some d) = ltb 0 d && leb d 50000

  -- A drain of one turn more than the rows that it may take.
  unfoldable pub drain : W → Outbox → Option (Progress W × Outcome)
  drain world t =
      if not (is_limit w.max_duration_ms)
      then some (start world t, thrown limit_invalid)
      else if not (leb 10 w.lease_seconds && leb w.lease_seconds 600)
      then some (start world t, thrown lease_invalid)
      else if not (is_duration w.max_duration_ms)
      then some (start world t, thrown duration_invalid)
      else turns (suc w.limit) (start world t)
