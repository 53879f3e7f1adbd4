-- ===== src/ControlPlane/Placement.antt =====
-- The placement directory of packages/control-plane/src/placement.ts, over the table
-- `workspace_placements` with the primary key `workspace_id`.
pub mod Laws
use skillplane.Common.{
  ℕ, String, Option, none, some, Bool, true, false, not, ◌&&◌, leb, ◌==◌, str_eq, Result, ok, err,
  if◌then◌else◌, Date,
}
use skillplane.Common.Json.{max_safe_integer}

-- The migration record that DataFn keeps in a placement.
pub record Migration : Type 0 where
  pub phase : String
  pub source_region_id : Option String
  pub source_epoch : Option ℕ

pub record WorkspacePlacement : Type 0 where
  pub namespace : String
  pub region_id : String
  pub epoch : ℕ
  pub state : String
  pub updated_at : Date
  pub cache_expires_at : Option Date
  pub destination_ref : Option String
  pub moving_to_region_id : Option String
  pub previous_region_id : Option String
  pub migration : Option Migration

pub data PlacementError : Type 0 where
  epoch_invalid write_ambiguous namespace_immutable epoch_non_monotonic : PlacementError

-- The row of each workspace. A row's `workspace_id` is its key.
abbrev pub Table : Type 0
Table = String → Option WorkspacePlacement

abbrev pub write : Table → String → WorkspacePlacement → Table
write t ws next k = if str_eq ws k then some (record next { namespace = ws }) else t k

-- `text ? { field: text } : {}`
abbrev pub if_given : Option String → Option String
if_given none = none
if_given (some text) = if str_eq text "" then none else some text

-- `placement(row)`
unfoldable pub placement : WorkspacePlacement → Result PlacementError WorkspacePlacement
placement row =
    if leb 1 row.epoch && leb row.epoch max_safe_integer
    then ok (record row {
      destination_ref = if_given row.destination_ref;
      moving_to_region_id = if_given row.moving_to_region_id;
      previous_region_id = if_given row.previous_region_id;
    })
    else err epoch_invalid

unfoldable pub get : Table → String → Result PlacementError (Option WorkspacePlacement)
get t ws = elim (t ws) [
  | none ↦ ok none
  | some row ↦ elim (placement row) [ ok p ↦ ok (some p) | err e ↦ err e ]
]

-- What a write answers: whether it took place, and the placement that it read back.
pub record Written : Type 0 where
  pub done : Bool
  pub placement : WorkspacePlacement

abbrev answer : Bool → Result PlacementError WorkspacePlacement → Result PlacementError Written
answer done (ok p) = ok (record { done = done; placement = p })
answer done (err e) = err e

abbrev pub existing :
    WorkspacePlacement
    → PlacementError
    → Bool
    → Result PlacementError (Option WorkspacePlacement)
    → Result PlacementError Written
existing next e or_next (ok (some p)) = ok (record { done = false; placement = p })
existing next e or_next (ok none) =
    if or_next then ok (record { done = false; placement = next }) else err e
existing next e or_next (err x) = err x

-- Each method is one statement, which commits by itself; what it throws afterwards undoes nothing.
unfoldable pub put_if_absent : Table → WorkspacePlacement → Table × Result PlacementError Written
put_if_absent t next = elim (t next.namespace) [
  | none ↦ (write t next.namespace next, answer true (placement next))
  | some row ↦ (t, existing next write_ambiguous false (get t next.namespace))
]

-- The input of `compareAndSet`.
pub record Swap : Type 0 where
  pub namespace : String
  pub expected_epoch : ℕ
  pub expected_state : Option String
  pub next : WorkspacePlacement

-- `epoch = $11 AND ($12::text IS NULL OR state = $12)`
unfoldable pub swap_matches : Swap → WorkspacePlacement → Bool
swap_matches input row =
    row.epoch == input.expected_epoch
    && elim input.expected_state [ none ↦ true | some s ↦ str_eq row.state s ]

abbrev swap_row : Table → Swap → Option WorkspacePlacement → Table × Result PlacementError Written
swap_row t input none = (t, existing input.next write_ambiguous true (get t input.namespace))
swap_row t input (some row) =
    if swap_matches input row
    then (write t input.namespace input.next, answer true (placement input.next))
    else (t, existing input.next write_ambiguous true (get t input.namespace))

unfoldable pub compare_and_set : Table → Swap → Table × Result PlacementError Written
compare_and_set t input =
    if not (str_eq input.next.namespace input.namespace)
    then (t, err namespace_immutable)
    else if leb input.next.epoch input.expected_epoch
    then (t, err epoch_non_monotonic)
    else swap_row t input (t input.namespace)
