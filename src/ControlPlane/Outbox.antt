-- ===== src/ControlPlane/Outbox.antt =====
-- The table `regional_projection_outbox` of a region: `enqueue` of
-- packages/domain/src/projection-events.ts, and the statements of `drainRegionalProjectionOutbox`
-- and `cleanupProcessedRegionalProjectionOutbox` of packages/control-plane/src/projection-outbox.ts.
pub mod Laws
pub mod Order
pub mod Steps
pub mod History
pub mod Drain
mod Tests
use skillplane.Common.{
  ℕ, ◌+◌, ◌*◌, max, String, Option, none, some, Bool, true, false, not, ◌&&◌, ◌||◌, List, [], ◌∷◌,
  ◌==◌, str_eq, any, contains, filter, length, take, is_some, ltb, leb, get_or, Result, ok, err,
  if◌then◌else◌, Date,
}
use skillplane.Common.Json.{Json, max_safe_integer}
use skillplane.Common.Sorting.{sort}
use skillplane.ControlPlane.Regional.{RegionalEventType, RegionalEvent}

pub record Row : Type 0 where
  pub workspace_id : String
  pub event_type : RegionalEventType
  pub payload : Json
  pub fencing_epoch : ℕ
  pub sequence : ℕ
  pub created_at : Date
  pub claim_token : Option String
  pub claimed_at : Option Date
  pub attempts : ℕ
  pub last_error : Option String
  pub processed_at : Option Date

-- The rows by their primary key, the keys of the rows, and `regional_projection_sequences`.
pub record Outbox : Type 0 where
  pub ids : List String
  pub row : String → Option Row
  pub sequences : String → Option ℕ

pub data OutboxError : Type 0 where
  id_taken epoch_invalid sequence_invalid retention_invalid cleanup_limit_invalid limit_invalid
        lease_invalid duration_invalid :
      OutboxError

-- `MAX(sequence)` of the rows of a workspace
abbrev pub sequence_in : String → Option Row → ℕ
sequence_in ws none = 0
sequence_in ws (some r) = if str_eq r.workspace_id ws then r.sequence else 0

abbrev pub max_sequence : String → (String → Option Row) → List String → ℕ
max_sequence ws row [] = 0
max_sequence ws row (id ∷ ids) = max (sequence_in ws (row id)) (max_sequence ws row ids)

-- The sequence that `next_sequence` returns.
unfoldable pub next_sequence : String → Outbox → ℕ
next_sequence ws t = max (get_or (t.sequences ws) 0) (max_sequence ws t.row t.ids) + 1

abbrev pub inserted : Date → String → String → RegionalEventType → Json → ℕ → Outbox → Row
inserted now id ws type payload epoch t = record {
  workspace_id = ws;
  event_type = type;
  payload = payload;
  fencing_epoch = epoch;
  sequence = next_sequence ws t;
  created_at = now;
  claim_token = none;
  claimed_at = none;
  attempts = 0;
  last_error = none;
  processed_at = none;
}

abbrev pub insert : String → Row → Outbox → Outbox
insert id r t = record {
  ids = id ∷ t.ids;
  row = λ k. if str_eq id k then some r else t.row k;
  sequences = λ w. if str_eq r.workspace_id w then some r.sequence else t.sequences w;
}

-- The advisory lock makes the two statements one step of the workspace.
unfoldable pub enqueue :
    Date
    → String
    → String
    → RegionalEventType
    → Json
    → Option ℕ
    → Outbox
    → Result OutboxError Outbox
enqueue now id ws type payload epoch t =
    let resolved = get_or epoch 1 in
    if ltb resolved 1 || ltb max_safe_integer resolved
    then err epoch_invalid
    else if is_some (t.row id)
    then err id_taken
    else ok (insert id (inserted now id ws type payload resolved t) t)

-- `claimed_at IS NULL OR claimed_at < now() - lease`
abbrev pub is_free : Date → ℕ → Option Date → Bool
is_free now lease none = true
is_free now lease (some at) = ltb (at + lease * 1000) now

-- An unprocessed row of the same workspace with a smaller sequence.
abbrev pub precedes : Row → Option Row → Bool
precedes r none = false
precedes r (some earlier) =
    str_eq earlier.workspace_id r.workspace_id
    && not (is_some earlier.processed_at)
    && ltb earlier.sequence r.sequence

unfoldable pub is_candidate : Date → ℕ → List String → Outbox → Option Row → Bool
is_candidate now lease blocked t none = false
is_candidate now lease blocked t (some r) =
    not (is_some r.processed_at)
    && is_free now lease r.claimed_at
    && not (contains blocked r.workspace_id)
    && not (any (λ id. precedes r (t.row id)) t.ids)

-- What the database decides: the order of its keys, which rows no other transaction has locked when
-- a statement runs, and the clock.
pub record Moment : Type 0 where
  pub before : String → String → Bool
  pub unlocked : String → Bool
  pub now : Date

abbrev created : Outbox → String → Date
created t id = elim (t.row id) [ none ↦ 0 | some r ↦ r.created_at ]

-- `ORDER BY created_at, id`
abbrev pub created_before : Moment → Outbox → String → String → Bool
created_before m t a b =
    ltb (created t a) (created t b) || (created t a == created t b && m.before a b)

-- `LIMIT` and `SKIP LOCKED`
unfoldable pub candidates : Moment → ℕ → ℕ → List String → Outbox → List String
candidates m limit lease blocked t = take limit (
    sort str_eq (created_before m t)
      (filter (λ id. m.unlocked id && is_candidate m.now lease blocked t (t.row id)) t.ids))

-- An `UPDATE` of the rows that satisfy a test.
abbrev pub updated : (String → Row → Bool) → (Row → Row) → String → Option Row → Option Row
updated p f id none = none
updated p f id (some r) = if p id r then some (f r) else some r

unfoldable pub update : (String → Row → Bool) → (Row → Row) → Outbox → Outbox
update p f t = record t { row = λ id. updated p f id (t.row id) }

-- A claimed row, as `RETURNING` gives it.
pub record Claimed : Type 0 where
  pub id : String
  pub row : Row

abbrev pub returning : Outbox → List String → List Claimed
returning t [] = []
returning t (id ∷ ids) =
    let rest = returning t ids in
    elim (t.row id) [ none ↦ rest | some r ↦ record { id = id; row = r } ∷ rest ]

unfoldable pub claim : Moment → ℕ → ℕ → String → List String → Outbox → Outbox
claim m limit lease token blocked t =
    let chosen = candidates m limit lease blocked t in
    update (λ id r. contains chosen id)
      (λ r. record r {
        claim_token = some token;
        claimed_at = some m.now;
        attempts = r.attempts + 1;
      })
      t

-- `claim_token = $2`
abbrev pub is_held : String → Option String → Bool
is_held token none = false
is_held token (some held) = str_eq held token

-- `id = $1 AND claim_token = $2 AND processed_at IS NULL`
abbrev pub is_owned : List String → String → String → Row → Bool
is_owned ids token id r =
    contains ids id && is_held token r.claim_token && not (is_some r.processed_at)

unfoldable pub acknowledge : Date → String → String → Outbox → Outbox
acknowledge now id token = update (is_owned (id ∷ []) token) (λ r. record r {
  processed_at = some now;
  claim_token = none;
  claimed_at = none;
  last_error = none;
})

-- Whether `RETURNING id` gives the row.
unfoldable pub acknowledges : String → String → Outbox → Bool
acknowledges id token t = elim (t.row id) [ none ↦ false | some r ↦ is_owned (id ∷ []) token id r ]

unfoldable pub fail : String → String → String → Outbox → Outbox
fail id token code =
    update (is_owned (id ∷ []) token)
      (λ r. record r { claim_token = none; claimed_at = none; last_error = some code })

unfoldable pub release : List String → String → Outbox → Outbox
release ids token =
    update (is_owned ids token) (λ r. record r { claim_token = none; claimed_at = none })

-- `processed_at < now() - retention`
abbrev pub is_retired : Date → ℕ → Option Row → Bool
is_retired now retention none = false
is_retired now retention (some r) = elim r.processed_at [
  | none ↦ false
  | some at ↦ ltb (at + retention * 1000) now
]

abbrev retired_at : Outbox → String → Date
retired_at t id = elim (t.row id) [ none ↦ 0 | some r ↦ get_or r.processed_at 0 ]

abbrev pub retired_before : Moment → Outbox → String → String → Bool
retired_before m t a b =
    ltb (retired_at t a) (retired_at t b) || (retired_at t a == retired_at t b && m.before a b)

unfoldable pub retired : Moment → ℕ → ℕ → Outbox → List String
retired m retention limit t = take limit (
    sort str_eq (retired_before m t)
      (filter (λ id. m.unlocked id && is_retired m.now retention (t.row id)) t.ids))

abbrev pub delete : List String → Outbox → Outbox
delete gone t = record t {
  ids = filter (λ id. not (contains gone id)) t.ids;
  row = λ id. if contains gone id then none else t.row id;
}

-- The count of the deleted rows is the length of `retired`.
unfoldable pub cleanup : Moment → ℕ → ℕ → Outbox → Result OutboxError Outbox
cleanup m retention limit t =
    if ltb retention 3600 || ltb 7776000 retention
    then err retention_invalid
    else if ltb limit 1 || ltb 5000 limit
    then err cleanup_limit_invalid
    else ok (delete (retired m retention limit t) t)
