-- ===== src/Idempotency.antt =====
-- `IdempotencyStore` of packages/domain/src/idempotency.ts, over the table `idempotency_records`. Each
-- method is a transaction; the fencing epoch that it may check is not modelled.
pub mod Laws
pub mod Locks
mod Tests
use Prim.Native.String
use skillplane.Common.{
  ℕ, ◌+◌, String, Option, none, some, Bool, not, ◌&&◌, ◌||◌, List, [], ◌∷◌, false, all, length,
  str_eq, leb, ltb, ◌==◌, is_some, Result, ok, err, if◌then◌else◌, Date,
}
use skillplane.Common.Text.{codes, trim}
use skillplane.Common.Errors.{
  DomainError, domain_error, idempotency_key_required, idempotency_key_reused,
  idempotency_in_progress,
}
use skillplane.Access.{Principal, user, service}

-- The primary key of a record.
pub record Slot : Type 0 where
  pub workspace_id : String
  pub principal_key : String
  pub key : String
  pub operation : String

pub record IdempotencyIdentity : Type 0 where
  pub slot : Slot
  pub request_hash : String

-- A row of `idempotency_records`. The body is its JSON text.
pub record Entry : Type 0 where
  pub request_hash : String
  pub response_status : Option ℕ
  pub response_body : Option String
  pub locked_until : Date
  pub expires_at : Date

abbrev pub Records : Type 0
Records = Slot → Option Entry

abbrev pub same_slot : Slot → Slot → Bool
same_slot a b =
    str_eq a.workspace_id b.workspace_id
    && str_eq a.principal_key b.principal_key
    && str_eq a.key b.key
    && str_eq a.operation b.operation

abbrev pub put_entry : Slot → Option Entry → Records → Records
put_entry slot entry t k = if same_slot slot k then entry else t k

-- `[A-Za-z0-9]`
abbrev pub is_alphanumeric : ℕ → Bool
is_alphanumeric c = (leb 65 c && leb c 90) || (leb 97 c && leb c 122) || (leb 48 c && leb c 57)

-- `[A-Za-z0-9._:-]`
abbrev pub is_key_unit : ℕ → Bool
is_key_unit c = is_alphanumeric c || c == 46 || c == 95 || c == 58 || c == 45

-- `/^[A-Za-z0-9][A-Za-z0-9._:-]{0,254}$/`
abbrev pub matches_key : List ℕ → Bool
matches_key [] = false
matches_key (c ∷ cs) = is_alphanumeric c && all is_key_unit cs && leb (length cs) 254

unfoldable pub validate_idempotency_key : String → Result DomainError String
validate_idempotency_key value =
    if matches_key (codes (trim value))
    then ok (trim value)
    else err (domain_error idempotency_key_required 400)

abbrev pub principal_idempotency_key : Principal → String
principal_idempotency_key (user u) = String.◌++◌ "user:" u.actor_id
principal_idempotency_key (service s) = String.◌++◌ "service:" s.actor_id

-- A call of `claim`, with its clock.
pub record Claim : Type 0 where
  pub workspace_id : String
  pub principal : Principal
  pub operation : String
  pub key : String
  pub request_hash : String
  pub now : Date

pub data Claimed : Type 0 where
  claimed : IdempotencyIdentity → Claimed
  replay : ℕ → String → Claimed

abbrev pub slot_of : Claim → String → Slot
slot_of x key = record {
  workspace_id = x.workspace_id;
  principal_key = principal_idempotency_key x.principal;
  key = key;
  operation = x.operation;
}

abbrev pub in_progress : DomainError
in_progress = domain_error idempotency_in_progress 409

abbrev pub reused : DomainError
reused = domain_error idempotency_key_reused 409

-- The record that was there when the insert found a conflict.
unfoldable pub claim_existing :
    ℕ → ℕ → Claim → Slot → Entry → Records → Result DomainError (Claimed × Records)
claim_existing lock_ms retention_ms x slot entry t =
    let reclaim =
      if is_some entry.response_status || ltb x.now entry.locked_until
      then err in_progress
      else ok (
        claimed (record { slot = slot; request_hash = x.request_hash }),
        put_entry slot
            (some
              (record entry { locked_until = x.now + lock_ms; expires_at = x.now + retention_ms }))
            t,
      ) in
    if not (str_eq entry.request_hash x.request_hash)
    then err reused
    else elim entry.response_status [
      | none ↦ reclaim
      | some status ↦ elim entry.response_body [
        | none ↦ reclaim
        | some body ↦ ok (replay status body, t)
      ]
    ]

abbrev pub claim_slot :
    ℕ → ℕ → Claim → Slot → Option Entry → Records → Result DomainError (Claimed × Records)
claim_slot lock_ms retention_ms x slot none t = ok (
  claimed (record { slot = slot; request_hash = x.request_hash }),
  put_entry slot
      (some (record {
        request_hash = x.request_hash;
        response_status = none;
        response_body = none;
        locked_until = x.now + lock_ms;
        expires_at = x.now + retention_ms;
      }))
      t,
)
claim_slot lock_ms retention_ms x slot (some entry) t =
    claim_existing lock_ms retention_ms x slot entry t

abbrev claim_key :
    ℕ → ℕ → Claim → Records → Result DomainError String → Result DomainError (Claimed × Records)
claim_key lock_ms retention_ms x t (err e) = err e
claim_key lock_ms retention_ms x t (ok key) =
    claim_slot lock_ms retention_ms x (slot_of x key) (t (slot_of x key)) t

-- `lock_ms` and `retention_ms` are `lockDurationMs` and `retentionMs` of the store.
unfoldable pub claim : ℕ → ℕ → Claim → Records → Result DomainError (Claimed × Records)
claim lock_ms retention_ms x t = claim_key lock_ms retention_ms x t (validate_idempotency_key x.key)

-- `request_hash = $5 AND response_status IS NULL`
abbrev pub is_open : IdempotencyIdentity → Option Entry → Bool
is_open identity none = false
is_open identity (some entry) =
    str_eq entry.request_hash identity.request_hash && not (is_some entry.response_status)

abbrev pub answered : ℕ → String → Date → Option Entry → Option Entry
answered status body now none = none
answered status body now (some entry) =
    some (record entry {
      response_status = some status;
      response_body = some body;
      locked_until = now;
    })

unfoldable pub complete :
    IdempotencyIdentity → ℕ → String → Date → Records → Result DomainError Records
complete identity status body now t =
    if is_open identity (t identity.slot)
    then ok (put_entry identity.slot (answered status body now (t identity.slot)) t)
    else err reused

unfoldable pub release : IdempotencyIdentity → Records → Records
release identity t =
    if is_open identity (t identity.slot) then put_entry identity.slot none t else t
