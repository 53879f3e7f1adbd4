-- ===== src/Lifecycle.antt =====
-- `VersionLifecycleService` of packages/domain/src/version-lifecycle.ts, over the lifecycle tables of a
-- region and of the control plane, and the records of Idempotency. The fencing epoch is not modelled.
pub mod Marks
pub mod Laws
mod Tests
use skillplane.Common.{
  ℕ, String, Option, none, some, Bool, true, false, not, ◌&&◌, ◌||◌, List, [], ◌∷◌, ◌++◌, str_eq,
  leb, is_some, Result, ok, err, ◌>>=◌, ◌>>◌, require, if◌then◌else◌, Date,
}
use skillplane.Common.Text.{trim, js_length}
use skillplane.Common.Errors.{DomainError, domain_error, validation_failed, not_found}
use skillplane.Access.{Principal, user, service}
use skillplane.Access.Authorization.{authorize, skills_publish}
use skillplane.Idempotency.{
  Records, IdempotencyIdentity, Claimed, claimed, replay, claim, complete, release,
}

-- `options.state`; the test that it is one of the two is left to the type.
pub data LifecycleState : Type 0 where
  deprecated revoked : LifecycleState

-- A row of `skill_version_lifecycle`, and of `public_skill_version_lifecycle`.
pub record LifecycleRow : Type 0 where
  pub workspace_id : String
  pub deprecated_at : Option Date
  pub revoked_at : Option Date
  pub reason : String

-- By the version, which is the primary key.
abbrev pub LifecycleTable : Type 0
LifecycleTable = String → Option LifecycleRow

pub record Region : Type 0 where
  pub records : Records
  pub public : LifecycleTable
  pub regional : LifecycleTable
  pub audit : List (String × LifecycleState)

-- A call of `set`, with its clock and with what fails. A statement that fails may have been applied,
-- where only its answer was lost. `request_hash` is the hash of the payload.
pub record Change : Type 0 where
  pub principal : Principal
  pub skill_id : String
  pub version_id : String
  pub state : LifecycleState
  pub reason : String
  pub key : String
  pub request_hash : String
  pub response_body : String
  pub now : Date
  pub control_fails : Bool
  pub control_applied : Bool
  pub commit_fails : Bool
  pub commit_applied : Bool
  pub release_fails : Bool

-- What is thrown, and what is answered: the payload, or the body of a request that was completed.
pub data Failure : Type 0 where
  domain : DomainError → Failure
  database : Failure

pub data Answer : Type 0 where
  changed : Answer
  replayed : String → Answer

-- `principal.workspaceId`
abbrev pub workspace_of : Principal → String
workspace_of (user u) = u.workspace_id
workspace_of (service s) = s.workspace_id

abbrev pub in_domain : {A : Type 0} → Result DomainError A → Result Failure A
in_domain (ok a) = ok a
in_domain (err e) = err (domain e)

-- `CASE WHEN $3='deprecated' THEN now() END`, and the same for 'revoked'.
abbrev pub deprecation : LifecycleState → Date → Option Date
deprecation deprecated now = some now
deprecation revoked now = none

abbrev pub revocation : LifecycleState → Date → Option Date
revocation deprecated now = none
revocation revoked now = some now

-- `COALESCE(old, EXCLUDED.new)`
abbrev pub coalesce : Option Date → Option Date → Option Date
coalesce none new = new
coalesce (some old) new = some old

abbrev pub merged_row : String → LifecycleState → String → Date → Option LifecycleRow → LifecycleRow
merged_row ws state reason now none = record {
  workspace_id = ws;
  deprecated_at = deprecation state now;
  revoked_at = revocation state now;
  reason = reason;
}
merged_row ws state reason now (some row) = record row {
  deprecated_at = coalesce row.deprecated_at (deprecation state now);
  revoked_at = coalesce row.revoked_at (revocation state now);
  reason = reason;
}

-- INSERT ... ON CONFLICT (version_id) DO UPDATE
unfoldable pub upsert :
    String → String → LifecycleState → String → Date → LifecycleTable → LifecycleTable
upsert version ws state reason now t v =
    if str_eq version v then some (merged_row ws state reason now (t version)) else t v

-- The handler of `catch`: the claim is released, unless that fails too.
unfoldable pub give_up : Change → IdempotencyIdentity → Region → Region
give_up x identity s =
    if x.release_fails then s else record s { records = release identity s.records }

-- The statements of the transaction in the region.
unfoldable pub commit_change :
    Change → String → IdempotencyIdentity → Region → Result Failure Region
commit_change x reason identity s = do
  records ← in_domain (complete identity 200 x.response_body x.now s.records)
  ok (record s {
    records = records;
    regional = upsert x.version_id (workspace_of x.principal) x.state reason x.now s.regional;
    audit = s.audit ++ ((x.version_id, x.state) ∷ []);
  })

-- COMMIT, which may fail, or ROLLBACK.
unfoldable pub settle :
    Change → IdempotencyIdentity → Region → Result Failure Region → Region × Result Failure Answer
settle x identity s (ok s') =
    if x.commit_fails
    then (give_up x identity (if x.commit_applied then s' else s), err database)
    else (s', ok changed)
settle x identity s (err e) = (give_up x identity s, err e)

-- The body of `try`, after a claim that was granted. `is_published` is what `skill_versions` holds:
-- the version, its skill and its workspace.
unfoldable pub change :
    (String → String → String → Bool)
    → Change
    → String
    → IdempotencyIdentity
    → Region
    → Region × Result Failure Answer
change is_published x reason identity s =
    let ws = workspace_of x.principal in
    let marked = record s { public = upsert x.version_id ws x.state reason x.now s.public } in
    if not (is_published x.version_id x.skill_id ws)
    then (give_up x identity s, err (domain (domain_error not_found 404)))
    else if x.control_fails
    then (give_up x identity (if x.control_applied then marked else s), err database)
    else settle x identity marked (commit_change x reason identity marked)

abbrev pub after_claim :
    (String → String → String → Bool)
    → Change
    → String
    → Region
    → Result DomainError (Claimed × Records)
    → Region × Result Failure Answer
after_claim is_published x reason s (err e) = (s, err (domain e))
after_claim is_published x reason s (ok (replay status body, records)) =
    (record s { records = records }, ok (replayed body))
after_claim is_published x reason s (ok (claimed identity, records)) =
    change is_published x reason identity (record s { records = records })

-- The tests before the claim; the reason without the white space round it.
unfoldable pub checked_reason : Change → Result DomainError String
checked_reason x = do
  authorize x.principal skills_publish
  require (not (leb (js_length (trim x.reason)) 0) && leb (js_length (trim x.reason)) 2000)
      (domain_error validation_failed 400)
  ok (trim x.reason)

abbrev pub after_checks :
    ℕ
    → ℕ
    → (String → String → String → Bool)
    → Change
    → Region
    → Result DomainError String
    → Region × Result Failure Answer
after_checks lock_ms retention_ms is_published x s (err e) = (s, err (domain e))
after_checks lock_ms retention_ms is_published x s (ok reason) =
    after_claim is_published x reason s (
      claim lock_ms retention_ms
        (record {
          workspace_id = workspace_of x.principal;
          principal = x.principal;
          operation = "skill.version.lifecycle";
          key = x.key;
          request_hash = x.request_hash;
          now = x.now;
        })
        s.records)

-- `set(options)`; the durations are those of the idempotency store.
unfoldable pub set_lifecycle :
    ℕ → ℕ → (String → String → String → Bool) → Change → Region → Region × Result Failure Answer
set_lifecycle lock_ms retention_ms is_published x s =
    after_checks lock_ms retention_ms is_published x s (checked_reason x)
