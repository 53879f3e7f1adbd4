-- ===== src/Common/Errors.antt =====
-- packages/domain/src/errors.ts: the errors that the domain services throw. The prose of a message
-- is not modelled; the code, the HTTP status and the field that `details` names are.
use Prim.Native.Nat.{ℕ}
use Prim.Native.String.{String}
use mathlib.Core.Option.{Option, none, some}

pub data DomainErrorCode : Type 0 where
  authentication_required auth_csrf_invalid auth_invalid forbidden not_found validation_failed
        conflict git_source_lease_lost skill_dependency_conflict skill_kind_unsupported
        skill_version_revoked verification_invalid rate_limited service_unavailable
        workspace_forbidden workspace_region_unavailable workspace_slug_conflict
        workspace_final_owner invitation_invalid invitation_expired invitation_revoked
        invitation_used invitation_email_mismatch service_principal_invalid auth_scope_required
        skill_slug_conflict skill_not_found skill_version_not_found skill_version_conflict
        skill_metadata_conflict skill_publish_conflict learning_metadata_invalid
        amendment_policy_invalid amendment_not_found review_not_found skill_archived
        skill_visibility_invalid skill_bundle_invalid skill_bundle_too_large skill_path_invalid
        skill_path_duplicate skill_link_invalid skill_file_not_found context_not_found
        context_archived context_slug_conflict context_limit_reached context_revision_conflict
        context_metadata_conflict note_not_found note_archived note_limit_reached
        note_revision_conflict r2_write_failed r2_read_failed r2_object_mismatch r2_cleanup_failed
        cursor_invalid cursor_filter_mismatch idempotency_key_required idempotency_key_reused
        idempotency_in_progress audit_write_failed :
      DomainErrorCode

pub record DomainError : Type 0 where
  pub code : DomainErrorCode
  pub status : ℕ
  pub field : Option String

-- `new DomainError(code, message, status)`
abbrev pub domain_error : DomainErrorCode → ℕ → DomainError
domain_error c status = record { code = c; status = status; field = none }

-- `new DomainError(code, message, status, { field })`
abbrev pub field_error : DomainErrorCode → ℕ → String → DomainError
field_error c status f = record { code = c; status = status; field = some f }

-- `new AuthorizationError()`
abbrev pub authorization_error : DomainError
authorization_error = domain_error workspace_forbidden 403
