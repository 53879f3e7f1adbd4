-- ===== src/Access/Invitations/Answers.antt =====
-- The handlers of packages/api/src/routes/invitations.ts that revoke and accept an invitation.
use skillplane.Access.Invitations.{
  Services, Session, Invitation, Tenancy, invitation_was_revoked, invitation_accepted, is_open,
  manager, signed_in, normalize_invitation_email, assert_invitation_acceptable,
}
use skillplane.Common.{
  String, Option, none, some, Bool, ◌&&◌, List, [], ◌∷◌, ◌++◌, map, find, any, str_eq, Result, ok,
  err, ◌>>=◌, ◌>>◌, require, if◌then◌else◌, Date,
}
use skillplane.Common.Json.{Json, undefined, null, str}
use skillplane.Common.Errors.{DomainError, domain_error, invitation_invalid}
use skillplane.Access.Membership.{Membership, names}

-- `id = $1 AND workspace_id = $2 AND accepted_at IS NULL AND revoked_at IS NULL`
abbrev pub is_revocable : String → String → Invitation → Bool
is_revocable id ws r = str_eq r.id id && str_eq r.workspace_id ws && is_open r

unfoldable pub revoke_row : String → String → Date → List Invitation → List Invitation
revoke_row id ws now =
    map (λ r. if is_revocable id ws r then record r { revoked_at = some now } else r)

-- DELETE /api/v1/workspaces/:workspaceId/invitations/:invitationId
unfoldable pub revoke :
    Services → Option Session → String → String → Date → Tenancy → Result DomainError Tenancy
revoke services session ws id db_now s = do
  principal ← manager services s.members ws session
  require (any (is_revocable id principal.workspace_id) s.invitations)
      (domain_error invitation_invalid 404)
  ok (record {
    members = s.members;
    invitations = revoke_row id principal.workspace_id db_now s.invitations;
    events = s.events ++ (invitation_was_revoked principal.workspace_id principal.user_id id ∷ []);
  })

abbrev stored : Option String → Json
stored none = null
stored (some email) = str email

-- `session.subject.email ?? primary_email`
abbrev pub session_email : Services → Session → Json
session_email services session = elim session.email [
  | undefined ↦ stored (services.primary_email session.actor_id)
  | null ↦ stored (services.primary_email session.actor_id)
  | other ↦ other
]

-- `WHERE i.token_hash = $1`
unfoldable pub find_token : String → List Invitation → Option Invitation
find_token hash = find (λ r. str_eq r.token_hash hash)

abbrev pub found : Option Invitation → Result DomainError Invitation
found none = err (domain_error invitation_invalid 404)
found (some r) = ok r

-- `ON CONFLICT (workspace_id, user_id) DO NOTHING`
unfoldable pub add_member : Membership → List Membership → List Membership
add_member m members =
    if any (names m.workspace_id m.user_id) members then members else members ++ (m ∷ [])

unfoldable pub accept_row : String → String → Date → List Invitation → List Invitation
accept_row id actor now = map (λ r.
    if str_eq r.id id then record r { accepted_at = some now; accepted_by = some actor } else r)

-- POST /api/v1/invitations/:token/accept
unfoldable pub accept :
    Services → Option Session → String → Date → Date → Tenancy → Result DomainError Tenancy
accept services session token now db_now s = do
  current ← signed_in session
  row ← found (find_token (services.hash_token token) s.invitations)
  email ← normalize_invitation_email services (session_email services current)
  assert_invitation_acceptable row.accepted_at row.expires_at row.revoked_at
      (str_eq (services.hash_email email) row.email_hash) now
  ok (record {
    members =
        add_member
          (record { workspace_id = row.workspace_id; user_id = current.actor_id; role = row.role })
          s.members;
    invitations = accept_row row.id current.actor_id db_now s.invitations;
    events =
        s.events ++ (invitation_accepted row.workspace_id current.actor_id row.id row.role ∷ []);
  })
