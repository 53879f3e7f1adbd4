-- ===== src/Access/Invitations/Creations.antt =====
-- The handler of packages/api/src/routes/invitations.ts that creates an invitation and sends it.
use skillplane.Access.Invitations.{
  Services, Session, Invitation, Tenancy, RouteError, domain, unique_violation, delivery_failed,
  invitation_created, is_open, is_for, manager, normalize_invitation_email, parse_invitation_role,
  invitation_expiry,
}
use skillplane.Common.{
  String, Option, none, some, Bool, false, not, ◌&&◌, ◌||◌, List, [], ◌∷◌, ◌++◌, map, filter, any,
  str_eq, leb, ltb, is_some, Result, ok, err, ◌>>=◌, ◌>>◌, require, if◌then◌else◌, Date,
}
use skillplane.Common.Json.{Json}
use skillplane.Common.Errors.{
  DomainError, domain_error, field_error, workspace_forbidden, not_found, conflict,
}
use skillplane.Access.{WorkspaceRole, UserPrincipal}
use skillplane.Access.Membership.{Membership}

-- A request to create, with what the handler draws and reads while it runs: `now` is the clock of the
-- server, `db_now` that of the database.
pub record Creation : Type 0 where
  pub session : Option Session
  pub workspace_id : String
  pub email : Json
  pub role : Json
  pub has_email_service : Bool
  pub id : String
  pub token : String
  pub now : Date
  pub db_now : Date
  pub is_delivered : Bool

pub record Draft : Type 0 where
  pub principal : UserPrincipal
  pub email_hash : String
  pub role : WorkspaceRole

abbrev pub organization : Option String → Result DomainError (Unit {0})
organization none = err (domain_error not_found 404)
organization (some kind) =
    require (str_eq kind "organization") (domain_error workspace_forbidden 403)

-- `m.workspace_id = $1 AND u.primary_email = $2`
abbrev pub has_email : Services → String → String → Membership → Bool
has_email services ws email m =
    str_eq m.workspace_id ws
    && elim (services.primary_email m.user_id) [ none ↦ false | some e ↦ str_eq e email ]

-- The tests of the handler up to its first write.
unfoldable pub draft : Services → Creation → Tenancy → Result DomainError Draft
draft services x s = do
  require x.has_email_service (domain_error conflict 409)
  principal ← manager services s.members x.workspace_id x.session
  email ← normalize_invitation_email services x.email
  role ← parse_invitation_role x.role
  organization (services.workspace_kind principal.workspace_id)
  require (not (any (has_email services principal.workspace_id email) s.members))
      (field_error conflict 409 "email")
  ok (record { principal = principal; email_hash = services.hash_email email; role = role })

-- The invitations of a recipient that have expired are revoked.
unfoldable pub revoke_expired : String → String → Date → List Invitation → List Invitation
revoke_expired ws hash now = map (λ r.
    if is_for ws hash r && is_open r && leb r.expires_at now
    then record r { revoked_at = some now }
    else r)

unfoldable pub is_duplicate : String → String → Date → List Invitation → Bool
is_duplicate ws hash now = any (λ r. is_for ws hash r && is_open r && ltb now r.expires_at)

unfoldable pub new_row : Services → Creation → Draft → Invitation
new_row services x d = record {
  id = x.id;
  workspace_id = d.principal.workspace_id;
  email_hash = d.email_hash;
  role = d.role;
  token_hash = services.hash_token x.token;
  invited_by = d.principal.user_id;
  expires_at = invitation_expiry x.now;
  accepted_at = none;
  accepted_by = none;
  revoked_at = none;
}

-- INSERT, with the unique indexes: an open invitation of the recipient, the primary key, the token.
unfoldable pub insert_row : Invitation → List Invitation → Result RouteError (List Invitation)
insert_row row rows =
    if any (λ r. is_for row.workspace_id row.email_hash r && is_open r) rows
    then err (domain (domain_error conflict 409))
    else if any (λ r. str_eq r.id row.id || str_eq r.token_hash row.token_hash) rows
    then err unique_violation
    else ok (rows ++ (row ∷ []))

-- `DELETE ... WHERE id = $1 AND accepted_at IS NULL`
unfoldable pub withdraw_row : String → List Invitation → List Invitation
withdraw_row id = filter (λ r. not (str_eq r.id id && not (is_some r.accepted_at)))

-- The row is in, and the e-mail is sent or not.
unfoldable pub deliver :
    Creation
    → Draft
    → Tenancy
    → Result RouteError (List Invitation)
    → Tenancy × Result RouteError (Unit {0})
deliver x d s (err e) = (s, err e)
deliver x d s (ok rows) =
    let events =
      s.events ++ (invitation_created d.principal.workspace_id d.principal.user_id x.id ∷ []) in
    if x.is_delivered
    then (record s { invitations = rows; events = events }, ok tt)
    else (record s { invitations = withdraw_row x.id rows; events = events }, err delivery_failed)

-- The writes of the handler; only the INSERT with its event is a transaction.
unfoldable pub send : Services → Creation → Draft → Tenancy → Tenancy × Result RouteError (Unit {0})
send services x d s =
    let rows = revoke_expired d.principal.workspace_id d.email_hash x.db_now s.invitations in
    let swept = record s { invitations = rows } in
    if is_duplicate d.principal.workspace_id d.email_hash x.db_now rows
    then (swept, err (domain (domain_error conflict 409)))
    else deliver x d swept (insert_row (new_row services x d) rows)

unfoldable pub send_draft :
    Services
    → Creation
    → Tenancy
    → Result DomainError Draft
    → Tenancy × Result RouteError (Unit {0})
send_draft services x s (err e) = (s, err (domain e))
send_draft services x s (ok d) = send services x d s

-- POST /api/v1/workspaces/:workspaceId/invitations
unfoldable pub create : Services → Creation → Tenancy → Tenancy × Result RouteError (Unit {0})
create services x s = send_draft services x s (draft services x s)
