-- ===== src/Access/Invitations.antt =====
-- packages/domain/src/invitations.ts, and the handlers of packages/api/src/routes/invitations.ts that
-- change invitations: create, revoke and accept. The listing and the preview only read.
pub mod Creations
pub mod Answers
pub mod Outcomes
pub mod Acceptance
pub mod Steps
pub mod Owners
pub mod Workspaces
mod Tests
use skillplane.Common.{
  ℕ, ◌+◌, ◌*◌, String, Option, none, some, Bool, true, false, not, ◌&&◌, ◌||◌, List, [], ◌∷◌, ◌++◌,
  map, filter, find, any, all, str_eq, leb, ltb, ◌==◌, is_some, Result, ok, err, ◌>>=◌, ◌>>◌,
  require, if◌then◌else◌, Date,
}
use skillplane.Common.Text.{codes, js_length, trim, is_space}
use skillplane.Common.Json.{Json, undefined, null, str}
use skillplane.Common.Errors.{
  DomainError, domain_error, field_error, validation_failed, workspace_forbidden, not_found,
  conflict, authentication_required, invitation_invalid, invitation_used, invitation_revoked,
  invitation_expired, invitation_email_mismatch,
}
use skillplane.Access.{WorkspaceRole, UserPrincipal, user}
use skillplane.Access.Authorization.{authorize, members_write}
use skillplane.Access.Membership.{Membership, names, parse_workspace_role}

-- What the handlers use of the services and of other tables. `hash_email` holds the tenancy secret.
pub record Services : Type 0 where
  pub to_lower_case : String → String
  pub hash_email : String → String
  pub hash_token : String → String
  pub primary_email : String → Option String
  pub display_name : String → Option String
  -- `SELECT kind FROM workspaces`
  pub workspace_kind : String → Option String

-- What a handler throws: an error of the domain, a violation of a unique index that it does not
-- catch, or the error of the delivery of an e-mail.
pub data RouteError : Type 0 where
  domain : DomainError → RouteError
  unique_violation delivery_failed : RouteError

abbrev pub lift : {A : Type 0} → Result DomainError A → Result RouteError A
lift (ok a) = ok a
lift (err e) = err (domain e)

-- `/[\r\n<>]/`
abbrev pub is_header_unit : ℕ → Bool
is_header_unit c = c == 13 || c == 10 || c == b'<' || c == b'>'

-- `[^\s@]`
abbrev pub is_address_unit : ℕ → Bool
is_address_unit c = not (is_space c) && not (c == b'@')

-- What stands behind the first `@`.
abbrev pub after_at : List ℕ → Option (List ℕ)
after_at [] = none
after_at (c ∷ cs) = if c == b'@' then some cs else after_at cs

abbrev pub before_at : List ℕ → List ℕ
before_at [] = []
before_at (c ∷ cs) = if c == b'@' then [] else c ∷ before_at cs

-- A dot with a unit behind it.
abbrev pub has_dot : List ℕ → Bool
has_dot [] = false
has_dot (c ∷ []) = false
has_dot (c ∷ d ∷ cs) = c == b'.' || has_dot (d ∷ cs)

-- A dot with units before and behind it.
abbrev pub has_inner_dot : List ℕ → Bool
has_inner_dot [] = false
has_inner_dot (c ∷ cs) = has_dot cs

abbrev pub is_domain : Option (List ℕ) → Bool
is_domain none = false
is_domain (some units) = all is_address_unit units && has_inner_dot units

abbrev pub is_local_part : List ℕ → Bool
is_local_part [] = false
is_local_part (c ∷ cs) = all is_address_unit (c ∷ cs)

-- `/^[^\s@]+@[^\s@]+\.[^\s@]+$/`: the `@` is the first and only one.
unfoldable pub matches_address : List ℕ → Bool
matches_address units = is_local_part (before_at units) && is_domain (after_at units)

abbrev pub checked_email : String → Result DomainError String
checked_email email =
    if leb 255 (js_length email)
      || any is_header_unit (codes email)
      || not (matches_address (codes email))
    then err (field_error validation_failed 400 "email")
    else ok email

unfoldable pub normalize_invitation_email : Services → Json → Result DomainError String
normalize_invitation_email services (str value) =
    checked_email (services.to_lower_case (trim value))
normalize_invitation_email services _ = err (domain_error validation_failed 400)

-- `parseInvitationRole`: no owner is invited.
abbrev pub parse_invitation_role : Json → Result DomainError WorkspaceRole
parse_invitation_role = parse_workspace_role false

abbrev pub invitation_ttl_seconds : ℕ
invitation_ttl_seconds = 7 * 24 * 60 * 60

abbrev pub invitation_expiry : Date → Date
invitation_expiry now = now + invitation_ttl_seconds * 1000

-- A row of `workspace_invitations`, without the encrypted e-mail.
pub record Invitation : Type 0 where
  pub id : String
  pub workspace_id : String
  pub email_hash : String
  pub role : WorkspaceRole
  pub token_hash : String
  pub invited_by : String
  pub expires_at : Date
  pub accepted_at : Option Date
  pub accepted_by : Option String
  pub revoked_at : Option Date

unfoldable pub assert_invitation_acceptable :
    Option Date → Date → Option Date → Bool → Date → Result DomainError (Unit {0})
assert_invitation_acceptable accepted_at expires_at revoked_at email_matches now = do
  require (not (is_some accepted_at)) (domain_error invitation_used 409)
  require (not (is_some revoked_at)) (domain_error invitation_revoked 409)
  require (not (leb expires_at now)) (domain_error invitation_expired 409)
  require email_matches (domain_error invitation_email_mismatch 403)

pub data InvitationEvent : Type 0 where
  invitation_created invitation_was_revoked : String → String → String → InvitationEvent
  invitation_accepted : String → String → String → WorkspaceRole → InvitationEvent

pub record Tenancy : Type 0 where
  pub members : List Membership
  pub invitations : List Invitation
  pub events : List InvitationEvent

-- `session.subject.email` is a value of any type.
pub record Session : Type 0 where
  pub actor_id : String
  pub session_id : String
  pub email : Json

abbrev pub signed_in : Option Session → Result DomainError Session
signed_in none = err (domain_error authentication_required 401)
signed_in (some session) = ok session

-- `requireUserPrincipal`
unfoldable pub user_principal :
    Services → List Membership → String → Session → Result DomainError UserPrincipal
user_principal services members ws session = elim (find (names ws session.actor_id) members) [
  | none ↦ err (domain_error not_found 404)
  | some m ↦ ok (record {
    actor_id = m.user_id;
    workspace_id = m.workspace_id;
    display_name = services.display_name m.user_id;
    user_id = m.user_id;
    session_id = session.session_id;
    role = m.role;
    email = services.primary_email m.user_id;
  })
]

-- The guard of the handlers for a workspace.
unfoldable pub manager :
    Services → List Membership → String → Option Session → Result DomainError UserPrincipal
manager services members ws session = do
  s ← signed_in session
  principal ← user_principal services members ws s
  authorize (user principal) members_write
  ok principal

-- `accepted_at IS NULL AND revoked_at IS NULL`
abbrev pub is_open : Invitation → Bool
is_open r = not (is_some r.accepted_at) && not (is_some r.revoked_at)

-- `workspace_id = $1 AND email_hash = $2`
abbrev pub is_for : String → String → Invitation → Bool
is_for ws hash r = str_eq r.workspace_id ws && str_eq r.email_hash hash
