-- ===== src/Access/Membership.antt =====
-- packages/domain/src/memberships.ts, `membershipRole` and `lockWorkspaceMemberships` of
-- packages/api/src/tenancy.ts, and the three handlers of packages/api/src/routes/workspaces.ts
-- that change memberships. A handler is a transaction: what it throws rolls its writes back.
pub mod Owners
pub mod Lookup
pub mod Laws
pub mod Actors
use skillplane.Common.{
  ℕ, String, Option, none, some, Bool, true, false, not, ◌&&◌, ◌||◌, List, [], ◌∷◌, ◌++◌, map,
  length, filter, str_eq, leb, Result, ok, err, ◌>>=◌, ◌>>◌, require, if◌then◌else◌,
}
use skillplane.Common.Json.{Json, str}
use skillplane.Common.Errors.{
  DomainError, domain_error, field_error, validation_failed, workspace_forbidden,
  authentication_required, not_found,
}
use skillplane.Access.{WorkspaceRole}

abbrev pub role_name : WorkspaceRole → String
role_name WorkspaceRole.viewer = "viewer"
role_name WorkspaceRole.editor = "editor"
role_name WorkspaceRole.admin = "admin"
role_name WorkspaceRole.owner = "owner"

abbrev pub is_owner : WorkspaceRole → Bool
is_owner WorkspaceRole.owner = true
is_owner _ = false

abbrev pub is_admin : WorkspaceRole → Bool
is_admin WorkspaceRole.admin = true
is_admin _ = false

-- `isWorkspaceRole(value)`, with the role that it narrows to
role_of_name : String → Option WorkspaceRole
role_of_name s =
    if str_eq s "viewer"
    then some WorkspaceRole.viewer
    else if str_eq s "editor"
    then some WorkspaceRole.editor
    else if str_eq s "admin"
    then some WorkspaceRole.admin
    else if str_eq s "owner"
    then some WorkspaceRole.owner
    else none

abbrev invalid_role : DomainError
invalid_role = field_error validation_failed 400 "role"

accept_role : Bool → Option WorkspaceRole → Result DomainError WorkspaceRole
accept_role allow_owner none = err invalid_role
accept_role allow_owner (some r) = if is_owner r && not allow_owner then err invalid_role else ok r

unfoldable pub parse_workspace_role : Bool → Json → Result DomainError WorkspaceRole
unfolding role_of_name accept_role
parse_workspace_role allow_owner (str s) = accept_role allow_owner (role_of_name s)
parse_workspace_role allow_owner _ = err invalid_role

-- `nextRole` may be left out.
next_is_owner : Option WorkspaceRole → Bool
next_is_owner none = false
next_is_owner (some r) = is_owner r

unfoldable pub can_manage_membership : WorkspaceRole → WorkspaceRole → Option WorkspaceRole → Bool
unfolding next_is_owner
can_manage_membership actor target next =
    if is_owner actor
    then true
    else if not (is_admin actor)
    then false
    else not (is_owner target) && not (next_is_owner next)

unfoldable pub assert_membership_change :
    WorkspaceRole → WorkspaceRole → Option WorkspaceRole → Result DomainError (Unit {0})
unfolding can_manage_membership
assert_membership_change actor target next =
    require (can_manage_membership actor target next) (domain_error workspace_forbidden 403)

unfoldable pub assert_owner_remains : ℕ → Bool → Result DomainError (Unit {0})
assert_owner_remains owner_count removing_owner =
    require (not (removing_owner && leb owner_count 1)) (domain_error workspace_forbidden 403)

-- A row of `workspace_memberships`.
pub record Membership : Type 0 where
  pub workspace_id : String
  pub user_id : String
  pub role : WorkspaceRole

-- What a committed handler writes beside the memberships.
pub data AuditEvent : Type 0 where
  role_changed : String → String → String → WorkspaceRole → WorkspaceRole → AuditEvent
  removed : String → String → String → WorkspaceRole → AuditEvent
  left : String → String → WorkspaceRole → AuditEvent

pub record State : Type 0 where
  pub members : List Membership
  pub audit : List AuditEvent

-- The rows that `lockWorkspaceMemberships` returns; the order does not matter to its callers.
unfoldable pub rows_of : String → List Membership → List Membership
rows_of ws = filter (λ m. str_eq m.workspace_id ws)

unfoldable pub owner_count : List Membership → ℕ
owner_count rows = length (filter (λ m. is_owner m.role) rows)

unfoldable pub membership_role : List Membership → String → Result DomainError WorkspaceRole
membership_role [] u = err (domain_error not_found 404)
membership_role (m ∷ rows) u = if str_eq m.user_id u then ok m.role else membership_role rows u

-- `WHERE workspace_id = $2 AND user_id = $3`
abbrev pub names : String → String → Membership → Bool
names ws u m = str_eq m.workspace_id ws && str_eq m.user_id u

unfoldable pub set_role : String → String → WorkspaceRole → List Membership → List Membership
set_role ws u r = map (λ m. if names ws u m then record m { role = r } else m)

unfoldable pub delete_member : String → String → List Membership → List Membership
delete_member ws u = filter (λ m. not (names ws u m))

-- The actor of the session, if there is one.
unfoldable pub session_actor : Option String → Result DomainError String
session_actor none = err (domain_error authentication_required 401)
session_actor (some actor) = ok actor

-- PATCH /api/v1/workspaces/:workspaceId/members/:userId
unfoldable pub change_role :
    Option String → String → String → Json → State → Result DomainError State
change_role session ws u body s = do
  actor ← session_actor session
  next ← parse_workspace_role true body
  let rows = rows_of ws s.members
  actor_role ← membership_role rows actor
  target_role ← membership_role rows u
  assert_membership_change actor_role target_role (some next)
  assert_owner_remains (owner_count rows) (is_owner target_role && not (is_owner next))
  ok (record {
    members = set_role ws u next s.members;
    audit = s.audit ++ role_changed ws actor u target_role next ∷ [];
  })

-- DELETE /api/v1/workspaces/:workspaceId/members/:userId
unfoldable pub remove_member : Option String → String → String → State → Result DomainError State
remove_member session ws u s = do
  actor ← session_actor session
  let rows = rows_of ws s.members
  actor_role ← membership_role rows actor
  target_role ← membership_role rows u
  assert_membership_change actor_role target_role none
  assert_owner_remains (owner_count rows) (is_owner target_role)
  ok (record {
    members = delete_member ws u s.members;
    audit = s.audit ++ removed ws actor u target_role ∷ [];
  })

-- POST /api/v1/workspaces/:workspaceId/leave
unfoldable pub leave : Option String → String → State → Result DomainError State
leave session ws s = do
  actor ← session_actor session
  let rows = rows_of ws s.members
  target_role ← membership_role rows actor
  assert_owner_remains (owner_count rows) (is_owner target_role)
  ok (record {
    members = delete_member ws actor s.members;
    audit = s.audit ++ left ws actor target_role ∷ [];
  })

pub data Request : Type 0 where
  patch : Option String → String → String → Json → Request
  delete : Option String → String → String → Request
  leave_request : Option String → String → Request

unfoldable pub handle : Request → State → Result DomainError State
handle (patch session ws u body) = change_role session ws u body
handle (delete session ws u) = remove_member session ws u
handle (leave_request session ws) = leave session ws

-- COMMIT keeps the new state; ROLLBACK keeps the old one.
unfoldable pub commit_or_rollback : State → Result DomainError State → State
commit_or_rollback s (ok s') = s'
commit_or_rollback s (err e) = s

unfoldable pub serve : State → List Request → State
serve s [] = s
serve s (r ∷ rs) = serve (commit_or_rollback s (handle r s)) rs
