-- ===== src/Access/Authorization.antt =====
-- packages/domain/src/authorization.ts: what each role and scope may do.
pub mod Laws
use skillplane.Common.{
  String, Option, none, some, Bool, true, false, not, ◌&&◌, List, [], ◌∷◌, any, str_eq, Result, ok,
  err, if◌then◌else◌,
}
use skillplane.Common.Errors.{DomainError, auth_scope_required, domain_error, authorization_error}
use skillplane.Access.{
  WorkspaceRole, ServicePrincipalScope, UserPrincipal, ServicePrincipal, Principal, user, service,
  as_role, includes_scope,
}

pub data WorkspaceAction : Type 0 where
  workspace_read workspace_update members_read members_write skills_read skills_write skills_amend
        skills_publish contexts_read contexts_write analytics_read audit_read workspace_delete :
      WorkspaceAction

abbrev pub action_name : WorkspaceAction → String
action_name workspace_read = "workspace:read"
action_name workspace_update = "workspace:update"
action_name members_read = "members:read"
action_name members_write = "members:write"
action_name skills_read = "skills:read"
action_name skills_write = "skills:write"
action_name skills_amend = "skills:amend"
action_name skills_publish = "skills:publish"
action_name contexts_read = "contexts:read"
action_name contexts_write = "contexts:write"
action_name analytics_read = "analytics:read"
action_name audit_read = "audit:read"
action_name workspace_delete = "workspace:delete"

abbrev pub workspace_actions : List WorkspaceAction
workspace_actions =
    workspace_read ∷ workspace_update ∷ members_read ∷ members_write ∷ skills_read ∷ skills_write
    ∷ skills_amend ∷ skills_publish ∷ contexts_read ∷ contexts_write ∷ analytics_read ∷ audit_read
    ∷ workspace_delete ∷ []

unfoldable pub role_actions : WorkspaceRole → List WorkspaceAction
role_actions WorkspaceRole.viewer =
    workspace_read ∷ members_read ∷ skills_read ∷ contexts_read ∷ analytics_read ∷ []
role_actions WorkspaceRole.editor =
    workspace_read ∷ members_read ∷ skills_read ∷ skills_write ∷ skills_amend ∷ contexts_read
    ∷ contexts_write ∷ analytics_read ∷ []
role_actions WorkspaceRole.admin =
    workspace_read ∷ workspace_update ∷ members_read ∷ members_write ∷ skills_read ∷ skills_write
    ∷ skills_amend ∷ skills_publish ∷ contexts_read ∷ contexts_write ∷ analytics_read ∷ audit_read
    ∷ []
role_actions WorkspaceRole.owner = workspace_actions

-- `roleActions[role].has(action)`
unfoldable pub role_has : WorkspaceRole → WorkspaceAction → Bool
unfolding role_actions
role_has role action = any (λ a. str_eq (action_name a) (action_name action)) (role_actions role)

unfoldable pub action_scope : WorkspaceAction → Option ServicePrincipalScope
action_scope workspace_read = some ServicePrincipalScope.skills_read
action_scope members_read = some ServicePrincipalScope.members_read
action_scope members_write = some ServicePrincipalScope.members_write
action_scope skills_read = some ServicePrincipalScope.skills_read
action_scope skills_write = some ServicePrincipalScope.skills_write
action_scope skills_amend = some ServicePrincipalScope.skills_amend
action_scope contexts_read = some ServicePrincipalScope.contexts_read
action_scope contexts_write = some ServicePrincipalScope.contexts_write
action_scope analytics_read = some ServicePrincipalScope.analytics_read
action_scope audit_read = some ServicePrincipalScope.audit_read
action_scope workspace_update = none
action_scope skills_publish = none
action_scope workspace_delete = none

-- `scope !== undefined && scopes.includes(scope)`
unfoldable pub has_scope : Option ServicePrincipalScope → List ServicePrincipalScope → Bool
has_scope none scopes = false
has_scope (some scope) scopes = includes_scope scope scopes

unfoldable pub can_perform : Principal → WorkspaceAction → Bool
can_perform (user u) action = role_has u.role action
can_perform (service s) action =
    role_has (as_role s.role) action && has_scope (action_scope action) s.scopes

-- `scope && !scopes.includes(scope)`
unfoldable pub misses_scope : Option ServicePrincipalScope → List ServicePrincipalScope → Bool
misses_scope none scopes = false
misses_scope (some scope) scopes = not (includes_scope scope scopes)

-- The first test of `authorize`: a service whose role allows the action, and whose scopes do not.
unfoldable pub lacks_scope : Principal → WorkspaceAction → Bool
lacks_scope (user u) action = false
lacks_scope (service s) action =
    role_has (as_role s.role) action && misses_scope (action_scope action) s.scopes

unfoldable pub authorize : Principal → WorkspaceAction → Result DomainError (Unit {0})
unfolding lacks_scope
authorize principal action =
    if lacks_scope principal action
    then err (domain_error auth_scope_required 403)
    else if not (can_perform principal action)
    then err authorization_error
    else ok tt
