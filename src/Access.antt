-- ===== src/Access.antt =====
-- packages/domain/src/principal.ts: roles, scopes and principals.
pub mod Authorization
pub mod Membership
pub mod Invitations
mod Tests
use skillplane.Common.{
  String, ◌≡◌, refl, ap, Option, some, Bool, true, List, [], ◌∷◌, any, find, str_eq, eq_iff,
}

pub data WorkspaceRole : Type 0 where
  viewer editor admin owner : WorkspaceRole

pub data ServicePrincipalScope : Type 0 where
  skills_read skills_write skills_amend contexts_read contexts_write members_read members_write
        analytics_read audit_read :
      ServicePrincipalScope

abbrev pub scope_name : ServicePrincipalScope → String
scope_name skills_read = "skills:read"
scope_name skills_write = "skills:write"
scope_name skills_amend = "skills:amend"
scope_name contexts_read = "contexts:read"
scope_name contexts_write = "contexts:write"
scope_name members_read = "members:read"
scope_name members_write = "members:write"
scope_name analytics_read = "analytics:read"
scope_name audit_read = "audit:read"

-- `Exclude<WorkspaceRole, "owner">`
pub data ServiceRole : Type 0 where
  viewer editor admin : ServiceRole

abbrev pub as_role : ServiceRole → WorkspaceRole
as_role ServiceRole.viewer = WorkspaceRole.viewer
as_role ServiceRole.editor = WorkspaceRole.editor
as_role ServiceRole.admin = WorkspaceRole.admin

pub record UserPrincipal : Type 0 where
  pub actor_id : String
  pub workspace_id : String
  pub display_name : Option String
  pub user_id : String
  pub session_id : String
  pub role : WorkspaceRole
  pub email : Option String

pub record ServicePrincipal : Type 0 where
  pub actor_id : String
  pub workspace_id : String
  pub display_name : Option String
  pub service_principal_id : String
  pub role : ServiceRole
  pub scopes : List ServicePrincipalScope
  pub delegated_user_id : Option String

pub data Principal : Type 0 where
  user : UserPrincipal → Principal
  service : ServicePrincipal → Principal

-- `scopes.includes(scope)`
abbrev pub includes_scope : ServicePrincipalScope → List ServicePrincipalScope → Bool
includes_scope scope = any (λ s. str_eq (scope_name s) (scope_name scope))

-- The scope of a name; `SCOPES.has(name)` where there is one.
unfoldable pub scope_of_name : String → Option ServicePrincipalScope
scope_of_name s =
    find (λ scope. str_eq (scope_name scope) s)
      (skills_read ∷ skills_write ∷ skills_amend ∷ contexts_read ∷ contexts_write ∷ members_read
        ∷ members_write ∷ analytics_read ∷ audit_read ∷ [])

scope_of_name-scope_name : (a : ServicePrincipalScope) → scope_of_name (scope_name a) ≡ some a
unfolding scope_of_name
scope_of_name-scope_name skills_read = refl
scope_of_name-scope_name _ = refl

pub scope_name-injective :
    (a b : ServicePrincipalScope) → str_eq (scope_name a) (scope_name b) ≡ true → a ≡ b
scope_name-injective a b h = cc (
  scope_of_name-scope_name a,
  scope_of_name-scope_name b,
  ap scope_of_name ((eq_iff (scope_name a) (scope_name b)).0 h),
)
