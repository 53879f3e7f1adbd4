-- ===== src/Access/Tests.antt =====
-- A workspace with two members, and two principals of it.
use skillplane.Common.{◌≡◌, ◌↔◌, refl, arith, none, some, List, [], ◌∷◌, inl, ok, err}
use skillplane.Common.Json.{str}
use skillplane.Common.Errors.{domain_error, auth_scope_required, authorization_error}
use skillplane.Access.{WorkspaceRole, ServiceRole, ServicePrincipalScope, ServicePrincipal, service}
use skillplane.Access.Authorization.{skills_write, authorize}
use skillplane.Access.Authorization.Laws.{
  IsPermitted, NeedsScope, authorize-IsPermitted_iff, authorize-refusal,
}
use skillplane.Access.Membership.{
  role_changed, removed, left, handle, commit_or_rollback, Membership, State, Request, patch,
  leave_request, serve, change_role, remove_member, leave, parse_workspace_role, membership_role,
  rows_of, owner_count, assert_membership_change, assert_owner_remains, session_actor, set_role,
  delete_member, can_manage_membership,
}
use skillplane.Access.Membership.Actors.{owner_iff_of_not_owner}
use skillplane.Access.Membership.Laws.{IsOwned}

abbrev ann : Membership
ann = record { workspace_id = "w"; user_id = "ann"; role = WorkspaceRole.owner }

abbrev bob : Membership
bob = record { workspace_id = "w"; user_id = "bob"; role = WorkspaceRole.admin }

abbrev eve : WorkspaceRole → Membership
eve role = record { workspace_id = "w"; user_id = "eve"; role = role }

abbrev staffed : State
staffed = record { members = ann ∷ bob ∷ eve WorkspaceRole.viewer ∷ []; audit = [] }

staffed-IsOwned : IsOwned "w" staffed
unfolding rows_of owner_count
staffed-IsOwned = record {
  unique = ((refl, (refl, tt)), ((refl, tt), (tt, tt)));
  owned = omega arith;
}

-- The last owner tries to leave, makes another owner, and leaves.
abbrev requests : List Request
requests =
    leave_request (some "ann") "w"
    ∷ patch (some "ann") "w" "bob" (str "owner")
    ∷ leave_request (some "ann") "w"
    ∷ []

served_test :
    (serve staffed requests).members
    ≡ record { workspace_id = "w"; user_id = "bob"; role = WorkspaceRole.owner }
      ∷ eve WorkspaceRole.viewer
      ∷ []
unfolding serve handle commit_or_rollback change_role leave session_actor parse_workspace_role
    membership_role rows_of owner_count assert_membership_change can_manage_membership
    assert_owner_remains set_role delete_member
served_test = refl

abbrev promoted : State
promoted = record {
  members = ann ∷ bob ∷ eve WorkspaceRole.editor ∷ [];
  audit = role_changed "w" "bob" "eve" WorkspaceRole.viewer WorkspaceRole.editor ∷ [];
}

promoted_test : change_role (some "bob") "w" "eve" (str "editor") staffed ≡ ok promoted
unfolding change_role remove_member leave session_actor parse_workspace_role membership_role rows_of
    owner_count assert_membership_change can_manage_membership assert_owner_remains set_role
    delete_member
promoted_test = refl

owner_iff_of_not_owner_example :
    (membership_role (rows_of "w" promoted.members) "ann" ≡ ok WorkspaceRole.owner)
    ↔ (membership_role (rows_of "w" staffed.members) "ann" ≡ ok WorkspaceRole.owner)
unfolding rows_of membership_role
owner_iff_of_not_owner_example =
    owner_iff_of_not_owner "bob" "w" "eve" "ann" (str "editor") WorkspaceRole.admin staffed promoted
      refl refl (inl promoted_test)

abbrev dismissed : State
dismissed = record {
  members = ann ∷ bob ∷ [];
  audit = removed "w" "bob" "eve" WorkspaceRole.viewer ∷ [];
}

dismissed_test : remove_member (some "bob") "w" "eve" staffed ≡ ok dismissed
unfolding change_role remove_member leave session_actor parse_workspace_role membership_role rows_of
    owner_count assert_membership_change can_manage_membership assert_owner_remains set_role
    delete_member
dismissed_test = refl

abbrev gone : State
gone = record { members = ann ∷ bob ∷ []; audit = left "w" "eve" WorkspaceRole.viewer ∷ [] }

gone_test : leave (some "eve") "w" staffed ≡ ok gone
unfolding change_role remove_member leave session_actor parse_workspace_role membership_role rows_of
    owner_count assert_membership_change can_manage_membership assert_owner_remains set_role
    delete_member
gone_test = refl

-- A credential that may read and amend skills.
abbrev bot : ServicePrincipal
bot = record {
  actor_id = "a";
  workspace_id = "w";
  display_name = none;
  service_principal_id = "p";
  role = ServiceRole.editor;
  scopes = ServicePrincipalScope.skills_read ∷ ServicePrincipalScope.skills_amend ∷ [];
  delegated_user_id = none;
}

authorize-IsPermitted_iff_example :
    (authorize (service bot) skills_write ≡ ok tt) ↔ IsPermitted (service bot) skills_write
authorize-IsPermitted_iff_example = authorize-IsPermitted_iff (service bot) skills_write

authorize-refusal_example :
    ((authorize (service bot) skills_write ≡ err (domain_error auth_scope_required 403))
      ↔ NeedsScope (service bot) skills_write)
    × ((authorize (service bot) skills_write ≡ err authorization_error)
        ↔ (¬ IsPermitted (service bot) skills_write × ¬ NeedsScope (service bot) skills_write))
authorize-refusal_example = authorize-refusal (service bot) skills_write
