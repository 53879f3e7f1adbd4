-- ===== src/Access/Invitations/Tests.antt =====
-- An invitation of eve into a workspace of ann, and its acceptance.
use skillplane.Common.{
  String, ◌≡◌, ◌≢◌, ◌⊎◌, refl, arith, none, some, true, false, Option, List, [], ◌∷◌, ok, err,
}
use skillplane.Common.Text.{trim, js_length, is_space}
use skillplane.Common.Json.{str}
use skillplane.Common.Errors.{DomainError, domain_error, invitation_used}
use skillplane.Access.{WorkspaceRole}
use skillplane.Access.Authorization.{authorize, lacks_scope, can_perform, role_has, role_actions}
use skillplane.Access.Membership.{
  Membership, rows_of, owner_count, leave_request, parse_workspace_role,
}
use skillplane.Access.Membership.Owners.{owners}
use skillplane.Access.Membership.Laws.{IsOwned}
use skillplane.Access.Invitations.{
  Services, Session, Invitation, Tenancy, matches_address, invitation_accepted, manager,
  user_principal, normalize_invitation_email, assert_invitation_acceptable,
}
use skillplane.Access.Invitations.Creations.{
  Creation, create, draft, send_draft, send, deliver, revoke_expired, is_duplicate, insert_row,
  new_row, withdraw_row,
}
use skillplane.Access.Invitations.Answers.{accept, find_token, add_member, accept_row}
use skillplane.Access.Invitations.Acceptance.{IsAcceptable, IsJoined, accept-IsAcceptable_iff}
use skillplane.Access.Invitations.Steps.{Op, creates, accepts, revokes, run, accept-once}
use skillplane.Access.Invitations.Owners.{NoOwner, run-NoOwner}
use skillplane.Access.Invitations.Workspaces.{
  Workspaces, about_member, about_invitation, membership_state, serve_all, serve_all-IsOwned,
}

-- Stand-ins for the hashes and for `toLowerCase`.
abbrev services : Services
services = record {
  to_lower_case = λ s. s;
  hash_email = λ s. s;
  hash_token = λ s. s;
  primary_email = λ u. none;
  display_name = λ u. none;
  workspace_kind = λ w. some "organization";
}

abbrev session_of : String → String → Session
session_of actor email = record { actor_id = actor; session_id = "s"; email = str email }

abbrev invitation : Invitation
invitation = record {
  id = "i";
  workspace_id = "w";
  email_hash = "eve@x.io";
  role = WorkspaceRole.editor;
  token_hash = "t";
  invited_by = "ann";
  expires_at = 100;
  accepted_at = none;
  accepted_by = none;
  revoked_at = none;
}

abbrev ann : Membership
ann = record { workspace_id = "w"; user_id = "ann"; role = WorkspaceRole.owner }

abbrev before : Tenancy
before = record { members = ann ∷ []; invitations = invitation ∷ []; events = [] }

abbrev eve : Option Session
eve = some (session_of "eve" "eve@x.io")

abbrev accepted : Tenancy
accepted = record {
  members = ann ∷ record { workspace_id = "w"; user_id = "eve"; role = WorkspaceRole.editor } ∷ [];
  invitations = record invitation { accepted_at = some 51; accepted_by = some "eve" } ∷ [];
  events = invitation_accepted "w" "eve" "i" WorkspaceRole.editor ∷ [];
}

address_test : matches_address (b'a' ∷ b'@' ∷ b'x' ∷ b'.' ∷ b'i' ∷ []) ≡ true
unfolding matches_address is_space
address_test = refl

accept_test : accept services eve "t" 50 51 before ≡ ok accepted
unfolding accept find_token normalize_invitation_email js_length trim is_space matches_address
    assert_invitation_acceptable add_member accept_row
accept_test = refl

used_test : accept services eve "t" 60 61 accepted ≡ err (domain_error invitation_used 409)
unfolding accept find_token normalize_invitation_email js_length trim is_space matches_address
    assert_invitation_acceptable
used_test = refl

-- Another invitation of eve, whose e-mail cannot be sent.
abbrev again : Creation
again = record {
  session = some (session_of "ann" "ann@x.io");
  workspace_id = "w";
  email = str " eve@x.io ";
  role = str "viewer";
  has_email_service = true;
  id = "j";
  token = "u";
  now = 70;
  db_now = 71;
  is_delivered = false;
}

create_test : (create services again accepted).0.invitations ≡ accepted.invitations
unfolding create draft send_draft send deliver manager user_principal authorize lacks_scope
    can_perform role_has role_actions normalize_invitation_email js_length trim is_space
    matches_address parse_workspace_role revoke_expired is_duplicate insert_row new_row withdraw_row
create_test = refl

abbrev ops : List Op
ops = creates again ∷ revokes (some (session_of "ann" "ann@x.io")) "w" "i" 72 ∷ []

accept-IsAcceptable_iff_example :
    ((a : IsAcceptable services eve "t" 50 before) × (s' : Tenancy) × (accept services eve "t" 50 51
          before
        ≡ ok s')
      × IsJoined "t" a.current.actor_id a.row 51 before s')
    ⊎ ((¬ IsAcceptable services eve "t" 50 before)
        × (e : DomainError) × (accept services eve "t" 50 51 before ≡ err e))
accept-IsAcceptable_iff_example = accept-IsAcceptable_iff services eve "t" 50 51 before

accept-once_example : accept services eve "t" 80 81 (run services ops accepted) ≢ ok before
accept-once_example =
    accept-once services "t" eve eve 50 51 80 81 ops before accepted before accept_test

run-NoOwner_example :
    NoOwner (run services ops accepted).invitations
    × (owners "w" (run services ops accepted).members ≡ owners "w" accepted.members)
run-NoOwner_example = run-NoOwner services "w" ops accepted (refl, tt)

abbrev shared : Workspaces
shared = record { tenancy = before; audit = [] }

shared-IsOwned : IsOwned "w" (membership_state shared)
unfolding rows_of owner_count
shared-IsOwned = record { unique = (tt, tt); owned = omega arith }

-- Eve joins, and the last owner tries to leave.
serve_all-IsOwned_example : IsOwned "w" (
    membership_state (
      serve_all services
        (about_invitation (accepts eve "t" 50 51)
          ∷ about_member (leave_request (some "ann") "w")
          ∷ [])
        shared))
serve_all-IsOwned_example =
    serve_all-IsOwned services "w"
      (about_invitation (accepts eve "t" 50 51)
        ∷ about_member (leave_request (some "ann") "w")
        ∷ [])
      shared shared-IsOwned
