-- ===== src/Lifecycle/Tests.antt =====
-- The revocation of one version, with the answer of the control plane lost at first.
use skillplane.Common.{String, ◌≡◌, refl, none, Bool, true, false, [], ◌∷◌, ok, err, str_eq}
use skillplane.Common.Text.{trim, js_length}
use skillplane.Access.{WorkspaceRole, user}
use skillplane.Access.Authorization.{authorize, lacks_scope, can_perform, role_has, role_actions}
use skillplane.Idempotency.{claim, complete, validate_idempotency_key}
use skillplane.Lifecycle.{
  revoked, Region, Change, database, changed, set_lifecycle, checked_reason, change, settle,
  commit_change,
}
use skillplane.Lifecycle.Marks.{is_marked, IsFailClosed, KeepsMarks}
use skillplane.Lifecycle.Laws.{run_changes, run_changes-IsFailClosed, set_lifecycle-marks}

abbrev empty : Region
empty = record { records = λ slot. none; public = λ v. none; regional = λ v. none; audit = [] }

abbrev is_published : String → String → String → Bool
is_published v s w = str_eq v "v1"

abbrev revoking : Bool → Change
revoking control_fails = record {
  principal = user (record {
    actor_id = "a";
    workspace_id = "w";
    display_name = none;
    user_id = "a";
    session_id = "s";
    role = WorkspaceRole.admin;
    email = none;
  });
  skill_id = "s1";
  version_id = "v1";
  state = revoked;
  reason = " leaked ";
  key = "k1";
  request_hash = "h";
  response_body = "{}";
  now = 10;
  control_fails = control_fails;
  control_applied = true;
  commit_fails = false;
  commit_applied = false;
  release_fails = false;
}

lost_test : (set_lifecycle 30000 86400000 is_published (revoking true) empty).1 ≡ err database
unfolding set_lifecycle checked_reason authorize lacks_scope can_perform role_has role_actions trim
    js_length claim validate_idempotency_key change
lost_test = refl

made_test : (set_lifecycle 30000 86400000 is_published (revoking false) empty).1 ≡ ok changed
unfolding set_lifecycle checked_reason authorize lacks_scope can_perform role_has role_actions trim
    js_length claim validate_idempotency_key change settle commit_change complete
made_test = refl

empty-IsFailClosed : IsFailClosed empty
unfolding is_marked
empty-IsFailClosed state v h = h

run_changes-IsFailClosed_example :
    IsFailClosed
      (run_changes 30000 86400000 is_published (revoking true ∷ revoking false ∷ []) empty)
    × KeepsMarks empty
        (run_changes 30000 86400000 is_published (revoking true ∷ revoking false ∷ []) empty)
run_changes-IsFailClosed_example =
    run_changes-IsFailClosed 30000 86400000 is_published (revoking true ∷ revoking false ∷ []) empty
      empty-IsFailClosed

marked_test :
    (is_marked revoked
        ((set_lifecycle 30000 86400000 is_published (revoking false) empty).0.public "v1")
      ≡ true)
    × (is_marked revoked
          ((set_lifecycle 30000 86400000 is_published (revoking false) empty).0.regional "v1")
        ≡ true)
marked_test = set_lifecycle-marks 30000 86400000 is_published (revoking false) empty made_test
