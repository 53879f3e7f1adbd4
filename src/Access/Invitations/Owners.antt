-- ===== src/Access/Invitations/Owners.antt =====
-- The owners that invitations leave, and the roles that they carry.
use skillplane.Common.{
  String, ◌≡◌, refl, ap, ◌∙◌, false, not, ◌&&◌, List, [], ◌∷◌, ◌++◌, map, any, str_eq, Bool-cases,
  Result-cases, Result, inl, inr, ok, err, All, arith, some, require, is_some, ensures-bind,
  ensures-ok,
}
use skillplane.Common.Errors.{domain_error, field_error, conflict}
use skillplane.Common.Json.{Json, str}
use skillplane.Access.{WorkspaceRole}
use skillplane.Access.Membership.{Membership, is_owner, parse_workspace_role}
use skillplane.Access.Membership.Owners.{owners, owners-cons}
use skillplane.Access.Invitations.{
  Services, Invitation, Tenancy, manager, normalize_invitation_email, parse_invitation_role,
  RouteError,
}
use skillplane.Access.Invitations.Creations.{
  Creation, Draft, create, send, send_draft, deliver, draft, insert_row, new_row, revoke_expired,
  withdraw_row, organization, has_email, is_duplicate,
}
use skillplane.Access.Invitations.Answers.{
  revoke_row, accept_row, add_member, accept, revoke, find_token,
}
use skillplane.Access.Invitations.Outcomes.{accept-IsAccepted, revoke-IsRevoked}
use skillplane.Access.Invitations.Steps.{Op, creates, revokes, accepts, step, run}

-- No invitation carries the role of an owner.
abbrev pub NoOwner : List Invitation → Type 0
NoOwner = All (λ r. is_owner r.role ≡ false)

NoOwner-map :
    (f : Invitation → Invitation)
    → ((r : Invitation) → (f r).role ≡ r.role)
    → (rows : List Invitation) → NoOwner rows
    → NoOwner (map f rows)
NoOwner-map f keeps [] h = tt
NoOwner-map f keeps (r ∷ rows) (h, hs) = (ground (arith, keeps r), NoOwner-map f keeps rows hs)

NoOwner-append :
    (row : Invitation) (rows : List Invitation)
    → is_owner row.role ≡ false
    → NoOwner rows
    → NoOwner (rows ++ (row ∷ []))
NoOwner-append row [] k h = (k, tt)
NoOwner-append row (r ∷ rows) k (h, hs) = (h, NoOwner-append row rows k hs)

NoOwner-withdraw_row :
    (id : String) (rows : List Invitation) → NoOwner rows → NoOwner (withdraw_row id rows)
unfolding withdraw_row
NoOwner-withdraw_row id [] h = tt
NoOwner-withdraw_row id (r ∷ rows) (h, hs) =
    elim (Bool-cases (not (str_eq r.id id && not (is_some r.accepted_at)))) [
      | inl e ↦ rw e (h, NoOwner-withdraw_row id rows hs)
      | inr e ↦ rw e (NoOwner-withdraw_row id rows hs)
    ]

NoOwner-find_token :
    (hash : String) (row : Invitation) (rows : List Invitation)
    → find_token hash rows ≡ some row
    → NoOwner rows
    → is_owner row.role ≡ false
unfolding find_token
NoOwner-find_token hash row [] e h = absurd (cc)
NoOwner-find_token hash row (r ∷ rows) e (h, hs) = ground (arith, NoOwner-find_token hash row rows)

-- A role that an invitation parses is no owner's.
parse-is_owner :
    (body : Json) (r : WorkspaceRole) → parse_workspace_role false body ≡ ok r → is_owner r ≡ false
unfolding parse_workspace_role
parse-is_owner (str s) r h = ground arith
parse-is_owner _ r h = absurd (cc)

draft-is_owner :
    (services : Services) (x : Creation) (s : Tenancy) (d : Draft)
    → draft services x s ≡ ok d
    → is_owner d.role ≡ false
unfolding draft
draft-is_owner services x s d h =
    let P = λ (d : Draft). is_owner d.role ≡ false in
    ensures-bind P (require x.has_email_service (domain_error conflict 409)) _
      (λ _ _. ensures-bind P (manager services s.members x.workspace_id x.session) _ (λ principal _.
        ensures-bind P (normalize_invitation_email services x.email) _ (λ email _.
          ensures-bind P (parse_invitation_role x.role) _ (λ role e.
            ensures-bind P (organization (services.workspace_kind principal.workspace_id)) _ (λ _ _.
              ensures-bind P
                (require (not (any (has_email services principal.workspace_id email) s.members))
                  (field_error conflict 409 "email"))
                _ (λ _ _. ensures-ok P _ (parse-is_owner x.role role e)))))))
      d h

pub owners-append :
    (ws : String) (m : Membership) (t : List Membership)
    → owners ws (t ++ (m ∷ [])) ≡ owners ws (m ∷ t)
owners-append ws m [] = refl
owners-append ws m (n ∷ t) = omega (
  arith,
  owners-cons ws n (t ++ (m ∷ [])),
  owners-append ws m t,
  owners-cons ws m (n ∷ t),
  owners-cons ws m t,
  owners-cons ws n t,
)

owners-add_member :
    (ws : String) (m : Membership) (t : List Membership)
    → is_owner m.role ≡ false
    → owners ws (add_member m t) ≡ owners ws t
unfolding add_member
owners-add_member ws m t h = ground (arith, owners-append ws m t, owners-cons ws m t)

deliver-members :
    (x : Creation) (d : Draft) (s : Tenancy) (r : Result RouteError (List Invitation))
    → (deliver x d s r).0.members ≡ s.members
unfolding deliver
deliver-members x d s (err e) = refl
deliver-members x d s (ok rows) = ground arith

pub create-members :
    (services : Services) (x : Creation) (s : Tenancy) → (create services x s).0.members ≡ s.members
unfolding create send_draft send
create-members services x s = elim (Result-cases (draft services x s)) [
  | inr (e, f) ↦ rw f refl
  | inl (d, f) ↦
      let ws = d.principal.workspace_id in
      let rows = revoke_expired ws d.email_hash x.db_now s.invitations in
      elim (Bool-cases (is_duplicate ws d.email_hash x.db_now rows)) [
        | inl g ↦ rw (f, g) refl
        | inr g ↦
            rw (f, g)
              (deliver-members x d (record s { invitations = rows })
                (insert_row (new_row services x d) rows))
      ]
]

deliver-NoOwner :
    (services : Services) (x : Creation) (d : Draft) (s : Tenancy) (rows : List Invitation)
    → is_owner d.role ≡ false
    → NoOwner s.invitations
    → NoOwner rows
    → NoOwner (deliver x d s (insert_row (new_row services x d) rows)).0.invitations
unfolding deliver insert_row new_row
deliver-NoOwner services x d s rows k old h =
    elim (Result-cases (insert_row (new_row services x d) rows)) [
      | inr (e, f) ↦ rw f old
      | inl (rows', f) ↦
          let same : rows' ≡ rows ++ (new_row services x d ∷ []) = ground arith in
          let more = NoOwner-append (new_row services x d) rows k h in
          elim (Bool-cases x.is_delivered) [
            | inl g ↦ rw (f, same, g) more
            | inr g ↦ rw (f, same, g) (NoOwner-withdraw_row x.id _ more)
          ]
    ]

create-NoOwner :
    (services : Services) (x : Creation) (s : Tenancy)
    → NoOwner s.invitations
    → NoOwner (create services x s).0.invitations
unfolding create send_draft send revoke_expired
create-NoOwner services x s h = elim (Result-cases (draft services x s)) [
  | inr (e, f) ↦ rw f h
  | inl (d, f) ↦
      let ws = d.principal.workspace_id in
      let rows = revoke_expired ws d.email_hash x.db_now s.invitations in
      let swept = NoOwner-map _ (λ r. ground arith) s.invitations h in
      elim (Bool-cases (is_duplicate ws d.email_hash x.db_now rows)) [
        | inl g ↦ rw (f, g) swept
        | inr g ↦
            rw (f, g)
              (deliver-NoOwner services x d (record s { invitations = rows }) rows
                (draft-is_owner services x s d f) swept swept)
      ]
]

module _ (services : Services) (ws : String) where
  step-NoOwner :
      (op : Op) (s : Tenancy)
      → NoOwner s.invitations
      → NoOwner (step services op s).invitations
        × (owners ws (step services op s).members ≡ owners ws s.members)
  unfolding step revoke_row accept_row
  step-NoOwner (creates x) s h =
      (create-NoOwner services x s h, ap (owners ws) (create-members services x s))
  step-NoOwner (revokes session w id now) s h =
      elim (Result-cases (revoke services session w id now s)) [
        | inr (e, f) ↦ rw f (h, refl)
        | inl (s', f) ↦
            let done = revoke-IsRevoked services session w id now s s' f in
            rw (f, done.invitations)
              (NoOwner-map _ (λ r. ground arith) s.invitations h, ap (owners ws) done.members)
      ]
  step-NoOwner (accepts session token now db_now) s h =
      elim (Result-cases (accept services session token now db_now s)) [
        | inr (e, f) ↦ rw f (h, refl)
        | inl (s', f) ↦
            let done = accept-IsAccepted services session token now db_now s s' f in
            rw (f, done.invitations)
              (
                NoOwner-map _ (λ r. ground arith) s.invitations h,
                ap (owners ws) done.members
                    ∙ owners-add_member ws _ s.members (
                        NoOwner-find_token (services.hash_token token) done.row s.invitations
                          done.invited h),
              )
      ]

  -- Where no invitation carries the role of an owner, any sequence of requests about invitations keeps
  -- it so, and leaves the number of owners of every workspace.
  pub run-NoOwner :
      (ops : List Op) (s : Tenancy)
      → NoOwner s.invitations
      → NoOwner (run services ops s).invitations
        × (owners ws (run services ops s).members ≡ owners ws s.members)
  unfolding run
  run-NoOwner [] s h = (h, refl)
  run-NoOwner (op ∷ ops) s h =
      let (kept, same) = step-NoOwner op s h in
      let (all_kept, all_same) = run-NoOwner ops (step services op s) kept in
      (all_kept, all_same ∙ same)
