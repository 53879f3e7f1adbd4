-- ===== src/Access/Invitations/Acceptance.antt =====
-- When an invitation can be accepted, and what its acceptance changes.
use skillplane.Common.{
  String, ◌≡◌, refl, Option, none, some, true, false, Bool, Bool-cases, ◌⊎◌, inl, inr, List, [],
  ◌∷◌, ◌++◌, map, any, str_eq, leb, ok, err, arith, Date, eq_iff, Result-cases, if◌then◌else◌, ◌&&◌,
}
use skillplane.Common.Errors.{DomainError}
use skillplane.Access.Invitations.{
  Services, Session, Invitation, Tenancy, normalize_invitation_email, assert_invitation_acceptable,
}
use skillplane.Access.Invitations.Answers.{
  accept, find_token, session_email, add_member, accept_row,
}
use skillplane.Access.Membership.{Membership}
use skillplane.Access.Invitations.Outcomes.{accept-IsAccepted}

-- A signed-in user, and an invitation with the token that was sent to an address of that user and
-- that is neither used nor revoked nor expired.
pub record IsAcceptable (services : Services) (session : Option Session) (token : String)
    (now : Date) (s : Tenancy) : Type 0 where
  pub current : Session
  pub row : Invitation
  pub email : String
  pub is_signed_in : session ≡ some current
  pub invited : find_token (services.hash_token token) s.invitations ≡ some row
  pub address : normalize_invitation_email services (session_email services current) ≡ ok email
  pub recipient : services.hash_email email ≡ row.email_hash
  pub unused : row.accepted_at ≡ none
  pub standing : row.revoked_at ≡ none
  pub fresh : leb row.expires_at now ≡ false

abbrev is_member : String → String → List Membership → Bool
is_member ws actor = any (λ m. str_eq m.workspace_id ws && str_eq m.user_id actor)

-- The actor is a member as before or newly with the role of the invitation, all other members stay,
-- and the invitation alone changes: it was accepted by the actor at that time.
pub record IsJoined (hash actor : String) (row : Invitation) (db_now : Date) (s s' : Tenancy)
    : Type 0 where
  pub members :
      ((is_member row.workspace_id actor s.members ≡ true) × (s'.members ≡ s.members))
      ⊎ ((is_member row.workspace_id actor s.members ≡ false)
          × (s'.members
              ≡ s.members
                ++ record { workspace_id = row.workspace_id; user_id = actor; role = row.role }
                  ∷ []))
  pub spent :
      find_token hash s'.invitations
      ≡ some (record row { accepted_at = some db_now; accepted_by = some actor })
  pub invitations :
      s'.invitations
      ≡ map
          (λ r.
            if str_eq r.id row.id
            then record r { accepted_at = some db_now; accepted_by = some actor }
            else r)
          s.invitations

accept_row-found :
    (hash actor : String) (row : Invitation) (now : Date) (rows : List Invitation)
    → find_token hash rows ≡ some row
    → find_token hash (accept_row row.id actor now rows)
      ≡ some (record row { accepted_at = some now; accepted_by = some actor })
unfolding find_token accept_row
accept_row-found hash actor row now [] h = absurd (cc)
accept_row-found hash actor row now (r ∷ rows) h = elim (Bool-cases (str_eq r.token_hash hash)) [
  | inl y ↦
      let same : r ≡ row = ground (arith, h, y) in
      let kept : str_eq row.token_hash hash ≡ true = cc (y, same) in
      rw same (ground (arith, eq_iff row.id row.id, kept))
  | inr n ↦
      let rest = accept_row-found hash actor row now rows (ground (arith, h, n)) in
      ground (arith, n, rest)
]

add_member-cases :
    (ws actor : String) (m : Membership) (members : List Membership)
    → m.workspace_id ≡ ws
    → m.user_id ≡ actor
    → ((is_member ws actor members ≡ true) × (add_member m members ≡ members))
      ⊎ ((is_member ws actor members ≡ false) × (add_member m members ≡ members ++ m ∷ []))
unfolding add_member
add_member-cases ws actor m members w u = elim (Bool-cases (is_member ws actor members)) [
  | inl y ↦ inl (y, rw (w, u, y) refl)
  | inr n ↦ inr (n, rw (w, u, n) refl)
]

accepts :
    (services : Services) (session : Option Session) (token : String) (now db_now : Date)
    (s : Tenancy)
    → IsAcceptable services session token now s
    → (e : DomainError) → ¬ (accept services session token now db_now s ≡ err e)
unfolding accept assert_invitation_acceptable
accepts services session token now db_now s a e h =
    let sent = (eq_iff (services.hash_email a.email) a.row.email_hash).1 a.recipient in
    let done =
      rw (accept, a.is_signed_in, a.invited, a.address, a.unused, a.standing, a.fresh, sent) at h in
    cc done

-- Exactly a signed-in user whose address an unused, standing and unexpired invitation of the token
-- was sent to accepts it; any other acceptance is an error. An acceptance leaves every member,
-- makes the user, where not yet one, a member of the invitation's workspace in the invitation's
-- role, and marks that invitation, and no other, as accepted by the user.
pub accept-IsAcceptable_iff :
    (services : Services) (session : Option Session) (token : String) (now db_now : Date)
    (s : Tenancy)
    → ((a : IsAcceptable services session token now s) × (s' : Tenancy) × (accept services session
            token now db_now s
          ≡ ok s')
        × IsJoined (services.hash_token token) a.current.actor_id a.row db_now s s')
      ⊎ ((¬ IsAcceptable services session token now s)
          × (e : DomainError) × (accept services session token now db_now s ≡ err e))
unfolding accept_row
accept-IsAcceptable_iff services session token now db_now s =
    elim (Result-cases (accept services session token now db_now s)) [
      | inr (e, h) ↦ inr (λ a. accepts services session token now db_now s a e h, e, h)
      | inl (s', h) ↦
          let one = accept-IsAccepted services session token now db_now s s' h in
          inl (
            record {
              current = one.current;
              row = one.row;
              email = one.email;
              is_signed_in = one.is_signed_in;
              invited = one.invited;
              address = one.address;
              recipient = one.recipient;
              unused = one.unused;
              standing = one.standing;
              fresh = one.fresh;
            },
            s',
            h,
            record {
              members = rw one.members (
                  add_member-cases one.row.workspace_id one.current.actor_id _ s.members refl refl);
              spent = rw one.invitations (
                  accept_row-found (services.hash_token token) one.current.actor_id one.row db_now
                    s.invitations one.invited);
              invitations = one.invitations;
            },
          )
    ]
