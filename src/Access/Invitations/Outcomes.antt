-- ===== src/Access/Invitations/Outcomes.antt =====
-- What the handlers have established when they answer without an error.
use skillplane.Common.{
  String, ◌≡◌, refl, Option, none, some, Bool, true, false, not, any, str_eq, leb, is_some, ok,
  arith, Date, >>=-eq-ok, ◌>>◌, ap, eq_iff,
}
use skillplane.Access.{UserPrincipal}
use skillplane.Access.Invitations.{
  Services, Session, Invitation, Tenancy, manager, normalize_invitation_email,
  assert_invitation_acceptable,
}
use skillplane.Access.Invitations.Answers.{
  accept, revoke, found, find_token, session_email, add_member, accept_row, revoke_row,
  is_revocable,
}

-- What an acceptance that is let through has established, and what it leaves.
pub record IsAccepted (services : Services) (session : Option Session) (token : String)
    (now db_now : Date) (s s' : Tenancy) : Type 0 where
  pub current : Session
  pub row : Invitation
  pub email : String
  pub is_signed_in : session ≡ some current
  pub invited : find_token (services.hash_token token) s.invitations ≡ some row
  pub address : normalize_invitation_email services (session_email services current) ≡ ok email
  pub recipient : services.hash_email email ≡ row.email_hash
  pub unused : row.accepted_at ≡ none
  pub standing : row.revoked_at ≡ none
  pub fresh : leb row.expires_at now ≡ false
  pub members :
      s'.members
      ≡ add_member
          (record { workspace_id = row.workspace_id; user_id = current.actor_id; role = row.role })
          s.members
  pub invitations : s'.invitations ≡ accept_row row.id current.actor_id db_now s.invitations

is_some-false : {A : Type 0} (o : Option A) → not (is_some o) ≡ true → o ≡ none
is_some-false none h = refl
is_some-false (some a) h = absurd (cc)

acceptable-IsStanding :
    (accepted revoked : Option Date) (expires : Date) (matches : Bool) (now : Date) (t s' : Tenancy)
    → (assert_invitation_acceptable accepted expires revoked matches now >> ok t) ≡ ok s'
    → (accepted ≡ none) × (revoked ≡ none) × (leb expires now ≡ false) × (matches ≡ true) × (s' ≡ t)
unfolding assert_invitation_acceptable
acceptable-IsStanding accepted revoked expires matches now t s' h = (
  is_some-false accepted (ground arith),
  is_some-false revoked (ground arith),
  ground arith,
  ground arith,
  ground arith,
)

found-eq-ok : (o : Option Invitation) (r : Invitation) → found o ≡ ok r → o ≡ some r
found-eq-ok none r h = absurd (cc)
found-eq-ok (some q) r h = cc

-- An acceptance that is let through was asked by a signed-in user for the invitation of the token; the
-- invitation was neither used nor revoked nor expired, and it was sent to the user's own address; and
-- it adds the user to the workspace with the role of the invitation, unless the user is a member
-- already, and marks the invitation as accepted by that user.
pub accept-IsAccepted :
    (services : Services) (session : Option Session) (token : String) (now db_now : Date)
    (s s' : Tenancy)
    → accept services session token now db_now s ≡ ok s'
    → IsAccepted services session token now db_now s s'
unfolding accept
accept-IsAccepted services none token now db_now s s' h = absurd (cc)
accept-IsAccepted services (some current) token now db_now s s' h =
    let (row, e1, h1) =
      >>=-eq-ok (found (find_token (services.hash_token token) s.invitations)) _ h in
    let (email, e2, h2) =
      >>=-eq-ok (normalize_invitation_email services (session_email services current)) _ h1 in
    let (unused, standing, fresh, matches, same) =
      acceptable-IsStanding row.accepted_at row.revoked_at row.expires_at
        (str_eq (services.hash_email email) row.email_hash) now _ s' h2 in
    record {
      current = current;
      row = row;
      email = email;
      is_signed_in = refl;
      invited = found-eq-ok (find_token (services.hash_token token) s.invitations) row e1;
      address = e2;
      recipient = (eq_iff (services.hash_email email) row.email_hash).0 matches;
      unused = unused;
      standing = standing;
      fresh = fresh;
      members = ap (λ t. t.members) same;
      invitations = ap (λ t. t.invitations) same;
    }

-- What a revocation that is let through leaves.
pub record IsRevoked (services : Services) (session : Option Session) (ws id : String)
    (db_now : Date) (s s' : Tenancy) : Type 0 where
  pub principal : UserPrincipal
  pub managed : manager services s.members ws session ≡ ok principal
  pub stood : any (is_revocable id principal.workspace_id) s.invitations ≡ true
  pub members : s'.members ≡ s.members
  pub invitations : s'.invitations ≡ revoke_row id principal.workspace_id db_now s.invitations

pub revoke-IsRevoked :
    (services : Services) (session : Option Session) (ws id : String) (db_now : Date)
    (s s' : Tenancy)
    → revoke services session ws id db_now s ≡ ok s'
    → IsRevoked services session ws id db_now s s'
unfolding revoke
revoke-IsRevoked services session ws id db_now s s' h =
    let (principal, e1, h1) = >>=-eq-ok (manager services s.members ws session) _ h in
    record {
      principal = principal;
      managed = e1;
      stood = ground arith;
      members = ground arith;
      invitations = ground arith;
    }
