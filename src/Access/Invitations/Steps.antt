-- ===== src/Access/Invitations/Steps.antt =====
-- Sequences of requests about invitations, and what they keep of an invitation that was accepted.
use skillplane.Common.{
  String, ◌≡◌, ◌≢◌, Option, Bool-cases, Result-cases, inl, inr, some, Bool, true, false, List, [],
  ◌∷◌, ◌++◌, map, str_eq, eq_iff, is_some, Result, ok, err, arith, if◌then◌else◌, Date,
}
use skillplane.Common.Errors.{DomainError}
use skillplane.Access.Invitations.{Services, Session, Invitation, Tenancy}
use skillplane.Access.Invitations.Creations.{
  Creation, Draft, create, send_draft, send, deliver, draft, revoke_expired, insert_row, new_row,
  withdraw_row, is_duplicate,
}
use skillplane.Access.Invitations.Answers.{revoke_row, find_token, revoke, accept, accept_row}
use skillplane.Access.Invitations.Outcomes.{accept-IsAccepted, revoke-IsRevoked}

pub data Op : Type 0 where
  creates : Creation → Op
  revokes : Option Session → String → String → Date → Op
  accepts : Option Session → String → Date → Date → Op

-- A transaction that throws leaves the state.
abbrev pub after : Tenancy → Result DomainError Tenancy → Tenancy
after s (ok s') = s'
after s (err e) = s

unfoldable pub step : Services → Op → Tenancy → Tenancy
step services (creates x) s = (create services x s).0
step services (revokes session ws id now) s = after s (revoke services session ws id now s)
step services (accepts session token now db_now) s =
    after s (accept services session token now db_now s)

unfoldable pub run : Services → List Op → Tenancy → Tenancy
run services [] s = s
run services (op ∷ ops) s = run services ops (step services op s)

-- The first row of the token is an accepted one.
unfoldable pub is_used : String → List Invitation → Bool
is_used hash [] = false
is_used hash (r ∷ rows) =
    if str_eq r.token_hash hash then is_some r.accepted_at else is_used hash rows

module _ (hash : String) where
  is_used-map :
      (f : Invitation → Invitation)
      → ((r : Invitation) → (f r).token_hash ≡ r.token_hash)
      → ((r : Invitation) → is_some r.accepted_at ≡ true → is_some (f r).accepted_at ≡ true)
      → (rows : List Invitation) → is_used hash rows ≡ true
      → is_used hash (map f rows) ≡ true
  unfolding is_used
  is_used-map f keeps stays [] h = h
  is_used-map f keeps stays (r ∷ rows) h =
      ground (arith, keeps r, stays r, is_used-map f keeps stays rows)

  is_used-append :
      (row : Invitation) (rows : List Invitation)
      → is_used hash rows ≡ true
      → is_used hash (rows ++ (row ∷ [])) ≡ true
  unfolding is_used
  is_used-append row [] h = cc
  is_used-append row (r ∷ rows) h = ground (arith, is_used-append row rows)

  is_used-withdraw_row :
      (id : String) (rows : List Invitation)
      → is_used hash rows ≡ true
      → is_used hash (withdraw_row id rows) ≡ true
  unfolding is_used withdraw_row
  is_used-withdraw_row id [] h = h
  is_used-withdraw_row id (r ∷ rows) h = ground (arith, is_used-withdraw_row id rows)

  is_used-insert_row :
      (row : Invitation) (rows rows' : List Invitation)
      → insert_row row rows ≡ ok rows'
      → is_used hash rows ≡ true
      → is_used hash rows' ≡ true
  unfolding insert_row
  is_used-insert_row row rows rows' e h = ground (arith, is_used-append row rows h)

  is_used-revoke_expired :
      (ws recipient : String) (now : Date) (rows : List Invitation)
      → is_used hash rows ≡ true
      → is_used hash (revoke_expired ws recipient now rows) ≡ true
  unfolding revoke_expired
  is_used-revoke_expired ws recipient now = is_used-map _ (λ r. ground arith) (λ r h. ground arith)

  send-keeps_used :
      (services : Services) (x : Creation) (d : Draft) (s : Tenancy)
      → is_used hash s.invitations ≡ true
      → is_used hash (send services x d s).0.invitations ≡ true
  unfolding send deliver
  send-keeps_used services x d s h =
      let ws = d.principal.workspace_id in
      let rows = revoke_expired ws d.email_hash x.db_now s.invitations in
      let swept = is_used-revoke_expired ws d.email_hash x.db_now s.invitations h in
      elim (Bool-cases (is_duplicate ws d.email_hash x.db_now rows)) [
        | inl e ↦ rw e swept
        | inr e ↦ elim (Result-cases (insert_row (new_row services x d) rows)) [
          | inr (thrown, f) ↦ rw (e, f) swept
          | inl (rows', f) ↦
              let inserted = is_used-insert_row (new_row services x d) rows rows' f swept in
              rw (e, f) (ground (arith, inserted, is_used-withdraw_row x.id rows' inserted))
        ]
      ]

  create-keeps_used :
      (services : Services) (x : Creation) (s : Tenancy)
      → is_used hash s.invitations ≡ true
      → is_used hash (create services x s).0.invitations ≡ true
  unfolding create send_draft
  create-keeps_used services x s h = elim (Result-cases (draft services x s)) [
    | inr (e, f) ↦ rw f h
    | inl (d, f) ↦ rw f (send-keeps_used services x d s h)
  ]

  step-keeps_used :
      (services : Services) (op : Op) (s : Tenancy)
      → is_used hash s.invitations ≡ true
      → is_used hash (step services op s).invitations ≡ true
  unfolding step accept_row revoke_row
  step-keeps_used services (creates x) s h = create-keeps_used services x s h
  step-keeps_used services (revokes session ws id now) s h =
      elim (Result-cases (revoke services session ws id now s)) [
        | inr (e, f) ↦ rw f h
        | inl (s', f) ↦
            let done = revoke-IsRevoked services session ws id now s s' f in
            rw (f, done.invitations)
              (is_used-map _ (λ r. ground arith) (λ r k. ground arith) s.invitations h)
      ]
  step-keeps_used services (accepts session token now db_now) s h =
      elim (Result-cases (accept services session token now db_now s)) [
        | inr (e, f) ↦ rw f h
        | inl (s', f) ↦
            let done = accept-IsAccepted services session token now db_now s s' f in
            rw (f, done.invitations)
              (is_used-map _ (λ r. ground arith) (λ r k. ground arith) s.invitations h)
      ]

  pub run-keeps_used :
      (services : Services) (ops : List Op) (s : Tenancy)
      → is_used hash s.invitations ≡ true
      → is_used hash (run services ops s).invitations ≡ true
  unfolding run
  run-keeps_used services [] s h = h
  run-keeps_used services (op ∷ ops) s h =
      run-keeps_used services ops (step services op s) (step-keeps_used services op s h)

  -- The row that an acceptance finds is the one that it marks.
  is_used-accept_row :
      (row : Invitation) (actor : String) (now : Date) (rows : List Invitation)
      → find_token hash rows ≡ some row
      → is_used hash (accept_row row.id actor now rows) ≡ true
  unfolding is_used find_token accept_row
  is_used-accept_row row actor now [] h = absurd (cc)
  is_used-accept_row row actor now (r ∷ rows) h =
      ground (arith, eq_iff r.id row.id, is_used-accept_row row actor now rows)

  found_used :
      (row : Invitation) (rows : List Invitation)
      → find_token hash rows ≡ some row
      → is_used hash rows ≡ true
      → is_some row.accepted_at ≡ true
  unfolding is_used find_token
  found_used row [] h k = absurd (cc)
  found_used row (r ∷ rows) h k = ground (arith, found_used row rows)

-- An invitation that was accepted is never accepted again, by whomever, whatever is requested in
-- between.
pub accept-once :
    (services : Services) (token : String) (first second : Option Session)
    (now db_now later db_later : Date) (ops : List Op) (s s' t : Tenancy)
    → accept services first token now db_now s ≡ ok s'
    → accept services second token later db_later (run services ops s') ≢ ok t
accept-once services token first second now db_now later db_later ops s s' t accepted again =
    let hash = services.hash_token token in
    let one = accept-IsAccepted services first token now db_now s s' accepted in
    let two =
      accept-IsAccepted services second token later db_later (run services ops s') t again in
    let used =
      is_used-accept_row hash one.row one.current.actor_id db_now s.invitations one.invited in
    let kept = run-keeps_used hash services ops s' (rw one.invitations used) in
    cc (found_used hash two.row (run services ops s').invitations two.invited kept, two.unused)
