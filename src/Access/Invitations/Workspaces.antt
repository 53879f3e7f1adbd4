-- ===== src/Access/Invitations/Workspaces.antt =====
-- The handlers for members and for invitations on one state, in any order.
use skillplane.Common.{
  ◌<◌, String, ◌≡◌, false, List, [], ◌∷◌, ◌++◌, any, eq_iff, Bool-cases, Result-cases, inl, inr,
  All, arith,
}
use skillplane.Access.Membership.{
  Membership, AuditEvent, State, Request, handle, names, commit_or_rollback,
}
use skillplane.Access.Membership.Owners.{IsUnique, owners, owners-cons}
use skillplane.Access.Membership.Laws.{IsOwned, handle-IsOwned}
use skillplane.Access.Invitations.{Services, Tenancy}
use skillplane.Access.Invitations.Answers.{add_member, accept, revoke}
use skillplane.Access.Invitations.Outcomes.{accept-IsAccepted, revoke-IsRevoked}
use skillplane.Access.Invitations.Steps.{Op, creates, revokes, accepts, step}
use skillplane.Access.Invitations.Owners.{owners-append, create-members}

-- The state that the handlers for members and those for invitations share.
pub record Workspaces : Type 0 where
  pub tenancy : Tenancy
  pub audit : List AuditEvent

pub data AnyRequest : Type 0 where
  about_member : Request → AnyRequest
  about_invitation : Op → AnyRequest

abbrev pub with_members : Workspaces → State → Workspaces
with_members w s = record { tenancy = record w.tenancy { members = s.members }; audit = s.audit }

abbrev pub membership_state : Workspaces → State
membership_state w = record { members = w.tenancy.members; audit = w.audit }

unfoldable pub serve_one : Services → AnyRequest → Workspaces → Workspaces
serve_one services (about_member r) w =
    with_members w (commit_or_rollback (membership_state w) (handle r (membership_state w)))
serve_one services (about_invitation op) w = record {
  tenancy = step services op w.tenancy;
  audit = w.audit;
}

unfoldable pub serve_all : Services → List AnyRequest → Workspaces → Workspaces
serve_all services [] w = w
serve_all services (r ∷ rs) w = serve_all services rs (serve_one services r w)

names-append :
    (m : Membership) (r : Membership) (t : List Membership)
    → names m.workspace_id m.user_id r ≡ false
    → All (λ n. names r.workspace_id r.user_id n ≡ false) t
    → All (λ n. names r.workspace_id r.user_id n ≡ false) (t ++ (m ∷ []))
names-append m r [] k h = (
  ground (
    arith,
    eq_iff m.workspace_id r.workspace_id,
    eq_iff m.user_id r.user_id,
    eq_iff r.workspace_id m.workspace_id,
    eq_iff r.user_id m.user_id,
  ),
  tt,
)
names-append m r (n ∷ t) k (h, hs) = (h, names-append m r t k hs)

IsUnique-append :
    (m : Membership) (t : List Membership)
    → any (names m.workspace_id m.user_id) t ≡ false
    → IsUnique t
    → IsUnique (t ++ (m ∷ []))
IsUnique-append m [] k h = (tt, tt)
IsUnique-append m (r ∷ t) k (h, hs) =
    (names-append m r t (ground arith) h, IsUnique-append m t (ground arith) hs)

add_member-IsUnique :
    (m : Membership) (t : List Membership) → IsUnique t → IsUnique (add_member m t)
unfolding add_member
add_member-IsUnique m t h = elim (Bool-cases (any (names m.workspace_id m.user_id) t)) [
  | inl e ↦ rw e h
  | inr e ↦ rw e (IsUnique-append m t e h)
]

owners-add_member_le :
    (ws : String) (m : Membership) (t : List Membership)
    → 0 < owners ws t
    → 0 < owners ws (add_member m t)
unfolding add_member
owners-add_member_le ws m t h = ground (arith, owners-append ws m t, owners-cons ws m t)

module _ (services : Services) (ws : String) where
  step-IsOwned :
      (op : Op) (s : Tenancy)
      → IsUnique s.members
      → 0 < owners ws s.members
      → IsUnique (step services op s).members × (0 < owners ws (step services op s).members)
  unfolding step
  step-IsOwned (creates x) s u o = rw (create-members services x s) (u, o)
  step-IsOwned (revokes session w id now) s u o =
      elim (Result-cases (revoke services session w id now s)) [
        | inr (e, f) ↦ rw f (u, o)
        | inl (s', f) ↦ rw (f, (revoke-IsRevoked services session w id now s s' f).members) (u, o)
      ]
  step-IsOwned (accepts session token now db_now) s u o =
      elim (Result-cases (accept services session token now db_now s)) [
        | inr (e, f) ↦ rw f (u, o)
        | inl (s', f) ↦
            let done = accept-IsAccepted services session token now db_now s s' f in
            rw (f, done.members)
              (add_member-IsUnique _ s.members u, owners-add_member_le ws _ s.members o)
      ]

  serve_one-IsOwned :
      (r : AnyRequest) (w : Workspaces)
      → IsOwned ws (membership_state w)
      → IsOwned ws (membership_state (serve_one services r w))
  unfolding serve_one commit_or_rollback
  serve_one-IsOwned (about_member r) w h = elim (Result-cases (handle r (membership_state w))) [
    | inr (e, f) ↦ rw f h
    | inl (s', f) ↦ rw f (handle-IsOwned ws r (membership_state w) s' f h)
  ]
  serve_one-IsOwned (about_invitation op) w h =
      let (u, o) = step-IsOwned op w.tenancy h.unique h.owned in record { unique = u; owned = o }

  -- From unique memberships and a workspace with an owner, any sequence of requests about members
  -- and about invitations, let through or refused, leaves the memberships unique and the workspace
  -- with an owner.
  pub serve_all-IsOwned :
      (rs : List AnyRequest) (w : Workspaces)
      → IsOwned ws (membership_state w)
      → IsOwned ws (membership_state (serve_all services rs w))
  unfolding serve_all
  serve_all-IsOwned [] w h = h
  serve_all-IsOwned (r ∷ rs) w h =
      serve_all-IsOwned rs (serve_one services r w) (serve_one-IsOwned r w h)
