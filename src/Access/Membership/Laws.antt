-- ===== src/Access/Membership/Laws.antt =====
-- What the membership handlers keep, and whom they let through.
use skillplane.Common.{
  ◌<◌, String, ◌≡◌, refl, Option, none, some, true, false, not, ◌&&◌, List, [], ◌∷◌, ◌⊎◌, arith,
  eq_iff, str_eq, Bool-cases, inl, inr, ok, >>=-eq-ok, leb, Result-cases,
}
use skillplane.Common.Json.{Json}
use skillplane.Access.{WorkspaceRole}
use skillplane.Access.Membership.{
  State, is_owner, rows_of, membership_role, set_role, delete_member, parse_workspace_role,
  session_actor, can_manage_membership, assert_membership_change, assert_owner_remains, change_role,
  remove_member, leave, Request, patch, delete, leave_request, handle, commit_or_rollback, serve,
}
use skillplane.Access.Membership.Lookup.{
  owners-set_role_ne, owners-delete_member_ne, set_role-IsUnique, delete_member-IsUnique,
}
use skillplane.Access.Membership.Owners.{IsUnique, owners, owners-set_role, owners-delete_member}

-- What a change of role that is let through has established, and what it leaves.
pub record Changed (session : Option String) (ws u : String) (body : Json) (s s' : State)
    : Type 0 where
  pub actor : String
  pub actor_role : WorkspaceRole
  pub target_role : WorkspaceRole
  pub next : WorkspaceRole
  pub signed_in : session ≡ some actor
  pub parsed : parse_workspace_role true body ≡ ok next
  pub acting : membership_role (rows_of ws s.members) actor ≡ ok actor_role
  pub target : membership_role (rows_of ws s.members) u ≡ ok target_role
  pub manages : can_manage_membership actor_role target_role (some next) ≡ true
  pub another : (is_owner target_role && not (is_owner next)) && leb (owners ws s.members) 1 ≡ false
  pub members : s'.members ≡ set_role ws u next s.members

-- The same for a removal, and for a member that leaves.
pub record Removed (session : Option String) (ws u : String) (s s' : State) : Type 0 where
  pub actor : String
  pub actor_role : WorkspaceRole
  pub target_role : WorkspaceRole
  pub signed_in : session ≡ some actor
  pub acting : membership_role (rows_of ws s.members) actor ≡ ok actor_role
  pub target : membership_role (rows_of ws s.members) u ≡ ok target_role
  pub manages : (can_manage_membership actor_role target_role none ≡ true) ⊎ (actor ≡ u)
  pub another : is_owner target_role && leb (owners ws s.members) 1 ≡ false
  pub members : s'.members ≡ delete_member ws u s.members

-- A change of role that is let through was asked by a signed-in member who may manage the target's
-- membership and the new role, for a member of the workspace; if it takes an owner's role, there
-- are two owners or more; and it sets the role of that member in that workspace.
pub change_role-Changed :
    (session : Option String) (ws u : String) (body : Json) (s s' : State)
    → change_role session ws u body s ≡ ok s'
    → Changed session ws u body s s'
unfolding change_role session_actor assert_membership_change assert_owner_remains
change_role-Changed none ws u body s s' h = cc
change_role-Changed (some actor) ws u body s s' h =
    let (next, e1, h1) = >>=-eq-ok (parse_workspace_role true body) _ h in
    let (actor_role, e2, h2) = >>=-eq-ok (membership_role (rows_of ws s.members) actor) _ h1 in
    let (target_role, e3, h3) = >>=-eq-ok (membership_role (rows_of ws s.members) u) _ h2 in
    record {
      actor = actor;
      actor_role = actor_role;
      target_role = target_role;
      next = next;
      signed_in = refl;
      parsed = e1;
      acting = e2;
      target = e3;
      manages = ground arith;
      another = ground arith;
      members = ground arith;
    }

-- A removal that is let through was asked by a signed-in member who may manage the target's
-- membership, or is the target, for a member of the workspace; if the target is an owner, there are
-- two owners or more; and it deletes the membership of the target in that workspace.
pub remove_member-Removed :
    (session : Option String) (ws u : String) (s s' : State)
    → remove_member session ws u s ≡ ok s'
    → Removed session ws u s s'
unfolding remove_member session_actor assert_membership_change assert_owner_remains
remove_member-Removed none ws u s s' h = cc
remove_member-Removed (some actor) ws u s s' h =
    let (actor_role, e2, h2) = >>=-eq-ok (membership_role (rows_of ws s.members) actor) _ h in
    let (target_role, e3, h3) = >>=-eq-ok (membership_role (rows_of ws s.members) u) _ h2 in
    record {
      actor = actor;
      actor_role = actor_role;
      target_role = target_role;
      signed_in = refl;
      acting = e2;
      target = e3;
      manages = ground arith;
      another = ground arith;
      members = ground arith;
    }

-- A departure that is let through was asked by a signed-in member of the workspace; if that is an
-- owner, there are two owners or more; and it deletes the membership of that member in that
-- workspace.
pub leave-Removed :
    (actor ws : String) (s s' : State)
    → leave (some actor) ws s ≡ ok s'
    → Removed (some actor) ws actor s s'
unfolding leave session_actor assert_owner_remains
leave-Removed actor ws s s' h =
    let (target_role, e3, h3) = >>=-eq-ok (membership_role (rows_of ws s.members) actor) _ h in
    record {
      actor = actor;
      actor_role = target_role;
      target_role = target_role;
      signed_in = refl;
      acting = e3;
      target = e3;
      manages = inr refl;
      another = ground arith;
      members = ground arith;
    }

-- The memberships are unique, and the workspace has an owner.
pub record IsOwned (ws : String) (s : State) : Type 0 where
  pub unique : IsUnique s.members
  pub owned : 0 < owners ws s.members

module _ (ws : String) where
  Changed-IsOwned :
      (session : Option String) (w u : String) (body : Json) (s s' : State)
      → Changed session w u body s s'
      → IsOwned ws s
      → IsOwned ws s'
  Changed-IsOwned session w u body s s' c h = record {
    unique = rw c.members (set_role-IsUnique w u c.next s.members h.unique);
    owned = rw c.members (elim (Bool-cases (str_eq w ws)) [
      | inl same ↦
          let e = owners-set_role w u c.next c.target_role s.members h.unique c.target in
          ground (arith, eq_iff w ws, e, c.another, h.owned)
      | inr other ↦ rw (owners-set_role_ne w u ws c.next s.members other) h.owned
    ]);
  }

  Removed-IsOwned :
      (session : Option String) (w u : String) (s s' : State)
      → Removed session w u s s'
      → IsOwned ws s
      → IsOwned ws s'
  Removed-IsOwned session w u s s' c h = record {
    unique = rw c.members (delete_member-IsUnique w u s.members h.unique);
    owned = rw c.members (elim (Bool-cases (str_eq w ws)) [
      | inl same ↦
          let e = owners-delete_member w u c.target_role s.members h.unique c.target in
          ground (arith, eq_iff w ws, e, c.another, h.owned)
      | inr other ↦ rw (owners-delete_member_ne w u ws s.members other) h.owned
    ]);
  }

  pub handle-IsOwned :
      (r : Request) (s s' : State) → handle r s ≡ ok s' → IsOwned ws s → IsOwned ws s'
  unfolding handle
  handle-IsOwned (patch session w u body) s s' e h =
      Changed-IsOwned session w u body s s' (change_role-Changed session w u body s s' e) h
  handle-IsOwned (delete session w u) s s' e h =
      Removed-IsOwned session w u s s' (remove_member-Removed session w u s s' e) h
  handle-IsOwned (leave_request (some actor) w) s s' e h =
      Removed-IsOwned (some actor) w actor s s' (leave-Removed actor w s s' e) h
  handle-IsOwned (leave_request none w) s s' e h = unfold leave session_actor in cc

  -- From a state whose memberships are unique and where the workspace has an owner, any sequence
  -- of requests, let through or refused, leaves the memberships unique and the workspace with an
  -- owner.
  pub serve-IsOwned : (rs : List Request) (s : State) → IsOwned ws s → IsOwned ws (serve s rs)
  unfolding serve commit_or_rollback
  serve-IsOwned [] s h = h
  serve-IsOwned (r ∷ rs) s h = elim (Result-cases (handle r s)) [
    | inl (s', e) ↦ rw e (serve-IsOwned rs s' (handle-IsOwned r s s' e h))
    | inr (x, e) ↦ rw e (serve-IsOwned rs s h)
  ]
