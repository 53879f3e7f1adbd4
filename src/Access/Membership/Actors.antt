-- ===== src/Access/Membership/Actors.antt =====
-- What a member who is not an owner can change.
use skillplane.Common.{
  String, ◌≡◌, ◌≢◌, ◌↔◌, some, false, ◌⊎◌, arith, eq_iff, str_eq, Bool-cases, inl, inr, ok,
}
use skillplane.Common.Json.{Json}
use skillplane.Access.{WorkspaceRole}
use skillplane.Access.Membership.{
  State, is_owner, rows_of, membership_role, can_manage_membership, change_role, remove_member,
}
use skillplane.Access.Membership.Lookup.{
  membership_role-set_role_ne, membership_role-set_role_self, membership_role-delete_member_ne,
  membership_role-delete_member_self,
}
use skillplane.Access.Membership.Laws.{Changed, Removed, change_role-Changed, remove_member-Removed}

module _ (actor ws u v : String) (role : WorkspaceRole) (s s' : State)
    (acting : membership_role (rows_of ws s.members) actor ≡ ok role)
    (low : is_owner role ≡ false) where
  abbrev SameOwner : Type 0
  SameOwner =
      (membership_role (rows_of ws s'.members) v ≡ ok WorkspaceRole.owner)
      ↔ (membership_role (rows_of ws s.members) v ≡ ok WorkspaceRole.owner)

  Changed-SameOwner : (body : Json) → Changed (some actor) ws u body s s' → SameOwner
  unfolding can_manage_membership
  Changed-SameOwner body c = rw c.members (elim (Bool-cases (str_eq u v)) [
    | inl same ↦
        let e : u ≡ v = (eq_iff u v).0 same in
        let new = membership_role-set_role_self ws u c.next c.target_role s.members c.target in
        rw (← e) (ground (arith, new, c.target, c.manages, c.acting, acting, c.signed_in, low))
    | inr other ↦ rw (membership_role-set_role_ne ws u v c.next s.members other) (λ x. x, λ x. x)
  ])

  Removed-SameOwner : actor ≢ u → Removed (some actor) ws u s s' → SameOwner
  unfolding can_manage_membership
  Removed-SameOwner self c = rw c.members (elim (Bool-cases (str_eq u v)) [
    | inl same ↦
        let e : u ≡ v = (eq_iff u v).0 same in
        let new = membership_role-delete_member_self ws u s.members in
        rw (← e)
          (ground (arith, new, c.target, c.manages, c.acting, acting, c.signed_in, low, self))
    | inr other ↦ rw (membership_role-delete_member_ne ws u v s.members other) (λ x. x, λ x. x)
  ])

-- After a change of role, or a removal of another member, in a workspace that a member of it who is
-- no owner is let through with, a user is an owner of that workspace exactly if the user was one
-- before.
pub owner_iff_of_not_owner :
    (actor ws u v : String) (body : Json) (role : WorkspaceRole) (s s' : State)
    → membership_role (rows_of ws s.members) actor ≡ ok role
    → is_owner role ≡ false
    → (change_role (some actor) ws u body s ≡ ok s')
      ⊎ ((remove_member (some actor) ws u s ≡ ok s') × (actor ≢ u))
    → (membership_role (rows_of ws s'.members) v ≡ ok WorkspaceRole.owner)
      ↔ (membership_role (rows_of ws s.members) v ≡ ok WorkspaceRole.owner)
owner_iff_of_not_owner actor ws u v body role s s' acting low (inl e) =
    Changed-SameOwner actor ws u v role s s' acting low body
      (change_role-Changed (some actor) ws u body s s' e)
owner_iff_of_not_owner actor ws u v body role s s' acting low (inr (e, self)) =
    Removed-SameOwner actor ws u v role s s' acting low self
      (remove_member-Removed (some actor) ws u s s' e)
