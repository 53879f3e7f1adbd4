-- ===== src/Access/Membership/Lookup.antt =====
-- The role that a user has after a write to the memberships, and the unique constraint.
use skillplane.Common.{
  String, ◌≡◌, refl, false, List, [], ◌∷◌, All, arith, eq_iff, str_eq, Bool-cases, inl, inr, ok,
  err, if◌then◌else◌,
}
use skillplane.Common.Errors.{domain_error, not_found}
use skillplane.Access.{WorkspaceRole}
use skillplane.Access.Membership.{
  Membership, rows_of, membership_role, names, set_role, delete_member,
}
use skillplane.Access.Membership.Owners.{
  IsUnique, membership_role-cons, set_role-cons, delete_member-cons, owners, owners-cons,
}

module _ (ws u : String) where
  -- Another user of the workspace keeps the role.
  pub membership_role-set_role_ne :
      (v : String) (r : WorkspaceRole) (t : List Membership)
      → str_eq u v ≡ false
      → membership_role (rows_of ws (set_role ws u r t)) v ≡ membership_role (rows_of ws t) v
  membership_role-set_role_ne v r [] d = unfold set_role in refl
  membership_role-set_role_ne v r (m ∷ t) d = ground (
    arith,
    set_role-cons ws u r m t,
    membership_role-cons ws v m t,
    membership_role-cons ws v (if names ws u m then record m { role = r } else m)
        (set_role ws u r t),
    eq_iff m.user_id u,
    eq_iff m.user_id v,
    eq_iff u v,
    membership_role-set_role_ne v r t d,
  )

  -- The user of the write has the role written.
  pub membership_role-set_role_self :
      (r target : WorkspaceRole) (t : List Membership)
      → membership_role (rows_of ws t) u ≡ ok target
      → membership_role (rows_of ws (set_role ws u r t)) u ≡ ok r
  membership_role-set_role_self r target [] h = unfold rows_of membership_role in cc
  membership_role-set_role_self r target (m ∷ t) h = ground (
    arith,
    set_role-cons ws u r m t,
    membership_role-cons ws u m t,
    membership_role-cons ws u (if names ws u m then record m { role = r } else m)
        (set_role ws u r t),
    membership_role-set_role_self r target t,
  )

  pub membership_role-delete_member_ne :
      (v : String) (t : List Membership)
      → str_eq u v ≡ false
      → membership_role (rows_of ws (delete_member ws u t)) v ≡ membership_role (rows_of ws t) v
  membership_role-delete_member_ne v [] d = unfold delete_member in refl
  membership_role-delete_member_ne v (m ∷ t) d = ground (
    arith,
    delete_member-cons ws u m t,
    membership_role-cons ws v m t,
    membership_role-cons ws v m (delete_member ws u t),
    eq_iff m.user_id u,
    eq_iff m.user_id v,
    eq_iff u v,
    membership_role-delete_member_ne v t d,
  )

  -- Nothing is left of the user of a deletion.
  pub membership_role-delete_member_self :
      (t : List Membership)
      → membership_role (rows_of ws (delete_member ws u t)) u ≡ err (domain_error not_found 404)
  membership_role-delete_member_self [] = unfold delete_member rows_of membership_role in refl
  membership_role-delete_member_self (m ∷ t) = ground (
    arith,
    delete_member-cons ws u m t,
    membership_role-cons ws u m (delete_member ws u t),
    membership_role-delete_member_self t,
  )

  -- Other workspaces are left alone.
  pub owners-set_role_ne :
      (w : String) (r : WorkspaceRole) (t : List Membership)
      → str_eq ws w ≡ false
      → owners w (set_role ws u r t) ≡ owners w t
  owners-set_role_ne w r [] d = unfold set_role in refl
  owners-set_role_ne w r (m ∷ t) d = ground (
    arith,
    set_role-cons ws u r m t,
    owners-cons w m t,
    owners-cons w (if names ws u m then record m { role = r } else m) (set_role ws u r t),
    eq_iff m.workspace_id w,
    eq_iff m.workspace_id ws,
    eq_iff ws w,
    owners-set_role_ne w r t d,
  )

  pub owners-delete_member_ne :
      (w : String) (t : List Membership)
      → str_eq ws w ≡ false
      → owners w (delete_member ws u t) ≡ owners w t
  owners-delete_member_ne w [] d = unfold delete_member in refl
  owners-delete_member_ne w (m ∷ t) d = ground (
    arith,
    delete_member-cons ws u m t,
    owners-cons w m t,
    owners-cons w m (delete_member ws u t),
    eq_iff m.workspace_id w,
    eq_iff m.workspace_id ws,
    eq_iff ws w,
    owners-delete_member_ne w t d,
  )

  set_role-Fresh :
      (a b : String) (r : WorkspaceRole) (t : List Membership)
      → All (λ n. names a b n ≡ false) t
      → All (λ n. names a b n ≡ false) (set_role ws u r t)
  set_role-Fresh a b r [] h = unfold set_role in tt
  set_role-Fresh a b r (m ∷ t) (h, hs) =
      rw set_role-cons (ground (arith, h), set_role-Fresh a b r t hs)

  pub set_role-IsUnique :
      (r : WorkspaceRole) (t : List Membership) → IsUnique t → IsUnique (set_role ws u r t)
  set_role-IsUnique r [] h = unfold set_role in tt
  set_role-IsUnique r (m ∷ t) (h, hs) =
      let fresh = set_role-Fresh m.workspace_id m.user_id r t h in
      elim (Bool-cases (names ws u m)) [
        | inl same ↦ rw (set_role-cons, same) (fresh, set_role-IsUnique r t hs)
        | inr other ↦ rw (set_role-cons, other) (fresh, set_role-IsUnique r t hs)
      ]

  delete_member-Fresh :
      (a b : String) (t : List Membership)
      → All (λ n. names a b n ≡ false) t
      → All (λ n. names a b n ≡ false) (delete_member ws u t)
  delete_member-Fresh a b [] h = unfold delete_member in tt
  delete_member-Fresh a b (m ∷ t) (h, hs) =
      ground (arith, delete_member-cons ws u m t, delete_member-Fresh a b t hs)

  pub delete_member-IsUnique : (t : List Membership) → IsUnique t → IsUnique (delete_member ws u t)
  delete_member-IsUnique [] h = unfold delete_member in tt
  delete_member-IsUnique (m ∷ t) (h, hs) = ground (
    arith,
    delete_member-cons ws u m t,
    delete_member-Fresh m.workspace_id m.user_id t h,
    delete_member-IsUnique t hs,
  )
