-- ===== src/Access/Membership/Owners.antt =====
-- The owners of a workspace under the membership handlers.
use skillplane.Common.{
  ℕ, ◌+◌, String, ◌≡◌, refl, ap, Bool, true, false, ◌&&◌, List, [], ◌∷◌, All, arith, eq_iff, str_eq,
  Bool-cases, inl, inr, ok, if◌then◌else◌,
}
use skillplane.Access.{WorkspaceRole}
use skillplane.Access.Membership.{
  Membership, is_owner, rows_of, owner_count, membership_role, names, set_role, delete_member,
}

-- The unique constraint on (workspace_id, user_id).
abbrev pub IsUnique : List Membership → Type 0
IsUnique [] = Unit
IsUnique (m ∷ t) = All (λ n. names m.workspace_id m.user_id n ≡ false) t × IsUnique t

abbrev pub owners : String → List Membership → ℕ
owners ws t = owner_count (rows_of ws t)

abbrev one_if : Bool → ℕ
one_if true = 1
one_if false = 0

names-eq :
    (ws u : String) (m n : Membership)
    → names ws u m ≡ true
    → names m.workspace_id m.user_id n ≡ names ws u n
names-eq ws u m n h = ground (arith, eq_iff m.workspace_id ws, eq_iff m.user_id u)

pub owners-cons :
    (ws : String) (m : Membership) (t : List Membership)
    → owners ws (m ∷ t) ≡ one_if (str_eq m.workspace_id ws && is_owner m.role) + owners ws t
unfolding rows_of owner_count
owners-cons ws m t = ground arith

pub membership_role-cons :
    (ws u : String) (m : Membership) (t : List Membership)
    → membership_role (rows_of ws (m ∷ t)) u
      ≡ (if names ws u m then ok m.role else membership_role (rows_of ws t) u)
unfolding rows_of membership_role
membership_role-cons ws u m t = ground arith

module _ (ws u : String) where
  Absent : List Membership → Type 0
  Absent = All (λ n. names ws u n ≡ false)

  Absent-of-named :
      (m : Membership) (t : List Membership)
      → names ws u m ≡ true
      → All (λ n. names m.workspace_id m.user_id n ≡ false) t
      → Absent t
  unfolding Absent
  Absent-of-named m [] h a = tt
  Absent-of-named m (n ∷ t) h (p, a) =
      (ground (arith, names-eq ws u m n h), Absent-of-named m t h a)

  set_role-Absent : (r : WorkspaceRole) (t : List Membership) → Absent t → set_role ws u r t ≡ t
  unfolding Absent set_role
  set_role-Absent r [] a = refl
  set_role-Absent r (m ∷ t) (p, a) = cc (set_role-Absent r t a, p)

  delete_member-Absent : (t : List Membership) → Absent t → delete_member ws u t ≡ t
  unfolding Absent delete_member
  delete_member-Absent [] a = refl
  delete_member-Absent (m ∷ t) (p, a) = rw p (ap (λ r. m ∷ r) (delete_member-Absent t a))

  pub set_role-cons :
      (r : WorkspaceRole) (m : Membership) (t : List Membership)
      → set_role ws u r (m ∷ t)
        ≡ (if names ws u m then record m { role = r } else m) ∷ set_role ws u r t
  unfolding set_role
  set_role-cons r m t = refl

  pub delete_member-cons :
      (m : Membership) (t : List Membership)
      → delete_member ws u (m ∷ t)
        ≡ (if names ws u m then delete_member ws u t else m ∷ delete_member ws u t)
  unfolding delete_member
  delete_member-cons m t = ground arith

  -- A change of role moves the number of owners by the roles it takes away and gives.
  pub owners-set_role :
      (r target : WorkspaceRole) (t : List Membership)
      → IsUnique t
      → membership_role (rows_of ws t) u ≡ ok target
      → owners ws (set_role ws u r t) + one_if (is_owner target) ≡ owners ws t + one_if (is_owner r)
  owners-set_role r target [] q h = unfold rows_of membership_role in cc
  owners-set_role r target (m ∷ t) (p, q) h = elim (Bool-cases (names ws u m)) [
    | inl same ↦
        let e : m.role ≡ target = ground (arith, membership_role-cons ws u m t) in
        let w : str_eq m.workspace_id ws ≡ true = ground arith in
        let z = set_role-Absent r t (Absent-of-named m t same p) in
        rw (set_role-cons, same, z)
          (ground (arith, owners-cons ws m t, owners-cons ws (record m { role = r }) t))
    | inr other ↦
        let ih = owners-set_role r target t q (ground (arith, membership_role-cons ws u m t)) in
        rw (set_role-cons, other)
          (omega (arith, owners-cons ws m t, owners-cons ws m (set_role ws u r t), ih))
  ]

  -- A deletion takes away the target, and an owner if the target was one.
  pub owners-delete_member :
      (target : WorkspaceRole) (t : List Membership)
      → IsUnique t
      → membership_role (rows_of ws t) u ≡ ok target
      → owners ws (delete_member ws u t) + one_if (is_owner target) ≡ owners ws t
  owners-delete_member target [] q h = unfold rows_of membership_role in cc
  owners-delete_member target (m ∷ t) (p, q) h = elim (Bool-cases (names ws u m)) [
    | inl same ↦
        let e : m.role ≡ target = ground (arith, membership_role-cons ws u m t) in
        let w : str_eq m.workspace_id ws ≡ true = ground arith in
        let z = delete_member-Absent t (Absent-of-named m t same p) in
        rw (delete_member-cons, same, z) (ground (arith, owners-cons ws m t))
    | inr other ↦
        let ih = owners-delete_member target t q (ground (arith, membership_role-cons ws u m t)) in
        rw (delete_member-cons, other)
          (omega (arith, owners-cons ws m t, owners-cons ws m (delete_member ws u t), ih))
  ]
