-- ===== src/Access/Authorization/Laws.antt =====
-- Authorization against the hierarchy of roles and the scopes of a credential.
use text.Mathlib.TextPositions.{eq_refl}
use skillplane.Common.{
  ℕ, ◌≤◌, ◌≡◌, ◌≢◌, ◌↔◌, ◌⊎◌, inl, inr, refl, Option, none, some, Bool, true, false, not, List, [],
  ◌∷◌, Any, arith, str_eq, leb, Bool-cases, ok, err, if◌then◌else◌,
}
use skillplane.Common.Errors.{auth_scope_required, domain_error, authorization_error}
use skillplane.Access.{
  WorkspaceRole, ServicePrincipalScope, scope_name, scope_name-injective, ServicePrincipal,
  Principal, user, service, as_role, includes_scope,
}
use skillplane.Access.Authorization.{
  WorkspaceAction, workspace_read, workspace_update, members_read, members_write, skills_read,
  skills_write, skills_amend, skills_publish, contexts_read, contexts_write, analytics_read,
  audit_read, workspace_delete, role_has, action_scope, has_scope, misses_scope, can_perform,
  lacks_scope, authorize,
}

abbrev pub rank : WorkspaceRole → ℕ
rank WorkspaceRole.viewer = 0
rank WorkspaceRole.editor = 1
rank WorkspaceRole.admin = 2
rank WorkspaceRole.owner = 3

-- The rank of the lowest role that may do what the action names: reading is for everyone but for
-- the audit log, changing skills and contexts is for editors, the workspace and its people are
-- for admins, and the end of a workspace is for owners.
abbrev pub needed_rank : WorkspaceAction → ℕ
needed_rank workspace_read = 0
needed_rank members_read = 0
needed_rank skills_read = 0
needed_rank contexts_read = 0
needed_rank analytics_read = 0
needed_rank skills_write = 1
needed_rank skills_amend = 1
needed_rank contexts_write = 1
needed_rank workspace_update = 2
needed_rank members_write = 2
needed_rank skills_publish = 2
needed_rank audit_read = 2
needed_rank workspace_delete = 3

role_has-eq :
    (r : WorkspaceRole) (a : WorkspaceAction) → role_has r a ≡ leb (needed_rank a) (rank r)
unfolding role_has
role_has-eq WorkspaceRole.viewer workspace_read = refl
role_has-eq WorkspaceRole.editor workspace_read = refl
role_has-eq WorkspaceRole.admin workspace_read = refl
role_has-eq WorkspaceRole.owner workspace_read = refl
role_has-eq _ _ = refl

pub Any-of_includes :
    (scope : ServicePrincipalScope) (held : List ServicePrincipalScope)
    → includes_scope scope held ≡ true
    → Any (λ h. h ≡ scope) held
Any-of_includes scope [] e = cc
Any-of_includes scope (h ∷ held) e = elim (Bool-cases (str_eq (scope_name h) (scope_name scope))) [
  | inl same ↦ inl (scope_name-injective h scope same)
  | inr other ↦ inr (Any-of_includes scope held (ground arith))
]

pub includes_of_Any :
    (scope : ServicePrincipalScope) (held : List ServicePrincipalScope)
    → Any (λ h. h ≡ scope) held
    → includes_scope scope held ≡ true
includes_of_Any scope (h ∷ held) (inl e) = rw (e, eq_refl) refl
includes_of_Any scope (h ∷ held) (inr a) = ground (arith, includes_of_Any scope held a)
includes_of_Any scope [] a = absurd a

-- What each principal may do: a user by the role alone, a service by its role and by the scope of
-- the action, which it holds; an action with no scope is for users.
abbrev pub IsPermitted : Principal → WorkspaceAction → Type 0
IsPermitted (user u) a = needed_rank a ≤ rank u.role
IsPermitted (service s) a =
    (needed_rank a ≤ rank (as_role s.role))
    × ((scope : ServicePrincipalScope) × (action_scope a ≡ some scope)
        × Any (λ held. held ≡ scope) s.scopes)

has_scope_iff :
    (o : Option ServicePrincipalScope) (held : List ServicePrincipalScope)
    → (has_scope o held ≡ true)
      ↔ ((scope : ServicePrincipalScope) × (o ≡ some scope) × Any (λ h. h ≡ scope) held)
unfolding has_scope
has_scope_iff none held = (λ e. cc, λ h. cc (h.1))
has_scope_iff (some scope) held = (
  λ e. (scope, refl, Any-of_includes scope held e),
  λ h.
      let (other, same, found) = h in
      let e : scope ≡ other = cc in rw e (includes_of_Any other held found),
)

can_perform_iff : (p : Principal) (a : WorkspaceAction) → (can_perform p a ≡ true) ↔ IsPermitted p a
unfolding can_perform
can_perform_iff (user u) a = ground (arith, role_has-eq u.role a)
can_perform_iff (service s) a =
    let (to, from) = has_scope_iff (action_scope a) s.scopes in
    (
      λ h. (ground (arith, role_has-eq (as_role s.role) a), to (ground arith)),
      λ h. ground (arith, role_has-eq (as_role s.role) a, h.0, from h.1),
    )

not-has_scope-misses_scope :
    (o : Option ServicePrincipalScope) (held : List ServicePrincipalScope)
    → misses_scope o held ≡ true
    → has_scope o held ≡ false
unfolding misses_scope has_scope
not-has_scope-misses_scope none held h = cc
not-has_scope-misses_scope (some scope) held h = ground arith

-- The first test of `authorize` hides nothing that would pass the second.
not-can_perform-lacks_scope :
    (p : Principal) (a : WorkspaceAction) → lacks_scope p a ≡ true → can_perform p a ≡ false
unfolding lacks_scope can_perform
not-can_perform-lacks_scope (user u) a h = cc
not-can_perform-lacks_scope (service s) a h =
    ground (arith, not-has_scope-misses_scope (action_scope a) s.scopes)

-- `authorize` lets a principal through exactly for what the principal may do.
pub authorize-IsPermitted_iff :
    (p : Principal) (a : WorkspaceAction) → (authorize p a ≡ ok tt) ↔ IsPermitted p a
unfolding authorize
authorize-IsPermitted_iff p a =
    let (to, from) = can_perform_iff p a in
    let hidden = not-can_perform-lacks_scope p a in
    (λ h. to (ground (arith, hidden)), λ h. ground (arith, from h, hidden))

misses_scope_iff :
    (o : Option ServicePrincipalScope) (held : List ServicePrincipalScope)
    → (misses_scope o held ≡ true)
      ↔ ((scope : ServicePrincipalScope) × (o ≡ some scope) × ¬ Any (λ h. h ≡ scope) held)
unfolding misses_scope
misses_scope_iff none held = (λ e. cc, λ h. cc (h.1))
misses_scope_iff (some scope) held = (
  λ e. (scope, refl, λ found. cc (e, includes_of_Any scope held found)),
  λ h.
      let (other, same, missing) = h in
      let e : scope ≡ other = cc in
      elim (Bool-cases (includes_scope scope held)) [
        | inl found ↦ absurd (missing (rw (← e) (Any-of_includes scope held found)))
        | inr lost ↦ rw lost
      ],
)

-- A service whose role allows the action, and which does not hold the scope that the action has.
abbrev pub NeedsScope : Principal → WorkspaceAction → Type 0
NeedsScope (user u) a = ⊥
NeedsScope (service s) a =
    (needed_rank a ≤ rank (as_role s.role))
    × ((scope : ServicePrincipalScope) × (action_scope a ≡ some scope)
        × ¬ Any (λ held. held ≡ scope) s.scopes)

lacks_scope_iff : (p : Principal) (a : WorkspaceAction) → (lacks_scope p a ≡ true) ↔ NeedsScope p a
unfolding lacks_scope
lacks_scope_iff (user u) a = (λ h. cc, λ h. absurd h)
lacks_scope_iff (service s) a =
    let (to, from) = misses_scope_iff (action_scope a) s.scopes in
    (
      λ h. (ground (arith, role_has-eq (as_role s.role) a), to (ground arith)),
      λ h. ground (arith, role_has-eq (as_role s.role) a, h.0, from h.1),
    )

plain_refusal :
    (lacks can : Bool)
    → lacks ≢ true
    → can ≢ true
    → (if lacks
        then err (domain_error auth_scope_required 403)
        else if not can
        then err authorization_error
        else ok (tt {0}))
      ≡ err authorization_error
plain_refusal lacks can l c = ground arith

-- A refusal asks for a scope exactly where the principal is a service whose role allows the
-- action, and which does not hold the scope that the action has; and it is the plain refusal
-- exactly where the action is neither allowed nor wants for that scope alone.
pub authorize-refusal :
    (p : Principal) (a : WorkspaceAction)
    → ((authorize p a ≡ err (domain_error auth_scope_required 403)) ↔ NeedsScope p a)
      × ((authorize p a ≡ err authorization_error) ↔ (¬ IsPermitted p a × ¬ NeedsScope p a))
unfolding authorize
authorize-refusal p a =
    let (to, from) = lacks_scope_iff p a in
    let (able, can) = can_perform_iff p a in
    let hidden = not-can_perform-lacks_scope p a in
    (
      (λ h. to (ground arith), λ h. ground (arith, from h)),
      (
        λ h. (λ x. ground (arith, can x, hidden), λ x. ground (arith, from x)),
        λ h.
            plain_refusal (lacks_scope p a) (can_perform p a) (λ e. h.1 (to e)) (λ e. h.0 (able e)),
      ),
    )

-- No credential of a service publishes, or changes or deletes the workspace, whatever its role and
-- scopes: `authorize` answers with the plain refusal.
pub authorize-service :
    (s : ServicePrincipal) (a : WorkspaceAction)
    → (a ≡ skills_publish) ⊎ (a ≡ workspace_update) ⊎ (a ≡ workspace_delete)
    → authorize (service s) a ≡ err authorization_error
unfolding authorize lacks_scope can_perform has_scope misses_scope action_scope
authorize-service s a (inl e) = rw e (ground arith)
authorize-service s a (inr (inl e)) = rw e (ground arith)
authorize-service s a (inr (inr e)) = rw e (ground arith)
