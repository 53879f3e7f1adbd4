-- ===== src/Policy/Evaluate/Laws.antt =====
-- When a policy publishes a proposal on its own, and what it answers otherwise.
use mathlib.Core.Path.{subst₂}
use skillplane.Common.{
  ℕ, ◌+◌, ◌<◌, ◌≤◌, ◌≡◌, ◌≢◌, ◌↔◌, ◌⊎◌, inl, inr, refl, String, Option, none, some, true, false,
  List, [], ◌∷◌, All, Any, all, any, arith, eq_iff, str_eq, subst, sym, ◌∙◌, Bool-cases, get_or,
}
use skillplane.Access.{
  ServicePrincipalScope, ServicePrincipal, Principal, user, service, includes_scope,
}
use skillplane.Access.Authorization.Laws.{Any-of_includes, includes_of_Any}
use skillplane.Policy.{
  bump_rank, TrustedAutoPublishRule, AmendmentPolicy, review_required, trusted_auto_publish,
}
use skillplane.Policy.Evaluate.{
  AmendmentPolicyDecision, Reason, Proposal, Round, skipped, nearest, matched, auto_publish,
  credential_not_trusted, trusted_rule_matched, context_refused, limit_reached, run_rule, run_rules,
  evaluate_amendment_policy,
}

-- The decision to publish by the rule at an index.
abbrev pub published : ℕ → AmendmentPolicyDecision
published n = record {
  outcome = auto_publish;
  reason = trusted_rule_matched;
  matched_rule = some n;
}

-- When a rule, at its place in the policy, covers a proposal of a credential.
pub record Covers (s : ServicePrincipal) (p : Proposal) (index : ℕ) (rule : TrustedAutoPublishRule)
    : Type 0 where
  pub credential : rule.credential_id ≡ s.service_principal_id
  pub scopes : All (λ scope. Any (λ held. held ≡ scope) s.scopes) rule.required_scopes
  pub bump : bump_rank p.bump ≤ bump_rank rule.max_bump
  pub source :
      (rule.allowed_context_ids ≡ [])
      ⊎ ((id : String) × (p.source_context_id ≡ some id)
          × (id ≢ "")
          × Any (λ x. x ≡ id) rule.allowed_context_ids)
  pub limit :
      (rule.daily_limit ≡ none)
      ⊎ ((n : ℕ) × (rule.daily_limit ≡ some n) × (get_or (p.daily_publication_counts index) 0 < n))

all-includes :
    (held : List ServicePrincipalScope) (scopes : List ServicePrincipalScope)
    → (all (λ scope. includes_scope scope held) scopes ≡ true)
      ↔ All (λ scope. Any (λ h. h ≡ scope) held) scopes
all-includes held [] = (λ h. tt, λ h. refl)
all-includes held (x ∷ xs) =
    let (to, from) = all-includes held xs in
    (
      λ h. (Any-of_includes x held (ground arith), to (ground arith)),
      λ h. ground (arith, includes_of_Any x held h.0, from h.1),
    )

pub any-eq :
    (id : String) (xs : List String) → (any (λ x. str_eq x id) xs ≡ true) ↔ Any (λ x. x ≡ id) xs
any-eq id [] = (λ h. cc, λ h. absurd h)
any-eq id (x ∷ xs) =
    let (to, from) = any-eq id xs in
    let (same, back) = eq_iff x id in
    (
      λ h. elim (Bool-cases (str_eq x id)) [
        | inl e ↦ inl (same e)
        | inr e ↦ inr (to (ground arith))
      ],
      λ h. elim h [ inl e ↦ ground (arith, back e) | inr a ↦ ground (arith, from a) ],
    )

context_refused_iff :
    (ids : List String) (source : Option String)
    → (context_refused ids source ≡ false)
      ↔ ((ids ≡ []) ⊎ ((id : String) × (source ≡ some id) × (id ≢ "") × Any (λ x. x ≡ id) ids))
unfolding context_refused
context_refused_iff [] source = (λ h. inl refl, λ h. refl)
context_refused_iff (c ∷ cs) none = (λ h. cc, λ h. ground arith)
context_refused_iff (c ∷ cs) (some id) =
    let (to, from) = any-eq id (c ∷ cs) in
    (
      λ h. inr (id, refl, (λ e. ground (arith, eq_iff id "")), to (ground arith)),
      λ h. elim h [
        | inl e ↦ cc
        | inr (other, same, full, found) ↦
            let e : other ≡ id = cc in
            ground
              (arith, eq_iff id "", e, full, from (subst (λ y. Any (λ x. x ≡ y) (c ∷ cs)) e found))
      ],
    )

limit_reached_iff :
    (limit : Option ℕ) (count : Option ℕ)
    → (limit_reached limit count ≡ false)
      ↔ ((limit ≡ none) ⊎ ((n : ℕ) × (limit ≡ some n) × (get_or count 0 < n)))
unfolding limit_reached
limit_reached_iff none count = (λ h. inl refl, λ h. refl)
limit_reached_iff (some n) count = (λ h. inr (n, refl, ground arith), λ h. ground arith)

module _ (s : ServicePrincipal) (p : Proposal) where
  pub run_rule-Covers_iff :
      (index : ℕ) (rule : TrustedAutoPublishRule)
      → (run_rule s p index rule ≡ matched) ↔ Covers s p index rule
  unfolding run_rule
  run_rule-Covers_iff index rule =
      let (c1, c2) = eq_iff rule.credential_id s.service_principal_id in
      let (s1, s2) = all-includes s.scopes rule.required_scopes in
      let (x1, x2) = context_refused_iff rule.allowed_context_ids p.source_context_id in
      let (l1, l2) = limit_reached_iff rule.daily_limit (p.daily_publication_counts index) in
      (
        λ h. record {
          credential = c1 (ground arith);
          scopes = s1 (ground arith);
          bump = ground arith;
          source = x1 (ground arith);
          limit = l1 (ground arith);
        },
        λ c. ground (arith, c2 c.credential, s2 c.scopes, c.bump, x2 c.source, l2 c.limit),
      )

  run_rules-cons :
      (i : ℕ) (near : Reason) (r : TrustedAutoPublishRule) (rs : List TrustedAutoPublishRule)
      → (Covers s p i r × (run_rules s p i near (r ∷ rs) ≡ published i))
        ⊎ (¬ Covers s p i r
            × ((near' : Reason) × (run_rules s p i near (r ∷ rs) ≡ run_rules s p (i + 1) near' rs)))
  unfolding run_rules
  run_rules-cons i near r rs = go (run_rule s p i r) refl
    where
      go :
          (x : Round)
          → run_rule s p i r ≡ x
          → (Covers s p i r × (run_rules s p i near (r ∷ rs) ≡ published i))
            ⊎ (¬ Covers s p i r
                × ((near' : Reason) × (run_rules s p i near (r ∷ rs)
                      ≡ run_rules s p (i + 1) near' rs)))
      go skipped e =
          inr (λ c. cc (e, (run_rule-Covers_iff i r).1 c), (near, rw (e, run_rules) refl))
      go (nearest x) e =
          inr (λ c. cc (e, (run_rule-Covers_iff i r).1 c), (x, rw (e, run_rules) refl))
      go matched e = inl ((run_rule-Covers_iff i r).0 e, rw (e, run_rules) refl)

  -- The rule at index `n` is the first, from index `i` on, that covers the proposal.
  abbrev pub IsFirst : ℕ → List TrustedAutoPublishRule → ℕ → Type 0
  IsFirst i [] n = ⊥
  IsFirst i (r ∷ rs) n = (Covers s p i r × (n ≡ i)) ⊎ (¬ Covers s p i r × IsFirst (i + 1) rs n)

  run_rules-IsFirst_iff :
      (i : ℕ) (near : Reason) (rules : List TrustedAutoPublishRule) (n : ℕ)
      → (run_rules s p i near rules ≡ published n) ↔ IsFirst i rules n
  run_rules-IsFirst_iff i near [] n = (λ h. unfold run_rules in cc, λ h. absurd h)
  run_rules-IsFirst_iff i near (r ∷ rs) n =
      go (run_rules-cons i near r rs) (λ x. run_rules-IsFirst_iff (i + 1) x rs n)
    where
      go :
          (Covers s p i r × (run_rules s p i near (r ∷ rs) ≡ published i))
            ⊎ (¬ Covers s p i r
                × ((near' : Reason) × (run_rules s p i near (r ∷ rs)
                      ≡ run_rules s p (i + 1) near' rs)))
          → ((x : Reason) → (run_rules s p (i + 1) x rs ≡ published n) ↔ IsFirst (i + 1) rs n)
          → (run_rules s p i near (r ∷ rs) ≡ published n) ↔ IsFirst i (r ∷ rs) n
      go (inl (c, e)) ih =
          (λ h. inl (c, cc (e, h)), λ h. elim h [ inl x ↦ cc (e, x.1) | inr x ↦ absurd (x.0 c) ])
      go (inr (c, e)) ih =
          let (near', same) = e in
          (
            λ h. inr (c, (ih near').0 (cc (same, h))),
            λ h. elim h [ inl x ↦ absurd (c x.0) | inr x ↦ same ∙ (ih near').1 x.1 ],
          )

-- A proposal is published at once exactly if the policy trusts credentials, the principal is one,
-- and some rule covers the proposal; the decision then names the first rule that does. Anything
-- else goes to review.
pub evaluate-IsFirst_iff :
    (policy : AmendmentPolicy) (principal : Principal) (p : Proposal) (n : ℕ)
    → (evaluate_amendment_policy policy principal p ≡ published n) ↔ (
        (s : ServicePrincipal) × (rules : List TrustedAutoPublishRule) × (principal ≡ service s)
        × (policy ≡ trusted_auto_publish rules)
        × IsFirst s p 0 rules n)
unfolding evaluate_amendment_policy
evaluate-IsFirst_iff review_required principal p n =
    (λ h. cc, λ h. let (s, rules, a, b, c) = h in cc)
evaluate-IsFirst_iff (trusted_auto_publish rules) (user u) p n =
    (λ h. cc, λ h. let (s, r, a, b, c) = h in cc)
evaluate-IsFirst_iff (trusted_auto_publish rules) (service s) p n =
    let (to, from) = run_rules-IsFirst_iff s p 0 credential_not_trusted rules n in
    (
      λ h. (s, rules, refl, refl, to h),
      λ h.
          let (s', rules', a, b, c) = h in
          let e : s ≡ s' = cc in
          let f : rules ≡ rules' = cc in from (subst₂ (λ x y. IsFirst x p 0 y n) (sym e) (sym f) c),
    )

-- What holds of every rule of a policy holds of the rule that publishes.
pub IsFirst-Covers :
    (Q : TrustedAutoPublishRule → Type 0) (s : ServicePrincipal) (p : Proposal) (i n : ℕ)
    (rules : List TrustedAutoPublishRule)
    → All Q rules
    → IsFirst s p i rules n
    → (rule : TrustedAutoPublishRule) × Q rule × Covers s p n rule
IsFirst-Covers Q s p i n [] q h = absurd h
IsFirst-Covers Q s p i n (r ∷ rs) (q, qs) (inl (c, e)) = (r, q, rw e c)
IsFirst-Covers Q s p i n (r ∷ rs) (q, qs) (inr (c, f)) = IsFirst-Covers Q s p (i + 1) n rs qs f
