-- ===== src/Policy/Evaluate.antt =====
-- `evaluateAmendmentPolicy` of packages/domain/src/amendment-policy.ts
pub mod Laws
use skillplane.Common.{
  ℕ, ◌+◌, String, Option, none, some, Bool, true, false, not, ◌&&◌, ◌||◌, List, [], ◌∷◌, all, any,
  leb, ltb, get_or, str_eq, if◌then◌else◌,
}
use skillplane.Access.{
  ServicePrincipalScope, ServicePrincipal, Principal, user, service, includes_scope,
}
use skillplane.Policy.{
  SemanticBump, bump_rank, TrustedAutoPublishRule, AmendmentPolicy, review_required,
  trusted_auto_publish,
}

pub data Outcome : Type 0 where
  needs_review auto_publish : Outcome

pub data Reason : Type 0 where
  policy_requires_review human_principal credential_not_trusted scope_requirement_not_met
        bump_exceeds_limit context_not_allowed daily_limit_reached trusted_rule_matched :
      Reason

pub record AmendmentPolicyDecision : Type 0 where
  pub outcome : Outcome
  pub reason : Reason
  pub matched_rule : Option ℕ

abbrev pub review : Reason → AmendmentPolicyDecision
review r = record { outcome = needs_review; reason = r; matched_rule = none }

-- What one round of the loop does: `continue` at once, `continue` with a new `nearest`, or return.
pub data Round : Type 0 where
  skipped : Round
  nearest : Reason → Round
  matched : Round

-- The proposal that a policy is asked about.
pub record Proposal : Type 0 where
  pub bump : SemanticBump
  pub source_context_id : Option String
  pub daily_publication_counts : ℕ → Option ℕ

-- `ids.length > 0 && (!id || !ids.includes(id))`; the empty string is no id.
unfoldable pub context_refused : List String → Option String → Bool
context_refused [] source = false
context_refused (c ∷ cs) none = true
context_refused (c ∷ cs) (some id) = str_eq id "" || not (any (λ x. str_eq x id) (c ∷ cs))

-- `dailyLimit !== null && (counts.get(index) ?? 0) >= dailyLimit`
unfoldable pub limit_reached : Option ℕ → Option ℕ → Bool
limit_reached none count = false
limit_reached (some limit) count = leb limit (get_or count 0)

unfoldable pub run_rule : ServicePrincipal → Proposal → ℕ → TrustedAutoPublishRule → Round
run_rule s p index rule =
    if not (str_eq rule.credential_id s.service_principal_id)
    then skipped
    else if not (all (λ scope. includes_scope scope s.scopes) rule.required_scopes)
    then nearest scope_requirement_not_met
    else if ltb (bump_rank rule.max_bump) (bump_rank p.bump)
    then nearest bump_exceeds_limit
    else if context_refused rule.allowed_context_ids p.source_context_id
    then nearest context_not_allowed
    else if limit_reached rule.daily_limit (p.daily_publication_counts index)
    then nearest daily_limit_reached
    else matched

-- The loop over `policy.rules.entries()`
unfoldable pub run_rules :
    ServicePrincipal → Proposal → ℕ → Reason → List TrustedAutoPublishRule → AmendmentPolicyDecision
run_rules s p index near [] = review near
run_rules s p index near (rule ∷ rules) = elim (run_rule s p index rule) [
  | skipped ↦ run_rules s p (index + 1) near rules
  | nearest r ↦ run_rules s p (index + 1) r rules
  | matched ↦ record {
    outcome = auto_publish;
    reason = trusted_rule_matched;
    matched_rule = some index;
  }
]

unfoldable pub evaluate_amendment_policy :
    AmendmentPolicy → Principal → Proposal → AmendmentPolicyDecision
evaluate_amendment_policy review_required principal p = review policy_requires_review
evaluate_amendment_policy (trusted_auto_publish rules) (user u) p = review human_principal
evaluate_amendment_policy (trusted_auto_publish rules) (service s) p =
    run_rules s p 0 credential_not_trusted rules
