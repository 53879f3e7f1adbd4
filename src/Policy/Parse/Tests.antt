-- ===== src/Policy/Parse/Tests.antt =====
-- A policy that trusts one credential, and a proposal of that credential.
use skillplane.Common.{String, ◌≡◌, ◌↔◌, refl, none, some, List, [], ◌∷◌, ok, Any}
use skillplane.Common.Json.{Json, str, null, arr, obj, nil, cons, prop, end, Fields}
use skillplane.Access.{scope_of_name, ServiceRole, ServicePrincipalScope, ServicePrincipal, service}
use skillplane.Policy.{AmendmentPolicy, TrustedAutoPublishRule, trusted_auto_publish, minor, patch}
use skillplane.Policy.Evaluate.{
  run_rules, run_rule, context_refused, limit_reached, Proposal, evaluate_amendment_policy,
}
use skillplane.Policy.Evaluate.Laws.{IsFirst, published, evaluate-IsFirst_iff}
use skillplane.Policy.Parse.{
  parse_amendment_policy, strict_keys, as_record, is_text, parse_trusted, array, parse_each,
  parse_rule, required, bump_of, nonempty_array, scope_of, short_text, parse_daily_limit,
}
use skillplane.Common.Sorting.{sorted_set}
use skillplane.Common.Text.{trim, js_length}
use skillplane.Policy.Parse.Laws.{
  IsValidPolicy, parse_amendment_policy-IsValidPolicy, published-amends,
}
use skillplane.Policy.Parse.Keys.{Passes, strict_keys-Passes_iff}

abbrev bot : ServicePrincipal
bot = record {
  actor_id = "a";
  workspace_id = "w";
  display_name = none;
  service_principal_id = "p";
  role = ServiceRole.editor;
  scopes = ServicePrincipalScope.skills_read ∷ ServicePrincipalScope.skills_amend ∷ [];
  delegated_user_id = none;
}

abbrev proposal : Proposal
proposal = record {
  bump = patch;
  source_context_id = some "c";
  daily_publication_counts = λ i. some 2;
}

-- The first rule names another credential.
abbrev rule : String → TrustedAutoPublishRule
rule credential = record {
  credential_id = credential;
  required_scopes = ServicePrincipalScope.skills_amend ∷ [];
  max_bump = minor;
  allowed_context_ids = "c" ∷ [];
  daily_limit = none;
}

abbrev trusted : AmendmentPolicy
trusted = trusted_auto_publish (rule "q" ∷ rule "p" ∷ [])

abbrev entry : String → Json
entry credential = obj (
    prop "credentialId" (str credential) (
      prop "requiredScopes" (arr (cons (str "skills:amend") nil)) (
        prop "maxBump" (str "minor")
          (prop "allowedContextIds" (arr (cons (str "c") nil)) (prop "dailyLimit" null end)))))

abbrev document : Json
document = obj (
    prop "mode" (str "trusted_auto_publish")
      (prop "rules" (arr (cons (entry "q") (cons (entry "p") nil))) end))

published_test : evaluate_amendment_policy trusted (service bot) proposal ≡ published 1
unfolding evaluate_amendment_policy run_rules run_rule context_refused limit_reached
published_test = refl

parsed_test : parse_amendment_policy document ≡ ok trusted
unfolding parse_amendment_policy as_record strict_keys is_text parse_trusted array parse_each
    parse_rule required bump_of nonempty_array scope_of scope_of_name sorted_set short_text trim
    js_length parse_daily_limit
parsed_test = refl

evaluate-IsFirst_iff_example :
    (evaluate_amendment_policy trusted (service bot) proposal ≡ published 1) ↔ (
      (s : ServicePrincipal) × (rules : List TrustedAutoPublishRule) × (service bot ≡ service s)
      × (trusted ≡ trusted_auto_publish rules)
      × IsFirst s proposal 0 rules 1)
evaluate-IsFirst_iff_example = evaluate-IsFirst_iff trusted (service bot) proposal 1

parse_amendment_policy-IsValidPolicy_example : IsValidPolicy trusted
parse_amendment_policy-IsValidPolicy_example =
    parse_amendment_policy-IsValidPolicy document trusted parsed_test

published-amends_example :
    (s : ServicePrincipal) × (service bot ≡ service s)
    × Any (λ held. held ≡ ServicePrincipalScope.skills_amend) s.scopes
published-amends_example =
    published-amends document trusted (service bot) proposal 1 parsed_test published_test

-- The key behind the empty one is not refused.
abbrev hidden : Fields
hidden = prop "" null (prop "owner" null (prop "mode" (str "review_required") end))

strict_keys-Passes_iff_example :
    (strict_keys hidden ("mode" ∷ "rules" ∷ []) "policy" ≡ ok tt)
    ↔ Passes ("mode" ∷ "rules" ∷ []) ("" ∷ "owner" ∷ "mode" ∷ [])
strict_keys-Passes_iff_example = strict_keys-Passes_iff hidden ("mode" ∷ "rules" ∷ []) "policy"
