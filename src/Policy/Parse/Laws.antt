-- ===== src/Policy/Parse/Laws.antt =====
-- What a parsed policy satisfies, and what the key check lets through.
use skillplane.Common.{
  ℕ, ◌+◌, ◌≤◌, ◌≡◌, ◌≢◌, ◌⊎◌, inl, inr, refl, String, Option, none, some, Bool, true, false, List,
  [], ◌∷◌, All, Any, length, arith, eq_iff, str_eq, subst, ok, require, ensures-ok, ensures-bind,
  >>=-eq-ok, if◌then◌else◌,
}
use skillplane.Common.Text.{trim, js_length, str_lt}
use skillplane.Common.Int.{pos}
use skillplane.Common.Json.{Json, null, num, whole, str, arr, Fields, property}
use skillplane.Common.Sorting.{sorted_set-All, length-sorted_set}
use skillplane.Common.Errors.{DomainError}
use skillplane.Access.{skills_amend, includes_scope, ServicePrincipal, Principal, service}
use skillplane.Access.Authorization.Laws.{Any-of_includes}
use skillplane.Policy.{
  TrustedAutoPublishRule, AmendmentPolicy, review_required, trusted_auto_publish,
}
use skillplane.Policy.Evaluate.{Proposal, evaluate_amendment_policy}
use skillplane.Policy.Evaluate.Laws.{IsFirst-Covers, evaluate-IsFirst_iff, published}
use skillplane.Policy.Parse.{
  Parsed, at_index, as_record, strict_keys, short_text, parse_each, array, nonempty_array, bump_of,
  required, scope_of, parse_daily_limit, scope_set, parse_rule, parse_review_required,
  parse_trusted, parse_amendment_policy, is_text, is_undefined,
}

ok-injective : {A : Type 0} {a b : A} → ◌≡◌ {A = Parsed A} (ok a) (ok b) → a ≡ b
ok-injective e = cc

require-true : (b : Bool) (e : DomainError) {u : Unit {0}} → require b e ≡ ok u → b ≡ true
require-true true e h = refl
require-true false e h = cc

ensures-if :
    {A : Type 0} (P : A → Type 0) (t : Bool) (x y : Parsed A)
    → ((b : A) → x ≡ ok b → P b)
    → ((b : A) → y ≡ ok b → P b)
    → (b : A) → (if t then x else y) ≡ ok b
    → P b
ensures-if P true x y h k = h
ensures-if P false x y h k = k

All-Any : {A : Type 0} (P : A → Type 0) (a : A) (xs : List A) → All P xs → Any (λ x. x ≡ a) xs → P a
All-Any P a (x ∷ xs) (h, hs) (inl e) = subst P e h
All-Any P a (x ∷ xs) (h, hs) (inr m) = All-Any P a xs hs m
All-Any P a [] h m = absurd m

-- A text that `shortText` returns: not empty, and at most 240 UTF-16 units.
abbrev pub IsShort : String → Type 0
IsShort s = (s ≢ "") × (js_length s ≤ 240)

pub record IsValidRule (r : TrustedAutoPublishRule) : Type 0 where
  pub credential : IsShort r.credential_id
  pub amends : Any (λ held. held ≡ skills_amend) r.required_scopes
  pub few : length r.allowed_context_ids ≤ 100
  pub contexts : All IsShort r.allowed_context_ids
  pub limited :
      (r.daily_limit ≡ none) ⊎ ((n : ℕ) × (r.daily_limit ≡ some n) × (1 ≤ n) × (n ≤ 10000))

abbrev pub IsValidPolicy : AmendmentPolicy → Type 0
IsValidPolicy review_required = Unit
IsValidPolicy (trusted_auto_publish rules) =
    (1 ≤ length rules) × (length rules ≤ 50) × All IsValidRule rules

short_text-IsShort :
    (v : Json) (field : String) (s : String) → short_text v field ≡ ok s → IsShort s
unfolding short_text
short_text-IsShort (str t) field s h = ground (arith, eq_iff (trim t) "")
short_text-IsShort null field s h = cc
short_text-IsShort _ field s h = cc

parse_each-All :
    {A : Type 0} (P : A → Type 0) (parse : Json → String → Parsed A)
    → ((v : Json) (f : String) (a : A) → parse v f ≡ ok a → P a)
    → (field : String) (i : ℕ) (vs : List Json) (as' : List A)
    → parse_each parse field i vs ≡ ok as'
    → All P as' × (length as' ≡ length vs)
unfolding parse_each
parse_each-All P parse h field i [] as' e =
    subst (λ xs. All P xs × (length xs ≡ 0)) (ok-injective e) (tt, refl)
parse_each-All P parse h field i (v ∷ vs) as' e =
    let (a, e1, k) = >>=-eq-ok (parse v (at_index field i)) _ e in
    let (rest, e2, l) = >>=-eq-ok (parse_each parse field (i + 1) vs) _ k in
    let (good, long) = parse_each-All P parse h field (i + 1) vs rest e2 in
    subst (λ xs. All P xs × (length xs ≡ length (v ∷ vs))) (ok-injective l)
      ((h v (at_index field i) a e1, good), omega (arith, long))

parse_daily_limit-limited :
    (v : Json) (field : String) (limit : Option ℕ)
    → parse_daily_limit v field ≡ ok limit
    → (limit ≡ none) ⊎ ((n : ℕ) × (limit ≡ some n) × (1 ≤ n) × (n ≤ 10000))
unfolding parse_daily_limit
parse_daily_limit-limited null field limit h = ground arith
parse_daily_limit-limited (num (whole (pos n))) field limit h =
    inr (n, ground arith, ground arith, ground arith)
parse_daily_limit-limited _ field limit h = cc

array-bounds :
    (v : Json) (lo hi : ℕ) (field : String) (vs : List Json)
    → array v lo hi field ≡ ok vs
    → (lo ≤ length vs) × (length vs ≤ hi)
unfolding array
array-bounds (arr xs) lo hi field vs h = ground arith
array-bounds _ lo hi field vs h = cc

parse_rule-IsValidRule :
    (v : Json) (field : String) (r : TrustedAutoPublishRule)
    → parse_rule v field ≡ ok r
    → IsValidRule r
unfolding parse_rule
parse_rule-IsValidRule v field = ensures-bind IsValidRule (as_record v field) _ λ rule _.
    ensures-bind IsValidRule (strict_keys rule _ field) _ λ _ _.
      ensures-bind IsValidRule (required (bump_of (property "maxBump" rule)) _) _ λ bump _.
        ensures-bind IsValidRule (nonempty_array (property "requiredScopes" rule) _) _ λ given _.
          ensures-bind IsValidRule (parse_each (λ v. required (scope_of v)) _ 0 given) _ λ scopes _.
            ensures-bind IsValidRule (require (includes_scope skills_amend (scope_set scopes)) _) _
              λ _ amends.
                ensures-bind IsValidRule (array (property "allowedContextIds" rule) 0 100 _) _
                  λ contexts few.
                    ensures-bind IsValidRule (parse_each short_text _ 0 contexts) _ λ ids texts.
                      ensures-bind IsValidRule (parse_daily_limit (property "dailyLimit" rule) _) _
                        λ limit limited.
                          ensures-bind IsValidRule (short_text (property "credentialId" rule) _) _
                            λ credential name.
                              let (short, long) =
                                parse_each-All IsShort short_text short_text-IsShort _ 0 contexts
                                  ids texts in
                              ensures-ok IsValidRule _ (record {
                                credential =
                                    short_text-IsShort (property "credentialId" rule) _ credential
                                      name;
                                amends =
                                    Any-of_includes skills_amend (scope_set scopes)
                                      (require-true _ _ amends);
                                few = omega (
                                  arith,
                                  length-sorted_set str_eq str_lt ids,
                                  long,
                                  (array-bounds (property "allowedContextIds" rule) 0 100 _ contexts
                                      few).1,
                                );
                                contexts = sorted_set-All str_eq str_lt IsShort ids short;
                                limited =
                                    parse_daily_limit-limited (property "dailyLimit" rule) _ limit
                                      limited;
                              })

parse_review_required-IsValidPolicy :
    (fields : Fields) (policy : AmendmentPolicy)
    → parse_review_required fields ≡ ok policy
    → IsValidPolicy policy
unfolding parse_review_required
parse_review_required-IsValidPolicy fields =
    ensures-bind IsValidPolicy (require (is_undefined (property "rules" fields)) _) _
      λ _ _. ensures-ok IsValidPolicy review_required tt

parse_trusted-IsValidPolicy :
    (fields : Fields) (policy : AmendmentPolicy)
    → parse_trusted fields ≡ ok policy
    → IsValidPolicy policy
unfolding parse_trusted
parse_trusted-IsValidPolicy fields =
    let mode = is_text "trusted_auto_publish" (property "mode" fields) in
    ensures-bind IsValidPolicy (require mode _) _ λ _ _.
      ensures-bind IsValidPolicy (array (property "rules" fields) 1 50 _) _ λ entries few.
        ensures-bind IsValidPolicy (parse_each parse_rule _ 0 entries) _ λ rules parsed.
          let (valid, long) =
            parse_each-All IsValidRule parse_rule parse_rule-IsValidRule _ 0 entries rules parsed in
          let (lo, hi) = array-bounds (property "rules" fields) 1 50 _ entries few in
          ensures-ok IsValidPolicy (trusted_auto_publish rules)
            (omega (arith, long), omega (arith, long), valid)

-- A parsed policy is well formed: it has 1 to 50 rules if it trusts any; each rule demands
-- skills:amend, allows at most 100 contexts, limits a day to nothing or to 1 to 10,000
-- publications, and names credentials and contexts by texts of 1 to 240 units.
pub parse_amendment_policy-IsValidPolicy :
    (v : Json) (policy : AmendmentPolicy)
    → parse_amendment_policy v ≡ ok policy
    → IsValidPolicy policy
unfolding parse_amendment_policy
parse_amendment_policy-IsValidPolicy v =
    ensures-bind IsValidPolicy (as_record v "policy") _ λ fields _.
      ensures-bind IsValidPolicy (strict_keys fields _ "policy") _ λ _ _.
        ensures-if IsValidPolicy (is_text "review_required" (property "mode" fields))
          (parse_review_required fields) (parse_trusted fields)
          (parse_review_required-IsValidPolicy fields) (parse_trusted-IsValidPolicy fields)

-- Under a policy that was parsed, a proposal is published without review only for a service
-- credential that holds the scope skills:amend.
pub published-amends :
    (v : Json) (policy : AmendmentPolicy) (principal : Principal) (p : Proposal) (n : ℕ)
    → parse_amendment_policy v ≡ ok policy
    → evaluate_amendment_policy policy principal p ≡ published n
    → (s : ServicePrincipal) × (principal ≡ service s) × Any (λ held. held ≡ skills_amend) s.scopes
published-amends v policy principal p n parsed e =
    let (s, rules, who, trusted, first) = (evaluate-IsFirst_iff policy principal p n).0 e in
    let valid : IsValidPolicy (trusted_auto_publish rules) =
      subst IsValidPolicy trusted (parse_amendment_policy-IsValidPolicy v policy parsed) in
    let (rule, good, covers) = IsFirst-Covers IsValidRule s p 0 n rules valid.2 first in
    (s, who, All-Any _ _ rule.required_scopes covers.scopes good.amends)
