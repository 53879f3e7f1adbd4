-- ===== src/Policy/Parse.antt =====
-- `parseAmendmentPolicy` of packages/domain/src/amendment-policy.ts. A `DomainError` keeps the path
-- of the field at fault.
pub mod Laws
pub mod Keys
mod Tests
use Prim.Native.String
use skillplane.Common.{
  ℕ, zero, suc, ◌+◌, ◌/◌, ◌%◌, String, Option, none, some, Bool, true, false, not, ◌&&◌, ◌||◌, List,
  [], ◌∷◌, any, find, length, get_elem?, get_or, leb, ltb, str_eq, Result, ok, err, ◌>>=◌, ◌>>◌,
  require, if◌then◌else◌,
}
use skillplane.Common.Text.{trim, js_length, str_lt}
use skillplane.Common.Int.{pos}
use skillplane.Common.Json.{
  Json, undefined, null, num, whole, str, arr, obj, Items, nil, cons, Fields, elements, keys,
  property, is_safe_integer,
}
use skillplane.Common.Sorting.{sorted_set}
use skillplane.Common.Errors.{DomainError, field_error, amendment_policy_invalid}
use skillplane.Access.{
  ServicePrincipalScope, skills_amend, scope_name, scope_of_name, includes_scope,
}
use skillplane.Policy.{
  SemanticBump, patch, minor, major, TrustedAutoPublishRule, AmendmentPolicy, review_required,
  trusted_auto_publish,
}

abbrev pub Parsed : Type 0 → Type 0
Parsed A = Result DomainError A

infixr 65 ◌+s◌
abbrev ◌+s◌ : String → String → String
a +s b = String.◌++◌ a b

digit : ℕ → String
digit n =
    get_or (get_elem? ("0" ∷ "1" ∷ "2" ∷ "3" ∷ "4" ∷ "5" ∷ "6" ∷ "7" ∷ "8" ∷ "9" ∷ []) (n % 10)) ""

-- `n` has fewer than `n + 1` digits.
decimal_from : ℕ → ℕ → String → String
decimal_from zero n acc = acc
decimal_from (suc f) n acc =
    let rest = decimal_from f (n / 10) (digit n +s acc) in if ltb n 10 then digit n +s acc else rest

-- `String(index)`
pub decimal : ℕ → String
unfolding decimal_from digit
decimal n = decimal_from (n + 1) n ""

abbrev pub invalid : String → DomainError
invalid field = field_error amendment_policy_invalid 400 field

as_record : Json → String → Parsed Fields
as_record (obj fs) field = ok fs
as_record _ field = err (invalid field)

allowed_key : List String → String → Bool
allowed_key allowed key = any (λ a. str_eq a key) allowed

-- `if (key) invalid(…)`: the first key that is not allowed is refused unless it is empty.
refuse_key : Option String → String → Parsed (Unit {0})
refuse_key none field = ok tt
refuse_key (some key) field = if str_eq key "" then ok tt else err (invalid (field +s "." +s key))

unfoldable pub strict_keys : Fields → List String → String → Parsed (Unit {0})
unfolding allowed_key refuse_key
strict_keys fs allowed field = refuse_key (find (λ k. not (allowed_key allowed k)) (keys fs)) field

unfoldable pub short_text : Json → String → Parsed String
short_text (str s) field =
    if str_eq (trim s) "" || ltb 240 (js_length (trim s)) then err (invalid field) else ok (trim s)
short_text _ field = err (invalid field)

abbrev bump_of_name : String → Option SemanticBump
bump_of_name s =
    if str_eq s "patch"
    then some patch
    else if str_eq s "minor"
    then some minor
    else if str_eq s "major"
    then some major
    else none

-- `["patch", "minor", "major"].includes(String(v))`, with the bump that `String(v)` names: an array
-- of one element reads as that element.
mutual
  bump_of : Json → Option SemanticBump
  bump_of (str s) = bump_of_name s
  bump_of (arr xs) = bump_of_items xs
  bump_of _ = none

  bump_of_items : Items → Option SemanticBump
  bump_of_items nil = none
  bump_of_items (cons v nil) = bump_of v
  bump_of_items (cons v (cons w vs)) = none

scope_of : Json → Option ServicePrincipalScope
scope_of (str s) = scope_of_name s
scope_of _ = none

required : {A : Type 0} → Option A → String → Parsed A
required none field = err (invalid field)
required (some a) field = ok a

-- `xs.map((x, index) => parse(x, `${field}[${index}]`))`, where `parse` may throw
abbrev pub at_index : String → ℕ → String
at_index field index = field +s "[" +s decimal index +s "]"

unfoldable pub parse_each :
    {A : Type 0} → (Json → String → Parsed A) → String → ℕ → List Json → Parsed (List A)
unfolding decimal
parse_each parse field index [] = ok []
parse_each parse field index (v ∷ vs) = do
  a ← parse v (at_index field index)
  rest ← parse_each parse field (index + 1) vs
  ok (a ∷ rest)

array : Json → ℕ → ℕ → String → Parsed (List Json)
array (arr xs) lo hi field =
    if ltb (length (elements xs)) lo || ltb hi (length (elements xs))
    then err (invalid field)
    else ok (elements xs)
array _ lo hi field = err (invalid field)

-- An array with at least one element.
nonempty_array : Json → String → Parsed (List Json)
nonempty_array (arr nil) field = err (invalid field)
nonempty_array (arr (cons x xs)) field = ok (x ∷ elements xs)
nonempty_array _ field = err (invalid field)

-- `null`, or a safe integer from 1 to 10,000
unfoldable pub parse_daily_limit : Json → String → Parsed (Option ℕ)
parse_daily_limit null field = ok none
parse_daily_limit (num (whole (pos n))) field =
    if not (is_safe_integer (num (whole (pos n)))) || ltb n 1 || ltb 10000 n
    then err (invalid field)
    else ok (some n)
parse_daily_limit _ field = err (invalid field)

abbrev scope_set : List ServicePrincipalScope → List ServicePrincipalScope
scope_set =
    sorted_set (λ a b. str_eq (scope_name a) (scope_name b))
      (λ a b. str_lt (scope_name a) (scope_name b))

abbrev text_set : List String → List String
text_set = sorted_set str_eq str_lt

-- `{ field }` of the error names the entry; the prefix is `policy.rules[index]`.
pub parse_rule : Json → String → Parsed TrustedAutoPublishRule
parse_rule entry field = do
  rule ← as_record entry field
  strict_keys rule
      ("credentialId" ∷ "requiredScopes" ∷ "maxBump" ∷ "allowedContextIds" ∷ "dailyLimit" ∷ [])
      field
  bump ← required (bump_of (property "maxBump" rule)) (field +s ".maxBump")
  given ← nonempty_array (property "requiredScopes" rule) (field +s ".requiredScopes")
  scopes ← parse_each (λ v. required (scope_of v)) (field +s ".requiredScopes") 0 given
  let required_scopes = scope_set scopes
  require (includes_scope skills_amend required_scopes) (invalid (field +s ".requiredScopes"))
  contexts ← array (property "allowedContextIds" rule) 0 100 (field +s ".allowedContextIds")
  ids ← parse_each short_text (field +s ".allowedContextIds") 0 contexts
  limit ← parse_daily_limit (property "dailyLimit" rule) (field +s ".dailyLimit")
  credential ← short_text (property "credentialId" rule) (field +s ".credentialId")
  ok (record {
    credential_id = credential;
    required_scopes = required_scopes;
    max_bump = bump;
    allowed_context_ids = text_set ids;
    daily_limit = limit;
  })

is_undefined : Json → Bool
is_undefined undefined = true
is_undefined _ = false

is_text : String → Json → Bool
is_text s (str t) = str_eq t s
is_text s _ = false

-- The rest of a policy whose mode is `review_required`, and of any other.
pub parse_review_required : Fields → Parsed AmendmentPolicy
parse_review_required policy = do
  require (is_undefined (property "rules" policy)) (invalid "policy.rules")
  ok review_required

pub parse_trusted : Fields → Parsed AmendmentPolicy
parse_trusted policy = do
  require (is_text "trusted_auto_publish" (property "mode" policy)) (invalid "policy.mode")
  entries ← array (property "rules" policy) 1 50 "policy.rules"
  rules ← parse_each parse_rule "policy.rules" 0 entries
  ok (trusted_auto_publish rules)

pub parse_amendment_policy : Json → Parsed AmendmentPolicy
parse_amendment_policy value = do
  policy ← as_record value "policy"
  strict_keys policy ("mode" ∷ "rules" ∷ []) "policy"
  if is_text "review_required" (property "mode" policy)
      then parse_review_required policy
      else parse_trusted policy
