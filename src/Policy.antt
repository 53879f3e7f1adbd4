-- ===== src/Policy.antt =====
-- The amendment policies of packages/domain/src/amendment-policy.ts.
pub mod Evaluate
pub mod Parse
use skillplane.Common.{ℕ, String, Option, List}
use skillplane.Access.{ServicePrincipalScope}

-- `SemanticBump` of packages/domain/src/skill-versions.ts
pub data SemanticBump : Type 0 where
  patch minor major : SemanticBump

pub record TrustedAutoPublishRule : Type 0 where
  pub credential_id : String
  pub required_scopes : List ServicePrincipalScope
  pub max_bump : SemanticBump
  pub allowed_context_ids : List String
  pub daily_limit : Option ℕ

pub data AmendmentPolicy : Type 0 where
  review_required : AmendmentPolicy
  trusted_auto_publish : List TrustedAutoPublishRule → AmendmentPolicy

abbrev pub bump_rank : SemanticBump → ℕ
bump_rank patch = 1
bump_rank minor = 2
bump_rank major = 3
