-- ===== src/Oauth.antt =====
-- packages/authfn-mcp-oauth: the tables of the OAuth server and what its operations share.
pub mod RateLimit
pub mod Rows
pub mod Tokens
pub mod Refresh
pub mod Revocation
pub mod Codes
pub mod Sessions
mod Tests
use skillplane.Common.{
  ℕ, String, Option, none, some, Bool, List, ◌==◌, any, find, map, str_eq, if◌then◌else◌, Date,
}

-- errors.ts
pub data OauthErrorCode : Type 0 where
  invalid_request invalid_client invalid_grant unauthorized_client unsupported_response_type
        unsupported_grant_type invalid_scope invalid_target access_denied server_error
        temporarily_unavailable :
      OauthErrorCode

-- What an operation throws: an `OAuthError` with its status and `retryAfterSeconds`, or an error of
-- the database or of the configuration.
pub data Failure : Type 0 where
  oauth : OauthErrorCode → ℕ → Option ℕ → Failure
  internal : Failure

abbrev pub grant_error : Failure
grant_error = oauth invalid_grant 400 none

-- A row of `authfn_oauth_refresh_tokens`.
pub record RefreshRow : Type 0 where
  pub id : String
  pub token_hash : String
  pub family_id : String
  pub parent_id : Option String
  pub user_id : String
  pub client_id : String
  pub resource : String
  pub scopes : List String
  pub expires_at : Date
  pub consumed_at : Option Date
  pub revoked_at : Option Date
  pub created_at : Date

-- A row of `authfn_oauth_access_tokens`.
pub record AccessRow : Type 0 where
  pub id : String
  pub token_hash : String
  pub family_id : String
  pub user_id : String
  pub client_id : String
  pub resource : String
  pub scopes : List String
  pub expires_at : Date
  pub revoked_at : Option Date
  pub created_at : Date

-- The event that `writeOAuthAudit` emits. The row that it adds to the audit log of the user's
-- workspace is not modelled; it and the COMMIT behind it are taken to succeed.
pub record AuditRow : Type 0 where
  pub event_type : String
  pub succeeded : Bool
  pub user_id : String
  pub client_id : String
  pub family_id : Option String
  pub resource : String

pub record Database : Type 0 where
  pub refresh : List RefreshRow
  pub access : List AccessRow
  pub audit : List AuditRow

-- What the server is configured with. `keyed_hash` is the HMAC of node:crypto under the pepper.
pub record Runtime : Type 0 where
  pub keyed_hash : String → String
  pub resource : String
  pub access_token_ttl_seconds : ℕ
  pub refresh_token_ttl_seconds : ℕ

-- What `randomOpaqueSecret` and `id` return in one operation.
pub record Fresh : Type 0 where
  pub access_token : String
  pub refresh_token : String
  pub family_id : String
  pub access_token_id : String
  pub refresh_token_id : String

-- `COALESCE(revoked_at, $2)`
abbrev pub coalesce : Option Date → Date → Option Date
coalesce (some d) now = some d
coalesce none now = some now

-- `WHERE token_hash = $1`
unfoldable pub find_refresh : String → List RefreshRow → Option RefreshRow
find_refresh hash = find (λ r. str_eq r.token_hash hash)

unfoldable pub find_access : String → List AccessRow → Option AccessRow
find_access hash = find (λ r. str_eq r.token_hash hash)

-- `SET revoked_at = COALESCE(revoked_at, $2) WHERE family_id = $1`
abbrev pub revoke_refresh_row : String → Date → RefreshRow → RefreshRow
revoke_refresh_row family now r =
    if str_eq r.family_id family then record r { revoked_at = coalesce r.revoked_at now } else r

abbrev pub revoke_access_row : String → Date → AccessRow → AccessRow
revoke_access_row family now r =
    if str_eq r.family_id family then record r { revoked_at = coalesce r.revoked_at now } else r

unfoldable pub revoke_family : String → Date → Database → Database
revoke_family family now db = record db {
  refresh = map (revoke_refresh_row family now) db.refresh;
  access = map (revoke_access_row family now) db.access;
}
