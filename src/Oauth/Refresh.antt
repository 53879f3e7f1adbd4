-- ===== src/Oauth/Refresh.antt =====
-- `exchangeRefreshToken` of packages/authfn-mcp-oauth/src/refresh.ts
pub mod Rotation
pub mod Family
use Prim.Native.Char.{code}
use Prim.Native.String
use skillplane.Common.{
  ℕ, ◌+◌, String, Option, none, some, Bool, true, false, not, ◌&&◌, ◌||◌, List, [], ◌∷◌, ◌++◌, map,
  any, filter, length, str_eq, leb, ltb, ◌==◌, is_some, Result, ok, err, ◌>>=◌, ◌>>◌, require,
  if◌then◌else◌, Date,
}
use skillplane.Common.Text.{codes}
use skillplane.Oauth.{
  Database, RefreshRow, AuditRow, Runtime, Fresh, Failure, oauth, internal, grant_error,
  invalid_scope, temporarily_unavailable, find_refresh, revoke_family,
}
use skillplane.Oauth.RateLimit.{RateLimits, RateLimitDecision, consume_rate_limit}
use skillplane.Oauth.Tokens.{TokenResponse, TokenSubject, issue_token_pair}

-- `OAUTH_SCOPES` of config.ts
abbrev pub oauth_scopes : List String
oauth_scopes =
    "skills:read" ∷ "skills:write" ∷ "skills:amend" ∷ "skills:publish" ∷ "contexts:read"
    ∷ "contexts:write" ∷ "audit:read" ∷ []

abbrev pub includes : List String → String → Bool
includes xs s = any (λ x. str_eq x s) xs

-- `[...new Set(xs)]`
unfoldable pub distinct_from : List String → List String → List String
distinct_from seen [] = []
distinct_from seen (x ∷ xs) =
    let rest = distinct_from (x ∷ seen) xs in if includes seen x then rest else x ∷ rest

-- `s.split(" ").filter(Boolean)`
unfoldable pub words_from : String → String → List String
words_from cur String.[] = if str_eq cur "" then [] else cur ∷ []
words_from cur (String.◌∷◌ c s) =
    let closed = words_from "" s in
    let longer = words_from (String.◌++◌ cur (String.◌∷◌ c String.[])) s in
    if code c == 32 then (if str_eq cur "" then closed else cur ∷ closed) else longer

-- `reducedScopes`
unfoldable pub reduced_scopes : Option String → List String → Result Failure (List String)
reduced_scopes none granted = ok granted
reduced_scopes (some requested) granted =
    let scopes = distinct_from [] (words_from "" requested) in
    if ltb (length scopes) 1
      || ltb 20 (length scopes)
      || any (λ s. not (includes oauth_scopes s) || not (includes granted s)) scopes
    then err (oauth invalid_scope 400 none)
    else ok scopes

-- A call of `exchangeRefreshToken`: its input, the instants that `runtime.now()` returns in turn,
-- and the random values it draws.
pub record Exchange : Type 0 where
  pub refresh_token : String
  pub client_id : String
  pub resource : Option String
  pub scope : Option String
  pub bucket : String
  pub limited_at : Date
  pub checked_at : Date
  pub written_at : Date
  pub issued_at : Date
  pub fresh : Fresh

-- `diagnostic.reason`
pub data Reason : Type 0 where
  rate_limited unknown_grant reuse_detected revoked_grant expired_grant client_mismatch
        resource_mismatch scope_refused internal_error rotated :
      Reason

-- The test in turn of a token that was not consumed.
unfoldable pub rejection : Runtime → Exchange → RefreshRow → Option Reason
rejection runtime x token =
    if is_some token.revoked_at
    then some revoked_grant
    else if leb token.expires_at x.checked_at
    then some expired_grant
    else if not (str_eq token.client_id x.client_id)
    then some client_mismatch
    else if not (str_eq token.resource runtime.resource)
        || elim x.resource [ none ↦ false | some r ↦ not (str_eq token.resource r) ]
    then some resource_mismatch
    else none

-- `SET consumed_at = $2 WHERE id = $1 AND consumed_at IS NULL`
abbrev pub consume_row : String → Date → RefreshRow → RefreshRow
consume_row id now r =
    if str_eq r.id id && not (is_some r.consumed_at) then record r { consumed_at = some now } else r

unfoldable pub consume_token : String → Date → Database → Database
consume_token id now db = record db { refresh = map (consume_row id now) db.refresh }

unfoldable pub audited : String → Bool → RefreshRow → Database → Database
audited event_type succeeded token db = record db {
  audit =
      db.audit
      ++ record {
        event_type = event_type;
        succeeded = succeeded;
        user_id = token.user_id;
        client_id = token.client_id;
        family_id = some token.family_id;
        resource = token.resource;
      }
        ∷ [];
}

-- What a transaction leaves and answers. Without a commit the database is the old one.
pub record Done : Type 0 where
  pub database : Database
  pub reply : Result Failure TokenResponse
  pub reason : Reason
  pub committed : Bool

abbrev pub rolled_back : Database → Failure → Reason → Done
rolled_back db e reason = record {
  database = db;
  reply = err e;
  reason = reason;
  committed = false;
}

-- The branch of a token that was consumed before: the family is revoked, and that is committed.
unfoldable pub detect_reuse : Exchange → RefreshRow → Database → Done
detect_reuse x token db = record {
  database =
      audited "oauth.refresh.reuse_detected" false token
        (revoke_family token.family_id x.checked_at db);
  reply = err grant_error;
  reason = reuse_detected;
  committed = true;
}

abbrev pub subject_of : RefreshRow → List String → TokenSubject
subject_of token scopes = record {
  user_id = token.user_id;
  client_id = token.client_id;
  resource = token.resource;
  scopes = scopes;
  family_id = some token.family_id;
  parent_refresh_token_id = some token.id;
  refresh_expires_at = some token.expires_at;
}

abbrev rotate_result : RefreshRow → Database → Result Failure (TokenResponse × Database) → Done
rotate_result token db (err e) = rolled_back db e internal_error
rotate_result token db (ok (response, db')) = record {
  database = audited "oauth.refresh.rotated" true token db';
  reply = ok response;
  reason = rotated;
  committed = true;
}

abbrev rotate_scopes :
    Runtime → Exchange → RefreshRow → Database → Result Failure (List String) → Done
rotate_scopes runtime x token db (err e) = rolled_back db e scope_refused
rotate_scopes runtime x token db (ok scopes) = rotate_result token db (
    issue_token_pair runtime x.fresh x.issued_at (subject_of token scopes)
      (consume_token token.id x.written_at db))

unfoldable pub rotate : Runtime → Exchange → RefreshRow → Database → Done
rotate runtime x token db = elim (rejection runtime x token) [
  | some reason ↦ rolled_back db grant_error reason
  | none ↦ rotate_scopes runtime x token db (reduced_scopes x.scope token.scopes)
]

-- The transaction of `performRefresh`
unfoldable pub refresh_transaction : Runtime → Exchange → Database → Done
refresh_transaction runtime x db =
    elim (find_refresh (runtime.keyed_hash x.refresh_token) db.refresh) [
      | none ↦ rolled_back db grant_error unknown_grant
      | some token ↦
          if is_some token.consumed_at then detect_reuse x token db else rotate runtime x token db
    ]

pub record Server : Type 0 where
  pub limits : RateLimits
  pub database : Database

pub record Exchanged : Type 0 where
  pub server : Server
  pub reply : Result Failure TokenResponse
  pub reason : Reason
  pub committed : Bool

abbrev limited :
    Runtime → Exchange → Server → Result (Unit {0}) (RateLimitDecision × RateLimits) → Exchanged
limited runtime x s (err e) = record {
  server = s;
  reply = err internal;
  reason = internal_error;
  committed = false;
}
limited runtime x s (ok (rate, limits)) =
    let done = refresh_transaction runtime x s.database in
    if not rate.allowed
    then record {
      server = record s { limits = limits };
      reply = err (oauth temporarily_unavailable 429 (some rate.retry_after_seconds));
      reason = rate_limited;
      committed = false;
    }
    else record {
      server = record { limits = limits; database = done.database };
      reply = done.reply;
      reason = done.reason;
      committed = done.committed;
    }

-- 60 requests a minute for each client and address; a refused request opens no transaction.
unfoldable pub exchange_refresh_token : Runtime → Exchange → Server → Exchanged
exchange_refresh_token runtime x s =
    limited runtime x s (consume_rate_limit s.limits x.bucket 60 60 x.limited_at)
