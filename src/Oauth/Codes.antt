-- ===== src/Oauth/Codes.antt =====
-- `issueAuthorizationCode` and `exchangeAuthorizationCode` of packages/authfn-mcp-oauth/src/codes.ts
pub mod Laws
mod Tests
use skillplane.Common.{
  ℕ, ◌+◌, ◌*◌, String, Option, none, some, Bool, not, ◌&&◌, ◌||◌, List, [], ◌∷◌, ◌++◌, map, any,
  all, find, length, str_eq, leb, ltb, ◌==◌, is_some, Result, ok, err, if◌then◌else◌, Date,
}
use skillplane.Common.Text.{codes}
use skillplane.Oauth.{Database, Runtime, Fresh, Failure, grant_error, internal}
use skillplane.Oauth.Tokens.{TokenResponse, TokenSubject, issue_token_pair}

-- A row of `authfn_oauth_authorization_codes`.
pub record CodeRow : Type 0 where
  pub id : String
  pub code_hash : String
  pub user_id : String
  pub client_id : String
  pub redirect_uri : String
  pub resource : String
  pub scopes : List String
  pub code_challenge : String
  pub expires_at : Date
  pub consumed_at : Option Date
  pub created_at : Date

-- The tables, with the one of the codes.
pub record Store : Type 0 where
  pub codes : List CodeRow
  pub database : Database

-- `sha256_base64url` is the SHA-256 of node:crypto.
pub record CodeRuntime : Type 0 where
  pub base : Runtime
  pub sha256_base64url : String → String
  pub authorization_code_ttl_seconds : ℕ

-- The fields of `ValidatedAuthorizationRequest` that a code keeps.
pub record AuthorizationRequest : Type 0 where
  pub client_id : String
  pub redirect_uri : String
  pub resource : String
  pub scopes : List String
  pub code_challenge : String

-- A call of `issueAuthorizationCode`, with the random code and id that it draws.
pub record Issue : Type 0 where
  pub user_id : String
  pub request : AuthorizationRequest
  pub code : String
  pub code_id : String
  pub created_at : Date

abbrev pub code_row : CodeRuntime → Issue → CodeRow
code_row runtime x = record {
  id = x.code_id;
  code_hash = runtime.base.keyed_hash x.code;
  user_id = x.user_id;
  client_id = x.request.client_id;
  redirect_uri = x.request.redirect_uri;
  resource = x.request.resource;
  scopes = x.request.scopes;
  code_challenge = x.request.code_challenge;
  expires_at = x.created_at + runtime.authorization_code_ttl_seconds * 1000;
  consumed_at = none;
  created_at = x.created_at;
}

-- The primary key and the unique hash refuse a row that is there.
unfoldable pub issue_authorization_code :
    CodeRuntime → Issue → Store → Result Failure (String × Store)
issue_authorization_code runtime x s =
    if any (λ r. str_eq r.id x.code_id || str_eq r.code_hash (runtime.base.keyed_hash x.code))
      s.codes
    then err internal
    else ok (x.code, record s { codes = s.codes ++ code_row runtime x ∷ [] })

-- A call of `exchangeAuthorizationCode`, with the instants that `runtime.now()` returns in turn.
pub record CodeExchange : Type 0 where
  pub code : String
  pub client_id : String
  pub redirect_uri : String
  pub resource : String
  pub code_verifier : String
  pub checked_at : Date
  pub written_at : Date
  pub issued_at : Date
  pub fresh : Fresh

-- `[A-Za-z0-9._~-]`
abbrev pub is_unreserved : ℕ → Bool
is_unreserved c =
    (leb 65 c && leb c 90)
    || (leb 97 c && leb c 122)
    || (leb 48 c && leb c 57)
    || c == 46
    || c == 95
    || c == 126
    || c == 45

-- `/^[A-Za-z0-9._~-]{43,128}$/`
unfoldable pub is_verifier : String → Bool
is_verifier s =
    all is_unreserved (codes s) && leb 43 (length (codes s)) && leb (length (codes s)) 128

-- `WHERE code_hash = $1`
unfoldable pub find_code : String → List CodeRow → Option CodeRow
find_code hash = find (λ r. str_eq r.code_hash hash)

unfoldable pub is_refused : CodeRuntime → CodeExchange → CodeRow → Bool
is_refused runtime x code =
    is_some code.consumed_at
    || leb code.expires_at x.checked_at
    || not (str_eq code.client_id x.client_id)
    || not (str_eq code.redirect_uri x.redirect_uri)
    || not (str_eq code.resource x.resource)
    || not (str_eq code.code_challenge (runtime.sha256_base64url x.code_verifier))

-- `SET consumed_at = $2 WHERE id = $1 AND consumed_at IS NULL`
abbrev pub consume_code_row : String → Date → CodeRow → CodeRow
consume_code_row id now r =
    if str_eq r.id id && not (is_some r.consumed_at) then record r { consumed_at = some now } else r

abbrev pub code_subject : CodeRow → TokenSubject
code_subject code = record {
  user_id = code.user_id;
  client_id = code.client_id;
  resource = code.resource;
  scopes = code.scopes;
  family_id = none;
  parent_refresh_token_id = none;
  refresh_expires_at = none;
}

-- What an exchange leaves and answers. What it throws rolls its writes back.
abbrev pub grant_result :
    CodeExchange
    → CodeRow
    → Store
    → Result Failure (TokenResponse × Database)
    → Store × Result Failure TokenResponse
grant_result x code s (err e) = (s, err e)
grant_result x code s (ok (response, db)) = (
  record { codes = map (consume_code_row code.id x.written_at) s.codes; database = db },
  ok response,
)

unfoldable pub exchange_authorization_code :
    CodeRuntime → CodeExchange → Store → Store × Result Failure TokenResponse
exchange_authorization_code runtime x s =
    let found = find_code (runtime.base.keyed_hash x.code) s.codes in
    if not (is_verifier x.code_verifier) then (s, err grant_error) else elim found [
      | none ↦ (s, err grant_error)
      | some code ↦
          if is_refused runtime x code
          then (s, err grant_error)
          else grant_result x code s
              (issue_token_pair runtime.base x.fresh x.issued_at (code_subject code) s.database)
    ]
