-- ===== src/Oauth/Tokens.antt =====
-- `issueTokenPair` of packages/authfn-mcp-oauth/src/tokens.ts
use Prim.Native.String
use skillplane.Common.{
  ℕ, ◌+◌, ◌*◌, String, Option, none, Bool, ◌||◌, List, [], ◌∷◌, ◌++◌, any, str_eq, get_or, Result,
  ok, err, if◌then◌else◌, Date,
}
use skillplane.Oauth.{Database, RefreshRow, AccessRow, Runtime, Fresh, Failure, internal}

pub record TokenResponse : Type 0 where
  pub access_token : String
  pub expires_in : ℕ
  pub refresh_token : String
  pub scope : String

pub record TokenSubject : Type 0 where
  pub user_id : String
  pub client_id : String
  pub resource : String
  pub scopes : List String
  pub family_id : Option String
  pub parent_refresh_token_id : Option String
  pub refresh_expires_at : Option Date

-- `scopes.join(" ")`
abbrev pub join_words : List String → String
join_words [] = ""
join_words (w ∷ []) = w
join_words (w ∷ ws) = String.◌++◌ w (String.◌++◌ " " (join_words ws))

abbrev pub access_row : Runtime → Fresh → Date → TokenSubject → AccessRow
access_row runtime fresh now subject = record {
  id = fresh.access_token_id;
  token_hash = runtime.keyed_hash fresh.access_token;
  family_id = get_or subject.family_id fresh.family_id;
  user_id = subject.user_id;
  client_id = subject.client_id;
  resource = subject.resource;
  scopes = subject.scopes;
  expires_at = now + runtime.access_token_ttl_seconds * 1000;
  revoked_at = none;
  created_at = now;
}

abbrev pub refresh_row : Runtime → Fresh → Date → TokenSubject → RefreshRow
refresh_row runtime fresh now subject = record {
  id = fresh.refresh_token_id;
  token_hash = runtime.keyed_hash fresh.refresh_token;
  family_id = get_or subject.family_id fresh.family_id;
  parent_id = subject.parent_refresh_token_id;
  user_id = subject.user_id;
  client_id = subject.client_id;
  resource = subject.resource;
  scopes = subject.scopes;
  expires_at = get_or subject.refresh_expires_at (now + runtime.refresh_token_ttl_seconds * 1000);
  consumed_at = none;
  revoked_at = none;
  created_at = now;
}

-- The primary keys and the unique hashes of the two tables refuse a row that is there.
unfoldable pub access_taken : AccessRow → List AccessRow → Bool
access_taken row = any (λ r. str_eq r.id row.id || str_eq r.token_hash row.token_hash)

unfoldable pub refresh_taken : RefreshRow → List RefreshRow → Bool
refresh_taken row = any (λ r. str_eq r.id row.id || str_eq r.token_hash row.token_hash)

abbrev pub response_of : Runtime → Fresh → TokenSubject → TokenResponse
response_of runtime fresh subject = record {
  access_token = fresh.access_token;
  expires_in = runtime.access_token_ttl_seconds;
  refresh_token = fresh.refresh_token;
  scope = join_words subject.scopes;
}

unfoldable pub issue_token_pair :
    Runtime → Fresh → Date → TokenSubject → Database → Result Failure (TokenResponse × Database)
issue_token_pair runtime fresh now subject db =
    let a = access_row runtime fresh now subject in
    let r = refresh_row runtime fresh now subject in
    if access_taken a db.access || refresh_taken r db.refresh
    then err internal
    else ok (
      response_of runtime fresh subject,
      record db { access = db.access ++ a ∷ []; refresh = db.refresh ++ r ∷ [] },
    )
