-- ===== src/Oauth/Revocation.antt =====
-- `revokeToken` of packages/authfn-mcp-oauth/src/revocation.ts
use skillplane.Common.{
  String, Option, none, some, true, [], ◌∷◌, ◌++◌, map, str_eq, if◌then◌else◌, Date,
}
use skillplane.Oauth.{
  Database, RefreshRow, AccessRow, Runtime, find_refresh, find_access, revoke_family, coalesce,
}

pub record Revocation : Type 0 where
  pub token : String
  pub client_id : String
  pub revoked_at : Date

abbrev revoked_row : String → String → String → Database → Database
revoked_row user client resource db = record db {
  audit =
      db.audit
      ++ record {
        event_type = "oauth.token.revoked";
        succeeded = true;
        user_id = user;
        client_id = client;
        family_id = none;
        resource = resource;
      }
        ∷ [];
}

-- `SET revoked_at = COALESCE(revoked_at, $2) WHERE id = $1`
abbrev revoke_access : String → Date → Database → Database
revoke_access id now db = record db {
  access =
      map (λ r. if str_eq r.id id then record r { revoked_at = coalesce r.revoked_at now } else r)
        db.access;
}

abbrev revoke_by_refresh : Revocation → RefreshRow → Database → Database
revoke_by_refresh x token db =
    if str_eq token.client_id x.client_id
    then revoked_row token.user_id token.client_id token.resource
        (revoke_family token.family_id x.revoked_at db)
    else db

abbrev revoke_by_access : Revocation → Option AccessRow → Database → Database
revoke_by_access x none db = db
revoke_by_access x (some token) db =
    if str_eq token.client_id x.client_id
    then revoked_row token.user_id token.client_id token.resource
        (revoke_access token.id x.revoked_at db)
    else db

unfoldable pub revoke_token : Runtime → Revocation → Database → Database
revoke_token runtime x db = elim (find_refresh (runtime.keyed_hash x.token) db.refresh) [
  | some token ↦ revoke_by_refresh x token db
  | none ↦ revoke_by_access x (find_access (runtime.keyed_hash x.token) db.access) db
]
