-- ===== src/Oauth/Tests.antt =====
-- The OAuth server on one family: a token that is rotated, and the old one that comes back.
use skillplane.Common.{ℕ, String, ◌≡◌, refl, Option, none, some, true, List, [], ◌∷◌, ◌⊎◌, ok, err}
use skillplane.Oauth.RateLimit.{consume_rate_limit, window_start}
use skillplane.Oauth.{revoke_family, RefreshRow, Runtime, Failure, find_refresh}
use skillplane.Oauth.Tokens.{TokenResponse, issue_token_pair, access_taken, refresh_taken}
use skillplane.Oauth.Refresh.{
  Exchange, Server, exchange_refresh_token, refresh_transaction, detect_reuse, audited, rotate,
  rejection, reduced_scopes, distinct_from, words_from, consume_token,
}
use skillplane.Oauth.Sessions.{exchange, run_ops}
use skillplane.Oauth.Sessions.Reuse.{reuse-refuses}
use skillplane.Oauth.Sessions.SingleUse.{exchange-once}
use skillplane.Oauth.Sessions.Grants.{IsRotation, IsReuse, exchange-IsRotation}

-- A stand-in for the keyed hash.
abbrev runtime : Runtime
runtime = record {
  keyed_hash = λ s. s;
  resource = "https://mcp";
  access_token_ttl_seconds = 600;
  refresh_token_ttl_seconds = 2592000;
}

abbrev row : String → Option ℕ → RefreshRow
row token consumed = record {
  id = token;
  token_hash = token;
  family_id = "f";
  parent_id = none;
  user_id = "u";
  client_id = "c";
  resource = "https://mcp";
  scopes = "skills:read" ∷ "skills:amend" ∷ [];
  expires_at = 9000;
  consumed_at = consumed;
  revoked_at = none;
  created_at = 1;
}

abbrev server : List RefreshRow → Server
server rows = record {
  limits = λ b w. 0;
  database = record { refresh = rows; access = []; audit = [] };
}

abbrev asking : String → String → Exchange
asking token next = record {
  refresh_token = token;
  client_id = "c";
  resource = none;
  scope = some "skills:read";
  bucket = "c:ip";
  limited_at = 2000;
  checked_at = 2001;
  written_at = 2002;
  issued_at = 2003;
  fresh = record {
    access_token = "a";
    refresh_token = next;
    family_id = "g";
    access_token_id = next;
    refresh_token_id = next;
  };
}

-- The token "old" was rotated to "new" before.
abbrev rotated_server : Server
rotated_server = server (row "old" (some 5) ∷ row "new" none ∷ [])

abbrev fresh_server : Server
fresh_server = server (row "old" none ∷ [])

abbrev rotated_reply : TokenResponse
rotated_reply = record {
  access_token = "a";
  expires_in = 600;
  refresh_token = "new";
  scope = "skills:read";
}

rotation_test :
    (exchange_refresh_token runtime (asking "old" "new") fresh_server).reply ≡ ok rotated_reply
unfolding exchange_refresh_token consume_rate_limit refresh_transaction find_refresh detect_reuse
    audited rotate rejection reduced_scopes distinct_from words_from issue_token_pair access_taken
    consume_token refresh_taken revoke_family window_start
rotation_test = refl

new_answered_test :
    (exchange_refresh_token runtime (asking "new" "newer") rotated_server).committed ≡ true
unfolding exchange_refresh_token consume_rate_limit refresh_transaction find_refresh detect_reuse
    audited rotate rejection reduced_scopes distinct_from words_from issue_token_pair access_taken
    consume_token refresh_taken revoke_family window_start
new_answered_test = refl

reuse-refuses_example :
    (e : Failure) × ((exchange_refresh_token runtime (asking "new" "newest") (
        run_ops runtime
          (exchange (asking "new" "newer") ∷ [])
          (exchange_refresh_token runtime (asking "old" "x") rotated_server).server)).reply
      ≡ err e)
unfolding exchange_refresh_token consume_rate_limit refresh_transaction find_refresh detect_reuse
    audited rotate rejection reduced_scopes distinct_from words_from issue_token_pair access_taken
    consume_token refresh_taken revoke_family window_start
reuse-refuses_example =
    reuse-refuses runtime (asking "old" "x") rotated_server (row "old" (some 5)) refl refl refl
      (exchange (asking "new" "newer") ∷ []) (asking "new" "newest")
      (record (row "new" none) { revoked_at = some 2001 }) refl refl

exchange-once_example :
    (e : Failure) × ((exchange_refresh_token runtime (asking "old" "newest") (
        run_ops runtime
          (exchange (asking "new" "newer") ∷ [])
          (exchange_refresh_token runtime (asking "old" "new") fresh_server).server)).reply
      ≡ err e)
exchange-once_example =
    exchange-once runtime (asking "old" "new") fresh_server rotated_reply rotation_test
      (exchange (asking "new" "newer") ∷ []) (asking "old" "newest") refl

exchange-IsRotation_example :
    ((e : Failure) × ((exchange_refresh_token runtime (asking "old" "new") fresh_server).reply
        ≡ err e)
      × (((exchange_refresh_token runtime (asking "old" "new") fresh_server).server.database
            ≡ fresh_server.database)
          ⊎ IsReuse runtime
              (asking "old" "new")
              fresh_server.database
              (exchange_refresh_token runtime (asking "old" "new") fresh_server).server.database))
    ⊎ ((response : TokenResponse) × ((exchange_refresh_token runtime
            (asking "old" "new")
            fresh_server).reply
          ≡ ok response)
        × IsRotation runtime
            (asking "old" "new")
            fresh_server.database
            (exchange_refresh_token runtime (asking "old" "new") fresh_server).server.database)
exchange-IsRotation_example = exchange-IsRotation runtime (asking "old" "new") fresh_server
