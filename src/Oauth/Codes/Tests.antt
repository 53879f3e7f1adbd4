-- ===== src/Oauth/Codes/Tests.antt =====
-- One authorization code and its exchange.
use skillplane.Common.{String, ◌≡◌, refl, ◌⊎◌, none, [], ◌∷◌, ok, err}
use skillplane.Oauth.{Failure, grant_error}
use skillplane.Oauth.Tokens.{TokenResponse, issue_token_pair, access_taken, refresh_taken}
use skillplane.Oauth.Codes.{
  CodeRow, Store, CodeRuntime, CodeExchange, is_verifier, find_code, is_refused,
  exchange_authorization_code,
}
use skillplane.Oauth.Codes.Laws.{redeem, run_ops, IsGrant, exchange_code-IsGrant, redeem-once}

-- Stand-ins for the two hashes.
abbrev runtime : CodeRuntime
runtime = record {
  base = record {
    keyed_hash = λ s. s;
    resource = "https://mcp";
    access_token_ttl_seconds = 600;
    refresh_token_ttl_seconds = 2592000;
  };
  sha256_base64url = λ s. s;
  authorization_code_ttl_seconds = 60;
}

abbrev verifier : String
verifier = "abcdefghijklmnopqrstuvwxyz-ABCDEFGHIJKLMNOPQRSTUVWXYZ"

abbrev row : CodeRow
row = record {
  id = "i";
  code_hash = "spc";
  user_id = "u";
  client_id = "c";
  redirect_uri = "https://c/cb";
  resource = "https://mcp";
  scopes = "skills:read" ∷ [];
  code_challenge = verifier;
  expires_at = 9000;
  consumed_at = none;
  created_at = 1;
}

abbrev store : Store
store = record { codes = row ∷ []; database = record { refresh = []; access = []; audit = [] } }

abbrev exchange : CodeExchange
exchange = record {
  code = "spc";
  client_id = "c";
  redirect_uri = "https://c/cb";
  resource = "https://mcp";
  code_verifier = verifier;
  checked_at = 2001;
  written_at = 2002;
  issued_at = 2003;
  fresh = record {
    access_token = "a";
    refresh_token = "r";
    family_id = "f";
    access_token_id = "x";
    refresh_token_id = "y";
  };
}

abbrev reply : TokenResponse
reply = record { access_token = "a"; expires_in = 600; refresh_token = "r"; scope = "skills:read" }

redeemed_test : (exchange_authorization_code runtime exchange store).1 ≡ ok reply
unfolding exchange_authorization_code is_verifier find_code is_refused issue_token_pair access_taken
    refresh_taken
redeemed_test = refl

exchange_code-IsGrant_example :
    ((e : Failure) × (exchange_authorization_code runtime exchange store ≡ (store, err e)))
    ⊎ ((response : TokenResponse) × ((exchange_authorization_code runtime exchange store).1
          ≡ ok response)
        × IsGrant runtime exchange store
            (exchange_authorization_code runtime exchange store).0
            response)
exchange_code-IsGrant_example = exchange_code-IsGrant runtime exchange store

redeem-once_example :
    exchange_authorization_code runtime exchange (
      run_ops runtime (redeem exchange ∷ []) (exchange_authorization_code runtime exchange store).0)
    ≡ (
      run_ops runtime (redeem exchange ∷ []) (exchange_authorization_code runtime exchange store).0,
      err grant_error,
    )
redeem-once_example =
    redeem-once runtime exchange store reply redeemed_test (redeem exchange ∷ []) exchange refl
