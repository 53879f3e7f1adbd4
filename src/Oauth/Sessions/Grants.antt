-- ===== src/Oauth/Sessions/Grants.antt =====
-- What an exchange does on each of its branches.
use skillplane.Common.{
  ◌+◌, ◌*◌, ◌&&◌, str_eq, if◌then◌else◌, String, ◌≡◌, refl, ◌<◌, Option, none, some, true, false,
  not, ◌||◌, Bool-cases, Option-cases, List, [], ◌∷◌, ◌++◌, map, any, All, ◌⊎◌, inl, inr, subst, ok,
  err, is_some, arith, eq_iff, ltb, length,
}
use skillplane.Oauth.{Database, RefreshRow, Runtime, Failure, grant_error, find_refresh}
use skillplane.Oauth.Rows.{IsDead}
use skillplane.Oauth.Tokens.{TokenResponse}
use skillplane.Oauth.Refresh.{
  Exchange, Server, refresh_transaction, exchange_refresh_token, detect_reuse, rotate, rejection,
  includes, oauth_scopes, distinct_from, words_from, reduced_scopes,
}
use skillplane.Oauth.Refresh.Rotation.{Rotated, rotate-cases}
use skillplane.Oauth.Refresh.Family.{detect_reuse-IsDead}
use skillplane.Oauth.Sessions.{exchange_refresh_token-cases}

All-included :
    (granted scopes : List String)
    → ((w : String) → includes scopes w ≡ true → includes granted w ≡ true)
    → All (λ w. includes granted w ≡ true) scopes
All-included granted [] k = tt
All-included granted (s ∷ scopes) k =
    (k s (ground (arith, eq_iff s s)), All-included granted scopes (λ w h. k w (ground (arith, h))))

none_refused :
    (granted scopes : List String)
    → any (λ s. not (includes oauth_scopes s) || not (includes granted s)) scopes ≡ false
    → All (λ w. includes granted w ≡ true) scopes
none_refused granted [] h = tt
none_refused granted (s ∷ scopes) h =
    let k : includes granted s ≡ true = ground (arith, h) in
    (k, none_refused granted scopes (ground (arith, h)))

-- The scopes that are issued are among those granted.
reduced_scopes-All :
    (requested : Option String) (granted scopes : List String)
    → reduced_scopes requested granted ≡ ok scopes
    → All (λ w. includes granted w ≡ true) scopes
unfolding reduced_scopes
reduced_scopes-All none granted scopes h =
    let same : granted ≡ scopes = cc in
    subst (All (λ w. includes granted w ≡ true)) same (All-included granted granted (λ w k. k))
reduced_scopes-All (some r) granted scopes h =
    elim (Bool-cases (
      ltb (length (distinct_from [] (words_from "" r))) 1
      || ltb 20 (length (distinct_from [] (words_from "" r)))
      || any (λ s. not (includes oauth_scopes s) || not (includes granted s))
          (distinct_from [] (words_from "" r)))) [
            | inl e ↦ ground arith
            | inr e ↦
                let same : distinct_from [] (words_from "" r) ≡ scopes = ground arith in
                subst (All (λ w. includes granted w ≡ true)) same
                  (none_refused granted (distinct_from [] (words_from "" r)) (ground (arith, e)))
          ]

-- The rotation of a token that was presented: it was neither consumed nor revoked nor expired and
-- was granted to this client for this server; it is consumed, and the two tokens that are added
-- have its family, its scopes or fewer and, the refresh token, its end.
pub record IsRotation (runtime : Runtime) (x : Exchange) (db db' : Database) : Type 0 where
  pub token : RefreshRow
  pub found : find_refresh (runtime.keyed_hash x.refresh_token) db.refresh ≡ some token
  pub unspent : is_some token.consumed_at ≡ false
  pub alive : is_some token.revoked_at ≡ false
  pub in_time : x.checked_at < token.expires_at
  pub client : token.client_id ≡ x.client_id
  pub audience : token.resource ≡ runtime.resource
  pub scopes : List String
  pub narrower : All (λ w. includes token.scopes w ≡ true) scopes
  pub refresh :
      db'.refresh
      ≡ map
          (λ r.
            if str_eq r.id token.id && not (is_some r.consumed_at)
            then record r { consumed_at = some x.written_at }
            else r)
          db.refresh
        ++ record {
          id = x.fresh.refresh_token_id;
          token_hash = runtime.keyed_hash x.fresh.refresh_token;
          family_id = token.family_id;
          parent_id = some token.id;
          user_id = token.user_id;
          client_id = token.client_id;
          resource = token.resource;
          scopes = scopes;
          expires_at = token.expires_at;
          consumed_at = none;
          revoked_at = none;
          created_at = x.issued_at;
        }
          ∷ []
  pub access :
      db'.access
      ≡ db.access
        ++ record {
          id = x.fresh.access_token_id;
          token_hash = runtime.keyed_hash x.fresh.access_token;
          family_id = token.family_id;
          user_id = token.user_id;
          client_id = token.client_id;
          resource = token.resource;
          scopes = scopes;
          expires_at = x.issued_at + runtime.access_token_ttl_seconds * 1000;
          revoked_at = none;
          created_at = x.issued_at;
        }
          ∷ []

-- A token that was consumed before was presented: its family is revoked.
pub record IsReuse (runtime : Runtime) (x : Exchange) (db db' : Database) : Type 0 where
  pub token : RefreshRow
  pub found : find_refresh (runtime.keyed_hash x.refresh_token) db.refresh ≡ some token
  pub spent : is_some token.consumed_at ≡ true
  pub revoked : IsDead token.family_id db'

Rotated-IsRotation :
    (runtime : Runtime) (x : Exchange) (token : RefreshRow) (db db' : Database)
    → find_refresh (runtime.keyed_hash x.refresh_token) db.refresh ≡ some token
    → is_some token.consumed_at ≡ false
    → Rotated runtime x token db db'
    → IsRotation runtime x db db'
unfolding rejection
Rotated-IsRotation runtime x token db db' found unspent r =
    let accepted = r.accepted in
    record {
      token = token;
      found = found;
      unspent = unspent;
      alive = ground (arith, accepted);
      in_time = ground (arith, accepted);
      client = ground (arith, accepted, eq_iff token.client_id x.client_id);
      audience = ground (arith, accepted, eq_iff token.resource runtime.resource);
      scopes = r.scopes;
      narrower = reduced_scopes-All x.scope token.scopes r.scopes r.reduced;
      refresh = r.refresh;
      access = r.access;
    }

refresh_transaction-cases :
    (runtime : Runtime) (x : Exchange) (db : Database)
    → ((e : Failure) × ((refresh_transaction runtime x db).reply ≡ err e)
        × (((refresh_transaction runtime x db).database ≡ db)
            ⊎ IsReuse runtime x db (refresh_transaction runtime x db).database))
      ⊎ ((response : TokenResponse) × ((refresh_transaction runtime x db).reply ≡ ok response)
          × IsRotation runtime x db (refresh_transaction runtime x db).database)
unfolding refresh_transaction detect_reuse
refresh_transaction-cases runtime x db =
    elim (Option-cases (find_refresh (runtime.keyed_hash x.refresh_token) db.refresh)) [
      | inl e ↦ rw (e, refresh_transaction) (inl (grant_error, refl, inl refl))
      | inr (token, e) ↦ elim (Bool-cases (is_some token.consumed_at)) [
        | inl c ↦
            rw (e, refresh_transaction, c)
              (inl (
                grant_error,
                refl,
                inr (record {
                  token = token;
                  found = e;
                  spent = c;
                  revoked = detect_reuse-IsDead x token db;
                }),
              ))
        | inr c ↦
            rw (e, refresh_transaction, c)
              (elim (rotate-cases runtime x token db) [
                | inl (f, refused, same) ↦ inl (f, refused, inl same)
                | inr (response, answer, r) ↦ inr (
                  response,
                  answer,
                  Rotated-IsRotation runtime x token db (rotate runtime x token db).database e c r,
                )
              ])
      ]
    ]

-- An exchange answers in one of three ways: with an error and the database as it was; with an error,
-- for a token consumed before, all tokens of whose family are then revoked; with tokens, and then
-- the presented token was found unconsumed, unrevoked and unexpired, of this client and for this
-- server, and the database differs by its consumption and by two tokens of its family, with scopes
-- among its scopes and, for the refresh token, its expiry.
pub exchange-IsRotation :
    (runtime : Runtime) (x : Exchange) (s : Server)
    → ((e : Failure) × ((exchange_refresh_token runtime x s).reply ≡ err e)
        × (((exchange_refresh_token runtime x s).server.database ≡ s.database)
            ⊎ IsReuse runtime x s.database (exchange_refresh_token runtime x s).server.database))
      ⊎ ((response : TokenResponse) × ((exchange_refresh_token runtime x s).reply ≡ ok response)
          × IsRotation runtime x s.database (exchange_refresh_token runtime x s).server.database)
exchange-IsRotation runtime x s = elim (exchange_refresh_token-cases runtime x s) [
  | inl (e, refused, same, _) ↦ inl (e, refused, inl same)
  | inr (answer, left) ↦ rw (answer, left) (refresh_transaction-cases runtime x s.database)
]
