-- ===== src/Oauth/Codes/Laws.antt =====
-- The exchange of an authorization code, once and again.
use skillplane.Common.{
  ◌+◌, ◌*◌, ◌&&◌, not, str_eq, if◌then◌else◌, none, ◌<◌, String, ◌≡◌, sym, refl, subst, some, true,
  false, List, [], ◌∷◌, ◌++◌, map, ◌⊎◌, inl, inr, arith, eq_iff, is_some, Bool-cases, Option-cases,
  Result, ok, err, Date,
}
use skillplane.Oauth.{Database, Failure, grant_error}
use skillplane.Oauth.Tokens.{TokenResponse, join_words, response_of}
use skillplane.Oauth.Refresh.Rotation.{issue_token_pair-cases}
use skillplane.Oauth.Codes.{
  CodeRow, Store, CodeRuntime, Issue, CodeExchange, code_row, issue_authorization_code, is_verifier,
  find_code, is_refused, consume_code_row, code_subject, exchange_authorization_code,
}

-- What an exchange that is answered with tokens has established, and what it writes.
pub record IsGrant (runtime : CodeRuntime) (x : CodeExchange) (s s' : Store)
    (response : TokenResponse) : Type 0 where
  pub code : CodeRow
  pub found : find_code (runtime.base.keyed_hash x.code) s.codes ≡ some code
  pub unspent : is_some code.consumed_at ≡ false
  pub in_time : x.checked_at < code.expires_at
  pub client : code.client_id ≡ x.client_id
  pub redirect : code.redirect_uri ≡ x.redirect_uri
  pub audience : code.resource ≡ x.resource
  pub proof : code.code_challenge ≡ runtime.sha256_base64url x.code_verifier
  pub codes :
      s'.codes
      ≡ map
          (λ r.
            if str_eq r.id code.id && not (is_some r.consumed_at)
            then record r { consumed_at = some x.written_at }
            else r)
          s.codes
  pub database : s'.database ≡ record {
    access =
        s.database.access
        ++ record {
          id = x.fresh.access_token_id;
          token_hash = runtime.base.keyed_hash x.fresh.access_token;
          family_id = x.fresh.family_id;
          user_id = code.user_id;
          client_id = code.client_id;
          resource = code.resource;
          scopes = code.scopes;
          expires_at = x.issued_at + runtime.base.access_token_ttl_seconds * 1000;
          revoked_at = none;
          created_at = x.issued_at;
        }
          ∷ [];
    refresh =
        s.database.refresh
        ++ record {
          id = x.fresh.refresh_token_id;
          token_hash = runtime.base.keyed_hash x.fresh.refresh_token;
          family_id = x.fresh.family_id;
          parent_id = none;
          user_id = code.user_id;
          client_id = code.client_id;
          resource = code.resource;
          scopes = code.scopes;
          expires_at = x.issued_at + runtime.base.refresh_token_ttl_seconds * 1000;
          consumed_at = none;
          revoked_at = none;
          created_at = x.issued_at;
        }
          ∷ [];
    audit = s.database.audit;
  }
  pub answer : response ≡ record {
    access_token = x.fresh.access_token;
    expires_in = runtime.base.access_token_ttl_seconds;
    refresh_token = x.fresh.refresh_token;
    scope = join_words code.scopes;
  }

-- An exchange of a code is refused and leaves the tables, or it is answered with tokens, and then
-- the code was found unconsumed and unexpired, for this client, redirect and resource, its challenge
-- is the hash of the verifier. That exchange sets `consumed_at` of the code, leaves the other codes,
-- and adds an access token and a refresh token without a parent, both of a new family and with the
-- user, the client, the resource and the scopes of the code, each ending with its time to live.
pub exchange_code-IsGrant :
    (runtime : CodeRuntime) (x : CodeExchange) (s : Store)
    → ((e : Failure) × (exchange_authorization_code runtime x s ≡ (s, err e)))
      ⊎ ((response : TokenResponse) × ((exchange_authorization_code runtime x s).1 ≡ ok response)
          × IsGrant runtime x s (exchange_authorization_code runtime x s).0 response)
unfolding exchange_authorization_code is_refused
exchange_code-IsGrant runtime x s = elim (Bool-cases (is_verifier x.code_verifier)) [
  | inr v ↦ rw (exchange_authorization_code, v) (inl (grant_error, refl))
  | inl v ↦ elim (Option-cases (find_code (runtime.base.keyed_hash x.code) s.codes)) [
    | inl e ↦ rw (exchange_authorization_code, v, e) (inl (grant_error, refl))
    | inr (code, e) ↦ elim (Bool-cases (is_refused runtime x code)) [
      | inl r ↦ rw (exchange_authorization_code, v, e, r) (inl (grant_error, refl))
      | inr r ↦
          elim (issue_token_pair-cases runtime.base x.fresh x.issued_at (code_subject code)
            s.database) [
              | inl (f, t) ↦ rw (exchange_authorization_code, v, e, r, t) (inl (f, refl))
              | inr t ↦
                  rw (exchange_authorization_code, v, e, r, t)
                    (inr (
                      response_of runtime.base x.fresh (code_subject code),
                      refl,
                      record {
                        code = code;
                        found = e;
                        unspent = ground (arith, r);
                        in_time = ground (arith, r);
                        client = ground (arith, r, eq_iff code.client_id x.client_id);
                        redirect = ground (arith, r, eq_iff code.redirect_uri x.redirect_uri);
                        audience = ground (arith, r, eq_iff code.resource x.resource);
                        proof = ground (
                          arith,
                          r,
                          eq_iff code.code_challenge (runtime.sha256_base64url x.code_verifier),
                        );
                        codes = refl;
                        database = refl;
                        answer = refl;
                      },
                    ))
            ]
    ]
  ]
]

-- What happens at the tables: a code is issued or exchanged, or the token tables become others.
pub data Op : Type 0 where
  issue : Issue → Op
  redeem : CodeExchange → Op
  elsewhere : Database → Op

abbrev pub issued : Store → Result Failure (String × Store) → Store
issued s (ok (code, s')) = s'
issued s (err e) = s

abbrev pub run_op : CodeRuntime → Op → Store → Store
run_op runtime (issue x) s = issued s (issue_authorization_code runtime x s)
run_op runtime (redeem x) s = (exchange_authorization_code runtime x s).0
run_op runtime (elsewhere db) s = record s { database = db }

abbrev pub run_ops : CodeRuntime → List Op → Store → Store
run_ops runtime [] s = s
run_ops runtime (op ∷ ops) s = run_ops runtime ops (run_op runtime op s)

-- The row that the hash finds was consumed.
record IsSpentCode (hash : String) (rows : List CodeRow) : Type 0 where
  row : CodeRow
  found : find_code hash rows ≡ some row
  consumed : is_some row.consumed_at ≡ true

find_code-consume :
    (id : String) (now : Date) (h : String) (rows : List CodeRow) (r : CodeRow)
    → find_code h rows ≡ some r
    → find_code h (map (consume_code_row id now) rows) ≡ some (consume_code_row id now r)
unfolding find_code
find_code-consume id now h [] r e = cc
find_code-consume id now h (x ∷ rows) r e = ground (arith, find_code-consume id now h rows r)

find_code-append :
    (h : String) (rows more : List CodeRow) (r : CodeRow)
    → find_code h rows ≡ some r
    → find_code h (rows ++ more) ≡ some r
unfolding find_code
find_code-append h [] more r e = cc
find_code-append h (x ∷ rows) more r e = ground (arith, find_code-append h rows more r)

consume-IsSpentCode :
    (id : String) (now : Date) (h : String) (rows : List CodeRow)
    → IsSpentCode h rows
    → IsSpentCode h (map (consume_code_row id now) rows)
consume-IsSpentCode id now h rows s = record {
  row = consume_code_row id now s.row;
  found = find_code-consume id now h rows s.row s.found;
  consumed = let c = s.consumed in ground (arith, c);
}

run_op-IsSpentCode :
    (runtime : CodeRuntime) (op : Op) (h : String) (s : Store)
    → IsSpentCode h s.codes
    → IsSpentCode h (run_op runtime op s).codes
unfolding issue_authorization_code
run_op-IsSpentCode runtime (issue x) h s p =
    let q : IsSpentCode h (s.codes ++ code_row runtime x ∷ []) = record {
      row = p.row;
      found = find_code-append h s.codes (code_row runtime x ∷ []) p.row p.found;
      consumed = p.consumed;
    } in
    ground (arith, p, q)
run_op-IsSpentCode runtime (redeem x) h s p = elim (exchange_code-IsGrant runtime x s) [
  | inl (e, same) ↦ rw (run_op, same) p
  | inr (response, _, g) ↦
      rw (run_op, g.codes) (consume-IsSpentCode g.code.id x.written_at h s.codes p)
]
run_op-IsSpentCode runtime (elsewhere db) h s p = p

run_ops-IsSpentCode :
    (runtime : CodeRuntime) (ops : List Op) (h : String) (s : Store)
    → IsSpentCode h s.codes
    → IsSpentCode h (run_ops runtime ops s).codes
run_ops-IsSpentCode runtime [] h s p = p
run_ops-IsSpentCode runtime (op ∷ ops) h s p =
    run_ops-IsSpentCode runtime ops h (run_op runtime op s) (run_op-IsSpentCode runtime op h s p)

refuses_spent :
    (runtime : CodeRuntime) (x : CodeExchange) (s : Store)
    → IsSpentCode (runtime.base.keyed_hash x.code) s.codes
    → exchange_authorization_code runtime x s ≡ (s, err grant_error)
unfolding exchange_authorization_code is_refused
refuses_spent runtime x s p = elim (Bool-cases (is_verifier x.code_verifier)) [
  | inr v ↦ rw (exchange_authorization_code, v) refl
  | inl v ↦ rw (exchange_authorization_code, v, p.found, is_refused, p.consumed) refl
]

redeemed-IsSpentCode :
    (runtime : CodeRuntime) (x : CodeExchange) (s : Store) (response : TokenResponse)
    → (exchange_authorization_code runtime x s).1 ≡ ok response
    → IsSpentCode (runtime.base.keyed_hash x.code) (exchange_authorization_code runtime x s).0.codes
redeemed-IsSpentCode runtime x s response h = elim (exchange_code-IsGrant runtime x s) [
  | inl (e, same) ↦ cc
  | inr (r, _, g) ↦ rw g.codes (record {
    row = consume_code_row g.code.id x.written_at g.code;
    found =
        find_code-consume g.code.id x.written_at (runtime.base.keyed_hash x.code) s.codes g.code
          g.found;
    consumed = ground (arith, eq_iff g.code.id g.code.id);
  })
]

-- After an exchange that is answered with tokens, and whatever codes are issued and exchanged and
-- whatever the token tables become then, an exchange of the same code is refused and leaves the
-- tables.
pub redeem-once :
    (runtime : CodeRuntime) (x : CodeExchange) (s : Store) (response : TokenResponse)
    → (exchange_authorization_code runtime x s).1 ≡ ok response
    → (ops : List Op) (again : CodeExchange) → again.code ≡ x.code
    → exchange_authorization_code runtime again
        (run_ops runtime ops (exchange_authorization_code runtime x s).0)
      ≡ (run_ops runtime ops (exchange_authorization_code runtime x s).0, err grant_error)
redeem-once runtime x s response h ops again same =
    let s1 = (exchange_authorization_code runtime x s).0 in
    refuses_spent runtime again (run_ops runtime ops s1) (
      subst (λ c. IsSpentCode (runtime.base.keyed_hash c) (run_ops runtime ops s1).codes) (sym same)
        (run_ops-IsSpentCode runtime ops (runtime.base.keyed_hash x.code) s1
          (redeemed-IsSpentCode runtime x s response h)))
