-- ===== src/Oauth/Sessions/SingleUse.antt =====
-- A refresh token that is presented twice.
use skillplane.Common.{
  ℕ, String, ◌≡◌, sym, ◌∙◌, refl, some, true, Bool-cases, Option-cases, List, [], ◌∷◌, ◌++◌, map,
  inl, inr, subst, ok, err, is_some, arith, eq_iff, str_eq,
}
use skillplane.Oauth.{
  Database, RefreshRow, Runtime, Failure, grant_error, find_refresh, find_access, revoke_family,
  revoke_refresh_row,
}
use skillplane.Oauth.Rows.{find_refresh-map, find_refresh-append}
use skillplane.Oauth.Tokens.{TokenResponse}
use skillplane.Oauth.Revocation.{Revocation, revoke_token}
use skillplane.Oauth.Refresh.{
  Exchange, Server, refresh_transaction, exchange_refresh_token, detect_reuse, audited, rotate,
  consume_row,
}
use skillplane.Oauth.Refresh.Rotation.{Rotated, rotate-cases}
use skillplane.Oauth.Sessions.{Op, exchange, revoke, run_op, run_ops, exchange_refresh_token-cases}

-- The row that the hash finds was consumed.
record IsSpent (hash : String) (rows : List RefreshRow) : Type 0 where
  row : RefreshRow
  found : find_refresh hash rows ≡ some row
  consumed : is_some row.consumed_at ≡ true

IsSpent-map :
    (g : RefreshRow → RefreshRow)
    → ((r : RefreshRow) → (g r).token_hash ≡ r.token_hash)
    → ((r : RefreshRow) → is_some r.consumed_at ≡ true → is_some (g r).consumed_at ≡ true)
    → (hash : String) (rows : List RefreshRow) → IsSpent hash rows
    → IsSpent hash (map g rows)
IsSpent-map g keep more hash rows s = record {
  row = g s.row;
  found = find_refresh-map g keep hash rows s.row s.found;
  consumed = more s.row s.consumed;
}

IsSpent-append :
    (hash : String) (rows more : List RefreshRow) → IsSpent hash rows → IsSpent hash (rows ++ more)
IsSpent-append hash rows more s = record {
  row = s.row;
  found = find_refresh-append hash rows more s.row s.found;
  consumed = s.consumed;
}

revoke_family-keeps_IsSpent :
    (hash family : String) (now : ℕ) (db : Database)
    → IsSpent hash db.refresh
    → IsSpent hash (revoke_family family now db).refresh
unfolding revoke_family
revoke_family-keeps_IsSpent hash family now db s =
    IsSpent-map (revoke_refresh_row family now) (λ r. ground arith) (λ r c. ground arith) hash
      db.refresh s

Rotated-keeps_IsSpent :
    (hash : String) (runtime : Runtime) (x : Exchange) (token : RefreshRow) (db db' : Database)
    → Rotated runtime x token db db'
    → IsSpent hash db.refresh
    → IsSpent hash db'.refresh
Rotated-keeps_IsSpent hash runtime x token db db' r s = subst (IsSpent hash) (sym r.refresh) (
    IsSpent-append hash (map (consume_row token.id x.written_at) db.refresh) _ (
      IsSpent-map (consume_row token.id x.written_at) (λ r. ground arith) (λ r c. ground arith) hash
        db.refresh s))

-- The token that is rotated is spent.
Rotated-IsSpent :
    (hash : String) (runtime : Runtime) (x : Exchange) (token : RefreshRow) (db db' : Database)
    → find_refresh hash db.refresh ≡ some token
    → Rotated runtime x token db db'
    → IsSpent hash db'.refresh
Rotated-IsSpent hash runtime x token db db' found r = subst (IsSpent hash) (sym r.refresh) (
    IsSpent-append hash (map (consume_row token.id x.written_at) db.refresh) _ (record {
      row = consume_row token.id x.written_at token;
      found =
          find_refresh-map (consume_row token.id x.written_at) (λ r. ground arith) hash db.refresh
            token found;
      consumed = ground (arith, eq_iff token.id token.id);
    }))

rotate-keeps_IsSpent :
    (hash : String) (runtime : Runtime) (x : Exchange) (token : RefreshRow) (db : Database)
    → IsSpent hash db.refresh
    → IsSpent hash (rotate runtime x token db).database.refresh
rotate-keeps_IsSpent hash runtime x token db s = elim (rotate-cases runtime x token db) [
  | inl (e, _, same) ↦ subst (λ d. IsSpent hash d.refresh) (sym same) s
  | inr (response, _, r) ↦
      Rotated-keeps_IsSpent hash runtime x token db (rotate runtime x token db).database r s
]

refresh_transaction-keeps_IsSpent :
    (hash : String) (runtime : Runtime) (x : Exchange) (db : Database)
    → IsSpent hash db.refresh
    → IsSpent hash (refresh_transaction runtime x db).database.refresh
unfolding refresh_transaction detect_reuse audited
refresh_transaction-keeps_IsSpent hash runtime x db s =
    elim (Option-cases (find_refresh (runtime.keyed_hash x.refresh_token) db.refresh)) [
      | inl e ↦ rw (e, refresh_transaction) s
      | inr (token, e) ↦ elim (Bool-cases (is_some token.consumed_at)) [
        | inl c ↦
            rw (e, refresh_transaction, c)
              (revoke_family-keeps_IsSpent hash token.family_id x.checked_at db s)
        | inr c ↦ rw (e, refresh_transaction, c) (rotate-keeps_IsSpent hash runtime x token db s)
      ]
    ]

revoke_token-keeps_IsSpent :
    (hash : String) (runtime : Runtime) (x : Revocation) (db : Database)
    → IsSpent hash db.refresh
    → IsSpent hash (revoke_token runtime x db).refresh
unfolding revoke_token
revoke_token-keeps_IsSpent hash runtime x db s =
    elim (Option-cases (find_refresh (runtime.keyed_hash x.token) db.refresh)) [
      | inr (token, e) ↦
          let k = revoke_family-keeps_IsSpent hash token.family_id x.revoked_at db s in
          rw (e, revoke_token) (ground (arith, k))
      | inl e ↦ elim (Option-cases (find_access (runtime.keyed_hash x.token) db.access)) [
        | inl e2 ↦ rw (e, revoke_token, e2) s
        | inr (token, e2) ↦ elim (Bool-cases (str_eq token.client_id x.client_id)) [
          | inl c ↦ rw (e, revoke_token, e2, c) s
          | inr c ↦ rw (e, revoke_token, e2, c) s
        ]
      ]
    ]

run_op-keeps_IsSpent :
    (hash : String) (runtime : Runtime) (op : Op) (s : Server)
    → IsSpent hash s.database.refresh
    → IsSpent hash (run_op runtime op s).database.refresh
run_op-keeps_IsSpent hash runtime (exchange x) s p =
    elim (exchange_refresh_token-cases runtime x s) [
      | inl (e, _, same, _) ↦ subst (λ d. IsSpent hash d.refresh) (sym same) p
      | inr (_, same) ↦
          subst (λ d. IsSpent hash d.refresh) (sym same)
            (refresh_transaction-keeps_IsSpent hash runtime x s.database p)
    ]
run_op-keeps_IsSpent hash runtime (revoke x) s p =
    revoke_token-keeps_IsSpent hash runtime x s.database p

run_ops-keeps_IsSpent :
    (hash : String) (runtime : Runtime) (ops : List Op) (s : Server)
    → IsSpent hash s.database.refresh
    → IsSpent hash (run_ops runtime ops s).database.refresh
run_ops-keeps_IsSpent hash runtime [] s p = p
run_ops-keeps_IsSpent hash runtime (op ∷ ops) s p =
    run_ops-keeps_IsSpent hash runtime ops (run_op runtime op s)
      (run_op-keeps_IsSpent hash runtime op s p)

-- A transaction that answers with tokens has spent the one presented.
refresh_transaction-IsSpent :
    (runtime : Runtime) (x : Exchange) (db : Database) (response : TokenResponse)
    → (refresh_transaction runtime x db).reply ≡ ok response
    → IsSpent
        (runtime.keyed_hash x.refresh_token)
        (refresh_transaction runtime x db).database.refresh
unfolding refresh_transaction detect_reuse
refresh_transaction-IsSpent runtime x db response =
    elim (Option-cases (find_refresh (runtime.keyed_hash x.refresh_token) db.refresh)) [
      | inl e ↦ rw (e, refresh_transaction) (λ h. cc)
      | inr (token, e) ↦ elim (Bool-cases (is_some token.consumed_at)) [
        | inl c ↦ rw (e, refresh_transaction, c) (λ h. cc)
        | inr c ↦
            rw (e, refresh_transaction, c)
              (λ h. elim (rotate-cases runtime x token db) [
                | inl (f, refused, _) ↦ cc
                | inr (reply, _, r) ↦
                    Rotated-IsSpent (runtime.keyed_hash x.refresh_token) runtime x token db
                      (rotate runtime x token db).database e r
              ])
      ]
    ]

-- A spent token is refused.
refresh_transaction-refuses_spent :
    (runtime : Runtime) (x : Exchange) (db : Database)
    → IsSpent (runtime.keyed_hash x.refresh_token) db.refresh
    → (refresh_transaction runtime x db).reply ≡ err grant_error
unfolding refresh_transaction detect_reuse
refresh_transaction-refuses_spent runtime x db s =
    rw (s.found, refresh_transaction, s.consumed) refl

-- After an exchange that is answered with tokens, and whatever is exchanged and revoked then, no
-- exchange of the same refresh token is answered with tokens.
pub exchange-once :
    (runtime : Runtime) (x : Exchange) (s : Server) (response : TokenResponse)
    → (exchange_refresh_token runtime x s).reply ≡ ok response
    → (ops : List Op) (again : Exchange) → again.refresh_token ≡ x.refresh_token
    → (e : Failure) × ((exchange_refresh_token runtime again
          (run_ops runtime ops (exchange_refresh_token runtime x s).server)).reply
        ≡ err e)
exchange-once runtime x s response h ops again same =
    let s1 = (exchange_refresh_token runtime x s).server in
    let spent : IsSpent (runtime.keyed_hash x.refresh_token) s1.database.refresh =
      elim (exchange_refresh_token-cases runtime x s) [
        | inl (f, refused, _, _) ↦ cc
        | inr (answer, left) ↦
            subst (λ d. IsSpent (runtime.keyed_hash x.refresh_token) d.refresh) (sym left)
              (refresh_transaction-IsSpent runtime x s.database response (sym answer ∙ h))
      ] in
    let s2 = run_ops runtime ops s1 in
    elim (exchange_refresh_token-cases runtime again s2) [
      | inl (f, refused, _, _) ↦ (f, refused)
      | inr (answer, _) ↦ (
        grant_error,
        answer
            ∙ refresh_transaction-refuses_spent runtime again s2.database (
                subst (λ t. IsSpent (runtime.keyed_hash t) s2.database.refresh) (sym same)
                  (run_ops-keeps_IsSpent (runtime.keyed_hash x.refresh_token) runtime ops s1
                    spent)),
      )
    ]
