-- ===== src/Oauth/Sessions/Reuse.antt =====
-- A family of refresh tokens, of which one is presented again.
use skillplane.Common.{
  String, ◌≡◌, sym, ◌∙◌, some, true, List, [], ◌∷◌, inl, inr, subst, err, is_some,
}
use skillplane.Oauth.{Database, RefreshRow, Runtime, Failure, grant_error, find_refresh}
use skillplane.Oauth.Rows.{IsDead}
use skillplane.Oauth.Refresh.{Exchange, Server, refresh_transaction, exchange_refresh_token}
use skillplane.Oauth.Refresh.Family.{
  refresh_transaction-keeps_IsDead, refresh_transaction-refuses_dead, revoke_token-keeps_IsDead,
  detect_reuse-IsDead,
}
use skillplane.Oauth.Sessions.{Op, exchange, revoke, run_op, run_ops, exchange_refresh_token-cases}

run_op-keeps_IsDead :
    (family : String) (runtime : Runtime) (op : Op) (s : Server)
    → IsDead family s.database
    → IsDead family (run_op runtime op s).database
run_op-keeps_IsDead family runtime (exchange x) s d =
    elim (exchange_refresh_token-cases runtime x s) [
      | inl (e, _, same, _) ↦ subst (IsDead family) (sym same) d
      | inr (_, same) ↦
          subst (IsDead family) (sym same)
            (refresh_transaction-keeps_IsDead family runtime x s.database d)
    ]
run_op-keeps_IsDead family runtime (revoke x) s d =
    revoke_token-keeps_IsDead family runtime x s.database d

run_ops-keeps_IsDead :
    (family : String) (runtime : Runtime) (ops : List Op) (s : Server)
    → IsDead family s.database
    → IsDead family (run_ops runtime ops s).database
run_ops-keeps_IsDead family runtime [] s d = d
run_ops-keeps_IsDead family runtime (op ∷ ops) s d =
    run_ops-keeps_IsDead family runtime ops (run_op runtime op s)
      (run_op-keeps_IsDead family runtime op s d)

-- The transaction of a token that was consumed revokes its family.
transaction-detects :
    (runtime : Runtime) (x : Exchange) (db : Database) (token : RefreshRow)
    → find_refresh (runtime.keyed_hash x.refresh_token) db.refresh ≡ some token
    → is_some token.consumed_at ≡ true
    → IsDead token.family_id (refresh_transaction runtime x db).database
unfolding refresh_transaction
transaction-detects runtime x db token e c =
    rw (e, refresh_transaction, c) (detect_reuse-IsDead x token db)

-- Once the exchange of a consumed token has committed, every refresh and access token of its family
-- is revoked, and stays so through every sequence of exchanges and revocations.
pub reuse-IsDead :
    (runtime : Runtime) (x : Exchange) (s : Server) (token : RefreshRow)
    → find_refresh (runtime.keyed_hash x.refresh_token) s.database.refresh ≡ some token
    → is_some token.consumed_at ≡ true
    → (exchange_refresh_token runtime x s).committed ≡ true
    → (ops : List Op)
    → IsDead token.family_id
        (run_ops runtime ops (exchange_refresh_token runtime x s).server).database
reuse-IsDead runtime x s token e c committed ops =
    run_ops-keeps_IsDead token.family_id runtime ops (exchange_refresh_token runtime x s).server
      (elim (exchange_refresh_token-cases runtime x s) [
        | inl (f, _, _, aborted) ↦ cc
        | inr (_, same) ↦
            subst (IsDead token.family_id) (sym same)
              (transaction-detects runtime x s.database token e c)
      ])

-- After the exchange of a consumed token has committed, and whatever is exchanged and revoked then,
-- no exchange of a token of the same family is answered with tokens.
pub reuse-refuses :
    (runtime : Runtime) (x : Exchange) (s : Server) (token : RefreshRow)
    → find_refresh (runtime.keyed_hash x.refresh_token) s.database.refresh ≡ some token
    → is_some token.consumed_at ≡ true
    → (exchange_refresh_token runtime x s).committed ≡ true
    → (ops : List Op) (later : Exchange) (other : RefreshRow)
    → find_refresh
        (runtime.keyed_hash later.refresh_token)
        (run_ops runtime ops (exchange_refresh_token runtime x s).server).database.refresh
      ≡ some other
    → other.family_id ≡ token.family_id
    → (e : Failure) × ((exchange_refresh_token runtime later
          (run_ops runtime ops (exchange_refresh_token runtime x s).server)).reply
        ≡ err e)
reuse-refuses runtime x s token e c committed ops later other found same =
    let s' = run_ops runtime ops (exchange_refresh_token runtime x s).server in
    elim (exchange_refresh_token-cases runtime later s') [
      | inl (f, refused, _, _) ↦ (f, refused)
      | inr (answer, _) ↦ (
        grant_error,
        answer
            ∙ refresh_transaction-refuses_dead runtime later s'.database other found (
                subst (λ f. IsDead f s'.database) (sym same)
                  (reuse-IsDead runtime x s token e c committed ops)),
      )
    ]
