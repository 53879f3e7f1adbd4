-- ===== src/Oauth/Sessions.antt =====
-- Sequences of token exchanges and revocations at one server.
pub mod Reuse
pub mod SingleUse
pub mod Grants
use skillplane.Common.{
  ℕ, ◌≡◌, refl, Option, none, some, Bool, true, false, List, [], ◌∷◌, ◌⊎◌, inl, inr, Bool-cases,
  Result-cases, Result, ok, err, leb,
}
use skillplane.Oauth.{Runtime, Failure, oauth, temporarily_unavailable, internal}
use skillplane.Oauth.RateLimit.{RateLimitDecision, RateLimits, consume_rate_limit}
use skillplane.Oauth.Revocation.{Revocation, revoke_token}
use skillplane.Oauth.Refresh.{Exchange, Server, refresh_transaction, exchange_refresh_token}

pub data Op : Type 0 where
  exchange : Exchange → Op
  revoke : Revocation → Op

abbrev pub run_op : Runtime → Op → Server → Server
run_op runtime (exchange x) s = (exchange_refresh_token runtime x s).server
run_op runtime (revoke x) s = record s { database = revoke_token runtime x s.database }

abbrev pub run_ops : Runtime → List Op → Server → Server
run_ops runtime [] s = s
run_ops runtime (op ∷ ops) s = run_ops runtime ops (run_op runtime op s)

-- An exchange is refused before its transaction, which leaves the database, or it answers as its
-- transaction does.
pub exchange_refresh_token-cases :
    (runtime : Runtime) (x : Exchange) (s : Server)
    → ((e : Failure) × ((exchange_refresh_token runtime x s).reply ≡ err e)
        × ((exchange_refresh_token runtime x s).server.database ≡ s.database)
        × ((exchange_refresh_token runtime x s).committed ≡ false))
      ⊎ (((exchange_refresh_token runtime x s).reply
            ≡ (refresh_transaction runtime x s.database).reply)
          × ((exchange_refresh_token runtime x s).server.database
              ≡ (refresh_transaction runtime x s.database).database))
unfolding exchange_refresh_token
exchange_refresh_token-cases runtime x s =
    elim (Result-cases (consume_rate_limit s.limits x.bucket 60 60 x.limited_at)) [
      | inr (e, r) ↦ rw (r, exchange_refresh_token) (inl (internal, refl, refl, refl))
      | inl ((rate, limits), r) ↦ elim (Bool-cases rate.allowed) [
        | inl a ↦ rw (r, exchange_refresh_token, a) (inr (refl, refl))
        | inr a ↦
            rw (r, exchange_refresh_token, a)
              (inl (
                oauth temporarily_unavailable 429 (some rate.retry_after_seconds),
                refl,
                refl,
                refl,
              ))
      ]
    ]
