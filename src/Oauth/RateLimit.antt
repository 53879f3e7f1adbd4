-- ===== src/Oauth/RateLimit.antt =====
-- `consumeRateLimit` of packages/db/src/rate-limit.ts: a fixed window of requests for each bucket.
use skillplane.Common.{
  ℕ, ◌+◌, ◌-◌, ◌*◌, ◌/◌, max, String, Bool, ◌||◌, ◌&&◌, ltb, leb, ◌==◌, str_eq, Result, ok, err,
  if◌then◌else◌, Date,
}

-- `request_count` of each bucket hash and window.
abbrev pub RateLimits : Type 0
RateLimits = String → ℕ → ℕ

pub record RateLimitDecision : Type 0 where
  pub allowed : Bool
  pub remaining : ℕ
  pub retry_after_seconds : ℕ

abbrev pub bump : RateLimits → String → ℕ → RateLimits
bump t bucket window b w = if str_eq bucket b && window == w then t bucket window + 1 else t b w

-- Where the window of an instant starts, in seconds.
unfoldable pub window_start : ℕ → Date → ℕ
window_start window_seconds now = now / 1000 / window_seconds * window_seconds

-- `bucket` is the SHA-256 of the key. The statement commits by itself.
unfoldable pub consume_rate_limit :
    RateLimits → String → ℕ → ℕ → Date → Result (Unit {0}) (RateLimitDecision × RateLimits)
consume_rate_limit t bucket limit window_seconds now =
    if ltb limit 1 || ltb window_seconds 1
    then err tt
    else let started = window_start window_seconds now in
      let count = t bucket started + 1 in
      ok (
        record {
          allowed = leb count limit;
          remaining = limit - count;
          retry_after_seconds = max 1 (started + window_seconds - now / 1000);
        },
        bump t bucket started,
      )
