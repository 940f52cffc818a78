-- ===== src/Search/Rate.antt =====
-- infrastructure/search/admission.py: `_TOKEN_BUCKET` over the buckets of one provider. A rate of
-- `refill / scale` tokens per second is kept exact: a token counts `1000 * scale`, so that a
-- millisecond brings `refill`. The Lua script computes the same in floating point.
pub mod Bound
use web_access_mcp_server.Base.{
  ℕ, ◌+◌, ◌-◌, ◌*◌, ◌/◌, min, max, String, Bool, true, false, ◌||◌, Option, none, some, leb, ltb,
  if◌then◌else◌,
}
use web_access_mcp_server.Search.Flow.{Marker, refresh}

-- `TokenBucketPolicy`
pub record BucketPolicy : Type 0 where
  pub capacity : ℕ
  pub refill : ℕ
  pub scale : ℕ

-- `ProviderRatePolicy` with the times that `admit` computes from it
pub record RatePolicy : Type 0 where
  pub principal : BucketPolicy
  pub global : BucketPolicy
  pub ttl_ms : ℕ
  pub horizon_ms : ℕ

-- the hash of a bucket, and the time at which its key expires
pub record Bucket : Type 0 where
  pub tokens : ℕ
  pub updated_ms : ℕ
  pub key_expires : ℕ

-- the three statuses, with the time to wait
pub data RateReply : Type 0 where
  limited : ℕ → RateReply
  allowed : RateReply
  quarantined : ℕ → RateReply

abbrev pub token : BucketPolicy → ℕ
token p = 1000 * p.scale

abbrev pub full : BucketPolicy → ℕ
full p = p.capacity * token p

-- `state(key, capacity, refill)`: a missing key, and one that has expired, is a full bucket.
unfoldable pub level : BucketPolicy → ℕ → Option Bucket → ℕ
level p now none = full p
level p now (some b) =
    if leb b.key_expires now
    then full p
    else min (full p) (b.tokens + (now - b.updated_ms) * p.refill)

abbrev pub ceil_div : ℕ → ℕ → ℕ
ceil_div a b = (a + b - 1) / b

-- the milliseconds until one token is there
unfoldable pub wait_ms : BucketPolicy → ℕ → ℕ
wait_ms p tokens = if ltb tokens (token p) then ceil_div (token p - tokens) p.refill else 0

abbrev pub take_token : RatePolicy → BucketPolicy → ℕ → Option Bucket → Option Bucket
take_token policy p now b = some (record {
  tokens = level p now b - token p;
  updated_ms = now;
  key_expires = now + policy.ttl_ms;
})

-- the part of the script behind the quarantine
unfoldable pub take_tokens :
    RatePolicy → ℕ → Option Bucket → Option Bucket → RateReply × Option Bucket × Option Bucket
unfolding level wait_ms
take_tokens policy now principal global =
    if ltb (level policy.principal now principal) (token policy.principal)
      || ltb (level policy.global now global) (token policy.global)
    then (
      limited (
          max (wait_ms policy.principal (level policy.principal now principal))
            (wait_ms policy.global (level policy.global now global))),
      principal,
      global,
    )
    else (
      allowed,
      take_token policy policy.principal now principal,
      take_token policy policy.global now global,
    )

-- `_TOKEN_BUCKET`
unfoldable pub token_bucket :
    RatePolicy
    → ℕ
    → String
    → String
    → Option Marker
    → Option Bucket
    → Option Bucket
    → RateReply × Marker × Option Bucket × Option Bucket
unfolding take_tokens refresh
token_bucket policy now run_id generation marker principal global =
    let m = refresh now run_id policy.horizon_ms generation marker in
    if ltb now m.quarantine_until
    then (quarantined (m.quarantine_until - now), m, principal, global)
    else let (reply, p, g) = take_tokens policy now principal global in (reply, m, p, g)

-- Redis and its clock, and the number of admissions that a provider has had.
pub record RateWorld : Type 0 where
  pub now : ℕ
  pub run_id : String
  pub marker : Option Marker
  pub global : Option Bucket
  pub admitted : ℕ

-- What happens: time passes; a principal, with its bucket, asks for admission; Redis restarts under
-- another run id, and loses the buckets and, or not, the marker.
pub data RateEvent : Type 0 where
  tick : ℕ → RateEvent
  ask : Option Bucket → String → RateEvent
  restart : String → Bool → RateEvent

abbrev pub counted : RateReply → ℕ → ℕ
counted allowed n = n + 1
counted _ n = n

unfoldable pub rate_step : RatePolicy → RateWorld → RateEvent → RateWorld
unfolding token_bucket
rate_step policy w (tick d) = record w { now = w.now + d }
rate_step policy w (ask principal generation) =
    let (reply, m, p, g) =
      token_bucket policy w.now w.run_id generation w.marker principal w.global in
    record w { marker = some m; global = g; admitted = counted reply w.admitted }
rate_step policy w (restart run_id keeps_marker) = record w {
  run_id = run_id;
  marker = if keeps_marker then w.marker else none;
  global = none;
}
