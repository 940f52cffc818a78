-- ===== src/Search/Leases.antt =====
-- infrastructure/search/admission.py: `_CONCURRENCY_ACQUIRE` and `_CONCURRENCY_RELEASE` over the
-- sorted set of one provider, and runs of them with restarts of Redis in between.
pub mod Limit
use web_access_mcp_server.Base.{
  ℕ, suc, ◌+◌, ◌*◌, ◌≤◌, ◌<◌, ◌≡◌, String, Bool, true, false, not, Option, none, some, List, [],
  ◌∷◌, ◌++◌, length, select, leb, ltb, str_eq, if◌then◌else◌,
}
use web_access_mcp_server.Search.Flow.{Marker, refresh}

-- a member of the sorted set: a lease's token with its expiry as the score
pub record Lease : Type 0 where
  pub token : String
  pub expires : ℕ

-- the sorted set, and the time at which its key expires
pub record LeaseSet : Type 0 where
  pub members : List Lease
  pub key_expires : ℕ

pub record LeasePolicy : Type 0 where
  pub global_limit : ℕ
  pub lease_ms : ℕ
  pub horizon_ms : ℕ

pub data AcquireReply : Type 0 where
  granted busy quarantined : AcquireReply

-- what a script reads under the key
abbrev pub read_set : ℕ → LeaseSet → List Lease
read_set now z = if leb z.key_expires now then [] else z.members

-- `ZREMRANGEBYSCORE key -inf now`
abbrev pub prune : ℕ → List Lease → List Lease
prune now = select (λ l. ltb now l.expires)

-- `ZREM key token`
abbrev pub remove : String → List Lease → List Lease
remove token = select (λ l. not (str_eq l.token token))

-- `ZADD`: a member that is there gets a new score
abbrev pub add : Lease → List Lease → List Lease
add l ls = l ∷ remove l.token ls

-- the part of the script behind the quarantine
unfoldable pub acquire_slot : LeasePolicy → ℕ → String → LeaseSet → AcquireReply × LeaseSet
acquire_slot policy now token z =
    let pruned = prune now (read_set now z) in
    if leb policy.global_limit (length pruned)
    then (busy, record { members = pruned; key_expires = z.key_expires })
    else (
      granted,
      record {
        members = add (record { token = token; expires = now + policy.lease_ms }) pruned;
        key_expires = now + policy.lease_ms * 2;
      },
    )

-- `_CONCURRENCY_ACQUIRE`
unfoldable pub acquire :
    LeasePolicy
    → ℕ
    → String
    → String
    → String
    → Option Marker
    → LeaseSet
    → AcquireReply × Marker × LeaseSet
unfolding acquire_slot refresh
acquire policy now run_id token generation marker z =
    let m = refresh now run_id policy.horizon_ms generation marker in
    if ltb now m.quarantine_until
    then (quarantined, m, z)
    else let (reply, z') = acquire_slot policy now token z in (reply, m, z')

-- `_CONCURRENCY_RELEASE`
unfoldable pub release : ℕ → String → LeaseSet → LeaseSet
release now token z = record {
  members = remove token (read_set now z);
  key_expires = z.key_expires;
}

-- Redis, its clock, and the leases that it forgot in restarts while their holders went on.
pub record World : Type 0 where
  pub now : ℕ
  pub run_id : String
  pub marker : Option Marker
  pub set : LeaseSet
  pub forgotten : List Lease

-- What happens: time passes; a client acquires or releases, with a fresh generation at hand; Redis
-- restarts under another run id, and loses the set and, or not, the marker.
pub data Event : Type 0 where
  tick : ℕ → Event
  try_acquire : String → String → Event
  give_back : String → Event
  restart : String → Bool → Event

unfoldable pub step : LeasePolicy → World → Event → World
unfolding acquire release
step policy w (tick d) = record w { now = w.now + d }
step policy w (try_acquire token generation) =
    let (reply, m, z) = acquire policy w.now w.run_id token generation w.marker w.set in
    record w { marker = some m; set = z }
step policy w (give_back token) = record w {
  set = release w.now token w.set;
  forgotten = remove token w.forgotten;
}
step policy w (restart run_id keeps_marker) = record {
  now = w.now;
  run_id = run_id;
  marker = if keeps_marker then w.marker else none;
  set = record { members = []; key_expires = 0 };
  forgotten = read_set w.now w.set ++ w.forgotten;
}

unfoldable pub run : LeasePolicy → World → List Event → World
unfolding step
run policy w [] = w
run policy w (e ∷ es) = run policy (step policy w e) es

-- the leases that are held at the world's time, whether Redis knows of them or not
abbrev pub held : World → ℕ
held w = length (prune w.now (read_set w.now w.set)) + length (prune w.now w.forgotten)
