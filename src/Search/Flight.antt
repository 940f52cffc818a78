-- ===== src/Search/Flight.antt =====
-- infrastructure/search/cache.py: `RedisSearchSingleFlight` over the key of one identity, and runs of
-- its commands by several clients while Redis keeps its data.
pub mod Exclusive
pub mod Waiting
use web_access_mcp_server.Base.{
  ℕ, zero, suc, ◌+◌, ◌-◌, min, String, Bool, true, false, not, Option, none, some, List, [], ◌∷◌,
  select, leb, ltb, str_eq, if◌then◌else◌,
}
use web_access_mcp_server.Search.Leases.{Lease, prune, remove}

-- `GET`: the token under the key, where it has not expired
abbrev pub live : ℕ → Option Lease → Option Lease
live now none = none
live now (some l) = if ltb now l.expires then some l else none

-- `SET key token NX PX lease_ms`: whether it was set, and what stands under the key then
abbrev pub set_at : ℕ → ℕ → String → Option Lease → Option Lease → Bool × Option Lease
set_at lease_ms now token stored none =
    (true, some (record { token = token; expires = now + lease_ms }))
set_at lease_ms now token stored (some l) = (false, stored)

unfoldable pub set_if_missing : ℕ → ℕ → String → Option Lease → Bool × Option Lease
set_if_missing lease_ms now token stored = set_at lease_ms now token stored (live now stored)

abbrev pub release_at : String → Option Lease → Option Lease → Option Lease
release_at token stored none = stored
release_at token stored (some l) = if str_eq l.token token then none else stored

-- `_RELEASE_IF_OWNER`
unfoldable pub release_if_owner : ℕ → String → Option Lease → Option Lease
release_if_owner now token stored = release_at token stored (live now stored)

-- The key, the clock, and the leases with a token that were granted and not given back.
pub record Flight : Type 0 where
  pub now : ℕ
  pub stored : Option Lease
  pub granted : List Lease

-- what happens: time passes, a client tries to set its token once, or gives its lease back
pub data FlightEvent : Type 0 where
  passed : ℕ → FlightEvent
  tried returned : String → FlightEvent

abbrev pub after_set : ℕ → String → Flight → Bool × Option Lease → Flight
after_set lease_ms token f (true, stored) = record {
  now = f.now;
  stored = stored;
  granted = record { token = token; expires = f.now + lease_ms } ∷ f.granted;
}
after_set lease_ms token f (false, stored) = record f { stored = stored }

unfoldable pub step : ℕ → Flight → FlightEvent → Flight
unfolding set_if_missing release_if_owner
step lease_ms f (passed d) = record f { now = f.now + d }
step lease_ms f (tried token) =
    after_set lease_ms token f (set_if_missing lease_ms f.now token f.stored)
step lease_ms f (returned token) = record f {
  stored = release_if_owner f.now token f.stored;
  granted = remove token f.granted;
}

unfoldable pub run : ℕ → Flight → List FlightEvent → Flight
unfolding step
run lease_ms f [] = f
run lease_ms f (e ∷ es) = run lease_ms (step lease_ms f e) es

abbrev pub no_flight : Flight
no_flight = record { now = 0; stored = none; granted = [] }

-- the answer of one `SET`, or an error of Redis
pub data SetReply : Type 0 where
  set_done set_refused set_failed : SetReply

-- `SingleFlightLease`, by whether it holds the flight and its token
pub record FlightLease : Type 0 where
  pub holder : Bool
  pub token : Option String

-- The surroundings of an `acquire`: the reply to the `SET` of each turn, and the clock after it, which
-- stands for both readings of a turn. A
-- time is in milliseconds.
pub record FlightPorts : Type 0 where
  pub reply : ℕ → SetReply
  pub monotonic : ℕ → ℕ

-- whether the waiting is over at a time: `monotonic() >= deadline`, or nothing remains
abbrev pub is_over : Option ℕ → ℕ → Bool
is_over none now = false
is_over (some deadline) now = leb deadline now

-- how long to sleep
abbrev pub sleep_for : ℕ → Option ℕ → ℕ → ℕ
sleep_for poll none now = poll
sleep_for poll (some deadline) now = min poll (deadline - now)

module _ (ports : FlightPorts) (poll : ℕ) (token : String) (deadline : Option ℕ) where
  abbrev pub refused : FlightLease
  refused = record { holder = false; token = none }

  -- what a turn gives: a lease, or nothing before another turn
  abbrev pub turn : SetReply → ℕ → Option FlightLease
  turn set_failed now = some (record { holder = true; token = none })
  turn set_done now = some (record { holder = true; token = some token })
  turn set_refused now = if is_over deadline now then some refused else none

  -- The loop of `acquire` from a turn on; the fuel is the number of turns that are left.
  unfoldable pub acquire_from : ℕ → ℕ → Option FlightLease
  acquire_from zero n = none
  acquire_from (suc fuel) n =
      let again = acquire_from fuel (suc n) in
      elim (turn (ports.reply n) (ports.monotonic n)) [ some lease ↦ some lease | none ↦ again ]

-- the deadline of `acquire`, by the time of its start
abbrev pub deadline_of : ℕ → Option ℕ → Option ℕ
deadline_of now none = none
deadline_of now (some wait) = some (now + wait)

-- the token that `release` gives back, where the lease has one
abbrev pub to_release : FlightLease → Option String
to_release lease = if lease.holder then lease.token else none
