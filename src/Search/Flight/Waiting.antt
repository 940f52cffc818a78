-- ===== src/Search/Flight/Waiting.antt =====
-- infrastructure/search/cache.py: the wait for a flight ends.
use web_access_mcp_server.Base.{
  ◌≡◌, refl, ℕ, zero, suc, ◌+◌, ◌-◌, ◌≤◌, ◌<◌, arith, String, true, false, Option, none, some,
  is_some, leb, Bool-cases, inl, inr,
}
use web_access_mcp_server.Search.Flight.{
  SetReply, set_done, set_refused, set_failed, FlightLease, FlightPorts, sleep_for, turn,
  acquire_from, deadline_of,
}

not_over : (a b : ℕ) → leb a b ≡ false → b < a
not_over a b h = ground arith

module _ (ports : FlightPorts) (poll : ℕ) (token : String) where
  -- what a turn leaves, with the further turns
  abbrev or_again : Option FlightLease → Option FlightLease → Option FlightLease
  or_again (some lease) again = some lease
  or_again none again = again

  acquire_from-suc :
      (deadline : Option ℕ) (fuel n : ℕ)
      → acquire_from ports poll token deadline (suc fuel) n
        ≡ or_again
            (turn ports poll token deadline (ports.reply n) (ports.monotonic n))
            (acquire_from ports poll token deadline fuel (suc n))
  unfolding acquire_from
  acquire_from-suc deadline fuel n =
      go (turn ports poll token deadline (ports.reply n) (ports.monotonic n))
    where
      go :
          (t : Option FlightLease)
          → (elim t [
            | some lease ↦ some lease
            | none ↦ acquire_from ports poll token deadline fuel (suc n)
          ])
            ≡ or_again t (acquire_from ports poll token deadline fuel (suc n))
      go (some lease) = refl
      go none = refl

  -- the clock goes on by what is slept
  abbrev pub Sleeps : Option ℕ → Type 0
  Sleeps deadline =
      (n : ℕ)
      → ports.monotonic n + sleep_for poll deadline (ports.monotonic n) ≤ ports.monotonic (suc n)

  module _ (positive : 1 ≤ poll) (deadline : ℕ) (sleeps : Sleeps (some deadline)) where
    ends_from :
        (fuel n : ℕ)
        → deadline - ports.monotonic n < fuel
        → is_some (acquire_from ports poll token (some deadline) fuel n) ≡ true
    ends_from zero n h = absurd (omega (arith, h))
    ends_from (suc fuel) n h =
        rw (acquire_from-suc (some deadline) fuel n)
          (go (ports.reply n) (later (ends_from fuel (suc n))))
      where
        later :
            (deadline - ports.monotonic (suc n) < fuel
              → is_some (acquire_from ports poll token (some deadline) fuel (suc n)) ≡ true)
            → leb deadline (ports.monotonic n) ≡ false
            → is_some (acquire_from ports poll token (some deadline) fuel (suc n)) ≡ true
        later go_on e =
            go_on (omega (arith, h, sleeps n, not_over deadline (ports.monotonic n) e, positive))

        go :
            (r : SetReply)
            → (leb deadline (ports.monotonic n) ≡ false
                → is_some (acquire_from ports poll token (some deadline) fuel (suc n)) ≡ true)
            → is_some (
                or_again
                  (turn ports poll token (some deadline) r (ports.monotonic n))
                  (acquire_from ports poll token (some deadline) fuel (suc n)))
              ≡ true
        go set_done k = refl
        go set_failed k = refl
        go set_refused k = elim (Bool-cases (leb deadline (ports.monotonic n))) [
          | inl e ↦ rw e refl
          | inr e ↦ rw e (k e)
        ]

  -- With a bound on the wait, `acquire` returns within one turn for each millisecond of the wait and
  -- one more, if the pause between two turns is not 0, the clock starts no earlier than the call and
  -- goes on by what is slept.
  pub acquire_ends :
      (now wait : ℕ)
      → 1 ≤ poll
      → now ≤ ports.monotonic 0
      → Sleeps (deadline_of now (some wait))
      → is_some (acquire_from ports poll token (deadline_of now (some wait)) (suc wait) 0) ≡ true
  acquire_ends now wait positive start sleeps =
      ends_from positive (now + wait) sleeps (suc wait) 0 (omega (arith, start))
