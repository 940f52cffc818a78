-- ===== src/Search/Rate/Bound.antt =====
-- infrastructure/search/admission.py: the admissions of a provider over time.
use native.Mathlib.Nat
use web_access_mcp_server.Base.{
  ℕ, ◌+◌, ◌-◌, ◌*◌, ◌≤◌, ◌<◌, ◌≡◌, ◌⊎◌, inl, inr, String, Bool, true, false, ◌||◌, Option, none,
  some, List, [], ◌∷◌, ltb, arith, Bool-cases, str_eq, if◌then◌else◌,
}
use web_access_mcp_server.Search.Flow.{Marker, refresh}
use web_access_mcp_server.Search.Rate.{
  BucketPolicy, RatePolicy, Bucket, RateReply, token, full, level, take_token, take_tokens,
  token_bucket, RateWorld, RateEvent, tick, ask, restart, counted, rate_step,
}

unfoldable pub rate_run : RatePolicy → RateWorld → List RateEvent → RateWorld
unfolding rate_step
rate_run policy w [] = w
rate_run policy w (e ∷ es) = rate_run policy (rate_step policy w e) es

-- A restart gives the server a run id that the marker does not have.
abbrev pub Differs : String → Option Marker → Type 0
Differs run_id none = Unit
Differs run_id (some m) = str_eq m.run_id run_id ≡ false

abbrev pub IsRenewed : RateWorld → RateEvent → Type 0
IsRenewed w (restart run_id keeps_marker) = Differs run_id w.marker
IsRenewed w _ = Unit

abbrev pub Renewed : RatePolicy → RateWorld → List RateEvent → Type 0
Renewed policy w [] = Unit
Renewed policy w (e ∷ es) = IsRenewed w e × Renewed policy (rate_step policy w e) es

gain_mono : (a b r : ℕ) → a ≤ b → a * r ≤ b * r
gain_mono a b r h = Nat.mul-le-mul_right r h

gain_add : (a b r : ℕ) → (a + b) * r ≡ a * r + b * r
gain_add a b r = omega arith

level-le-full : (p : BucketPolicy) (now : ℕ) (b : Option Bucket) → level p now b ≤ full p
unfolding level
level-le-full p now none = omega arith
level-le-full p now (some b) = ground arith

-- A bucket is full by the time its key expires.
abbrev pub Keyed : BucketPolicy → Option Bucket → Type 0
Keyed p none = Unit
Keyed p (some b) = full p ≤ (b.key_expires - b.updated_ms) * p.refill

-- An expired key was a full bucket: what the script reads grows with the refill at most.
level-later :
    (p : BucketPolicy) (now d : ℕ) (b : Option Bucket)
    → Keyed p b
    → level p (now + d) b ≤ level p now b + d * p.refill
unfolding level
level-later p now d none h = omega arith
level-later p now d (some b) h = ground (
  arith,
  h,
  gain_add (now - b.updated_ms) d p.refill,
  gain_mono (now + d - b.updated_ms) (now - b.updated_ms + d) p.refill (omega arith),
  λ (e : b.key_expires ≤ now + d).
      gain_mono (b.key_expires - b.updated_ms) (now + d - b.updated_ms) p.refill (omega (arith, e)),
)

module _ (policy : RatePolicy) (lasts : 0 < policy.ttl_ms)
    (refills : full policy.global ≤ policy.ttl_ms * policy.global.refill)
    (waits : full policy.global ≤ policy.horizon_ms * policy.global.refill) where
  -- the tokens that were given out, and the most that may have been
  abbrev spent : RateWorld → ℕ
  spent w = w.admitted * token policy.global

  abbrev budget : RateWorld → ℕ
  budget w = full policy.global + w.now * policy.global.refill

  -- A current marker holds back until what was given out is made up for.
  abbrev Quarantines : String → ℕ → Option Marker → Type 0
  Quarantines run_id tokens none = Unit
  Quarantines run_id tokens (some m) =
      (str_eq m.run_id run_id ≡ false) ⊎ (tokens ≤ m.quarantine_until * policy.global.refill)

  pub record IsRated (w : RateWorld) : Type 0 where
    pub keyed : Keyed policy.global w.global
    pub bound : spent w ≤ budget w
    pub backed :
        (spent w + level policy.global w.now w.global ≤ budget w)
        ⊎ Quarantines w.run_id (spent w) w.marker

  horizon-covers :
      (now tokens : ℕ)
      → tokens ≤ full policy.global + now * policy.global.refill
      → tokens ≤ (now + policy.horizon_ms) * policy.global.refill
  horizon-covers now tokens h =
      omega (arith, h, waits, gain_add now policy.horizon_ms policy.global.refill)

  refresh-Quarantines :
      (now : ℕ) (run_id generation : String) (o : Option Marker) (tokens : ℕ)
      → tokens ≤ full policy.global + now * policy.global.refill
      → Quarantines run_id tokens o
      → tokens
        ≤ (refresh now run_id policy.horizon_ms generation o).quarantine_until
          * policy.global.refill
  unfolding refresh
  refresh-Quarantines now run_id generation none tokens h q = horizon-covers now tokens h
  refresh-Quarantines now run_id generation (some m) tokens h q =
      elim (Bool-cases (str_eq m.run_id run_id)) [
        | inl e ↦ rw (e) (kept e q)
        | inr e ↦ rw (e) (horizon-covers now tokens h)
      ]
    where
      kept :
          str_eq m.run_id run_id ≡ true
          → Quarantines run_id tokens (some m)
          → tokens ≤ m.quarantine_until * policy.global.refill
      kept e (inl ne) = cc (e, ne)
      kept e (inr h') = h'

  -- The script behind the quarantine spends only what the bucket holds.
  take-Rated :
      (now n : ℕ) (p g : Option Bucket)
      → Keyed policy.global g
      → n * token policy.global + level policy.global now g
        ≤ full policy.global + now * policy.global.refill
      → let r = take_tokens policy now p g in
        Keyed policy.global r.2
        × (counted r.0 n * token policy.global + level policy.global now r.2
            ≤ full policy.global + now * policy.global.refill)
  unfolding take_tokens
  take-Rated now n p g keyed h =
      elim (Bool-cases (
        ltb (level policy.principal now p) (token policy.principal)
        || ltb (level policy.global now g) (token policy.global))) [
          | inl e ↦ rw (e) (keyed, h)
          | inr e ↦ rw (e) (filled, given (enough _ _ e))
        ]
    where
      enough : (b c : Bool) → (b || c) ≡ false → c ≡ false
      enough b c e = ground arith

      left : ℕ
      left = level policy.global now g - token policy.global

      filled : Keyed policy.global (take_token policy policy.global now g)
      filled = omega (
        arith,
        refills,
        gain_mono policy.ttl_ms (now + policy.ttl_ms - now) policy.global.refill (omega arith),
      )

      given :
          ltb (level policy.global now g) (token policy.global) ≡ false
          → (n + 1) * token policy.global
              + level policy.global now (take_token policy policy.global now g)
            ≤ full policy.global + now * policy.global.refill
      given e = ground (arith, h, lasts, gain_add n 1 (token policy.global))

  ask-IsRated :
      (p : Option Bucket) (generation : String) (w : RateWorld)
      → IsRated w
      → IsRated (rate_step policy w (ask p generation))
  unfolding rate_step token_bucket
  ask-IsRated p generation w i = elim (Bool-cases (ltb w.now m.quarantine_until)) [
    | inl e ↦ rw (e) (record { keyed = i.keyed; bound = i.bound; backed = later i.backed })
    | inr e ↦ rw (e) (given e)
  ]
    where
      m : Marker
      m = refresh w.now w.run_id policy.horizon_ms generation w.marker

      later :
          (spent w + level policy.global w.now w.global ≤ budget w)
            ⊎ Quarantines w.run_id (spent w) w.marker
          → (spent w + level policy.global w.now w.global ≤ budget w)
            ⊎ Quarantines w.run_id (spent w) (some m)
      later (inl h) = inl h
      later (inr q) =
          inr (inr (refresh-Quarantines w.now w.run_id generation w.marker (spent w) i.bound q))

      backed :
          ltb w.now m.quarantine_until ≡ false
          → (spent w + level policy.global w.now w.global ≤ budget w)
            ⊎ Quarantines w.run_id (spent w) w.marker
          → spent w + level policy.global w.now w.global ≤ budget w
      backed e (inl h) = h
      backed e (inr q) = omega (
        arith,
        refresh-Quarantines w.now w.run_id generation w.marker (spent w) i.bound q,
        gain_mono m.quarantine_until w.now policy.global.refill (ground arith),
        level-le-full policy.global w.now w.global,
      )

      taken : RateReply × Option Bucket × Option Bucket
      taken = take_tokens policy w.now p w.global

      given :
          ltb w.now m.quarantine_until ≡ false
          → IsRated (record w {
            marker = some m;
            global = taken.2;
            admitted = counted taken.0 w.admitted;
          })
      given e =
          let r = take-Rated w.now w.admitted p w.global i.keyed (backed e i.backed) in
          record { keyed = r.0; bound = omega (arith, r.1); backed = inl r.1 }

  tick-IsRated : (d : ℕ) (w : RateWorld) → IsRated w → IsRated (rate_step policy w (tick d))
  unfolding rate_step
  tick-IsRated d w i = record {
    keyed = i.keyed;
    bound = omega (arith, i.bound, gain_add w.now d policy.global.refill);
    backed = later i.backed;
  }
    where
      later :
          (spent w + level policy.global w.now w.global ≤ budget w)
            ⊎ Quarantines w.run_id (spent w) w.marker
          → (spent w + level policy.global (w.now + d) w.global
              ≤ full policy.global + (w.now + d) * policy.global.refill)
            ⊎ Quarantines w.run_id (spent w) w.marker
      later (inl h) = inl (
          omega (
            arith,
            h,
            level-later policy.global w.now d w.global i.keyed,
            gain_add w.now d policy.global.refill,
          ))
      later (inr q) = inr q

  restart-IsRated :
      (run_id : String) (keeps : Bool) (w : RateWorld)
      → IsRenewed w (restart run_id keeps)
      → IsRated w
      → IsRated (rate_step policy w (restart run_id keeps))
  unfolding rate_step
  restart-IsRated run_id keeps w fresh i = record {
    keyed = tt;
    bound = i.bound;
    backed = inr (other keeps w.marker fresh);
  }
    where
      other :
          (b : Bool) (o : Option Marker)
          → Differs run_id o
          → Quarantines run_id (spent w) (if b then o else none)
      other true none f = tt
      other true (some m) f = inl f
      other false o f = tt

  rate_step-IsRated :
      (w : RateWorld) (e : RateEvent) → IsRenewed w e → IsRated w → IsRated (rate_step policy w e)
  rate_step-IsRated w (tick d) fresh i = tick-IsRated d w i
  rate_step-IsRated w (ask p generation) fresh i = ask-IsRated p generation w i
  rate_step-IsRated w (restart run_id keeps) fresh i = restart-IsRated run_id keeps w fresh i

  rate_run-IsRated :
      (es : List RateEvent) (w : RateWorld)
      → Renewed policy w es
      → IsRated w
      → IsRated (rate_run policy w es)
  unfolding rate_run
  rate_run-IsRated [] w fresh i = i
  rate_run-IsRated (e ∷ es) w fresh i =
      rate_run-IsRated es (rate_step policy w e) fresh.1 (rate_step-IsRated w e fresh.0 i)

  -- If a full bucket refills within the expiry of its key and within the recovery horizon, and each
  -- restart of Redis brings a run id that the marker does not have, then after every run of
  -- requests, waits and losses of the buckets and the marker, the tokens given out since time 0
  -- are at most one full bucket and the refill of the time that has passed.
  pub rate_run-spent-le :
      (es : List RateEvent) (w : RateWorld)
      → Renewed policy w es
      → IsRated w
      → spent (rate_run policy w es)
        ≤ full policy.global + (rate_run policy w es).now * policy.global.refill
  rate_run-spent-le es w fresh i = (rate_run-IsRated es w fresh i).bound
