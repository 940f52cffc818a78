-- ===== src/Search/Leases/Limit.antt =====
-- infrastructure/search/admission.py: the leases that are held over time.
use web_access_mcp_server.Base.{
  ℕ, ◌+◌, ◌≤◌, ◌<◌, ◌≡◌, inl, inr, refl, sym, String, Bool, true, false, Option, none, some, List,
  [], ◌∷◌, ◌++◌, length, ltb, leb, ltb→lt, lt→ltb, arith, Bool-cases, All, All-append, All-select,
  All-mono, length-select-append, ◌⊎◌, length-select, length-select-select, length-select_mono,
  select-true, select-false, not, str_eq, if◌then◌else◌,
}
use web_access_mcp_server.Search.Flow.{Marker, refresh}
use web_access_mcp_server.Search.Leases.{
  Lease, LeaseSet, LeasePolicy, read_set, prune, remove, add, acquire_slot, acquire, release, World,
  Event, tick, try_acquire, give_back, restart, step, run, held,
}

-- the leases of a list that are not over at a time
abbrev active : ℕ → List Lease → ℕ
active now ls = length (prune now ls)

-- No lease of the list runs beyond a time.
abbrev Until : ℕ → List Lease → Type 0
Until t = All (λ l. l.expires ≤ t)

Until-mono : (t u : ℕ) (ls : List Lease) → t ≤ u → Until t ls → Until u ls
Until-mono t u ls h = All-mono _ _ ls (λ l e. omega (arith, h, e))

active-later : (now d : ℕ) (ls : List Lease) → active (now + d) ls ≤ active now ls
active-later now d ls =
    length-select_mono _ _ ls
      (λ l e. lt→ltb now l.expires (omega (arith, ltb→lt (now + d) l.expires e)))

-- Leases that are over are not active.
active-none : (t now : ℕ) (ls : List Lease) → t ≤ now → Until t ls → active now ls ≡ 0
active-none t now [] le h = refl
active-none t now (l ∷ ls) le h = elim (Bool-cases (ltb now l.expires)) [
  | inl e ↦ absurd (omega (arith, ltb→lt now l.expires e, h.0, le))
  | inr e ↦ rw (select-false (λ l'. ltb now l'.expires) l ls e) (active-none t now ls le h.1)
]

active-cons : (now : ℕ) (l : Lease) (ls : List Lease) → active now (l ∷ ls) ≤ 1 + active now ls
active-cons now l ls = elim (Bool-cases (ltb now l.expires)) [
  | inl e ↦ rw (select-true (λ l'. ltb now l'.expires) l ls e) (omega arith)
  | inr e ↦ rw (select-false (λ l'. ltb now l'.expires) l ls e) (omega arith)
]

-- That the key of a set expires takes no active lease away, if no lease outlives the key.
active-read_set :
    (now : ℕ) (z : LeaseSet)
    → Until z.key_expires z.members
    → active now (read_set now z) ≡ active now z.members
active-read_set now z h = elim (Bool-cases (leb z.key_expires now)) [
  | inl e ↦ rw (e) (sym (active-none z.key_expires now z.members (ground arith) h))
  | inr e ↦ rw (e) refl
]

read_set-Until : (t now : ℕ) (z : LeaseSet) → Until t z.members → Until t (read_set now z)
read_set-Until t now z h = elim (Bool-cases (leb z.key_expires now)) [
  | inl e ↦ rw (e) tt
  | inr e ↦ rw (e) h
]

-- A restart gives the server a run id that the marker does not have.
abbrev pub Differs : String → Option Marker → Type 0
Differs run_id none = Unit
Differs run_id (some m) = str_eq m.run_id run_id ≡ false

abbrev pub IsRenewed : World → Event → Type 0
IsRenewed w (restart run_id keeps_marker) = Differs run_id w.marker
IsRenewed w _ = Unit

abbrev pub Renewed : LeasePolicy → World → List Event → Type 0
Renewed policy w [] = Unit
Renewed policy w (e ∷ es) = IsRenewed w e × Renewed policy (step policy w e) es

module _ (policy : LeasePolicy) (covered : policy.lease_ms ≤ policy.horizon_ms) where
  -- A forgotten lease runs out by the end of the marker's quarantine, if the marker is current.
  abbrev Quarantines : String → List Lease → Option Marker → Type 0
  Quarantines run_id forgotten none = Unit
  Quarantines run_id forgotten (some m) =
      (str_eq m.run_id run_id ≡ false) ⊎ Until m.quarantine_until forgotten

  pub record IsLeasing (w : World) : Type 0 where
    pub counted : active w.now w.set.members + active w.now w.forgotten ≤ policy.global_limit
    pub keyed : Until w.set.key_expires w.set.members
    pub recent : Until (w.now + policy.lease_ms) w.set.members
    pub recent_forgotten : Until (w.now + policy.lease_ms) w.forgotten
    pub quarantines : Quarantines w.run_id w.forgotten w.marker

  refresh-Quarantines :
      (now : ℕ) (run_id generation : String) (o : Option Marker) (forgotten : List Lease)
      → Until (now + policy.lease_ms) forgotten
      → Quarantines run_id forgotten o
      → Until (refresh now run_id policy.horizon_ms generation o).quarantine_until forgotten
  unfolding refresh
  refresh-Quarantines now run_id generation none forgotten h q =
      Until-mono (now + policy.lease_ms) (now + policy.horizon_ms) forgotten
        (omega (arith, covered)) h
  refresh-Quarantines now run_id generation (some m) forgotten h q =
      elim (Bool-cases (str_eq m.run_id run_id)) [
        | inl e ↦ rw (e) (kept e q)
        | inr e ↦ rw (e) (
            Until-mono (now + policy.lease_ms) (now + policy.horizon_ms) forgotten
              (omega (arith, covered)) h)
      ]
    where
      kept :
          str_eq m.run_id run_id ≡ true
          → Quarantines run_id forgotten (some m)
          → Until m.quarantine_until forgotten
      kept e (inl ne) = cc (e, ne)
      kept e (inr h') = h'

  tick-IsLeasing : (d : ℕ) (w : World) → IsLeasing w → IsLeasing (step policy w (tick d))
  unfolding step
  tick-IsLeasing d w i = record {
    counted =
        omega
          (arith, i.counted, active-later w.now d w.set.members, active-later w.now d w.forgotten);
    keyed = i.keyed;
    recent = Until-mono (w.now + policy.lease_ms) _ w.set.members (omega arith) i.recent;
    recent_forgotten =
        Until-mono (w.now + policy.lease_ms) _ w.forgotten (omega arith) i.recent_forgotten;
    quarantines = i.quarantines;
  }

  release-IsLeasing :
      (token : String) (w : World) → IsLeasing w → IsLeasing (step policy w (give_back token))
  unfolding step release
  release-IsLeasing token w i = record {
    counted = omega (
      arith,
      i.counted,
      fewer w.set.members,
      length-select-select (λ l. ltb w.now l.expires) (λ l. not (str_eq l.token token))
          (read_set w.now w.set),
      active-read_set w.now w.set i.keyed,
      fewer w.forgotten,
    );
    keyed = All-select _ _ _ (read_set-Until w.set.key_expires w.now w.set i.keyed);
    recent = All-select _ _ _ (read_set-Until (w.now + policy.lease_ms) w.now w.set i.recent);
    recent_forgotten = All-select _ _ w.forgotten i.recent_forgotten;
    quarantines = still w.marker i.quarantines;
  }
    where
      fewer : (ls : List Lease) → active w.now (remove token ls) ≤ active w.now ls
      fewer = length-select-select (λ l. ltb w.now l.expires) (λ l. not (str_eq l.token token))

      still :
          (o : Option Marker)
          → Quarantines w.run_id w.forgotten o
          → Quarantines w.run_id (remove token w.forgotten) o
      still none q = tt
      still (some m) (inl ne) = inl ne
      still (some m) (inr h) = inr (All-select _ _ w.forgotten h)

  restart-IsLeasing :
      (run_id : String) (keeps : Bool) (w : World)
      → IsRenewed w (restart run_id keeps)
      → IsLeasing w
      → IsLeasing (step policy w (restart run_id keeps))
  unfolding step
  restart-IsLeasing run_id keeps w fresh i = record {
    counted = omega (
      arith,
      i.counted,
      length-select-append (λ l. ltb w.now l.expires) (read_set w.now w.set) w.forgotten,
      active-read_set w.now w.set i.keyed,
    );
    keyed = tt;
    recent = tt;
    recent_forgotten =
        All-append _ (read_set w.now w.set) w.forgotten
          (read_set-Until (w.now + policy.lease_ms) w.now w.set i.recent) i.recent_forgotten;
    quarantines = other keeps w.marker fresh;
  }
    where
      other :
          (b : Bool) (o : Option Marker)
          → Differs run_id o
          → Quarantines run_id (read_set w.now w.set ++ w.forgotten) (if b then o else none)
      other true none f = tt
      other true (some m) f = inl f
      other false o f = tt

  -- A slot is given only below the limit.
  slot-IsLeasing :
      (token : String) (w : World) (m : Marker)
      → IsLeasing w
      → Until m.quarantine_until w.forgotten
      → m.quarantine_until ≤ w.now
      → IsLeasing (record w { marker = some m; set = (acquire_slot policy w.now token w.set).1 })
  unfolding acquire_slot
  slot-IsLeasing token w m i until over =
      elim (Bool-cases (leb policy.global_limit (length (prune w.now (read_set w.now w.set))))) [
        | inl e ↦ rw (e) (record {
          counted = omega (arith, i.counted, pruned, none_forgotten);
          keyed = All-select _ _ _ (read_set-Until w.set.key_expires w.now w.set i.keyed);
          recent = All-select _ _ _ (read_set-Until (w.now + policy.lease_ms) w.now w.set i.recent);
          recent_forgotten = i.recent_forgotten;
          quarantines = inr until;
        })
        | inr e ↦ rw (e) (record {
          counted = omega (arith, room e, added, none_forgotten);
          keyed = (omega arith, Until-mono (w.now + policy.lease_ms) _ _ (omega arith) old);
          recent = (omega arith, old);
          recent_forgotten = i.recent_forgotten;
          quarantines = inr until;
        })
      ]
    where
      seen : List Lease
      seen = prune w.now (read_set w.now w.set)

      lease : Lease
      lease = record { token = token; expires = w.now + policy.lease_ms }

      room : leb policy.global_limit (length seen) ≡ false → length seen < policy.global_limit
      room e = ground arith

      none_forgotten : active w.now w.forgotten ≡ 0
      none_forgotten = active-none m.quarantine_until w.now w.forgotten over until

      pruned : active w.now seen ≤ active w.now w.set.members
      pruned = omega (
        arith,
        length-select (λ l. ltb w.now l.expires) seen,
        active-read_set w.now w.set i.keyed,
      )

      added : active w.now (add lease seen) ≤ 1 + length seen
      added = omega (
        arith,
        active-cons w.now lease (remove token seen),
        length-select (λ l. ltb w.now l.expires) (remove token seen),
        length-select (λ l. not (str_eq l.token token)) seen,
      )

      old : Until (w.now + policy.lease_ms) (remove token seen)
      old = All-select _ _ _ (All-select _ _ _ (read_set-Until _ w.now w.set i.recent))

  acquire-IsLeasing :
      (token generation : String) (w : World)
      → IsLeasing w
      → IsLeasing (step policy w (try_acquire token generation))
  unfolding step acquire
  acquire-IsLeasing token generation w i = elim (Bool-cases (ltb w.now m.quarantine_until)) [
    | inl e ↦ rw (e) (record {
      counted = i.counted;
      keyed = i.keyed;
      recent = i.recent;
      recent_forgotten = i.recent_forgotten;
      quarantines = inr until;
    })
    | inr e ↦ rw (e) (slot-IsLeasing token w m i until (over e))
  ]
    where
      m : Marker
      m = refresh w.now w.run_id policy.horizon_ms generation w.marker

      over : ltb w.now m.quarantine_until ≡ false → m.quarantine_until ≤ w.now
      over e = ground arith

      until : Until m.quarantine_until w.forgotten
      until =
          refresh-Quarantines w.now w.run_id generation w.marker w.forgotten i.recent_forgotten
            i.quarantines

  step-IsLeasing :
      (w : World) (e : Event) → IsRenewed w e → IsLeasing w → IsLeasing (step policy w e)
  step-IsLeasing w (tick d) fresh i = tick-IsLeasing d w i
  step-IsLeasing w (try_acquire token generation) fresh i = acquire-IsLeasing token generation w i
  step-IsLeasing w (give_back token) fresh i = release-IsLeasing token w i
  step-IsLeasing w (restart run_id keeps) fresh i = restart-IsLeasing run_id keeps w fresh i

  run-IsLeasing :
      (es : List Event) (w : World)
      → Renewed policy w es
      → IsLeasing w
      → IsLeasing (run policy w es)
  unfolding run
  run-IsLeasing [] w fresh i = i
  run-IsLeasing (e ∷ es) w fresh i =
      run-IsLeasing es (step policy w e) fresh.1 (step-IsLeasing w e fresh.0 i)

  -- If the recovery horizon is no shorter than a lease, and each restart of Redis brings a run id
  -- that the marker does not have, then after every run of acquisitions, releases, expiries and
  -- losses of the set and the marker, no more leases than the limit are held, those that Redis
  -- forgot included.
  pub run-held-le :
      (es : List Event) (w : World)
      → Renewed policy w es
      → IsLeasing w
      → held (run policy w es) ≤ policy.global_limit
  run-held-le es w fresh i = omega (
    arith,
    (run-IsLeasing es w fresh i).counted,
    active-read_set (run policy w es).now (run policy w es).set (run-IsLeasing es w fresh i).keyed,
  )
