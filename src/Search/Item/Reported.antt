-- ===== src/Search/Item/Reported.antt =====
-- `_search_item` of application/search/service.py: its item against what was done for it.
use web_access_mcp_server.Base.{
  ℕ, ◌≤◌, ◌≡◌, ◌⊎◌, inl, inr, refl, ap, ◌∙◌, String, Bool, true, false, Option, none, some, [],
  length, arith, if◌then◌else◌, length-take,
}
use web_access_mcp_server.Base.Effects.{Result, ok, raised, lift, try_except, Ensures, bind-Ensures}
use web_access_mcp_server.Common.Results.{LeafOutcome, OperationError, validate_item}
use web_access_mcp_server.Search.Registry.{
  SearchProviderId, SearchQuery, ProviderDescriptor, resolve, validate_capabilities,
}
use web_access_mcp_server.Search.Attempts.{
  attempt_error, cancelled, deadline, other, Fault, interrupt, unreachable, Trace, execute_attempts,
}
use web_access_mcp_server.Search.Attempts.Monitor.{watch, closed, Ended}
use web_access_mcp_server.Search.Attempts.Ended.{Returned, EndsKnown, execute_attempts-Ended}
use web_access_mcp_server.Search.Item.{
  ProviderResult, no_usage, QueryData, PutFault, put_failed, task_cancelled, ItemPorts, ItemState,
  begin, ItemFault, resolution, fault, Item, resolved, bounded, cache_hit, hit_value, note_lease,
  on_fault, free_lease, only_holder, look_again, after_miss, look_up, attempt_policy, as_item,
  run_attempts, query_data, put_result, store, fresh_item, answer, region_of, try_item, search_item,
  error_item, is_uncertain,
}

abbrev pub held : Option Bool → ℕ
held (some true) = 1
held (some false) = 0
held none = 0

-- The lease is counted and not given back yet.
abbrev LeaseHeld : ItemState → Type 0
LeaseHeld s = (s.freed ≡ 0) × (s.taken ≡ held s.lease)

module _ (ports : ItemPorts) (index : ℕ) (q : SearchQuery) where
  abbrev pub IsChosen : ProviderDescriptor → Type 0
  IsChosen p = resolve ports.default_provider ports.providers q.provider ≡ ok p

  -- No attempt was made, or the attempts at the chosen provider have ended in order.
  abbrev pub TraceEnded : Trace ProviderResult → Type 0
  TraceEnded t =
      (t ≡ []) ⊎ ((p : ProviderDescriptor) × IsChosen p × Ended (watch p.capabilities.billable t))

  -- Data from the cache come without attempts; other data count the attempts that were made.
  abbrev pub Counted : QueryData → Trace ProviderResult → Type 0
  Counted d t =
      ((d.cached ≡ true) × (d.usage ≡ no_usage) × (t ≡ []))
      ⊎ ((p : ProviderDescriptor) × IsChosen p
          × (d.cached ≡ false)
          × (watch p.capabilities.billable t ≡ closed d.usage.upstream_attempts)
          × (d.usage.upstream_attempts ≤ (ports.policy p.provider_id).max_attempts)
          × (d.usage.billable_attempts
              ≡ (if p.capabilities.billable then d.usage.upstream_attempts else 0))
          × (length d.results ≤ q.limit))

  abbrev pub CountedOption : Option QueryData → Trace ProviderResult → Type 0
  CountedOption none t = Unit
  CountedOption (some d) t = Counted d t

  abbrev Fresh : ItemState → Type 0
  Fresh s = LeaseHeld s × (s.trace ≡ [])

  abbrev Stopped : ItemFault → ItemState → Type 0
  Stopped e s = LeaseHeld s × TraceEnded s.trace

  abbrev Made : Item → ItemState → Type 0
  Made item s =
      (validate_item item ≡ true)
      × (item.index ≡ index)
      × LeaseHeld s
      × TraceEnded s.trace
      × CountedOption item.value s.trace

  stopped : (s : ItemState) → Fresh s → LeaseHeld s × TraceEnded s.trace
  stopped s h = (h.0, inl h.1)

  lift-Ensures :
      {A : Type 0} (P : A → ItemState → Type 0) (r : Result ItemFault A) (s : ItemState)
      → Fresh s
      → ((a : A) → r ≡ ok a → P a s)
      → Ensures P Stopped (lift r s)
  lift-Ensures P (ok a) s h f = f a refl
  lift-Ensures P (raised e) s h f = stopped s h

  chosen :
      (r : Result String ProviderDescriptor) (p : ProviderDescriptor) → resolved r ≡ ok p → r ≡ ok p
  chosen (ok p') p e = cc e
  chosen (raised c) p e = cc e

  only_holder-Fresh :
      (holder : Bool) (s : ItemState)
      → Fresh s
      → Ensures (λ _. Fresh) Stopped (only_holder ports index q holder s)
  unfolding only_holder
  only_holder-Fresh true s h = h
  only_holder-Fresh false s h = stopped s h

  look_again-Fresh :
      (holder : Bool) (o : Option QueryData) (s : ItemState)
      → Fresh s
      → Ensures (λ _. Fresh) Stopped (look_again ports index q holder o s)
  unfolding look_again
  look_again-Fresh holder (some d) s h = h
  look_again-Fresh holder none s h = only_holder-Fresh holder s h

  abbrev NoLease : ItemState → Type 0
  NoLease s = Fresh s × (s.lease ≡ none)

  noted-Fresh : (holder : Bool) (s : ItemState) → NoLease s → Fresh (note_lease holder s)
  noted-Fresh true s h = ((h.0.0.0, omega (arith, h.0.0.1 ∙ ap held h.1)), h.0.1)
  noted-Fresh false s h = ((h.0.0.0, h.0.0.1 ∙ ap held h.1), h.0.1)

  after_miss-Fresh :
      (o : Option QueryData) (s : ItemState)
      → NoLease s
      → Ensures (λ _. Fresh) Stopped (after_miss ports index q o s)
  unfolding after_miss
  after_miss-Fresh (some d) s h = h.0
  after_miss-Fresh none s h =
      bind-Ensures (λ _ s'. NoLease s') (λ _. Fresh) Stopped (lift (bounded ports.acquire_flight)) _
        s (lift-Ensures (λ _ s'. NoLease s') (bounded ports.acquire_flight) s h.0 (λ _ _. h))
        (λ holder s1 h1.
          bind-Ensures (λ _. Fresh) (λ _. Fresh) Stopped (lift (bounded (ports.cache_get 2))) _
            (note_lease holder s1)
            (lift-Ensures (λ _. Fresh) (bounded (ports.cache_get 2)) (note_lease holder s1)
              (noted-Fresh holder s1 h1) (λ _ _. noted-Fresh holder s1 h1))
            (λ again s2 h2. look_again-Fresh holder (hit_value again) s2 h2))

  look_up-Fresh :
      (disabled : Bool) (s : ItemState)
      → NoLease s
      → Ensures (λ _. Fresh) Stopped (look_up ports index q disabled s)
  unfolding look_up
  look_up-Fresh true s h = h.0
  look_up-Fresh false s h =
      bind-Ensures (λ _ s'. NoLease s') (λ _. Fresh) Stopped (lift (bounded (ports.cache_get 1))) _
        s (lift-Ensures (λ _ s'. NoLease s') (bounded (ports.cache_get 1)) s h.0 (λ _ _. h))
        (λ found s1 h1. after_miss-Fresh (hit_value found) s1 h1)

  run_attempts-Ensures :
      (p : ProviderDescriptor) (region : Option String) (s : ItemState)
      → 1 ≤ (ports.policy p.provider_id).max_attempts
      → IsChosen p
      → Fresh s
      → Ensures
          (λ a s'.
            LeaseHeld s'
            × (watch p.capabilities.billable s'.trace ≡ closed a.1)
            × (a.1 ≤ (ports.policy p.provider_id).max_attempts))
          Stopped
          (run_attempts ports index q p region s)
  unfolding run_attempts
  run_attempts-Ensures p region s le c h =
      go (execute_attempts (ports.attempts p region) (attempt_policy ports index q p) [])
        (execute_attempts-Ended (ports.attempts p region) (attempt_policy ports index q p) le)
    where
      go :
          (r : Result Fault (ProviderResult × ℕ) × Trace ProviderResult)
          → Ensures
              (Returned (ports.attempts p region) (attempt_policy ports index q p))
              (EndsKnown (ports.attempts p region) (attempt_policy ports index q p))
              r
          → Ensures
              (λ a s'.
                LeaseHeld s'
                × (watch p.capabilities.billable s'.trace ≡ closed a.1)
                × (a.1 ≤ (ports.policy p.provider_id).max_attempts))
              Stopped
              (as_item ports index q r.0, record s { trace = r.1 })
      go (ok a, t) e = (h.0, e.0, e.1)
      go (raised f, t) e = (h.0, inr (p, c, e.1))

  -- after the attempts of a chosen provider gave a result
  abbrev Succeeded : ProviderDescriptor → (ProviderResult × ℕ) → ItemState → Type 0
  Succeeded p a s =
      LeaseHeld s
      × (watch p.capabilities.billable s.trace ≡ closed a.1)
      × (a.1 ≤ (ports.policy p.provider_id).max_attempts)

  Succeeded-stops :
      (p : ProviderDescriptor) (a : ProviderResult × ℕ) (s : ItemState)
      → IsChosen p
      → Succeeded p a s
      → LeaseHeld s × TraceEnded s.trace
  Succeeded-stops p a s c h = (h.0, inr (p, c, inr (a.1, h.1)))

  store-keeps :
      (p : ProviderDescriptor) (a : ProviderResult × ℕ) (disabled : Bool) (d : QueryData)
      (s : ItemState)
      → IsChosen p
      → Succeeded p a s
      → Ensures (λ _. Succeeded p a) Stopped (store ports index q disabled d s)
  unfolding store put_result
  store-keeps p a true d s c h = h
  store-keeps p a false d s c h = put (ports.cache_put d)
    where
      put :
          (r : Result PutFault Bool)
          → Ensures (λ _. Succeeded p a) Stopped (put_result ports index q r s)
      put (ok b) = h
      put (raised put_failed) = h
      put (raised task_cancelled) = Succeeded-stops p a s c h

  fresh_item-Made :
      (p : ProviderDescriptor) (region : Option String) (s : ItemState)
      → 1 ≤ (ports.policy p.provider_id).max_attempts
      → IsChosen p
      → Fresh s
      → Ensures Made Stopped (fresh_item ports index q p region s)
  unfolding fresh_item query_data
  fresh_item-Made p region s le c h =
      bind-Ensures (Succeeded p) Made Stopped (run_attempts ports index q p region) _ s
        (run_attempts-Ensures p region s le c h)
        (λ a s1 h1.
          bind-Ensures (λ _. Succeeded p a) Made Stopped
            (store ports index q ports.cache_disabled (query_data ports index q p a.0 a.1)) _ s1
            (store-keeps p a ports.cache_disabled (query_data ports index q p a.0 a.1) s1 c h1)
            (λ b s2 h2. (
              refl,
              refl,
              h2.0,
              (Succeeded-stops p a s2 c h2).1,
              inr (p, c, refl, h2.1, h2.2, refl, length-take q.limit a.0.results),
            )))

  answer-Made :
      (p : ProviderDescriptor) (region : Option String) (o : Option QueryData) (s : ItemState)
      → 1 ≤ (ports.policy p.provider_id).max_attempts
      → IsChosen p
      → Fresh s
      → Ensures Made Stopped (answer ports index q p region o s)
  unfolding answer cache_hit
  answer-Made p region (some d) s le c h = (refl, refl, h.0, inl h.1, inl (refl, refl, h.1))
  answer-Made p region none s le c h = fresh_item-Made p region s le c h

  module _ (tries : (id : SearchProviderId) → 1 ≤ (ports.policy id).max_attempts) where
    try_item-Made : Ensures Made Stopped (try_item ports index q begin)
    unfolding try_item
    try_item-Made =
        bind-Ensures (λ p s. IsChosen p × NoLease s) Made Stopped
          (lift (resolved (resolve ports.default_provider ports.providers q.provider))) _ begin
          (lift-Ensures (λ p s. IsChosen p × NoLease s) _ begin start
            (λ p e. (
              chosen (resolve ports.default_provider ports.providers q.provider) p e,
              (start, refl),
            )))
          (λ p s1 h1.
            bind-Ensures (λ _. NoLease) Made Stopped
              (lift (resolved (validate_capabilities ports.words p.capabilities q))) _ s1
              (lift-Ensures (λ _. NoLease) _ s1 h1.1.0 (λ _ _. h1.1))
              (λ _ s2 h2.
                bind-Ensures (λ _. NoLease) Made Stopped (lift (region_of ports index q p q.region))
                  _ s2 (lift-Ensures (λ _. NoLease) _ s2 h2.0 (λ _ _. h2))
                  (λ region s3 h3.
                    bind-Ensures (λ _. Fresh) Made Stopped
                      (look_up ports index q ports.cache_disabled) _ s3
                      (look_up-Fresh ports.cache_disabled s3 h3)
                      (λ o s4 h4. answer-Made p region o s4 (tries p.provider_id) h1.0 h4))))
      where
        start : Fresh begin
        start = ((refl, refl), refl)

    valid :
        (e : OperationError) (b : Bool)
        → validate_item (error_item index (if b then LeafOutcome.unknown else LeafOutcome.failed) e)
          ≡ true
    valid e true = refl
    valid e false = refl

    on_fault-Made :
        (e : ItemFault) (s : ItemState)
        → LeaseHeld s × TraceEnded s.trace
        → Ensures Made Stopped (on_fault index e s)
    unfolding on_fault
    on_fault-Made (resolution code) s h = (refl, refl, h.0, h.1, tt)
    on_fault-Made (fault (interrupt (attempt_error e))) s h =
        (valid e.error (is_uncertain e.stage), refl, h.0, h.1, tt)
    on_fault-Made (fault (interrupt cancelled)) s h = (refl, refl, h.0, h.1, tt)
    on_fault-Made (fault (interrupt deadline)) s h = (refl, refl, h.0, h.1, tt)
    on_fault-Made (fault (interrupt other)) s h = h
    on_fault-Made (fault unreachable) s h = h

    handled :
        (r : Result ItemFault Item × ItemState)
        → Ensures Made Stopped r
        → Ensures Made Stopped (try_except (λ _. r) (on_fault index) begin)
    handled (ok item, s) h = h
    handled (raised e, s) h = on_fault-Made e s h

  -- What is left at the end: the lease is given back.
  abbrev pub Reported : Item → ItemState → Type 0
  Reported item s =
      (validate_item item ≡ true)
      × (item.index ≡ index)
      × (s.freed ≡ s.taken)
      × TraceEnded s.trace
      × CountedOption item.value s.trace

  abbrev pub Interrupted : ItemFault → ItemState → Type 0
  Interrupted e s = (s.freed ≡ s.taken) × TraceEnded s.trace

  freed :
      (r : Result ItemFault Item × ItemState)
      → Ensures Made Stopped r
      → Ensures Reported Interrupted (r.0, free_lease r.1.lease r.1)
  freed (ok item, s) h = go s.lease h.2
    where
      go : (l : Option Bool) → (s.freed ≡ 0) × (s.taken ≡ held l) → Reported item (free_lease l s)
      go (some true) e = (h.0, h.1, omega (arith, e.0, e.1), h.3, h.4)
      go (some false) e = (h.0, h.1, omega (arith, e.0, e.1), h.3, h.4)
      go none e = (h.0, h.1, omega (arith, e.0, e.1), h.3, h.4)
  freed (raised f, s) h = go s.lease h.0
    where
      go : (l : Option Bool) → (s.freed ≡ 0) × (s.taken ≡ held l) → Interrupted f (free_lease l s)
      go (some true) e = (omega (arith, e.0, e.1), h.1)
      go (some false) e = (omega (arith, e.0, e.1), h.1)
      go none e = (omega (arith, e.0, e.1), h.1)

-- If each provider has at least one attempt, then every item, whatever its services answer, is
-- valid, and its single-flight lease is given back exactly if it was held, also when an exception
-- goes on. The attempts have ended in order, at the chosen provider. Data from the cache come
-- without an attempt and without usage. Other data come with the number of attempts that were made
-- at the chosen provider, which all count as billable exactly if the provider is, and with no more
-- results than the limit.
pub search_item-Reported :
    (ports : ItemPorts) (index : ℕ) (q : SearchQuery)
    → ((id : SearchProviderId) → 1 ≤ (ports.policy id).max_attempts)
    → Ensures (Reported ports index q) (Interrupted ports index q) (search_item ports index q)
unfolding search_item
search_item-Reported ports index q tries =
    freed ports index q (try_except (try_item ports index q) (on_fault index) begin) (
      handled ports index q tries (try_item ports index q begin)
        (try_item-Made ports index q tries))
