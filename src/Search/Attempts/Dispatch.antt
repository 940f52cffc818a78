-- ===== src/Search/Attempts/Dispatch.antt =====
-- What `_execute_attempts` of application/search/service.py does with a lease at hand.
use web_access_mcp_server.Base.{
  ℕ, suc, ◌<◌, ◌≡◌, ◌⊎◌, inl, inr, refl, ap, ◌∙◌, Bool, true, false, ◌&&◌, ◌||◌, not, Option, none,
  some, ◌∷◌, ltb, ltb→lt, ◌==◌, if◌then◌else◌, arith,
}
use web_access_mcp_server.Base.Effects.{Result, ok, raised, Ensures, bind-Ensures}
use web_access_mcp_server.Common.Results.{ExecutionStage}
use web_access_mcp_server.Common.Results.{is_before_dispatch}
use web_access_mcp_server.Search.Attempts.{
  AttemptError, Interrupt, attempt_error, cancelled, deadline, other, Fault, interrupt, UsageFault,
  usage_unavailable, usage_interrupted, AttemptStage, dispatch_possible, AttemptPorts,
  AttemptPolicy, Action, released, started, marked, searched, slept, retry_allowed, Trace, bounded,
  recorded, record_start, record_stage, prepare, delay, outlasts, wait_before_retry, stage_of,
  mark_failed, retry_or_raise, complete, will_retry, on_answer, dispatch,
}
use web_access_mcp_server.Search.Attempts.Monitor.{
  may_repeat, move, watch, Standing, idle, holding, begun, ready, closed, answered, Ended, Known,
  same_refl,
}

module _ {R : Type 0} (ports : AttemptPorts R) (policy : AttemptPolicy) where
  abbrev pub At : Standing → Trace R → Type 0
  At p t = watch policy.billable t ≡ p

  -- one more action
  pub then_ :
      (p q : Standing) (a : Action R) (t : Trace R)
      → At p t
      → move policy.billable p a ≡ q
      → At q (a ∷ t)
  unfolding watch
  then_ p q a t h e = ap (λ p'. move policy.billable p' a) h ∙ e

  -- The lease of attempt `n` is held, and nothing is out of order.
  abbrev pub Releasable : ℕ → Trace R → Type 0
  Releasable n t = Ended (watch policy.billable (released n ∷ t))

  abbrev pub Raises : ℕ → Fault → Trace R → Type 0
  Raises n e t = Known e × Releasable n t

  holding-Releasable : (n : ℕ) (t : Trace R) → At (holding n) t → Releasable n t
  holding-Releasable n t h = inr (n, then_ (holding n) _ (released n) t h (same_refl n (closed n)))

  begun-Releasable : (n : ℕ) (t : Trace R) → At (begun n) t → Releasable n t
  begun-Releasable n t h = inr (n, then_ (begun n) _ (released n) t h (same_refl n (closed n)))

  answered-Releasable : (n : ℕ) (r : Bool) (t : Trace R) → At (answered n r) t → Releasable n t
  answered-Releasable n true t h =
      inl (suc n, then_ (answered n true) _ (released n) t h (same_refl n (idle (suc n))))
  answered-Releasable n false t h =
      inr (n, then_ (answered n false) _ (released n) t h (same_refl n (closed n)))

  -- A record that is written moves the attempts on; one that fails leaves them.
  recorded-Ensures :
      (n : ℕ) (r : Result UsageFault (Unit {0})) (a : Action R) (stage : ExecutionStage)
      (t : Trace R) (q : Standing)
      → At q (a ∷ t)
      → Releasable n t
      → Ensures (λ _. At q) (Raises n) (recorded r a stage t)
  recorded-Ensures n (ok u) a stage t q h rel = h
  recorded-Ensures n (raised usage_unavailable) a stage t q h rel = ((_, refl), rel)
  recorded-Ensures n (raised (usage_interrupted i)) a stage t q h rel = ((i, refl), rel)

  bounded-Ensures :
      (n : ℕ) (r : Result Interrupt (Unit {0})) (t : Trace R) (q : Standing)
      → At q t
      → Releasable n t
      → Ensures (λ _. At q) (Raises n) (bounded r t)
  bounded-Ensures n (ok u) t q h rel = h
  bounded-Ensures n (raised i) t q h rel = ((i, refl), rel)

  -- where a request may be sent from
  abbrev Prepared : ℕ → Bool → Trace R → Type 0
  Prepared n billable t = At (if billable then ready n else holding n) t

  prepare-Ensures :
      (n : ℕ) (billable has_usage : Bool) (t : Trace R)
      → At (holding n) t
      → Ensures (λ _. Prepared n billable) (Raises n) (prepare ports policy n billable has_usage t)
  unfolding prepare record_start record_stage
  prepare-Ensures n false has_usage t h = h
  prepare-Ensures n true false t h = ((_, refl), holding-Releasable n t h)
  prepare-Ensures n true true t h =
      bind-Ensures (λ _. At (begun n)) (λ _. At (ready n)) (Raises n)
        (recorded (ports.start n) (started n) ExecutionStage.before_dispatch) _ t
        (recorded-Ensures n (ports.start n) (started n) _ t (begun n)
          (then_ (holding n) _ (started n) t h (same_refl n (begun n))) (holding-Releasable n t h))
        (λ _ t' h'.
          recorded-Ensures n (ports.mark n dispatch_possible) _ _ t' (ready n)
            (then_ (begun n) _ (marked n dispatch_possible "unknown" none) t' h'
              (same_refl n (ready n)))
            (begun-Releasable n t' h'))

  asked :
      (b : Bool) (n : ℕ) (answer : Result Interrupt R)
      → move b (if b then ready n else holding n) (searched n answer)
        ≡ answered n (may_repeat b answer)
  asked true n answer = same_refl n (answered n (may_repeat true answer))
  asked false n answer = same_refl n (answered n (may_repeat false answer))

  -- What an attempt leaves: a result, or the permission to go on.
  abbrev pub Answered : ℕ → Option R → Trace R → Type 0
  Answered n (some r) t = At (answered n false) t
  Answered n none t = At (answered n true) t × (n < policy.max_attempts)

  Known-if : (b : Bool) (i j : Interrupt) → Known (if b then interrupt i else interrupt j)
  Known-if true i j = (i, refl)
  Known-if false i j = (j, refl)

  complete-Ensures :
      (n : ℕ) (b : Bool) (t : Trace R)
      → At (answered n false) t
      → Ensures (λ _. At (answered n false)) (Raises n) (complete ports policy n b t)
  unfolding complete record_stage
  complete-Ensures n false t h = h
  complete-Ensures n true t h =
      recorded-Ensures n _ _ _ t (answered n false)
        (then_ (answered n false) _ (marked n AttemptStage.completed "succeeded" none) t h
          (same_refl n (answered n false)))
        (answered-Releasable n false t h)

  mark_failed-Ensures :
      (n : ℕ) (e : AttemptError) (w b r : Bool) (t : Trace R)
      → At (answered n r) t
      → Ensures (λ _. At (answered n r)) (Raises n) (mark_failed ports policy n e w b t)
  unfolding mark_failed record_stage
  mark_failed-Ensures n e w false r t h = h
  mark_failed-Ensures n e w true r t h =
      recorded-Ensures n _ _ _ t (answered n r)
        (then_ (answered n r) _ (marked n (stage_of ports policy e) _ _) t h
          (same_refl n (answered n r)))
        (answered-Releasable n r t h)

  wait-Ensures :
      (n : ℕ) (e : AttemptError) (t : Trace R)
      → At (answered n true) t
      → Ensures (λ _. At (answered n true)) (Raises n) (wait_before_retry ports policy n e t)
  unfolding wait_before_retry
  wait-Ensures n e t h = go (outlasts ports policy (ports.remaining n) d) (d == 0)
    where
      d : ℕ
      d = delay ports policy n e.error.retry_after_seconds

      slept-At : At (answered n true) (slept n ∷ t)
      slept-At = then_ (answered n true) _ (slept n) t h (same_refl n (answered n true))

      go :
          (b c : Bool)
          → Ensures
              (λ _. At (answered n true))
              (Raises n)
              (if b
                then (raised (interrupt deadline), t)
                else if c
                then (ok tt, t)
                else bounded (ports.sleep n d) (slept n ∷ t))
      go true c = ((deadline, refl), answered-Releasable n true t h)
      go false true = h
      go false false =
          bounded-Ensures n (ports.sleep n d) (slept n ∷ t) (answered n true) slept-At
            (answered-Releasable n true (slept n ∷ t) slept-At)

  retry_or_raise-Ensures :
      (n : ℕ) (e : AttemptError) (w r : Bool) (t : Trace R)
      → At (answered n r) t
      → (w ≡ false) ⊎ ((r ≡ true) × (n < policy.max_attempts))
      → Ensures (Answered n) (Raises n) (retry_or_raise ports policy n e w t)
  unfolding retry_or_raise
  retry_or_raise-Ensures n e false r t h c = ((attempt_error e, refl), answered-Releasable n r t h)
  retry_or_raise-Ensures n e true r t h (inl c) = ground arith
  retry_or_raise-Ensures n e true r t h (inr c) =
      bind-Ensures (λ _. At (answered n true)) (Answered n) (Raises n)
        (wait_before_retry ports policy n e) _ t (wait-Ensures n e t (h ∙ ap (answered n) c.0))
        (λ _ t' h'. (h', c.1))

  may_retry :
      (n : ℕ) (e : AttemptError)
      → (will_retry ports policy n e ≡ false)
        ⊎ ((may_repeat {R = R} policy.billable (raised (attempt_error e)) ≡ true)
            × (n < policy.max_attempts))
  unfolding will_retry retry_allowed
  may_retry n e =
      go (ltb n policy.max_attempts) e.error.retryable policy.billable (is_before_dispatch e.stage)
        (ltb→lt n policy.max_attempts)
    where
      go :
          (b c billable d : Bool)
          → (b ≡ true → n < policy.max_attempts)
          → ((b && (if not c then false else if billable then d else true)) ≡ false)
            ⊎ (((c && (not billable || d)) ≡ true) × (n < policy.max_attempts))
      go false c billable d f = inl refl
      go true false billable d f = inl refl
      go true true false d f = inr (refl, f refl)
      go true true true false f = inl refl
      go true true true true f = inr (refl, f refl)

  on_answer-Ensures :
      (n : ℕ) (answer : Result Interrupt R) (t : Trace R)
      → At (answered n (may_repeat policy.billable answer)) t
      → Ensures (Answered n) (Raises n) (on_answer ports policy n answer t)
  unfolding on_answer
  on_answer-Ensures n (ok result) t h =
      bind-Ensures (λ _. At (answered n false)) (Answered n) (Raises n)
        (complete ports policy n (policy.billable && policy.has_usage)) _ t
        (complete-Ensures n (policy.billable && policy.has_usage) t h) (λ _ t' h'. h')
  on_answer-Ensures n (raised cancelled) t h =
      (Known-if policy.billable _ cancelled, answered-Releasable n false t h)
  on_answer-Ensures n (raised deadline) t h =
      (Known-if policy.billable _ deadline, answered-Releasable n false t h)
  on_answer-Ensures n (raised other) t h = ((other, refl), answered-Releasable n false t h)
  on_answer-Ensures n (raised (attempt_error e)) t h =
      bind-Ensures (λ _. At (answered n r)) (Answered n) (Raises n)
        (mark_failed ports policy n e w (policy.billable && policy.has_usage)) _ t
        (mark_failed-Ensures n e w (policy.billable && policy.has_usage) r t h)
        (λ _ t' h'. retry_or_raise-Ensures n e w r t' h' (may_retry n e))
    where
      w : Bool
      w = will_retry ports policy n e

      r : Bool
      r = may_repeat {R = R} policy.billable (raised (attempt_error e))

  pub dispatch-Ensures :
      (n : ℕ) (t : Trace R)
      → At (holding n) t
      → Ensures (Answered n) (Raises n) (dispatch ports policy n t)
  unfolding dispatch
  dispatch-Ensures n t h =
      bind-Ensures (λ _. Prepared n policy.billable) (Answered n) (Raises n)
        (prepare ports policy n policy.billable policy.has_usage) _ t
        (prepare-Ensures n policy.billable policy.has_usage t h)
        (λ _ t' h'. on_answer-Ensures n (ports.search n) (searched n (ports.search n) ∷ t') (
          then_ (if policy.billable then ready n else holding n) _ (searched n (ports.search n)) t'
            h' (asked policy.billable n (ports.search n))))
