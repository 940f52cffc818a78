-- ===== src/Search/Providers/Yandex/Stages.antt =====
-- The stages of the errors that `search` of infrastructure/search/yandex.py raises, and what they
-- mean for the repetition of a billable attempt.
use web_access_mcp_server.Base.{
  ◌≡◌, refl, subst, ℕ, String, Bool, true, false, not, ◌||◌, Option, none, some, leb, ◌==◌,
  if◌then◌else◌, Bool-cases, inl, inr,
}
use web_access_mcp_server.Base.Effects.{Result, ok, raised}
use web_access_mcp_server.Common.Results.{ExecutionStage, is_before_dispatch}
use web_access_mcp_server.Search.Attempts.{AttemptError, retry_allowed}
use web_access_mcp_server.Search.Providers.{
  ProviderError, ProviderFault, attempt_error, not_connected, timed_out, transport_failed,
  other_error, Response, Exchange, unanswered, answered, Platform, ProviderRequest, retry_after,
  request_id,
}
use web_access_mcp_server.Search.Providers.Stages.{
  answered-known, known_stage, exchanged, Staged, Ends, Answers, bounded-Answers, sent-Ends,
  retry_after-Ends,
}
use web_access_mcp_server.Search.Providers.Xml.{XmlPlatform}
use web_access_mcp_server.Search.Providers.Yandex.Reading.{interpret-Ends}
use web_access_mcp_server.Search.Providers.Yandex.Before.{prepare-Ends}
use web_access_mcp_server.Search.Providers.Yandex.{
  YandexSettings, YandexCall, too_large, client_fault, bounded_body, rate_limited, status_error,
  prepare, receive, interpret, search,
}

-- nothing was sent
abbrev pub not_sent : Option Exchange → Bool
not_sent none = true
not_sent (some (unanswered not_connected)) = true
not_sent (some _) = false

module _ (platform : Platform) (xml : XmlPlatform) where
  rate_limited-Staged :
      (id : Option String) (after : Result ProviderFault (Option ℕ))
      → Ends ExecutionStage.terminal_known after
      → Staged ExecutionStage.terminal_known (rate_limited platform xml id after)
  rate_limited-Staged id (ok n) h = refl
  rate_limited-Staged id (raised fault) h = h

  status_error-Staged :
      (response : Response)
      → Staged ExecutionStage.terminal_known (status_error platform xml response)
  unfolding status_error
  status_error-Staged response =
      elim (Bool-cases (response.status == 401 || response.status == 403)) [
        | inl a ↦ rw a refl
        | inr a ↦ elim (Bool-cases (response.status == 429)) [
          | inl e ↦
              rw (a, e)
                (rate_limited-Staged (request_id response.header)
                  (retry_after platform (response.header "retry-after"))
                  (retry_after-Ends platform (response.header "retry-after")))
          | inr e ↦ elim (Bool-cases (leb 500 response.status)) [
            | inl l ↦ rw (a, e, l) refl
            | inr l ↦ rw (a, e, l) refl
          ]
        ]
      ]

  receive-Answers :
      (settings : YandexSettings) (exchange : Exchange)
      → Answers
          (known_stage settings.max_response_bytes (some exchange))
          (receive platform xml settings exchange)
  unfolding receive bounded_body client_fault
  receive-Answers settings (unanswered not_connected) = refl
  receive-Answers settings (unanswered timed_out) = refl
  receive-Answers settings (unanswered transport_failed) = refl
  receive-Answers settings (unanswered other_error) = tt
  receive-Answers settings (answered response) = elim (Bool-cases (leb 400 response.status)) [
    | inl e ↦ rw e (status_error-Staged response)
    | inr e ↦ rw e (
        bounded-Answers (too_large (request_id response.header)) client_fault
          settings.max_response_bytes response refl refl refl tt)
  ]

  -- what the client makes of the call, where there is one
  abbrev pub fate :
      (String → ℕ)
      → YandexSettings
      → (YandexCall → Exchange)
      → Option ℕ
      → ProviderRequest
      → Option Exchange
  fate words settings client remaining request =
      exchanged (prepare platform xml words settings remaining request) client

  -- An error of an attempt has the stage that is known of the request: before_dispatch exactly where
  -- the tests, the time or the credentials kept it from being made or the client got no connection,
  -- response_lost where no answer came or its body broke off within the bound, and terminal_known
  -- where the server answered.
  pub search-known_stage :
      (words : String → ℕ) (settings : YandexSettings) (client : YandexCall → Exchange) (now : ℕ)
      (remaining : Option ℕ) (request : ProviderRequest) (e : ProviderError)
      → search platform xml words settings client now remaining request ≡ raised (attempt_error e)
      → e.stage
        ≡ known_stage settings.max_response_bytes (fate words settings client remaining request)
  unfolding search
  search-known_stage words settings client now remaining request e h =
      subst
        (Ends
          (known_stage settings.max_response_bytes (fate words settings client remaining request)))
        h
        (sent-Ends settings.max_response_bytes
          (prepare platform xml words settings remaining request) client
          (receive platform xml settings)
          (λ got. interpret platform xml settings request now got.0 got.1)
          (prepare-Ends platform xml words settings remaining request) (receive-Answers settings)
          (λ got. interpret-Ends platform xml settings request now got.0 got.1))

  before_dispatch-not_sent :
      (maximum : ℕ) (o : Option Exchange)
      → is_before_dispatch (known_stage maximum o) ≡ true
      → not_sent o ≡ true
  before_dispatch-not_sent maximum none h = refl
  before_dispatch-not_sent maximum (some (unanswered not_connected)) h = refl
  before_dispatch-not_sent maximum (some (unanswered timed_out)) h = h
  before_dispatch-not_sent maximum (some (unanswered transport_failed)) h = h
  before_dispatch-not_sent maximum (some (unanswered other_error)) h = h
  before_dispatch-not_sent maximum (some (answered response)) h =
      cc (answered-known maximum response, h)

  -- the error as the retries of the service see it
  abbrev pub as_attempt : ProviderError → AttemptError
  as_attempt e = record { error = e.error; stage = e.stage }

  retry_allowed-before_dispatch :
      (e : AttemptError) → retry_allowed true e ≡ true → is_before_dispatch e.stage ≡ true
  unfolding retry_allowed
  retry_allowed-before_dispatch e h = elim (Bool-cases e.error.retryable) [
    | inl r ↦ subst (λ b. (if not b then false else is_before_dispatch e.stage) ≡ true) r h
    | inr r ↦ cc (subst (λ b. (if not b then false else is_before_dispatch e.stage) ≡ true) r h)
  ]

  -- The service repeats an attempt at Yandex, which is billable, only where nothing was sent: the
  -- request was not made, or the client got no connection.
  pub retry_allowed-not_sent :
      (words : String → ℕ) (settings : YandexSettings) (client : YandexCall → Exchange) (now : ℕ)
      (remaining : Option ℕ) (request : ProviderRequest) (e : ProviderError)
      → search platform xml words settings client now remaining request ≡ raised (attempt_error e)
      → retry_allowed true (as_attempt e) ≡ true
      → not_sent (fate words settings client remaining request) ≡ true
  retry_allowed-not_sent words settings client now remaining request e h r =
      before_dispatch-not_sent settings.max_response_bytes
        (fate words settings client remaining request)
        (subst (λ s. is_before_dispatch s ≡ true)
          (search-known_stage words settings client now remaining request e h)
          (retry_allowed-before_dispatch (as_attempt e) r))
