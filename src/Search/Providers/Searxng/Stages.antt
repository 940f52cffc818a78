-- ===== src/Search/Providers/Searxng/Stages.antt =====
-- The stages of the errors that `search` of infrastructure/search/searxng.py raises.
use web_access_mcp_server.Base.{
  ◌≡◌, refl, subst, ℕ, String, Option, none, some, List, [], ◌∷◌, ◌++◌, length, leb, ltb, ◌==◌,
  Bool-cases, inl, inr, text_length, take, ◌+◌,
}
use web_access_mcp_server.Base.Effects.{Result, ok, raised, and_then}
use web_access_mcp_server.Common.Results.{ExecutionStage}
use web_access_mcp_server.Search.Registry.{SearchProviderId}
use web_access_mcp_server.Search.Providers.{
  Parsed, ProviderError, ProviderFault, attempt_error, not_connected, timed_out, transport_failed,
  other_error, Response, Exchange, unanswered, answered, Json, json_null, json_text, json_list,
  json_object, json_other, JsonFault, invalid_json, value_error, other_json_fault, IsoDate, not_iso,
  naive, out_of_range, aware, Platform, ProviderRequest, call_timeout, retry_after, request_id, get,
  result_item,
}
use web_access_mcp_server.Search.Providers.Stages.{
  known_stage, exchanged, Staged, Ends, Answers, Ends-and_then, bounded-Answers, sent-Ends,
  call_timeout-Ends, result_item-Ends, retry_after-Ends,
}
use web_access_mcp_server.Search.Providers.Searxng.Items.{made}
use web_access_mcp_server.Search.Providers.Searxng.{
  SearxngSettings, Params, params, client_fault, too_large, bounded_body, decode_payload,
  checked_payload, as_list, Accepted, accepted, item_at, published_at, to_utc, parse_item,
  parse_items, parse_results, rate_limited, status_error, receive, interpret, own_request, search,
}

module _ (platform : Platform) where
  rate_limited-Staged :
      (id : Option String) (after : Result ProviderFault (Option ℕ))
      → Ends ExecutionStage.terminal_known after
      → Staged ExecutionStage.terminal_known (rate_limited platform id after)
  rate_limited-Staged id (ok n) h = refl
  rate_limited-Staged id (raised fault) h = h

  status_error-Staged :
      (response : Response) → Staged ExecutionStage.terminal_known (status_error platform response)
  unfolding status_error
  status_error-Staged response = elim (Bool-cases (response.status == 429)) [
    | inl e ↦ rw e (
        rate_limited-Staged (request_id response.header)
          (retry_after platform (response.header "retry-after"))
          (retry_after-Ends platform (response.header "retry-after")))
    | inr e ↦ elim (Bool-cases (leb 500 response.status)) [
      | inl l ↦ rw (e, l) refl
      | inr l ↦ rw (e, l) refl
    ]
  ]

  receive-Answers :
      (settings : SearxngSettings) (exchange : Exchange)
      → Answers
          (known_stage settings.max_response_bytes (some exchange))
          (receive platform settings exchange)
  unfolding receive bounded_body client_fault
  receive-Answers settings (unanswered not_connected) = refl
  receive-Answers settings (unanswered timed_out) = refl
  receive-Answers settings (unanswered transport_failed) = refl
  receive-Answers settings (unanswered other_error) = tt
  receive-Answers settings (answered response) = elim (Bool-cases (leb 400 response.status)) [
    | inl e ↦ rw e (status_error-Staged response)
    | inr e ↦ rw e (
        bounded-Answers (too_large (request_id response.header)) client_fault
          settings.max_response_bytes response refl refl refl tt)
  ]

  decode_payload-Ends :
      (value : Result JsonFault Json) (id : Option String)
      → Ends ExecutionStage.terminal_known (decode_payload value id)
  unfolding decode_payload
  decode_payload-Ends (raised invalid_json) id = refl
  decode_payload-Ends (raised value_error) id = tt
  decode_payload-Ends (raised other_json_fault) id = tt
  decode_payload-Ends (ok (json_object payload)) id = go (as_list (get "results" payload))
    where
      go :
          (results : Option (List Json))
          → Ends ExecutionStage.terminal_known (checked_payload id payload results)
      go none = refl
      go (some results) = tt
  decode_payload-Ends (ok json_null) id = refl
  decode_payload-Ends (ok (json_text s)) id = refl
  decode_payload-Ends (ok (json_list vs)) id = refl
  decode_payload-Ends (ok json_other) id = refl

  -- only exceptions that nothing catches come out of the parsing
  published_at-Ends :
      (v : Option Json) → Ends ExecutionStage.terminal_known (published_at platform v)
  unfolding published_at
  published_at-Ends (some (json_text s)) = elim (Bool-cases (ltb 128 (text_length s))) [
    | inl e ↦ rw e tt
    | inr e ↦ rw e (go (platform.iso_date (platform.replace s "Z" "+00:00")))
  ]
    where
      go : (d : IsoDate) → Ends ExecutionStage.terminal_known (to_utc platform d)
      go not_iso = tt
      go naive = tt
      go (aware t) = tt
      go out_of_range = tt
  published_at-Ends _ = tt

  item_at-Ends : (n : ℕ) (a : Accepted) → Ends ExecutionStage.terminal_known (item_at platform n a)
  unfolding item_at
  item_at-Ends n a = go (published_at platform a.published) (published_at-Ends a.published)
    where
      go :
          (r : Result ProviderFault (Option ℕ))
          → Ends ExecutionStage.terminal_known r
          → Ends ExecutionStage.terminal_known (and_then r (λ p. result_item (made platform n a p)))
      go (ok p) h = result_item-Ends (made platform n a p)
      go (raised fault) h = h

  parse_item-Ends :
      (o : Option Accepted) (state : Parsed)
      → Ends ExecutionStage.terminal_known (parse_item platform o state)
  unfolding parse_item
  parse_item-Ends none state = tt
  parse_item-Ends (some a) state =
      Ends-and_then ExecutionStage.terminal_known (item_at platform (length state.parsed + 1) a)
        (λ item. ok (record state { parsed = state.parsed ++ (item ∷ []) }))
        (item_at-Ends (length state.parsed + 1) a) (λ item. tt)

  parse_items-Ends :
      (raws : List Json) (state : Parsed)
      → Ends ExecutionStage.terminal_known (parse_items platform raws state)
  unfolding parse_items
  parse_items-Ends [] state = tt
  parse_items-Ends (raw ∷ raws) state =
      Ends-and_then ExecutionStage.terminal_known
        (parse_item platform (accepted platform raw) state) (λ next. parse_items platform raws next)
        (parse_item-Ends (accepted platform raw) state) (λ next. parse_items-Ends raws next)

  interpret-Ends :
      (request : ProviderRequest) (now : ℕ) (response : Response) (body : List ℕ)
      → Ends ExecutionStage.terminal_known (interpret platform request now response body)
  unfolding interpret parse_results
  interpret-Ends request now response body =
      Ends-and_then ExecutionStage.terminal_known
        (decode_payload (platform.loads body) (request_id response.header)) _
        (decode_payload-Ends (platform.loads body) (request_id response.header))
        (λ decoded.
          Ends-and_then ExecutionStage.terminal_known
            (parse_results platform decoded.1 request.limit) _
            (parse_items-Ends (take request.limit decoded.1) (record { parsed = []; skipped = 0 }))
            (λ found. tt))

  search-Ends :
      (settings : SearxngSettings) (client : Params → ℕ → Exchange) (now : ℕ) (remaining : Option ℕ)
      (request : ProviderRequest)
      → Ends
          (known_stage settings.max_response_bytes (
            exchanged
              (call_timeout remaining settings.request_timeout)
              (client (params platform.str request))))
          (search platform settings client now remaining request)
  unfolding search
  search-Ends settings client now remaining request = go request.provider_id
    where
      go :
          (id : SearchProviderId)
          → Ends
              (known_stage settings.max_response_bytes (
                exchanged
                  (call_timeout remaining settings.request_timeout)
                  (client (params platform.str request))))
              (and_then (own_request platform id) (λ _.
                and_then (call_timeout remaining settings.request_timeout) (λ timeout.
                  and_then
                    (receive platform settings (client (params platform.str request) timeout))
                    (λ got. interpret platform request now got.0 got.1))))
      go SearchProviderId.yandex = tt
      go SearchProviderId.searxng =
          sent-Ends settings.max_response_bytes (call_timeout remaining settings.request_timeout)
            (client (params platform.str request)) (receive platform settings)
            (λ got. interpret platform request now got.0 got.1)
            (call_timeout-Ends remaining settings.request_timeout) (receive-Answers settings)
            (λ got. interpret-Ends request now got.0 got.1)

  -- An error of an attempt has the stage that is known of the request: before_dispatch exactly where
  -- the time was over before the call or the client got no connection, response_lost where no answer
  -- came or its body broke off within the bound, and terminal_known where the server answered.
  pub search-known_stage :
      (settings : SearxngSettings) (client : Params → ℕ → Exchange) (now : ℕ) (remaining : Option ℕ)
      (request : ProviderRequest) (e : ProviderError)
      → search platform settings client now remaining request ≡ raised (attempt_error e)
      → e.stage
        ≡ known_stage settings.max_response_bytes (
            exchanged
              (call_timeout remaining settings.request_timeout)
              (client (params platform.str request)))
  search-known_stage settings client now remaining request e h =
      subst
        (Ends (
          known_stage settings.max_response_bytes (
            exchanged (call_timeout remaining settings.request_timeout)
              (client (params platform.str request)))))
        h (search-Ends settings client now remaining request)
