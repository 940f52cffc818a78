-- ===== src/Search/Providers/Yandex/Before.antt =====
-- The errors before the request in infrastructure/search/yandex.py.
use web_access_mcp_server.Base.{
  refl, ℕ, ◌*◌, String, Bool, true, false, not, ◌&&◌, Option, none, some, ltb, text_length, is_some,
}
use web_access_mcp_server.Base.Effects.{Result, and_then}
use web_access_mcp_server.Common.Results.{ExecutionStage}
use web_access_mcp_server.Search.Registry.{SearchProviderId, SearchTimeRange}
use web_access_mcp_server.Search.Providers.{ProviderFault, Platform, ProviderRequest, call_timeout}
use web_access_mcp_server.Search.Providers.Stages.{Ends, Ends-and_then, call_timeout-Ends}
use web_access_mcp_server.Search.Providers.Xml.{XmlPlatform}
use web_access_mcp_server.Search.Providers.Yandex.{
  YandexSettings, period_of, credentials, refuse_if, own_request, validate_request, prepare,
  asks_year, not_region, has_regions,
}

module _ (platform : Platform) (xml : XmlPlatform) where
  refuse_if-Ends : (b : Bool) → Ends ExecutionStage.before_dispatch (refuse_if b)
  refuse_if-Ends true = refl
  refuse_if-Ends false = tt

  -- a test before others
  refused-Ends :
      {B : Type 0} (b : Bool) (go : Unit {0} → Result ProviderFault B)
      → ((u : Unit {0}) → Ends ExecutionStage.before_dispatch (go u))
      → Ends ExecutionStage.before_dispatch (and_then (refuse_if b) go)
  refused-Ends b go h =
      Ends-and_then ExecutionStage.before_dispatch (refuse_if b) go (refuse_if-Ends b) h

  own_request-Ends : (id : SearchProviderId) → Ends ExecutionStage.before_dispatch (own_request id)
  own_request-Ends SearchProviderId.yandex = tt
  own_request-Ends SearchProviderId.searxng = tt

  validate_request-Ends :
      (words : String → ℕ) (settings : YandexSettings) (request : ProviderRequest)
      → Ends ExecutionStage.before_dispatch (validate_request words settings request)
  unfolding validate_request
  validate_request-Ends words settings request =
      Ends-and_then ExecutionStage.before_dispatch (own_request request.provider_id) _
        (own_request-Ends request.provider_id)
        (λ _. refused-Ends (ltb 400 (text_length request.query)) _ (λ _.
          refused-Ends (ltb 40 (words request.query)) _ (λ _.
            refused-Ends (ltb 250 (request.page * request.limit)) _ (λ _.
              refused-Ends (is_some request.language) _ (λ _.
                refused-Ends (asks_year request.time_range) _ (λ _.
                  refused-Ends
                    (is_some request.provider_region && not (has_regions settings.search_type)) _
                    (λ _. refuse_if-Ends (not_region request.provider_region))))))))

  credentials-Ends :
      (folder_id api_key : Option String)
      → Ends ExecutionStage.before_dispatch (credentials folder_id api_key)
  credentials-Ends (some f) (some k) = tt
  credentials-Ends (some f) none = refl
  credentials-Ends none _ = refl

  period_of-Ends : (r : Option SearchTimeRange) → Ends ExecutionStage.before_dispatch (period_of r)
  period_of-Ends none = tt
  period_of-Ends (some SearchTimeRange.day) = tt
  period_of-Ends (some SearchTimeRange.month) = tt
  period_of-Ends (some SearchTimeRange.year) = tt

  pub prepare-Ends :
      (words : String → ℕ) (settings : YandexSettings) (remaining : Option ℕ)
      (request : ProviderRequest)
      → Ends ExecutionStage.before_dispatch (prepare platform xml words settings remaining request)
  unfolding prepare
  prepare-Ends words settings remaining request =
      Ends-and_then ExecutionStage.before_dispatch (validate_request words settings request) _
        (validate_request-Ends words settings request)
        (λ _.
          Ends-and_then ExecutionStage.before_dispatch
            (call_timeout remaining settings.request_timeout) _
            (call_timeout-Ends remaining settings.request_timeout)
            (λ timeout.
              Ends-and_then ExecutionStage.before_dispatch
                (credentials settings.folder_id settings.api_key) _
                (credentials-Ends settings.folder_id settings.api_key)
                (λ c.
                  Ends-and_then ExecutionStage.before_dispatch (period_of request.time_range) _
                    (period_of-Ends request.time_range) (λ p. tt))))
