-- ===== src/Search/Registry.antt =====
-- application/search/registry.py with the values of application/search/models.py and
-- domain/search/models.py that it reads: which provider and region a query is answered with, and
-- whether the provider can do what the query asks for.
pub mod Support
use web_access_mcp_server.Base.{
  ℕ, suc, ◌*◌, String, Bool, true, false, not, ◌&&◌, Option, none, some, List, [], ◌∷◌, ◌++◌, any,
  ltb, str_eq, if◌then◌else◌, is_some, text_length,
}
use web_access_mcp_server.Base.Effects.{Result, ok, raised}

pub data SearchProviderId : Type 0 where
  searxng yandex : SearchProviderId

pub data SearchProviderSelection : Type 0 where
  default_selection select_searxng select_yandex : SearchProviderSelection

pub data SearchSafeMode : Type 0 where
  off moderate strict : SearchSafeMode

pub data SearchTimeRange : Type 0 where
  day month year : SearchTimeRange

pub record SearchQuery : Type 0 where
  pub query : String
  pub provider : SearchProviderSelection
  pub page : ℕ
  pub limit : ℕ
  pub language : Option String
  pub region : Option String
  pub safe_search : Option SearchSafeMode
  pub time_range : Option SearchTimeRange

pub record ProviderCapabilities : Type 0 where
  pub pagination : Bool
  pub language : Bool
  pub region : Bool
  pub safe_search : Bool
  pub time_range : Bool
  pub max_results : ℕ
  pub max_query_length : ℕ
  pub max_query_words : Option ℕ
  pub max_result_window : Option ℕ
  pub supported_time_ranges : List SearchTimeRange
  pub billable : Bool

pub record ProviderDescriptor : Type 0 where
  pub provider_id : SearchProviderId
  pub enabled : Bool
  pub capabilities : ProviderCapabilities
  pub configuration_revision : String

abbrev pub is_provider : SearchProviderId → SearchProviderId → Bool
is_provider searxng searxng = true
is_provider yandex yandex = true
is_provider _ _ = false

abbrev pub is_range : SearchTimeRange → SearchTimeRange → Bool
is_range day day = true
is_range month month = true
is_range year year = true
is_range _ _ = false

-- the first value that fits; a dictionary is a list of entries with different keys
abbrev pub first {ℓ} : {A : Type ℓ} → (A → Bool) → List A → Option A
first p [] = none
first p (x ∷ xs) = let rest = first p xs in if p x then some x else rest

abbrev pub selected : SearchProviderId → SearchProviderSelection → SearchProviderId
selected default_provider default_selection = default_provider
selected default_provider select_searxng = searxng
selected default_provider select_yandex = yandex

-- `SearchProviderRegistry.resolve`; the error is its code
unfoldable pub resolve :
    SearchProviderId
    → List ProviderDescriptor
    → SearchProviderSelection
    → Result String ProviderDescriptor
resolve default_provider providers selection =
    elim (first (λ p. is_provider p.provider_id (selected default_provider selection)) providers) [
      | none ↦ raised "unknown_provider"
      | some p ↦ if not p.enabled then raised "provider_disabled" else ok p
    ]

-- an entry of the region registry, with its mappings
pub record SearchRegionEntry : Type 0 where
  pub region_id : String
  pub mappings : List (SearchProviderId × String)

-- `SearchRegionRegistry.provider_region`
unfoldable pub provider_region :
    List SearchRegionEntry → String → SearchProviderId → Result String String
provider_region entries region_id provider_id =
    elim (first (λ e. str_eq e.region_id region_id) entries) [
      | none ↦ raised "unknown_region"
      | some e ↦ elim (first (λ m. is_provider m.0 provider_id) e.mappings) [
        | none ↦ raised "unsupported_region"
        | some m ↦ ok m.1
      ]
    ]

-- `unsupported.append(name)` under a condition
unfoldable pub append_if : Bool → String → List String → List String
append_if b name unsupported = if b then unsupported ++ (name ∷ []) else unsupported

-- whether the query asks for a time range that the provider does not have
abbrev pub lacks_range : ProviderCapabilities → Option SearchTimeRange → Bool
lacks_range c none = false
lacks_range c (some r) =
    if not c.time_range then true else not (any (is_range r) c.supported_time_ranges)

abbrev pub exceeds : ℕ → Option ℕ → Bool
exceeds n none = false
exceeds n (some limit) = ltb limit n

-- The options of a query that a provider does not support, by the number of words of a text,
-- which is `len(text.split())`.
unfoldable pub unsupported_options : (String → ℕ) → ProviderCapabilities → SearchQuery → List String
unsupported_options words c q = append_if (exceeds (q.page * q.limit) c.max_result_window) "page" (
    append_if (exceeds (words q.query) c.max_query_words) "query" (
      append_if (ltb c.max_query_length (text_length q.query)) "query" (
        append_if (ltb c.max_results q.limit) "limit" (
          append_if (lacks_range c q.time_range) "time_range" (
            append_if (is_some q.safe_search && not c.safe_search) "safe_search" (
              append_if (is_some q.region && not c.region) "region" (
                append_if (is_some q.language && not c.language) "language"
                  (append_if (ltb 1 q.page && not c.pagination) "page" []))))))))

-- `validate_capabilities`
unfoldable pub validate_capabilities :
    (String → ℕ) → ProviderCapabilities → SearchQuery → Result String (Unit {0})
unfolding unsupported_options
validate_capabilities words c q = elim (unsupported_options words c q) [
  | [] ↦ ok tt
  | ◌∷◌ _ _ ↦ raised "unsupported_option"
]
