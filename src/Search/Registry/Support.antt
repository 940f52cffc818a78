-- ===== src/Search/Registry/Support.antt =====
-- `validate_capabilities` of application/search/registry.py and the options of a query.
use web_access_mcp_server.Base.{
  ℕ, ◌*◌, ◌≤◌, ◌≡◌, ◌⊎◌, ◌↔◌, inl, inr, refl, String, Bool, true, false, not, ◌&&◌, Option, none,
  some, List, [], ◌∷◌, any, ltb, is_some, is_none, arith, text_length,
}
use web_access_mcp_server.Base.Effects.{Result, ok, raised}
use web_access_mcp_server.Search.Registry.{
  SearchQuery, ProviderCapabilities, SearchTimeRange, is_range, append_if, lacks_range, exceeds,
  unsupported_options, validate_capabilities,
}

abbrev pub Within : ℕ → Option ℕ → Type 0
Within n none = Unit
Within n (some limit) = n ≤ limit

abbrev pub HasRange : ProviderCapabilities → Option SearchTimeRange → Type 0
HasRange c none = Unit
HasRange c (some r) = (c.time_range ≡ true) × (any (is_range r) c.supported_time_ranges ≡ true)

-- an option that is not asked for, or one that is supported
abbrev pub Allows {ℓ} : {A : Type ℓ} → Bool → Option A → Type 0
Allows b o = (is_none o ≡ true) ⊎ (b ≡ true)

pub record IsSupported (words : String → ℕ) (c : ProviderCapabilities) (q : SearchQuery)
    : Type 0 where
  pub page : (q.page ≤ 1) ⊎ (c.pagination ≡ true)
  pub language : Allows c.language q.language
  pub region : Allows c.region q.region
  pub safe_search : Allows c.safe_search q.safe_search
  pub time_range : HasRange c q.time_range
  pub limit : q.limit ≤ c.max_results
  pub length : text_length q.query ≤ c.max_query_length
  pub word_count : Within (words q.query) c.max_query_words
  pub window : Within (q.page * q.limit) c.max_result_window

Within-iff : (n : ℕ) (o : Option ℕ) → (exceeds n o ≡ false) ↔ Within n o
Within-iff n none = (λ _. tt, λ _. refl)
Within-iff n (some limit) = ground arith

HasRange-iff :
    (c : ProviderCapabilities) (o : Option SearchTimeRange)
    → (lacks_range c o ≡ false) ↔ HasRange c o
HasRange-iff c none = (λ _. tt, λ _. refl)
HasRange-iff c (some r) = ground arith

Allows-iff {ℓ} :
    {A : Type ℓ} (b : Bool) (o : Option A) → ((is_some o && not b) ≡ false) ↔ Allows b o
Allows-iff b none = (λ _. inl refl, λ _. refl)
Allows-iff true (some a) = (λ _. inr refl, λ _. refl)
Allows-iff false (some a) = ground arith

page_iff : (page : ℕ) (b : Bool) → ((ltb 1 page && not b) ≡ false) ↔ ((page ≤ 1) ⊎ (b ≡ true))
page_iff page b = ground arith

limit_iff : (a b : ℕ) → (ltb b a ≡ false) ↔ (a ≤ b)
limit_iff a b = ground arith

-- Nothing is appended exactly if the condition fails and nothing was there.
append_if_iff :
    (b : Bool) (name : String) (l : List String)
    → (append_if b name l ≡ []) ↔ ((b ≡ false) × (l ≡ []))
unfolding append_if
append_if_iff false name l = (λ h. (refl, h), λ h. h.1)
append_if_iff true name [] = (λ h. cc h, λ h. cc (h.0))
append_if_iff true name (x ∷ l) = (λ h. cc h, λ h. cc (h.0))

unsupported_iff :
    (words : String → ℕ) (c : ProviderCapabilities) (q : SearchQuery)
    → (unsupported_options words c q ≡ []) ↔ IsSupported words c q
unfolding unsupported_options
unsupported_iff words c q = (
  λ h.
      let h1 = (append_if_iff _ _ _).0 h in
      let h2 = (append_if_iff _ _ _).0 h1.1 in
      let h3 = (append_if_iff _ _ _).0 h2.1 in
      let h4 = (append_if_iff _ _ _).0 h3.1 in
      let h5 = (append_if_iff _ _ _).0 h4.1 in
      let h6 = (append_if_iff _ _ _).0 h5.1 in
      let h7 = (append_if_iff _ _ _).0 h6.1 in
      let h8 = (append_if_iff _ _ _).0 h7.1 in
      let h9 = (append_if_iff _ _ _).0 h8.1 in
      record {
        page = (page_iff q.page c.pagination).0 h9.0;
        language = (Allows-iff c.language q.language).0 h8.0;
        region = (Allows-iff c.region q.region).0 h7.0;
        safe_search = (Allows-iff c.safe_search q.safe_search).0 h6.0;
        time_range = (HasRange-iff c q.time_range).0 h5.0;
        limit = (limit_iff q.limit c.max_results).0 h4.0;
        length = (limit_iff (text_length q.query) c.max_query_length).0 h3.0;
        word_count = (Within-iff (words q.query) c.max_query_words).0 h2.0;
        window = (Within-iff (q.page * q.limit) c.max_result_window).0 h1.0;
      },
  λ s. (append_if_iff _ _ _).1 (
    (Within-iff _ c.max_result_window).1 s.window,
    (append_if_iff _ _ _).1 (
      (Within-iff _ c.max_query_words).1 s.word_count,
      (append_if_iff _ _ _).1 (
        (limit_iff _ _).1 s.length,
        (append_if_iff _ _ _).1 (
          (limit_iff _ _).1 s.limit,
          (append_if_iff _ _ _).1 (
            (HasRange-iff c q.time_range).1 s.time_range,
            (append_if_iff _ _ _).1 (
              (Allows-iff c.safe_search q.safe_search).1 s.safe_search,
              (append_if_iff _ _ _).1 (
                (Allows-iff c.region q.region).1 s.region,
                (append_if_iff _ _ _).1 (
                  (Allows-iff c.language q.language).1 s.language,
                  (append_if_iff _ _ _).1 ((page_iff q.page c.pagination).1 s.page, refl),
                ),
              ),
            ),
          ),
        ),
      ),
    ),
  ),
)

-- The capabilities of a provider accept a query exactly if each option that the query uses is
-- supported, and its limit, length, words and window are within the provider's.
pub validate-iff-IsSupported :
    (words : String → ℕ) (c : ProviderCapabilities) (q : SearchQuery)
    → (validate_capabilities words c q ≡ ok tt) ↔ IsSupported words c q
unfolding validate_capabilities
validate-iff-IsSupported words c q = (
  λ h. (unsupported_iff words c q).0 (empty (unsupported_options words c q) h),
  λ s. rw ((unsupported_iff words c q).1 s, validate_capabilities) refl,
)
  where
    empty :
        (l : List String)
        → ◌≡◌ {A = Result String (Unit {0})}
            (elim l [ [] ↦ ok tt | ◌∷◌ _ _ ↦ raised "unsupported_option" ])
            (ok tt)
        → l ≡ []
    empty [] h = refl
    empty (x ∷ l) h = cc h
